-- ===== src/Reconcile.antt =====
-- services/api/src/reconcile.ts: Monerium's processed orders against those the store recorded.
--
-- Whether the sandbox is on and the orders it lists are given. The details' texts, which only
-- repeat the fields, and the printed report are left out.
use trans_f.Prelude.{
  ℕ, String, Bool, true, false, not, Option, none, some, List, [], ◌∷◌, ◌++◌, ◌≡◌, refl, ◌&&◌, sym,
  ◌∙◌, str_eq, eq_iff, inl, inr,
}
use trans_f.Prelude.Tests.{if◌then◌else◌, Bool-cases}
use trans_f.Prelude.Lists.{length, keep, any}
use trans_f.Store.Db.{Db}
use trans_f.Store.Users.{User}
use trans_f.Store.Accounts.{find_user_by_address}

-- An issue order, as listProcessedIssueOrders gives it.
pub record IssueOrder : Type 0 where
  pub id : String
  pub address : String
  pub amount : ℕ

pub data FindingKind : Type 0 where
  unmirrored phantom : FindingKind

pub record Finding : Type 0 where
  pub kind : FindingKind
  pub amount_eur : Option ℕ
  pub order_id : String
  pub address : Option String

pub record ReconcileReport : Type 0 where
  pub at : ℕ
  pub monerium_orders : ℕ
  pub mirrored_orders : ℕ
  pub users : ℕ
  pub findings : List Finding
  pub is_ok : Bool

-- new Set(xs), in the order of insertion
unfoldable pub distinct : List String → List String
distinct [] = []
distinct (x ∷ xs) = x ∷ keep (λ y. not (str_eq y x)) (distinct xs)

unfoldable pub includes : String → List String → Bool
includes x = any (λ y. str_eq y x)

abbrev is_user : Option User → Bool
is_user none = false
is_user (some u) = true

unfoldable pub unmirrored_of : Db → List String → List IssueOrder → List Finding
unmirrored_of db mirrored [] = []
unmirrored_of db mirrored (o ∷ os) =
    let rest = unmirrored_of db mirrored os in
    if includes o.id mirrored
    then rest
    else if is_user (find_user_by_address o.address db)
    then record {
      kind = unmirrored;
      amount_eur = some o.amount;
      order_id = o.id;
      address = some o.address;
    }
      ∷ rest
    else rest

abbrev ids_of : List IssueOrder → List String
ids_of [] = []
ids_of (o ∷ os) = o.id ∷ ids_of os

unfoldable pub phantoms_of : List String → List String → List Finding
phantoms_of known [] = []
phantoms_of known (id ∷ ids) =
    let rest = phantoms_of known ids in
    if includes id known
    then rest
    else record { kind = phantom; amount_eur = none; order_id = id; address = none } ∷ rest

abbrev is_none : List Finding → Bool
is_none [] = true
is_none _ = false

abbrev pub report : ℕ → List IssueOrder → List String → Db → List Finding → ReconcileReport
report now orders mirrored db findings = record {
  at = now;
  monerium_orders = length orders;
  mirrored_orders = length mirrored;
  users = length db.users;
  findings = findings;
  is_ok = is_none findings;
}

-- reconcile, at the time `now`
unfoldable pub reconcile : Bool → List IssueOrder → ℕ → Db → ReconcileReport
unfolding distinct unmirrored_of phantoms_of
reconcile enabled orders now db =
    let mirrored = distinct db.processed_monerium_orders in
    if enabled
    then report now orders mirrored db
        (unmirrored_of db mirrored orders ++ phantoms_of (ids_of orders) mirrored)
    else report now [] mirrored db []

any-keep_ne :
    (test : String → Bool) (x : String) (ys : List String)
    → test x ≡ false
    → any test (keep (λ y. not (str_eq y x)) ys) ≡ any test ys
unfolding any keep
any-keep_ne test x [] h = refl
any-keep_ne test x (y ∷ ys) h = elim (Bool-cases (str_eq y x)) [
  | inl e ↦
      let same = (eq_iff y x).0 e in rw (e, any-keep_ne test x ys h) (rw (rw (sym same) at h) refl)
  | inr n ↦ rw n (rw (any-keep_ne test x ys h) refl)
]

-- A set has what the list has.
any-distinct : (test : String → Bool) (xs : List String) → any test (distinct xs) ≡ any test xs
unfolding any distinct
any-distinct test [] = refl
any-distinct test (x ∷ xs) = elim (Bool-cases (test x)) [
  | inl hit ↦ rw hit refl
  | inr miss ↦ rw miss (any-keep_ne test x (distinct xs) miss ∙ any-distinct test xs)
]

-- A deposit of one of our users that the store never recorded.
abbrev pub is_missed : Db → IssueOrder → Bool
is_missed db o =
    not (includes o.id db.processed_monerium_orders) && is_user (find_user_by_address o.address db)

-- An order that Monerium does not list.
abbrev pub is_fabricated : List IssueOrder → String → Bool
is_fabricated orders id = not (includes id (ids_of orders))

unmirrored_iff :
    (db : Db) (orders : List IssueOrder)
    → is_none (unmirrored_of db (distinct db.processed_monerium_orders) orders)
      ≡ not (any (is_missed db) orders)
unfolding unmirrored_of any includes
unmirrored_iff db [] = refl
unmirrored_iff db (o ∷ os) =
    rw (any-distinct (λ y. str_eq y o.id) db.processed_monerium_orders)
      (elim (Bool-cases (any (λ y. str_eq y o.id) db.processed_monerium_orders)) [
        | inl recorded ↦ rw recorded (unmirrored_iff db os)
        | inr missing ↦
            rw missing (elim (Bool-cases (is_user (find_user_by_address o.address db))) [
              | inl ours ↦ rw ours refl
              | inr foreign ↦ rw foreign (unmirrored_iff db os)
            ])
      ])

phantoms_iff :
    (orders : List IssueOrder) (ids : List String)
    → is_none (phantoms_of (ids_of orders) ids) ≡ not (any (is_fabricated orders) ids)
unfolding phantoms_of any
phantoms_iff orders [] = refl
phantoms_iff orders (id ∷ ids) = elim (Bool-cases (includes id (ids_of orders))) [
  | inl known ↦ rw known (phantoms_iff orders ids)
  | inr lost ↦ rw lost refl
]

is_none-append : (xs ys : List Finding) → is_none (xs ++ ys) ≡ (is_none xs && is_none ys)
is_none-append [] ys = refl
is_none-append (x ∷ xs) ys = refl

-- With the sandbox on, the report is fine exactly when every listed order of a user's address is
-- recorded, and every recorded order is listed.
pub reconcile_ok :
    (orders : List IssueOrder) (now : ℕ) (db : Db)
    → (reconcile true orders now db).is_ok ≡ (
        not (any (is_missed db) orders)
        && not (any (is_fabricated orders) db.processed_monerium_orders))
unfolding reconcile
reconcile_ok orders now db =
    is_none-append (unmirrored_of db (distinct db.processed_monerium_orders) orders)
      (phantoms_of (ids_of orders) (distinct db.processed_monerium_orders))
    ∙ rw
        (
          unmirrored_iff db orders,
          phantoms_iff orders (distinct db.processed_monerium_orders),
          any-distinct (is_fabricated orders) db.processed_monerium_orders,
        )
        refl
