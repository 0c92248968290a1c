-- ===== src/Store/Transfers/Claims.antt =====
-- One claim wins: `claimAuthorization` of services/api/src/store.ts under any interleaving.
use trans_f.Prelude.{
  ℕ, ◌+◌, ◌≤◌, String, ◌≡◌, refl, sym, ◌∙◌, ◌≢◌, Bool, true, false, Option, none, some, List, [],
  ◌∷◌, arith, eq_iff, inl, inr, str_eq,
}
use mathlib.Core.List.{List}
use trans_f.Prelude.Tests.{Bool-cases}
use trans_f.Prelude.Lists.{find-append, find-modify, find-passes}
use trans_f.Store.Db
use trans_f.Store.Db.{Db, has_id, lookup}
use trans_f.Store.Db.Laws.{lookup-update_self, lookup-update_ne, find-modify_ne}
use trans_f.Store.Payments.{Transfer, Terms}
use trans_f.Store.Transfers.{
  table, table-IsTable, find_transfer, add_transfer, update_transfer, awaits, mark_authorized,
  mark_auth, claim_found, claim_authorization,
}

-- The authorization of this transfer was submitted.
abbrev pub IsClaimed : Transfer → Type 0
IsClaimed t = awaits t.state t.auth ≡ false

-- What other code does to the store between two claims.
pub data Event : Type 0 where
  -- claimAuthorization(id), by any request
  claim : String → ℕ → Event
  -- addTransfer(t)
  add : Transfer → Event
  -- updateTransfer(id, patch)
  patch : String → ℕ → (Transfer → Transfer) → Event

-- A patch that keeps the name, and neither reopens a transfer nor drops the mark.
pub record IsHonest (f : Transfer → Transfer) : Type 0 where
  pub same_id : (t : Transfer) → (f t).id ≡ t.id
  pub stays_claimed : (t : Transfer) → IsClaimed t → IsClaimed (f t)

abbrev pub Honest : List Event → Type 0
Honest [] = Unit
Honest (patch id now f ∷ es) = IsHonest f × Honest es
Honest (_ ∷ es) = Honest es

-- The store after one event, and whether it was a winning claim of `id`.
abbrev count : Bool → Bool → ℕ
count true true = 1
count _ _ = 0

happen : Event → Db → Db
happen (claim j now) db = (claim_authorization now j db).1
happen (add t) db = add_transfer t db
happen (patch j now f) db = (update_transfer now j f db).1

abbrev wins_now : String → Event → Db → ℕ
wins_now id (claim j now) db = count (str_eq j id) (claim_authorization now j db).0
wins_now id _ db = 0

-- How many claims of `id` win in a run of the store.
unfoldable pub wins : String → List Event → Db → ℕ
unfolding happen
wins id [] db = 0
wins id (e ∷ es) db = wins_now id e db + wins id es (happen e db)

-- ¬ absent and claimed
abbrev IsSpent : String → Db → Type 0
IsSpent id db = (t : Transfer) × (find_transfer id db ≡ some t) × IsClaimed t

mark-IsClaimed : (now : ℕ) (t : Transfer) → IsClaimed (mark_authorized now t)
mark-IsClaimed now t = go t.auth
  where
    go : (a : Option Terms) → awaits t.state (mark_auth now a) ≡ false
    go none = refl
    go (some terms) = refl

module _ (id : String) (db : Db) where
  claim-IsSpent_ne :
      (j : String) (now : ℕ) → id ≢ j → IsSpent id db → IsSpent id (claim_authorization now j db).1
  unfolding claim_authorization
  claim-IsSpent_ne j now h (t, found, spent) = go (find_transfer j db)
    where
      go : (o : Option Transfer) → IsSpent id (claim_found now j o db).1
      go none = (t, found, spent)
      go (some u) = elim (Bool-cases (awaits u.state u.auth)) [
        | inl w ↦ rw w (
          t,
          unfold lookup in
              find-modify_ne table (mark_authorized now) j id db.transfers (λ a. refl)
                (λ e. h (sym e))
              ∙ found,
          spent,
        )
        | inr l ↦ rw l (t, found, spent)
      ]

  -- A spent claim loses, and changes nothing.
  claim_spent : (now : ℕ) → IsSpent id db → claim_authorization now id db ≡ (false, db)
  unfolding claim_authorization
  claim_spent now (t, found, spent) = rw (found, claim_found) (rw spent refl)

  -- A winning claim spends the authorization.
  claim-IsSpent :
      (now : ℕ)
      → (claim_authorization now id db).0 ≡ true
      → IsSpent id (claim_authorization now id db).1
  unfolding claim_authorization
  claim-IsSpent now won = go (find_transfer id db) refl won
    where
      go :
          (o : Option Transfer)
          → find_transfer id db ≡ o
          → (claim_found now id o db).0 ≡ true
          → IsSpent id (claim_found now id o db).1
      go none found w = cc
      go (some u) found w = elim (Bool-cases (awaits u.state u.auth)) [
        | inl h ↦ rw h (
          mark_authorized now u,
          (unfold lookup in
              find-modify (has_id table id) (mark_authorized now) db.transfers u found
                (find-passes (has_id table id) db.transfers u found)),
          mark-IsClaimed now u,
        )
        | inr l ↦ cc (sym w, l)
      ]

  patch-IsSpent :
      (j : String) (now : ℕ) (f : Transfer → Transfer)
      → IsHonest f
      → IsSpent id db
      → IsSpent id (update_transfer now j f db).1
  unfolding update_transfer
  patch-IsSpent j now f honest (t, found, spent) = elim (Bool-cases (str_eq j id)) [
    | inl e ↦ rw ((eq_iff j id).0 e) (
      record (f t) { updated_at = now },
      lookup-update_self table _ table-IsTable id db t honest.same_id found,
      honest.stays_claimed t spent,
    )
    | inr n ↦ (
      t,
      lookup-update_ne table _ table-IsTable j id db honest.same_id (λ e. cc ((eq_iff j id).1 e, n))
          ∙ found,
      spent,
    )
  ]

  add-IsSpent : (u : Transfer) → IsSpent id db → IsSpent id (add_transfer u db)
  unfolding lookup Db.push
  add-IsSpent u (t, found, spent) =
      (t, find-append (has_id table id) db.transfers (u ∷ []) t found, spent)

claim_any-IsSpent :
    (id j : String) (now : ℕ) (db : Db)
    → IsSpent id db
    → IsSpent id (claim_authorization now j db).1
claim_any-IsSpent id j now db h = elim (Bool-cases (str_eq j id)) [
  | inl e ↦ rw ((eq_iff j id).0 e) (rw (claim_spent id db now h) h)
  | inr n ↦ claim-IsSpent_ne id db j now (λ e. cc ((eq_iff j id).1 (sym e), n)) h
]

count-eq_zero : (b : Bool) → count b false ≡ 0
count-eq_zero true = refl
count-eq_zero false = refl

claim_no_win :
    (id j : String) (now : ℕ) (db : Db) → IsSpent id db → wins_now id (claim j now) db ≡ 0
claim_no_win id j now db h = elim (Bool-cases (str_eq j id)) [
  | inl e ↦ rw ((eq_iff j id).0 e) (rw (claim_spent id db now h) (count-eq_zero _))
  | inr n ↦ rw n refl
]

-- Once spent, no claim wins, whatever happens.
wins_spent :
    (id : String) (es : List Event) (db : Db) → Honest es → IsSpent id db → wins id es db ≡ 0
unfolding wins
wins_spent id [] db honest h = refl
wins_spent id (claim j now ∷ es) db honest h = omega (
  arith,
  claim_no_win id j now db h,
  wins_spent id es (claim_authorization now j db).1 honest (claim_any-IsSpent id j now db h),
)
wins_spent id (add t ∷ es) db honest h =
    omega (arith, wins_spent id es (add_transfer t db) honest (add-IsSpent id db t h))
wins_spent id (patch j now f ∷ es) db (honest, rest) h = omega (
  arith,
  wins_spent id es (update_transfer now j f db).1 rest (patch-IsSpent id db j now f honest h),
)

claim_step :
    (id j : String) (now : ℕ) (es : List Event) (db : Db)
    → Honest es
    → wins id es (claim_authorization now j db).1 ≤ 1
    → wins_now id (claim j now) db + wins id es (claim_authorization now j db).1 ≤ 1
claim_step id j now es db honest ih = elim (Bool-cases (str_eq j id)) [
  | inr n ↦ rw n (omega (arith, ih))
  | inl e ↦ elim (Bool-cases (claim_authorization now j db).0) [
    | inr lost ↦ rw lost (omega (arith, ih, count-eq_zero (str_eq j id)))
    | inl won ↦
        let j_id = (eq_iff j id).0 e in
        let spent : IsSpent id (claim_authorization now j db).1 =
          rw j_id (claim-IsSpent id db now (rw j_id at won)) in
        rw (e, won) (omega (arith, wins_spent id es _ honest spent))
  ]
]

-- However claims, additions and updates of transfers interleave, at most one claim of a transfer's
-- authorization wins, if no update renames a transfer, reopens it or drops the mark of a claim.
pub wins-le-one : (id : String) (es : List Event) (db : Db) → Honest es → wins id es db ≤ 1
unfolding wins
wins-le-one id [] db honest = omega arith
wins-le-one id (claim j now ∷ es) db honest =
    claim_step id j now es db honest (wins-le-one id es (claim_authorization now j db).1 honest)
wins-le-one id (add t ∷ es) db honest = omega (arith, wins-le-one id es (add_transfer t db) honest)
wins-le-one id (patch j now f ∷ es) db (_, rest) =
    omega (arith, wins-le-one id es (update_transfer now j f db).1 rest)
