-- ===== src/Deposits/Distinct.antt =====
-- services/api/src/adapters/crypto-deposits.ts: what every list of watched addresses satisfies.
use trans_f.Prelude.{
  ℕ, String, Bool, true, false, not, ◌&&◌, ◌||◌, Option, none, some, List, [], ◌∷◌, ◌++◌, ◌≡◌, refl,
  inl, inr, sym, arith, ◌∙◌,
}
use trans_f.Prelude.Tests.{Bool-cases}
use trans_f.Prelude.Lists.{any, any-append, any-tail}
use trans_f.Prelude.Text.{eq_codes}
use trans_f.Store.Users.{User, PaymentPage}
use trans_f.Store.Db.{Db}
use trans_f.Deposits.{Watched, Source, payment_page, safe}
use trans_f.Deposits.Watch.{
  key_of, is_address, is_zero_address, Watching, has, is_at, add, add_page, add_user, add_users,
  watched_addresses, kyc_approved, is_given,
}

-- Every entry is a proper address other than zero, and no later entry has the same one.
abbrev pub IsWatchList : List Watched → Type 0
IsWatchList [] = Unit
IsWatchList (w ∷ ws) =
    (is_address w.address ≡ true)
    × (is_zero_address w.address ≡ false)
    × (any (is_at (key_of w.address)) ws ≡ false)
    × IsWatchList ws

abbrev keys : List Watched → List (List ℕ)
keys [] = []
keys (w ∷ ws) = key_of w.address ∷ keys ws

keys-append :
    (ws : List Watched) (w : Watched) → keys (ws ++ w ∷ []) ≡ keys ws ++ key_of w.address ∷ []
keys-append [] w = refl
keys-append (v ∷ ws) w = rw (keys-append ws w) refl

has-keys : (key : List ℕ) (ws : List Watched) → has key (keys ws) ≡ any (is_at key) ws
unfolding any
has-keys key [] = refl
has-keys key (w ∷ ws) = rw (has-keys key ws) refl

eq_codes_comm : (xs ys : List ℕ) → eq_codes xs ys ≡ eq_codes ys xs
unfolding eq_codes
eq_codes_comm [] [] = refl
eq_codes_comm [] (y ∷ ys) = refl
eq_codes_comm (x ∷ xs) [] = refl
eq_codes_comm (x ∷ xs) (y ∷ ys) = rw (eq_codes_comm xs ys) (ground arith)

any-snoc :
    {A : Type 0} (test : A → Bool) (xs : List A) (y : A)
    → any test xs ≡ false
    → test y ≡ false
    → any test (xs ++ y ∷ []) ≡ false
unfolding any
any-snoc test xs y h k = rw (any-append test xs (y ∷ []), h, k) refl

IsWatchList-append :
    (ws : List Watched) (w : Watched)
    → IsWatchList ws
    → is_address w.address ≡ true
    → is_zero_address w.address ≡ false
    → any (is_at (key_of w.address)) ws ≡ false
    → IsWatchList (ws ++ w ∷ [])
unfolding any
IsWatchList-append [] w h a z n = (a, z, refl, tt)
IsWatchList-append (v ∷ ws) w (va, vz, vn, h) a z n =
    let (apart, rest) = any-tail (is_at (key_of w.address)) v ws n in
    (
      va,
      vz,
      any-snoc (is_at (key_of v.address)) ws w vn
          (eq_codes_comm (key_of v.address) (key_of w.address) ∙ apart),
      IsWatchList-append ws w h a z rest,
    )

-- `seen` holds the keys of what is listed.
record IsTracked (w : Watching) : Type 0 where
  tracked : w.seen ≡ keys w.out
  listed : IsWatchList w.out

fine : (a z : Bool) → (not a || z) ≡ false → (a ≡ true) × (z ≡ false)
fine true false h = (refl, refl)
fine true true h = cc
fine false z h = cc

add-IsTracked :
    (u : User) (a : String) (src : Source) (w : Watching) → IsTracked w → IsTracked (add u a src w)
unfolding add
add-IsTracked u a src w h = elim (Bool-cases (not (is_address a) || is_zero_address a)) [
  | inl bad ↦ rw bad h
  | inr good ↦ rw good (elim (Bool-cases (has (key_of a) w.seen)) [
    | inl old ↦ rw old h
    | inr new ↦ rw new (
        let (proper, nonzero) = fine (is_address a) (is_zero_address a) good in
        record {
          tracked =
              rw (h.tracked)
                (sym (keys-append w.out (record { user = u; address = a; source = src })));
          listed =
              IsWatchList-append w.out (record { user = u; address = a; source = src }) h.listed
                proper nonzero (sym (has-keys (key_of a) w.out) ∙ rw (sym h.tracked) new);
        })
  ])
]

add_page-IsTracked :
    (u : User) (page : Option PaymentPage) (w : Watching)
    → IsTracked w
    → IsTracked (add_page u page w)
unfolding add_page
add_page-IsTracked u none w h = h
add_page-IsTracked u (some p) w h =
    elim (Bool-cases (kyc_approved u.kyc_status && p.auto_convert && is_given p.deposit_address)) [
      | inl yes' ↦ rw yes' (add-IsTracked u p.deposit_address payment_page w h)
      | inr no' ↦ rw no' h
    ]

add_users-IsTracked : (us : List User) (w : Watching) → IsTracked w → IsTracked (add_users us w)
unfolding add_users add_user
add_users-IsTracked [] w h = h
add_users-IsTracked (u ∷ us) w h =
    add_users-IsTracked us (add_user u w)
      (add-IsTracked u u.address safe _ (add_page-IsTracked u u.payment_page w h))

-- The watched addresses are proper, never the zero address, and pairwise different up to the case
-- of their letters.
pub watched_addresses-IsWatchList : (db : Db) → IsWatchList (watched_addresses db)
unfolding watched_addresses
watched_addresses-IsWatchList db =
    (add_users-IsTracked db.users (record { seen = []; out = [] })
      (record { tracked = refl; listed = tt })).listed
