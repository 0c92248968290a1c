-- ===== src/Store/Deposits.antt =====
-- services/api/src/store.ts: inbound deposits and the block that each chain was scanned to.
use trans_f.Prelude.{
  ℕ, String, false, ◌&&◌, Option, none, some, List, [], ◌∷◌, ◌≡◌, refl, str_eq, eq_refl, eq_iff,
  inl, inr,
}
use trans_f.Prelude.Tests.{if◌then◌else◌, ◌==◌, Bool-cases}
use trans_f.Prelude.Text.{same_folded}
use trans_f.Prelude.Lists.{find}
use trans_f.Exec.{Exec}
use trans_f.Store.Db
use trans_f.Store.Db.{Db, Table, IsTable}
use trans_f.Store.Records.{CryptoDeposit}

abbrev pub table : Table CryptoDeposit
table = record {
  name = "crypto deposit";
  id_of = λ d. d.id;
  read = λ db. db.crypto_deposits;
  write = λ xs db. record db { crypto_deposits = xs };
}

pub table-IsTable : IsTable table
table-IsTable = record { read-write = λ xs db. refl }

-- findCryptoDeposit(txHash, logIndex)
unfoldable pub find_crypto_deposit : String → ℕ → Db → Option CryptoDeposit
unfolding same_folded
find_crypto_deposit hash index db =
    find (λ d. same_folded d.tx_hash hash && d.log_index == index) db.crypto_deposits

-- addCryptoDeposit(d)
abbrev pub add_crypto_deposit : CryptoDeposit → Db → Db
add_crypto_deposit = Db.push table

-- updateCryptoDeposit(id, patch)
unfoldable pub update_crypto_deposit :
    ℕ → String → (CryptoDeposit → CryptoDeposit) → Exec Db CryptoDeposit
update_crypto_deposit now id patch = Db.update table id (λ d. record (patch d) { updated_at = now })

-- obj[key]
unfoldable pub get_key : String → List (String × ℕ) → Option ℕ
get_key key [] = none
get_key key ((k, v) ∷ rest) = if str_eq k key then some v else get_key key rest

-- obj[key] = value
unfoldable pub set_key : String → ℕ → List (String × ℕ) → List (String × ℕ)
set_key key value [] = (key, value) ∷ []
set_key key value ((k, v) ∷ rest) =
    let changed = set_key key value rest in
    if str_eq k key then (k, value) ∷ rest else (k, v) ∷ changed

-- cryptoDepositCursor(chainId), the id as a text
unfoldable pub deposit_cursor : String → Db → Option ℕ
unfolding get_key
deposit_cursor chain db = get_key chain db.crypto_deposit_cursor

-- setCryptoDepositCursor(chainId, block)
unfoldable pub set_deposit_cursor : String → ℕ → Db → Db
unfolding set_key
set_deposit_cursor chain block db = record db {
  crypto_deposit_cursor = set_key chain block db.crypto_deposit_cursor;
}

get-set_self : (k : String) (v : ℕ) (xs : List (String × ℕ)) → get_key k (set_key k v xs) ≡ some v
unfolding get_key set_key
get-set_self k v [] = rw (eq_refl k) refl
get-set_self k v ((j, u) ∷ xs) = elim (Bool-cases (str_eq j k)) [
  | inl e ↦ rw e (rw e refl)
  | inr n ↦ rw n (rw n (get-set_self k v xs))
]

get-set_ne :
    (k j : String) (v : ℕ) (xs : List (String × ℕ))
    → str_eq k j ≡ false
    → get_key j (set_key k v xs) ≡ get_key j xs
unfolding get_key set_key
get-set_ne k j v [] n = rw n refl
get-set_ne k j v ((i, u) ∷ xs) n = elim (Bool-cases (str_eq i k)) [
  | inl e ↦ rw e (rw ((eq_iff i k).0 e) (rw n refl))
  | inr m ↦
      rw m (elim (Bool-cases (str_eq i j)) [
        | inl e ↦ rw e refl
        | inr l ↦ rw l (get-set_ne k j v xs n)
      ])
]

-- Setting a chain's cursor sets that one to the block, and leaves the cursor of every other chain.
pub cursor-set_cursor :
    (chain other : String) (block : ℕ) (db : Db)
    → deposit_cursor other (set_deposit_cursor chain block db)
      ≡ (if str_eq chain other then some block else deposit_cursor other db)
unfolding deposit_cursor set_deposit_cursor
cursor-set_cursor chain other block db = elim (Bool-cases (str_eq chain other)) [
  | inl e ↦ rw e (rw ((eq_iff chain other).0 e) (get-set_self other block db.crypto_deposit_cursor))
  | inr n ↦ rw n (get-set_ne chain other block db.crypto_deposit_cursor n)
]
