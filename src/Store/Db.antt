-- ===== src/Store/Db.antt =====
-- services/api/src/store.ts: the whole state (`interface Db`) and the operations on one
-- collection that the named ones are instances of.
--
-- Writing the file (`persist`) has no part in what the operations return and is left out: an
-- operation is one synchronous step of the process. The block cursor is in Store/Deposits.antt.
pub mod Laws
use trans_f.Prelude.{ℕ, String, Bool, Option, none, some, List, [], ◌∷◌, ◌++◌, ◌≡◌, str_eq}
use trans_f.Prelude.Lists.{find, modify}
use trans_f.Prelude.Text.{concat}
use trans_f.Exec.{Exec, ok, err, plain}
use trans_f.Store.Users.{User}
use trans_f.Store.Payments.{Quote, Transfer}
use trans_f.Store.Records.{CryptoDeposit, RecoveryRequest, Session, ReceiptShare}

pub record Db : Type 0 where
  pub users : List User
  pub quotes : List Quote
  pub transfers : List Transfer
  pub sessions : List Session
  pub receipt_shares : List ReceiptShare
  pub processed_monerium_orders : List String
  pub processed_monerium_webhooks : List String
  pub crypto_deposits : List CryptoDeposit
  pub recovery_requests : List RecoveryRequest
  pub crypto_deposit_cursor : List (String × ℕ)

abbrev pub empty_db : Db
empty_db = record {
  users = [];
  quotes = [];
  transfers = [];
  sessions = [];
  receipt_shares = [];
  processed_monerium_orders = [];
  processed_monerium_webhooks = [];
  crypto_deposits = [];
  recovery_requests = [];
  crypto_deposit_cursor = [];
}

-- A collection of the store: where it lies and which text names a record of it.
pub record Table (A : Type 0) : Type 0 where
  pub name : String
  pub id_of : A → String
  pub read : Db → List A
  pub write : List A → Db → Db

module _ {A : Type 0} (t : Table A) where
  abbrev pub has_id : String → A → Bool
  has_id id a = str_eq (t.id_of a) id

  -- collection.find((x) => x.id === id)
  unfoldable pub lookup : String → Db → Option A
  lookup id db = find (has_id id) (t.read db)

  -- collection.push(x)
  unfoldable pub push : A → Db → Db
  push a db = t.write (t.read db ++ a ∷ []) db

  -- throw new Error(`unknown x ${id}`)
  unfoldable pub unknown : {B : Type 0} → String → Exec Db B
  unknown id db = (err (plain (concat ("unknown " ∷ t.name ∷ " " ∷ id ∷ []))), db)

  unfoldable pub patch_found : Option A → String → (A → A) → Exec Db A
  unfolding unknown
  patch_found none id patch db = unknown id db
  patch_found (some a) id patch db =
      (ok (patch a), t.write (modify (has_id id) patch (t.read db)) db)

  -- The shape of every `updateX(id, patch)`: find the record, throw if there is none, otherwise
  -- change it in place by `Object.assign` and return it.
  unfoldable pub update : String → (A → A) → Exec Db A
  unfolding lookup patch_found
  update id patch db = patch_found (lookup id db) id patch db

-- What a collection's accessors owe to each other.
pub record IsTable {A : Type 0} (t : Table A) : Type 0 where
  pub read-write : (xs : List A) (db : Db) → t.read (t.write xs db) ≡ xs
