-- ===== src/Store/Accounts.antt =====
-- services/api/src/store.ts: users, and the marks on Monerium orders and webhooks.
use trans_f.Prelude.{ℕ, String, Bool, false, Option, none, some, List, [], ◌∷◌, ◌++◌, refl, str_eq}
use trans_f.Prelude.Lists.{find, any}
use trans_f.Prelude.Text.{codes, same_folded, strip_spaces, trim, upper, lower, eq_codes}
use mathlib.Core.List.{map}
use trans_f.Exec.{Exec}
use trans_f.Store.Db
use trans_f.Store.Db.{Db, Table, IsTable}
use trans_f.Store.Users.{User, Passkey, PaymentPage}

abbrev pub table : Table User
table = record {
  name = "user";
  id_of = λ u. u.id;
  read = λ db. db.users;
  write = λ xs db. record db { users = xs };
}

pub table-IsTable : IsTable table
table-IsTable = record { read-write = λ xs db. refl }

-- findUser(id)
abbrev pub find_user : String → Db → Option User
find_user = Db.lookup table

-- addUser(u)
abbrev pub add_user : User → Db → Db
add_user = Db.push table

-- updateUser(id, patch)
abbrev pub update_user : String → (User → User) → Exec Db User
update_user = Db.update table

-- findUserByAddress(address)
unfoldable pub find_user_by_address : String → Db → Option User
find_user_by_address address db = find (λ u. same_folded u.address address) db.users

abbrev credential_is : String → Option Passkey → Bool
credential_is id none = false
credential_is id (some p) = str_eq p.credential_id id

-- findUserByCredential(credentialId)
unfoldable pub find_user_by_credential : String → Db → Option User
find_user_by_credential id db = find (λ u. credential_is id u.passkey) db.users

abbrev handle_is : List ℕ → Option PaymentPage → Bool
handle_is handle none = false
handle_is handle (some p) = eq_codes (codes p.handle) handle

-- findUserByHandle(handle): handles are stored in lower case
unfoldable pub find_user_by_handle : String → Db → Option User
unfolding trim lower eq_codes
find_user_by_handle handle db =
    find (λ u. handle_is (map lower (trim (codes handle))) u.payment_page) db.users

-- iban.replace(/\s/g, "").toUpperCase()
unfoldable pub normal_iban : String → List ℕ
unfolding strip_spaces upper
normal_iban iban = map upper (strip_spaces (codes iban))

-- findUserByIban(iban)
unfoldable pub find_user_by_iban : String → Db → Option User
unfolding normal_iban eq_codes
find_user_by_iban iban db = find (λ u. eq_codes (normal_iban u.iban) (normal_iban iban)) db.users

-- isOrderProcessed(orderId)
unfoldable pub is_order_processed : String → Db → Bool
is_order_processed id db = any (λ x. str_eq x id) db.processed_monerium_orders

-- markOrderProcessed(orderId)
unfoldable pub mark_order_processed : String → Db → Db
mark_order_processed id db = record db {
  processed_monerium_orders = db.processed_monerium_orders ++ id ∷ [];
}

-- isWebhookProcessed(webhookId)
unfoldable pub is_webhook_processed : String → Db → Bool
is_webhook_processed id db = any (λ x. str_eq x id) db.processed_monerium_webhooks

-- markWebhookProcessed(webhookId)
unfoldable pub mark_webhook_processed : String → Db → Db
mark_webhook_processed id db = record db {
  processed_monerium_webhooks = db.processed_monerium_webhooks ++ id ∷ [];
}
