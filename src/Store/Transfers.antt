-- ===== src/Store/Transfers.antt =====
-- services/api/src/store.ts: transfers and the one claim of their authorization.
pub mod Claims
use trans_f.Prelude.{ℕ, String, Bool, true, false, Option, none, some, List, [], ◌∷◌, refl}
use trans_f.Prelude.Tests.{if◌then◌else◌}
use trans_f.Prelude.Lists.{modify}
use trans_f.Exec.{Exec, Result, ok}
use trans_f.Store.Db
use trans_f.Store.Db.{Db, Table, IsTable, has_id}
use trans_f.Store.Payments.{Transfer, TransferState, created, Terms}

abbrev pub table : Table Transfer
table = record {
  name = "transfer";
  id_of = λ t. t.id;
  read = λ db. db.transfers;
  write = λ xs db. record db { transfers = xs };
}

pub table-IsTable : IsTable table
table-IsTable = record { read-write = λ xs db. refl }

-- findTransfer(id)
abbrev pub find_transfer : String → Db → Option Transfer
find_transfer = Db.lookup table

-- addTransfer(t)
abbrev pub add_transfer : Transfer → Db → Db
add_transfer = Db.push table

-- updateTransfer(id, patch), at the time `now`
unfoldable pub update_transfer : ℕ → String → (Transfer → Transfer) → Exec Db Transfer
update_transfer now id patch = Db.update table id (λ t. record (patch t) { updated_at = now })

abbrev pub is_created : TransferState → Bool
is_created created = true
is_created _ = false

-- t.state === "CREATED" && t.auth && !t.auth.authorizedAt
abbrev pub awaits : TransferState → Option Terms → Bool
awaits s none = false
awaits s (some terms) = elim terms.authorized_at [ none ↦ is_created s | some _ ↦ false ]

abbrev pub mark_auth : ℕ → Option Terms → Option Terms
mark_auth now none = none
mark_auth now (some terms) = some (record terms { authorized_at = some now })

abbrev pub mark_authorized : ℕ → Transfer → Transfer
mark_authorized now t = record t { auth = mark_auth now t.auth; updated_at = now }

unfoldable pub claim_found : ℕ → String → Option Transfer → Db → Bool × Db
claim_found now id none db = (false, db)
claim_found now id (some t) db =
    if awaits t.state t.auth
    then (
      true,
      record db { transfers = modify (has_id table id) (mark_authorized now) db.transfers },
    )
    else (false, db)

-- claimAuthorization(id), at the time `now`
unfoldable pub claim_authorization : ℕ → String → Db → Bool × Db
unfolding claim_found
claim_authorization now id db = claim_found now id (find_transfer id db) db
