-- ===== src/Store/Requests.antt =====
-- services/api/src/store.ts: recovery requests.
use trans_f.Prelude.{String, List, refl, Option, str_eq}
use trans_f.Prelude.Lists.{keep}
use trans_f.Exec.{Exec}
use trans_f.Store.Db
use trans_f.Store.Db.{Db, Table, IsTable}
use trans_f.Store.Records.{RecoveryRequest}

abbrev pub table : Table RecoveryRequest
table = record {
  name = "recovery request";
  id_of = λ r. r.id;
  read = λ db. db.recovery_requests;
  write = λ xs db. record db { recovery_requests = xs };
}

pub table-IsTable : IsTable table
table-IsTable = record { read-write = λ xs db. refl }

-- findRecoveryRequest(id)
abbrev pub find_recovery_request : String → Db → Option RecoveryRequest
find_recovery_request = Db.lookup table

-- addRecoveryRequest(r)
abbrev pub add_recovery_request : RecoveryRequest → Db → Db
add_recovery_request = Db.push table

-- updateRecoveryRequest(id, patch)
abbrev pub update_recovery_request :
    String → (RecoveryRequest → RecoveryRequest) → Exec Db RecoveryRequest
update_recovery_request = Db.update table

-- recoveryRequestsForUser(userId)
unfoldable pub recovery_requests_for_user : String → Db → List RecoveryRequest
recovery_requests_for_user uid db = keep (λ r. str_eq r.user_id uid) db.recovery_requests
