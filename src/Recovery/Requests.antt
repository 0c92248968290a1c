-- ===== src/Recovery/Requests.antt =====
-- services/api/src/server.ts: the recovery routes. A route is modelled from the found records on; who
-- may call it (the session, the operator's token) is not.
use trans_f.Prelude.{ℕ, String, Bool, true, false, Option, none, some, List, [], ◌∷◌, ◌&&◌, ◌||◌}
use trans_f.Prelude.Tests.{if◌then◌else◌, leb, ◌==◌}
use trans_f.Prelude.Text.{concat, slice, codes}
use trans_f.Exec.{Exec, ok, Error, plain, message, pure, throw, gets, catch, ◌>>=◌, ◌>>◌}
use trans_f.Store.Db.{Db}
use trans_f.Store.Records.{
  RecoveryRequest, RecoveryStatus, guardian_submitted, finalized, canceled, expired, Submission,
}
use trans_f.Store.Accounts.{find_user}
use trans_f.Store.Requests.{find_recovery_request, add_recovery_request, update_recovery_request}
use trans_f.Recovery.{
  Policy, recovery_available, build_recovery_request, status_name, approve_recovery_request,
  status_at, lift, Signer, submit_guardian_recovery,
}

abbrev pub found_or : {A : Type 0} → String → Option A → Exec Db A
found_or why none = throw (plain why)
found_or why (some a) = pure a

-- if (!b) return res.status(400).json({ error: why })
abbrev pub need : Bool → String → Exec Db (Unit {0})
need b why = if b then pure tt else throw (plain why)

abbrev is_hex : ℕ → Bool
is_hex c = leb b'0' c && leb c b'9' || leb b'a' c && leb c b'f' || leb b'A' c && leb c b'F'

abbrev all_hex : ℕ → List ℕ → Bool
all_hex ℕ.zero [] = true
all_hex (ℕ.suc n) (c ∷ cs) = is_hex c && all_hex n cs
all_hex _ _ = false

abbrev after_0x : List ℕ → Bool
after_0x (z ∷ x ∷ cs) = z == b'0' && x == b'x' && all_hex 40 cs
after_0x _ = false

-- isEvmAddress, of a text
unfoldable pub is_evm_address : String → Bool
is_evm_address s = after_0x (codes s)

abbrev is_owner_fine : Option String → Bool
is_owner_fine none = true
is_owner_fine (some a) = is_evm_address a

-- POST /api/recovery/requests, and that of the user
unfoldable pub open_request :
    Policy → String → String → ℕ → Option String → Option String → Exec Db RecoveryRequest
unfolding build_recovery_request is_evm_address
open_request cfg uid id now new_owner contact = do
  u ← gets (find_user uid)
  user ← found_or "user not found" u
  need (is_owner_fine new_owner) "newOwnerAddress must be a 0x address"
  r ← lift (build_recovery_request cfg user id now new_owner contact)
  λ db. (ok r, add_recovery_request r db)

-- POST /api/recovery/requests/:id/approve
unfoldable pub approve : Policy → String → ℕ → String → Option String → Exec Db RecoveryRequest
unfolding recovery_available approve_recovery_request
approve cfg id now reviewer reason = do
  f ← gets (find_recovery_request id)
  r ← found_or "recovery request not found" f
  u ← gets (find_user r.user_id)
  user ← found_or "user not found" u
  lift (recovery_available cfg user)
  next ← lift (approve_recovery_request r now reviewer reason)
  update_recovery_request id (λ _. next)

abbrev pub is_closed : RecoveryStatus → Bool
is_closed finalized = true
is_closed canceled = true
is_closed expired = true
is_closed guardian_submitted = true
is_closed _ = false

abbrev pub as_canceled : ℕ → Option String → RecoveryRequest → RecoveryRequest
as_canceled now reason r = record r {
  status = canceled;
  canceled_at = some now;
  cancel_reason = reason;
}

-- POST /api/recovery/requests/:id/cancel
unfoldable pub cancel : String → ℕ → Option String → Exec Db RecoveryRequest
cancel id now reason = do
  f ← gets (find_recovery_request id)
  r ← found_or "recovery request not found" f
  if is_closed r.status
      then throw (plain (concat ("recovery request is " ∷ status_name r.status ∷ [])))
      else update_recovery_request id (as_canceled now reason)

abbrev pub at_hour : ℕ → RecoveryRequest → RecoveryRequest
at_hour now r = record r { status = status_at now r.status r.ready_at }

-- GET /api/recovery/requests/:id: the status of the hour is stored. The source stores it only where
-- it differs, which is the same.
unfoldable pub refresh : String → ℕ → Exec Db RecoveryRequest
refresh id now = do
  f ← gets (find_recovery_request id)
  r ← found_or "recovery request not found" f
  update_recovery_request id (at_hour now)

abbrev failed_submission : ℕ → Error → Submission
failed_submission now e = record {
  requested_at = now;
  submitted_at = none;
  signer_status = none;
  tx_hash = none;
  error = some (slice 240 (message e));
}

abbrev pub as_submitted : Submission → RecoveryRequest → RecoveryRequest
as_submitted answer r = record r { status = guardian_submitted; guardian_submission = some answer }

abbrev pub as_unsubmitted : ℕ → Error → RecoveryRequest → RecoveryRequest
as_unsubmitted now e r = record r { guardian_submission = some (failed_submission now e) }

-- The `try` of the next route and its `catch`.
unfoldable pub hand_over : Policy → Signer → String → ℕ → RecoveryRequest → Exec Db RecoveryRequest
unfolding submit_guardian_recovery
hand_over cfg signer id now r =
    catch
      (do
        answer ← submit_guardian_recovery cfg signer r now
        update_recovery_request id (as_submitted answer))
      (λ e. update_recovery_request id (as_unsubmitted now e))

-- POST /api/recovery/requests/:id/guardian-submit, in one step: what other requests do while the
-- signer answers is not modelled.
unfoldable pub guardian_submit : Policy → Signer → String → ℕ → Exec Db RecoveryRequest
unfolding refresh hand_over
guardian_submit cfg signer id now = do r ← refresh id now; hand_over cfg signer id now r
