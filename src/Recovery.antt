-- ===== src/Recovery.antt =====
-- services/api/src/recovery.ts and recovery-signer.ts: an account's owner is replaced by the guardian
-- after an approval and a delay. The routes of server.ts are in Recovery/Requests.antt. The signer
-- behind its URL is the parameter `signer`.
pub mod Delay
pub mod Routes
pub mod Runs
pub mod Requests
use trans_f.Prelude.{
  ℕ, String, Bool, true, false, not, Option, none, some, List, [], ◌∷◌, ◌+◌, ◌*◌, ◌&&◌, ◌||◌, ◌≡◌,
}
use trans_f.Prelude.Tests.{if◌then◌else◌, ltb, leb, ◌==◌}
use trans_f.Prelude.Text.{concat, slice, codes}
use trans_f.Exec.{
  Exec, Result, ok, err, Error, plain, message, pure, throw, gets, catch, ◌>>=◌, ◌>>◌,
}
use trans_f.Store.Db.{Db}
use trans_f.Store.Users.{User, KycStatus, approved, PasskeySafe, SafeRecovery, PlanStatus, active}
use trans_f.Store.Records.{
  RecoveryRequest, RecoveryStatus, kyc_pending, delaying, ready_for_guardian, guardian_submitted,
  finalized, canceled, expired, Factors, Factor, Submission,
}
use trans_f.Store.Accounts.{find_user}
use trans_f.Store.Requests.{find_recovery_request, add_recovery_request, update_recovery_request}

-- RECOVERY of config.ts
pub record Policy : Type 0 where
  pub managed_kyc_guardian : Bool
  pub delay_hours : ℕ
  pub request_ttl_hours : ℕ
  pub guardian_signer_url : String

-- hours * 60 * 60 * 1000
abbrev pub hours_ms : ℕ → ℕ
hours_ms h = h * 3600000

abbrev is_approved : KycStatus → Bool
is_approved approved = true
is_approved _ = false

abbrev pub kyc_name : KycStatus → String
kyc_name KycStatus.pending = "pending"
kyc_name KycStatus.approved = "approved"
kyc_name KycStatus.rejected = "rejected"
kyc_name KycStatus.manual_review = "manual_review"

abbrev is_on : PlanStatus → Bool
is_on active = true
is_on _ = false

abbrev guarded : Option SafeRecovery → Result SafeRecovery
guarded none = err (plain "managed recovery guardian is not enabled on this Safe")
guarded (some r) =
    if is_on r.status
    then ok r
    else err (plain "managed recovery guardian is not enabled on this Safe")

abbrev safe_guardian : Option PasskeySafe → Result SafeRecovery
safe_guardian none = err (plain "active passkey Safe required")
safe_guardian (some safe) =
    if is_on safe.status then guarded safe.recovery else err (plain "active passkey Safe required")

-- assertRecoveryAvailable: the guardian that it finds, or what blocks
unfoldable pub recovery_available : Policy → User → Result SafeRecovery
recovery_available cfg user =
    if not cfg.managed_kyc_guardian
    then err (plain "managed KYC recovery is disabled")
    else if not (is_approved user.kyc_status)
    then err (
        plain (
          concat
            ("KYC " ∷ kyc_name user.kyc_status ∷ "; recovery requires approved identity" ∷ [])))
    else safe_guardian user.passkey_safe

abbrev pub all_factors : Factor → Factors
all_factors f = record { kyc = f; otp = f; liveness = f; manual_review = f }

abbrev pub new_request :
    Policy → User → String → ℕ → Option String → Option String → SafeRecovery → RecoveryRequest
new_request cfg user id now new_owner contact guardian = record {
  id = id;
  user_id = user.id;
  safe_address = user.address;
  status = kyc_pending;
  requested_at = now;
  expires_at = now + hours_ms cfg.request_ttl_hours;
  recovery_delay_hours = cfg.delay_hours;
  guardian_address = guardian.guardian_address;
  recovery_module_address = guardian.module_address;
  new_owner_address = new_owner;
  contact = contact;
  kyc_approved_at = none;
  ready_at = none;
  finalized_at = none;
  canceled_at = none;
  reviewed_by = none;
  review_reason = none;
  cancel_reason = none;
  factors = all_factors Factor.pending;
  guardian_submission = none;
}

abbrev built : {A : Type 0} → Result SafeRecovery → (SafeRecovery → A) → Result A
built (ok g) make = ok (make g)
built (err e) make = err e

-- buildRecoveryRequest
unfoldable pub build_recovery_request :
    Policy → User → String → ℕ → Option String → Option String → Result RecoveryRequest
unfolding recovery_available
build_recovery_request cfg user id now new_owner contact =
    built (recovery_available cfg user) (new_request cfg user id now new_owner contact)

abbrev pub status_name : RecoveryStatus → String
status_name kyc_pending = "KYC_PENDING"
status_name delaying = "DELAYING"
status_name ready_for_guardian = "READY_FOR_GUARDIAN"
status_name guardian_submitted = "GUARDIAN_SUBMITTED"
status_name finalized = "FINALIZED"
status_name canceled = "CANCELED"
status_name expired = "EXPIRED"

abbrev pub approve_as :
    RecoveryStatus → RecoveryRequest → ℕ → String → Option String → Result RecoveryRequest
approve_as kyc_pending r now reviewer reason = ok (record r {
  status = delaying;
  kyc_approved_at = some now;
  ready_at = some (now + hours_ms r.recovery_delay_hours);
  reviewed_by = some reviewer;
  review_reason = reason;
  factors = all_factors Factor.passed;
})
approve_as s r now reviewer reason =
    err (plain (concat ("recovery request is " ∷ status_name s ∷ [])))

-- approveRecoveryRequest
unfoldable pub approve_recovery_request :
    RecoveryRequest → ℕ → String → Option String → Result RecoveryRequest
approve_recovery_request r = approve_as r.status r

abbrev pub ready_or_delaying : ℕ → Option ℕ → RecoveryStatus
ready_or_delaying now none = delaying
ready_or_delaying now (some at) = if ltb now at then delaying else ready_for_guardian

abbrev pub status_at : ℕ → RecoveryStatus → Option ℕ → RecoveryStatus
status_at now delaying at = ready_or_delaying now at
status_at now s at = s

-- readinessStatus
unfoldable pub readiness_status : RecoveryRequest → ℕ → RecoveryStatus
readiness_status r now = status_at now r.status r.ready_at

abbrev is_ready : RecoveryStatus → Bool
is_ready ready_for_guardian = true
is_ready _ = false

abbrev has_owner : Option String → Bool
has_owner none = false
has_owner (some a) = true

-- assertGuardianSubmissionReady
unfoldable pub assert_submission_ready : RecoveryRequest → ℕ → Result (Unit {0})
unfolding readiness_status
assert_submission_ready r now =
    if not (is_ready (readiness_status r now))
    then err (
        plain (
          concat (
            "recovery request is "
            ∷ status_name (readiness_status r now)
            ∷ "; guardian cannot sign yet"
            ∷ [])))
    else if not (ltb now r.expires_at)
    then err (plain "recovery request expired before guardian submission")
    else if not (has_owner r.new_owner_address)
    then err (plain "newOwnerAddress is required before guardian submission")
    else ok tt

abbrev pub lift : {A : Type 0} → Result A → Exec Db A
lift (ok a) db = (ok a, db)
lift (err e) db = (err e, db)

abbrev is_blank : String → Bool
is_blank String.[] = true
is_blank _ = false

abbrev pub Signer : Type 0
Signer = RecoveryRequest → ℕ → Result Submission

-- submitGuardianRecovery
unfoldable pub submit_guardian_recovery : Policy → Signer → RecoveryRequest → ℕ → Exec Db Submission
unfolding assert_submission_ready
submit_guardian_recovery cfg signer r now = do
  lift (assert_submission_ready r now)
  if is_blank cfg.guardian_signer_url
      then throw (plain "RECOVERY_GUARDIAN_SIGNER_URL is required before guardian submission")
      else lift (signer r now)
