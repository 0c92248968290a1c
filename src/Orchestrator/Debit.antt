-- ===== src/Orchestrator/Debit.antt =====
-- services/api/src/orchestrator.ts: the quote binding, the device's authorization and the debit.
use trans_f.Prelude.{
  ℕ, String, Bool, true, false, not, Option, none, some, [], ◌∷◌, ◌-◌, ◌*◌, ◌/◌, ◌&&◌, ◌||◌,
}
use trans_f.Prelude.Tests.{if◌then◌else◌, ltb, ◌==◌}
use trans_f.Prelude.Text.{concat, same_folded}
use trans_f.Exec.{plain, pure, throw, gets, ◌>>=◌, ◌>>◌}
use trans_f.Store.Users.{User, PasskeySafe, CosignerPolicy, PlanStatus, active, eure, usdc}
use trans_f.Store.Payments.{Transfer, TransferState, Quote, Terms}
use trans_f.Store.Quotes.{find_quote}
use trans_f.Store.Accounts.{update_user}
use trans_f.Orchestrator.World.{
  Action, Config, World, PaymentAuthorization, TypedData, eure_to_usdc, debited, other, call, on_db,
}
use trans_f.Orchestrator.Steps.{
  the_transfer, update, push_tx, failpoint, has_step, step_safe, step_safe_fee, to_wei,
  quote_binding_bps, destination_preimage, value_or,
}

-- |live - locked| * 10000 / locked, in bigints: the quotient is truncated
unfoldable pub drift_bps : ℕ → ℕ → ℕ
drift_bps live locked = (if ltb locked live then live - locked else locked - live) * 10000 / locked

-- what `store.findQuote(id)?.lockedSwapRate` reads; a rate of "0" is a text that is not empty
abbrev pub locked_rate : Option Quote → Option ℕ
locked_rate none = none
locked_rate (some q) = q.locked_swap_rate

-- A bigint division by zero throws a RangeError.
unfoldable pub check_drift : World → ℕ → ℕ → Action (Unit {0})
unfolding drift_bps
check_drift w live locked =
    if locked == 0
    then throw (plain "Division by zero")
    else if ltb quote_binding_bps (drift_bps live locked)
    then throw (
        plain (
          concat (
            "FX rate moved since quote ("
            ∷ w.show (drift_bps live locked)
            ∷ " bps > 50 bps cap) — request a new quote"
            ∷ [])))
    else pure tt

unfoldable pub bind_rate : World → Option ℕ → Action (Unit {0})
unfolding check_drift
bind_rate w none = pure tt
bind_rate w (some locked) = do
  live ← call (w.indicative_rate eure_to_usdc) (λ _. other)
  check_drift w live locked

-- assertQuoteRateBinding
unfoldable pub assert_quote_rate_binding : World → String → Action (Unit {0})
unfolding bind_rate
assert_quote_rate_binding w id = do
  t ← the_transfer id
  quote ← gets (λ s. find_quote t.quote_id s.db)
  bind_rate w (locked_rate quote)

-- transferDestination
unfoldable pub transfer_destination : World → Transfer → String
transfer_destination w t =
    w.keccak (destination_preimage t.rail t.recipient_phone t.recipient_iban t.recipient_name)

-- `if (!b) throw new Error(why)`
unfoldable pub require_true : Bool → String → Action (Unit {0})
require_true b why = if b then pure tt else throw (plain why)

-- The tests of assertDeviceAuthorization before those of the authorizer, in their order.
unfoldable pub check_terms : World → ℕ → Transfer → Terms → PaymentAuthorization → Action (Unit {0})
unfolding transfer_destination to_wei require_true
check_terms w now t terms auth = do
  require_true (terms.amount_wei == to_wei t.send_eur)
      "stored amount no longer matches authorization terms"
  require_true (auth.deadline == terms.deadline)
      "submitted authorization deadline does not match transfer terms"
  require_true (same_folded (transfer_destination w t) terms.destination)
      "stored payout destination no longer matches authorization terms"
  require_true (not (ltb (auth.deadline * 1000) now)) "authorization expired"

abbrev pub typed_data : World → User → Transfer → Terms → ℕ → TypedData
typed_data w user t terms deadline = record {
  account = user.address;
  amount_wei = terms.amount_wei;
  to = terms.to;
  transfer_id = t.id;
  destination = transfer_destination w t;
  deadline = deadline;
}

unfoldable pub check_signature :
    World → User → Transfer → Terms → PaymentAuthorization → Option String → Action (Unit {0})
unfolding require_true
check_signature w user t terms auth none = throw (plain "no authorizer")
check_signature w user t terms auth (some authorizer) = do
  code ← call (w.has_code authorizer) (λ _. other)
  require_true (not code) "Safe-funded transfer needs on-chain policy for contract authorizers"
  valid ←
      call (w.verify_typed_data authorizer (typed_data w user t terms auth.deadline) auth.signature)
        (λ _. other)
  require_true valid "bad authorization"

unfoldable pub assert_terms :
    World → User → Transfer → Option Terms → PaymentAuthorization → Action (Unit {0})
unfolding check_terms check_signature
assert_terms w user t none auth = throw (plain "transfer has no authorization terms")
assert_terms w user t (some terms) auth = do
  now ← gets (λ s. s.clock)
  check_terms w now t terms auth
  check_signature w user t terms auth user.authorizer_address

-- assertDeviceAuthorization
unfoldable pub assert_device_authorization :
    World → User → Transfer → PaymentAuthorization → Action (Unit {0})
unfolding assert_terms
assert_device_authorization w user t auth = assert_terms w user t t.auth auth

-- user.passkeySafe?.status === "active" && user.address is its address, case folded
abbrev pub is_active : PlanStatus → Bool
is_active active = true
is_active _ = false

abbrev pub active_at : String → Option PasskeySafe → Bool
active_at address none = false
active_at address (some safe) = is_active safe.status && same_folded address safe.address

-- activePasskeySafe
unfoldable pub active_passkey_safe : User → Bool
active_passkey_safe user = active_at user.address user.passkey_safe

abbrev pub is_some {ℓ} : {A : Type ℓ} → Option A → Bool
is_some none = false
is_some (some a) = true

abbrev pub policy_enabled : Option CosignerPolicy → Bool
policy_enabled none = false
policy_enabled (some p) = p.enabled

abbrev pub cosigned : Option PasskeySafe → Bool
cosigned none = false
cosigned (some safe) = policy_enabled safe.cosigner_policy && is_some safe.cosigner_address

-- passkeySafeAllowanceReady
unfoldable pub passkey_safe_allowance_ready : Config → User → Bool
unfolding active_passkey_safe
passkey_safe_allowance_ready cfg user =
    active_passkey_safe user
    && (cosigned user.passkey_safe || is_some cfg.cosigner_address && is_some cfg.cosigner_key)

abbrev not_configured : String
not_configured =
    "Co-signer service is not configured — please ensure CANDIDE_COSIGNER_ADDRESS and CANDIDE_COSIGNER_KEY are set in environment"

abbrev not_active : String
not_active =
    "Safe-held funds need an active passkey Safe with a co-signer service configured before transfers can be executed"

-- safeDebitBlocker
unfoldable pub safe_debit_blocker : Config → User → Option String
unfolding active_passkey_safe passkey_safe_allowance_ready
safe_debit_blocker cfg user =
    if active_passkey_safe user
    then (if passkey_safe_allowance_ready cfg user then none else some not_configured)
    else some not_active

abbrev pub default_policy : Config → CosignerPolicy
default_policy cfg = record {
  enabled = true;
  allowance_module_address = cfg.allowance_module_address;
  allowance_period_minutes = some cfg.cosigner_period_minutes;
  allowances = some (
      record { token = cfg.eure_address; symbol = eure; amount = cfg.cosigner_eure_allowance }
      ∷ record { token = cfg.usdc_address; symbol = usdc; amount = cfg.cosigner_usdc_allowance }
      ∷ []);
  allowance_amount = some cfg.cosigner_eure_allowance;
}

-- The policy written on the first debit, if the account has none and the deployment has one.
unfoldable pub ensure_policy :
    Config → User → Option PasskeySafe → Option String → Action (Unit {0})
ensure_policy cfg user none cosigner = pure tt
ensure_policy cfg user (some safe) none = pure tt
ensure_policy cfg user (some safe) (some cosigner) =
    if policy_enabled safe.cosigner_policy then pure tt else (do
      on_db (
          update_user user.id (λ u. record u {
            passkey_safe = some (record safe {
              cosigner_address = some cosigner;
              cosigner_policy = some (default_policy cfg);
            });
          }))
      pure tt)

-- moveTokenFromUserSafe, of EURe to the orchestrator
unfoldable pub move_from_user_safe : Config → World → User → String → ℕ → Action String
unfolding passkey_safe_allowance_ready safe_debit_blocker ensure_policy
move_from_user_safe cfg w user id amount =
    if passkey_safe_allowance_ready cfg user
    then (do
      ensure_policy cfg user user.passkey_safe cfg.cosigner_address
      call (w.transfer_from_safe_allowance user.address amount) (λ _. debited id amount))
    else throw (
        plain
          (value_or "Safe debit is not configured for this account" (safe_debit_blocker cfg user)))

-- debitInputFunds
unfoldable pub debit_input_funds :
    Config → World → User → String → PaymentAuthorization → Action (Unit {0})
unfolding assert_device_authorization move_from_user_safe failpoint
debit_input_funds cfg w user id auth = do
  t ← the_transfer id
  assert_device_authorization w user t auth
  require_true (not (has_step step_safe t.txs))
      "duplicate transfer: this transfer already moved EURe out of the Safe"
  hash ← move_from_user_safe cfg w user id (to_wei t.send_eur)
  push_tx id step_safe hash
  update id (λ t. record t { state = TransferState.debited })
  failpoint cfg "safe.transfer"

unfoldable pub move_fee : Config → World → User → String → ℕ → Action (Unit {0})
unfolding move_from_user_safe
move_fee cfg w user id fee =
    if ltb 0 fee
    then (do hash ← move_from_user_safe cfg w user id (to_wei fee); push_tx id step_safe_fee hash)
    else pure tt

-- debitSafeFundedSepaFee
unfoldable pub debit_sepa_fee :
    Config → World → User → String → PaymentAuthorization → ℕ → Action (Unit {0})
unfolding assert_device_authorization move_fee failpoint
debit_sepa_fee cfg w user id auth payout = do
  t ← the_transfer id
  assert_device_authorization w user t auth
  require_true (not (has_step step_safe_fee t.txs))
      "duplicate transfer: this transfer already moved its fee out of the Safe"
  move_fee cfg w user id (t.send_eur - payout)
  update id (λ t. record t { state = TransferState.debited })
  failpoint cfg "safe.transfer.fee"
