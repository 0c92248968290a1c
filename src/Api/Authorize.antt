-- ===== src/Api/Authorize.antt =====
-- services/api/src/server.ts: POST /api/transfers/:id/authorize, from the device's signature to the
-- run of the rail.
use trans_f.Prelude.{
  ℕ, String, Bool, true, false, not, ◌&&◌, Option, none, some, List, [], ◌∷◌, ◌*◌, str_eq,
}
use trans_f.Prelude.Tests.{if◌then◌else◌, leb, ◌==◌}
use trans_f.Prelude.Text.{codes, concat}
use trans_f.Exec.{Result, ok, err, message, replied, pure, gets, ◌>>=◌, ◌>>◌}
use trans_f.Store.Users.{User, Passkey, PasskeySafe}
use trans_f.Store.Payments.{Rail, cash, sepa, Transfer, Terms, RedeemApproval}
use trans_f.Store.Accounts.{find_user, update_user}
use trans_f.Store.Transfers.{find_transfer, is_created, claim_authorization}
use trans_f.WebAuthn.{verify_assertion_for_challenge}
use trans_f.Deposits.Watch.{is_hex, all_pass}
use trans_f.Orchestrator.World.{
  Action, Config, World, Sys, PaymentAuthorization, other, call, on_db,
}
use trans_f.Orchestrator.Steps.{the_transfer, update, value_or, state_name}
use trans_f.Orchestrator.Debit.{is_active}
use trans_f.Orchestrator.Execute.{execute_transfer, execute_sepa_transfer}
use trans_f.Api.{Host, Assertion, reply, given, need, require_user_session, require_kyc_approved}
use trans_f.Api.Create.{Field, missing, text, is_sepa}

pub record RedeemAssertion : Type 0 where
  pub credential_id : Option String
  -- none where one of its three texts is missing
  pub assertion : Option Assertion

pub record AuthorizeRequest : Type 0 where
  pub signature : Field
  -- null is `other_value` here, and only undefined is missing
  pub redeem_signature : Field
  pub redeem_assertion : Option RedeemAssertion

abbrev some_hex : List ℕ → Bool
some_hex [] = false
some_hex (c ∷ cs) = all_pass is_hex (c ∷ cs)

abbrev is_signature : List ℕ → Bool
is_signature (z ∷ x ∷ rest) = z == b'0' && x == b'x' && some_hex rest
is_signature _ = false

-- /^0x[0-9a-fA-F]+$/ of a text
unfoldable pub signature_of : Field → Option String
signature_of (text s) = if is_signature (codes s) then some s else none
signature_of _ = none

-- The redeem signature of the body, or the reply to a wrong one.
unfoldable pub given_signature : Option RedeemApproval → Field → Action (Option String)
unfolding signature_of
given_signature terms missing = pure none
given_signature none field = reply 400 "this transfer has no Monerium redeem authorization terms"
given_signature (some r) field = do
  s ← given (signature_of field) 400 "moneriumRedeemSignature must be a 0x signature"
  pure (some s)

-- Which safe and key may approve by an assertion.
pub record Approver : Type 0 where
  pub passkey : Passkey
  pub key : String
  pub plan : PasskeySafe

abbrev with_plan : Passkey → Option String → Option PasskeySafe → Option Approver
with_plan passkey (some key) (some plan) =
    if is_active plan.status
    then some (record { passkey = passkey; key = key; plan = plan })
    else none
with_plan passkey _ _ = none

abbrev approver_of : Option Passkey → Option PasskeySafe → Option Approver
approver_of none plan = none
approver_of (some passkey) plan = with_plan passkey passkey.public_key plan

abbrev same_credential : Option String → String → Bool
same_credential none id = false
same_credential (some c) id = str_eq c id

-- The catch block around the assertion: 401 with the message.
abbrev pub as_unauthorized : {A : Type 0} → Result A × Sys → Result A × Sys
as_unauthorized (ok a, s) = (ok a, s)
as_unauthorized (err e, s) = (err (replied 401 (message e)), s)

abbrev lift : {A : Type 0} → Result A → Action A
lift r s = (r, s)

abbrev pub with_count : Passkey → ℕ → User → User
with_count passkey count u = record u {
  passkey = some (record passkey { sign_count = some count });
}

-- The try block: verify the assertion, store the counter, sign as the Safe.
unfoldable pub sign_redeem :
    Host → User → Approver → RedeemApproval → Assertion → Action (User × String)
unfolding verify_assertion_for_challenge
sign_redeem h user a terms assertion = do
  (auth, cd) ← lift (h.parse_assertion assertion)
  let checked =
      verify_assertion_for_challenge (h.crypto a.key) auth cd assertion.signature
        (value_or 0 a.passkey.sign_count) (value_or h.rp_id a.passkey.rp_id) h.origins
        (h.message_challenge user.address terms.message) true []
  count ← lift checked.0
  counted ← on_db (update_user user.id (with_count a.passkey count))
  signature ← call (h.sign_message a.plan counted.address terms.message assertion) (λ _. other)
  pure (counted, signature)

unfoldable pub approve_by_assertion :
    Host → User → Option RedeemApproval → RedeemAssertion → Action (User × String)
unfolding sign_redeem
approve_by_assertion h user none r =
    reply 400 "this transfer has no Monerium redeem authorization terms"
approve_by_assertion h user (some terms) r = do
  a ←
      given (approver_of user.passkey user.passkey_safe) 409
        "active passkey Safe required for Monerium redeem authorization"
  need (same_credential r.credential_id a.passkey.credential_id) 403
      "passkey credential does not match this account"
  assertion ←
      given r.assertion 400
        "moneriumRedeemAssertion requires authenticatorData, clientDataJSON and signature"
  λ s. as_unauthorized (sign_redeem h user a terms assertion s)

-- effectiveRedeemSignature, and the account with its new counter
unfoldable pub effective_signature :
    Host
    → User
    → Option RedeemApproval
    → Option String
    → Option RedeemAssertion
    → Action (User × Option String)
unfolding approve_by_assertion
effective_signature h user terms (some s) r = pure (user, some s)
effective_signature h user terms none none = pure (user, none)
effective_signature h user terms none (some r) = do
  (counted, s) ← approve_by_assertion h user terms r
  pure (counted, some s)

abbrev pub is_some : {A : Type 0} → Option A → Bool
is_some none = false
is_some (some a) = true

-- store.claimAuthorization(id)
abbrev pub claim : String → Action Bool
claim id s = let (won, db') = claim_authorization s.clock id s.db in (ok won, record s { db = db' })

abbrev signed : RedeemApproval → String → ℕ → Transfer → Transfer
signed r signature now t = record t {
  monerium_redeem = some (record r { signature = some signature; signed_at = some now });
}

-- executableTransfer: with the approval, if there is one
unfoldable pub executable : String → Option RedeemApproval → Option String → Action Transfer
executable id (some r) (some signature) = do
  now ← gets (λ s. s.clock)
  update id (signed r signature now)
executable id _ _ = the_transfer id

unfoldable pub run_rail :
    Config → World → Rail → User → String → PaymentAuthorization → Action Transfer
run_rail cfg w sepa user id auth = execute_sepa_transfer cfg w user id auth
run_rail cfg w cash user id auth = execute_transfer cfg w user id auth

-- From the claim on.
unfoldable pub claim_and_run :
    Config → World → Transfer → User → Option String → PaymentAuthorization → Action Transfer
unfolding executable run_rail claim_authorization
claim_and_run cfg w t user approval auth = do
  won ← claim t.id
  need won 409 "authorization already submitted for this transfer"
  ready ← executable t.id t.monerium_redeem approval
  run_rail cfg w ready.rail user ready.id auth

abbrev pub payment : Terms → String → PaymentAuthorization
payment terms signature = record { deadline = terms.deadline; signature = signature }

-- The checks of the request, and of the account.
unfoldable pub check_request :
    Host → Transfer → Terms → AuthorizeRequest → Action (User × String × Option String)
unfolding given_signature effective_signature require_kyc_approved signature_of
check_request h t terms b = do
  signature ← given (signature_of b.signature) 400 "signature required"
  now ← gets (λ s. s.clock)
  need (leb now (terms.deadline * 1000)) 410 "authorization window expired, create a new transfer"
  direct ← given_signature t.monerium_redeem b.redeem_signature
  holder ← gets (λ s. find_user t.user_id s.db)
  -- a missing account throws, which is answered by 500
  user ← given holder 500 "no account for this transfer"
  require_kyc_approved user
  (signer, approval) ← effective_signature h user t.monerium_redeem direct b.redeem_assertion
  need (not (is_sepa t.rail && is_some t.monerium_redeem && not (is_some approval))) 400
      "passkey Safe Monerium redeem approval is required before this SEPA transfer can execute"
  pure (signer, signature, approval)

-- POST /api/transfers/:id/authorize, whose reply is 502 where the transfer returned is FAILED
unfoldable pub authorize :
    Host → World → Config → Option String → String → AuthorizeRequest → Action Transfer
unfolding require_user_session check_request claim_and_run
authorize h w cfg token id b = do
  found ← gets (λ s. find_transfer id s.db)
  t ← given found 404 "transfer not found"
  require_user_session h token t.user_id
  need (is_created t.state) 409
      (concat ("transfer is " ∷ state_name t.state ∷ ", expected CREATED" ∷ []))
  terms ← given t.auth 409 "transfer has no authorization terms"
  (user, signature, approval) ← check_request h t terms b
  claim_and_run cfg w t user approval (payment terms signature)
