-- ===== src/Tests/Accounts.antt =====
-- The theorems on accounts, recovery, challenges, shares and the mirror at small inputs.
use trans_f.Prelude.{
  ℕ, String, true, false, none, some, List, [], ◌∷◌, ◌≡◌, refl, ◌≤◌, ◌+◌, arith, not, sym, ◌∙◌,
  ◌&&◌,
}
use trans_f.Prelude.Tests.{leb}
use trans_f.Prelude.Lists.{find, keep, any, modify, get_last?}
use mathlib.Core.Path.{subst}
use trans_f.Exec.{ok, ◌>>=◌}
use trans_f.Store.Db
use trans_f.Store.Db.{Db, lookup, empty_db}
use trans_f.Store.Records.{
  Session, ReceiptShare, NameMode, AccountMode, FxMode, RecoveryRequest, guardian_submitted,
  Submission, Factor,
}
use trans_f.Store.Quotes.{consume_quote}
use trans_f.Store.Quotes.Consumed.{consume_quote-once}
use trans_f.Store.Sessions.{find_session, add_session, find-add_session}
use trans_f.Store.Shares.{find_share_by_transfer, of_transfer, is_live, find_share-live}
use trans_f.Store.Requests.{find_recovery_request}
use trans_f.Recovery.{Policy, Signer, hours_ms, all_factors}
use trans_f.Recovery.Requests.{guardian_submit, approve, open_request}
use trans_f.Recovery.Runs.{
  Route, request_it, approve_it, submit_it, serve, serve_all, time_after, submitted-Waited,
}
use trans_f.WebAuthn.{
  Crypto, AuthData, ClientData, ChallengePurpose, Challenges, issue_challenge, consume_challenge,
  verify_assertion, same_purpose, same_binding, challenge_ttl_ms,
}
use trans_f.WebAuthn.Once.{IsAccepted, challenge-once, challenge-issue, verify-IsAccepted}
use trans_f.Reconcile.{reconcile, reconcile_ok, is_missed, is_fabricated, IssueOrder}
use trans_f.Tests.Fixtures.{db}

consumed_first : (consume_quote "q1" db).0 ≡ ok true
unfolding consume_quote lookup find
consumed_first = refl

consume_quote-once_example :
    consume_quote "q1" (consume_quote "q1" db).1 ≡ (ok false, (consume_quote "q1" db).1)
consume_quote-once_example = consume_quote-once "q1" db consumed_first

abbrev session : String → ℕ → Session
session hash expires = record {
  id = hash;
  user_id = "u1";
  token_hash = hash;
  created_at = 0;
  last_used_at = 0;
  expires_at = expires;
  revoked_at = none;
}

abbrev signed_in : Db
signed_in = record db { sessions = session "old" 1000 ∷ session "mine" 200000000 ∷ [] }

find-add_session_example :
    find_session "mine" (add_session 100000000 (session "new" 300000000) signed_in)
    ≡ some (session "mine" 200000000)
unfolding find_session find
find-add_session_example =
    find-add_session 100000000 (session "new" 300000000) (session "mine" 200000000) "mine" signed_in
      refl (omega arith)

abbrev share : ReceiptShare
share = record {
  id = "s1";
  slug = "slug";
  transfer_id = "t1";
  user_id = "u1";
  fields = record {
    sender = NameMode.full;
    recipient = NameMode.full;
    account = AccountMode.short;
    fx = FxMode.both;
    show_rate = true;
    show_ref = true;
    route = true;
  };
  created_at = 0;
  updated_at = 0;
  expires_at = 1000;
  revoked_at = some 5;
}

abbrev shared : Db
shared = record db { receipt_shares = share ∷ [] }

shared_found : find_share_by_transfer "t1" shared ≡ some share
unfolding find_share_by_transfer find keep get_last?
shared_found = refl

share_inj : (a b : ReceiptShare) → some a ≡ some b → a ≡ b
share_inj a b h = cc

only_dead : (s : ReceiptShare) → find_share_by_transfer "t1" shared ≡ some s → is_live s ≡ false
only_dead s e =
    subst (λ (s : ReceiptShare). is_live s ≡ false) (share_inj share s (sym shared_found ∙ e)) refl

find_share-live_example : any (λ s. of_transfer "t1" s && is_live s) shared.receipt_shares ≡ false
find_share-live_example = find_share-live "t1" shared only_dead

abbrev deposits : List IssueOrder
deposits = record { id = "o1"; address = "0xADA"; amount = 5 } ∷ []

reconcile_ok_example : (reconcile true deposits 9 db).is_ok ≡ (
    not (any (is_missed db) deposits)
    && not (any (is_fabricated deposits) db.processed_monerium_orders))
reconcile_ok_example = reconcile_ok deposits 9 db

challenge-once_example :
    (consume_challenge 20 "c" ChallengePurpose.login none
      (consume_challenge 10 "c" ChallengePurpose.login none
        (issue_challenge 0 "c" ChallengePurpose.login none [])).1).0
    ≡ false
challenge-once_example =
    challenge-once 10 20 "c" ChallengePurpose.login ChallengePurpose.login none none
      (issue_challenge 0 "c" ChallengePurpose.login none [])

challenge-issue_example :
    (consume_challenge
      (5 + 300000)
      "c"
      ChallengePurpose.step_up
      (some "u1:pay")
      (issue_challenge 5 "c" ChallengePurpose.step_up (some "u1:pay") [])).0
    ≡ (same_purpose ChallengePurpose.step_up ChallengePurpose.step_up
        && leb 300000 challenge_ttl_ms
        && same_binding (some "u1:pay") (some "u1:pay"))
challenge-issue_example =
    challenge-issue 5 300000 "c" ChallengePurpose.step_up ChallengePurpose.step_up (some "u1:pay")
      (some "u1:pay") []

abbrev crypto : Crypto
crypto = record { sha256 = λ _. 7 ∷ []; verify = λ _ _ _. true }

abbrev authenticator : AuthData
authenticator = record { rp_id_hash = 7 ∷ []; flags = 5; sign_count = 4 }

abbrev client : ClientData
client = record { kind = "webauthn.get"; challenge = "c"; origin = "https://app" }

abbrev issued : Challenges
issued = issue_challenge 0 "c" ChallengePurpose.step_up (some "u1") []

accepted :
    (verify_assertion crypto 10 authenticator client "sig" 3 "app"
      ("https://app" ∷ [])
      ChallengePurpose.step_up
      (some "u1")
      issued).0
    ≡ ok 4
unfolding verify_assertion ◌>>=◌ issue_challenge any
accepted = refl

verify-IsAccepted_example :
    IsAccepted crypto 10 authenticator client "sig" 3 "app"
      ("https://app" ∷ [])
      ChallengePurpose.step_up
      (some "u1")
      issued
verify-IsAccepted_example =
    verify-IsAccepted crypto 10 authenticator client "sig" 3 "app" ("https://app" ∷ [])
      ChallengePurpose.step_up (some "u1") issued 4 accepted

abbrev policy : Policy
policy = record {
  managed_kyc_guardian = true;
  delay_hours = 72;
  request_ttl_hours = 336;
  guardian_signer_url = "https://signer";
}

abbrev answer : Submission
answer = record {
  requested_at = 0;
  submitted_at = some 1;
  signer_status = some "ok";
  tx_hash = none;
  error = none;
}

abbrev signer : Signer
signer r now = ok answer

abbrev calls : List (ℕ × Route)
calls =
    (1000, request_it "u1" "r1" (some "0x00000000000000000000000000000000000000aa") none)
    ∷ (1000, approve_it "r1" "operator" none)
    ∷ (259200000, submit_it "r1")
    ∷ []

abbrev handed_over : RecoveryRequest
handed_over = record {
  id = "r1";
  user_id = "u1";
  safe_address = "0xada";
  status = guardian_submitted;
  requested_at = 1000;
  expires_at = 1209601000;
  recovery_delay_hours = 72;
  guardian_address = "0xguardian";
  recovery_module_address = "0xmodule";
  new_owner_address = some "0x00000000000000000000000000000000000000aa";
  contact = none;
  kyc_approved_at = some 2000;
  ready_at = some 259202000;
  finalized_at = none;
  canceled_at = none;
  reviewed_by = some "operator";
  review_reason = none;
  cancel_reason = none;
  factors = all_factors Factor.passed;
  guardian_submission = some answer;
}

handed_over_found :
    find_recovery_request "r1" (serve_all policy signer 0 calls db) ≡ some handed_over
unfolding serve_all lookup find serve guardian_submit ◌>>=◌ approve open_request Db.push Db.update
    modify
handed_over_found = refl

submitted-Waited_example :
    (a : ℕ) × (handed_over.kyc_approved_at ≡ some a)
    × (a + hours_ms handed_over.recovery_delay_hours ≤ time_after 0 calls)
submitted-Waited_example =
    submitted-Waited policy signer 0 calls db "r1" handed_over refl handed_over_found refl
