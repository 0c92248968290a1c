-- ===== src/WebAuthn.antt =====
-- services/api/src/webauthn.ts: challenges, and the checks of an assertion.
--
-- The base64 and JSON readers of the host, sha256, the key import and the signature check are
-- parameters (`Crypto`). The CBOR reader and the COSE keys of a registration are not modelled.
pub mod Once
use trans_f.Prelude.{
  ℕ, String, Bool, true, false, not, Option, none, some, List, [], ◌∷◌, ◌≡◌, ◌+◌, ◌*◌, ◌/◌, ◌%◌,
  ◌≤◌, ◌&&◌, ◌||◌, str_eq,
}
use trans_f.Prelude.Tests.{if◌then◌else◌, ltb, leb, ◌==◌}
use trans_f.Prelude.Lists.{keep, any}
use trans_f.Prelude.Text.{eq_codes, concat}
use trans_f.Exec.{Exec, Result, ok, err, plain, pure, throw, ◌>>=◌, ◌>>◌}

pub data ChallengePurpose : Type 0 where
  register login step_up : ChallengePurpose

pub record Challenge : Type 0 where
  pub purpose : ChallengePurpose
  pub binding : Option String
  pub exp : ℕ

-- The `challenges` map: a key stands at most once in it, and its order plays no part.
abbrev pub Challenges : Type 0
Challenges = List (String × Challenge)

-- CHALLENGE_TTL_MS
abbrev pub challenge_ttl_ms : ℕ
challenge_ttl_ms = 300000

abbrev is_fresh : ℕ → String × Challenge → Bool
is_fresh now (k, v) = not (ltb v.exp now)

-- pruneChallenges
unfoldable pub prune_challenges : ℕ → Challenges → Challenges
prune_challenges now cs = keep (is_fresh now) cs

abbrev is_other : String → String × Challenge → Bool
is_other c (k, v) = not (str_eq k c)

-- challenges.delete(c)
unfoldable pub delete : String → Challenges → Challenges
delete c cs = keep (is_other c) cs

-- challenges.get(c)
unfoldable pub get : String → Challenges → Option Challenge
get c [] = none
get c ((k, v) ∷ cs) = let rest = get c cs in if str_eq k c then some v else rest

-- challenges.set(c, v)
unfoldable pub set : String → Challenge → Challenges → Challenges
unfolding delete
set c v cs = (c, v) ∷ delete c cs

-- issueChallenge, given the random text
unfoldable pub issue_challenge :
    ℕ → String → ChallengePurpose → Option String → Challenges → Challenges
unfolding prune_challenges set
issue_challenge now c purpose binding cs =
    set c (record { purpose = purpose; binding = binding; exp = now + challenge_ttl_ms })
      (prune_challenges now cs)

abbrev pub same_purpose : ChallengePurpose → ChallengePurpose → Bool
same_purpose ChallengePurpose.register ChallengePurpose.register = true
same_purpose ChallengePurpose.login ChallengePurpose.login = true
same_purpose ChallengePurpose.step_up ChallengePurpose.step_up = true
same_purpose _ _ = false

abbrev pub same_binding : Option String → Option String → Bool
same_binding none none = true
same_binding (some a) (some b) = str_eq a b
same_binding _ _ = false

abbrev pub admits : ℕ → ChallengePurpose → Option String → Option Challenge → Bool
admits now purpose binding none = false
admits now purpose binding (some e) =
    same_purpose e.purpose purpose && not (ltb e.exp now) && same_binding e.binding binding

-- consumeChallenge
unfoldable pub consume_challenge :
    ℕ → String → ChallengePurpose → Option String → Challenges → Bool × Challenges
unfolding get delete prune_challenges
consume_challenge now c purpose binding cs =
    (admits now purpose binding (get c cs), prune_challenges now (delete c cs))

-- What JSON.parse reads of clientDataJSON.
pub record ClientData : Type 0 where
  pub kind : String
  pub challenge : String
  pub origin : String

abbrev consumed : Bool × Challenges → Result Bool × Challenges
consumed (b, cs) = (ok b, cs)

abbrev check : {S : Type 0} → Bool → String → Exec S (Unit {0})
check b why = if b then pure tt else throw (plain why)

-- checkClientData
unfoldable pub check_client_data :
    ℕ
    → ClientData
    → String
    → List String
    → ChallengePurpose
    → Option String
    → Exec Challenges (Unit {0})
unfolding consume_challenge
check_client_data now cd expected origins purpose binding = do
  check (str_eq cd.kind expected) (concat ("webauthn: unexpected type " ∷ cd.kind ∷ []))
  known ← λ cs. consumed (consume_challenge now cd.challenge purpose binding cs)
  check known "webauthn: unknown or expired challenge"
  check (any (λ o. str_eq o cd.origin) origins)
      (concat ("webauthn: origin " ∷ cd.origin ∷ " not allowed" ∷ []))

-- checkClientDataForChallenge
unfoldable pub check_client_data_for :
    ClientData → String → List String → String → Exec Challenges (Unit {0})
check_client_data_for cd expected origins challenge = do
  check (str_eq cd.kind expected) (concat ("webauthn: unexpected type " ∷ cd.kind ∷ []))
  check (str_eq cd.challenge challenge) "webauthn: challenge mismatch"
  check (any (λ o. str_eq o cd.origin) origins)
      (concat ("webauthn: origin " ∷ cd.origin ∷ " not allowed" ∷ []))

-- What parseAuthData reads of the authenticator's bytes.
pub record AuthData : Type 0 where
  pub rp_id_hash : List ℕ
  pub flags : ℕ
  pub sign_count : ℕ

-- The signature's check (over authenticator data and client data) and the hash of the site's name.
pub record Crypto : Type 0 where
  pub sha256 : String → List ℕ
  pub verify : AuthData → ClientData → String → Bool

-- flags & 2^n, for the n-th bit
abbrev pub has_flag : ℕ → ℕ → Bool
has_flag bit flags = flags / bit % 2 == 1

-- storedCount > 0 && signCount > 0 && signCount <= storedCount
abbrev pub is_stale_count : ℕ → ℕ → Bool
is_stale_count stored count = ltb 0 stored && (ltb 0 count && leb count stored)

-- verifyAssertionBytes, from the parsed authenticator data on
unfoldable pub verify_assertion_bytes :
    Crypto → AuthData → ClientData → String → ℕ → String → Bool → Exec Challenges ℕ
unfolding eq_codes
verify_assertion_bytes c auth cd signature stored rp_id needs_user = do
  check (eq_codes auth.rp_id_hash (c.sha256 rp_id)) "webauthn: rpId mismatch"
  check (has_flag 1 auth.flags) "webauthn: user presence not asserted"
  check (not (needs_user && not (has_flag 4 auth.flags)))
      "webauthn: user verification required for this action"
  check (not (is_stale_count stored auth.sign_count))
      "webauthn: sign counter did not advance (possible clone)"
  check (c.verify auth cd signature) "webauthn: signature verification failed"
  pure auth.sign_count

abbrev pub is_step_up : ChallengePurpose → Bool
is_step_up ChallengePurpose.step_up = true
is_step_up _ = false

-- verifyAssertion
unfoldable pub verify_assertion :
    Crypto
    → ℕ
    → AuthData
    → ClientData
    → String
    → ℕ
    → String
    → List String
    → ChallengePurpose
    → Option String
    → Exec Challenges ℕ
unfolding check_client_data verify_assertion_bytes
verify_assertion c now auth cd signature stored rp_id origins purpose binding = do
  check_client_data now cd "webauthn.get" origins purpose binding
  verify_assertion_bytes c auth cd signature stored rp_id (is_step_up purpose)

-- verifyAssertionForChallenge
unfoldable pub verify_assertion_for_challenge :
    Crypto
    → AuthData
    → ClientData
    → String
    → ℕ
    → String
    → List String
    → String
    → Bool
    → Exec Challenges ℕ
unfolding check_client_data_for verify_assertion_bytes
verify_assertion_for_challenge c auth cd signature stored rp_id origins challenge needs_user = do
  check_client_data_for cd "webauthn.get" origins challenge
  verify_assertion_bytes c auth cd signature stored rp_id needs_user
