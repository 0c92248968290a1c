-- ===== src/Api.antt =====
-- services/api/src/server.ts: what the payment routes share: replies, sessions, the KYC gate.
--
-- A route is an action on `Sys`: a reply with an error leaves it early, as a throw does, and what a
-- route returns is the body of its other reply. A request is given as express parsed it: the token is
-- what the bearer pattern captures, and a text that is missing is `none`. Texts are counted in code
-- points.
pub mod Quotes
pub mod Create
pub mod Authorize
pub mod Passed
pub mod Known
pub mod Bound
pub mod Drawn
pub mod Later
pub mod Fair
pub mod Spent
pub mod Stands
pub mod Approved
use trans_f.Prelude.{
  ℕ, String, Bool, true, false, not, ◌&&◌, ◌≤◌, Option, none, some, List, [], ◌∷◌, str_eq,
}
use trans_f.Prelude.Tests.{if◌then◌else◌, leb}
use trans_f.Prelude.Text.{concat}
use trans_f.Exec.{Result, replied, pure, throw, gets, ◌>>=◌, ◌>>◌}
use trans_f.Store.Users.{User, KycStatus, PasskeySafe}
use trans_f.Store.Records.{Session}
use trans_f.Store.Sessions.{find_session, touch_session}
use trans_f.Recovery.{kyc_name}
use trans_f.WebAuthn.{Crypto, AuthData, ClientData}
use trans_f.Orchestrator.World.{Action, Effect, on_db}
use trans_f.Deposits.Watch.{kyc_approved}

-- An assertion of a passkey, in base64.
pub record Assertion : Type 0 where
  pub authenticator_data : String
  pub client_data_json : String
  pub signature : String

-- The host's functions and the clients that the routes call.
pub record Host : Type 0 where
  -- tokenHash(token)
  pub token_hash : String → String
  -- randomUUID()
  pub uuid : List Effect → String
  -- a text from its code points, and Unicode's NFD
  pub text : List ℕ → String
  pub nfd : List ℕ → List ℕ
  -- new Date(ms).toISOString()
  pub iso : ℕ → String
  -- usdPer("KES") and eurPer("KES"), in 10^-6
  pub usd_per : List Effect → Result ℕ
  pub eur_per : List Effect → Result ℕ
  -- the checks by one stored key, and the reading of an assertion's base64 and JSON
  pub crypto : String → Crypto
  pub parse_assertion : Assertion → Result (AuthData × ClientData)
  -- passkeySafeChallenge(safeMessageHash(address, message))
  pub message_challenge : String → String → String
  -- signMessageAsPasskeySafe
  pub sign_message : PasskeySafe → String → String → Assertion → List Effect → Result String
  -- SECURITY.rpId and SECURITY.origins
  pub rp_id : String
  pub origins : List String

module _ {A : Type 0} where
  -- return res.status(status).json({ error: why })
  abbrev pub reply : ℕ → String → Action A
  reply status why = throw (replied status why)

  -- if (!x) return res.status(status).json({ error: why })
  abbrev pub given : Option A → ℕ → String → Action A
  given none status why = reply status why
  given (some a) status why = pure a

-- if (!test) return res.status(status).json({ error: why })
abbrev pub need : Bool → ℕ → String → Action (Unit {0})
need test status why = if test then pure tt else reply status why

abbrev is_unrevoked : Option ℕ → Bool
is_unrevoked none = true
is_unrevoked (some at) = false

-- !(session.revokedAt || Date.now() >= Date.parse(session.expiresAt))
abbrev pub is_current : ℕ → Session → Bool
is_current now session = is_unrevoked session.revoked_at && not (leb session.expires_at now)

-- store.touchSession(id)
abbrev pub touch : String → Action Session
touch id s = on_db (touch_session s.clock id) s

-- requireSession
unfoldable pub require_session : Host → Option String → Action Session
unfolding touch_session
require_session h none = reply 401 "authorization required"
require_session h (some token) = do
  found ← gets (λ s. find_session (h.token_hash token) s.db)
  session ← given found 401 "invalid session"
  now ← gets (λ s. s.clock)
  need (is_current now session) 401 "session expired"
  touch session.id
  pure session

-- requireUserSession
unfoldable pub require_user_session : Host → Option String → String → Action Session
unfolding require_session
require_user_session h token uid = do
  session ← require_session h token
  need (str_eq session.user_id uid) 403 "forbidden"
  pure session

-- requireKycApproved
unfoldable pub require_kyc_approved : User → Action (Unit {0})
require_kyc_approved user = need (kyc_approved user.kyc_status) 409 (
    concat (
      "KYC "
      ∷ kyc_name user.kyc_status
      ∷ "; account funding and transfers are disabled until KYC is approved"
      ∷ []))
