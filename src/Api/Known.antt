-- ===== src/Api/Known.antt =====
-- What requireUserSession of services/api/src/server.ts has made sure of when it returns.
use trans_f.Prelude.{
  ℕ, String, true, Option, none, some, List, ◌≡◌, refl, ◌∙◌, sym, ap, ◌+◌, inl, inr, str_eq,
}
use trans_f.Prelude.Tests.{ltb, Bool-cases}
use trans_f.Prelude.Lists.{modify}
use trans_f.Exec.{ok}
use trans_f.Store.Db
use trans_f.Store.Db.{Db, has_id, lookup}
use trans_f.Store.Records.{Session}
use trans_f.Store.Sessions.{table, find_session, touch_session, touch_found}
use trans_f.Orchestrator.World.{Sys, on_db}
use trans_f.Api.{Host, is_current, touch, require_session, require_user_session}
use trans_f.Api.Passed.{bind_run, gets_run, need_run, given_run}

-- The state with other sessions.
abbrev pub with_sessions : List Session → Sys → Sys
with_sessions xs s = record s { db = record s.db { sessions = xs } }

-- Only the sessions changed.
pub record IsTouched (s s₁ : Sys) : Type 0 where
  pub sessions : List Session
  pub same : s₁ ≡ with_sessions sessions s

patch-IsTouched :
    (o : Option Session) (id : String) (f : Session → Session) (s : Sys)
    → IsTouched s (record s { db = (Db.patch_found table o id f s.db).1 })
unfolding Db.patch_found Db.unknown
patch-IsTouched none id f s = record { sessions = s.db.sessions; same = refl }
patch-IsTouched (some a) id f s = record {
  sessions = modify (has_id table id) f s.db.sessions;
  same = refl;
}

found-IsTouched :
    (o : Option Session) (now : ℕ) (id : String) (s : Sys)
    → IsTouched s (record s { db = (touch_found now id o s.db).1 })
unfolding touch_found Db.unknown Db.update
found-IsTouched none now id s = record { sessions = s.db.sessions; same = refl }
found-IsTouched (some x) now id s = elim (Bool-cases (ltb now (x.last_used_at + 60000))) [
  | inl recent ↦ rw recent (record { sessions = s.db.sessions; same = refl })
  | inr stale ↦
      rw stale (patch-IsTouched (lookup table id s.db) id (λ x. record x { last_used_at = now }) s)
]

pub touch-IsTouched : (id : String) (s : Sys) → IsTouched s (touch id s).1
unfolding touch_session on_db
touch-IsTouched id s = found-IsTouched (lookup table id s.db) s.clock id s

-- The caller holds a current session of the account.
pub record IsCaller (h : Host) (token : Option String) (uid : String) (s : Sys) : Type 0 where
  pub secret : String
  pub sent : token ≡ some secret
  pub session : Session
  pub found : find_session (h.token_hash secret) s.db ≡ some session
  pub current : is_current s.clock session ≡ true
  pub owner : str_eq session.user_id uid ≡ true

pub record IsKnown (h : Host) (token : Option String) (uid : String) (s s₁ : Sys) : Type 0 where
  pub caller : IsCaller h token uid s
  pub touched : IsTouched s s₁

session_run :
    (h : Host) (token : Option String) (s s₁ : Sys) (x : Session)
    → require_session h token s ≡ (ok x, s₁)
    → (secret : String) × (token ≡ some secret)
      × (find_session (h.token_hash secret) s.db ≡ some x)
      × (is_current s.clock x ≡ true)
      × IsTouched s s₁
unfolding require_session
session_run h none s s₁ x run = cc
session_run h (some secret) s s₁ x run =
    let run₁ = gets_run (λ s. find_session (h.token_hash secret) s.db) _ run in
    let (y, found, run₂) =
      given_run (find_session (h.token_hash secret) s.db) 401 "invalid session" _ run₁ in
    let run₃ = gets_run (λ s. s.clock) _ run₂ in
    let (current, run₄) = need_run (is_current s.clock y) 401 "session expired" _ run₃ in
    let (z, s₂, touched, end) = bind_run (touch y.id) _ run₄ in
    let same : y ≡ x = (cc) in
    let last : (touch y.id s).1 ≡ s₁ = cc in
    (
      secret,
      refl,
      found ∙ ap some same,
      rw (sym same) current,
      rw (sym last) (touch-IsTouched y.id s),
    )

pub require_user_session-IsKnown :
    (h : Host) (token : Option String) (uid : String) (s s₁ : Sys) (x : Session)
    → require_user_session h token uid s ≡ (ok x, s₁)
    → IsKnown h token uid s s₁
unfolding require_user_session
require_user_session-IsKnown h token uid s s₁ x run =
    let (y, s₂, first, run₁) = bind_run (require_session h token) _ run in
    let (owner, end) = need_run (str_eq y.user_id uid) 403 "forbidden" _ run₁ in
    let (secret, sent, found, current, touched) = session_run h token s s₂ y first in
    let last : s₂ ≡ s₁ = (cc) in
    record {
      caller = record {
        secret = secret;
        sent = sent;
        session = y;
        found = found;
        current = current;
        owner = owner;
      };
      touched = rw (sym last) touched;
    }
