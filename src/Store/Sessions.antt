-- ===== src/Store/Sessions.antt =====
-- services/api/src/store.ts: sessions, of which the dead ones are pruned.
use trans_f.Prelude.{
  ℕ, ◌+◌, ◌≤◌, String, Bool, true, not, Option, none, some, ◌≡◌, refl, arith, inl, inr, str_eq,
}
use trans_f.Prelude.Tests.{if◌then◌else◌, ltb, Bool-cases}
use trans_f.Prelude.Lists.{find, keep, find-keep, find-append}
use trans_f.Exec.{Exec, ok}
use trans_f.Store.Db
use trans_f.Store.Db.{Db, Table, IsTable}
use trans_f.Store.Records.{Session}

abbrev pub table : Table Session
table = record {
  name = "session";
  id_of = λ s. s.id;
  read = λ db. db.sessions;
  write = λ xs db. record db { sessions = xs };
}

pub table-IsTable : IsTable table
table-IsTable = record { read-write = λ xs db. refl }

-- retainMs = 24 * 60 * 60 * 1000
abbrev pub retain_ms : ℕ
retain_ms = 86400000

-- when a session died or will die
abbrev pub died_at : Session → ℕ
died_at s = elim s.revoked_at [ none ↦ s.expires_at | some at ↦ at ]

-- dead < Date.now() - retainMs
abbrev pub is_prunable : ℕ → Session → Bool
is_prunable now s = ltb (died_at s + retain_ms) now

-- pruneSessions()
unfoldable pub prune_sessions : ℕ → Db → Db
prune_sessions now db = record db { sessions = keep (λ s. not (is_prunable now s)) db.sessions }

-- addSession(s), at the time `now`
unfoldable pub add_session : ℕ → Session → Db → Db
unfolding prune_sessions
add_session now s db = Db.push table s (prune_sessions now db)

abbrev pub has_hash : String → Session → Bool
has_hash hash s = str_eq s.token_hash hash

-- findSessionByTokenHash(tokenHash)
unfoldable pub find_session : String → Db → Option Session
find_session hash db = find (has_hash hash) db.sessions

-- revokeSession(id)
unfoldable pub revoke_session : ℕ → String → Exec Db Session
revoke_session now id = Db.update table id (λ s. record s { revoked_at = some now })

unfoldable pub touch_found : ℕ → String → Option Session → Exec Db Session
touch_found now id none db = Db.unknown table id db
touch_found now id (some s) db =
    if ltb now (s.last_used_at + 60000)
    then (ok s, db)
    else Db.update table id (λ s. record s { last_used_at = now }) db

-- touchSession(id): written at most once a minute
unfoldable pub touch_session : ℕ → String → Exec Db Session
unfolding touch_found
touch_session now id db = touch_found now id (Db.lookup table id db) db

live-not_prunable :
    (now : ℕ) (s : Session) → now ≤ died_at s + retain_ms → not (is_prunable now s) ≡ true
live-not_prunable now s alive = elim (Bool-cases (is_prunable now s)) [
  | inl dead ↦ absurd (ground (arith, dead, alive))
  | inr fine ↦ rw fine refl
]

-- A new session ends no other: a token's session that died less than a day ago, or has not died,
-- is still the one found for its token.
pub find-add_session :
    (now : ℕ) (new s : Session) (hash : String) (db : Db)
    → find_session hash db ≡ some s
    → now ≤ died_at s + retain_ms
    → find_session hash (add_session now new db) ≡ some s
unfolding find_session add_session prune_sessions Db.push
find-add_session now new s hash db found alive =
    find-append _ _ _ s
      (find-keep (has_hash hash) _ db.sessions s found (live-not_prunable now s alive))
