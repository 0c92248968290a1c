-- ===== src/Recovery/Runs.antt =====
-- Any run of the recovery routes of services/api/src/server.ts, in the order of their clocks.
use trans_f.Prelude.{ℕ, ◌+◌, ◌≤◌, String, Option, some, List, [], ◌∷◌, ◌≡◌, arith}
use mathlib.Core.Path.{subst}
use trans_f.Store.Db.{Db, has_id, lookup}
use trans_f.Store.Records.{RecoveryRequest, RecoveryStatus, ready_for_guardian, guardian_submitted}
use trans_f.Store.Requests.{table, find_recovery_request}
use trans_f.Recovery.{Policy, Signer, hours_ms}
use trans_f.Recovery.Requests.{open_request, approve, cancel, refresh, guardian_submit}
use trans_f.Recovery.Delay.{Timed, TimedAs, All, IsTimed, All-find}
use trans_f.Recovery.Routes.{
  open-Keeps, approve-Keeps, cancel-Keeps, refresh-Keeps, submit_route-Keeps,
}

-- A call of a route, with what it is sent.
pub data Route : Type 0 where
  request_it : String → String → Option String → Option String → Route
  approve_it : String → String → Option String → Route
  cancel_it : String → Option String → Route
  refresh_it submit_it : String → Route

unfoldable pub serve : Policy → Signer → ℕ → Route → Db → Db
serve cfg signer now (request_it uid id owner contact) db =
    (open_request cfg uid id now owner contact db).1
serve cfg signer now (approve_it id who why) db = (approve cfg id now who why db).1
serve cfg signer now (cancel_it id why) db = (cancel id now why db).1
serve cfg signer now (refresh_it id) db = (refresh id now db).1
serve cfg signer now (submit_it id) db = (guardian_submit cfg signer id now db).1

-- The calls follow each other; each comes so many milliseconds after the one before.
unfoldable pub serve_all : Policy → Signer → ℕ → List (ℕ × Route) → Db → Db
serve_all cfg signer now [] db = db
serve_all cfg signer now ((wait, r) ∷ rs) db =
    serve_all cfg signer (now + wait) rs (serve cfg signer (now + wait) r db)

-- The time after the calls.
unfoldable pub time_after : ℕ → List (ℕ × Route) → ℕ
time_after now [] = now
time_after now ((wait, r) ∷ rs) = time_after (now + wait) rs

serve-IsTimed :
    (cfg : Policy) (signer : Signer) (now : ℕ) (r : Route) (db : Db)
    → IsTimed now db
    → IsTimed now (serve cfg signer now r db)
unfolding serve
serve-IsTimed cfg signer now (request_it uid id owner contact) db h =
    (open-Keeps cfg signer now uid id owner contact).at db h
serve-IsTimed cfg signer now (approve_it id who why) db h =
    (approve-Keeps cfg signer now id who why).at db h
serve-IsTimed cfg signer now (cancel_it id why) db h = (cancel-Keeps cfg signer now id why).at db h
serve-IsTimed cfg signer now (refresh_it id) db h = (refresh-Keeps cfg signer now id).at db h
serve-IsTimed cfg signer now (submit_it id) db h = (submit_route-Keeps cfg signer now id).at db h

wait-TimedAs :
    (now wait : ℕ) (s : RecoveryStatus) (approval ready : Option ℕ) (delay : ℕ)
    → TimedAs now s approval ready delay
    → TimedAs (now + wait) s approval ready delay
wait-TimedAs now wait ready_for_guardian approval ready delay (a, approved, le) =
    (a, approved, omega (arith, le))
wait-TimedAs now wait guardian_submitted approval ready delay (a, approved, le) =
    (a, approved, omega (arith, le))
wait-TimedAs now wait _ approval ready delay h = h

wait-All :
    (now wait : ℕ) (rs : List RecoveryRequest) → All (Timed now) rs → All (Timed (now + wait)) rs
wait-All now wait [] h = tt
wait-All now wait (r ∷ rs) (p, h) = (
  wait-TimedAs now wait r.status r.kyc_approved_at r.ready_at r.recovery_delay_hours p,
  wait-All now wait rs h,
)

serve_all-IsTimed :
    (cfg : Policy) (signer : Signer) (now : ℕ) (rs : List (ℕ × Route)) (db : Db)
    → IsTimed now db
    → IsTimed (time_after now rs) (serve_all cfg signer now rs db)
unfolding serve_all time_after
serve_all-IsTimed cfg signer now [] db h = h
serve_all-IsTimed cfg signer now ((wait, r) ∷ rs) db h =
    serve_all-IsTimed cfg signer (now + wait) rs _ (
      serve-IsTimed cfg signer (now + wait) r db
        (record { all = wait-All now wait db.recovery_requests h.all }))

-- From a store without recovery requests, however the routes are called and whatever the signer
-- answers: a request that is GUARDIAN_SUBMITTED was approved at some time `a`, and its delay after
-- `a` is over.
pub submitted-Waited :
    (cfg : Policy) (signer : Signer) (now : ℕ) (rs : List (ℕ × Route)) (db : Db) (id : String)
    (r : RecoveryRequest)
    → db.recovery_requests ≡ []
    → find_recovery_request id (serve_all cfg signer now rs db) ≡ some r
    → r.status ≡ guardian_submitted
    → (a : ℕ) × (r.kyc_approved_at ≡ some a)
      × (a + hours_ms r.recovery_delay_hours ≤ time_after now rs)
unfolding lookup
submitted-Waited cfg signer now rs db id r fresh found done =
    let start : IsTimed now db = record { all = rw fresh tt } in
    let timed =
      All-find (Timed (time_after now rs)) (has_id table id) _ r found
        (serve_all-IsTimed cfg signer now rs db start).all in
    subst
      (λ (s : RecoveryStatus).
        TimedAs (time_after now rs) s r.kyc_approved_at r.ready_at r.recovery_delay_hours)
      done timed
