-- ===== src/Recovery/Routes.antt =====
-- Every run of the recovery routes of services/api/src/server.ts keeps the delay.
use trans_f.Prelude.{ℕ, ◌+◌, String, true, Option, none, some, ◌≡◌, refl, inl, inr}
use mathlib.Core.Path.{subst}
use trans_f.Prelude.Tests.{Bool-cases}
use trans_f.Exec.{Exec, Result, ok, err, Error, catch, continue, ◌>>=◌}
use trans_f.Exec.Keeps.{Keeps, keeps_rules, Keeps-handle}
use trans_f.Store.Db
use trans_f.Store.Db.{Db, has_id}
use trans_f.Store.Users.{User, SafeRecovery}
use trans_f.Store.Records.{
  RecoveryRequest, RecoveryStatus, kyc_pending, delaying, ready_for_guardian, Submission, passed,
}
use trans_f.Store.Db.Laws.{lookup-update_self}
use trans_f.Store.Requests.{
  table, table-IsTable, find_recovery_request, add_recovery_request, update_recovery_request,
}
use trans_f.Recovery.{
  Policy, Signer, hours_ms, status_at, readiness_status, new_request, lift, is_ready,
  build_recovery_request, approve_recovery_request, recovery_available, assert_submission_ready,
  submit_guardian_recovery, approve_as, built, all_factors,
}
use trans_f.Recovery.Requests.{
  found_or, open_request, approve, cancel, refresh, hand_over, guardian_submit, as_canceled,
  at_hour, as_submitted, as_unsubmitted,
}
use trans_f.Recovery.Delay.{
  Timed, IsTimed, All-append, All-find, update-IsTimed, free-Keeps, ready-Waited, later,
}

module _ {P : Db → Type 0} {A : Type 0} where
  lift-Keeps : (r : Result A) → Keeps P (lift r)
  lift-Keeps (ok a) = record { at = λ s h. h }
  lift-Keeps (err e) = record { at = λ s h. h }

  found-Keeps : (why : String) (o : Option A) → Keeps P (found_or why o)
  found-Keeps why none = search keeps_rules
  found-Keeps why (some a) = search keeps_rules

module _ {P : Db → Type 0} {A B : Type 0} where
  -- A lifted result goes on only with its value.
  Keeps-lift :
      (r : Result A) (f : A → Exec Db B)
      → ((a : A) → r ≡ ok a → Keeps P (f a))
      → Keeps P (lift r >>= f)
  unfolding ◌>>=◌
  Keeps-lift (ok a) f k = record { at = λ s h. (k a refl).at s h }
  Keeps-lift (err e) f k = record { at = λ s h. h }

is_ready_iff : (s : RecoveryStatus) → is_ready s ≡ true → s ≡ ready_for_guardian
is_ready_iff ready_for_guardian h = refl
is_ready_iff _ h = cc

module _ (cfg : Policy) (signer : Signer) (now : ℕ) where
  -- Asking the signer writes nothing.
  submit-Keeps :
      (P : Db → Type 0) (r : RecoveryRequest) → Keeps P (submit_guardian_recovery cfg signer r now)
  unfolding submit_guardian_recovery
  submit-Keeps P r = search (keeps_rules, lift-Keeps) depth 8

  submit_ready :
      (r : RecoveryRequest) (db : Db) (a : Submission)
      → (submit_guardian_recovery cfg signer r now db).0 ≡ ok a
      → readiness_status r now ≡ ready_for_guardian
  unfolding submit_guardian_recovery assert_submission_ready ◌>>=◌
  submit_ready r db a h = elim (Bool-cases (is_ready (readiness_status r now))) [
    | inl ready ↦ is_ready_iff (readiness_status r now) ready
    | inr other ↦ cc (rw other at h)
  ]

  made-Timed :
      (user : User) (id : String) (owner contact : Option String) (r : RecoveryRequest)
      → build_recovery_request cfg user id now owner contact ≡ ok r
      → Timed now r
  unfolding build_recovery_request
  made-Timed user id owner contact r h = go (recovery_available cfg user) h
    where
      go :
          (g : Result SafeRecovery)
          → built g (new_request cfg user id now owner contact) ≡ ok r
          → Timed now r
      go (ok g) h =
          let same : new_request cfg user id now owner contact g ≡ r = (cc) in
          subst (Timed now) same tt
      go (err e) h = cc

  approved-Timed :
      (s : RecoveryStatus) (r next : RecoveryRequest) (who : String) (why : Option String)
      → approve_as s r now who why ≡ ok next
      → Timed now next
  approved-Timed kyc_pending r next who why h =
      let same : record r {
        status = delaying;
        kyc_approved_at = some now;
        ready_at = some (now + hours_ms r.recovery_delay_hours);
        reviewed_by = some who;
        review_reason = why;
        factors = all_factors passed;
      }
          ≡ next =
        (cc) in
      subst (Timed now) same (now, refl, refl)
  approved-Timed _ r next who why h = cc

  add-Keeps :
      (r : RecoveryRequest)
      → Timed now r
      → Keeps (IsTimed now) (λ db. (ok r, add_recovery_request r db))
  unfolding Db.push
  add-Keeps r timed = record {
    at = λ db h. record { all = All-append (Timed now) db.recovery_requests r h.all timed };
  }

  pub open-Keeps :
      (uid id : String) (owner contact : Option String)
      → Keeps (IsTimed now) (open_request cfg uid id now owner contact)
  unfolding open_request
  open-Keeps uid id owner contact =
      search
        (
          keeps_rules,
          found-Keeps,
          λ (user : User).
              Keeps-lift {P = IsTimed now} (build_recovery_request cfg user id now owner contact) _
                (λ r e. add-Keeps r (made-Timed user id owner contact r e)),
        )
        depth 8

  next-Keeps :
      (id : String) (next : RecoveryRequest)
      → Timed now next
      → Keeps (IsTimed now) (update_recovery_request id (λ _. next))
  next-Keeps id next timed = free-Keeps now id (λ _. next) (λ r h. timed)

  pub approve-Keeps :
      (id who : String) (why : Option String) → Keeps (IsTimed now) (approve cfg id now who why)
  unfolding approve approve_recovery_request
  approve-Keeps id who why =
      search
        (
          keeps_rules,
          found-Keeps,
          lift-Keeps,
          λ (r : RecoveryRequest).
              Keeps-lift {P = IsTimed now} (approve_as r.status r now who why) _
                (λ next e. next-Keeps id next (approved-Timed r.status r next who why e)),
        )
        depth 12

  canceled-Keeps :
      (id : String) (why : Option String)
      → Keeps (IsTimed now) (update_recovery_request id (as_canceled now why))
  canceled-Keeps id why = free-Keeps now id (as_canceled now why) (λ r h. tt)

  pub cancel-Keeps : (id : String) (why : Option String) → Keeps (IsTimed now) (cancel id now why)
  unfolding cancel
  cancel-Keeps id why = search (keeps_rules, found-Keeps, canceled-Keeps) depth 8

  hour-Keeps : (id : String) → Keeps (IsTimed now) (update_recovery_request id (at_hour now))
  hour-Keeps id =
      free-Keeps now id (at_hour now)
        (λ r h. later now r.status r.kyc_approved_at r.ready_at r.recovery_delay_hours h)

  pub refresh-Keeps : (id : String) → Keeps (IsTimed now) (refresh id now)
  unfolding refresh
  refresh-Keeps id = search (keeps_rules, found-Keeps, hour-Keeps) depth 8

  unsubmitted-Keeps :
      (id : String) (e : Error)
      → Keeps (IsTimed now) (update_recovery_request id (as_unsubmitted now e))
  unsubmitted-Keeps id e = free-Keeps now id (as_unsubmitted now e) (λ r h. h)

  submitted-IsTimed :
      (id : String) (a : Submission) (r : RecoveryRequest) (db : Db)
      → find_recovery_request id db ≡ some r
      → readiness_status r now ≡ ready_for_guardian
      → IsTimed now db
      → IsTimed now (update_recovery_request id (as_submitted a) db).1
  unfolding Db.lookup readiness_status
  submitted-IsTimed id a r db found ready h =
      update-IsTimed now id (as_submitted a) db
        (λ q e.
          let same : r ≡ q = (cc) in
          let timed = All-find (Timed now) (has_id table id) db.recovery_requests q e h.all in
          ready-Waited now q.status q.kyc_approved_at q.ready_at q.recovery_delay_hours timed (
            subst (λ (q : RecoveryRequest). status_at now q.status q.ready_at ≡ ready_for_guardian)
              same ready))
        h

  answered-IsTimed :
      (id : String) (r : RecoveryRequest) (o : Result Submission) (db : Db)
      → ((a : Submission) → o ≡ ok a → readiness_status r now ≡ ready_for_guardian)
      → find_recovery_request id db ≡ some r
      → IsTimed now db
      → IsTimed now
          (catch
            (λ db. continue o (λ a. update_recovery_request id (as_submitted a)) db)
            (λ e. update_recovery_request id (as_unsubmitted now e))
            db).1
  answered-IsTimed id r (err e) db ready found h = (unsubmitted-Keeps id e).at db h
  answered-IsTimed id r (ok a) db ready found h =
      let (o, db') = update_recovery_request id (as_submitted a) db in
      (Keeps-handle o _ (unsubmitted-Keeps id)).at db'
        (submitted-IsTimed id a r db found (ready a refl) h)

  -- The signer's answer is stored only of a request whose delay is over.
  hand_over-IsTimed :
      (id : String) (r : RecoveryRequest) (db : Db)
      → find_recovery_request id db ≡ some r
      → IsTimed now db
      → IsTimed now (hand_over cfg signer id now r db).1
  unfolding hand_over ◌>>=◌
  hand_over-IsTimed id r db found h =
      let (o, db') = submit_guardian_recovery cfg signer r now db in
      answered-IsTimed id r o db' (submit_ready r db)
        ((submit-Keeps (λ db. find_recovery_request id db ≡ some r) r).at db found)
        ((submit-Keeps (IsTimed now) r).at db h)

  refresh_found :
      (id : String) (r : RecoveryRequest) (db : Db)
      → find_recovery_request id db ≡ some r
      → refresh id now db ≡ (ok (at_hour now r), (refresh id now db).1)
  unfolding refresh ◌>>=◌ Db.update Db.patch_found
  refresh_found id r db e = rw e (rw e refl)

  hour_found :
      (id : String) (r : RecoveryRequest) (db : Db)
      → find_recovery_request id db ≡ some r
      → find_recovery_request id (refresh id now db).1 ≡ some (at_hour now r)
  unfolding refresh ◌>>=◌
  hour_found id r db e =
      rw e (lookup-update_self table (at_hour now) table-IsTable id db r (λ a. refl) e)

  submit_lost :
      (id : String) (db : Db)
      → find_recovery_request id db ≡ none
      → (guardian_submit cfg signer id now db).1 ≡ db
  unfolding guardian_submit ◌>>=◌ refresh
  submit_lost id db e = rw e refl

  submit_found :
      (id : String) (r : RecoveryRequest) (db : Db)
      → find_recovery_request id db ≡ some r
      → guardian_submit cfg signer id now db
        ≡ hand_over cfg signer id now (at_hour now r) (refresh id now db).1
  unfolding guardian_submit ◌>>=◌
  submit_found id r db e = rw (refresh_found id r db e) refl

  pub submit_route-Keeps : (id : String) → Keeps (IsTimed now) (guardian_submit cfg signer id now)
  submit_route-Keeps id = record { at = λ db h. go db h (find_recovery_request id db) refl }
    where
      go :
          (db : Db)
          → IsTimed now db
          → (o : Option RecoveryRequest) → find_recovery_request id db ≡ o
          → IsTimed now (guardian_submit cfg signer id now db).1
      go db h none e = rw (submit_lost id db e) h
      go db h (some r) e = rw (submit_found id r db e) (
          hand_over-IsTimed id (at_hour now r) (refresh id now db).1 (hour_found id r db e)
            ((refresh-Keeps id).at db h))
