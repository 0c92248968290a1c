-- ===== src/Recovery/Delay.antt =====
-- No guardian signs early: the approval and the delay behind every submission.
use trans_f.Prelude.{
  ℕ, ◌+◌, ◌≤◌, String, Bool, Option, none, some, List, [], ◌∷◌, ◌++◌, ◌≡◌, refl, arith, inl, inr,
}
use mathlib.Core.Path.{subst}
use trans_f.Prelude.Tests.{ltb, Bool-cases}
use trans_f.Prelude.Lists.{find, modify}
use trans_f.Exec.Keeps.{Keeps}
use trans_f.Store.Db
use trans_f.Store.Db.{Db, has_id}
use trans_f.Store.Records.{
  RecoveryRequest, RecoveryStatus, delaying, ready_for_guardian, guardian_submitted,
}
use trans_f.Store.Requests.{table, find_recovery_request, update_recovery_request}
use trans_f.Recovery.{hours_ms, status_at}

-- approved at `a`, and the delay over by `now`
abbrev pub Waited : ℕ → Option ℕ → ℕ → Type 0
Waited now approval delay = (a : ℕ) × (approval ≡ some a) × (a + hours_ms delay ≤ now)

abbrev pub Approved : Option ℕ → Option ℕ → ℕ → Type 0
Approved approval ready delay = (a : ℕ) × (approval ≡ some a) × (ready ≡ some (a + hours_ms delay))

abbrev pub TimedAs : ℕ → RecoveryStatus → Option ℕ → Option ℕ → ℕ → Type 0
TimedAs now delaying approval ready delay = Approved approval ready delay
TimedAs now ready_for_guardian approval ready delay = Waited now approval delay
TimedAs now guardian_submitted approval ready delay = Waited now approval delay
TimedAs now _ approval ready delay = Unit {0}

abbrev pub Timed : ℕ → RecoveryRequest → Type 0
Timed now r = TimedAs now r.status r.kyc_approved_at r.ready_at r.recovery_delay_hours

abbrev pub All : (RecoveryRequest → Type 0) → List RecoveryRequest → Type 0
All P [] = Unit {0}
All P (r ∷ rs) = P r × All P rs

-- The invariant of the store at the time `now`.
pub record IsTimed (now : ℕ) (db : Db) : Type 0 where
  pub all : All (Timed now) db.recovery_requests

module _ (P : RecoveryRequest → Type 0) where
  pub All-append :
      (xs : List RecoveryRequest) (r : RecoveryRequest) → All P xs → P r → All P (xs ++ r ∷ [])
  All-append [] r h p = (p, tt)
  All-append (x ∷ xs) r (px, h) p = (px, All-append xs r h p)

  pub All-find :
      (test : RecoveryRequest → Bool) (xs : List RecoveryRequest) (r : RecoveryRequest)
      → find test xs ≡ some r
      → All P xs
      → P r
  unfolding find
  All-find test [] r e h = cc
  All-find test (x ∷ xs) r e (px, h) = elim (Bool-cases (test x)) [
    | inl hit ↦ let same : x ≡ r = cc (rw hit at e) in subst P same px
    | inr miss ↦ All-find test xs r (rw miss at e) h
  ]

  All-modify :
      (test : RecoveryRequest → Bool) (f : RecoveryRequest → RecoveryRequest)
      (xs : List RecoveryRequest)
      → ((r : RecoveryRequest) → find test xs ≡ some r → P (f r))
      → All P xs
      → All P (modify test f xs)
  unfolding find modify
  All-modify test f [] p h = tt
  All-modify test f (x ∷ xs) p (px, h) = elim (Bool-cases (test x)) [
    | inl hit ↦ rw hit (p x (rw hit refl), h)
    | inr miss ↦ rw miss (px, All-modify test f xs (λ r e. p r (rw miss e)) h)
  ]

module _ (now : ℕ) where
  pub update-IsTimed :
      (id : String) (f : RecoveryRequest → RecoveryRequest) (db : Db)
      → ((r : RecoveryRequest) → find_recovery_request id db ≡ some r → Timed now (f r))
      → IsTimed now db
      → IsTimed now (update_recovery_request id f db).1
  unfolding Db.update Db.lookup Db.unknown
  update-IsTimed id f db p h = go (find_recovery_request id db)
    where
      go : (o : Option RecoveryRequest) → IsTimed now (Db.patch_found table o id f db).1
      go none = h
      go (some r) = record {
        all = All-modify (Timed now) (has_id table id) f db.recovery_requests p h.all;
      }

  -- A patch that is timed whatever it changes.
  pub free-Keeps :
      (id : String) (f : RecoveryRequest → RecoveryRequest)
      → ((r : RecoveryRequest) → Timed now r → Timed now (f r))
      → Keeps (IsTimed now) (update_recovery_request id f)
  unfolding Db.lookup
  free-Keeps id f p = record {
    at = λ db h.
        update-IsTimed id f db
          (λ r e. p r (All-find (Timed now) (has_id table id) db.recovery_requests r e h.all)) h;
  }

  pub ready-Waited :
      (s : RecoveryStatus) (approval ready : Option ℕ) (delay : ℕ)
      → TimedAs now s approval ready delay
      → status_at now s ready ≡ ready_for_guardian
      → Waited now approval delay
  ready-Waited ready_for_guardian approval ready delay h e = h
  ready-Waited delaying approval ready delay (a, approved, due) e = (
    a,
    approved,
    elim (Bool-cases (ltb now (a + hours_ms delay))) [
      | inl early ↦ cc (rw (due, early) at e)
      | inr fine ↦ ground (arith, fine)
    ],
  )
  ready-Waited _ approval ready delay h e = cc

  pub later :
      (s : RecoveryStatus) (approval ready : Option ℕ) (delay : ℕ)
      → TimedAs now s approval ready delay
      → TimedAs now (status_at now s ready) approval ready delay
  later delaying approval ready delay (a, approved, due) =
      elim (Bool-cases (ltb now (a + hours_ms delay))) [
        | inl early ↦ rw (due, early) (a, approved, refl)
        | inr fine ↦ rw (due, fine) (a, approved, ground (arith, fine))
      ]
  later _ approval ready delay h = h
