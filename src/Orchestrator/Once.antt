-- ===== src/Orchestrator/Once.antt =====
-- services/api/src/orchestrator.ts: what is done once. A collected pickup is not settled again, a
-- finished compensation is not repeated.
use trans_f.Prelude.{
  String, true, false, Option, none, some, List, ◌≡◌, ◌≢◌, refl, ◌∙◌, sym, ap, inl, inr, ◌⊎◌,
}
use mathlib.Core.Path.{subst, ap₂}
use trans_f.Prelude.Tests.{Bool-cases}
use trans_f.Exec.{Result, ok, err, Error, ◌>>=◌}
use trans_f.Exec.Keeps.{Holds, Ensures, ensures_rules}
use trans_f.Store.Payments.{Transfer, TransferState, Tx, Pickup, Refund, paid}
use trans_f.Store.Transfers.{find_transfer}
use trans_f.Orchestrator.World.{Sys, Config, World}
use trans_f.Orchestrator.Steps.{input_funds_moved, the_transfer, transfer_or, update}
use trans_f.Store.Accounts.{find_user}
use trans_f.Orchestrator.Compensate.{compensate_transfer, is_over, require_user, unwind}
use trans_f.Orchestrator.Settle.{settle_pickup, is_collectable, collected}
use trans_f.Orchestrator.Outcome.{IsStored, IsWith, update-Ensures}
use trans_f.Orchestrator.Returned.{IsReturned, require-IsReturned}

-- A compensation is over for it.
pub data IsOver (t : Transfer) : Type 0 where
  has_refund : (r : Refund) → t.refund ≡ some r → IsOver t
  was_refunded : t.state ≡ TransferState.refunded → IsOver t
  was_paid : t.state ≡ paid → IsOver t

pub record IsLive (t : Transfer) : Type 0 where
  pub unpaid : t.state ≢ paid
  pub unrefunded : t.state ≢ TransferState.refunded
  pub unnoted : t.refund ≡ none

is_over-IsOver : (t : Transfer) → is_over t.state t.refund ≡ true → IsOver t
is_over-IsOver t = go t.state t.refund refl refl
  where
    go :
        (x : TransferState) (o : Option Refund)
        → t.state ≡ x
        → t.refund ≡ o
        → is_over x o ≡ true
        → IsOver t
    go x (some r) e k h = has_refund r k
    go TransferState.refunded none e k h = was_refunded e
    go TransferState.paid none e k h = was_paid e
    go TransferState.created none e k h = cc
    go TransferState.debited none e k h = cc
    go TransferState.swapped none e k h = cc
    go TransferState.bridged none e k h = cc
    go TransferState.payout_details_pending none e k h = cc
    go TransferState.payout_funding_pending none e k h = cc
    go TransferState.payout_funded none e k h = cc
    go TransferState.payout_ready none e k h = cc
    go TransferState.payout_submitted none e k h = cc
    go TransferState.in_review none e k h = cc
    go TransferState.failed none e k h = cc

is_over-IsLive : (t : Transfer) → is_over t.state t.refund ≡ false → IsLive t
is_over-IsLive t h = record {
  unpaid = λ e. cc (rw (none_left t.refund h, e) at h);
  unrefunded = λ e. cc (rw (none_left t.refund h, e) at h);
  unnoted = none_left t.refund h;
}
  where
    none_left : (o : Option Refund) → is_over t.state o ≡ false → o ≡ none
    none_left none k = refl
    none_left (some r) k = cc

-- What a compensation that returned `u` for `t`, from `s` to `s'`, was.
pub data Compensated (cfg : Config) (w : World) (id : String) (t u : Transfer) (s s' : Sys)
    : Type 0 where
  untouched :
      IsOver t
      → u ≡ t
      → s' ≡ s
      → compensate_transfer cfg w id s' ≡ (ok u, s')
      → Compensated cfg w id t u s s'
  parked :
      IsLive t
      → input_funds_moved t.txs ≡ true
      → u.state ≡ TransferState.in_review
      → Compensated cfg w id t u s s'
  returned :
      IsLive t
      → (r : Refund) → u.refund ≡ some r
      → (u.state ≡ TransferState.refunded) ⊎ (input_funds_moved t.txs ≡ false)
      → compensate_transfer cfg w id s' ≡ (ok u, s')
      → Compensated cfg w id t u s s'

-- The handler throws, and changes nothing.
pub record IsRefused (before : Sys) (r : Result Transfer × Sys) : Type 0 where
  pub why : Error
  pub thrown : r.0 ≡ err why
  pub unchanged : r.1 ≡ before

abbrev IsPaid : TransferState → Type 0
IsPaid s = s ≡ paid

collected-Ensures :
    (id : String) (txs : List Tx) (p : Option Pickup)
    → Ensures (IsStored id IsPaid) (update id (collected txs p))
collected-Ensures id txs p = update-Ensures id IsPaid (collected txs p) (λ a. refl) (λ t. refl)

settle-Ensures : (w : World) (id : String) → Ensures (IsStored id IsPaid) (settle_pickup w id)
unfolding settle_pickup
settle-Ensures w id = search (ensures_rules, collected-Ensures) depth 9

refuse_closed :
    (w : World) (id : String) (s : Sys) (t : Transfer)
    → find_transfer id s.db ≡ some t
    → is_collectable t.state ≡ false
    → IsRefused s (settle_pickup w id s)
unfolding settle_pickup the_transfer ◌>>=◌
refuse_closed w id s t found closed =
    rw (found, transfer_or) (rw closed (record { why = _; thrown = refl; unchanged = refl }))

-- After a settlement that returned, a second one of the same transfer throws and leaves the state
-- as it was, so that it calls nothing.
pub settle-once :
    (w : World) (id : String) (s : Sys) (t : Transfer)
    → (settle_pickup w id s).0 ≡ ok t
    → IsRefused (settle_pickup w id s).1 (settle_pickup w id (settle_pickup w id s).1)
settle-once w id s t done = go (settle_pickup w id s) done ((settle-Ensures w id).at s)
  where
    go :
        (r : Result Transfer × Sys)
        → r.0 ≡ ok t
        → Holds (IsStored id IsPaid) r
        → IsRefused r.1 (settle_pickup w id r.1)
    go (ok u, s') e (found, is_paid) = refuse_closed w id s' u found (rw is_paid refl)
    go (err e, s') h q = cc

over_again :
    (cfg : Config) (w : World) (id : String) (s : Sys) (t : Transfer)
    → find_transfer id s.db ≡ some t
    → is_over t.state t.refund ≡ true
    → compensate_transfer cfg w id s ≡ (ok t, s)
unfolding compensate_transfer the_transfer ◌>>=◌
over_again cfg w id s t found over = rw (found, transfer_or) (rw over refl)

result_inj : (t u : Transfer) → ok t ≡ ok u → t ≡ u
result_inj t u h = cc

module _ (cfg : Config) (w : World) (id : String) where
  -- A refund recorded by the first run ends it.
  noted-again :
      (s : Sys) (u : Transfer) (r : Refund)
      → find_transfer id s.db ≡ some u
      → u.refund ≡ some r
      → compensate_transfer cfg w id s ≡ (ok u, s)
  noted-again s u r found noted = over_again cfg w id s u found (rw noted refl)

  unwound :
      (t u : Transfer) (s : Sys) (r : Result Transfer × Sys)
      → IsLive t
      → r.0 ≡ ok u
      → Holds (IsWith id (IsReturned (input_funds_moved t.txs))) r
      → Compensated cfg w id t u s r.1
  unwound t u s (err e, s') live done h = cc
  unwound t u s (ok v, s') live done (found, ends) =
      let same : v ≡ u = result_inj v u done in
      elim ends [
        | inl (aside, moved) ↦
            Compensated.parked live moved (ap (λ (x : Transfer). x.state) (sym same) ∙ aside)
        | inr (refund, noted, ended) ↦
            let noted' : u.refund ≡ some refund =
              ap (λ (x : Transfer). x.refund) (sym same) ∙ noted in
            Compensated.returned live refund noted'
              (subst
                (λ (x : Transfer).
                  (x.state ≡ TransferState.refunded) ⊎ (input_funds_moved t.txs ≡ false))
                same ended)
              (noted-again s' u refund (found ∙ ap some same) noted')
      ]

  -- When the compensation of a stored transfer returns, either that transfer was REFUNDED, PAID or
  -- had a refund and came back as it was, nothing done; or it was none of these, and either its input
  -- was moved and it is now parked in MANUAL_REVIEW, or it has its refund recorded and is REFUNDED
  -- unless no input was moved. Unless it is parked, a second run returns the same transfer and leaves
  -- the state as it was.
  pub compensate-once :
      (s : Sys) (t u : Transfer)
      → find_transfer id s.db ≡ some t
      → (compensate_transfer cfg w id s).0 ≡ ok u
      → Compensated cfg w id t u s (compensate_transfer cfg w id s).1
  unfolding compensate_transfer the_transfer ◌>>=◌
  compensate-once s t u found done = elim (Bool-cases (is_over t.state t.refund)) [
    | inl over ↦
        let run = over_again cfg w id s t found over in
        let same : t ≡ u = result_inj t u (sym (ap (λ x. x.0) run) ∙ done) in
        let still : (compensate_transfer cfg w id s).1 ≡ s = ap (λ x. x.1) run in
        Compensated.untouched (is_over-IsOver t over) (sym same) still (
          ap (compensate_transfer cfg w id) still
          ∙ run
          ∙ ap₂ (λ v (x : Sys). (ok v, x)) same (sym still))
    | inr live ↦
        let run : compensate_transfer cfg w id s
            ≡ (require_user id (find_user t.user_id s.db) >>= λ user. unwind cfg w user id t) s =
          rw (found, transfer_or) (rw live refl) in
        unwound t u s (compensate_transfer cfg w id s) (is_over-IsLive t live) done (
          subst (Holds (IsWith id (IsReturned (input_funds_moved t.txs)))) (sym run)
            ((require-IsReturned cfg w id (find_user t.user_id s.db) t).at s))
  ]
