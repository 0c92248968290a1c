-- ===== src/Orchestrator/Outcome/Runs.antt =====
-- Both rails end: they return the stored transfer, paid out, in review, failed or refunded.
use trans_f.Prelude.{String, Bool, true, false, Option, some, ◌≡◌, refl, inl, inr}
use mathlib.Core.Path.{subst}
use trans_f.Prelude.Tests.{if◌then◌else◌, Bool-cases}
use trans_f.Prelude.Text.{mentions}
use trans_f.Exec.{Result, ok, err, Error, message, catch, handle, ◌>>=◌}
use trans_f.Exec.Keeps.{Keeps, Holds, Ensures, ensures_rules}
use trans_f.Store.Users.{User}
use trans_f.Store.Payments.{Transfer, TransferState, Pickup}
use trans_f.Store.Transfers.{table, find_transfer}
use trans_f.Store.Accounts.{find_user}
use trans_f.Store.Db.Laws.{KeepsId}
use trans_f.Orchestrator.World.{Sys, Action, Config, World, PaymentAuthorization}
use trans_f.Orchestrator.Steps.{update, the_transfer, transfer_or, is_stranded, has_step}
use trans_f.Orchestrator.Compensate.{
  as_failed, as_parked, refund_unless, compensate_transfer, fail_and_compensate, unwind, is_over,
  require_user, burn_note, duplicate_note,
}
use trans_f.Orchestrator.Execute.{
  run_cash, execute_transfer, cash_payout_state, run_sepa, execute_sepa_transfer, pay_sepa,
  redeem_failed,
}
use trans_f.Orchestrator.Lemmas.{stamped, update_ok, update_found, the_transfer_ok}
use trans_f.Orchestrator.Keeps.Unwind.{compensate-Keeps}
use trans_f.Orchestrator.Keeps.Rails.{run_cash-Keeps, run_sepa-Keeps}
use trans_f.Orchestrator.Outcome.{
  Exists, Exists-IsClosed, IsLanded, IsLanded-IsCalm, IsStored, IsAny, IsDown, update-Ensures,
  unwind-Ensures,
}

-- The handler returns the transfer that it leaves in the store, and that one is not DEBITED,
-- SWAPPED or BRIDGED.
pub record Ends (id : String) (r : Result Transfer × Sys) : Type 0 where
  pub kept : Transfer
  pub returned : r.0 ≡ ok kept
  pub stored : find_transfer id r.1.db ≡ some kept
  pub landed : is_stranded kept.state ≡ false

module _ (cfg : Config) (w : World) (id : String) where
  require-Ensures :
      (u : Option User) (t : Transfer)
      → Ensures (IsStored id IsAny) (require_user id u >>= λ user. unwind cfg w user id t)
  require-Ensures u t =
      search (ensures_rules, λ (user : User) (t : Transfer). unwind-Ensures cfg w user id t)

  -- A compensation that returns has returned the stored transfer.
  pub compensate-IsStored :
      (s : Sys) (t : Transfer)
      → find_transfer id s.db ≡ some t
      → Holds (IsStored id IsAny) (compensate_transfer cfg w id s)
  unfolding compensate_transfer ◌>>=◌ the_transfer
  compensate-IsStored s t found =
      rw (found, transfer_or)
        (elim (Bool-cases (is_over t.state t.refund)) [
          | inl over ↦ rw over (found, tt)
          | inr live ↦ rw live ((require-Ensures (find_user t.user_id s.db) t).at s)
        ])

  update-Ends :
      (f : Transfer → Transfer) (s : Sys) (t : Transfer)
      → find_transfer id s.db ≡ some t
      → KeepsId table f
      → is_stranded (f t).state ≡ false
      → Ends id (update id f s)
  update-Ends f s t found k down = record {
    kept = stamped f s t;
    returned = update_ok id f s t found;
    stored = update_found id f s t found k;
    landed = down;
  }

  parked-Ends : (why : String) (s : Sys) → IsLanded id s → Ends id (update id (as_parked why) s)
  unfolding as_parked
  parked-Ends why s h = update-Ends _ s h.kept h.found (λ a. refl) refl

  caught-Ends :
      (r : Result Transfer × Sys)
      → Holds (IsStored id IsAny) r
      → IsLanded id r.1
      → Ends id (handle r.0 (λ _. the_transfer id) r.1)
  caught-Ends (ok t, s) (found, _) h = record {
    kept = t;
    returned = refl;
    stored = found;
    landed =
        let same : h.kept ≡ t = (cc) in
        subst (λ (t : Transfer). is_stranded t.state ≡ false) same h.landed;
  }
  caught-Ends (err e, s) _ h =
      rw (the_transfer_ok id s h.kept h.found)
        (record { kept = h.kept; returned = refl; stored = h.found; landed = h.landed })

  compensated-Ends :
      (s : Sys)
      → IsLanded id s
      → Ends id (catch (compensate_transfer cfg w id) (λ _. the_transfer id) s)
  compensated-Ends s h =
      caught-Ends (compensate_transfer cfg w id s) (compensate-IsStored s h.kept h.found)
        ((compensate-Keeps cfg w id (IsLanded-IsCalm id)).at s h)

  refund-Ends :
      (e : Error) (t : Transfer) (s : Sys) → IsLanded id s → Ends id (refund_unless cfg w id e t s)
  unfolding refund_unless
  refund-Ends e t s h = elim (Bool-cases (mentions "duplicate transfer" (message e))) [
    | inl duplicate ↦ rw duplicate (parked-Ends (duplicate_note e) s h)
    | inr single ↦ elim (Bool-cases (has_step "cctp.burn" t.txs)) [
      | inl burned ↦ rw (single, burned) (parked-Ends (burn_note e) s h)
      | inr unburned ↦ rw (single, unburned) (compensated-Ends s h)
    ]
  ]

  fail-Ends : (e : Error) (s : Sys) → Exists id s → Ends id (fail_and_compensate cfg w id e s)
  unfolding fail_and_compensate ◌>>=◌ as_failed
  fail-Ends e s h = rw (update_ok id (as_failed (message e)) s h.kept h.found) (
      refund-Ends e _ _ (record {
        kept = stamped (as_failed (message e)) s h.kept;
        found = update_found id (as_failed (message e)) s h.kept h.found (λ a. refl);
        landed = refl;
      }))

IsDown-Ensures :
    (id : String) (f : Transfer → Transfer)
    → KeepsId table f
    → ((t : Transfer) → is_stranded (f t).state ≡ false)
    → Ensures (IsStored id IsDown) (update id f)
IsDown-Ensures id f k p = update-Ensures id IsDown f k p

if-down :
    (b : Bool) (s t : TransferState)
    → IsDown s
    → IsDown t
    → is_stranded (if b then s else t) ≡ false
if-down true s t p q = p
if-down false s t p q = q

payout-down : (p : Pickup) → is_stranded (cash_payout_state p) ≡ false
unfolding cash_payout_state
payout-down p = search if-down depth 12

module _ (cfg : Config) (w : World) (user : User) (id : String) (auth : PaymentAuthorization) where
  run_cash-Ensures : Ensures (IsStored id IsDown) (run_cash cfg w user id auth)
  unfolding run_cash
  run_cash-Ensures =
      search
        (
          ensures_rules,
          λ (p : Pickup).
              IsDown-Ensures id (λ t. record t { state = cash_payout_state p; pickup = some p })
                (λ a. refl) (λ t. payout-down p),
        )
        depth 14

  run_sepa-Ensures : Ensures (IsStored id IsDown) (run_sepa cfg w user id auth)
  unfolding run_sepa pay_sepa redeem_failed
  run_sepa-Ensures = search (ensures_rules, IsDown-Ensures) depth 14

  rail-Ends :
      (m : Action Transfer) (s : Sys)
      → Keeps (Exists id) m
      → Ensures (IsStored id IsDown) m
      → Exists id s
      → Ends id (catch m (fail_and_compensate cfg w id) s)
  rail-Ends m s k e h = go (m s) (e.at s) (k.at s h)
    where
      go :
          (r : Result Transfer × Sys)
          → Holds (IsStored id IsDown) r
          → Exists id r.1
          → Ends id (handle r.0 (fail_and_compensate cfg w id) r.1)
      go (ok t, s') (found, down) x = record {
        kept = t;
        returned = refl;
        stored = found;
        landed = down;
      }
      go (err e, s') _ x = fail-Ends cfg w id e s' x

  -- A cash transfer that is in the store ends: whatever the outside answers, `executeTransfer`
  -- returns the transfer it leaves in the store, and that is not DEBITED, SWAPPED or BRIDGED.
  pub execute-Ends :
      (s : Sys) (t : Transfer)
      → find_transfer id s.db ≡ some t
      → Ends id (execute_transfer cfg w user id auth s)
  unfolding execute_transfer
  execute-Ends s t found =
      rail-Ends _ s (run_cash-Keeps cfg w user id (Exists-IsClosed id) auth) run_cash-Ensures
        (record { kept = t; found = found })

  -- The same of `executeSepaTransfer`.
  pub execute_sepa-Ends :
      (s : Sys) (t : Transfer)
      → find_transfer id s.db ≡ some t
      → Ends id (execute_sepa_transfer cfg w user id auth s)
  unfolding execute_sepa_transfer
  execute_sepa-Ends s t found =
      rail-Ends _ s (run_sepa-Keeps cfg w user id (Exists-IsClosed id) auth) run_sepa-Ensures
        (record { kept = t; found = found })
