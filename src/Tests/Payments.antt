-- ===== src/Tests/Payments.antt =====
-- The orchestrator's theorems at the fixtures.
use trans_f.Prelude.{
  ℕ, String, true, false, none, some, List, [], ◌∷◌, ◌++◌, ◌≡◌, refl, ◌≤◌, ◌+◌, Option, inl, arith,
  ◌↔◌, ◌<◌, ◌*◌, ◌≢◌, str_eq, eq_iff, Bool,
}
use trans_f.Exec.{ok, plain, ◌>>=◌}
use trans_f.Store.Db
use trans_f.Store.Db.{lookup}
use trans_f.Prelude.Lists.{find, any, modify}
use trans_f.Prelude.Text.{same_folded}
use trans_f.Store.Payments.{Transfer, Terms, TransferState}
use trans_f.Store.Transfers.{awaits, find_transfer, update_transfer, claim_authorization}
use trans_f.Store.Transfers.Claims.{Event, claim, patch, IsHonest, wins, wins-le-one}
use trans_f.Orchestrator.World.{Sys, Effect, call, on_db}
use trans_f.Orchestrator.Steps.{
  input_funds_moved, to_wei, safe_moved_eur, has_step, the_transfer, update, write_through,
}
use trans_f.Orchestrator.Debit.{debit_input_funds, check_drift}
use trans_f.Orchestrator.Compensate.{fail_and_compensate, compensate_transfer}
use trans_f.Orchestrator.Execute.{mock_pickup, execute_transfer, execute_sepa_transfer}
use trans_f.Orchestrator.Settle.{no_pickup, settle_pickup, sweep_one, sweep_stranded_transfers}
use trans_f.Orchestrator.Outcome.Runs.{Ends, execute-Ends, execute_sepa-Ends}
use trans_f.Orchestrator.Authorized.{IsRightful, debit-IsRightful, drift_ok, distance}
use trans_f.Orchestrator.Burn.{IsParked, fail-IsParked}
use trans_f.Orchestrator.Once.{IsRefused, Compensated, settle-once, compensate-once}
use trans_f.Orchestrator.Frame.{Handler, pay_cash, settle, run_all, find-run_all, sweep-leaves}
use trans_f.Orchestrator.Caps.{
  safe_funded_eur_today, funded_today-release, sweep_anchor_payouts, anchors-leave,
}
use trans_f.Tests.Fixtures.{ada, fresh, ready, burned, debited_once, db, start, world, config, auth}

execute-Ends_example : Ends "t1" (execute_transfer config world ada "t1" auth start)
unfolding lookup find
execute-Ends_example = execute-Ends config world ada "t1" auth start fresh refl

execute_sepa-Ends_example : Ends "t1" (execute_sepa_transfer config world ada "t1" auth start)
unfolding lookup find
execute_sepa-Ends_example = execute_sepa-Ends config world ada "t1" auth start fresh refl

debit_ok : (debit_input_funds config world ada "t1" auth start).0 ≡ ok tt
unfolding debit_input_funds ◌>>=◌ the_transfer lookup find same_folded call has_step any on_db
    Db.update write_through update update_transfer modify
debit_ok = refl

debit-IsRightful_example : IsRightful world ada "t1" auth start
debit-IsRightful_example = debit-IsRightful config world ada "t1" auth start debit_ok

abbrev as_debited : Transfer → Transfer
as_debited t = record t { state = TransferState.debited }

closed : (a : Option Terms) → awaits TransferState.debited a ≡ false
closed none = refl
closed (some terms) = go terms.authorized_at
  where
    go : (m : Option ℕ) → elim m as (λ x. Bool) [ none ↦ false | some _ ↦ false ] ≡ false
    go none = refl
    go (some at) = refl

as_debited-IsHonest : IsHonest as_debited
as_debited-IsHonest = record { same_id = λ t. refl; stays_claimed = λ t h. closed t.auth }

abbrev race : List Event
race = claim "t1" 10 ∷ claim "t1" 11 ∷ patch "t1" 12 as_debited ∷ claim "t1" 13 ∷ []

race_won : wins "t1" race db ≡ 1
unfolding wins claim_authorization lookup find modify update_transfer Db.update
race_won = refl

wins-le-one_example : wins "t1" race db ≤ 1
wins-le-one_example = wins-le-one "t1" race db (as_debited-IsHonest, tt)

burned_step : has_step "cctp.burn" burned.txs ≡ true
unfolding has_step any
burned_step = refl

fail-IsParked_example :
    IsParked "t3" start (fail_and_compensate config world "t3" (plain "mint timed out") start).1
unfolding lookup find
fail-IsParked_example =
    fail-IsParked config world "t3" (plain "mint timed out") start burned refl (inl burned_step)

apart : {a b : String} → str_eq a b ≡ false → a ≢ b
apart {a} {b} h e = cc ((eq_iff a b).1 e, h)

abbrev others : List (String × Handler)
others = ("t1", pay_cash ada auth) ∷ ("t2", settle) ∷ []

find-run_all_example :
    find_transfer "t3" (run_all config world others start).db ≡ find_transfer "t3" start.db
find-run_all_example = find-run_all config world "t3" others start (apart refl, (apart refl, tt))

sweep-leaves_example :
    find_transfer "t2" (sweep_stranded_transfers config world start).1.db ≡ some ready
unfolding lookup find
sweep-leaves_example = sweep-leaves config world "t2" ready start refl tt

anchors-leave_example :
    find_transfer "t2" (sweep_anchor_payouts config world start).1.db ≡ some ready
unfolding lookup find
anchors-leave_example = anchors-leave config world "t2" ready start refl refl

drift_ok_example :
    ((check_drift world 1015000 1010000 start).0 ≡ ok tt)
    ↔ (distance 1015000 1010000 * 10000 < 51 * 1010000)
drift_ok_example = drift_ok world start 1015000 1010000 (omega arith)

-- A drift of 50.5 basis points passes the cap of 50.
drift_above_cap : (check_drift world 1015100 1010000 start).0 ≡ ok tt
unfolding check_drift
drift_above_cap = refl

abbrev collected : Transfer
collected = record ready {
  state = TransferState.paid;
  pickup = some (record no_pickup { status = "PAID" });
  updated_at = 2000;
}

settle_ran : (settle_pickup world "t2" start).0 ≡ ok collected
unfolding settle_pickup ◌>>=◌ the_transfer lookup find has_step any on_db Db.update update
    update_transfer modify mock_pickup
settle_ran = refl

settle-once_example :
    IsRefused
      (settle_pickup world "t2" start).1
      (settle_pickup world "t2" (settle_pickup world "t2" start).1)
settle-once_example = settle-once world "t2" start collected settle_ran

abbrev returned : Transfer
returned = record debited_once {
  state = TransferState.refunded;
  txs = debited_once.txs ++ record { step = "safe.refundTransfer"; hash = "0xwrite" } ∷ [];
  refund = some (record {
    amount_eur = 100000000000000000000;
    recovered_from = "Safe-funded EURe";
    deductions = "none";
    at = 2000;
  });
  updated_at = 2000;
}

refund_ran : (compensate_transfer config world "t4" start).0 ≡ ok returned
unfolding compensate_transfer ◌>>=◌ the_transfer lookup find call has_step any on_db Db.update
    write_through update update_transfer modify input_funds_moved to_wei safe_moved_eur
refund_ran = refl

compensate-once_example :
    Compensated config world "t4" debited_once returned start
      (compensate_transfer config world "t4" start).1
unfolding lookup find
compensate-once_example =
    compensate-once config world "t4" start debited_once returned refl refund_ran

abbrev failing : Transfer → Transfer
failing t = record t { state = TransferState.failed }

funded_today-release_example :
    safe_funded_eur_today "u1" 2000 (update_transfer 2000 "t1" failing db).1 + fresh.send_eur
    ≡ safe_funded_eur_today "u1" 2000 db
unfolding lookup find
funded_today-release_example =
    funded_today-release "u1" 2000 2000 "t1" failing fresh db refl refl refl

abbrev late : Sys
late = record start { clock = 700000 }

-- The sweep refunds a stale transfer whose CCTP burn was submitted.
swept_after_burn :
    (sweep_one config world "t3" late).1.effects
    ≡ Effect.returned "t3" 100000000000000000000 ∷ Effect.other ∷ []
unfolding sweep_one compensate_transfer ◌>>=◌ the_transfer lookup find call has_step any on_db
    Db.update write_through update update_transfer modify input_funds_moved to_wei safe_moved_eur
swept_after_burn = refl
