-- ===== src/Orchestrator/Keeps/Rails.antt =====
-- The rails, the settlement and the sweep keep what is closed under their steps.
use trans_f.Prelude.{ℕ, String, Bool, Option, none, some}
use trans_f.Exec.{Error}
use trans_f.Exec.Keeps.{Keeps}
use trans_f.Store.Users.{User, PasskeySafe}
use trans_f.Store.Payments.{Transfer, Terms, Liquidity, Pickup}
use trans_f.Orchestrator.World.{
  Config, World, Sys, PaymentAuthorization, Bridged, planned, broke, refused, PlanMode, live,
  dry_run,
}
use trans_f.Orchestrator.Steps.{failpoint, forced}
use trans_f.Orchestrator.Debit.{
  assert_quote_rate_binding, bind_rate, check_terms, check_signature, assert_terms, require_true,
  assert_device_authorization, ensure_policy, move_from_user_safe, debit_input_funds, move_fee,
  debit_sepa_fee,
}
use trans_f.Orchestrator.Execute.{
  prepare, swap_input, record_plan, lock_escrow, bridge, set_pickup, create_cash_pickup,
  anchor_failed, create_pickup, run_cash, execute_transfer, redeem_failed, pay_sepa, run_sepa,
  execute_sepa_transfer,
}
use trans_f.Orchestrator.Keeps.{IsClosed, IsClosed-IsCalm, handler_rules, account-Keeps}
use trans_f.Orchestrator.Keeps.Unwind.{fail-Keeps}

module _ {P : Sys → Type 0} (cfg : Config) (w : World) (user : User) (id : String)
    (c : IsClosed id P) where
  require-Keeps : (b : Bool) (why : String) → Keeps P (require_true b why)
  unfolding require_true
  require-Keeps b why = search handler_rules

  forced-Keeps : (name : Option String) (step : String) → Keeps P (forced name step)
  unfolding forced
  forced-Keeps none step = search handler_rules
  forced-Keeps (some name) step = search handler_rules

  failpoint-Keeps : (step : String) → Keeps P (failpoint cfg step)
  unfolding failpoint
  failpoint-Keeps step = forced-Keeps cfg.force_fail_step step

  signature-Keeps :
      (t : Transfer) (terms : Terms) (auth : PaymentAuthorization) (a : Option String)
      → Keeps P (check_signature w user t terms auth a)
  unfolding check_signature
  signature-Keeps t terms auth none = search handler_rules
  signature-Keeps t terms auth (some a) = search (handler_rules, require-Keeps) depth 8

  check_terms-Keeps :
      (now : ℕ) (t : Transfer) (terms : Terms) (auth : PaymentAuthorization)
      → Keeps P (check_terms w now t terms auth)
  unfolding check_terms
  check_terms-Keeps now t terms auth = search (handler_rules, require-Keeps) depth 9

  terms-Keeps :
      (t : Transfer) (terms : Option Terms) (auth : PaymentAuthorization)
      → Keeps P (assert_terms w user t terms auth)
  unfolding assert_terms
  terms-Keeps t none auth = search handler_rules
  terms-Keeps t (some terms) auth =
      search (handler_rules, check_terms-Keeps, signature-Keeps) depth 8

  auth-Keeps :
      (t : Transfer) (auth : PaymentAuthorization)
      → Keeps P (assert_device_authorization w user t auth)
  unfolding assert_device_authorization
  auth-Keeps t auth = terms-Keeps t t.auth auth

  policy-Keeps :
      (safe : Option PasskeySafe) (c : Option String) → Keeps P (ensure_policy cfg user safe c)
  unfolding ensure_policy
  policy-Keeps none c = search handler_rules
  policy-Keeps (some safe) none = search handler_rules
  policy-Keeps (some safe) (some address) =
      search (handler_rules, λ (uid : String) (f : User → User). account-Keeps {P = P} id c uid f)

  move-Keeps : (n : ℕ) → Keeps P (move_from_user_safe cfg w user id n)
  unfolding move_from_user_safe
  move-Keeps n = search (handler_rules, policy-Keeps) depth 8

  debit-Keeps : (auth : PaymentAuthorization) → Keeps P (debit_input_funds cfg w user id auth)
  unfolding debit_input_funds
  debit-Keeps auth =
      search (handler_rules, c, auth-Keeps, require-Keeps, move-Keeps, failpoint-Keeps) depth 12

  move_fee-Keeps : (n : ℕ) → Keeps P (move_fee cfg w user id n)
  unfolding move_fee
  move_fee-Keeps n = search (handler_rules, move-Keeps) depth 8

  fee-Keeps : (auth : PaymentAuthorization) (n : ℕ) → Keeps P (debit_sepa_fee cfg w user id auth n)
  unfolding debit_sepa_fee
  fee-Keeps auth n =
      search (handler_rules, c, auth-Keeps, require-Keeps, move_fee-Keeps, failpoint-Keeps) depth 12

  bind_rate-Keeps : (r : Option ℕ) → Keeps P (bind_rate w r)
  unfolding bind_rate
  bind_rate-Keeps none = search handler_rules
  bind_rate-Keeps (some r) = search handler_rules depth 8

  binding-Keeps : Keeps P (assert_quote_rate_binding w id)
  unfolding assert_quote_rate_binding
  binding-Keeps = search (handler_rules, bind_rate-Keeps) depth 8

  prepare-Keeps : (t : Transfer) (l : Option Liquidity) → Keeps P (prepare w t l)
  unfolding prepare
  prepare-Keeps t none = search handler_rules depth 8
  prepare-Keeps t (some l) = search handler_rules

  swap-Keeps : Keeps P (swap_input w id)
  unfolding swap_input
  swap-Keeps = search (handler_rules, c, prepare-Keeps) depth 12

  plan-Keeps : (b : Bridged) → Keeps P (record_plan id b)
  unfolding record_plan
  plan-Keeps (planned plan) = search handler_rules
  plan-Keeps (broke why plan) = search handler_rules
  plan-Keeps (refused e) = search handler_rules

  lock-Keeps : (n : ℕ) (mode : PlanMode) → Keeps P (lock_escrow w id n mode)
  unfolding lock_escrow
  lock-Keeps n live = search handler_rules
  lock-Keeps n dry_run = search handler_rules depth 9

  bridge-Keeps : (n : ℕ) → Keeps P (bridge cfg w id n)
  unfolding bridge
  bridge-Keeps n = search (handler_rules, c, plan-Keeps, lock-Keeps, failpoint-Keeps) depth 9

  set_pickup-Keeps : (p : Pickup) → Keeps P (set_pickup id p)
  unfolding set_pickup
  set_pickup-Keeps p = record { at = λ s h. c.noted s _ h }

  mock-Keeps : Keeps P (create_cash_pickup w id)
  unfolding create_cash_pickup
  mock-Keeps = search (handler_rules, set_pickup-Keeps)

  pickup-Keeps : (n : ℕ) → Keeps P (create_pickup cfg w id n)
  unfolding create_pickup anchor_failed
  pickup-Keeps n = search (handler_rules, mock-Keeps, set_pickup-Keeps) depth 9

  pub run_cash-Keeps : (auth : PaymentAuthorization) → Keeps P (run_cash cfg w user id auth)
  unfolding run_cash
  run_cash-Keeps auth =
      search (handler_rules, c, debit-Keeps, binding-Keeps, swap-Keeps, bridge-Keeps, pickup-Keeps)
        depth 9

  pay_sepa-Keeps : (t : Transfer) → Keeps P (pay_sepa cfg w id t)
  unfolding pay_sepa redeem_failed
  pay_sepa-Keeps t = search (handler_rules, c) depth 9

  pub run_sepa-Keeps : (auth : PaymentAuthorization) → Keeps P (run_sepa cfg w user id auth)
  unfolding run_sepa
  run_sepa-Keeps auth = search (handler_rules, fee-Keeps, pay_sepa-Keeps) depth 9

  pub execute-Keeps : (auth : PaymentAuthorization) → Keeps P (execute_transfer cfg w user id auth)
  unfolding execute_transfer
  execute-Keeps auth = search (
    handler_rules,
    run_cash-Keeps,
    λ (e : Error). fail-Keeps {P = P} cfg w id (IsClosed-IsCalm c) e,
  )

  pub execute_sepa-Keeps :
      (auth : PaymentAuthorization) → Keeps P (execute_sepa_transfer cfg w user id auth)
  unfolding execute_sepa_transfer
  execute_sepa-Keeps auth = search (
    handler_rules,
    run_sepa-Keeps,
    λ (e : Error). fail-Keeps {P = P} cfg w id (IsClosed-IsCalm c) e,
  )
