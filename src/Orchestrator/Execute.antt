-- ===== src/Orchestrator/Execute.antt =====
-- services/api/src/orchestrator.ts: the two rails, from the debit to the payout.
use trans_f.Prelude.{ℕ, String, Option, none, some, List, [], ◌∷◌, ◌++◌, ◌+◌, ◌-◌, str_eq}
use trans_f.Prelude.Tests.{if◌then◌else◌}
use trans_f.Prelude.Lists.{get_last?}
use trans_f.Prelude.Text.{concat, slice}
use trans_f.Exec.{ok, Error, message, plain, pure, throw, gets, catch, ◌>>=◌, ◌>>◌}
use trans_f.Store.Users.{User}
use trans_f.Store.Payments.{
  Transfer, TransferState, Tx, Liquidity, Pickup, SepaLeg, sandbox, mock, Quote,
}
use trans_f.Store.Quotes.{find_quote}
use trans_f.Orchestrator.World.{
  Action, Config, World, PaymentAuthorization, CctpPlan, dry_run, live, PlanMode, Bridged, planned,
  broke, refused, Execution, Effect, eure_to_usdc, swapped, locked, redeemed, other, thrown, call,
}
use trans_f.Orchestrator.Steps.{
  the_transfer, update, push_tx, push_txs, failpoint, payout_eur, to_wei, fixed_fee_eur,
  quote_ttl_ms, value_or,
}
use trans_f.Orchestrator.Debit.{
  assert_quote_rate_binding, debit_input_funds, debit_sepa_fee, is_some,
}
use trans_f.Orchestrator.Compensate.{fail_and_compensate}

abbrev expiry : ℕ → Option Quote → ℕ
expiry now none = now + quote_ttl_ms
expiry now (some q) = q.expires_at

-- prepareTransferLiquidity of liquidity.ts
unfoldable pub prepare : World → Transfer → Option Liquidity → Action Liquidity
prepare w t (some plan) = pure plan
prepare w t none = do
  stored ← gets (λ s. find_quote t.quote_id s.db)
  now ← gets (λ s. s.clock)
  plan ←
      call
        (w.quote eure_to_usdc (to_wei (t.send_eur - fixed_fee_eur)) t.quote_id (expiry now stored))
        (λ _. other)
  pure (record plan { executed_at = none; tx_hash = none })

abbrev last_hash : Option Tx → Option String
last_hash none = none
last_hash (some x) = some x.hash

-- serializeExecution
unfoldable pub serialize : ℕ → Execution → Liquidity
serialize now e = record e.quote { executed_at = some now; tx_hash = last_hash (get_last? e.txs) }

-- Steps 1 and 2 of executeTransfer's swap: the amount that the venue paid out.
unfoldable pub swap_input : World → String → Action ℕ
unfolding prepare serialize
swap_input w id = do
  t ← the_transfer id
  plan ← prepare w t t.liquidity
  update id (λ t. record t { liquidity = some plan })
  e ← call (w.execute plan none) (λ e. swapped id e.amount_out)
  push_txs id e.txs
  now ← gets (λ s. s.clock)
  update id (λ t. record t {
    state = TransferState.swapped;
    usdc_out = some e.quote.expected_out;
    liquidity = some (serialize now e);
  })
  pure e.amount_out

abbrev optional_tx : String → Option String → List Tx
optional_tx step none = []
optional_tx step (some hash) = record { step = step; hash = hash } ∷ []

abbrev plan_step : PlanMode → String
plan_step dry_run = "cctp.dry-run.plan"
plan_step live = "cctp.live.plan"

-- recordCctpPlan
unfoldable pub cctp_txs : CctpPlan → List Tx
cctp_txs plan =
    record { step = plan_step plan.mode; hash = plan.burn_data } ∷ []
    ++ (optional_tx "cctp.approve" plan.approve_tx_hash
        ++ (optional_tx "cctp.burn" plan.burn_tx_hash
            ++ (optional_tx "cctp.attestation" plan.attestation
                ++ (record { step = "cctp.mint.prepared"; hash = plan.stellar_mint_contract } ∷ []
                    ++ optional_tx "cctp.mint_and_forward" plan.stellar_mint_tx_hash))))

unfoldable pub record_plan : String → Bridged → Action CctpPlan
unfolding cctp_txs
record_plan id (planned plan) = do push_txs id (cctp_txs plan); pure plan
record_plan id (broke why plan) = do push_txs id (cctp_txs plan); throw (plain why)
record_plan id (refused e) = throw e

-- The escrow of the local chain, in dry-run mode alone.
unfoldable pub lock_escrow : World → String → ℕ → PlanMode → Action String
lock_escrow w id out live = pure "cctp.burn"
lock_escrow w id out dry_run = do
  approved ← call (w.write_and_wait "approve" id out) (λ _. other)
  push_tx id "usdc.approve(bridge)" approved
  call (w.wait_for_allowance out) (λ _. other)
  hash ← call (w.write_and_wait "lockForPayout" id out) (λ _. locked id out)
  push_tx id "bridge.lockForPayout" hash
  pure "bridge.lockForPayout"

-- How the call of bridgeUsdcToStellar is remembered.
abbrev bridge_note : Bridged → Effect
bridge_note (planned plan) = other
bridge_note (broke why plan) = thrown
bridge_note (refused e) = thrown

-- Step 3: the bridge leg.
unfoldable pub bridge : Config → World → String → ℕ → Action (Unit {0})
unfolding record_plan lock_escrow
bridge cfg w id out = do
  recipient ← call w.cctp_recipient (λ _. other)
  answer ← call (λ e. ok (w.bridge_usdc_to_stellar out recipient e)) bridge_note
  plan ← record_plan id answer
  step ← lock_escrow w id out plan.mode
  update id (λ t. record t { state = TransferState.bridged })
  failpoint cfg step

-- cashPayoutState
unfoldable pub cash_payout_state : Pickup → TransferState
cash_payout_state p =
    if is_some p.anchor_transaction_id
    then (if str_eq p.status "PAID"
        then TransferState.paid
        else if str_eq (value_or "" p.anchor_status) "completed"
        then TransferState.paid
        else if str_eq (value_or "" p.anchor_status) "pending_user_transfer_complete"
        then TransferState.payout_ready
        else if is_some p.anchor_payment_hash
        then TransferState.payout_funded
        else if str_eq (value_or "" p.anchor_status) "pending_user_transfer_start"
        then TransferState.payout_funding_pending
        else TransferState.payout_details_pending)
    else TransferState.payout_ready

-- createCashPickup of adapters/moneygram.ts
unfoldable pub mock_pickup : String → Pickup
mock_pickup code = record {
  reference_code = code;
  provider = "moneygram-mock";
  status = "READY_FOR_PICKUP";
  interactive_url = none;
  anchor_transaction_id = none;
  anchor_amount = none;
  anchor_asset = none;
  anchor_payment_hash = none;
  anchor_memo = none;
  anchor_amount_in = none;
  anchor_reference_number = none;
  more_info_url = none;
  anchor_status = none;
}

-- pickups.set(transferId, pickup)
unfoldable pub set_pickup : String → Pickup → Action Pickup
set_pickup id p s = (ok p, record s { pickups = (id, p) ∷ s.pickups })

unfoldable pub create_cash_pickup : World → String → Action Pickup
unfolding set_pickup mock_pickup
create_cash_pickup w id = do
  code ← gets (λ s. w.reference_code s.effects)
  set_pickup id (mock_pickup code)

-- A failed anchor is simulated only where that is allowed.
unfoldable pub anchor_failed : Config → World → String → Error → Action Pickup
unfolding create_cash_pickup
anchor_failed cfg w id e =
    if cfg.allow_mock_fallback
    then create_cash_pickup w id
    else throw (
        plain (
          concat (
            "anchor payout failed: "
            ∷ slice 200 (message e)
            ∷ " (set ALLOW_MOCK_FALLBACK=1 to simulate instead)"
            ∷ [])))

-- Step 4: the pickup, from the anchor or the mock.
unfoldable pub create_pickup : Config → World → String → ℕ → Action Pickup
unfolding anchor_failed create_cash_pickup set_pickup
create_pickup cfg w id out =
    if cfg.anchor_mode
    then (do
      t ← the_transfer id
      catch
          (do
            p ← call (w.anchor_pickup id (value_or out t.usdc_out) t.receive_kes) (λ _. other)
            set_pickup id p)
          (anchor_failed cfg w id))
    else create_cash_pickup w id

unfoldable pub run_cash : Config → World → User → String → PaymentAuthorization → Action Transfer
unfolding debit_input_funds assert_quote_rate_binding swap_input bridge create_pickup
run_cash cfg w user id auth = do
  debit_input_funds cfg w user id auth
  assert_quote_rate_binding w id
  out ← swap_input w id
  bridge cfg w id out
  p ← create_pickup cfg w id out
  update id (λ t. record t { state = cash_payout_state p; pickup = some p })

-- executeTransfer. Where the source returns `failAndCompensate` from inside its `try`, the same
-- call is made here by throwing its error to the outer handler. `addrs()` and `transferIdHash`, which
-- come before the `try`, are taken to return: a deployment file that is missing would throw there.
unfoldable pub execute_transfer :
    Config → World → User → String → PaymentAuthorization → Action Transfer
execute_transfer cfg w user id auth =
    catch (run_cash cfg w user id auth) (fail_and_compensate cfg w id)

abbrev sepa_leg_of : String × String → SepaLeg
sepa_leg_of (order, state) = record {
  mode = sandbox;
  order_id = some order;
  state = state;
  detail = none;
}

abbrev simulated_leg : String → String → SepaLeg
simulated_leg state detail = record {
  mode = mock;
  order_id = none;
  state = state;
  detail = some detail;
}

unfoldable pub redeem_failed : Config → String → Error → Action Transfer
redeem_failed cfg id e =
    if cfg.allow_mock_fallback
    then update id (λ t. record t {
      state = TransferState.paid;
      sepa_leg = some (
          simulated_leg "simulated"
            (concat ("real redeem unavailable: " ∷ slice 180 (message e) ∷ [])));
    })
    else throw (
        plain (
          concat (
            "redeem order failed: "
            ∷ slice 200 (message e)
            ∷ " (set ALLOW_MOCK_FALLBACK=1 to simulate instead)"
            ∷ [])))

unfoldable pub pay_sepa : Config → World → String → Transfer → Action Transfer
unfolding redeem_failed
pay_sepa cfg w id t =
    if cfg.monerium_enabled
    then catch
        (do
          order ←
              call (w.redeem_to_iban id (payout_eur t) (value_or "" t.recipient_iban))
                (λ _. redeemed id (payout_eur t))
          update id (λ t. record t {
            state = TransferState.payout_submitted;
            sepa_leg = some (sepa_leg_of order);
          }))
        (redeem_failed cfg id)
    else update id (λ t. record t {
      state = TransferState.paid;
      sepa_leg = some (simulated_leg "processed" "simulated SEPA payout");
    })

unfoldable pub run_sepa : Config → World → User → String → PaymentAuthorization → Action Transfer
unfolding debit_sepa_fee pay_sepa
run_sepa cfg w user id auth = do
  t ← the_transfer id
  debit_sepa_fee cfg w user id auth (payout_eur t)
  pay_sepa cfg w id t

-- executeSepaTransfer
unfoldable pub execute_sepa_transfer :
    Config → World → User → String → PaymentAuthorization → Action Transfer
execute_sepa_transfer cfg w user id auth =
    catch (run_sepa cfg w user id auth) (fail_and_compensate cfg w id)
