-- ===== src/Orchestrator/Compensate.antt =====
-- services/api/src/orchestrator.ts: a failed transfer is walked backwards.
use trans_f.Prelude.{
  ℕ, String, Bool, true, false, not, Option, none, some, [], ◌∷◌, ◌+◌, ◌-◌, ◌*◌, ◌/◌, ◌^◌, ◌&&◌,
  ◌||◌, min,
}
use trans_f.Prelude.Tests.{if◌then◌else◌, ltb}
use trans_f.Prelude.Text.{concat, mentions}
use trans_f.Exec.{Error, message, plain, pure, throw, gets, catch, ◌>>=◌, ◌>>◌}
use trans_f.Store.Users.{User}
use trans_f.Store.Payments.{Transfer, TransferState, Liquidity, Refund}
use trans_f.Store.Quotes.{find_quote}
use trans_f.Store.Accounts.{find_user}
use trans_f.Orchestrator.World.{
  Action, Config, World, eure_to_usdc, usdc_to_eure, returned, reversed, released, other, call,
}
use trans_f.Orchestrator.Debit.{locked_rate}
use trans_f.Orchestrator.Steps.{
  the_transfer, update, push_tx, push_txs, has_step, input_funds_moved, safe_moved_eur, to_wei,
  floor_cents, fixed_fee_eur, value_or,
}

-- steps.has("liquidity.fx-swapper.eure-usdc") || steps.has("swapper.swapExactIn")
unfoldable pub is_swapped : Transfer → Bool
is_swapped t =
    has_step "liquidity.fx-swapper.eure-usdc" t.txs || has_step "swapper.swapExactIn" t.txs

-- steps.has("bridge.lockForPayout") && !steps.has("bridge.settle")
unfoldable pub is_locked : Transfer → Bool
is_locked t = has_step "bridge.lockForPayout" t.txs && not (has_step "bridge.settle" t.txs)

abbrev pub is_over : TransferState → Option Refund → Bool
is_over s (some refund) = true
is_over TransferState.refunded none = true
is_over TransferState.paid none = true
is_over _ none = false

abbrev pub require_user : String → Option User → Action User
require_user id none = throw (plain (concat ("unknown user for transfer " ∷ id ∷ [])))
require_user id (some user) = pure user

-- returnEureToSafe of chain.ts
unfoldable pub return_eure_to_safe : Config → World → User → String → ℕ → Action String
return_eure_to_safe cfg w user id amount = do
  held ← call (w.eure_balance cfg.orchestrator_address) (λ _. other)
  if ltb held (to_wei amount)
      then throw (
          plain (
            concat (
              "orchestrator holds "
              ∷ w.show held
              ∷ " EURe but the refund needs "
              ∷ w.show amount
              ∷ " — refusing a partial refund rather than guessing which transfer it belongs to"
              ∷ [])))
      else call (w.write_and_wait "transfer" user.address (to_wei amount))
          (λ _. returned id (to_wei amount))

-- The escrow is released back to the orchestrator, if it is locked.
unfoldable pub release_escrow : World → String → Transfer → Action (Unit {0})
unfolding is_locked
release_escrow w id t =
    if is_locked t
    then (do
      hash ← call (w.write_and_wait "release" id 0) (λ _. released id)
      push_tx id "bridge.release" hash)
    else pure tt

abbrev pub positive : Option ℕ → Option ℕ
positive none = none
positive (some r) = if ltb 0 r then some r else none

abbrev pub liquidity_rate : Option Liquidity → Option ℕ
liquidity_rate none = none
liquidity_rate (some l) = some l.rate

unfoldable pub rate_from : World → Option ℕ → Option ℕ → Action ℕ
rate_from w (some rate) _ = pure rate
rate_from w none (some rate) = pure rate
rate_from w none none =
    catch (call (w.indicative_rate eure_to_usdc) (λ _. other))
      (λ _. call w.swapper_rate (λ _. other))

-- compensationRate
unfoldable pub compensation_rate : World → Transfer → Action ℕ
unfolding rate_from
compensation_rate w t = do
  quote ← gets (λ s. find_quote t.quote_id s.db)
  rate_from w (positive (liquidity_rate t.liquidity)) (positive (locked_rate quote))

-- refundEur, and deductions if it is returned. After a swap both are only printed.
unfoldable pub estimate : World → Transfer → Action ℕ
unfolding is_swapped compensation_rate
estimate w t =
    if is_swapped t
    then (do
      rate ← compensation_rate w t
      pure (floor_cents (fixed_fee_eur + value_or 0 t.usdc_out * 10 ^ 18 / rate)))
    else pure t.send_eur

-- What the fee leg owes after a reverse swap brought `back`.
unfoldable pub fee_back : ℕ → ℕ → ℕ
fee_back moved back = min fixed_fee_eur (moved - back)

unfoldable pub return_fee : Config → World → User → String → ℕ → Action (Unit {0})
unfolding return_eure_to_safe
return_fee cfg w user id fee =
    if ltb 0 fee
    then (do hash ← return_eure_to_safe cfg w user id fee; push_tx id "safe.refundTransfer" hash)
    else pure tt

unfoldable pub as_refunded : World → ℕ → ℕ → String → String → Transfer → Transfer
as_refunded w now amount from deductions t = record t {
  state = TransferState.refunded;
  refund =
      some
        (record { amount_eur = amount; recovered_from = from; deductions = deductions; at = now });
}

abbrev pub lost_text : World → ℕ → String → String
lost_text w lost why = if ltb 0 lost then concat ("€" ∷ w.show lost ∷ why ∷ []) else "none"

-- The reverse swap measured by the Safe's balance: `before` and `after` it.
unfoldable pub settle_reversed : Config → World → User → String → ℕ → ℕ → Action Transfer
unfolding fee_back return_fee as_refunded
settle_reversed cfg w user id before after =
    if ltb before after
    then (do
      t ← the_transfer id
      let fee = fee_back (safe_moved_eur t) (after - before)
      return_fee cfg w user id fee
      t' ← the_transfer id
      let total = floor_cents (after - before + fee)
      now ← gets (λ s. s.clock)
      update id (
          as_refunded w now total "post-swap USDC, reverse-swapped"
            (lost_text w (safe_moved_eur t' - total) " conversion round-trip at execution rates")))
    else throw (plain "reverse swap delivered no EURe to the Safe")

-- Reverse the swap into the Safe and hand the fee remainder back.
unfoldable pub reverse_swap : Config → World → User → String → Transfer → Action Transfer
unfolding settle_reversed
reverse_swap cfg w user id t =
    if ltb 0 (value_or 0 t.usdc_out)
    then (do
      now ← gets (λ s. s.clock)
      rq ←
          call
            (w.quote usdc_to_eure (value_or 0 t.usdc_out) (concat (id ∷ ":refund" ∷ []))
              (now + 300000))
            (λ _. other)
      before ← call (w.eure_balance user.address) (λ _. other)
      back ← call (w.execute rq (some user.address)) (λ e. reversed id e.amount_out)
      push_txs id back.txs
      after ← call (w.balance_after_write user.address before) (λ _. other)
      settle_reversed cfg w user id before after)
    else throw (plain "no recorded USDC output to reverse")

unfoldable pub park : String → (String → String) → Action Transfer
park id note = update id (λ t. record t {
  state = TransferState.in_review;
  error = some (note (value_or "transfer failed" t.error));
})

-- A Safe-funded transfer whose input is still EURe.
unfoldable pub return_input : Config → World → User → String → ℕ → Action Transfer
unfolding return_eure_to_safe as_refunded
return_input cfg w user id estimated = do
  t ← the_transfer id
  let moved = safe_moved_eur t
  hash ← return_eure_to_safe cfg w user id (min estimated moved)
  push_tx id "safe.refundTransfer" hash
  now ← gets (λ s. s.clock)
  update id (
      as_refunded w now (min estimated moved) "Safe-funded EURe"
        (lost_text w (t.send_eur - moved) " never left the Safe (payout burns from it directly)"))

-- recoveredFrom
unfoldable pub recovery_source : Transfer → String
unfolding is_swapped
recovery_source t =
    if is_swapped t
    then (if has_step "bridge.lockForPayout" t.txs then "released escrow" else "post-swap USDC")
    else "debited EURe"

unfoldable pub give_back : Config → World → User → String → Transfer → ℕ → Action Transfer
unfolding reverse_swap park return_input recovery_source
give_back cfg w user id t estimated =
    if t.from_safe
    then (if is_swapped t
        then catch (reverse_swap cfg w user id t) (λ e. park id (λ was. concat (
            was
            ∷ "; Safe-funded input was already swapped to USDC and the reverse swap did not complete ("
            ∷ message e
            ∷ ") — needs review before €"
            ∷ w.show estimated
            ∷ " can be returned to "
            ∷ user.address
            ∷ [])))
        else return_input cfg w user id estimated)
    else park id (λ was. concat (
        was
        ∷ "; "
        ∷ recovery_source t
        ∷ " needs a Safe-native treasury refund path before €"
        ∷ w.show estimated
        ∷ " can be returned"
        ∷ []))

-- What compensateTransfer does for a transfer that is not over.
unfoldable pub unwind : Config → World → User → String → Transfer → Action Transfer
unfolding release_escrow estimate give_back
unwind cfg w user id t =
    if input_funds_moved t.txs
    then (do release_escrow w id t; estimated ← estimate w t; give_back cfg w user id t estimated)
    else (do
      now ← gets (λ s. s.clock)
      update id (λ t. record t {
        refund = some (record {
          amount_eur = 0;
          recovered_from = "none";
          deductions = "nothing was debited";
          at = now;
        });
      }))

-- compensateTransfer
unfoldable pub compensate_transfer : Config → World → String → Action Transfer
unfolding unwind
compensate_transfer cfg w id = do
  t ← the_transfer id
  if is_over t.state t.refund then pure t else (do
    found ← gets (λ s. find_user t.user_id s.db)
    user ← require_user id found
    unwind cfg w user id t)

unfoldable pub as_failed : String → Transfer → Transfer
as_failed why t = record t { state = TransferState.failed; error = some why }

unfoldable pub as_parked : String → Transfer → Transfer
as_parked why t = record t { state = TransferState.in_review; error = some why }

abbrev pub duplicate_note : Error → String
duplicate_note e =
    concat (message e ∷ "; this transfer was already debited once, so no automatic refund" ∷ [])

abbrev pub burn_note : Error → String
burn_note e = concat (
    message e
    ∷ "; CCTP burn was submitted, so automatic local refund is unsafe until the burn/mint/anchor state is reconciled"
    ∷ [])

-- What failAndCompensate does once the transfer is FAILED.
unfoldable pub refund_unless : Config → World → String → Error → Transfer → Action Transfer
refund_unless cfg w id e failed =
    if mentions "duplicate transfer" (message e)
    then update id (as_parked (duplicate_note e))
    else if has_step "cctp.burn" failed.txs
    then update id (as_parked (burn_note e))
    else catch (compensate_transfer cfg w id) (λ _. the_transfer id)

-- failAndCompensate; `txs` is the stored transfer's own array
unfoldable pub fail_and_compensate : Config → World → String → Error → Action Transfer
fail_and_compensate cfg w id e = do
  failed ← update id (as_failed (message e))
  refund_unless cfg w id e failed
