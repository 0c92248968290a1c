-- ===== src/Orchestrator/Settle.antt =====
-- services/api/src/orchestrator.ts: pickups are settled, anchors polled, stranded transfers swept.
--
-- The lock of `refreshPayout` shares one run between callers; here each run is modelled alone.
use trans_f.Prelude.{
  ℕ, String, Bool, true, false, Option, none, some, List, [], ◌∷◌, ◌++◌, ◌+◌, ◌&&◌, ◌||◌, str_eq,
}
use trans_f.Prelude.Tests.{if◌then◌else◌, ltb}
use trans_f.Prelude.Text.{concat, slice}
use trans_f.Exec.{
  ok, Error, message, plain, payment_uncertain, replied, pure, throw, gets, catch, ◌>>=◌, ◌>>◌,
}
use trans_f.Store.Payments.{Transfer, TransferState, Tx, Pickup, Refund}
use trans_f.Store.Transfers.{find_transfer}
use trans_f.Orchestrator.World.{Action, Config, World, settled, other, call}
use trans_f.Orchestrator.Steps.{the_transfer, update, input_funds_moved, is_stranded, state_name}
use trans_f.Orchestrator.Debit.{is_some}
use trans_f.Orchestrator.Compensate.{is_locked, compensate_transfer, fail_and_compensate}
use trans_f.Orchestrator.Execute.{cash_payout_state}

abbrev pub is_collectable : TransferState → Bool
is_collectable TransferState.payout_ready = true
is_collectable TransferState.payout_funded = true
is_collectable _ = false

-- pickups.get(id)
unfoldable pub lookup_pickup : String → List (String × Pickup) → Option Pickup
lookup_pickup id [] = none
lookup_pickup id ((j, p) ∷ ps) = if str_eq j id then some p else lookup_pickup id ps

abbrev pub mark_paid : Pickup → Pickup
mark_paid p = record p { status = "PAID" }

unfoldable pub complete_found : String → Option Pickup → Action (Option Pickup)
complete_found id none s = (ok none, s)
complete_found id (some p) s =
    (ok (some (mark_paid p)), record s { pickups = (id, mark_paid p) ∷ s.pickups })

-- completePickup of adapters/moneygram.ts: the map's own object is marked
unfoldable pub complete_pickup : String → Action (Option Pickup)
unfolding lookup_pickup complete_found
complete_pickup id s = complete_found id (lookup_pickup id s.pickups) s

unfoldable pub settle_escrow : World → String → Transfer → Action (List Tx)
unfolding is_locked
settle_escrow w id t =
    if is_locked t
    then (do
      hash ← call (w.write_and_wait "settle" id 0) (λ _. settled id)
      pure (record { step = "bridge.settle"; hash = hash } ∷ []))
    else pure []

-- The spread of no pickup at all, where every field is undefined: "" stands for that in a text.
abbrev pub no_pickup : Pickup
no_pickup = record {
  reference_code = "";
  provider = "";
  status = "";
  interactive_url = none;
  anchor_transaction_id = none;
  anchor_amount = none;
  anchor_asset = none;
  anchor_payment_hash = none;
  anchor_memo = none;
  anchor_amount_in = none;
  anchor_reference_number = none;
  more_info_url = none;
  anchor_status = none;
}

abbrev either : Option Pickup → Option Pickup → Pickup
either (some p) _ = p
either none (some p) = p
either none none = no_pickup

abbrev pub collected : List Tx → Option Pickup → Transfer → Transfer
collected txs found t = record t {
  state = TransferState.paid;
  txs = txs;
  pickup = some (mark_paid (either found t.pickup));
}

-- settlePickup
unfoldable pub settle_pickup : World → String → Action Transfer
unfolding settle_escrow complete_pickup
settle_pickup w id = do
  t ← the_transfer id
  if is_collectable t.state
      then (do
        new ← settle_escrow w id t
        found ← complete_pickup id
        update id (collected (t.txs ++ new) found))
      else throw (
          plain (
            concat
              ("transfer is " ∷ state_name t.state ∷ ", expected PAYOUT_READY/PAYOUT_FUNDED" ∷ [])))

abbrev pub is_refreshable : TransferState → Bool
is_refreshable TransferState.payout_details_pending = true
is_refreshable TransferState.payout_funding_pending = true
is_refreshable TransferState.payout_funded = true
is_refreshable TransferState.payout_ready = true
is_refreshable _ = false

abbrev is_funded : TransferState → Bool
is_funded TransferState.payout_funded = true
is_funded _ = false

abbrev pub anchor_id : Option Pickup → Option String
anchor_id none = none
anchor_id (some p) = p.anchor_transaction_id

abbrev pub payment_hash : Option Pickup → Option String
payment_hash none = none
payment_hash (some p) = p.anchor_payment_hash

abbrev has_paid : Option Pickup → Bool
has_paid none = false
has_paid (some p) = str_eq p.status "PAID"

abbrev pub is_uncertain : Error → Bool
is_uncertain (plain why) = false
is_uncertain (payment_uncertain why) = true
is_uncertain (replied status why) = false

unfoldable pub note_funded : String → Option Pickup → Action (Unit {0})
note_funded id none = pure tt
note_funded id (some p) = do update id (λ t. record t { pickup = some p }); pure tt

-- What `refreshPayout` does with the anchor's answer.
abbrev next_state : Pickup → TransferState
next_state p = if str_eq p.status "PAID" then TransferState.payout_funded else cash_payout_state p

unfoldable pub take_answer : String → Transfer → Option Pickup → Action (Transfer × Bool)
take_answer id t none = pure (t, false)
take_answer id t (some p) = do
  u ← update id (λ t. record t { state = next_state p; pickup = some p })
  pure (u, str_eq p.status "PAID")

-- The `try` of refreshPayoutUnlocked: the updated transfer, and whether it is to be settled. The
-- pickups of the callback and of the answer are those already merged into the transfer's.
unfoldable pub poll_anchor : World → String → Transfer → Pickup → Action (Transfer × Bool)
unfolding take_answer note_funded
poll_anchor w id t p = do
  asked ← gets (λ s. s.effects)
  let (funded, answer) = w.fund_and_refresh id p asked
  note_funded id funded
  found ← call (λ _. answer) (λ _. other)
  take_answer id t found

abbrev latest_hash : Option Transfer → Option String
latest_hash none = none
latest_hash (some t) = payment_hash t.pickup

-- The `catch` of refreshPayoutUnlocked.
unfoldable pub anchor_broke : Config → World → String → Error → Action (Transfer × Bool)
anchor_broke cfg w id e = do
  latest ← gets (λ s. find_transfer id s.db)
  if is_uncertain e || is_some (latest_hash latest)
      then (do
        u ← update id (λ t. record t {
          state = TransferState.in_review;
          error = some (
              concat (
                "anchor settlement unresolved: "
                ∷ slice 200 (message e)
                ∷ "; a Stellar payment may already have been sent, so no automatic refund"
                ∷ []));
        })
        pure (u, false))
      else (do
        u ←
            fail_and_compensate cfg w id
              (plain (concat ("anchor settlement failed: " ∷ slice 200 (message e) ∷ [])))
        pure (u, false))

unfoldable pub refresh_anchor : Config → World → String → Transfer → Option Pickup → Action Transfer
unfolding poll_anchor anchor_broke settle_pickup
refresh_anchor cfg w id t none = pure t
refresh_anchor cfg w id t (some p) = do
  -- `return settlePickup(updated)` is not awaited, so its error leaves the `try`
  (u, settle) ← catch (poll_anchor w id t p) (anchor_broke cfg w id)
  if settle then settle_pickup w id else pure u

abbrev with_anchor : Option Pickup → Option Pickup
with_anchor none = none
with_anchor (some p) = elim p.anchor_transaction_id [ none ↦ none | some _ ↦ some p ]

-- refreshPayoutUnlocked
unfoldable pub refresh_payout : Config → World → String → Action Transfer
unfolding refresh_anchor settle_pickup
refresh_payout cfg w id = do
  t ← the_transfer id
  if is_refreshable t.state
      then (if is_funded t.state && has_paid t.pickup
          then settle_pickup w id
          else refresh_anchor cfg w id t (with_anchor t.pickup))
      else pure t

-- STALE_MS of sweepStrandedTransfers
abbrev pub stale_ms : ℕ
stale_ms = 600000

-- t.state === "FAILED" && !t.refund
abbrev pub is_unrefunded : TransferState → Option Refund → Bool
is_unrefunded TransferState.failed none = true
is_unrefunded _ _ = false

unfoldable pub retry_refund : Config → World → String → Action Bool
retry_refund cfg w id = do compensate_transfer cfg w id; pure true

unfoldable pub as_stranded : Transfer → Transfer
as_stranded t = record t {
  state = TransferState.failed;
  error = some "stranded mid-flow — auto-compensating";
}

unfoldable pub fail_stranded : Config → World → String → Action Bool
unfolding retry_refund as_stranded
fail_stranded cfg w id = do update id as_stranded; retry_refund cfg w id

-- One round of sweepStrandedTransfers: whether it counts.
unfoldable pub sweep_one : Config → World → String → Action Bool
unfolding retry_refund fail_stranded
sweep_one cfg w id = do
  t ← the_transfer id
  now ← gets (λ s. s.clock)
  if is_unrefunded t.state t.refund && input_funds_moved t.txs
      then retry_refund cfg w id
      else if is_stranded t.state && ltb (t.updated_at + stale_ms) now
      then fail_stranded cfg w id
      else pure false

abbrev pub counted : Bool → ℕ → ℕ
counted true n = n + 1
counted false n = n

-- sweepStrandedTransfers over the snapshot of the list: an error skips its transfer
unfoldable pub sweep_ids : Config → World → ℕ → List String → Action ℕ
unfolding sweep_one
sweep_ids cfg w n [] = pure n
sweep_ids cfg w n (id ∷ ids) = do
  done ← catch (sweep_one cfg w id) (λ _. pure false)
  sweep_ids cfg w (counted done n) ids

abbrev pub ids_of : List Transfer → List String
ids_of [] = []
ids_of (t ∷ ts) = t.id ∷ ids_of ts

unfoldable pub sweep_stranded_transfers : Config → World → Action ℕ
unfolding sweep_ids
sweep_stranded_transfers cfg w = do ids ← gets (λ s. ids_of s.db.transfers); sweep_ids cfg w 0 ids
