-- ===== src/Orchestrator/Steps.antt =====
-- services/api/src/orchestrator.ts: the step names, the transfer in the store, the amounts.
--
-- The routes pass the store's own transfer object to the handlers, which share it and its `txs`
-- array with the store: `txs.push` writes into the stored transfer, and every read of `transfer`
-- sees the store. So a handler is given the transfer's id.
use trans_f.Prelude.{
  ℕ, String, Bool, true, false, Option, none, some, List, [], ◌∷◌, ◌++◌, ◌+◌, ◌-◌, ◌*◌, ◌/◌, ◌^◌,
  str_eq,
}
use trans_f.Prelude.Tests.{if◌then◌else◌}
use trans_f.Prelude.Lists.{any, modify}
use trans_f.Prelude.Text.{concat, codes, strip_spaces, upper, trim, collapse}
use mathlib.Core.List.{map}
use trans_f.Exec.{Result, ok, err, plain, pure, throw}
use trans_f.Store.Db.{has_id}
use trans_f.Store.Payments.{Rail, cash, sepa, Transfer, TransferState, Tx}
use trans_f.Store.Transfers.{table, find_transfer, update_transfer}
use trans_f.Orchestrator.World.{Action, Config, on_db}

-- FX.FIXED_FEE_EUR
abbrev pub fixed_fee_eur : ℕ
fixed_fee_eur = 990000000000000000

-- FX.QUOTE_BINDING_BPS
abbrev pub quote_binding_bps : ℕ
quote_binding_bps = 50

-- FX.QUOTE_TTL_MS
abbrev pub quote_ttl_ms : ℕ
quote_ttl_ms = 600000

-- eur.toWei: six decimals, as `toFixed(6)` rounds
unfoldable pub to_wei : ℕ → ℕ
to_wei a = (a + 5 * 10 ^ 11) / 10 ^ 12 * 10 ^ 12

-- Math.round(x * 100) / 100
unfoldable pub round_cents : ℕ → ℕ
round_cents a = (a + 5 * 10 ^ 15) / 10 ^ 16 * 10 ^ 16

-- Math.floor(x * 100) / 100
unfoldable pub floor_cents : ℕ → ℕ
floor_cents a = a / 10 ^ 16 * 10 ^ 16

-- DEBIT_STEP.safe
abbrev pub step_safe : String
step_safe = "safe.transfer(orchestrator)"

-- DEBIT_STEP.safeFee
abbrev pub step_safe_fee : String
step_safe_fee = "safe.transfer(fee)"

-- txs.some((x) => x.step === step)
unfoldable pub has_step : String → List Tx → Bool
has_step step = any (λ x. str_eq x.step step)

-- inputFundsMoved
unfoldable pub input_funds_moved : List Tx → Bool
input_funds_moved = any (λ x. if str_eq x.step step_safe then true else str_eq x.step step_safe_fee)

abbrev pub value_or {ℓ} : {A : Type ℓ} → A → Option A → A
value_or d none = d
value_or d (some a) = a

-- transfer.receiveEur ?? transfer.sendEur - FX.FIXED_FEE_EUR. A transfer below the fee is refused
-- before it is stored, so the difference is not negative.
unfoldable pub payout_eur : Transfer → ℕ
payout_eur t = value_or (t.send_eur - fixed_fee_eur) t.receive_eur

-- safeMovedEur
unfoldable pub safe_moved_eur : Transfer → ℕ
unfolding has_step payout_eur round_cents
safe_moved_eur t =
    if has_step step_safe t.txs
    then t.send_eur
    else if has_step step_safe_fee t.txs
    then round_cents (t.send_eur - payout_eur t)
    else 0

unfoldable pub transfer_or : String → Option Transfer → Result Transfer
transfer_or id none = err (plain (concat ("unknown transfer " ∷ id ∷ [])))
transfer_or id (some t) = ok t

-- `transfer`, or the error that an update of it throws
unfoldable pub the_transfer : String → Action Transfer
unfolding transfer_or
the_transfer id s = (transfer_or id (find_transfer id s.db), s)

-- store.updateTransfer(id, patch)
unfoldable pub update : String → (Transfer → Transfer) → Action Transfer
update id patch s = on_db (update_transfer s.clock id patch) s

-- A write into the shared object without `updateTransfer`: its `updatedAt` stays.
unfoldable pub write_through : String → (Transfer → Transfer) → Action (Unit {0})
write_through id f s =
    (ok tt, record s { db = record s.db { transfers = modify (has_id table id) f s.db.transfers } })

abbrev pub with_txs : List Tx → Transfer → Transfer
with_txs txs t = record t { txs = t.txs ++ txs }

-- txs.push(...txs)
abbrev pub push_txs : String → List Tx → Action (Unit {0})
push_txs id txs = write_through id (with_txs txs)

-- txs.push({ step, hash })
abbrev pub push_tx : String → String → String → Action (Unit {0})
push_tx id step hash = push_txs id (record { step = step; hash = hash } ∷ [])

unfoldable pub forced : Option String → String → Action (Unit {0})
forced none step = pure tt
forced (some name) step =
    if str_eq name step
    then throw (plain (concat ("forced failure after " ∷ step ∷ [])))
    else pure tt

-- failpoint(step)
unfoldable pub failpoint : Config → String → Action (Unit {0})
unfolding forced
failpoint cfg step = forced cfg.force_fail_step step

-- ["DEBITED", "SWAPPED", "BRIDGED"].includes(t.state)
abbrev pub is_stranded : TransferState → Bool
is_stranded TransferState.debited = true
is_stranded TransferState.swapped = true
is_stranded TransferState.bridged = true
is_stranded _ = false

-- The state's name, as it stands in a message.
unfoldable pub state_name : TransferState → String
state_name TransferState.created = "CREATED"
state_name TransferState.debited = "DEBITED"
state_name TransferState.swapped = "SWAPPED"
state_name TransferState.bridged = "BRIDGED"
state_name TransferState.payout_details_pending = "PAYOUT_DETAILS_PENDING"
state_name TransferState.payout_funding_pending = "PAYOUT_FUNDING_PENDING"
state_name TransferState.payout_funded = "PAYOUT_FUNDED"
state_name TransferState.payout_ready = "PAYOUT_READY"
state_name TransferState.payout_submitted = "PAYOUT_SUBMITTED"
state_name TransferState.paid = "PAID"
state_name TransferState.in_review = "MANUAL_REVIEW"
state_name TransferState.failed = "FAILED"
state_name TransferState.refunded = "REFUNDED"

-- destinationCommitment of chain.ts before hashing; upper-casing is that of ASCII.
unfoldable pub destination_preimage : Rail → Option String → Option String → String → List ℕ
unfolding trim collapse strip_spaces upper
destination_preimage rail phone iban name =
    let named = codes "|name=" ++ map upper (collapse false (trim (codes name))) in
    elim rail [
      | sepa ↦ codes "sepa|iban=" ++ map upper (strip_spaces (codes (value_or "" iban))) ++ named
      | cash ↦ codes "cash|phone=" ++ trim (codes (value_or "" phone)) ++ named
    ]
