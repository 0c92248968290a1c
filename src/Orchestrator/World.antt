-- ===== src/Orchestrator/World.antt =====
-- services/api/src/orchestrator.ts: what lies outside it, and the state that it runs on.
--
-- A call of a chain, a venue, an anchor or an issuer answers by a function of everything that was
-- called before, so no order or consistency of the answers is assumed. A call that throws is taken
-- to have moved nothing; the source's own exceptions to that rule are modelled.
use trans_f.Prelude.{ℕ, String, Bool, Option, List, ◌∷◌}
use trans_f.Exec.{Exec, Result, ok, err, Error}
use trans_f.Store.Payments.{Tx, Liquidity, Pickup}
use trans_f.Store.Db.{Db}

-- What a call did. Amounts are in wei of EURe or units of USDC; `String` is the transfer's id.
pub data Effect : Type 0 where
  -- EURe moved from the user's Safe to the orchestrator
  debited : String → ℕ → Effect
  -- EURe moved from the orchestrator to the user's Safe
  returned : String → ℕ → Effect
  -- a venue took EURe for USDC, or USDC for EURe that went to the Safe
  swapped reversed : String → ℕ → Effect
  -- BridgeEscrow.lockForPayout, release and settle
  locked : String → ℕ → Effect
  released settled : String → Effect
  -- Monerium took the order to redeem from the Safe
  redeemed : String → ℕ → Effect
  -- a read, an approval, or a call that threw
  other thrown : Effect

pub data Side : Type 0 where
  eure_to_usdc usdc_to_eure : Side

pub record Execution : Type 0 where
  pub quote : Liquidity
  pub amount_out : ℕ
  pub txs : List Tx

pub data PlanMode : Type 0 where
  dry_run live : PlanMode

-- CctpPlan: what `recordCctpPlan` reads of it, the slices already taken.
pub record CctpPlan : Type 0 where
  pub mode : PlanMode
  pub burn_data : String
  pub approve_tx_hash : Option String
  pub burn_tx_hash : Option String
  pub attestation : Option String
  pub stellar_mint_contract : String
  pub stellar_mint_tx_hash : Option String

pub data Bridged : Type 0 where
  planned : CctpPlan → Bridged
  -- CctpBridgeError carries the plan so far
  broke : String → CctpPlan → Bridged
  refused : Error → Bridged

-- PaymentAuthorization: what the device sends.
pub record PaymentAuthorization : Type 0 where
  pub deadline : ℕ
  pub signature : String

-- The fields of the signed EIP-712 message.
pub record TypedData : Type 0 where
  pub account : String
  pub amount_wei : ℕ
  pub to : String
  pub transfer_id : String
  pub destination : String
  pub deadline : ℕ

pub record World : Type 0 where
  -- keccak256 of a text
  pub keccak : List ℕ → String
  -- how the host prints a number
  pub show : ℕ → String
  -- publicClient.getBytecode: is there code at the address
  pub has_code : String → List Effect → Result Bool
  pub verify_typed_data : String → TypedData → String → List Effect → Result Bool
  pub transfer_from_safe_allowance : String → ℕ → List Effect → Result String
  -- writeAndWait of a contract function, by name
  pub write_and_wait : String → String → ℕ → List Effect → Result String
  -- balanceOf EURe
  pub eure_balance : String → List Effect → Result ℕ
  pub balance_after_write : String → ℕ → List Effect → Result ℕ
  pub indicative_rate : Side → List Effect → Result ℕ
  pub swapper_rate : List Effect → Result ℕ
  pub quote : Side → ℕ → String → ℕ → List Effect → Result Liquidity
  -- execute(quote, to)
  pub execute : Liquidity → Option String → List Effect → Result Execution
  pub wait_for_allowance : ℕ → List Effect → Result (Unit {0})
  pub bridge_usdc_to_stellar : ℕ → String → List Effect → Bridged
  -- cctpRecipientStellar()
  pub cctp_recipient : List Effect → Result String
  -- createCashPickupViaAnchor
  pub anchor_pickup : String → ℕ → ℕ → List Effect → Result Pickup
  -- the random reference code of the mock pickup
  pub reference_code : List Effect → String
  -- redeemToIban: the order's id and state
  pub redeem_to_iban : String → ℕ → String → List Effect → Result (String × String)
  -- fundAndRefreshAnchorPickup: the funded pickup passed to the callback, and the result
  pub fund_and_refresh : String → Pickup → List Effect → Option Pickup × Result (Option Pickup)

-- config.ts and wallet/candide.ts, as far as the orchestrator reads them. The addresses that it
-- reads are not empty where they are given.
pub record Config : Type 0 where
  pub force_fail_step : Option String
  pub cosigner_address : Option String
  pub cosigner_key : Option String
  pub allowance_module_address : String
  pub cosigner_period_minutes : ℕ
  pub cosigner_eure_allowance : ℕ
  pub cosigner_usdc_allowance : ℕ
  pub eure_address : String
  pub usdc_address : String
  pub orchestrator_address : String
  pub anchor_mode : Bool
  pub monerium_enabled : Bool
  pub allow_mock_fallback : Bool

pub record Sys : Type 0 where
  pub db : Db
  -- everything that was called, the latest first
  pub effects : List Effect
  -- the time of the running handler, in milliseconds
  pub clock : ℕ
  -- the in-memory `pickups` map of adapters/moneygram.ts
  pub pickups : List (String × Pickup)

abbrev pub Action : Type 0 → Type 0
Action A = Exec Sys A

unfoldable pub finish : {A : Type 0} → Result A → (A → Effect) → Action A
finish (ok a) note s = (ok a, record s { effects = note a ∷ s.effects })
finish (err e) note s = (err e, record s { effects = thrown ∷ s.effects })

-- One awaited call of the outside.
unfoldable pub call : {A : Type 0} → (List Effect → Result A) → (A → Effect) → Action A
unfolding finish
call f note s = finish (f s.effects) note s

-- A store operation inside a handler.
unfoldable pub on_db : {A : Type 0} → Exec Db A → Action A
on_db m s = let (r, db') = m s.db in (r, record s { db = db' })
