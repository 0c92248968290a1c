-- ===== src/Deposits.antt =====
-- services/api/src/adapters/crypto-deposits.ts: USDC and EURe that arrive from outside.
--
-- The chain's logs, the head, the random ids and the market's mid rate are the record `Feed`, which
-- answers as `World` does by a function of everything called before. One poll runs with no other
-- handler between its awaits. Rates and mids are in 10^-6, USDC in units of 10^-6, EURe in wei, so
-- the drift test is exact where the source compares floating numbers.
pub mod Watch
pub mod Distinct
pub mod Convert
pub mod Poll
pub mod Keeps
pub mod Unique
pub mod Recorded
pub mod Cursor
pub mod Progress
pub mod Traded
pub mod Fair
pub mod Refused
pub mod Polls
pub mod Passed
use trans_f.Prelude.{ℕ, String, Bool, List}
use trans_f.Exec.{Result}
use trans_f.Store.Users.{User, Asset}
use trans_f.Orchestrator.World.{Effect}

-- A Transfer event, its missing arguments read as "" and 0.
pub record Log : Type 0 where
  pub from : String
  pub to : String
  pub value : ℕ
  pub tx_hash : String
  pub log_index : ℕ

pub record Feed : Type 0 where
  -- publicClient.getBlockNumber({ cacheTime: 0 })
  pub head : List Effect → Result ℕ
  -- publicClient.getLogs of a token, to these addresses, in these blocks
  pub get_logs : Asset → List String → ℕ → ℕ → List Effect → Result (List Log)
  -- randomUUID()
  pub uuid : List Effect → String
  -- (await midRates()).eur.USD
  pub mid_usd : List Effect → Result ℕ

-- CRYPTO_IN and CHAIN_ID of config.ts, and the addresses of chain.ts
pub record CryptoIn : Type 0 where
  pub enabled : Bool
  pub chain_id : ℕ
  pub min_usdc : ℕ
  pub max_drift_bps : ℕ
  pub confirmations : ℕ
  pub max_block_span : ℕ
  pub swapper : String

pub data Source : Type 0 where
  payment_page safe : Source

-- WatchedAddress
pub record Watched : Type 0 where
  pub user : User
  pub address : String
  pub source : Source
