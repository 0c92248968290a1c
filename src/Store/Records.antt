-- ===== src/Store/Records.antt =====
-- services/api/src/store.ts: inbound deposits, recovery requests, sessions and receipt shares.
use trans_f.Prelude.{ℕ, String, Bool, Option, List}
use trans_f.Store.Users.{Asset}
use trans_f.Store.Payments.{Tx}

pub data DepositState : Type 0 where
  detected converted refused : DepositState

pub record CryptoDeposit : Type 0 where
  pub id : String
  pub user_id : String
  pub chain_id : ℕ
  pub token : Asset
  pub tx_hash : String
  pub log_index : ℕ
  pub amount_units : ℕ
  pub amount_eur : Option ℕ
  pub amount_usdc : Option ℕ
  pub state : DepositState
  pub reason : Option String
  pub credited_eur : Option ℕ
  pub credited_usdc : Option ℕ
  pub settlement_asset : Option Asset
  pub payment_address : Option String
  pub provider : Option String
  pub rate : Option ℕ
  pub txs : List Tx
  pub detected_at : ℕ
  pub updated_at : ℕ

pub data RecoveryStatus : Type 0 where
  kyc_pending delaying ready_for_guardian guardian_submitted finalized canceled : RecoveryStatus
  expired : RecoveryStatus

pub data Factor : Type 0 where
  pending passed failed : Factor

pub record Factors : Type 0 where
  pub kyc : Factor
  pub otp : Factor
  pub liveness : Factor
  pub manual_review : Factor

-- guardianSubmission: what the external signer answered, or its error.
pub record Submission : Type 0 where
  pub requested_at : ℕ
  pub submitted_at : Option ℕ
  pub signer_status : Option String
  pub tx_hash : Option String
  pub error : Option String

pub record RecoveryRequest : Type 0 where
  pub id : String
  pub user_id : String
  pub safe_address : String
  pub status : RecoveryStatus
  pub requested_at : ℕ
  pub expires_at : ℕ
  pub recovery_delay_hours : ℕ
  pub guardian_address : String
  pub recovery_module_address : String
  pub new_owner_address : Option String
  pub contact : Option String
  pub kyc_approved_at : Option ℕ
  pub ready_at : Option ℕ
  pub finalized_at : Option ℕ
  pub canceled_at : Option ℕ
  pub reviewed_by : Option String
  pub review_reason : Option String
  pub cancel_reason : Option String
  pub factors : Factors
  pub guardian_submission : Option Submission

pub record Session : Type 0 where
  pub id : String
  pub user_id : String
  pub token_hash : String
  pub created_at : ℕ
  pub last_used_at : ℕ
  pub expires_at : ℕ
  pub revoked_at : Option ℕ

pub data NameMode : Type 0 where
  full first last hidden : NameMode

pub data AccountMode : Type 0 where
  full short hidden : AccountMode

pub data FxMode : Type 0 where
  both sender recipient : FxMode

pub record ShareFields : Type 0 where
  pub sender : NameMode
  pub recipient : NameMode
  pub account : AccountMode
  pub fx : FxMode
  pub show_rate : Bool
  pub show_ref : Bool
  pub route : Bool

pub record ReceiptShare : Type 0 where
  pub id : String
  pub slug : String
  pub transfer_id : String
  pub user_id : String
  pub fields : ShareFields
  pub created_at : ℕ
  pub updated_at : ℕ
  pub expires_at : ℕ
  pub revoked_at : Option ℕ
