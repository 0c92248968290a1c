-- ===== src/Store/Payments.antt =====
-- services/api/src/store.ts: quotes and transfers. Euros are counted in wei (10^-18 EUR), USDC in
-- units of 10^-6, shillings in cents; the bigint texts of the JSON file are numbers.
use trans_f.Prelude.{ℕ, String, Bool, Option, List}
use trans_f.Store.Users.{Asset}

pub data Rail : Type 0 where
  cash sepa : Rail

pub data QuoteStatus : Type 0 where
  open_status consumed expired : QuoteStatus

pub record Quote : Type 0 where
  pub id : String
  pub user_id : String
  pub rail : Rail
  pub status : QuoteStatus
  pub send_eur : ℕ
  pub fixed_fee_eur : ℕ
  pub receive_kes : ℕ
  pub receive_eur : ℕ
  -- the swapper's rate that the quote assumes: USDC units for 10^18 EURe
  pub locked_swap_rate : Option ℕ
  pub expires_at : ℕ
  pub created_at : ℕ

pub data TransferState : Type 0 where
  created debited swapped bridged payout_details_pending payout_funding_pending : TransferState
  payout_funded payout_ready payout_submitted paid in_review failed refunded : TransferState

pub record Tx : Type 0 where
  pub step : String
  pub hash : String

-- The terms that the device signs.
pub record Terms : Type 0 where
  pub to : String
  pub amount_wei : ℕ
  pub destination : String
  pub deadline : ℕ
  pub authorized_at : Option ℕ

pub record RedeemApproval : Type 0 where
  pub amount : String
  pub iban : String
  pub issued_at : ℕ
  pub message : String
  pub memo : Option String
  pub signature : Option String
  pub signed_at : Option ℕ

pub data Provider : Type 0 where
  fx_swapper rfq cow dex lifi best : Provider

-- What is particular to a venue (the rfq, cow, dex and lifi objects) is carried as one text.
pub record Liquidity : Type 0 where
  pub provider : Provider
  pub quote_id : String
  pub token_in : Asset
  pub token_out : Asset
  pub amount_in : ℕ
  pub expected_out : ℕ
  pub min_out : ℕ
  pub rate : ℕ
  pub expires_at : ℕ
  pub venue : Option String
  pub executed_at : Option ℕ
  pub tx_hash : Option String

pub record Pickup : Type 0 where
  pub reference_code : String
  pub provider : String
  pub status : String
  pub interactive_url : Option String
  pub anchor_transaction_id : Option String
  pub anchor_amount : Option ℕ
  pub anchor_asset : Option String
  pub anchor_payment_hash : Option String
  pub anchor_memo : Option String
  pub anchor_amount_in : Option String
  pub anchor_reference_number : Option String
  pub more_info_url : Option String
  pub anchor_status : Option String

pub data SepaMode : Type 0 where
  sandbox mock : SepaMode

pub record SepaLeg : Type 0 where
  pub mode : SepaMode
  pub order_id : Option String
  pub state : String
  pub detail : Option String

pub record Refund : Type 0 where
  pub amount_eur : ℕ
  pub recovered_from : String
  pub deductions : String
  pub at : ℕ

pub record Transfer : Type 0 where
  pub id : String
  pub user_id : String
  pub quote_id : String
  pub rail : Rail
  pub recipient_name : String
  pub recipient_phone : Option String
  pub recipient_iban : Option String
  pub reference : Option String
  pub state : TransferState
  pub send_eur : ℕ
  pub receive_kes : ℕ
  pub receive_eur : Option ℕ
  pub usdc_out : Option ℕ
  -- fundingSource === "safe"
  pub from_safe : Bool
  pub auth : Option Terms
  pub monerium_redeem : Option RedeemApproval
  pub txs : List Tx
  pub liquidity : Option Liquidity
  pub pickup : Option Pickup
  pub sepa_leg : Option SepaLeg
  pub error : Option String
  pub refund : Option Refund
  pub created_at : ℕ
  pub updated_at : ℕ
