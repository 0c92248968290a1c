-- ===== src/Store/Users.antt =====
-- services/api/src/store.ts: the account record. Times are milliseconds since the epoch, which
-- is what `Date.parse` reads from the stored ISO texts; euros are counted in wei, 10^-18 EUR.
use trans_f.Prelude.{ℕ, String, Bool, Option, List}

pub data KycStatus : Type 0 where
  pending approved rejected manual_review : KycStatus

pub data PlanStatus : Type 0 where
  planned active : PlanStatus

pub data Asset : Type 0 where
  eure usdc : Asset

pub record Allowance : Type 0 where
  pub token : String
  pub symbol : Asset
  pub amount : ℕ

pub record CosignerPolicy : Type 0 where
  pub enabled : Bool
  pub allowance_module_address : String
  pub allowance_period_minutes : Option ℕ
  pub allowances : Option (List Allowance)
  pub allowance_amount : Option ℕ

pub record SafeRecovery : Type 0 where
  pub module_address : String
  pub guardian_address : String
  pub threshold : ℕ
  pub status : PlanStatus
  pub enabled_at : Option ℕ

pub record PasskeySafe : Type 0 where
  pub address : String
  pub status : PlanStatus
  pub threshold : ℕ
  pub cosigner_address : Option String
  pub passkey_public_key : String × String
  pub cosigner_policy : Option CosignerPolicy
  pub recovery : Option SafeRecovery
  pub created_at : ℕ
  pub previous_address : Option String

pub record Passkey : Type 0 where
  pub credential_id : String
  -- the key and its algorithm, as one text
  pub public_key : Option String
  pub sign_count : Option ℕ
  pub rp_id : Option String
  pub created_at : ℕ

pub record PaymentPage : Type 0 where
  pub handle : String
  pub display_name : Option String
  pub deposit_address : String
  pub recipient_address : Option String
  pub settlement_asset : Asset
  pub auto_convert : Bool
  pub created_at : ℕ
  pub updated_at : ℕ

-- The KYC dossier, the Travel Rule profile, the Monerium tokens and the privacy bundle are not
-- read by any modelled operation and are left out.
pub record User : Type 0 where
  pub id : String
  pub name : String
  pub email : Option String
  pub country : String
  pub kyc_status : KycStatus
  pub iban : String
  pub address : String
  pub authorizer_address : Option String
  pub passkey_safe : Option PasskeySafe
  pub passkey : Option Passkey
  pub payment_page : Option PaymentPage
  pub created_at : ℕ
