-- ===== src/Tests/Fixtures.antt =====
-- A small deployment: one account, one transfer, and an outside that answers everything.
use trans_f.Prelude.{String, true, false, none, some, List, [], ◌∷◌}
use trans_f.Exec.{ok}
use trans_f.Store.Users.{User, KycStatus, PasskeySafe, SafeRecovery, active, eure, usdc}
use trans_f.Store.Payments.{
  Transfer, Quote, cash, created, payout_ready, Liquidity, dex, TransferState, Tx, Terms,
  open_status,
}
use trans_f.Store.Db.{Db, empty_db}
use trans_f.Orchestrator.World.{
  World, Config, Sys, PaymentAuthorization, planned, dry_run, CctpPlan,
}
use trans_f.Orchestrator.Execute.{mock_pickup}

abbrev pub guardian : SafeRecovery
guardian = record {
  module_address = "0xmodule";
  guardian_address = "0xguardian";
  threshold = 1;
  status = active;
  enabled_at = none;
}

abbrev pub safe : PasskeySafe
safe = record {
  address = "0xAda";
  status = active;
  threshold = 1;
  cosigner_address = some "0xcosigner";
  passkey_public_key = ("1", "2");
  cosigner_policy = none;
  recovery = some guardian;
  created_at = 0;
  previous_address = none;
}

abbrev pub ada : User
ada = record {
  id = "u1";
  name = "Ada";
  email = none;
  country = "KE";
  kyc_status = KycStatus.approved;
  iban = "DE02";
  address = "0xada";
  authorizer_address = some "0xdevice";
  passkey_safe = some safe;
  passkey = none;
  payment_page = none;
  created_at = 0;
}

abbrev pub plan : Liquidity
plan = record {
  provider = dex;
  quote_id = "q1";
  token_in = eure;
  token_out = usdc;
  amount_in = 99010000000000000000;
  expected_out = 100000000;
  min_out = 99000000;
  rate = 1010000;
  expires_at = 600000;
  venue = none;
  executed_at = none;
  tx_hash = none;
}

abbrev pub terms : Terms
terms = record {
  to = "0xorchestrator";
  amount_wei = 100000000000000000000;
  destination = "0xhash";
  deadline = 600;
  authorized_at = none;
}

abbrev pub transfer_in : String → TransferState → List Tx → Transfer
transfer_in id state txs = record {
  id = id;
  user_id = "u1";
  quote_id = "q1";
  rail = cash;
  recipient_name = "Wanjiru";
  recipient_phone = some "+254700000000";
  recipient_iban = none;
  reference = none;
  state = state;
  send_eur = 100000000000000000000;
  receive_kes = 1300000;
  receive_eur = none;
  usdc_out = none;
  from_safe = true;
  auth = some terms;
  monerium_redeem = none;
  txs = txs;
  liquidity = none;
  pickup = none;
  sepa_leg = none;
  error = none;
  refund = none;
  created_at = 1000;
  updated_at = 1000;
}

abbrev pub fresh : Transfer
fresh = transfer_in "t1" created []

abbrev pub ready : Transfer
ready = transfer_in "t2" payout_ready []

abbrev pub burned : Transfer
burned = transfer_in "t3" TransferState.bridged (
    record { step = "safe.transfer(orchestrator)"; hash = "0x1" }
    ∷ record { step = "cctp.burn"; hash = "0x2" }
    ∷ [])

abbrev pub debited_once : Transfer
debited_once =
    transfer_in "t4" TransferState.failed
      (record { step = "safe.transfer(orchestrator)"; hash = "0x1" } ∷ [])

abbrev pub quote : Quote
quote = record {
  id = "q1";
  user_id = "u1";
  rail = cash;
  status = open_status;
  send_eur = 100000000000000000000;
  fixed_fee_eur = 990000000000000000;
  receive_kes = 1300000;
  receive_eur = 0;
  locked_swap_rate = some 1010000;
  expires_at = 600000;
  created_at = 0;
}

abbrev pub db : Db
db = record empty_db {
  users = ada ∷ [];
  quotes = quote ∷ [];
  transfers = fresh ∷ ready ∷ burned ∷ debited_once ∷ [];
}

abbrev pub start : Sys
start = record { db = db; effects = []; clock = 2000; pickups = [] }

abbrev pub cctp : CctpPlan
cctp = record {
  mode = dry_run;
  burn_data = "0xburn";
  approve_tx_hash = none;
  burn_tx_hash = none;
  attestation = none;
  stellar_mint_contract = "C1";
  stellar_mint_tx_hash = none;
}

abbrev pub world : World
world = record {
  keccak = λ _. "0xhash";
  show = λ _. "1";
  has_code = λ _ _. ok false;
  verify_typed_data = λ _ _ _ _. ok true;
  transfer_from_safe_allowance = λ _ _ _. ok "0xdebit";
  write_and_wait = λ _ _ _ _. ok "0xwrite";
  eure_balance = λ _ _. ok 500000000000000000000;
  balance_after_write = λ _ before _. ok before;
  indicative_rate = λ _ _. ok 1010000;
  swapper_rate = λ _. ok 1010000;
  quote = λ _ _ _ _ _. ok plan;
  execute = λ q _ _. ok (record { quote = q; amount_out = 100000000; txs = [] });
  wait_for_allowance = λ _ _. ok tt;
  bridge_usdc_to_stellar = λ _ _ _. planned cctp;
  cctp_recipient = λ _. ok "G1";
  anchor_pickup = λ _ _ _ _. ok (mock_pickup "MG1");
  reference_code = λ _. "MG1";
  redeem_to_iban = λ _ _ _ _. ok ("o1", "placed");
  fund_and_refresh = λ _ _ _. (none, ok none);
}

abbrev pub config : Config
config = record {
  force_fail_step = none;
  cosigner_address = some "0xcosigner";
  cosigner_key = some "key";
  allowance_module_address = "0xallowance";
  cosigner_period_minutes = 1440;
  cosigner_eure_allowance = 1000;
  cosigner_usdc_allowance = 1000;
  eure_address = "0xeure";
  usdc_address = "0xusdc";
  orchestrator_address = "0xorchestrator";
  anchor_mode = false;
  monerium_enabled = false;
  allow_mock_fallback = false;
}

abbrev pub auth : PaymentAuthorization
auth = record { deadline = 600; signature = "0xsigned" }
