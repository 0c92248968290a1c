-- ===== src/Tests/Funding.antt =====
-- The theorems on inbound deposits at small inputs.
use trans_f.Orchestrator.Steps.{has_step, to_wei}
use trans_f.Prelude.Text.{concat, eq_codes}
use trans_f.Prelude.{String, true, false, some, none, List, [], ◌∷◌, ◌≡◌, refl, ◌⊎◌, arith}
use trans_f.Prelude.Lists.{any, find}
use trans_f.Exec.{ok, Error, ◌>>=◌}
use trans_f.Store.Users.{User, PaymentPage, eure, usdc, Asset, KycStatus}
use trans_f.Store.Payments.{Tx}
use trans_f.Store.Db.{empty_db, lookup, update}
use trans_f.Store.Records.{CryptoDeposit, detected, converted}
use trans_f.Store.Deposits.{table, deposit_cursor}
use trans_f.Orchestrator.World.{World, Sys, Effect, other, thrown, call, on_db}
use trans_f.Deposits.Keeps.{stamped}
use trans_f.Deposits.{Feed, CryptoIn, Log, Watched, safe, payment_page}
use trans_f.Deposits.Watch.{watched_addresses}
use trans_f.Deposits.Distinct.{IsWatchList, watched_addresses-IsWatchList}
use trans_f.Deposits.Convert.{convert_deposit, sweep_step, as_refused}
use trans_f.Deposits.Poll.{tick, scan_window, window_end, cursor_key}
use trans_f.Deposits.Unique.{IsUnique, tick-IsUnique}
use trans_f.Deposits.Recorded.{is_missed}
use trans_f.Deposits.Cursor.{scan_window_complete}
use trans_f.Deposits.Progress.{polls, cursor-polls}
use trans_f.Deposits.Fair.{IsKept, IsTraded, convert_passed}
use trans_f.Deposits.Refused.{convert_ineligible, convert_unswept}
use trans_f.Store.Accounts.{find_user}
use trans_f.Tests.Fixtures.{ada, world}

abbrev page_address : String
page_address = "0xAbCdef0000000000000000000000000000000001"

abbrev page : Asset → PaymentPage
page asset = record {
  handle = "ada";
  display_name = none;
  deposit_address = page_address;
  recipient_address = none;
  settlement_asset = asset;
  auto_convert = true;
  created_at = 0;
  updated_at = 0;
}

abbrev payee : Asset → User
payee asset = record ada {
  address = "0x1111111111111111111111111111111111111111";
  payment_page = some (page asset);
}

abbrev system : User → List CryptoDeposit → Sys
system user deposits = record {
  db = record empty_db { users = user ∷ []; crypto_deposits = deposits };
  effects = [];
  clock = 5000;
  pickups = [];
}

abbrev payment : Log
payment = record {
  from = "0x2222222222222222222222222222222222222222";
  to = "0xabcdef0000000000000000000000000000000001";
  value = 25000000;
  tx_hash = "0xaa";
  log_index = 3;
}

abbrev payments : Asset → List Log
payments usdc = payment ∷ []
payments eure = []

abbrev feed : Feed
feed = record {
  head = λ h. ok 120;
  get_logs = λ token to first last h. ok (payments token);
  uuid = λ h. "d1";
  mid_usd = λ h. ok 1010000;
}

abbrev settings : CryptoIn
settings = record {
  enabled = true;
  chain_id = 10;
  min_usdc = 1000000;
  max_drift_bps = 100;
  confirmations = 2;
  max_block_span = 50;
  swapper = "0x3333333333333333333333333333333333333333";
}

watched_addresses-IsWatchList_example : IsWatchList (watched_addresses (system (payee usdc) []).db)
watched_addresses-IsWatchList_example = watched_addresses-IsWatchList (system (payee usdc) []).db

tick-IsUnique_example : IsUnique (tick settings feed world (system (payee usdc) [])).1
tick-IsUnique_example =
    tick-IsUnique settings feed world (system (payee usdc) []) (record { distinct = tt })

abbrev watched_head : Watched
watched_head = record { user = payee usdc; address = page_address; source = payment_page }

abbrev watched : List Watched
watched = watched_head ∷ []

scan_window_complete_example :
    let s' = (scan_window settings feed world watched 118 60 (system (payee usdc) [])).1 in
    (deposit_cursor (cursor_key world settings) s'.db ≡ some (window_end 50 118 60))
    × (any (is_missed settings watched eure s') [] ≡ false)
    × (any (is_missed settings watched usdc s') (payment ∷ []) ≡ false)
scan_window_complete_example =
    scan_window_complete settings feed world watched 118 60 [] (payment ∷ [])
      (system (payee usdc) []) refl refl

abbrev payee_watch : Watched
payee_watch = record {
  user = payee usdc;
  address = "0x1111111111111111111111111111111111111111";
  source = safe;
}

abbrev scanning : Sys
scanning = record (system (payee usdc) []) {
  db = record (system (payee usdc) []).db {
    crypto_deposit_cursor = ("1:safe-funding-v1", 20) ∷ [];
  };
}

watching : watched_addresses scanning.db ≡ watched_head ∷ payee_watch ∷ []
unfolding watched_addresses any eq_codes
watching = refl

standing : deposit_cursor (cursor_key world settings) scanning.db ≡ some 20
unfolding deposit_cursor cursor_key concat
standing = refl

cursor-polls_example :
    deposit_cursor (cursor_key world settings) (polls 2 settings feed world scanning).db ≡ some 118
cursor-polls_example =
    cursor-polls settings feed world watched_head (payee_watch ∷ []) 120 refl (omega arith)
      (λ h. refl) (λ t first last h. (payments t, refl)) 2 20 scanning watching standing
      (omega arith) (omega arith)

abbrev taken : List String → List Tx
taken [] = []
taken (s ∷ ss) = record { step = s; hash = "0x1" } ∷ taken ss

abbrev deposit : List String → CryptoDeposit
deposit steps = record {
  id = "d1";
  user_id = "u1";
  chain_id = 10;
  token = usdc;
  tx_hash = "0xaa";
  log_index = 3;
  amount_units = 25000000;
  amount_eur = none;
  amount_usdc = some 25000000;
  state = detected;
  reason = none;
  credited_eur = none;
  credited_usdc = none;
  settlement_asset = some eure;
  payment_address = some page_address;
  provider = none;
  rate = none;
  txs = taken steps;
  detected_at = 0;
  updated_at = 0;
}

abbrev trading : World
trading = record world {
  eure_balance = λ address h. ok 0;
  balance_after_write = λ address before h. ok 24000000000000000000;
}

abbrev swept : CryptoDeposit
swept = deposit (sweep_step ∷ [])

abbrev credited : CryptoDeposit
credited = record swept {
  state = converted;
  credited_eur = some 24000000000000000000;
  settlement_asset = some eure;
  provider = some "dex";
  rate = some 1010000;
  updated_at = 5000;
}

trading_run :
    (convert_deposit settings feed trading swept (system (payee eure) (swept ∷ []))).0 ≡ ok credited
unfolding convert_deposit ◌>>=◌ lookup find has_step any call to_wei on_db update
trading_run = refl

convert_passed_example :
    IsKept settings credited
    ⊎ IsTraded settings feed trading swept (system (payee eure) (swept ∷ [])) credited
convert_passed_example =
    convert_passed settings feed trading swept (system (payee eure) (swept ∷ [])) credited refl
      trading_run refl

abbrev pending : User
pending = record (payee eure) { kyc_status = KycStatus.pending }

pending_owner : find_user "u1" (system pending (deposit [] ∷ [])).db ≡ some pending
unfolding lookup find
pending_owner = refl

owner : find_user "u1" (system (payee eure) (deposit [] ∷ [])).db ≡ some (payee eure)
unfolding lookup find
owner = refl

convert_ineligible_example :
    (why : Error) × (lookup table "d1"
        (convert_deposit settings feed world (deposit []) (system pending (deposit [] ∷ []))).1.db
      ≡ some (stamped 5000 (as_refused [] why) (deposit [])))
    × ((convert_deposit settings feed world
          (deposit [])
          (system pending (deposit [] ∷ []))).1.effects
        ≡ [])
unfolding lookup find
convert_ineligible_example =
    convert_ineligible settings feed world pending (deposit []) (deposit [])
      (system pending (deposit [] ∷ [])) refl pending_owner refl refl

convert_unswept_example :
    (why : Error) × (e : Effect) × ((e ≡ other) ⊎ (e ≡ thrown))
    × (lookup table "d1"
          (convert_deposit settings feed world
            (deposit [])
            (system (payee eure) (deposit [] ∷ []))).1.db
        ≡ some (stamped 5000 (as_refused [] why) (deposit [])))
    × ((convert_deposit settings feed world
          (deposit [])
          (system (payee eure) (deposit [] ∷ []))).1.effects
        ≡ e ∷ [])
unfolding lookup find has_step any
convert_unswept_example =
    convert_unswept settings feed world (payee eure) (deposit []) (deposit []) (page eure)
      (system (payee eure) (deposit [] ∷ [])) refl owner refl refl refl refl refl
