-- ===== src/Deposits/Convert.antt =====
-- services/api/src/adapters/crypto-deposits.ts: converting one detected deposit.
--
-- `txs` is a local array of the source that the catch block reads, so the attempt is in three
-- parts, each with what had been pushed by then. The texts of the errors are cut to their fixed
-- parts, and what is logged is left out.
use trans_f.Prelude.{
  ℕ, String, Bool, true, false, not, Option, none, some, List, [], ◌∷◌, ◌++◌, ◌+◌, ◌-◌, ◌*◌,
}
use trans_f.Prelude.Tests.{ltb, leb, ◌==◌, if◌then◌else◌}
use trans_f.Prelude.Text.{concat}
use trans_f.Exec.{Result, ok, err, Error, plain, message, pure, throw, gets, ◌>>=◌}
use trans_f.Store.Users.{User, Asset, eure, usdc, PaymentPage}
use trans_f.Store.Payments.{Tx, Liquidity, Provider}
use trans_f.Store.Accounts.{find_user}
use trans_f.Store.Records.{CryptoDeposit, DepositState, converted, refused}
use trans_f.Store.Deposits.{update_crypto_deposit}
use trans_f.Orchestrator.World.{
  Action, World, Execution, usdc_to_eure, reversed, other, call, on_db,
}
use trans_f.Orchestrator.Steps.{has_step, to_wei, value_or}
use trans_f.Deposits.{Feed, CryptoIn}
use trans_f.Deposits.Watch.{kyc_approved}

-- SWEEP_STEP
abbrev pub sweep_step : String
sweep_step = "safe.transfer(usdc->orchestrator)"

-- |a - b|
abbrev pub distance : ℕ → ℕ → ℕ
distance a b = (a - b) + (b - a)

-- The venue's rate lies within the cap of the mid rate.
unfoldable pub rate_is_sane : CryptoIn → ℕ → ℕ → Bool
rate_is_sane c mid rate = leb (distance rate mid * 10000) (c.max_drift_bps * mid)

-- assertRateSane
unfoldable pub assert_rate_sane : CryptoIn → Feed → ℕ → Action ℕ
unfolding rate_is_sane
assert_rate_sane c f rate = if rate == 0 then throw (plain "venue quoted a zero rate") else (do
  mid ← call f.mid_usd (λ _. other)
  if mid == 0
      then throw (plain "no live EUR/USD mid to check the venue against")
      else if rate_is_sane c mid rate
      then pure rate
      else throw (plain "refusing to convert at a price the market would not give"))

-- sweepToOrchestrator: the step to record, or none if the deposit's own record shows it.
unfoldable pub sweep_to_orchestrator : World → User → CryptoDeposit → Action (Option Tx)
sweep_to_orchestrator w user d = if has_step sweep_step d.txs then pure none else (do
  deployed ← call (w.has_code user.address) (λ _. other)
  if deployed
      then throw (
          plain
            "merchant Safe settlement requires Safe-native UserOps or a configured allowance module")
      else throw (plain "merchant Safe is not deployed, so the forwarded USDC cannot be moved"))

-- return store.updateCryptoDeposit(deposit.id, patch)
unfoldable pub update : String → (CryptoDeposit → CryptoDeposit) → Action CryptoDeposit
unfolding update_crypto_deposit
update id patch = do now ← gets (λ s. s.clock); on_db (update_crypto_deposit now id patch)

abbrev pub as_refused : List Tx → Error → CryptoDeposit → CryptoDeposit
as_refused txs e d = record d { state = refused; reason = some (message e); txs = txs }

-- The catch block.
unfoldable pub refuse : CryptoDeposit → List Tx → Error → Action CryptoDeposit
unfolding update
refuse d txs e = update d.id (as_refused txs e)

abbrev pub as_kept : List Tx → ℕ → CryptoDeposit → CryptoDeposit
as_kept txs amount d = record d {
  state = converted;
  credited_usdc = some amount;
  settlement_asset = some usdc;
  txs = txs;
  reason = none;
}

-- LiquidityProviderId, as text
abbrev provider_name : Provider → String
provider_name Provider.fx_swapper = "fx-swapper"
provider_name Provider.rfq = "rfq"
provider_name Provider.cow = "cow"
provider_name Provider.dex = "dex"
provider_name Provider.lifi = "lifi"
provider_name Provider.best = "best"

abbrev pub as_converted : List Tx → Provider → ℕ → ℕ → CryptoDeposit → CryptoDeposit
as_converted txs provider rate wei d = record d {
  state = converted;
  credited_eur = some wei;
  settlement_asset = some eure;
  provider = some (provider_name provider);
  rate = some rate;
  txs = txs;
  reason = none;
}

abbrev pub pass : {A B : Type 0} → Result A → (A → Action B) → (Error → Action B) → Action B
pass (ok a) go recover = go a
pass (err e) go recover = recover e

-- One part of a try block: `recover` is the catch block as of this part.
unfoldable pub split : {A B : Type 0} → Action A → (Error → Action B) → (A → Action B) → Action B
split m recover go s = let (r, s') = m s in pass r go recover s'

-- What the first part decides: USDC that stays USDC, or a trade to make.
pub data Decision : Type 0 where
  keep_usdc : ℕ → Decision
  trade : Option Tx → Decision

abbrev pub is_usdc : Asset → Bool
is_usdc usdc = true
is_usdc eure = false

unfoldable pub decide_page : CryptoIn → World → User → CryptoDeposit → PaymentPage → Action Decision
unfolding sweep_to_orchestrator
decide_page c w user d page =
    if not page.auto_convert
    then throw (plain "payment page has auto-settlement switched off")
    else if not (kyc_approved user.kyc_status)
    then throw (plain "account is not KYC-approved")
    else if ltb (value_or 0 d.amount_usdc) c.min_usdc
    then throw (plain "below the USDC floor — left as USDC rather than converted to dust")
    else if is_usdc page.settlement_asset
    then pure (keep_usdc (value_or 0 d.amount_usdc))
    else sweep_to_orchestrator w user d >>= λ sweep. pure (trade sweep)

unfoldable pub decide :
    CryptoIn → World → User → CryptoDeposit → Option PaymentPage → Action Decision
unfolding decide_page
decide c w user d none = throw (plain "payment page has auto-settlement switched off")
decide c w user d (some page) = decide_page c w user d page

pub record Trade : Type 0 where
  pub plan : Liquidity
  pub rate : ℕ
  pub before : ℕ
  pub execution : Execution

-- Quote, check the rate, measure the Safe and swap.
unfoldable pub make_trade : CryptoIn → Feed → World → User → CryptoDeposit → Action Trade
unfolding assert_rate_sane
make_trade c f w user d = do
  now ← gets (λ s. s.clock)
  plan ←
      call (w.quote usdc_to_eure d.amount_units (concat ("crypto-in-" ∷ d.id ∷ [])) (now + 60000))
        (λ _. other)
  rate ← assert_rate_sane c f plan.rate
  before ← call (w.eure_balance user.address) (λ _. other)
  execution ← call (w.execute plan (some user.address)) (λ e. reversed d.id e.amount_out)
  pure (record { plan = plan; rate = rate; before = to_wei before; execution = execution })

-- Credit what the Safe received.
unfoldable pub credit : World → User → CryptoDeposit → List Tx → Trade → Action CryptoDeposit
unfolding update
credit w user d txs t = do
  after ← call (w.balance_after_write user.address t.before) (λ _. other)
  if leb after t.before
      then throw (plain "the swap delivered no EURe to the merchant Safe — refusing to settle")
      else if ltb (after - t.before) t.plan.min_out
      then throw (plain "under the minimum the quote guaranteed — left for review")
      else update d.id (as_converted txs t.plan.provider t.rate (after - t.before))

abbrev pub listed : Option Tx → List Tx
listed none = []
listed (some x) = x ∷ []

unfoldable pub settle :
    CryptoIn → Feed → World → User → CryptoDeposit → Decision → Action CryptoDeposit
unfolding update refuse split make_trade credit
settle c f w user d (keep_usdc amount) =
    split (update d.id (as_kept d.txs amount)) (refuse d d.txs) pure
settle c f w user d (trade sweep) =
    let swept = d.txs ++ listed sweep in
    split (make_trade c f w user d) (refuse d swept)
      (λ t. let txs = swept ++ t.execution.txs in split (credit w user d txs t) (refuse d txs) pure)

abbrev pub is_converted : DepositState → Bool
is_converted converted = true
is_converted _ = false

unfoldable pub convert_for :
    CryptoIn → Feed → World → CryptoDeposit → Option User → Action CryptoDeposit
unfolding decide settle split refuse
convert_for c f w d none = throw (plain (concat ("unknown user for crypto deposit " ∷ d.id ∷ [])))
convert_for c f w d (some user) =
    split (decide c w user d user.payment_page) (refuse d d.txs) (settle c f w user d)

-- convertDeposit
unfoldable pub convert_deposit : CryptoIn → Feed → World → CryptoDeposit → Action CryptoDeposit
unfolding convert_for
convert_deposit c f w d =
    if is_converted d.state
    then pure d
    else gets (λ s. find_user d.user_id s.db) >>= convert_for c f w d
