-- ===== src/Api/Quotes.antt =====
-- services/api/src/fx.ts, and the quote route of services/api/src/server.ts.
--
-- Rates are in 10^-6 units of the quoted currency, euros in wei, shillings in cents.
use trans_f.Prelude.{ℕ, String, Bool, Option, none, some, ◌+◌, ◌-◌, ◌*◌, ◌/◌, ◌^◌}
use trans_f.Prelude.Tests.{if◌then◌else◌, ltb, leb}
use trans_f.Exec.{ok, plain, pure, throw, gets, ◌>>=◌, ◌>>◌}
use trans_f.Store.Payments.{Rail, cash, sepa, Quote, open_status}
use trans_f.Store.Accounts.{find_user}
use trans_f.Store.Quotes.{add_quote}
use trans_f.Orchestrator.World.{Action, World, eure_to_usdc, other, call}
use trans_f.Orchestrator.Steps.{fixed_fee_eur, quote_ttl_ms, round_cents}
use trans_f.Api.{Host, given, need, require_user_session, require_kyc_approved}

-- FX.DAILY_CAP_EUR
abbrev pub daily_cap_eur : ℕ
daily_cap_eur = 2500000000000000000000

-- FX.SPREAD_BPS
abbrev pub spread_bps : ℕ
spread_bps = 50

-- What corridorRates returns of use to the stored quote: `all_in` is in 10^-16 shillings for a euro.
pub record Corridor : Type 0 where
  pub all_in : ℕ
  pub locked_swap_rate : ℕ

-- corridorRates("KES")
unfoldable pub corridor_rates : Host → World → Action Corridor
corridor_rates h w = do
  rate ← call (w.indicative_rate eure_to_usdc) (λ _. other)
  usd_fiat ← call h.usd_per (λ _. other)
  market_mid ← call h.eur_per (λ _. other)
  pure (record { all_in = rate * usd_fiat * (10000 - spread_bps); locked_swap_rate = rate })

-- round(convertible * allIn, 2), in cents: 10^18 wei and 10^16 of the rate to the unit
unfoldable pub receive_cents : ℕ → ℕ → ℕ
receive_cents convertible all_in = (convertible * all_in * 100 + 5 * 10 ^ 33) / 10 ^ 34

abbrev base_quote : String → String → Rail → ℕ → ℕ → Quote
base_quote id uid rail send_eur now = record {
  id = id;
  user_id = uid;
  rail = rail;
  status = open_status;
  send_eur = send_eur;
  fixed_fee_eur = fixed_fee_eur;
  receive_kes = 0;
  receive_eur = 0;
  locked_swap_rate = none;
  expires_at = now + quote_ttl_ms;
  created_at = now;
}

unfoldable pub price : Host → World → Rail → Quote → Action Quote
unfolding corridor_rates receive_cents round_cents
price h w sepa q = pure (record q { receive_eur = round_cents (q.send_eur - fixed_fee_eur) })
price h w cash q = do
  rates ← corridor_rates h w
  pure (record q {
    receive_kes = receive_cents (q.send_eur - fixed_fee_eur) rates.all_in;
    locked_swap_rate = some rates.locked_swap_rate;
  })

abbrev pub add : Quote → Action (Unit {0})
add q s = (ok tt, record s { db = add_quote q s.db })

-- createQuote
unfoldable pub create_quote : Host → World → String → Rail → ℕ → Action Quote
unfolding price
create_quote h w uid rail send_eur = do
  id ← call (λ e. ok (h.uuid e)) (λ _. other)
  now ← gets (λ s. s.clock)
  if leb send_eur fixed_fee_eur
      then throw (plain "amount below fixed fee")
      else (do quote ← price h w rail (base_quote id uid rail send_eur now); add quote; pure quote)

-- isExpired
abbrev pub is_expired : ℕ → Quote → Bool
is_expired now q = ltb q.expires_at now

-- POST /api/quotes, `rail` none where it is neither rail
unfoldable pub post_quotes : Host → World → Option String → String → Option Rail → ℕ → Action Quote
unfolding create_quote require_user_session require_kyc_approved
post_quotes h w token uid rail send_eur = do
  found ← gets (λ s. find_user uid s.db)
  user ← given found 404 "user not found"
  require_user_session h token user.id
  require_kyc_approved user
  chosen ← given rail 400 "rail must be cash or sepa"
  need (ltb fixed_fee_eur send_eur) 400 "amount must exceed the fee"
  need (leb send_eur daily_cap_eur) 400 "amount exceeds daily cap"
  create_quote h w uid chosen send_eur
