-- ===== src/Api/Create.antt =====
-- services/api/src/server.ts: POST /api/transfers, which fixes the terms that the device signs, and
-- the redeem message of services/api/src/sepa.ts.

use trans_f.Prelude.{
  ℕ, String, Bool, true, false, not, ◌&&◌, Option, none, some, [], ◌∷◌, ◌+◌, ◌*◌, ◌/◌, ◌%◌, ◌^◌,
}
use trans_f.Prelude.Tests.{if◌then◌else◌, leb, ◌==◌}
use trans_f.Prelude.Lists.{length}
use trans_f.Prelude.Text.{codes, concat}
use mathlib.Core.Option.{map as map_option}
use trans_f.Exec.{ok, pure, gets, ◌>>=◌, ◌>>◌}
use trans_f.Store.Users.{User}
use trans_f.Store.Payments.{
  Rail, cash, sepa, Quote, QuoteStatus, open_status, consumed, expired, Transfer, created, Terms,
  RedeemApproval,
}
use trans_f.Store.Accounts.{find_user, normal_iban}
use trans_f.Store.Quotes.{find_quote, update_quote, consume_quote, is_open}
use trans_f.Store.Transfers.{add_transfer}
use trans_f.Sepa.{payment_memo, remittance_max}
use trans_f.Orchestrator.World.{Action, Config, World, TypedData, other, call, on_db}
use trans_f.Orchestrator.Steps.{value_or, payout_eur, to_wei}
use trans_f.Orchestrator.Debit.{transfer_destination, typed_data, safe_debit_blocker}
use trans_f.Orchestrator.Caps.{daily_cap_usage}
use trans_f.Deposits.Watch.{is_given}
use trans_f.Api.{Host, reply, given, need, require_user_session, require_kyc_approved}
use trans_f.Api.Quotes.{is_expired, daily_cap_eur}

-- A field of the body: undefined or null, a text, or anything else.
pub data Field : Type 0 where
  missing other_value : Field
  text : String → Field

pub record TransferRequest : Type 0 where
  pub quote_id : String
  pub recipient_name : Option String
  pub recipient_phone : Option String
  pub recipient_iban : Option String
  pub reference : Field

abbrev pub status_name : QuoteStatus → String
status_name open_status = "open"
status_name consumed = "consumed"
status_name expired = "expired"

abbrev pub is_sepa : Rail → Bool
is_sepa sepa = true
is_sepa cash = false

abbrev pub is_absent : Option String → Bool
is_absent s = not (is_given (value_or "" s))

-- if (isExpired(quote)) mark it and answer 410
unfoldable pub refuse_expired : Quote → Action (Unit {0})
refuse_expired q = do
  now ← gets (λ s. s.clock)
  if is_expired now q
      then (do
        on_db (update_quote q.id (λ q. record q { status = expired }))
        reply 410 "quote expired, request a new one")
      else pure tt

-- The recipient that the rail needs.
unfoldable pub check_recipient : Rail → TransferRequest → Action (Unit {0})
check_recipient rail b = do
  need (not (is_absent b.recipient_name)) 400 "recipientName required"
  need (not (is_sepa rail && is_absent b.recipient_iban)) 400
      "recipientIban required for bank payout"
  need (not (not (is_sepa rail) && is_absent b.recipient_phone)) 400
      "recipientPhone required for cash pickup"

unfoldable pub check_reference : Rail → Field → Action (Unit {0})
check_reference rail missing = pure tt
check_reference rail other_value = reply 400 "reference must be a string"
check_reference rail (text r) = do
  need (leb (length (codes r)) remittance_max) 400
      "reference must be 140 characters or fewer (SEPA remittance limit)"
  need (is_sepa rail) 400 "reference is only carried on the sepa rail"

abbrev pub unblocked : Option String → Action (Unit {0})
unblocked none = pure tt
unblocked (some why) = reply 409 why

-- assertDailyCap
unfoldable pub assert_daily_cap : User → ℕ → Action (Unit {0})
unfolding daily_cap_usage
assert_daily_cap user send_eur = do
  now ← gets (λ s. s.clock)
  usage ← gets (λ s. daily_cap_usage daily_cap_eur user now s.db)
  need (leb (usage.used_eur + send_eur) usage.cap_eur) 400 "amount exceeds the daily cap"

-- The account may spend what the quote asks for.
unfoldable pub check_funds : Config → World → User → Quote → Action (Unit {0})
unfolding require_kyc_approved safe_debit_blocker assert_daily_cap
check_funds cfg w user q = do
  require_kyc_approved user
  balance ← call (w.eure_balance user.address) (λ _. other)
  need (leb q.send_eur balance) 400 "insufficient Safe balance"
  unblocked (safe_debit_blocker cfg user)
  assert_daily_cap user q.send_eur

-- reference || undefined
abbrev carried : Field → Option String
carried (text r) = if is_given r then some r else none
carried _ = none

abbrev pub new_transfer : String → ℕ → Quote → User → TransferRequest → Transfer
new_transfer id now q user b = record {
  id = id;
  user_id = user.id;
  quote_id = q.id;
  rail = q.rail;
  recipient_name = value_or "" b.recipient_name;
  recipient_phone = b.recipient_phone;
  recipient_iban = b.recipient_iban;
  reference = carried b.reference;
  state = created;
  send_eur = q.send_eur;
  receive_kes = q.receive_kes;
  receive_eur = some q.receive_eur;
  usdc_out = none;
  from_safe = true;
  auth = none;
  monerium_redeem = none;
  txs = [];
  liquidity = none;
  pickup = none;
  sepa_leg = none;
  error = none;
  refund = none;
  created_at = now;
  updated_at = now;
}

-- The two decimals of a number of cents, less the zeros at its end.
unfoldable pub decimals : (ℕ → String) → ℕ → String
decimals show cents =
    if cents % 100 == 0
    then ""
    else if cents % 10 == 0
    then concat ("." ∷ show (cents / 10 % 10) ∷ [])
    else concat ("." ∷ show (cents / 10 % 10) ∷ show (cents % 10) ∷ [])

-- moneriumAmountString: toFixed(2), less the zeros at its end
unfoldable pub monerium_amount_string : (ℕ → String) → ℕ → String
unfolding decimals
monerium_amount_string show wei =
    let cents = (wei + 5 * 10 ^ 15) / 10 ^ 16 in
    concat (show (cents / 100) ∷ decimals show cents ∷ [])

-- moneriumRedeemMessage, for the memo of the transfer
unfoldable pub monerium_redeem_message : Host → World → ℕ → String → ℕ → String → RedeemApproval
unfolding monerium_amount_string
monerium_redeem_message h w wei iban at memo =
    let amount = monerium_amount_string w.show wei in
    let normalized = h.text (normal_iban iban) in
    record {
      amount = amount;
      iban = normalized;
      issued_at = at;
      message = concat ("Send EUR " ∷ amount ∷ " to " ∷ normalized ∷ " at " ∷ h.iso at ∷ []);
      memo = some memo;
      signature = none;
      signed_at = none;
    }

-- paymentMemo(transfer.id, transfer.reference)
abbrev memo_of : Host → Transfer → String
memo_of h t = h.text (payment_memo h.nfd (codes t.id) (map_option codes t.reference))

abbrev redeem_to : Host → World → Transfer → Option String → Option RedeemApproval
redeem_to h w t none = none
redeem_to h w t (some iban) =
    if is_given iban
    then some (monerium_redeem_message h w (payout_eur t) iban t.created_at (memo_of h t))
    else none

-- if (transfer.rail === "sepa" && transfer.recipientIban)
unfoldable pub redeem_terms : Host → World → Transfer → Option RedeemApproval
unfolding monerium_redeem_message payment_memo
redeem_terms h w t = if is_sepa t.rail then redeem_to h w t t.recipient_iban else none

-- AUTH_WINDOW_SEC
abbrev pub auth_window_sec : ℕ
auth_window_sec = 900

abbrev pub terms_of : Config → World → ℕ → Transfer → Terms
terms_of cfg w now t = record {
  to = cfg.orchestrator_address;
  amount_wei = to_wei t.send_eur;
  destination = transfer_destination w t;
  deadline = now / 1000 + auth_window_sec;
  authorized_at = none;
}

-- The reply: the transfer, who signs, and what.
pub record Created : Type 0 where
  pub transfer : Transfer
  pub authorizer : String
  pub to_sign : TypedData

abbrev pub store_transfer : Transfer → Action (Unit {0})
store_transfer t s = (ok tt, record s { db = add_transfer t s.db })

abbrev pub signed_terms : Config → World → User → String → ℕ → Transfer → Created
signed_terms cfg w user authorizer now t = record {
  transfer = record t { auth = some (terms_of cfg w now t) };
  authorizer = authorizer;
  to_sign = typed_data w user t (terms_of cfg w now t) (now / 1000 + auth_window_sec);
}

-- From the new transfer on: bind it to a device key, consume the quote, store it.
unfoldable pub place : Host → World → Config → TransferRequest → Quote → User → Action Created
unfolding redeem_terms consume_quote
place h w cfg b q user = do
  now ← gets (λ s. s.clock)
  id ← call (λ e. ok (h.uuid e)) (λ _. other)
  let bare = new_transfer id now q user b
  let t = record bare { monerium_redeem = redeem_terms h w bare }
  authorizer ← given user.authorizer_address 409 "no device key registered for this account"
  won ← on_db (consume_quote q.id)
  need won 409 "quote already consumed"
  store_transfer (record t { auth = some (terms_of cfg w now t) })
  pure (signed_terms cfg w user authorizer now t)

-- POST /api/transfers
unfoldable pub post_transfers :
    Host → World → Config → Option String → TransferRequest → Action Created
unfolding require_user_session refuse_expired check_recipient check_reference check_funds place
post_transfers h w cfg token b = do
  found ← gets (λ s. find_quote b.quote_id s.db)
  q ← given found 404 "quote not found"
  require_user_session h token q.user_id
  need (is_open q.status) 409 (concat ("quote already " ∷ status_name q.status ∷ []))
  refuse_expired q
  check_recipient q.rail b
  check_reference q.rail b.reference
  holder ← gets (λ s. find_user q.user_id s.db)
  -- a missing account throws, which is answered by 500
  user ← given holder 500 "no account for this quote"
  check_funds cfg w user q
  place h w cfg b q user
