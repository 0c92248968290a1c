-- ===== src/Deposits/Poll.antt =====
-- services/api/src/adapters/crypto-deposits.ts: one scan of the chain, and the retry after a crash.
use trans_f.Prelude.{
  ℕ, String, Bool, true, false, not, ◌&&◌, ◌||◌, Option, none, some, List, [], ◌∷◌, ◌++◌, ◌+◌, ◌-◌,
}
use trans_f.Prelude.Tests.{ltb, leb, ◌==◌, if◌then◌else◌}
use trans_f.Prelude.Lists.{length, find, keep}
use trans_f.Prelude.Text.{same_folded, concat}
use trans_f.Exec.{ok, pure, gets, catch, ◌>>=◌, ◌>>◌}
use trans_f.Store.Users.{Asset, eure, usdc, PaymentPage}
use trans_f.Store.Records.{CryptoDeposit, DepositState, converted, detected}
use trans_f.Store.Deposits.{
  find_crypto_deposit, add_crypto_deposit, deposit_cursor, set_deposit_cursor,
}
use trans_f.Orchestrator.World.{Action, World, other, call}
use trans_f.Orchestrator.Debit.{is_some}
use trans_f.Orchestrator.Steps.{value_or}
use trans_f.Deposits.{Feed, CryptoIn, Log, Watched, Source, payment_page, safe}
use trans_f.Deposits.Watch.{watched_addresses, is_given}
use trans_f.Deposits.Convert.{convert_deposit, is_usdc}

-- byAddress.get(to) ?? []
unfoldable pub matches_of : Log → List Watched → List Watched
matches_of l = keep (λ m. same_folded m.address l.to)

abbrev is_page : Source → Bool
is_page payment_page = true
is_page safe = false

abbrev converts : Option PaymentPage → Bool
converts none = false
converts (some p) = p.auto_convert

abbrev page_match : Watched → Bool
page_match m = is_page m.source && converts m.user.payment_page

-- token.token === "USDC" && pageMatch ? pageMatch : matches[0]
unfoldable pub choose : Asset → Watched → List Watched → Watched
choose token m ms = if is_usdc token then value_or m (find page_match (m ∷ ms)) else m

abbrev hops_from : Option PaymentPage → Log → Bool
hops_from none l = false
hops_from (some p) l =
    is_given p.deposit_address
    && not (same_folded p.deposit_address l.to)
    && same_folded l.from p.deposit_address

-- The forwarder's second hop: page money on its way to the owner's Safe.
unfoldable pub is_second_hop : Watched → Log → Bool
is_second_hop m l = not (is_page m.source) && hops_from m.user.payment_page l

abbrev is_direct : Asset → Watched → Bool
is_direct token m = not (is_page m.source) || not (is_usdc token)

abbrev settles_in : Asset → Option PaymentPage → Asset
settles_in token none = token
settles_in token (some p) = p.settlement_asset

abbrev when : Bool → ℕ → Option ℕ
when true a = some a
when false a = none

unfoldable pub deposit_of : CryptoIn → Asset → Log → Watched → String → ℕ → CryptoDeposit
deposit_of c token l m id now = record {
  id = id;
  user_id = m.user.id;
  chain_id = c.chain_id;
  token = token;
  tx_hash = l.tx_hash;
  log_index = l.log_index;
  amount_units = l.value;
  amount_eur = when (not (is_usdc token)) l.value;
  amount_usdc = when (is_usdc token) l.value;
  state = if is_direct token m then converted else detected;
  reason = none;
  credited_eur = when (not (is_usdc token)) l.value;
  credited_usdc = when (is_usdc token && is_direct token m) l.value;
  settlement_asset =
      some (if is_direct token m then token else settles_in token m.user.payment_page);
  payment_address = some m.address;
  provider = none;
  rate = none;
  txs = [];
  detected_at = now;
  updated_at = now;
}

-- Nothing was sent, or the swapper sent EURe.
unfoldable pub is_ignored : CryptoIn → Asset → Log → Bool
is_ignored c token l = l.value == 0 || not (is_usdc token) && same_folded l.from c.swapper

abbrev pub add_deposit : CryptoDeposit → Action CryptoDeposit
add_deposit d s = (ok d, record s { db = add_crypto_deposit d s.db })

unfoldable pub record_new : CryptoIn → Feed → Asset → Log → Watched → Action (List CryptoDeposit)
unfolding is_second_hop deposit_of
record_new c f token l m = if is_second_hop m l then pure [] else (do
  id ← call (λ h. ok (f.uuid h)) (λ _. other)
  now ← gets (λ s. s.clock)
  d ← add_deposit (deposit_of c token l m id now)
  pure (d ∷ []))

unfoldable pub record_matched :
    CryptoIn → Feed → Asset → Log → List Watched → Action (List CryptoDeposit)
unfolding is_ignored choose record_new
record_matched c f token l [] = pure []
record_matched c f token l (m ∷ ms) = if is_ignored c token l then pure [] else (do
  known ← gets (λ s. find_crypto_deposit l.tx_hash l.log_index s.db)
  if is_some known then pure [] else record_new c f token l (choose token m ms))

-- for (const log of logs)
unfoldable pub record_logs :
    CryptoIn → Feed → List Watched → Asset → List Log → Action (List CryptoDeposit)
unfolding matches_of record_matched
record_logs c f ws token [] = pure []
record_logs c f ws token (l ∷ ls) = do
  now_fresh ← record_matched c f token l (matches_of l ws)
  later ← record_logs c f ws token ls
  pure (now_fresh ++ later)

abbrev pub addresses : List Watched → List String
addresses [] = []
addresses (m ∷ ms) = m.address ∷ addresses ms

unfoldable pub scan_token :
    CryptoIn → Feed → List Watched → ℕ → ℕ → Asset → Action (List CryptoDeposit)
unfolding record_logs
scan_token c f ws from to token = do
  logs ← call (f.get_logs token (addresses ws) from to) (λ _. other)
  record_logs c f ws token logs

-- `${CHAIN_ID}:safe-funding-v1`
unfoldable pub cursor_key : World → CryptoIn → String
cursor_key w c = concat (w.show c.chain_id ∷ ":safe-funding-v1" ∷ [])

abbrev pub set_cursor : String → ℕ → Action (Unit {0})
set_cursor key block s = (ok tt, record s { db = set_deposit_cursor key block s.db })

unfoldable pub try_convert : CryptoIn → Feed → World → CryptoDeposit → Action (Unit {0})
unfolding convert_deposit
try_convert c f w d = catch (convert_deposit c f w d >>= λ _. pure tt) (λ _. pure tt)

abbrev pub is_detected : DepositState → Bool
is_detected detected = true
is_detected _ = false

unfoldable pub convert_fresh : CryptoIn → Feed → World → List CryptoDeposit → Action (Unit {0})
unfolding try_convert
convert_fresh c f w [] = pure tt
convert_fresh c f w (d ∷ ds) =
    let rest = convert_fresh c f w ds in
    if is_detected d.state then try_convert c f w d >> rest else rest

-- The last block of the window that starts after `cursor`.
unfoldable pub window_end : ℕ → ℕ → ℕ → ℕ
window_end span head cursor = if ltb span (head - cursor) then cursor + span else head

-- Move the cursor, then convert what is new.
unfoldable pub close_window : CryptoIn → Feed → World → ℕ → List CryptoDeposit → Action ℕ
unfolding cursor_key convert_fresh
close_window c f w to fresh = do
  set_cursor (cursor_key w c) to
  convert_fresh c f w fresh
  pure (length fresh)

-- Scan the window after `cursor` and convert what is new.
unfoldable pub scan_window : CryptoIn → Feed → World → List Watched → ℕ → ℕ → Action ℕ
unfolding scan_token window_end close_window
scan_window c f w ws head cursor = do
  let to = window_end c.max_block_span head cursor
  euros ← scan_token c f ws (cursor + 1) to eure
  dollars ← scan_token c f ws (cursor + 1) to usdc
  close_window c f w to (euros ++ dollars)

-- A fresh install looks back one window.
unfoldable pub scan_from : CryptoIn → Feed → World → List Watched → ℕ → Option ℕ → Action ℕ
unfolding cursor_key scan_window
scan_from c f w ws head none = set_cursor (cursor_key w c) (head - c.max_block_span) >> pure 0
scan_from c f w ws head (some cursor) =
    if leb head cursor then pure 0 else scan_window c f w ws head cursor

unfoldable pub scan : CryptoIn → Feed → World → List Watched → Action ℕ
unfolding scan_from cursor_key
scan c f w [] = pure 0
scan c f w (m ∷ ms) = do
  head ← call f.head (λ _. other)
  if ltb head c.confirmations
      then pure 0
      else gets (λ s. deposit_cursor (cursor_key w c) s.db)
        >>= scan_from c f w (m ∷ ms) (head - c.confirmations)

-- pollCryptoDepositsOnce
unfoldable pub poll_crypto_deposits_once : CryptoIn → Feed → World → Action ℕ
unfolding watched_addresses scan
poll_crypto_deposits_once c f w =
    if c.enabled then gets (λ s. watched_addresses s.db) >>= scan c f w else pure 0

-- for (const d of [...store.cryptoDeposits])
unfoldable pub sweep_all : CryptoIn → Feed → World → List CryptoDeposit → Action ℕ
unfolding convert_deposit
sweep_all c f w [] = pure 0
sweep_all c f w (d ∷ ds) =
    let rest = sweep_all c f w ds in
    if is_detected d.state && is_usdc d.token
    then (do convert_deposit c f w d; n ← rest; pure (n + 1))
    else rest

-- sweepPendingCryptoDeposits
unfoldable pub sweep_pending_crypto_deposits : CryptoIn → Feed → World → Action ℕ
unfolding sweep_all
sweep_pending_crypto_deposits c f w =
    if c.enabled then gets (λ s. s.db.crypto_deposits) >>= sweep_all c f w else pure 0

-- `tick` of startCryptoDepositPoller
unfoldable pub tick : CryptoIn → Feed → World → Action (Unit {0})
unfolding sweep_pending_crypto_deposits poll_crypto_deposits_once
tick c f w =
    catch (sweep_pending_crypto_deposits c f w >> poll_crypto_deposits_once c f w >>= λ _. pure tt)
      (λ _. pure tt)
