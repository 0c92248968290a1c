-- ===== src/Deposits/Cursor.antt =====
-- services/api/src/adapters/crypto-deposits.ts: the block cursor, and what a window leaves behind.
use trans_f.Prelude.{ℕ, String, false, some, List, [], ◌∷◌, ◌++◌, ◌+◌, ◌≡◌, refl, ◌∙◌}
use text.Mathlib.TextPositions.{eq_refl}
use trans_f.Prelude.Lists.{any, length}
use trans_f.Exec.{ok, pure, ◌>>=◌}
use trans_f.Exec.Keeps.{Keeps-bind, Keeps-pure}
use trans_f.Exec.Passes.{bind-ok_state}
use trans_f.Store.Users.{Asset, eure, usdc}
use trans_f.Store.Records.{CryptoDeposit}
use trans_f.Store.Deposits.{deposit_cursor, set_deposit_cursor, cursor-set_cursor}
use trans_f.Orchestrator.World.{Sys, World, call, finish, other}
use trans_f.Deposits.{Feed, CryptoIn, Log, Watched}
use trans_f.Deposits.Poll.{
  record_logs, addresses, scan_token, close_window, scan_window, window_end, cursor_key, matches_of,
  record_matched, convert_fresh,
}
use trans_f.Deposits.Keeps.{IsShut, update_either, convert_fresh-Keeps}
use trans_f.Deposits.Polls.{scan_token-Keeps, close_window-Keeps}
use trans_f.Deposits.Recorded.{
  IsRecorded-IsClosed, is_missed, logs_complete, matched_total, none_missed-kept,
}

-- The cursor `key` stands at `block`.
pub record StandsAt (key : String) (block : ℕ) (s : Sys) : Type 0 where
  pub stands : deposit_cursor key s.db ≡ some block

StandsAt-IsShut : (key : String) (block : ℕ) → IsShut (StandsAt key block)
unfolding deposit_cursor
StandsAt-IsShut key block = record {
  called = λ s e h. record { stands = h.stands };
  patched = λ s id f harmless h. record {
    stands = update_either (λ db. deposit_cursor key db ≡ some block) s id f h.stands h.stands;
  };
}

logs_total :
    (c : CryptoIn) (f : Feed) (ws : List Watched) (token : Asset) (ls : List Log) (s : Sys)
    → (r : List CryptoDeposit) × ((record_logs c f ws token ls s).0 ≡ ok r)
unfolding record_logs ◌>>=◌
logs_total c f ws token [] s = ([], refl)
logs_total c f ws token (l ∷ ls) s =
    let (now_fresh, p) = matched_total c f token l (matches_of l ws) s in
    let (later, q) =
      logs_total c f ws token ls (record_matched c f token l (matches_of l ws) s).1 in
    (now_fresh ++ later, rw p (rw q refl))

module _ (c : CryptoIn) (f : Feed) (w : World) (ws : List Watched) where
  -- A token whose logs the chain answers is scanned to the end, and misses nothing.
  scanned :
      (from to : ℕ) (token : Asset) (logs : List Log) (s : Sys)
      → f.get_logs token (addresses ws) from to s.effects ≡ ok logs
      → (r : List CryptoDeposit) × ((scan_token c f ws from to token s).0 ≡ ok r)
        × (any (is_missed c ws token (scan_token c f ws from to token s).1) logs ≡ false)
  unfolding scan_token call finish ◌>>=◌
  scanned from to token logs s answered =
      let s' : Sys = record s { effects = other ∷ s.effects } in
      let (r, total) = logs_total c f ws token logs s' in
      rw answered (r, total, logs_complete c ws token f logs s')

  closed_at :
      (to : ℕ) (fresh : List CryptoDeposit) (s : Sys)
      → StandsAt (cursor_key w c) to (close_window c f w to fresh s).1
  unfolding close_window ◌>>=◌
  closed_at to fresh s =
      (Keeps-bind (convert_fresh c f w fresh) (λ _. pure (length fresh))
          (convert_fresh-Keeps (StandsAt-IsShut (cursor_key w c) to) c f w fresh)
          (λ _. Keeps-pure (length fresh))).at
        (record s { db = set_deposit_cursor (cursor_key w c) to s.db })
        (record {
          stands =
              cursor-set_cursor (cursor_key w c) (cursor_key w c) to s.db
              ∙ rw (eq_refl (cursor_key w c)) refl;
        })

  -- When the chain answers for both tokens, scanning a window sets the cursor to the window's end,
  -- and by then every transfer of the window that is due is in the store, whatever became of the
  -- conversions.
  pub scan_window_complete :
      (head cursor : ℕ) (euros dollars : List Log) (s : Sys)
      → f.get_logs eure
          (addresses ws)
          (cursor + 1)
          (window_end c.max_block_span head cursor)
          s.effects
        ≡ ok euros
      → f.get_logs usdc
          (addresses ws)
          (cursor + 1)
          (window_end c.max_block_span head cursor)
          (scan_token c f ws
            (cursor + 1)
            (window_end c.max_block_span head cursor)
            eure
            s).1.effects
        ≡ ok dollars
      → let s' = (scan_window c f w ws head cursor s).1 in
        (deposit_cursor (cursor_key w c) s'.db ≡ some (window_end c.max_block_span head cursor))
        × (any (is_missed c ws eure s') euros ≡ false)
        × (any (is_missed c ws usdc s') dollars ≡ false)
  unfolding scan_window
  scan_window_complete head cursor euros dollars s e d =
      let to = window_end c.max_block_span head cursor in
      let scan = λ (t : Asset). scan_token c f ws (cursor + 1) to t in
      let s₁ = (scan eure s).1 in
      let s₂ = (scan usdc s₁).1 in
      let (a, first, none_euro) = scanned (cursor + 1) to eure euros s e in
      let (b, second, none_dollar) = scanned (cursor + 1) to usdc dollars s₁ d in
      let same : scan_window c f w ws head cursor s ≡ close_window c f w to (a ++ b) s₂ =
        bind-ok_state (scan eure) (λ x. scan usdc >>= λ y. close_window c f w to (x ++ y)) s a first
        ∙ bind-ok_state (scan usdc) (λ y. close_window c f w to (a ++ y)) s₁ b second in
      rw same (
        (closed_at to (a ++ b) s₂).stands,
        none_missed-kept c ws eure (close_window c f w to (a ++ b))
            (λ h i. close_window-Keeps (IsRecorded-IsClosed h i) c f w to (a ++ b)) euros s₂
            (none_missed-kept c ws eure (scan usdc)
              (λ h i. scan_token-Keeps (IsRecorded-IsClosed h i) c f ws (cursor + 1) to usdc) euros
              s₁ none_euro),
        none_missed-kept c ws usdc (close_window c f w to (a ++ b))
            (λ h i. close_window-Keeps (IsRecorded-IsClosed h i) c f w to (a ++ b)) dollars s₂
            none_dollar,
      )
