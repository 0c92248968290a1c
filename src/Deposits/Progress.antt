-- ===== src/Deposits/Progress.antt =====
-- services/api/src/adapters/crypto-deposits.ts: the scanner catches up with the chain.
use trans_f.Prelude.{
  ℕ, suc, zero, true, false, some, List, ◌∷◌, ◌+◌, ◌-◌, ◌*◌, ◌≤◌, ◌≡◌, inl, inr, arith, ap, ◌∙◌,
}
use trans_f.Prelude.Tests.{if◌then◌else◌, Bool-cases, ltb, leb}
use trans_f.Exec.{ok, ◌>>=◌}
use trans_f.Store.Db.{push}
use trans_f.Store.Users.{Asset, eure, usdc}
use trans_f.Store.Deposits.{deposit_cursor, set_deposit_cursor}
use trans_f.Orchestrator.World.{Sys, World, call, finish, other, Effect}
use trans_f.Deposits.{Feed, CryptoIn, Log, Watched}
use trans_f.Deposits.Watch.{watched_addresses}
use trans_f.Deposits.Poll.{
  addresses, scan_token, window_end, cursor_key, scan_from, scan, poll_crypto_deposits_once,
}
use trans_f.Deposits.Keeps.{update_either}
use trans_f.Deposits.Polls.{IsClosed, poll-Keeps}
use trans_f.Deposits.Cursor.{scan_window_complete}

-- The addresses watched at `s`.
record Watches (ws : List Watched) (s : Sys) : Type 0 where
  watching : watched_addresses s.db ≡ ws

Watches-IsClosed : (ws : List Watched) → IsClosed (Watches ws)
unfolding watched_addresses push set_deposit_cursor
Watches-IsClosed ws = record {
  shut = record {
    called = λ s e h. record { watching = h.watching };
    patched = λ s id f harmless h. record {
      watching = update_either (λ db. watched_addresses db ≡ ws) s id f h.watching h.watching;
    };
  };
  added = λ s d absent h. record { watching = h.watching };
  moved = λ s key block h. record { watching = h.watching };
}

-- Some polls, one after another.
pub polls : ℕ → CryptoIn → Feed → World → Sys → Sys
polls zero c f w s = s
polls (suc n) c f w s = polls n c f w (poll_crypto_deposits_once c f w s).1

-- The cursor after one poll.
abbrev next_cursor : ℕ → ℕ → ℕ → ℕ
next_cursor span head cursor = if leb head cursor then cursor else window_end span head cursor

next_cursor-gains :
    (span head cursor n : ℕ)
    → cursor ≤ head
    → head ≤ cursor + suc n * span
    → (next_cursor span head cursor ≤ head) × (head ≤ next_cursor span head cursor + n * span)
unfolding window_end
next_cursor-gains span head cursor n below near =
    let unroll : suc n * span ≡ span + n * span = grind arith in ground arith

module _ (c : CryptoIn) (f : Feed) (w : World) (m : Watched) (ms : List Watched) (head : ℕ)
    (on : c.enabled ≡ true) (deep : c.confirmations ≤ head)
    (heads : (h : List Effect) → f.head h ≡ ok head)
    (answers : (t : Asset) (from to : ℕ) (h : List Effect)
      → (ls : List Log) × (f.get_logs t (addresses (m ∷ ms)) from to h ≡ ok ls)) where
  scan_from_cursor :
      (cursor : ℕ) (s : Sys)
      → deposit_cursor (cursor_key w c) s.db ≡ some cursor
      → deposit_cursor
          (cursor_key w c)
          (scan_from c f w (m ∷ ms) (head - c.confirmations) (some cursor) s).1.db
        ≡ some (next_cursor c.max_block_span (head - c.confirmations) cursor)
  unfolding scan_from
  scan_from_cursor cursor s at_cursor =
      let safe = head - c.confirmations in
      let to = window_end c.max_block_span safe cursor in
      elim (Bool-cases (leb safe cursor)) [
        | inl done ↦ rw done at_cursor
        | inr more ↦
            let s₁ = (scan_token c f (m ∷ ms) (cursor + 1) to eure s).1 in
            let (euros, e) = answers eure (cursor + 1) to s.effects in
            let (dollars, d) = answers usdc (cursor + 1) to s₁.effects in
            rw more (scan_window_complete c f w (m ∷ ms) safe cursor euros dollars s e d).0
      ]

  poll_cursor :
      (cursor : ℕ) (s : Sys)
      → watched_addresses s.db ≡ m ∷ ms
      → deposit_cursor (cursor_key w c) s.db ≡ some cursor
      → deposit_cursor (cursor_key w c) (poll_crypto_deposits_once c f w s).1.db
        ≡ some (next_cursor c.max_block_span (head - c.confirmations) cursor)
  unfolding poll_crypto_deposits_once scan ◌>>=◌ call finish
  poll_cursor cursor s watching at_cursor =
      let confirmed : ltb head c.confirmations ≡ false = ground arith in
      let s' : Sys = record s { effects = other ∷ s.effects } in
      rw (on, watching, heads s.effects, confirmed, at_cursor)
        (scan_from_cursor cursor s' at_cursor)

  -- A poller that is on, watches some address, and whose chain answers with an unchanging head,
  -- brings the cursor from any confirmed block to the last confirmed block, in any number of polls
  -- whose windows together cover the distance.
  pub cursor-polls :
      (n cursor : ℕ) (s : Sys)
      → watched_addresses s.db ≡ m ∷ ms
      → deposit_cursor (cursor_key w c) s.db ≡ some cursor
      → cursor ≤ head - c.confirmations
      → head - c.confirmations ≤ cursor + n * c.max_block_span
      → deposit_cursor (cursor_key w c) (polls n c f w s).db ≡ some (head - c.confirmations)
  unfolding polls
  cursor-polls zero cursor s watching at_cursor below near =
      let there : cursor ≡ head - c.confirmations = omega arith in at_cursor ∙ ap some there
  cursor-polls (suc n) cursor s watching at_cursor below near =
      let (below', near') =
        next_cursor-gains c.max_block_span (head - c.confirmations) cursor n below near in
      cursor-polls n (next_cursor c.max_block_span (head - c.confirmations) cursor)
        (poll_crypto_deposits_once c f w s).1
        ((poll-Keeps (Watches-IsClosed (m ∷ ms)) c f w).at s
          (record { watching = watching })).watching
        (poll_cursor cursor s watching at_cursor) below' near'
