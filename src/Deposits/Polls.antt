-- ===== src/Deposits/Polls.antt =====
-- What a whole poll and a whole tick keep: every statement that their single steps keep.
use trans_f.Prelude.{ℕ, String, false, Option, none, some, List, [], ◌∷◌, ◌++◌, ◌≡◌, refl, inl, inr}
use trans_f.Prelude.Tests.{Bool-cases, if◌then◌else◌}
use trans_f.Exec.{pure, gets, ◌>>=◌}
use trans_f.Exec.Keeps.{Keeps, keeps_rules, Keeps-bind, Keeps-pure, Keeps-if}
use trans_f.Store.Users.{Asset}
use trans_f.Store.Records.{CryptoDeposit}
use trans_f.Store.Deposits.{find_crypto_deposit}
use trans_f.Orchestrator.World.{Sys, Action, World, call, finish, other}
use trans_f.Orchestrator.Debit.{is_some}
use trans_f.Deposits.{Feed, CryptoIn, Log, Watched}
use trans_f.Deposits.Poll.{
  matches_of, choose, deposit_of, add_deposit, record_new, record_matched, record_logs, scan_token,
  set_cursor, convert_fresh, close_window, scan_window, scan_from, scan, poll_crypto_deposits_once,
  sweep_pending_crypto_deposits, tick, is_ignored, is_second_hop,
}
use trans_f.Deposits.Keeps.{IsShut, call-Keeps, convert_fresh-Keeps, sweep_pending-Keeps}

-- The steps of a poll keep `P`: a deposit is added only where none of its log is there.
pub record IsClosed (P : Sys → Type 0) : Type 0 where
  pub shut : IsShut P
  pub added :
      (s : Sys) (d : CryptoDeposit)
      → find_crypto_deposit d.tx_hash d.log_index s.db ≡ none
      → P s
      → P (add_deposit d s).1
  pub moved : (s : Sys) (key : String) (block : ℕ) → P s → P (set_cursor key block s).1

none_of {ℓ} : {A : Type ℓ} (o : Option A) → is_some o ≡ false → o ≡ none
none_of none h = refl
none_of (some a) h = cc

module _ {P : Sys → Type 0} (closed : IsClosed P) (c : CryptoIn) (f : Feed) where
  record_new-keeps :
      (token : Asset) (l : Log) (m : Watched) (s : Sys)
      → find_crypto_deposit l.tx_hash l.log_index s.db ≡ none
      → P s
      → P (record_new c f token l m s).1
  unfolding record_new call finish deposit_of ◌>>=◌
  record_new-keeps token l m s absent h = elim (Bool-cases (is_second_hop m l)) [
    | inl hop ↦ rw hop h
    | inr fresh ↦ rw fresh (closed.added _ _ absent (closed.shut.called s other h))
  ]

  unless_known : Asset → Log → Watched → List Watched → Action (List CryptoDeposit)
  unless_known token l m ms =
      gets (λ s. find_crypto_deposit l.tx_hash l.log_index s.db) >>= λ known.
      if is_some known then pure [] else record_new c f token l (choose token m ms)

  unless_known-Keeps :
      (token : Asset) (l : Log) (m : Watched) (ms : List Watched)
      → Keeps P (unless_known token l m ms)
  unfolding unless_known ◌>>=◌
  unless_known-Keeps token l m ms = record {
    at = λ s h. elim (Bool-cases (is_some (find_crypto_deposit l.tx_hash l.log_index s.db))) [
      | inl known ↦ rw known h
      | inr new ↦ rw new (
          record_new-keeps token l (choose token m ms) s
            (none_of (find_crypto_deposit l.tx_hash l.log_index s.db) new) h)
    ];
  }

  pub record_matched-Keeps :
      (token : Asset) (l : Log) (ms : List Watched) → Keeps P (record_matched c f token l ms)
  unfolding record_matched unless_known
  record_matched-Keeps token l [] = Keeps-pure []
  record_matched-Keeps token l (m ∷ ms) =
      let rest : Keeps P (unless_known token l m ms) = unless_known-Keeps token l m ms in
      Keeps-if (is_ignored c token l) (pure []) (unless_known token l m ms) (Keeps-pure []) rest

  pub record_logs-Keeps :
      (ws : List Watched) (token : Asset) (ls : List Log) → Keeps P (record_logs c f ws token ls)
  unfolding record_logs
  record_logs-Keeps ws token [] = Keeps-pure []
  record_logs-Keeps ws token (l ∷ ls) =
      Keeps-bind _ _ (record_matched-Keeps token l (matches_of l ws)) λ now_fresh.
        Keeps-bind _ _ (record_logs-Keeps ws token ls) λ later. Keeps-pure (now_fresh ++ later)

  pub scan_token-Keeps :
      (ws : List Watched) (from to : ℕ) (token : Asset) → Keeps P (scan_token c f ws from to token)
  unfolding scan_token
  scan_token-Keeps ws from to token =
      Keeps-bind _ _ (call-Keeps closed.shut _ _) (record_logs-Keeps ws token)

  cursor-Keeps : (key : String) (block : ℕ) → Keeps P (set_cursor key block)
  cursor-Keeps key block = record { at = λ s h. closed.moved s key block h }

module _ {P : Sys → Type 0} (closed : IsClosed P) (c : CryptoIn) (f : Feed) (w : World) where
  fresh-Keeps : (ds : List CryptoDeposit) → Keeps P (convert_fresh c f w ds)
  fresh-Keeps = convert_fresh-Keeps closed.shut c f w

  pub close_window-Keeps :
      (to : ℕ) (fresh : List CryptoDeposit) → Keeps P (close_window c f w to fresh)
  unfolding close_window
  close_window-Keeps to fresh = search (keeps_rules, cursor-Keeps closed c f, fresh-Keeps) depth 16

  scan_window-Keeps :
      (ws : List Watched) (head cursor : ℕ) → Keeps P (scan_window c f w ws head cursor)
  unfolding scan_window
  scan_window-Keeps ws head cursor =
      search (keeps_rules, scan_token-Keeps closed c f, close_window-Keeps) depth 16

  scan_from-Keeps :
      (ws : List Watched) (head : ℕ) (cursor : Option ℕ) → Keeps P (scan_from c f w ws head cursor)
  unfolding scan_from
  scan_from-Keeps ws head none = search (keeps_rules, cursor-Keeps closed c f) depth 8
  scan_from-Keeps ws head (some cursor) = search (keeps_rules, scan_window-Keeps) depth 8

  scan-Keeps : (ws : List Watched) → Keeps P (scan c f w ws)
  unfolding scan
  scan-Keeps [] = Keeps-pure 0
  scan-Keeps (m ∷ ms) = search (keeps_rules, call-Keeps closed.shut, scan_from-Keeps) depth 12

  pub poll-Keeps : Keeps P (poll_crypto_deposits_once c f w)
  unfolding poll_crypto_deposits_once
  poll-Keeps = search (keeps_rules, scan-Keeps) depth 8

  pending-Keeps : Keeps P (sweep_pending_crypto_deposits c f w)
  pending-Keeps = sweep_pending-Keeps closed.shut c f w

  pub tick-Keeps : Keeps P (tick c f w)
  unfolding tick
  tick-Keeps = search (keeps_rules, poll-Keeps, pending-Keeps) depth 12
