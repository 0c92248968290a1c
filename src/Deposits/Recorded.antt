-- ===== src/Deposits/Recorded.antt =====
-- services/api/src/adapters/crypto-deposits.ts: no transfer of the window is lost.
use trans_f.Prelude.{
  ℕ, String, Bool, true, false, not, ◌&&◌, List, [], ◌∷◌, ◌++◌, ◌≡◌, refl, inl, inr, arith, sym,
  ◌∙◌, ◌⊎◌, ap,
}
use trans_f.Prelude.Tests.{Bool-cases}
use trans_f.Prelude.Lists.{any, any-tail, any-append, find, modify}
use mathlib.Core.List.{map}
use mathlib.Core.Path.{subst}
use trans_f.Prelude.Text.{same_folded, eq_codes, lower, codes}
use trans_f.Orchestrator.Debit.{is_some}
use trans_f.Exec.{ok, pure, ◌>>=◌}
use trans_f.Exec.Passes.{bind-ok_state, bind-pure_state}
use trans_f.Exec.Keeps.{Keeps}
use trans_f.Store.Db.{has_id, push}
use trans_f.Store.Users.{Asset}
use trans_f.Store.Records.{CryptoDeposit}
use trans_f.Store.Deposits.{find_crypto_deposit, table, set_deposit_cursor}
use trans_f.Orchestrator.World.{Sys, Action, call, finish}
use trans_f.Deposits.{Feed, CryptoIn, Log, Watched}
use trans_f.Deposits.Convert.{update}
use trans_f.Deposits.Poll.{
  record_new, record_matched, record_logs, matches_of, choose, is_ignored, is_second_hop,
  deposit_of,
}
use trans_f.Deposits.Keeps.{IsHarmless, stamped, stamped-IsHarmless, update_either}
use trans_f.Deposits.Polls.{IsClosed, record_logs-Keeps}
use trans_f.Deposits.Unique.{is_log}

-- A deposit of the store records the log.
pub record IsRecorded (hash : String) (index : ℕ) (s : Sys) : Type 0 where
  pub there : any (is_log hash index) s.db.crypto_deposits ≡ true

module _ (hash : String) (index : ℕ) where
  any-harmless :
      (f : CryptoDeposit → CryptoDeposit) (test : CryptoDeposit → Bool) (ds : List CryptoDeposit)
      → IsHarmless f
      → any (is_log hash index) (modify test f ds) ≡ any (is_log hash index) ds
  unfolding any modify
  any-harmless f test [] h = refl
  any-harmless f test (d ∷ ds) h = elim (Bool-cases (test d)) [
    | inl hit ↦ rw hit (rw (h.same_hash d, h.same_index d) refl)
    | inr miss ↦ rw miss (rw (any-harmless f test ds h) refl)
  ]

  patched-IsRecorded :
      (s : Sys) (id : String) (f : CryptoDeposit → CryptoDeposit)
      → IsHarmless f
      → IsRecorded hash index s
      → IsRecorded hash index (update id f s).1
  patched-IsRecorded s id f harmless h = record {
    there =
        update_either (λ db. any (is_log hash index) db.crypto_deposits ≡ true) s id f h.there
          (rw
            (any-harmless (stamped s.clock f) (has_id table id) s.db.crypto_deposits
              (stamped-IsHarmless s.clock f harmless))
            h.there);
  }

  -- What is recorded stays recorded.
  pub IsRecorded-IsClosed : IsClosed (IsRecorded hash index)
  unfolding set_deposit_cursor push
  IsRecorded-IsClosed = record {
    shut = record { called = λ s e h. record { there = h.there }; patched = patched-IsRecorded };
    added = λ s d absent h. record {
      there = rw (any-append (is_log hash index) s.db.crypto_deposits (d ∷ []), h.there) refl;
    };
    moved = λ s key block h. record { there = h.there };
  }

-- The log is one to record, if it is not yet: some watched address received it, it moved tokens,
-- and it is neither the swapper's nor a forwarder's second hop.
abbrev pub is_due : CryptoIn → Asset → Log → List Watched → Bool
is_due c token l [] = false
is_due c token l (m ∷ ms) = not (is_ignored c token l) && not (is_second_hop (choose token m ms) l)

abbrev pub is_stored : Log → Sys → Bool
is_stored l s = any (is_log l.tx_hash l.log_index) s.db.crypto_deposits

abbrev pub is_missed : CryptoIn → List Watched → Asset → Sys → Log → Bool
is_missed c ws token s l = is_due c token l (matches_of l ws) && not (is_stored l s)

eq_codes_refl : (xs : List ℕ) → eq_codes xs xs ≡ true
unfolding eq_codes
eq_codes_refl [] = refl
eq_codes_refl (x ∷ xs) = rw (eq_codes_refl xs) (ground arith)

same_folded_refl : (a : String) → same_folded a a ≡ true
unfolding same_folded
same_folded_refl a = eq_codes_refl (map lower (codes a))

is_some-find {ℓ} :
    {A : Type ℓ} (test : A → Bool) (xs : List A) → is_some (find test xs) ≡ any test xs
unfolding find any
is_some-find test [] = refl
is_some-find test (x ∷ xs) = elim (Bool-cases (test x)) [
  | inl hit ↦ rw hit refl
  | inr miss ↦ rw miss (is_some-find test xs)
]

stored-push :
    (l : Log) (d : CryptoDeposit) (ds : List CryptoDeposit)
    → is_log l.tx_hash l.log_index d ≡ true
    → any (is_log l.tx_hash l.log_index) (ds ++ d ∷ []) ≡ true
unfolding any
stored-push l d ds h =
    rw (any-append (is_log l.tx_hash l.log_index) ds (d ∷ []), h)
      (elim (Bool-cases (any (is_log l.tx_hash l.log_index) ds)) [
        | inl e ↦ rw e refl
        | inr e ↦ rw e refl
      ])

both_not : (a b : Bool) → (not a && not b) ≡ true → (a ≡ false) × (b ≡ false)
both_not true b h = cc
both_not false true h = cc
both_not false false h = (refl, refl)

module _ (c : CryptoIn) (f : Feed) (token : Asset) (l : Log) where
  -- Recording a log never throws, and a due log is in the store afterwards.
  pub matched_total :
      (ms : List Watched) (s : Sys)
      → (r : List CryptoDeposit) × ((record_matched c f token l ms s).0 ≡ ok r)
  unfolding record_matched record_new ◌>>=◌ call finish
  matched_total [] s = ([], refl)
  matched_total (m ∷ ms) s = elim (Bool-cases (is_ignored c token l)) [
    | inl skip ↦ rw skip ([], refl)
    | inr go ↦ rw go (elim (Bool-cases (is_some (find_crypto_deposit l.tx_hash l.log_index s.db))) [
      | inl known ↦ rw known ([], refl)
      | inr new ↦ rw new (elim (Bool-cases (is_second_hop (choose token m ms) l)) [
        | inl hop ↦ rw hop ([], refl)
        | inr first ↦ rw first (_, refl)
      ])
    ])
  ]

  matched_stores :
      (ms : List Watched) (s : Sys)
      → is_due c token l ms ≡ true
      → is_stored l (record_matched c f token l ms s).1 ≡ true
  unfolding record_matched record_new ◌>>=◌ call finish push find_crypto_deposit deposit_of
  matched_stores [] s h = cc
  matched_stores (m ∷ ms) s h =
      let (go, first) = both_not (is_ignored c token l) (is_second_hop (choose token m ms) l) h in
      rw go (elim (Bool-cases (is_some (find_crypto_deposit l.tx_hash l.log_index s.db))) [
        | inl known ↦
            rw known
              (sym (is_some-find (is_log l.tx_hash l.log_index) s.db.crypto_deposits) ∙ known)
        | inr new ↦
            rw (new, first)
              (stored-push l _ s.db.crypto_deposits
                (rw (same_folded_refl l.tx_hash) (ground arith)))
      ])

missed_either : (due stored : Bool) → (due && not stored) ≡ false → (due ≡ false) ⊎ (stored ≡ true)
missed_either false b h = inl refl
missed_either true true h = inr refl
missed_either true false h = cc

not_missed : (due stored : Bool) → stored ≡ true → (due && not stored) ≡ false
not_missed true b h = rw h refl
not_missed false b h = refl

any-none :
    {A : Type 0} (test : A → Bool) (x : A) (xs : List A)
    → test x ≡ false
    → any test xs ≡ false
    → any test (x ∷ xs) ≡ false
unfolding any
any-none test x xs h k = rw h k

module _ (c : CryptoIn) (ws : List Watched) (token : Asset) where
  -- What an action keeps of each log's record, it keeps of a whole list: nothing becomes missed.
  pub none_missed-kept :
      {A : Type 0} (m : Action A)
      → ((hash : String) (index : ℕ) → Keeps (IsRecorded hash index) m)
      → (ls : List Log) (s : Sys) → any (is_missed c ws token s) ls ≡ false
      → any (is_missed c ws token (m s).1) ls ≡ false
  unfolding any
  none_missed-kept m keeps [] s h = refl
  none_missed-kept m keeps (l ∷ ls) s h =
      let (first, rest) = any-tail (is_missed c ws token s) l ls h in
      any-none (is_missed c ws token (m s).1) l ls
        (elim (missed_either (is_due c token l (matches_of l ws)) (is_stored l s) first) [
          | inl idle ↦ rw idle refl
          | inr old ↦
              not_missed _ _ ((keeps l.tx_hash l.log_index).at s (record { there = old })).there
        ])
        (none_missed-kept m keeps ls s rest)

  module _ (f : Feed) where
    logs-step :
        (l : Log) (ls : List Log) (s : Sys)
        → (record_logs c f ws token (l ∷ ls) s).1
          ≡ (record_logs c f ws token ls (record_matched c f token l (matches_of l ws) s).1).1
    unfolding record_logs
    logs-step l ls s =
        let (fresh, returned) = matched_total c f token l (matches_of l ws) s in
        let s' = (record_matched c f token l (matches_of l ws) s).1 in
        ap (λ p. p.1)
          (bind-ok_state (record_matched c f token l (matches_of l ws))
            (λ now_fresh. record_logs c f ws token ls >>= λ later. pure (now_fresh ++ later)) s
            fresh returned)
        ∙ bind-pure_state (record_logs c f ws token ls) (λ later. fresh ++ later) s'

    -- After the loop over the logs none of them is missed.
    pub logs_complete :
        (ls : List Log) (s : Sys)
        → any (is_missed c ws token (record_logs c f ws token ls s).1) ls ≡ false
    unfolding any
    logs_complete [] s = refl
    logs_complete (l ∷ ls) s =
        let s' = (record_matched c f token l (matches_of l ws) s).1 in
        subst (λ t. any (is_missed c ws token t) (l ∷ ls) ≡ false) (sym (logs-step l ls s))
          (any-none (is_missed c ws token (record_logs c f ws token ls s').1) l ls
            (elim (Bool-cases (is_due c token l (matches_of l ws))) [
              | inr idle ↦ rw idle refl
              | inl due ↦
                  not_missed _ _
                    ((record_logs-Keeps (IsRecorded-IsClosed l.tx_hash l.log_index) c f ws token
                        ls).at
                      s'
                      (record { there = matched_stores c f token l (matches_of l ws) s due })).there
            ])
            (logs_complete ls s'))
