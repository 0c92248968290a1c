-- ===== src/Deposits/Keeps.antt =====
-- services/api/src/adapters/crypto-deposits.ts: what the poller's steps keep, the poller keeps.
use trans_f.Prelude.{ℕ, String, Option, none, some, List, [], ◌∷◌, ◌++◌, ◌+◌, ◌≡◌, refl, ◌&&◌}
use trans_f.Prelude.Lists.{modify}
use trans_f.Exec.{Result, ok, err, Error, pure, ◌>>=◌, ◌>>◌}
use trans_f.Exec.Keeps.{Keeps, keeps_rules, Keeps-bind, Keeps-pure, Keeps-throw, Keeps-if}
use trans_f.Store.Users.{User, PaymentPage}
use trans_f.Store.Payments.{Tx}
use trans_f.Store.Records.{CryptoDeposit}
use trans_f.Store.Db
use trans_f.Store.Db.{Db, has_id, lookup, patch_found}
use trans_f.Store.Deposits.{update_crypto_deposit, table}
use trans_f.Orchestrator.World.{Sys, Action, World, Effect, call, finish, on_db}
use trans_f.Deposits.{Feed, CryptoIn}
use trans_f.Deposits.Convert.{
  sweep_to_orchestrator, update, refuse, split, pass, Decision, keep_usdc, trade, decide,
  decide_page, Trade, make_trade, credit, settle, convert_for, convert_deposit, assert_rate_sane,
  as_refused, as_kept, as_converted, listed, is_usdc,
}
use trans_f.Deposits.Poll.{
  try_convert, convert_fresh, sweep_all, sweep_pending_crypto_deposits, is_detected,
}

-- A patch that leaves what names the deposit.
pub record IsHarmless (f : CryptoDeposit → CryptoDeposit) : Type 0 where
  pub same_id : (d : CryptoDeposit) → (f d).id ≡ d.id
  pub same_hash : (d : CryptoDeposit) → (f d).tx_hash ≡ d.tx_hash
  pub same_index : (d : CryptoDeposit) → (f d).log_index ≡ d.log_index

-- Object.assign with the time of the change
abbrev pub stamped : ℕ → (CryptoDeposit → CryptoDeposit) → CryptoDeposit → CryptoDeposit
stamped now f d = record (f d) { updated_at = now }

pub stamped-IsHarmless :
    (now : ℕ) (f : CryptoDeposit → CryptoDeposit) → IsHarmless f → IsHarmless (stamped now f)
stamped-IsHarmless now f h = record {
  same_id = h.same_id;
  same_hash = h.same_hash;
  same_index = h.same_index;
}

-- The store after an update: as it was, or with the first deposit of that id patched.
pub update_either :
    (Q : Db → Type 0) (s : Sys) (id : String) (f : CryptoDeposit → CryptoDeposit)
    → Q s.db
    → Q (record s.db {
      crypto_deposits = modify (has_id table id) (stamped s.clock f) s.db.crypto_deposits;
    })
    → Q (update id f s).1.db
unfolding update update_crypto_deposit ◌>>=◌ on_db patch_found Db.update lookup
update_either Q s id f same changed = go (lookup table id s.db)
  where
    go : (o : Option CryptoDeposit) → Q (patch_found table o id (stamped s.clock f) s.db).1
    go none = same
    go (some d) = changed

-- The steps of a conversion keep `P`.
pub record IsShut (P : Sys → Type 0) : Type 0 where
  pub called : (s : Sys) (e : Effect) → P s → P (record s { effects = e ∷ s.effects })
  pub patched :
      (s : Sys) (id : String) (f : CryptoDeposit → CryptoDeposit)
      → IsHarmless f
      → P s
      → P (update id f s).1

module _ {P : Sys → Type 0} (c : IsShut P) where
  module _ {A : Type 0} where
    finish-Keeps : (r : Result A) (note : A → Effect) → Keeps P (finish r note)
    unfolding finish
    finish-Keeps (ok a) note = record { at = λ s h. c.called s (note a) h }
    finish-Keeps (err e) note = record { at = λ s h. c.called s Effect.thrown h }

    pub call-Keeps : (f : List Effect → Result A) (note : A → Effect) → Keeps P (call f note)
    unfolding call
    call-Keeps f note = record { at = λ s h. (finish-Keeps (f s.effects) note).at s h }

  patch-Keeps :
      (id : String) (f : CryptoDeposit → CryptoDeposit) → IsHarmless f → Keeps P (update id f)
  patch-Keeps id f harmless = record { at = λ s h. c.patched s id f harmless h }

  refuse-Keeps : (d : CryptoDeposit) (txs : List Tx) (e : Error) → Keeps P (refuse d txs e)
  unfolding refuse
  refuse-Keeps d txs e =
      patch-Keeps d.id (as_refused txs e)
        (record { same_id = λ x. refl; same_hash = λ x. refl; same_index = λ x. refl })

module _ {P : Sys → Type 0} {A B : Type 0} where
  pass-Keeps :
      (r : Result A) (go : A → Action B) (recover : Error → Action B)
      → ((a : A) → Keeps P (go a))
      → ((e : Error) → Keeps P (recover e))
      → Keeps P (pass r go recover)
  pass-Keeps (ok a) go recover kg kr = kg a
  pass-Keeps (err e) go recover kg kr = kr e

  split-Keeps :
      (m : Action A) (recover : Error → Action B) (go : A → Action B)
      → Keeps P m
      → ((e : Error) → Keeps P (recover e))
      → ((a : A) → Keeps P (go a))
      → Keeps P (split m recover go)
  unfolding split
  split-Keeps m recover go km kr kg = record {
    at = λ s h. let (r, s') = m s in (pass-Keeps r go recover kg kr).at s' (km.at s h);
  }

module _ {P : Sys → Type 0} (shut : IsShut P) (c : CryptoIn) (f : Feed) (w : World) where
  sane-Keeps : (rate : ℕ) → Keeps P (assert_rate_sane c f rate)
  unfolding assert_rate_sane
  sane-Keeps rate = search (keeps_rules, call-Keeps shut) depth 12

  sweep-Keeps : (u : User) (d : CryptoDeposit) → Keeps P (sweep_to_orchestrator w u d)
  unfolding sweep_to_orchestrator
  sweep-Keeps u d = search (keeps_rules, call-Keeps shut) depth 12

  decide-Keeps :
      (u : User) (d : CryptoDeposit) (page : Option PaymentPage) → Keeps P (decide c w u d page)
  unfolding decide decide_page
  decide-Keeps u d none = search keeps_rules
  decide-Keeps u d (some page) = search (keeps_rules, sweep-Keeps) depth 16

  make_trade-Keeps : (u : User) (d : CryptoDeposit) → Keeps P (make_trade c f w u d)
  unfolding make_trade
  make_trade-Keeps u d = search (keeps_rules, call-Keeps shut, sane-Keeps) depth 16

  credited-Keeps :
      (d : CryptoDeposit) (txs : List Tx) (t : Trade) (wei : ℕ)
      → Keeps P (update d.id (as_converted txs t.plan.provider t.rate wei))
  credited-Keeps d txs t wei =
      patch-Keeps shut d.id (as_converted txs t.plan.provider t.rate wei)
        (record { same_id = λ x. refl; same_hash = λ x. refl; same_index = λ x. refl })

  credit-Keeps :
      (u : User) (d : CryptoDeposit) (txs : List Tx) (t : Trade) → Keeps P (credit w u d txs t)
  unfolding credit
  credit-Keeps u d txs t = search (keeps_rules, call-Keeps shut, credited-Keeps) depth 12

  settle-Keeps : (u : User) (d : CryptoDeposit) (x : Decision) → Keeps P (settle c f w u d x)
  unfolding settle
  settle-Keeps u d (keep_usdc amount) =
      split-Keeps _ _ _
        (patch-Keeps shut d.id (as_kept d.txs amount)
          (record { same_id = λ x. refl; same_hash = λ x. refl; same_index = λ x. refl }))
        (refuse-Keeps shut d d.txs) Keeps-pure
  settle-Keeps u d (trade sweep) =
      split-Keeps _ _ _ (make_trade-Keeps u d) (refuse-Keeps shut d (d.txs ++ listed sweep))
        λ t. split-Keeps _ _ _ (credit-Keeps u d _ t) (refuse-Keeps shut d _) Keeps-pure

  convert_for-Keeps : (d : CryptoDeposit) (u : Option User) → Keeps P (convert_for c f w d u)
  unfolding convert_for
  convert_for-Keeps d none = Keeps-throw _
  convert_for-Keeps d (some u) =
      split-Keeps _ _ _ (decide-Keeps u d u.payment_page) (refuse-Keeps shut d d.txs)
        (settle-Keeps u d)

  pub convert-Keeps : (d : CryptoDeposit) → Keeps P (convert_deposit c f w d)
  unfolding convert_deposit
  convert-Keeps d = search (keeps_rules, convert_for-Keeps) depth 8

  try_convert-Keeps : (d : CryptoDeposit) → Keeps P (try_convert c f w d)
  unfolding try_convert
  try_convert-Keeps d = search (keeps_rules, convert-Keeps) depth 8

  pub convert_fresh-Keeps : (ds : List CryptoDeposit) → Keeps P (convert_fresh c f w ds)
  unfolding convert_fresh
  convert_fresh-Keeps [] = Keeps-pure tt
  convert_fresh-Keeps (d ∷ ds) =
      let rest = convert_fresh c f w ds in
      Keeps-if (is_detected d.state) (try_convert c f w d >> rest) rest
        (Keeps-bind (try_convert c f w d) (λ _. rest) (try_convert-Keeps d)
          (λ _. convert_fresh-Keeps ds))
        (convert_fresh-Keeps ds)

  sweep_all-Keeps : (ds : List CryptoDeposit) → Keeps P (sweep_all c f w ds)
  unfolding sweep_all
  sweep_all-Keeps [] = Keeps-pure 0
  sweep_all-Keeps (d ∷ ds) =
      let rest = sweep_all c f w ds in
      Keeps-if (is_detected d.state && is_usdc d.token)
        (convert_deposit c f w d >> (rest >>= λ n. pure (n + 1))) rest
        (Keeps-bind (convert_deposit c f w d) (λ _. rest >>= λ n. pure (n + 1)) (convert-Keeps d)
          (λ _. Keeps-bind rest (λ n. pure (n + 1)) (sweep_all-Keeps ds) (λ n. Keeps-pure (n + 1))))
        (sweep_all-Keeps ds)

  pub sweep_pending-Keeps : Keeps P (sweep_pending_crypto_deposits c f w)
  unfolding sweep_pending_crypto_deposits
  sweep_pending-Keeps = search (keeps_rules, sweep_all-Keeps) depth 8
