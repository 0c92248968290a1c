-- ===== src/Deposits/Fair.antt =====
-- services/api/src/adapters/crypto-deposits.ts: what a conversion that was settled has passed.
use trans_f.Prelude.{
  ℕ, true, false, not, Option, none, some, List, [], ◌∷◌, ◌++◌, ◌+◌, ◌-◌, ◌*◌, ◌≤◌, ◌<◌, ◌≡◌, inl,
  inr, sym, ap, ◌∙◌, ◌⊎◌,
}
use mathlib.Core.Path.{subst, ap₂}
use trans_f.Prelude.Tests.{if◌then◌else◌, Bool-cases, ltb}
use trans_f.Prelude.Text.{concat}
use trans_f.Exec.{ok, pure, ◌>>=◌, gets}
use trans_f.Exec.Passes.{bind_passed, guard_passed, ok_inj}
use trans_f.Store.Users.{User, PaymentPage}
use trans_f.Store.Payments.{Liquidity, Tx}
use trans_f.Store.Records.{CryptoDeposit}
use trans_f.Orchestrator.World.{
  Sys, Action, World, other, Effect, Execution, reversed, usdc_to_eure,
}
use trans_f.Orchestrator.Steps.{value_or, to_wei}
use trans_f.Deposits.{Feed, CryptoIn}
use trans_f.Deposits.Convert.{
  convert_deposit, convert_for, settle, Decision, keep_usdc, trade, decide, decide_page, make_trade,
  credit, refuse, update, as_kept, distance, is_converted, is_usdc, listed, sweep_to_orchestrator,
}
use trans_f.Store.Accounts.{find_user}
use trans_f.Deposits.Watch.{kyc_approved}
use trans_f.Deposits.Passed.{split_passed, update_passed, refuse_passed, not_ltb}
use trans_f.Deposits.Traded.{make_trade_passed, make_trade_run, credit_passed}

-- The dollars stay dollars, and are worth the floor.
pub record IsKept (c : CryptoIn) (d : CryptoDeposit) : Type 0 where
  pub amount : ℕ
  pub credited : d.credited_usdc ≡ some amount
  pub enough : c.min_usdc ≤ amount

-- The plan is one that the venue quoted for the deposit, and its rate is within the cap of a mid rate
-- that was read. The balance of the owner's Safe was read, then the plan executed into that Safe, then
-- the balance read again: the euros credited are the difference, at least what the plan had promised.
pub record IsTraded (c : CryptoIn) (f : Feed) (w : World) (d : CryptoDeposit) (s : Sys)
    (d' : CryptoDeposit) : Type 0 where
  pub owner : User
  pub holder : find_user d.user_id s.db ≡ some owner
  pub plan : Liquidity
  pub deadline : ℕ
  pub quoted :
      (h : List Effect) × (w.quote usdc_to_eure d.amount_units
          (concat ("crypto-in-" ∷ d.id ∷ []))
          deadline
          h
        ≡ ok plan)
  pub mid : ℕ
  pub read : (h : List Effect) × (f.mid_usd h ≡ ok mid)
  pub near : distance plan.rate mid * 10000 ≤ c.max_drift_bps * mid
  pub rated : d'.rate ≡ some plan.rate
  pub asked : List Effect
  pub before : ℕ
  pub opened : w.eure_balance owner.address asked ≡ ok before
  pub sale : Execution
  pub sold : w.execute plan (some owner.address) (other ∷ asked) ≡ ok sale
  pub after : ℕ
  pub measured :
      w.balance_after_write owner.address
        (to_wei before)
        (reversed d.id sale.amount_out ∷ other ∷ asked)
      ≡ ok after
  pub rose : to_wei before < after
  pub promised : plan.min_out ≤ after - to_wei before
  pub credited : d'.credited_eur ≡ some (after - to_wei before)

module _ (c : CryptoIn) (f : Feed) (w : World) where
  credited_lem :
      (u : User) (d : CryptoDeposit) (sweep : Option Tx) (s : Sys) (d' : CryptoDeposit)
      → (settle c f w u d (trade sweep) s).0 ≡ ok d'
      → is_converted d'.state ≡ true
      → (start : Sys) → find_user d.user_id start.db ≡ some u
      → IsTraded c f w d start d'
  unfolding settle
  credited_lem u d sweep s d' h done start holder =
      let swept = d.txs ++ listed sweep in
      elim (split_passed (make_trade c f w u d) (refuse d swept) _ s d' h) [
        | inr (e, k) ↦ absurd (refuse_passed d swept e _ d' k done)
        | inl (t, made, k) ↦
            let txs = swept ++ t.execution.txs in
            let s₁ = (make_trade c f w u d s).1 in
            elim (split_passed (credit w u d txs t) (refuse d txs) pure s₁ d' k) [
              | inr (e, l) ↦ absurd (refuse_passed d txs e _ d' l done)
              | inl (d'', paid, l) ↦
                  let (plan, planned, traded, quoted, mid, read, near) =
                    make_trade_passed c f w u d s t made in
                  let (asked, held, sale, opened, sold, before, left) =
                    make_trade_run c f w u d s s₁ t (ap (λ r. (r, s₁)) made) in
                  let (after, measured, rose, enough, rated, credited) =
                    credit_passed c f w u d txs t s₁ d' (paid ∙ ap ok (ok_inj _ _ l)) in
                  record {
                    owner = u;
                    holder = holder;
                    plan = plan;
                    deadline = s.clock + 60000;
                    quoted = quoted;
                    mid = mid;
                    read = read;
                    near = near;
                    rated = rated ∙ ap some traded;
                    asked = asked;
                    before = held;
                    opened = opened;
                    sale = sale;
                    sold =
                        ap (λ (p : Liquidity). w.execute p (some u.address) (other ∷ asked))
                          (sym planned)
                        ∙ sold;
                    after = after;
                    measured =
                        ap₂ (w.balance_after_write u.address) (sym before) (sym left) ∙ measured;
                    rose = subst (λ n. n < after) before rose;
                    promised =
                        subst (λ n. plan.min_out ≤ after - n) before
                          (subst (λ (p : Liquidity). p.min_out ≤ after - t.before) planned enough);
                    credited = credited ∙ ap (λ n. some (after - n)) before;
                  }
            ]
      ]

  abbrev amount_of : Decision → ℕ
  amount_of (keep_usdc a) = a
  amount_of (trade sweep) = 0

  -- What stays USDC is worth the floor.
  decide_passed :
      (u : User) (d : CryptoDeposit) (page : Option PaymentPage) (s : Sys) (amount : ℕ)
      → (decide c w u d page s).0 ≡ ok (keep_usdc amount)
      → c.min_usdc ≤ amount
  unfolding decide decide_page
  decide_passed u d none s amount h = cc
  decide_passed u d (some page) s amount h =
      let (_, h₁) = guard_passed (not page.auto_convert) _ _ s _ h in
      let (_, h₂) = guard_passed (not (kyc_approved u.kyc_status)) _ _ s _ h₁ in
      let (enough, h₃) = guard_passed (ltb (value_or 0 d.amount_usdc) c.min_usdc) _ _ s _ h₂ in
      kept page h₃ (not_ltb _ _ enough)
    where
      kept :
          (page : PaymentPage)
          → ((if is_usdc page.settlement_asset
                then pure (keep_usdc (value_or 0 d.amount_usdc))
                else sweep_to_orchestrator w u d >>= λ sweep. pure (trade sweep))
              s).0
            ≡ ok (keep_usdc amount)
          → c.min_usdc ≤ value_or 0 d.amount_usdc
          → c.min_usdc ≤ amount
      kept page k enough = elim (Bool-cases (is_usdc page.settlement_asset)) [
        | inl dollars ↦
            let same : value_or 0 d.amount_usdc ≡ amount =
              ap amount_of (ok_inj _ _ (rw dollars at k)) in
            rw (sym same) enough
        | inr euros ↦
            let (sweep, _, l) =
              bind_passed (sweep_to_orchestrator w u d) (λ x. pure (trade x)) s _ (rw euros at k) in
            cc
      ]

  settle_passed :
      (u : User) (d : CryptoDeposit) (x : Decision) (s s' : Sys) (d' : CryptoDeposit)
      → (decide c w u d u.payment_page s).0 ≡ ok x
      → (settle c f w u d x s').0 ≡ ok d'
      → is_converted d'.state ≡ true
      → (start : Sys) → find_user d.user_id start.db ≡ some u
      → IsKept c d' ⊎ IsTraded c f w d start d'
  unfolding settle
  settle_passed u d (trade sweep) s s' d' k h done start holder =
      inr (credited_lem u d sweep s' d' h done start holder)
  settle_passed u d (keep_usdc amount) s s' d' k h done start holder =
      elim (split_passed (update d.id (as_kept d.txs amount)) (refuse d d.txs) pure s' d' h) [
        | inr (e, l) ↦ absurd (refuse_passed d d.txs e _ d' l done)
        | inl (d'', paid, l) ↦
            let (x, same) =
              update_passed d.id (as_kept d.txs amount) s' d' (paid ∙ ap ok (ok_inj _ _ l)) in
            inl (record {
              amount = amount;
              credited = ap (λ d. d.credited_usdc) same;
              enough = decide_passed u d u.payment_page s amount k;
            })
      ]

  for_passed :
      (d : CryptoDeposit) (u : Option User) (s : Sys) (d' : CryptoDeposit)
      → (convert_for c f w d u s).0 ≡ ok d'
      → is_converted d'.state ≡ true
      → (start : Sys) → find_user d.user_id start.db ≡ u
      → IsKept c d' ⊎ IsTraded c f w d start d'
  unfolding convert_for
  for_passed d none s d' h done start holder = cc
  for_passed d (some u) s d' h done start holder =
      elim (split_passed (decide c w u d u.payment_page) (refuse d d.txs) (settle c f w u d) s d'
        h) [
          | inr (e, l) ↦ absurd (refuse_passed d d.txs e _ d' l done)
          | inl (x, decided, l) ↦ settle_passed u d x s _ d' decided l done start holder
        ]

  -- A deposit that a conversion returns as converted stayed USDC worth the floor, or was traded on
  -- a quoted plan at a rate near the market's, and is credited with what the balance of its owner's
  -- Safe rose by from the one read there before the trade, no less than the plan had promised.
  pub convert_passed :
      (d : CryptoDeposit) (s : Sys) (d' : CryptoDeposit)
      → is_converted d.state ≡ false
      → (convert_deposit c f w d s).0 ≡ ok d'
      → is_converted d'.state ≡ true
      → IsKept c d' ⊎ IsTraded c f w d s d'
  unfolding convert_deposit ◌>>=◌
  convert_passed d s d' fresh h done =
      let run : Action CryptoDeposit =
        gets (λ s. find_user d.user_id s.db) >>= convert_for c f w d in
      let started : (run s).0 ≡ ok d' = rw fresh at h in
      let (u, holder, l) =
        bind_passed (gets (λ s. find_user d.user_id s.db)) (convert_for c f w d) s d' started in
      for_passed d u s d' l done s (ok_inj _ _ holder)
