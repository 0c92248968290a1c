-- ===== src/Deposits/Traded.antt =====
-- services/api/src/adapters/crypto-deposits.ts: what a trade that was made, and the credit of one, have
-- passed.
use trans_f.Prelude.{ℕ, some, List, [], ◌∷◌, ◌+◌, ◌-◌, ◌*◌, ◌≤◌, ◌<◌, ◌≡◌, sym, ap, ◌∙◌}
use trans_f.Prelude.Tests.{ltb, leb, ◌==◌, leb→le}
use trans_f.Prelude.Text.{concat}
use trans_f.Exec.{ok, pure, gets, plain}
use trans_f.Exec.Passes.{bind_passed, guard_passed, need_passed, ok_inj}
use trans_f.Store.Users.{User}
use trans_f.Store.Payments.{Liquidity, Tx}
use trans_f.Store.Records.{CryptoDeposit}
use trans_f.Orchestrator.World.{Sys, World, call, other, Effect, Execution, reversed, usdc_to_eure}
use trans_f.Orchestrator.Steps.{to_wei}
use trans_f.Deposits.{Feed, CryptoIn}
use trans_f.Deposits.Convert.{
  make_trade, Trade, credit, as_converted, assert_rate_sane, distance, rate_is_sane,
}
use trans_f.Api.Passed.{bind_run, gets_run, call_run, pure_run}
use trans_f.Deposits.Passed.{call_passed, update_passed, not_leb, not_ltb}

module _ (c : CryptoIn) (f : Feed) (w : World) where
  sane_passed :
      (rate : ℕ) (s : Sys) (r : ℕ)
      → (assert_rate_sane c f rate s).0 ≡ ok r
      → (r ≡ rate)
        × (mid : ℕ) × ((h : List Effect) × (f.mid_usd h ≡ ok mid))
        × (distance rate mid * 10000 ≤ c.max_drift_bps * mid)
  unfolding assert_rate_sane rate_is_sane
  sane_passed rate s r h =
      let (_, h₁) = guard_passed (rate == 0) (plain "venue quoted a zero rate") _ s r h in
      let (mid, read, h₂) = bind_passed (call f.mid_usd (λ _. other)) _ s r h₁ in
      let s' = (call f.mid_usd (λ _. other) s).1 in
      let (_, h₃) =
        guard_passed (mid == 0) (plain "no live EUR/USD mid to check the venue against") _ s' r
          h₂ in
      let (near, h₄) = need_passed (rate_is_sane c mid rate) _ (pure rate) s' r h₃ in
      (
        sym (ok_inj _ _ h₄),
        mid,
        (s.effects, call_passed f.mid_usd (λ _. other) s mid read),
        leb→le _ _ near,
      )

  -- The trade's rate is its plan's, which passed the check, the plan was quoted, and the balance
  -- before it is the Safe's.
  pub make_trade_passed :
      (u : User) (d : CryptoDeposit) (s : Sys) (t : Trade)
      → (make_trade c f w u d s).0 ≡ ok t
      → (plan : Liquidity) × (t.plan ≡ plan)
        × (t.rate ≡ plan.rate)
        × ((h : List Effect) × (w.quote usdc_to_eure d.amount_units
                (concat ("crypto-in-" ∷ d.id ∷ []))
                (s.clock + 60000)
                h
              ≡ ok plan))
        × (mid : ℕ) × ((h : List Effect) × (f.mid_usd h ≡ ok mid))
        × (distance plan.rate mid * 10000 ≤ c.max_drift_bps * mid)
  unfolding make_trade
  make_trade_passed u d s t h =
      let (now, on_time, h₁) = bind_passed (gets (λ s. s.clock)) _ s t h in
      let ask = w.quote usdc_to_eure d.amount_units (concat ("crypto-in-" ∷ d.id ∷ [])) in
      let (plan, quoted, h₂) = bind_passed _ _ _ t h₁ in
      let (rate, sane, h₃) = bind_passed (assert_rate_sane c f plan.rate) _ _ t h₂ in
      let (before, _, h₄) = bind_passed _ _ _ t h₃ in
      let (execution, _, h₅) = bind_passed _ _ _ t h₄ in
      let (same, mid, read, near) = sane_passed plan.rate _ rate sane in
      (
        plan,
        ap (λ t. t.plan) (sym (ok_inj _ _ h₅)),
        ap (λ t. t.rate) (sym (ok_inj _ _ h₅)) ∙ same,
        (
          s.effects,
          ap (λ n. ask (n + 60000) s.effects) (ok_inj _ _ on_time)
              ∙ call_passed (ask (now + 60000)) (λ _. other) s plan quoted,
        ),
        mid,
        read,
        near,
      )

  -- The balance of the Safe was read just before the plan was executed into it.
  pub make_trade_run :
      (u : User) (d : CryptoDeposit) (s s₁ : Sys) (t : Trade)
      → make_trade c f w u d s ≡ (ok t, s₁)
      → (h : List Effect) × (held : ℕ) × (sale : Execution) × (w.eure_balance u.address h ≡ ok held)
        × (w.execute t.plan (some u.address) (other ∷ h) ≡ ok sale)
        × (t.before ≡ to_wei held)
        × (s₁.effects ≡ reversed d.id sale.amount_out ∷ other ∷ h)
  unfolding make_trade
  make_trade_run u d s s₁ t run =
      let run₁ = gets_run (λ s. s.clock) _ run in
      let ask = w.quote usdc_to_eure d.amount_units (concat ("crypto-in-" ∷ d.id ∷ [])) in
      let (plan, quoted, run₂) = call_run (ask (s.clock + 60000)) (λ _. other) _ run₁ in
      let (rate, s₃, sane, run₃) = bind_run (assert_rate_sane c f plan.rate) _ run₂ in
      let (held, opened, run₄) = call_run (w.eure_balance u.address) (λ _. other) _ run₃ in
      let (sale, sold, run₅) =
        call_run (w.execute plan (some u.address)) (λ e. reversed d.id e.amount_out) _ run₄ in
      let (same, last) = pure_run _ t run₅ in
      (
        s₃.effects,
        held,
        sale,
        opened,
        ap (λ (x : Trade). w.execute x.plan (some u.address) (other ∷ s₃.effects)) (sym same)
            ∙ sold,
        ap (λ (x : Trade). x.before) (sym same),
        ap (λ (x : Sys). x.effects) (sym last),
      )

  pub credit_passed :
      (u : User) (d : CryptoDeposit) (txs : List Tx) (t : Trade) (s : Sys) (d' : CryptoDeposit)
      → (credit w u d txs t s).0 ≡ ok d'
      → (after : ℕ) × (w.balance_after_write u.address t.before s.effects ≡ ok after)
        × (t.before < after)
        × (t.plan.min_out ≤ after - t.before)
        × (d'.rate ≡ some t.rate)
        × (d'.credited_eur ≡ some (after - t.before))
  unfolding credit
  credit_passed u d txs t s d' h =
      let ask = call (w.balance_after_write u.address t.before) (λ _. other) in
      let (after, read, h₁) = bind_passed ask _ s d' h in
      let (rose, h₂) = guard_passed (leb after t.before) _ _ (ask s).1 d' h₁ in
      let (enough, h₃) = guard_passed (ltb (after - t.before) t.plan.min_out) _ _ (ask s).1 d' h₂ in
      let (x, same) =
        update_passed d.id (as_converted txs t.plan.provider t.rate (after - t.before)) (ask s).1 d'
          h₃ in
      (
        after,
        call_passed (w.balance_after_write u.address t.before) (λ _. other) s after read,
        not_leb _ _ rose,
        not_ltb _ _ enough,
        ap (λ d. d.rate) same,
        ap (λ d. d.credited_eur) same,
      )
