-- ===== src/Orchestrator/Keeps/Unwind.antt =====
-- Compensation and failure keep what is closed under their steps.
use trans_f.Prelude.{ℕ, String, Option, none, some, refl}
use trans_f.Exec.{Error}
use trans_f.Exec.Keeps.{Keeps}
use trans_f.Store.Users.{User}
use trans_f.Store.Payments.{Transfer}
use trans_f.Orchestrator.World.{Config, World, Sys}
use trans_f.Orchestrator.Steps.{update}
use trans_f.Orchestrator.Compensate.{
  return_eure_to_safe, release_escrow, compensation_rate, rate_from, estimate, return_fee,
  as_refunded, settle_reversed, reverse_swap, park, return_input, give_back, unwind, require_user,
  compensate_transfer, as_parked, as_failed, refund_unless, fail_and_compensate,
}
use trans_f.Orchestrator.Keeps.{IsCalm, calm_rules, tame-Keeps}

module _ {P : Sys → Type 0} (cfg : Config) (w : World) (user : User) (id : String)
    (c : IsCalm id P) where
  park-Keeps : (note : String → String) → Keeps P (park id note)
  unfolding park
  park-Keeps note = tame-Keeps id c _ (λ a. refl) (λ a h. refl)

  return-Keeps : (amount : ℕ) → Keeps P (return_eure_to_safe cfg w user id amount)
  unfolding return_eure_to_safe
  return-Keeps amount = search calm_rules

  as_refunded-Keeps :
      (now amount : ℕ) (from why : String) → Keeps P (update id (as_refunded w now amount from why))
  unfolding as_refunded
  as_refunded-Keeps now amount from why = tame-Keeps id c _ (λ a. refl) (λ a h. refl)

  release-Keeps : (t : Transfer) → Keeps P (release_escrow w id t)
  unfolding release_escrow
  release-Keeps t = search calm_rules

  return_fee-Keeps : (fee : ℕ) → Keeps P (return_fee cfg w user id fee)
  unfolding return_fee
  return_fee-Keeps fee = search (calm_rules, return-Keeps)

  rate_from-Keeps : (a b : Option ℕ) → Keeps P (rate_from w a b)
  unfolding rate_from
  rate_from-Keeps (some rate) b = search calm_rules
  rate_from-Keeps none (some rate) = search calm_rules
  rate_from-Keeps none none = search calm_rules

  rate-Keeps : (t : Transfer) → Keeps P (compensation_rate w t)
  unfolding compensation_rate
  rate-Keeps t = search (calm_rules, rate_from-Keeps)

  estimate-Keeps : (t : Transfer) → Keeps P (estimate w t)
  unfolding estimate
  estimate-Keeps t = search (calm_rules, rate-Keeps)

  settle_reversed-Keeps : (before after : ℕ) → Keeps P (settle_reversed cfg w user id before after)
  unfolding settle_reversed
  settle_reversed-Keeps before after =
      search (calm_rules, return_fee-Keeps, as_refunded-Keeps) depth 8

  reverse_swap-Keeps : (t : Transfer) → Keeps P (reverse_swap cfg w user id t)
  unfolding reverse_swap
  reverse_swap-Keeps t = search (calm_rules, settle_reversed-Keeps) depth 9

  return_input-Keeps : (n : ℕ) → Keeps P (return_input cfg w user id n)
  unfolding return_input
  return_input-Keeps n = search (calm_rules, return-Keeps, as_refunded-Keeps) depth 8

  give_back-Keeps : (t : Transfer) (n : ℕ) → Keeps P (give_back cfg w user id t n)
  unfolding give_back
  give_back-Keeps t n =
      search (calm_rules, reverse_swap-Keeps, park-Keeps, return_input-Keeps) depth 7

  unwind-Keeps : (t : Transfer) → Keeps P (unwind cfg w user id t)
  unfolding unwind
  unwind-Keeps t = search (calm_rules, c, release-Keeps, estimate-Keeps, give_back-Keeps) depth 7

module _ {P : Sys → Type 0} (cfg : Config) (w : World) (id : String) (c : IsCalm id P) where
  require_user-Keeps : (u : Option User) → Keeps P (require_user id u)
  require_user-Keeps none = search calm_rules
  require_user-Keeps (some u) = search calm_rules

  pub compensate-Keeps : Keeps P (compensate_transfer cfg w id)
  unfolding compensate_transfer
  compensate-Keeps =
      search
        (
          calm_rules,
          require_user-Keeps,
          λ (u : User) (t : Transfer). unwind-Keeps {P = P} cfg w u id c t,
        )
        depth 8

  parked-Keeps : (why : String) → Keeps P (update id (as_parked why))
  unfolding as_parked
  parked-Keeps why = tame-Keeps id c _ (λ a. refl) (λ a h. refl)

  as_failed-Keeps : (why : String) → Keeps P (update id (as_failed why))
  unfolding as_failed
  as_failed-Keeps why = tame-Keeps id c _ (λ a. refl) (λ a h. refl)

  refund_unless-Keeps : (e : Error) (t : Transfer) → Keeps P (refund_unless cfg w id e t)
  unfolding refund_unless
  refund_unless-Keeps e t = search (calm_rules, parked-Keeps, compensate-Keeps) depth 8

  pub fail-Keeps : (e : Error) → Keeps P (fail_and_compensate cfg w id e)
  unfolding fail_and_compensate
  fail-Keeps e = search (calm_rules, as_failed-Keeps, refund_unless-Keeps) depth 8
