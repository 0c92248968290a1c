-- ===== src/Orchestrator/Returned.antt =====
-- services/api/src/orchestrator.ts: a compensation that was carried out has recorded a refund, or has
-- parked the transfer for a person to look at.
use trans_f.Prelude.{ℕ, String, Bool, true, false, Option, none, some, ◌≡◌, refl, inl, inr, ◌⊎◌}
use trans_f.Prelude.Tests.{Bool-cases}
use trans_f.Exec.{◌>>=◌}
use trans_f.Exec.Keeps.{Ensures, ensures_rules}
use trans_f.Store.Users.{User}
use trans_f.Store.Payments.{Transfer, TransferState, Refund}
use trans_f.Orchestrator.World.{Config, World}
use trans_f.Orchestrator.Steps.{update, input_funds_moved}
use trans_f.Orchestrator.Compensate.{
  as_refunded, unwind, give_back, reverse_swap, settle_reversed, return_input, park, require_user,
}
use trans_f.Orchestrator.Outcome.{IsWith, update-IsWith}

-- Of a transfer whose input was moved, or was not: it is parked, or has its refund, and is REFUNDED if
-- there was an input.
abbrev pub IsReturned : Bool → Transfer → Type 0
IsReturned moved t =
    ((t.state ≡ TransferState.in_review) × (moved ≡ true))
    ⊎ ((r : Refund) × (t.refund ≡ some r) × ((t.state ≡ TransferState.refunded) ⊎ (moved ≡ false)))

module _ (cfg : Config) (w : World) (user : User) (id : String) where
  refund-IsReturned :
      (now amount : ℕ) (from why : String)
      → Ensures (IsWith id (IsReturned true)) (update id (as_refunded w now amount from why))
  unfolding as_refunded
  refund-IsReturned now amount from why =
      update-IsWith id (IsReturned true) _ (λ a. refl) (λ s t. inr (_, refl, inl refl))

  park-IsReturned : (note : String → String) → Ensures (IsWith id (IsReturned true)) (park id note)
  unfolding park
  park-IsReturned note = update-IsWith id (IsReturned true) _ (λ a. refl) (λ s t. inl (refl, refl))

  settle-IsReturned :
      (a b : ℕ) → Ensures (IsWith id (IsReturned true)) (settle_reversed cfg w user id a b)
  unfolding settle_reversed
  settle-IsReturned a b = search (ensures_rules, refund-IsReturned) depth 9

  reverse-IsReturned :
      (t : Transfer) → Ensures (IsWith id (IsReturned true)) (reverse_swap cfg w user id t)
  unfolding reverse_swap
  reverse-IsReturned t = search (ensures_rules, settle-IsReturned) depth 9

  input-IsReturned : (n : ℕ) → Ensures (IsWith id (IsReturned true)) (return_input cfg w user id n)
  unfolding return_input
  input-IsReturned n = search (ensures_rules, refund-IsReturned) depth 9

  give_back-IsReturned :
      (t : Transfer) (n : ℕ) → Ensures (IsWith id (IsReturned true)) (give_back cfg w user id t n)
  unfolding give_back
  give_back-IsReturned t n =
      search (ensures_rules, reverse-IsReturned, input-IsReturned, park-IsReturned) depth 9

  -- Where no input was moved.
  undebited-IsReturned :
      (f : Refund)
      → Ensures (IsWith id (IsReturned false)) (update id (λ t. record t { refund = some f }))
  undebited-IsReturned f =
      update-IsWith id (IsReturned false) _ (λ a. refl) (λ s t. inr (f, refl, inr refl))

  pub unwind-IsReturned :
      (t : Transfer)
      → Ensures (IsWith id (IsReturned (input_funds_moved t.txs))) (unwind cfg w user id t)
  unfolding unwind
  unwind-IsReturned t = elim (Bool-cases (input_funds_moved t.txs)) [
    | inl moved ↦ rw moved (search (ensures_rules, give_back-IsReturned) depth 9)
    | inr kept ↦ rw kept (search (ensures_rules, undebited-IsReturned) depth 9)
  ]

pub require-IsReturned :
    (cfg : Config) (w : World) (id : String) (u : Option User) (t : Transfer)
    → Ensures
        (IsWith id (IsReturned (input_funds_moved t.txs)))
        (require_user id u >>= λ user. unwind cfg w user id t)
unfolding ◌>>=◌
require-IsReturned cfg w id none t = search ensures_rules depth 6
require-IsReturned cfg w id (some user) t =
    search (ensures_rules, λ (user : User). unwind-IsReturned cfg w user id t) depth 6
