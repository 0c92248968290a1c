-- ===== src/Orchestrator/Keeps/Settle.antt =====
-- The settlement and the recovery sweep: which transfers they leave alone.
use trans_f.Prelude.{String, Option, none, some, refl}
use trans_f.Exec.{Error}
use trans_f.Exec.Keeps.{Keeps, Keeps-bind}
use trans_f.Store.Payments.{Transfer, Pickup}
use trans_f.Orchestrator.World.{Config, World, Sys}
use trans_f.Orchestrator.Steps.{update}
use trans_f.Orchestrator.Settle.{
  lookup_pickup, complete_pickup, complete_found, settle_escrow, settle_pickup, take_answer,
  poll_anchor, anchor_broke, refresh_anchor, refresh_payout, sweep_one, retry_refund, fail_stranded,
  as_stranded, note_funded,
}
use trans_f.Orchestrator.Keeps.{IsClosed, IsClosed-IsCalm, handler_rules, update-Keeps}
use trans_f.Orchestrator.Keeps.Unwind.{fail-Keeps, compensate-Keeps}

module _ {P : Sys → Type 0} (cfg : Config) (w : World) (id : String) (c : IsClosed id P) where
  escrow-Keeps : (t : Transfer) → Keeps P (settle_escrow w id t)
  unfolding settle_escrow
  escrow-Keeps t = search handler_rules

  complete_found-Keeps : (p : Option Pickup) → Keeps P (complete_found id p)
  unfolding complete_found
  complete_found-Keeps none = record { at = λ s h. h }
  complete_found-Keeps (some p) = record { at = λ s h. c.noted s _ h }

  complete-Keeps : Keeps P (complete_pickup id)
  unfolding complete_pickup
  complete-Keeps = record { at = λ s h. (complete_found-Keeps (lookup_pickup id s.pickups)).at s h }

  pub settle-Keeps : Keeps P (settle_pickup w id)
  unfolding settle_pickup
  settle-Keeps = search (handler_rules, c, escrow-Keeps, complete-Keeps) depth 9

  take-Keeps : (t : Transfer) (p : Option Pickup) → Keeps P (take_answer id t p)
  unfolding take_answer
  take-Keeps t none = search handler_rules
  take-Keeps t (some p) = search (handler_rules, c)

  note-Keeps : (p : Option Pickup) → Keeps P (note_funded id p)
  unfolding note_funded
  note-Keeps none = search handler_rules
  note-Keeps (some p) = search (handler_rules, c)

  poll-Keeps : (t : Transfer) (p : Pickup) → Keeps P (poll_anchor w id t p)
  unfolding poll_anchor
  poll-Keeps t p = search (handler_rules, note-Keeps, take-Keeps) depth 9

  broke-Keeps : (e : Error) → Keeps P (anchor_broke cfg w id e)
  unfolding anchor_broke
  broke-Keeps e =
      search (handler_rules, c, λ (e : Error). fail-Keeps {P = P} cfg w id (IsClosed-IsCalm c) e)
        depth 8

  refresh_anchor-Keeps : (t : Transfer) (p : Option Pickup) → Keeps P (refresh_anchor cfg w id t p)
  unfolding refresh_anchor
  refresh_anchor-Keeps t none = search handler_rules
  refresh_anchor-Keeps t (some p) =
      search (handler_rules, poll-Keeps, broke-Keeps, settle-Keeps) depth 8

  pub refresh-Keeps : Keeps P (refresh_payout cfg w id)
  unfolding refresh_payout
  refresh-Keeps = search (handler_rules, settle-Keeps, refresh_anchor-Keeps) depth 8

  retry-Keeps : Keeps P (retry_refund cfg w id)
  unfolding retry_refund
  retry-Keeps = search (handler_rules, compensate-Keeps {P = P} cfg w id (IsClosed-IsCalm c))

  as_stranded-Keeps : Keeps P (update id as_stranded)
  unfolding as_stranded
  as_stranded-Keeps = update-Keeps id c _ (λ a. refl)

  stranded-Keeps : Keeps P (fail_stranded cfg w id)
  unfolding fail_stranded
  stranded-Keeps = Keeps-bind _ _ as_stranded-Keeps (λ _. retry-Keeps)

  pub sweep_one-Keeps : Keeps P (sweep_one cfg w id)
  unfolding sweep_one
  sweep_one-Keeps = search (handler_rules, retry-Keeps, stranded-Keeps) depth 9
