-- ===== src/Orchestrator/Burn.antt =====
-- After a CCTP burn or a duplicate debit no money is sent back by the failing run.
use trans_f.Prelude.{String, true, some, ◌≡◌, refl, ◌∙◌, inl, inr, ◌⊎◌}
use trans_f.Prelude.Tests.{Bool-cases}
use trans_f.Prelude.Text.{mentions}
use trans_f.Exec.{Error, message, ◌>>=◌}
use trans_f.Store.Payments.{Transfer, TransferState}
use trans_f.Store.Transfers.{find_transfer}
use trans_f.Orchestrator.World.{Sys, Config, World}
use trans_f.Orchestrator.Steps.{update, has_step}
use trans_f.Orchestrator.Compensate.{
  fail_and_compensate, refund_unless, as_failed, as_parked, burn_note, duplicate_note,
}
use trans_f.Orchestrator.Lemmas.{stamped, effects-update, update_ok, update_found}

-- The transfer is in manual review, and nothing was called.
pub record IsParked (id : String) (before after : Sys) : Type 0 where
  pub uncalled : after.effects ≡ before.effects
  pub kept : Transfer
  pub stored : find_transfer id after.db ≡ some kept
  pub in_review : kept.state ≡ TransferState.in_review

module _ (cfg : Config) (w : World) (id : String) (e : Error) (s : Sys) (t : Transfer)
    (found : find_transfer id s.db ≡ some t) where
  failed_found :
      find_transfer id (update id (as_failed (message e)) s).1.db
      ≡ some (stamped (as_failed (message e)) s t)
  unfolding as_failed
  failed_found = update_found id (as_failed (message e)) s t found (λ a. refl)

  park_again :
      (why : String)
      → IsParked id s (update id (as_parked why) (update id (as_failed (message e)) s).1).1
  unfolding as_parked
  park_again why = record {
    uncalled = effects-update id (as_parked why) _ ∙ effects-update id (as_failed (message e)) s;
    kept =
        stamped (as_parked why) (update id (as_failed (message e)) s).1
          (stamped (as_failed (message e)) s t);
    stored = update_found id (as_parked why) _ _ failed_found (λ a. refl);
    in_review = refl;
  }

  -- A failure after a CCTP burn, or by a second debit, parks the transfer for review and calls
  -- nothing outside: no refund is sent.
  pub fail-IsParked :
      (has_step "cctp.burn" t.txs ≡ true) ⊎ (mentions "duplicate transfer" (message e) ≡ true)
      → IsParked id s (fail_and_compensate cfg w id e s).1
  unfolding fail_and_compensate ◌>>=◌ refund_unless as_failed
  fail-IsParked h =
      rw (update_ok id (as_failed (message e)) s t found)
        (elim (Bool-cases (mentions "duplicate transfer" (message e))) [
          | inl duplicate ↦ rw duplicate (park_again (duplicate_note e))
          | inr single ↦ elim h [
            | inl burned ↦ rw (single, burned) (park_again (burn_note e))
            | inr duplicate ↦ cc
          ]
        ])
