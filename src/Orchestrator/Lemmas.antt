-- ===== src/Orchestrator/Lemmas.antt =====
-- What one update of the handler's own transfer does, for the proofs about whole handlers.
use trans_f.Prelude.{String, none, some, [], ◌∷◌, ◌≡◌, refl}
use trans_f.Prelude.Text.{concat}
use trans_f.Exec.{Error, ok, err, plain}
use trans_f.Store.Db
use trans_f.Store.Db.{lookup, patch_found}
use trans_f.Store.Db.Laws.{KeepsId, lookup-update_self}
use trans_f.Store.Payments.{Transfer}
use trans_f.Store.Transfers.{table, table-IsTable, find_transfer, update_transfer}
use trans_f.Orchestrator.World.{Sys, on_db}
use trans_f.Orchestrator.Steps.{update, the_transfer, transfer_or}

-- The record that `updateTransfer` leaves behind.
abbrev pub stamped : (Transfer → Transfer) → Sys → Transfer → Transfer
stamped patch s t = record (patch t) { updated_at = s.clock }

module _ (id : String) (patch : Transfer → Transfer) (s : Sys) where
  pub effects-update : (update id patch s).1.effects ≡ s.effects
  unfolding update on_db
  effects-update = refl

  pub update_lost : find_transfer id s.db ≡ none → (e : Error) × ((update id patch s).0 ≡ err e)
  unfolding update on_db update_transfer Db.update Db.unknown
  update_lost lost =
      (plain (concat ("unknown " ∷ "transfer" ∷ " " ∷ id ∷ [])), rw (lost, patch_found) refl)

  module _ (t : Transfer) (found : find_transfer id s.db ≡ some t) where
    pub update_ok : (update id patch s).0 ≡ ok (stamped patch s t)
    unfolding update on_db update_transfer Db.update
    update_ok = rw (found, patch_found) refl

    pub update_found :
        KeepsId table patch → find_transfer id (update id patch s).1.db ≡ some (stamped patch s t)
    unfolding update on_db update_transfer
    update_found keeps = lookup-update_self table _ table-IsTable id s.db t keeps found

pub the_transfer_ok :
    (id : String) (s : Sys) (t : Transfer)
    → find_transfer id s.db ≡ some t
    → the_transfer id s ≡ (ok t, s)
unfolding the_transfer
the_transfer_ok id s t found = rw (found, transfer_or) refl
