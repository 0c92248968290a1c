-- ===== src/Orchestrator/Outcome.antt =====
-- What a run of a rail returns: always the stored transfer, and never one between debit and payout.
pub mod Runs
use trans_f.Prelude.{
  ℕ, String, Bool, true, false, Option, none, some, List, ◌≡◌, refl, ◌∙◌, sym, ap, inl, inr, ◌⊎◌,
  str_eq, eq_refl,
}
use mathlib.Core.Path.{subst}
use trans_f.Prelude.Tests.{if◌then◌else◌, Bool-cases}
use trans_f.Prelude.Text.{mentions}
use trans_f.Prelude.Lists.{find-modify, find-passes}
use trans_f.Exec.{Exec, Result, ok, err, Error, message, catch, handle, pure, ◌>>=◌}
use trans_f.Exec.Keeps.{Keeps, Holds, Ensures, ensures_rules, Ensures-bind}
use trans_f.Store.Users.{User}
use trans_f.Store.Db
use trans_f.Store.Db.{has_id, lookup}
use trans_f.Store.Db.Laws.{KeepsId}
use trans_f.Store.Payments.{Transfer, TransferState, Tx, Refund}
use trans_f.Store.Transfers.{table, find_transfer, update_transfer}
use trans_f.Store.Accounts.{find_user}
use trans_f.Orchestrator.World.{Sys, Action, Config, World, PaymentAuthorization, on_db}
use trans_f.Orchestrator.Steps.{
  update, the_transfer, transfer_or, write_through, with_txs, is_stranded,
}
use trans_f.Orchestrator.Compensate.{
  as_failed, as_parked, as_refunded, refund_unless, compensate_transfer, fail_and_compensate,
  unwind, give_back, reverse_swap, settle_reversed, return_input, park, is_over, require_user,
  burn_note, duplicate_note,
}
use trans_f.Orchestrator.Execute.{
  run_cash, execute_transfer, cash_payout_state, run_sepa, execute_sepa_transfer, pay_sepa,
  redeem_failed,
}
use trans_f.Orchestrator.Lemmas.{stamped, update_ok, update_lost, update_found, the_transfer_ok}
use trans_f.Orchestrator.Frame.{Stands, account-Stands}
use trans_f.Orchestrator.Keeps.{IsClosed, IsCalm}
use trans_f.Orchestrator.Keeps.Unwind.{compensate-Keeps}
use trans_f.Orchestrator.Keeps.Rails.{run_cash-Keeps, run_sepa-Keeps}

pushed_found :
    (id : String) (txs : List Tx) (s : Sys) (t : Transfer)
    → find_transfer id s.db ≡ some t
    → find_transfer id (write_through id (with_txs txs) s).1.db ≡ some (with_txs txs t)
unfolding write_through lookup
pushed_found id txs s t found =
    find-modify (has_id table id) (with_txs txs) s.db.transfers t found
      (find-passes (has_id table id) s.db.transfers t found)

-- The transfer is in the store.
pub record Exists (id : String) (s : Sys) : Type 0 where
  pub kept : Transfer
  pub found : find_transfer id s.db ≡ some kept

pub Exists-IsClosed : (id : String) → IsClosed id (Exists id)
Exists-IsClosed id = record {
  called = λ s e h. record { kept = h.kept; found = h.found };
  written = λ s txs h. record {
    kept = with_txs txs h.kept;
    found = pushed_found id txs s h.kept h.found;
  };
  updated =
      λ s f k h. record { kept = stamped f s h.kept; found = update_found id f s h.kept h.found k };
  noted = λ s ps h. record { kept = h.kept; found = h.found };
  account = λ s uid f h. record {
    kept = h.kept;
    found = (account-Stands s uid f (record { found = h.found })).found;
  };
}

-- The transfer is in the store, and is not between the debit and the payout.
pub record IsLanded (id : String) (s : Sys) : Type 0 where
  pub kept : Transfer
  pub found : find_transfer id s.db ≡ some kept
  pub landed : is_stranded kept.state ≡ false

pub IsLanded-IsCalm : (id : String) → IsCalm id (IsLanded id)
IsLanded-IsCalm id = record {
  called = λ s e h. record { kept = h.kept; found = h.found; landed = h.landed };
  written = λ s txs h. record {
    kept = with_txs txs h.kept;
    found = pushed_found id txs s h.kept h.found;
    landed = h.landed;
  };
  updated = λ s f k tame h. record {
    kept = stamped f s h.kept;
    found = update_found id f s h.kept h.found k;
    landed = tame h.kept h.landed;
  };
}

-- The returned transfer is the stored one, and its state satisfies `P`.
abbrev pub IsStored : String → (TransferState → Type 0) → Transfer → Sys → Type 0
IsStored id P t s = (find_transfer id s.db ≡ some t) × P t.state

abbrev pub IsAny : TransferState → Type 0
IsAny s = Unit

abbrev pub IsDown : TransferState → Type 0
IsDown s = is_stranded s ≡ false

-- The returned transfer is the stored one, and satisfies `Q`.
abbrev pub IsWith : String → (Transfer → Type 0) → Transfer → Sys → Type 0
IsWith id Q t s = (find_transfer id s.db ≡ some t) × Q t

module _ (id : String) (Q : Transfer → Type 0) where
  pub update-IsWith :
      (f : Transfer → Transfer)
      → KeepsId table f
      → ((s : Sys) (t : Transfer) → Q (stamped f s t))
      → Ensures (IsWith id Q) (update id f)
  update-IsWith f k p = record { at = λ s. go s (find_transfer id s.db) refl }
    where
      lost : (s : Sys) → find_transfer id s.db ≡ none → Holds (IsWith id Q) (update id f s)
      lost s e =
          let (why, raised) = update_lost id f s e in
          subst (λ (r : Result Transfer). Holds (IsWith id Q) (r, (update id f s).1)) (sym raised)
            tt

      go :
          (s : Sys) (o : Option Transfer)
          → find_transfer id s.db ≡ o
          → Holds (IsWith id Q) (update id f s)
      go s none e = lost s e
      go s (some t) e =
          subst (λ (r : Result Transfer). Holds (IsWith id Q) (r, (update id f s).1))
            (sym (update_ok id f s t e)) (update_found id f s t e k, p s t)

pub update-Ensures :
    (id : String) (P : TransferState → Type 0) (f : Transfer → Transfer)
    → KeepsId table f
    → ((t : Transfer) → P (f t).state)
    → Ensures (IsStored id P) (update id f)
update-Ensures id P f k p = update-IsWith id (λ t. P t.state) f k (λ s t. p t)

IsAny-Ensures :
    (id : String) (f : Transfer → Transfer)
    → KeepsId table f
    → Ensures (IsStored id IsAny) (update id f)
IsAny-Ensures id f k = update-Ensures id IsAny f k (λ t. tt)

module _ (cfg : Config) (w : World) (user : User) (id : String) where
  refunded-Ensures :
      (now amount : ℕ) (from why : String)
      → Ensures (IsStored id IsAny) (update id (as_refunded w now amount from why))
  unfolding as_refunded
  refunded-Ensures now amount from why = IsAny-Ensures id _ (λ a. refl)

  park-Ensures : (note : String → String) → Ensures (IsStored id IsAny) (park id note)
  unfolding park
  park-Ensures note = IsAny-Ensures id _ (λ a. refl)

  settle_reversed-Ensures :
      (a b : ℕ) → Ensures (IsStored id IsAny) (settle_reversed cfg w user id a b)
  unfolding settle_reversed
  settle_reversed-Ensures a b = search (ensures_rules, refunded-Ensures) depth 9

  reverse-Ensures : (t : Transfer) → Ensures (IsStored id IsAny) (reverse_swap cfg w user id t)
  unfolding reverse_swap
  reverse-Ensures t = search (ensures_rules, settle_reversed-Ensures) depth 9

  return-Ensures : (n : ℕ) → Ensures (IsStored id IsAny) (return_input cfg w user id n)
  unfolding return_input
  return-Ensures n = search (ensures_rules, refunded-Ensures) depth 9

  give_back-Ensures :
      (t : Transfer) (n : ℕ) → Ensures (IsStored id IsAny) (give_back cfg w user id t n)
  unfolding give_back
  give_back-Ensures t n =
      search (ensures_rules, reverse-Ensures, return-Ensures, park-Ensures) depth 9

  pub unwind-Ensures : (t : Transfer) → Ensures (IsStored id IsAny) (unwind cfg w user id t)
  unfolding unwind
  unwind-Ensures t = search (ensures_rules, give_back-Ensures, IsAny-Ensures) depth 9
