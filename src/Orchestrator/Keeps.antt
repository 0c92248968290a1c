-- ===== src/Orchestrator/Keeps.antt =====
-- What a whole handler keeps: every statement about the system that its single steps keep.
pub mod Unwind
pub mod Rails
pub mod Settle
use trans_f.Prelude.{String, Bool, false, List, ◌∷◌, ◌≡◌}
use trans_f.Exec.{Result, ok, err}
use trans_f.Exec.Keeps.{Keeps, keeps_rules}
use trans_f.Store.Db.Laws.{KeepsId}
use trans_f.Store.Users.{User}
use trans_f.Store.Payments.{Transfer, Tx, Pickup}
use trans_f.Store.Transfers.{table}
use trans_f.Store.Accounts.{update_user}
use trans_f.Orchestrator.World.{Sys, Effect, call, finish, on_db}
use trans_f.Orchestrator.Steps.{the_transfer, update, write_through, with_txs, is_stranded}

-- A patch that brings no transfer between the debit and the payout.
abbrev pub IsTame : (Transfer → Transfer) → Type 0
IsTame f = (t : Transfer) → (is_stranded t.state ≡ false) → is_stranded (f t).state ≡ false

-- The steps of a compensation keep `P`.
pub record IsCalm (id : String) (P : Sys → Type 0) : Type 0 where
  pub called : (s : Sys) (e : Effect) → P s → P (record s { effects = e ∷ s.effects })
  pub written : (s : Sys) (txs : List Tx) → P s → P (write_through id (with_txs txs) s).1
  pub updated :
      (s : Sys) (f : Transfer → Transfer) → KeepsId table f → IsTame f → P s → P (update id f s).1

-- The steps of every handler of transfer `id` keep `P`.
pub record IsClosed (id : String) (P : Sys → Type 0) : Type 0 where
  pub called : (s : Sys) (e : Effect) → P s → P (record s { effects = e ∷ s.effects })
  pub written : (s : Sys) (txs : List Tx) → P s → P (write_through id (with_txs txs) s).1
  pub updated : (s : Sys) (f : Transfer → Transfer) → KeepsId table f → P s → P (update id f s).1
  pub noted : (s : Sys) (ps : List (String × Pickup)) → P s → P (record s { pickups = ps })
  pub account : (s : Sys) (uid : String) (f : User → User) → P s → P (on_db (update_user uid f) s).1

pub IsClosed-IsCalm : {id : String} {P : Sys → Type 0} → IsClosed id P → IsCalm id P
IsClosed-IsCalm c = record {
  called = c.called;
  written = c.written;
  updated = λ s f k tame. c.updated s f k;
}

module _ {id : String} {P : Sys → Type 0} {A : Type 0} (c : IsCalm id P) where
  finish-Keeps : (r : Result A) (note : A → Effect) → Keeps P (finish r note)
  unfolding finish
  finish-Keeps (ok a) note = record { at = λ s h. c.called s (note a) h }
  finish-Keeps (err e) note = record { at = λ s h. c.called s Effect.thrown h }

  pub call-Keeps : (f : List Effect → Result A) (note : A → Effect) → Keeps P (call f note)
  unfolding call
  call-Keeps f note = record { at = λ s h. (finish-Keeps (f s.effects) note).at s h }

pub the_transfer-Keeps : {P : Sys → Type 0} (id : String) → Keeps P (the_transfer id)
unfolding the_transfer
the_transfer-Keeps id = record { at = λ s h. h }

module _ {P : Sys → Type 0} (id : String) (c : IsCalm id P) where
  pub push-Keeps : (txs : List Tx) → Keeps P (write_through id (with_txs txs))
  push-Keeps txs = record { at = λ s h. c.written s txs h }

  pub tame-Keeps : (f : Transfer → Transfer) → KeepsId table f → IsTame f → Keeps P (update id f)
  tame-Keeps f k t = record { at = λ s h. c.updated s f k t h }

module _ {P : Sys → Type 0} (id : String) (c : IsClosed id P) where
  pub update-Keeps : (f : Transfer → Transfer) → KeepsId table f → Keeps P (update id f)
  update-Keeps f k = record { at = λ s h. c.updated s f k h }

  pub push_closed-Keeps : (txs : List Tx) → Keeps P (write_through id (with_txs txs))
  push_closed-Keeps = push-Keeps id (IsClosed-IsCalm c)

  pub account-Keeps : (uid : String) (f : User → User) → Keeps P (on_db (update_user uid f))
  account-Keeps uid f = record { at = λ s h. c.account s uid f h }

pub call_closed-Keeps :
    {id : String} {P : Sys → Type 0} {A : Type 0}
    → IsClosed id P
    → (f : List Effect → Result A) (note : A → Effect) → Keeps P (call f note)
call_closed-Keeps c = call-Keeps (IsClosed-IsCalm c)

pub ruleset calm_rules = (keeps_rules, call-Keeps, the_transfer-Keeps, push-Keeps, tame-Keeps)

pub ruleset handler_rules =
    (keeps_rules, call_closed-Keeps, the_transfer-Keeps, push_closed-Keeps, update-Keeps)
