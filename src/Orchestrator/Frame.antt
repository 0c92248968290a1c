-- ===== src/Orchestrator/Frame.antt =====
-- A handler leaves every transfer but its own as it was, and the sweep those at rest.
use trans_f.Prelude.{
  ℕ, String, false, Option, none, some, List, [], ◌∷◌, ◌≡◌, refl, ◌≢◌, ◌∙◌, inl, inr, eq_iff,
  str_eq,
}
use trans_f.Prelude.Tests.{Bool-cases}
use trans_f.Exec.{◌>>=◌}
use trans_f.Exec.Keeps.{Keeps, keeps_rules, Keeps-bind, Keeps-gets}
use trans_f.Store.Db
use trans_f.Store.Db.{lookup}
use trans_f.Store.Db.Laws.{lookup-update_ne, find-modify_ne}
use trans_f.Store.Payments.{Transfer, TransferState, Refund, failed, debited, swapped, bridged}
use trans_f.Store.Transfers.{table, table-IsTable, find_transfer, update_transfer}
use trans_f.Store.Accounts
use trans_f.Store.Accounts.{find_user, update_user}
use trans_f.Store.Users.{User}
use trans_f.Orchestrator.World.{Sys, Action, Config, World, PaymentAuthorization, on_db}
use trans_f.Orchestrator.Steps.{
  the_transfer, transfer_or, update, write_through, with_txs, is_stranded,
}
use trans_f.Orchestrator.Compensate.{compensate_transfer}
use trans_f.Orchestrator.Execute.{execute_transfer, execute_sepa_transfer}
use trans_f.Orchestrator.Settle.{
  settle_pickup, refresh_payout, sweep_one, sweep_ids, sweep_stranded_transfers, is_unrefunded,
}
use trans_f.Orchestrator.Keeps.{IsClosed, IsClosed-IsCalm}
use trans_f.Orchestrator.Keeps.Unwind.{compensate-Keeps}
use trans_f.Orchestrator.Keeps.Rails.{execute-Keeps, execute_sepa-Keeps}
use trans_f.Orchestrator.Keeps.Settle.{settle-Keeps, refresh-Keeps, sweep_one-Keeps}

-- The transfer `j` is stored as `o` says.
pub record Stands (j : String) (o : Option Transfer) (s : Sys) : Type 0 where
  pub found : find_transfer j s.db ≡ o

pub account-Stands :
    {j : String} {o : Option Transfer} (s : Sys) (uid : String) (f : User → User)
    → Stands j o s
    → Stands j o (on_db (update_user uid f) s).1
unfolding on_db Db.update
account-Stands {j} {o} s uid f h = go (find_user uid s.db)
  where
    go :
        (u : Option User)
        → Stands j o (record s { db = (Db.patch_found Accounts.table u uid f s.db).1 })
    go none = record { found = h.found }
    go (some u) = record { found = h.found }

pub Stands-IsClosed : (id j : String) (o : Option Transfer) → id ≢ j → IsClosed id (Stands j o)
unfolding update on_db update_transfer write_through lookup
Stands-IsClosed id j o ne = record {
  called = λ s e h. record { found = h.found };
  noted = λ s ps h. record { found = h.found };
  account = account-Stands;
  updated =
      λ s f k h. record { found = lookup-update_ne table _ table-IsTable id j s.db k ne ∙ h.found };
  written = λ s txs h. record {
    found = find-modify_ne table (with_txs txs) id j s.db.transfers (λ a. refl) ne ∙ h.found;
  };
}

-- The handlers of the routes and pollers that work on one transfer.
pub data Handler : Type 0 where
  pay_cash pay_sepa : User → PaymentAuthorization → Handler
  compensate settle refresh : Handler

unfoldable pub run : Config → World → Handler → String → Action Transfer
run cfg w (pay_cash user auth) id = execute_transfer cfg w user id auth
run cfg w (pay_sepa user auth) id = execute_sepa_transfer cfg w user id auth
run cfg w compensate id = compensate_transfer cfg w id
run cfg w settle id = settle_pickup w id
run cfg w refresh id = refresh_payout cfg w id

-- Every handler keeps what its single steps keep.
pub run-Keeps :
    {P : Sys → Type 0} (cfg : Config) (w : World) (h : Handler) (id : String)
    → IsClosed id P
    → Keeps P (run cfg w h id)
unfolding run
run-Keeps cfg w (pay_cash user auth) id c = execute-Keeps cfg w user id c auth
run-Keeps cfg w (pay_sepa user auth) id c = execute_sepa-Keeps cfg w user id c auth
run-Keeps cfg w compensate id c = compensate-Keeps cfg w id (IsClosed-IsCalm c)
run-Keeps cfg w settle id c = settle-Keeps cfg w id c
run-Keeps cfg w refresh id c = refresh-Keeps cfg w id c

unfoldable pub run_all : Config → World → List (String × Handler) → Sys → Sys
run_all cfg w [] s = s
run_all cfg w ((id, h) ∷ rest) s = run_all cfg w rest (run cfg w h id s).1

abbrev pub NoneOf : String → List (String × Handler) → Type 0
NoneOf j [] = Unit
NoneOf j ((id, h) ∷ rest) = (id ≢ j) × NoneOf j rest

run_all-Stands :
    (cfg : Config) (w : World) (j : String) (o : Option Transfer) (hs : List (String × Handler))
    (s : Sys)
    → NoneOf j hs
    → Stands j o s
    → Stands j o (run_all cfg w hs s)
unfolding run_all
run_all-Stands cfg w j o [] s apart h = h
run_all-Stands cfg w j o ((id, x) ∷ rest) s (ne, apart) h =
    run_all-Stands cfg w j o rest _ apart
      ((run-Keeps cfg w x id (Stands-IsClosed id j o ne)).at s h)

-- Whatever handlers run on other transfers, and whatever the outside answers, the stored record of
-- a transfer, or its absence, stays.
pub find-run_all :
    (cfg : Config) (w : World) (j : String) (hs : List (String × Handler)) (s : Sys)
    → NoneOf j hs
    → find_transfer j (run_all cfg w hs s).db ≡ find_transfer j s.db
find-run_all cfg w j hs s apart =
    (run_all-Stands cfg w j _ hs s apart (record { found = refl })).found

-- A transfer that neither failed nor is between the debit and the payout.
abbrev pub IsAtRest : TransferState → Type 0
IsAtRest failed = ⊥
IsAtRest debited = ⊥
IsAtRest swapped = ⊥
IsAtRest bridged = ⊥
IsAtRest _ = Unit

rest-not_stranded : (s : TransferState) → IsAtRest s → is_stranded s ≡ false
rest-not_stranded failed h = absurd h
rest-not_stranded debited h = absurd h
rest-not_stranded swapped h = absurd h
rest-not_stranded bridged h = absurd h
rest-not_stranded _ h = refl

rest-not_failed : (s : TransferState) (r : Option Refund) → IsAtRest s → is_unrefunded s r ≡ false
rest-not_failed failed r h = absurd h
rest-not_failed debited r h = refl
rest-not_failed _ r h = refl

module _ {j : String} {t : Transfer} (cfg : Config) (w : World) (rest : IsAtRest t.state) where
  -- A round on the transfer itself changes nothing.
  sweep_self-Keeps : Keeps (Stands j (some t)) (sweep_one cfg w j)
  unfolding sweep_one the_transfer ◌>>=◌
  sweep_self-Keeps = record {
    at = λ s h.
        rw (h.found, transfer_or)
          (rw (rest-not_failed t.state t.refund rest, rest-not_stranded t.state rest) h);
  }

  round-Keeps : (id : String) → Keeps (Stands j (some t)) (sweep_one cfg w id)
  round-Keeps id = elim (Bool-cases (str_eq id j)) [
    | inl e ↦ rw ((eq_iff id j).0 e) sweep_self-Keeps
    | inr n ↦
        sweep_one-Keeps cfg w id (Stands-IsClosed id j (some t) (λ e. cc ((eq_iff id j).1 e, n)))
  ]

  sweep-Keeps : (ids : List String) (n : ℕ) → Keeps (Stands j (some t)) (sweep_ids cfg w n ids)
  unfolding sweep_ids
  sweep-Keeps [] n = search keeps_rules
  sweep-Keeps (id ∷ ids) n =
      Keeps-bind _ _ (search (keeps_rules, round-Keeps)) λ done. sweep-Keeps ids _

-- The recovery sweep, whatever the outside answers, leaves every transfer as it was whose state is
-- neither FAILED nor DEBITED, SWAPPED or BRIDGED.
pub sweep-leaves :
    (cfg : Config) (w : World) (j : String) (t : Transfer) (s : Sys)
    → find_transfer j s.db ≡ some t
    → IsAtRest t.state
    → find_transfer j (sweep_stranded_transfers cfg w s).1.db ≡ some t
unfolding sweep_stranded_transfers
sweep-leaves cfg w j t s found rest =
    let keeps : Keeps (Stands j (some t)) (sweep_stranded_transfers cfg w) =
      Keeps-bind _ _ (Keeps-gets _) (λ ids. sweep-Keeps cfg w rest ids 0) in
    (keeps.at s (record { found = found })).found
