-- ===== src/Api/Later.antt =====
-- services/api/src/server.ts and services/api/src/orchestrator.ts: what may happen after a quote is
-- spent, and that it stays spent.
pub mod Kept
use trans_f.Prelude.{
  ℕ, String, Bool, true, false, Option, none, some, List, [], ◌∷◌, ◌≡◌, refl, ◌≢◌, ◌∙◌, inl, inr,
  eq_iff, str_eq, sym,
}
use mathlib.Core.Path.{subst}
use trans_f.Prelude.Tests.{if◌then◌else◌, Bool-cases}
use trans_f.Prelude.Lists.{find-append}
use trans_f.Exec.{Result, ok, ◌>>=◌}
use trans_f.Exec.Keeps.{Keeps, keeps_rules}
use trans_f.Store.Db
use trans_f.Store.Db.{lookup, patch_found}
use trans_f.Store.Db.Laws.{KeepsId, lookup-update_self, lookup-update_ne}
use trans_f.Store.Users.{User}
use trans_f.Store.Payments.{Rail, Quote, Transfer}
use trans_f.Store.Accounts
use trans_f.Store.Accounts.{find_user, update_user}
use trans_f.Store.Quotes
use trans_f.Store.Quotes.{find_quote, update_quote, consume_quote, consume_found, is_open, close}
use trans_f.Store.Transfers
use trans_f.Store.Transfers.{find_transfer, update_transfer, claim_authorization, claim_found}
use trans_f.Orchestrator.World.{Sys, Action, Config, World, PaymentAuthorization, on_db}
use trans_f.Orchestrator.Steps.{update, write_through, with_txs}
use trans_f.Orchestrator.Lemmas.{stamped}
use trans_f.Orchestrator.Keeps.{IsClosed}
use trans_f.Orchestrator.Keeps.Rails.{execute-Keeps, execute_sepa-Keeps}
use trans_f.Orchestrator.Frame.{Handler, run, run-Keeps}
use trans_f.Api.{Host, require_user_session, require_kyc_approved, touch}
use trans_f.Api.Known.{touch-IsTouched}
use trans_f.Api.Quotes.{post_quotes, create_quote, price, corridor_rates}
use trans_f.Api.Create.{
  Field, TransferRequest, refuse_expired, check_recipient, check_reference, check_funds,
  assert_daily_cap, unblocked, place, post_transfers, store_transfer,
}
use trans_f.Api.Authorize.{
  AuthorizeRequest, authorize, check_request, given_signature, claim, claim_and_run, executable,
  run_rail, is_some,
}
use trans_f.Api.Stands.{IsSteady, ask-Keeps, given-Keeps, session-Keeps, effective-Keeps}

-- The quote is in the store and not open.
pub record IsSpent (id : String) (s : Sys) : Type 0 where
  pub quote : Quote
  pub found : find_quote id s.db ≡ some quote
  pub closed : is_open quote.status ≡ false

-- What a route or a background step may do next, and time passing.
pub data Event : Type 0 where
  ask : Option String → String → Option Rail → ℕ → Event
  create : Option String → TransferRequest → Event
  sign : Option String → String → AuthorizeRequest → Event
  handle : Handler → String → Event
  wait : ℕ → Event

-- The state after an event, whether its handler returned or threw.
unfoldable pub play : Host → World → Config → Event → Sys → Sys
unfolding post_quotes post_transfers authorize run
play h w cfg (ask token uid rail amount) s = (post_quotes h w token uid rail amount s).1
play h w cfg (create token b) s = (post_transfers h w cfg token b s).1
play h w cfg (sign token id b) s = (authorize h w cfg token id b s).1
play h w cfg (handle x id) s = (run cfg w x id s).1
play h w cfg (wait later) s = record s { clock = later }

unfoldable pub play_all : Host → World → Config → List Event → Sys → Sys
unfolding play
play_all h w cfg [] s = s
play_all h w cfg (e ∷ es) s = play_all h w cfg es (play h w cfg e s)

module _ {id : String} where
  pub account-IsSpent :
      (s : Sys) (uid : String) (f : User → User)
      → IsSpent id s
      → IsSpent id (on_db (update_user uid f) s).1
  unfolding on_db Db.update
  account-IsSpent s uid f h = go (find_user uid s.db)
    where
      go :
          (u : Option User)
          → IsSpent id (record s { db = (Db.patch_found Accounts.table u uid f s.db).1 })
      go none = record { quote = h.quote; found = h.found; closed = h.closed }
      go (some u) = record { quote = h.quote; found = h.found; closed = h.closed }

  pub IsSpent-IsSteady : IsSteady (IsSpent id)
  IsSpent-IsSteady = record {
    called = λ s e h. record { quote = h.quote; found = h.found; closed = h.closed };
    account = account-IsSpent;
  }

  transfer-IsSpent :
      (s : Sys) (tid : String) (f : Transfer → Transfer)
      → IsSpent id s
      → IsSpent id (update tid f s).1
  unfolding update on_db update_transfer Db.update
  transfer-IsSpent s tid f h = go (find_transfer tid s.db)
    where
      go :
          (t : Option Transfer)
          → IsSpent id
              (record s { db = (Db.patch_found Transfers.table t tid (stamped f s) s.db).1 })
      go none = record { quote = h.quote; found = h.found; closed = h.closed }
      go (some t) = record { quote = h.quote; found = h.found; closed = h.closed }

  -- No step of a handler opens a quote.
  pub IsSpent-IsClosed : (tid : String) → IsClosed tid (IsSpent id)
  unfolding write_through lookup
  IsSpent-IsClosed tid = record {
    called = IsSpent-IsSteady.called;
    written = λ s txs h. record { quote = h.quote; found = h.found; closed = h.closed };
    updated = λ s f k h. transfer-IsSpent s tid f h;
    noted = λ s ps h. record { quote = h.quote; found = h.found; closed = h.closed };
    account = account-IsSpent;
  }

  -- A quote that is spent stays so whatever becomes of another, and whatever closes it again.
  pub quote-IsSpent :
      (s : Sys) (qid : String) (f : Quote → Quote)
      → KeepsId Quotes.table f
      → ((q : Quote) → is_open (f q).status ≡ false)
      → IsSpent id s
      → IsSpent id (record s { db = (update_quote qid f s.db).1 })
  quote-IsSpent s qid f keeps shut h = elim (Bool-cases (str_eq qid id)) [
    | inl same ↦
        let name : qid ≡ id = (eq_iff qid id).0 same in
        record {
          quote = f h.quote;
          found =
              subst (λ x. find_quote id (update_quote x f s.db).1 ≡ some (f h.quote)) (sym name)
                (lookup-update_self Quotes.table f Quotes.table-IsTable id s.db h.quote keeps
                  h.found);
          closed = shut h.quote;
        }
    | inr other ↦ record {
      quote = h.quote;
      found =
          lookup-update_ne Quotes.table f Quotes.table-IsTable qid id s.db keeps
            (λ e. cc (rw ((eq_iff qid id).1 e) at other))
          ∙ h.found;
      closed = h.closed;
    }
  ]
