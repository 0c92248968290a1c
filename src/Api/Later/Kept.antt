-- ===== src/Api/Later/Kept.antt =====
-- services/api/src/server.ts: no route and no handler makes a spent quote open.
use trans_f.Prelude.{ℕ, String, Option, none, some, List, [], ◌∷◌, refl, ◌∙◌, ap, inl, inr}
use trans_f.Prelude.Tests.{Bool-cases}
use trans_f.Prelude.Lists.{find-append}
use trans_f.Exec.Keeps.{Keeps, keeps_rules}
use trans_f.Store.Db
use trans_f.Store.Db.{lookup, push, has_id}
use trans_f.Store.Users.{User}
use trans_f.Store.Payments.{Rail, cash, sepa, Quote, QuoteStatus, Transfer, Terms, RedeemApproval}
use trans_f.Store.Quotes
use trans_f.Store.Quotes.{
  find_quote, update_quote, add_quote, consume_quote, consume_found, is_open, close,
}
use trans_f.Store.Transfers.{find_transfer, claim_authorization, claim_found, awaits}
use trans_f.Orchestrator.World.{Sys, Config, World, PaymentAuthorization, on_db}
use trans_f.Orchestrator.Keeps.{the_transfer-Keeps, update-Keeps}
use trans_f.Orchestrator.Keeps.Rails.{execute-Keeps, execute_sepa-Keeps}
use trans_f.Orchestrator.Frame.{run-Keeps}
use trans_f.Api.{Host, require_user_session, require_kyc_approved, touch}
use trans_f.Api.Known.{touch-IsTouched}
use trans_f.Api.Quotes.{add, post_quotes, create_quote, price, corridor_rates}
use trans_f.Api.Create.{
  Field, missing, other_value, text, TransferRequest, refuse_expired, check_recipient,
  check_reference, check_funds, assert_daily_cap, unblocked, place, post_transfers, store_transfer,
}
use trans_f.Api.Authorize.{
  AuthorizeRequest, authorize, check_request, given_signature, claim, claim_and_run, executable,
  run_rail,
}
use trans_f.Api.Stands.{ask-Keeps, given-Keeps, session-Keeps, effective-Keeps}
use trans_f.Api.Later.{
  IsSpent, Event, ask, create, sign, handle, wait, play, play_all, IsSpent-IsSteady,
  IsSpent-IsClosed, quote-IsSpent,
}

module _ {id : String} where
  touch-IsSpent : (sid : String) → Keeps (IsSpent id) (touch sid)
  unfolding lookup
  touch-IsSpent sid = record {
    at = λ s h.
        let touched = touch-IsTouched sid s in
        record {
          quote = h.quote;
          found = ap (λ (x : Sys). find_quote id x.db) touched.same ∙ h.found;
          closed = h.closed;
        };
  }

  session-IsSpent :
      (h : Host) (token : Option String) (uid : String)
      → Keeps (IsSpent id) (require_user_session h token uid)
  session-IsSpent = session-Keeps touch-IsSpent

  add-IsSpent : (q : Quote) → Keeps (IsSpent id) (add q)
  unfolding lookup push
  add-IsSpent q = record {
    at = λ s h. record {
      quote = h.quote;
      found = find-append (has_id Quotes.table id) s.db.quotes (q ∷ []) h.quote h.found;
      closed = h.closed;
    };
  }

  rates-IsSpent : (h : Host) (w : World) → Keeps (IsSpent id) (corridor_rates h w)
  unfolding corridor_rates
  rates-IsSpent h w = search (keeps_rules, ask-Keeps IsSpent-IsSteady) depth 14

  price-IsSpent : (h : Host) (w : World) (r : Rail) (q : Quote) → Keeps (IsSpent id) (price h w r q)
  unfolding price
  price-IsSpent h w sepa q = search keeps_rules depth 6
  price-IsSpent h w cash q = search (keeps_rules, rates-IsSpent) depth 8

  create-IsSpent :
      (h : Host) (w : World) (uid : String) (rail : Rail) (send : ℕ)
      → Keeps (IsSpent id) (create_quote h w uid rail send)
  unfolding create_quote
  create-IsSpent h w uid rail send =
      search (keeps_rules, ask-Keeps IsSpent-IsSteady, price-IsSpent, add-IsSpent) depth 14

  ask-IsSpent :
      (h : Host) (w : World) (token : Option String) (uid : String) (rail : Option Rail) (send : ℕ)
      → Keeps (IsSpent id) (post_quotes h w token uid rail send)
  unfolding post_quotes require_kyc_approved
  ask-IsSpent h w token uid rail send =
      search (keeps_rules, given-Keeps, session-IsSpent, create-IsSpent) depth 20

  mark-IsSpent :
      (qid : String)
      → Keeps
          (IsSpent id)
          (on_db (update_quote qid (λ q. record q { status = QuoteStatus.expired })))
  unfolding on_db
  mark-IsSpent qid = record { at = λ s h. quote-IsSpent s qid _ (λ a. refl) (λ q. refl) h }

  expire-IsSpent : (q : Quote) → Keeps (IsSpent id) (refuse_expired q)
  unfolding refuse_expired
  expire-IsSpent q = search (keeps_rules, mark-IsSpent) depth 10

  consume-IsSpent : (qid : String) → Keeps (IsSpent id) (on_db (consume_quote qid))
  unfolding on_db consume_quote consume_found Db.unknown
  consume-IsSpent qid = record { at = λ s h. go s (find_quote qid s.db) h }
    where
      go :
          (s : Sys) (o : Option Quote)
          → IsSpent id s
          → IsSpent id (record s { db = (consume_found qid o s.db).1 })
      go s none h = record { quote = h.quote; found = h.found; closed = h.closed }
      go s (some q) h = elim (Bool-cases (is_open q.status)) [
        | inl fresh ↦ rw fresh (quote-IsSpent s qid close (λ a. refl) (λ q. refl) h)
        | inr done ↦ rw done (record { quote = h.quote; found = h.found; closed = h.closed })
      ]

  store-IsSpent : (t : Transfer) → Keeps (IsSpent id) (store_transfer t)
  unfolding lookup push
  store-IsSpent t = record {
    at = λ s h. record { quote = h.quote; found = h.found; closed = h.closed };
  }

  recipient-IsSpent :
      (rail : Rail) (b : TransferRequest) → Keeps (IsSpent id) (check_recipient rail b)
  unfolding check_recipient
  recipient-IsSpent rail b = search keeps_rules depth 10

  reference-IsSpent : (rail : Rail) (r : Field) → Keeps (IsSpent id) (check_reference rail r)
  unfolding check_reference
  reference-IsSpent rail missing = search keeps_rules depth 4
  reference-IsSpent rail other_value = search keeps_rules depth 4
  reference-IsSpent rail (text r) = search keeps_rules depth 8

  unblocked-IsSpent : (o : Option String) → Keeps (IsSpent id) (unblocked o)
  unblocked-IsSpent none = search keeps_rules depth 4
  unblocked-IsSpent (some why) = search keeps_rules depth 4

  funds-IsSpent :
      (cfg : Config) (w : World) (user : User) (q : Quote)
      → Keeps (IsSpent id) (check_funds cfg w user q)
  unfolding check_funds assert_daily_cap require_kyc_approved
  funds-IsSpent cfg w user q =
      search (keeps_rules, ask-Keeps IsSpent-IsSteady, unblocked-IsSpent) depth 16

  place-IsSpent :
      (h : Host) (w : World) (cfg : Config) (b : TransferRequest) (q : Quote) (user : User)
      → Keeps (IsSpent id) (place h w cfg b q user)
  unfolding place
  place-IsSpent h w cfg b q user =
      search (keeps_rules, ask-Keeps IsSpent-IsSteady, given-Keeps, consume-IsSpent, store-IsSpent)
        depth 20

  post-IsSpent :
      (h : Host) (w : World) (cfg : Config) (token : Option String) (b : TransferRequest)
      → Keeps (IsSpent id) (post_transfers h w cfg token b)
  unfolding post_transfers
  post-IsSpent h w cfg token b =
      search
        (
          keeps_rules, given-Keeps, session-IsSpent, expire-IsSpent, recipient-IsSpent,
          reference-IsSpent, funds-IsSpent, place-IsSpent,
        )
        depth 30

  signature-IsSpent :
      (r : Option RedeemApproval) (x : Field) → Keeps (IsSpent id) (given_signature r x)
  unfolding given_signature
  signature-IsSpent r missing = search keeps_rules depth 4
  signature-IsSpent none other_value = search keeps_rules depth 4
  signature-IsSpent none (text y) = search keeps_rules depth 4
  signature-IsSpent (some a) other_value = search keeps_rules depth 6
  signature-IsSpent (some a) (text y) = search (keeps_rules, given-Keeps) depth 6

  request-IsSpent :
      (h : Host) (t : Transfer) (terms : Terms) (b : AuthorizeRequest)
      → Keeps (IsSpent id) (check_request h t terms b)
  unfolding check_request require_kyc_approved
  request-IsSpent h t terms b =
      search (keeps_rules, given-Keeps, signature-IsSpent, effective-Keeps IsSpent-IsSteady) depth
        24

  claim-IsSpent : (tid : String) → Keeps (IsSpent id) (claim tid)
  unfolding claim_authorization claim_found lookup
  claim-IsSpent tid = record { at = λ s h. go s (find_transfer tid s.db) h }
    where
      go :
          (s : Sys) (o : Option Transfer)
          → IsSpent id s
          → IsSpent id (record s { db = (claim_found s.clock tid o s.db).1 })
      go s none h = record { quote = h.quote; found = h.found; closed = h.closed }
      go s (some t) h = elim (Bool-cases (awaits t.state t.auth)) [
        | inl waits ↦ rw waits (record { quote = h.quote; found = h.found; closed = h.closed })
        | inr done ↦ rw done (record { quote = h.quote; found = h.found; closed = h.closed })
      ]

  executable-IsSpent :
      (tid : String) (r : Option RedeemApproval) (o : Option String)
      → Keeps (IsSpent id) (executable tid r o)
  unfolding executable
  executable-IsSpent tid none o = the_transfer-Keeps tid
  executable-IsSpent tid (some r) none = the_transfer-Keeps tid
  executable-IsSpent tid (some r) (some signature) =
      search
        (
          keeps_rules,
          λ (f : Transfer → Transfer). update-Keeps tid (IsSpent-IsClosed {id = id} tid) f,
        )
        depth 8

  rail-IsSpent :
      (cfg : Config) (w : World) (rail : Rail) (user : User) (tid : String)
      (auth : PaymentAuthorization)
      → Keeps (IsSpent id) (run_rail cfg w rail user tid auth)
  unfolding run_rail
  rail-IsSpent cfg w sepa user tid auth =
      execute_sepa-Keeps cfg w user tid (IsSpent-IsClosed tid) auth
  rail-IsSpent cfg w cash user tid auth = execute-Keeps cfg w user tid (IsSpent-IsClosed tid) auth

  sign-IsSpent :
      (h : Host) (w : World) (cfg : Config) (token : Option String) (tid : String)
      (b : AuthorizeRequest)
      → Keeps (IsSpent id) (authorize h w cfg token tid b)
  unfolding authorize claim_and_run
  sign-IsSpent h w cfg token tid b =
      search
        (
          keeps_rules, given-Keeps, session-IsSpent, request-IsSpent, claim-IsSpent,
          executable-IsSpent, rail-IsSpent,
        )
        depth 30

  play-IsSpent :
      (h : Host) (w : World) (cfg : Config) (e : Event) (s : Sys)
      → IsSpent id s
      → IsSpent id (play h w cfg e s)
  unfolding play
  play-IsSpent h w cfg (ask token uid rail send) s = (ask-IsSpent h w token uid rail send).at s
  play-IsSpent h w cfg (create token b) s = (post-IsSpent h w cfg token b).at s
  play-IsSpent h w cfg (sign token tid b) s = (sign-IsSpent h w cfg token tid b).at s
  play-IsSpent h w cfg (handle x tid) s = (run-Keeps cfg w x tid (IsSpent-IsClosed tid)).at s
  play-IsSpent h w cfg (wait later) s =
      λ k. record { quote = k.quote; found = k.found; closed = k.closed }

  -- Whatever happens next, a spent quote stays spent.
  pub play_all-IsSpent :
      (h : Host) (w : World) (cfg : Config) (es : List Event) (s : Sys)
      → IsSpent id s
      → IsSpent id (play_all h w cfg es s)
  unfolding play_all
  play_all-IsSpent h w cfg [] s k = k
  play_all-IsSpent h w cfg (e ∷ es) s k =
      play_all-IsSpent h w cfg es (play h w cfg e s) (play-IsSpent h w cfg e s k)
