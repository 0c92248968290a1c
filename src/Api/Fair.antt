-- ===== src/Api/Fair.antt =====
-- services/api/src/server.ts: a transfer that POST /api/transfers answers with is what its quote, its
-- caller and its account allow, and its quote is spent.
use trans_f.Prelude.{
  ℕ, String, true, false, not, ◌&&◌, Option, none, some, List, ◌∷◌, ◌+◌, ◌≤◌, ◌≡◌, refl, ◌∙◌, sym,
  ap, inl, inr, arith, eq_iff,
}
use mathlib.Core.Path.{subst}
use trans_f.Prelude.Tests.{leb, Bool-cases}
use trans_f.Prelude.Lists.{length, find-passes}
use trans_f.Prelude.Text.{codes}
use trans_f.Exec.{ok, replied, throw, ◌>>=◌}
use trans_f.Store.Db.{Db, has_id, lookup}
use trans_f.Store.Users.{User}
use trans_f.Store.Payments.{Rail, Quote}
use trans_f.Store.Accounts.{find_user}
use trans_f.Store.Quotes.{table, find_quote, is_open}
use trans_f.Sepa.{remittance_max}
use trans_f.Orchestrator.World.{Action, Config, World, Sys, Effect, other}
use trans_f.Orchestrator.Debit.{safe_debit_blocker}
use trans_f.Orchestrator.Caps.{safe_funded_eur_today, daily_cap_usage}
use trans_f.Deposits.Watch.{kyc_approved}
use trans_f.Api.{Host, require_user_session, require_kyc_approved}
use trans_f.Api.Quotes.{is_expired, daily_cap_eur}
use trans_f.Api.Create.{
  Field, missing, other_value, text, TransferRequest, Created, is_sepa, is_absent, refuse_expired,
  check_recipient, check_reference, unblocked, assert_daily_cap, check_funds, place, post_transfers,
}
use trans_f.Api.Passed.{bind_run, need_run, need_last, given_run, gets_run, call_run, pure_run}
use trans_f.Api.Known.{IsCaller, IsTouched, require_user_session-IsKnown, with_sessions}
use trans_f.Api.Bound.{IsPlaced, place_run}
use trans_f.Api.Drawn.{IsDrawn, IsAsked, placed-IsDrawn, placed-IsAsked}

reply_run :
    {A B : Type 0} (m : Action A) (status : ℕ) (why : String) (s last : Sys) (b : B)
    → (m >>= λ _. throw (replied status why)) s ≡ (ok b, last)
    → ⊥
reply_run m status why s last b run =
    let (a, s₁, _, end) = bind_run m (λ _. throw (replied status why)) run in cc

unexpired_run :
    (q : Quote) (s s₁ : Sys) (a : Unit {0})
    → refuse_expired q s ≡ (ok a, s₁)
    → (is_expired s.clock q ≡ false) × (s ≡ s₁)
unfolding refuse_expired
unexpired_run q s s₁ a run =
    let run₁ = gets_run (λ s. s.clock) _ run in
    elim (Bool-cases (is_expired s.clock q)) [
      | inl late ↦
          absurd (reply_run _ 410 "quote expired, request a new one" s s₁ a (rw late at run₁))
      | inr fine ↦ (fine, (pure_run tt a (rw fine at run₁)).1)
    ]

recipient_run :
    (rail : Rail) (b : TransferRequest) (s s₁ : Sys) (a : Unit {0})
    → check_recipient rail b s ≡ (ok a, s₁)
    → (is_absent b.recipient_name ≡ false) × (s ≡ s₁)
unfolding check_recipient
recipient_run rail b s s₁ a run =
    let (named, run₁) =
      need_run (not (is_absent b.recipient_name)) 400 "recipientName required" _ run in
    let (_, run₂) = need_run (not (is_sepa rail && is_absent b.recipient_iban)) 400 _ _ run₁ in
    let (_, same) = need_last _ 400 "recipientPhone required for cash pickup" a run₂ in
    (ground (arith, named), same)

reference_run :
    (rail : Rail) (r : Field) (s s₁ : Sys) (a : Unit {0})
    → check_reference rail r s ≡ (ok a, s₁)
    → s ≡ s₁
unfolding check_reference
reference_run rail missing s s₁ a run = (pure_run tt a run).1
reference_run rail other_value s s₁ a run = cc
reference_run rail (text r) s s₁ a run =
    let (_, run₁) = need_run (leb (length (codes r)) remittance_max) 400 _ _ run in
    (need_last _ 400 "reference is only carried on the sepa rail" a run₁).1

unblocked_run :
    {B : Type 0} (o : Option String) (f : Unit {0} → Action B) (s s₁ : Sys) (b : B)
    → (unblocked o >>= f) s ≡ (ok b, s₁)
    → (o ≡ none) × (f tt s ≡ (ok b, s₁))
unfolding ◌>>=◌
unblocked_run none f s s₁ b run = (refl, run)
unblocked_run (some why) f s s₁ b run = cc

-- What the account had to show.
pub record IsFunded (cfg : Config) (w : World) (user : User) (q : Quote) (s : Sys) : Type 0 where
  pub approved : kyc_approved user.kyc_status ≡ true
  pub balance : ℕ
  pub read : (h : List Effect) × (w.eure_balance user.address h ≡ ok balance)
  pub enough : q.send_eur ≤ balance
  pub debitable : safe_debit_blocker cfg user ≡ none
  pub within : safe_funded_eur_today user.id s.clock s.db + q.send_eur ≤ daily_cap_eur

funds_run :
    (cfg : Config) (w : World) (user : User) (q : Quote) (s s₁ : Sys) (a : Unit {0})
    → check_funds cfg w user q s ≡ (ok a, s₁)
    → IsFunded cfg w user q s × (record s { effects = other ∷ s.effects } ≡ s₁)
unfolding check_funds require_kyc_approved assert_daily_cap daily_cap_usage
funds_run cfg w user q s s₁ a run =
    let (approved, run₁) = need_run (kyc_approved user.kyc_status) 409 _ _ run in
    let (balance, read, run₂) = call_run (w.eure_balance user.address) (λ _. other) _ run₁ in
    let (enough, run₃) = need_run (leb q.send_eur balance) 400 "insufficient Safe balance" _ run₂ in
    let (free, run₄) = unblocked_run (safe_debit_blocker cfg user) _ _ s₁ a run₃ in
    let run₅ = gets_run (λ s. s.clock) _ run₄ in
    let run₆ = gets_run (λ x. daily_cap_usage daily_cap_eur user s.clock x.db) _ run₅ in
    let (within, last) =
      need_last (leb (safe_funded_eur_today user.id s.clock s.db + q.send_eur) daily_cap_eur) 400
        "amount exceeds the daily cap" a run₆ in
    (
      record {
        approved = approved;
        balance = balance;
        read = (s.effects, read);
        enough = ground (arith, enough);
        debitable = free;
        within = ground (arith, within);
      },
      last,
    )

-- The transfer and its terms are the quote's, asked for by its owner before it expired, on funds and
-- within the day's cap.
pub record IsFair (h : Host) (w : World) (cfg : Config) (token : Option String)
    (b : TransferRequest) (s : Sys) (c : Created) (s' : Sys) : Type 0 where
  pub quote : Quote
  pub found : find_quote b.quote_id s.db ≡ some quote
  pub caller : IsCaller h token quote.user_id s
  pub offered : is_open quote.status ≡ true
  pub unexpired : is_expired s.clock quote ≡ false
  pub user : User
  pub holder : find_user quote.user_id s.db ≡ some user
  pub named : is_absent b.recipient_name ≡ false
  pub funded : IsFunded cfg w user quote s
  pub placed : IsPlaced h w cfg b quote user s c s'
  pub drawn : IsDrawn b quote user s.clock c
  pub asked : IsAsked cfg w b quote user s.clock c

pub found-same_id : (id : String) (q : Quote) (db : Db) → find_quote id db ≡ some q → q.id ≡ id
unfolding lookup
found-same_id id q db found = (eq_iff q.id id).0 (find-passes (has_id table id) db.quotes q found)

module _ (h : Host) (w : World) (cfg : Config) (token : Option String) (b : TransferRequest)
    (c : Created) (s' : Sys) where
  ended :
      (q : Quote) (user : User) (s s₁ s₄ s₅ : Sys)
      → IsTouched s s₁
      → find_quote b.quote_id s.db ≡ some q
      → IsCaller h token q.user_id s
      → is_open q.status ≡ true
      → is_absent b.recipient_name ≡ false
      → s₁ ≡ s₄
      → is_expired s₁.clock q ≡ false
      → find_user q.user_id s₄.db ≡ some user
      → IsFunded cfg w user q s₄
      → record s₄ { effects = other ∷ s₄.effects } ≡ s₅
      → place h w cfg b q user s₅ ≡ (ok c, s')
      → IsFair h w cfg token b s c s'
  unfolding lookup safe_funded_eur_today
  ended q user s s₁ s₄ s₅ touched found caller fresh named same late holder funded last placing =
      let there : s₄ ≡ with_sessions touched.sessions s = sym same ∙ touched.same in
      let place_state : s₅
          ≡ record (with_sessions touched.sessions s) { effects = other ∷ s₄.effects } =
        sym last ∙ ap (λ (x : Sys). record x { effects = other ∷ s₄.effects }) there in
      let funded' : IsFunded cfg w user q (with_sessions touched.sessions s) =
        subst (IsFunded cfg w user q) there funded in
      let placed =
        place_run h w cfg b q user
          (record (with_sessions touched.sessions s) { effects = other ∷ s₄.effects }) c s'
          (ap (λ id. find_quote id s.db) (found-same_id b.quote_id q s.db found) ∙ found) fresh
          (subst (λ x. place h w cfg b q user x ≡ (ok c, s')) place_state placing) in
      record {
        quote = q;
        found = found;
        caller = caller;
        offered = fresh;
        unexpired = subst (λ (x : Sys). is_expired x.clock q ≡ false) touched.same late;
        user = user;
        holder = subst (λ (x : Sys). find_user q.user_id x.db ≡ some user) there holder;
        named = named;
        funded = record {
          approved = funded'.approved;
          balance = funded'.balance;
          read = funded'.read;
          enough = funded'.enough;
          debitable = funded'.debitable;
          within = funded'.within;
        };
        placed = record {
          id = placed.id;
          bound = placed.bound;
          reply = placed.reply;
          stored = placed.stored;
          spent = placed.spent;
        };
        drawn = placed-IsDrawn placed;
        asked = placed-IsAsked placed;
      }

  -- When the route answers with a transfer, the caller held a current session of the quote's owner,
  -- the quote was open and unexpired, the account was approved, its Safe could be debited and held
  -- the amount, and the day's cap was not passed. The transfer has the quote's amounts and rail and
  -- the request's recipient, and is new; its terms and the data to sign move the amount sent from the
  -- account's Safe to the orchestrator for that recipient within fifteen minutes. It was stored last,
  -- and the quote was consumed.
  pub post_transfers-IsFair :
      (s : Sys) → post_transfers h w cfg token b s ≡ (ok c, s') → IsFair h w cfg token b s c s'
  unfolding post_transfers
  post_transfers-IsFair s run =
      let run₁ = gets_run (λ s. find_quote b.quote_id s.db) _ run in
      let (q, found, run₂) = given_run (find_quote b.quote_id s.db) 404 "quote not found" _ run₁ in
      let (x, s₁, known, run₃) = bind_run (require_user_session h token q.user_id) _ run₂ in
      let known = require_user_session-IsKnown h token q.user_id s s₁ x known in
      let (fresh, run₄) = need_run (is_open q.status) 409 _ _ run₃ in
      let (_, s₂, unexpired, run₅) = bind_run (refuse_expired q) _ run₄ in
      let (late, same₂) = unexpired_run q s₁ s₂ _ unexpired in
      let (_, s₃, recipient, run₆) = bind_run (check_recipient q.rail b) _ run₅ in
      let (named, same₃) = recipient_run q.rail b s₂ s₃ _ recipient in
      let (_, s₄, reference, run₇) = bind_run (check_reference q.rail b.reference) _ run₆ in
      let same₄ = reference_run q.rail b.reference s₃ s₄ _ reference in
      let run₈ = gets_run (λ s. find_user q.user_id s.db) _ run₇ in
      let (user, holder, run₉) =
        given_run (find_user q.user_id s₄.db) 500 "no account for this quote" _ run₈ in
      let (_, s₅, funds, placing) = bind_run (check_funds cfg w user q) _ run₉ in
      let (funded, same₅) = funds_run cfg w user q s₄ s₅ _ funds in
      ended q user s s₁ s₄ s₅ known.touched found known.caller fresh named (same₂ ∙ same₃ ∙ same₄)
        late holder funded same₅ placing
