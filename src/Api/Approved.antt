-- ===== src/Api/Approved.antt =====
-- services/api/src/server.ts: what POST /api/transfers/:id/authorize has made sure of when it answers
-- with a transfer.
use trans_f.Prelude.{
  ℕ, String, true, false, not, ◌&&◌, Option, none, some, List, ◌*◌, ◌≤◌, ◌≡◌, refl, ◌∙◌, sym, ap,
  inl, inr, arith, eq_iff,
}
use mathlib.Core.Path.{subst}
use trans_f.Prelude.Tests.{leb, Bool-cases}
use trans_f.Prelude.Lists.{find, find-passes}
use trans_f.Exec.{Result, ok}
use trans_f.Exec.Keeps.{Keeps}
use trans_f.Store.Db.{Db, has_id, lookup}
use trans_f.Store.Users.{User}
use trans_f.Store.Payments.{Transfer, Terms, RedeemApproval}
use trans_f.Store.Accounts.{find_user}
use trans_f.Store.Transfers.{
  table, find_transfer, is_created, awaits, claim_authorization, claim_found,
}
use trans_f.Store.Records.{Session}
use trans_f.Orchestrator.World.{Action, Config, World, Sys}
use trans_f.Deposits.Watch.{kyc_approved}
use trans_f.Api.{Host, require_user_session, require_kyc_approved}
use trans_f.Api.Create.{Field, missing, other_value, text, is_sepa}
use trans_f.Api.Authorize.{
  AuthorizeRequest, signature_of, given_signature, effective_signature, claim, claim_and_run,
  check_request, authorize, executable, run_rail, payment, is_some,
}
use trans_f.Api.Passed.{bind_run, need_run, given_run, gets_run, pure_run}
use trans_f.Api.Known.{IsCaller, require_user_session-IsKnown, with_sessions}
use trans_f.Api.Stands.{Stands, Stands-IsSteady, effective-Keeps}

-- A state that an action which keeps a statement ends in.
kept_at :
    {A : Type 0} {P : Sys → Type 0} (m : Action A) (s s₁ : Sys) (r : Result A)
    → Keeps P m
    → P s
    → m s ≡ (r, s₁)
    → P s₁
kept_at {P} m s s₁ r k p run = let last : (m s).1 ≡ s₁ = (cc) in subst P last (k.at s p)

given_signature_run :
    (terms : Option RedeemApproval) (x : Field) (s s₁ : Sys) (o : Option String)
    → given_signature terms x s ≡ (ok o, s₁)
    → s ≡ s₁
unfolding given_signature
given_signature_run terms missing s s₁ o run = (pure_run none o run).1
given_signature_run none other_value s s₁ o run = cc
given_signature_run none (text x) s s₁ o run = cc
given_signature_run (some r) other_value s s₁ o run =
    let (x, _, end) = given_run (signature_of other_value) 400 _ _ run in
    (pure_run (some x) o end).1
given_signature_run (some r) (text y) s s₁ o run =
    let (x, _, end) = given_run (signature_of (text y)) 400 _ _ run in (pure_run (some x) o end).1

-- What the request and the account had to show, and the approval that the rail will use.
pub record IsChecked (t : Transfer) (terms : Terms) (b : AuthorizeRequest) (s : Sys)
    (signature : String) (approval : Option String) : Type 0 where
  pub sent : signature_of b.signature ≡ some signature
  pub in_time : s.clock ≤ terms.deadline * 1000
  pub holder : User
  pub found : find_user t.user_id s.db ≡ some holder
  pub kyc : kyc_approved holder.kyc_status ≡ true
  pub redeemable : is_sepa t.rail && is_some t.monerium_redeem && not (is_some approval) ≡ false

check-IsChecked :
    (h : Host) (t : Transfer) (terms : Terms) (b : AuthorizeRequest) (s s₁ : Sys) (user : User)
    (signature : String) (approval : Option String)
    → check_request h t terms b s ≡ (ok (user, signature, approval), s₁)
    → IsChecked t terms b s signature approval × Stands s.db.transfers s.clock s₁
unfolding check_request require_kyc_approved
check-IsChecked h t terms b s s₁ user signature approval run =
    let (x, sent, run₁) = given_run (signature_of b.signature) 400 "signature required" _ run in
    let run₂ = gets_run (λ s. s.clock) _ run₁ in
    let (in_time, run₃) = need_run (leb s.clock (terms.deadline * 1000)) 410 _ _ run₂ in
    let (direct, s₂, first, run₄) =
      bind_run (given_signature t.monerium_redeem b.redeem_signature) _ run₃ in
    let same = given_signature_run t.monerium_redeem b.redeem_signature s s₂ direct first in
    let run₅ = gets_run (λ s. find_user t.user_id s.db) _ run₄ in
    let (holder, found, run₆) = given_run (find_user t.user_id s₂.db) 500 _ _ run₅ in
    let (kyc, run₇) = need_run (kyc_approved holder.kyc_status) 409 _ _ run₆ in
    let (out, s₃, effective, run₈) =
      bind_run (effective_signature h holder t.monerium_redeem direct b.redeem_assertion) _ run₇ in
    let (redeemable, run₉) =
      need_run (not (is_sepa t.rail && is_some t.monerium_redeem && not (is_some out.1))) 400 _ _
        run₈ in
    let (value, last) = pure_run (out.0, x, out.1) (user, signature, approval) run₉ in
    let stands : Stands s.db.transfers s.clock s₂ =
      subst (Stands s.db.transfers s.clock) same (record { transfers = refl; clock = refl }) in
    (
      record {
        sent = sent ∙ ap (λ (v : User × String × Option String). some v.1) value;
        in_time = ground (arith, in_time);
        holder = holder;
        found = subst (λ (x : Sys). find_user t.user_id x.db ≡ some holder) (sym same) found;
        kyc = kyc;
        redeemable =
            subst
              (λ (o : Option String).
                is_sepa t.rail && is_some t.monerium_redeem && not (is_some o) ≡ false)
              (ap (λ (v : User × String × Option String). v.2) value) (ground (arith, redeemable));
      },
      subst (Stands s.db.transfers s.clock) last (
          kept_at (effective_signature h holder t.monerium_redeem direct b.redeem_assertion) s₂ s₃
            (ok out)
            (effective-Keeps (Stands-IsSteady s.db.transfers s.clock) h holder t.monerium_redeem
              direct b.redeem_assertion)
            stands effective),
    )

-- From a state with the same transfers, the transfer was claimed, given the approval and run.
pub record IsRun (cfg : Config) (w : World) (t : Transfer) (terms : Terms) (signature : String)
    (approval : Option String) (ts : List Transfer) (r : Transfer) (s' : Sys) : Type 0 where
  pub payer : User
  pub before : Sys
  pub transfers : before.db.transfers ≡ ts
  pub claimed : (claim t.id before).0 ≡ ok true
  pub ready : Transfer
  pub begun : Sys
  pub prepared :
      executable t.id t.monerium_redeem approval (claim t.id before).1 ≡ (ok ready, begun)
  pub ran : run_rail cfg w ready.rail payer ready.id (payment terms signature) begun ≡ (ok r, s')

-- The claim is won only by a transfer that waits for it.
claim_won :
    (id : String) (now : ℕ) (t : Transfer) (db : Db)
    → find_transfer id db ≡ some t
    → (claim_authorization now id db).0 ≡ true
    → awaits t.state t.auth ≡ true
unfolding claim_authorization claim_found
claim_won id now t db found won = elim (Bool-cases (awaits t.state t.auth)) [
  | inl waits ↦ waits
  | inr done ↦ cc (rw (found, done) at won)
]

awaits_unclaimed :
    (terms : Terms) (t : Transfer)
    → t.auth ≡ some terms
    → awaits t.state t.auth ≡ true
    → terms.authorized_at ≡ none
awaits_unclaimed terms t set waits = go terms.authorized_at refl
  where
    go : (o : Option ℕ) → terms.authorized_at ≡ o → terms.authorized_at ≡ none
    go none e = e
    go (some at) e = cc (rw (set, e) at waits)

claim_run :
    (cfg : Config) (w : World) (t : Transfer) (terms : Terms) (user : User) (signature : String)
    (approval : Option String) (s s' : Sys) (r : Transfer)
    → claim_and_run cfg w t user approval (payment terms signature) s ≡ (ok r, s')
    → ((claim_authorization s.clock t.id s.db).0 ≡ true)
      × IsRun cfg w t terms signature approval s.db.transfers r s'
unfolding claim_and_run
claim_run cfg w t terms user signature approval s s' r run =
    let (won, s₁, claimed, run₁) = bind_run (claim t.id) _ run in
    let (first, run₂) =
      need_run won 409 "authorization already submitted for this transfer" _ run₁ in
    let (ready, s₂, made, ran) = bind_run (executable t.id t.monerium_redeem approval) _ run₂ in
    let same : (claim_authorization s.clock t.id s.db).0 ≡ won = cc in
    let last : s₁ ≡ (claim t.id s).1 = cc in
    let made' : executable t.id t.monerium_redeem approval (claim t.id s).1 ≡ (ok ready, s₂) =
      subst (λ (x : Sys). executable t.id t.monerium_redeem approval x ≡ (ok ready, s₂)) last
        made in
    (
      same ∙ first,
      record {
        payer = user;
        before = s;
        transfers = refl;
        claimed = ap ok (same ∙ first);
        ready = ready;
        begun = s₂;
        prepared = made';
        ran = ran;
      },
    )

-- Everything that the route had made sure of before the rail ran.
pub record IsApproved (h : Host) (w : World) (cfg : Config) (token : Option String) (id : String)
    (b : AuthorizeRequest) (s : Sys) (r : Transfer) (s' : Sys) : Type 0 where
  pub transfer : Transfer
  pub found : find_transfer id s.db ≡ some transfer
  pub caller : IsCaller h token transfer.user_id s
  pub waiting : is_created transfer.state ≡ true
  pub terms : Terms
  pub set : transfer.auth ≡ some terms
  pub unclaimed : terms.authorized_at ≡ none
  pub signature : String
  pub approval : Option String
  pub checked : IsChecked transfer terms b s signature approval
  pub run : IsRun cfg w transfer terms signature approval s.db.transfers r s'

module _ (h : Host) (w : World) (cfg : Config) (token : Option String) (id : String)
    (b : AuthorizeRequest) (r : Transfer) (s' : Sys) where
  settled :
      (t : Transfer) (terms : Terms) (user : User) (signature : String) (approval : Option String)
      (s s₂ : Sys) (xs : List Session)
      → find_transfer id s.db ≡ some t
      → IsCaller h token t.user_id s
      → is_created t.state ≡ true
      → t.auth ≡ some terms
      → check_request h t terms b (with_sessions xs s) ≡ (ok (user, signature, approval), s₂)
      → claim_and_run cfg w t user approval (payment terms signature) s₂ ≡ (ok r, s')
      → IsApproved h w cfg token id b s r s'
  unfolding lookup
  settled t terms user signature approval s s₂ xs found caller waiting set checking run =
      let (checked, stands) =
        check-IsChecked h t terms b (with_sessions xs s) s₂ user signature approval checking in
      let (won, ran) = claim_run cfg w t terms user signature approval s₂ s' r run in
      let own : t.id ≡ id =
        (eq_iff t.id id).0 (find-passes (has_id table id) s.db.transfers t found) in
      let there : find_transfer t.id s₂.db ≡ some t =
        ap (λ i. find (has_id table i) s₂.db.transfers) own
        ∙ ap (λ ts. find (has_id table id) ts) stands.transfers
        ∙ found in
      record {
        transfer = t;
        found = found;
        caller = caller;
        waiting = waiting;
        terms = terms;
        set = set;
        unclaimed = awaits_unclaimed terms t set (claim_won t.id s₂.clock t s₂.db there won);
        signature = signature;
        approval = approval;
        checked = record {
          sent = checked.sent;
          in_time = checked.in_time;
          holder = checked.holder;
          found = checked.found;
          kyc = checked.kyc;
          redeemable = checked.redeemable;
        };
        run = subst (λ ts. IsRun cfg w t terms signature approval ts r s') stands.transfers ran;
      }

  -- When the route answers with a transfer, the caller held a current session of its owner, it was
  -- CREATED with terms that had not expired, its authorization was not claimed before, a signature
  -- came with the request, the account was KYC-approved, and a transfer with a redeem order had its
  -- approval; the authorization was then claimed, and the reply is what the rail returned after it.
  pub authorize-IsApproved :
      (s : Sys) → authorize h w cfg token id b s ≡ (ok r, s') → IsApproved h w cfg token id b s r s'
  unfolding authorize
  authorize-IsApproved s run =
      let run₁ = gets_run (λ s. find_transfer id s.db) _ run in
      let (t, found, run₂) = given_run (find_transfer id s.db) 404 "transfer not found" _ run₁ in
      let (x, s₁, session, run₃) = bind_run (require_user_session h token t.user_id) _ run₂ in
      let known = require_user_session-IsKnown h token t.user_id s s₁ x session in
      let (waiting, run₄) = need_run (is_created t.state) 409 _ _ run₃ in
      let (terms, set, run₅) = given_run t.auth 409 "transfer has no authorization terms" _ run₄ in
      let (out, s₂, checking, run₆) = bind_run (check_request h t terms b) _ run₅ in
      settled t terms out.0 out.1 out.2 s s₂ known.touched.sessions found known.caller waiting set
        (subst (λ x. check_request h t terms b x ≡ (ok out, s₂)) known.touched.same checking) run₆
