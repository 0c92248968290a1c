-- ===== src/Api/Stands.antt =====
-- services/api/src/server.ts: the approval of a redeem order keeps what calls and accounts keep, so
-- it leaves the transfers and the time alone.
use trans_f.Prelude.{ℕ, String, Option, none, some, List, ◌∷◌, ◌≡◌}
use trans_f.Exec.{Result, ok, err}
use trans_f.Exec.Keeps.{Keeps, keeps_rules}
use trans_f.Store.Db
use trans_f.Store.Db.{has_id, lookup}
use trans_f.Store.Users.{User}
use trans_f.Store.Payments.{Transfer, RedeemApproval}
use trans_f.Store.Accounts
use trans_f.Store.Accounts.{find_user, update_user}
use trans_f.Orchestrator.World.{Sys, Effect, call, finish, on_db}
use trans_f.Api.{Host, Assertion, given, touch, require_session, require_user_session}
use trans_f.Api.Authorize.{
  RedeemAssertion, effective_signature, approve_by_assertion, sign_redeem, Approver,
  as_unauthorized,
}

pub given-Keeps :
    {A : Type 0} {P : Sys → Type 0} (o : Option A) (status : ℕ) (why : String)
    → Keeps P (given o status why)
given-Keeps none status why = record { at = λ s h. h }
given-Keeps (some a) status why = record { at = λ s h. h }

pub session-Keeps :
    {P : Sys → Type 0}
    → ((id : String) → Keeps P (touch id))
    → (h : Host) (token : Option String) (uid : String) → Keeps P (require_user_session h token uid)
unfolding require_user_session require_session
session-Keeps touches h none uid = search keeps_rules depth 8
session-Keeps touches h (some secret) uid = search (keeps_rules, touches, given-Keeps) depth 14

-- A call outside and an update of an account keep `P`.
pub record IsSteady (P : Sys → Type 0) : Type 0 where
  pub called : (s : Sys) (e : Effect) → P s → P (record s { effects = e ∷ s.effects })
  pub account : (s : Sys) (uid : String) (f : User → User) → P s → P (on_db (update_user uid f) s).1

-- The transfers and the time stand.
pub record Stands (ts : List Transfer) (now : ℕ) (s : Sys) : Type 0 where
  pub transfers : s.db.transfers ≡ ts
  pub clock : s.clock ≡ now

patched_user :
    {ts : List Transfer} {now : ℕ} (o : Option User) (id : String) (f : User → User) (s : Sys)
    → Stands ts now s
    → Stands ts now (record s { db = (Db.patch_found Accounts.table o id f s.db).1 })
unfolding Db.patch_found Db.unknown
patched_user none id f s h = record { transfers = h.transfers; clock = h.clock }
patched_user (some u) id f s h = record { transfers = h.transfers; clock = h.clock }

pub Stands-IsSteady : (ts : List Transfer) (now : ℕ) → IsSteady (Stands ts now)
unfolding on_db Db.update
Stands-IsSteady ts now = record {
  called = λ s e h. record { transfers = h.transfers; clock = h.clock };
  account = λ s id f h. patched_user (lookup Accounts.table id s.db) id f s h;
}

module _ {P : Sys → Type 0} (steady : IsSteady P) where
  finish-Keeps : {A : Type 0} (r : Result A) (note : A → Effect) → Keeps P (finish r note)
  unfolding finish
  finish-Keeps (ok a) note = record { at = λ s h. steady.called s (note a) h }
  finish-Keeps (err e) note = record { at = λ s h. steady.called s Effect.thrown h }

  pub ask-Keeps :
      {A : Type 0} (f : List Effect → Result A) (note : A → Effect) → Keeps P (call f note)
  unfolding call
  ask-Keeps f note = record { at = λ s h. (finish-Keeps (f s.effects) note).at s h }

  account-Keeps : (id : String) (f : User → User) → Keeps P (on_db (update_user id f))
  account-Keeps id f = record { at = λ s h. steady.account s id f h }

  unauthorized_kept : {A : Type 0} (r : Result A × Sys) → P r.1 → P (as_unauthorized r).1
  unauthorized_kept (ok a, s) h = h
  unauthorized_kept (err e, s) h = h

  lift-Keeps : {A : Type 0} (r : Result A) → Keeps P (λ s. (r, s))
  lift-Keeps r = record { at = λ s h. h }

  sign-Keeps :
      (h : Host) (user : User) (a : Approver) (terms : RedeemApproval) (x : Assertion)
      → Keeps P (sign_redeem h user a terms x)
  unfolding sign_redeem
  sign-Keeps h user a terms x = search (keeps_rules, lift-Keeps, account-Keeps, ask-Keeps) depth 14

  caught-Keeps :
      (h : Host) (user : User) (a : Approver) (terms : RedeemApproval) (x : Assertion)
      → Keeps P (λ s. as_unauthorized (sign_redeem h user a terms x s))
  caught-Keeps h user a terms x = record {
    at = λ s k.
        unauthorized_kept (sign_redeem h user a terms x s) ((sign-Keeps h user a terms x).at s k);
  }

  assertion-Keeps :
      (h : Host) (user : User) (terms : Option RedeemApproval) (r : RedeemAssertion)
      → Keeps P (approve_by_assertion h user terms r)
  unfolding approve_by_assertion
  assertion-Keeps h user none r = search keeps_rules depth 6
  assertion-Keeps h user (some terms) r = search (keeps_rules, given-Keeps, caught-Keeps) depth 12

  pub effective-Keeps :
      (h : Host) (user : User) (terms : Option RedeemApproval) (o : Option String)
      (r : Option RedeemAssertion)
      → Keeps P (effective_signature h user terms o r)
  unfolding effective_signature
  effective-Keeps h user terms (some x) r = search keeps_rules depth 6
  effective-Keeps h user terms none none = search keeps_rules depth 6
  effective-Keeps h user terms none (some r) = search (keeps_rules, assertion-Keeps) depth 8
