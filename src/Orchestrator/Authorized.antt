-- ===== src/Orchestrator/Authorized.antt =====
-- services/api/src/orchestrator.ts: what stands behind a debit: the device signed these very terms,
-- and the rate is the quoted one within the cap.
use trans_f.Prelude.{
  ℕ, String, Bool, true, false, Option, none, some, List, ◌≡◌, refl, ◌∙◌, ap, inl, inr, ◌↔◌, ◌<◌,
  ◌≤◌, ◌*◌, ◌-◌, ◌/◌, arith,
}
use trans_f.Prelude.Tests.{if◌then◌else◌, Bool-cases, ltb, ◌==◌}
use native.Mathlib.Nat.{div-lt_iff_lt-mul}
use trans_f.Prelude.Text.{same_folded}
use trans_f.Exec.{Result, ok, err, ◌>>=◌, ◌>>◌}
use trans_f.Exec.Passes.{bind_passed, ok_inj}
use trans_f.Store.Payments.{Transfer, Terms}
use trans_f.Store.Users.{User}
use trans_f.Orchestrator.World.{
  Sys, Effect, Config, call, finish, other, Action, World, PaymentAuthorization,
}
use trans_f.Orchestrator.Steps.{
  to_wei, quote_binding_bps, the_transfer, transfer_or, has_step, step_safe,
}
use trans_f.Store.Transfers.{find_transfer}
use trans_f.Orchestrator.Debit.{
  typed_data, require_true, check_signature, assert_terms, assert_device_authorization,
  debit_input_funds, check_drift, drift_bps, check_terms, transfer_destination,
}

abbrev pub distance : ℕ → ℕ → ℕ
distance a b = if ltb b a then a - b else b - a

module _ (w : World) (s : Sys) where
  -- The rate binding passes exactly while the live rate is less than 51 basis points off the quoted
  -- one, which is not 0: the quotient of the code's test is truncated.
  pub drift_ok :
      (live locked : ℕ)
      → 0 < locked
      → ((check_drift w live locked s).0 ≡ ok tt) ↔ (distance live locked * 10000 < 51 * locked)
  unfolding check_drift drift_bps
  drift_ok live locked pos =
      let q = distance live locked * 10000 / locked in
      let exact = div-lt_iff_lt-mul {k = locked} {x = distance live locked * 10000} {y = 51} pos in
      elim (Bool-cases (locked == 0)) [
        | inl zero ↦ absurd (ground (arith, zero, pos))
        | inr positive ↦ rw positive (elim (Bool-cases (ltb quote_binding_bps q)) [
          | inl far ↦ rw far (λ h. cc, λ close. absurd (ground (arith, far, exact.1 close)))
          | inr near ↦ rw near (λ h. exact.0 (ground (arith, near)), λ close. refl)
        ])
      ]

require_passed :
    (b : Bool) (why : String) (m : Action (Unit {0})) (s : Sys) (a : Unit {0})
    → ((require_true b why >> m) s).0 ≡ ok a
    → (b ≡ true) × ((m s).0 ≡ ok a)
unfolding require_true ◌>>=◌
require_passed true why m s a h = (refl, h)
require_passed false why m s a h = cc

last_passed :
    (b : Bool) (why : String) (s : Sys) (a : Unit {0}) → (require_true b why s).0 ≡ ok a → b ≡ true
unfolding require_true
last_passed true why s a h = refl
last_passed false why s a h = cc

-- A call that returned was answered.
finish_ok :
    (f : List Effect → Result Bool) (note : Bool → Effect) (s : Sys) (b : Bool)
    → (call f note s).0 ≡ ok b
    → f s.effects ≡ ok b
unfolding call finish
finish_ok f note s b h = go (f s.effects) h
  where
    go : (r : Result Bool) → (finish r note s).0 ≡ ok b → r ≡ ok b
    go (ok x) h = h
    go (err e) h = cc

module _ (w : World) (user : User) (t : Transfer) (auth : PaymentAuthorization) where
  -- The device behind the account has signed what is about to be paid.
  pub record IsAuthorized (now : ℕ) : Type 0 where
    pub terms : Terms
    pub authorizer : String
    pub stored : t.auth ≡ some terms
    pub amount : terms.amount_wei ≡ to_wei t.send_eur
    pub deadline : auth.deadline ≡ terms.deadline
    pub unexpired : now ≤ auth.deadline * 1000
    pub destination : same_folded (transfer_destination w t) terms.destination ≡ true
    pub device : user.authorizer_address ≡ some authorizer
    pub asked : List Effect
    pub signed :
        w.verify_typed_data authorizer
          (typed_data w user t terms auth.deadline)
          auth.signature
          asked
        ≡ ok true

  terms_passed :
      (now : ℕ) (terms : Terms) (s : Sys) (a : Unit {0})
      → (check_terms w now t terms auth s).0 ≡ ok a
      → (terms.amount_wei ≡ to_wei t.send_eur)
        × (auth.deadline ≡ terms.deadline)
        × (same_folded (transfer_destination w t) terms.destination ≡ true)
        × (now ≤ auth.deadline * 1000)
  unfolding check_terms
  terms_passed now terms s a h =
      let (amount, h1) = require_passed _ _ _ s a h in
      let (deadline, h2) = require_passed _ _ _ s a h1 in
      let (destination, h3) = require_passed _ _ _ s a h2 in
      let fresh = last_passed _ _ s a h3 in
      (ground (arith, amount), ground (arith, deadline), destination, ground (arith, fresh))

  signature_passed :
      (terms : Terms) (authorizer : Option String) (s : Sys) (a : Unit {0})
      → (check_signature w user t terms auth authorizer s).0 ≡ ok a
      → (who : String) × (authorizer ≡ some who)
        × (asked : List Effect) × (w.verify_typed_data who
              (typed_data w user t terms auth.deadline)
              auth.signature
              asked
            ≡ ok true)
  unfolding check_signature
  signature_passed terms none s a h = cc
  signature_passed terms (some who) s a h =
      let (code, _, h1) = bind_passed _ _ s a h in
      let (_, h2) = require_passed _ _ _ _ a h1 in
      let (valid, e, h3) = bind_passed _ _ _ a h2 in
      let good = last_passed _ _ _ a h3 in
      (who, refl, _, finish_ok _ (λ _. other) _ valid e ∙ ap ok good)

  assert_passed :
      (terms : Option Terms) (s : Sys) (a : Unit {0})
      → t.auth ≡ terms
      → (assert_terms w user t terms auth s).0 ≡ ok a
      → IsAuthorized s.clock
  unfolding assert_terms
  assert_passed none s a stored h = cc
  assert_passed (some terms) s a stored h =
      let (now, e, h1) = bind_passed _ _ s a h in
      let (_, ht, h2) = bind_passed _ _ _ a h1 in
      let (amount, deadline, destination, unexpired) = terms_passed now terms _ _ ht in
      let (who, device, asked, signed) = signature_passed terms _ _ a h2 in
      record {
        terms = terms;
        authorizer = who;
        stored = stored;
        amount = amount;
        deadline = deadline;
        unexpired = rw (ok_inj _ _ e) unexpired;
        destination = destination;
        device = device;
        asked = asked;
        signed = signed;
      }

found_of :
    (id : String) (s : Sys) (t : Transfer)
    → (the_transfer id s).0 ≡ ok t
    → find_transfer id s.db ≡ some t
unfolding the_transfer
found_of id s t h = go (find_transfer id s.db) h
  where
    go : (o : Option Transfer) → transfer_or id o ≡ ok t → o ≡ some t
    go none h = cc
    go (some u) h = ap some (ok_inj u t h)

-- What a debit that went through has behind it.
pub record IsRightful (w : World) (user : User) (id : String) (auth : PaymentAuthorization)
    (s : Sys) : Type 0 where
  pub kept : Transfer
  pub found : find_transfer id s.db ≡ some kept
  pub authorized : IsAuthorized w user kept auth s.clock
  pub first : has_step step_safe kept.txs ≡ false

-- When `debitInputFunds` returns, the transfer was stored and had recorded no move of its EURe, and
-- the account's device had signed, not expired, exactly its amount in wei and its destination.
pub debit-IsRightful :
    (cfg : Config) (w : World) (user : User) (id : String) (auth : PaymentAuthorization) (s : Sys)
    → (debit_input_funds cfg w user id auth s).0 ≡ ok tt
    → IsRightful w user id auth s
unfolding debit_input_funds assert_device_authorization
debit-IsRightful cfg w user id auth s h =
    let (t, e, h1) = bind_passed _ _ s tt h in
    let (_, ha, h2) = bind_passed _ _ _ tt h1 in
    let (once, _) = require_passed _ _ _ _ tt h2 in
    record {
      kept = t;
      found = found_of id s t e;
      authorized = unfold the_transfer in assert_passed w user t auth t.auth s _ refl ha;
      first = ground (arith, once);
    }
