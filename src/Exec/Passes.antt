-- ===== src/Exec/Passes.antt =====
-- What an action that returned has passed: each of its steps returned, and no guard of it threw.
use trans_f.Prelude.{Bool, true, false, ◌≡◌, refl}
use trans_f.Prelude.Tests.{if◌then◌else◌}
use trans_f.Exec.{Exec, Result, ok, err, Error, throw, continue, ◌>>=◌}

pub ok_inj : {A : Type 0} (a b : A) → ok a ≡ ok b → a ≡ b
ok_inj a b h = cc

module _ {S A B : Type 0} where
  continue_passed :
      (f : A → Exec S B) (b : B) (p : Result A × S)
      → (continue p.0 f p.1).0 ≡ ok b
      → (a : A) × (p.0 ≡ ok a) × ((f a p.1).0 ≡ ok b)
  continue_passed f b (ok a, s') h = (a, refl, h)
  continue_passed f b (err e, s') h = cc

  pub bind_passed :
      (m : Exec S A) (f : A → Exec S B) (s : S) (b : B)
      → ((m >>= f) s).0 ≡ ok b
      → (a : A) × ((m s).0 ≡ ok a) × ((f a (m s).1).0 ≡ ok b)
  unfolding ◌>>=◌
  bind_passed m f s b h = continue_passed f b (m s) h

module _ {S A : Type 0} where
  pub guard_passed :
      (b : Bool) (why : Error) (m : Exec S A) (s : S) (a : A)
      → ((if b then throw why else m) s).0 ≡ ok a
      → (b ≡ false) × ((m s).0 ≡ ok a)
  guard_passed true why m s a h = cc
  guard_passed false why m s a h = (refl, h)

  pub need_passed :
      (b : Bool) (why : Error) (m : Exec S A) (s : S) (a : A)
      → ((if b then m else throw why) s).0 ≡ ok a
      → (b ≡ true) × ((m s).0 ≡ ok a)
  need_passed true why m s a h = (refl, h)
  need_passed false why m s a h = cc

module _ {S A B : Type 0} where
  -- The state after a step that returned, and the state after a step whose value is only wrapped.
  pub bind-ok_state :
      (m : Exec S A) (f : A → Exec S B) (s : S) (a : A) → (m s).0 ≡ ok a → (m >>= f) s ≡ f a (m s).1
  unfolding ◌>>=◌
  bind-ok_state m f s a h = rw h refl

  wrapped_state : (g : A → B) (p : Result A × S) → (continue p.0 (λ a s. (ok (g a), s)) p.1).1 ≡ p.1
  wrapped_state g (ok a, s) = refl
  wrapped_state g (err e, s) = refl

  pub bind-pure_state :
      (m : Exec S A) (g : A → B) (s : S) → ((m >>= λ a s. (ok (g a), s)) s).1 ≡ (m s).1
  unfolding ◌>>=◌
  bind-pure_state m g s = wrapped_state g (m s)
