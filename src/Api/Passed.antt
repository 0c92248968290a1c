-- ===== src/Api/Passed.antt =====
-- What a route that returned has passed, one step at a time: the whole run, with its last state.
use trans_f.Prelude.{ℕ, String, Bool, true, false, Option, none, some, List, ◌∷◌, ◌≡◌, refl}
use trans_f.Exec.{Exec, Result, ok, err, gets, pure, continue, ◌>>=◌}
use trans_f.Orchestrator.World.{Action, Sys, Effect, call, finish}
use trans_f.Api.{given, need}

module _ {S A B : Type 0} {b : B} {last : S} where
  continue_run :
      (f : A → Exec S B) (p : Result A × S)
      → continue p.0 f p.1 ≡ (ok b, last)
      → (a : A) × (s₁ : S) × (p ≡ (ok a, s₁)) × (f a s₁ ≡ (ok b, last))
  continue_run f (ok a, s₁) h = (a, s₁, refl, h)
  continue_run f (err e, s₁) h = cc

  pub bind_run :
      {s : S} (m : Exec S A) (f : A → Exec S B)
      → (m >>= f) s ≡ (ok b, last)
      → (a : A) × (s₁ : S) × (m s ≡ (ok a, s₁)) × (f a s₁ ≡ (ok b, last))
  unfolding ◌>>=◌
  bind_run {s} m f h = continue_run f (m s) h

module _ {B : Type 0} {s : Sys} {b : B} {last : Sys} where
  pub need_run :
      (test : Bool) (status : ℕ) (why : String) (f : Unit {0} → Action B)
      → (need test status why >>= f) s ≡ (ok b, last)
      → (test ≡ true) × (f tt s ≡ (ok b, last))
  unfolding ◌>>=◌
  need_run true status why f h = (refl, h)
  need_run false status why f h = cc

module _ {A B : Type 0} {s : Sys} {b : B} {last : Sys} where
  pub given_run :
      (o : Option A) (status : ℕ) (why : String) (f : A → Action B)
      → (given o status why >>= f) s ≡ (ok b, last)
      → (a : A) × (o ≡ some a) × (f a s ≡ (ok b, last))
  unfolding ◌>>=◌
  given_run none status why f h = cc
  given_run (some a) status why f h = (a, refl, h)

  pub gets_run :
      (read : Sys → A) (f : A → Action B)
      → (gets read >>= f) s ≡ (ok b, last)
      → f (read s) s ≡ (ok b, last)
  unfolding ◌>>=◌
  gets_run read f h = h

  finish_run :
      (r : Result A) (note : A → Effect) (f : A → Action B)
      → (finish r note >>= f) s ≡ (ok b, last)
      → (a : A) × (r ≡ ok a) × (f a (record s { effects = note a ∷ s.effects }) ≡ (ok b, last))
  unfolding ◌>>=◌ finish
  finish_run (ok a) note f h = (a, refl, h)
  finish_run (err e) note f h = cc

  pub call_run :
      (ask : List Effect → Result A) (note : A → Effect) (f : A → Action B)
      → (call ask note >>= f) s ≡ (ok b, last)
      → (a : A) × (ask s.effects ≡ ok a)
        × (f a (record s { effects = note a ∷ s.effects }) ≡ (ok b, last))
  unfolding ◌>>=◌ call
  call_run ask note f h = finish_run (ask s.effects) note f h

pub need_last :
    {s last : Sys} (test : Bool) (status : ℕ) (why : String) (a : Unit {0})
    → need test status why s ≡ (ok a, last)
    → (test ≡ true) × (s ≡ last)
need_last true status why a h = (refl, cc)
need_last false status why a h = cc

pub pure_run :
    {S A : Type 0} {s last : S} (a b : A) → (pure a s) ≡ (ok b, last) → (a ≡ b) × (s ≡ last)
pure_run a b h = (cc, cc)
