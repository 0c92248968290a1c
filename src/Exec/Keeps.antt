-- ===== src/Exec/Keeps.antt =====
-- Invariants of actions, and what a returned value guarantees: one rule for each way to build one.
use trans_f.Prelude.{Bool, true, false}
use trans_f.Prelude.Tests.{if◌then◌else◌}
use trans_f.Exec.{Exec, Result, ok, err, Error, pure, throw, gets, catch, handle, continue, ◌>>=◌}

-- `m` keeps `P`, whether it returns or throws.
pub record Keeps {S A : Type 0} (P : S → Type 0) (m : Exec S A) : Type 0 where
  pub at : (s : S) → P s → P (m s).1

-- If `m` returns, its value and its last state satisfy `Q`.
abbrev pub Holds : {S A : Type 0} → (A → S → Type 0) → Result A × S → Type 0
Holds Q (ok a, s) = Q a s
Holds Q (err e, s) = Unit {0}

pub record Ensures {S A : Type 0} (Q : A → S → Type 0) (m : Exec S A) : Type 0 where
  pub at : (s : S) → Holds Q (m s)

module _ {S A : Type 0} {P : S → Type 0} where
  pub Keeps-pure : (a : A) → Keeps P (pure a)
  Keeps-pure a = record { at = λ s h. h }

  pub Keeps-throw : (e : Error) → Keeps P (throw {A = A} e)
  Keeps-throw e = record { at = λ s h. h }

  pub Keeps-gets : (f : S → A) → Keeps P (gets f)
  Keeps-gets f = record { at = λ s h. h }

  pub Keeps-if :
      (test : Bool) (left right : Exec S A)
      → Keeps P left
      → Keeps P right
      → Keeps P (if test then left else right)
  Keeps-if true left right held other = held
  Keeps-if false left right other held = held

  pub Keeps-handle :
      (r : Result A) (h : Error → Exec S A) → ((e : Error) → Keeps P (h e)) → Keeps P (handle r h)
  Keeps-handle (ok a) h kh = Keeps-pure a
  Keeps-handle (err e) h kh = kh e

  pub Keeps-catch :
      (m : Exec S A) (h : Error → Exec S A)
      → Keeps P m
      → ((e : Error) → Keeps P (h e))
      → Keeps P (catch m h)
  Keeps-catch m h km kh = record {
    at = λ s p. let (r, s') = m s in (Keeps-handle r h kh).at s' (km.at s p);
  }

module _ {S A B : Type 0} {P : S → Type 0} where
  after-Keeps :
      (rest : A → Exec S B) (out : Result A × S)
      → ((a : A) → Keeps P (rest a))
      → P out.1
      → P (continue out.0 rest out.1).1
  after-Keeps rest (ok a, last) each held = (each a).at last held
  after-Keeps rest (err e, last) each held = held

  pub Keeps-bind :
      (step : Exec S A) (rest : A → Exec S B)
      → Keeps P step
      → ((a : A) → Keeps P (rest a))
      → Keeps P (step >>= rest)
  unfolding ◌>>=◌
  Keeps-bind step rest first each = record {
    at = λ s held. after-Keeps rest (step s) each (first.at s held);
  }

pub ruleset keeps_rules = (Keeps-pure, Keeps-throw, Keeps-gets, Keeps-if, Keeps-catch, Keeps-bind)

module _ {S A : Type 0} {Q : A → S → Type 0} where
  pub Ensures-throw : (e : Error) → Ensures Q (throw e)
  Ensures-throw e = record { at = λ s. tt }

  pub Ensures-if :
      (b : Bool) (m n : Exec S A) → Ensures Q m → Ensures Q n → Ensures Q (if b then m else n)
  Ensures-if true m n km kn = km
  Ensures-if false m n km kn = kn

  pub Ensures-catch :
      (m : Exec S A) (h : Error → Exec S A)
      → Ensures Q m
      → ((e : Error) → Ensures Q (h e))
      → Ensures Q (catch m h)
  Ensures-catch m h km kh = record { at = λ s. go (m s) (km.at s) }
    where
      go : (r : Result A × S) → Holds Q r → Holds Q (handle r.0 h r.1)
      go (ok a, s') q = q
      go (err e, s') q = (kh e).at s'

module _ {S A B : Type 0} {Q : B → S → Type 0} where
  -- What the last action guarantees, the whole does.
  pub Ensures-bind :
      (m : Exec S A) (f : A → Exec S B) → ((a : A) → Ensures Q (f a)) → Ensures Q (m >>= f)
  unfolding ◌>>=◌
  Ensures-bind m f kf = record { at = λ s. go (m s) }
    where
      go : (r : Result A × S) → Holds Q (continue r.0 f r.1)
      go (ok a, s') = (kf a).at s'
      go (err e, s') = tt

pub ruleset ensures_rules = (Ensures-throw, Ensures-if, Ensures-catch, Ensures-bind)
