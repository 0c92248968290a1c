-- ===== src/Exec.antt =====
-- Handlers that change a shared state and may throw. What was written before a throw stays
-- written, as in the source, so the state comes back beside the error too.
pub mod Keeps
pub mod Passes
use trans_f.Prelude.{ℕ, String}

-- What the code throws, two classes of it told apart by `instanceof`, and what a route answers early.
pub data Error : Type 0 where
  plain : String → Error
  -- AnchorPaymentUncertainError
  payment_uncertain : String → Error
  -- a route's early `return res.status(n).json({ error })`, which leaves it as a throw does
  replied : ℕ → String → Error

-- err.message
abbrev pub message : Error → String
message (plain m) = m
message (payment_uncertain m) = m
message (replied status m) = m

pub data Result {ℓ} (A : Type ℓ) : Type ℓ where
  ok : A → Result A
  err : Error → Result A

abbrev pub Exec {ℓ} : Type ℓ → Type ℓ → Type ℓ
Exec S A = S → Result A × S

module _ {ℓ} {S A : Type ℓ} where
  abbrev pub pure : A → Exec S A
  pure a s = (ok a, s)

  abbrev pub throw : Error → Exec S A
  throw e s = (err e, s)

  abbrev pub gets : (S → A) → Exec S A
  gets f s = (ok (f s), s)

  abbrev pub handle : Result A → (Error → Exec S A) → Exec S A
  handle (ok a) h s = (ok a, s)
  handle (err e) h s = h e s

  -- try { return await m; } catch (e) { h }
  abbrev pub catch : Exec S A → (Error → Exec S A) → Exec S A
  catch m h s = let (r, s') = m s in handle r h s'

module _ {ℓ} {S A B : Type ℓ} where
  abbrev pub continue : Result A → (A → Exec S B) → Exec S B
  continue (ok a) f s = f a s
  continue (err e) f s = (err e, s)

  infixl 10 ◌>>=◌ ◌>>◌
  unfoldable pub ◌>>=◌ : Exec S A → (A → Exec S B) → Exec S B
  ◌>>=◌ m f s = let (r, s') = m s in continue r f s'

  abbrev pub ◌>>◌ : Exec S A → Exec S B → Exec S B
  m >> n = m >>= λ _. n
