-- ===== src/Prelude/Lists.antt =====
-- JavaScript's array methods that the store and the orchestrator use, over a Boolean test.
use Prim.Native.Nat.{ℕ, suc, ◌+◌}
use mathlib.Core.Path.{◌≡◌, refl}
use mathlib.Core.Logic.{inl, inr}
use mathlib.Core.Bool.{Bool, true, false, ◌&&◌}
use mathlib.Core.List.{List, [], ◌∷◌, ◌++◌}
use mathlib.Core.Option.{Option, none, some}
use native.Mathlib.Omega.{arith}
use trans_f.Prelude.Tests.{if◌then◌else◌, Bool-cases}

module _ {ℓ} {A : Type ℓ} where
  -- xs.length
  abbrev pub length : List A → ℕ
  length [] = 0
  length (x ∷ xs) = suc (length xs)

  -- xs.find(test)
  unfoldable pub find : (A → Bool) → List A → Option A
  find test [] = none
  find test (x ∷ xs) = if test x then some x else find test xs

  -- `const x = xs.find(test); if (x) change(x)`: the first match is changed in place.
  unfoldable pub modify : (A → Bool) → (A → A) → List A → List A
  modify test change [] = []
  modify test change (x ∷ xs) = if test x then change x ∷ xs else x ∷ modify test change xs

  -- xs.some(test)
  unfoldable pub any : (A → Bool) → List A → Bool
  any test [] = false
  any test (x ∷ xs) = if test x then true else any test xs

  -- xs.filter(test)
  unfoldable pub keep : (A → Bool) → List A → List A
  keep test [] = []
  keep test (x ∷ xs) = let rest = keep test xs in if test x then x ∷ rest else rest

  -- xs.at(-1)
  unfoldable pub get_last? : List A → Option A
  get_last? [] = none
  get_last? (x ∷ []) = some x
  get_last? (x ∷ y ∷ xs) = get_last? (y ∷ xs)

  pub length-append : (xs ys : List A) → length (xs ++ ys) ≡ length xs + length ys
  length-append [] ys = omega arith
  length-append (x ∷ xs) ys = omega (arith, length-append xs ys)

  pub length-modify :
      (test : A → Bool) (change : A → A) (xs : List A) → length (modify test change xs) ≡ length xs
  unfolding modify
  length-modify test change [] = refl
  length-modify test change (x ∷ xs) = elim (Bool-cases (test x)) [
    | inl hit ↦ simp hit
    | inr miss ↦ simp (miss, length-modify test change xs)
  ]

  -- A change that keeps passing the test is found where the old record was.
  pub find-modify :
      (test : A → Bool) (change : A → A) (xs : List A) (a : A)
      → find test xs ≡ some a
      → test (change a) ≡ true
      → find test (modify test change xs) ≡ some (change a)
  unfolding find modify
  find-modify test change [] a h k = cc
  find-modify test change (x ∷ xs) a h k = ground (arith, find-modify test change xs a)

  pub any-append :
      (test : A → Bool) (xs ys : List A)
      → any test (xs ++ ys) ≡ (if any test xs then true else any test ys)
  unfolding any
  any-append test [] ys = refl
  any-append test (x ∷ xs) ys = elim (Bool-cases (test x)) [
    | inl hit ↦ simp hit
    | inr miss ↦ simp (miss, any-append test xs ys)
  ]

  pub find-passes : (test : A → Bool) (xs : List A) (a : A) → find test xs ≡ some a → test a ≡ true
  unfolding find
  find-passes test [] a h = cc
  find-passes test (x ∷ xs) a h = ground (arith, find-passes test xs a)

  pub find-append :
      (test : A → Bool) (xs ys : List A) (a : A)
      → find test xs ≡ some a
      → find test (xs ++ ys) ≡ some a
  unfolding find
  find-append test [] ys a h = cc
  find-append test (x ∷ xs) ys a h = ground (arith, find-append test xs ys a)

  -- What is found and kept is found among what is kept.
  pub find-keep :
      (test kept : A → Bool) (xs : List A) (a : A)
      → find test xs ≡ some a
      → kept a ≡ true
      → find test (keep kept xs) ≡ some a
  unfolding find keep
  find-keep test kept [] a h k = cc
  find-keep test kept (x ∷ xs) a h k = ground (arith, find-keep test kept xs a)

  -- If nothing kept passes the test, nothing passes both.
  pub find-keep-none :
      (test kept : A → Bool) (xs : List A)
      → find test (keep kept xs) ≡ none
      → any (λ x. kept x && test x) xs ≡ false
  unfolding find keep any
  find-keep-none test kept [] h = refl
  find-keep-none test kept (x ∷ xs) h = ground (arith, find-keep-none test kept xs)

  pub any-tail :
      (test : A → Bool) (x : A) (xs : List A)
      → any test (x ∷ xs) ≡ false
      → (test x ≡ false) × (any test xs ≡ false)
  unfolding any
  any-tail test x xs h = ground arith
