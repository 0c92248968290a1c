-- ===== src/Sepa/Fits.antt =====
-- The remittance line of services/api/src/sepa.ts fits what the scheme carries.
use trans_f.Prelude.{
  ℕ, ◌≤◌, ◌-◌, Bool, true, false, List, [], ◌∷◌, ◌++◌, Option, ◌≡◌, refl, ◌∙◌, arith, inl, inr, ap,
}
use trans_f.Prelude.Tests.{Bool-cases, ◌==◌}
use trans_f.Prelude.Lists.{length, length-append, keep}
use trans_f.Prelude.Text.{codes, trim, trim_start, is_space}
use mathlib.Core.List.{reverse, reverse-cons}
use trans_f.Sepa.{
  is_letter, take, remittance_max, merge_slashes, drop_slashes, strip_reserved_slashes, trim_end,
  memo_suffix, memo_with, payment_memo,
}

length-take : (n : ℕ) (cs : List ℕ) → length (take n cs) ≤ n
unfolding take
length-take ℕ.zero cs = omega arith
length-take (ℕ.suc n) [] = omega arith
length-take (ℕ.suc n) (c ∷ cs) = omega (arith, length-take n cs)

length-reverse : (cs : List ℕ) → length (reverse cs) ≡ length cs
length-reverse [] = refl
length-reverse (c ∷ cs) =
    ap length (reverse-cons c cs)
    ∙ omega (arith, length-append (reverse cs) (c ∷ []), length-reverse cs)

length-trim_start : (cs : List ℕ) → length (trim_start cs) ≤ length cs
unfolding trim_start
length-trim_start [] = omega arith
length-trim_start (c ∷ cs) = elim (Bool-cases (is_space c)) [
  | inl space ↦ rw space (omega (arith, length-trim_start cs))
  | inr text ↦ rw text (omega arith)
]

length-drop_slashes : (cs : List ℕ) → length (drop_slashes cs) ≤ length cs
unfolding drop_slashes
length-drop_slashes [] = omega arith
length-drop_slashes (c ∷ cs) = elim (Bool-cases (c == b'/')) [
  | inl slash ↦ rw slash (omega (arith, length-drop_slashes cs))
  | inr text ↦ rw text (omega arith)
]

length-merge_slashes : (gap : Bool) (cs : List ℕ) → length (merge_slashes gap cs) ≤ length cs
unfolding merge_slashes
length-merge_slashes gap [] = omega arith
length-merge_slashes gap (c ∷ cs) = elim (Bool-cases (c == b'/')) [
  | inr text ↦ rw text (omega (arith, length-merge_slashes false cs))
  | inl slash ↦ rw slash (elim (Bool-cases gap) [
    | inl again ↦ rw again (omega (arith, length-merge_slashes true cs))
    | inr first ↦ rw first (omega (arith, length-merge_slashes true cs))
  ])
]

-- Cleaning never lengthens.
length-trim_end : (cs : List ℕ) → length (trim_end cs) ≤ length cs
unfolding trim_end
length-trim_end cs = omega (
  arith,
  length-reverse (trim_start (reverse cs)),
  length-trim_start (reverse cs),
  length-reverse cs,
)

length-trim : (cs : List ℕ) → length (trim cs) ≤ length cs
unfolding trim
length-trim cs = omega (
  arith,
  length-reverse (trim_start (reverse (trim_start cs))),
  length-trim_start (reverse (trim_start cs)),
  length-reverse (trim_start cs),
  length-trim_start cs,
)

length-strip : (cs : List ℕ) → length (strip_reserved_slashes cs) ≤ length cs
unfolding strip_reserved_slashes
length-strip cs =
    let merged = merge_slashes false cs in
    let led = drop_slashes merged in
    let both = drop_slashes (reverse led) in
    omega (
      arith,
      length-trim (reverse both),
      length-reverse both,
      length-drop_slashes (reverse led),
      length-reverse led,
      length-drop_slashes merged,
      length-merge_slashes false cs,
    )

length-memo_suffix : (id : List ℕ) → length (memo_suffix id) ≤ 14
unfolding memo_suffix
length-memo_suffix id = omega (arith, length-take 8 (keep is_letter id))

length-memo_with : (id ref : List ℕ) → length (memo_with id ref) ≤ remittance_max
unfolding memo_with
length-memo_with id [] = length-take remittance_max (codes "Zold " ++ id)
length-memo_with id (c ∷ cs) =
    let room = remittance_max - length (memo_suffix id) in
    let cut = take room (c ∷ cs) in
    omega (
      arith,
      length-append (trim_end (strip_reserved_slashes cut)) (memo_suffix id),
      length-trim_end (strip_reserved_slashes cut),
      length-strip cut,
      length-take room (c ∷ cs),
      length-memo_suffix id,
    )

-- Whatever the transfer's id and the payer's reference, the remittance line has at most the 140
-- characters that the scheme carries.
pub length-payment_memo :
    (nfd : List ℕ → List ℕ) (id : List ℕ) (reference : Option (List ℕ))
    → length (payment_memo nfd id reference) ≤ remittance_max
unfolding payment_memo
length-payment_memo nfd id reference = length-memo_with id _
