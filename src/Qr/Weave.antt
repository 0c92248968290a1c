-- ===== src/Qr/Weave.antt =====
-- services/api/src/qr.ts: the woven blocks can be taken apart.
use trans_f.Prelude.{
  ℕ, zero, suc, List, [], ◌∷◌, ◌++◌, ◌+◌, ◌-◌, ◌≤◌, ◌≡◌, refl, arith, sym, ap, ◌∙◌,
}
use mathlib.Core.List.{append_assoc}
use mathlib.Core.Path.{ap₂}
use trans_f.Prelude.Lists.{length, length-append}
use trans_f.Qr.{get_or, take, drop, blocks_l}
use trans_f.Qr.Stream.{data_codewords}
use trans_f.Qr.Blocks.{column, columns, split_blocks, check_blocks, interleave}
use trans_f.Qr.Decode.{take-all, length-take}
use trans_f.Qr.Reading.{evens, odds, unweave}

get_or-append :
    (d : ℕ) (xs : List ℕ) (y : ℕ) (ys : List ℕ) → get_or d (xs ++ y ∷ ys) (length xs) ≡ y
unfolding get_or
get_or-append d [] y ys = refl
get_or-append d (x ∷ xs) y ys = get_or-append d xs y ys

get_or-at :
    (block xs : List ℕ) (y : ℕ) (ys : List ℕ) (i : ℕ)
    → block ≡ xs ++ y ∷ ys
    → length xs ≡ i
    → get_or 0 block i ≡ y
get_or-at block xs y ys i same at_i = rw (same, sym at_i) (get_or-append 0 xs y ys)

-- The next element moves from what is left to what was taken.
moved :
    (block xs : List ℕ) (y : ℕ) (ys : List ℕ) → block ≡ xs ++ y ∷ ys → block ≡ (xs ++ y ∷ []) ++ ys
moved block xs y ys same = same ∙ sym (append_assoc xs (y ∷ []) ys)

one_more : (xs : List ℕ) (y i : ℕ) → length xs ≡ i → length (xs ++ y ∷ []) ≡ i + 1
one_more xs y i h = omega (arith, length-append xs (y ∷ []))

-- One block comes out as it is.
columns_one :
    (n i : ℕ) (block xs ys rest : List ℕ)
    → block ≡ xs ++ ys
    → length xs ≡ i
    → length ys ≡ n
    → take n (columns n i (block ∷ []) ++ rest) ≡ ys
unfolding columns take column
columns_one zero i block xs [] rest same at_i all = refl
columns_one (suc n) i block xs (y ∷ ys) rest same at_i all =
    ap₂ ◌∷◌ (get_or-at block xs y ys i same at_i) (
      columns_one n (i + 1) block (xs ++ y ∷ []) ys rest (moved block xs y ys same)
        (one_more xs y i at_i) (omega arith))
columns_one zero i block xs (y ∷ ys) rest same at_i all = absurd (omega arith)
columns_one (suc n) i block xs [] rest same at_i all = absurd (omega arith)

abbrev twice : ℕ → ℕ
twice zero = 0
twice (suc n) = suc (suc (twice n))

-- Of two blocks, the one comes out at the even places and the other at the odd ones.
columns_two :
    (n i : ℕ) (block xs ys other us vs rest : List ℕ)
    → block ≡ xs ++ ys
    → length xs ≡ i
    → length ys ≡ n
    → other ≡ us ++ vs
    → length us ≡ i
    → length vs ≡ n
    → (evens (take (twice n) (columns n i (block ∷ other ∷ []) ++ rest)) ≡ ys)
      × (odds (take (twice n) (columns n i (block ∷ other ∷ []) ++ rest)) ≡ vs)
unfolding columns take evens odds column
columns_two zero i block xs [] other us [] rest e l k e' l' k' = (refl, refl)
columns_two (suc n) i block xs (y ∷ ys) other us (v ∷ vs) rest e l k e' l' k' =
    let (even, odd) =
      columns_two n (i + 1) block (xs ++ y ∷ []) ys other (us ++ v ∷ []) vs rest
        (moved block xs y ys e) (one_more xs y i l) (omega arith) (moved other us v vs e')
        (one_more us v i l') (omega arith) in
    (ap₂ ◌∷◌ (get_or-at block xs y ys i e l) even, ap₂ ◌∷◌ (get_or-at other us v vs i e' l') odd)
columns_two zero i block xs (y ∷ ys) other us vs rest e l k e' l' k' = absurd (omega arith)
columns_two zero i block xs [] other us (v ∷ vs) rest e l k e' l' k' = absurd (omega arith)
columns_two (suc n) i block xs [] other us vs rest e l k e' l' k' = absurd (omega arith)
columns_two (suc n) i block xs (y ∷ ys) other us [] rest e l k e' l' k' = absurd (omega arith)

take-drop : (n : ℕ) (xs : List ℕ) → take n xs ++ drop n xs ≡ xs
unfolding take drop
take-drop zero xs = refl
take-drop (suc n) [] = refl
take-drop (suc n) (x ∷ xs) = ap (λ r. x ∷ r) (take-drop n xs)

length-drop : (n : ℕ) (xs : List ℕ) → length (drop n xs) ≡ length xs - n
unfolding drop
length-drop zero xs = omega arith
length-drop (suc n) [] = omega arith
length-drop (suc n) (x ∷ xs) = omega (arith, length-drop n xs)

unweave_one :
    (n : ℕ) (codewords rest : List ℕ)
    → length codewords ≡ n
    → unweave 1 (take n (columns n 0 (split_blocks 1 n codewords) ++ rest)) ≡ codewords
unfolding unweave split_blocks
unweave_one n codewords rest all =
    columns_one n 0 (take n codewords) [] codewords rest (take-all n codewords (omega (arith, all)))
      refl all

unweave_two :
    (n : ℕ) (codewords rest : List ℕ)
    → length codewords ≡ n + n
    → unweave 2 (take (twice n) (columns n 0 (split_blocks 2 n codewords) ++ rest)) ≡ codewords
unfolding unweave split_blocks
unweave_two n codewords rest all =
    let first = take n codewords in
    let second = take n (drop n codewords) in
    let left : length (drop n codewords) ≡ n = length-drop n codewords ∙ omega (arith, all) in
    let whole : second ≡ drop n codewords = take-all n (drop n codewords) (omega (arith, left)) in
    let (even, odd) =
      columns_two n 0 first [] first second [] second rest refl refl
        (omega (arith, length-take n codewords, all)) refl refl
        (omega (arith, length-take n (drop n codewords), left)) in
    rw (even, odd, whole) (take-drop n codewords)

-- What comes after the data codewords.
abbrev checks : ℕ → ℕ → ℕ → List ℕ → List ℕ
checks blocks n ec_len codewords =
    columns ec_len 0 (check_blocks ec_len (split_blocks blocks n codewords))

-- At each version the data codewords are found again among the woven ones.
pub unweave-interleave :
    (version : ℕ) (codewords : List ℕ)
    → 1 ≤ version
    → version ≤ 6
    → length codewords ≡ data_codewords version
    → unweave
        (get_or 0 blocks_l version)
        (take (data_codewords version) (interleave codewords version))
      ≡ codewords
unfolding interleave get_or
unweave-interleave (suc zero) cs low high all = unweave_one 19 cs (checks 1 19 7 cs) all
unweave-interleave (suc (suc zero)) cs low high all = unweave_one 34 cs (checks 1 34 10 cs) all
unweave-interleave (suc (suc (suc zero))) cs low high all =
    unweave_one 55 cs (checks 1 55 15 cs) all
unweave-interleave (suc (suc (suc (suc zero)))) cs low high all =
    unweave_one 80 cs (checks 1 80 20 cs) all
unweave-interleave (suc (suc (suc (suc (suc zero))))) cs low high all =
    unweave_one 108 cs (checks 1 108 26 cs) all
unweave-interleave (suc (suc (suc (suc (suc (suc zero)))))) cs low high all =
    unweave_two 68 cs (checks 2 68 18 cs) all
unweave-interleave zero cs low high all = absurd (omega arith)
unweave-interleave (suc (suc (suc (suc (suc (suc (suc n))))))) cs low high all =
    absurd (omega arith)
