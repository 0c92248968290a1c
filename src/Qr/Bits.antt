-- ===== src/Qr/Bits.antt =====
-- services/api/src/qr.ts: the bits placed are those of the codewords.
use trans_f.Prelude.{
  ℕ, zero, suc, some, List, [], ◌∷◌, ◌++◌, ◌+◌, ◌-◌, ◌*◌, ◌/◌, ◌%◌, ◌^◌, ◌≤◌, ◌<◌, ◌≡◌, refl, arith,
  sym, ap, ◌∙◌, inl, inr,
}
use mathlib.Core.Path.{ap₂}
use mathlib.Core.List.{append_assoc}
use trans_f.Prelude.Tests.{◌==◌, Bool-cases}
use trans_f.Prelude.Lists.{length, length-append}
use trans_f.Qr.{take}
use trans_f.Qr.Stream.{pack, payload_bits, to_bits}
use trans_f.Qr.Matrix.{bit_at, get_elem?}
use trans_f.Qr.Reading.{bit_of, evens, odds, unweave}
use trans_f.Qr.Painted.{stream}

get_elem?-append :
    (xs : List ℕ) (y : ℕ) (ys : List ℕ) → get_elem? (xs ++ y ∷ ys) (length xs) ≡ some y
unfolding get_elem?
get_elem?-append [] y ys = refl
get_elem?-append (x ∷ xs) y ys = get_elem?-append xs y ys

bit_of-odd : (n : ℕ) → bit_of (n % 2 == 1) ≡ n % 2
bit_of-odd n = ground arith

-- The j-th bit of the codeword in place i.
bit_of-bit_at :
    (codewords xs : List ℕ) (y : ℕ) (ys : List ℕ) (i j t : ℕ)
    → codewords ≡ xs ++ y ∷ ys
    → length xs ≡ i
    → t ≡ 8 * i + j
    → j < 8
    → bit_of (bit_at codewords t) ≡ y / 2 ^ (7 - j) % 2
unfolding bit_at
bit_of-bit_at codewords xs y ys i j t same at_i e low =
    let word : t / 8 ≡ i = omega arith in
    let place : t % 8 ≡ j = omega arith in
    let found : get_elem? codewords i ≡ some y =
      ap (λ c. get_elem? c i) same
      ∙ ap (get_elem? (xs ++ y ∷ ys)) (sym at_i)
      ∙ get_elem?-append xs y ys in
    rw (word, found, place) (bit_of-odd (y / 2 ^ (7 - j)))

abbrev pub eights : ℕ → ℕ
eights zero = 0
eights (suc k) = suc (suc (suc (suc (suc (suc (suc (suc (eights k))))))))

pub eights_lem : (k : ℕ) → eights k ≡ 8 * k
eights_lem zero = refl
eights_lem (suc k) = omega (arith, eights_lem k)

-- The bits placed are those of the codewords, in order.
pub stream-payload :
    (k : ℕ) (codewords xs ys : List ℕ) (i t : ℕ)
    → codewords ≡ xs ++ ys
    → length xs ≡ i
    → t ≡ 8 * i
    → k ≤ length ys
    → stream codewords t (eights k) ≡ payload_bits (take k ys)
unfolding stream payload_bits take to_bits
stream-payload zero codewords xs ys i t same at_i e h = refl
stream-payload (suc k) codewords xs [] i t same at_i e h = absurd (omega arith)
stream-payload (suc k) codewords xs (y ∷ ys) i t same at_i e h =
    let bit = bit_of-bit_at codewords xs y ys i in
    ap₂ ◌∷◌ (bit 0 _ same at_i (omega arith) (omega arith)) (
      ap₂ ◌∷◌ (bit 1 _ same at_i (omega arith) (omega arith)) (
        ap₂ ◌∷◌ (bit 2 _ same at_i (omega arith) (omega arith)) (
          ap₂ ◌∷◌ (bit 3 _ same at_i (omega arith) (omega arith)) (
            ap₂ ◌∷◌ (bit 4 _ same at_i (omega arith) (omega arith)) (
              ap₂ ◌∷◌ (bit 5 _ same at_i (omega arith) (omega arith)) (
                ap₂ ◌∷◌ (bit 6 _ same at_i (omega arith) (omega arith)) (
                  ap₂ ◌∷◌ (bit 7 _ same at_i (omega arith) (omega arith)) (
                    stream-payload k codewords (xs ++ y ∷ []) ys (i + 1) _
                      (same ∙ sym (append_assoc xs (y ∷ []) ys))
                      (omega (arith, length-append xs (y ∷ []))) (omega arith) (omega arith)))))))))

pub take-stream :
    (m n : ℕ) (codewords : List ℕ) (i : ℕ)
    → m ≤ n
    → take m (stream codewords i n) ≡ stream codewords i m
unfolding take stream
take-stream zero n codewords i h = refl
take-stream (suc m) (suc n) codewords i h =
    ap (λ r. bit_of (bit_at codewords i) ∷ r) (take-stream m n codewords (i + 1) (omega arith))
take-stream (suc m) zero codewords i h = absurd (omega arith)

abbrev pub mods : List ℕ → List ℕ
mods [] = []
mods (x ∷ xs) = x % 256 ∷ mods xs

pub pack-payload : (cs : List ℕ) → pack (payload_bits cs) ≡ mods cs
unfolding pack payload_bits to_bits
pack-payload [] = refl
pack-payload (c ∷ cs) = ap₂ ◌∷◌ (omega arith) (pack-payload cs)

pub payload-mods : (cs : List ℕ) → payload_bits (mods cs) ≡ payload_bits cs
unfolding payload_bits to_bits
payload-mods [] = refl
payload-mods (c ∷ cs) = ap₂ ◌∷◌ (omega arith) (
    ap₂ ◌∷◌ (omega arith) (
      ap₂ ◌∷◌ (omega arith) (
        ap₂ ◌∷◌ (omega arith) (
          ap₂ ◌∷◌ (omega arith) (
            ap₂ ◌∷◌ (omega arith)
              (ap₂ ◌∷◌ (omega arith) (ap₂ ◌∷◌ (omega arith) (payload-mods cs))))))))

mods-append : (xs ys : List ℕ) → mods (xs ++ ys) ≡ mods xs ++ mods ys
mods-append [] ys = refl
mods-append (x ∷ xs) ys = ap (λ r. x % 256 ∷ r) (mods-append xs ys)

evens-mods : (xs : List ℕ) → evens (mods xs) ≡ mods (evens xs)
unfolding evens
evens-mods [] = refl
evens-mods (x ∷ []) = refl
evens-mods (x ∷ y ∷ xs) = ap (λ r. x % 256 ∷ r) (evens-mods xs)

odds-mods : (xs : List ℕ) → odds (mods xs) ≡ mods (odds xs)
unfolding odds
odds-mods [] = refl
odds-mods (x ∷ []) = refl
odds-mods (x ∷ y ∷ xs) = ap (λ r. y % 256 ∷ r) (odds-mods xs)

pub unweave-mods : (blocks : ℕ) (xs : List ℕ) → unweave blocks (mods xs) ≡ mods (unweave blocks xs)
unfolding unweave
unweave-mods blocks xs = elim (Bool-cases (blocks == 2)) [
  | inl two ↦
      rw two (ap₂ ◌++◌ (evens-mods xs) (odds-mods xs) ∙ sym (mods-append (evens xs) (odds xs)))
  | inr one ↦ rw one refl
]
