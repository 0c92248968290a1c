-- ===== src/Qr/Painted.antt =====
-- What painting, masking and placing the payload leave for the reader.
use trans_f.Prelude.{
  ℕ, zero, suc, Bool, true, false, not, ◌&&◌, List, [], ◌∷◌, ◌+◌, ◌≡◌, refl, arith, ap, ◌∙◌, inl,
  inr,
}
use mathlib.Core.Path.{ap₂}
use trans_f.Prelude.Tests.{◌==◌, if◌then◌else◌, Bool-cases}
use trans_f.Prelude.Lists.{length, any, any-tail}
use trans_f.Qr.Grid.{Module, Grid, paint, Position, module_of}
use trans_f.Qr.Matrix.{apply_mask, place_payload, bit_at}
use trans_f.Qr.Penalty.{is_dark, masks}
use trans_f.Qr.Reading.{differ, bit_of, read_modules}

abbrev pub same_place : Position → Position → Bool
same_place p q = p.row == q.row && p.col == q.col

-- No position comes twice.
abbrev pub AreApart : List Position → Type 0
AreApart [] = Unit
AreApart (p ∷ ps) = (any (same_place p) ps ≡ false) × AreApart ps

abbrev pub darks : Grid → ℕ → ℕ → Bool
darks g r c = is_dark (g.at r c)

-- The bits that stand at the positions.
unfoldable pub bits_at : (ℕ → ℕ → Bool) → List Position → List ℕ
bits_at d [] = []
bits_at d (p ∷ ps) = bit_of (d p.row p.col) ∷ bits_at d ps

paint_self : (p : Position) (m : Module) (g : Grid) → (paint p.row p.col m g).at p.row p.col ≡ m
unfolding paint
paint_self p m g = ground arith

paint_ne :
    (p q : Position) (m : Module) (g : Grid)
    → same_place p q ≡ false
    → (paint q.row q.col m g).at p.row p.col ≡ g.at p.row p.col
unfolding paint
paint_ne p q m g h = ground arith

same_place_comm : (p q : Position) → same_place p q ≡ same_place q p
same_place_comm p q = ground arith

bits_at-paint :
    (p : Position) (m : Module) (g : Grid) (ps : List Position)
    → any (same_place p) ps ≡ false
    → bits_at (darks (paint p.row p.col m g)) ps ≡ bits_at (darks g) ps
unfolding bits_at
bits_at-paint p m g [] h = refl
bits_at-paint p m g (q ∷ ps) h =
    let (apart, rest) = any-tail (same_place p) q ps h in
    ap₂ ◌∷◌ (ap (λ x. bit_of (is_dark x)) (paint_ne q p m g (same_place_comm q p ∙ apart)))
      (bits_at-paint p m g ps rest)

-- One step of a mask.
abbrev pub masked : ℕ → Position → Grid → Grid
masked mask p g =
    if masks mask p.row p.col
    then paint p.row p.col (module_of (not (is_dark (g.at p.row p.col)))) g
    else g

is_dark-module_of : (b : Bool) → is_dark (module_of b) ≡ b
is_dark-module_of true = refl
is_dark-module_of false = refl

not-not : (b : Bool) → not (not b) ≡ b
not-not true = refl
not-not false = refl

masked_self :
    (mask : ℕ) (p : Position) (g : Grid)
    → differ (darks (masked mask p g) p.row p.col) (masks mask p.row p.col) ≡ darks g p.row p.col
masked_self mask p g = elim (Bool-cases (masks mask p.row p.col)) [
  | inl on ↦ rw on (
      ap not (
        ap is_dark (paint_self p (module_of (not (is_dark (g.at p.row p.col)))) g)
        ∙ is_dark-module_of (not (is_dark (g.at p.row p.col))))
      ∙ not-not (is_dark (g.at p.row p.col)))
  | inr off ↦ rw off refl
]

masked_ne :
    (mask : ℕ) (p q : Position) (g : Grid)
    → same_place p q ≡ false
    → (masked mask q g).at p.row p.col ≡ g.at p.row p.col
masked_ne mask p q g h = elim (Bool-cases (masks mask q.row q.col)) [
  | inl on ↦ rw on (paint_ne p q _ g h)
  | inr off ↦ rw off refl
]

bits_at-masked :
    (mask : ℕ) (p : Position) (g : Grid) (ps : List Position)
    → any (same_place p) ps ≡ false
    → bits_at (darks (masked mask p g)) ps ≡ bits_at (darks g) ps
bits_at-masked mask p g ps h = elim (Bool-cases (masks mask p.row p.col)) [
  | inl on ↦ rw on (bits_at-paint p _ g ps h)
  | inr off ↦ rw off refl
]

apply_mask_ne :
    (mask : ℕ) (p : Position) (ps : List Position) (g : Grid)
    → any (same_place p) ps ≡ false
    → (apply_mask mask ps g).at p.row p.col ≡ g.at p.row p.col
unfolding apply_mask
apply_mask_ne mask p [] g h = refl
apply_mask_ne mask p (q ∷ ps) g h =
    let (apart, rest) = any-tail (same_place p) q ps h in
    apply_mask_ne mask p ps (masked mask q g) rest ∙ masked_ne mask p q g apart

-- The reader lifts the mask that was laid.
pub read-apply_mask :
    (mask : ℕ) (ps : List Position) (g : Grid)
    → AreApart ps
    → read_modules (darks (apply_mask mask ps g)) mask ps ≡ bits_at (darks g) ps
unfolding read_modules bits_at apply_mask
read-apply_mask mask [] g h = refl
read-apply_mask mask (p ∷ ps) g (alone, h) =
    ap₂ ◌∷◌
      (ap (λ x. bit_of (differ (is_dark x) (masks mask p.row p.col)))
          (apply_mask_ne mask p ps (masked mask p g) alone)
        ∙ ap bit_of (masked_self mask p g))
      (read-apply_mask mask ps (masked mask p g) h ∙ bits_at-masked mask p g ps alone)

-- The bits of the codewords from the i-th on, `n` of them.
unfoldable pub stream : List ℕ → ℕ → ℕ → List ℕ
stream codewords i zero = []
stream codewords i (suc n) = bit_of (bit_at codewords i) ∷ stream codewords (i + 1) n

place_payload_ne :
    (codewords : List ℕ) (i : ℕ) (p : Position) (ps : List Position) (g : Grid)
    → any (same_place p) ps ≡ false
    → (place_payload codewords i ps g).at p.row p.col ≡ g.at p.row p.col
unfolding place_payload
place_payload_ne codewords i p [] g h = refl
place_payload_ne codewords i p (q ∷ ps) g h =
    let (apart, rest) = any-tail (same_place p) q ps h in
    place_payload_ne codewords (i + 1) p ps _ rest ∙ paint_ne p q _ g apart

-- The payload's modules hold the codewords' bits.
pub bits_at-place_payload :
    (codewords : List ℕ) (i : ℕ) (ps : List Position) (g : Grid)
    → AreApart ps
    → bits_at (darks (place_payload codewords i ps g)) ps ≡ stream codewords i (length ps)
unfolding bits_at place_payload stream
bits_at-place_payload codewords i [] g h = refl
bits_at-place_payload codewords i (p ∷ ps) g (alone, h) =
    let g' = paint p.row p.col (module_of (bit_at codewords i)) g in
    ap₂ ◌∷◌
      (ap (λ x. bit_of (is_dark x))
          (place_payload_ne codewords (i + 1) p ps g' alone ∙ paint_self p _ g)
        ∙ ap bit_of (is_dark-module_of (bit_at codewords i)))
      (bits_at-place_payload codewords (i + 1) ps g' h)
