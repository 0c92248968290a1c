-- ===== src/Qr/Placed.antt =====
-- services/api/src/qr.ts: what stands at the payload's modules when a candidate is finished.
use trans_f.Prelude.{
  ℕ, zero, suc, Bool, true, false, ◌&&◌, ◌||◌, List, [], ◌∷◌, ◌+◌, ◌-◌, ◌/◌, ◌%◌, ◌^◌, ◌≤◌, ◌<◌,
  ◌≡◌, refl, arith, ap, ◌∙◌, inl, inr,
}
use mathlib.Core.Path.{ap₂}
use trans_f.Prelude.Tests.{ltb, leb, ◌==◌, if◌then◌else◌, Bool-cases}
use trans_f.Prelude.Lists.{any, any-tail}
use trans_f.Qr.Grid.{Module, Grid, paint, Position, module_of}
use trans_f.Qr.Matrix.{
  apply_mask, place_payload, place_format, place_strips, bit_at, candidate, best_from, Best, scored,
  vertical, horizontal, format_bits,
}
use trans_f.Qr.Penalty.{is_dark, masks}
use trans_f.Qr.Reading.{differ, bit_of, read_modules}
use trans_f.Qr.Painted.{AreApart, darks, bits_at, masked, read-apply_mask}

-- Where the format strips and the dark module go.
abbrev pub in_format : ℕ → Position → Bool
in_format size p =
    (p.row == 8 && (leb p.col 8 || leb size (p.col + 8)))
    || (p.col == 8 && (leb p.row 8 || leb size (p.row + 8)))

size-vertical : (size i : ℕ) (v : Module) (g : Grid) → (vertical size i v g).size ≡ g.size
unfolding paint
size-vertical size i v g = ground arith

size-horizontal : (size i : ℕ) (v : Module) (g : Grid) → (horizontal size i v g).size ≡ g.size
unfolding paint
size-horizontal size i v g = ground arith

vertical_ne :
    (size i : ℕ) (v : Module) (g : Grid) (p : Position)
    → i < 15
    → 21 ≤ size
    → in_format size p ≡ false
    → (vertical size i v g).at p.row p.col ≡ g.at p.row p.col
unfolding paint
vertical_ne size i v g p h big off = ground arith

horizontal_ne :
    (size i : ℕ) (v : Module) (g : Grid) (p : Position)
    → i < 15
    → 21 ≤ size
    → in_format size p ≡ false
    → (horizontal size i v g).at p.row p.col ≡ g.at p.row p.col
unfolding paint
horizontal_ne size i v g p h big off = ground arith

strips_ne :
    (n i bits : ℕ) (g : Grid) (p : Position) (size : ℕ)
    → g.size ≡ size
    → n + i ≤ 15
    → 21 ≤ size
    → in_format size p ≡ false
    → ((place_strips n i bits g).at p.row p.col ≡ g.at p.row p.col)
      × ((place_strips n i bits g).size ≡ size)
unfolding place_strips
strips_ne zero i bits g p size same h big off = (refl, same)
strips_ne (suc n) i bits g p size same h big off =
    let v = module_of (bits / 2 ^ i % 2 == 1) in
    let g₁ = vertical g.size i v g in
    let g₂ = horizontal g.size i v g₁ in
    let kept : g₂.size ≡ size = size-horizontal g.size i v g₁ ∙ size-vertical g.size i v g ∙ same in
    let off' : in_format g.size p ≡ false = rw same off in
    let (here, last) = strips_ne n (i + 1) bits g₂ p size kept (omega arith) big off in
    (
      here
          ∙ horizontal_ne g.size i v g₁ p (omega arith) (omega (arith, same)) off'
          ∙ vertical_ne g.size i v g p (omega arith) (omega (arith, same)) off',
      last,
    )

pub size-place_strips : (n i bits : ℕ) (g : Grid) → (place_strips n i bits g).size ≡ g.size
unfolding place_strips
size-place_strips zero i bits g = refl
size-place_strips (suc n) i bits g =
    let v = module_of (bits / 2 ^ i % 2 == 1) in
    size-place_strips n (i + 1) bits (horizontal g.size i v (vertical g.size i v g))
    ∙ size-horizontal g.size i v (vertical g.size i v g)
    ∙ size-vertical g.size i v g

-- The format strips leave the payload's modules alone.
place_format_ne :
    (mask : ℕ) (g : Grid) (p : Position)
    → 21 ≤ g.size
    → in_format g.size p ≡ false
    → (place_format mask g).at p.row p.col ≡ g.at p.row p.col
unfolding place_format paint
place_format_ne mask g p big off =
    let (here, kept) = strips_ne 15 0 (format_bits mask) g p g.size refl (omega arith) big off in
    let apart : (p.row == g.size - 8 && p.col == 8) ≡ false = ground arith in rw apart here

read-place_format :
    (mask : ℕ) (g : Grid) (ps : List Position)
    → 21 ≤ g.size
    → any (in_format g.size) ps ≡ false
    → read_modules (darks (place_format mask g)) mask ps ≡ read_modules (darks g) mask ps
unfolding read_modules
read-place_format mask g [] big h = refl
read-place_format mask g (p ∷ ps) big h =
    let (off, rest) = any-tail (in_format g.size) p ps h in
    ap₂ ◌∷◌
      (ap (λ x. bit_of (differ (is_dark x) (masks mask p.row p.col)))
        (place_format_ne mask g p big off))
      (read-place_format mask g ps big rest)

pub size-apply_mask :
    (mask : ℕ) (ps : List Position) (g : Grid) → (apply_mask mask ps g).size ≡ g.size
unfolding apply_mask paint
size-apply_mask mask [] g = refl
size-apply_mask mask (p ∷ ps) g =
    size-apply_mask mask ps (masked mask p g)
    ∙ elim (Bool-cases (masks mask p.row p.col)) [ inl on ↦ rw on refl | inr off ↦ rw off refl ]

pub size-place_payload :
    (codewords : List ℕ) (i : ℕ) (ps : List Position) (g : Grid)
    → (place_payload codewords i ps g).size ≡ g.size
unfolding place_payload paint
size-place_payload codewords i [] g = refl
size-place_payload codewords i (p ∷ ps) g =
    size-place_payload codewords (i + 1) ps (paint p.row p.col (module_of (bit_at codewords i)) g)

-- A finished candidate reads as the bits that were there before its mask.
pub read-candidate :
    (mask : ℕ) (ps : List Position) (g : Grid)
    → AreApart ps
    → 21 ≤ g.size
    → any (in_format g.size) ps ≡ false
    → read_modules (darks (candidate ps g mask)) mask ps ≡ bits_at (darks g) ps
unfolding candidate
read-candidate mask ps g alone big off =
    let same = size-apply_mask mask ps g in
    read-place_format mask (apply_mask mask ps g) ps (rw same big) (rw same off)
    ∙ read-apply_mask mask ps g alone

-- It is the finished candidate of its own mask, which is one of the eight.
abbrev pub IsCandidate : List Position → Grid → Best → Type 0
IsCandidate ps g b = (b ≡ scored ps g b.mask) × (b.mask < 8)

better-IsCandidate :
    (test : Bool) (ps : List Position) (g : Grid) (this b : Best)
    → IsCandidate ps g this
    → IsCandidate ps g b
    → IsCandidate ps g (if test then this else b)
better-IsCandidate true ps g this b h k = h
better-IsCandidate false ps g this b h k = k

-- The best of the candidates is the one of its mask.
pub best_from-IsCandidate :
    (n k : ℕ) (ps : List Position) (g : Grid) (b : Best)
    → IsCandidate ps g b
    → n + k ≤ 8
    → IsCandidate ps g (best_from n k ps g b)
unfolding best_from
best_from-IsCandidate zero k ps g b h low = h
best_from-IsCandidate (suc n) k ps g b h low =
    let this = scored ps g k in
    let test = ltb this.score b.score in
    best_from-IsCandidate n (k + 1) ps g (if test then this else b)
      (better-IsCandidate test ps g this b (refl, omega arith) h) (omega arith)
