-- ===== src/Qr/Order.antt =====
-- services/api/src/qr.ts: the order of the modules at each of the six versions, by evaluation; and
-- the columns that it never visits.
use trans_f.Prelude.{
  ℕ, zero, suc, Bool, true, false, not, ◌&&◌, List, [], ◌∷◌, ◌+◌, ◌-◌, ◌*◌, ◌/◌, ◌%◌, ◌≤◌, ◌<◌, ◌≡◌,
  refl, arith, inl, inr,
}
use mathlib.Core.Path.{ap₂}
use trans_f.Prelude.Tests.{ltb, leb, ◌==◌, if◌then◌else◌, Bool-cases, leb→le, ==_iff}
use trans_f.Prelude.Lists.{length, any}
use trans_f.Qr.{get_or}
use trans_f.Qr.Stream.{data_codewords}
use trans_f.Qr.Grid.{Position, patterns, data_module_order, size_of}
use trans_f.Qr.Placed.{in_format}
use trans_f.Qr.Painted.{AreApart, same_place}

-- When the zigzag comes to a cell: two columns at a time from the right, up and down in turn.
rank_in : ℕ → ℕ → ℕ → ℕ
rank_in size row from_right =
    let pair = from_right / 2 in
    (pair * size + (if pair % 2 == 0 then size - 1 - row else row)) * 2 + from_right % 2

rank : ℕ → ℕ → ℕ → ℕ
unfolding rank_in
rank size row col = rank_in size row (if ltb col 6 then size - 2 - col else size - 1 - col)

-- The ranks rise along the list, from `bound` on.
climbs : ℕ → ℕ → List Position → Bool
climbs size bound [] = true
climbs size bound (p ∷ ps) =
    let rest = climbs size (rank size p.row p.col + 1) ps in
    if leb bound (rank size p.row p.col) then rest else false

rank-same :
    (size : ℕ) (p q : Position)
    → same_place p q ≡ true
    → rank size p.row p.col ≡ rank size q.row q.col
rank-same size p q h =
    let row : p.row ≡ q.row = ground arith in
    let col : p.col ≡ q.col = ground arith in ap₂ (rank size) row col

climbs-past :
    (size bound : ℕ) (p : Position) (ps : List Position)
    → climbs size bound ps ≡ true
    → rank size p.row p.col < bound
    → any (same_place p) ps ≡ false
unfolding climbs any
climbs-past size bound p [] h low = refl
climbs-past size bound p (q ∷ ps) h low = elim (Bool-cases (leb bound (rank size q.row q.col))) [
  | inr no' ↦ cc (rw no' at h)
  | inl over ↦
      let above : bound ≤ rank size q.row q.col = leb→le _ _ over in
      elim (Bool-cases (same_place p q)) [
        | inl same ↦ absurd (omega (arith, rank-same size p q same))
        | inr apart ↦
            rw apart
              (climbs-past size (rank size q.row q.col + 1) p ps (rw over at h) (omega arith))
      ]
]

climbs-AreApart : (size bound : ℕ) (ps : List Position) → climbs size bound ps ≡ true → AreApart ps
unfolding climbs
climbs-AreApart size bound [] h = tt
climbs-AreApart size bound (p ∷ ps) h = elim (Bool-cases (leb bound (rank size p.row p.col))) [
  | inr no' ↦ cc (rw no' at h)
  | inl over ↦ (
    climbs-past size (rank size p.row p.col + 1) p ps (rw over at h) (omega arith),
    climbs-AreApart size (rank size p.row p.col + 1) ps (rw over at h),
  )
]

-- What is checked at a version: the order climbs, none of it is in a format strip, there is enough
-- of it for the data codewords, and the grid has the version's size.
fine : ℕ → Bool
fine version =
    climbs (size_of version) 0 (data_module_order version)
    && not (any (in_format (size_of version)) (data_module_order version))
    && leb (8 * data_codewords version) (length (data_module_order version))
    && (patterns version).size == size_of version

every_fine : (version : ℕ) → 1 ≤ version → version ≤ 6 → fine version ≡ true
unfolding fine climbs rank data_module_order any get_or
every_fine (suc zero) low high = refl
every_fine (suc (suc zero)) low high = refl
every_fine (suc (suc (suc zero))) low high = refl
every_fine (suc (suc (suc (suc zero)))) low high = refl
every_fine (suc (suc (suc (suc (suc zero))))) low high = refl
every_fine (suc (suc (suc (suc (suc (suc zero)))))) low high = refl
every_fine zero low high = absurd (omega arith)
every_fine (suc (suc (suc (suc (suc (suc (suc n))))))) low high = absurd (omega arith)

pub record IsOrdered (version : ℕ) : Type 0 where
  pub apart : AreApart (data_module_order version)
  pub clear : any (in_format (patterns version).size) (data_module_order version) ≡ false
  pub enough : 8 * data_codewords version ≤ length (data_module_order version)
  pub big : 21 ≤ (patterns version).size
  pub sized : (patterns version).size ≡ size_of version

split_fine :
    (a b c d : Bool)
    → (a && not b && c && d) ≡ true
    → (a ≡ true) × (b ≡ false) × (c ≡ true) × (d ≡ true)
split_fine true false true true h = (refl, refl, refl, refl)
split_fine false b c d h = cc
split_fine true true c d h = cc
split_fine true false false d h = cc
split_fine true false true false h = cc

pub order-IsOrdered : (version : ℕ) → 1 ≤ version → version ≤ 6 → IsOrdered version
unfolding fine
order-IsOrdered version low high =
    let order = data_module_order version in
    let (climbing, clear, enough, sized) =
      split_fine (climbs (size_of version) 0 order) (any (in_format (size_of version)) order)
        (leb (8 * data_codewords version) (length order))
        ((patterns version).size == size_of version) (every_fine version low high) in
    let same : (patterns version).size ≡ size_of version = (==_iff _ _).0 sized in
    record {
      apart = climbs-AreApart (size_of version) 0 order climbing;
      clear = rw same clear;
      enough = leb→le _ _ enough;
      big = rw same (omega arith);
      sized = same;
    }
