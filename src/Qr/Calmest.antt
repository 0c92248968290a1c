-- ===== src/Qr/Calmest.antt =====
-- services/api/src/qr.ts: of the eight masks the one with the least penalty is taken.
use trans_f.Prelude.{ℕ, zero, suc, List, ◌+◌, ◌≤◌, ◌<◌, ◌≡◌, arith, inl, inr, sym, ap, ◌∙◌}
use mathlib.Core.Path.{subst}
use trans_f.Prelude.Tests.{ltb, if◌then◌else◌, Bool-cases}
use native.Mathlib.Decide.{dec_lt}
use trans_f.Qr.Grid.{Grid, Position, patterns, data_module_order}
use trans_f.Qr.Matrix.{Best, best_from, scored, best_grid, place_payload, candidate}
use trans_f.Qr.Penalty.{penalty}
use trans_f.Qr.Back.{best_grid-IsCandidate}

least_of : (this b : Best) → (if ltb this.score b.score then this else b).score ≤ b.score
least_of this b = elim (Bool-cases (ltb this.score b.score)) [
  | inl lower ↦ rw lower (ground arith)
  | inr same ↦ rw same (omega arith)
]

least_this : (this b : Best) → (if ltb this.score b.score then this else b).score ≤ this.score
least_this this b = elim (Bool-cases (ltb this.score b.score)) [
  | inl lower ↦ rw lower (omega arith)
  | inr same ↦ rw same (ground arith)
]

module _ (ps : List Position) (g : Grid) where
  best_from-le : (n k : ℕ) (b : Best) → (best_from n k ps g b).score ≤ b.score
  unfolding best_from
  best_from-le zero k b = omega arith
  best_from-le (suc n) k b =
      let this = scored ps g k in
      omega (
        arith,
        best_from-le n (k + 1) (if ltb this.score b.score then this else b),
        least_of this b,
      )

  best_from-least :
      (n k j : ℕ) (b : Best)
      → k ≤ j
      → j < k + n
      → (best_from n k ps g b).score ≤ (scored ps g j).score
  unfolding best_from
  best_from-least zero k j b low high = absurd (omega arith)
  best_from-least (suc n) k j b low high =
      let this = scored ps g k in
      let next = if ltb this.score b.score then this else b in
      elim (dec_lt k j) [
        | yes later ↦ best_from-least n (k + 1) j next (omega arith) (omega arith)
        | no here ↦
            let same : k ≡ j = omega arith in
            rw (sym same) (omega (arith, best_from-le n (k + 1) next, least_this this b))
      ]

score-least :
    (codewords : List ℕ) (version mask : ℕ)
    → mask < 8
    → let order = data_module_order version in
      (best_grid codewords version).score
      ≤ penalty (candidate order (place_payload codewords 0 order (patterns version)) mask)
unfolding best_grid
score-least codewords version mask low =
    let order = data_module_order version in
    let placed = place_payload codewords 0 order (patterns version) in
    elim (dec_lt 0 mask) [
      | yes later ↦
          best_from-least order placed 7 1 mask (scored order placed 0) (omega arith) (omega arith)
      | no first ↦
          let same : 0 ≡ mask = omega arith in
          subst
            (λ m.
              (best_from 7 1 order placed (scored order placed 0)).score
              ≤ (scored order placed m).score)
            same (best_from-le order placed 7 1 (scored order placed 0))
    ]

-- The penalty of the grid taken is at most that of the candidate of each of the eight masks.
pub penalty-best_grid :
    (codewords : List ℕ) (version mask : ℕ)
    → mask < 8
    → let order = data_module_order version in
      penalty (best_grid codewords version).grid
      ≤ penalty (candidate order (place_payload codewords 0 order (patterns version)) mask)
penalty-best_grid codewords version mask low =
    let (same, _) = best_grid-IsCandidate codewords version in
    let scored_right : (best_grid codewords version).score
        ≡ penalty (best_grid codewords version).grid =
      ap (λ b. b.score) same ∙ sym (ap (λ b. penalty b.grid) same) in
    rw (sym scored_right) (score-least codewords version mask low)
