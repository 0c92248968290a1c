-- ===== src/Qr/Version.antt =====
-- services/api/src/qr.ts: the version that a text gets.
use trans_f.Prelude.{ℕ, true, false, List, ◌-◌, ◌≤◌, ◌<◌, ◌≡◌, refl, arith, inl, inr, ◌⊎◌}
use trans_f.Prelude.Tests.{leb, Bool-cases}
use trans_f.Prelude.Lists.{length}
use trans_f.Exec.{ok, err}
use trans_f.Qr.{get_or, capacity_l}
use trans_f.Qr.Stream.{pick_version, too_long}
use trans_f.Qr.Matrix.{qr_matrix}

-- The smallest version that holds a text of up to 134 bytes is taken.
pub pick_version-fits :
    (n : ℕ)
    → n ≤ 134
    → (version : ℕ) × (pick_version n ≡ ok version)
      × (1 ≤ version)
      × (version ≤ 6)
      × (n ≤ get_or 0 capacity_l version)
      × ((version ≡ 1) ⊎ (get_or 0 capacity_l (version - 1) < n))
unfolding pick_version get_or
pick_version-fits n h = elim (Bool-cases (leb n 17)) [
  | inl fits ↦ (1, rw fits refl, omega arith, omega arith, ground arith, inl refl)
  | inr over₁ ↦ elim (Bool-cases (leb n 32)) [
    | inl fits ↦
        (2, rw (over₁, fits) refl, omega arith, omega arith, ground arith, inr (ground arith))
    | inr over₂ ↦ elim (Bool-cases (leb n 53)) [
      | inl fits ↦ (
        3,
        rw (over₁, over₂, fits) refl,
        omega arith,
        omega arith,
        ground arith,
        inr (ground arith),
      )
      | inr over₃ ↦ elim (Bool-cases (leb n 78)) [
        | inl fits ↦ (
          4,
          rw (over₁, over₂, over₃, fits) refl,
          omega arith,
          omega arith,
          ground arith,
          inr (ground arith),
        )
        | inr over₄ ↦ elim (Bool-cases (leb n 106)) [
          | inl fits ↦ (
            5,
            rw (over₁, over₂, over₃, over₄, fits) refl,
            omega arith,
            omega arith,
            ground arith,
            inr (ground arith),
          )
          | inr over₅ ↦
              let fits : leb n 134 ≡ true = ground arith in
              (
                6,
                rw (over₁, over₂, over₃, over₄, over₅, fits) refl,
                omega arith,
                omega arith,
                h,
                inr (ground arith),
              )
        ]
      ]
    ]
  ]
]

-- A text of more than 134 bytes is refused.
pub qr_matrix_long : (bytes : List ℕ) → 134 < length bytes → qr_matrix bytes ≡ err too_long
unfolding qr_matrix pick_version get_or
qr_matrix_long bytes h =
    let n = length bytes in
    let a : leb n 17 ≡ false = ground arith in
    let b : leb n 32 ≡ false = ground arith in
    let c : leb n 53 ≡ false = ground arith in
    let d : leb n 78 ≡ false = ground arith in
    let e : leb n 106 ≡ false = ground arith in
    let f : leb n 134 ≡ false = ground arith in rw (a, b, c, d, e, f) refl
