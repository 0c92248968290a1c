-- ===== src/Tests/Codes.antt =====
-- The QR encoder at small inputs, and the theorems on it applied.
use trans_f.Prelude.{
  ℕ, zero, suc, some, List, [], ◌∷◌, ◌≡◌, refl, ◌-◌, ◌*◌, ◌≤◌, ◌<◌, true, false, arith, ◌⊎◌,
}
use trans_f.Prelude.Lists.{length, any}
use trans_f.Exec.{ok, err}
use trans_f.Qr.{get_or, capacity_l}
use trans_f.Qr.Galois.{ec_codewords, mul}
use trans_f.Qr.Stream.{bitstream, pick_version, too_long}
use trans_f.Qr.Blocks.{interleave}
use trans_f.Qr.Grid.{data_module_order, patterns, is_free}
use trans_f.Qr.Matrix.{qr_matrix, Matrix, format_bits, best_grid, candidate, place_payload}
use trans_f.Qr.Penalty.{penalty}
use trans_f.Qr.Reader.{read_symbol}
use trans_f.Qr.Version.{pick_version-fits, qr_matrix_long}
use trans_f.Qr.Back.{read-qr_matrix}
use trans_f.Qr.Missed.{order-short, corner}
use trans_f.Qr.Painted.{same_place}
use trans_f.Qr.Calmest.{penalty-best_grid}

ec_runs : ec_codewords (64 ∷ 20 ∷ 16 ∷ []) 7 ≡ 105 ∷ 20 ∷ 157 ∷ 121 ∷ 69 ∷ 71 ∷ 223 ∷ []
unfolding ec_codewords mul
ec_runs = refl

format_0 : format_bits 0 ≡ 0x77c4
unfolding format_bits
format_0 = refl

bitstream_runs :
    bitstream (b'A' ∷ []) 1
    ≡ 64 ∷ 20 ∷ 16 ∷ 236 ∷ 17 ∷ 236 ∷ 17 ∷ 236 ∷ 17 ∷ 236 ∷ 17 ∷ 236 ∷ 17 ∷ 236 ∷ 17 ∷ 236 ∷ 17
      ∷ 236 ∷ 17 ∷ []
unfolding bitstream
bitstream_runs = refl

pick_version-fits_example :
    (version : ℕ) × (pick_version 20 ≡ ok version)
    × (1 ≤ version)
    × (version ≤ 6)
    × (20 ≤ get_or 0 capacity_l version)
    × ((version ≡ 1) ⊎ (get_or 0 capacity_l (version - 1) < 20))
pick_version-fits_example = pick_version-fits 20 (omega arith)

-- `n` times the letter x
abbrev letters : ℕ → List ℕ
letters zero = []
letters (suc n) = b'x' ∷ letters n

qr_matrix_long_example : qr_matrix (letters 135) ≡ err too_long
qr_matrix_long_example = qr_matrix_long (letters 135) (omega arith)

read-qr_matrix_example :
    (m : Matrix) × (qr_matrix (b'0' ∷ b'x' ∷ b'a' ∷ []) ≡ ok m)
    × (read_symbol m ≡ some (b'0' ∷ b'x' ∷ b'a' ∷ []))
read-qr_matrix_example = read-qr_matrix (b'0' ∷ b'x' ∷ b'a' ∷ []) (omega arith) (omega arith)

order-short_example :
    (length (data_module_order 3) < 8 * length (interleave (bitstream (letters 42) 3) 3))
    × (is_free ((patterns 3).at 9 0) ≡ true)
    × (any (same_place corner) (data_module_order 3) ≡ false)
order-short_example = order-short 3 (letters 42) (omega arith) (omega arith)

penalty-best_grid_example :
    penalty (best_grid (1 ∷ 2 ∷ []) 1).grid
    ≤ penalty (
        candidate
          (data_module_order 1)
          (place_payload (1 ∷ 2 ∷ []) 0 (data_module_order 1) (patterns 1))
          5)
penalty-best_grid_example = penalty-best_grid (1 ∷ 2 ∷ []) 1 5 (omega arith)
