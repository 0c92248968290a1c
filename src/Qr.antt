-- ===== src/Qr.antt =====
-- services/api/src/qr.ts: the QR encoder of the payment page, from the text's bytes to the modules.
--
-- `TextEncoder` is outside: the encoder is given the bytes. A grid is its size and a function from
-- row and column, and a loop that writes every cell of a region is one change of that function. The
-- fields of the text are in Qr/Stream.antt, the check bytes in Qr/Galois.antt and Qr/Blocks.antt, the
-- fixed patterns and the order of the modules in Qr/Grid.antt, the masks and their penalty in
-- Qr/Penalty.antt, and the rest in Qr/Matrix.antt.
pub mod Galois
pub mod Stream
pub mod Blocks
pub mod Grid
pub mod Matrix
pub mod Reading
pub mod Reader
pub mod Decode
pub mod Weave
pub mod Placed
pub mod Bits
pub mod Order
pub mod Version
pub mod Back
pub mod Missed
pub mod Calmest
pub mod Penalty
pub mod Painted
use trans_f.Prelude.{ℕ, zero, suc, List, [], ◌∷◌}

-- xs[i], with a default for what lies outside
unfoldable pub get_or {ℓ} : {A : Type ℓ} → A → List A → ℕ → A
get_or d [] i = d
get_or d (x ∷ xs) zero = x
get_or d (x ∷ xs) (suc i) = get_or d xs i

-- xs.slice(0, n) and xs.slice(n)
unfoldable pub take {ℓ} : {A : Type ℓ} → ℕ → List A → List A
take zero xs = []
take (suc n) [] = []
take (suc n) (x ∷ xs) = x ∷ take n xs

unfoldable pub drop {ℓ} : {A : Type ℓ} → ℕ → List A → List A
drop zero xs = xs
drop (suc n) [] = []
drop (suc n) (x ∷ xs) = drop n xs

-- CAPACITY_L, BLOCKS_L, DATA_PER_BLOCK_L and EC_PER_BLOCK_L
abbrev pub capacity_l : List ℕ
capacity_l = 0 ∷ 17 ∷ 32 ∷ 53 ∷ 78 ∷ 106 ∷ 134 ∷ []

abbrev pub blocks_l : List ℕ
blocks_l = 0 ∷ 1 ∷ 1 ∷ 1 ∷ 1 ∷ 1 ∷ 2 ∷ []

abbrev pub data_per_block_l : List ℕ
data_per_block_l = 0 ∷ 19 ∷ 34 ∷ 55 ∷ 80 ∷ 108 ∷ 68 ∷ []

abbrev pub ec_per_block_l : List ℕ
ec_per_block_l = 0 ∷ 7 ∷ 10 ∷ 15 ∷ 20 ∷ 26 ∷ 18 ∷ []
