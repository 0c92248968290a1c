-- ===== src/Qr/Blocks.antt =====
-- services/api/src/qr.ts: data blocks, then check blocks, in the order that they go on the grid.
use trans_f.Prelude.{ℕ, zero, suc, List, [], ◌∷◌, ◌++◌, ◌+◌}
use trans_f.Qr.{get_or, take, drop, blocks_l, data_per_block_l, ec_per_block_l}
use trans_f.Qr.Galois.{ec_codewords}

-- data.subarray(b * perBlock, (b + 1) * perBlock), for `n` blocks
unfoldable pub split_blocks : ℕ → ℕ → List ℕ → List (List ℕ)
unfolding take drop
split_blocks zero per_block codewords = []
split_blocks (suc n) per_block codewords =
    take per_block codewords ∷ split_blocks n per_block (drop per_block codewords)

unfoldable pub check_blocks : ℕ → List (List ℕ) → List (List ℕ)
unfolding ec_codewords
check_blocks ec_len [] = []
check_blocks ec_len (b ∷ bs) = ec_codewords b ec_len ∷ check_blocks ec_len bs

-- for (const b of blocks) out.push(b[i])
unfoldable pub column : ℕ → List (List ℕ) → List ℕ
unfolding get_or
column i [] = []
column i (b ∷ bs) = get_or 0 b i ∷ column i bs

-- for (i < n) for (const b of blocks) out.push(b[i])
unfoldable pub columns : ℕ → ℕ → List (List ℕ) → List ℕ
unfolding column
columns zero i blocks = []
columns (suc n) i blocks = column i blocks ++ columns n (i + 1) blocks

-- interleave(data, version)
unfoldable pub interleave : List ℕ → ℕ → List ℕ
unfolding split_blocks check_blocks columns get_or
interleave codewords version =
    let per_block = get_or 0 data_per_block_l version in
    let ec_len = get_or 0 ec_per_block_l version in
    let blocks = split_blocks (get_or 0 blocks_l version) per_block codewords in
    columns per_block 0 blocks ++ columns ec_len 0 (check_blocks ec_len blocks)
