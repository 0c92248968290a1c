-- ===== src/Qr/Missed.antt =====
-- services/api/src/qr.ts: the loop over the columns leaves before the last four of them.
use trans_f.Prelude.{
  ℕ, zero, suc, Bool, true, false, List, [], ◌∷◌, ◌+◌, ◌*◌, ◌≤◌, ◌<◌, ◌≡◌, refl, arith, ap, ◌∙◌,
  ◌&&◌, not,
}
use mathlib.Core.Path.{ap₂}
use trans_f.Prelude.Tests.{ltb, ltb→lt}
use trans_f.Prelude.Lists.{length, any, length-append}
use trans_f.Qr.{get_or, blocks_l, data_per_block_l, ec_per_block_l}
use trans_f.Qr.Stream.{bitstream}
use trans_f.Qr.Blocks.{interleave, columns, split_blocks, check_blocks}
use trans_f.Qr.Grid.{Position, patterns, data_module_order, is_free}
use trans_f.Qr.Painted.{same_place}
use trans_f.Qr.Back.{length-columns, length-split_blocks}

length-check_blocks :
    (ec_len : ℕ) (blocks : List (List ℕ)) → length (check_blocks ec_len blocks) ≡ length blocks
unfolding check_blocks
length-check_blocks ec_len [] = refl
length-check_blocks ec_len (b ∷ bs) = ap suc (length-check_blocks ec_len bs)

abbrev total_codewords : ℕ → ℕ
total_codewords version =
    get_or 0 data_per_block_l version * get_or 0 blocks_l version
    + get_or 0 ec_per_block_l version * get_or 0 blocks_l version

-- The codewords fill the version.
pub length-interleave :
    (codewords : List ℕ) (version : ℕ)
    → length (interleave codewords version) ≡ total_codewords version
unfolding interleave
length-interleave codewords version =
    let per = get_or 0 data_per_block_l version in
    let ec = get_or 0 ec_per_block_l version in
    let n = get_or 0 blocks_l version in
    let blocks = split_blocks n per codewords in
    let few = length-split_blocks n per codewords in
    length-append (columns per 0 blocks) (columns ec 0 (check_blocks ec blocks))
    ∙ ap₂ ◌+◌ (length-columns per 0 blocks ∙ ap (λ k. per * k) few) (
        length-columns ec 0 (check_blocks ec blocks)
        ∙ ap (λ k. ec * k) (length-check_blocks ec blocks ∙ few))

abbrev pub corner : Position
corner = record { row = 9; col = 0 }

missing : ℕ → Bool
missing version =
    ltb (length (data_module_order version)) (8 * total_codewords version)
    && is_free ((patterns version).at 9 0)
    && not (any (same_place corner) (data_module_order version))

every_missing : (version : ℕ) → 1 ≤ version → version ≤ 6 → missing version ≡ true
unfolding missing data_module_order any get_or
every_missing (suc zero) low high = refl
every_missing (suc (suc zero)) low high = refl
every_missing (suc (suc (suc zero))) low high = refl
every_missing (suc (suc (suc (suc zero)))) low high = refl
every_missing (suc (suc (suc (suc (suc zero))))) low high = refl
every_missing (suc (suc (suc (suc (suc (suc zero)))))) low high = refl
every_missing zero low high = absurd (omega arith)
every_missing (suc (suc (suc (suc (suc (suc (suc n))))))) low high = absurd (omega arith)

split_missing : (a b c : Bool) → (a && b && not c) ≡ true → (a ≡ true) × (b ≡ true) × (c ≡ false)
split_missing true true false h = (refl, refl, refl)
split_missing false b c h = cc
split_missing true false c h = cc
split_missing true true true h = cc

-- At every version the order has fewer modules than a text's codewords have bits, so the last check
-- bits are never written; the module of row 9 and column 0 carries no fixed pattern and is not in
-- the order.
pub order-short :
    (version : ℕ) (bytes : List ℕ)
    → 1 ≤ version
    → version ≤ 6
    → (length (data_module_order version)
        < 8 * length (interleave (bitstream bytes version) version))
      × (is_free ((patterns version).at 9 0) ≡ true)
      × (any (same_place corner) (data_module_order version) ≡ false)
unfolding missing
order-short version bytes low high =
    let (short, vacant, unvisited) =
      split_missing (ltb (length (data_module_order version)) (8 * total_codewords version))
        (is_free ((patterns version).at 9 0)) (any (same_place corner) (data_module_order version))
        (every_missing version low high) in
    (
      omega (arith, ltb→lt _ _ short, length-interleave (bitstream bytes version) version),
      vacant,
      unvisited,
    )
