-- ===== src/Qr/Back.antt =====
-- services/api/src/qr.ts: a finished matrix gives the text back.
use trans_f.Prelude.{
  ℕ, zero, suc, some, List, [], ◌∷◌, ◌+◌, ◌-◌, ◌*◌, ◌≤◌, ◌<◌, ◌≡◌, refl, arith, sym, ap, ◌∙◌, ◌⊎◌,
}
use mathlib.Core.Path.{ap₂}
use trans_f.Prelude.Lists.{length, length-append}
use trans_f.Exec.{ok}
use trans_f.Qr.{get_or, take, blocks_l, data_per_block_l, capacity_l}
use trans_f.Qr.Stream.{pack, payload_bits, bitstream, data_codewords, pick_version}
use trans_f.Qr.Blocks.{interleave, columns, column, split_blocks}
use trans_f.Qr.Grid.{Grid, patterns, data_module_order, size_of}
use trans_f.Qr.Matrix.{
  best_grid, matrix_of, qr_matrix, Matrix, place_payload, candidate, scored, apply_mask,
}
use trans_f.Qr.Reading.{unweave, read_fields, read_modules}
use trans_f.Qr.Reader.{
  read_symbol, read_masked, read_text, in_order, mask_of, spelled, format_strip,
}
use trans_f.Qr.Reader.Agrees.{codewords-agree, in_order-agrees, read_text-agrees}
use trans_f.Qr.Reader.Format.{mask-candidate, size-candidate, version-size}
use trans_f.Qr.Decode.{AllBelow, read_fields-bitstream, length-bitstream}
use trans_f.Qr.Weave.{unweave-interleave}
use trans_f.Qr.Bits.{
  stream-payload, take-stream, pack-payload, payload-mods, unweave-mods, eights_lem, mods,
}
use trans_f.Qr.Placed.{
  read-candidate, best_from-IsCandidate, IsCandidate, size-place_payload, size-apply_mask,
}
use trans_f.Qr.Painted.{stream, bits_at-place_payload, darks}
use trans_f.Qr.Version.{pick_version-fits}
use trans_f.Qr.Order.{IsOrdered, order-IsOrdered}

-- Two bytes of framing fit beside the largest text of a version.
room :
    (version n : ℕ)
    → 1 ≤ version
    → version ≤ 6
    → n ≤ get_or 0 capacity_l version
    → n + 2 ≤ data_codewords version
unfolding get_or
room (suc zero) n low high h = omega arith
room (suc (suc zero)) n low high h = omega arith
room (suc (suc (suc zero))) n low high h = omega arith
room (suc (suc (suc (suc zero)))) n low high h = omega arith
room (suc (suc (suc (suc (suc zero))))) n low high h = omega arith
room (suc (suc (suc (suc (suc (suc zero)))))) n low high h = omega arith
room zero n low high h = absurd (omega arith)
room (suc (suc (suc (suc (suc (suc (suc k))))))) n low high h = absurd (omega arith)

length-column : (i : ℕ) (blocks : List (List ℕ)) → length (column i blocks) ≡ length blocks
unfolding column
length-column i [] = refl
length-column i (b ∷ bs) = ap suc (length-column i bs)

pub length-columns :
    (n i : ℕ) (blocks : List (List ℕ)) → length (columns n i blocks) ≡ n * length blocks
unfolding columns
length-columns zero i blocks = omega arith
length-columns (suc n) i blocks =
    let unroll : suc n * length blocks ≡ length blocks + n * length blocks = grind arith in
    omega (
      arith,
      unroll,
      length-append (column i blocks) (columns n (i + 1) blocks),
      length-column i blocks,
      length-columns n (i + 1) blocks,
    )

pub length-split_blocks :
    (n per_block : ℕ) (codewords : List ℕ) → length (split_blocks n per_block codewords) ≡ n
unfolding split_blocks
length-split_blocks zero per_block codewords = refl
length-split_blocks (suc n) per_block codewords = ap suc (length-split_blocks n per_block _)

data-le-length :
    (codewords : List ℕ) (version : ℕ)
    → data_codewords version ≤ length (interleave codewords version)
unfolding interleave
data-le-length codewords version =
    let per = get_or 0 data_per_block_l version in
    let blocks = split_blocks (get_or 0 blocks_l version) per codewords in
    let first = columns per 0 blocks in
    let size : length first ≡ data_codewords version =
      length-columns per 0 blocks
      ∙ ap (λ k. per * k) (length-split_blocks (get_or 0 blocks_l version) per codewords) in
    omega (arith, size, length-append first _)

-- The codewords of a text at a version.
abbrev words : List ℕ → ℕ → List ℕ
words bytes version = interleave (bitstream bytes version) version

-- The bits that the reader takes spell the data codewords of the text.
bits_read :
    (codewords : List ℕ) (version mask : ℕ) (g : Grid)
    → IsOrdered version
    → data_codewords version ≤ length codewords
    → g
      ≡ candidate
          (data_module_order version)
          (place_payload codewords 0 (data_module_order version) (patterns version))
          mask
    → take (8 * data_codewords version) (read_modules (darks g) mask (data_module_order version))
      ≡ payload_bits (take (data_codewords version) codewords)
bits_read codewords version mask g ordered enough same =
    let order = data_module_order version in
    let k = data_codewords version in
    let placed = place_payload codewords 0 order (patterns version) in
    let size = size-place_payload codewords 0 order (patterns version) in
    let read : read_modules (darks g) mask order ≡ stream codewords 0 (length order) =
      ap (λ t. read_modules (darks t) mask order) same
      ∙ read-candidate mask order placed ordered.apart (rw size ordered.big) (rw size ordered.clear)
      ∙ bits_at-place_payload codewords 0 order (patterns version) ordered.apart in
    ap (take (8 * k)) read
    ∙ take-stream (8 * k) (length order) codewords 0 ordered.enough
    ∙ ap (stream codewords 0) (sym (eights_lem k))
    ∙ stream-payload k codewords [] codewords 0 0 refl refl (omega arith) enough

pub best_grid-IsCandidate :
    (codewords : List ℕ) (version : ℕ)
    → IsCandidate
        (data_module_order version)
        (place_payload codewords 0 (data_module_order version) (patterns version))
        (best_grid codewords version)
unfolding best_grid
best_grid-IsCandidate codewords version =
    let order = data_module_order version in
    let placed = place_payload codewords 0 order (patterns version) in
    best_from-IsCandidate 7 1 order placed (scored order placed 0) (refl, omega arith) (omega arith)

-- The grid of the best candidate has the version's size, and its strip names its mask.
best_grid-read :
    (codewords : List ℕ) (version : ℕ)
    → 1 ≤ version
    → version ≤ 6
    → ((best_grid codewords version).grid.size ≡ size_of version)
      × (mask_of (spelled (darks (best_grid codewords version).grid) 0 format_strip)
          ≡ some (best_grid codewords version).mask)
best_grid-read codewords version low high =
    let order = data_module_order version in
    let placed = place_payload codewords 0 order (patterns version) in
    let best = best_grid codewords version in
    let (same, small) = best_grid-IsCandidate codewords version in
    let drawn : best.grid ≡ candidate order placed best.mask = ap (λ b. b.grid) same in
    let sized : (apply_mask best.mask order placed).size ≡ size_of version =
      size-apply_mask best.mask order placed
      ∙ size-place_payload codewords 0 order (patterns version)
      ∙ (order-IsOrdered version low high).sized in
    (
      ap (λ g. g.size) drawn ∙ size-candidate best.mask order placed ∙ sized,
      ap (λ g. mask_of (spelled (darks g) 0 format_strip)) drawn
          ∙ mask-candidate version best.mask order placed low high small sized,
    )

-- At a version that holds it, the text is read back.
read_at :
    (bytes : List ℕ) (version : ℕ)
    → AllBelow 256 bytes
    → length bytes < 256
    → 1 ≤ version
    → version ≤ 6
    → length bytes + 2 ≤ data_codewords version
    → read_symbol (matrix_of (best_grid (words bytes version) version).grid) ≡ some bytes
unfolding read_symbol read_masked
read_at bytes version bounded short low high fits =
    let k = data_codewords version in
    let blocks = get_or 0 blocks_l version in
    let best = best_grid (words bytes version) version in
    let ordered = order-IsOrdered version low high in
    let (same, small) = best_grid-IsCandidate (words bytes version) version in
    let (sized, masked) = best_grid-read (words bytes version) version low high in
    let taken =
      codewords-agree (darks best.grid) version best.mask low high small ordered.enough
      ∙ ap pack (
          bits_read (words bytes version) version best.mask best.grid ordered
            (data-le-length (bitstream bytes version) version) (ap (λ b. b.grid) same))
      ∙ pack-payload (take k (words bytes version)) in
    let unwoven : unweave blocks (mods (take k (words bytes version)))
        ≡ mods (bitstream bytes version) =
      unweave-mods blocks (take k (words bytes version))
      ∙ ap (λ xs. mods xs)
          (unweave-interleave version (bitstream bytes version) low high
            (length-bitstream bytes version)) in
    ap₂ (read_masked (darks best.grid)) (version-size version best.grid.size sized) masked
    ∙ ap (λ cs. read_text (in_order version cs)) taken
    ∙ ap read_text
        (in_order-agrees version (mods (take k (words bytes version))) low high ∙ unwoven)
    ∙ read_text-agrees (bitstream bytes version)
    ∙ ap read_fields (payload-mods (bitstream bytes version))
    ∙ read_fields-bitstream bytes version bounded short fits

encoded :
    (bytes : List ℕ) (version : ℕ)
    → pick_version (length bytes) ≡ ok version
    → qr_matrix bytes ≡ ok (matrix_of (best_grid (words bytes version) version).grid)
unfolding qr_matrix
encoded bytes version picked = rw picked refl

-- A text of up to 134 bytes gives a matrix that a reader of the standard reads as that text: the
-- reader takes the version from the matrix's size and the mask from its format strip, and shares no
-- order, mask, format word or packing with the encoder.
pub read-qr_matrix :
    (bytes : List ℕ)
    → AllBelow 256 bytes
    → length bytes ≤ 134
    → (m : Matrix) × (qr_matrix bytes ≡ ok m) × (read_symbol m ≡ some bytes)
read-qr_matrix bytes bounded short = answer (pick_version-fits (length bytes) short)
  where
    answer :
        (version : ℕ) × (pick_version (length bytes) ≡ ok version)
          × (1 ≤ version)
          × (version ≤ 6)
          × (length bytes ≤ get_or 0 capacity_l version)
          × ((version ≡ 1) ⊎ (get_or 0 capacity_l (version - 1) < length bytes))
        → (m : Matrix) × (qr_matrix bytes ≡ ok m) × (read_symbol m ≡ some bytes)
    answer (version, picked, low, high, fits, least) = (
      matrix_of (best_grid (words bytes version) version).grid,
      encoded bytes version picked,
      read_at bytes version bounded (omega arith) low high
          (room version (length bytes) low high fits),
    )
