-- ===== src/Qr/Matrix.antt =====
-- services/api/src/qr.ts: writing the payload, laying a mask, the format strips, and the finished
-- matrix with its picture.
use Prim.Native.Nat.{bit_xor, bit_or}
use trans_f.Prelude.{
  ℕ, zero, suc, String, Bool, false, not, Option, none, some, List, [], ◌∷◌, ◌++◌, ◌+◌, ◌-◌, ◌*◌,
  ◌/◌, ◌%◌, ◌^◌,
}
use trans_f.Prelude.Tests.{ltb, ◌==◌, if◌then◌else◌}
use trans_f.Prelude.Lists.{length}
use trans_f.Prelude.Text.{concat}
use trans_f.Exec.{Result, ok, err}
use trans_f.Qr.Stream.{pick_version, bitstream}
use trans_f.Qr.Blocks.{interleave}
use trans_f.Qr.Grid.{Module, dark, Grid, paint, patterns, data_module_order, Position, module_of}
use trans_f.Qr.Penalty.{is_dark, masks, penalty}

-- for (let i = 4; i >= 0; i--), with `n` rounds left
remainder : ℕ → ℕ → ℕ
remainder zero rem = rem
remainder (suc i) rem =
    remainder i (if rem / 2 ^ (i + 10) % 2 == 1 then bit_xor rem (0b10100110111 * 2 ^ i) else rem)

-- formatBits(mask)
unfoldable pub format_bits : ℕ → ℕ
unfolding remainder
format_bits mask =
    let value = bit_or 8 mask in
    bit_xor (bit_or (value * 2 ^ 10) (remainder 5 (value * 2 ^ 10))) 0b101010000010010

abbrev pub vertical : ℕ → ℕ → Module → Grid → Grid
vertical size i v g =
    if ltb i 6
    then paint i 8 v g
    else if ltb i 8
    then paint (i + 1) 8 v g
    else paint (size - 15 + i) 8 v g

abbrev pub horizontal : ℕ → ℕ → Module → Grid → Grid
horizontal size i v g =
    if ltb i 8
    then paint 8 (size - 1 - i) v g
    else if i == 8
    then paint 8 7 v g
    else paint 8 (14 - i) v g

-- for (let i = ...; i < 15; i++), with `n` rounds left
unfoldable pub place_strips : ℕ → ℕ → ℕ → Grid → Grid
place_strips zero i bits g = g
place_strips (suc n) i bits g =
    let v = module_of (bits / 2 ^ i % 2 == 1) in
    place_strips n (i + 1) bits (horizontal g.size i v (vertical g.size i v g))

-- placeFormat(g, mask)
unfoldable pub place_format : ℕ → Grid → Grid
unfolding place_strips paint format_bits
place_format mask g = paint (g.size - 8) 8 dark (place_strips 15 0 (format_bits mask) g)

abbrev pub bit_in : Option ℕ → ℕ → Bool
bit_in none i = false
bit_in (some byte) i = byte / 2 ^ (7 - i % 8) % 2 == 1

unfoldable pub get_elem? {ℓ} : {A : Type ℓ} → List A → ℕ → Option A
get_elem? [] i = none
get_elem? (x ∷ xs) zero = some x
get_elem? (x ∷ xs) (suc i) = get_elem? xs i

-- The i-th bit to place: 0 past the last codeword.
unfoldable pub bit_at : List ℕ → ℕ → Bool
unfolding get_elem?
bit_at codewords i = bit_in (get_elem? codewords (i / 8)) i

-- order.forEach(([r, c], i) => ...)
unfoldable pub place_payload : List ℕ → ℕ → List Position → Grid → Grid
unfolding paint bit_at
place_payload codewords i [] g = g
place_payload codewords i (p ∷ ps) g =
    place_payload codewords (i + 1) ps (paint p.row p.col (module_of (bit_at codewords i)) g)

-- for (const [r, c] of order) if (MASKS[mask](r, c)) ...
unfoldable pub apply_mask : ℕ → List Position → Grid → Grid
unfolding paint masks
apply_mask mask [] g = g
apply_mask mask (p ∷ ps) g = apply_mask mask ps (
    if masks mask p.row p.col
    then paint p.row p.col (module_of (not (is_dark (g.at p.row p.col)))) g
    else g)

unfoldable pub candidate : List Position → Grid → ℕ → Grid
unfolding apply_mask place_format
candidate order g mask = place_format mask (apply_mask mask order g)

-- `best`
pub record Best : Type 0 where
  pub score : ℕ
  pub grid : Grid
  pub mask : ℕ

abbrev pub scored : List Position → Grid → ℕ → Best
scored order g mask = record {
  score = penalty (candidate order g mask);
  grid = candidate order g mask;
  mask = mask;
}

-- The masks from `mask` on, `n` of them, against the best so far.
unfoldable pub best_from : ℕ → ℕ → List Position → Grid → Best → Best
unfolding penalty candidate
best_from zero mask order g best = best
best_from (suc n) mask order g best =
    let this = scored order g mask in
    best_from n (mask + 1) order g (if ltb this.score best.score then this else best)

pub record Matrix : Type 0 where
  pub size : ℕ
  pub dark_at : ℕ → ℕ → Bool

-- The best grid for codewords at a version.
unfoldable pub best_grid : List ℕ → ℕ → Best
unfolding place_payload best_from patterns data_module_order
best_grid codewords version =
    let order = data_module_order version in
    let g = place_payload codewords 0 order (patterns version) in
    best_from 7 1 order g (scored order g 0)

abbrev pub matrix_of : Grid → Matrix
matrix_of g = record { size = g.size; dark_at = λ r c. is_dark (g.at r c) }

abbrev pub encode_as : List ℕ → Result ℕ → Result Matrix
encode_as bytes (err e) = err e
encode_as bytes (ok version) =
    ok (matrix_of (best_grid (interleave (bitstream bytes version) version) version).grid)

-- qrMatrix(text), for the bytes of the text
unfoldable pub qr_matrix : List ℕ → Result Matrix
unfolding pick_version bitstream interleave best_grid
qr_matrix bytes = encode_as bytes (pick_version (length bytes))

path_row : (ℕ → String) → Matrix → ℕ → ℕ → ℕ → List String
path_row show m r zero c = []
path_row show m r (suc n) c =
    let rest = path_row show m r n (c + 1) in
    if m.dark_at r c then "M" ∷ show (c + 4) ∷ " " ∷ show (r + 4) ∷ "h1v1h-1z" ∷ rest else rest

path_rows : (ℕ → String) → Matrix → ℕ → ℕ → List String
path_rows show m zero r = []
path_rows show m (suc n) r = path_row show m r m.size 0 ++ path_rows show m n (r + 1)

abbrev svg_of : (ℕ → String) → ℕ → Matrix → String
svg_of show px m =
    let span = show (m.size + 8) in
    concat (
      "<svg xmlns=\"http://www.w3.org/2000/svg\" width=\""
      ∷ show px
      ∷ "\" height=\""
      ∷ show px
      ∷ "\" viewBox=\"0 0 "
      ∷ span
      ∷ " "
      ∷ span
      ∷ "\" shape-rendering=\"crispEdges\" role=\"img\" aria-label=\"Payment QR code\"><rect width=\""
      ∷ span
      ∷ "\" height=\""
      ∷ span
      ∷ "\" fill=\"#fff\"/><path d=\""
      ∷ concat (path_rows show m m.size 0)
      ∷ "\" fill=\"#000\"/></svg>"
      ∷ [])

abbrev map_ok : (Matrix → String) → Result Matrix → Result String
map_ok f (ok m) = ok (f m)
map_ok f (err e) = err e

-- qrSvg(text, { size }), with `show` for the host's number texts
unfoldable pub qr_svg : (ℕ → String) → ℕ → List ℕ → Result String
unfolding qr_matrix path_rows path_row concat
qr_svg show px bytes = map_ok (svg_of show px) (qr_matrix bytes)
