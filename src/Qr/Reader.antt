-- ===== src/Qr/Reader.antt =====
-- A reader of QR symbols of versions 1 to 6 at level L, by the standard (ISO/IEC 18004) and with
-- nothing of the encoder of services/api/src/qr.ts: it takes the version from the symbol's size and
-- the mask from its format strip, knows the function patterns by where the standard has them, and
-- goes through all other modules in the standard's zigzag. It reads undamaged symbols: it takes the
-- data codewords as they stand and leaves the check codewords alone.
pub mod Agrees
pub mod Format
use trans_f.Prelude.{
  ℕ, zero, suc, Bool, true, false, not, ◌&&◌, ◌||◌, Option, none, some, List, [], ◌∷◌, ◌++◌, ◌+◌,
  ◌-◌, ◌*◌, ◌/◌, ◌%◌,
}
use trans_f.Prelude.Tests.{ltb, leb, ◌==◌, if◌then◌else◌}
use trans_f.Qr.{get_or, take}
use trans_f.Qr.Grid.{Position}
use trans_f.Qr.Matrix.{Matrix}

abbrev pub at : ℕ → ℕ → Position
at r c = record { row = r; col = c }

-- The fifteen bits of the format strip around the first finder, the highest first.
abbrev pub format_strip : List Position
format_strip =
    at 8 0
    ∷ at 8 1
    ∷ at 8 2
    ∷ at 8 3
    ∷ at 8 4
    ∷ at 8 5
    ∷ at 8 7
    ∷ at 8 8
    ∷ at 7 8
    ∷ at 5 8
    ∷ at 4 8
    ∷ at 3 8
    ∷ at 2 8
    ∷ at 1 8
    ∷ at 0 8
    ∷ []

abbrev pub digit : Bool → ℕ
digit true = 1
digit false = 0

-- The number that modules spell, from what was read before them.
unfoldable pub spelled : (ℕ → ℕ → Bool) → ℕ → List Position → ℕ
spelled dark_at read [] = read
spelled dark_at read (p ∷ ps) = spelled dark_at (read * 2 + digit (dark_at p.row p.col)) ps

-- The standard's format words of level L, one for each mask.
unfoldable pub mask_of : ℕ → Option ℕ
mask_of word =
    if word == 0b111011111000100
    then some 0
    else if word == 0b111001011110011
    then some 1
    else if word == 0b111110110101010
    then some 2
    else if word == 0b111100010011101
    then some 3
    else if word == 0b110011000101111
    then some 4
    else if word == 0b110001100011000
    then some 5
    else if word == 0b110110001000001
    then some 6
    else if word == 0b110100101110110
    then some 7
    else none

-- The eight conditions for a module to be inverted.
unfoldable pub is_inverted : ℕ → ℕ → ℕ → Bool
is_inverted mask row col =
    if mask == 0
    then row % 2 == col % 2
    else if mask == 1
    then row % 2 == 0
    else if mask == 2
    then col % 3 == 0
    else if mask == 3
    then (row + col) % 3 == 0
    else if mask == 4
    then row / 2 % 2 == col / 3 % 2
    else if mask == 5
    then row * col % 6 == 0
    else if mask == 6
    then ltb (row * col % 6) 3
    else (row + col) % 2 == row * col % 3 % 2

abbrev distance : ℕ → ℕ → ℕ
distance a b = (a - b) + (b - a)

-- Finders with their separators and format strips, the two timing lines, and from version 2 on one
-- alignment pattern.
unfoldable pub is_function : ℕ → ℕ → ℕ → Bool
is_function version row col =
    let size = 4 * version + 17 in
    (leb row 8 && leb col 8)
    || (leb row 8 && leb size (col + 8))
    || (leb size (row + 8) && leb col 8)
    || row == 6
    || col == 6
    || (leb 2 version && leb (distance row (size - 7)) 2 && leb (distance col (size - 7)) 2)

abbrev unless_function : ℕ → Position → List Position → List Position
unless_function version p ps = if is_function version p.row p.col then ps else p ∷ ps

-- Two columns, `right` and the one before it, with `n` rows left.
unfoldable pub strip : ℕ → Bool → ℕ → ℕ → List Position
unfolding is_function
strip version up right zero = []
strip version up right (suc n) =
    let row = if up then n else 4 * version + 16 - n in
    let rest = strip version up right n in
    unless_function version (at row right) (unless_function version (at row (right - 1)) rest)

-- `n` pairs of columns from the right, up and down in turn, past the timing column.
unfoldable pub strips : ℕ → ℕ → Bool → List Position
unfolding strip
strips version zero up = []
strips version (suc n) up =
    let rest = strips version n (not up) in
    let right = if ltb n 3 then 2 * n + 1 else 2 * n + 2 in
    strip version up right (4 * version + 17) ++ rest

unfoldable pub reading_order : ℕ → List Position
unfolding strips
reading_order version = strips version (2 * version + 8) true

-- The bits of the modules, inverted where the mask inverts.
unfoldable pub lifted : (ℕ → ℕ → Bool) → ℕ → List Position → List ℕ
unfolding is_inverted
lifted dark_at mask [] = []
lifted dark_at mask (p ∷ ps) =
    digit (if is_inverted mask p.row p.col then not (dark_at p.row p.col) else dark_at p.row p.col)
    ∷ lifted dark_at mask ps

unfoldable pub octets : List ℕ → List ℕ
octets (a ∷ b ∷ c ∷ d ∷ e ∷ f ∷ g ∷ h ∷ rest) =
    (128 * a + 64 * b + 32 * c + 16 * d + 8 * e + 4 * f + 2 * g + h) ∷ octets rest
octets _ = []

-- The data codewords of a version at level L.
abbrev pub codewords_of : ℕ → ℕ
codewords_of = get_or 0 (0 ∷ 19 ∷ 34 ∷ 55 ∷ 80 ∷ 108 ∷ 136 ∷ [])

-- Every other codeword, from the first on, and from the second on.
unfoldable pub every_other : List ℕ → List ℕ
every_other (a ∷ b ∷ rest) = a ∷ every_other rest
every_other _ = []

unfoldable pub every_second : List ℕ → List ℕ
every_second (a ∷ b ∷ rest) = b ∷ every_second rest
every_second _ = []

-- Version 6 has two blocks, which are woven.
unfoldable pub in_order : ℕ → List ℕ → List ℕ
unfolding every_other every_second
in_order version codewords =
    if version == 6 then every_other codewords ++ every_second codewords else codewords

-- Bytes that begin in the middle of a codeword.
unfoldable pub halves : ℕ → ℕ → List ℕ → List ℕ
halves zero a bs = []
halves (suc n) a [] = []
halves (suc n) a (b ∷ bs) = (a % 16 * 16 + b / 16) ∷ halves n b bs

-- Byte mode, a count, and that many bytes.
unfoldable pub read_text : List ℕ → Option (List ℕ)
unfolding halves
read_text (a ∷ b ∷ rest) = if a / 16 == 4 then some (halves (a % 16 * 16 + b / 16) b rest) else none
read_text _ = none

unfoldable pub read_masked : (ℕ → ℕ → Bool) → ℕ → Option ℕ → Option (List ℕ)
unfolding reading_order lifted octets in_order read_text take
read_masked dark_at version none = none
read_masked dark_at version (some mask) = read_text (
    in_order version
      (octets (take (8 * codewords_of version) (lifted dark_at mask (reading_order version)))))

-- The bytes of the text that a symbol carries.
unfoldable pub read_symbol : Matrix → Option (List ℕ)
unfolding spelled mask_of read_masked
read_symbol m =
    read_masked m.dark_at ((m.size - 17) / 4) (mask_of (spelled m.dark_at 0 format_strip))
