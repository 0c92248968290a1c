-- ===== src/Qr/Grid.antt =====
-- services/api/src/qr.ts: the fixed patterns, and the order in which the payload's modules go.
use trans_f.Prelude.{
  ℕ, zero, suc, Bool, true, false, not, ◌&&◌, ◌||◌, List, [], ◌∷◌, ◌++◌, ◌+◌, ◌-◌, ◌*◌, ◌%◌,
}
use trans_f.Prelude.Tests.{ltb, leb, ◌==◌, if◌then◌else◌}
use trans_f.Qr.{get_or}

-- -1, 0 and 1
pub data Module : Type 0 where
  free light dark : Module

pub record Grid : Type 0 where
  pub size : ℕ
  pub at : ℕ → ℕ → Module

-- blankGrid(size)
abbrev pub blank_grid : ℕ → Grid
blank_grid size = record { size = size; at = λ r c. free }

-- g[r][c] = m
unfoldable pub paint : ℕ → ℕ → Module → Grid → Grid
paint r c m g = record g { at = λ r' c'. if r' == r && c' == c then m else g.at r' c' }

-- A loop that writes the cells of a region, each once.
unfoldable pub paint_all : (ℕ → ℕ → Bool) → (ℕ → ℕ → Module) → Grid → Grid
paint_all region m g = record g { at = λ r c. if region r c then m r c else g.at r c }

abbrev pub module_of : Bool → Module
module_of true = dark
module_of false = light

-- The cells whose offset from (row - 1, col - 1) is at most 8 both ways, and that are on the grid.
abbrev in_finder : ℕ → ℕ → ℕ → ℕ → ℕ → Bool
in_finder size row col r c =
    ltb r size
    && ltb c size
    && leb row (r + 1)
    && leb r (row + 7)
    && leb col (c + 1)
    && leb c (col + 7)

-- `i` and `j` are one more than the source's r and c.
abbrev finder_dark : ℕ → ℕ → Bool
finder_dark i j =
    (leb 1 i && leb i 7 && leb 1 j && leb j 7)
    && (i == 1 || i == 7 || j == 1 || j == 7 || (leb 3 i && leb i 5 && leb 3 j && leb j 5))

-- placeFinder(g, row, col)
unfoldable pub place_finder : ℕ → ℕ → Grid → Grid
unfolding paint_all
place_finder row col g =
    paint_all (in_finder g.size row col)
      (λ r c. module_of (finder_dark (r + 1 - row) (c + 1 - col))) g

-- for (let i = 8; i < size - 8; i++): row 6 and column 6
unfoldable pub place_timing : Grid → Grid
unfolding paint_all
place_timing g =
    paint_all (λ r c. c == 6 && leb 8 r && ltb r (g.size - 8)) (λ r c. module_of (r % 2 == 0))
      (paint_all (λ r c. r == 6 && leb 8 c && ltb c (g.size - 8)) (λ r c. module_of (c % 2 == 0)) g)

-- ALIGN_CENTRES
abbrev pub align_centres : List (List ℕ)
align_centres =
    [] ∷ [] ∷ (6 ∷ 18 ∷ []) ∷ (6 ∷ 22 ∷ []) ∷ (6 ∷ 26 ∷ []) ∷ (6 ∷ 30 ∷ []) ∷ (6 ∷ 34 ∷ []) ∷ []

abbrev pub apart : ℕ → ℕ → ℕ
apart a b = (a - b) + (b - a)

-- Math.max(Math.abs(dr), Math.abs(dc)) !== 1
abbrev alignment_dark : ℕ → ℕ → Bool
alignment_dark dr dc = not (leb dr 1 && leb dc 1) || (dr == 0 && dc == 0)

unfoldable pub place_alignment : ℕ → ℕ → Grid → Grid
unfolding paint_all
place_alignment r c g =
    paint_all (λ r' c'. leb (apart r' r) 2 && leb (apart c' c) 2)
      (λ r' c'. module_of (alignment_dark (apart r' r) (apart c' c))) g

-- The three that would sit on a finder.
abbrev on_finder : ℕ → ℕ → ℕ → Bool
on_finder size r c = (r == 6 && c == 6) || (r == 6 && c == size - 7) || (r == size - 7 && c == 6)

place_row : ℕ → List ℕ → Grid → Grid
place_row r [] g = g
place_row r (c ∷ cs) g = place_row r cs (if on_finder g.size r c then g else place_alignment r c g)

place_alignments : List ℕ → List ℕ → Grid → Grid
place_alignments [] centres g = g
place_alignments (r ∷ rs) centres g = place_alignments rs centres (place_row r centres g)

abbrev filled : Module → Module
filled free = light
filled m = m

-- if (g[r][c] === -1) g[r][c] = 0, for the cells of a region
unfoldable pub reserve : (ℕ → ℕ → Bool) → Grid → Grid
reserve region g = record g { at = λ r c. if region r c then filled (g.at r c) else g.at r c }

-- for (let i = 0; i <= 8; i++), and for (let i = 0; i < 8; i++)
unfoldable pub reserve_format : Grid → Grid
unfolding reserve
reserve_format g =
    reserve
      (λ r c.
        (r == 8 && leb g.size (c + 8) && ltb c g.size)
        || (c == 8 && leb g.size (r + 8) && ltb r g.size))
      (reserve (λ r c. (r == 8 && leb c 8) || (c == 8 && leb r 8)) g)

-- placeFunctionPatterns(g, version)
unfoldable pub place_function_patterns : ℕ → Grid → Grid
unfolding place_finder place_timing place_alignments place_row place_alignment paint reserve_format
    get_or
place_function_patterns version g =
    let centres = get_or [] align_centres version in
    let finders = place_finder (g.size - 7) 0 (place_finder 0 (g.size - 7) (place_finder 0 0 g)) in
    let aligned = place_alignments centres centres (place_timing finders) in
    reserve_format (paint (g.size - 8) 8 dark aligned)

abbrev pub size_of : ℕ → ℕ
size_of version = version * 4 + 17

-- const reserved = blankGrid(size); placeFunctionPatterns(reserved, version)
unfoldable pub patterns : ℕ → Grid
unfolding place_function_patterns
patterns version = place_function_patterns version (blank_grid (size_of version))

pub record Position : Type 0 where
  pub row : ℕ
  pub col : ℕ

abbrev pub is_free : Module → Bool
is_free free = true
is_free _ = false

-- One cell of a step: skip column 6 and what is reserved.
unfoldable pub cell : Grid → ℕ → ℕ → List Position
cell g row c =
    if not (c == 6) && is_free (g.at row c) then record { row = row; col = c } ∷ [] else []

-- for (let step = 0; step < size; step++), with `n` steps left
unfoldable pub column_pair : Grid → Bool → ℕ → ℕ → List Position
unfolding cell
column_pair g upward col zero = []
column_pair g upward col (suc n) =
    let row = if upward then n else g.size - 1 - n in
    cell g row col ++ (cell g row (col - 1) ++ column_pair g upward col n)

-- for (let right = ...; right >= 1; right -= 2), leaving at column 6
unfoldable pub column_pairs : Grid → ℕ → ℕ → Bool → List Position
unfolding column_pair
column_pairs g zero right upward = []
column_pairs g (suc n) right upward =
    let rest = column_pairs g n (right - 2) (not upward) in
    let col = if right == 6 then right - 1 else right in
    if right == 0 then [] else column_pair g upward col g.size ++ (if right == 6 then [] else rest)

-- dataModuleOrder(version)
unfoldable pub data_module_order : ℕ → List Position
unfolding patterns column_pairs
data_module_order version = let g = patterns version in column_pairs g g.size (g.size - 1) true
