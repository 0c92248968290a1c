-- ===== src/Prelude/Text.antt =====
-- JavaScript's strings, over code points: case folding, trimming, searching and slicing.
use Prim.Native.Char.{code}
use Prim.Native.String
use Prim.Native.String.{String}
use mathlib.Core.Bool.{Bool, true, false, ◌&&◌, ◌||◌}
use mathlib.Core.List.{List, [], ◌∷◌, map, reverse}
use Prim.Native.Nat.{ℕ, zero, suc, ◌+◌, ◌-◌}
use trans_f.Prelude.Tests.{leb, ◌==◌, if◌then◌else◌}

-- The code points of a text. `String` has its own `[]` and `∷`.
abbrev pub codes : String → List ℕ
codes String.[] = []
codes (String.◌∷◌ c s) = code c ∷ codes s

-- s.toLowerCase() of an ASCII code point
unfoldable pub lower : ℕ → ℕ
lower c = if leb b'A' c && leb c b'Z' then c + 32 else c

unfoldable pub eq_codes : List ℕ → List ℕ → Bool
eq_codes [] [] = true
eq_codes (x ∷ xs) (y ∷ ys) = x == y && eq_codes xs ys
eq_codes _ _ = false

-- a.toLowerCase() === b.toLowerCase()
unfoldable pub same_folded : String → String → Bool
unfolding lower eq_codes
same_folded a b = eq_codes (map lower (codes a)) (map lower (codes b))

is_prefix : List ℕ → List ℕ → Bool
is_prefix [] ys = true
is_prefix (x ∷ xs) [] = false
is_prefix (x ∷ xs) (y ∷ ys) = x == y && is_prefix xs ys

contains : List ℕ → List ℕ → Bool
contains word [] = is_prefix word []
contains word (y ∷ ys) = is_prefix word (y ∷ ys) || contains word ys

-- /word/i.test(text), for a word in lower case
unfoldable pub mentions : String → String → Bool
unfolding lower is_prefix contains
mentions word text = contains (codes word) (map lower (codes text))

-- text.slice(0, n)
unfoldable pub slice : ℕ → String → String
slice zero s = ""
slice (suc n) String.[] = ""
slice (suc n) (String.◌∷◌ c s) = String.◌∷◌ c (slice n s)

-- A template literal.
unfoldable pub concat : List String → String
concat [] = ""
concat (s ∷ ss) = String.◌++◌ s (concat ss)

-- /\s/
unfoldable pub is_space : ℕ → Bool
is_space c =
    leb 9 c && leb c 13
    || c == 32
    || c == 160
    || c == 0x1680
    || leb 0x2000 c && leb c 0x200a
    || c == 0x2028
    || c == 0x2029
    || c == 0x202f
    || c == 0x205f
    || c == 0x3000
    || c == 0xfeff

-- s.toUpperCase() of an ASCII code point
unfoldable pub upper : ℕ → ℕ
upper c = if leb b'a' c && leb c b'z' then c - 32 else c

-- s.replace(/\s/g, "")
unfoldable pub strip_spaces : List ℕ → List ℕ
unfolding is_space
strip_spaces [] = []
strip_spaces (c ∷ cs) = let rest = strip_spaces cs in if is_space c then rest else c ∷ rest

-- s.trimStart()
unfoldable pub trim_start : List ℕ → List ℕ
unfolding is_space
trim_start [] = []
trim_start (c ∷ cs) = if is_space c then trim_start cs else c ∷ cs

-- s.trim()
unfoldable pub trim : List ℕ → List ℕ
unfolding trim_start
trim cs = reverse (trim_start (reverse (trim_start cs)))

-- s.replace(/\s+/g, " "); `gap` tells that the last code point was white space.
unfoldable pub collapse : Bool → List ℕ → List ℕ
unfolding is_space
collapse gap [] = []
collapse gap (c ∷ cs) =
    let spaced = collapse true cs in
    let kept = collapse false cs in
    if is_space c then (if gap then spaced else 32 ∷ spaced) else c ∷ kept
