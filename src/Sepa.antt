-- ===== src/Sepa.antt =====
-- services/api/src/sepa.ts: the line that the payee reads on the statement.
--
-- Texts are lists of code points. Unicode's NFD is the host's, a parameter. The redeem message
-- is in Api/Create.antt.
pub mod Fits
use trans_f.Prelude.{
  ℕ, String, Bool, true, false, List, [], ◌∷◌, ◌++◌, ◌-◌, ◌&&◌, ◌||◌, Option, none, some,
}
use trans_f.Prelude.Tests.{if◌then◌else◌, leb, ◌==◌}
use trans_f.Prelude.Text.{codes, trim, trim_start, collapse}
use trans_f.Prelude.Lists.{length, keep}
use mathlib.Core.List.{map, reverse}

-- SEPA_REMITTANCE_MAX
abbrev pub remittance_max : ℕ
remittance_max = 140

-- s.slice(0, n)
unfoldable pub take : ℕ → List ℕ → List ℕ
take ℕ.zero cs = []
take (ℕ.suc n) [] = []
take (ℕ.suc n) (c ∷ cs) = c ∷ take n cs

-- SEPA_ALLOWED: what is kept
unfoldable pub is_allowed : ℕ → Bool
is_allowed c =
    leb b'A' c && leb c b'Z'
    || leb b'a' c && leb c b'z'
    || leb b'0' c && leb c b'9'
    || c == b'/'
    || c == b'-'
    || c == b'?'
    || c == b':'
    || c == b'('
    || c == b')'
    || c == b'.'
    || c == b','
    || c == 39
    || c == b'+'
    || c == 32

-- the combining marks, U+0300 to U+036F, are dropped
unfoldable pub is_mark : ℕ → Bool
is_mark c = leb 0x300 c && leb c 0x36f

-- The five replacements by letters, then that of everything not allowed: each makes only letters
-- or a space, which the later ones leave.
unfoldable pub fold_char : ℕ → List ℕ
unfolding is_mark is_allowed
fold_char c =
    if is_mark c
    then []
    else if c == 0xdf
    then codes "ss"
    else if c == 0xd8 || c == 0xf8
    then codes "o"
    else if c == 0xc6 || c == 0xe6
    then codes "ae"
    else if c == 0x110 || c == 0x111
    then codes "d"
    else if is_allowed c
    then c ∷ []
    else 32 ∷ []

unfoldable pub fold_all : List ℕ → List ℕ
unfolding fold_char
fold_all [] = []
fold_all (c ∷ cs) = fold_char c ++ fold_all cs

-- toSepaCharset
unfoldable pub to_sepa_charset : (List ℕ → List ℕ) → List ℕ → List ℕ
unfolding fold_all collapse trim
to_sepa_charset nfd cs = trim (collapse false (fold_all (nfd cs)))

-- s.replace(/\/{2,}/g, "/"); `gap` tells that the last code point was a slash.
unfoldable pub merge_slashes : Bool → List ℕ → List ℕ
merge_slashes gap [] = []
merge_slashes gap (c ∷ cs) =
    let slashed = merge_slashes true cs in
    let plain = merge_slashes false cs in
    if c == b'/' then (if gap then slashed else c ∷ slashed) else c ∷ plain

-- s.replace(/^\/+/, "")
unfoldable pub drop_slashes : List ℕ → List ℕ
drop_slashes [] = []
drop_slashes (c ∷ cs) = if c == b'/' then drop_slashes cs else c ∷ cs

-- stripReservedSlashes
unfoldable pub strip_reserved_slashes : List ℕ → List ℕ
unfolding merge_slashes drop_slashes trim
strip_reserved_slashes cs =
    trim (reverse (drop_slashes (reverse (drop_slashes (merge_slashes false cs)))))

-- s.trimEnd()
unfoldable pub trim_end : List ℕ → List ℕ
unfolding trim_start
trim_end cs = reverse (trim_start (reverse cs))

abbrev pub is_letter : ℕ → Bool
is_letter c = if c == b'-' then false else true

-- transferId.replace(/-/g, "").slice(0, 8)
unfoldable pub short_id : List ℕ → List ℕ
unfolding take
short_id id = take 8 (keep is_letter id)

-- ` ${TAG} ${shortId}`
unfoldable pub memo_suffix : List ℕ → List ℕ
unfolding short_id
memo_suffix id = codes " Zold " ++ short_id id

abbrev pub text_or_empty : Option (List ℕ) → List ℕ
text_or_empty none = []
text_or_empty (some r) = r

unfoldable pub memo_with : List ℕ → List ℕ → List ℕ
unfolding take memo_suffix strip_reserved_slashes trim_end
memo_with id [] = take remittance_max (codes "Zold " ++ id)
memo_with id (c ∷ cs) =
    trim_end (strip_reserved_slashes (take (remittance_max - length (memo_suffix id)) (c ∷ cs)))
    ++ memo_suffix id

-- paymentMemo
unfoldable pub payment_memo : (List ℕ → List ℕ) → List ℕ → Option (List ℕ) → List ℕ
unfolding to_sepa_charset strip_reserved_slashes memo_with
payment_memo nfd id reference =
    memo_with id (strip_reserved_slashes (to_sepa_charset nfd (text_or_empty reference)))
