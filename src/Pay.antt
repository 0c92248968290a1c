-- ===== src/Pay.antt =====
-- services/api/src/pay.ts: the handle of a payment page.
--
-- A handle is a list of code points. The public projection and the payment link only pick fields.
pub mod Handles
use trans_f.Prelude.{ℕ, String, Bool, true, false, not, List, [], ◌∷◌, ◌&&◌, ◌||◌}
use trans_f.Prelude.Tests.{if◌then◌else◌, leb, ltb, ◌==◌}
use trans_f.Prelude.Lists.{length, any}
use trans_f.Prelude.Text.{codes, trim, lower, eq_codes}
use mathlib.Core.List.{map, reverse}

-- RESERVED
abbrev pub reserved : List String
reserved =
    "about" ∷ "account" ∷ "accounts" ∷ "admin" ∷ "api" ∷ "app" ∷ "assets" ∷ "blog" ∷ "checkout"
    ∷ "contact" ∷ "dashboard" ∷ "docs" ∷ "faq" ∷ "favicon" ∷ "health" ∷ "help" ∷ "home" ∷ "index"
    ∷ "landing" ∷ "legal" ∷ "login" ∷ "logout" ∷ "me" ∷ "new" ∷ "pay" ∷ "payment" ∷ "payments"
    ∷ "privacy" ∷ "qr" ∷ "rates" ∷ "robots" ∷ "root" ∷ "security" ∷ "settings" ∷ "signup"
    ∷ "sitemap" ∷ "static" ∷ "status" ∷ "support" ∷ "terms" ∷ "transfer" ∷ "transfers" ∷ "user"
    ∷ "users" ∷ "www" ∷ "zold" ∷ "zoldenburg" ∷ []

-- [a-z0-9]
abbrev pub is_alnum : ℕ → Bool
is_alnum c = leb b'a' c && leb c b'z' || leb b'0' c && leb c b'9'

unfoldable pub starts_alnum : List ℕ → Bool
starts_alnum [] = false
starts_alnum (c ∷ cs) = is_alnum c

unfoldable pub all_of : (ℕ → Bool) → List ℕ → Bool
all_of test [] = true
all_of test (c ∷ cs) = test c && all_of test cs

abbrev pub is_handle_char : ℕ → Bool
is_handle_char c = is_alnum c || c == b'-'

-- HANDLE_RE: one character, or three to thirty of which the ends are no hyphens
unfoldable pub matches_handle : List ℕ → Bool
unfolding starts_alnum all_of
matches_handle cs =
    starts_alnum cs
    && starts_alnum (reverse cs)
    && all_of is_handle_char cs
    && (length cs == 1 || leb 3 (length cs) && leb (length cs) 30)

abbrev pub starts_0x : List ℕ → Bool
starts_0x (z ∷ x ∷ cs) = z == b'0' && x == b'x'
starts_0x _ = false

pub data HandleError : Type 0 where
  bad_length looks_like_address bad_characters is_reserved : HandleError

pub data Handled : Type 0 where
  fine : List ℕ → Handled
  refused : HandleError → Handled

-- normaliseHandle after the folding
unfoldable pub check_handle : List ℕ → Handled
unfolding matches_handle eq_codes
check_handle handle =
    if ltb (length handle) 3 || ltb 30 (length handle)
    then refused bad_length
    else if starts_0x handle
    then refused looks_like_address
    else if not (matches_handle handle)
    then refused bad_characters
    else if any (λ r. eq_codes (codes r) handle) reserved
    then refused is_reserved
    else fine handle

-- raw.trim().toLowerCase()
unfoldable pub fold_handle : List ℕ → List ℕ
unfolding trim lower
fold_handle raw = map lower (trim raw)

-- normaliseHandle
unfoldable pub normalise_handle : List ℕ → Handled
unfolding fold_handle check_handle
normalise_handle raw = check_handle (fold_handle raw)
