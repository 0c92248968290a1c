-- ===== src/Deposits/Watch.antt =====
-- services/api/src/adapters/crypto-deposits.ts: the addresses whose inbound transfers are recorded.
use trans_f.Prelude.{
  ℕ, String, Bool, true, false, not, ◌&&◌, ◌||◌, Option, none, some, List, [], ◌∷◌, ◌++◌,
}
use mathlib.Core.List.{map}
use trans_f.Prelude.Tests.{leb, ◌==◌, if◌then◌else◌}
use trans_f.Prelude.Lists.{length, any}
use trans_f.Prelude.Text.{codes, lower, eq_codes}
use trans_f.Store.Users.{User, KycStatus, PaymentPage}
use trans_f.Store.Db.{Db}
use trans_f.Deposits.{Watched, Source, payment_page, safe}

-- address.toLowerCase()
unfoldable pub key_of : String → List ℕ
unfolding lower
key_of address = map lower (codes address)

abbrev pub is_hex : ℕ → Bool
is_hex c = leb b'0' c && leb c b'9' || leb b'a' c && leb c b'f' || leb b'A' c && leb c b'F'

unfoldable pub all_pass : (ℕ → Bool) → List ℕ → Bool
all_pass test [] = true
all_pass test (c ∷ cs) = test c && all_pass test cs

after_0x : (ℕ → Bool) → List ℕ → Bool
after_0x test (z ∷ x ∷ rest) = z == b'0' && x == b'x' && length rest == 40 && all_pass test rest
after_0x test _ = false

-- /^0x[0-9a-fA-F]{40}$/
unfoldable pub is_address : String → Bool
unfolding after_0x all_pass
is_address a = after_0x is_hex (codes a)

-- /^0x0{40}$/i
unfoldable pub is_zero_address : String → Bool
unfolding after_0x all_pass key_of
is_zero_address a = after_0x (λ c. c == b'0') (key_of a)

-- `seen`, and `out`
pub record Watching : Type 0 where
  pub seen : List (List ℕ)
  pub out : List Watched

abbrev pub has : List ℕ → List (List ℕ) → Bool
has key = any (eq_codes key)

-- add(address, source)
unfoldable pub add : User → String → Source → Watching → Watching
unfolding is_address is_zero_address key_of
add user address source w =
    if not (is_address address) || is_zero_address address
    then w
    else if has (key_of address) w.seen
    then w
    else record {
      seen = w.seen ++ key_of address ∷ [];
      out = w.out ++ record { user = user; address = address; source = source } ∷ [];
    }

abbrev pub kyc_approved : KycStatus → Bool
kyc_approved KycStatus.approved = true
kyc_approved _ = false

abbrev pub is_given : String → Bool
is_given s = not (eq_codes (codes s) [])

unfoldable pub add_page : User → Option PaymentPage → Watching → Watching
unfolding add
add_page user none w = w
add_page user (some page) w =
    if kyc_approved user.kyc_status && page.auto_convert && is_given page.deposit_address
    then add user page.deposit_address payment_page w
    else w

unfoldable pub add_user : User → Watching → Watching
unfolding add add_page
add_user user w = add user user.address safe (add_page user user.payment_page w)

unfoldable pub add_users : List User → Watching → Watching
unfolding add_user
add_users [] w = w
add_users (u ∷ us) w = add_users us (add_user u w)

-- watchedAddresses()
unfoldable pub watched_addresses : Db → List Watched
unfolding add_users
watched_addresses db = (add_users db.users (record { seen = []; out = [] })).out

-- The entry's address is spelled alike but for the case of the letters.
abbrev pub is_at : List ℕ → Watched → Bool
is_at key w = eq_codes key (key_of w.address)
