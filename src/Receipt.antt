-- ===== src/Receipt.antt =====
-- services/api/src/receipt.ts: what a shared receipt shows of a transfer.
--
-- Texts are lists of code points. The route's hops and the amounts, which are presentation, are
-- not modelled.
pub mod Redaction
use trans_f.Prelude.{ℕ, String, Bool, true, false, not, Option, none, some, List, [], ◌∷◌, ◌++◌}
use trans_f.Prelude.Tests.{if◌then◌else◌, ltb, ◌==◌}
use trans_f.Prelude.Lists.{length}
use trans_f.Prelude.Text.{codes, trim, collapse, strip_spaces}
use mathlib.Core.List.{reverse}
use trans_f.Store.Records.{NameMode, AccountMode, FxMode, ShareFields}
use trans_f.Store.Payments.{TransferState}
use trans_f.Sepa.{take}

-- The body of a request: what it names, if it is one of the known selections.
pub record ShareBody : Type 0 where
  pub sender : Option NameMode
  pub recipient : Option NameMode
  pub account : Option AccountMode
  pub fx : Option FxMode
  pub show_rate : Option Bool
  pub show_ref : Option Bool
  pub route : Option Bool

-- DEFAULT_SHARE_FIELDS
abbrev pub default_share_fields : ShareFields
default_share_fields = record {
  sender = NameMode.last;
  recipient = NameMode.full;
  account = AccountMode.short;
  fx = FxMode.both;
  show_rate = true;
  show_ref = true;
  route = false;
}

abbrev known_or : {A : Type 0} → A → Option A → A
known_or fallback none = fallback
known_or fallback (some a) = a

-- parseShareFields
unfoldable pub parse_share_fields : ShareBody → ShareFields → ShareFields
parse_share_fields body base = record {
  sender = known_or base.sender body.sender;
  recipient = known_or base.recipient body.recipient;
  account = known_or base.account body.account;
  fx = known_or base.fx body.fx;
  show_rate = known_or base.show_rate body.show_rate;
  show_ref = known_or base.show_ref body.show_ref;
  route = known_or base.route body.route;
}

unfoldable pub before_space : List ℕ → List ℕ
before_space [] = []
before_space (c ∷ cs) = let rest = before_space cs in if c == 32 then [] else c ∷ rest

unfoldable pub after_space : List ℕ → List ℕ
after_space [] = []
after_space (c ∷ cs) = let rest = after_space cs in if c == 32 then cs else rest

-- the words of a name, joined by single spaces
unfoldable pub words : List ℕ → List ℕ
unfolding trim collapse
words full = collapse false (trim full)

-- nameParts
unfoldable pub first_name : List ℕ → List ℕ
unfolding words before_space
first_name full = before_space (words full)

unfoldable pub last_name : List ℕ → List ℕ
unfolding words after_space
last_name full = after_space (words full)

pub data Redact : Type 0 where
  no_first no_last no_half : Redact

pub record ReceiptName : Type 0 where
  pub first : Option (List ℕ)
  pub last : Option (List ℕ)
  pub redact : Redact

abbrev pub shown : List ℕ → Option (List ℕ)
shown [] = none
shown (c ∷ cs) = some (c ∷ cs)

-- `none` is WITHHELD
abbrev pub full_name : List ℕ → List ℕ → List ℕ → Option ReceiptName
full_name [] first last = none
full_name (c ∷ cs) first last =
    some (record { first = some first; last = shown last; redact = no_half })

abbrev pub only_first : List ℕ → Option ReceiptName
only_first [] = none
only_first (c ∷ cs) = some (record { first = some (c ∷ cs); last = none; redact = no_last })

abbrev pub only_last : List ℕ → Option ReceiptName
only_last [] = none
only_last (c ∷ cs) = some (record { first = none; last = some (c ∷ cs); redact = no_first })

-- nameFor
unfoldable pub name_for : NameMode → List ℕ → Option ReceiptName
unfolding first_name last_name trim
name_for NameMode.hidden full = none
name_for NameMode.full full = full_name (trim full) (first_name full) (last_name full)
name_for NameMode.first full = only_first (first_name full)
name_for NameMode.last full = only_last (last_name full)

-- clean.slice(-4)
unfoldable pub last_four : List ℕ → List ℕ
unfolding take
last_four cs = reverse (take 4 (reverse cs))

-- clean.replace(/(.{4})/g, "$1 "): a space after every four characters
unfoldable pub in_fours : List ℕ → List ℕ
in_fours (a ∷ b ∷ c ∷ d ∷ cs) = a ∷ b ∷ c ∷ d ∷ 32 ∷ in_fours cs
in_fours cs = cs

abbrev dots : List ℕ
dots = 32 ∷ 0xb7 ∷ 0xb7 ∷ 0xb7 ∷ 0xb7 ∷ 32 ∷ []

unfoldable pub short_account : List ℕ → Option (List ℕ)
unfolding take last_four
short_account clean =
    if ltb 8 (length clean) then some (take 4 clean ++ (dots ++ last_four clean)) else none

-- accountFor of a value that is there; an empty one is withheld by every mode
unfoldable pub account_for : AccountMode → List ℕ → Option (List ℕ)
unfolding short_account in_fours trim strip_spaces
account_for mode [] = none
account_for AccountMode.hidden (c ∷ cs) = none
account_for AccountMode.full (c ∷ cs) = some (trim (in_fours (strip_spaces (c ∷ cs))))
account_for AccountMode.short (c ∷ cs) = short_account (strip_spaces (c ∷ cs))

pub data Tone : Type 0 where
  mint amber red : Tone

pub record Status : Type 0 where
  pub label : String
  pub tone : Tone
  pub is_settled : Bool

abbrev pub status : String → Tone → Bool → Status
status label tone settled = record { label = label; tone = tone; is_settled = settled }

-- receiptStatus
unfoldable pub receipt_status : TransferState → Status
receipt_status TransferState.paid = status "Delivered" mint true
receipt_status TransferState.refunded = status "Refunded to sender" amber false
receipt_status TransferState.failed = status "Failed" red false
receipt_status TransferState.in_review = status "Under review" amber false
receipt_status TransferState.payout_ready = status "Ready to collect" amber false
receipt_status _ = status "In progress" amber false
