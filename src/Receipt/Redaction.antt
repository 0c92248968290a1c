-- ===== src/Receipt/Redaction.antt =====
-- What services/api/src/receipt.ts withholds plays no part in what it shows.
use trans_f.Prelude.{ℕ, true, List, [], ◌∷◌, ◌≡◌, ◌↔◌, refl, sym, ◌∙◌}
use trans_f.Prelude.Tests.{ltb}
use trans_f.Prelude.Lists.{length}
use trans_f.Prelude.Text.{strip_spaces}
use trans_f.Store.Records.{AccountMode}
use trans_f.Store.Payments.{TransferState}
use trans_f.Sepa.{take}
use trans_f.Receipt.{account_for, short_account, receipt_status, last_four}

as_short : (v : List ℕ) → account_for AccountMode.short v ≡ short_account (strip_spaces v)
unfolding account_for short_account strip_spaces
as_short [] = refl
as_short (c ∷ cs) = refl

alike :
    (u v : List ℕ)
    → take 4 u ≡ take 4 v
    → last_four u ≡ last_four v
    → ltb 8 (length u) ≡ ltb 8 (length v)
    → short_account u ≡ short_account v
unfolding short_account
alike u v first last long = rw (first, last, long) refl

-- In the short form two values are shown alike that agree, blanks aside, in their first four and
-- in their last four characters, if both have more than eight or neither has.
pub account_for-short :
    (a b : List ℕ)
    → take 4 (strip_spaces a) ≡ take 4 (strip_spaces b)
    → last_four (strip_spaces a) ≡ last_four (strip_spaces b)
    → ltb 8 (length (strip_spaces a)) ≡ ltb 8 (length (strip_spaces b))
    → account_for AccountMode.short a ≡ account_for AccountMode.short b
account_for-short a b first last long =
    as_short a ∙ alike (strip_spaces a) (strip_spaces b) first last long ∙ sym (as_short b)

-- The page says that the money arrived exactly when the transfer is PAID.
pub status-settled :
    (s : TransferState) → ((receipt_status s).is_settled ≡ true) ↔ (s ≡ TransferState.paid)
unfolding receipt_status
status-settled TransferState.paid = (λ h. refl, λ h. refl)
status-settled _ = (λ h. cc, λ h. cc)
