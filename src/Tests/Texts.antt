-- ===== src/Tests/Texts.antt =====
-- The theorems on remittance lines and handles at small texts.
use trans_f.Prelude.{none, some, ◌≡◌, refl, ◌≤◌, ◌↔◌, true}
use trans_f.Prelude.Lists.{length, keep}
use trans_f.Prelude.Text.{codes, strip_spaces}
use trans_f.Sepa.{payment_memo, remittance_max, take}
use trans_f.Sepa.Fits.{length-payment_memo}
use trans_f.Store.Records.{NameMode, AccountMode}
use trans_f.Store.Payments.{TransferState}
use trans_f.Receipt.{account_for, name_for, no_last, receipt_status, last_four}
use trans_f.Receipt.Redaction.{account_for-short, status-settled}

-- The slashes that are reserved are dropped, and the accents are folded.
memo_read :
    payment_memo (λ s. s) (codes "0123-4567-89") (some (codes "/INV ß//42/"))
    ≡ codes "INV ss/42 Zold 01234567"
unfolding payment_memo keep
memo_read = refl

length-payment_memo_example :
    length (payment_memo (λ s. s) (codes "0123-4567-89") (some (codes "INV 42"))) ≤ remittance_max
length-payment_memo_example =
    length-payment_memo (λ s. s) (codes "0123-4567-89") (some (codes "INV 42"))

account_for-short_example :
    account_for AccountMode.short (codes "DE02 1203 0000 2051")
    ≡ account_for AccountMode.short (codes "DE02 9999 9999 2051")
unfolding take last_four strip_spaces
account_for-short_example =
    account_for-short (codes "DE02 1203 0000 2051") (codes "DE02 9999 9999 2051") refl refl refl

status-settled_example :
    ((receipt_status TransferState.payout_ready).is_settled ≡ true)
    ↔ (TransferState.payout_ready ≡ TransferState.paid)
status-settled_example = status-settled TransferState.payout_ready

-- The whole of a name of one word is shown in the mode of first names.
one_word_shown :
    name_for NameMode.first (codes "Amina")
    ≡ some (record { first = some (codes "Amina"); last = none; redact = no_last })
unfolding name_for
one_word_shown = refl
