-- ===== src/Store/Shares.antt =====
-- services/api/src/store.ts: receipt shares, one live one for a transfer.
use trans_f.Prelude.{
  ℕ, String, Bool, true, false, ◌&&◌, Option, none, some, List, ◌≡◌, refl, str_eq, inl, inr,
}
use trans_f.Prelude.Tests.{Option-cases}
use trans_f.Prelude.Lists.{find, keep, any, get_last?, find-passes, find-keep-none}
use trans_f.Exec.{Exec}
use trans_f.Store.Db
use trans_f.Store.Db.{Db, Table, IsTable}
use trans_f.Store.Records.{ReceiptShare}

abbrev pub table : Table ReceiptShare
table = record {
  name = "receipt share";
  id_of = λ s. s.id;
  read = λ db. db.receipt_shares;
  write = λ xs db. record db { receipt_shares = xs };
}

pub table-IsTable : IsTable table
table-IsTable = record { read-write = λ xs db. refl }

abbrev pub of_transfer : String → ReceiptShare → Bool
of_transfer tid s = str_eq s.transfer_id tid

-- !s.revokedAt
abbrev pub is_live : ReceiptShare → Bool
is_live s = elim s.revoked_at [ none ↦ true | some _ ↦ false ]

abbrev or_last : Option ReceiptShare → List ReceiptShare → Option ReceiptShare
or_last none shares = get_last? shares
or_last (some s) shares = some s

-- findReceiptShareByTransfer(transferId)
unfoldable pub find_share_by_transfer : String → Db → Option ReceiptShare
find_share_by_transfer tid db =
    let shares = keep (of_transfer tid) db.receipt_shares in or_last (find is_live shares) shares

-- findReceiptShareBySlug(slug)
unfoldable pub find_share_by_slug : String → Db → Option ReceiptShare
find_share_by_slug slug db = find (λ s. str_eq s.slug slug) db.receipt_shares

-- addReceiptShare(s)
abbrev pub add_share : ReceiptShare → Db → Db
add_share = Db.push table

-- updateReceiptShare(id, patch)
unfoldable pub update_share : ℕ → String → (ReceiptShare → ReceiptShare) → Exec Db ReceiptShare
update_share now id patch = Db.update table id (λ s. record (patch s) { updated_at = now })

-- revokeReceiptShare(id)
unfoldable pub revoke_share : ℕ → String → Exec Db ReceiptShare
revoke_share now id = Db.update table id (λ s. record s { revoked_at = some now; updated_at = now })

-- When the share found for a transfer is revoked, or there is none, every share of it is revoked:
-- a live link is never hidden behind a dead one.
pub find_share-live :
    (tid : String) (db : Db)
    → ((s : ReceiptShare) → find_share_by_transfer tid db ≡ some s → is_live s ≡ false)
    → any (λ s. of_transfer tid s && is_live s) db.receipt_shares ≡ false
unfolding find_share_by_transfer
find_share-live tid db dead =
    let shares = keep (of_transfer tid) db.receipt_shares in
    elim (Option-cases (find is_live shares)) [
      | inl nothing ↦ find-keep-none is_live (of_transfer tid) db.receipt_shares nothing
      | inr (s, found) ↦ cc (find-passes is_live shares s found, dead s (rw found refl))
    ]
