-- ===== src/Store/Quotes.antt =====
-- services/api/src/store.ts: quotes, each consumed at most once.
pub mod Consumed
use trans_f.Prelude.{String, refl, Bool, true, false, Option, none, some}
use trans_f.Prelude.Tests.{if◌then◌else◌}
use trans_f.Exec.{Exec, ok}
use trans_f.Store.Db
use trans_f.Store.Db.{Db, Table, IsTable}
use trans_f.Store.Payments.{Quote, QuoteStatus, open_status, consumed}

abbrev pub table : Table Quote
table = record {
  name = "quote";
  id_of = λ q. q.id;
  read = λ db. db.quotes;
  write = λ xs db. record db { quotes = xs };
}

pub table-IsTable : IsTable table
table-IsTable = record { read-write = λ xs db. refl }

-- findQuote(id)
abbrev pub find_quote : String → Db → Option Quote
find_quote = Db.lookup table

-- addQuote(q)
abbrev pub add_quote : Quote → Db → Db
add_quote = Db.push table

-- updateQuote(id, patch)
abbrev pub update_quote : String → (Quote → Quote) → Exec Db Quote
update_quote = Db.update table

abbrev pub is_open : QuoteStatus → Bool
is_open open_status = true
is_open _ = false

abbrev pub close : Quote → Quote
close q = record q { status = consumed }

unfoldable pub consume_found : String → Option Quote → Exec Db Bool
consume_found id none db = Db.unknown table id db
consume_found id (some q) db =
    if is_open q.status then (ok true, (Db.update table id close db).1) else (ok false, db)

-- consumeQuote(id)
unfoldable pub consume_quote : String → Exec Db Bool
unfolding consume_found
consume_quote id db = consume_found id (find_quote id db) db
