-- ===== src/Store/Quotes/Consumed.antt =====
-- services/api/src/store.ts: a quote is consumed once.
use trans_f.Prelude.{String, true, false, Option, none, some, ◌≡◌, refl, inl, inr}
use trans_f.Prelude.Tests.{Bool-cases}
use trans_f.Exec.{ok}
use trans_f.Store.Db
use trans_f.Store.Db.{Db}
use trans_f.Store.Db.Laws.{lookup-update_self}
use trans_f.Store.Payments.{Quote}
use trans_f.Store.Quotes.{
  table, table-IsTable, find_quote, consume_quote, consume_found, is_open, close,
}

closed_again :
    (id : String) (q : Quote) (db : Db)
    → find_quote id db ≡ some q
    → is_open q.status ≡ false
    → consume_quote id db ≡ (ok false, db)
unfolding consume_quote consume_found
closed_again id q db found closed = rw found (rw closed refl)

-- A quote that was consumed is not consumed again: the second call answers false and changes
-- nothing.
pub consume_quote-once :
    (id : String) (db : Db)
    → (consume_quote id db).0 ≡ ok true
    → consume_quote id (consume_quote id db).1 ≡ (ok false, (consume_quote id db).1)
unfolding consume_quote consume_found Db.unknown
consume_quote-once id db won = go (find_quote id db) refl won
  where
    go :
        (o : Option Quote)
        → find_quote id db ≡ o
        → (consume_found id o db).0 ≡ ok true
        → consume_quote id (consume_found id o db).1 ≡ (ok false, (consume_found id o db).1)
    go none e h = cc
    go (some q) e h = elim (Bool-cases (is_open q.status)) [
      | inl fresh ↦ rw fresh (
          closed_again id (close q) _
            (lookup-update_self table close table-IsTable id db q (λ a. refl) e) refl)
      | inr spent ↦ cc (rw spent at h)
    ]
