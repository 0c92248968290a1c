-- ===== src/Api/Bound.antt =====
-- services/api/src/server.ts: what POST /api/transfers has made sure of and done when it answers with
-- a transfer.
use trans_f.Prelude.{ℕ, String, Bool, true, some, [], ◌∷◌, ◌++◌, ◌≡◌, refl, ◌∙◌, sym, ap}
use trans_f.Exec.{ok, pure, ◌>>=◌}
use trans_f.Store.Db
use trans_f.Store.Db.{has_id, lookup}
use trans_f.Store.Db.Laws.{lookup-update_self}
use trans_f.Store.Users.{User}
use trans_f.Store.Payments.{Quote, Transfer}
use trans_f.Store.Quotes.{
  table, table-IsTable, find_quote, consume_quote, consume_found, is_open, close,
}
use trans_f.Store.Transfers.{add_transfer}
use trans_f.Orchestrator.World.{Action, Config, World, Sys, other, on_db}
use trans_f.Api.{Host}
use trans_f.Api.Create.{
  TransferRequest, Created, new_transfer, redeem_terms, terms_of, signed_terms, store_transfer,
  place,
}
use trans_f.Api.Passed.{bind_run, need_run, given_run, gets_run, call_run, pure_run}

-- The transfer of a request on a quote, before its terms.
abbrev pub prepared : Host → World → String → ℕ → Quote → User → TransferRequest → Transfer
prepared h w id now q user b = record (new_transfer id now q user b) {
  monerium_redeem = redeem_terms h w (new_transfer id now q user b);
}

-- A transfer on the quote's amounts was stored with the terms that the device is asked to sign, and
-- the quote was consumed.
pub record IsPlaced (h : Host) (w : World) (cfg : Config) (b : TransferRequest) (q : Quote)
    (user : User) (s : Sys) (c : Created) (s' : Sys) : Type 0 where
  pub id : String
  pub bound : user.authorizer_address ≡ some c.authorizer
  pub reply : c ≡ signed_terms cfg w user c.authorizer s.clock (prepared h w id s.clock q user b)
  pub stored : s'.db.transfers ≡ s.db.transfers ++ c.transfer ∷ []
  pub spent : find_quote q.id s'.db ≡ some (close q)

consumed_state :
    (q : Quote) (s s₂ : Sys) (won : Bool)
    → find_quote q.id s.db ≡ some q
    → is_open q.status ≡ true
    → on_db (consume_quote q.id) s ≡ (ok won, s₂)
    → s₂ ≡ record s { db = (Db.update table q.id close s.db).1 }
unfolding on_db consume_quote consume_found
consumed_state q s s₂ won found fresh run = cc (rw (found, fresh) at run)

transfers-consumed :
    (q : Quote) (s : Sys)
    → find_quote q.id s.db ≡ some q
    → (Db.update table q.id close s.db).1.transfers ≡ s.db.transfers
unfolding Db.update Db.patch_found
transfers-consumed q s found = rw found refl

store_run :
    {A : Type 0} {c : A} {last : Sys} (t : Transfer) (f : Unit {0} → Action A) (s : Sys)
    → (store_transfer t >>= f) s ≡ (ok c, last)
    → f tt (record s { db = add_transfer t s.db }) ≡ (ok c, last)
unfolding ◌>>=◌
store_run t f s h = h

module _ (h : Host) (w : World) (cfg : Config) (b : TransferRequest) (q : Quote) (user : User)
    (s : Sys) (c : Created) (s' : Sys) where
  finished :
      (id authorizer : String) (s₂ : Sys)
      → let t = prepared h w id s.clock q user b in
        find_quote q.id s.db ≡ some q
        → user.authorizer_address ≡ some authorizer
        → s₂ ≡ record s { effects = other ∷ s.effects; db = (Db.update table q.id close s.db).1 }
        → signed_terms cfg w user authorizer s.clock t ≡ c
        → record s₂ {
          db = add_transfer (record t { auth = some (terms_of cfg w s.clock t) }) s₂.db;
        }
          ≡ s'
        → IsPlaced h w cfg b q user s c s'
  unfolding lookup Db.push
  finished id authorizer s₂ found bound after same last =
      rw (sym same, sym last)
        (record {
          id = id;
          bound = bound;
          reply = refl;
          stored =
              let final =
                (signed_terms cfg w user authorizer s.clock
                  (prepared h w id s.clock q user b)).transfer in
              ap (λ (x : Sys). x.db.transfers ++ final ∷ []) after
              ∙ ap (λ ts. ts ++ final ∷ []) (transfers-consumed q s found);
          spent =
              ap (λ (x : Sys). find_quote q.id x.db) after
              ∙ lookup-update_self table close table-IsTable q.id s.db q (λ a. refl) found;
        })

  pub place_run :
      find_quote q.id s.db ≡ some q
      → is_open q.status ≡ true
      → place h w cfg b q user s ≡ (ok c, s')
      → IsPlaced h w cfg b q user s c s'
  unfolding place
  place_run found fresh run =
      let run₁ = gets_run (λ s. s.clock) _ run in
      let (id, _, run₂) = call_run (λ e. ok (h.uuid e)) (λ _. other) _ run₁ in
      let (authorizer, bound, run₃) =
        given_run user.authorizer_address 409 "no device key registered for this account" _ run₂ in
      let (won, s₂, consumed, run₄) = bind_run (on_db (consume_quote q.id)) _ run₃ in
      let (first, run₅) = need_run won 409 "quote already consumed" _ run₄ in
      let t = prepared h w id s.clock q user b in
      let run₆ =
        store_run (record t { auth = some (terms_of cfg w s.clock t) })
          (λ _. pure (signed_terms cfg w user authorizer s.clock t)) s₂ run₅ in
      let (same, last) = pure_run (signed_terms cfg w user authorizer s.clock t) c run₆ in
      finished id authorizer s₂ found bound
        (consumed_state q (record s { effects = other ∷ s.effects }) s₂ won found fresh consumed)
        same last
