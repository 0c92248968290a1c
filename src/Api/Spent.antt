-- ===== src/Api/Spent.antt =====
-- services/api/src/server.ts: a quote makes one transfer.
use trans_f.Prelude.{String, false, Option, some, List, ◌≡◌, refl, ◌∙◌, sym, ap}
use trans_f.Exec.{Result, ok, err, Error, continue, ◌>>=◌}
use trans_f.Exec.Keeps.{Keeps}
use trans_f.Store.Db.{lookup}
use trans_f.Store.Payments.{Quote, Transfer}
use trans_f.Store.Quotes.{find_quote, is_open, close}
use trans_f.Orchestrator.World.{Action, Config, World, Sys, Effect}
use trans_f.Api.{Host, touch, require_user_session}
use trans_f.Api.Create.{TransferRequest, Created, post_transfers}
use trans_f.Api.Known.{touch-IsTouched}
use trans_f.Api.Stands.{session-Keeps}
use trans_f.Api.Later.{Event, play_all}
use trans_f.Api.Later.Kept.{play_all-IsSpent}
use trans_f.Api.Fair.{post_transfers-IsFair, found-same_id}

-- These transfers are stored, and this was called outside.
pub record Has (ts : List Transfer) (es : List Effect) (s : Sys) : Type 0 where
  pub transfers : s.db.transfers ≡ ts
  pub effects : s.effects ≡ es

touch-Keeps : (ts : List Transfer) (es : List Effect) (id : String) → Keeps (Has ts es) (touch id)
touch-Keeps ts es id = record {
  at = λ s h.
      let touched = touch-IsTouched id s in
      record {
        transfers = ap (λ (x : Sys). x.db.transfers) touched.same ∙ h.transfers;
        effects = ap (λ (x : Sys). x.effects) touched.same ∙ h.effects;
      };
}

-- The route answers with an error, stores no transfer and calls nothing.
pub record IsRefused {A : Type 0} (s : Sys) (r : Result A × Sys) : Type 0 where
  pub why : Error
  pub answered : r.0 ≡ err why
  pub transfers : r.1.db.transfers ≡ s.db.transfers
  pub effects : r.1.effects ≡ s.effects

-- After a session check that writes nothing of note, a check that fails.
pub IsRefused-after :
    {A B : Type 0} (s : Sys) (r : Result A × Sys) (rest : A → Action B)
    → Has s.db.transfers s.effects r.1
    → ((a : A) (s₁ : Sys) → (e : Error) × (rest a s₁ ≡ (err e, s₁)))
    → IsRefused s (continue r.0 rest r.1)
IsRefused-after s (ok a, s₁) rest kept fails =
    let (e, same) = fails a s₁ in
    rw same
      (record { why = e; answered = refl; transfers = kept.transfers; effects = kept.effects })
IsRefused-after s (err e, s₁) rest kept fails = record {
  why = e;
  answered = refl;
  transfers = kept.transfers;
  effects = kept.effects;
}

module _ (h : Host) (w : World) (cfg : Config) where
  closed-IsRefused :
      (token : Option String) (b : TransferRequest) (q : Quote) (s : Sys)
      → find_quote b.quote_id s.db ≡ some q
      → is_open q.status ≡ false
      → IsRefused s (post_transfers h w cfg token b s)
  unfolding post_transfers ◌>>=◌
  closed-IsRefused token b q s found closed = rw found (
      IsRefused-after s (require_user_session h token q.user_id s) _
        ((session-Keeps (touch-Keeps s.db.transfers s.effects) h token q.user_id).at s
          (record { transfers = refl; effects = refl }))
        (λ a s₁. rw closed (_, refl)))

  -- After a request that made a transfer of a quote, and after any further requests for quotes, new
  -- transfers and authorizations, any runs of the transfers' handlers and any time, a request on the
  -- same quote, whoever sends it, is answered with an error, stores no transfer and calls nothing.
  pub post_transfers-once :
      (token later_token : Option String) (b again : TransferRequest) (c : Created) (s s' : Sys)
      (between : List Event)
      → again.quote_id ≡ b.quote_id
      → post_transfers h w cfg token b s ≡ (ok c, s')
      → let then = play_all h w cfg between s' in
        IsRefused then (post_transfers h w cfg later_token again then)
  unfolding lookup
  post_transfers-once token later_token b again c s s' between same done =
      let fair = post_transfers-IsFair h w cfg token b c s' s done in
      let spent : find_quote again.quote_id s'.db ≡ some (close fair.quote) =
        ap (λ id. find_quote id s'.db)
          (same ∙ sym (found-same_id b.quote_id fair.quote s.db fair.found))
        ∙ fair.placed.spent in
      let still =
        play_all-IsSpent h w cfg between s'
          (record { quote = close fair.quote; found = spent; closed = refl }) in
      closed-IsRefused later_token again still.quote (play_all h w cfg between s') still.found
        still.closed
