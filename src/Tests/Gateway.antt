-- ===== src/Tests/Gateway.antt =====
-- The payment routes at a small deployment: a quote becomes a transfer, and that transfer is run.
use trans_f.Prelude.Text.{eq_codes, same_folded}
use trans_f.Store.Sessions.{find_session}
use trans_f.Prelude.Lists.{find, keep, any, modify}
use trans_f.Store.Db
use trans_f.Store.Db.{lookup}
use trans_f.Store.Transfers.{update_transfer}
use trans_f.Orchestrator.Execute.{run_cash, execute_transfer}
use trans_f.Deposits.Watch.{all_pass}
use trans_f.Orchestrator.Steps.{the_transfer, has_step, write_through, update}
use trans_f.Prelude.{Bool, true, false, none, some, List, [], ◌∷◌, ◌≡◌, refl}
use trans_f.Exec.{Result, ok, err, ◌>>=◌}
use trans_f.Store.Payments.{Transfer, Rail}
use trans_f.Store.Records.{Session}
use trans_f.Orchestrator.World.{Sys, call, on_db}
use trans_f.Api.{Host}
use trans_f.Api.Create.{TransferRequest, Created, missing, text, post_transfers, signed_terms}
use trans_f.Api.Authorize.{AuthorizeRequest, authorize}
use trans_f.Api.Bound.{prepared}
use trans_f.Api.Fair.{IsFair, post_transfers-IsFair}
use trans_f.Orchestrator.Frame.{Handler}
use trans_f.Api.Later.{Event, play_all}
use trans_f.Api.Spent.{IsRefused, post_transfers-once}
use trans_f.Api.Approved.{IsApproved, authorize-IsApproved}
use trans_f.Tests.Fixtures.{ada, fresh, quote, db, start, world, config}

abbrev session : Session
session = record {
  id = "s1";
  user_id = "u1";
  token_hash = "hashed";
  created_at = 0;
  last_used_at = 0;
  expires_at = 86400000;
  revoked_at = none;
}

abbrev system : Sys
system = record start { db = record db { sessions = session ∷ [] } }

abbrev host : Host
host = record {
  token_hash = λ _. "hashed";
  uuid = λ _. "t9";
  text = λ _. "text";
  nfd = λ cs. cs;
  iso = λ _. "1970-01-01T00:00:02.000Z";
  usd_per = λ _. ok 129000000;
  eur_per = λ _. ok 131000000;
  crypto = λ _. record { sha256 = λ _. []; verify = λ _ _ _. true };
  parse_assertion = λ _. ok (
    record { rp_id_hash = []; flags = 5; sign_count = 1 },
    record { kind = "webauthn.get"; challenge = "c"; origin = "o" },
  );
  message_challenge = λ _ _. "c";
  sign_message = λ _ _ _ _ _. ok "0xsafe";
  rp_id = "zold";
  origins = "o" ∷ [];
}

abbrev request : TransferRequest
request = record {
  quote_id = "q1";
  recipient_name = some "Wanjiru";
  recipient_phone = some "+254700000000";
  recipient_iban = none;
  reference = missing;
}

abbrev made : Created
made =
    signed_terms config world ada "0xdevice" 2000 (prepared host world "t9" 2000 quote ada request)

abbrev posted : Sys
posted = (post_transfers host world config (some "secret") request system).1

is_posted : post_transfers host world config (some "secret") request system ≡ (ok made, posted)
unfolding post_transfers ◌>>=◌ lookup find find_session on_db eq_codes call same_folded keep
is_posted = refl

post_transfers-IsFair_example : IsFair host world config (some "secret") request system made posted
post_transfers-IsFair_example =
    post_transfers-IsFair host world config (some "secret") request made posted system is_posted

abbrev meanwhile : List Event
meanwhile =
    Event.ask (some "secret") "u1" (some Rail.cash) 5000
    ∷ Event.create (some "secret") request
    ∷ Event.handle Handler.refresh "t1"
    ∷ Event.wait 9000
    ∷ []

post_transfers-once_example :
    IsRefused
      (play_all host world config meanwhile posted)
      (post_transfers host world config none request (play_all host world config meanwhile posted))
post_transfers-once_example =
    post_transfers-once host world config (some "secret") none request request made system posted
      meanwhile refl is_posted

abbrev signed : AuthorizeRequest
signed = record { signature = text "0xab12"; redeem_signature = missing; redeem_assertion = none }

abbrev returned : Result Transfer → Transfer
returned (ok t) = t
returned (err e) = fresh

abbrev run : Result Transfer × Sys
run = authorize host world config (some "secret") "t1" signed system

abbrev is_returned : Result Transfer → Bool
is_returned (ok t) = true
is_returned (err e) = false

returned_lem : (r : Result Transfer × Sys) → is_returned r.0 ≡ true → r ≡ (ok (returned r.0), r.1)
returned_lem (ok t, s) h = refl
returned_lem (err e, s) h = cc

is_run : is_returned run.0 ≡ true
unfolding authorize ◌>>=◌ lookup find find_session on_db all_pass the_transfer modify
    execute_transfer run_cash same_folded call has_step any Db.update write_through update
    update_transfer
is_run = refl

authorize-IsApproved_example :
    IsApproved host world config (some "secret") "t1" signed system (returned run.0) run.1
authorize-IsApproved_example =
    authorize-IsApproved host world config (some "secret") "t1" signed (returned run.0) run.1 system
      (returned_lem run is_run)
