-- ===== src/Api/Drawn.antt =====
-- services/api/src/server.ts: the fields of a new transfer and of the terms that its device is asked
-- to sign, each read off the quote, the request, the account and the clock.
use trans_f.Prelude.{ℕ, String, true, none, some, [], ◌+◌, ◌/◌, ◌≡◌, ◌∙◌, sym, ap}
use trans_f.Store.Users.{User}
use trans_f.Store.Payments.{Quote, created}
use trans_f.Orchestrator.World.{Config, World, Sys}
use trans_f.Orchestrator.Steps.{value_or, to_wei, destination_preimage}
use trans_f.Orchestrator.Debit.{transfer_destination}
use trans_f.Api.{Host}
use trans_f.Api.Create.{TransferRequest, Created}
use trans_f.Api.Bound.{IsPlaced}

-- The hash of the recipient that the request names.
abbrev pub recipient_hash : World → Quote → TransferRequest → String
recipient_hash w q b =
    w.keccak (
      destination_preimage q.rail b.recipient_phone b.recipient_iban (value_or "" b.recipient_name))

-- The transfer is the quote's and the request's, and is new.
pub record IsDrawn (b : TransferRequest) (q : Quote) (user : User) (now : ℕ) (c : Created)
    : Type 0 where
  pub owner : c.transfer.user_id ≡ user.id
  pub of_quote : c.transfer.quote_id ≡ q.id
  pub rail : c.transfer.rail ≡ q.rail
  pub send_eur : c.transfer.send_eur ≡ q.send_eur
  pub receive_kes : c.transfer.receive_kes ≡ q.receive_kes
  pub receive_eur : c.transfer.receive_eur ≡ some q.receive_eur
  pub name : c.transfer.recipient_name ≡ value_or "" b.recipient_name
  pub phone : c.transfer.recipient_phone ≡ b.recipient_phone
  pub iban : c.transfer.recipient_iban ≡ b.recipient_iban
  pub state : c.transfer.state ≡ created
  pub from_safe : c.transfer.from_safe ≡ true
  pub untouched : c.transfer.txs ≡ []
  pub unrefunded : c.transfer.refund ≡ none
  pub created_at : c.transfer.created_at ≡ now

-- The stored terms and the data to sign move the quote's amount from the account's Safe to the
-- orchestrator for this recipient, within fifteen minutes, and are not used yet.
pub record IsAsked (cfg : Config) (w : World) (b : TransferRequest) (q : Quote) (user : User)
    (now : ℕ) (c : Created) : Type 0 where
  pub terms :
      c.transfer.auth
      ≡ some (record {
        to = cfg.orchestrator_address;
        amount_wei = to_wei q.send_eur;
        destination = recipient_hash w q b;
        deadline = now / 1000 + 900;
        authorized_at = none;
      })
  pub account : c.to_sign.account ≡ user.address
  pub amount : c.to_sign.amount_wei ≡ to_wei q.send_eur
  pub to : c.to_sign.to ≡ cfg.orchestrator_address
  pub transfer : c.to_sign.transfer_id ≡ c.transfer.id
  pub destination : c.to_sign.destination ≡ recipient_hash w q b
  pub deadline : c.to_sign.deadline ≡ now / 1000 + 900

module _ {h : Host} {w : World} {cfg : Config} {b : TransferRequest} {q : Quote} {user : User}
    {s : Sys} {c : Created} {s' : Sys} where
  pub placed-IsDrawn : IsPlaced h w cfg b q user s c s' → IsDrawn b q user s.clock c
  placed-IsDrawn p = record {
    owner = ap (λ (c : Created). c.transfer.user_id) p.reply;
    of_quote = ap (λ (c : Created). c.transfer.quote_id) p.reply;
    rail = ap (λ (c : Created). c.transfer.rail) p.reply;
    send_eur = ap (λ (c : Created). c.transfer.send_eur) p.reply;
    receive_kes = ap (λ (c : Created). c.transfer.receive_kes) p.reply;
    receive_eur = ap (λ (c : Created). c.transfer.receive_eur) p.reply;
    name = ap (λ (c : Created). c.transfer.recipient_name) p.reply;
    phone = ap (λ (c : Created). c.transfer.recipient_phone) p.reply;
    iban = ap (λ (c : Created). c.transfer.recipient_iban) p.reply;
    state = ap (λ (c : Created). c.transfer.state) p.reply;
    from_safe = ap (λ (c : Created). c.transfer.from_safe) p.reply;
    untouched = ap (λ (c : Created). c.transfer.txs) p.reply;
    unrefunded = ap (λ (c : Created). c.transfer.refund) p.reply;
    created_at = ap (λ (c : Created). c.transfer.created_at) p.reply;
  }

  pub placed-IsAsked : IsPlaced h w cfg b q user s c s' → IsAsked cfg w b q user s.clock c
  unfolding transfer_destination
  placed-IsAsked p = record {
    terms = ap (λ (c : Created). c.transfer.auth) p.reply;
    account = ap (λ (c : Created). c.to_sign.account) p.reply;
    amount = ap (λ (c : Created). c.to_sign.amount_wei) p.reply;
    to = ap (λ (c : Created). c.to_sign.to) p.reply;
    transfer =
        ap (λ (c : Created). c.to_sign.transfer_id) p.reply
        ∙ sym (ap (λ (c : Created). c.transfer.id) p.reply);
    destination = ap (λ (c : Created). c.to_sign.destination) p.reply;
    deadline = ap (λ (c : Created). c.to_sign.deadline) p.reply;
  }
