-- ===== src/Orchestrator/Caps.antt =====
-- services/api/src/orchestrator.ts: the daily budget, and the sweep of the anchors' payouts.
use trans_f.Prelude.{
  ℕ, String, Bool, true, false, not, ◌&&◌, ◌+◌, ◌/◌, List, [], ◌∷◌, ◌≡◌, ap, some, arith, str_eq,
  eq_iff, inl, inr,
}
use trans_f.Prelude.Tests.{if◌then◌else◌, ◌==◌, Bool-cases}
use trans_f.Prelude.Lists.{keep, modify, find}
use trans_f.Exec.{pure, gets, catch, ◌>>=◌}
use trans_f.Exec.Keeps.{Keeps, keeps_rules, Keeps-bind, Keeps-gets}
use trans_f.Store.Db
use trans_f.Store.Db.{Db, has_id, lookup}
use trans_f.Store.Payments.{
  Transfer, TransferState, failed, refunded, payout_funding_pending, payout_funded,
}
use trans_f.Store.Transfers.{table, find_transfer, update_transfer}
use trans_f.Store.Users.{User}
use trans_f.Orchestrator.World.{Action, Config, World, Sys}
use trans_f.Orchestrator.Steps.{the_transfer, transfer_or}
use trans_f.Orchestrator.Settle.{refresh_payout, ids_of, counted}
use trans_f.Orchestrator.Keeps.{IsClosed, the_transfer-Keeps}
use trans_f.Orchestrator.Keeps.Settle.{refresh-Keeps}
use trans_f.Orchestrator.Frame.{Stands, Stands-IsClosed}

-- x.toISOString().slice(0, 10): the day of the clock in UTC
abbrev pub day : ℕ → ℕ
day ms = ms / 86400000

-- ["FAILED", "REFUNDED"].includes(t.state)
abbrev pub is_released : TransferState → Bool
is_released failed = true
is_released refunded = true
is_released _ = false

abbrev pub counts_today : String → ℕ → Transfer → Bool
counts_today uid now t =
    str_eq t.user_id uid && t.from_safe && day t.created_at == day now && not (is_released t.state)

unfoldable pub total_eur : List Transfer → ℕ
total_eur [] = 0
total_eur (t ∷ ts) = t.send_eur + total_eur ts

-- safeFundedEurToday(userId, now)
unfoldable pub safe_funded_eur_today : String → ℕ → Db → ℕ
unfolding total_eur
safe_funded_eur_today uid now db = total_eur (keep (counts_today uid now) db.transfers)

pub record CapUsage : Type 0 where
  pub cap_eur : ℕ
  pub used_eur : ℕ
  pub from_safe_eur : ℕ

-- dailyCapUsage(user), for the cap of the deployment
unfoldable pub daily_cap_usage : ℕ → User → ℕ → Db → CapUsage
unfolding safe_funded_eur_today
daily_cap_usage cap user now db = record {
  cap_eur = cap;
  used_eur = safe_funded_eur_today user.id now db;
  from_safe_eur = safe_funded_eur_today user.id now db;
}

abbrev pub is_awaiting_anchor : TransferState → Bool
is_awaiting_anchor payout_funding_pending = true
is_awaiting_anchor payout_funded = true
is_awaiting_anchor _ = false

-- One round of sweepAnchorPayouts: whether the poll wrote the transfer. The source compares the
-- times of the last writes, so a write in the same millisecond does not count.
unfoldable pub poll_one : Config → World → String → Action Bool
unfolding refresh_payout
poll_one cfg w id = do
  t ← the_transfer id
  if is_awaiting_anchor t.state
      then (do u ← refresh_payout cfg w id; pure (not (u.updated_at == t.updated_at)))
      else pure false

unfoldable pub poll_ids : Config → World → ℕ → List String → Action ℕ
unfolding poll_one
poll_ids cfg w n [] = pure n
poll_ids cfg w n (id ∷ ids) = do
  done ← catch (poll_one cfg w id) (λ _. pure false)
  poll_ids cfg w (counted done n) ids

-- sweepAnchorPayouts
unfoldable pub sweep_anchor_payouts : Config → World → Action ℕ
unfolding poll_ids
sweep_anchor_payouts cfg w = do ids ← gets (λ s. ids_of s.db.transfers); poll_ids cfg w 0 ids

some_inj : (x y : Transfer) → some x ≡ some y → x ≡ y
some_inj x y h = cc

-- What the change of one counted transfer to one that does not count takes off the total.
total-modify :
    (counts test : Transfer → Bool) (f : Transfer → Transfer) (ts : List Transfer) (t : Transfer)
    → find test ts ≡ some t
    → counts t ≡ true
    → counts (f t) ≡ false
    → total_eur (keep counts (modify test f ts)) + t.send_eur ≡ total_eur (keep counts ts)
unfolding total_eur keep modify find
total-modify counts test f [] t e c r = cc
total-modify counts test f (x ∷ ts) t e c r = elim (Bool-cases (test x)) [
  | inl hit ↦
      let same : x ≡ t = some_inj x t (rw hit at e) in
      let was : counts x ≡ true = rw same c in
      let after : counts (f x) ≡ false = rw same r in
      rw (hit, was, after) (omega (arith, ap (λ (u : Transfer). u.send_eur) same))
  | inr miss ↦ rw miss (elim (Bool-cases (counts x)) [
    | inl counted ↦ rw counted (omega (arith, total-modify counts test f ts t (rw miss at e) c r))
    | inr free ↦ rw free (total-modify counts test f ts t (rw miss at e) c r)
  ])
]

-- A transfer that counts towards its user's budget of the day and fails or is refunded gives back
-- exactly its amount.
pub funded_today-release :
    (uid : String) (now clock : ℕ) (id : String) (f : Transfer → Transfer) (t : Transfer) (db : Db)
    → find_transfer id db ≡ some t
    → counts_today uid now t ≡ true
    → is_released (f t).state ≡ true
    → safe_funded_eur_today uid now (update_transfer clock id f db).1 + t.send_eur
      ≡ safe_funded_eur_today uid now db
unfolding safe_funded_eur_today update_transfer Db.update Db.patch_found lookup
funded_today-release uid now clock id f t db found counts released = rw found (
    total-modify (counts_today uid now) (has_id table id) _ db.transfers t found counts
      (ground (arith, released)))

module _ {P : Sys → Type 0} (cfg : Config) (w : World) (id : String) (c : IsClosed id P) where
  again-Keeps : Keeps P (refresh_payout cfg w id)
  again-Keeps = refresh-Keeps cfg w id c

  poll_other-Keeps : Keeps P (poll_one cfg w id)
  unfolding poll_one
  poll_other-Keeps = search (keeps_rules, the_transfer-Keeps, again-Keeps) depth 8

module _ {j : String} {t : Transfer} (cfg : Config) (w : World)
    (rest : is_awaiting_anchor t.state ≡ false) where
  poll_self-Keeps : Keeps (Stands j (some t)) (poll_one cfg w j)
  unfolding poll_one the_transfer ◌>>=◌
  poll_self-Keeps = record { at = λ s h. rw (h.found, transfer_or) (rw rest h) }

  round-Keeps : (id : String) → Keeps (Stands j (some t)) (poll_one cfg w id)
  round-Keeps id = elim (Bool-cases (str_eq id j)) [
    | inl e ↦ rw ((eq_iff id j).0 e) poll_self-Keeps
    | inr n ↦
        poll_other-Keeps cfg w id (Stands-IsClosed id j (some t) (λ e. cc ((eq_iff id j).1 e, n)))
  ]

  polls-Keeps : (ids : List String) (n : ℕ) → Keeps (Stands j (some t)) (poll_ids cfg w n ids)
  unfolding poll_ids
  polls-Keeps [] n = search keeps_rules
  polls-Keeps (id ∷ ids) n =
      Keeps-bind _ _ (search (keeps_rules, round-Keeps)) λ done. polls-Keeps ids _

-- The anchors' sweep, whatever they answer, leaves every transfer as it was whose state is neither
-- PAYOUT_FUNDING_PENDING nor PAYOUT_FUNDED.
pub anchors-leave :
    (cfg : Config) (w : World) (j : String) (t : Transfer) (s : Sys)
    → find_transfer j s.db ≡ some t
    → is_awaiting_anchor t.state ≡ false
    → find_transfer j (sweep_anchor_payouts cfg w s).1.db ≡ some t
unfolding sweep_anchor_payouts
anchors-leave cfg w j t s found rest =
    let keeps : Keeps (Stands j (some t)) (sweep_anchor_payouts cfg w) =
      Keeps-bind _ _ (Keeps-gets _) (λ ids. polls-Keeps cfg w rest ids 0) in
    (keeps.at s (record { found = found })).found
