-- ===== src/Deposits/Refused.antt =====
-- services/api/src/adapters/crypto-deposits.ts: the deposits that a conversion turns down.
use trans_f.Prelude.{
  Bool, true, false, not, ◌&&◌, Option, none, some, ◌∷◌, ◌≡◌, refl, inl, inr, arith, ap, ◌∙◌, ◌⊎◌,
}
use trans_f.Prelude.Tests.{if◌then◌else◌, Bool-cases, ltb, leb}
use trans_f.Exec.{Result, ok, err, Error, throw, ◌>>=◌, plain, continue}
use trans_f.Store.Db.{lookup}
use trans_f.Store.Db.Laws.{lookup-update_self}
use trans_f.Store.Users.{User, PaymentPage}
use trans_f.Store.Payments.{Tx}
use trans_f.Store.Records.{CryptoDeposit}
use trans_f.Store.Accounts.{find_user}
use trans_f.Store.Deposits.{table, table-IsTable, update_crypto_deposit}
use trans_f.Orchestrator.World.{Sys, World, call, finish, other, thrown, Effect, on_db}
use trans_f.Orchestrator.Steps.{value_or, has_step}
use trans_f.Deposits.{Feed, CryptoIn}
use trans_f.Deposits.Watch.{kyc_approved}
use trans_f.Deposits.Convert.{
  convert_deposit, convert_for, decide, decide_page, refuse, update, split, as_refused,
  is_converted, is_usdc, sweep_to_orchestrator, sweep_step,
}
use trans_f.Deposits.Keeps.{stamped}

-- What entitles a deposit to a conversion: an approved owner who opted in, and enough of it.
abbrev pub is_eligible : CryptoIn → User → CryptoDeposit → Option PaymentPage → Bool
is_eligible c u d none = false
is_eligible c u d (some page) =
    kyc_approved u.kyc_status && page.auto_convert && leb c.min_usdc (value_or 0 d.amount_usdc)

abbrev pub settles_euros : Option PaymentPage → Bool
settles_euros none = false
settles_euros (some page) = not (is_usdc page.settlement_asset)

module _ (c : CryptoIn) (f : Feed) (w : World) (u : User) (d : CryptoDeposit) where
  decide_blocked :
      (page : Option PaymentPage) (s : Sys)
      → is_eligible c u d page ≡ false
      → (why : Error) × (decide c w u d page s ≡ (err why, s))
  unfolding decide decide_page
  decide_blocked none s h = (_, refl)
  decide_blocked (some page) s h = elim (Bool-cases page.auto_convert) [
    | inr off ↦ rw off (_, refl)
    | inl on ↦ rw on (elim (Bool-cases (kyc_approved u.kyc_status)) [
      | inr pending ↦ rw pending (_, refl)
      | inl approved ↦
          let small : ltb (value_or 0 d.amount_usdc) c.min_usdc ≡ true = ground arith in
          rw (approved, small) (_, refl)
    ])
  ]

  sweep_blocked :
      (s : Sys)
      → has_step sweep_step d.txs ≡ false
      → (why : Error) × (e : Effect) × ((e ≡ other) ⊎ (e ≡ thrown))
        × (sweep_to_orchestrator w u d s ≡ (err why, record s { effects = e ∷ s.effects }))
  unfolding sweep_to_orchestrator ◌>>=◌ call finish
  sweep_blocked s h = rw h (Result-cases (w.has_code u.address s.effects))
    where
      Result-cases :
          (r : Result Bool)
          → (why : Error) × (e : Effect) × ((e ≡ other) ⊎ (e ≡ thrown))
            × ◌≡◌ {A = Result (Option Tx) × Sys}
                (continue
                  (finish r (λ _. other) s).0
                  (λ deployed.
                    if deployed
                    then throw (
                        plain
                          "merchant Safe settlement requires Safe-native UserOps or a configured allowance module")
                    else throw (
                        plain
                          "merchant Safe is not deployed, so the forwarded USDC cannot be moved"))
                  (finish r (λ _. other) s).1)
                (err why, record s { effects = e ∷ s.effects })
      Result-cases (ok true) = (_, other, inl refl, refl)
      Result-cases (ok false) = (_, other, inl refl, refl)
      Result-cases (err e) = (e, thrown, inr refl, refl)

  decide_unswept :
      (page : PaymentPage) (s : Sys)
      → is_eligible c u d (some page) ≡ true
      → is_usdc page.settlement_asset ≡ false
      → has_step sweep_step d.txs ≡ false
      → (why : Error) × (e : Effect) × ((e ≡ other) ⊎ (e ≡ thrown))
        × (decide c w u d (some page) s ≡ (err why, record s { effects = e ∷ s.effects }))
  unfolding decide decide_page ◌>>=◌
  decide_unswept page s fit euros h =
      let approved : kyc_approved u.kyc_status ≡ true = ground arith in
      let on : page.auto_convert ≡ true = ground arith in
      let enough : ltb (value_or 0 d.amount_usdc) c.min_usdc ≡ false = ground arith in
      let (why, e, kind, out) = sweep_blocked s h in
      (why, e, kind, rw (on, approved, enough, euros, out) refl)

  -- When the first part throws, the deposit is stored as refused, with the error's text.
  refused_stored :
      (x : CryptoDeposit) (s s' : Sys) (why : Error)
      → is_converted d.state ≡ false
      → find_user d.user_id s.db ≡ some u
      → decide c w u d u.payment_page s ≡ (err why, s')
      → lookup table d.id s'.db ≡ some x
      → let s'' = (convert_deposit c f w d s).1 in
        (lookup table d.id s''.db ≡ some (stamped s'.clock (as_refused d.txs why) x))
        × (s''.effects ≡ s'.effects)
  unfolding convert_deposit convert_for split refuse update on_db update_crypto_deposit ◌>>=◌
  refused_stored x s s' why fresh owner stopped stored =
      rw (fresh, owner, stopped)
        (
          lookup-update_self table (stamped s'.clock (as_refused d.txs why)) table-IsTable d.id
              s'.db x (λ a. refl) stored,
          refl,
        )

  -- A deposit whose owner is not approved or has not opted in, or that is below the floor, is stored
  -- as refused with a reason and with the steps that it had, and nothing outside is called.
  pub convert_ineligible :
      (x : CryptoDeposit) (s : Sys)
      → is_converted d.state ≡ false
      → find_user d.user_id s.db ≡ some u
      → lookup table d.id s.db ≡ some x
      → is_eligible c u d u.payment_page ≡ false
      → (why : Error) × (lookup table d.id (convert_deposit c f w d s).1.db
          ≡ some (stamped s.clock (as_refused d.txs why) x))
        × ((convert_deposit c f w d s).1.effects ≡ s.effects)
  convert_ineligible x s fresh owner stored unfit =
      let (why, stopped) = decide_blocked u.payment_page s unfit in
      let (kept, silent) = refused_stored x s s why fresh owner stopped stored in
      (why, kept, silent)

  -- An eligible deposit that the page wants in EURe, and whose record does not show the sweep to the
  -- orchestrator, is stored as refused: of the outside only the Safe's code was asked for.
  pub convert_unswept :
      (x : CryptoDeposit) (page : PaymentPage) (s : Sys)
      → is_converted d.state ≡ false
      → find_user d.user_id s.db ≡ some u
      → lookup table d.id s.db ≡ some x
      → u.payment_page ≡ some page
      → is_eligible c u d (some page) ≡ true
      → is_usdc page.settlement_asset ≡ false
      → has_step sweep_step d.txs ≡ false
      → (why : Error) × (e : Effect) × ((e ≡ other) ⊎ (e ≡ thrown))
        × (lookup table d.id (convert_deposit c f w d s).1.db
            ≡ some (stamped s.clock (as_refused d.txs why) x))
        × ((convert_deposit c f w d s).1.effects ≡ e ∷ s.effects)
  convert_unswept x page s fresh owner stored its fit euros unswept =
      let (why, e, kind, out) = decide_unswept page s fit euros unswept in
      let stopped : decide c w u d u.payment_page s
          ≡ (err why, record s { effects = e ∷ s.effects }) =
        ap (λ p. decide c w u d p s) its ∙ out in
      let (kept, asked) =
        refused_stored x s (record s { effects = e ∷ s.effects }) why fresh owner stopped stored in
      (why, e, kind, kept, asked)
