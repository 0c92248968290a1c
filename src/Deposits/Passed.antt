-- ===== src/Deposits/Passed.antt =====
-- What the calls, the parts and the writes of a conversion that returned have passed.
use trans_f.Prelude.{
  ℕ, String, true, false, Option, none, some, List, ◌≤◌, ◌<◌, ◌≡◌, refl, inl, inr, arith, sym, ◌⊎◌,
}
use trans_f.Prelude.Tests.{ltb, leb}
use trans_f.Exec.{Result, ok, err, Error, ◌>>=◌}
use trans_f.Exec.Passes.{ok_inj}
use trans_f.Store.Db
use trans_f.Store.Db.{Db, lookup, patch_found}
use trans_f.Store.Payments.{Tx}
use trans_f.Store.Records.{CryptoDeposit}
use trans_f.Store.Deposits.{table, update_crypto_deposit}
use trans_f.Orchestrator.World.{Sys, Action, call, finish, Effect, on_db}
use trans_f.Deposits.Convert.{refuse, update, split, pass, as_refused, is_converted}
use trans_f.Deposits.Keeps.{stamped}

module _ {A : Type 0} where
  pub call_passed :
      (f : List Effect → Result A) (note : A → Effect) (s : Sys) (a : A)
      → (call f note s).0 ≡ ok a
      → (f s.effects ≡ ok a)
  unfolding call finish
  call_passed f note s a h = go (f s.effects) h
    where
      go : (r : Result A) → (finish r note s).0 ≡ ok a → r ≡ ok a
      go (ok x) k = k
      go (err e) k = k

module _ {A B : Type 0} where
  pass_passed :
      (r : Result A) (recover : Error → Action B) (go : A → Action B) (s : Sys) (b : B)
      → (pass r go recover s).0 ≡ ok b
      → ((a : A) × (r ≡ ok a) × ((go a s).0 ≡ ok b)) ⊎ ((e : Error) × ((recover e s).0 ≡ ok b))
  pass_passed (ok a) recover go s b h = inl (a, refl, h)
  pass_passed (err e) recover go s b h = inr (e, h)

  -- A try block returned: its part and what follows did, or the catch block did.
  pub split_passed :
      (m : Action A) (recover : Error → Action B) (go : A → Action B) (s : Sys) (b : B)
      → (split m recover go s).0 ≡ ok b
      → ((a : A) × ((m s).0 ≡ ok a) × ((go a (m s).1).0 ≡ ok b))
        ⊎ ((e : Error) × ((recover e (m s).1).0 ≡ ok b))
  unfolding split
  split_passed m recover go s b h = pass_passed (m s).0 recover go (m s).1 b h

-- An update that returned gives the patched record.
pub update_passed :
    (id : String) (f : CryptoDeposit → CryptoDeposit) (s : Sys) (d : CryptoDeposit)
    → (update id f s).0 ≡ ok d
    → (x : CryptoDeposit) × (d ≡ stamped s.clock f x)
unfolding update update_crypto_deposit ◌>>=◌ on_db patch_found Db.update lookup
update_passed id f s d h = go (lookup table id s.db) h
  where
    go :
        (o : Option CryptoDeposit)
        → (patch_found table o id (stamped s.clock f) s.db).0 ≡ ok d
        → (x : CryptoDeposit) × (d ≡ stamped s.clock f x)
    go none k = cc
    go (some x) k = (x, sym (ok_inj _ _ k))

pub refuse_passed :
    (d : CryptoDeposit) (txs : List Tx) (e : Error) (s : Sys) (d' : CryptoDeposit)
    → (refuse d txs e s).0 ≡ ok d'
    → is_converted d'.state ≡ true
    → ⊥
unfolding refuse
refuse_passed d txs e s d' h done =
    let (x, same) = update_passed d.id (as_refused txs e) s d' h in
    let other : is_converted d'.state ≡ false = rw same refl in cc

pub not_leb : (a b : ℕ) → leb a b ≡ false → b < a
not_leb a b h = ground arith

pub not_ltb : (a b : ℕ) → ltb a b ≡ false → b ≤ a
not_ltb a b h = ground arith
