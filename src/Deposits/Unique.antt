-- ===== src/Deposits/Unique.antt =====
-- services/api/src/adapters/crypto-deposits.ts: one transfer event is one deposit.
use trans_f.Prelude.{
  ℕ, String, Bool, false, ◌&&◌, none, List, [], ◌∷◌, ◌++◌, ◌≡◌, refl, inl, inr, arith,
}
use trans_f.Prelude.Tests.{◌==◌, Bool-cases}
use trans_f.Prelude.Lists.{any, any-append, find, modify}
use trans_f.Prelude.Text.{same_folded}
use trans_f.Store.Db.{has_id, push}
use trans_f.Store.Records.{CryptoDeposit}
use trans_f.Store.Deposits.{find_crypto_deposit, table, set_deposit_cursor}
use trans_f.Orchestrator.World.{Sys, World}
use trans_f.Deposits.{Feed, CryptoIn}
use trans_f.Deposits.Convert.{update}
use trans_f.Deposits.Poll.{tick}
use trans_f.Deposits.Keeps.{IsHarmless, stamped, stamped-IsHarmless, update_either}
use trans_f.Deposits.Polls.{IsClosed, tick-Keeps}

-- The deposit records this log of this transaction.
abbrev pub is_log : String → ℕ → CryptoDeposit → Bool
is_log hash index d = same_folded d.tx_hash hash && d.log_index == index

-- No later deposit records the same log.
abbrev pub AreDistinct : List CryptoDeposit → Type 0
AreDistinct [] = Unit
AreDistinct (d ∷ ds) = (any (λ e. is_log e.tx_hash e.log_index d) ds ≡ false) × AreDistinct ds

pub record IsUnique (s : Sys) : Type 0 where
  pub distinct : AreDistinct s.db.crypto_deposits

AreDistinct-push :
    (ds : List CryptoDeposit) (d : CryptoDeposit)
    → find (is_log d.tx_hash d.log_index) ds ≡ none
    → AreDistinct ds
    → AreDistinct (ds ++ d ∷ [])
unfolding find any
AreDistinct-push [] d h k = (refl, tt)
AreDistinct-push (e ∷ ds) d h (apart, k) =
    let first : is_log d.tx_hash d.log_index e ≡ false = ground arith in
    (
      rw (any-append (λ x. is_log x.tx_hash x.log_index e) ds (d ∷ []), apart, first) refl,
      AreDistinct-push ds d (ground arith) k,
    )

module _ (f : CryptoDeposit → CryptoDeposit) (harmless : IsHarmless f)
    (test : CryptoDeposit → Bool) where
  any-modify :
      (e : CryptoDeposit) (ds : List CryptoDeposit)
      → any (λ x. is_log x.tx_hash x.log_index e) (modify test f ds)
        ≡ any (λ x. is_log x.tx_hash x.log_index e) ds
  unfolding any modify
  any-modify e [] = refl
  any-modify e (d ∷ ds) = elim (Bool-cases (test d)) [
    | inl hit ↦ rw hit (rw (harmless.same_hash d, harmless.same_index d) refl)
    | inr miss ↦ rw miss (rw (any-modify e ds) refl)
  ]

  AreDistinct-modify : (ds : List CryptoDeposit) → AreDistinct ds → AreDistinct (modify test f ds)
  unfolding modify
  AreDistinct-modify [] h = tt
  AreDistinct-modify (d ∷ ds) (apart, h) = elim (Bool-cases (test d)) [
    | inl hit ↦ rw hit (rw (harmless.same_hash d, harmless.same_index d) apart, h)
    | inr miss ↦ rw miss (rw (any-modify d ds) apart, AreDistinct-modify ds h)
  ]

patched-IsUnique :
    (s : Sys) (id : String) (f : CryptoDeposit → CryptoDeposit)
    → IsHarmless f
    → IsUnique s
    → IsUnique (update id f s).1
patched-IsUnique s id f harmless h = record {
  distinct =
      update_either (λ db. AreDistinct db.crypto_deposits) s id f h.distinct
        (AreDistinct-modify (stamped s.clock f) (stamped-IsHarmless s.clock f harmless)
          (has_id table id) s.db.crypto_deposits h.distinct);
}

IsUnique-IsClosed : IsClosed IsUnique
unfolding find_crypto_deposit set_deposit_cursor push
IsUnique-IsClosed = record {
  shut = record { called = λ s e h. record { distinct = h.distinct }; patched = patched-IsUnique };
  added = λ s d absent h. record {
    distinct = AreDistinct-push s.db.crypto_deposits d absent h.distinct;
  };
  moved = λ s key block h. record { distinct = h.distinct };
}

-- If no two stored deposits record the same log of a transaction, none do after a tick of the
-- poller, whether its parts return or throw.
pub tick-IsUnique :
    (c : CryptoIn) (f : Feed) (w : World) (s : Sys) → IsUnique s → IsUnique (tick c f w s).1
tick-IsUnique c f w s h = (tick-Keeps IsUnique-IsClosed c f w).at s h
