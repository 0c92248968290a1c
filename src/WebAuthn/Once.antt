-- ===== src/WebAuthn/Once.antt =====
-- services/api/src/webauthn.ts: a challenge admits one ceremony, and only the one it was issued for.
use trans_f.Prelude.{
  ℕ, String, Bool, true, false, not, Option, none, List, [], ◌∷◌, ◌≡◌, refl, ◌∙◌, ◌+◌, ◌&&◌, str_eq,
  eq_refl, arith, inl, inr,
}
use trans_f.Prelude.Tests.{ltb, leb, Bool-cases}
use trans_f.Prelude.Lists.{keep, any}
use trans_f.Prelude.Text.{eq_codes}
use trans_f.Exec.{Exec, ok, pure, ◌>>=◌, ◌>>◌}
use trans_f.Exec.Passes.{bind_passed, need_passed, ok_inj}
use trans_f.WebAuthn.{
  Challenge, Challenges, ChallengePurpose, challenge_ttl_ms, is_fresh, prune_challenges, delete,
  get, set, issue_challenge, same_purpose, same_binding, admits, consume_challenge, ClientData,
  AuthData, Crypto, check, check_client_data, verify_assertion, verify_assertion_bytes, has_flag,
  is_stale_count, is_step_up,
}

get-keep-none :
    (test : String × Challenge → Bool) (c : String) (cs : Challenges)
    → get c cs ≡ none
    → get c (keep test cs) ≡ none
unfolding get keep
get-keep-none test c [] h = refl
get-keep-none test c ((k, v) ∷ cs) h = ground (arith, get-keep-none test c cs)

get-delete : (c : String) (cs : Challenges) → get c (delete c cs) ≡ none
unfolding get delete keep
get-delete c [] = refl
get-delete c ((k, v) ∷ cs) = ground (arith, get-delete c cs)

same_purpose_refl : (p : ChallengePurpose) → same_purpose p p ≡ true
same_purpose_refl ChallengePurpose.register = refl
same_purpose_refl ChallengePurpose.login = refl
same_purpose_refl ChallengePurpose.step_up = refl

-- A challenge that was consumed, admitted or not, is not admitted by the next call, whatever the
-- purpose, the binding and the time of the two calls.
pub challenge-once :
    (now later : ℕ) (c : String) (p q : ChallengePurpose) (b b' : Option String) (cs : Challenges)
    → (consume_challenge later c q b' (consume_challenge now c p b cs).1).0 ≡ false
unfolding consume_challenge prune_challenges
challenge-once now later c p q b b' cs =
    rw (get-keep-none (is_fresh now) c (delete c cs) (get-delete c cs)) refl

leb_late :
    (now wait : ℕ)
    → ltb (now + challenge_ttl_ms) (now + wait) ≡ true
    → leb wait challenge_ttl_ms ≡ false
leb_late now wait h = ground (arith, h)

leb_early :
    (now wait : ℕ)
    → ltb (now + challenge_ttl_ms) (now + wait) ≡ false
    → leb wait challenge_ttl_ms ≡ true
leb_early now wait h = ground (arith, h)

-- A challenge is admitted at most five minutes after it was issued, exactly for its purpose and
-- its binding.
pub challenge-issue :
    (now wait : ℕ) (c : String) (p q : ChallengePurpose) (b b' : Option String) (cs : Challenges)
    → (consume_challenge (now + wait) c q b' (issue_challenge now c p b cs)).0
      ≡ (same_purpose p q && leb wait challenge_ttl_ms && same_binding b b')
unfolding consume_challenge issue_challenge set get
challenge-issue now wait c p q b b' cs =
    rw (eq_refl c) (elim (Bool-cases (ltb (now + challenge_ttl_ms) (now + wait))) [
      | inl late ↦ rw (late, leb_late now wait late) refl
      | inr early ↦ rw (early, leb_early now wait early) refl
    ])

-- What an accepted assertion has passed.
pub record IsAccepted (c : Crypto) (now : ℕ) (auth : AuthData) (cd : ClientData)
    (signature : String) (stored : ℕ) (rp_id : String) (origins : List String)
    (purpose : ChallengePurpose) (binding : Option String) (cs : Challenges) : Type 0 where
  pub ceremony : str_eq cd.kind "webauthn.get" ≡ true
  pub site : eq_codes auth.rp_id_hash (c.sha256 rp_id) ≡ true
  pub admitted : admits now purpose binding (get cd.challenge cs) ≡ true
  pub origin : any (λ o. str_eq o cd.origin) origins ≡ true
  pub present : has_flag 1 auth.flags ≡ true
  pub verified : (is_step_up purpose && not (has_flag 4 auth.flags)) ≡ false
  pub advanced : is_stale_count stored auth.sign_count ≡ false
  pub signed : c.verify auth cd signature ≡ true

check_passed :
    {S A : Type 0} (b : Bool) (why : String) (m : Exec S A) (s : S) (a : A)
    → ((check b why >> m) s).0 ≡ ok a
    → (b ≡ true) × ((m s).0 ≡ ok a)
unfolding ◌>>=◌
check_passed true why m s a h = (refl, h)
check_passed false why m s a h = cc

client_passed :
    (now : ℕ) (cd : ClientData) (kind : String) (origins : List String) (purpose : ChallengePurpose)
    (binding : Option String) (cs : Challenges) (a : Unit {0})
    → (check_client_data now cd kind origins purpose binding cs).0 ≡ ok a
    → (str_eq cd.kind kind ≡ true)
      × (admits now purpose binding (get cd.challenge cs) ≡ true)
      × (any (λ o. str_eq o cd.origin) origins ≡ true)
unfolding check_client_data consume_challenge
client_passed now cd kind origins purpose binding cs a h =
    let (typed, h1) = check_passed _ _ _ cs a h in
    let (known, e, h2) = bind_passed _ _ cs a h1 in
    let (k, h3) = check_passed _ _ _ _ a h2 in
    let same : admits now purpose binding (get cd.challenge cs) ≡ known = ok_inj _ _ e in
    (typed, same ∙ k, (need_passed _ _ (pure tt) _ a h3).0)

module _ (c : Crypto) (auth : AuthData) (cd : ClientData) (signature : String) (stored : ℕ)
    (rp_id : String) (user : Bool) (cs : Challenges) (count : ℕ) where
  bytes_passed :
      (verify_assertion_bytes c auth cd signature stored rp_id user cs).0 ≡ ok count
      → (eq_codes auth.rp_id_hash (c.sha256 rp_id) ≡ true)
        × (has_flag 1 auth.flags ≡ true)
        × (not (user && not (has_flag 4 auth.flags)) ≡ true)
        × (not (is_stale_count stored auth.sign_count) ≡ true)
        × (c.verify auth cd signature ≡ true)
  unfolding verify_assertion_bytes
  bytes_passed h =
      let (site, h1) = check_passed _ _ _ cs count h in
      let (present, h2) = check_passed _ _ _ cs count h1 in
      let (verified, h3) = check_passed _ _ _ cs count h2 in
      let (advanced, h4) = check_passed _ _ _ cs count h3 in
      let (signed, _) = check_passed _ _ _ cs count h4 in
      (site, present, verified, advanced, signed)

-- An assertion that `verifyAssertion` accepts is a `webauthn.get` for this site's rpId, answers a
-- challenge that was issued for its purpose and binding and is not expired, from an allowed origin;
-- the user was present, for a step-up was verified, the sign counter is not stale, and the signature
-- is right.
pub verify-IsAccepted :
    (c : Crypto) (now : ℕ) (auth : AuthData) (cd : ClientData) (signature : String) (stored : ℕ)
    (rp_id : String) (origins : List String) (purpose : ChallengePurpose) (binding : Option String)
    (cs : Challenges) (count : ℕ)
    → (verify_assertion c now auth cd signature stored rp_id origins purpose binding cs).0
      ≡ ok count
    → IsAccepted c now auth cd signature stored rp_id origins purpose binding cs
unfolding verify_assertion
verify-IsAccepted c now auth cd signature stored rp_id origins purpose binding cs count h =
    let (_, client, bytes) = bind_passed _ _ cs count h in
    let (ceremony, admitted, origin) =
      client_passed now cd _ origins purpose binding cs tt client in
    let (site, present, verified, advanced, signed) =
      bytes_passed c auth cd signature stored rp_id (is_step_up purpose) _ count bytes in
    record {
      ceremony = ceremony;
      site = site;
      admitted = admitted;
      origin = origin;
      present = present;
      verified = ground (arith, verified);
      advanced = ground (arith, advanced);
      signed = signed;
    }
