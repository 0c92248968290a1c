-- ===== src/Qr/Reader/Agrees.antt =====
-- The reader by the standard agrees with the encoder of services/api/src/qr.ts on the order of the
-- modules, the masks, the codewords and the fields.
use trans_f.Prelude.{
  ℕ, zero, suc, Bool, true, false, not, none, some, List, [], ◌∷◌, ◌++◌, ◌+◌, ◌*◌, ◌/◌, ◌%◌, ◌≤◌,
  ◌<◌, ◌≡◌, refl, arith, ap, ◌∙◌,
}
use mathlib.Core.Path.{ap₂}
use trans_f.Prelude.Tests.{◌==◌, if◌then◌else◌}
use trans_f.Prelude.Lists.{length}
use trans_f.Qr.{get_or, take, drop, blocks_l}
use trans_f.Qr.Stream.{pack, payload_bits, data_codewords, to_bits, byte_of}
use trans_f.Qr.Grid.{Position, data_module_order}
use trans_f.Qr.Penalty.{masks}
use trans_f.Qr.Reading.{read_modules, read_fields, read_bytes, unweave, evens, odds, differ, bit_of}
use trans_f.Qr.Bits.{mods}
use trans_f.Qr.Reader.{
  reading_order, is_inverted, lifted, octets, codewords_of, every_other, every_second, in_order,
  halves, read_text, digit,
}

-- The encoder's order is the standard's, up to where the encoder stops.
pub order-agrees :
    (version : ℕ)
    → 1 ≤ version
    → version ≤ 6
    → (rest : List Position) × (reading_order version ≡ data_module_order version ++ rest)
unfolding reading_order data_module_order drop
order-agrees (suc zero) low high = (drop (length (data_module_order 1)) (reading_order 1), refl)
order-agrees (suc (suc zero)) low high =
    (drop (length (data_module_order 2)) (reading_order 2), refl)
order-agrees (suc (suc (suc zero))) low high =
    (drop (length (data_module_order 3)) (reading_order 3), refl)
order-agrees (suc (suc (suc (suc zero)))) low high =
    (drop (length (data_module_order 4)) (reading_order 4), refl)
order-agrees (suc (suc (suc (suc (suc zero))))) low high =
    (drop (length (data_module_order 5)) (reading_order 5), refl)
order-agrees (suc (suc (suc (suc (suc (suc zero)))))) low high =
    (drop (length (data_module_order 6)) (reading_order 6), refl)
order-agrees zero low high = absurd (omega arith)
order-agrees (suc (suc (suc (suc (suc (suc (suc n))))))) low high = absurd (omega arith)

masks-agree : (mask r c : ℕ) → mask < 8 → is_inverted mask r c ≡ masks mask r c
unfolding is_inverted masks
masks-agree zero r c low = ground arith
masks-agree (suc zero) r c low = refl
masks-agree (suc (suc zero)) r c low = refl
masks-agree (suc (suc (suc zero))) r c low = refl
masks-agree (suc (suc (suc (suc zero)))) r c low = ground arith
masks-agree (suc (suc (suc (suc (suc zero))))) r c low = ground arith
masks-agree (suc (suc (suc (suc (suc (suc zero)))))) r c low = ground arith
masks-agree (suc (suc (suc (suc (suc (suc (suc zero))))))) r c low = ground arith
masks-agree (suc (suc (suc (suc (suc (suc (suc (suc n)))))))) r c low = absurd (omega arith)

-- What stands at the positions without the mask.
lifted-agrees :
    (dark_at : ℕ → ℕ → Bool) (mask : ℕ) (ps : List Position)
    → mask < 8
    → lifted dark_at mask ps ≡ read_modules dark_at mask ps
unfolding lifted read_modules
lifted-agrees dark_at mask [] low = refl
lifted-agrees dark_at mask (p ∷ ps) low =
    ap₂ ◌∷◌ (turned (masks-agree mask p.row p.col low)) (lifted-agrees dark_at mask ps low)
  where
    turned :
        is_inverted mask p.row p.col ≡ masks mask p.row p.col
        → digit (
            if is_inverted mask p.row p.col then not (dark_at p.row p.col) else dark_at p.row p.col)
          ≡ bit_of (differ (dark_at p.row p.col) (masks mask p.row p.col))
    turned same = rw same (both (masks mask p.row p.col) (dark_at p.row p.col))
      where
        both : (m d : Bool) → digit (if m then not d else d) ≡ bit_of (differ d m)
        both true true = refl
        both true false = refl
        both false true = refl
        both false false = refl

take-lifted :
    (n : ℕ) (dark_at : ℕ → ℕ → Bool) (mask : ℕ) (ps rest : List Position)
    → n ≤ length ps
    → take n (lifted dark_at mask (ps ++ rest)) ≡ take n (lifted dark_at mask ps)
unfolding take lifted
take-lifted zero dark_at mask ps rest h = refl
take-lifted (suc n) dark_at mask [] rest h = absurd (omega arith)
take-lifted (suc n) dark_at mask (p ∷ ps) rest h =
    ap
      (λ r.
        digit
          (if is_inverted mask p.row p.col then not (dark_at p.row p.col) else dark_at p.row p.col)
        ∷ r)
      (take-lifted n dark_at mask ps rest (omega arith))

octets-agree : (bits : List ℕ) → octets bits ≡ pack bits
unfolding octets pack
octets-agree (a ∷ b ∷ c ∷ d ∷ e ∷ f ∷ g ∷ h ∷ rest) = ap₂ ◌∷◌ (omega arith) (octets-agree rest)
octets-agree [] = refl
octets-agree (a ∷ []) = refl
octets-agree (a ∷ b ∷ []) = refl
octets-agree (a ∷ b ∷ c ∷ []) = refl
octets-agree (a ∷ b ∷ c ∷ d ∷ []) = refl
octets-agree (a ∷ b ∷ c ∷ d ∷ e ∷ []) = refl
octets-agree (a ∷ b ∷ c ∷ d ∷ e ∷ f ∷ []) = refl
octets-agree (a ∷ b ∷ c ∷ d ∷ e ∷ f ∷ g ∷ []) = refl

codewords_of-agrees :
    (version : ℕ) → 1 ≤ version → version ≤ 6 → codewords_of version ≡ data_codewords version
unfolding get_or
codewords_of-agrees (suc zero) low high = refl
codewords_of-agrees (suc (suc zero)) low high = refl
codewords_of-agrees (suc (suc (suc zero))) low high = refl
codewords_of-agrees (suc (suc (suc (suc zero)))) low high = refl
codewords_of-agrees (suc (suc (suc (suc (suc zero))))) low high = refl
codewords_of-agrees (suc (suc (suc (suc (suc (suc zero)))))) low high = refl
codewords_of-agrees zero low high = absurd (omega arith)
codewords_of-agrees (suc (suc (suc (suc (suc (suc (suc n))))))) low high = absurd (omega arith)

every_other-agrees : (xs : List ℕ) → every_other xs ≡ evens xs
unfolding every_other evens
every_other-agrees [] = refl
every_other-agrees (a ∷ []) = refl
every_other-agrees (a ∷ b ∷ rest) = ap (λ r. a ∷ r) (every_other-agrees rest)

every_second-agrees : (xs : List ℕ) → every_second xs ≡ odds xs
unfolding every_second odds
every_second-agrees [] = refl
every_second-agrees (a ∷ []) = refl
every_second-agrees (a ∷ b ∷ rest) = ap (λ r. b ∷ r) (every_second-agrees rest)

pub in_order-agrees :
    (version : ℕ) (xs : List ℕ)
    → 1 ≤ version
    → version ≤ 6
    → in_order version xs ≡ unweave (get_or 0 blocks_l version) xs
unfolding in_order unweave get_or
in_order-agrees (suc zero) xs low high = refl
in_order-agrees (suc (suc zero)) xs low high = refl
in_order-agrees (suc (suc (suc zero))) xs low high = refl
in_order-agrees (suc (suc (suc (suc zero)))) xs low high = refl
in_order-agrees (suc (suc (suc (suc (suc zero))))) xs low high = refl
in_order-agrees (suc (suc (suc (suc (suc (suc zero)))))) xs low high =
    ap₂ ◌++◌ (every_other-agrees xs) (every_second-agrees xs)
in_order-agrees zero xs low high = absurd (omega arith)
in_order-agrees (suc (suc (suc (suc (suc (suc (suc n))))))) xs low high = absurd (omega arith)

-- Half a codeword and those after it, bit by bit.
halves-agree :
    (n a : ℕ) (bs : List ℕ)
    → halves n a (mods bs) ≡ read_bytes n (to_bits 4 a ++ payload_bits (mods bs))
unfolding halves read_bytes payload_bits to_bits
halves-agree zero a bs = refl
halves-agree (suc n) a [] = refl
halves-agree (suc n) a (b ∷ bs) = ap₂ ◌∷◌ (omega arith) (halves-agree n (b % 256) bs)

pub read_text-agrees : (cs : List ℕ) → read_text (mods cs) ≡ read_fields (payload_bits (mods cs))
unfolding read_text read_fields payload_bits to_bits
read_text-agrees [] = refl
read_text-agrees (a ∷ []) = refl
read_text-agrees (a ∷ b ∷ cs) =
    let x = a % 256 in
    let y = b % 256 in
    let mode : x / 16 ≡ ((x / 128 % 2 * 2 + x / 64 % 2) * 2 + x / 32 % 2) * 2 + x / 16 % 2 =
      omega arith in
    let n =
      byte_of (x / 8 % 2) (x / 4 % 2) (x / 2 % 2) (x / 1 % 2) (y / 128 % 2) (y / 64 % 2)
        (y / 32 % 2) (y / 16 % 2) in
    let count : x % 16 * 16 + y / 16 ≡ n = omega arith in
    ap₂ (λ (m : ℕ) (t : List ℕ). if m == 4 then some t else none) mode
      (ap (λ k. halves k y (mods cs)) count ∙ halves-agree n y cs)

-- The codewords that the reader takes are those at the encoder's positions.
pub codewords-agree :
    (dark_at : ℕ → ℕ → Bool) (version mask : ℕ)
    → 1 ≤ version
    → version ≤ 6
    → mask < 8
    → 8 * data_codewords version ≤ length (data_module_order version)
    → octets (take (8 * codewords_of version) (lifted dark_at mask (reading_order version)))
      ≡ pack (
          take (8 * data_codewords version) (read_modules dark_at mask (data_module_order version)))
codewords-agree dark_at version mask low high small enough =
    let order = data_module_order version in
    let (rest, same) = order-agrees version low high in
    octets-agree _
    ∙ ap pack (
        ap₂ (λ (k : ℕ) (ps : List Position). take (8 * k) (lifted dark_at mask ps))
          (codewords_of-agrees version low high) same
        ∙ take-lifted (8 * data_codewords version) dark_at mask order rest enough
        ∙ ap (take (8 * data_codewords version)) (lifted-agrees dark_at mask order small))
