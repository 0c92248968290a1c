-- ===== src/Qr/Decode.antt =====
-- services/api/src/qr.ts: the fields of the bit stream can be read back.
use trans_f.Prelude.{
  ℕ, zero, suc, true, some, List, [], ◌∷◌, ◌++◌, ◌+◌, ◌-◌, ◌*◌, ◌/◌, ◌%◌, ◌^◌, ◌≤◌, ◌<◌, ◌≡◌, refl,
  arith, sym, ap, ◌∙◌,
}
use mathlib.Core.Path.{ap₂}
use mathlib.Core.List.{append_assoc, append-nil}
use trans_f.Prelude.Tests.{ltb, ◌==◌}
use trans_f.Prelude.Lists.{length, length-append}
use trans_f.Qr.{take}
use trans_f.Qr.Stream.{
  pack, byte_of, payload_bits, to_bits, field_bits, terminate, pad_bits, pad_bytes, bitstream,
  data_codewords,
}
use trans_f.Qr.Reading.{read_fields, read_bytes}

-- Every one is below the bound.
abbrev pub AllBelow : ℕ → List ℕ → Type 0
AllBelow n [] = Unit
AllBelow n (x ∷ xs) = (x < n) × AllBelow n xs

AllBelow-append : (n : ℕ) (xs ys : List ℕ) → AllBelow n xs → AllBelow n ys → AllBelow n (xs ++ ys)
AllBelow-append n [] ys h k = k
AllBelow-append n (x ∷ xs) ys (l, h) k = (l, AllBelow-append n xs ys h k)

bits-AllBelow : (b : ℕ) → AllBelow 2 (to_bits 8 b)
unfolding to_bits
bits-AllBelow b = omega arith

payload-AllBelow : (bs : List ℕ) → AllBelow 2 (payload_bits bs)
unfolding payload_bits
payload-AllBelow [] = tt
payload-AllBelow (b ∷ bs) =
    AllBelow-append 2 (to_bits 8 b) _ (bits-AllBelow b) (payload-AllBelow bs)

byte_bits : (b : ℕ) (rest : List ℕ) → b < 256 → pack (to_bits 8 b ++ rest) ≡ b ∷ pack rest
unfolding pack to_bits
byte_bits b rest h = ap (λ x. x ∷ pack rest) (omega arith)

-- Bytes survive being spelled out and read.
read_bytes-payload :
    (bs rest : List ℕ) → AllBelow 256 bs → read_bytes (length bs) (payload_bits bs ++ rest) ≡ bs
unfolding read_bytes payload_bits to_bits
read_bytes-payload [] rest h = refl
read_bytes-payload (b ∷ bs) rest (l, h) =
    let here : byte_of (b / 2 ^ 7 % 2) (b / 2 ^ 6 % 2) (b / 2 ^ 5 % 2) (b / 2 ^ 4 % 2)
          (b / 2 ^ 3 % 2) (b / 2 ^ 2 % 2) (b / 2 ^ 1 % 2) (b / 2 ^ 0 % 2)
        ≡ b =
      omega arith in
    ap₂ ◌∷◌ here (read_bytes-payload bs rest h)

read_fields-fields :
    (bs rest : List ℕ)
    → AllBelow 256 bs
    → length bs < 256
    → read_fields (field_bits bs ++ rest) ≡ some bs
unfolding read_fields field_bits to_bits
read_fields-fields bs rest h l =
    let n = length bs in
    let count : byte_of (n / 2 ^ 7 % 2) (n / 2 ^ 6 % 2) (n / 2 ^ 5 % 2) (n / 2 ^ 4 % 2)
          (n / 2 ^ 3 % 2) (n / 2 ^ 2 % 2) (n / 2 ^ 1 % 2) (n / 2 ^ 0 % 2)
        ≡ n =
      omega arith in
    rw count (ap some (read_bytes-payload bs rest h))

cons_eq : {a b : ℕ} {xs ys : List ℕ} → a ≡ b → xs ≡ ys → a ∷ xs ≡ b ∷ ys
cons_eq p q = ap₂ ◌∷◌ p q

bits_of_byte :
    (a b c d e f g h : ℕ) (rest : List ℕ)
    → a < 2
    → b < 2
    → c < 2
    → d < 2
    → e < 2
    → f < 2
    → g < 2
    → h < 2
    → to_bits 8 (byte_of a b c d e f g h) ++ rest ≡ a ∷ b ∷ c ∷ d ∷ e ∷ f ∷ g ∷ h ∷ rest
unfolding to_bits
bits_of_byte a b c d e f g h rest la lb lc ld le lf lg lh = cons_eq (omega arith) (
    cons_eq (omega arith) (
      cons_eq (omega arith) (
        cons_eq (omega arith) (
          cons_eq (omega arith)
            (cons_eq (omega arith) (cons_eq (omega arith) (cons_eq (omega arith) refl)))))))

-- Whole bytes of bits survive being packed and spelled out.
payload-pack :
    (k : ℕ) (bits : List ℕ)
    → AllBelow 2 bits
    → length bits ≡ 8 * k
    → (payload_bits (pack bits) ≡ bits) × (length (pack bits) ≡ k)
unfolding pack payload_bits
payload-pack zero [] h l = (refl, refl)
payload-pack (suc k) (a ∷ b ∷ c ∷ d ∷ e ∷ f ∷ g ∷ i ∷ rest)
      (la, (lb, (lc, (ld, (le, (lf, (lg, (li, h)))))))) l =
    let (again, size) = payload-pack k rest h (omega arith) in
    (
      ap (λ r. to_bits 8 (byte_of a b c d e f g i) ++ r) again
          ∙ bits_of_byte a b c d e f g i rest la lb lc ld le lf lg li,
      omega arith,
    )
payload-pack k _ h l = absurd (omega arith)

payload_bits-append :
    (xs ys : List ℕ) → payload_bits (xs ++ ys) ≡ payload_bits xs ++ payload_bits ys
unfolding payload_bits
payload_bits-append [] ys = refl
payload_bits-append (x ∷ xs) ys =
    rw (payload_bits-append xs ys)
      (sym (append_assoc (to_bits 8 x) (payload_bits xs) (payload_bits ys)))

length-payload_bits : (bs : List ℕ) → length (payload_bits bs) ≡ 8 * length bs
unfolding payload_bits to_bits
length-payload_bits [] = refl
length-payload_bits (b ∷ bs) = omega (arith, length-payload_bits bs)

length-field_bits : (bs : List ℕ) → length (field_bits bs) ≡ 12 + 8 * length bs
unfolding field_bits to_bits
length-field_bits bs = omega (arith, length-payload_bits bs)

field_bits-AllBelow : (bs : List ℕ) → AllBelow 2 (field_bits bs)
unfolding field_bits
field_bits-AllBelow bs =
    AllBelow-append 2 (to_bits 4 4) (to_bits 8 (length bs) ++ payload_bits bs) nibble (
      AllBelow-append 2 (to_bits 8 (length bs)) (payload_bits bs) (bits-AllBelow (length bs))
        (payload-AllBelow bs))
  where
    nibble : AllBelow 2 (to_bits 4 4)
    nibble = omega arith

abbrev zeros : ℕ → List ℕ
zeros zero = []
zeros (suc n) = 0 ∷ zeros n

-- With room for it the terminator is written whole.
terminate_lem :
    (n size : ℕ) (bits : List ℕ) → length bits + n ≤ size → terminate n size bits ≡ bits ++ zeros n
unfolding terminate
terminate_lem zero size bits room = sym (append-nil bits)
terminate_lem (suc n) size bits room =
    let short : ltb (length bits) size ≡ true = ground arith in
    let longer : length (bits ++ 0 ∷ []) + n ≤ size = omega (arith, length-append bits (0 ∷ [])) in
    rw short (terminate_lem n size (bits ++ 0 ∷ []) longer ∙ append_assoc bits (0 ∷ []) (zeros n))

pad_bits_lem : (n : ℕ) (bits : List ℕ) → length bits % 8 ≡ 0 → pad_bits n bits ≡ bits
unfolding pad_bits
pad_bits_lem zero bits h = refl
pad_bits_lem (suc n) bits h =
    let whole : (length bits % 8 == 0) ≡ true = ground arith in rw whole refl

pub take-all : (n : ℕ) (xs : List ℕ) → length xs ≤ n → take n xs ≡ xs
unfolding take
take-all zero [] h = refl
take-all zero (x ∷ xs) h = absurd (omega arith)
take-all (suc n) [] h = refl
take-all (suc n) (x ∷ xs) h = ap (λ r. x ∷ r) (take-all n xs (omega arith))

-- A text that fits, two bytes of framing included, is read back from its data codewords.
pub read_fields-bitstream :
    (bs : List ℕ) (version : ℕ)
    → AllBelow 256 bs
    → length bs < 256
    → length bs + 2 ≤ data_codewords version
    → read_fields (payload_bits (bitstream bs version)) ≡ some bs
unfolding bitstream
read_fields-bitstream bs version h small fits =
    let size = data_codewords version in
    let bits = field_bits bs ++ zeros 4 in
    let framed : terminate 4 (size * 8) (field_bits bs) ≡ bits =
      terminate_lem 4 (size * 8) (field_bits bs) (omega (arith, length-field_bits bs)) in
    let long : length bits ≡ 8 * (length bs + 2) =
      length-append (field_bits bs) (zeros 4) ∙ omega (arith, length-field_bits bs) in
    let whole : pad_bits 7 bits ≡ bits = pad_bits_lem 7 bits (omega (arith, long)) in
    let (again, packed) =
      payload-pack (length bs + 2) bits
        (AllBelow-append 2 (field_bits bs) (zeros 4) (field_bits-AllBelow bs) (omega arith)) long in
    let taken : take size (pack bits) ≡ pack bits =
      take-all size (pack bits) (omega (arith, packed)) in
    let pads = pad_bytes (size - length (pack bits)) 0 in
    let spelled : payload_bits (pack bits ++ pads)
        ≡ field_bits bs ++ (zeros 4 ++ payload_bits pads) =
      payload_bits-append (pack bits) pads
      ∙ ap (λ r. r ++ payload_bits pads) again
      ∙ append_assoc (field_bits bs) (zeros 4) (payload_bits pads) in
    rw (framed, whole, taken)
      (ap read_fields spelled ∙ read_fields-fields bs (zeros 4 ++ payload_bits pads) h small)

length-pad_bytes : (n alt : ℕ) → length (pad_bytes n alt) ≡ n
unfolding pad_bytes
length-pad_bytes zero alt = refl
length-pad_bytes (suc n) alt = ap suc (length-pad_bytes n (alt + 1))

-- The data codewords fill the version.
pub length-take : (n : ℕ) (xs : List ℕ) → length (take n xs) + (n - length xs) ≡ n
unfolding take
length-take zero xs = omega arith
length-take (suc n) [] = omega arith
length-take (suc n) (x ∷ xs) = omega (arith, length-take n xs)

pub length-bitstream :
    (bs : List ℕ) (version : ℕ) → length (bitstream bs version) ≡ data_codewords version
unfolding bitstream
length-bitstream bs version =
    let size = data_codewords version in
    let packed = pack (pad_bits 7 (terminate 4 (size * 8) (field_bits bs))) in
    length-append (take size packed) (pad_bytes (size - length packed) 0)
    ∙ omega (arith, length-take size packed, length-pad_bytes (size - length packed) 0)
