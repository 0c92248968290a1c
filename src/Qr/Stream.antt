-- ===== src/Qr/Stream.antt =====
-- services/api/src/qr.ts: the version of a text, and its bytes as data codewords.
use trans_f.Prelude.{ℕ, zero, suc, List, [], ◌∷◌, ◌++◌, ◌+◌, ◌-◌, ◌*◌, ◌/◌, ◌%◌, ◌^◌}
use trans_f.Prelude.Tests.{ltb, leb, ◌==◌, if◌then◌else◌}
use trans_f.Prelude.Lists.{length}
use trans_f.Exec.{Result, ok, err, Error, plain}
use trans_f.Qr.{get_or, take, capacity_l, blocks_l, data_per_block_l}

abbrev pub too_long : Error
too_long = plain "too long for a version-6 QR at level L"

-- for (let v = ...; v <= 6; v++), with `n` versions left
version_from : ℕ → ℕ → ℕ → Result ℕ
version_from zero v size = err too_long
version_from (suc n) v size =
    let rest = version_from n (v + 1) size in
    if leb size (get_or 0 capacity_l v) then ok v else rest

-- pickVersion(byteLength)
unfoldable pub pick_version : ℕ → Result ℕ
unfolding version_from get_or
pick_version = version_from 6 1

-- push(value, width): the bits from the highest on
unfoldable pub to_bits : ℕ → ℕ → List ℕ
to_bits zero value = []
to_bits (suc i) value = value / 2 ^ i % 2 ∷ to_bits i value

-- for (const b of bytes) push(b, 8)
unfoldable pub payload_bits : List ℕ → List ℕ
unfolding to_bits
payload_bits [] = []
payload_bits (b ∷ bs) = to_bits 8 b ++ payload_bits bs

-- for (i < 4 && bits.length < size) bits.push(0)
unfoldable pub terminate : ℕ → ℕ → List ℕ → List ℕ
terminate zero size bits = bits
terminate (suc n) size bits =
    let longer = terminate n size (bits ++ 0 ∷ []) in
    if ltb (length bits) size then longer else bits

-- while (bits.length % 8 !== 0) bits.push(0), which ends within 7 rounds
unfoldable pub pad_bits : ℕ → List ℕ → List ℕ
pad_bits zero bits = bits
pad_bits (suc n) bits =
    let longer = pad_bits n (bits ++ 0 ∷ []) in if length bits % 8 == 0 then bits else longer

abbrev pub byte_of : ℕ → ℕ → ℕ → ℕ → ℕ → ℕ → ℕ → ℕ → ℕ
byte_of a b c d e f g h = ((((((a * 2 + b) * 2 + c) * 2 + d) * 2 + e) * 2 + f) * 2 + g) * 2 + h

-- Eight bits to a byte.
unfoldable pub pack : List ℕ → List ℕ
pack (a ∷ b ∷ c ∷ d ∷ e ∷ f ∷ g ∷ h ∷ rest) = byte_of a b c d e f g h ∷ pack rest
pack _ = []

-- 0xec and 0x11 in turn, `n` of them
unfoldable pub pad_bytes : ℕ → ℕ → List ℕ
pad_bytes zero alt = []
pad_bytes (suc n) alt = (if alt % 2 == 0 then 0xec else 0x11) ∷ pad_bytes n (alt + 1)

abbrev pub data_codewords : ℕ → ℕ
data_codewords v = get_or 0 data_per_block_l v * get_or 0 blocks_l v

-- Mode, length and payload.
unfoldable pub field_bits : List ℕ → List ℕ
unfolding to_bits payload_bits
field_bits bytes = to_bits 4 4 ++ (to_bits 8 (length bytes) ++ payload_bits bytes)

-- bitstream(bytes, version)
unfoldable pub bitstream : List ℕ → ℕ → List ℕ
unfolding field_bits terminate pad_bits pack pad_bytes take get_or
bitstream bytes version =
    let size = data_codewords version in
    let packed = pack (pad_bits 7 (terminate 4 (size * 8) (field_bits bytes))) in
    take size packed ++ pad_bytes (size - length packed) 0
