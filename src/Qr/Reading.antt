-- ===== src/Qr/Reading.antt =====
-- What the encoder of services/api/src/qr.ts did, undone step by step with its own masks and bits: the
-- way that the proofs go to the reader of Qr/Reader.antt, which shares none of it.
use trans_f.Prelude.{
  ℕ, suc, Bool, true, false, not, Option, none, some, List, [], ◌∷◌, ◌++◌, ◌+◌, ◌*◌,
}
use trans_f.Prelude.Tests.{◌==◌, if◌then◌else◌}
use trans_f.Qr.Stream.{byte_of}
use trans_f.Qr.Grid.{Position}
use trans_f.Qr.Penalty.{masks}

abbrev pub differ : Bool → Bool → Bool
differ b true = not b
differ b false = b

abbrev pub bit_of : Bool → ℕ
bit_of true = 1
bit_of false = 0

-- The bits at the positions, the mask lifted.
unfoldable pub read_modules : (ℕ → ℕ → Bool) → ℕ → List Position → List ℕ
read_modules dark_at mask [] = []
read_modules dark_at mask (p ∷ ps) =
    bit_of (differ (dark_at p.row p.col) (masks mask p.row p.col)) ∷ read_modules dark_at mask ps

-- Of two woven blocks, the first and the second.
unfoldable pub evens : List ℕ → List ℕ
evens (a ∷ b ∷ rest) = a ∷ evens rest
evens _ = []

unfoldable pub odds : List ℕ → List ℕ
odds (a ∷ b ∷ rest) = b ∷ odds rest
odds _ = []

unfoldable pub unweave : ℕ → List ℕ → List ℕ
unfolding evens odds
unweave blocks codewords = if blocks == 2 then evens codewords ++ odds codewords else codewords

unfoldable pub read_bytes : ℕ → List ℕ → List ℕ
read_bytes (suc n) (a ∷ b ∷ c ∷ d ∷ e ∷ f ∷ g ∷ h ∷ rest) =
    byte_of a b c d e f g h ∷ read_bytes n rest
read_bytes _ _ = []

-- Byte mode, the count, and that many bytes.
unfoldable pub read_fields : List ℕ → Option (List ℕ)
unfolding read_bytes
read_fields (m ∷ n ∷ o ∷ p ∷ a ∷ b ∷ c ∷ d ∷ e ∷ f ∷ g ∷ h ∷ rest) =
    if ((m * 2 + n) * 2 + o) * 2 + p == 4
    then some (read_bytes (byte_of a b c d e f g h) rest)
    else none
read_fields _ = none
