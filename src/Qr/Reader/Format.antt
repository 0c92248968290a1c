-- ===== src/Qr/Reader/Format.antt =====
-- services/api/src/qr.ts: the format strip tells the standard's reader the mask, and the size tells it
-- the version.
use trans_f.Prelude.{
  ℕ, zero, suc, some, List, ◌+◌, ◌-◌, ◌*◌, ◌/◌, ◌%◌, ◌^◌, ◌≤◌, ◌<◌, ◌≡◌, refl, arith, ap, ◌∙◌,
}
use trans_f.Prelude.Tests.{◌==◌}
use trans_f.Qr.Grid.{Module, Grid, Position, size_of, module_of, paint}
use trans_f.Qr.Matrix.{place_format, place_strips, format_bits, candidate, apply_mask}
use trans_f.Qr.Penalty.{is_dark}
use trans_f.Qr.Painted.{darks}
use trans_f.Qr.Placed.{size-place_strips}
use trans_f.Qr.Reader.{spelled, mask_of, format_strip, digit}

-- The bits below `n`, from the highest.
word : ℕ → ℕ → ℕ → ℕ
word zero bits read = read
word (suc i) bits read =
    word i bits (read * 2 + digit (is_dark (module_of (bits / 2 ^ i % 2 == 1))))

strip-read :
    (version mask : ℕ) (f : ℕ → ℕ → Module)
    → 1 ≤ version
    → version ≤ 6
    → spelled (darks (place_format mask (record { size = size_of version; at = f }))) 0 format_strip
      ≡ word 15 (format_bits mask) 0
unfolding spelled word place_format place_strips paint
strip-read (suc zero) mask f low high = refl
strip-read (suc (suc zero)) mask f low high = refl
strip-read (suc (suc (suc zero))) mask f low high = refl
strip-read (suc (suc (suc (suc zero)))) mask f low high = refl
strip-read (suc (suc (suc (suc (suc zero))))) mask f low high = refl
strip-read (suc (suc (suc (suc (suc (suc zero)))))) mask f low high = refl
strip-read zero mask f low high = absurd (omega arith)
strip-read (suc (suc (suc (suc (suc (suc (suc n))))))) mask f low high = absurd (omega arith)

-- The eight format words are the standard's.
word-mask : (mask : ℕ) → mask < 8 → mask_of (word 15 (format_bits mask) 0) ≡ some mask
unfolding mask_of word format_bits
word-mask zero low = refl
word-mask (suc zero) low = refl
word-mask (suc (suc zero)) low = refl
word-mask (suc (suc (suc zero))) low = refl
word-mask (suc (suc (suc (suc zero)))) low = refl
word-mask (suc (suc (suc (suc (suc zero))))) low = refl
word-mask (suc (suc (suc (suc (suc (suc zero)))))) low = refl
word-mask (suc (suc (suc (suc (suc (suc (suc zero))))))) low = refl
word-mask (suc (suc (suc (suc (suc (suc (suc (suc n)))))))) low = absurd (omega arith)

-- The mask whose format strip was written is the one that is read.
mask-place_format :
    (version mask : ℕ) (g : Grid)
    → 1 ≤ version
    → version ≤ 6
    → mask < 8
    → g.size ≡ size_of version
    → mask_of (spelled (darks (place_format mask g)) 0 format_strip) ≡ some mask
mask-place_format version mask g low high small sized =
    ap
      (λ n.
        mask_of
          (spelled (darks (place_format mask (record { size = n; at = g.at }))) 0 format_strip))
      sized
    ∙ ap mask_of (strip-read version mask g.at low high)
    ∙ word-mask mask small

pub version-size : (version size : ℕ) → size ≡ size_of version → (size - 17) / 4 ≡ version
version-size version size h = omega arith

pub mask-candidate :
    (version mask : ℕ) (ps : List Position) (g : Grid)
    → 1 ≤ version
    → version ≤ 6
    → mask < 8
    → (apply_mask mask ps g).size ≡ size_of version
    → mask_of (spelled (darks (candidate ps g mask)) 0 format_strip) ≡ some mask
unfolding candidate
mask-candidate version mask ps g = mask-place_format version mask (apply_mask mask ps g)

pub size-candidate :
    (mask : ℕ) (ps : List Position) (g : Grid)
    → (candidate ps g mask).size ≡ (apply_mask mask ps g).size
unfolding candidate place_format paint
size-candidate mask ps g = size-place_strips 15 0 (format_bits mask) (apply_mask mask ps g)
