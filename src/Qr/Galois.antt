-- ===== src/Qr/Galois.antt =====
-- services/api/src/qr.ts: arithmetic of GF(256) and the Reed-Solomon check bytes.
use Prim.Native.Nat.{bit_xor}
use trans_f.Prelude.{ℕ, zero, suc, ◌||◌, List, [], ◌∷◌, ◌++◌, ◌+◌, ◌*◌, ◌≡◌, refl, arith}
use trans_f.Prelude.Tests.{leb, ◌==◌, if◌then◌else◌}
use trans_f.Prelude.Lists.{length, length-append}
use trans_f.Qr.{get_or, take}

-- x <<= 1; if (x & 0x100) x ^= 0x11d;
unfoldable pub double : ℕ → ℕ
double x = if leb 256 (x * 2) then bit_xor (x * 2) 0x11d else x * 2

powers : ℕ → ℕ → List ℕ
powers zero x = []
powers (suc n) x = x ∷ powers n (double x)

-- EXP: 255 powers of the generator, and again from the start up to 512 entries
unfoldable pub exp_table : List ℕ
unfolding powers double take
exp_table = let first = powers 255 1 in first ++ (first ++ take 2 first)

-- EXP[i]
unfoldable pub exp : ℕ → ℕ
unfolding exp_table get_or
exp i = get_or 0 exp_table i

index_from : ℕ → ℕ → List ℕ → ℕ
index_from i a [] = 0
index_from i a (x ∷ xs) = if x == a then i else index_from (i + 1) a xs

-- LOG[a]: the i below 255 that the loop stored for EXP[i] = a, and 0 where it stored none
unfoldable pub log : ℕ → ℕ
unfolding index_from powers double
log a = index_from 0 a (powers 255 1)

unfoldable pub mul : ℕ → ℕ → ℕ
unfolding exp log
mul a b = if a == 0 || b == 0 then 0 else exp (log a + log b)

-- next[i] ^= poly[i] and next[i + 1] ^= mul(poly[i], e), from left to right: `carry` is what
-- next[i] holds already.
times_root : ℕ → ℕ → List ℕ → List ℕ
times_root carry e [] = carry ∷ []
times_root carry e (p ∷ ps) = bit_xor carry p ∷ times_root (mul p e) e ps

-- The product for the roots EXP[d] with d from `from` on, `n` of them.
generator_from : ℕ → ℕ → List ℕ → List ℕ
generator_from zero d poly = poly
generator_from (suc n) d poly = generator_from n (d + 1) (times_root 0 (exp d) poly)

-- generator(degree)
unfoldable pub generator : ℕ → List ℕ
unfolding generator_from times_root
generator degree = generator_from degree 0 (1 ∷ [])

-- gen.slice(1)
tail_of : List ℕ → List ℕ
tail_of [] = []
tail_of (g ∷ gs) = gs

zeros : ℕ → List ℕ
zeros zero = []
zeros (suc n) = 0 ∷ zeros n

head_of : List ℕ → ℕ
head_of [] = 0
head_of (r ∷ rs) = r

-- rem.copyWithin(0, 1); rem[ecLen - 1] = 0
shift : List ℕ → List ℕ
shift [] = []
shift (r ∷ rs) = rs ++ 0 ∷ []

-- for (i) rem[i] ^= mul(gen[i + 1], factor)
add_multiple : ℕ → List ℕ → List ℕ → List ℕ
add_multiple factor [] rem = rem
add_multiple factor (g ∷ gs) [] = []
add_multiple factor (g ∷ gs) (r ∷ rem) = bit_xor r (mul g factor) ∷ add_multiple factor gs rem

-- for (const byte of data)
divide : List ℕ → List ℕ → List ℕ → List ℕ
divide gen [] rem = rem
divide gen (byte ∷ bytes) rem =
    divide gen bytes (add_multiple (bit_xor byte (head_of rem)) gen (shift rem))

-- ecCodewords(data, ecLen)
unfoldable pub ec_codewords : List ℕ → ℕ → List ℕ
unfolding generator tail_of zeros divide add_multiple shift head_of
ec_codewords bytes ec_len = divide (tail_of (generator ec_len)) bytes (zeros ec_len)

length-zeros : (n : ℕ) → length (zeros n) ≡ n
unfolding zeros
length-zeros zero = refl
length-zeros (suc n) = omega (arith, length-zeros n)

length-shift : (rem : List ℕ) → length (shift rem) ≡ length rem
unfolding shift
length-shift [] = refl
length-shift (r ∷ rs) = omega (arith, length-append rs (0 ∷ []))

length-add_multiple :
    (factor : ℕ) (gen rem : List ℕ) → length (add_multiple factor gen rem) ≡ length rem
unfolding add_multiple
length-add_multiple factor [] rem = refl
length-add_multiple factor (g ∷ gs) [] = refl
length-add_multiple factor (g ∷ gs) (r ∷ rem) = omega (arith, length-add_multiple factor gs rem)

length-divide : (gen bytes rem : List ℕ) → length (divide gen bytes rem) ≡ length rem
unfolding divide
length-divide gen [] rem = refl
length-divide gen (b ∷ bs) rem = omega (
  arith,
  length-divide gen bs (add_multiple (bit_xor b (head_of rem)) gen (shift rem)),
  length-add_multiple (bit_xor b (head_of rem)) gen (shift rem),
  length-shift rem,
)

pub length-ec_codewords : (bytes : List ℕ) (n : ℕ) → length (ec_codewords bytes n) ≡ n
unfolding ec_codewords
length-ec_codewords bytes n =
    omega (arith, length-divide (tail_of (generator n)) bytes (zeros n), length-zeros n)
