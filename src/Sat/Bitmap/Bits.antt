-- ===== src/Sat/Bitmap/Bits.antt =====
-- devices/sat/sat.c, "SAT Bitmap": what the operations do to single bits of a byte, by tables.
use libslinga.Prelude.{ℕ, ◌+◌, ◌<◌, ◌≡◌, refl, Bool, not, ◌||◌, ◌==◌, each_below, each_below_at}
use libslinga.Prelude.{same, same→eq, ==_iff, if◌then◌else◌, zero, suc, true}
use libslinga.Sat.Bitmap.{with_bit, test_bit, invert_byte, count_byte}

-- The set bits among `i`, .., `i + n - 1`.
unfoldable pub count_from : (ℕ → Bool) → ℕ → ℕ → ℕ
count_from f i zero = 0
count_from f i (suc n) = (if f i then 1 else 0) + count_from f (i + 1) n

with_bit_table :
    each_below 256 (λ b.
      each_below 8
        (λ k. each_below 8 (λ j. same (test_bit (with_bit b k) j) (j == k || test_bit b j))))
    ≡ true
unfolding each_below
with_bit_table = refl

pub test_bit-with_bit :
    (b k j : ℕ) → b < 256 → k < 8 → j < 8 → test_bit (with_bit b k) j ≡ (j == k || test_bit b j)
test_bit-with_bit b k j hb hk hj =
    same→eq _ _
      (each_below_at 8 _ j (each_below_at 8 _ k (each_below_at 256 _ b with_bit_table hb) hk) hj)

invert_table :
    each_below 256 (λ b. each_below 8 (λ j. same (test_bit (invert_byte b) j) (not (test_bit b j))))
    ≡ true
unfolding each_below
invert_table = refl

pub test_bit-invert_byte :
    (b j : ℕ) → b < 256 → j < 8 → test_bit (invert_byte b) j ≡ not (test_bit b j)
test_bit-invert_byte b j hb hj =
    same→eq _ _ (each_below_at 8 _ j (each_below_at 256 _ b invert_table hb) hj)

count_table : each_below 256 (λ b. count_byte b == count_from (test_bit b) 0 8) ≡ true
unfolding each_below count_from
count_table = refl

-- The nibble table counts the bits of a byte.
pub count_byte_lem : (b : ℕ) → b < 256 → count_byte b ≡ count_from (test_bit b) 0 8
count_byte_lem b hb = (==_iff _ _).0 (each_below_at 256 _ b count_table hb)
