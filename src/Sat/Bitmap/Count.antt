-- ===== src/Sat/Bitmap/Count.antt =====
-- devices/sat/sat.c: `count_bitmap` and `invert_bitmap`, as the size and the complement of a set.
use libslinga.Prelude.{ℕ, zero, suc, ◌+◌, ◌*◌, ◌/◌, ◌%◌, ◌^◌, ◌≤◌, ◌<◌, ◌≡◌, ◌≢◌, refl, arith}
use libslinga.Prelude.{List, [], ◌∷◌, Bool, true, false, not, ◌==◌, if◌then◌else◌, get_or, length}
use libslinga.Prelude.{u32, ok, ap}
use libslinga.Sat.Bitmap.{Bitmap, is_set, test_bit, count_byte, count_bytes, count_bitmap}
use libslinga.Sat.Bitmap.{invert_bytes, invert_bitmap}
use libslinga.Sat.Bitmap.Bits.{count_from, test_bit-invert_byte, count_byte_lem}
use libslinga.Sat.Bitmap.Laws.{IsBytes, capacity}

-- A range in two parts.
pub count_from-split :
    (f : ℕ → Bool) (i j a n t : ℕ)
    → j ≡ i + a
    → t ≡ a + n
    → count_from f i t ≡ count_from f i a + count_from f j n
unfolding count_from
count_from-split f i j zero n t e e' =
    let ej : j ≡ i = omega arith in let et : t ≡ n = omega arith in rw (ej, et) (omega arith)
count_from-split f i j (suc a) n zero e e' = absurd (omega arith)
count_from-split f i j (suc a) n (suc t) e e' =
    omega (arith, count_from-split f (i + 1) j a n t (omega arith) (omega arith))

-- A range moved by `d`.
count_from-shift :
    (f g : ℕ → Bool) (d i j n : ℕ)
    → j ≡ i + d
    → ((k : ℕ) → g (k + d) ≡ f k)
    → count_from g j n ≡ count_from f i n
unfolding count_from
count_from-shift f g d i j zero e h = refl
count_from-shift f g d i j (suc n) e h =
    rw (count_from-shift f g d (i + 1) (j + 1) n (omega arith) h, e, h i) refl

-- Two predicates that agree on the range.
count_from-cong :
    (f g : ℕ → Bool) (i n : ℕ)
    → ((k : ℕ) → k < i + n → f k ≡ g k)
    → count_from f i n ≡ count_from g i n
unfolding count_from
count_from-cong f g i zero h = refl
count_from-cong f g i (suc n) h =
    rw (h i (omega arith), count_from-cong f g (i + 1) n (λ k p. h k (omega arith))) refl

is_set-low : (b : ℕ) (bs : List ℕ) (k : ℕ) → k < 8 → is_set (b ∷ bs) k ≡ test_bit b k
is_set-low b bs k h = rw (zeroth, itself) refl
  where
    zeroth : k / 8 ≡ 0
    zeroth = omega arith

    itself : k % 8 ≡ k
    itself = omega arith

is_set-high : (b : ℕ) (bs : List ℕ) (k : ℕ) → is_set (b ∷ bs) (k + 8) ≡ is_set bs k
is_set-high b bs k = rw (later, same_bit) refl
  where
    later : (k + 8) / 8 ≡ suc (k / 8)
    later = omega arith

    same_bit : (k + 8) % 8 ≡ k % 8
    same_bit = omega arith

-- The number of blocks in the set.
unfoldable pub size_of : Bitmap → ℕ
size_of bitmap = count_from (is_set bitmap) 0 (capacity bitmap)

size_of-cons : (b : ℕ) (bs : List ℕ) → size_of (b ∷ bs) ≡ count_from (test_bit b) 0 8 + size_of bs
unfolding size_of
size_of-cons b bs = omega (
  arith,
  count_from-split (is_set (b ∷ bs)) 0 8 8 (capacity bs) (capacity (b ∷ bs)) refl (omega arith),
  count_from-cong (is_set (b ∷ bs)) (test_bit b) 0 8 (λ k h. is_set-low b bs k (omega arith)),
  count_from-shift (is_set bs) (is_set (b ∷ bs)) 8 0 8 (capacity bs) refl (is_set-high b bs),
)

count_from-le : (f : ℕ → Bool) (i n : ℕ) → count_from f i n ≤ n
unfolding count_from
count_from-le f i zero = omega arith
count_from-le f i (suc n) = ground (arith, count_from-le f (i + 1) n)

pub size_of-le : (bitmap : Bitmap) → size_of bitmap ≤ capacity bitmap
unfolding size_of
size_of-le bitmap = count_from-le (is_set bitmap) 0 (capacity bitmap)

count_bytes-size_of :
    (count : ℕ) (bs : List ℕ)
    → IsBytes bs
    → count + length bs * 8 < 2 ^ 32
    → count_bytes count bs ≡ count + size_of bs
unfolding count_bytes
count_bytes-size_of count [] h small = unfold size_of count_from in omega arith
count_bytes-size_of count (b ∷ bs) h small =
    rw (no_wrap, count_bytes-size_of (count + count_byte b) bs h.1 (omega (arith, le8, counted)))
      (omega (arith, size_of-cons b bs, counted))
  where
    counted : count_byte b ≡ count_from (test_bit b) 0 8
    counted = count_byte_lem b h.0

    le8 : count_from (test_bit b) 0 8 ≤ 8
    le8 = count_from-le (test_bit b) 0 8

    no_wrap : u32 (count + count_byte b) ≡ count + count_byte b
    no_wrap = omega (arith, le8, counted)

-- On a bitmap of bytes that is not empty and shorter than 2^29 bytes, `count_bitmap` gives the
-- number of bits that are set.
pub count_bitmap-size_of :
    (bitmap : Bitmap)
    → length bitmap ≢ 0
    → IsBytes bitmap
    → length bitmap < 2 ^ 29
    → count_bitmap bitmap ≡ ok (size_of bitmap)
unfolding count_bitmap
count_bitmap-size_of bitmap ne h small =
    rw (nonempty, count_bytes-size_of 0 bitmap h (omega arith)) (ap ok (omega arith))
  where
    nonempty : (length bitmap == 0) ≡ false
    nonempty = ground arith

length-invert_bytes : (bs : List ℕ) → length (invert_bytes bs) ≡ length bs
unfolding invert_bytes
length-invert_bytes [] = refl
length-invert_bytes (b ∷ bs) = ap suc (length-invert_bytes bs)

invert_bytes-IsBytes : (bs : List ℕ) → IsBytes (invert_bytes bs)
unfolding invert_bytes
invert_bytes-IsBytes [] = tt
invert_bytes-IsBytes (b ∷ bs) = (omega arith, invert_bytes-IsBytes bs)

test_bit-invert_bytes :
    (bs : List ℕ) (i j : ℕ)
    → IsBytes bs
    → i < length bs
    → j < 8
    → test_bit (get_or (invert_bytes bs) i 0) j ≡ not (test_bit (get_or bs i 0) j)
unfolding invert_bytes
test_bit-invert_bytes [] i j h p q = absurd (omega arith)
test_bit-invert_bytes (b ∷ bs) zero j h p q = test_bit-invert_byte b j h.0 q
test_bit-invert_bytes (b ∷ bs) (suc i) j h p q = test_bit-invert_bytes bs i j h.1 (omega arith) q

count_from-not :
    (f g : ℕ → Bool) (i n : ℕ)
    → ((k : ℕ) → k < i + n → g k ≡ not (f k))
    → count_from g i n + count_from f i n ≡ n
unfolding count_from
count_from-not f g i zero h = omega arith
count_from-not f g i (suc n) h =
    rw (h i (omega arith)) (split (f i) (count_from-not f g (i + 1) n (λ k p. h k (omega arith))))
  where
    split :
        (b : Bool)
        → count_from g (i + 1) n + count_from f (i + 1) n ≡ n
        → (if not b then 1 else 0)
            + count_from g (i + 1) n
            + ((if b then 1 else 0) + count_from f (i + 1) n)
          ≡ suc n
    split true e = omega arith
    split false e = omega arith

-- `bitmap'` is the complement of `bitmap`, of the same size.
pub record Complements (bitmap bitmap' : Bitmap) : Type 0 where
  pub same_size : length bitmap' ≡ length bitmap
  pub bytes : IsBytes bitmap'
  pub bits : (j : ℕ) → j < capacity bitmap → is_set bitmap' j ≡ not (is_set bitmap j)
  pub sizes : size_of bitmap' + size_of bitmap ≡ capacity bitmap

-- On a bitmap of bytes that is not empty, `invert_bitmap` flips each bit; the result is a bitmap
-- of bytes of the same size, and the set bits of both add up to the capacity.
pub invert_bitmap-Complements :
    (bitmap : Bitmap)
    → length bitmap ≢ 0
    → IsBytes bitmap
    → (bitmap' : Bitmap) × (invert_bitmap bitmap ≡ ok bitmap') × Complements bitmap bitmap'
unfolding invert_bitmap size_of
invert_bitmap-Complements bitmap ne h = (
  invert_bytes bitmap,
  rw nonempty refl,
  record {
    same_size = length-invert_bytes bitmap;
    bytes = invert_bytes-IsBytes bitmap;
    bits = flipped;
    sizes = rw (length-invert_bytes bitmap) (
        count_from-not (is_set bitmap) (is_set (invert_bytes bitmap)) 0 (capacity bitmap)
          (λ k p. flipped k (omega arith)));
  },
)
  where
    nonempty : (length bitmap == 0) ≡ false
    nonempty = ground arith

    flipped : (j : ℕ) → j < capacity bitmap → is_set (invert_bytes bitmap) j ≡ not (is_set bitmap j)
    flipped j p = test_bit-invert_bytes bitmap (j / 8) (j % 8) h (omega arith) (omega arith)
