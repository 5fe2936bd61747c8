-- ===== src/Sat/Bitmap/Laws.antt =====
-- devices/sat/sat.c, "SAT Bitmap": the operations as operations on a set of block indices.
use libslinga.Prelude.{u32, ℕ, zero, suc, ◌+◌, ◌-◌, ◌*◌, ◌/◌, ◌%◌, ◌≤◌, ◌<◌, ◌≡◌, ◌≢◌, ◌⊎◌, refl}
use libslinga.Prelude.{arith, List, [], ◌∷◌, true, false, ◌||◌, ◌==◌, leb, get_or, set, length}
use libslinga.Prelude.{length-set, get_or-set_self, get_or-set_ne, Bool-cases, inl, inr, Result}
use libslinga.Prelude.{ok, err, Error, each_below, each_below_at, not}
use native.Mathlib.Decide.{dec_lt}
use libslinga.Sat.Bitmap.{Bitmap, clear_bitmap, test_bit, is_set, with_bit, set_bitmap}
use libslinga.Sat.Bitmap.{scan_bitmap, get_next_block_bitmap}
use libslinga.Sat.Bitmap.Bits.{test_bit-with_bit}

-- Every entry is an `unsigned char`.
abbrev pub IsBytes : List ℕ → Type 0
IsBytes [] = Unit
IsBytes (b ∷ bs) = (b < 256) × IsBytes bs

-- The number of bits.
abbrev pub capacity : Bitmap → ℕ
capacity bitmap = length bitmap * 8

get_or-lt : (bs : List ℕ) (i : ℕ) → IsBytes bs → get_or bs i 0 < 256
get_or-lt [] i h = omega arith
get_or-lt (b ∷ bs) zero h = h.0
get_or-lt (b ∷ bs) (suc i) h = get_or-lt bs i h.1

set-IsBytes : (bs : List ℕ) (i v : ℕ) → v < 256 → IsBytes bs → IsBytes (set bs i v)
set-IsBytes [] i v hv h = h
set-IsBytes (b ∷ bs) zero v hv h = (hv, h.1)
set-IsBytes (b ∷ bs) (suc i) v hv h = (h.0, set-IsBytes bs i v hv h.1)

get_or_past : (bs : List ℕ) (i : ℕ) → length bs ≤ i → get_or bs i 0 ≡ 0
get_or_past [] i h = refl
get_or_past (b ∷ bs) zero h = absurd (omega arith)
get_or_past (b ∷ bs) (suc i) h = get_or_past bs i (omega arith)

no_bit_table : each_below 8 (λ j. not (test_bit 0 j)) ≡ true
unfolding each_below
no_bit_table = refl

no_bit : (j : ℕ) → j < 8 → test_bit 0 j ≡ false
no_bit j h = ground (arith, each_below_at 8 _ j no_bit_table h)

pub clear_bitmap-IsBytes : (n : ℕ) → IsBytes (clear_bitmap n)
clear_bitmap-IsBytes zero = tt
clear_bitmap-IsBytes (suc n) = (omega arith, clear_bitmap-IsBytes n)

pub length-clear_bitmap : (n : ℕ) → length (clear_bitmap n) ≡ n
length-clear_bitmap zero = refl
length-clear_bitmap (suc n) = omega (arith, length-clear_bitmap n)

get_or-clear_bitmap : (n i : ℕ) → get_or (clear_bitmap n) i 0 ≡ 0
get_or-clear_bitmap zero i = refl
get_or-clear_bitmap (suc n) zero = refl
get_or-clear_bitmap (suc n) (suc i) = get_or-clear_bitmap n i

-- The cleared bitmap is the empty set.
pub is_set-clear_bitmap : (n i : ℕ) → is_set (clear_bitmap n) i ≡ false
is_set-clear_bitmap n i = rw (get_or-clear_bitmap n (i / 8)) (no_bit (i % 8) (omega arith))

-- A set bit is below the bitmap's capacity.
pub is_set-lt : (bitmap : Bitmap) (i : ℕ) → is_set bitmap i ≡ true → i < capacity bitmap
is_set-lt bitmap i hit = elim (dec_lt i (capacity bitmap)) [
  | yes h ↦ h
  | no h ↦ absurd (clear (rw (get_or_past bitmap (i / 8) (omega arith)) at hit))
]
  where
    clear : test_bit 0 (i % 8) ≡ true → ⊥
    clear e = cc (no_bit (i % 8) (omega arith), e)

-- `bitmap` has become `bitmap'`, of the same size, in which block `i` alone is new.
pub record Adds (i : ℕ) (bitmap bitmap' : Bitmap) : Type 0 where
  pub same_size : length bitmap' ≡ length bitmap
  pub bytes : IsBytes bitmap'
  pub bits : (j : ℕ) → j < capacity bitmap → is_set bitmap' j ≡ (j == i || is_set bitmap j)

abbrev added : ℕ → Bitmap → Bitmap
added i bitmap = set bitmap (i / 8) (with_bit (get_or bitmap (i / 8) 0) (i % 8))

is_set-added :
    (i j : ℕ) (bitmap : Bitmap)
    → IsBytes bitmap
    → i < capacity bitmap
    → is_set (added i bitmap) j ≡ (j == i || is_set bitmap j)
is_set-added i j bitmap h hi = elim (Bool-cases (j / 8 == i / 8)) [
  | inl e ↦
      let same : j / 8 ≡ i / 8 = ground arith in
      ground (
        arith,
        get_or-set_self bitmap (i / 8) (with_bit (get_or bitmap (i / 8) 0) (i % 8)) 0,
        test_bit-with_bit (get_or bitmap (i / 8) 0) (i % 8) (j % 8),
        get_or-lt bitmap (i / 8) h,
      )
  | inr ne ↦
      ground
        (arith, get_or-set_ne bitmap (i / 8) (j / 8) (with_bit (get_or bitmap (i / 8) 0) (i % 8)) 0)
]

-- What `set_bitmap` does at index `i`.
abbrev pub SetOutcome : ℕ → Bitmap → Type 0
SetOutcome i bitmap =
    ((i < capacity bitmap)
      × ((bitmap' : Bitmap) × (set_bitmap i bitmap ≡ ok bitmap') × Adds i bitmap bitmap'))
    ⊎ ((capacity bitmap ≤ i) × (set_bitmap i bitmap ≡ err Error.invalid_parameter))

-- On a bitmap of bytes, `set_bitmap` succeeds exactly below the bitmap's capacity, and then sets
-- that block's bit and no other; from the capacity on it says SLINGA_INVALID_PARAMETER.
pub set_bitmap-Adds : (i : ℕ) (bitmap : Bitmap) → IsBytes bitmap → SetOutcome i bitmap
unfolding set_bitmap
set_bitmap-Adds i bitmap h = elim (Bool-cases (leb (length bitmap) (i / 8))) [
  | inl out ↦ inr (ground arith, ground arith)
  | inr below ↦ inl (
    ground arith,
    (
      added i bitmap,
      ground arith,
      record {
        same_size = length-set bitmap (i / 8) _;
        bytes = set-IsBytes bitmap (i / 8) _ (omega arith) h;
        bits = λ j p. is_set-added i j bitmap h (ground arith);
      },
    ),
  )
]

-- No bit is set from `i` up to `j`.
abbrev pub NoneSet : Bitmap → ℕ → ℕ → Type 0
NoneSet bitmap i j = (k : ℕ) → i ≤ k → k < j → is_set bitmap k ≡ false

-- The first set bit of a range, or that there is none.
abbrev pub FirstSet : Bitmap → ℕ → ℕ → Result ℕ → Type 0
FirstSet bitmap i end r =
    ((n : ℕ) × (r ≡ ok n) × (i ≤ n) × (n < end) × (is_set bitmap n ≡ true) × NoneSet bitmap i n)
    ⊎ ((r ≡ err Error.not_found) × NoneSet bitmap i end)

NoneSet-extend :
    (bitmap : Bitmap) (i j : ℕ)
    → is_set bitmap i ≡ false
    → NoneSet bitmap (i + 1) j
    → NoneSet bitmap i j
NoneSet-extend bitmap i j clear h k p q = elim (Bool-cases (i == k)) [
  | inl e ↦ rw (← same_index e) clear
  | inr ne ↦ h k (ground arith) q
]
  where
    same_index : (i == k) ≡ true → i ≡ k
    same_index e = ground arith

FirstSet-extend :
    (bitmap : Bitmap) (i end : ℕ) (r : Result ℕ)
    → is_set bitmap i ≡ false
    → FirstSet bitmap (i + 1) end r
    → FirstSet bitmap i end r
FirstSet-extend bitmap i end r clear (inl (n, e, lo, hi, hit, h)) =
    inl (n, e, omega arith, hi, hit, NoneSet-extend bitmap i n clear h)
FirstSet-extend bitmap i end r clear (inr (e, h)) = inr (e, NoneSet-extend bitmap i end clear h)

scan-FirstSet :
    (bitmap : Bitmap) (i left end : ℕ)
    → i + left ≡ end
    → FirstSet bitmap i end (scan_bitmap bitmap i left)
unfolding scan_bitmap
scan-FirstSet bitmap i zero end e = inr (refl, λ k p q. absurd (omega arith))
scan-FirstSet bitmap i (suc left) end e = elim (Bool-cases (is_set bitmap i)) [
  | inl hit ↦ inl (i, rw hit refl, omega arith, omega arith, hit, λ k p q. absurd (omega arith))
  | inr clear ↦
      rw clear
        (FirstSet-extend bitmap i end _ clear (scan-FirstSet bitmap (i + 1) left end (omega arith)))
]

scan_past_end :
    (bitmap : Bitmap) (i left : ℕ) → left ≡ 0 → scan_bitmap bitmap i left ≡ err Error.not_found
unfolding scan_bitmap
scan_past_end bitmap i zero e = refl
scan_past_end bitmap i (suc left) e = absurd (omega arith)

-- On a bitmap that is not empty, for any block index, `get_next_block_bitmap` gives the first set
-- bit among those from `block_index + 1` on and below 8 times the size, both sums wrapped to 32
-- bits as in the code: above the index, but from 0 on when the index is 0xFFFFFFFF. It says
-- SLINGA_NOT_FOUND exactly when there is none.
pub get_next_block_bitmap-FirstSet :
    (i : ℕ) (bitmap : Bitmap)
    → length bitmap ≢ 0
    → FirstSet bitmap (u32 (i + 1)) (u32 (capacity bitmap)) (get_next_block_bitmap i bitmap)
unfolding get_next_block_bitmap
get_next_block_bitmap-FirstSet i bitmap h =
    rw (nonempty h) (elim (Bool-cases (leb (u32 (capacity bitmap)) (u32 (i + 1)))) [
      | inl out ↦ inr (
        scan_past_end bitmap (u32 (i + 1)) (u32 (length bitmap * 8) - u32 (i + 1)) (ground arith),
        λ k p q. absurd (ground arith),
      )
      | inr inside ↦
          scan-FirstSet bitmap (u32 (i + 1)) (u32 (length bitmap * 8) - u32 (i + 1))
            (u32 (capacity bitmap)) (ground arith)
    ])
  where
    nonempty : length bitmap ≢ 0 → (length bitmap == 0) ≡ false
    nonempty ne = ground arith
