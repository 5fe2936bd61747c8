-- ===== src/Devices/Rle/Source.antt =====
-- devices/action_replay.c: the source of `decompress_RLE01`, apart from the destination.
use libslinga.Prelude.{ℕ, ◌+◌, ◌≤◌, ◌<◌, ◌≡◌, refl, arith, List, ◌++◌, Option, none, some, length}
use libslinga.Prelude.{get_or, ◌∙◌, ap, length-append, get_or-append_at}
use native.Mathlib.Nat.{add_assoc, add-zero}
use libslinga.Memory.{Memory}
use libslinga.Devices.Rle.Decode.{put_all, Outside, put_all-Outside}

-- The memory has `bytes`, each of them a byte, from address `a` on, where `n` bytes of output from
-- index `j` on do not lie.
pub record Source (dest : Option ℕ) (j n : ℕ) (m : Memory) (a : ℕ) (bytes : List ℕ) : Type 0 where
  pub there : (k : ℕ) → k < length bytes → m (a + k) ≡ get_or bytes k 0
  pub fits : (k : ℕ) → k < length bytes → get_or bytes k 0 < 256
  pub apart : (k : ℕ) → k < length bytes → Outside dest j n (a + k)

Outside-part :
    (dest : Option ℕ) (j n i n' a : ℕ) → i + n' ≤ n → Outside dest j n a → Outside dest (j + i) n' a
Outside-part none j n i n' a h out = tt
Outside-part (some d) j n i n' a h out = λ k lt e. out (i + k) (omega arith) (omega (arith, e))

-- The source behind an item, once the item's output is there.
pub Source-behind :
    {dest : Option ℕ} {j : ℕ} {m : Memory} {a : ℕ} (item bytes out rest : List ℕ)
    → Source dest j (length (out ++ rest)) m a (item ++ bytes)
    → Source dest (j + length out) (length rest) (put_all dest j out m) (a + length item) bytes
Source-behind {dest} {j} {m} {a} item bytes out rest s = record {
  there = λ k h.
      put_all-Outside dest j out m (a + length item + k) (out_of k h)
      ∙ ap m (omega arith)
      ∙ s.there (length item + k) (in_item k h)
      ∙ get_or-append_at item bytes (length item + k) k 0 refl;
  fits = λ k h.
      rw (← get_or-append_at item bytes (length item + k) k 0 refl)
        (s.fits (length item + k) (in_item k h));
  apart = λ k h.
      Outside-part dest j (length (out ++ rest)) (length out) (length rest) _
        (omega (arith, length-append out rest)) (apart_at k h);
}
  where
    in_item : (k : ℕ) → k < length bytes → length item + k < length (item ++ bytes)
    in_item k h = omega (arith, length-append item bytes)

    apart_at :
        (k : ℕ) → k < length bytes → Outside dest j (length (out ++ rest)) (a + length item + k)
    apart_at k h = rw (add_assoc a (length item) k) (s.apart (length item + k) (in_item k h))

    out_of : (k : ℕ) → k < length bytes → Outside dest j (length out) (a + length item + k)
    out_of k h = rw (← add-zero j) (
        Outside-part dest j (length (out ++ rest)) 0 (length out) _
          (omega (arith, length-append out rest)) (apart_at k h))
