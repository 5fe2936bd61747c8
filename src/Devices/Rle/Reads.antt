-- ===== src/Devices/Rle/Reads.antt =====
-- devices/action_replay.c: `decompress_RLE01` against the format as a function on lists.
use libslinga.Prelude.{ℕ, zero, suc, ◌+◌, ◌^◌, ◌≤◌, ◌<◌, ◌≡◌, ◌≢◌, refl, arith, List, [], ◌∷◌}
use libslinga.Prelude.{Option, some, length, get_or, replicate, ◌==◌, ◌∙◌, sym, ap, ok, true}
use libslinga.Prelude.{false, inl, inr, Bool-cases, length-replicate}
use native.Mathlib.Nat.{add-zero}
use libslinga.Memory.{Memory}
use libslinga.Devices.Rle.{decompress_rle01}
use libslinga.Devices.Rle.Decode.{some_append, decode, put_all, Outside, put_all-Outside}
use libslinga.Devices.Rle.Decode.{put_all-hit}
use libslinga.Devices.Rle.Source.{Source}
use libslinga.Devices.Rle.Items.{Puts, round_plain, round_escaped, round_run, longer, Again}
use libslinga.Devices.Rle.Items.{item_lem, decode_plain, decode_escaped, decode_run, decode_cut}
use libslinga.Devices.Rle.Items.{decode_cut_run}

module _ (key src size : ℕ) (dest : Option ℕ) where
  -- The steps of the loop.
  plain_lem :
      (fuel i j b : ℕ) (bytes out : List ℕ) (m : Memory)
      → size + 3 < 2 ^ 32
      → i + length (b ∷ bytes) ≡ size
      → (b == key) ≡ false
      → decode key (b ∷ bytes) ≡ some out
      → j + length out < 2 ^ 32
      → Source dest j (length out) m (src + i) (b ∷ bytes)
      → Again key src size dest fuel (i + 1) (j + 1) bytes (put_all dest j (b ∷ []) m)
      → Puts key src size dest (suc fuel) i j out m
  plain_lem fuel i j b bytes out m small end plain decoded limit s again =
      item_lem key src size dest fuel i j (b ∷ []) bytes (b ∷ []) out m
        (round_plain key src size dest i j b m plain (ap m (omega arith) ∙ s.there 0 (omega arith))
          (omega arith) (omega (arith, some_out)))
        (omega arith) parts limit s again
    where
      parts : some_append (b ∷ []) (decode key bytes) ≡ some out
      parts = sym (decode_plain key src size dest b bytes plain) ∙ decoded

      some_out : 1 ≤ length out
      some_out = longer key src size dest (b ∷ []) (decode key bytes) out parts

  escaped_lem :
      (fuel i j b count : ℕ) (bytes out : List ℕ) (m : Memory)
      → size + 3 < 2 ^ 32
      → i + length (b ∷ count ∷ bytes) ≡ size
      → (b == key) ≡ true
      → (count == 0) ≡ true
      → decode key (b ∷ count ∷ bytes) ≡ some out
      → j + length out < 2 ^ 32
      → Source dest j (length out) m (src + i) (b ∷ count ∷ bytes)
      → Again key src size dest fuel (i + 2) (j + 1) bytes (put_all dest j (key ∷ []) m)
      → Puts key src size dest (suc fuel) i j out m
  escaped_lem fuel i j b count bytes out m small end at zero_at decoded limit s again =
      item_lem key src size dest fuel i j (b ∷ count ∷ []) bytes (key ∷ []) out m
        (round_escaped key src size dest i j m
          (ap m (omega arith) ∙ s.there 0 (omega arith) ∙ same at)
          (ap m (omega arith) ∙ s.there 1 (omega arith) ∙ is_zero zero_at) (omega arith)
          (omega (arith, some_out)))
        (omega arith) parts limit s again
    where
      same : (b == key) ≡ true → b ≡ key
      same at = ground arith

      is_zero : (count == 0) ≡ true → count ≡ 0
      is_zero zero_at = ground arith

      parts : some_append (key ∷ []) (decode key bytes) ≡ some out
      parts = sym (decode_escaped key src size dest b count bytes at zero_at) ∙ decoded

      some_out : 1 ≤ length out
      some_out = longer key src size dest (key ∷ []) (decode key bytes) out parts

  run_lem :
      (fuel i j b count val : ℕ) (bytes out : List ℕ) (m : Memory)
      → size + 3 < 2 ^ 32
      → i + length (b ∷ count ∷ val ∷ bytes) ≡ size
      → (b == key) ≡ true
      → (count == 0) ≡ false
      → decode key (b ∷ count ∷ val ∷ bytes) ≡ some out
      → j + length out < 2 ^ 32
      → Source dest j (length out) m (src + i) (b ∷ count ∷ val ∷ bytes)
      → Again key src size dest fuel
          (i + 3)
          (j + length (replicate count val))
          bytes
          (put_all dest j (replicate count val) m)
      → Puts key src size dest (suc fuel) i j out m
  run_lem fuel i j b count val bytes out m small end at more decoded limit s again =
      item_lem key src size dest fuel i j (b ∷ count ∷ val ∷ []) bytes (replicate count val) out m
        (round_run key src size dest i j count val m
          (ap m (omega arith) ∙ s.there 0 (omega arith) ∙ same at)
          (ap m (omega arith) ∙ s.there 1 (omega arith))
          (ap m (omega arith) ∙ s.there 2 (omega arith)) more (s.fits 1 (omega arith)) (omega arith)
          (omega (arith, some_out, length-replicate count val)))
        (omega arith) parts limit s again
    where
      same : (b == key) ≡ true → b ≡ key
      same at = ground arith

      parts : some_append (replicate count val) (decode key bytes) ≡ some out
      parts = sym (decode_run key src size dest b count val bytes at more) ∙ decoded

      some_out : length (replicate count val) ≤ length out
      some_out = longer key src size dest (replicate count val) (decode key bytes) out parts

  rounds-Puts :
      (fuel i j : ℕ) (bytes out : List ℕ) (m : Memory)
      → size < fuel + i
      → size + 3 < 2 ^ 32
      → i + length bytes ≡ size
      → decode key bytes ≡ some out
      → length bytes ≢ 0
      → j + length out < 2 ^ 32
      → Source dest j (length out) m (src + i) bytes
      → Puts key src size dest fuel i j out m
  unfolding Again
  rounds-Puts zero i j bytes out m f small end decoded ne limit s = absurd (omega arith)
  rounds-Puts (suc fuel) i j [] out m f small end decoded ne limit s = absurd (omega arith)
  rounds-Puts (suc fuel) i j (b ∷ []) out m f small end decoded ne limit s =
      elim (Bool-cases (b == key)) [
        | inl at ↦ cc (decode_cut key src size dest b at, decoded)
        | inr plain ↦
            plain_lem fuel i j b [] out m small end plain decoded limit s
              (λ rest later ne'. absurd (ne' refl))
      ]
  rounds-Puts (suc fuel) i j (b ∷ count ∷ []) out m f small end decoded ne limit s =
      elim (Bool-cases (b == key)) [
        | inl at ↦ elim (Bool-cases (count == 0)) [
          | inl zero_at ↦
              escaped_lem fuel i j b count [] out m small end at zero_at decoded limit s
                (λ rest later ne'. absurd (ne' refl))
          | inr more ↦ cc (decode_cut_run key src size dest b count at more, decoded)
        ]
        | inr plain ↦
            plain_lem fuel i j b (count ∷ []) out m small end plain decoded limit s
              (λ rest later ne' limit' s'.
                rounds-Puts fuel (i + 1) (j + 1) (count ∷ []) rest _ (omega arith) small
                  (omega arith) later ne' limit' s')
      ]
  rounds-Puts (suc fuel) i j (b ∷ count ∷ val ∷ bytes) out m f small end decoded ne limit s =
      elim (Bool-cases (b == key)) [
        | inl at ↦ elim (Bool-cases (count == 0)) [
          | inl zero_at ↦
              escaped_lem fuel i j b count (val ∷ bytes) out m small end at zero_at decoded limit s
                (λ rest later ne' limit' s'.
                  rounds-Puts fuel (i + 2) (j + 1) (val ∷ bytes) rest _ (omega arith) small
                    (omega arith) later ne' limit' s')
          | inr more ↦
              run_lem fuel i j b count val bytes out m small end at more decoded limit s
                (λ rest later ne' limit' s'.
                  rounds-Puts fuel (i + 3) (j + length (replicate count val)) bytes rest _
                    (omega arith) small (omega arith) later ne' limit' s')
        ]
        | inr plain ↦
            plain_lem fuel i j b (count ∷ val ∷ bytes) out m small end plain decoded limit s
              (λ rest later ne' limit' s'.
                rounds-Puts fuel (i + 1) (j + 1) (count ∷ val ∷ bytes) rest _ (omega arith) small
                  (omega arith) later ne' limit' s')
      ]

  -- What a call has put there: nothing, or the bytes of `out` and nothing else.
  abbrev pub Written : List ℕ → Memory → Memory → Type 0
  Written out m m' =
      ((d k : ℕ) → dest ≡ some d → k < length out → m' (d + k) ≡ get_or out k 0)
      × ((a : ℕ) → Outside dest 0 (length out) a → m' a ≡ m a)

  -- Let the source, not at NULL, not empty and of less than 2^32 - 3 bytes, be an encoding of `out`,
  -- which has less than 2^32 bytes, and lie apart from where `out` would be written. Then the
  -- decompression gives the length of `out`; it writes `out` to the destination, if there is one,
  -- and changes nothing else.
  pub decompress_rle01-decode :
      (bytes out : List ℕ) (m : Memory)
      → src ≢ 0
      → length bytes ≡ size
      → size ≢ 0
      → size + 3 < 2 ^ 32
      → decode key bytes ≡ some out
      → length out < 2 ^ 32
      → Source dest 0 (length out) m src bytes
      → (m' : Memory) × (decompress_rle01 key src size dest m ≡ (ok (length out), m'))
        × Written out m m'
  unfolding decompress_rle01
  decompress_rle01-decode bytes out m not_null sized ne small decoded limit s = (
    put_all dest 0 out m,
    rw given (
        rounds-Puts (suc size) 0 0 bytes out m (omega arith) small (omega arith) decoded
          (omega arith) (omega arith) (rw (add-zero src) s)
        ∙ ap (λ n. (ok n, put_all dest 0 out m)) (omega arith)),
    (
      λ d k e h. rw e (ap (put_all (some d) 0 out m) (omega arith) ∙ put_all-hit d 0 out m k h),
      λ a o. put_all-Outside dest 0 out m a o,
    ),
  )
    where
      given : (src == 0) ≡ false
      given = ground arith
