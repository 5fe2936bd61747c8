-- ===== src/Devices/Rle/Total.antt =====
-- devices/action_replay.c: the loop of `decompress_RLE01`, with and without a destination.
use libslinga.Prelude.{ℕ, zero, suc, ◌+◌, ◌^◌, ◌≤◌, ◌<◌, ◌≡◌, ◌≢◌, refl, arith, false, ◌==◌, leb}
use libslinga.Prelude.{u32, u8, Option, none, Result, ok, Bool-cases, inl, inr, ◌∙◌}
use libslinga.Memory.{Memory}
use libslinga.Devices.Rle.{put, put_run, Round, rle_round, rle_rounds, decompress_rle01}

-- A round takes 1 to 3 bytes of the source.
Advances : ℕ → Round → Type 0
Advances i r = (i + 1 ≤ r.0) × (r.0 ≤ i + 3)

rle_round-Advances :
    (rle_key src : ℕ) (dest : Option ℕ) (i j : ℕ) (m : Memory)
    → i + 3 < 2 ^ 32
    → Advances i (rle_round rle_key src dest i j m)
unfolding rle_round Advances
rle_round-Advances rle_key src dest i j m h = elim (Bool-cases (m (src + i) == rle_key)) [
  | inl key ↦ rw key (elim (Bool-cases (u8 (m (src + (i + 1))) == 0)) [
    | inl escaped ↦ rw escaped (omega arith, omega arith)
    | inr run ↦ rw run (omega arith, omega arith)
  ])
  | inr plain ↦ rw plain (omega arith, omega arith)
]

put_run-none : (j val n : ℕ) (m : Memory) → put_run none j val n m ≡ m
unfolding put_run put
put_run-none j val zero m = refl
put_run-none j val (suc n) m = put_run-none (u32 (j + 1)) val n m

rle_round-none : (rle_key src i j : ℕ) (m : Memory) → (rle_round rle_key src none i j m).2 ≡ m
unfolding rle_round put
rle_round-none rle_key src i j m = elim (Bool-cases (m (src + i) == rle_key)) [
  | inl key ↦ rw key (elim (Bool-cases (u8 (m (src + (i + 1))) == 0)) [
    | inl escaped ↦ rw escaped refl
    | inr run ↦ rw run (put_run-none j (m (src + (i + 2))) (u8 (m (src + (i + 1)))) m)
  ])
  | inr plain ↦ rw plain refl
]

-- The call succeeds; without a destination the memory stays.
abbrev pub Counts : Memory → Option ℕ → Result ℕ × Memory → Type 0
Counts m dest out = ((n : ℕ) × (out.0 ≡ ok n)) × (dest ≡ none → out.1 ≡ m)

rle_rounds-Counts :
    (fuel rle_key src src_size : ℕ) (dest : Option ℕ) (i j : ℕ) (m : Memory)
    → src_size < fuel + i
    → src_size + 3 < 2 ^ 32
    → i ≤ src_size
    → Counts m dest (rle_rounds fuel rle_key src src_size dest i j m)
unfolding rle_rounds Advances
rle_rounds-Counts zero rle_key src src_size dest i j m f small low = absurd (omega arith)
rle_rounds-Counts (suc fuel) rle_key src src_size dest i j m f small low =
    elim (Bool-cases (leb src_size next.0)) [
      | inl done ↦ rw done ((next.1, refl), kept)
      | inr more ↦ rw more (
          later (
            rle_rounds-Counts fuel rle_key src src_size dest next.0 next.1 next.2
              (omega (arith, advances.0)) small (ground (arith, more))))
    ]
  where
    next : Round
    next = rle_round rle_key src dest i j m

    advances : Advances i next
    advances = rle_round-Advances rle_key src dest i j m (omega arith)

    kept : dest ≡ none → next.2 ≡ m
    kept e = rw e (rle_round-none rle_key src i j m)

    later :
        Counts next.2 dest (rle_rounds fuel rle_key src src_size dest next.0 next.1 next.2)
        → Counts m dest (rle_rounds fuel rle_key src src_size dest next.0 next.1 next.2)
    later (found, same) = (found, λ e. same e ∙ kept e)

-- For a source that is not NULL and of less than 2^32 - 3 bytes, the decompression ends with a size,
-- whatever the bytes; without a destination, as when the size is counted, it changes no memory.
pub decompress_rle01-Counts :
    (rle_key src src_size : ℕ) (dest : Option ℕ) (m : Memory)
    → src ≢ 0
    → src_size + 3 < 2 ^ 32
    → Counts m dest (decompress_rle01 rle_key src src_size dest m)
unfolding decompress_rle01
decompress_rle01-Counts rle_key src src_size dest m ne small = rw given (
    rle_rounds-Counts (suc src_size) rle_key src src_size dest 0 0 m (omega arith) small
      (omega arith))
  where
    given : (src == 0) ≡ false
    given = ground arith
