-- ===== src/Devices/Rle/Items.antt =====
-- devices/action_replay.c: one round of `decompress_RLE01` over one item of the format.
use libslinga.Prelude.{ℕ, suc, ◌+◌, ◌^◌, ◌≤◌, ◌<◌, ◌≡◌, ◌≢◌, refl, arith, List, [], ◌∷◌, ◌++◌}
use libslinga.Prelude.{Option, none, some, length, replicate, ◌==◌, leb, u32, u8, ap, ok, true}
use libslinga.Prelude.{false, length-append, length-replicate}
use mathlib.Core.List.{append-nil}
use native.Mathlib.Nat.{add_assoc}
use libslinga.Memory.{Memory}
use libslinga.Devices.Rle.{rle_round, rle_rounds}
use libslinga.Devices.Rle.Decode.{some_append, decode, put_all, put_all-append, put_run-put_all}
use libslinga.Devices.Rle.Source.{Source, Source-behind}

module _ (key src size : ℕ) (dest : Option ℕ) where
  -- The rounds from index `i` of the source and `j` of the destination on put `out` there.
  abbrev pub Puts : ℕ → ℕ → ℕ → List ℕ → Memory → Type 0
  Puts fuel i j out m =
      rle_rounds fuel key src size dest i j m ≡ (ok (j + length out), put_all dest j out m)

  -- One round over an item, and those over what follows it.
  one_item :
      (fuel i j : ℕ) (item bytes out rest : List ℕ) (m : Memory)
      → rle_round key src dest i j m ≡ (i + length item, j + length out, put_all dest j out m)
      → i + length item + length bytes ≡ size
      → decode key bytes ≡ some rest
      → (length bytes ≢ 0
          → Puts fuel (i + length item) (j + length out) rest (put_all dest j out m))
      → Puts (suc fuel) i j (out ++ rest) m
  unfolding rle_rounds decode put_all
  one_item fuel i j item [] out [] m round end decoded again = rw (round, done, append-nil) refl
    where
      done : leb size (i + length item) ≡ true
      done = ground arith
  one_item fuel i j item [] out (x ∷ rest) m round end decoded again = cc decoded
  one_item fuel i j item (b ∷ bytes) out rest m round end decoded again =
      rw
        (round, more, again (omega arith), length-append out rest, put_all-append dest j out rest m)
        (ap (λ k. (ok k, put_all dest (j + length out) rest (put_all dest j out m))) (omega arith))
    where
      more : leb size (i + length item) ≡ false
      more = ground arith

  -- The rounds at each kind of item.
  pub round_plain :
      (i j b : ℕ) (m : Memory)
      → (b == key) ≡ false
      → m (src + i) ≡ b
      → i + 3 < 2 ^ 32
      → j + 1 < 2 ^ 32
      → rle_round key src dest i j m ≡ (i + 1, j + 1, put_all dest j (b ∷ []) m)
  unfolding rle_round put_all
  round_plain i j b m plain at hi hj =
      rw (at, plain, index i (omega arith), index j (omega arith)) refl
    where
      index : (n : ℕ) → n + 1 < 2 ^ 32 → u32 (n + 1) ≡ n + 1
      index n h = omega arith

  pub round_escaped :
      (i j : ℕ) (m : Memory)
      → m (src + i) ≡ key
      → m (src + (i + 1)) ≡ 0
      → i + 3 < 2 ^ 32
      → j + 1 < 2 ^ 32
      → rle_round key src dest i j m ≡ (i + 2, j + 1, put_all dest j (key ∷ []) m)
  unfolding rle_round put_all
  round_escaped i j m at zero_at hi hj = rw (at, itself, zero_at, behind, index) refl
    where
      itself : (key == key) ≡ true
      itself = ground arith

      behind : u32 (i + 2) ≡ i + 2
      behind = omega arith

      index : u32 (j + 1) ≡ j + 1
      index = omega arith

  pub round_run :
      (i j count val : ℕ) (m : Memory)
      → m (src + i) ≡ key
      → m (src + (i + 1)) ≡ count
      → m (src + (i + 2)) ≡ val
      → (count == 0) ≡ false
      → count < 256
      → i + 3 < 2 ^ 32
      → j + count < 2 ^ 32
      → rle_round key src dest i j m
        ≡ (i + 3, j + length (replicate count val), put_all dest j (replicate count val) m)
  unfolding rle_round
  round_run i j count val m at count_at val_at more small hi hj =
      rw
        (
          at,
          itself,
          count_at,
          byte,
          more,
          val_at,
          behind,
          index,
          length-replicate count val,
          put_run-put_all dest j val count m hj,
        )
        refl
    where
      itself : (key == key) ≡ true
      itself = ground arith

      byte : u8 count ≡ count
      byte = omega arith

      behind : u32 (i + 3) ≡ i + 3
      behind = omega arith

      index : u32 (j + count) ≡ j + count
      index = omega arith

  some_append-inv :
      (xs : List ℕ) (r : Option (List ℕ)) (out : List ℕ)
      → some_append xs r ≡ some out
      → (rest : List ℕ) × (r ≡ some rest) × (out ≡ xs ++ rest)
  some_append-inv xs none out e = cc e
  some_append-inv xs (some ys) out e = (ys, refl, cc e)

  pub longer :
      (xs : List ℕ) (r : Option (List ℕ)) (out : List ℕ)
      → some_append xs r ≡ some out
      → length xs ≤ length out
  longer xs r out e = split (some_append-inv xs r out e)
    where
      split : (rest : List ℕ) × (r ≡ some rest) × (out ≡ xs ++ rest) → length xs ≤ length out
      split (rest, e', parts) = rw parts (omega (arith, length-append xs rest))

  -- What holds at an item in front of `bytes`.
  unfoldable pub Again : ℕ → ℕ → ℕ → List ℕ → Memory → Type 0
  Again fuel i j bytes m =
      (rest : List ℕ)
      → decode key bytes ≡ some rest
      → length bytes ≢ 0
      → j + length rest < 2 ^ 32
      → Source dest j (length rest) m (src + i) bytes
      → Puts fuel i j rest m

  pub item_lem :
      (fuel i j : ℕ) (item bytes chunk out : List ℕ) (m : Memory)
      → rle_round key src dest i j m ≡ (i + length item, j + length chunk, put_all dest j chunk m)
      → i + length item + length bytes ≡ size
      → some_append chunk (decode key bytes) ≡ some out
      → j + length out < 2 ^ 32
      → Source dest j (length out) m (src + i) (item ++ bytes)
      → Again fuel (i + length item) (j + length chunk) bytes (put_all dest j chunk m)
      → Puts (suc fuel) i j out m
  unfolding Again
  item_lem fuel i j item bytes chunk out m round end decoded limit s again =
      split (some_append-inv chunk (decode key bytes) out decoded)
    where
      split :
          (rest : List ℕ) × (decode key bytes ≡ some rest) × (out ≡ chunk ++ rest)
          → Puts (suc fuel) i j out m
      split (rest, later, parts) = rw parts (
          one_item fuel i j item bytes chunk rest m round end later (λ ne.
            again rest later ne (omega (arith, length-append chunk rest, ap length parts)) (
              rw (← add_assoc src i (length item))
                (Source-behind item bytes chunk rest (rw parts at s)))))

  -- A first byte that is not the key.
  pub decode_plain :
      (b : ℕ) (bytes : List ℕ)
      → (b == key) ≡ false
      → decode key (b ∷ bytes) ≡ some_append (b ∷ []) (decode key bytes)
  unfolding decode
  decode_plain b [] plain = rw plain refl
  decode_plain b (count ∷ []) plain = rw plain refl
  decode_plain b (count ∷ val ∷ bytes) plain = rw plain refl

  pub decode_escaped :
      (b count : ℕ) (bytes : List ℕ)
      → (b == key) ≡ true
      → (count == 0) ≡ true
      → decode key (b ∷ count ∷ bytes) ≡ some_append (key ∷ []) (decode key bytes)
  unfolding decode
  decode_escaped b count [] at zero_at = rw (at, zero_at) refl
  decode_escaped b count (val ∷ bytes) at zero_at = rw (at, zero_at) refl

  pub decode_run :
      (b count val : ℕ) (bytes : List ℕ)
      → (b == key) ≡ true
      → (count == 0) ≡ false
      → decode key (b ∷ count ∷ val ∷ bytes) ≡ some_append (replicate count val) (decode key bytes)
  unfolding decode
  decode_run b count val bytes at more = rw (at, more) refl

  pub decode_cut : (b : ℕ) → (b == key) ≡ true → decode key (b ∷ []) ≡ none
  unfolding decode
  decode_cut b at = rw at refl

  pub decode_cut_run :
      (b count : ℕ) → (b == key) ≡ true → (count == 0) ≡ false → decode key (b ∷ count ∷ []) ≡ none
  unfolding decode
  decode_cut_run b count at more = rw (at, more) refl
