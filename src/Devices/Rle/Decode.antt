-- ===== src/Devices/Rle/Decode.antt =====
-- devices/action_replay.c: the format that `decompress_RLE01` reads, as a function on lists, and what
-- it is to put a list of bytes into the destination.
use libslinga.Prelude.{ℕ, zero, suc, ◌+◌, ◌^◌, ◌<◌, ◌≡◌, ◌≢◌, refl, arith, List, [], ◌∷◌, ◌++◌}
use libslinga.Prelude.{Option, none, some, length, get_or, replicate, ◌==◌, if◌then◌else◌, ◌∙◌}
use libslinga.Prelude.{ap}
use libslinga.Memory.{Memory, store}
use libslinga.Devices.Rle.{put, put_run}

-- What an item stands for, in front of what follows it.
abbrev pub some_append : List ℕ → Option (List ℕ) → Option (List ℕ)
some_append xs none = none
some_append xs (some ys) = some (xs ++ ys)

-- A byte other than the key stands for itself, the key and 0 for the key, and the key, a count and a
-- value for a run; `none` when the last item is cut.
unfoldable pub decode : ℕ → List ℕ → Option (List ℕ)
decode key [] = some []
decode key (b ∷ []) = if b == key then none else some (b ∷ [])
decode key (b ∷ count ∷ []) =
    let plain = decode key (count ∷ []) in
    if b == key then (if count == 0 then some (key ∷ []) else none) else some_append (b ∷ []) plain
decode key (b ∷ count ∷ val ∷ bytes) =
    let plain = decode key (count ∷ val ∷ bytes) in
    let escaped = decode key (val ∷ bytes) in
    let run = decode key bytes in
    if b == key
    then (if count == 0
        then some_append (key ∷ []) escaped
        else some_append (replicate count val) run)
    else some_append (b ∷ []) plain

-- `bytes` in the destination, if there is one, from index `j` on.
unfoldable pub put_all : Option ℕ → ℕ → List ℕ → Memory → Memory
unfolding put
put_all dest j [] m = m
put_all dest j (x ∷ xs) m = put_all dest (j + 1) xs (put dest j x m)

-- Address `a` is none of the `n` from index `j` on.
abbrev pub Outside : Option ℕ → ℕ → ℕ → ℕ → Type 0
Outside none j n a = Unit {0}
Outside (some d) j n a = (k : ℕ) → k < n → a ≢ d + (j + k)

pub put_all-Outside :
    (dest : Option ℕ) (j : ℕ) (xs : List ℕ) (m : Memory) (a : ℕ)
    → Outside dest j (length xs) a
    → put_all dest j xs m a ≡ m a
unfolding put_all put store
put_all-Outside none j [] m a out = refl
put_all-Outside none j (x ∷ xs) m a out = put_all-Outside none (j + 1) xs m a tt
put_all-Outside (some d) j [] m a out = refl
put_all-Outside (some d) j (x ∷ xs) m a out =
    put_all-Outside (some d) (j + 1) xs (put (some d) j x m) a
      (λ k h e. out (k + 1) (omega arith) (omega (arith, e)))
    ∙ ground (arith, out 0 (omega arith))

pub put_all-hit :
    (d j : ℕ) (xs : List ℕ) (m : Memory) (k : ℕ)
    → k < length xs
    → put_all (some d) j xs m (d + (j + k)) ≡ get_or xs k 0
unfolding put_all put store
put_all-hit d j [] m k h = absurd (omega arith)
put_all-hit d j (x ∷ xs) m zero h =
    put_all-Outside (some d) (j + 1) xs (put (some d) j x m) (d + (j + 0))
      (λ k h' e. absurd (omega arith))
    ∙ ground arith
put_all-hit d j (x ∷ xs) m (suc k) h =
    ap (put_all (some d) j (x ∷ xs) m) (omega arith)
    ∙ put_all-hit d (j + 1) xs (put (some d) j x m) k (omega arith)

pub put_all-append :
    (dest : Option ℕ) (j : ℕ) (xs ys : List ℕ) (m : Memory)
    → put_all dest j (xs ++ ys) m ≡ put_all dest (j + length xs) ys (put_all dest j xs m)
unfolding put_all
put_all-append dest j [] ys m = ap (λ i. put_all dest i ys m) (omega arith)
put_all-append dest j (x ∷ xs) ys m =
    put_all-append dest (j + 1) xs ys (put dest j x m)
    ∙ ap (λ i. put_all dest i ys (put_all dest (j + 1) xs (put dest j x m))) (omega arith)

-- The loop that writes a run.
pub put_run-put_all :
    (dest : Option ℕ) (j val n : ℕ) (m : Memory)
    → j + n < 2 ^ 32
    → put_run dest j val n m ≡ put_all dest j (replicate n val) m
unfolding put_run put_all
put_run-put_all dest j val zero m h = refl
put_run-put_all dest j val (suc n) m h =
    ap (λ i. put_run dest i val n (put dest j val m)) (omega arith)
    ∙ put_run-put_all dest (j + 1) val n (put dest j val m) (omega arith)
