-- ===== src/Memory.antt =====
-- The Saturn's address space. libslinga reads and writes the backup memory through plain pointers,
-- so a pointer is a number (NULL is 0) and the memory is a function.
use libslinga.Prelude.{ℕ, zero, suc, ◌+◌, List, [], ◌∷◌, ◌==◌, if◌then◌else◌, get_or}
use libslinga.Prelude.Action.{Action}

abbrev pub Memory : Type 0
Memory = ℕ → ℕ

abbrev pub Io : Type 0 → Type 0
Io A = Action Memory A

unfoldable pub store : Memory → ℕ → ℕ → Memory
store m a v x = if x == a then v else m x

-- The C library's memcpy out of, memcpy into and memset of the memory, byte by byte.
unfoldable pub memcpy_from : Memory → ℕ → ℕ → List ℕ
memcpy_from m src zero = []
memcpy_from m src (suc n) = m src ∷ memcpy_from m (src + 1) n

unfoldable pub memcpy_to : ℕ → List ℕ → ℕ → ℕ → Memory → Memory
memcpy_to dst src i zero m = m
memcpy_to dst src i (suc n) m = memcpy_to dst src (i + 1) n (store m (dst + i) (get_or src i 0))

unfoldable pub memset : ℕ → ℕ → ℕ → Memory → Memory
memset dst val zero m = m
memset dst val (suc n) m = memset (dst + 1) val n (store m dst val)
