-- ===== src/Sat/Blocks/Endless.antt =====
-- devices/sat/sat.c: a size in a header for which the loop of `calc_num_blocks` never ends.
use libslinga.Prelude.{ℕ, zero, suc, ◌≡◌, refl, diverge}
use libslinga.Sat.Blocks.{blocks_for, settle_blocks}

-- The three estimates that follow each other, for a save of 4293918690 bytes and blocks of 64.
first_next : blocks_for 4293918720 60 61461 ≡ 71567361
unfolding blocks_for
first_next = refl

second_next : blocks_for 4293918720 60 71567361 ≡ 2368103
unfolding blocks_for
second_next = refl

third_next : blocks_for 4293918720 60 2368103 ≡ 61461
unfolding blocks_for
third_next = refl

settle_blocks_cycle : (rounds : ℕ) → settle_blocks rounds 4293918720 60 61461 ≡ diverge
unfolding settle_blocks
settle_blocks_cycle zero = refl
settle_blocks_cycle (suc zero) = rw first_next refl
settle_blocks_cycle (suc (suc zero)) = rw (first_next, second_next) refl
settle_blocks_cycle (suc (suc (suc rounds))) =
    rw (first_next, second_next, third_next) (settle_blocks_cycle rounds)

-- The loop comes to the first of them from 0, in six rounds.
settle_blocks_endless : (rounds : ℕ) → settle_blocks rounds 4293918720 60 0 ≡ diverge
unfolding settle_blocks blocks_for
settle_blocks_endless zero = refl
settle_blocks_endless (suc zero) = refl
settle_blocks_endless (suc (suc zero)) = refl
settle_blocks_endless (suc (suc (suc zero))) = refl
settle_blocks_endless (suc (suc (suc (suc zero)))) = refl
settle_blocks_endless (suc (suc (suc (suc (suc zero))))) = refl
settle_blocks_endless (suc (suc (suc (suc (suc (suc rounds)))))) = settle_blocks_cycle rounds
