-- ===== src/Bits.antt =====
-- Bit operations on machine words, and bitmaps as lists of flags, lowest bit first.
pub mod Step
pub mod Flags
use champ_trie.Prelude.{ℕ, zero, suc, ◌+◌, ◌-◌, ◌*◌, ◌/◌, ◌%◌, ◌^◌, Bool, ◌==◌}

-- `u32::count_ones`, by the binary digits of a word of `w` bits.
unfoldable pub count_ones_of : ℕ → ℕ → ℕ
count_ones_of zero n = 0
count_ones_of (suc w) n = n % 2 + count_ones_of w (n / 2)

unfoldable pub count_ones : ℕ → ℕ
unfolding count_ones_of
count_ones n = count_ones_of 32 n

-- `u32::is_power_of_two`, as std documents it: one bit is set
unfoldable pub is_power_of_two : ℕ → Bool
unfolding count_ones
is_power_of_two n = count_ones n == 1

-- `!x` on a `u32`
abbrev pub complement : ℕ → ℕ
complement x = 2 ^ 32 - 1 - x

-- `u64::wrapping_add`, `wrapping_sub` and `wrapping_mul`
abbrev pub wrapping_add : ℕ → ℕ → ℕ
wrapping_add a b = (a + b) % 2 ^ 64

abbrev pub wrapping_sub : ℕ → ℕ → ℕ
wrapping_sub a b = (a + 2 ^ 64 - b) % 2 ^ 64

abbrev pub wrapping_mul : ℕ → ℕ → ℕ
wrapping_mul a b = a * b % 2 ^ 64
