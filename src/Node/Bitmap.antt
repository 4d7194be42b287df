-- ===== src/Node/Bitmap.antt =====
-- The bitmap helpers of node.rs on a bitmap that is given by its flags.
use native.Mathlib.Nat.{mod-eq_of_lt, one-le-pow}
use champ_trie.Prelude.{
  ℕ, ◌/◌, ◌%◌, ◌^◌, ◌≤◌, ◌<◌, bit_and, bit_or, ◌≡◌, Bool, true, false, List, arith, length, set,
  take, count_true, nth, ◌==◌,
}
use champ_trie.Bits.{is_power_of_two, complement}
use champ_trie.Bits.Flags.{
  of_bits, test_flag, flags_below, set_flag, clear_flag, count_ones-of_bits, pow-lt-pow,
  length-take_le, bit_and_low,
}
use champ_trie.Node.{fragment, mask, index, has_bit}

-- The five bits of the hash at `shift`, as a number.
pub fragment_lem : (hash shift : ℕ) → fragment hash shift ≡ hash / 2 ^ shift % 32
unfolding fragment
fragment_lem hash shift = omega (arith, bit_and_low 5 (hash / 2 ^ shift))

-- A fragment is a position of a node.
pub fragment-lt : (hash shift : ℕ) → fragment hash shift < 32
fragment-lt hash shift = omega (arith, fragment_lem hash shift)

pub mask_lem : (f : ℕ) → f < 32 → mask f ≡ 2 ^ f
unfolding mask
mask_lem f h = mod-eq_of_lt (pow-lt-pow f 32 h)

-- On the bitmap of flags, the test of a bit below 32 reads its flag.
pub has_bit-of_bits : (bs : List Bool) (f : ℕ) → f < 32 → has_bit (of_bits bs) (mask f) ≡ nth bs f
unfolding has_bit
has_bit-of_bits bs f h = rw (mask_lem f h) (ground (arith, test_flag bs f, one-le-pow f 2))

-- On the bitmap of at most 32 flags, `index` of a bit below 32 is the number of flags set before
-- it.
pub index-of_bits :
    (bs : List Bool) (f : ℕ)
    → f < 32
    → length bs ≤ 32
    → index (of_bits bs) (mask f) ≡ count_true (take f bs)
unfolding index
index-of_bits bs f h g =
    rw (mask_lem f h, flags_below bs f)
      (count_ones-of_bits (take f bs) (omega (arith, length-take_le f bs)))

pub or-of_bits :
    (bs : List Bool) (f : ℕ)
    → f < length bs
    → length bs ≤ 32
    → bit_or (of_bits bs) (mask f) ≡ of_bits (set bs f true)
or-of_bits bs f h g = rw (mask_lem f (omega arith)) (set_flag bs f h)

-- On the bitmap of at most 32 flags, masking a bit below 32 out clears its flag and no other.
pub clear-of_bits :
    (bs : List Bool) (f : ℕ)
    → f < 32
    → length bs ≤ 32
    → bit_and (of_bits bs) (complement (mask f)) ≡ of_bits (set bs f false)
clear-of_bits bs f h g = rw (mask_lem f h) (clear_flag bs f g h)

-- The bitmap of at most 32 flags is a power of two exactly when one flag is set.
pub is_power_of_two-of_bits :
    (bs : List Bool) → length bs ≤ 32 → is_power_of_two (of_bits bs) ≡ (count_true bs == 1)
unfolding is_power_of_two
is_power_of_two-of_bits bs h = rw (count_ones-of_bits bs h)
