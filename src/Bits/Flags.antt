-- ===== src/Bits/Flags.antt =====
-- A bitmap as its list of flags, lowest bit first: what the bit tests, the masks and the counts
-- of the source mean for the flags.
use native.Mathlib.Nat.{pow-suc, one-le-pow}
use champ_trie.Prelude.{
  ℕ, zero, suc, ◌+◌, ◌-◌, ◌*◌, ◌/◌, ◌%◌, ◌^◌, ◌≤◌, ◌<◌, bit_and, bit_or, ◌≡◌, refl, ap, ◌∙◌, Bool,
  true, false, List, [], ◌∷◌, arith, length, set, take, take_all, replicate, count_true, nth,
  if◌then◌else◌, ◌==◌,
}
use champ_trie.Bits.{count_ones_of, count_ones, complement}
use champ_trie.Bits.Step.{bit_and_step, bit_or_step, zero-bit_and, mod-mul}

abbrev pub of_bits : List Bool → ℕ
of_bits [] = 0
of_bits (b ∷ bs) = (if b then 1 else 0) + 2 * of_bits bs

bit_and-zero_upto : (n a : ℕ) → a ≤ n → bit_and a 0 ≡ 0
bit_and-zero_upto n zero h = refl
bit_and-zero_upto zero (suc a) h = absurd (omega arith)
bit_and-zero_upto (suc n) (suc a) h =
    omega (arith, bit_and_step (suc a) 0, bit_and-zero_upto n (suc a / 2) (omega arith))

bit_and-zero : (a : ℕ) → bit_and a 0 ≡ 0
bit_and-zero a = bit_and-zero_upto a a (omega arith)

bit_or-zero_upto : (n a : ℕ) → a ≤ n → bit_or a 0 ≡ a
bit_or-zero_upto n zero h = refl
bit_or-zero_upto zero (suc a) h = absurd (omega arith)
bit_or-zero_upto (suc n) (suc a) h =
    omega (arith, bit_or_step (suc a) 0, bit_or-zero_upto n (suc a / 2) (omega arith))

bit_or-zero : (a : ℕ) → bit_or a 0 ≡ a
bit_or-zero a = bit_or-zero_upto a a (omega arith)

pub pow-lt-pow : (f w : ℕ) → f < w → 2 ^ f < 2 ^ w
pow-lt-pow f zero h = absurd (omega arith)
pow-lt-pow zero (suc w) h = omega (arith, pow-suc 2 w, one-le-pow w 2 (omega arith))
pow-lt-pow (suc f) (suc w) h = omega (arith, pow-suc 2 f, pow-suc 2 w, pow-lt-pow f w (omega arith))

pub of_bits-replicate : (n : ℕ) → of_bits (replicate n false) ≡ 0
of_bits-replicate zero = refl
of_bits-replicate (suc n) = omega (arith, of_bits-replicate n)

-- `bitmap & mask(f)` is the mask if the flag is set, and 0 if it is not.
pub test_flag :
    (bs : List Bool) (f : ℕ) → bit_and (of_bits bs) (2 ^ f) ≡ (if nth bs f then 2 ^ f else 0)
test_flag [] f = zero-bit_and _
test_flag (b ∷ bs) zero =
    ground (arith, bit_and_step (of_bits (b ∷ bs)) 1, bit_and-zero (of_bits bs))
test_flag (b ∷ bs) (suc f) =
    ground (arith, bit_and_step (of_bits (b ∷ bs)) (2 ^ suc f), pow-suc 2 f, test_flag bs f)

pub length-take_le {ℓ} : {A : Type ℓ} (f : ℕ) (bs : List A) → length (take f bs) ≤ length bs
length-take_le zero bs = omega arith
length-take_le (suc f) [] = omega arith
length-take_le (suc f) (b ∷ bs) = omega (arith, length-take_le f bs)

-- A mask of `k` ones takes the remainder.
pub bit_and_low : (k a : ℕ) → bit_and a (2 ^ k - 1) ≡ a % 2 ^ k
bit_and_low zero a = ground (arith, bit_and-zero a)
bit_and_low (suc k) a = ground (
  arith,
  bit_and_step a (2 ^ suc k - 1),
  pow-suc 2 k,
  one-le-pow k 2,
  bit_and_low k (a / 2),
  mod-mul a 2 (2 ^ k),
)

-- `bitmap & (mask(f) - 1)` keeps the flags below `f`.
pub flags_below : (bs : List Bool) (f : ℕ) → bit_and (of_bits bs) (2 ^ f - 1) ≡ of_bits (take f bs)
flags_below bs zero = bit_and-zero (of_bits bs)
flags_below [] (suc f) = zero-bit_and _
flags_below (b ∷ bs) (suc f) = ground (
  arith,
  bit_and_step (of_bits (b ∷ bs)) (2 ^ suc f - 1),
  pow-suc 2 f,
  one-le-pow f 2,
  flags_below bs f,
)

pub set_flag :
    (bs : List Bool) (f : ℕ) → f < length bs → bit_or (of_bits bs) (2 ^ f) ≡ of_bits (set bs f true)
set_flag [] f h = absurd (omega arith)
set_flag (b ∷ bs) zero h =
    ground (arith, bit_or_step (of_bits (b ∷ bs)) 1, bit_or-zero (of_bits bs))
set_flag (b ∷ bs) (suc f) h =
    ground
      (arith, bit_or_step (of_bits (b ∷ bs)) (2 ^ suc f), pow-suc 2 f, set_flag bs f (omega arith))

pub of_bits-lt : (bs : List Bool) → of_bits bs < 2 ^ length bs
of_bits-lt [] = omega arith
of_bits-lt (b ∷ bs) = ground (arith, pow-suc 2 (length bs), of_bits-lt bs)

bit_and_ones :
    (bs : List Bool) (w : ℕ) → length bs ≤ w → bit_and (of_bits bs) (2 ^ w - 1) ≡ of_bits bs
bit_and_ones bs w h = flags_below bs w ∙ ap of_bits (take_all w bs h)

clear_flag_of :
    (bs : List Bool) (w f : ℕ)
    → length bs ≤ w
    → f < w
    → bit_and (of_bits bs) (2 ^ w - 1 - 2 ^ f) ≡ of_bits (set bs f false)
clear_flag_of [] w f h g = zero-bit_and _
clear_flag_of (b ∷ bs) zero f h g = absurd (omega arith)
clear_flag_of (b ∷ bs) (suc w) zero h g = ground (
  arith,
  bit_and_step (of_bits (b ∷ bs)) (2 ^ suc w - 1 - 1),
  pow-suc 2 w,
  one-le-pow w 2,
  bit_and_ones bs w (omega arith),
)
clear_flag_of (b ∷ bs) (suc w) (suc f) h g = ground (
  arith,
  bit_and_step (of_bits (b ∷ bs)) (2 ^ suc w - 1 - 2 ^ suc f),
  pow-suc 2 w,
  pow-suc 2 f,
  pow-lt-pow f w (omega arith),
  clear_flag_of bs w f (omega arith) (omega arith),
)

-- `bitmap & !mask(f)` clears the flag.
pub clear_flag :
    (bs : List Bool) (f : ℕ)
    → length bs ≤ 32
    → f < 32
    → bit_and (of_bits bs) (complement (2 ^ f)) ≡ of_bits (set bs f false)
clear_flag bs f h g = clear_flag_of bs 32 f h g

count_ones_of-of_bits :
    (bs : List Bool) (w : ℕ) → length bs ≤ w → count_ones_of w (of_bits bs) ≡ count_true bs
unfolding count_ones_of
count_ones_of-of_bits [] zero h = refl
count_ones_of-of_bits [] (suc w) h = omega (arith, count_ones_of-of_bits [] w (omega arith))
count_ones_of-of_bits (b ∷ bs) zero h = absurd (omega arith)
count_ones_of-of_bits (b ∷ bs) (suc w) h = ground (arith, count_ones_of-of_bits bs w (omega arith))

pub count_ones-of_bits : (bs : List Bool) → length bs ≤ 32 → count_ones (of_bits bs) ≡ count_true bs
unfolding count_ones
count_ones-of_bits bs h = count_ones_of-of_bits bs 32 h

-- A single bit at `f`, below the width.
pub single_flag : (n f : ℕ) → f < n → of_bits (set (replicate n false) f true) ≡ 2 ^ f
single_flag zero f h = absurd (omega arith)
single_flag (suc n) zero h = omega (arith, of_bits-replicate n)
single_flag (suc n) (suc f) h = omega (arith, pow-suc 2 f, single_flag n f (omega arith))

pub of_bits-eq-zero : (bs : List Bool) → (of_bits bs == 0) ≡ (count_true bs == 0)
of_bits-eq-zero [] = refl
of_bits-eq-zero (true ∷ bs) = ground arith
of_bits-eq-zero (false ∷ bs) = ground (arith, of_bits-eq-zero bs)
