-- ===== src/Bits/Step.antt =====
-- The native bit operations are recursions on binary digits with fuel. Here: one equation for the
-- lowest digit without fuel, and the bound on a result.
use Prim.Native.Nat.{digits, bit_and-bitwise, bit_or-bitwise, bit_xor-bitwise, differ}
use native.Mathlib.Nat.{pow-suc, div-add-mod, div-div-eq-div-mul, mod-eq-sub-mul-div}
use champ_trie.Prelude.{ℕ, zero, suc, ◌+◌, ◌*◌, ◌/◌, ◌%◌, ◌^◌, ◌≤◌, ◌<◌, min, max}
use champ_trie.Prelude.{bit_and, bit_or, bit_xor, ◌≡◌, refl, sym, ap, ◌∙◌, arith}

module _ (low : ℕ → ℕ) (digit : ℕ → ℕ → ℕ) where
  digits-zero : (fuel b : ℕ) → digits low digit fuel 0 b ≡ low b
  digits-zero zero b = refl
  digits-zero (suc fuel) b = refl

  fuel_agrees : (b a m k : ℕ) → a ≤ m → a ≤ k → digits low digit m a b ≡ digits low digit k a b
  fuel_agrees b zero m k h g = digits-zero m b ∙ sym (digits-zero k b)
  fuel_agrees b (suc a) zero k h g = absurd (omega arith)
  fuel_agrees b (suc a) (suc m) zero h g = absurd (omega arith)
  fuel_agrees b (suc a) (suc m) (suc k) h g =
      ap (λ r. r * 2 + digit (suc a % 2) (b % 2))
        (fuel_agrees (b / 2) (suc a / 2) m k (omega arith) (omega arith))

  -- A result has no more digits than the operands.
  digits-lt :
      ((b : ℕ) → low b ≤ b)
      → ((x y : ℕ) → x < 2 → y < 2 → digit x y < 2)
      → (w fuel a b : ℕ) → a < 2 ^ w
      → b < 2 ^ w
      → digits low digit fuel a b < 2 ^ w
  digits-lt below binary w zero a b h g = omega (arith, below b)
  digits-lt below binary w (suc fuel) zero b h g = omega (arith, below b)
  digits-lt below binary zero (suc fuel) (suc a) b h g = absurd (omega arith)
  digits-lt below binary (suc w) (suc fuel) (suc a) b h g = omega (
    arith,
    pow-suc 2 w,
    binary (suc a % 2) (b % 2),
    digits-lt below binary w fuel (suc a / 2) (b / 2) (omega (arith, pow-suc 2 w))
        (omega (arith, pow-suc 2 w)),
  )

pub bit_or_step : (a b : ℕ) → bit_or a b ≡ max (a % 2) (b % 2) + 2 * bit_or (a / 2) (b / 2)
bit_or_step zero b = simp bit_or-bitwise (omega arith)
bit_or_step (suc a) b =
    simp bit_or-bitwise (omega (arith, fuel_agrees (λ y. y) max (b / 2) (suc a / 2) a (suc a / 2)))

pub bit_and_step : (a b : ℕ) → bit_and a b ≡ min (a % 2) (b % 2) + 2 * bit_and (a / 2) (b / 2)
bit_and_step zero b = simp bit_and-bitwise (omega arith)
bit_and_step (suc a) b =
    simp bit_and-bitwise (omega (arith, fuel_agrees (λ y. 0) min (b / 2) (suc a / 2) a (suc a / 2)))

differ-lt : (x y : ℕ) → x < 2 → y < 2 → differ x y < 2
differ-lt zero y h g = g
differ-lt (suc x) zero h g = h
differ-lt (suc x) (suc zero) h g = ground arith
differ-lt (suc x) (suc (suc y)) h g = absurd (omega arith)

pub bit_xor-lt : (w a b : ℕ) → a < 2 ^ w → b < 2 ^ w → bit_xor a b < 2 ^ w
bit_xor-lt w a b h g =
    rw bit_xor-bitwise (digits-lt (λ y. y) differ (λ y. omega arith) differ-lt w a a b h g)

pub zero-bit_and : (b : ℕ) → bit_and 0 b ≡ 0
zero-bit_and b = rw bit_and-bitwise

-- A remainder by a product, in two digits.
pub mod-mul : (a n m : ℕ) → a % (n * m) ≡ a % n + n * (a / n % m)
mod-mul a n m =
    rw (mod-eq-sub-mul-div a (n * m), ← div-div-eq-div-mul a n m)
      (omega (arith, div-add-mod a n, ap (λ (t : ℕ). n * t) (div-add-mod (a / n) m)))

pub zero-bit_or : (b : ℕ) → bit_or 0 b ≡ b
zero-bit_or b = rw bit_or-bitwise

pub bit_xor_step : (a b : ℕ) → bit_xor a b ≡ differ (a % 2) (b % 2) + 2 * bit_xor (a / 2) (b / 2)
bit_xor_step zero b = simp bit_xor-bitwise (omega arith)
bit_xor_step (suc a) b =
    simp bit_xor-bitwise
      (omega (arith, fuel_agrees (λ y. y) differ (b / 2) (suc a / 2) a (suc a / 2)))

-- Of two digits the exclusive or and one of them give the other.
differ_cancel : (x y z : ℕ) → x < 2 → y < 2 → z < 2 → differ x y ≡ differ x z → y ≡ z
differ_cancel zero y z a b c e = e
differ_cancel (suc zero) zero zero a b c e = refl
differ_cancel (suc zero) (suc zero) (suc zero) a b c e = refl
differ_cancel (suc zero) zero (suc zero) a b c e = absurd (ground arith)
differ_cancel (suc zero) (suc zero) zero a b c e = absurd (ground arith)
differ_cancel (suc zero) (suc (suc y)) z a b c e = absurd (omega arith)
differ_cancel (suc zero) zero (suc (suc z)) a b c e = absurd (omega arith)
differ_cancel (suc zero) (suc zero) (suc (suc z)) a b c e = absurd (omega arith)
differ_cancel (suc (suc x)) y z a b c e = absurd (omega arith)

differ_flip : (x y : ℕ) → x < 2 → y < 2 → differ x y ≡ differ y x
differ_flip zero zero a b = refl
differ_flip zero (suc y) a b = refl
differ_flip (suc x) zero a b = refl
differ_flip (suc zero) (suc zero) a b = refl
differ_flip (suc zero) (suc (suc y)) a b = absurd (omega arith)
differ_flip (suc (suc x)) (suc y) a b = absurd (omega arith)

pub bit_xor_flip : (w a b : ℕ) → a < 2 ^ w → b < 2 ^ w → bit_xor a b ≡ bit_xor b a
bit_xor_flip zero a b h g = let e : a ≡ b = omega arith in rw e refl
bit_xor_flip (suc w) a b h g = omega (
  arith,
  bit_xor_step a b,
  bit_xor_step b a,
  differ_flip (a % 2) (b % 2) (omega arith) (omega arith),
  bit_xor_flip w (a / 2) (b / 2) (omega (arith, pow-suc 2 w)) (omega (arith, pow-suc 2 w)),
)

-- A word is recovered from its exclusive or with a known one.
pub bit_xor_cancel : (w a b c : ℕ) → b < 2 ^ w → c < 2 ^ w → bit_xor a b ≡ bit_xor a c → b ≡ c
bit_xor_cancel zero a b c h g e = omega arith
bit_xor_cancel (suc w) a b c h g e =
    let x : differ (a % 2) (b % 2) < 2 = differ-lt (a % 2) (b % 2) (omega arith) (omega arith) in
    let y : differ (a % 2) (c % 2) < 2 = differ-lt (a % 2) (c % 2) (omega arith) (omega arith) in
    let split : differ (a % 2) (b % 2) + 2 * bit_xor (a / 2) (b / 2)
        ≡ differ (a % 2) (c % 2) + 2 * bit_xor (a / 2) (c / 2) =
      sym (bit_xor_step a b) ∙ e ∙ bit_xor_step a c in
    let low =
      differ_cancel (a % 2) (b % 2) (c % 2) (omega arith) (omega arith) (omega arith)
        (omega (arith, x, y, split)) in
    let high =
      bit_xor_cancel w (a / 2) (b / 2) (c / 2) (omega (arith, pow-suc 2 w))
        (omega (arith, pow-suc 2 w)) (omega (arith, x, y, split)) in
    omega (arith, low, high)
