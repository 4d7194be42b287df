-- ===== src/Trie/Paths.antt =====
-- The path of a position: the bits of the hash below the shift, as a number.
use champ_trie.Prelude.{ℕ, ◌+◌, ◌*◌, ◌%◌, ◌/◌, ◌^◌, ◌<◌, ◌≤◌, ◌≡◌, ap, sym, ◌∙◌, arith}
use native.Mathlib.Nat.{
  mul-le-mul_left, add-mul-mod_self_left, eq_of_mul-eq-mul_left, mod-eq_of_lt, mod-lt,
}
use champ_trie.Bits.Step.{mod-mul}
use champ_trie.Hashing.{Key}
use champ_trie.Node.{Entry, fragment}
use champ_trie.Node.Bitmap.{fragment_lem}
use champ_trie.Trie.Shape.{IsPlaced, step_path, pow-add_five}

digit-lt : (n f p : ℕ) → p < n → f < 32 → p + n * f < n * 32
digit-lt n f p h g = let b : n * f ≤ n * 31 = mul-le-mul_left n (omega arith) in omega (arith, b)

-- A path down to a position is a number of the bits above it.
pub step_path-lt : (shift p f : ℕ) → p < 2 ^ shift → f < 32 → step_path shift p f < 2 ^ (shift + 5)
step_path-lt shift p f h g = rw (pow-add_five shift) (digit-lt (2 ^ shift) f p h g)

-- A number in two digits has one low digit and one high digit.
low_digit : (n r p f g : ℕ) → r < n → p < n → r + n * g ≡ p + n * f → r ≡ p
low_digit n r p f g a b e =
    let l : (r + n * g) % n ≡ r = add-mul-mod_self_left r n g ∙ mod-eq_of_lt a in
    let m : (p + n * f) % n ≡ p = add-mul-mod_self_left p n f ∙ mod-eq_of_lt b in
    sym l ∙ ap (λ x. x % n) e ∙ m

high_digit : (n r p f g : ℕ) → r < n → p < n → r + n * g ≡ p + n * f → g ≡ f
high_digit n r p f g a b e =
    let low = low_digit n r p f g a b e in
    eq_of_mul-eq-mul_left n (omega arith) g f (omega (arith, low, e))

module _ (hash shift p f : ℕ) (low : p < 2 ^ shift)
    (there : hash % 2 ^ (shift + 5) ≡ step_path shift p f) where
  digits_agree : hash % 2 ^ shift + 2 ^ shift * (hash / 2 ^ shift % 32) ≡ step_path shift p f
  digits_agree = sym (mod-mul hash (2 ^ shift) 32) ∙ (rw (← pow-add_five shift) there)

  in_range : hash % 2 ^ shift < 2 ^ shift
  in_range = mod-lt hash (omega arith)

  -- An entry on the path to a position is on the path to its node, and its hash leads there.
  pub path_above : hash % 2 ^ shift ≡ p
  path_above =
      low_digit (2 ^ shift) (hash % 2 ^ shift) p f (hash / 2 ^ shift % 32) in_range low digits_agree

  pub path_fragment : fragment hash shift ≡ f
  path_fragment =
      fragment_lem hash shift
      ∙ high_digit (2 ^ shift) (hash % 2 ^ shift) p f (hash / 2 ^ shift % 32) in_range low
          digits_agree

module _ {ℓ} {K V : Type ℓ} ⦃key : Key K⦄ where
  pub IsPlaced-above :
      (e : Entry K V) (shift p f : ℕ)
      → p < 2 ^ shift
      → IsPlaced e (shift + 5) (step_path shift p f)
      → IsPlaced e shift p
  IsPlaced-above e shift p f low i = record {
    hash_lem = i.hash_lem;
    on_path = path_above e.hash shift p f low i.on_path;
  }

  pub IsPlaced-fragment :
      (e : Entry K V) (shift p f : ℕ)
      → p < 2 ^ shift
      → IsPlaced e (shift + 5) (step_path shift p f)
      → fragment e.hash shift ≡ f
  IsPlaced-fragment e shift p f low i = path_fragment e.hash shift p f low i.on_path
