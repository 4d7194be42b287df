-- ===== src/Hashing/Mixing.antt =====
-- The two products of `entry_adhash` lose nothing of either hash.
use native.Mathlib.Decide.{ℕ_discrete}
use champ_trie.Prelude.{ℕ, ◌^◌, ◌<◌, ◌≡◌, ◌∙◌, sym, arith, ap, refl, ◌==◌, ==_iff, ==_ne}
use champ_trie.Bits.{wrapping_mul}
use champ_trie.Bits.Step.{bit_xor_cancel, bit_xor_flip}
use champ_trie.Hashing.{seed_1, seed_2, entry_adhash}

-- Equations that say the same have the same test.
test-alike : (a b c d : ℕ) → (a ≡ b → c ≡ d) → (c ≡ d → a ≡ b) → (a == b) ≡ (c == d)
test-alike a b c d f g = elim (ℕ_discrete c d) [
  | yes e ↦ rw ((==_iff c d).1 e, (==_iff a b).1 (g e)) refl
  | no n ↦ rw (==_ne c d n, ==_ne a b (λ e. n (f e))) refl
]

-- The seeds are odd, so that a product by one of them determines the factor.
module _ (a b : ℕ) (h : a < 2 ^ 64) (g : b < 2 ^ 64) where
  cancel_seed_1 : wrapping_mul a seed_1 ≡ wrapping_mul b seed_1 → a ≡ b
  cancel_seed_1 e = omega (arith, e)

  cancel_seed_2 : wrapping_mul a seed_2 ≡ wrapping_mul b seed_2 → a ≡ b
  cancel_seed_2 e = omega (arith, e)

module _ (k l v u : ℕ) (hk : k < 2 ^ 64) (hl : l < 2 ^ 64) (hv : v < 2 ^ 64) (hu : u < 2 ^ 64) where
  value_hash_lem : entry_adhash k v ≡ entry_adhash k u → v ≡ u
  unfolding entry_adhash
  value_hash_lem e = cancel_seed_2 v u hv hu (
      bit_xor_cancel 64 (wrapping_mul k seed_1) (wrapping_mul v seed_2) (wrapping_mul u seed_2)
        (omega arith) (omega arith) e)

  key_hash_lem : entry_adhash k v ≡ entry_adhash l v → k ≡ l
  unfolding entry_adhash
  key_hash_lem e =
      let flip = λ (n : ℕ).
        bit_xor_flip 64 (wrapping_mul v seed_2) (wrapping_mul n seed_1) (omega arith)
          (omega arith) in
      cancel_seed_1 k l hk hl (
        bit_xor_cancel 64 (wrapping_mul v seed_2) (wrapping_mul k seed_1) (wrapping_mul l seed_1)
          (omega arith) (omega arith) (flip k ∙ e ∙ sym (flip l)))

  -- For 64-bit hashes: two contributions under one key hash are equal exactly when the value
  -- hashes are, and two contributions of one value hash exactly when the key hashes are.
  pub entry_adhash_apart :
      ((entry_adhash k v == entry_adhash k u) ≡ (v == u))
      × ((entry_adhash k v == entry_adhash l v) ≡ (k == l))
  entry_adhash_apart = (
    test-alike (entry_adhash k v) (entry_adhash k u) v u value_hash_lem (ap (entry_adhash k)),
    test-alike (entry_adhash k v) (entry_adhash l v) k l key_hash_lem (ap (λ n. entry_adhash n v)),
  )
