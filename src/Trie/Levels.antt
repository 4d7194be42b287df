-- ===== src/Trie/Levels.antt =====
-- The fragments of a hash at the levels of the trie.
use native.Mathlib.Decide.{ℕ_discrete}
use champ_trie.Prelude.{
  ℕ, zero, suc, ◌+◌, ◌*◌, ◌%◌, ◌^◌, ◌<◌, ◌≤◌, ◌≡◌, ◌≢◌, ◌⊎◌, inl, inr, refl, sym, ◌∙◌, arith,
}
use champ_trie.Node.{fragment, bits_per_level, max_shift}
use champ_trie.Trie.Shape.{path-step}

-- Two numbers part at one of the first `n` levels.
abbrev PartsBefore : ℕ → ℕ → ℕ → Type 0
PartsBefore n a b =
    (i : ℕ) × (i < n) × (fragment a (bits_per_level * i) ≢ fragment b (bits_per_level * i))

next_level : (a b n : ℕ) → PartsBefore n a b → PartsBefore (suc n) a b
next_level a b n (i, l, d) = (i, omega arith, d)

levels-lem : (a b n : ℕ) → PartsBefore n a b ⊎ (a % 2 ^ (5 * n) ≡ b % 2 ^ (5 * n))
levels-lem a b zero = inr (omega arith)
levels-lem a b (suc n) = elim (levels-lem a b n) [
  | inl apart ↦ inl (next_level a b n apart)
  | inr same ↦ elim (ℕ_discrete (fragment a (5 * n)) (fragment b (5 * n))) [
    | no d ↦ inl (n, omega arith, d)
    | yes e ↦
        let deeper : 5 * suc n ≡ 5 * n + 5 = omega arith in
        inr (
          rw deeper (
            path-step a (5 * n) (b % 2 ^ (5 * n)) same
            ∙ (rw e refl)
            ∙ sym (path-step b (5 * n) (b % 2 ^ (5 * n)) refl)))
  ]
]

-- Two 64-bit hashes that are not the same have different fragments at one of the levels of the
-- trie, at a shift up to `MAX_SHIFT`.
pub parting_level :
    (a b : ℕ)
    → a < 2 ^ 64
    → b < 2 ^ 64
    → a ≢ b
    → (i : ℕ) × (bits_per_level * i ≤ max_shift)
      × (fragment a (bits_per_level * i) ≢ fragment b (bits_per_level * i))
parting_level a b h g n = elim (levels-lem a b 13) [
  | inl (i, l, d) ↦ (i, omega arith, d)
  | inr same ↦ absurd (n (omega (arith, same)))
]
