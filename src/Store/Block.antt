-- ===== src/Store/Block.antt =====
-- A run of consecutive items of an arena.
use native.Mathlib.Nat.{add-zero}
use champ_trie.Prelude.{ℕ, zero, suc, ◌+◌, ◌≡◌, some, List, [], ◌∷◌, get_elem?, drop, arith}

-- The arena holds `xs` from `start` on.
abbrev pub Block {κ} : {A : Type κ} → List A → ℕ → List A → Type κ
Block {A} arena start xs =
    (i : ℕ) (x : A) → get_elem? xs i ≡ some x → get_elem? arena (start + i) ≡ some x

module _ {κ} {A : Type κ} (arena : List A) where
  pub Block-tail :
      (start : ℕ) (x : A) (xs : List A) → Block arena start (x ∷ xs) → Block arena (start + 1) xs
  Block-tail start x xs b i y h =
      let e : start + 1 + i ≡ start + suc i = omega arith in rw e (b (suc i) y h)

  pub Block-drop :
      (start : ℕ) (n : ℕ) (xs : List A) → Block arena start xs → Block arena (start + n) (drop n xs)
  Block-drop start zero xs b i y h = rw add-zero (b i y h)
  Block-drop start (suc n) [] b i y h = absurd (ground arith)
  Block-drop start (suc n) (x ∷ xs) b i y h =
      let e : start + suc n ≡ start + 1 + n = omega arith in
      rw e (Block-drop (start + 1) n xs (Block-tail start x xs b) i y h)
