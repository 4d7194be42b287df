-- ===== src/Ops/Blocks/Loops.antt =====
-- What the copying loops return over a block of an arena.
use native.Mathlib.Nat.{add-zero}
use champ_trie.Prelude.{
  ℕ, zero, suc, ◌+◌, ◌≤◌, ◌<◌, ◌≡◌, refl, some, List, [], ◌∷◌, Cmd, ok, ==_refl, ==_ne, length,
  get_elem?, set, take, erase_at, arith,
}
use champ_trie.Node.{Idx, offset}
use champ_trie.Store.Block.{Block, Block-tail}
use champ_trie.Ops.Blocks.{copy_range, copy_others, copy_replacing}

module _ {ℓ κ} {Store : Type ℓ} {A : Type κ} (read : Idx → Cmd Store A) (s : Store) (arena : List A)
    (reads : (i : ℕ) (x : A) → get_elem? arena i ≡ some x → read i s ≡ ok x s) where
  pub read_first :
      (start i : ℕ) (x : A) (xs : List A)
      → Block arena (start + i) (x ∷ xs)
      → read (offset start i) s ≡ ok x s
  read_first start i x xs b = reads (start + i) x (rw add-zero at (b 0 x refl))

  next :
      (start i : ℕ) (x : A) (xs : List A)
      → Block arena (start + i) (x ∷ xs)
      → Block arena (start + (i + 1)) xs
  next start i x xs b =
      let e : start + (i + 1) ≡ start + i + 1 = omega arith in
      rw e (Block-tail arena (start + i) x xs b)

  pub copy_range_lem :
      (rounds start i : ℕ) (xs : List A)
      → Block arena (start + i) xs
      → rounds ≤ length xs
      → copy_range read rounds start i s ≡ ok (take rounds xs) s
  unfolding copy_range
  copy_range_lem zero start i xs b h = refl
  copy_range_lem (suc rounds) start i [] b h = absurd (omega arith)
  copy_range_lem (suc rounds) start i (x ∷ xs) b h = rw (
    read_first start i x xs b,
    copy_range_lem rounds start (i + 1) xs (next start i x xs b) (omega arith),
  )

  copy_others_past :
      (start at i : ℕ) (xs : List A)
      → Block arena (start + i) xs
      → at < i
      → copy_others read (length xs) start at i s ≡ ok xs s
  unfolding copy_others
  copy_others_past start at i [] b h = refl
  copy_others_past start at i (x ∷ xs) b h = rw (
    ==_ne i at (omega arith),
    read_first start i x xs b,
    copy_others_past start at (i + 1) xs (next start i x xs b) (omega arith),
  )

  pub copy_others_lem :
      (start at i : ℕ) (xs : List A)
      → Block arena (start + i) xs
      → copy_others read (length xs) start (i + at) i s ≡ ok (erase_at xs at) s
  unfolding copy_others
  copy_others_lem start at i [] b = refl
  copy_others_lem start zero i (x ∷ xs) b =
      rw (add-zero i, ==_refl i)
        (copy_others_past start i (i + 1) xs (next start i x xs b) (omega arith))
  copy_others_lem start (suc at) i (x ∷ xs) b =
      let e : i + suc at ≡ i + 1 + at = omega arith in
      rw (
        e,
        ==_ne i (i + 1 + at) (omega arith),
        read_first start i x xs b,
        copy_others_lem start at (i + 1) xs (next start i x xs b),
      )

  copy_replacing_past :
      (start at i : ℕ) (y : A) (xs : List A)
      → Block arena (start + i) xs
      → at < i
      → copy_replacing read (length xs) start at y i s ≡ ok xs s
  unfolding copy_replacing
  copy_replacing_past start at i y [] b h = refl
  copy_replacing_past start at i y (x ∷ xs) b h = rw (
    ==_ne i at (omega arith),
    read_first start i x xs b,
    copy_replacing_past start at (i + 1) y xs (next start i x xs b) (omega arith),
  )

  pub copy_replacing_lem :
      (start at i : ℕ) (y : A) (xs : List A)
      → Block arena (start + i) xs
      → copy_replacing read (length xs) start (i + at) y i s ≡ ok (set xs at y) s
  unfolding copy_replacing
  copy_replacing_lem start at i y [] b = refl
  copy_replacing_lem start zero i y (x ∷ xs) b = rw (
    add-zero i,
    ==_refl i,
    copy_replacing_past start i (i + 1) y xs (next start i x xs b) (omega arith),
  )
  copy_replacing_lem start (suc at) i y (x ∷ xs) b =
      let e : i + suc at ≡ i + 1 + at = omega arith in
      rw (
        e,
        ==_ne i (i + 1 + at) (omega arith),
        read_first start i x xs b,
        copy_replacing_lem start at (i + 1) y xs (next start i x xs b),
      )
