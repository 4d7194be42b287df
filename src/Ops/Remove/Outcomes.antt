-- ===== src/Ops/Remove/Outcomes.antt =====
-- What a removal of the code returns, beside the removal on trees.
use champ_trie.Prelude.{
  ℕ, ◌+◌, ◌<◌, ◌≡◌, refl, true, false, none, some, Run, ok, arith, ◌==◌, ◌&&◌, ◌⊎◌, Bool-cases, inl,
  inr,
}
use champ_trie.Bits.{wrapping_sub}
use champ_trie.Bits.Flags.{of_bits, of_bits-eq-zero}
use champ_trie.Hashing.{Hash, Key}
use champ_trie.Node.{Entry, Idx}
use champ_trie.Store.{ChampStore, IsChampStore, Extends}
use champ_trie.Ops.Insert.{contribution}
use champ_trie.Ops.Insert.Sums.{contribution-lt, contribution_lem}
use champ_trie.Ops.Remove.{RemoveOutcome, not_found, removed}
use champ_trie.Trie.{
  Trie, Slot, Slots, inner, is_entry, is_subtree, width, put, data_flags, node_flags,
}
use champ_trie.Trie.Positions.{length-items, data_rank-lt, node_rank-lt, slot_at-put_self}
use champ_trie.Trie.Weight.{weigh}
use champ_trie.Trie.Remove
use champ_trie.Trie.Remove.{Removal, is_blank, whole}
use champ_trie.Trie.Remove.Sums.{blank_counts}
use champ_trie.Trie.Repr.{Repr, sum_of, share}

module _ {ℓ} {K V : Type ℓ} where
  -- The test of the two bitmaps for a node that holds nothing.
  pub blank_test :
      (sl : Slots K V)
      → (of_bits (data_flags sl) == 0 && of_bits (node_flags sl) == 0) ≡ is_blank sl
  blank_test sl =
      rw (of_bits-eq-zero (data_flags sl), of_bits-eq-zero (node_flags sl), length-items sl) refl

  pub not_blank :
      (sl : Slots K V) (f : ℕ) (x : Slot K V)
      → f < width sl
      → (is_entry x ≡ true) ⊎ (is_subtree x ≡ true)
      → is_blank (put sl f x) ≡ false
  not_blank sl f x b h = elim (Bool-cases (is_blank (put sl f x))) [
    | inl c ↦
        let (no_items, no_nodes) = blank_counts (put sl f x) c in
        elim h [
          | inl e ↦
              let r = data_rank-lt (put sl f x) f (rw (slot_at-put_self sl f x b) e) in
              absurd (omega (arith, r, no_items))
          | inr e ↦
              let r = node_rank-lt (put sl f x) f (rw (slot_at-put_self sl f x b) e) in
              absurd (omega (arith, r, no_nodes))
        ]
    | inr c ↦ c
  ]

  pub whole-put :
      (sl : Slots K V) (f : ℕ) (x : Slot K V)
      → f < width sl
      → (is_entry x ≡ true) ⊎ (is_subtree x ≡ true)
      → whole (put sl f x) ≡ some (inner (put sl f x))
  whole-put sl f x b h = rw (not_blank sl f x b h) refl

-- The sum of a node follows a removal below it.
pub sum-drop {ℓ} :
    {K V : Type ℓ} ⦃h : Hash V⦄ (t u : Trie K V) (e : Entry K V)
    → share e.hash e.value + weigh share u ≡ weigh share t
    → wrapping_sub (sum_of t) (contribution e) ≡ sum_of u
sum-drop t u e w = omega (arith, w, contribution_lem e, contribution-lt e)

module _ {ℓ} {K V : Type ℓ} ⦃key : Key K⦄ ⦃h : Hash V⦄ (S : ChampStore K V)
    (law : IsChampStore S) where
  open S use {Store}
  open law use {view}

  -- The entry `e` was removed, and no node is left.
  pub record Gone (s : Store) (e : Entry K V) (run : Run Store (RemoveOutcome V)) : Type ℓ where
    pub after : Store
    pub returns : run ≡ ok (removed none (contribution e) e.value) after
    pub extends : Extends (view s) (view after)

  -- The entry `e` was removed, and a node is left that represents `t`.
  pub record Rest (s : Store) (e : Entry K V) (t : Trie K V) (run : Run Store (RemoveOutcome V))
      : Type ℓ where
    pub index : Idx
    pub after : Store
    pub returns : run ≡ ok (removed (some index) (contribution e) e.value) after
    pub extends : Extends (view s) (view after)
    pub repr : Repr (view after) index t

  -- The run returns what the removal on trees says.
  abbrev pub Returned : Store → Removal K V → Run Store (RemoveOutcome V) → Type ℓ
  Returned s Remove.absent run = run ≡ ok not_found s
  Returned s (Remove.removed e none) run = Gone s e run
  Returned s (Remove.removed e (some t)) run = Rest s e t run
