-- ===== src/Ops/Blocks/Builds.antt =====
-- The block builders return the block with an item inserted, replaced or removed.
use champ_trie.Prelude.{
  ℕ, zero, suc, ◌+◌, ◌-◌, ◌≤◌, ◌<◌, ◌≡◌, refl, ap, List, [], ◌∷◌, ◌++◌, ok, ==_ne, length, set,
  take, drop, insert_at, erase_at, take_all, arith,
}
use native.Mathlib.Nat.{zero-add, add-zero}
use champ_trie.Node.{Entry, Idx}
use champ_trie.Store.{ChampStore, IsChampStore}
use champ_trie.Ops.{get_child}
use champ_trie.Ops.Blocks.{
  clone_entry, build_entries_inserting, build_entries_replacing, build_entries_removing,
  build_children_inserting, build_children_replacing, build_children_removing,
}
use champ_trie.Store.Block.{Block, Block-drop}
use champ_trie.Ops.Blocks.Loops.{copy_range_lem, copy_others_lem, copy_replacing_lem}
use champ_trie.Ops.Steps.{clone_entry_ok, get_child_ok}

module _ {ℓ} {A : Type ℓ} where
  take-drop-insert_at :
      (at : ℕ) (xs : List A) (y : A)
      → at ≤ length xs
      → take at xs ++ y ∷ take (length xs - at) (drop at xs) ≡ insert_at xs at y
  take-drop-insert_at zero xs y h = ap (◌∷◌ y) (take_all (length xs - 0) xs (omega arith))
  take-drop-insert_at (suc at) [] y h = absurd (omega arith)
  take-drop-insert_at (suc at) (x ∷ xs) y h =
      let e : suc (length xs) - suc at ≡ length xs - at = omega arith in
      rw e (ap (◌∷◌ x) (take-drop-insert_at at xs y (omega arith)))

  take-drop-set :
      (at : ℕ) (xs : List A) (y : A)
      → at < length xs
      → take at xs ++ y ∷ take (length xs - (at + 1)) (drop (at + 1) xs) ≡ set xs at y
  take-drop-set at [] y h = absurd (omega arith)
  take-drop-set zero (x ∷ xs) y h = ap (◌∷◌ y) (take_all (suc (length xs) - 1) xs (omega arith))
  take-drop-set (suc at) (x ∷ xs) y h =
      let e : suc (length xs) - (suc at + 1) ≡ length xs - (at + 1) = omega arith in
      let f : suc at + 1 ≡ suc (at + 1) = omega arith in
      rw (e, f) (ap (◌∷◌ x) (take-drop-set at xs y (omega arith)))

  pub length-drop : (n : ℕ) (xs : List A) → length (drop n xs) ≡ length xs - n
  length-drop zero xs = omega arith
  length-drop (suc n) [] = omega arith
  length-drop (suc n) (x ∷ xs) = omega (arith, length-drop n xs)

module _ {ℓ} {K V : Type ℓ} (S : ChampStore K V) (law : IsChampStore S) (s : S.Store) where
  module _ (start : Idx) (xs : List (Entry K V)) (b : Block (law.view s).entries start xs) where
    -- On a block of entries that stands in the store, at an index up to its length,
    -- `build_entries_inserting` returns the entries with the new one put in at the index, and
    -- leaves the store alone.
    pub entries_inserting_ok :
        (at : ℕ) (e : Entry K V)
        → at ≤ length xs
        → build_entries_inserting S start (length xs) at e s ≡ ok (insert_at xs at e) s
    unfolding build_entries_inserting
    entries_inserting_ok at e h =
        rw
          (
            copy_range_lem (clone_entry S) s (law.view s).entries (clone_entry_ok S law s) at start
                0 xs (rw add-zero b) h,
            copy_range_lem (clone_entry S) s (law.view s).entries (clone_entry_ok S law s)
                (length xs - at) start at (drop at xs)
                (Block-drop (law.view s).entries start at xs b) (rw length-drop (omega arith)),
            take-drop-insert_at at xs e h,
          )
          refl

    -- On a block of entries that stands in the store, at an index below its length,
    -- `build_entries_replacing` returns the entries with the new one in place of the one at the
    -- index, and leaves the store alone.
    pub entries_replacing_ok :
        (at : ℕ) (e : Entry K V)
        → at < length xs
        → build_entries_replacing S start (length xs) at e s ≡ ok (set xs at e) s
    unfolding build_entries_replacing
    entries_replacing_ok at e h =
        rw
          (
            copy_range_lem (clone_entry S) s (law.view s).entries (clone_entry_ok S law s) at start
                0 xs (rw add-zero b) (omega arith),
            copy_range_lem (clone_entry S) s (law.view s).entries (clone_entry_ok S law s)
                (length xs - (at + 1)) start (at + 1) (drop (at + 1) xs)
                (Block-drop (law.view s).entries start (at + 1) xs b)
                (rw length-drop (omega arith)),
            take-drop-set at xs e h,
          )
          refl

    -- On a block of entries that stands in the store and is not empty, `build_entries_removing`
    -- returns the entries without the one at the index, and leaves the store alone.
    pub entries_removing_ok :
        (at : ℕ)
        → 0 < length xs
        → build_entries_removing S start (length xs) at s ≡ ok (erase_at xs at) s
    unfolding build_entries_removing
    entries_removing_ok at h = rw (==_ne (length xs) 0 (omega arith)) (
        rw zero-add at (
          copy_others_lem (clone_entry S) s (law.view s).entries (clone_entry_ok S law s) start at 0
            xs (rw add-zero b)))

  module _ (start : Idx) (xs : List Idx) (b : Block (law.view s).children start xs) where
    pub children_inserting_ok :
        (at : ℕ) (c : Idx)
        → at ≤ length xs
        → build_children_inserting S start (length xs) at c s ≡ ok (insert_at xs at c) s
    unfolding build_children_inserting
    children_inserting_ok at c h =
        rw
          (
            copy_range_lem (get_child S) s (law.view s).children (get_child_ok S law s) at start 0
                xs (rw add-zero b) h,
            copy_range_lem (get_child S) s (law.view s).children (get_child_ok S law s)
                (length xs - at) start at (drop at xs)
                (Block-drop (law.view s).children start at xs b) (rw length-drop (omega arith)),
            take-drop-insert_at at xs c h,
          )
          refl

    pub children_replacing_ok :
        (at : ℕ) (c : Idx)
        → build_children_replacing S start (length xs) at c s ≡ ok (set xs at c) s
    unfolding build_children_replacing
    children_replacing_ok at c = rw zero-add at (
        copy_replacing_lem (get_child S) s (law.view s).children (get_child_ok S law s) start at 0 c
          xs (rw add-zero b))

    pub children_removing_ok :
        (at : ℕ)
        → 0 < length xs
        → build_children_removing S start (length xs) at s ≡ ok (erase_at xs at) s
    unfolding build_children_removing
    children_removing_ok at h = rw (==_ne (length xs) 0 (omega arith)) (
        rw zero-add at (
          copy_others_lem (get_child S) s (law.view s).children (get_child_ok S law s) start at 0 xs
            (rw add-zero b)))
