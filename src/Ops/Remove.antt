-- ===== src/Ops/Remove.antt =====
-- ops/remove.rs: removal by path copying, with a lone entry inlined into the parent.
pub mod Outcomes
pub mod Entry
pub mod Child
pub mod Inline
pub mod Lone
pub mod Descent
pub mod Bucket
pub mod Refines
use champ_trie.Prelude.{
  ℕ, zero, suc, ◌+◌, ◌-◌, bit_and, bit_or, Bool, false, ◌&&◌, Option, none, some, [], ◌∷◌, Cmd,
  panic, out_of_fuel, pure, expect, ◌>>=◌, ◌==◌, if◌then◌else◌,
}
use champ_trie.Bits.{count_ones, is_power_of_two, complement, wrapping_sub}
use champ_trie.Hashing.{Hash, Key}
use champ_trie.Node.{
  Node, Idx, inner, collision, bits_per_level, fragment, mask, index, offset, has_bit,
}
use champ_trie.Store.{ChampStore}
use champ_trie.Ops.{get_node, get_entry, get_child, alloc_node, alloc_entries, alloc_children}
use champ_trie.Ops.Blocks.{
  alloc_or_sentinel, clone_entry, build_entries_inserting, build_entries_removing,
  build_children_replacing, build_children_removing,
}
use champ_trie.Ops.Insert.{contribution}

-- `removed node adhash_delta removed_value`
pub data RemoveOutcome {ℓ} (V : Type ℓ) : Type ℓ where
  not_found : RemoveOutcome V
  removed : Option Idx → ℕ → V → RemoveOutcome V

unfoldable pub should_inline : Node → Bool
should_inline (inner data_map node_map _ _ _) = is_power_of_two data_map && node_map == 0
should_inline (collision _ _ _ _) = false

module _ {ℓ} {K V : Type ℓ} ⦃key : Key K⦄ ⦃h : Hash V⦄ (S : ChampStore K V) where
  open S use {Store}

  -- The search for the key, on the entries left. Of two entries the other one is promoted.
  unfoldable pub remove_from_entries : ℕ → ℕ → ℕ → Idx → ℕ → ℕ → K → Cmd Store (RemoveOutcome V)
  remove_from_entries zero i node_hash entries_start len sum k = pure not_found
  remove_from_entries (suc rounds) i node_hash entries_start len sum k = do
    e ← get_entry S (offset entries_start i)
    if key.equal e.key k
        then (if len == 2
            then (do
              remaining ← clone_entry S (offset entries_start (1 - i))
              let bit = mask (fragment remaining.hash 0)
              block ← alloc_entries S (remaining ∷ [])
              data_start ← expect block
              new_node ← alloc_node S (inner bit 0 data_start 0 (contribution remaining))
              pure (removed (some new_node) (contribution e) e.value))
            else (do
              entries ← build_entries_removing S entries_start len i
              block ← alloc_entries S entries
              new_start ← expect block
              new_node ←
                  alloc_node S
                    (collision node_hash new_start (len - 1) (wrapping_sub sum (contribution e)))
              pure (removed (some new_node) (contribution e) e.value)))
        else remove_from_entries rounds (i + 1) node_hash entries_start len sum k

  unfoldable pub remove_from_collision : ℕ → Idx → ℕ → ℕ → ℕ → K → Cmd Store (RemoveOutcome V)
  remove_from_collision node_hash entries_start entries_len sum hash k =
      if hash == node_hash
      then remove_from_entries entries_len 0 node_hash entries_start entries_len sum k
      else pure not_found

  -- The start of a node's entries; a collision node is unreachable here.
  unfoldable pub inline_start : Node → Cmd Store Idx
  inline_start (inner _ _ data_start _ _) = pure data_start
  inline_start (collision _ _ _ _) = λ _. panic

  unfoldable pub inline_child :
      ℕ → ℕ → Idx → Idx → ℕ → ℕ → ℕ → Idx → ℕ → V → Cmd Store (RemoveOutcome V)
  inline_child data_map node_map data_start children_start sum bit child_pos child_idx delta v = do
    child ← get_node S child_idx
    child_data_start ← inline_start child
    inlined_entry ← clone_entry S child_data_start
    let new_data_map = bit_or data_map bit
    let new_node_map = bit_and node_map (complement bit)
    let data_insert_at = index new_data_map bit
    entries ←
        build_entries_inserting S data_start (count_ones data_map) data_insert_at inlined_entry
    children ← build_children_removing S children_start (count_ones node_map) child_pos
    data_block ← alloc_entries S entries
    new_data ← expect data_block
    children_block ← alloc_children S children
    new_node ← alloc_node S (
        inner new_data_map new_node_map new_data (alloc_or_sentinel children_block)
          (wrapping_sub sum delta))
    pure (removed (some new_node) delta v)

  -- The child is empty now: drop its pointer.
  unfoldable pub drop_child : ℕ → ℕ → Idx → Idx → ℕ → ℕ → ℕ → ℕ → V → Cmd Store (RemoveOutcome V)
  drop_child data_map node_map data_start children_start sum bit child_pos delta v =
      let new_node_map = bit_and node_map (complement bit) in
      if data_map == 0 && new_node_map == 0 then pure (removed none delta v) else do
        children ← build_children_removing S children_start (count_ones node_map) child_pos
        block ← alloc_children S children
        new_node ← alloc_node S (
            inner data_map new_node_map data_start (alloc_or_sentinel block)
              (wrapping_sub sum delta))
        pure (removed (some new_node) delta v)

  -- The child lives on: inline its lone entry, or replace its pointer.
  unfoldable pub replace_child :
      ℕ → ℕ → Idx → Idx → ℕ → ℕ → ℕ → Idx → ℕ → V → Cmd Store (RemoveOutcome V)
  replace_child data_map node_map data_start children_start sum bit child_pos child_idx delta v = do
    child_node ← get_node S child_idx
    if should_inline child_node
        then inline_child data_map node_map data_start children_start sum bit child_pos child_idx
            delta v
        else (do
          children ←
              build_children_replacing S children_start (count_ones node_map) child_pos child_idx
          block ← alloc_children S children
          new_children ← expect block
          new_node ←
              alloc_node S
                (inner data_map node_map data_start new_children (wrapping_sub sum delta))
          pure (removed (some new_node) delta v))

  -- What the parent makes of the child's outcome.
  unfoldable pub after_child :
      RemoveOutcome V → ℕ → ℕ → Idx → Idx → ℕ → ℕ → ℕ → Cmd Store (RemoveOutcome V)
  after_child not_found data_map node_map data_start children_start sum bit child_pos =
      pure not_found
  after_child (removed (some child_idx) delta v) data_map node_map data_start children_start sum bit
        child_pos =
      replace_child data_map node_map data_start children_start sum bit child_pos child_idx delta v
  after_child (removed none delta v) data_map node_map data_start children_start sum bit child_pos =
      drop_child data_map node_map data_start children_start sum bit child_pos delta v

  unfoldable pub remove_from_child :
      (Idx → ℕ → Cmd Store (RemoveOutcome V))
      → ℕ
      → ℕ
      → Idx
      → Idx
      → ℕ
      → ℕ
      → ℕ
      → Cmd Store (RemoveOutcome V)
  remove_from_child descend data_map node_map data_start children_start sum bit shift = do
    let child_pos = index node_map bit
    old_child ← get_child S (offset children_start child_pos)
    outcome ← descend old_child (shift + bits_per_level)
    after_child outcome data_map node_map data_start children_start sum bit child_pos

  -- The position holds an inline entry.
  unfoldable pub remove_at_entry : ℕ → ℕ → Idx → Idx → ℕ → ℕ → ℕ → K → Cmd Store (RemoveOutcome V)
  remove_at_entry data_map node_map data_start children_start sum bit hash k = do
    let pos = index data_map bit
    e ← get_entry S (offset data_start pos)
    let new_data_map = bit_and data_map (complement bit)
    if e.hash == hash && key.equal e.key k
        then (if new_data_map == 0 && node_map == 0
            then pure (removed none (contribution e) e.value)
            else do
              entries ← build_entries_removing S data_start (count_ones data_map) pos
              block ← alloc_entries S entries
              new_node ← alloc_node S (
                  inner new_data_map node_map (alloc_or_sentinel block) children_start
                    (wrapping_sub sum (contribution e)))
              pure (removed (some new_node) (contribution e) e.value))
        else pure not_found

  unfoldable pub remove_from_inner :
      (Idx → ℕ → Cmd Store (RemoveOutcome V))
      → ℕ
      → ℕ
      → Idx
      → Idx
      → ℕ
      → ℕ
      → K
      → ℕ
      → Cmd Store (RemoveOutcome V)
  remove_from_inner descend data_map node_map data_start children_start sum hash k shift =
      let bit = mask (fragment hash shift) in
      if has_bit data_map bit
      then remove_at_entry data_map node_map data_start children_start sum bit hash k
      else if has_bit node_map bit
      then remove_from_child descend data_map node_map data_start children_start sum bit shift
      else pure not_found

  unfoldable pub remove_node :
      (Idx → ℕ → Cmd Store (RemoveOutcome V)) → Node → ℕ → K → ℕ → Cmd Store (RemoveOutcome V)
  remove_node descend (inner data_map node_map data_start children_start sum) hash k shift =
      remove_from_inner descend data_map node_map data_start children_start sum hash k shift
  remove_node descend (collision node_hash entries_start entries_len sum) hash k shift =
      remove_from_collision node_hash entries_start entries_len sum hash k

  unfoldable pub remove_recursive : ℕ → Idx → ℕ → K → ℕ → Cmd Store (RemoveOutcome V)
  remove_recursive zero node_idx hash k shift = λ _. out_of_fuel
  remove_recursive (suc fuel) node_idx hash k shift = do
    node ← get_node S node_idx
    remove_node (λ child shift'. remove_recursive fuel child hash k shift') node hash k shift
