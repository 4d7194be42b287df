-- ===== src/Ops/Insert.antt =====
-- ops/insert.rs: insertion by path copying. `create_subtree` and `insert_recursive` run on fuel.
pub mod Sums
pub mod Subtree
pub mod Slots
pub mod Replace
pub mod Push
pub mod Child
pub mod Bucket
pub mod Overflow
pub mod Panics
pub mod Refines
use champ_trie.Prelude.{
  ℕ, zero, suc, ◌+◌, bit_and, bit_or, ◌&&◌, Option, none, some, [], ◌∷◌, ◌++◌, Cmd, panic,
  out_of_fuel, pure, expect, ◌>>=◌, ◌==◌, ltb, if◌then◌else◌,
}
use champ_trie.Bits.{count_ones, complement, wrapping_add, wrapping_sub}
use champ_trie.Hashing.{Hash, Key, hash_one, entry_adhash}
use champ_trie.Node.{
  Entry, Node, Idx, inner, collision, bits_per_level, max_shift, fragment, mask, index, offset,
  has_bit, adhash,
}
use champ_trie.Store.{ChampStore}
use champ_trie.Ops.{
  levels, get_node, get_entry, get_child, alloc_node, alloc_entries, alloc_children,
}
use champ_trie.Ops.Blocks.{
  alloc_or_sentinel, clone_entry, copy_range, build_entries_inserting, build_entries_replacing,
  build_entries_removing, build_children_inserting, build_children_replacing,
}

pub record InsertOutcome {ℓ} (V : Type ℓ) : Type ℓ where
  pub node : Idx
  pub adhash_delta : ℕ
  pub old_value : Option V

-- The contribution of an entry to the `AdHash`.
unfoldable pub contribution {ℓ} : {K V : Type ℓ} ⦃h : Hash V⦄ → Entry K V → ℕ
contribution e = entry_adhash e.hash (hash_one e.value)

module _ {ℓ} {K V : Type ℓ} ⦃h : Hash V⦄ (S : ChampStore K V) where
  open S use {Store}

  unfoldable pub create_subtree : ℕ → Entry K V → Entry K V → ℕ → Cmd Store Idx
  create_subtree zero e1 e2 shift = λ _. out_of_fuel
  create_subtree (suc fuel) e1 e2 shift =
      let c1 = contribution e1 in
      let c2 = contribution e2 in
      let f1 = fragment e1.hash shift in
      let f2 = fragment e2.hash shift in
      if ltb max_shift shift
      then (do
        block ← alloc_entries S (e1 ∷ e2 ∷ [])
        start ← expect block
        alloc_node S (collision e1.hash start 2 (wrapping_add c1 c2)))
      else if f1 == f2
      then (do
        child ← create_subtree fuel e1 e2 (shift + bits_per_level)
        child_node ← get_node S child
        block ← alloc_children S (child ∷ [])
        children_start ← expect block
        alloc_node S (inner 0 (mask f1) 0 children_start (adhash child_node)))
      else (do
        block ← alloc_entries S (if ltb f1 f2 then e1 ∷ e2 ∷ [] else e2 ∷ e1 ∷ [])
        data_start ← expect block
        alloc_node S (inner (bit_or (mask f1) (mask f2)) 0 data_start 0 (wrapping_add c1 c2)))

module _ {ℓ} {K V : Type ℓ} ⦃key : Key K⦄ ⦃h : Hash V⦄ (S : ChampStore K V) where
  open S use {Store}

  -- The key was not found: append.
  unfoldable pub append_to_collision : ℕ → Idx → ℕ → ℕ → Entry K V → Cmd Store (InsertOutcome V)
  append_to_collision node_hash entries_start entries_len sum entry =
      let new_contrib = contribution entry in
      if entries_len == 255 then (λ _. panic) else do
        entries ← copy_range (clone_entry S) entries_len entries_start 0
        block ← alloc_entries S (entries ++ entry ∷ [])
        new_start ← expect block
        new_node ←
            alloc_node S
              (collision node_hash new_start (entries_len + 1) (wrapping_add sum new_contrib))
        pure (record { node = new_node; adhash_delta = new_contrib; old_value = none })

  -- The search for the key, on the entries left, and what follows it.
  unfoldable pub insert_into_collision :
      ℕ → ℕ → ℕ → Idx → ℕ → ℕ → Entry K V → Cmd Store (InsertOutcome V)
  insert_into_collision zero i node_hash entries_start entries_len sum entry =
      append_to_collision node_hash entries_start entries_len sum entry
  insert_into_collision (suc rounds) i node_hash entries_start entries_len sum entry = do
    e ← get_entry S (offset entries_start i)
    if key.equal e.key entry.key
        then (do
          let delta = wrapping_sub (contribution entry) (contribution e)
          entries ← build_entries_replacing S entries_start entries_len i entry
          block ← alloc_entries S entries
          new_start ← expect block
          new_node ←
              alloc_node S (collision node_hash new_start entries_len (wrapping_add sum delta))
          pure (record { node = new_node; adhash_delta = delta; old_value = some e.value }))
        else insert_into_collision rounds (i + 1) node_hash entries_start entries_len sum entry

  -- The position holds an inline entry: update it, or push both entries into a subtree.
  unfoldable pub insert_at_entry :
      ℕ → ℕ → Idx → Idx → ℕ → Entry K V → ℕ → ℕ → Cmd Store (InsertOutcome V)
  insert_at_entry data_map node_map data_start children_start sum entry shift bit = do
    let data_len = count_ones data_map
    let pos = index data_map bit
    e ← get_entry S (offset data_start pos)
    if e.hash == entry.hash && key.equal e.key entry.key
        then (do
          let delta = wrapping_sub (contribution entry) (contribution e)
          entries ← build_entries_replacing S data_start data_len pos entry
          block ← alloc_entries S entries
          new_data ← expect block
          new_node ←
              alloc_node S
                (inner data_map node_map new_data children_start (wrapping_add sum delta))
          pure (record { node = new_node; adhash_delta = delta; old_value = some e.value }))
        else (do
          existing ← clone_entry S (offset data_start pos)
          let new_contrib = contribution entry
          subtree ← create_subtree S levels existing entry (shift + bits_per_level)
          let new_data_map = bit_and data_map (complement bit)
          let new_node_map = bit_or node_map bit
          let child_pos = index new_node_map bit
          entries ← build_entries_removing S data_start data_len pos
          children ←
              build_children_inserting S children_start (count_ones node_map) child_pos subtree
          data_block ← alloc_entries S entries
          children_block ← alloc_children S children
          new_children ← expect children_block
          new_node ← alloc_node S (
              inner new_data_map new_node_map (alloc_or_sentinel data_block) new_children
                (wrapping_add sum new_contrib))
          pure (record { node = new_node; adhash_delta = new_contrib; old_value = none }))

  -- The position holds a subtree: recurse.
  unfoldable pub insert_at_child :
      (Idx → Entry K V → ℕ → Cmd Store (InsertOutcome V))
      → ℕ
      → ℕ
      → Idx
      → Idx
      → ℕ
      → Entry K V
      → ℕ
      → ℕ
      → Cmd Store (InsertOutcome V)
  insert_at_child descend data_map node_map data_start children_start sum entry shift bit = do
    let child_pos = index node_map bit
    old_child ← get_child S (offset children_start child_pos)
    outcome ← descend old_child entry (shift + bits_per_level)
    children ←
        build_children_replacing S children_start (count_ones node_map) child_pos outcome.node
    block ← alloc_children S children
    new_children ← expect block
    new_node ←
        alloc_node S
          (inner data_map node_map data_start new_children (wrapping_add sum outcome.adhash_delta))
    pure (record outcome { node = new_node })

  -- The position is empty: add the entry inline.
  unfoldable pub insert_at_empty :
      ℕ → ℕ → Idx → Idx → ℕ → Entry K V → ℕ → Cmd Store (InsertOutcome V)
  insert_at_empty data_map node_map data_start children_start sum entry bit = do
    let new_data_map = bit_or data_map bit
    let new_contrib = contribution entry
    entries ←
        build_entries_inserting S data_start (count_ones data_map) (index new_data_map bit) entry
    block ← alloc_entries S entries
    new_data ← expect block
    new_node ←
        alloc_node S
          (inner new_data_map node_map new_data children_start (wrapping_add sum new_contrib))
    pure (record { node = new_node; adhash_delta = new_contrib; old_value = none })

  unfoldable pub insert_into_inner :
      (Idx → Entry K V → ℕ → Cmd Store (InsertOutcome V))
      → ℕ
      → ℕ
      → Idx
      → Idx
      → ℕ
      → Entry K V
      → ℕ
      → Cmd Store (InsertOutcome V)
  insert_into_inner descend data_map node_map data_start children_start sum entry shift =
      let bit = mask (fragment entry.hash shift) in
      if has_bit data_map bit
      then insert_at_entry data_map node_map data_start children_start sum entry shift bit
      else if has_bit node_map bit
      then insert_at_child descend data_map node_map data_start children_start sum entry shift bit
      else insert_at_empty data_map node_map data_start children_start sum entry bit

  unfoldable pub insert_node :
      (Idx → Entry K V → ℕ → Cmd Store (InsertOutcome V))
      → Node
      → Entry K V
      → ℕ
      → Cmd Store (InsertOutcome V)
  insert_node descend (inner data_map node_map data_start children_start sum) entry shift =
      insert_into_inner descend data_map node_map data_start children_start sum entry shift
  insert_node descend (collision node_hash entries_start entries_len sum) entry shift =
      insert_into_collision entries_len 0 node_hash entries_start entries_len sum entry

  unfoldable pub insert_recursive : ℕ → Idx → Entry K V → ℕ → Cmd Store (InsertOutcome V)
  insert_recursive zero node_idx entry shift = λ _. out_of_fuel
  insert_recursive (suc fuel) node_idx entry shift = do
    node ← get_node S node_idx
    insert_node (λ child e shift'. insert_recursive fuel child e shift') node entry shift
