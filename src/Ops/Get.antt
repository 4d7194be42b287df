-- ===== src/Ops/Get.antt =====
-- ops/get.rs: lookup.
pub mod Refines
use champ_trie.Prelude.{
  ℕ, zero, suc, ◌+◌, ◌&&◌, Option, none, some, Cmd, out_of_fuel, pure, ◌>>=◌, ◌==◌, if◌then◌else◌,
}
use champ_trie.Hashing.{Key}
use champ_trie.Node.{
  Node, Idx, inner, collision, bits_per_level, fragment, mask, index, offset, has_bit,
}
use champ_trie.Store.{ChampStore}
use champ_trie.Ops.{get_node, get_entry, get_child}

module _ {ℓ} {K V : Type ℓ} ⦃key : Key K⦄ (S : ChampStore K V) where
  open S use {Store}

  -- The linear search, on the entries left.
  unfoldable pub search_entries : ℕ → Idx → K → ℕ → Cmd Store (Option V)
  search_entries zero start k i = pure none
  search_entries (suc rounds) start k i = do
    entry ← get_entry S (offset start i)
    if key.equal entry.key k then pure (some entry.value) else search_entries rounds start k (i + 1)

  -- The arms of the `match`; `descend` is the recursive call.
  unfoldable pub get_at : (Idx → ℕ → Cmd Store (Option V)) → Node → ℕ → K → ℕ → Cmd Store (Option V)
  get_at descend (inner data_map node_map data_start children_start _) hash k shift =
      let bit = mask (fragment hash shift) in
      if has_bit data_map bit
      then (do
        entry ← get_entry S (offset data_start (index data_map bit))
        pure (if entry.hash == hash && key.equal entry.key k then some entry.value else none))
      else if has_bit node_map bit
      then (do
        child_idx ← get_child S (offset children_start (index node_map bit))
        descend child_idx (shift + bits_per_level))
      else pure none
  get_at descend (collision node_hash entries_start entries_len _) hash k shift =
      if hash == node_hash then search_entries entries_len entries_start k 0 else pure none

  unfoldable pub get_recursive : ℕ → Idx → ℕ → K → ℕ → Cmd Store (Option V)
  get_recursive zero node_idx hash k shift = λ _. out_of_fuel
  get_recursive (suc fuel) node_idx hash k shift = do
    node ← get_node S node_idx
    get_at (λ child_idx shift'. get_recursive fuel child_idx hash k shift') node hash k shift
