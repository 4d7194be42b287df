-- ===== src/Ops/Collect.antt =====
-- iter.rs: the entries of a subtree, in depth-first order.
pub mod Refines
use champ_trie.Prelude.{ℕ, zero, suc, ◌+◌, List, [], ◌∷◌, ◌++◌, Cmd, out_of_fuel, pure, ◌>>=◌}
use champ_trie.Bits.{count_ones}
use champ_trie.Node.{Node, Idx, inner, collision, offset}
use champ_trie.Store.{ChampStore}
use champ_trie.Ops.{get_node, get_entry, get_child}

module _ {ℓ} {K V : Type ℓ} (S : ChampStore K V) where
  open S use {Store}

  unfoldable pub push_entries : ℕ → Idx → ℕ → List (K × V) → Cmd Store (List (K × V))
  push_entries zero start i out = pure out
  push_entries (suc rounds) start i out = do
    e ← get_entry S (offset start i)
    push_entries rounds start (i + 1) (out ++ (e.key, e.value) ∷ [])

  unfoldable pub collect_children :
      (Idx → List (K × V) → Cmd Store (List (K × V)))
      → ℕ
      → Idx
      → ℕ
      → List (K × V)
      → Cmd Store (List (K × V))
  collect_children descend zero start i out = pure out
  collect_children descend (suc rounds) start i out = do
    child ← get_child S (offset start i)
    out' ← descend child out
    collect_children descend rounds start (i + 1) out'

  unfoldable pub collect_at :
      (Idx → List (K × V) → Cmd Store (List (K × V)))
      → Node
      → List (K × V)
      → Cmd Store (List (K × V))
  collect_at descend (inner data_map node_map data_start children_start _) out = do
    out' ← push_entries (count_ones data_map) data_start 0 out
    collect_children descend (count_ones node_map) children_start 0 out'
  collect_at descend (collision _ entries_start entries_len _) out =
      push_entries entries_len entries_start 0 out

  unfoldable pub collect : ℕ → Idx → List (K × V) → Cmd Store (List (K × V))
  collect zero node_idx out = λ _. out_of_fuel
  collect (suc fuel) node_idx out = do
    node ← get_node S node_idx
    collect_at (λ child out'. collect fuel child out') node out
