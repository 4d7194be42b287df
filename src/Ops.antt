-- ===== src/Ops.antt =====
-- The operations of src/ops on a store, in the order of the source: each function is a command on
-- the store that a backend gives, and the recursion of the source runs on fuel.
pub mod Blocks
pub mod Steps
pub mod Single
pub mod Rebuild
pub mod Get
pub mod Insert
pub mod Remove
pub mod Collect
use champ_trie.Prelude.{ℕ, Option, List, Cmd, expect, modify}
use champ_trie.Node.{Entry, Node, Idx}
use champ_trie.Store.{ChampStore}

-- The deepest path has thirteen inner nodes and one collision node.
abbrev pub levels : ℕ
levels = 14

module _ {ℓ} {K V : Type ℓ} (S : ChampStore K V) where
  open S use {Store}

  unfoldable pub get_node : Idx → Cmd Store Node
  get_node i s = expect (S.get_node s i) s

  unfoldable pub get_entry : Idx → Cmd Store (Entry K V)
  get_entry i s = expect (S.get_entry s i) s

  unfoldable pub get_child : Idx → Cmd Store Idx
  get_child i s = expect (S.get_child s i) s

  unfoldable pub alloc_node : Node → Cmd Store Idx
  alloc_node n = modify (λ s. S.alloc_node s n)

  unfoldable pub alloc_entries : List (Entry K V) → Cmd Store (Option Idx)
  alloc_entries xs = modify (λ s. S.alloc_entries s xs)

  unfoldable pub alloc_children : List Idx → Cmd Store (Option Idx)
  alloc_children xs = modify (λ s. S.alloc_children s xs)
