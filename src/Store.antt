-- ===== src/Store.antt =====
-- store.rs: the trait `ChampStore`, and what an implementation of it promises: three arenas that
-- only grow, read back what was allocated, and shrink on a rollback alone.
pub mod Arena
pub mod ArenaSync
pub mod Block
pub mod Views
use champ_trie.Prelude.{
  ℕ, suc, ◌+◌, ◌≡◌, Option, none, some, List, [], ◌∷◌, ◌++◌, length, get_elem?,
}
use champ_trie.Node.{Entry, Node, Idx}

-- The trait's methods, with the backend's `new`. An index out of range panics: a read gives `none`.
pub record ChampStore {ℓ} (K V : Type ℓ) : Type (ℓ + 1) where
  pub Store : Type ℓ
  pub StoreCheckpoint : Type ℓ
  pub new : Store
  pub alloc_node : Store → Node → Idx × Store
  pub get_node : Store → Idx → Option Node
  pub alloc_entries : Store → List (Entry K V) → Option Idx × Store
  pub get_entry : Store → Idx → Option (Entry K V)
  pub alloc_children : Store → List Idx → Option Idx × Store
  pub get_child : Store → Idx → Option Idx
  pub checkpoint : Store → StoreCheckpoint
  pub rollback : Store → StoreCheckpoint → Store
  pub arena_len : Store → ℕ × ℕ × ℕ

-- The contents of the three arenas, in the order of allocation.
pub record Arenas {ℓ} (K V : Type ℓ) : Type ℓ where
  pub nodes : List Node
  pub entries : List (Entry K V)
  pub children : List Idx

-- Where a block lands: after what is there. An empty block has no place.
abbrev pub block_start {ℓ} : {A : Type ℓ} → ℕ → List A → Option Idx
block_start n [] = none
block_start n (_ ∷ _) = some n

-- `ys` begins with `xs`.
abbrev pub Grows {ℓ} : {A : Type ℓ} → List A → List A → Type ℓ
Grows {A} xs ys = (rest : List A) × (ys ≡ xs ++ rest)

pub record Extends {ℓ} {K V : Type ℓ} (v w : Arenas K V) : Type ℓ where
  pub nodes_grow : Grows v.nodes w.nodes
  pub entries_grow : Grows v.entries w.entries
  pub children_grow : Grows v.children w.children

-- The contract of a backend.
pub record IsChampStore {ℓ} {K V : Type ℓ} (S : ChampStore K V) : Type ℓ where
  pub view : S.Store → Arenas K V
  pub view-new : view S.new ≡ record { nodes = []; entries = []; children = [] }
  pub node_index : (s : S.Store) (n : Node) → (S.alloc_node s n).0 ≡ length (view s).nodes
  pub node_view :
      (s : S.Store) (n : Node)
      → view (S.alloc_node s n).1 ≡ record (view s) { nodes = (view s).nodes ++ n ∷ [] }
  pub get_node_lem : (s : S.Store) (i : Idx) → S.get_node s i ≡ get_elem? (view s).nodes i
  pub entries_index :
      (s : S.Store) (xs : List (Entry K V))
      → (S.alloc_entries s xs).0 ≡ block_start (length (view s).entries) xs
  pub entries_view :
      (s : S.Store) (xs : List (Entry K V))
      → view (S.alloc_entries s xs).1 ≡ record (view s) { entries = (view s).entries ++ xs }
  pub get_entry_lem : (s : S.Store) (i : Idx) → S.get_entry s i ≡ get_elem? (view s).entries i
  pub children_index :
      (s : S.Store) (xs : List Idx)
      → (S.alloc_children s xs).0 ≡ block_start (length (view s).children) xs
  pub children_view :
      (s : S.Store) (xs : List Idx)
      → view (S.alloc_children s xs).1 ≡ record (view s) { children = (view s).children ++ xs }
  pub get_child_lem : (s : S.Store) (i : Idx) → S.get_child s i ≡ get_elem? (view s).children i
  pub rollback-checkpoint :
      (s t : S.Store) → Extends (view s) (view t) → view (S.rollback t (S.checkpoint s)) ≡ view s
  pub arena_len_lem :
      (s : S.Store)
      → S.arena_len s ≡ (length (view s).nodes, length (view s).entries, length (view s).children)
