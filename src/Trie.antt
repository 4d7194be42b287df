-- ===== src/Trie.antt =====
-- The trie that the arenas hold, as a tree: a node is the sequence of its positions, and a position
-- is empty, holds an entry, or holds a subtree. `Trie/Repr` ties a tree to the nodes of a store.
pub mod Positions
pub mod Model
pub mod Shape
pub mod Lookup
pub mod Insertion
pub mod Weight
pub mod Preserve
pub mod Repr
pub mod Bitmaps
pub mod Fresh
pub mod Paths
pub mod Levels
pub mod Induction
pub mod Entries
pub mod Search
pub mod Split
pub mod Canonical
pub mod Remove
use champ_trie.Prelude.{
  ℕ, zero, suc, Bool, true, false, List, [], ◌∷◌, count_true, take, if◌then◌else◌,
}
use champ_trie.Node.{Entry}

mutual
  pub data Trie {ℓ} (K V : Type ℓ) : Type ℓ where
    inner : Slots K V → Trie K V
    collision : ℕ → List (Entry K V) → Trie K V

  pub data Slot {ℓ} (K V : Type ℓ) : Type ℓ where
    vacant : Slot K V
    entry : Entry K V → Slot K V
    subtree : Trie K V → Slot K V

  pub data Slots {ℓ} (K V : Type ℓ) : Type ℓ where
    end : Slots K V
    cons : Slot K V → Slots K V → Slots K V

module _ {ℓ} {K V : Type ℓ} where
  abbrev pub is_entry : Slot K V → Bool
  is_entry (entry e) = true
  is_entry vacant = false
  is_entry (subtree t) = false

  abbrev pub is_subtree : Slot K V → Bool
  is_subtree (subtree t) = true
  is_subtree vacant = false
  is_subtree (entry e) = false

  abbrev pub width : Slots K V → ℕ
  width end = 0
  width (cons s sl) = suc (width sl)

  abbrev pub slot_at : Slots K V → ℕ → Slot K V
  slot_at end f = vacant
  slot_at (cons s sl) zero = s
  slot_at (cons s sl) (suc f) = slot_at sl f

  abbrev pub put : Slots K V → ℕ → Slot K V → Slots K V
  put end f x = end
  put (cons s sl) zero x = cons x sl
  put (cons s sl) (suc f) x = cons s (put sl f x)

  abbrev pub blank : ℕ → Slots K V
  blank zero = end
  blank (suc n) = cons vacant (blank n)

  -- The 32 positions of a node that holds nothing.
  unfoldable pub no_slots : Slots K V
  no_slots = blank 32

  -- The flags of the two bitmaps.
  abbrev pub data_flags : Slots K V → List Bool
  data_flags end = []
  data_flags (cons s sl) = is_entry s ∷ data_flags sl

  abbrev pub node_flags : Slots K V → List Bool
  node_flags end = []
  node_flags (cons s sl) = is_subtree s ∷ node_flags sl

  -- The inline entries, in the order of their positions.
  abbrev pub add_item : Slot K V → List (Entry K V) → List (Entry K V)
  add_item (entry e) es = e ∷ es
  add_item vacant es = es
  add_item (subtree t) es = es

  abbrev pub items : Slots K V → List (Entry K V)
  items end = []
  items (cons s sl) = add_item s (items sl)

  -- The number of entries, and of subtrees, below a position.
  abbrev pub data_rank : Slots K V → ℕ → ℕ
  data_rank sl f = count_true (take f (data_flags sl))

  abbrev pub node_rank : Slots K V → ℕ → ℕ
  node_rank sl f = count_true (take f (node_flags sl))
