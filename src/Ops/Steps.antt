-- ===== src/Ops/Steps.antt =====
-- The single reads and allocations on a store that keeps its contract.
use champ_trie.Prelude.{
  ◌+◌, ◌<◌, ◌≡◌, ap, ◌∙◌, some, List, [], ◌∷◌, ◌++◌, ok, length, get_elem?, get_elem?-append_right,
  arith,
}
use champ_trie.Node.{Entry, Node, Idx}
use champ_trie.Store.{ChampStore, IsChampStore, Extends, block_start}
use champ_trie.Store.Views.{Extends-nodes, Extends-entries, Extends-children}
use champ_trie.Ops.{get_node, get_entry, get_child, alloc_node, alloc_entries, alloc_children}
use champ_trie.Ops.Blocks.{clone_entry, alloc_or_sentinel}
use champ_trie.Store.Block.{Block}

-- What is appended stands behind what was there.
pub Block-append {ℓ} : {A : Type ℓ} (xs ys : List A) → Block (xs ++ ys) (length xs) ys
Block-append xs ys i x h = get_elem?-append_right xs ys i ∙ h

pub get_elem?-append_last {ℓ} :
    {A : Type ℓ} (xs : List A) (x : A) → get_elem? (xs ++ x ∷ []) (length xs) ≡ some x
get_elem?-append_last xs x =
    let e : length xs ≡ length xs + 0 = omega arith in rw e (get_elem?-append_right xs (x ∷ []) 0)

module _ {ℓ} {K V : Type ℓ} (S : ChampStore K V) (law : IsChampStore S) where
  open S use {Store}
  open law use {view}

  pub get_node_ok :
      (s : Store) (i : Idx) (n : Node)
      → get_elem? (view s).nodes i ≡ some n
      → get_node S i s ≡ ok n s
  unfolding get_node
  get_node_ok s i n h = rw (law.get_node_lem s i, h)

  pub get_entry_ok :
      (s : Store) (i : Idx) (e : Entry K V)
      → get_elem? (view s).entries i ≡ some e
      → get_entry S i s ≡ ok e s
  unfolding get_entry
  get_entry_ok s i e h = rw (law.get_entry_lem s i, h)

  pub clone_entry_ok :
      (s : Store) (i : Idx) (e : Entry K V)
      → get_elem? (view s).entries i ≡ some e
      → clone_entry S i s ≡ ok e s
  unfolding clone_entry
  clone_entry_ok s i e h = rw (get_entry_ok s i e h)

  pub get_child_ok :
      (s : Store) (i c : Idx) → get_elem? (view s).children i ≡ some c → get_child S i s ≡ ok c s
  unfolding get_child
  get_child_ok s i c h = rw (law.get_child_lem s i, h)

  -- After an allocation of a node.
  abbrev pub node_store : Store → Node → Store
  node_store s n = (S.alloc_node s n).1

  pub alloc_node_ok :
      (s : Store) (n : Node) → alloc_node S n s ≡ ok (length (view s).nodes) (node_store s n)
  unfolding alloc_node
  alloc_node_ok s n = ap (λ i. ok i (node_store s n)) (law.node_index s n)

  pub node_stored :
      (s : Store) (n : Node)
      → get_elem? (view (node_store s n)).nodes (length (view s).nodes) ≡ some n
  node_stored s n = rw (law.node_view s n) (get_elem?-append_last (view s).nodes n)

  pub node-Extends : (s : Store) (n : Node) → Extends (view s) (view (node_store s n))
  node-Extends s n = rw (law.node_view s n) (Extends-nodes (view s) (n ∷ []))

  abbrev pub entries_store : Store → List (Entry K V) → Store
  entries_store s xs = (S.alloc_entries s xs).1

  pub alloc_entries_ok :
      (s : Store) (xs : List (Entry K V))
      → 0 < length xs
      → alloc_entries S xs s ≡ ok (some (length (view s).entries)) (entries_store s xs)
  unfolding alloc_entries
  alloc_entries_ok s [] h = absurd (omega arith)
  alloc_entries_ok s (x ∷ xs) h =
      ap (λ i. ok i (entries_store s (x ∷ xs))) (law.entries_index s (x ∷ xs))

  pub entries_stored :
      (s : Store) (xs : List (Entry K V))
      → Block (view (entries_store s xs)).entries (length (view s).entries) xs
  entries_stored s xs = rw (law.entries_view s xs) (Block-append (view s).entries xs)

  -- An empty block is never read.
  pub alloc_entries_any :
      (s : Store) (xs : List (Entry K V))
      → alloc_entries S xs s ≡ ok (block_start (length (view s).entries) xs) (entries_store s xs)
  unfolding alloc_entries
  alloc_entries_any s xs = ap (λ i. ok i (entries_store s xs)) (law.entries_index s xs)

  pub alloc_entries_at :
      (s : Store) (xs : List (Entry K V))
      → Block
          (view (entries_store s xs)).entries
          (alloc_or_sentinel (block_start (length (view s).entries) xs))
          xs
  unfolding alloc_or_sentinel
  alloc_entries_at s [] i x h = absurd (ground arith)
  alloc_entries_at s (x ∷ xs) i y h = entries_stored s (x ∷ xs) i y h

  pub entries-Extends :
      (s : Store) (xs : List (Entry K V)) → Extends (view s) (view (entries_store s xs))
  entries-Extends s xs = rw (law.entries_view s xs) (Extends-entries (view s) xs)

  abbrev pub children_store : Store → List Idx → Store
  children_store s xs = (S.alloc_children s xs).1

  pub alloc_children_ok :
      (s : Store) (xs : List Idx)
      → 0 < length xs
      → alloc_children S xs s ≡ ok (some (length (view s).children)) (children_store s xs)
  unfolding alloc_children
  alloc_children_ok s [] h = absurd (omega arith)
  alloc_children_ok s (x ∷ xs) h =
      ap (λ i. ok i (children_store s (x ∷ xs))) (law.children_index s (x ∷ xs))

  pub children_stored :
      (s : Store) (xs : List Idx)
      → Block (view (children_store s xs)).children (length (view s).children) xs
  children_stored s xs = rw (law.children_view s xs) (Block-append (view s).children xs)

  pub alloc_children_any :
      (s : Store) (xs : List Idx)
      → alloc_children S xs s ≡ ok (block_start (length (view s).children) xs) (children_store s xs)
  unfolding alloc_children
  alloc_children_any s xs = ap (λ i. ok i (children_store s xs)) (law.children_index s xs)

  pub alloc_children_at :
      (s : Store) (xs : List Idx)
      → Block
          (view (children_store s xs)).children
          (alloc_or_sentinel (block_start (length (view s).children) xs))
          xs
  unfolding alloc_or_sentinel
  alloc_children_at s [] i x h = absurd (ground arith)
  alloc_children_at s (x ∷ xs) i y h = children_stored s (x ∷ xs) i y h

  pub children-Extends : (s : Store) (xs : List Idx) → Extends (view s) (view (children_store s xs))
  children-Extends s xs = rw (law.children_view s xs) (Extends-children (view s) xs)
