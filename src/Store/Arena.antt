-- ===== src/Store/Arena.antt =====
-- arena.rs: the backend over three arenas. `safe_bump` is not part of the crate: an arena is a
-- parameter, with the behaviour that its documentation promises. `ChampArenaSync` of arena_sync.rs
-- has the same text over `SharedArena`, which is another value of that parameter.
use champ_trie.Prelude.{ℕ, ◌≡◌, refl, Option, List, [], ◌∷◌, ◌++◌, length, get_elem?}
use champ_trie.Node.{Entry, Node, Idx}
use champ_trie.Store.{ChampStore, block_start, Grows, IsChampStore}

-- `safe_bump::Arena<T>`, or `SharedArena<T>`
pub record Arena {ℓ} (T : Type ℓ) : Type (ℓ + 1) where
  pub Carrier : Type ℓ
  pub Checkpoint : Type ℓ
  pub new : Carrier
  pub alloc : Carrier → T → Idx × Carrier
  pub alloc_extend : Carrier → List T → Option Idx × Carrier
  pub get : Carrier → Idx → Option T
  pub len : Carrier → ℕ
  pub checkpoint : Carrier → Checkpoint
  pub rollback : Carrier → Checkpoint → Carrier

-- An arena is a sequence that grows at its end, and that a rollback cuts.
pub record IsArena {ℓ} {T : Type ℓ} (A : Arena T) : Type ℓ where
  pub contents : A.Carrier → List T
  pub contents-new : contents A.new ≡ []
  pub alloc_index : (a : A.Carrier) (x : T) → (A.alloc a x).0 ≡ length (contents a)
  pub alloc_contents : (a : A.Carrier) (x : T) → contents (A.alloc a x).1 ≡ contents a ++ x ∷ []
  pub extend_index :
      (a : A.Carrier) (xs : List T) → (A.alloc_extend a xs).0 ≡ block_start (length (contents a)) xs
  pub extend_contents :
      (a : A.Carrier) (xs : List T) → contents (A.alloc_extend a xs).1 ≡ contents a ++ xs
  pub get_lem : (a : A.Carrier) (i : Idx) → A.get a i ≡ get_elem? (contents a) i
  pub len_lem : (a : A.Carrier) → A.len a ≡ length (contents a)
  pub rollback-checkpoint :
      (a b : A.Carrier)
      → Grows (contents a) (contents b)
      → contents (A.rollback b (A.checkpoint a)) ≡ contents a

module _ {ℓ} {K V : Type ℓ} (N : Arena Node) (E : Arena (Entry K V)) (C : Arena Idx) where
  pub record ChampArena : Type ℓ where
    pub nodes : N.Carrier
    pub entries : E.Carrier
    pub children : C.Carrier

  pub record StoreCheckpoint : Type ℓ where
    pub nodes : N.Checkpoint
    pub entries : E.Checkpoint
    pub children : C.Checkpoint

  new : ChampArena
  new = record { nodes = N.new; entries = E.new; children = C.new }

  alloc_node : ChampArena → Node → Idx × ChampArena
  alloc_node s node = let (i, a) = N.alloc s.nodes node in (i, record s { nodes = a })

  get_node : ChampArena → Idx → Option Node
  get_node s idx = N.get s.nodes idx

  alloc_entries : ChampArena → List (Entry K V) → Option Idx × ChampArena
  alloc_entries s iter = let (i, a) = E.alloc_extend s.entries iter in (i, record s { entries = a })

  get_entry : ChampArena → Idx → Option (Entry K V)
  get_entry s idx = E.get s.entries idx

  alloc_children : ChampArena → List Idx → Option Idx × ChampArena
  alloc_children s iter =
      let (i, a) = C.alloc_extend s.children iter in (i, record s { children = a })

  get_child : ChampArena → Idx → Option Idx
  get_child s idx = C.get s.children idx

  checkpoint : ChampArena → StoreCheckpoint
  checkpoint s = record {
    nodes = N.checkpoint s.nodes;
    entries = E.checkpoint s.entries;
    children = C.checkpoint s.children;
  }

  rollback : ChampArena → StoreCheckpoint → ChampArena
  rollback s cp = record {
    nodes = N.rollback s.nodes cp.nodes;
    entries = E.rollback s.entries cp.entries;
    children = C.rollback s.children cp.children;
  }

  arena_len : ChampArena → ℕ × ℕ × ℕ
  arena_len s = (N.len s.nodes, E.len s.entries, C.len s.children)

  -- `impl ChampStore for ChampArena`
  unfoldable pub champ_arena : ChampStore K V
  unfolding new alloc_node get_node alloc_entries get_entry alloc_children get_child checkpoint
      rollback arena_len
  champ_arena = record {
    Store = ChampArena;
    StoreCheckpoint = StoreCheckpoint;
    new = new;
    alloc_node = alloc_node;
    get_node = get_node;
    alloc_entries = alloc_entries;
    get_entry = get_entry;
    alloc_children = alloc_children;
    get_child = get_child;
    checkpoint = checkpoint;
    rollback = rollback;
    arena_len = arena_len;
  }

  module _ (n : IsArena N) (e : IsArena E) (c : IsArena C) where
    -- When three arenas behave as sequences that grow at the end, the backend made of them keeps
    -- the contract of a store: reads give back what was allocated, allocations change nothing
    -- else, and a rollback to a checkpoint restores the contents.
    pub champ_arena-IsChampStore : IsChampStore champ_arena
    unfolding champ_arena
    champ_arena-IsChampStore = record {
      view = λ s. record {
        nodes = n.contents s.nodes;
        entries = e.contents s.entries;
        children = c.contents s.children;
      };
      view-new = simp (n.contents-new, e.contents-new, c.contents-new);
      node_index = λ s. n.alloc_index s.nodes;
      node_view = λ s x. simp (n.alloc_contents);
      get_node_lem = λ s. n.get_lem s.nodes;
      entries_index = λ s. e.extend_index s.entries;
      entries_view = λ s xs. simp (e.extend_contents);
      get_entry_lem = λ s. e.get_lem s.entries;
      children_index = λ s. c.extend_index s.children;
      children_view = λ s xs. simp (c.extend_contents);
      get_child_lem = λ s. c.get_lem s.children;
      rollback-checkpoint = λ s t x.
          rw
            (
              n.rollback-checkpoint s.nodes t.nodes x.nodes_grow,
              e.rollback-checkpoint s.entries t.entries x.entries_grow,
              c.rollback-checkpoint s.children t.children x.children_grow,
            )
            refl;
      arena_len_lem = λ s. rw (n.len_lem, e.len_lem, c.len_lem);
    }
