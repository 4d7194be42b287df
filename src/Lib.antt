-- ===== src/Lib.antt =====
-- champ-trie: a persistent hash map on a CHAMP trie (compressed hash-array mapped prefix trie), with
-- copy-on-write nodes in three arenas, checkpoints, and an incremental hash of the contents.
--
-- The parts, and the files that model them (paths from the repository's root):
--   src/node.rs, src/adhash.rs        Node, Node/Bitmap, Hashing, Hashing/*, Bits, Bits/*,
--                                     Trie/Levels
--   src/store.rs, src/arena.rs        Store (the trait, and what it promises), Store/Arena, Store/*
--   src/arena_sync.rs                 Store/ArenaSync
--   src/ops/get.rs                    Ops/Get, Ops/Get/Refines
--   src/ops/insert.rs                 Ops/Insert, Ops/Blocks, Ops/Insert/*, Ops/Blocks/*
--   src/ops/remove.rs                 Ops/Remove, Ops/Remove/*
--   src/iter.rs                       Ops/Collect, Ops/Collect/Refines, Map/Iterator, Map/Iteration,
--                                     Map/Traversal
--   src/map.rs, src/lib.rs            Map, Map/*
--   src/map_sync.rs                   Map/Sync
-- src/arena_sync.rs and src/map_sync.rs repeat src/arena.rs and src/map.rs over another arena type of
-- `safe_bump`; Store/ArenaSync and Map/Sync are those definitions at another value of the arena
-- parameter. Every method that changes a map takes `&mut self`, so that calls come one after the
-- other.
--
-- How the parts interact. A map (`ChampMap`) keeps a store, the index of its root node, its size and
-- its `AdHash`. `get`, `insert` and `remove` start a recursion at the root; each step reads a node,
-- takes five bits of the hash, tests the two bitmaps and goes on in a block of entries or of child
-- indices. `insert` and `remove` allocate changed copies of the blocks and of every node on the path.
-- The code of src/ops is generic over the trait `ChampStore`: here a record of operations, which the
-- definitions take as a parameter. `IsChampStore` is its contract, and `Store/Arena` has the
-- backend over three arenas.
--
-- Model. A function on `&mut S` is a command: it takes the store and returns a result and the new
-- store, or it panics, or it has spent its fuel. Arenas are sequences, an index is a position.
-- Numbers are natural numbers with the wrap-around of u32 and u64 written out. `size` is not bounded.
-- Recursion over the levels of the trie runs on fuel: a path has at most thirteen inner nodes (shifts 0
-- to 60) and a collision node, and the map starts with fuel 14 (`levels`).
-- Trie and Trie/* describe what the arenas hold as a tree: `Repr` relates a node index to a tree,
-- `IsTrie` is the shape of the trees of the map (each entry on the path of its hash, two or more entries
-- below a subtree, collision nodes of two to 255 entries of one hash under different keys), and
-- `Holds` relates a map to its tree. Trie/Model has lookup and insertion on trees,
-- Trie/Remove removal, Trie/Search a lookup as a search through all entries. Map/Session is a
-- sequence of calls on a map beside the same calls on a tree, and Map/Reach the maps that calls and
-- rollbacks reach.
--
-- Parameters, since they are not part of the crate: `safe_bump`'s arenas with their documented
-- behaviour (`Arena`, `IsArena`), and the `Hash` and `Eq` of keys and values with `DefaultHasher`
-- (`Hash`, `Key`): a digest is a 64-bit word, equality is an equivalence, and equal keys have equal
-- digests.
--
-- Not modelled: the `Debug` and `Clone` implementations, `unreachable!` in `inline_child` other than
-- as a panic, threads that read one `ChampMapSync` at a time, and allocation failure.
pub mod Prelude
pub mod Bits
pub mod Hashing
pub mod Node
pub mod Store
pub mod Ops
pub mod Trie
pub mod Map
pub mod Examples
