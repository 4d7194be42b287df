-- ===== src/Map.antt =====
-- map.rs: the map over a backend, and the saved state of lib.rs. A method that reads or changes the
-- map is a command on it. `ChampMapSync` of map_sync.rs has the same text over `ChampArenaSync`.
pub mod Iterator
pub mod Holds
pub mod Insertion
pub mod Removal
pub mod Overflow
pub mod Session
pub mod Reach
pub mod Sync
pub mod Traversal
pub mod Canonical
pub mod Sum
pub mod Rollback
pub mod Extension
pub mod Orders
pub mod Lookup
pub mod Iteration
use champ_trie.Prelude.{
  ℕ, zero, suc, ◌+◌, ◌-◌, Bool, true, false, Option, none, some, List, [], ◌∷◌, Run, Cmd, ok, panic,
  out_of_fuel, pure, expect, modify, ◌>>=◌, ◌==◌, if◌then◌else◌,
}
use champ_trie.Bits.{wrapping_add, wrapping_sub}
use champ_trie.Hashing.{Hash, Key, hash_one}
use champ_trie.Node.{Entry, Idx, inner, fragment, mask}
use champ_trie.Store.{ChampStore}
use champ_trie.Ops.{levels, alloc_node, alloc_entries}
use champ_trie.Ops.Get.{get_recursive}
use champ_trie.Ops.Insert.{InsertOutcome, contribution, insert_recursive}
use champ_trie.Ops.Remove.{RemoveOutcome, not_found, removed, remove_recursive}

unfoldable pub is_some {ℓ} : {A : Type ℓ} → Option A → Bool
is_some none = false
is_some (some _) = true

-- `if outcome.old_value.is_none() { self.size += 1; }`
unfoldable pub new_size {ℓ} : {A : Type ℓ} → ℕ → Option A → ℕ
new_size size none = size + 1
new_size size (some _) = size

module _ {ℓ} {K V : Type ℓ} (S : ChampStore K V) where
  pub record ChampMap : Type ℓ where
    pub store : S.Store
    pub root : Option Idx
    pub size : ℕ
    pub adhash : ℕ

  pub record ChampCheckpoint : Type ℓ where
    pub store : S.StoreCheckpoint
    pub root : Option Idx
    pub size : ℕ
    pub adhash : ℕ

  unfoldable pub new : ChampMap
  new = record { store = S.new; root = none; size = 0; adhash = 0 }

  -- `impl Default for ChampMap`
  unfoldable pub default : ChampMap
  default = new

  unfoldable pub len : ChampMap → ℕ
  len m = m.size

  unfoldable pub is_empty : ChampMap → Bool
  is_empty m = m.size == 0

  unfoldable pub adhash : ChampMap → ℕ
  adhash m = m.adhash

  unfoldable pub checkpoint : ChampMap → ChampCheckpoint
  checkpoint m = record {
    store = S.checkpoint m.store;
    root = m.root;
    size = m.size;
    adhash = m.adhash;
  }

  unfoldable pub arena_len : ChampMap → ℕ × ℕ × ℕ
  arena_len m = S.arena_len m.store

  unfoldable pub rollback : ChampMap → ChampCheckpoint → ChampMap
  rollback m cp = record {
    store = S.rollback m.store cp.store;
    root = cp.root;
    size = cp.size;
    adhash = cp.adhash;
  }

  -- A command on the store of the map, `&mut self.store` or `&self.store`.
  abbrev pub resume {κ} : {A : Type κ} → ChampMap → Run S.Store A → Run ChampMap A
  resume m (ok a s) = ok a (record m { store = s })
  resume m panic = panic
  resume m out_of_fuel = out_of_fuel

  abbrev pub with_store {κ} : {A : Type κ} → Cmd S.Store A → Cmd ChampMap A
  with_store c m = resume m (c m.store)

  module _ ⦃key : Key K⦄ where
    unfoldable pub get_from : Option Idx → K → Cmd ChampMap (Option V)
    get_from none k = pure none
    get_from (some root) k =
        with_store (get_recursive S levels root (hash_one ⦃h = key.hashed⦄ k) k 0)

    unfoldable pub get : K → Cmd ChampMap (Option V)
    get k m = get_from m.root k m

    unfoldable pub contains_key : K → Cmd ChampMap Bool
    contains_key k = do found ← get k; pure (is_some found)

    -- `map[key]`
    unfoldable pub at_key : K → Cmd ChampMap V
    at_key k = do found ← get k; expect found

  module _ ⦃key : Key K⦄ ⦃h : Hash V⦄ where
    unfoldable pub insert_from : Option Idx → Entry K V → Cmd ChampMap (Option V)
    insert_from (some root) entry = do
      outcome ← with_store (insert_recursive S levels root entry 0)
      modify (λ m. (
        outcome.old_value,
        record m {
          root = some outcome.node;
          adhash = wrapping_add m.adhash outcome.adhash_delta;
          size = new_size m.size outcome.old_value;
        },
      ))
    insert_from none entry = do
      let bit = mask (fragment entry.hash 0)
      block ← with_store (alloc_entries S (entry ∷ []))
      data_start ← expect block
      new_node ← with_store (alloc_node S (inner bit 0 data_start 0 (contribution entry)))
      modify (λ m. (none, record m { root = some new_node; size = 1; adhash = contribution entry }))

    unfoldable pub insert : K → V → Cmd ChampMap (Option V)
    insert k v m =
        let entry : Entry K V = record { hash = hash_one ⦃h = key.hashed⦄ k; key = k; value = v } in
        insert_from m.root entry m

    -- `self.size -= 1` panics at 0.
    unfoldable pub remove_outcome : RemoveOutcome V → Cmd ChampMap (Option V)
    remove_outcome not_found m = ok none m
    remove_outcome (removed node delta value) m =
        if m.size == 0
        then panic
        else ok (some value)
            (record m { root = node; size = m.size - 1; adhash = wrapping_sub m.adhash delta })

    unfoldable pub remove_from : Option Idx → K → Cmd ChampMap (Option V)
    remove_from none k = pure none
    remove_from (some root) k = do
      outcome ← with_store (remove_recursive S levels root (hash_one ⦃h = key.hashed⦄ k) k 0)
      remove_outcome outcome

    unfoldable pub remove : K → Cmd ChampMap (Option V)
    remove k m = remove_from m.root k m

    unfoldable pub extend : List (K × V) → Cmd ChampMap (Unit {ℓ})
    extend [] = pure tt
    extend ((k, v) ∷ iter) = do _ ← insert k v; extend iter

    unfoldable pub from_iter : List (K × V) → Run ChampMap (Unit {ℓ})
    from_iter iter = extend iter new
