-- ===== src/Map/Rollback.antt =====
-- `checkpoint` and `rollback`, after any allocations and after an insertion.
use champ_trie.Prelude.{◌≡◌, refl, false, Option, none, some, ok, Run}
use champ_trie.Hashing.{Hash, Key}
use champ_trie.Node.{Idx}
use champ_trie.Store.{ChampStore, IsChampStore, Extends}
use champ_trie.Trie.{Trie}
use champ_trie.Trie.Model
use champ_trie.Trie.Model.{overflows}
use champ_trie.Trie.Lookup.{hash_of}
use champ_trie.Trie.Repr.{Repr-extends}
use champ_trie.Map.{ChampMap, checkpoint, rollback, insert, remove, get, len, adhash, arena_len}
use champ_trie.Map.Holds.{Holds, Rooted, answer, get_ok}
use champ_trie.Map.Insertion.{Grown, entry_of, insert_ok}
use champ_trie.Map.Removal.{remove_ok}

module _ {ℓ} {K V : Type ℓ} ⦃key : Key K⦄ ⦃h : Hash V⦄ (S : ChampStore K V)
    (law : IsChampStore S) where
  open law use {view}

  module _ (m later : ChampMap S) (grown : Extends (view m.store) (view later.store)) where
    -- When the arenas of a later map extend those of a map that holds a tree, the later map rolled
    -- back to a checkpoint of the earlier one holds that tree.
    pub rollback-Holds :
        (t : Trie K V) → Holds S law m t → Holds S law (rollback S later (checkpoint S m)) t
    unfolding rollback checkpoint
    rollback-Holds t holds = record {
      shape = holds.shape;
      rooted = rw (law.rollback-checkpoint m.store later.store grown) (holds.rooted);
      size_lem = holds.size_lem;
      adhash_lem = holds.adhash_lem;
    }

    -- A rollback gives back what was allocated since: the arenas have the lengths that they had.
    pub arena_len-rollback : arena_len S (rollback S later (checkpoint S m)) ≡ arena_len S m
    unfolding rollback checkpoint arena_len
    arena_len-rollback =
        rw
          (
            law.arena_len_lem (S.rollback later.store (S.checkpoint m.store)),
            law.rollback-checkpoint m.store later.store grown,
            law.arena_len_lem m.store,
          )
          refl

    -- The tree of an older version stands in every later store.
    pub Rooted-grown :
        (t : Trie K V) (root : Option Idx)
        → Rooted (view m.store) root t
        → Rooted (view later.store) root t
    Rooted-grown t none r = r
    Rooted-grown t (some root) r = Repr-extends grown t root r

  -- After a run that grows the map.
  module _ (m : ChampMap S) (t u : Trie K V) (old : Option V) (run : Run (ChampMap S) (Option V))
      (holds : Holds S law m t) (grown : Grown S law m t u old run) where
    abbrev restored : ChampMap S
    restored = rollback S grown.after (checkpoint S m)

    abbrev older : ChampMap S
    older = record m { store = grown.after.store }

    restored_ok :
        (q : K)
        → (answer (get S q restored) ≡ answer (get S q m))
          × (len S restored ≡ len S m)
          × (adhash S restored ≡ adhash S m)
          × (arena_len S restored ≡ arena_len S m)
    restored_ok q =
        let back = rollback-Holds m grown.after grown.extends t holds in
        (
          rw (get_ok S law restored t q back, get_ok S law m t q holds) refl,
          (unfold rollback checkpoint len in refl),
          (unfold rollback checkpoint adhash in refl),
          arena_len-rollback m grown.after grown.extends,
        )

    older_ok : (q : K) → answer (get S q older) ≡ answer (get S q m)
    older_ok q =
        let kept : Holds S law older t = record {
          shape = holds.shape;
          rooted = Rooted-grown m grown.after grown.extends t m.root holds.rooted;
          size_lem = holds.size_lem;
          adhash_lem = holds.adhash_lem;
        } in
        rw (get_ok S law older t q kept, get_ok S law m t q holds) refl

  -- On a map that holds a tree, when the insertion would not give a collision node its 256th
  -- entry: `insert` returns, and a rollback of the map to its checkpoint gives back every answer
  -- of `get`, the length, the `AdHash` and the lengths of the arenas.
  pub rollback-insert :
      (m : ChampMap S) (t : Trie K V) (k : K) (v : V) (holds : Holds S law m t)
      (room : overflows t (entry_of k v) 0 ≡ false) (q : K)
      → let after = (insert_ok S law m t k v holds room).after in
        let restored = rollback S after (checkpoint S m) in
        (insert S k v m ≡ ok (Model.get t (hash_of k) k 0) after)
        × (answer (get S q restored) ≡ answer (get S q m))
        × (len S restored ≡ len S m)
        × (adhash S restored ≡ adhash S m)
        × (arena_len S restored ≡ arena_len S m)
  rollback-insert m t k v holds room q =
      let run = insert_ok S law m t k v holds room in
      let (answers, length, sum, arenas) = restored_ok m t _ _ _ holds run q in
      (run.returns, answers, length, sum, arenas)

  -- On a map that holds a tree, when the insertion would not give a collision node its 256th
  -- entry: `insert` returns, and the root that the map had before it, in the store that it left,
  -- still answers every key as it did.
  pub insert-persistent :
      (m : ChampMap S) (t : Trie K V) (k : K) (v : V) (holds : Holds S law m t)
      (room : overflows t (entry_of k v) 0 ≡ false) (q : K)
      → let after = (insert_ok S law m t k v holds room).after in
        (insert S k v m ≡ ok (Model.get t (hash_of k) k 0) after)
        × (answer (get S q (record m { store = after.store })) ≡ answer (get S q m))
  insert-persistent m t k v holds room q =
      let run = insert_ok S law m t k v holds room in (run.returns, older_ok m t _ _ _ holds run q)

  -- On a map that holds a tree: `remove` returns. The root that the map had before it, in the
  -- store that it left, still answers every key as it did, and a rollback of the map to its
  -- checkpoint gives back every answer of `get`, the length, the `AdHash` and the lengths of the
  -- arenas.
  pub rollback-remove :
      (m : ChampMap S) (t : Trie K V) (k : K) (holds : Holds S law m t) (q : K)
      → let after = (remove_ok S law m t k holds).after in
        let restored = rollback S after (checkpoint S m) in
        let older = record m { store = after.store } in
        (remove S k m ≡ ok (Model.get t (hash_of k) k 0) after)
        × (answer (get S q older) ≡ answer (get S q m))
        × (answer (get S q restored) ≡ answer (get S q m))
        × (len S restored ≡ len S m)
        × (adhash S restored ≡ adhash S m)
        × (arena_len S restored ≡ arena_len S m)
  rollback-remove m t k holds q =
      let run = remove_ok S law m t k holds in
      let (answers, length, sum, arenas) = restored_ok m t _ _ _ holds run q in
      (run.returns, older_ok m t _ _ _ holds run q, answers, length, sum, arenas)
