-- ===== src/Map/Sum.antt =====
-- The `AdHash` of a map against the pairs that its iterator yields.
use champ_trie.Prelude.{
  ℕ, ◌+◌, ◌%◌, ◌^◌, ◌≡◌, refl, sym, ◌∙◌, List, [], ◌∷◌, ok, length, map, arith,
}
use champ_trie.Hashing.{Hash, Key, hash_one, entry_adhash}
use champ_trie.Node.{Entry}
use champ_trie.Store.{ChampStore, IsChampStore}
use champ_trie.Ops.Collect.Refines.{pair}
use champ_trie.Ops.Insert.{contribution}
use champ_trie.Trie.Entries.{entries-AllPlaced}
use champ_trie.Trie.Model.{entries, total, trie_adhash}
use champ_trie.Trie.Shape.{AllPlaced}
use champ_trie.Map.{ChampMap, new, adhash, len}
use champ_trie.Map.Holds.{adhash_ok}
use champ_trie.Map.Iteration.{at_first, length-map-pair}
use champ_trie.Map.Iterator.{Iter, iter}
use champ_trie.Map.Reach.{Reach, reached-Holds}
use champ_trie.Map.Traversal.{iter_run}

module _ {ℓ} {K V : Type ℓ} ⦃key : Key K⦄ ⦃h : Hash V⦄ where
  -- The contributions of pairs, their keys and values hashed anew.
  unfoldable pub pairs_adhash : List (K × V) → ℕ
  pairs_adhash [] = 0
  pairs_adhash ((k, v) ∷ ps) =
      entry_adhash (hash_one ⦃h = key.hashed⦄ k) (hash_one v) + pairs_adhash ps

  pairs_adhash-map :
      (es : List (Entry K V)) (shift p : ℕ)
      → AllPlaced es shift p
      → pairs_adhash (map pair es) ≡ total es
  unfolding pairs_adhash total contribution hash_one
  pairs_adhash-map [] shift p a = refl
  pairs_adhash-map (e ∷ es) shift p a = rw (a.0.hash_lem, pairs_adhash-map es shift p a.1) refl

  module _ (S : ChampStore K V) (law : IsChampStore S) where
    -- On every map that is reached from a new one by insertions and removals that returned and by
    -- rollbacks to checkpoints taken on the way: the iterator is made and leaves the map alone,
    -- the length of the map is the number of its pairs, and the `AdHash` that the map keeps is the
    -- sum of the contributions of these pairs, computed anew from their keys and values, as a
    -- 64-bit word.
    pub reached-adhash :
        (m : ChampMap S)
        → Reach S (new S) m
        → (it : Iter K V) × (iter S m ≡ ok it m)
          × (len S m ≡ length it.entries)
          × (adhash S m ≡ pairs_adhash it.entries % 2 ^ 64)
    unfolding len trie_adhash
    reached-adhash m r =
        let (t, holds) = reached-Holds S law m r in
        let all = entries-AllPlaced t 0 0 holds.shape (omega arith) in
        (
          at_first t,
          iter_run S law m t holds,
          holds.size_lem ∙ sym (length-map-pair (entries t)),
          rw (pairs_adhash-map (entries t) 0 0 all) (adhash_ok S law m t holds),
        )
