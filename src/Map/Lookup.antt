-- ===== src/Map/Lookup.antt =====
-- `contains_key` and `map[key]`.
use champ_trie.Prelude.{◌≡◌, refl, ap, Bool, Option, none, some, ok, panic, Run, ◌>>=◌}
use champ_trie.Hashing.{Hash, Key}
use champ_trie.Store.{ChampStore, IsChampStore}
use champ_trie.Trie.{Trie}
use champ_trie.Map.{ChampMap, contains_key, at_key, is_some}
use champ_trie.Map.Holds.{Holds, get_ok}
use champ_trie.Trie.Model
use champ_trie.Trie.Lookup.{hash_of}

module _ {ℓ} {K V : Type ℓ} (S : ChampStore K V) (m : ChampMap S) where
  -- `map[key]` on what the map has under the key.
  abbrev pub found_or_panic : Option V → Run (ChampMap S) V
  found_or_panic none = panic
  found_or_panic (some v) = ok v m

module _ {ℓ} {K V : Type ℓ} ⦃key : Key K⦄ ⦃h : Hash V⦄ (S : ChampStore K V) (law : IsChampStore S)
    (m : ChampMap S) (t : Trie K V) (k : K) (holds : Holds S law m t) where
  -- On a map that holds a tree, `contains_key` returns whether the tree has a value under the key,
  -- and indexing by the key returns that value, or panics when there is none.
  pub lookups_ok :
      (contains_key S k m ≡ ok (is_some (Model.get t (hash_of k) k 0)) m)
      × (at_key S k m ≡ found_or_panic S m (Model.get t (hash_of k) k 0))
  unfolding contains_key at_key
  lookups_ok = (
    rw (get_ok S law m t k holds) refl,
    rw (get_ok S law m t k holds) (expected (Model.get t (hash_of k) k 0)),
  )
    where
      expected : (o : Option V) → champ_trie.Prelude.expect o m ≡ found_or_panic S m o
      expected none = refl
      expected (some v) = refl
