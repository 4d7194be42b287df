-- ===== src/Examples/Traversal.antt =====
-- Runs of the theorems on iterators.
use champ_trie.Prelude.{ℕ, ◌≡◌, none, some, [], ◌∷◌, ◌++◌, ok, suc, map}
use champ_trie.Examples.{lists, lists-IsChampStore, nat_hash, nat_key, one_run, one_map, one_tree}
use champ_trie.Map.{get, len}
use champ_trie.Map.Iterator.{Iter, iter}
use champ_trie.Map.Traversal.{yields, lookup_pairs, get-iter, yields-iter}

get-iter_example :
    (it : Iter ℕ ℕ) × (iter lists one_map ≡ ok it one_map)
    × ((q : ℕ) → get lists q one_map ≡ ok (lookup_pairs it.entries q) one_map)
get-iter_example = get-iter lists lists-IsChampStore one_map one_tree one_run.holds

yields-iter_example :
    (it : Iter ℕ ℕ) × (iter lists one_map ≡ ok it one_map)
    × (yields (suc (len lists one_map)) it ≡ map some it.entries ++ none ∷ [])
yields-iter_example = yields-iter lists lists-IsChampStore one_map one_tree one_run.holds
