-- ===== src/Map/Iteration.antt =====
-- The iterator of a map that holds a tree.
use champ_trie.Prelude.{
  suc, ◌-◌, ◌≡◌, refl, ap, Option, none, some, List, [], ◌∷◌, map, ok, length, arith,
}
use champ_trie.Hashing.{Hash, Key}
use champ_trie.Node.{Entry, Idx}
use champ_trie.Store.{ChampStore, IsChampStore}
use champ_trie.Ops.Collect.Refines.{pair, collect_ok}
use champ_trie.Trie.{Trie, no_slots}
use champ_trie.Trie.Model.{entries}
use champ_trie.Trie.Shape.{IsTrie}
use champ_trie.Map.{ChampMap, len}
use champ_trie.Map.Iterator.{Iter, new_iter, size_hint}
use champ_trie.Map.Holds.{Holds, Rooted}

module _ {ℓ} {K V : Type ℓ} where
  -- An iterator at the first entry of a tree.
  abbrev pub at_first : Trie K V → Iter K V
  at_first t = record { entries = map pair (entries t); pos = 0 }

  pub length-map-pair : (es : List (Entry K V)) → length (map pair es) ≡ length es
  length-map-pair [] = refl
  length-map-pair (e ∷ es) = ap suc (length-map-pair es)

module _ {ℓ} {K V : Type ℓ} ⦃key : Key K⦄ ⦃h : Hash V⦄ (S : ChampStore K V) (law : IsChampStore S)
    (s : S.Store) (t : Trie K V) where
  new_iter_ok :
      (root : Option Idx)
      → IsTrie t 0 0
      → Rooted (law.view s) root t
      → new_iter S root s ≡ ok (at_first t) s
  unfolding new_iter entries no_slots
  new_iter_ok none a r = rw r refl
  new_iter_ok (some root) a r =
      rw (collect_ok S law s 14 13 t root 0 0 [] (omega arith) (omega arith) a r) refl

module _ {ℓ} {K V : Type ℓ} ⦃key : Key K⦄ ⦃h : Hash V⦄ (S : ChampStore K V) (law : IsChampStore S)
    (m : ChampMap S) (t : Trie K V) where
  -- On a map that holds a tree, the iterator is made, leaves the store alone, and stands before
  -- all entries of the tree, each once, with those of a node before those of its subtrees, and its
  -- size hint is the length of the map.
  pub iter_ok :
      Holds S law m t
      → (new_iter S m.root m.store ≡ ok (at_first t) m.store)
        × (size_hint (at_first t) ≡ (len S m, some (len S m)))
  unfolding size_hint len
  iter_ok holds =
      let n : length (map pair (entries t)) - 0 ≡ m.size =
        omega (arith, length-map-pair (entries t), holds.size_lem) in
      (new_iter_ok S law m.store t m.root holds.shape holds.rooted, rw n refl)
