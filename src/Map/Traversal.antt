-- ===== src/Map/Traversal.antt =====
-- What the iterator of a map yields, and what the map answers.
use native.Mathlib.Nat.{add-zero}
use mathlib.Core.List.{append-nil}
use champ_trie.Prelude.{
  ℕ, zero, suc, ◌+◌, ◌≡◌, refl, ap, sym, ◌∙◌, true, false, Option, none, some, List, [], ◌∷◌, ◌++◌,
  ok, ltb, length, length-append, get_elem?, get_elem?-append_right, map, if◌then◌else◌, arith,
}
use champ_trie.Hashing.{Hash, Key}
use champ_trie.Node.{Entry}
use champ_trie.Store.{ChampStore, IsChampStore}
use champ_trie.Ops.Collect.Refines.{pair}
use champ_trie.Ops.Insert.Bucket.{assoc_last, length-append_last}
use champ_trie.Trie.{Trie}
use champ_trie.Trie.Model.{entries, find}
use champ_trie.Trie.Search.{get-find}
use champ_trie.Map.{ChampMap, get, len}
use champ_trie.Map.Holds.{Holds, get_ok}
use champ_trie.Map.Iteration.{at_first, iter_ok, length-map-pair}
use champ_trie.Map.Iterator.{Iter, next, iter}

module _ {ℓ} {K V : Type ℓ} where
  -- The results of so many calls of `next`.
  unfoldable pub yields : ℕ → Iter K V → List (Option (K × V))
  yields zero it = []
  yields (suc n) it = let (item, rest) = next it in item ∷ yields n rest

  next-item :
      (pre rest : List (K × V)) (x : K × V)
      → next (record { entries = pre ++ x ∷ rest; pos = length pre })
        ≡ (some x, record { entries = pre ++ x ∷ rest; pos = length pre + 1 })
  unfolding next
  next-item pre rest x =
      let inside : ltb (length pre) (length (pre ++ x ∷ rest)) ≡ true =
        ground (arith, length-append pre (x ∷ rest)) in
      let at : get_elem? (pre ++ x ∷ rest) (length pre) ≡ some x =
        rw add-zero at (get_elem?-append_right pre (x ∷ rest) 0) in
      rw (inside, at) refl

  next-end :
      (es : List (K × V))
      → next (record { entries = es; pos = length es })
        ≡ (none, record { entries = es; pos = length es })
  unfolding next
  next-end es = let outside : ltb (length es) (length es) ≡ false = ground arith in rw outside refl

  -- From a position on, the entries behind it, and then the end.
  yields-rest :
      (rest pre : List (K × V))
      → yields (suc (length rest)) (record { entries = pre ++ rest; pos = length pre })
        ≡ map some rest ++ none ∷ []
  unfolding yields
  yields-rest [] pre = rw (append-nil pre, next-end pre) refl
  yields-rest (x ∷ rest) pre =
      rw (next-item pre rest x, assoc_last pre rest x, ← length-append_last pre x)
        (ap (λ items. some x ∷ items) (yields-rest rest (pre ++ x ∷ [])))

module _ {ℓ} {K V : Type ℓ} ⦃key : Key K⦄ where
  -- The first value under an equal key.
  unfoldable pub lookup_pairs : List (K × V) → K → Option V
  lookup_pairs [] q = none
  lookup_pairs ((k, v) ∷ ps) q = if key.equal k q then some v else lookup_pairs ps q

  lookup_pairs-map : (es : List (Entry K V)) (q : K) → lookup_pairs (map pair es) q ≡ find es q
  unfolding lookup_pairs find
  lookup_pairs-map [] q = refl
  lookup_pairs-map (e ∷ es) q = rw (lookup_pairs-map es q) refl

module _ {ℓ} {K V : Type ℓ} ⦃key : Key K⦄ ⦃h : Hash V⦄ (S : ChampStore K V) (law : IsChampStore S)
    (m : ChampMap S) (t : Trie K V) (holds : Holds S law m t) where
  pub iter_run : iter S m ≡ ok (at_first t) m
  unfolding iter
  iter_run = rw ((iter_ok S law m t holds).0) refl

  -- On a map that holds a tree: the iterator is made, and one call of `next` more than the length
  -- of the map yields all its pairs, one after the other, and then the end.
  pub yields-iter :
      (it : Iter K V) × (iter S m ≡ ok it m)
      × (yields (suc (len S m)) it ≡ map some it.entries ++ none ∷ [])
  unfolding len
  yields-iter =
      let size : m.size ≡ length (map pair (entries t)) =
        holds.size_lem ∙ sym (length-map-pair (entries t)) in
      (at_first t, iter_run, rw size (yields-rest (map pair (entries t)) []))

  -- On a map that holds a tree: the iterator is made, and for every key `get` returns the first
  -- value that the pairs of the iterator have under an equal key, or none when they have none, and
  -- leaves the map alone.
  pub get-iter :
      (it : Iter K V) × (iter S m ≡ ok it m)
      × ((q : K) → get S q m ≡ ok (lookup_pairs it.entries q) m)
  get-iter = (
    at_first t,
    iter_run,
    λ q.
        rw
          (
            get_ok S law m t q holds,
            lookup_pairs-map (entries t) q,
            get-find q t 0 0 holds.shape (omega arith),
          )
          refl,
  )
