-- ===== src/Map/Extension.antt =====
-- `extend` and `from_iter`: one insertion after the other.
use champ_trie.Prelude.{
  ◌≡◌, refl, false, Option, none, some, List, [], ◌∷◌, ok, and_then, if◌then◌else◌, arith,
}
use champ_trie.Hashing.{Hash, Key}
use champ_trie.Store.{ChampStore, IsChampStore}
use champ_trie.Trie.{Trie, inner, no_slots}
use champ_trie.Trie.Model
use champ_trie.Trie.Model.{overflows}
use champ_trie.Trie.Lookup.{hash_of, get-no_slots}
use champ_trie.Trie.Insertion.{get-insert}
use champ_trie.Map.{ChampMap, new, extend, from_iter, get}
use champ_trie.Map.Holds.{Holds, new-Holds, answer, get_ok}
use champ_trie.Map.Insertion.{entry_of, entry_of-IsPlaced, insert_ok}

module _ {ℓ} {K V : Type ℓ} ⦃key : Key K⦄ where
  -- The trees of the loop.
  abbrev pub insert_all : Trie K V → List (K × V) → Trie K V
  insert_all t [] = t
  insert_all t ((k, v) ∷ iter) = insert_all (Model.insert t (entry_of k v) 0) iter

  -- No insertion of the loop finds a full collision node.
  abbrev pub AllFit : Trie K V → List (K × V) → Type 0
  AllFit t [] = Unit
  AllFit t ((k, v) ∷ iter) =
      (overflows t (entry_of k v) 0 ≡ false) × AllFit (Model.insert t (entry_of k v) 0) iter

  -- The last value that a list of pairs has for a key, or else a default.
  unfoldable pub last_value : List (K × V) → K → Option V → Option V
  last_value [] q old = old
  last_value ((k, v) ∷ iter) q old = last_value iter q (if key.equal k q then some v else old)

  get-insert_all :
      ⦃h : Hash V⦄ (S : ChampStore K V) (law : IsChampStore S) (t : Trie K V) (m : ChampMap S)
      (iter : List (K × V)) (q : K)
      → Holds S law m t
      → AllFit t iter
      → Model.get (insert_all t iter) (hash_of q) q 0
        ≡ last_value iter q (Model.get t (hash_of q) q 0)
  unfolding last_value
  get-insert_all S law t m [] q holds fit = refl
  get-insert_all S law t m ((k, v) ∷ iter) q holds fit =
      let run = insert_ok S law m t k v holds fit.0 in
      rw
        (
          get-insert_all S law (Model.insert t (entry_of k v) 0) run.after iter q run.holds fit.1,
          get-insert t (entry_of k v) q 13 0 0 (omega arith) holds.shape (entry_of-IsPlaced k v),
        )
        refl

module _ {ℓ} {K V : Type ℓ} ⦃key : Key K⦄ ⦃h : Hash V⦄ (S : ChampStore K V)
    (law : IsChampStore S) where
  -- On a map that holds a tree, when no insertion would give a collision node its 256th entry:
  -- `extend` returns, and the map then holds the tree with all entries put in one after the other.
  pub extend_ok :
      (m : ChampMap S) (t : Trie K V) (iter : List (K × V))
      → Holds S law m t
      → AllFit t iter
      → (after : ChampMap S) × (extend S iter m ≡ ok tt after)
        × Holds S law after (insert_all t iter)
  unfolding extend
  extend_ok m t [] holds fit = (m, refl, holds)
  extend_ok m t ((k, v) ∷ iter) holds fit =
      let run = insert_ok S law m t k v holds fit.0 in
      let (after, r, kept) =
        extend_ok run.after (Model.insert t (entry_of k v) 0) iter run.holds fit.1 in
      (after, rw run.returns r, kept)

  -- When no insertion would give a collision node its 256th entry: a map made of a list of pairs
  -- answers every key with the last value that the list has for an equal key, and with none when
  -- it has none.
  pub get-from_iter :
      (iter : List (K × V)) (q : K)
      → AllFit (inner no_slots) iter
      → answer (and_then (from_iter S iter) (λ _. get S q)) ≡ some (last_value iter q none)
  unfolding from_iter
  get-from_iter iter q fit =
      let (after, r, kept) = extend_ok (new S) (inner no_slots) iter (new-Holds S law) fit in
      rw
        (
          r,
          get_ok S law after (insert_all (inner no_slots) iter) q kept,
          get-insert_all S law (inner no_slots) (new S) iter q (new-Holds S law) fit,
          get-no_slots {V = V} (hash_of q) q 0,
        )
        refl
