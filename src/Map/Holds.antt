-- ===== src/Map/Holds.antt =====
-- A map in a store holds a tree. The root of an empty map stands for a node that holds nothing.
use champ_trie.Prelude.{
  ◌≡◌, refl, Option, none, some, Run, ok, panic, out_of_fuel, length, List, [], ◌∷◌, arith,
}
use champ_trie.Hashing.{Hash, Key, hash_one}
use champ_trie.Node.{Entry, Idx}
use champ_trie.Store.{ChampStore, IsChampStore, Arenas}
use champ_trie.Ops.Get.Refines.{get_recursive_ok}
use champ_trie.Trie.{Trie, inner, no_slots}
use champ_trie.Trie.Model
use champ_trie.Trie.Model.{entries, total, trie_adhash}
use champ_trie.Trie.Shape.{IsTrie, no_slots-AreSlots}
use champ_trie.Trie.Lookup.{hash_of, get-no_slots}
use champ_trie.Trie.Weight.{weigh_list, weigh-entries}
use champ_trie.Trie.Repr.{Repr, sum_of, share}
use champ_trie.Ops.Insert.Sums.{contribution_lem}
use champ_trie.Map.{ChampMap, new, adhash, get, get_from}

-- What a run returned.
abbrev pub answer {ℓ κ} : {S : Type ℓ} {A : Type κ} → Run S A → Option A
answer (ok a s) = some a
answer panic = none
answer out_of_fuel = none

module _ {ℓ} {K V : Type ℓ} ⦃h : Hash V⦄ where
  abbrev pub Rooted : Arenas K V → Option Idx → Trie K V → Type ℓ
  Rooted v none t = t ≡ inner no_slots
  Rooted v (some root) t = Repr v root t

  total_lem : (es : List (Entry K V)) → total es ≡ weigh_list share es
  unfolding total
  total_lem [] = refl
  total_lem (e ∷ es) = omega (arith, contribution_lem e, total_lem es)

module _ {ℓ} {K V : Type ℓ} ⦃key : Key K⦄ ⦃h : Hash V⦄ (S : ChampStore K V)
    (law : IsChampStore S) where
  open law use {view}

  pub record Holds (m : ChampMap S) (t : Trie K V) : Type ℓ where
    pub shape : IsTrie t 0 0
    pub rooted : Rooted (view m.store) m.root t
    pub size_lem : m.size ≡ length (entries t)
    pub adhash_lem : m.adhash ≡ sum_of t

  -- A new map holds the tree with no entry.
  pub new-Holds : Holds (new S) (inner no_slots)
  unfolding new no_slots entries
  new-Holds = record {
    shape = (omega arith, refl, unfold no_slots in no_slots-AreSlots K V 0 0);
    rooted = refl;
    size_lem = refl;
    adhash_lem = refl;
  }

  get_from_ok :
      (m : ChampMap S) (t : Trie K V) (k : K) (root : Option Idx)
      → IsTrie t 0 0
      → Rooted (view m.store) root t
      → get_from S root k m ≡ ok (Model.get t (hash_of k) k 0) m
  unfolding get_from hash_one
  get_from_ok m t k none a r = rw (r, get-no_slots {V = V} (hash_of k) k 0)
  get_from_ok m t k (some root) a r = rw (
      get_recursive_ok S law 14 13 t m.store root (hash_of k) k 0 0 (omega arith) (omega arith) a r)

  -- On a map that holds a tree, `get` returns what the tree has under the key and its hash, and
  -- leaves the map alone.
  pub get_ok :
      (m : ChampMap S) (t : Trie K V) (k : K)
      → Holds m t
      → get S k m ≡ ok (Model.get t (hash_of k) k 0) m
  unfolding get
  get_ok m t k holds = get_from_ok m t k m.root holds.shape holds.rooted

  -- The `AdHash` of a map that holds a tree is the sum of the contributions of all its entries, as
  -- a 64-bit word.
  pub adhash_ok : (m : ChampMap S) (t : Trie K V) → Holds m t → adhash S m ≡ trie_adhash t
  unfolding adhash trie_adhash
  adhash_ok m t holds =
      omega (arith, holds.adhash_lem, total_lem (entries t), weigh-entries share t)
