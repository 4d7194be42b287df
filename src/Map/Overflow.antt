-- ===== src/Map/Overflow.antt =====
-- `insert` where a collision node is full.
use champ_trie.Prelude.{◌≡◌, refl, ap, sym, ◌∙◌, true, false, Option, none, some, panic, arith}
use champ_trie.Hashing.{Hash, Key, hash_one}
use champ_trie.Node.{Entry, Idx, fragment}
use champ_trie.Store.{ChampStore, IsChampStore}
use champ_trie.Ops.Insert.Panics.{insert_recursive_panics, overflows-inner, vacant_fits}
use champ_trie.Trie.{Trie, inner, no_slots}
use champ_trie.Trie.Positions.{slot_at-no_slots}
use champ_trie.Trie.Model.{overflows, overflows_slot}
use champ_trie.Trie.Shape.{IsTrie}
use champ_trie.Map.{ChampMap, insert, insert_from}
use champ_trie.Map.Holds.{Holds, Rooted}
use champ_trie.Map.Insertion.{entry_of}

module _ {ℓ} {K V : Type ℓ} ⦃key : Key K⦄ where
  no_slots-fits : (e : Entry K V) → overflows (inner no_slots) e 0 ≡ false
  no_slots-fits e =
      overflows-inner no_slots e 0
      ∙ ap (λ x. overflows_slot x e 5) (slot_at-no_slots (fragment e.hash 0))
      ∙ vacant_fits e 5

module _ {ℓ} {K V : Type ℓ} ⦃key : Key K⦄ ⦃h : Hash V⦄ (S : ChampStore K V)
    (law : IsChampStore S) where
  full_from :
      (m : ChampMap S) (t : Trie K V) (e : Entry K V) (root : Option Idx)
      → IsTrie t 0 0
      → Rooted (law.view m.store) root t
      → overflows t e 0 ≡ true
      → insert_from S root e m ≡ panic
  unfolding insert_from
  full_from m t e none a here full =
      absurd (wrong (sym (no_slots-fits e) ∙ ap (λ u. overflows u e 0) (sym here) ∙ full))
    where
      wrong : false ≡ true → ⊥
      wrong w = ground arith
  full_from m t e (some root) a here full =
      rw
        (insert_recursive_panics S law 14 13 t m.store root e 0 0 (omega arith) (omega arith) a full
          here)
        refl

  -- On a map that holds a tree, when the insertion would give a collision node its 256th entry:
  -- `insert` panics.
  pub insert_panics :
      (m : ChampMap S) (t : Trie K V) (k : K) (v : V)
      → Holds S law m t
      → overflows t (entry_of k v) 0 ≡ true
      → insert S k v m ≡ panic
  unfolding insert hash_one
  insert_panics m t k v holds full =
      full_from m t (entry_of k v) m.root holds.shape holds.rooted full
