-- ===== src/Ops/Single.antt =====
-- A node made for one entry, as the first insertion and a removal from two entries make it.
use champ_trie.Prelude.{◌≡◌, ℕ, refl, [], ◌∷◌, length, arith}
use champ_trie.Hashing.{Hash}
use champ_trie.Node.{Entry, Node, Idx, fragment, mask}
use champ_trie.Node.Bitmap.{fragment-lt}
use champ_trie.Store.{ChampStore, IsChampStore}
use champ_trie.Ops.Insert.{contribution}
use champ_trie.Ops.Insert.Sums.{contribution-lt, contribution_lem}
use champ_trie.Ops.Steps.{node_store, entries_store, entries_stored}
use champ_trie.Ops.Rebuild.{inner_node, inner_stored}
use champ_trie.Trie.{Slots, inner, entry, no_slots, put, slot_at}
use champ_trie.Trie.Positions.{slot_at-no_slots, items-no_slots_one, width-no_slots}
use champ_trie.Trie.Fresh.{Block-nil, one_data, one_data_nodes}
use champ_trie.Trie.Weight.{weigh-no_slots, weigh-put, weigh_slot}
use champ_trie.Trie.Repr.{Repr, AreKids-no_slots, keep_kids, sum_of, share}

module _ {ℓ} {K V : Type ℓ} (e : Entry K V) where
  abbrev pub place : ℕ
  place = fragment e.hash 0

  abbrev pub single : Slots K V
  single = put no_slots place (entry e)

module _ {ℓ} {K V : Type ℓ} ⦃h : Hash V⦄ (e : Entry K V) where
  pub single_sum : contribution e ≡ sum_of (inner (single e))
  single_sum =
      let empty_slot : weigh_slot {K = K} {V = V} share (slot_at no_slots (place e)) ≡ 0 =
        rw (slot_at-no_slots (place e)) in
      omega (
        arith,
        contribution_lem e,
        contribution-lt e,
        weigh-put share no_slots (place e) (entry e)
            (rw (width-no_slots K V) (fragment-lt e.hash 0)),
        weigh-no_slots K V share,
        empty_slot,
      )

  pub single_node :
      (ds : Idx) → Node.inner (mask (place e)) 0 ds 0 (contribution e) ≡ inner_node (single e) ds 0
  single_node ds =
      rw
        (
          one_data (place e) (fragment-lt e.hash 0) e,
          one_data_nodes (place e) (fragment-lt e.hash 0) e,
          single_sum,
        )
        refl

module _ {ℓ} {K V : Type ℓ} ⦃h : Hash V⦄ (S : ChampStore K V) (law : IsChampStore S)
    (s : ChampStore.Store S) (e : Entry K V) where
  open law use {view}

  abbrev pub single_entries : ChampStore.Store S
  single_entries = entries_store S law s (e ∷ [])

  pub single_stored :
      Repr
        (view (node_store S law single_entries (inner_node (single e) (length (view s).entries) 0)))
        (length (view single_entries).nodes)
        (inner (single e))
  single_stored =
      inner_stored S law single_entries (single e) [] (length (view s).entries) 0
        (rw (items-no_slots_one (place e) e (fragment-lt e.hash 0))
          (entries_stored S law s (e ∷ [])))
        (Block-nil (view single_entries).children 0)
        (keep_kids (view single_entries) [] no_slots (place e) (entry e)
          (AreKids-no_slots (view single_entries)) refl (rw (slot_at-no_slots (place e)) refl))
