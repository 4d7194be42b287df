-- ===== src/Ops/Insert/Panics.antt =====
-- `insert_recursive` where the insertion would give a collision node its 256th entry.
use champ_trie.Prelude.{
  ℕ, zero, suc, ◌+◌, ◌*◌, ◌<◌, ◌≡◌, refl, sym, ◌∙◌, subst, true, false, Option, none, some, panic,
  length, get_elem?, ◌==◌, ==_iff, ◌&&◌, and_left, and_right, inl, inr, arith,
}
use champ_trie.Bits.Flags.{of_bits}
use champ_trie.Hashing.{Hash, Key}
use champ_trie.Node.{Entry, Idx, fragment, mask, index, offset}
use champ_trie.Node.Bitmap.{fragment-lt}
use champ_trie.Store.{ChampStore, IsChampStore}
use champ_trie.Ops.Insert.{insert_into_inner, insert_at_child, insert_node, insert_recursive}
use champ_trie.Ops.Insert.Overflow.{bucket_panics}
use champ_trie.Ops.Insert.Refines.{overflows-slot_at}
use champ_trie.Ops.Steps.{get_node_ok, get_child_ok}
use champ_trie.Trie.{
  Trie, Slots, inner, collision, vacant, entry, subtree, slot_at, node_flags, node_rank,
}
use champ_trie.Trie.Bitmaps.{Slot-cases, data_bit, node_bit, node_index}
use champ_trie.Trie.Model.{find, is_none, overflows, overflows_slot}
use champ_trie.Trie.Shape.{IsSlot, IsTrie, step_path, slot_at-IsSlot}
use champ_trie.Trie.Repr.{Repr, kid_at}

missing {ℓ} : {V : Type ℓ} (o : Option V) → is_none o ≡ true → o ≡ none
missing none h = refl
missing (some v) h = absurd (ground arith)

module _ {ℓ} {K V : Type ℓ} ⦃key : Key K⦄ where
  pub vacant_fits : (e : Entry K V) (shift : ℕ) → overflows_slot vacant e shift ≡ false
  unfolding overflows
  vacant_fits e shift = refl

  entry_fits : (x e : Entry K V) (shift : ℕ) → overflows_slot (entry x) e shift ≡ false
  unfolding overflows
  entry_fits x e shift = refl

  pub overflows-inner :
      (sl : Slots K V) (e : Entry K V) (shift : ℕ)
      → overflows (inner sl) e shift
        ≡ overflows_slot (slot_at sl (fragment e.hash shift)) e (shift + 5)
  unfolding overflows
  overflows-inner sl e shift = overflows-slot_at sl (fragment e.hash shift) e (shift + 5)

  subtree_full :
      (t : Trie K V) (e : Entry K V) (shift : ℕ)
      → overflows_slot (subtree t) e shift ≡ overflows t e shift
  unfolding overflows
  subtree_full t e shift = refl

module _ {ℓ} {K V : Type ℓ} ⦃key : Key K⦄ ⦃h : Hash V⦄ (S : ChampStore K V)
    (law : IsChampStore S) where
  open S use {Store}
  open law use {view}

  -- At a node that represents a well-formed tree, with fuel for the levels that are left, for an
  -- entry whose insertion would give a collision node its 256th entry: `insert_recursive` panics.
  pub insert_recursive_panics :
      (fuel n : ℕ) (t : Trie K V) (s : Store) (i : Idx) (e : Entry K V) (shift p : ℕ)
      → n < fuel
      → shift + 5 * n ≡ 65
      → IsTrie t shift p
      → overflows t e shift ≡ true
      → Repr (view s) i t
      → insert_recursive S fuel i e shift s ≡ panic
  unfolding insert_recursive insert_node insert_into_inner insert_at_child
  insert_recursive_panics zero n t s i e shift p b l a full rep = absurd (omega arith)
  insert_recursive_panics (suc fuel) zero (inner sl) s i e shift p b l a full rep =
      absurd (omega (arith, a.0))
  insert_recursive_panics (suc fuel) (suc n) (inner sl) s i e shift p b l a full (kids, at, below) =
      let f = fragment e.hash shift in
      let small = fragment-lt e.hash shift in
      let deep = sym (overflows-inner sl e shift) ∙ full in
      elim (Slot-cases (slot_at sl f)) [
        | inl c ↦ absurd (wrong (sym (vacant_fits e (shift + 5)) ∙ (rw c at deep)))
        | inr (inl (x, c)) ↦ absurd (wrong (sym (entry_fits x e (shift + 5)) ∙ (rw c at deep)))
        | inr (inr (t, c)) ↦
            let (k, there, r) = kid_at (view s) kids sl f t below c in
            let child : get_elem? (view s).children
                  (offset at.children_start (index (of_bits (node_flags sl)) (mask f)))
                ≡ some k =
              rw (node_index sl a.1 f small) (at.kids_at (node_rank sl f) k there) in
            let b' =
              (subst (λ x. IsSlot x (shift + 5) (step_path shift p f)) c
                (slot_at-IsSlot sl shift p f a.2)).0 in
            rw
              (
                get_node_ok S law s i _ at.node_at,
                data_bit sl a.1 f small,
                node_bit sl a.1 f small,
                c,
                get_child_ok S law s
                    (offset at.children_start (index (of_bits (node_flags sl)) (mask f))) k child,
                insert_recursive_panics fuel n t s k e (shift + 5) (step_path shift p f)
                    (omega arith) (omega arith) b'
                    (sym (subtree_full t e (shift + 5)) ∙ (rw c at deep)) r,
              )
              refl
      ]
    where
      wrong : false ≡ true → ⊥
      wrong w = ground arith
  insert_recursive_panics (suc fuel) n (collision hash es) s i e shift p b l a full rep =
      let over : (length es == 255 && is_none (find es e.key)) ≡ true = unfold overflows in full in
      rw (get_node_ok S law s i _ rep.node_at) (
        bucket_panics S law s hash rep.entries_start _ e es rep.entries_at
          ((==_iff (length es) 255).0 (and_left _ (is_none (find es e.key)) over))
          (missing (find es e.key) (and_right (length es == 255) _ over)))
