-- ===== src/Ops/Insert/Refines.antt =====
-- `insert_recursive` against the insertion on trees.
use champ_trie.Prelude.{
  ℕ, zero, suc, ◌+◌, ◌*◌, ◌<◌, ◌≡◌, refl, ap, sym, ◌∙◌, true, false, none, some, List, ◌==◌, ==_iff,
  inl, inr, Bool-cases, arith, subst,
}
use champ_trie.Hashing.{Hash, Key}
use champ_trie.Node.{Entry, Idx, fragment}
use champ_trie.Node.Bitmap.{fragment-lt}
use champ_trie.Store.{ChampStore, IsChampStore}
use champ_trie.Ops.Insert.{insert_into_inner, insert_node, insert_recursive}
use champ_trie.Ops.Insert.Slots.{Inserted, empty_ok}
use champ_trie.Ops.Insert.Replace.{replaced_ok}
use champ_trie.Ops.Insert.Push.{pushed_ok}
use champ_trie.Ops.Insert.Child.{child_ok}
use champ_trie.Ops.Insert.Bucket.{bucket_ok}
use champ_trie.Ops.Insert.Subtree.{create_subtree_ok}
use champ_trie.Ops.Steps.{get_node_ok}
use champ_trie.Trie.{Trie, Slots, inner, collision, vacant, entry, subtree, end, cons, slot_at}
use champ_trie.Trie.Model.{
  same, get, get_slot, insert, insert_slot, overflows, overflows_slot, overflows_slots, join,
}
use champ_trie.Trie.Shape.{
  IsSlot, IsTrie, IsPlaced, IsPlaced-step, step_path, slot_at-IsSlot, hash_at_end,
}
use champ_trie.Trie.Lookup.{get-inner, insert-inner, get_slot-subtree}
use champ_trie.Trie.Repr.{Repr, share}
use champ_trie.Trie.Weight.{weigh-join}
use champ_trie.Trie.Bitmaps.{Slot-cases, data_bit, node_bit}

module _ {ℓ} {K V : Type ℓ} ⦃key : Key K⦄ where
  pub overflows-slot_at :
      (sl : Slots K V) (f : ℕ) (e : Entry K V) (shift : ℕ)
      → overflows_slots sl f e shift ≡ overflows_slot (slot_at sl f) e shift
  unfolding overflows
  overflows-slot_at end f e shift = refl
  overflows-slot_at (cons s sl) zero e shift = refl
  overflows-slot_at (cons s sl) (suc f) e shift = overflows-slot_at sl f e shift

  overflows-subtree :
      (sl : Slots K V) (e : Entry K V) (shift : ℕ) (t : Trie K V)
      → slot_at sl (fragment e.hash shift) ≡ subtree t
      → overflows (inner sl) e shift ≡ false
      → overflows t e (shift + 5) ≡ false
  unfolding overflows
  overflows-subtree sl e shift t h r =
      ap (λ x. overflows_slot x e (shift + 5)) (sym h)
      ∙ sym (overflows-slot_at sl (fragment e.hash shift) e (shift + 5))
      ∙ r

  -- What the position of the entry holds decides the insertion.
  slot_vacant : (e : Entry K V) (shift : ℕ) → insert_slot vacant e shift ≡ entry e
  unfolding insert
  slot_vacant e shift = refl

  get_vacant : (hash : ℕ) (k : K) (shift : ℕ) → get_slot {V = V} vacant hash k shift ≡ none
  unfolding get
  get_vacant hash k shift = refl

  slot_same :
      (x e : Entry K V) (shift : ℕ) → same x e ≡ true → insert_slot (entry x) e shift ≡ entry e
  unfolding insert
  slot_same x e shift c = rw c

  get_same :
      (x e : Entry K V) (shift : ℕ)
      → same x e ≡ true
      → get_slot (entry x) e.hash e.key shift ≡ some x.value
  unfolding get
  get_same x e shift c = rw c

  slot_other :
      (x e : Entry K V) (shift : ℕ)
      → same x e ≡ false
      → insert_slot (entry x) e shift ≡ subtree (join 14 x e shift)
  unfolding insert
  slot_other x e shift c = rw c

  get_other :
      (x e : Entry K V) (shift : ℕ)
      → same x e ≡ false
      → get_slot (entry x) e.hash e.key shift ≡ none
  unfolding get
  get_other x e shift c = rw c

  slot_subtree :
      (t : Trie K V) (e : Entry K V) (shift : ℕ)
      → insert_slot (subtree t) e shift ≡ subtree (insert t e shift)
  unfolding insert
  slot_subtree t e shift = refl

module _ {ℓ} {K V : Type ℓ} ⦃key : Key K⦄ ⦃h : Hash V⦄ (S : ChampStore K V)
    (law : IsChampStore S) where
  open S use {Store}
  open law use {view}

  abbrev Done : Store → Trie K V → Entry K V → ℕ → ℕ → Idx → Type ℓ
  Done s t e shift fuel i =
      Inserted S law s t (insert t e shift) (get t e.hash e.key shift)
        (insert_recursive S fuel i e shift s)

  inner_ok :
      (fuel n : ℕ) (s : Store) (sl : Slots K V) (i : Idx) (e : Entry K V) (shift p : ℕ)
      → n < fuel
      → shift + 5 * suc n ≡ 65
      → IsTrie (inner sl) shift p
      → overflows (inner sl) e shift ≡ false
      → Repr (view s) i (inner sl)
      → ((t : Trie K V)
          → slot_at sl (fragment e.hash shift) ≡ subtree t
          → (k : Idx) → Repr (view s) k t
          → Done s t e (shift + 5) fuel k)
      → Done s (inner sl) e shift (suc fuel) i
  unfolding insert_recursive insert_node insert_into_inner
  inner_ok fuel n s sl i e shift p b l a r (kids, at, below) deeper =
      let f = fragment e.hash shift in
      let small = fragment-lt e.hash shift in
      rw
        (
          get_node_ok S law s i _ at.node_at,
          data_bit sl a.1 f small,
          node_bit sl a.1 f small,
          get-inner sl e.hash e.key shift,
          insert-inner sl e shift,
        )
        (elim (Slot-cases (slot_at sl f)) [
          | inl c ↦
              rw (c, slot_vacant e (shift + 5), get_vacant {V = V} e.hash e.key (shift + 5))
                (empty_ok S law s sl a.1 f small at.data_start at.children_start kids at.items_at
                  at.kids_at below e c)
          | inr (inl (x, c)) ↦ elim (Bool-cases (same x e)) [
            | inl d ↦
                rw (c, slot_same x e (shift + 5) d, get_same x e (shift + 5) d)
                  (replaced_ok S law s sl a.1 f small at.data_start at.children_start kids
                    at.items_at at.kids_at below e x c d shift)
            | inr d ↦
                rw (c, slot_other x e (shift + 5) d, get_other x e (shift + 5) d)
                  (pushed_ok S law s sl a.1 f small at.data_start at.children_start kids at.items_at
                    at.kids_at below e x c d shift (join 14 x e (shift + 5))
                    (create_subtree_ok S law 14 n s x e (shift + 5) (omega arith) (omega arith))
                    (weigh-join share 14 x e (shift + 5)))
          ]
          | inr (inr (t, c)) ↦
              rw (c, slot_subtree t e (shift + 5), get_slot-subtree t e.hash e.key (shift + 5))
                (child_ok S law s sl a.1 f small at.data_start at.children_start kids at.items_at
                  at.kids_at below e shift t (insert t e (shift + 5)) c
                  (get t e.hash e.key (shift + 5))
                  (λ child y shift'. insert_recursive S fuel child y shift') (deeper t c))
        ])

  collision_ok :
      (fuel : ℕ) (s : Store) (hash : ℕ) (es : List (Entry K V)) (i : Idx) (e : Entry K V)
      (shift p : ℕ)
      → IsTrie (collision hash es) shift p
      → IsPlaced e shift p
      → overflows (collision hash es) e shift ≡ false
      → Repr (view s) i (collision hash es)
      → Done s (collision hash es) e shift (suc fuel) i
  unfolding insert_recursive insert_node get insert overflows
  collision_ok fuel s hash es i e shift p t placed r at =
      let at_end : e.hash ≡ p = hash_at_end e p (rw t.deepest at placed) in
      let reached : (e.hash == hash) ≡ true =
        (==_iff e.hash hash).1 (at_end ∙ sym t.hash_on_path) in
      rw (get_node_ok S law s i _ at.node_at, reached)
        (bucket_ok S law s hash at.entries_start es e at.entries_at r)

  -- At a node that represents a well-formed tree, with fuel for the levels that are left, for an
  -- entry on the path of the node whose insertion would not give a collision node its 256th entry:
  -- `insert_recursive` returns, the arenas only grow, the returned node represents the tree with
  -- the entry put in, the returned change is the change of the sum, and the old value is what the
  -- lookup finds.
  pub insert_recursive_ok :
      (fuel n : ℕ) (t : Trie K V) (s : Store) (i : Idx) (e : Entry K V) (shift p : ℕ)
      → n < fuel
      → shift + 5 * n ≡ 65
      → IsTrie t shift p
      → IsPlaced e shift p
      → overflows t e shift ≡ false
      → Repr (view s) i t
      → Inserted S law s t
          (insert t e shift)
          (get t e.hash e.key shift)
          (insert_recursive S fuel i e shift s)
  insert_recursive_ok zero n t s i e shift p b l a placed r rep = absurd (omega arith)
  insert_recursive_ok (suc fuel) zero (inner sl) s i e shift p b l a placed r rep =
      absurd (omega (arith, a.0))
  insert_recursive_ok (suc fuel) (suc n) (inner sl) s i e shift p b l a placed r rep =
      inner_ok fuel n s sl i e shift p (omega arith) l a r rep (λ t c k q.
        insert_recursive_ok fuel n t s k e (shift + 5) (step_path shift p (fragment e.hash shift))
          (omega arith) (omega arith)
          (subst (λ x. IsSlot x (shift + 5) (step_path shift p (fragment e.hash shift))) c
            (slot_at-IsSlot sl shift p (fragment e.hash shift) a.2)).0
          (IsPlaced-step e shift p placed) (overflows-subtree sl e shift t c r) q)
  insert_recursive_ok (suc fuel) n (collision hash es) s i e shift p b l a placed r rep =
      collision_ok fuel s hash es i e shift p a placed r rep
