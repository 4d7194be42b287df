-- ===== src/Ops/Remove/Refines.antt =====
-- `remove_recursive` against the removal on trees.
use champ_trie.Prelude.{
  ℕ, zero, suc, ◌+◌, ◌*◌, ◌<◌, ◌≡◌, refl, List, ◌==◌, ◌&&◌, Bool-cases, inl, inr, arith, subst,
}
use champ_trie.Hashing.{Hash, Key}
use champ_trie.Node.{Entry, Idx, fragment}
use champ_trie.Node.Bitmap.{fragment-lt}
use champ_trie.Store.{ChampStore, IsChampStore}
use champ_trie.Ops.Remove.{remove_from_inner, remove_from_collision, remove_node, remove_recursive}
use champ_trie.Ops.Remove.Outcomes.{Returned}
use champ_trie.Ops.Remove.Entry.{entry_removed, entry_kept}
use champ_trie.Ops.Remove.Lone.{IsWide, remove-wide}
use champ_trie.Ops.Remove.Descent.{child_removed}
use champ_trie.Ops.Remove.Bucket.{bucket_removed}
use champ_trie.Ops.Steps.{get_node_ok}
use champ_trie.Trie.{Trie, Slots, inner, collision, subtree, slot_at}
use champ_trie.Trie.Shape.{IsSlot, IsTrie, step_path, slot_at-IsSlot}
use champ_trie.Trie.Bitmaps.{Slot-cases, data_bit, node_bit}
use champ_trie.Trie.Remove.{remove}
use champ_trie.Trie.Remove.Positions.{
  remove-inner, remove-vacant, remove-found, remove-other, remove-subtree,
}
use champ_trie.Trie.Remove.Sums.{weigh-remove}
use champ_trie.Trie.Repr.{Repr, share}

module _ {ℓ} {K V : Type ℓ} ⦃key : Key K⦄ where
  IsTrie-IsWide : (t : Trie K V) (shift p : ℕ) → IsTrie t shift p → IsWide t
  IsTrie-IsWide (inner sl) shift p a = a.1
  IsTrie-IsWide (collision hash es) shift p a = tt

module _ {ℓ} {K V : Type ℓ} ⦃key : Key K⦄ ⦃h : Hash V⦄ (S : ChampStore K V)
    (law : IsChampStore S) where
  open S use {Store}
  open law use {view}

  abbrev Done : Store → Trie K V → ℕ → K → ℕ → ℕ → Idx → Type ℓ
  Done s t hash k shift fuel i =
      Returned S law s (remove t hash k shift) (remove_recursive S fuel i hash k shift s)

  inner_ok :
      (fuel : ℕ) (s : Store) (sl : Slots K V) (i : Idx) (hash : ℕ) (k : K) (shift p : ℕ)
      → IsTrie (inner sl) shift p
      → Repr (view s) i (inner sl)
      → ((t : Trie K V)
          → slot_at sl (fragment hash shift) ≡ subtree t
          → IsTrie t (shift + 5) (step_path shift p (fragment hash shift))
          → (j : Idx) → Repr (view s) j t
          → Done s t hash k (shift + 5) fuel j)
      → Done s (inner sl) hash k shift (suc fuel) i
  unfolding remove_recursive remove_node remove_from_inner
  inner_ok fuel s sl i hash k shift p a (kids, at, below) deeper =
      let f = fragment hash shift in
      let small = fragment-lt hash shift in
      rw
        (
          get_node_ok S law s i _ at.node_at,
          data_bit sl a.1 f small,
          node_bit sl a.1 f small,
          remove-inner sl hash k shift,
        )
        (elim (Slot-cases (slot_at sl f)) [
          | inl c ↦ rw (c, remove-vacant {V = V} hash k (shift + 5)) refl
          | inr (inl (x, c)) ↦ elim (Bool-cases (x.hash == hash && key.equal x.key k)) [
            | inl d ↦
                rw (c, remove-found x hash k (shift + 5) d)
                  (entry_removed S law s sl a.1 f small at.data_start at.children_start kids
                    at.items_at at.kids_at below x c hash k d)
            | inr d ↦
                rw (c, remove-other x hash k (shift + 5) d)
                  (entry_kept S law s sl a.1 f small at.data_start at.children_start kids
                    at.items_at at.kids_at below x c hash k d)
          ]
          | inr (inr (t, c)) ↦
              let b =
                (subst (λ x. IsSlot x (shift + 5) (step_path shift p f)) c
                  (slot_at-IsSlot sl shift p f a.2)).0 in
              rw (c, remove-subtree t hash k (shift + 5))
                (child_removed S law s sl a.1 f small at.data_start at.children_start kids
                  at.items_at at.kids_at below t c (remove t hash k (shift + 5))
                  (λ child shift'. remove_recursive S fuel child hash k shift') shift
                  (weigh-remove share hash k t (shift + 5) (step_path shift p f) b)
                  (remove-wide t hash k (shift + 5) (IsTrie-IsWide t _ _ b)) (deeper t c b))
        ])

  collision_ok :
      (fuel : ℕ) (s : Store) (h : ℕ) (es : List (Entry K V)) (i : Idx) (hash : ℕ) (k : K)
      (shift p : ℕ)
      → IsTrie (collision h es) shift p
      → Repr (view s) i (collision h es)
      → Done s (collision h es) hash k shift (suc fuel) i
  unfolding remove_recursive remove_node remove_from_collision remove
  collision_ok fuel s h es i hash k shift p a at =
      rw (get_node_ok S law s i _ at.node_at) (elim (Bool-cases (hash == h)) [
        | inl c ↦ rw c (bucket_removed S law s h at.entries_start es k at.entries_at a.two)
        | inr c ↦ rw c refl
      ])

  -- At a node that represents a well-formed tree, with fuel for the levels that are left:
  -- `remove_recursive` returns what the removal on trees says. When no entry is removed the store
  -- is unchanged. Otherwise the arenas only grow, the change of the sum and the value are those of
  -- the removed entry, and the returned node, when one is left, represents the tree that is left.
  pub remove_recursive_ok :
      (fuel n : ℕ) (t : Trie K V) (s : Store) (i : Idx) (hash : ℕ) (k : K) (shift p : ℕ)
      → n < fuel
      → shift + 5 * n ≡ 65
      → IsTrie t shift p
      → Repr (view s) i t
      → Returned S law s (remove t hash k shift) (remove_recursive S fuel i hash k shift s)
  remove_recursive_ok zero n t s i hash k shift p b l a rep = absurd (omega arith)
  remove_recursive_ok (suc fuel) zero (inner sl) s i hash k shift p b l a rep =
      absurd (omega (arith, a.0))
  remove_recursive_ok (suc fuel) (suc n) (inner sl) s i hash k shift p b l a rep =
      inner_ok fuel s sl i hash k shift p a rep (λ t c d j q.
        remove_recursive_ok fuel n t s j hash k (shift + 5)
          (step_path shift p (fragment hash shift)) (omega arith) (omega arith) d q)
  remove_recursive_ok (suc fuel) n (collision h es) s i hash k shift p b l a rep =
      collision_ok fuel s h es i hash k shift p a rep
