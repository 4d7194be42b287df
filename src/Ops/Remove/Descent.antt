-- ===== src/Ops/Remove/Descent.antt =====
-- `remove_from_child`, whatever the removal in the child returns.
use champ_trie.Prelude.{
  ℕ, get_elem?, ◌+◌, ◌<◌, ◌≡◌, refl, Option, none, some, List, Run, Cmd, ◌>>=◌, Option-cases, inl,
  inr, arith,
}
use champ_trie.Bits.Flags.{of_bits}
use champ_trie.Hashing.{Hash, Key}
use champ_trie.Node.{Entry, Idx, mask, index, offset}
use champ_trie.Store.{ChampStore, IsChampStore, Extends}
use champ_trie.Store.Block.{Block}
use champ_trie.Store.Views.{Block-grows, Extends-trans}
use champ_trie.Ops.Remove.{after_child, remove_from_child, RemoveOutcome}
use champ_trie.Ops.Remove.Outcomes.{Returned}
use champ_trie.Ops.Remove.Child.{dropped, replaced}
use champ_trie.Ops.Remove.Inline.{inlined_ok}
use champ_trie.Ops.Remove.Lone.{LeavesWide, stays, moves_up}
use champ_trie.Ops.Steps.{get_child_ok}
use champ_trie.Trie.{
  Trie, Slots, inner, subtree, width, slot_at, data_flags, node_flags, items, node_rank,
}
use champ_trie.Trie.Bitmaps.{node_index}
use champ_trie.Trie.Weight.{weigh}
use champ_trie.Trie.Remove.{Removal, absent, removed, settle, rebuild, lone}
use champ_trie.Trie.Remove.Sums.{rest, gone, weigh-lone}
use champ_trie.Trie.Repr.{Repr, AreKids, AreKids-extends, kid_at, sum_of, share}

module _ {ℓ} {K V : Type ℓ} ⦃key : Key K⦄ ⦃h : Hash V⦄ (S : ChampStore K V)
    (law : IsChampStore S) where
  open S use {Store}
  open law use {view}

  -- What a run from a grown store returns, seen from the store before.
  from_grown :
      (s s' : Store) (e : Entry K V) (o : Option (Trie K V)) (run : Run Store (RemoveOutcome V))
      → Extends (view s) (view s')
      → Returned S law s' (removed e o) run
      → Returned S law s (removed e o) run
  from_grown s s' e none run g r = record {
    after = r.after;
    returns = r.returns;
    extends = Extends-trans g r.extends;
  }
  from_grown s s' e (some t) run g r = record {
    index = r.index;
    after = r.after;
    returns = r.returns;
    extends = Extends-trans g r.extends;
    repr = r.repr;
  }

  module _ (s : Store) (sl : Slots K V) (wide : width sl ≡ 32) (f : ℕ) (small : f < 32)
      (ds cs : Idx) (kids : List Idx) (b : Block (view s).entries ds (items sl))
      (c : Block (view s).children cs kids) (below : AreKids (view s) kids sl) (t : Trie K V)
      (here : slot_at sl f ≡ subtree t) where
    abbrev pos : ℕ
    pos = index (of_bits (node_flags sl)) (mask f)

    abbrev after : RemoveOutcome V → Cmd Store (RemoveOutcome V)
    after o =
        after_child S o (of_bits (data_flags sl)) (of_bits (node_flags sl)) ds cs
          (sum_of (inner sl)) (mask f) pos

    settled_ok :
        (r : Removal K V) (run : Run Store (RemoveOutcome V))
        → gone share r + rest share t r ≡ weigh share t
        → LeavesWide r
        → Returned S law s r run
        → (cmd : Cmd Store (RemoveOutcome V)) → cmd s ≡ run
        → Returned S law s (rebuild sl f (settle r)) ((cmd >>= after) s)
    unfolding after_child
    settled_ok absent run w l r cmd q = rw (q, r) refl
    settled_ok (removed e none) run w l r cmd q =
        let g = r.extends in
        rw (q, r.returns)
          (from_grown s r.after e _ _ g (
            dropped S law r.after sl wide f small ds cs kids
              (Block-grows (view s).entries ds (items sl) g.entries_grow b)
              (Block-grows (view s).children cs kids g.children_grow c)
              (AreKids-extends g sl kids below) t here e (omega (arith, w))))
    settled_ok (removed e (some u)) run w l r cmd q =
        let g = r.extends in
        let b' = Block-grows (view s).entries ds (items sl) g.entries_grow b in
        let c' = Block-grows (view s).children cs kids g.children_grow c in
        let below' = AreKids-extends g sl kids below in
        elim (Option-cases (lone u)) [
          | inl d ↦
              let (n, at, test) = stays (view r.after) r.index u l r.repr d in
              rw (q, r.returns, d)
                (from_grown s r.after e _ _ g (
                  replaced S law r.after sl wide f small ds cs kids b' c' below' t here e u r.index
                    r.repr w n at test))
          | inr (x, d) ↦
              let m = moves_up (view r.after) r.index u x l r.repr d in
              rw (q, r.returns, d)
                (from_grown s r.after e _ _ g (
                  inlined_ok S law r.after sl wide f small ds cs kids b' c' below' t here e x
                    r.index m.data_map m.node_map m.data_start m.children_start m.sum m.node_at
                    m.test m.held (omega (arith, w, weigh-lone share u x d))))
        ]

    pub child_removed :
        (r : Removal K V) (descend : Idx → ℕ → Cmd Store (RemoveOutcome V)) (shift : ℕ)
        → gone share r + rest share t r ≡ weigh share t
        → LeavesWide r
        → ((k : Idx) → Repr (view s) k t → Returned S law s r (descend k (shift + 5) s))
        → Returned S law s (rebuild sl f (settle r)) (
            remove_from_child S descend
              (of_bits (data_flags sl))
              (of_bits (node_flags sl))
              ds
              cs
              (sum_of (inner sl))
              (mask f)
              shift
              s)
    unfolding remove_from_child
    child_removed r descend shift w l run =
        let (k, there, q) = kid_at (view s) kids sl f t below here in
        let at : get_elem? (view s).children (offset cs pos) ≡ some k =
          rw (node_index sl wide f small) (c (node_rank sl f) k there) in
        rw (get_child_ok S law s (offset cs pos) k at)
          (settled_ok r (descend k (shift + 5) s) w l (run k q) (descend k (shift + 5)) refl)
