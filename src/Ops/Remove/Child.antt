-- ===== src/Ops/Remove/Child.antt =====
-- `drop_child` and `replace_child`, where the child keeps a node of its own.
use champ_trie.Prelude.{
  ℕ, ◌+◌, ◌<◌, ◌≡◌, refl, false, some, bit_and, List, length, set, erase_at, count_true, get_elem?,
  get_elem?-lt, length-set, arith, ◌==◌, ◌&&◌, Bool-cases, inl, inr,
}
use champ_trie.Bits.{complement, wrapping_sub}
use champ_trie.Bits.Flags.{of_bits}
use champ_trie.Hashing.{Hash, Key}
use champ_trie.Node.{Entry, Node, Idx, mask, index}
use champ_trie.Store.{ChampStore, IsChampStore, block_start}
use champ_trie.Store.Block.{Block}
use champ_trie.Store.Views.{Block-grows, Extends-trans, Extends-refl}
use champ_trie.Ops.Blocks.{alloc_or_sentinel}
use champ_trie.Ops.Insert.{contribution}
use champ_trie.Ops.Remove.{drop_child, replace_child, should_inline}
use champ_trie.Ops.Remove.Outcomes.{blank_test, whole-put, sum-drop, Returned}
use champ_trie.Ops.Steps.{
  get_node_ok, alloc_children_ok, alloc_children_any, alloc_children_at, alloc_node_ok, node_store,
  children_store, node-Extends, children-Extends, children_stored,
}
use champ_trie.Ops.Rebuild.{inner_node, inner_stored, kids_put_old, kids_drop}
use champ_trie.Trie.{
  Trie, Slots, inner, vacant, subtree, width, slot_at, put, data_flags, node_flags, items,
  node_rank,
}
use champ_trie.Trie.Positions.{node_flags-keep, data_flags-keep, items-put_keep}
use champ_trie.Trie.Bitmaps.{node_clear}
use champ_trie.Trie.Weight.{weigh, weigh_slot, weigh-put}
use champ_trie.Trie.Remove.{is_blank, whole, removed}
use champ_trie.Trie.Repr.{
  Repr, Repr-extends, AreKids, AreKids-extends, erase_kid, set_kid, kid_at, length-kids, sum_of,
  share,
}

module _ {ℓ} {K V : Type ℓ} ⦃key : Key K⦄ ⦃h : Hash V⦄ (S : ChampStore K V)
    (law : IsChampStore S) where
  open S use {Store}
  open law use {view}

  module _ (s : Store) (sl : Slots K V) (wide : width sl ≡ 32) (f : ℕ) (small : f < 32)
      (ds cs : Idx) (kids : List Idx) (b : Block (view s).entries ds (items sl))
      (c : Block (view s).children cs kids) (below : AreKids (view s) kids sl) (t : Trie K V)
      (here : slot_at sl f ≡ subtree t) where
    abbrev counted : length kids ≡ count_true (node_flags sl)
    counted = length-kids (view s) kids sl below

    -- The child is gone.
    module _ (e : Entry K V) (weighs : share e.hash e.value ≡ weigh share t) where
      abbrev bare : Slots K V
      bare = put sl f vacant

      abbrev kids1 : List Idx
      kids1 = erase_at kids (node_rank sl f)

      abbrev s1 : Store
      s1 = children_store S law s kids1

      abbrev kids_place : Idx
      kids_place = alloc_or_sentinel (block_start (length (view s).children) kids1)

      abbrev bare_node : Node
      bare_node = inner_node bare ds kids_place

      bare_sum : wrapping_sub (sum_of (inner sl)) (contribution e) ≡ sum_of (inner bare)
      bare_sum =
          let w : weigh_slot {K = K} share (slot_at sl f) ≡ weigh share t = rw here in
          sum-drop (inner sl) (inner bare) e
            (omega (arith, w, weighs, weigh-put share sl f vacant (omega arith)))

      bare_node_lem :
          Node.inner
            (of_bits (data_flags sl))
            (bit_and (of_bits (node_flags sl)) (complement (mask f)))
            ds
            kids_place
            (wrapping_sub (sum_of (inner sl)) (contribution e))
          ≡ bare_node
      bare_node_lem =
          rw
            (
              node_clear sl wide f small vacant refl,
              data_flags-keep sl f vacant (rw here),
              bare_sum,
            )
            refl

      bare_test :
          (of_bits (data_flags sl) == 0
            && bit_and (of_bits (node_flags sl)) (complement (mask f)) == 0)
          ≡ is_blank bare
      bare_test =
          rw (node_clear sl wide f small vacant refl, ← data_flags-keep sl f vacant (rw here))
            (blank_test bare)

      pub dropped : Returned S law s (removed e (whole bare)) (
          drop_child S
            (of_bits (data_flags sl))
            (of_bits (node_flags sl))
            ds
            cs
            (sum_of (inner sl))
            (mask f)
            (index (of_bits (node_flags sl)) (mask f))
            (contribution e)
            e.value
            s)
      unfolding drop_child
      dropped = elim (Bool-cases (is_blank bare)) [
        | inl d ↦
            rw (bare_test, d)
              (record { after = s; returns = refl; extends = Extends-refl (view s) })
        | inr d ↦
            let g = children-Extends S law s kids1 in
            rw
              (
                bare_test,
                d,
                kids_drop S law s sl wide f small cs kids counted c (rw here),
                alloc_children_any S law s kids1,
                bare_node_lem,
                alloc_node_ok S law s1 bare_node,
              )
              (record {
                index = _;
                after = node_store S law s1 bare_node;
                returns = refl;
                extends = Extends-trans g (node-Extends S law s1 bare_node);
                repr =
                    inner_stored S law s1 bare kids1 ds kids_place
                      (rw (items-put_keep sl f vacant refl (rw here))
                        (Block-grows (view s).entries ds (items sl) g.entries_grow b))
                      (alloc_children_at S law s kids1)
                      (AreKids-extends g bare kids1
                        (erase_kid (view s) kids sl f vacant below refl (rw here refl)));
              })
      ]

    -- The child lives on at another index.
    module _ (e : Entry K V) (u : Trie K V) (i : Idx) (child : Repr (view s) i u)
        (weighs : share e.hash e.value + weigh share u ≡ weigh share t) where
      abbrev renewed : Slots K V
      renewed = put sl f (subtree u)

      abbrev kids2 : List Idx
      kids2 = set kids (node_rank sl f) i

      abbrev s2 : Store
      s2 = children_store S law s kids2

      abbrev renewed_node : Node
      renewed_node = inner_node renewed ds (length (view s).children)

      renewed_sum : wrapping_sub (sum_of (inner sl)) (contribution e) ≡ sum_of (inner renewed)
      renewed_sum =
          let w : weigh_slot {K = K} share (slot_at sl f) ≡ weigh share t = rw here in
          sum-drop (inner sl) (inner renewed) e
            (omega (arith, w, weighs, weigh-put share sl f (subtree u) (omega arith)))

      renewed_node_lem :
          Node.inner
            (of_bits (data_flags sl))
            (of_bits (node_flags sl))
            ds
            (length (view s).children)
            (wrapping_sub (sum_of (inner sl)) (contribution e))
          ≡ renewed_node
      renewed_node_lem =
          rw
            (
              data_flags-keep sl f (subtree u) (rw here),
              node_flags-keep sl f (subtree u) (rw here),
              renewed_sum,
            )
            refl

      pub replaced :
          (n : Node)
          → get_elem? (view s).nodes i ≡ some n
          → should_inline n ≡ false
          → Returned S law s (removed e (whole renewed)) (
              replace_child S
                (of_bits (data_flags sl))
                (of_bits (node_flags sl))
                ds
                cs
                (sum_of (inner sl))
                (mask f)
                (index (of_bits (node_flags sl)) (mask f))
                i
                (contribution e)
                e.value
                s)
      unfolding replace_child
      replaced n at stays_node =
          let g = children-Extends S law s kids2 in
          let (j, there, _) = kid_at (view s) kids sl f t below here in
          rw
            (
              get_node_ok S law s i n at,
              stays_node,
              kids_put_old S law s sl wide f small cs kids counted c i,
              alloc_children_ok S law s kids2 (
                  omega (
                    arith,
                    get_elem?-lt kids (node_rank sl f) there,
                    length-set kids (node_rank sl f) i,
                  )),
              renewed_node_lem,
              alloc_node_ok S law s2 renewed_node,
              whole-put sl f (subtree u) (omega arith) (inr refl),
            )
            (record {
              index = _;
              after = node_store S law s2 renewed_node;
              returns = refl;
              extends = Extends-trans g (node-Extends S law s2 renewed_node);
              repr =
                  inner_stored S law s2 renewed kids2 ds (length (view s).children)
                    (rw (items-put_keep sl f (subtree u) refl (rw here))
                      (Block-grows (view s).entries ds (items sl) g.entries_grow b))
                    (children_stored S law s kids2)
                    (set_kid (view s2) kids sl f u i (AreKids-extends g sl kids below)
                      (rw here refl) (Repr-extends g u i child));
            })
