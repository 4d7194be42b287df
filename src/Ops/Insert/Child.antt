-- ===== src/Ops/Insert/Child.antt =====
-- An insertion at a position that holds a subtree.
use champ_trie.Prelude.{
  ℕ, ◌+◌, ◌<◌, ◌≡◌, refl, Option, some, List, ok, length, set, get_elem?, get_elem?-lt, arith,
}
use champ_trie.Bits.{wrapping_add}
use champ_trie.Bits.Flags.{of_bits}
use champ_trie.Hashing.{Hash, Key}
use champ_trie.Node.{Entry, Node, Idx, mask, offset}
use champ_trie.Store.{ChampStore, IsChampStore}
use champ_trie.Store.Block.{Block}
use champ_trie.Store.Views.{Block-grows, Extends-trans}
use champ_trie.Ops.Insert.{InsertOutcome, insert_at_child}
use champ_trie.Ops.Insert.Sums.{sum-put}
use champ_trie.Ops.Steps.{
  get_child_ok, alloc_children_ok, alloc_node_ok, node_store, children_store, node-Extends,
  children-Extends, children_stored,
}
use champ_trie.Ops.Rebuild.{inner_node, inner_stored, kids_put_old}
use champ_trie.Trie.{
  Trie, Slots, inner, subtree, width, slot_at, put, data_flags, node_flags, items, node_rank,
}
use champ_trie.Trie.Positions.{data_flags-keep, node_flags-keep, items-put_keep}
use champ_trie.Trie.Bitmaps.{node_index}
use champ_trie.Trie.Repr.{Repr, AreKids, AreKids-extends, set_kid, length-kids, sum_of}
use champ_trie.Prelude.{List}
use champ_trie.Node.{bits_per_level, index}
use champ_trie.Ops.Insert.Slots.{Inserted}
use champ_trie.Trie.Positions.{items-put_keep}
use champ_trie.Trie.Repr.{kid_at, Repr-extends}
use champ_trie.Prelude.{Cmd, length-set}

module _ {ℓ} {K V : Type ℓ} ⦃key : Key K⦄ ⦃h : Hash V⦄ (S : ChampStore K V)
    (law : IsChampStore S) where
  open S use {Store}
  open law use {view}

  module _ (s : Store) (sl : Slots K V) (wide : width sl ≡ 32) (f : ℕ) (small : f < 32)
      (ds cs : Idx) (kids : List Idx) (b : Block (view s).entries ds (items sl))
      (c : Block (view s).children cs kids) (below : AreKids (view s) kids sl) where
    -- The insertion went on in the subtree.
    module _ (e : Entry K V) (shift : ℕ) (t t' : Trie K V) (here : slot_at sl f ≡ subtree t)
        (old : Option V) (descend : Idx → Entry K V → ℕ → Cmd Store (InsertOutcome V))
        (done : (k : Idx)
          → Repr (view s) k t
          → Inserted S law s t t' old (descend k e (shift + bits_per_level) s)) where
      abbrev sl3 : Slots K V
      sl3 = put sl f (subtree t')

      module _ (k : Idx) (at : get_elem? kids (node_rank sl f) ≡ some k)
          (run : Inserted S law s t t' old (descend k e (shift + bits_per_level) s)) where
        abbrev kids3 : List Idx
        kids3 = set kids (node_rank sl f) run.out.node

        abbrev s3 : Store
        s3 = children_store S law run.after kids3

        abbrev renewed : Node
        renewed = inner_node sl3 ds (length (view run.after).children)

        child_sum : wrapping_add (sum_of (inner sl)) run.out.adhash_delta ≡ sum_of (inner sl3)
        child_sum =
            sum-put sl f (subtree t') run.out.adhash_delta (omega arith)
              (rw here (omega (arith, run.delta)))

        child_node :
            Node.inner
              (of_bits (data_flags sl))
              (of_bits (node_flags sl))
              ds
              (length (view run.after).children)
              (wrapping_add (sum_of (inner sl)) run.out.adhash_delta)
            ≡ renewed
        child_node =
            rw
              (
                data_flags-keep sl f (subtree t') (rw here),
                node_flags-keep sl f (subtree t') (rw here),
                child_sum,
              )
              refl

        child_run :
            insert_at_child S descend
              (of_bits (data_flags sl))
              (of_bits (node_flags sl))
              ds
              cs
              (sum_of (inner sl))
              e
              shift
              (mask f)
              s
            ≡ ok (record run.out { node = length (view s3).nodes }) (node_store S law s3 renewed)
        unfolding insert_at_child
        child_run =
            let g = run.extends in
            rw
              (
                get_child_ok S law s (offset cs (index (of_bits (node_flags sl)) (mask f))) k
                    (rw (node_index sl wide f small) (c (node_rank sl f) k at)),
                run.returns,
                kids_put_old S law run.after sl wide f small cs kids
                    (length-kids (view s) kids sl below)
                    (Block-grows (view s).children cs kids g.children_grow c) run.out.node,
                alloc_children_ok S law run.after kids3 (
                    omega (
                      arith,
                      get_elem?-lt kids (node_rank sl f) at,
                      length-set kids (node_rank sl f) run.out.node,
                    )),
                child_node,
                alloc_node_ok S law s3 renewed,
              )
              refl

        child_ok_at : Inserted S law s (inner sl) (inner sl3) old (
            insert_at_child S descend
              (of_bits (data_flags sl))
              (of_bits (node_flags sl))
              ds
              cs
              (sum_of (inner sl))
              e
              shift
              (mask f)
              s)
        child_ok_at =
            let g1 = children-Extends S law run.after kids3 in
            let g = Extends-trans run.extends g1 in
            record {
              out = _;
              after = node_store S law s3 renewed;
              returns = child_run;
              extends = Extends-trans g (node-Extends S law s3 renewed);
              repr =
                  inner_stored S law s3 sl3 kids3 ds (length (view run.after).children)
                    (rw (items-put_keep sl f (subtree t') refl (rw here))
                      (Block-grows (view s).entries ds (items sl) g.entries_grow b))
                    (children_stored S law run.after kids3)
                    (set_kid (view s3) kids sl f t' run.out.node (AreKids-extends g sl kids below)
                      (rw here refl) (Repr-extends g1 t' run.out.node run.repr));
              delta = child_sum;
              old_lem = run.old_lem;
            }

      pub child_ok : Inserted S law s (inner sl) (inner sl3) old (
          insert_at_child S descend
            (of_bits (data_flags sl))
            (of_bits (node_flags sl))
            ds
            cs
            (sum_of (inner sl))
            e
            shift
            (mask f)
            s)
      child_ok =
          let (k, at, r) = kid_at (view s) kids sl f t below here in child_ok_at k at (done k r)
