-- ===== src/Ops/Insert/Push.antt =====
-- An insertion at a position that holds an entry of another key.
use champ_trie.Prelude.{
  ℕ, ◌+◌, ◌<◌, ◌≡◌, refl, false, bit_or, none, some, List, ok, length, get_elem?, arith,
}
use champ_trie.Bits.{wrapping_add}
use champ_trie.Bits.Flags.{of_bits}
use champ_trie.Hashing.{Hash, Key}
use champ_trie.Node.{Entry, Node, Idx, mask, offset}
use champ_trie.Store.{ChampStore, IsChampStore}
use champ_trie.Store.Block.{Block}
use champ_trie.Store.Views.{Block-grows, Extends-trans}
use champ_trie.Ops.Insert.{contribution, insert_at_entry}
use champ_trie.Ops.Insert.Sums.{contribution_lem, sum-put}
use champ_trie.Ops.Steps.{
  get_entry_ok, alloc_children_ok, alloc_node_ok, node_store, entries_store, children_store,
  node-Extends, entries-Extends, children-Extends, children_stored,
}
use champ_trie.Ops.Rebuild.{inner_node, inner_stored}
use champ_trie.Trie.{
  Trie, Slots, inner, entry, subtree, width, slot_at, put, data_flags, node_flags, items, data_rank,
  node_rank,
}
use champ_trie.Trie.Positions.{get_elem?-items}
use champ_trie.Trie.Bitmaps.{data_index}
use champ_trie.Trie.Weight.{weigh}
use champ_trie.Trie.Repr.{AreKids, AreKids-extends, length-kids, sum_of, share}
use champ_trie.Ops.Insert.{create_subtree}
use champ_trie.Bits.{complement}
use champ_trie.Prelude.{bit_and, List}
use champ_trie.Node.{bits_per_level, index}
use champ_trie.Ops.{levels}
use champ_trie.Ops.Blocks.{alloc_or_sentinel}
use champ_trie.Ops.Insert.Slots.{Inserted}
use champ_trie.Ops.Insert.Subtree.{Made}
use champ_trie.Ops.Steps.{clone_entry_ok, alloc_entries_any, alloc_entries_at}
use champ_trie.Ops.Rebuild.{entries_drop, kids_put_new}
use champ_trie.Store.{block_start}
use champ_trie.Trie.Positions.{get_elem?-items}
use champ_trie.Trie.Bitmaps.{data_clear, node_set}
use champ_trie.Trie.Model.{same}
use champ_trie.Trie.Repr.{insert_kid, Repr-extends}
use champ_trie.Prelude.{insert_at, length-insert_at}

module _ {ℓ} {K V : Type ℓ} ⦃key : Key K⦄ ⦃h : Hash V⦄ (S : ChampStore K V)
    (law : IsChampStore S) where
  open S use {Store}
  open law use {view}

  module _ (s : Store) (sl : Slots K V) (wide : width sl ≡ 32) (f : ℕ) (small : f < 32)
      (ds cs : Idx) (kids : List Idx) (b : Block (view s).entries ds (items sl))
      (c : Block (view s).children cs kids) (below : AreKids (view s) kids sl) where
    -- Two keys at one position: both go into a subtree.
    module _ (e x : Entry K V) (here : slot_at sl f ≡ entry x) (other : same x e ≡ false)
        (shift : ℕ) (t : Trie K V)
        (made : Made S law s t (create_subtree S levels x e (shift + bits_per_level) s))
        (weighs : weigh share t ≡ share x.hash x.value + share e.hash e.value) where
      abbrev sl2 : Slots K V
      sl2 = put sl f (subtree t)

      abbrev kids2 : List Idx
      kids2 = insert_at kids (node_rank sl f) made.index

      abbrev s1 : Store
      s1 = entries_store S law made.after (items sl2)

      abbrev s2 : Store
      s2 = children_store S law s1 kids2

      abbrev data_at : Idx
      data_at = alloc_or_sentinel (block_start (length (view made.after).entries) (items sl2))

      abbrev pushed : Node
      pushed = inner_node sl2 data_at (length (view s1).children)

      pushed_sum : wrapping_add (sum_of (inner sl)) (contribution e) ≡ sum_of (inner sl2)
      pushed_sum =
          sum-put sl f (subtree t) (contribution e) (omega arith)
            (rw here (omega (arith, contribution_lem e, weighs)))

      pushed_node :
          Node.inner
            (bit_and (of_bits (data_flags sl)) (complement (mask f)))
            (bit_or (of_bits (node_flags sl)) (mask f))
            data_at
            (length (view s1).children)
            (wrapping_add (sum_of (inner sl)) (contribution e))
          ≡ pushed
      pushed_node =
          rw
            (
              data_clear sl wide f small (subtree t) refl,
              node_set sl wide f small (subtree t) refl,
              pushed_sum,
            )
            refl

      pushed_run :
          insert_at_entry S
            (of_bits (data_flags sl))
            (of_bits (node_flags sl))
            ds
            cs
            (sum_of (inner sl))
            e
            shift
            (mask f)
            s
          ≡ ok
              (record {
                node = length (view s2).nodes;
                adhash_delta = contribution e;
                old_value = none;
              })
              (node_store S law s2 pushed)
      unfolding insert_at_entry
      pushed_run =
          let at = offset ds (index (of_bits (data_flags sl)) (mask f)) in
          let old : get_elem? (view s).entries at ≡ some x =
            rw (data_index sl wide f small) (b (data_rank sl f) x (get_elem?-items sl f here)) in
          let g = made.extends in
          rw
            (
              get_entry_ok S law s at x old,
              other,
              clone_entry_ok S law s at x old,
              made.returns,
              entries_drop S law made.after sl wide f small ds
                  (Block-grows (view s).entries ds (items sl) g.entries_grow b) (subtree t) refl
                  (rw here),
              kids_put_new S law made.after sl wide f small cs kids
                  (length-kids (view s) kids sl below)
                  (Block-grows (view s).children cs kids g.children_grow c) t made.index,
              alloc_entries_any S law made.after (items sl2),
              alloc_children_ok S law s1 kids2
                  (omega (arith, length-insert_at kids (node_rank sl f) made.index)),
              pushed_node,
              alloc_node_ok S law s2 pushed,
            )
            refl

      pub pushed_ok : Inserted S law s (inner sl) (inner sl2) none (
          insert_at_entry S
            (of_bits (data_flags sl))
            (of_bits (node_flags sl))
            ds
            cs
            (sum_of (inner sl))
            e
            shift
            (mask f)
            s)
      pushed_ok =
          let g1 = entries-Extends S law made.after (items sl2) in
          let g2 = children-Extends S law s1 kids2 in
          let g12 = Extends-trans g1 g2 in
          let g = Extends-trans made.extends g12 in
          record {
            out = _;
            after = node_store S law s2 pushed;
            returns = pushed_run;
            extends = Extends-trans g (node-Extends S law s2 pushed);
            repr =
                inner_stored S law s2 sl2 kids2 data_at (length (view s1).children)
                  (Block-grows (view s1).entries data_at (items sl2) g2.entries_grow
                    (alloc_entries_at S law made.after (items sl2)))
                  (children_stored S law s1 kids2)
                  (insert_kid (view s2) kids sl f t made.index (AreKids-extends g sl kids below)
                    (omega arith) (rw here refl) (Repr-extends g12 t made.index made.repr));
            delta = pushed_sum;
            old_lem = refl;
          }
