-- ===== src/Ops/Remove/Inline.antt =====
-- `inline_child`.
use champ_trie.Prelude.{
  ℕ, ◌+◌, ◌<◌, ◌≡◌, refl, true, some, bit_and, bit_or, List, ok, length, erase_at, count_true,
  get_elem?, get_elem?-lt, arith, inl,
}
use champ_trie.Bits.{complement, wrapping_sub}
use champ_trie.Bits.Flags.{of_bits}
use champ_trie.Hashing.{Hash, Key}
use champ_trie.Node.{Entry, Node, Idx, mask, index}
use champ_trie.Store.{ChampStore, IsChampStore, block_start}
use champ_trie.Store.Block.{Block}
use champ_trie.Store.Views.{Block-grows, Extends-trans}
use champ_trie.Ops.Blocks.{alloc_or_sentinel}
use champ_trie.Ops.Insert.{contribution}
use champ_trie.Ops.Remove
use champ_trie.Ops.Remove.{
  drop_child, replace_child, inline_child, inline_start, after_child, remove_from_child,
  should_inline, RemoveOutcome,
}
use champ_trie.Ops.Remove.Outcomes.{whole-put, sum-drop, Returned}
use champ_trie.Ops.Steps.{
  get_node_ok, clone_entry_ok, alloc_entries_ok, alloc_children_any, alloc_children_at,
  alloc_node_ok, node_store, entries_store, children_store, node-Extends, entries-Extends,
  children-Extends, entries_stored,
}
use champ_trie.Ops.Rebuild.{inner_node, inner_stored, entries_put_new, kids_drop}
use champ_trie.Trie.{
  Trie, Slots, inner, entry, subtree, width, slot_at, put, data_flags, node_flags, items, node_rank,
}
use champ_trie.Trie.Positions.{get_elem?-items, slot_at-put_self}
use champ_trie.Trie.Bitmaps.{data_set, node_clear}
use champ_trie.Trie.Weight.{weigh, weigh_slot, weigh-put}
use champ_trie.Trie.Remove.{whole, removed}
use champ_trie.Trie.Repr.{AreKids, AreKids-extends, erase_kid, length-kids, sum_of, share}

module _ {ℓ} {K V : Type ℓ} ⦃key : Key K⦄ ⦃h : Hash V⦄ (S : ChampStore K V)
    (law : IsChampStore S) where
  open S use {Store}
  open law use {view}

  module _ (s : Store) (sl : Slots K V) (wide : width sl ≡ 32) (f : ℕ) (small : f < 32)
      (ds cs : Idx) (kids : List Idx) (b : Block (view s).entries ds (items sl))
      (c : Block (view s).children cs kids) (below : AreKids (view s) kids sl) (t : Trie K V)
      (here : slot_at sl f ≡ subtree t) where
    abbrev counted : length kids ≡ count_true (node_flags sl)
    counted = length-kids (view s) kids sl below

    -- The child has one entry left, which comes into its parent.
    module _ (e x : Entry K V) (i : Idx)
        (child_data child_kids child_start child_children child_sum : ℕ)
        (at : get_elem? (view s).nodes i
          ≡ some (Node.inner child_data child_kids child_start child_children child_sum))
        (yes_inline : should_inline
            (Node.inner child_data child_kids child_start child_children child_sum)
          ≡ true)
        (held : get_elem? (view s).entries child_start ≡ some x)
        (weighs : share e.hash e.value + share x.hash x.value ≡ weigh share t) where
      abbrev raised : Slots K V
      raised = put sl f (entry x)

      abbrev kids3 : List Idx
      kids3 = erase_at kids (node_rank sl f)

      abbrev s3 : Store
      s3 = entries_store S law s (items raised)

      abbrev s4 : Store
      s4 = children_store S law s3 kids3

      abbrev kids_place : Idx
      kids_place = alloc_or_sentinel (block_start (length (view s3).children) kids3)

      abbrev raised_node : Node
      raised_node = inner_node raised (length (view s).entries) kids_place

      raised_sum : wrapping_sub (sum_of (inner sl)) (contribution e) ≡ sum_of (inner raised)
      raised_sum =
          let w : weigh_slot {K = K} share (slot_at sl f) ≡ weigh share t = rw here in
          sum-drop (inner sl) (inner raised) e
            (omega (arith, w, weighs, weigh-put share sl f (entry x) (omega arith)))

      raised_node_lem :
          Node.inner
            (bit_or (of_bits (data_flags sl)) (mask f))
            (bit_and (of_bits (node_flags sl)) (complement (mask f)))
            (length (view s).entries)
            kids_place
            (wrapping_sub (sum_of (inner sl)) (contribution e))
          ≡ raised_node
      raised_node_lem =
          rw
            (
              data_set sl wide f small (entry x) refl,
              node_clear sl wide f small (entry x) refl,
              raised_sum,
            )
            refl

      inline_run :
          replace_child S
            (of_bits (data_flags sl))
            (of_bits (node_flags sl))
            ds
            cs
            (sum_of (inner sl))
            (mask f)
            (index (of_bits (node_flags sl)) (mask f))
            i
            (contribution e)
            e.value
            s
          ≡ ok
              (Remove.removed (some (length (view s4).nodes)) (contribution e) e.value)
              (node_store S law s4 raised_node)
      unfolding replace_child inline_child inline_start
      inline_run =
          let g = entries-Extends S law s (items raised) in
          rw
            (
              get_node_ok S law s i _ at,
              yes_inline,
              get_node_ok S law s i _ at,
              clone_entry_ok S law s child_start x held,
              entries_put_new S law s sl wide f small ds b x (rw here),
              kids_drop S law s sl wide f small cs kids counted c (rw here),
              alloc_entries_ok S law s (items raised) (
                  omega (
                    arith,
                    get_elem?-lt (items raised) _
                        (get_elem?-items raised f (slot_at-put_self sl f (entry x) (omega arith))),
                  )),
              alloc_children_any S law s3 kids3,
              raised_node_lem,
              alloc_node_ok S law s4 raised_node,
            )
            refl

      pub inlined_ok : Returned S law s (removed e (whole raised)) (
          replace_child S
            (of_bits (data_flags sl))
            (of_bits (node_flags sl))
            ds
            cs
            (sum_of (inner sl))
            (mask f)
            (index (of_bits (node_flags sl)) (mask f))
            i
            (contribution e)
            e.value
            s)
      inlined_ok =
          let g1 = entries-Extends S law s (items raised) in
          let g2 = children-Extends S law s3 kids3 in
          let g = Extends-trans g1 g2 in
          rw (whole-put sl f (entry x) (omega arith) (inl refl)) (record {
            index = _;
            after = node_store S law s4 raised_node;
            returns = inline_run;
            extends = Extends-trans g (node-Extends S law s4 raised_node);
            repr =
                inner_stored S law s4 raised kids3 (length (view s).entries) kids_place
                  (Block-grows (view s3).entries (length (view s).entries) (items raised)
                    g2.entries_grow (entries_stored S law s (items raised)))
                  (alloc_children_at S law s3 kids3)
                  (AreKids-extends g raised kids3
                    (erase_kid (view s) kids sl f (entry x) below refl (rw here refl)));
          })
