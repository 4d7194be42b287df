-- ===== src/Ops/Insert/Slots.antt =====
-- One position of an inner node under `insert_into_inner`: the node that the code allocates
-- represents the positions with that one written.
use champ_trie.Prelude.{
  ℕ, ◌<◌, ◌≡◌, refl, bit_or, Option, none, List, Run, ok, length, get_elem?-lt, arith,
}
use champ_trie.Bits.{wrapping_add}
use champ_trie.Bits.Flags.{of_bits}
use champ_trie.Hashing.{Hash, Key}
use champ_trie.Node.{Entry, Node, Idx, mask}
use champ_trie.Store.{ChampStore, IsChampStore, Extends}
use champ_trie.Store.Block.{Block}
use champ_trie.Store.Views.{Block-grows, Extends-trans}
use champ_trie.Ops.Insert.{InsertOutcome, contribution, insert_at_empty}
use champ_trie.Ops.Insert.Sums.{contribution_lem, sum-put}
use champ_trie.Ops.Steps.{
  alloc_entries_ok, alloc_node_ok, node_store, entries_store, node-Extends, entries-Extends,
  entries_stored,
}
use champ_trie.Ops.Rebuild.{inner_node, inner_stored, entries_put_new}
use champ_trie.Trie.{
  Trie, Slots, inner, vacant, entry, width, slot_at, put, data_flags, node_flags, items,
}
use champ_trie.Trie.Positions.{slot_at-put_self, get_elem?-items, node_flags-keep}
use champ_trie.Trie.Bitmaps.{data_set}
use champ_trie.Trie.Repr.{Repr, AreKids, AreKids-extends, keep_kids, sum_of}

module _ {ℓ} {K V : Type ℓ} ⦃key : Key K⦄ ⦃h : Hash V⦄ (S : ChampStore K V)
    (law : IsChampStore S) where
  open S use {Store}
  open law use {view}

  -- The run returns a tree `t'` in a grown store, with the change of the sum and the old value.
  pub record Inserted (s : Store) (t t' : Trie K V) (old : Option V)
      (run : Run Store (InsertOutcome V)) : Type ℓ where
    pub out : InsertOutcome V
    pub after : Store
    pub returns : run ≡ ok out after
    pub extends : Extends (view s) (view after)
    pub repr : Repr (view after) out.node t'
    pub delta : wrapping_add (sum_of t) out.adhash_delta ≡ sum_of t'
    pub old_lem : out.old_value ≡ old

  module _ (s : Store) (sl : Slots K V) (wide : width sl ≡ 32) (f : ℕ) (small : f < 32)
      (ds cs : Idx) (kids : List Idx) (b : Block (view s).entries ds (items sl))
      (c : Block (view s).children cs kids) (below : AreKids (view s) kids sl) where
    abbrev here : Node
    here = inner_node sl ds cs

    module _ (e : Entry K V) (free : slot_at sl f ≡ vacant) where
      abbrev sl1 : Slots K V
      sl1 = put sl f (entry e)

      abbrev s1 : Store
      s1 = entries_store S law s (items sl1)

      empty_sum : wrapping_add (sum_of (inner sl)) (contribution e) ≡ sum_of (inner sl1)
      empty_sum =
          sum-put sl f (entry e) (contribution e) (omega arith)
            (rw (free, contribution_lem e) (omega arith))

      empty_node :
          Node.inner
            (bit_or (of_bits (data_flags sl)) (mask f))
            (of_bits (node_flags sl))
            (length (view s).entries)
            cs
            (wrapping_add (sum_of (inner sl)) (contribution e))
          ≡ inner_node sl1 (length (view s).entries) cs
      empty_node =
          rw
            (
              data_set sl wide f small (entry e) refl,
              node_flags-keep sl f (entry e) (rw free),
              empty_sum,
            )
            refl

      empty_run :
          insert_at_empty S
            (of_bits (data_flags sl))
            (of_bits (node_flags sl))
            ds
            cs
            (sum_of (inner sl))
            e
            (mask f)
            s
          ≡ ok
              (record {
                node = length (view s1).nodes;
                adhash_delta = contribution e;
                old_value = none;
              })
              (node_store S law s1 (inner_node sl1 (length (view s).entries) cs))
      unfolding insert_at_empty
      empty_run =
          rw
            (
              entries_put_new S law s sl wide f small ds b e (rw free),
              alloc_entries_ok S law s (items sl1) (
                  omega (
                    arith,
                    get_elem?-lt (items sl1) _
                        (get_elem?-items sl1 f (slot_at-put_self sl f _ (omega arith))),
                  )),
              empty_node,
              alloc_node_ok S law s1 (inner_node sl1 (length (view s).entries) cs),
            )
            refl

      pub empty_ok : Inserted s (inner sl) (inner sl1) none (
          insert_at_empty S
            (of_bits (data_flags sl))
            (of_bits (node_flags sl))
            ds
            cs
            (sum_of (inner sl))
            e
            (mask f)
            s)
      empty_ok =
          let x = entries-Extends S law s (items sl1) in
          record {
            out = _;
            after = node_store S law s1 (inner_node sl1 (length (view s).entries) cs);
            returns = empty_run;
            extends =
                Extends-trans x
                  (node-Extends S law s1 (inner_node sl1 (length (view s).entries) cs));
            repr =
                inner_stored S law s1 sl1 kids (length (view s).entries) cs
                  (entries_stored S law s (items sl1))
                  (Block-grows (view s).children cs kids x.children_grow c)
                  (AreKids-extends x sl1 kids
                    (keep_kids (view s) kids sl f (entry e) below refl (rw free refl)));
            delta = empty_sum;
            old_lem = refl;
          }
