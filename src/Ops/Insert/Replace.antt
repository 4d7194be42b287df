-- ===== src/Ops/Insert/Replace.antt =====
-- An insertion at a position that holds an entry of the same key.
use champ_trie.Prelude.{ℕ, ◌<◌, ◌≡◌, refl, true, some, List, ok, length, get_elem?-lt, arith}
use champ_trie.Bits.{wrapping_add, wrapping_sub}
use champ_trie.Bits.Flags.{of_bits}
use champ_trie.Hashing.{Hash, Key}
use champ_trie.Node.{Entry, Node, Idx, mask, offset}
use champ_trie.Store.{ChampStore, IsChampStore}
use champ_trie.Store.Block.{Block}
use champ_trie.Store.Views.{Block-grows, Extends-trans}
use champ_trie.Ops.Insert.{contribution, insert_at_entry}
use champ_trie.Ops.Insert.Sums.{contribution-lt, contribution_lem, sum-put}
use champ_trie.Ops.Steps.{
  get_entry_ok, alloc_entries_ok, alloc_node_ok, node_store, entries_store, node-Extends,
  entries-Extends, entries_stored,
}
use champ_trie.Ops.Rebuild.{inner_node, inner_stored, entries_put_old}
use champ_trie.Trie.{
  Slots, inner, entry, width, slot_at, put, data_flags, node_flags, items, data_rank,
}
use champ_trie.Trie.Positions.{slot_at-put_self, get_elem?-items, data_flags-keep, node_flags-keep}
use champ_trie.Trie.Bitmaps.{data_index}
use champ_trie.Trie.Repr.{AreKids, AreKids-extends, keep_kids, sum_of}
use champ_trie.Prelude.{List}
use champ_trie.Node.{index}
use champ_trie.Ops.Insert.Slots.{Inserted}
use champ_trie.Trie.Positions.{get_elem?-items}
use champ_trie.Trie.Model.{same}

module _ {ℓ} {K V : Type ℓ} ⦃key : Key K⦄ ⦃h : Hash V⦄ (S : ChampStore K V)
    (law : IsChampStore S) where
  open S use {Store}
  open law use {view}

  module _ (s : Store) (sl : Slots K V) (wide : width sl ≡ 32) (f : ℕ) (small : f < 32)
      (ds cs : Idx) (kids : List Idx) (b : Block (view s).entries ds (items sl))
      (c : Block (view s).children cs kids) (below : AreKids (view s) kids sl) where
    -- The entry of the same key gives way.
    module _ (e x : Entry K V) (here : slot_at sl f ≡ entry x) (found : same x e ≡ true) where
      abbrev sl1 : Slots K V
      sl1 = put sl f (entry e)

      abbrev s1 : Store
      s1 = entries_store S law s (items sl1)

      abbrev change : ℕ
      change = wrapping_sub (contribution e) (contribution x)

      replaced_sum : wrapping_add (sum_of (inner sl)) change ≡ sum_of (inner sl1)
      replaced_sum = sum-put sl f (entry e) change (omega arith) (
          rw here (
            omega (
              arith,
              contribution_lem e,
              contribution_lem x,
              contribution-lt e,
              contribution-lt x,
            )))

      replaced_node :
          Node.inner
            (of_bits (data_flags sl))
            (of_bits (node_flags sl))
            (length (view s).entries)
            cs
            (wrapping_add (sum_of (inner sl)) change)
          ≡ inner_node sl1 (length (view s).entries) cs
      replaced_node =
          rw
            (
              data_flags-keep sl f (entry e) (rw here),
              node_flags-keep sl f (entry e) (rw here),
              replaced_sum,
            )
            refl

      replaced_run :
          (shift : ℕ)
          → insert_at_entry S
              (of_bits (data_flags sl))
              (of_bits (node_flags sl))
              ds
              cs
              (sum_of (inner sl))
              e
              shift
              (mask f)
              s
            ≡ ok
                (record {
                  node = length (view s1).nodes;
                  adhash_delta = change;
                  old_value = some x.value;
                })
                (node_store S law s1 (inner_node sl1 (length (view s).entries) cs))
      unfolding insert_at_entry
      replaced_run shift =
          rw
            (
              get_entry_ok S law s (offset ds (index (of_bits (data_flags sl)) (mask f))) x (
                  rw (data_index sl wide f small)
                    (b (data_rank sl f) x (get_elem?-items sl f here))),
              found,
              entries_put_old S law s sl wide f small ds b e (rw here),
              alloc_entries_ok S law s (items sl1) (
                  omega (
                    arith,
                    get_elem?-lt (items sl1) _
                        (get_elem?-items sl1 f (slot_at-put_self sl f _ (omega arith))),
                  )),
              replaced_node,
              alloc_node_ok S law s1 (inner_node sl1 (length (view s).entries) cs),
            )
            refl

      pub replaced_ok :
          (shift : ℕ)
          → Inserted S law s (inner sl) (inner sl1) (some x.value) (
              insert_at_entry S
                (of_bits (data_flags sl))
                (of_bits (node_flags sl))
                ds
                cs
                (sum_of (inner sl))
                e
                shift
                (mask f)
                s)
      replaced_ok shift =
          let g = entries-Extends S law s (items sl1) in
          record {
            out = _;
            after = node_store S law s1 (inner_node sl1 (length (view s).entries) cs);
            returns = replaced_run shift;
            extends =
                Extends-trans g
                  (node-Extends S law s1 (inner_node sl1 (length (view s).entries) cs));
            repr =
                inner_stored S law s1 sl1 kids (length (view s).entries) cs
                  (entries_stored S law s (items sl1))
                  (Block-grows (view s).children cs kids g.children_grow c)
                  (AreKids-extends g sl1 kids
                    (keep_kids (view s) kids sl f (entry e) below refl (rw here refl)));
            delta = replaced_sum;
            old_lem = refl;
          }
