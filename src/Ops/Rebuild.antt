-- ===== src/Ops/Rebuild.antt =====
-- The builders of the source on the blocks of a node, for a write of one position.
use champ_trie.Prelude.{
  ℕ, ◌<◌, ◌≡◌, refl, ◌∙◌, true, false, bit_or, List, ok, length, set, insert_at, erase_at,
  count_true, arith,
}
use champ_trie.Bits.{count_ones}
use champ_trie.Bits.Flags.{of_bits}
use champ_trie.Hashing.{Hash}
use champ_trie.Node.{Entry, Node, Idx, mask, index}
use champ_trie.Store.{ChampStore, IsChampStore}
use champ_trie.Store.Views.{Block-grows}
use champ_trie.Ops.Blocks.{
  build_entries_inserting, build_entries_replacing, build_entries_removing,
  build_children_inserting, build_children_replacing, build_children_removing,
}
use champ_trie.Store.Block.{Block}
use champ_trie.Ops.Blocks.Builds.{
  entries_inserting_ok, entries_replacing_ok, entries_removing_ok, children_inserting_ok,
  children_replacing_ok, children_removing_ok,
}
use champ_trie.Ops.Steps.{node_store, node_stored, node-Extends}
use champ_trie.Trie.{
  Trie, Slot, Slots, inner, entry, subtree, is_entry, is_subtree, width, slot_at, put, data_flags,
  node_flags, items, data_rank, node_rank,
}
use champ_trie.Trie.Positions.{
  width-put, items-put_insert, items-put_replace, items-put_erase, data_rank-put, node_rank-put,
  data_rank-le, data_rank-lt, node_rank-le, node_rank-lt,
}
use champ_trie.Trie.Bitmaps.{data_count, node_count, data_index, node_index, data_set, node_set}
use champ_trie.Trie.Repr.{Repr, AreKids, AreKids-extends, sum_of}

abbrev pub inner_node {ℓ} : {K V : Type ℓ} ⦃h : Hash V⦄ → Slots K V → Idx → Idx → Node
inner_node sl data_start children_start =
    Node.inner (of_bits (data_flags sl)) (of_bits (node_flags sl)) data_start children_start
      (sum_of (inner sl))

module _ {ℓ} {K V : Type ℓ} (S : ChampStore K V) (law : IsChampStore S) (s : S.Store) where
  open law use {view}

  -- A node over blocks that stand in the store represents its positions.
  pub inner_stored :
      ⦃h : Hash V⦄ (sl : Slots K V) (kids : List Idx) (ds cs : Idx)
      → Block (view s).entries ds (items sl)
      → Block (view s).children cs kids
      → AreKids (view s) kids sl
      → Repr (view (node_store S law s (inner_node sl ds cs))) (length (view s).nodes) (inner sl)
  inner_stored sl kids ds cs b c a =
      let x = node-Extends S law s (inner_node sl ds cs) in
      (
        kids,
        record {
          data_start = ds;
          children_start = cs;
          node_at = node_stored S law s (inner_node sl ds cs);
          items_at = Block-grows (view s).entries ds (items sl) x.entries_grow b;
          kids_at = Block-grows (view s).children cs kids x.children_grow c;
        },
        AreKids-extends x sl kids a,
      )

  module _ (sl : Slots K V) (wide : width sl ≡ 32) (f : ℕ) (small : f < 32) (ds : Idx)
      (b : Block (view s).entries ds (items sl)) where
    -- An entry at a position that holds none.
    pub entries_put_new :
        (e : Entry K V)
        → is_entry (slot_at sl f) ≡ false
        → build_entries_inserting S ds
            (count_ones (of_bits (data_flags sl)))
            (index (bit_or (of_bits (data_flags sl)) (mask f)) (mask f))
            e
            s
          ≡ ok (items (put sl f (entry e))) s
    entries_put_new e h =
        let sl' = put sl f (entry e) in
        rw
          (
            data_set sl wide f small (entry e) refl,
            data_index sl' (width-put sl f (entry e) ∙ wide) f small,
            data_rank-put sl f (entry e),
            data_count sl wide,
            items-put_insert sl f e (omega arith) h,
          )
          (entries_inserting_ok S law s ds (items sl) b (data_rank sl f) e (data_rank-le sl f))

    -- An entry in place of another.
    pub entries_put_old :
        (e : Entry K V)
        → is_entry (slot_at sl f) ≡ true
        → build_entries_replacing S ds
            (count_ones (of_bits (data_flags sl)))
            (index (of_bits (data_flags sl)) (mask f))
            e
            s
          ≡ ok (items (put sl f (entry e))) s
    entries_put_old e h =
        rw (data_index sl wide f small, data_count sl wide, items-put_replace sl f e h)
          (entries_replacing_ok S law s ds (items sl) b (data_rank sl f) e (data_rank-lt sl f h))

    -- No entry in place of one.
    pub entries_drop :
        (y : Slot K V)
        → is_entry y ≡ false
        → is_entry (slot_at sl f) ≡ true
        → build_entries_removing S ds
            (count_ones (of_bits (data_flags sl)))
            (index (of_bits (data_flags sl)) (mask f))
            s
          ≡ ok (items (put sl f y)) s
    entries_drop y n h =
        rw (data_index sl wide f small, data_count sl wide, items-put_erase sl f y n h)
          (entries_removing_ok S law s ds (items sl) b (data_rank sl f)
            (omega (arith, data_rank-lt sl f h)))

  module _ (sl : Slots K V) (wide : width sl ≡ 32) (f : ℕ) (small : f < 32) (cs : Idx)
      (kids : List Idx) (counted : length kids ≡ count_true (node_flags sl))
      (b : Block (view s).children cs kids) where
    pub kids_put_new :
        (t : Trie K V) (c : Idx)
        → build_children_inserting S cs
            (count_ones (of_bits (node_flags sl)))
            (index (bit_or (of_bits (node_flags sl)) (mask f)) (mask f))
            c
            s
          ≡ ok (insert_at kids (node_rank sl f) c) s
    kids_put_new t c =
        let sl' = put sl f (subtree t) in
        rw
          (
            node_set sl wide f small (subtree t) refl,
            node_index sl' (width-put sl f (subtree t) ∙ wide) f small,
            node_rank-put sl f (subtree t),
            node_count sl wide,
            ← counted,
          )
          (children_inserting_ok S law s cs kids b (node_rank sl f) c
            (omega (arith, node_rank-le sl f)))

    pub kids_put_old :
        (c : Idx)
        → build_children_replacing S cs
            (count_ones (of_bits (node_flags sl)))
            (index (of_bits (node_flags sl)) (mask f))
            c
            s
          ≡ ok (set kids (node_rank sl f) c) s
    kids_put_old c =
        rw (node_index sl wide f small, node_count sl wide, ← counted)
          (children_replacing_ok S law s cs kids b (node_rank sl f) c)

    pub kids_drop :
        is_subtree (slot_at sl f) ≡ true
        → build_children_removing S cs
            (count_ones (of_bits (node_flags sl)))
            (index (of_bits (node_flags sl)) (mask f))
            s
          ≡ ok (erase_at kids (node_rank sl f)) s
    kids_drop h =
        rw (node_index sl wide f small, node_count sl wide, ← counted)
          (children_removing_ok S law s cs kids b (node_rank sl f)
            (omega (arith, node_rank-lt sl f h)))
