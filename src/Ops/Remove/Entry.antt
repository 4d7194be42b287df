-- ===== src/Ops/Remove/Entry.antt =====
-- `remove_at_entry`, at a position that holds an entry.
use champ_trie.Prelude.{
  ℕ, ◌<◌, ◌≡◌, refl, true, false, some, bit_and, List, length, get_elem?, arith, ◌==◌, ◌&&◌,
  Bool-cases, inl, inr,
}
use champ_trie.Bits.{complement, wrapping_sub}
use champ_trie.Bits.Flags.{of_bits}
use champ_trie.Hashing.{Hash, Key}
use champ_trie.Node.{Entry, Node, Idx, mask, index, offset}
use champ_trie.Store.{ChampStore, IsChampStore, block_start}
use champ_trie.Store.Block.{Block}
use champ_trie.Store.Views.{Block-grows, Extends-trans, Extends-refl}
use champ_trie.Ops.Blocks.{alloc_or_sentinel}
use champ_trie.Ops.Insert.{contribution}
use champ_trie.Ops.Remove.{remove_at_entry}
use champ_trie.Ops.Remove.Outcomes.{blank_test, sum-drop, Returned}
use champ_trie.Ops.Steps.{
  get_entry_ok, alloc_entries_any, alloc_entries_at, alloc_node_ok, node_store, entries_store,
  node-Extends, entries-Extends,
}
use champ_trie.Ops.Rebuild.{inner_node, inner_stored, entries_drop}
use champ_trie.Trie.{
  Slots, inner, vacant, entry, width, slot_at, put, data_flags, node_flags, items, data_rank,
}
use champ_trie.Trie.Positions.{get_elem?-items, node_flags-keep}
use champ_trie.Trie.Bitmaps.{data_clear, data_index}
use champ_trie.Trie.Weight.{weigh_slot, weigh-put}
use champ_trie.Trie.Remove.{is_blank, whole, absent, removed}
use champ_trie.Trie.Repr.{AreKids, AreKids-extends, keep_kids, sum_of, share}

module _ {ℓ} {K V : Type ℓ} ⦃key : Key K⦄ ⦃h : Hash V⦄ (S : ChampStore K V)
    (law : IsChampStore S) where
  open S use {Store}
  open law use {view}

  module _ (s : Store) (sl : Slots K V) (wide : width sl ≡ 32) (f : ℕ) (small : f < 32)
      (ds cs : Idx) (kids : List Idx) (b : Block (view s).entries ds (items sl))
      (c : Block (view s).children cs kids) (below : AreKids (view s) kids sl) (x : Entry K V)
      (here : slot_at sl f ≡ entry x) where
    abbrev bare : Slots K V
    bare = put sl f vacant

    abbrev at : Idx
    at = offset ds (index (of_bits (data_flags sl)) (mask f))

    stands : get_elem? (view s).entries at ≡ some x
    stands = rw (data_index sl wide f small) (b (data_rank sl f) x (get_elem?-items sl f here))

    abbrev s1 : Store
    s1 = entries_store S law s (items bare)

    abbrev data_at : Idx
    data_at = alloc_or_sentinel (block_start (length (view s).entries) (items bare))

    abbrev rest_node : Node
    rest_node = inner_node bare data_at cs

    bare_sum : wrapping_sub (sum_of (inner sl)) (contribution x) ≡ sum_of (inner bare)
    bare_sum =
        let w : weigh_slot {K = K} share (slot_at sl f) ≡ share x.hash x.value = rw here in
        sum-drop (inner sl) (inner bare) x
          (omega (arith, w, weigh-put share sl f vacant (omega arith)))

    module _ (hash : ℕ) (k : K) (found : (x.hash == hash && key.equal x.key k) ≡ true) where
      bare_test :
          (bit_and (of_bits (data_flags sl)) (complement (mask f)) == 0
            && of_bits (node_flags sl) == 0)
          ≡ is_blank bare
      bare_test =
          rw (data_clear sl wide f small vacant refl, ← node_flags-keep sl f vacant (rw here))
            (blank_test bare)

      rest_node_lem :
          Node.inner
            (bit_and (of_bits (data_flags sl)) (complement (mask f)))
            (of_bits (node_flags sl))
            data_at
            cs
            (wrapping_sub (sum_of (inner sl)) (contribution x))
          ≡ rest_node
      rest_node_lem =
          rw
            (
              data_clear sl wide f small vacant refl,
              node_flags-keep sl f vacant (rw here),
              bare_sum,
            )
            refl

      pub entry_removed : Returned S law s (removed x (whole bare)) (
          remove_at_entry S
            (of_bits (data_flags sl))
            (of_bits (node_flags sl))
            ds
            cs
            (sum_of (inner sl))
            (mask f)
            hash
            k
            s)
      unfolding remove_at_entry
      entry_removed = elim (Bool-cases (is_blank bare)) [
        | inl d ↦
            rw (get_entry_ok S law s at x stands, found, bare_test, d)
              (record { after = s; returns = refl; extends = Extends-refl (view s) })
        | inr d ↦
            let g = entries-Extends S law s (items bare) in
            rw
              (
                get_entry_ok S law s at x stands,
                found,
                bare_test,
                d,
                entries_drop S law s sl wide f small ds b vacant refl (rw here),
                alloc_entries_any S law s (items bare),
                rest_node_lem,
                alloc_node_ok S law s1 rest_node,
              )
              (record {
                index = _;
                after = node_store S law s1 rest_node;
                returns = refl;
                extends = Extends-trans g (node-Extends S law s1 rest_node);
                repr =
                    inner_stored S law s1 bare kids data_at cs
                      (alloc_entries_at S law s (items bare))
                      (Block-grows (view s).children cs kids g.children_grow c)
                      (AreKids-extends g bare kids
                        (keep_kids (view s) kids sl f vacant below refl (rw here refl)));
              })
      ]

    pub entry_kept :
        (hash : ℕ) (k : K)
        → (x.hash == hash && key.equal x.key k) ≡ false
        → Returned S law s (absent) (
            remove_at_entry S
              (of_bits (data_flags sl))
              (of_bits (node_flags sl))
              ds
              cs
              (sum_of (inner sl))
              (mask f)
              hash
              k
              s)
    unfolding remove_at_entry
    entry_kept hash k other = rw (get_entry_ok S law s at x stands, other) refl
