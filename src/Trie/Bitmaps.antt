-- ===== src/Trie/Bitmaps.antt =====
-- What the bitmap operations of the source say of the positions of a node.
use champ_trie.Prelude.{
  ℕ, ◌≤◌, ◌<◌, ◌≡◌, refl, ap, sym, ◌∙◌, true, false, count_true, bit_and, bit_or, length, arith,
  ◌⊎◌, inl, inr,
}
use champ_trie.Bits.{count_ones, complement}
use champ_trie.Bits.Flags.{of_bits, count_ones-of_bits}
use champ_trie.Node.{Entry, mask, index, has_bit}
use champ_trie.Node.Bitmap.{has_bit-of_bits, index-of_bits, or-of_bits, clear-of_bits}
use champ_trie.Trie.{
  Trie, Slot, Slots, vacant, entry, subtree, is_entry, is_subtree, width, slot_at, put, data_flags,
  node_flags, items, data_rank, node_rank,
}
use champ_trie.Trie.Positions.{
  length-data_flags, length-node_flags, nth-data_flags, nth-node_flags, data_flags-put,
  node_flags-put, length-items,
}

module _ {ℓ} {K V : Type ℓ} where
  pub Slot-cases :
      (x : Slot K V)
      → (x ≡ vacant) ⊎ ((e : Entry K V) × (x ≡ entry e)) ⊎ ((t : Trie K V) × (x ≡ subtree t))
  Slot-cases vacant = inl refl
  Slot-cases (entry e) = inr (inl (e, refl))
  Slot-cases (subtree t) = inr (inr (t, refl))

  module _ (sl : Slots K V) (wide : width sl ≡ 32) where
    data_width : length (data_flags sl) ≤ 32
    data_width = omega (arith, length-data_flags sl)

    node_width : length (node_flags sl) ≤ 32
    node_width = omega (arith, length-node_flags sl)

    pub data_count : count_ones (of_bits (data_flags sl)) ≡ length (items sl)
    data_count = count_ones-of_bits (data_flags sl) data_width ∙ sym (length-items sl)

    pub node_count : count_ones (of_bits (node_flags sl)) ≡ count_true (node_flags sl)
    node_count = count_ones-of_bits (node_flags sl) node_width

    module _ (f : ℕ) (small : f < 32) where
      pub data_bit : has_bit (of_bits (data_flags sl)) (mask f) ≡ is_entry (slot_at sl f)
      data_bit = has_bit-of_bits (data_flags sl) f small ∙ nth-data_flags sl f

      pub node_bit : has_bit (of_bits (node_flags sl)) (mask f) ≡ is_subtree (slot_at sl f)
      node_bit = has_bit-of_bits (node_flags sl) f small ∙ nth-node_flags sl f

      pub data_index : index (of_bits (data_flags sl)) (mask f) ≡ data_rank sl f
      data_index = index-of_bits (data_flags sl) f small data_width

      pub node_index : index (of_bits (node_flags sl)) (mask f) ≡ node_rank sl f
      node_index = index-of_bits (node_flags sl) f small node_width

      pub data_set :
          (x : Slot K V)
          → is_entry x ≡ true
          → bit_or (of_bits (data_flags sl)) (mask f) ≡ of_bits (data_flags (put sl f x))
      data_set x h =
          or-of_bits (data_flags sl) f (omega (arith, length-data_flags sl)) data_width
          ∙ ap of_bits (rw (data_flags-put sl f x, h))

      pub data_clear :
          (x : Slot K V)
          → is_entry x ≡ false
          → bit_and (of_bits (data_flags sl)) (complement (mask f))
            ≡ of_bits (data_flags (put sl f x))
      data_clear x h =
          clear-of_bits (data_flags sl) f small data_width
          ∙ ap of_bits (rw (data_flags-put sl f x, h))

      pub node_set :
          (x : Slot K V)
          → is_subtree x ≡ true
          → bit_or (of_bits (node_flags sl)) (mask f) ≡ of_bits (node_flags (put sl f x))
      node_set x h =
          or-of_bits (node_flags sl) f (omega (arith, length-node_flags sl)) node_width
          ∙ ap of_bits (rw (node_flags-put sl f x, h))

      pub node_clear :
          (x : Slot K V)
          → is_subtree x ≡ false
          → bit_and (of_bits (node_flags sl)) (complement (mask f))
            ≡ of_bits (node_flags (put sl f x))
      node_clear x h =
          clear-of_bits (node_flags sl) f small node_width
          ∙ ap of_bits (rw (node_flags-put sl f x, h))
