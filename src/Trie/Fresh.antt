-- ===== src/Trie/Fresh.antt =====
-- The bitmaps and entries of a node with one or two positions in use, as the code writes them for a
-- node that it makes from nothing.
use champ_trie.Prelude.{ℕ, ◌<◌, ◌≡◌, ◌≢◌, refl, sym, ◌∙◌, bit_or, List, [], arith}
use champ_trie.Bits.Step.{zero-bit_or}
use champ_trie.Bits.Flags.{of_bits, of_bits-replicate}
use champ_trie.Node.{Entry, mask}
use champ_trie.Store.Block.{Block}
use champ_trie.Trie.{Trie, Slots, entry, subtree, put, no_slots, data_flags, node_flags}
use champ_trie.Trie.Positions.{
  width-no_slots, width-put, slot_at-no_slots, slot_at-put_ne, data_flags-no_slots,
  node_flags-no_slots, data_flags-keep, node_flags-keep,
}
use champ_trie.Trie.Bitmaps.{data_set, node_set}

pub Block-nil {ℓ} : {A : Type ℓ} (arena : List A) (start : ℕ) → Block arena start []
Block-nil arena start i x h = absurd (ground arith)

module _ {ℓ} (K V : Type ℓ) where
  no_data : of_bits (data_flags (no_slots {K = K} {V = V})) ≡ 0
  no_data = rw (data_flags-no_slots K V) (of_bits-replicate 32)

  no_nodes : of_bits (node_flags (no_slots {K = K} {V = V})) ≡ 0
  no_nodes = rw (node_flags-no_slots K V) (of_bits-replicate 32)

module _ {ℓ} {K V : Type ℓ} where
  module _ (f : ℕ) (small : f < 32) where
    pub one_data : (e : Entry K V) → of_bits (data_flags (put no_slots f (entry e))) ≡ mask f
    one_data e =
        let set = data_set no_slots (width-no_slots K V) f small (entry e) refl in
        sym (rw (no_data K V, zero-bit_or (mask f)) at set)

    pub one_data_nodes : (e : Entry K V) → of_bits (node_flags (put no_slots f (entry e))) ≡ 0
    one_data_nodes e =
        rw (node_flags-keep no_slots f (entry e) (rw (slot_at-no_slots f))) (no_nodes K V)

    pub one_node : (t : Trie K V) → of_bits (node_flags (put no_slots f (subtree t))) ≡ mask f
    one_node t =
        let set = node_set no_slots (width-no_slots K V) f small (subtree t) refl in
        sym (rw (no_nodes K V, zero-bit_or (mask f)) at set)

    pub one_node_data : (t : Trie K V) → of_bits (data_flags (put no_slots f (subtree t))) ≡ 0
    one_node_data t =
        rw (data_flags-keep no_slots f (subtree t) (rw (slot_at-no_slots f))) (no_data K V)

    module _ (g : ℕ) (small' : g < 32) (apart : f ≢ g) (x y : Entry K V) where
      abbrev one : Slots K V
      one = put no_slots f (entry x)

      pub two_data : of_bits (data_flags (put one g (entry y))) ≡ bit_or (mask f) (mask g)
      two_data =
          let set =
            data_set one (width-put no_slots f (entry x) ∙ width-no_slots K V) g small' (entry y)
              refl in
          sym (rw (one_data x) at set)

      pub two_data_nodes : of_bits (node_flags (put one g (entry y))) ≡ 0
      two_data_nodes =
          rw
            (node_flags-keep one g (entry y)
              (rw (slot_at-put_ne no_slots f g (entry x) apart, slot_at-no_slots g)))
            (one_data_nodes x)
