-- ===== src/Trie/Remove.antt =====
-- Removal on trees. A removal gives the entry that it removes and what is left: nothing, or a tree.
-- A subtree that is left with one entry gives way to that entry.
pub mod Positions
pub mod Sums
pub mod Shape
pub mod Lookup
pub mod Alone
pub mod After
pub mod Bucket
pub mod Laws
pub mod Root
use champ_trie.Prelude.{
  ℕ, zero, suc, ◌+◌, Bool, true, false, ◌&&◌, Option, none, some, List, [], ◌∷◌, length, count_true,
  ◌==◌, if◌then◌else◌,
}
use champ_trie.Hashing.{Key}
use champ_trie.Node.{Entry, fragment, bits_per_level}
use champ_trie.Trie.{
  Trie, Slot, Slots, inner, collision, vacant, entry, subtree, end, cons, put, no_slots, items,
  node_flags,
}

pub data Removal {ℓ} (K V : Type ℓ) : Type ℓ where
  absent : Removal K V
  removed : Entry K V → Option (Trie K V) → Removal K V

pub data SlotRemoval {ℓ} (K V : Type ℓ) : Type ℓ where
  kept : SlotRemoval K V
  changed : Entry K V → Slot K V → SlotRemoval K V

module _ {ℓ} {K V : Type ℓ} where
  abbrev pub only : List (Entry K V) → Option (Entry K V)
  only [] = none
  only (x ∷ []) = some x
  only (x ∷ y ∷ es) = none

  -- The entry of a node that holds one entry and no subtree.
  abbrev pub lone : Trie K V → Option (Entry K V)
  lone (inner sl) = if count_true (node_flags sl) == 0 then only (items sl) else none
  lone (collision h es) = none

  abbrev pub is_blank : Slots K V → Bool
  is_blank sl = length (items sl) == 0 && count_true (node_flags sl) == 0

  abbrev pub whole : Slots K V → Option (Trie K V)
  whole sl = if is_blank sl then none else some (inner sl)

  abbrev pub inlined : Trie K V → Option (Entry K V) → Slot K V
  inlined t none = subtree t
  inlined t (some x) = entry x

  -- What stands at a position whose subtree was left so.
  abbrev pub slot_after : Option (Trie K V) → Slot K V
  slot_after none = vacant
  slot_after (some t) = inlined t (lone t)

  abbrev pub settle : Removal K V → SlotRemoval K V
  settle absent = kept
  settle (removed e o) = changed e (slot_after o)

  abbrev pub rebuild : Slots K V → ℕ → SlotRemoval K V → Removal K V
  rebuild sl f kept = absent
  rebuild sl f (changed e x) = removed e (whole (put sl f x))

  -- What is left of a collision node. A lone entry stands in a node of its own.
  abbrev pub bucket : ℕ → List (Entry K V) → Trie K V
  bucket h [] = collision h []
  bucket h (x ∷ []) = inner (put no_slots (fragment x.hash 0) (entry x))
  bucket h (x ∷ y ∷ es) = collision h (x ∷ y ∷ es)

  abbrev pub bucket_removal : ℕ → List (Entry K V) → Option (Entry K V) → Removal K V
  bucket_removal h rest none = absent
  bucket_removal h rest (some e) = removed e (some (bucket h rest))

module _ {ℓ} {K V : Type ℓ} ⦃key : Key K⦄ where
  -- The first entry of the key, and the list without it.
  abbrev pub pick : List (Entry K V) → K → Option (Entry K V)
  pick [] k = none
  pick (e ∷ es) k = if key.equal e.key k then some e else pick es k

  abbrev pub drop_key : List (Entry K V) → K → List (Entry K V)
  drop_key [] k = []
  drop_key (e ∷ es) k = if key.equal e.key k then es else e ∷ drop_key es k

  unfoldable mutual
    pub remove : Trie K V → ℕ → K → ℕ → Removal K V
    remove (inner sl) hash k shift =
        let f = fragment hash shift in
        rebuild sl f (remove_slots sl f hash k (shift + bits_per_level))
    remove (collision h es) hash k shift =
        if hash == h then bucket_removal h (drop_key es k) (pick es k) else absent

    pub remove_slot : Slot K V → ℕ → K → ℕ → SlotRemoval K V
    remove_slot vacant hash k shift = kept
    remove_slot (entry x) hash k shift =
        if x.hash == hash && key.equal x.key k then changed x vacant else kept
    remove_slot (subtree t) hash k shift = settle (remove t hash k shift)

    pub remove_slots : Slots K V → ℕ → ℕ → K → ℕ → SlotRemoval K V
    remove_slots end f hash k shift = kept
    remove_slots (cons s sl) zero hash k shift = remove_slot s hash k shift
    remove_slots (cons s sl) (suc f) hash k shift = remove_slots sl f hash k shift
