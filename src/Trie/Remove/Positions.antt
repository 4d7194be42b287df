-- ===== src/Trie/Remove/Positions.antt =====
-- A removal at one position of a node.
use champ_trie.Prelude.{ℕ, zero, suc, ◌+◌, ◌≡◌, refl, ap, true, false, ◌&&◌, ◌==◌}
use champ_trie.Hashing.{Key}
use champ_trie.Node.{Entry, fragment, bits_per_level}
use champ_trie.Trie.{Trie, Slots, inner, vacant, entry, subtree, end, cons, slot_at}
use champ_trie.Trie.Remove.{kept, changed, settle, rebuild, remove, remove_slot, remove_slots}

module _ {ℓ} {K V : Type ℓ} ⦃key : Key K⦄ where
  remove_slots-slot_at :
      (sl : Slots K V) (f hash : ℕ) (k : K) (shift : ℕ)
      → remove_slots sl f hash k shift ≡ remove_slot (slot_at sl f) hash k shift
  unfolding remove
  remove_slots-slot_at end f hash k shift = refl
  remove_slots-slot_at (cons s sl) zero hash k shift = refl
  remove_slots-slot_at (cons s sl) (suc f) hash k shift = remove_slots-slot_at sl f hash k shift

  pub remove-inner :
      (sl : Slots K V) (hash : ℕ) (k : K) (shift : ℕ)
      → remove (inner sl) hash k shift
        ≡ rebuild sl
            (fragment hash shift)
            (remove_slot (slot_at sl (fragment hash shift)) hash k (shift + bits_per_level))
  unfolding remove
  remove-inner sl hash k shift =
      ap (rebuild sl (fragment hash shift))
        (remove_slots-slot_at sl (fragment hash shift) hash k (shift + 5))

  pub remove-vacant :
      (hash : ℕ) (k : K) (shift : ℕ) → remove_slot {V = V} vacant hash k shift ≡ kept
  unfolding remove
  remove-vacant hash k shift = refl

  pub remove-found :
      (x : Entry K V) (hash : ℕ) (k : K) (shift : ℕ)
      → (x.hash == hash && key.equal x.key k) ≡ true
      → remove_slot (entry x) hash k shift ≡ changed x vacant
  unfolding remove
  remove-found x hash k shift c = rw c

  pub remove-other :
      (x : Entry K V) (hash : ℕ) (k : K) (shift : ℕ)
      → (x.hash == hash && key.equal x.key k) ≡ false
      → remove_slot (entry x) hash k shift ≡ kept
  unfolding remove
  remove-other x hash k shift c = rw c

  pub remove-subtree :
      (t : Trie K V) (hash : ℕ) (k : K) (shift : ℕ)
      → remove_slot (subtree t) hash k shift ≡ settle (remove t hash k shift)
  unfolding remove
  remove-subtree t hash k shift = refl
