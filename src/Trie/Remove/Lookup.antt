-- ===== src/Trie/Remove/Lookup.antt =====
-- What a removal returns, and what a lookup finds after it.
use champ_trie.Prelude.{
  ℕ, ◌+◌, ◌≡◌, refl, ◌∙◌, true, Option, none, some, List, [], ◌∷◌, ◌==◌, ◌&&◌, Bool-cases, inl, inr,
}
use champ_trie.Hashing.{Key}
use champ_trie.Node.{Entry, fragment}
use champ_trie.Trie.{Trie, Slot, Slots, collision, vacant, entry, subtree, slot_at}
use champ_trie.Trie.Induction.{trie_induction}
use champ_trie.Trie.Insertion.{equal_congr}
use champ_trie.Trie.Lookup.{get-inner}
use champ_trie.Trie.Model.{find, get, get_slot}
use champ_trie.Trie.Shape.{IsTrie}
use champ_trie.Trie.Remove.{
  Removal, absent, removed, SlotRemoval, kept, changed, settle, rebuild, bucket_removal, pick,
  drop_key, remove, remove_slot,
}
use champ_trie.Trie.Remove.Positions.{
  remove-inner, remove-vacant, remove-found, remove-other, remove-subtree,
}

module _ {ℓ} {K V : Type ℓ} ⦃key : Key K⦄ where
  -- The value that a removal returns.
  abbrev pub old_value : Removal K V → Option V
  old_value absent = none
  old_value (removed e o) = some e.value

  abbrev pub slot_value : SlotRemoval K V → Option V
  slot_value kept = none
  slot_value (changed e x) = some e.value

  settle-value : (r : Removal K V) → slot_value (settle r) ≡ old_value r
  settle-value absent = refl
  settle-value (removed e o) = refl

  rebuild-value :
      (sl : Slots K V) (f : ℕ) (r : SlotRemoval K V) → old_value (rebuild sl f r) ≡ slot_value r
  rebuild-value sl f kept = refl
  rebuild-value sl f (changed e x) = refl

  pub bucket-value :
      (h : ℕ) (rest es : List (Entry K V)) (k : K)
      → old_value (bucket_removal h rest (pick es k)) ≡ find es k
  unfolding find
  bucket-value h rest [] k = refl
  bucket-value h rest (x ∷ es) k = elim (Bool-cases (key.equal x.key k)) [
    | inl c ↦ rw c refl
    | inr c ↦ rw c (bucket-value h rest es k)
  ]

  collision-value :
      (h : ℕ) (es : List (Entry K V)) (hash : ℕ) (k : K) (shift : ℕ)
      → old_value (remove (collision h es) hash k shift) ≡ get (collision h es) hash k shift
  unfolding remove get
  collision-value h es hash k shift = elim (Bool-cases (hash == h)) [
    | inl c ↦ rw c (bucket-value h (drop_key es k) es k)
    | inr c ↦ rw c refl
  ]

  pub slot-value :
      (s : Slot K V) (hash : ℕ) (k : K) (shift : ℕ)
      → ((t : Trie K V) → s ≡ subtree t → old_value (remove t hash k shift) ≡ get t hash k shift)
      → slot_value (remove_slot s hash k shift) ≡ get_slot s hash k shift
  unfolding get
  slot-value vacant hash k shift deep = rw (remove-vacant {V = V} hash k shift) refl
  slot-value (entry x) hash k shift deep = elim (Bool-cases (x.hash == hash && key.equal x.key k)) [
    | inl c ↦ rw (remove-found x hash k shift c, c) refl
    | inr c ↦ rw (remove-other x hash k shift c, c) refl
  ]
  slot-value (subtree t) hash k shift deep =
      rw (remove-subtree t hash k shift) (settle-value (remove t hash k shift) ∙ deep t refl)

  -- A removal returns what a lookup finds.
  pub remove-get :
      (hash : ℕ) (k : K) (t : Trie K V) (shift p : ℕ)
      → IsTrie t shift p
      → old_value (remove t hash k shift) ≡ get t hash k shift
  remove-get hash k =
      trie_induction (λ t shift p. old_value (remove t hash k shift) ≡ get t hash k shift)
        (λ h es shift p a. collision-value h es hash k shift)
        (λ sl shift p a deep.
          let f = fragment hash shift in
          rw (remove-inner sl hash k shift, get-inner sl hash k shift)
            (rebuild-value sl f (remove_slot (slot_at sl f) hash k (shift + 5))
              ∙ slot-value (slot_at sl f) hash k (shift + 5) (deep f)))

  -- Equal keys are looked up alike.
  pub find-congr : (es : List (Entry K V)) (k q : K) → key.equal k q ≡ true → find es k ≡ find es q
  unfolding find
  find-congr [] k q e = refl
  find-congr (x ∷ es) k q e =
      let same : key.equal x.key k ≡ key.equal x.key q =
        key.equal_flip x.key k ∙ equal_congr k q x.key e ∙ key.equal_flip q x.key in
      rw (same, find-congr es k q e) refl
