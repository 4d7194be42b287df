-- ===== src/Trie/Remove/After.antt =====
-- What a lookup finds after a removal.
use native.Mathlib.Decide.{ℕ_discrete}
use champ_trie.Prelude.{
  ℕ, ◌+◌, ◌^◌, ◌<◌, ◌≡◌, ◌≢◌, refl, ap, sym, ◌∙◌, true, false, none, some, arith, ◌==◌, ◌&&◌,
  ==_refl, ==_ne, Bool-cases, inl, inr, and_right, if◌then◌else◌,
}
use champ_trie.Hashing.{Key}
use champ_trie.Node.{Entry, fragment}
use champ_trie.Node.Bitmap.{fragment-lt}
use champ_trie.Trie.{Trie, Slot, Slots, inner, vacant, entry, subtree, width, slot_at, put}
use champ_trie.Trie.Positions.{width-put}
use champ_trie.Trie.Insertion.{equal_congr}
use champ_trie.Trie.Lookup.{
  hash_of, hash_of_equal, get-inner, get-put, get_slot-entry, get_slot-subtree,
}
use champ_trie.Trie.Model.{get, get_slot}
use champ_trie.Trie.Shape.{IsPlaced, IsTrie, IsSlot, step_path, put-AreSlots}
use champ_trie.Trie.Remove.{
  Removal, absent, removed, SlotRemoval, kept, changed, whole, slot_after, settle, rebuild, remove,
  remove_slot,
}
use champ_trie.Trie.Remove.Positions.{remove-vacant, remove-found, remove-other, remove-subtree}
use champ_trie.Trie.Remove.Shape.{SlotLeft}
use champ_trie.Trie.Remove.Lookup.{slot_value}
use champ_trie.Trie.Remove.Alone.{equal_alike, unless, get-absent, get-whole, get_slot-vacant}

module _ {ℓ} {K V : Type ℓ} ⦃key : Key K⦄ where
  module _ (k q : K) where
    -- What stands at a position after a removal.
    abbrev pub now : Slot K V → SlotRemoval K V → Slot K V
    now s kept = s
    now s (changed e x) = x

    abbrev pub stays : Trie K V → Removal K V → Slot K V
    stays t absent = subtree t
    stays t (removed e o) = slot_after o

    now-settle : (t : Trie K V) (r : Removal K V) → now (subtree t) (settle r) ≡ stays t r
    now-settle t absent = refl
    now-settle t (removed e o) = refl

    abbrev pub Answers : Trie K V → Removal K V → ℕ → Type ℓ
    Answers t r shift =
        get_slot (stays t r) (hash_of q) q shift ≡ unless k q (get t (hash_of q) q shift)

    pub Answers-absent :
        (t : Trie K V) (shift p : ℕ)
        → IsTrie t shift p
        → get t (hash_of k) k shift ≡ none
        → Answers t absent shift
    Answers-absent t shift p a h =
        get_slot-subtree t (hash_of q) q shift ∙ get-absent k q t shift p a h

    module _ (sl : Slots K V) (shift p : ℕ) (low : p < 2 ^ shift)
        (a : IsTrie (inner sl) shift p) where
      abbrev f : ℕ
      f = fragment (hash_of k) shift

      -- A key with another fragment is another key.
      elsewhere : fragment (hash_of q) shift ≢ f → key.equal k q ≡ false
      elsewhere n = elim (Bool-cases (key.equal k q)) [
        | inl e ↦ absurd (n (ap (λ x. fragment x shift) (sym (key.digest-equal k q e))))
        | inr e ↦ e
      ]

      Answers-changed :
          (e : Entry K V) (x : Slot K V)
          → IsSlot x (shift + 5) (step_path shift p f)
          → get_slot x (hash_of q) q (shift + 5)
            ≡ unless k q (get_slot (slot_at sl f) (hash_of q) q (shift + 5))
          → Answers (inner sl) (removed e (whole (put sl f x))) shift
      Answers-changed e x i h =
          let small : f < width sl = rw a.1 (fragment-lt (hash_of k) shift) in
          get-whole (put sl f x) shift p low
            (a.0, width-put sl f x ∙ a.1, put-AreSlots sl shift p f x a.2 i) q
          ∙ get-put sl f x (hash_of q) q shift small
          ∙ elim (ℕ_discrete (fragment (hash_of q) shift) f) [
            | yes d ↦ rw (get-inner sl (hash_of q) q shift, d, ==_refl f) h
            | no d ↦ rw (==_ne _ _ d, elsewhere d) refl
          ]

      pub Answers-rebuild :
          (r : SlotRemoval K V)
          → slot_value r ≡ get_slot (slot_at sl f) (hash_of k) k (shift + 5)
          → SlotLeft r (shift + 5) (step_path shift p f)
          → get_slot (now (slot_at sl f) r) (hash_of q) q (shift + 5)
            ≡ unless k q (get_slot (slot_at sl f) (hash_of q) q (shift + 5))
          → Answers (inner sl) (rebuild sl f r) shift
      Answers-rebuild kept v i h =
          Answers-absent (inner sl) shift p a (get-inner sl (hash_of k) k shift ∙ sym v)
      Answers-rebuild (changed e x) v i h = Answers-changed e x i h

    not_same :
        (x : Entry K V) (shift p : ℕ)
        → IsPlaced x shift p
        → (x.hash == hash_of k && key.equal x.key k) ≡ false
        → key.equal x.key k ≡ false
    not_same x shift p a c = elim (Bool-cases (key.equal x.key k)) [
      | inl d ↦ absurd (wrong (rw (hash_of_equal x k shift p a d, ==_refl (hash_of k), d) at c))
      | inr d ↦ d
    ]
      where
        wrong : true ≡ false → ⊥
        wrong w = ground arith

    other_key :
        (x : Entry K V) (shift p : ℕ)
        → IsPlaced x shift p
        → (x.hash == hash_of k && key.equal x.key k) ≡ false
        → (if key.equal x.key q then some x.value else none)
          ≡ unless k q (if key.equal x.key q then some x.value else none)
    other_key x shift p a c = elim (Bool-cases (key.equal k q)) [
      | inl d ↦
          let no : key.equal x.key k ≡ false = not_same x shift p a c in
          rw (d, ← equal_alike (hash_of k) k q d x, no) refl
      | inr d ↦ rw d refl
    ]

    pub Answers-slot :
        (s : Slot K V) (shift p : ℕ)
        → IsSlot s shift p
        → ((t : Trie K V) → s ≡ subtree t → Answers t (remove t (hash_of k) k shift) shift)
        → get_slot (now s (remove_slot s (hash_of k) k shift)) (hash_of q) q shift
          ≡ unless k q (get_slot s (hash_of q) q shift)
    Answers-slot vacant shift p a deep =
        rw (remove-vacant {V = V} (hash_of k) k shift, get_slot-vacant (hash_of q) q shift)
          (elim (Bool-cases (key.equal k q)) [ inl c ↦ rw c refl | inr c ↦ rw c refl ])
    Answers-slot (entry x) shift p a deep =
        elim (Bool-cases (x.hash == hash_of k && key.equal x.key k)) [
          | inl c ↦
              let same : key.equal x.key q ≡ key.equal k q =
                equal_congr x.key k q (and_right _ _ c) in
              rw
                (
                  remove-found x (hash_of k) k shift c,
                  get_slot-entry x q shift shift p a,
                  get_slot-vacant (hash_of q) q shift,
                  same,
                )
                (elim (Bool-cases (key.equal k q)) [ inl d ↦ rw d refl | inr d ↦ rw d refl ])
          | inr c ↦
              rw (remove-other x (hash_of k) k shift c, get_slot-entry x q shift shift p a)
                (other_key x shift p a c)
        ]
    Answers-slot (subtree t) shift p a deep =
        rw
          (
            remove-subtree t (hash_of k) k shift,
            now-settle t (remove t (hash_of k) k shift),
            get_slot-subtree t (hash_of q) q shift,
          )
          (deep t refl)
