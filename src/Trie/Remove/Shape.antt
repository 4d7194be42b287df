-- ===== src/Trie/Remove/Shape.antt =====
-- The shape of what a removal leaves.
use native.Mathlib.Decide.{ℕ_discrete}
use native.Mathlib.Nat.{add-zero}
use champ_trie.Prelude.{
  ℕ, zero, suc, ◌+◌, ◌^◌, ◌<◌, ◌≤◌, ◌≡◌, ◌≢◌, refl, ap, ◌∙◌, false, none, some, List, [], ◌∷◌,
  length, length-append, count_true, arith, ◌==◌, ◌&&◌, Bool-cases, Option-cases, inl, inr,
}
use champ_trie.Hashing.{Key}
use champ_trie.Node.{Entry, fragment}
use champ_trie.Node.Bitmap.{fragment-lt}
use champ_trie.Trie.{
  Trie, Slot, Slots, inner, collision, vacant, entry, subtree, end, cons, slot_at, put, no_slots,
  items, node_flags,
}
use champ_trie.Trie.Positions.{
  width-put, slot_at-no_slots, items-no_slots_one, node_flags-no_slots, node_flags-keep,
}
use champ_trie.Trie.Induction.{trie_induction}
use champ_trie.Trie.Model.{entries, below}
use champ_trie.Trie.Shape.{
  IsPlaced, AllPlaced, Apart, IsDistinct, IsBucket, IsTrie, IsSlot, AreSlots, step_path,
  slot_at-IsSlot, put-AreSlots,
}
use champ_trie.Trie.Remove.{
  Removal, absent, removed, SlotRemoval, kept, changed, only, lone, is_blank, whole, inlined,
  slot_after, settle, rebuild, bucket, pick, drop_key, remove, remove_slot,
}
use champ_trie.Trie.Remove.Positions.{
  remove-inner, remove-vacant, remove-found, remove-other, remove-subtree,
}
use champ_trie.Trie.Remove.Sums.{lone-items}
use champ_trie.Trie.Paths.{step_path-lt, IsPlaced-above}

module _ {ℓ} {K V : Type ℓ} where
  only-none : (es : List (Entry K V)) → only es ≡ none → length es ≢ 0 → 2 ≤ length es
  only-none [] e n = absurd (n refl)
  only-none (x ∷ []) e n = absurd (ground arith)
  only-none (x ∷ y ∷ es) e n = omega arith

  head_or : Entry K V → List (Entry K V) → Entry K V
  head_or d [] = d
  head_or d (x ∷ es) = x

  head_inj : (x y : Entry K V) (es : List (Entry K V)) → (x ∷ es) ≡ (y ∷ []) → x ≡ y
  unfolding head_or
  head_inj x y es e = ap (head_or x) e

  -- A node with an entry alone.
  pub lone-single :
      (f : ℕ) (x : Entry K V) → f < 32 → lone (inner (put no_slots f (entry x))) ≡ some x
  lone-single f x b =
      let flags : node_flags (put no_slots f (entry x)) ≡ node_flags no_slots =
        node_flags-keep no_slots f (entry x) (rw (slot_at-no_slots f)) in
      rw (flags, node_flags-no_slots K V, items-no_slots_one f x b) refl

module _ {ℓ} {K V : Type ℓ} ⦃key : Key K⦄ where
  lone_next :
      (sl : Slots K V) (shift p g : ℕ) (x : Entry K V)
      → (f : ℕ) × (slot_at sl f ≡ entry x) × IsPlaced x (shift + 5) (step_path shift p (suc g + f))
      → (s : Slot K V)
      → (f : ℕ) × (slot_at (cons s sl) f ≡ entry x)
        × IsPlaced x (shift + 5) (step_path shift p (g + f))
  lone_next sl shift p g x (f, e, i) s =
      let next : suc g + f ≡ g + suc f = omega arith in (suc f, e, rw next at i)

  -- Where the lone entry of a node stands.
  pub lone_place :
      (sl : Slots K V) (shift p g : ℕ) (x : Entry K V)
      → AreSlots sl shift p g
      → items sl ≡ x ∷ []
      → (f : ℕ) × (slot_at sl f ≡ entry x) × IsPlaced x (shift + 5) (step_path shift p (g + f))
  lone_place end shift p g x a e = absurd (ground arith)
  lone_place (cons vacant sl) shift p g x a e =
      lone_next sl shift p g x (lone_place sl shift p (suc g) x a.1 e) vacant
  lone_place (cons (subtree t) sl) shift p g x a e =
      lone_next sl shift p g x (lone_place sl shift p (suc g) x a.1 e) (subtree t)
  lone_place (cons (entry y) sl) shift p g x a e =
      let same = head_inj y x (items sl) e in (zero, ap entry same, rw (← same, add-zero) a.0)

  below_two :
      (sl : Slots K V) (shift p g : ℕ)
      → AreSlots sl shift p g
      → 0 < count_true (node_flags sl)
      → 2 ≤ length (below sl)
  unfolding entries
  below_two end shift p g a c = absurd (omega arith)
  below_two (cons vacant sl) shift p g a c = below_two sl shift p (suc g) a.1 c
  below_two (cons (entry x) sl) shift p g a c = below_two sl shift p (suc g) a.1 c
  below_two (cons (subtree t) sl) shift p g a c =
      omega (arith, a.0.1, length-append (entries t) (below sl))

  pub inner_two :
      (sl : Slots K V) (shift p : ℕ)
      → AreSlots sl shift p 0
      → is_blank sl ≡ false
      → lone (inner sl) ≡ none
      → 2 ≤ length (entries (inner sl))
  unfolding entries
  inner_two sl shift p a b l = elim (ℕ_discrete (count_true (node_flags sl)) 0) [
    | yes c ↦ omega (
      arith,
      length-append (items sl) (below sl),
      only-none (items sl) (rw c at l) (λ n. not_blank c n b),
    )
    | no c ↦
        omega (arith, length-append (items sl) (below sl), below_two sl shift p 0 a (omega arith))
  ]
    where
      not_blank : count_true (node_flags sl) ≡ 0 → length (items sl) ≡ 0 → is_blank sl ≡ false → ⊥
      not_blank c n b = ground (arith, rw (c, n) at b)

  -- What is left stands at its position as a subtree or an entry does.
  pub whole-IsSlot :
      (sl : Slots K V) (shift p : ℕ)
      → p < 2 ^ shift
      → IsTrie (inner sl) shift p
      → IsSlot (slot_after (whole sl)) shift p
  whole-IsSlot sl shift p low a = elim (Bool-cases (is_blank sl)) [
    | inl b ↦ rw b tt
    | inr b ↦ rw b (elim (Option-cases (lone (inner sl))) [
      | inl l ↦ rw l (a, inner_two sl shift p a.2 b l)
      | inr (x, l) ↦
          let (f, at, placed) = lone_place sl shift p 0 x a.2 (lone-items sl x l).0 in
          rw l (IsPlaced-above x shift p (0 + f) low placed)
    ])
  ]

  -- Of the entries of a collision node.
  pub drop_key-AllPlaced :
      (es : List (Entry K V)) (k : K) (shift p : ℕ)
      → AllPlaced es shift p
      → AllPlaced (drop_key es k) shift p
  drop_key-AllPlaced [] k shift p a = tt
  drop_key-AllPlaced (x ∷ es) k shift p a = elim (Bool-cases (key.equal x.key k)) [
    | inl c ↦ rw c (a.1)
    | inr c ↦ rw c (a.0, drop_key-AllPlaced es k shift p a.1)
  ]

  drop_key-Apart :
      (es : List (Entry K V)) (k : K) (e : Entry K V) → Apart e es → Apart e (drop_key es k)
  drop_key-Apart [] k e a = tt
  drop_key-Apart (x ∷ es) k e a = elim (Bool-cases (key.equal x.key k)) [
    | inl c ↦ rw c (a.1)
    | inr c ↦ rw c (a.0, drop_key-Apart es k e a.1)
  ]

  drop_key-IsDistinct : (es : List (Entry K V)) (k : K) → IsDistinct es → IsDistinct (drop_key es k)
  drop_key-IsDistinct [] k d = tt
  drop_key-IsDistinct (x ∷ es) k d = elim (Bool-cases (key.equal x.key k)) [
    | inl c ↦ rw c (d.1)
    | inr c ↦ rw c (drop_key-Apart es k x d.0, drop_key-IsDistinct es k d.1)
  ]

  pub length-drop_key :
      (es : List (Entry K V)) (k : K) (x : Entry K V)
      → pick es k ≡ some x
      → suc (length (drop_key es k)) ≡ length es
  length-drop_key [] k x e = absurd (ground arith)
  length-drop_key (y ∷ es) k x e = elim (Bool-cases (key.equal y.key k)) [
    | inl c ↦ rw c refl
    | inr c ↦ rw c (ap suc (length-drop_key es k x (rw c at e)))
  ]

  -- What a removal leaves stands at a position, and at an inner node is a tree.
  abbrev pub Left : Removal K V → ℕ → ℕ → Type 0
  Left absent shift p = Unit
  Left (removed e none) shift p = Unit
  Left (removed e (some t)) shift p =
      IsSlot (inlined t (lone t)) shift p × (shift ≤ 60 → IsTrie t shift p)

  abbrev pub SlotLeft : SlotRemoval K V → ℕ → ℕ → Type 0
  SlotLeft kept shift p = Unit
  SlotLeft (changed e x) shift p = IsSlot x shift p

  settle-left : (r : Removal K V) (shift p : ℕ) → Left r shift p → SlotLeft (settle r) shift p
  settle-left absent shift p a = tt
  settle-left (removed e none) shift p a = tt
  settle-left (removed e (some t)) shift p a = a.0

  whole-left :
      (e : Entry K V) (sl : Slots K V) (shift p : ℕ)
      → p < 2 ^ shift
      → IsTrie (inner sl) shift p
      → Left (removed e (whole sl)) shift p
  whole-left e sl shift p low a = elim (Bool-cases (is_blank sl)) [
    | inl b ↦ rw b tt
    | inr b ↦ let slot = whole-IsSlot sl shift p low a in rw b ((rw b at slot), λ s. a)
  ]

  rebuild-left :
      (sl : Slots K V) (f : ℕ) (r : SlotRemoval K V) (shift p : ℕ)
      → p < 2 ^ shift
      → IsTrie (inner sl) shift p
      → SlotLeft r (shift + 5) (step_path shift p f)
      → Left (rebuild sl f r) shift p
  rebuild-left sl f kept shift p low a h = tt
  rebuild-left sl f (changed e x) shift p low a h =
      whole-left e (put sl f x) shift p low
        (a.0, width-put sl f x ∙ a.1, put-AreSlots sl shift p f x a.2 h)

  bucket-left :
      (e : Entry K V) (h : ℕ) (es : List (Entry K V)) (shift p : ℕ)
      → shift ≡ 65
      → h ≡ p
      → 1 ≤ length es
      → length es ≤ 255
      → AllPlaced es shift p
      → IsDistinct es
      → Left (removed e (some (bucket h es))) shift p
  bucket-left e h [] shift p s q one fits a d = absurd (omega arith)
  bucket-left e h (x ∷ []) shift p s q one fits a d = (
    rw (lone-single (fragment x.hash 0) x (fragment-lt x.hash 0)) (a.0),
    λ z. absurd (omega arith),
  )
  bucket-left e h (x ∷ y ∷ es) shift p s q one fits a d =
      let b : IsBucket h (x ∷ y ∷ es) shift p = record {
        deepest = s;
        hash_on_path = q;
        two = omega arith;
        fits = fits;
        placed = a;
        distinct = d;
      } in
      ((b, unfold entries in omega arith), λ z. b)

  collision-left :
      (h : ℕ) (es : List (Entry K V)) (hash : ℕ) (k : K) (shift p : ℕ)
      → IsBucket h es shift p
      → Left (remove (collision h es) hash k shift) shift p
  unfolding remove
  collision-left h es hash k shift p b = elim (Bool-cases (hash == h)) [
    | inl c ↦ rw c (elim (Option-cases (pick es k)) [
      | inl d ↦ rw d tt
      | inr (x, d) ↦
          let n = length-drop_key es k x d in
          let more = b.two in
          let less = b.fits in
          rw d (
            bucket-left x h (drop_key es k) shift p b.deepest b.hash_on_path (omega arith)
              (omega arith) (drop_key-AllPlaced es k shift p b.placed)
              (drop_key-IsDistinct es k b.distinct))
    ])
    | inr c ↦ rw c tt
  ]

  pub slot-left :
      (s : Slot K V) (hash : ℕ) (k : K) (shift p : ℕ)
      → IsSlot s shift p
      → ((t : Trie K V) → s ≡ subtree t → Left (remove t hash k shift) shift p)
      → SlotLeft (remove_slot s hash k shift) shift p
  slot-left vacant hash k shift p a deep = rw (remove-vacant {V = V} hash k shift) tt
  slot-left (entry x) hash k shift p a deep =
      elim (Bool-cases (x.hash == hash && key.equal x.key k)) [
        | inl c ↦ rw (remove-found x hash k shift c) tt
        | inr c ↦ rw (remove-other x hash k shift c) tt
      ]
  slot-left (subtree t) hash k shift p a deep =
      rw (remove-subtree t hash k shift) (settle-left (remove t hash k shift) shift p (deep t refl))

  -- A removal keeps the shape.
  pub remove-left :
      (hash : ℕ) (k : K) (t : Trie K V) (shift p : ℕ)
      → IsTrie t shift p
      → p < 2 ^ shift
      → Left (remove t hash k shift) shift p
  remove-left hash k =
      trie_induction (λ t shift p. (p < 2 ^ shift) → Left (remove t hash k shift) shift p)
        (λ h es shift p a low. collision-left h es hash k shift p a)
        (λ sl shift p a deep low.
          let f = fragment hash shift in
          rw (remove-inner sl hash k shift) (
            rebuild-left sl f (remove_slot (slot_at sl f) hash k (shift + 5)) shift p low a (
              slot-left (slot_at sl f) hash k (shift + 5) (step_path shift p f)
                (slot_at-IsSlot sl shift p f a.2)
                (λ t e. deep f t e (step_path-lt shift p f low (fragment-lt hash shift))))))
