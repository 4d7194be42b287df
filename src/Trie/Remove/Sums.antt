-- ===== src/Trie/Remove/Sums.antt =====
-- Sums over the entries of a tree under a removal.
use champ_trie.Prelude.{
  ℕ, ◌+◌, ◌<◌, ◌≡◌, refl, ap, sym, ◌∙◌, true, Option, none, some, List, [], ◌∷◌, length, count_true,
  arith, ◌==◌, ◌&&◌, ==_iff, Bool-cases, Option-cases, inl, inr, and_left, and_right,
}
use champ_trie.Hashing.{Key}
use champ_trie.Node.{Entry, fragment}
use champ_trie.Node.Bitmap.{fragment-lt}
use champ_trie.Trie.{
  Trie, Slot, Slots, inner, collision, vacant, entry, subtree, end, cons, width, slot_at, put,
  no_slots, items, node_flags,
}
use champ_trie.Trie.Positions.{width-no_slots, slot_at-no_slots}
use champ_trie.Trie.Bitmaps.{Slot-cases}
use champ_trie.Trie.Induction.{trie_induction}
use champ_trie.Trie.Shape.{IsTrie}
use champ_trie.Trie.Weight.{weigh, weigh_list, weigh_slot, weigh_slots, weigh-put, weigh-no_slots}
use champ_trie.Trie.Remove.{
  Removal, absent, removed, SlotRemoval, kept, changed, only, lone, is_blank, whole, slot_after,
  settle, rebuild, bucket, bucket_removal, pick, drop_key, remove, remove_slot,
}
use champ_trie.Trie.Remove.Positions.{remove-inner, remove-subtree}

module _ {ℓ} {K V : Type ℓ} where
  some_inj : (x y : Entry K V) → ◌≡◌ {A = Option (Entry K V)} (some x) (some y) → x ≡ y
  some_inj x y e = ap (λ o. elim o [ none ↦ x | some z ↦ z ]) e

  only-some : (es : List (Entry K V)) (x : Entry K V) → only es ≡ some x → es ≡ x ∷ []
  only-some [] x e = absurd (ground arith)
  only-some (y ∷ []) x e = ap (λ z. z ∷ []) (some_inj y x e)
  only-some (y ∷ z ∷ es) x e = absurd (ground arith)

  -- What it is for a node to hold one entry alone.
  pub lone-items :
      (sl : Slots K V) (x : Entry K V)
      → lone (inner sl) ≡ some x
      → (items sl ≡ x ∷ []) × (count_true (node_flags sl) ≡ 0)
  lone-items sl x e = elim (Bool-cases (count_true (node_flags sl) == 0)) [
    | inl c ↦ (only-some (items sl) x (rw c at e), (==_iff _ _).0 c)
    | inr c ↦ absurd (none_ne_some x (rw c at e))
  ]
    where
      none_ne_some : (y : Entry K V) → none ≡ some y → ⊥
      none_ne_some y p = ground arith

  pub blank_counts :
      (sl : Slots K V)
      → is_blank sl ≡ true
      → (length (items sl) ≡ 0) × (count_true (node_flags sl) ≡ 0)
  blank_counts sl e = (
    (==_iff _ _).0 (and_left _ (count_true (node_flags sl) == 0) e),
    (==_iff _ _).0 (and_right (length (items sl) == 0) _ e),
  )

module _ {ℓ} {K V : Type ℓ} (w : ℕ → V → ℕ) where
  abbrev pub left : Option (Trie K V) → ℕ
  left none = 0
  left (some t) = weigh w t

  abbrev pub rest : Trie K V → Removal K V → ℕ
  rest t absent = weigh w t
  rest t (removed e o) = left o

  abbrev pub gone : Removal K V → ℕ
  gone absent = 0
  gone (removed e o) = w e.hash e.value

  abbrev slot_rest : Slot K V → SlotRemoval K V → ℕ
  slot_rest s kept = weigh_slot w s
  slot_rest s (changed e x) = weigh_slot w x

  abbrev slot_gone : SlotRemoval K V → ℕ
  slot_gone kept = 0
  slot_gone (changed e x) = w e.hash e.value

  weigh-no_nodes :
      (sl : Slots K V) → count_true (node_flags sl) ≡ 0 → weigh_slots w sl ≡ weigh_list w (items sl)
  weigh-no_nodes end e = refl
  weigh-no_nodes (cons vacant sl) e = omega (arith, weigh-no_nodes sl e)
  weigh-no_nodes (cons (entry x) sl) e = omega (arith, weigh-no_nodes sl e)
  weigh-no_nodes (cons (subtree t) sl) e = absurd (omega arith)

  weigh_list-nil : (es : List (Entry K V)) → length es ≡ 0 → weigh_list w es ≡ 0
  weigh_list-nil [] e = refl
  weigh_list-nil (x ∷ es) e = absurd (omega arith)

  pub weigh-lone : (t : Trie K V) (x : Entry K V) → lone t ≡ some x → weigh w t ≡ w x.hash x.value
  weigh-lone (inner sl) x e =
      let (one, none_below) = lone-items sl x e in
      weigh-no_nodes sl none_below ∙ rw one (omega arith)
  weigh-lone (collision h es) x e = absurd (ground arith)

  pub weigh-whole : (sl : Slots K V) → left (whole sl) ≡ weigh w (inner sl)
  weigh-whole sl = elim (Bool-cases (is_blank sl)) [
    | inl c ↦
        let (no_items, no_nodes) = blank_counts sl c in
        rw c (sym (weigh-no_nodes sl no_nodes ∙ weigh_list-nil (items sl) no_items))
    | inr c ↦ rw c refl
  ]

  pub weigh-slot_after : (o : Option (Trie K V)) → weigh_slot w (slot_after o) ≡ left o
  weigh-slot_after none = refl
  weigh-slot_after (some t) = elim (Option-cases (lone t)) [
    | inl c ↦ rw c refl
    | inr (x, c) ↦ rw c (sym (weigh-lone t x c))
  ]

  pub weigh-single :
      (f : ℕ) (x : Entry K V)
      → f < 32
      → weigh w (inner (put no_slots f (entry x))) ≡ w x.hash x.value
  weigh-single f x b =
      let free : weigh_slot {K = K} w (slot_at no_slots f) ≡ 0 = rw (slot_at-no_slots f) in
      omega (
        arith,
        free,
        weigh-put w no_slots f (entry x) (rw (width-no_slots K V) b),
        weigh-no_slots K V w,
      )

  weigh-bucket : (h : ℕ) (es : List (Entry K V)) → weigh w (bucket h es) ≡ weigh_list w es
  weigh-bucket h [] = refl
  weigh-bucket h (x ∷ []) = omega (arith, weigh-single (fragment x.hash 0) x (fragment-lt x.hash 0))
  weigh-bucket h (x ∷ y ∷ es) = refl

  module _ ⦃key : Key K⦄ where
    weigh-drop_key :
        (h : ℕ) (es : List (Entry K V)) (k : K)
        → let r = bucket_removal h (drop_key es k) (pick es k) in
          gone r + weigh_list w (drop_key es k) ≡ weigh_list w es
    weigh-drop_key h [] k = refl
    weigh-drop_key h (x ∷ es) k = elim (Bool-cases (key.equal x.key k)) [
      | inl c ↦ rw c refl
      | inr c ↦ rw c (elim (Option-cases (pick es k)) [
        | inl d ↦ rw d (omega (arith, rw d at (weigh-drop_key h es k)))
        | inr (y, d) ↦ rw d (omega (arith, rw d at (weigh-drop_key h es k)))
      ])
    ]

    settle-sum :
        (t : Trie K V) (r : Removal K V)
        → slot_gone (settle r) + slot_rest (subtree t) (settle r) ≡ gone r + rest t r
    settle-sum t absent = refl
    settle-sum t (removed e o) = omega (arith, weigh-slot_after o)

    rebuild-sum :
        (sl : Slots K V) (f : ℕ) (r : SlotRemoval K V)
        → f < width sl
        → slot_gone r + slot_rest (slot_at sl f) r ≡ weigh_slot w (slot_at sl f)
        → gone (rebuild sl f r) + rest (inner sl) (rebuild sl f r) ≡ weigh w (inner sl)
    rebuild-sum sl f kept b h = omega arith
    rebuild-sum sl f (changed e x) b h =
        omega (arith, weigh-whole (put sl f x), weigh-put w sl f x b, h)

    bucket_removal-sum :
        (h : ℕ) (es : List (Entry K V)) (k : K)
        → let r = bucket_removal h (drop_key es k) (pick es k) in
          gone r + rest (collision h es) r ≡ weigh_list w es
    bucket_removal-sum h es k = elim (Option-cases (pick es k)) [
      | inl c ↦ rw c (omega arith)
      | inr (x, c) ↦
          rw c (omega (arith, weigh-bucket h (drop_key es k), rw c at (weigh-drop_key h es k)))
    ]

    entry-sum :
        (x : Entry K V) (hash : ℕ) (k : K) (shift : ℕ)
        → let r = remove_slot (entry x) hash k shift in
          slot_gone r + slot_rest (entry x) r ≡ w x.hash x.value
    unfolding remove
    entry-sum x hash k shift = elim (Bool-cases (x.hash == hash && key.equal x.key k)) [
      | inl c ↦ rw c (omega arith)
      | inr c ↦ rw c (omega arith)
    ]

    vacant-sum :
        (hash : ℕ) (k : K) (shift : ℕ)
        → let r = remove_slot vacant hash k shift in slot_gone r + slot_rest vacant r ≡ 0
    unfolding remove
    vacant-sum hash k shift = refl

    collision-sum :
        (h : ℕ) (es : List (Entry K V)) (hash : ℕ) (k : K) (shift : ℕ)
        → gone (remove (collision h es) hash k shift)
            + rest (collision h es) (remove (collision h es) hash k shift)
          ≡ weigh_list w es
    unfolding remove
    collision-sum h es hash k shift = elim (Bool-cases (hash == h)) [
      | inl c ↦ rw c (bucket_removal-sum h es k)
      | inr c ↦ rw c (omega arith)
    ]

    -- What a removal takes away and what it leaves weigh as much as the tree.
    pub weigh-remove :
        (hash : ℕ) (k : K) (t : Trie K V) (shift p : ℕ)
        → IsTrie t shift p
        → gone (remove t hash k shift) + rest t (remove t hash k shift) ≡ weigh w t
    weigh-remove hash k =
        trie_induction
          (λ t shift p. gone (remove t hash k shift) + rest t (remove t hash k shift) ≡ weigh w t)
          (λ h es shift p a. collision-sum h es hash k shift)
          (λ sl shift p a deep.
            let f = fragment hash shift in
            rw (remove-inner sl hash k shift) (
              rebuild-sum sl f (remove_slot (slot_at sl f) hash k (shift + 5))
                (rw a.1 (fragment-lt hash shift))
                (elim (Slot-cases (slot_at sl f)) [
                  | inl c ↦ rw c (vacant-sum hash k (shift + 5))
                  | inr (inl (x, c)) ↦ rw c (entry-sum x hash k (shift + 5))
                  | inr (inr (t, c)) ↦
                      rw (c, remove-subtree t hash k (shift + 5))
                        (settle-sum t (remove t hash k (shift + 5)) ∙ deep f t c)
                ])))
