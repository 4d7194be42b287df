-- ===== src/Trie/Weight.antt =====
-- Sums over the entries of a tree: with the weight 1 the number of entries, and with the
-- contribution of an entry the `AdHash`. What an insertion does to any such sum.
use native.Mathlib.Decide.{ℕ_discrete, dec_lt}
use champ_trie.Prelude.{
  ℕ, zero, suc, ◌+◌, ◌<◌, ◌≡◌, ◌≢◌, refl, sym, ◌∙◌, true, Option, none, some, List, [], ◌∷◌, ◌++◌,
  arith, ◌==◌, Bool-cases, inl, inr, and_left, ==_iff,
}
use champ_trie.Hashing.{Key}
use champ_trie.Node.{Entry, fragment}
use champ_trie.Node.Bitmap.{fragment-lt}
use champ_trie.Trie.{
  Trie, Slot, Slots, inner, collision, vacant, entry, subtree, end, cons, width, slot_at, put,
  no_slots, items,
}
use champ_trie.Trie.Positions.{width-no_slots, width-put, slot_at-no_slots, slot_at-put_ne}
use champ_trie.Trie.Model.{
  entries, below, join, join_deep, join_same, join_apart, same, find, upsert, get, get_slot, insert,
  insert_slot,
}
use champ_trie.Trie.Shape.{
  IsPlaced, AllPlaced, IsTrie, IsSlot, step_path, slot_at-IsSlot, IsPlaced-step, hash_at_end,
}
use champ_trie.Trie.Lookup.{get-inner, insert-inner}

module _ {ℓ} {K V : Type ℓ} (w : ℕ → V → ℕ) where
  abbrev pub weigh_list : List (Entry K V) → ℕ
  weigh_list [] = 0
  weigh_list (e ∷ es) = w e.hash e.value + weigh_list es

  abbrev mutual
    pub weigh : Trie K V → ℕ
    weigh (inner sl) = weigh_slots sl
    weigh (collision h es) = weigh_list es

    pub weigh_slot : Slot K V → ℕ
    weigh_slot vacant = 0
    weigh_slot (entry e) = w e.hash e.value
    weigh_slot (subtree t) = weigh t

    pub weigh_slots : Slots K V → ℕ
    weigh_slots end = 0
    weigh_slots (cons s sl) = weigh_slot s + weigh_slots sl

  pub weigh_list-append :
      (xs ys : List (Entry K V)) → weigh_list (xs ++ ys) ≡ weigh_list xs + weigh_list ys
  weigh_list-append [] ys = omega arith
  weigh_list-append (x ∷ xs) ys = omega (arith, weigh_list-append xs ys)

  mutual
    unfolding entries

    weigh-entries_lem : (t : Trie K V) → weigh_list (entries t) ≡ weigh t
    weigh-entries_lem (inner sl) =
        omega (arith, weigh_list-append (items sl) (below sl), weigh-slots_lem sl)
    weigh-entries_lem (collision h es) = refl

    weigh-slots_lem :
        (sl : Slots K V) → weigh_list (items sl) + weigh_list (below sl) ≡ weigh_slots sl
    weigh-slots_lem end = refl
    weigh-slots_lem (cons vacant sl) = omega (arith, weigh-slots_lem sl)
    weigh-slots_lem (cons (entry e) sl) = omega (arith, weigh-slots_lem sl)
    weigh-slots_lem (cons (subtree t) sl) =
        omega
          (arith, weigh-slots_lem sl, weigh-entries_lem t, weigh_list-append (entries t) (below sl))

  pub weigh-entries : (t : Trie K V) → weigh_list (entries t) ≡ weigh t
  weigh-entries t = weigh-entries_lem t

  pub weigh-put :
      (sl : Slots K V) (f : ℕ) (x : Slot K V)
      → f < width sl
      → weigh_slots (put sl f x) + weigh_slot (slot_at sl f) ≡ weigh_slots sl + weigh_slot x
  weigh-put end f x h = absurd (omega arith)
  weigh-put (cons s sl) zero x h = omega arith
  weigh-put (cons s sl) (suc f) x h = omega (arith, weigh-put sl f x (omega arith))

-- The weight of what was found under the hash.
abbrev pub old_weight {ℓ} : {V : Type ℓ} → (ℕ → V → ℕ) → ℕ → Option V → ℕ
old_weight w h none = 0
old_weight w h (some v) = w h v

pub weigh-no_slots {ℓ} : (K V : Type ℓ) (w : ℕ → V → ℕ) → weigh_slots w (no_slots {K = K}) ≡ 0
unfolding no_slots
weigh-no_slots K V w = refl

module _ {ℓ} {K V : Type ℓ} ⦃key : Key K⦄ (w : ℕ → V → ℕ) where
  abbrev weight : Entry K V → ℕ
  weight e = w e.hash e.value

  pub weigh-join_apart :
      (x e : Entry K V) (f1 f2 : ℕ)
      → f1 < 32
      → f2 < 32
      → f1 ≢ f2
      → weigh w (inner (put (put no_slots f1 (entry x)) f2 (entry e))) ≡ weight x + weight e
  weigh-join_apart x e f1 f2 b c d =
      let one = put no_slots f1 (entry x) in
      let first = weigh-put w no_slots f1 (entry x) (rw (width-no_slots K V) b) in
      let second =
        weigh-put w one f2 (entry e) (rw (width-put no_slots f1 (entry x), width-no_slots K V) c) in
      let free1 : weigh_slot {K = K} w (slot_at no_slots f1) ≡ 0 = rw (slot_at-no_slots f1) in
      let free2 : weigh_slot {K = K} w (slot_at one f2) ≡ 0 =
        rw (slot_at-put_ne no_slots f1 f2 (entry x) d, slot_at-no_slots f2) in
      omega (arith, first, second, free1, free2, weigh-no_slots K V w)

  pub weigh-join_same :
      (t : Trie K V) (f : ℕ) → f < 32 → weigh w (inner (put no_slots f (subtree t))) ≡ weigh w t
  weigh-join_same t f b =
      let free : weigh_slot {K = K} w (slot_at no_slots f) ≡ 0 = rw (slot_at-no_slots f) in
      omega (
        arith,
        free,
        weigh-put w no_slots f (subtree t) (rw (width-no_slots K V) b),
        weigh-no_slots K V w,
      )

  pub weigh-join :
      (fuel : ℕ) (x e : Entry K V) (shift : ℕ) → weigh w (join fuel x e shift) ≡ weight x + weight e
  weigh-join zero x e shift = unfold join in omega arith
  weigh-join (suc fuel) x e shift = elim (dec_lt 60 shift) [
    | yes deep ↦ rw (join_deep fuel x e shift deep) (omega arith)
    | no shallow ↦ elim (ℕ_discrete (fragment x.hash shift) (fragment e.hash shift)) [
      | yes d ↦ rw (join_same fuel x e shift (omega arith) d) (
          weigh-join_same (join fuel x e (shift + 5)) _ (fragment-lt x.hash shift)
          ∙ weigh-join fuel x e (shift + 5))
      | no d ↦
          rw (join_apart fuel x e shift (omega arith) d)
            (weigh-join_apart x e _ _ (fragment-lt x.hash shift) (fragment-lt e.hash shift) d)
    ]
  ]

  pub weigh-upsert :
      (es : List (Entry K V)) (e : Entry K V) (p : ℕ)
      → AllPlaced es 65 p
      → e.hash ≡ p
      → weigh_list w (upsert es e) + old_weight w e.hash (find es e.key)
        ≡ weigh_list w es + weight e
  unfolding find upsert
  weigh-upsert [] e p a h = omega arith
  weigh-upsert (x ∷ es) e p a h = elim (Bool-cases (key.equal x.key e.key)) [
    | inl c ↦ rw c (rw (h ∙ sym (hash_at_end x p a.0)) (omega arith))
    | inr c ↦ rw c (omega (arith, weigh-upsert es e p a.1 h))
  ]

  weigh-insert_inner :
      (sl : Slots K V) (e : Entry K V) (shift : ℕ)
      → let s = slot_at sl (fragment e.hash shift) in
        fragment e.hash shift < width sl
        → weigh_slot w (insert_slot s e (shift + 5))
            + old_weight w e.hash (get_slot s e.hash e.key (shift + 5))
          ≡ weigh_slot w s + weight e
        → weigh w (insert (inner sl) e shift)
            + old_weight w e.hash (get (inner sl) e.hash e.key shift)
          ≡ weigh w (inner sl) + weight e
  weigh-insert_inner sl e shift b here =
      let f = fragment e.hash shift in
      rw (insert-inner sl e shift, get-inner sl e.hash e.key shift)
        (omega (arith, here, weigh-put w sl f (insert_slot (slot_at sl f) e (shift + 5)) b))

  weigh-insert_collision :
      (h : ℕ) (es : List (Entry K V)) (e : Entry K V) (shift p : ℕ)
      → IsTrie (collision h es) shift p
      → IsPlaced e shift p
      → weigh w (insert (collision h es) e shift)
          + old_weight w e.hash (get (collision h es) e.hash e.key shift)
        ≡ weigh_list w es + weight e
  unfolding get insert
  weigh-insert_collision h es e shift p t i =
      let at_end : e.hash ≡ p = hash_at_end e p (rw t.deepest at i) in
      let reached : (e.hash == h) ≡ true = (==_iff e.hash h).1 (at_end ∙ sym t.hash_on_path) in
      rw reached (weigh-upsert es e p (rw t.deepest at t.placed) at_end)

  weigh_slot-insert_entry :
      (x e : Entry K V) (shift : ℕ)
      → weigh_slot w (insert_slot (entry x) e shift)
          + old_weight w e.hash (get_slot (entry x) e.hash e.key shift)
        ≡ weight x + weight e
  unfolding get insert
  weigh_slot-insert_entry x e shift = elim (Bool-cases (same x e)) [
    | inl c ↦
        let hashes : x.hash ≡ e.hash =
          (==_iff _ _).0 (and_left (x.hash == e.hash) (key.equal x.key e.key) c) in
        rw (c, hashes) (omega arith)
    | inr c ↦ rw c (omega (arith, weigh-join 14 x e shift))
  ]

  mutual
    unfolding get insert

    weigh-insert_lem :
        (t : Trie K V) (e : Entry K V) (shift p : ℕ)
        → IsTrie t shift p
        → IsPlaced e shift p
        → weigh w (insert t e shift) + old_weight w e.hash (get t e.hash e.key shift)
          ≡ weigh w t + weight e
    weigh-insert_lem (inner sl) e shift p t i =
        weigh-insert_inner sl e shift (rw t.1 (fragment-lt e.hash shift)) (
          weigh_slots-insert sl (fragment e.hash shift) e (shift + 5)
            (step_path shift p (fragment e.hash shift)) (slot_at-IsSlot sl shift p _ t.2)
            (IsPlaced-step e shift p i))
    weigh-insert_lem (collision h es) e shift p t i = weigh-insert_collision h es e shift p t i

    weigh_slot-insert :
        (s : Slot K V) (e : Entry K V) (shift p : ℕ)
        → IsSlot s shift p
        → IsPlaced e shift p
        → weigh_slot w (insert_slot s e shift) + old_weight w e.hash (get_slot s e.hash e.key shift)
          ≡ weigh_slot w s + weight e
    weigh_slot-insert vacant e shift p t i = omega arith
    weigh_slot-insert (entry x) e shift p t i = weigh_slot-insert_entry x e shift
    weigh_slot-insert (subtree t) e shift p a i = weigh-insert_lem t e shift p a.0 i

    weigh_slots-insert :
        (sl : Slots K V) (f : ℕ) (e : Entry K V) (shift p : ℕ)
        → IsSlot (slot_at sl f) shift p
        → IsPlaced e shift p
        → weigh_slot w (insert_slot (slot_at sl f) e shift)
            + old_weight w e.hash (get_slot (slot_at sl f) e.hash e.key shift)
          ≡ weigh_slot w (slot_at sl f) + weight e
    weigh_slots-insert end f e shift p t i = omega arith
    weigh_slots-insert (cons s sl) zero e shift p t i = weigh_slot-insert s e shift p t i
    weigh_slots-insert (cons s sl) (suc f) e shift p t i = weigh_slots-insert sl f e shift p t i

  -- An insertion adds the entry's weight, and takes away that of the entry that it replaces.
  pub weigh-insert :
      (t : Trie K V) (e : Entry K V) (shift p : ℕ)
      → IsTrie t shift p
      → IsPlaced e shift p
      → weigh w (insert t e shift) + old_weight w e.hash (get t e.hash e.key shift)
        ≡ weigh w t + weight e
  weigh-insert t e shift p a i = weigh-insert_lem t e shift p a i
