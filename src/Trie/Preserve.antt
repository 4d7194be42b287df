-- ===== src/Trie/Preserve.antt =====
-- An insertion keeps the shape of a tree.
use native.Mathlib.Decide.{ℕ_discrete}
use champ_trie.Prelude.{
  ℕ, zero, suc, ◌+◌, ◌*◌, ◌≤◌, ◌<◌, ◌≡◌, refl, sym, ◌∙◌, true, false, ◌&&◌, Option, none, some,
  List, [], ◌∷◌, length, arith, ◌==◌, Bool-cases, inl, inr,
}
use champ_trie.Hashing.{Key}
use champ_trie.Node.{Entry, fragment}
use champ_trie.Trie.{
  Trie, Slot, Slots, inner, collision, vacant, entry, subtree, end, cons, slot_at, put, no_slots,
}
use champ_trie.Trie.Positions.{width-no_slots, width-put}
use champ_trie.Trie.Model.{
  entries, join, join_deep, join_same, join_apart, same, find, upsert, get, insert, insert_slot,
  overflows, overflows_slot, overflows_slots, is_none,
}
use champ_trie.Trie.Shape.{
  IsPlaced, AllPlaced, Apart, IsDistinct, IsBucket, IsTrie, IsSlot, step_path, slot_at-IsSlot,
  put-AreSlots, no_slots-AreSlots, IsPlaced-step, hash_at_end,
}
use champ_trie.Trie.Lookup.{fits, insert-inner}
use champ_trie.Trie.Insertion.{apart_of_not_same, equal_congr}
use champ_trie.Trie.Weight.{
  weigh, weigh_list, weigh-entries, old_weight, weigh-join, weigh-upsert, weigh-insert,
}

abbrev pub one {ℓ} : {V : Type ℓ} → ℕ → V → ℕ
one h v = 1

module _ {ℓ} {K V : Type ℓ} where
  weigh_list-one : (es : List (Entry K V)) → weigh_list one es ≡ length es
  weigh_list-one [] = refl
  weigh_list-one (e ∷ es) = omega (arith, weigh_list-one es)

  -- The number of entries.
  pub weigh-one : (t : Trie K V) → weigh one t ≡ length (entries t)
  weigh-one t = sym (weigh-entries one t) ∙ weigh_list-one (entries t)

bucket_bounds {ℓ} :
    {V : Type ℓ} (o : Option V) (h m k : ℕ)
    → m + old_weight one h o ≡ k + 1
    → (k == 255 && is_none o) ≡ false
    → 2 ≤ k
    → k ≤ 255
    → (2 ≤ m) × (m ≤ 255)
bucket_bounds none h m k grown room two fits = ground arith
bucket_bounds (some v) h m k grown room two fits = omega arith

-- An insertion loses no entry.
count_grows {ℓ} : {V : Type ℓ} (o : Option V) (h m k : ℕ) → m + old_weight one h o ≡ k + 1 → k ≤ m
count_grows none h m k grown = omega arith
count_grows (some v) h m k grown = omega arith

module _ {ℓ} {K V : Type ℓ} ⦃key : Key K⦄ where
  upsert-AllPlaced :
      (es : List (Entry K V)) (e : Entry K V) (shift p : ℕ)
      → AllPlaced es shift p
      → IsPlaced e shift p
      → AllPlaced (upsert es e) shift p
  unfolding upsert
  upsert-AllPlaced [] e shift p a i = (i, tt)
  upsert-AllPlaced (x ∷ es) e shift p a i = elim (Bool-cases (key.equal x.key e.key)) [
    | inl c ↦ rw c (i, a.1)
    | inr c ↦ rw c (a.0, upsert-AllPlaced es e shift p a.1 i)
  ]

  upsert-Apart :
      (es : List (Entry K V)) (e y : Entry K V)
      → Apart y es
      → key.equal e.key y.key ≡ false
      → Apart y (upsert es e)
  unfolding upsert
  upsert-Apart [] e y a n = (n, tt)
  upsert-Apart (x ∷ es) e y a n = elim (Bool-cases (key.equal x.key e.key)) [
    | inl c ↦ rw c (n, a.1)
    | inr c ↦ rw c (a.0, upsert-Apart es e y a.1 n)
  ]

  Apart-congr :
      (es : List (Entry K V)) (x e : Entry K V)
      → key.equal x.key e.key ≡ true
      → Apart x es
      → Apart e es
  Apart-congr [] x e c a = tt
  Apart-congr (y ∷ es) x e c a = (
    key.equal_flip y.key e.key
        ∙ sym (equal_congr x.key e.key y.key c)
        ∙ key.equal_flip x.key y.key
        ∙ a.0,
    Apart-congr es x e c a.1,
  )

  upsert-IsDistinct :
      (es : List (Entry K V)) (e : Entry K V) → IsDistinct es → IsDistinct (upsert es e)
  unfolding upsert
  upsert-IsDistinct [] e d = (tt, tt)
  upsert-IsDistinct (x ∷ es) e d = elim (Bool-cases (key.equal x.key e.key)) [
    | inl c ↦ rw c (Apart-congr es x e c d.0, d.1)
    | inr c ↦
        rw c (upsert-Apart es e x d.0 (key.equal_flip e.key x.key ∙ c), upsert-IsDistinct es e d.1)
  ]

  upsert-IsBucket :
      (h : ℕ) (es : List (Entry K V)) (e : Entry K V) (shift p : ℕ)
      → IsBucket h es shift p
      → IsPlaced e shift p
      → (length es == 255 && is_none (find es e.key)) ≡ false
      → IsBucket h (upsert es e) shift p
  upsert-IsBucket h es e shift p b i room =
      let grown : length (upsert es e) + old_weight one e.hash (find es e.key) ≡ length es + 1 =
        rw (← weigh_list-one es, ← weigh_list-one (upsert es e))
          (weigh-upsert one es e p (rw b.deepest at b.placed)
            (hash_at_end e p (rw b.deepest at i))) in
      let bounds =
        bucket_bounds (find es e.key) e.hash (length (upsert es e)) (length es) grown room b.two
          b.fits in
      record {
        deepest = b.deepest;
        hash_on_path = b.hash_on_path;
        two = bounds.0;
        fits = bounds.1;
        placed = upsert-AllPlaced es e shift p b.placed i;
        distinct = upsert-IsDistinct es e b.distinct;
      }

  module _ (x e : Entry K V) (apart : key.equal x.key e.key ≡ false) where
    length-join : (fuel shift : ℕ) → length (entries (join fuel x e shift)) ≡ 2
    length-join fuel shift = sym (weigh-one (join fuel x e shift)) ∙ weigh-join one fuel x e shift

    -- The tree of two entries has the shape of a tree, and holds both.
    join-IsTrie :
        (n fuel shift p : ℕ)
        → shift + 5 * n ≡ 65
        → n < fuel
        → IsPlaced x shift p
        → IsPlaced e shift p
        → IsTrie (join fuel x e shift) shift p
    join-IsTrie n zero shift p l b i j = absurd (omega arith)
    join-IsTrie zero (suc fuel) shift p l b i j =
        let s : shift ≡ 65 = omega arith in
        rw (join_deep fuel x e shift (omega arith)) (record {
          deepest = s;
          hash_on_path = hash_at_end x p (rw s at i);
          two = omega arith;
          fits = omega arith;
          placed = (i, (j, tt));
          distinct = ((key.equal_flip e.key x.key ∙ apart, tt), (tt, tt));
        })
    join-IsTrie (suc n) (suc fuel) shift p l b i j =
        elim (ℕ_discrete (fragment x.hash shift) (fragment e.hash shift)) [
          | yes d ↦
              let deeper =
                join-IsTrie n fuel (shift + 5) (step_path shift p (fragment x.hash shift))
                  (omega arith) (omega arith) (IsPlaced-step x shift p i)
                  (rw d (IsPlaced-step e shift p j)) in
              rw (join_same fuel x e shift (omega arith) d) (
                omega arith,
                width-put no_slots _ _ ∙ width-no_slots K V,
                put-AreSlots no_slots shift p _ _ (no_slots-AreSlots K V shift p)
                    (deeper, rw (length-join fuel (shift + 5)) (omega arith)),
              )
          | no d ↦ rw (join_apart fuel x e shift (omega arith) d) (
            omega arith,
            width-put (put no_slots _ _) _ _ ∙ width-put no_slots _ _ ∙ width-no_slots K V,
            put-AreSlots (put no_slots _ _) shift p _ _
                (put-AreSlots no_slots shift p _ _ (no_slots-AreSlots K V shift p)
                  (IsPlaced-step x shift p i))
                (IsPlaced-step e shift p j),
          )
        ]

  length-insert_le :
      (t : Trie K V) (e : Entry K V) (shift p : ℕ)
      → IsTrie t shift p
      → IsPlaced e shift p
      → length (entries t) ≤ length (entries (insert t e shift))
  length-insert_le t e shift p a i =
      count_grows (get t e.hash e.key shift) e.hash _ _
        (rw (← weigh-one t, ← weigh-one (insert t e shift)) (weigh-insert one t e shift p a i))

  IsSlot-insert_entry :
      (x e : Entry K V) (n shift p : ℕ)
      → shift + 5 * n ≡ 65
      → IsPlaced x shift p
      → IsPlaced e shift p
      → IsSlot (insert_slot (entry x) e shift) shift p
  unfolding insert
  IsSlot-insert_entry x e n shift p l i j = elim (Bool-cases (same x e)) [
    | inl c ↦ rw c j
    | inr c ↦
        let apart = apart_of_not_same x e shift p i j c in
        rw c (
          join-IsTrie x e apart n 14 shift p l (omega arith) i j,
          rw (length-join x e apart 14 shift) (omega arith),
        )
  ]

  inner-IsTrie :
      (sl : Slots K V) (e : Entry K V) (shift p : ℕ)
      → IsTrie (inner sl) shift p
      → let f = fragment e.hash shift in
        IsSlot (insert_slot (slot_at sl f) e (shift + 5)) (shift + 5) (step_path shift p f)
        → IsTrie (insert (inner sl) e shift) shift p
  inner-IsTrie sl e shift p t x =
      rw (insert-inner sl e shift) (t.0, width-put sl _ _ ∙ t.1, put-AreSlots sl shift p _ _ t.2 x)

  mutual
    unfolding insert overflows

    insert-IsTrie_lem :
        (t : Trie K V) (e : Entry K V) (n shift p : ℕ)
        → shift + 5 * n ≡ 65
        → IsTrie t shift p
        → IsPlaced e shift p
        → overflows t e shift ≡ false
        → IsTrie (insert t e shift) shift p
    insert-IsTrie_lem (inner sl) e zero shift p l t i r = absurd (omega (arith, t.0))
    insert-IsTrie_lem (inner sl) e (suc n) shift p l t i r = inner-IsTrie sl e shift p t (
        slots-IsSlot_lem sl (fragment e.hash shift) e n (shift + 5)
          (step_path shift p (fragment e.hash shift)) (omega arith)
          (slot_at-IsSlot sl shift p _ t.2) (IsPlaced-step e shift p i) r)
    insert-IsTrie_lem (collision h es) e n shift p l t i r = upsert-IsBucket h es e shift p t i r

    slot-IsSlot_lem :
        (s : Slot K V) (e : Entry K V) (n shift p : ℕ)
        → shift + 5 * n ≡ 65
        → IsSlot s shift p
        → IsPlaced e shift p
        → overflows_slot s e shift ≡ false
        → IsSlot (insert_slot s e shift) shift p
    slot-IsSlot_lem vacant e n shift p l t i r = i
    slot-IsSlot_lem (entry x) e n shift p l t i r = IsSlot-insert_entry x e n shift p l t i
    slot-IsSlot_lem (subtree t) e n shift p l a i r = (
      insert-IsTrie_lem t e n shift p l a.0 i r,
      omega (arith, a.1, length-insert_le t e shift p a.0 i),
    )

    slots-IsSlot_lem :
        (sl : Slots K V) (f : ℕ) (e : Entry K V) (n shift p : ℕ)
        → shift + 5 * n ≡ 65
        → IsSlot (slot_at sl f) shift p
        → IsPlaced e shift p
        → overflows_slots sl f e shift ≡ false
        → IsSlot (insert_slot (slot_at sl f) e shift) shift p
    slots-IsSlot_lem end f e n shift p l t i r = i
    slots-IsSlot_lem (cons s sl) zero e n shift p l t i r = slot-IsSlot_lem s e n shift p l t i r
    slots-IsSlot_lem (cons s sl) (suc f) e n shift p l t i r =
        slots-IsSlot_lem sl f e n shift p l t i r

  -- An insertion that does not overflow a collision node keeps the shape.
  pub insert-IsTrie :
      (t : Trie K V) (e : Entry K V) (n shift p : ℕ)
      → shift + 5 * n ≡ 65
      → IsTrie t shift p
      → IsPlaced e shift p
      → overflows t e shift ≡ false
      → IsTrie (insert t e shift) shift p
  insert-IsTrie t e n shift p l a i r = insert-IsTrie_lem t e n shift p l a i r
