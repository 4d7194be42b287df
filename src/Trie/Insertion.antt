-- ===== src/Trie/Insertion.antt =====
-- What a lookup finds after an insertion.
use native.Mathlib.Decide.{ℕ_discrete}
use champ_trie.Prelude.{
  ℕ, zero, suc, ◌+◌, ◌*◌, ◌<◌, ◌≡◌, refl, sym, ◌∙◌, true, false, some, List, [], ◌∷◌, arith, ◌==◌,
  ==_refl, ==_ne, and_right, if◌then◌else◌, Bool-cases, inl, inr,
}
use champ_trie.Hashing.{Key}
use champ_trie.Node.{Entry, fragment}
use champ_trie.Node.Bitmap.{fragment-lt}
use champ_trie.Trie.{
  Trie, Slot, Slots, inner, collision, vacant, entry, subtree, end, cons, width, slot_at,
}
use champ_trie.Trie.Model.{join, same, find, upsert, get, get_slot, insert, insert_slot}
use champ_trie.Trie.Shape.{
  IsPlaced, IsTrie, IsSlot, step_path, slot_at-IsSlot, IsPlaced-step, hash_at_end,
}
use champ_trie.Trie.Lookup.{
  hash_of, get-inner, insert-inner, hash_of_equal, get-put, miss, only_one, get_slot-entry,
  get_slot-subtree, get-join,
}

-- Keys that are equal are equal to the same keys.
pub equal_congr {ℓ} :
    {K : Type ℓ} ⦃key : Key K⦄ (x e q : K) → key.equal x e ≡ true → key.equal x q ≡ key.equal e q
equal_congr ⦃key⦄ x e q h =
    ground (arith, key.equal_flip x e, key.equal_chain x e q, key.equal_chain e x q)

module _ {ℓ} {K V : Type ℓ} ⦃key : Key K⦄ where
  pub find-upsert :
      (es : List (Entry K V)) (e : Entry K V) (q : K)
      → find (upsert es e) q ≡ (if key.equal e.key q then some e.value else find es q)
  unfolding find upsert
  find-upsert [] e q = refl
  find-upsert (x ∷ es) e q = elim (Bool-cases (key.equal x.key e.key)) [
    | inl h ↦
        rw (h, equal_congr x.key e.key q h)
          (elim (Bool-cases (key.equal e.key q)) [ inl c ↦ rw c | inr c ↦ rw c ])
    | inr h ↦
        rw (h, find-upsert es e q)
          (elim (Bool-cases (key.equal e.key q)) [
            | inl c ↦ rw (c, only_one x.key e.key q h c)
            | inr c ↦ rw c
          ])
  ]

  -- An entry that is not of the same key has a key that is not equal.
  pub apart_of_not_same :
      (x e : Entry K V) (shift p : ℕ)
      → IsPlaced x shift p
      → IsPlaced e shift p
      → same x e ≡ false
      → key.equal x.key e.key ≡ false
  apart_of_not_same x e shift p i j h = elim (Bool-cases (key.equal x.key e.key)) [
    | inl c ↦
        let hashes : x.hash ≡ e.hash = hash_of_equal x e.key shift p i c ∙ sym j.hash_lem in
        let yes_same : same x e ≡ true = rw (hashes, ==_refl e.hash, c) in cc
    | inr c ↦ c
  ]

  get-insert_inner :
      (sl : Slots K V) (e : Entry K V) (q : K) (shift p : ℕ)
      → let s = slot_at sl (fragment e.hash shift) in
        IsPlaced e shift p
        → fragment e.hash shift < width sl
        → get_slot (insert_slot s e (shift + 5)) (hash_of q) q (shift + 5)
          ≡ (if key.equal e.key q then some e.value else get_slot s (hash_of q) q (shift + 5))
        → get (insert (inner sl) e shift) (hash_of q) q shift
          ≡ (if key.equal e.key q then some e.value else get (inner sl) (hash_of q) q shift)
  get-insert_inner sl e q shift p i b here =
      let f = fragment e.hash shift in
      let x = insert_slot (slot_at sl f) e (shift + 5) in
      rw (insert-inner sl e shift, get-put sl f x (hash_of q) q shift b)
        (elim (ℕ_discrete (fragment (hash_of q) shift) f) [
          | yes g ↦ rw (get-inner sl (hash_of q) q shift, g, ==_refl f) here
          | no g ↦ rw (==_ne _ _ g, miss e q shift p i g)
        ])

  get-insert_collision :
      (h : ℕ) (es : List (Entry K V)) (e : Entry K V) (q : K) (shift p : ℕ)
      → IsTrie (collision h es) shift p
      → IsPlaced e shift p
      → get (insert (collision h es) e shift) (hash_of q) q shift
        ≡ (if key.equal e.key q then some e.value else get (collision h es) (hash_of q) q shift)
  unfolding get insert
  get-insert_collision h es e q shift p t i = elim (Bool-cases (hash_of q == h)) [
    | inl c ↦ rw (c, find-upsert es e q)
    | inr c ↦ rw c (elim (Bool-cases (key.equal e.key q)) [
      | inl d ↦
          let at_end : e.hash ≡ p = hash_at_end e p (rw t.deepest at i) in
          let found : hash_of q ≡ h =
            sym (hash_of_equal e q shift p i d) ∙ at_end ∙ sym t.hash_on_path in
          let t : (hash_of q == h) ≡ true = rw found (==_refl h) in cc
      | inr d ↦ rw d
    ])
  ]

  get_slot-insert_entry :
      (x e : Entry K V) (q : K) (n shift p : ℕ)
      → shift + 5 * n ≡ 65
      → IsPlaced x shift p
      → IsPlaced e shift p
      → get_slot (insert_slot (entry x) e shift) (hash_of q) q shift
        ≡ (if key.equal e.key q then some e.value else get_slot (entry x) (hash_of q) q shift)
  unfolding insert
  get_slot-insert_entry x e q n shift p l i j =
      rw (get_slot-entry x q shift shift p i) (elim (Bool-cases (same x e)) [
        | inl c ↦
            rw (c, get_slot-entry e q shift shift p j)
              (elim (Bool-cases (key.equal e.key q)) [
                | inl d ↦ rw d
                | inr d ↦ rw (
                  d,
                  equal_congr x.key e.key q
                      (and_right (x.hash == e.hash) (key.equal x.key e.key) c),
                  d,
                )
              ])
        | inr c ↦ rw c (
            get_slot-subtree (join 14 x e shift) (hash_of q) q shift
            ∙ get-join x e q (apart_of_not_same x e shift p i j c) n 14 shift p l (omega arith) i j)
      ])

  mutual
    unfolding get insert

    get-insert_lem :
        (t : Trie K V) (e : Entry K V) (q : K) (n shift p : ℕ)
        → shift + 5 * n ≡ 65
        → IsTrie t shift p
        → IsPlaced e shift p
        → get (insert t e shift) (hash_of q) q shift
          ≡ (if key.equal e.key q then some e.value else get t (hash_of q) q shift)
    get-insert_lem (inner sl) e q zero shift p l t i = absurd (omega (arith, t.0))
    get-insert_lem (inner sl) e q (suc n) shift p l t i =
        let f = fragment e.hash shift in
        let s = slot_at sl f in
        let here =
          get_slots-insert sl f e q n (shift + 5) (step_path shift p f)
            (rw t.1 (fragment-lt e.hash shift)) (omega arith) (slot_at-IsSlot sl shift p f t.2)
            (IsPlaced-step e shift p i) in
        get-insert_inner sl e q shift p i (rw t.1 (fragment-lt e.hash shift)) here
    get-insert_lem (collision h es) e q n shift p l t i = get-insert_collision h es e q shift p t i

    get_slot-insert :
        (s : Slot K V) (e : Entry K V) (q : K) (n shift p : ℕ)
        → shift + 5 * n ≡ 65
        → IsSlot s shift p
        → IsPlaced e shift p
        → get_slot (insert_slot s e shift) (hash_of q) q shift
          ≡ (if key.equal e.key q then some e.value else get_slot s (hash_of q) q shift)
    get_slot-insert vacant e q n shift p l t i = get_slot-entry e q shift shift p i
    get_slot-insert (entry x) e q n shift p l t i = get_slot-insert_entry x e q n shift p l t i
    get_slot-insert (subtree t) e q n shift p l a i = get-insert_lem t e q n shift p l a.0 i

    get_slots-insert :
        (sl : Slots K V) (f : ℕ) (e : Entry K V) (q : K) (n shift p : ℕ)
        → f < width sl
        → shift + 5 * n ≡ 65
        → IsSlot (slot_at sl f) shift p
        → IsPlaced e shift p
        → get_slot (insert_slot (slot_at sl f) e shift) (hash_of q) q shift ≡ (
            if key.equal e.key q then some e.value else get_slot (slot_at sl f) (hash_of q) q shift)
    get_slots-insert end f e q n shift p b l t i = absurd (omega arith)
    get_slots-insert (cons s sl) zero e q n shift p b l t i = get_slot-insert s e q n shift p l t i
    get_slots-insert (cons s sl) (suc f) e q n shift p b l t i =
        get_slots-insert sl f e q n shift p (omega arith) l t i

  -- A lookup after an insertion finds the new value under the keys that equal the entry's, and what
  -- was there under all others.
  pub get-insert :
      (t : Trie K V) (e : Entry K V) (q : K) (n shift p : ℕ)
      → shift + 5 * n ≡ 65
      → IsTrie t shift p
      → IsPlaced e shift p
      → get (insert t e shift) (hash_of q) q shift
        ≡ (if key.equal e.key q then some e.value else get t (hash_of q) q shift)
  get-insert t e q n shift p l a i = get-insert_lem t e q n shift p l a i
