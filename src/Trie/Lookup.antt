-- ===== src/Trie/Lookup.antt =====
-- What a lookup finds after an insertion.
use native.Mathlib.Decide.{ℕ_discrete}
use champ_trie.Prelude.{
  ℕ, zero, suc, ◌+◌, ◌*◌, ◌<◌, ◌≡◌, ◌≢◌, refl, ap, sym, ◌∙◌, true, false, Option, none, some, [],
  ◌∷◌, arith, ◌==◌, ==_refl, ==_ne, if◌then◌else◌, Bool-cases, inl, inr,
}
use champ_trie.Hashing.{Key}
use champ_trie.Node.{Entry, fragment, bits_per_level}
use champ_trie.Node.Bitmap.{fragment-lt}
use champ_trie.Trie.{
  Trie, Slot, Slots, inner, collision, entry, subtree, end, cons, width, slot_at, put, no_slots,
}
use champ_trie.Trie.Positions.{
  slot_at-put_self, slot_at-put_ne, width-put, width-no_slots, slot_at-no_slots,
}
use champ_trie.Trie.Model.{
  join, join_deep, join_same, join_apart, find, get, get_slot, get_slots, insert, insert_slot,
  insert_slots,
}
use champ_trie.Trie.Shape.{IsPlaced, step_path, IsPlaced-step, hash_at_end}

abbrev pub hash_of {ℓ} : {K : Type ℓ} ⦃key : Key K⦄ → K → ℕ
hash_of ⦃key⦄ k = key.hashed.digest k

pub fits {ℓ} :
    (K V : Type ℓ) (hash shift : ℕ) → fragment hash shift < width (no_slots {K = K} {V = V})
fits K V hash shift = rw (width-no_slots K V) (fragment-lt hash shift)

pub only_one {ℓ} :
    {K : Type ℓ} ⦃key : Key K⦄ (x e q : K)
    → key.equal x e ≡ false
    → key.equal e q ≡ true
    → key.equal x q ≡ false
only_one ⦃key⦄ x e q n h = ground (arith, key.equal_flip q e, key.equal_chain x q e)

module _ {ℓ} {K V : Type ℓ} ⦃key : Key K⦄ where
  pub get_slots-slot_at :
      (sl : Slots K V) (f hash : ℕ) (k : K) (shift : ℕ)
      → get_slots sl f hash k shift ≡ get_slot (slot_at sl f) hash k shift
  unfolding get
  get_slots-slot_at end f hash k shift = refl
  get_slots-slot_at (cons s sl) zero hash k shift = refl
  get_slots-slot_at (cons s sl) (suc f) hash k shift = get_slots-slot_at sl f hash k shift

  pub get-inner :
      (sl : Slots K V) (hash : ℕ) (k : K) (shift : ℕ)
      → get (inner sl) hash k shift
        ≡ get_slot (slot_at sl (fragment hash shift)) hash k (shift + bits_per_level)
  unfolding get
  get-inner sl hash k shift = get_slots-slot_at sl (fragment hash shift) hash k (shift + 5)

  pub insert_slots-put :
      (sl : Slots K V) (f : ℕ) (e : Entry K V) (shift : ℕ)
      → insert_slots sl f e shift ≡ put sl f (insert_slot (slot_at sl f) e shift)
  unfolding insert
  insert_slots-put end f e shift = refl
  insert_slots-put (cons s sl) zero e shift = refl
  insert_slots-put (cons s sl) (suc f) e shift = ap (cons s) (insert_slots-put sl f e shift)

  pub insert-inner :
      (sl : Slots K V) (e : Entry K V) (shift : ℕ)
      → let f = fragment e.hash shift in
        insert (inner sl) e shift
        ≡ inner (put sl f (insert_slot (slot_at sl f) e (shift + bits_per_level)))
  unfolding insert
  insert-inner sl e shift = ap inner (insert_slots-put sl (fragment e.hash shift) e (shift + 5))

  -- Equal keys have the hash of the entry.
  pub hash_of_equal :
      (e : Entry K V) (q : K) (shift p : ℕ)
      → IsPlaced e shift p
      → key.equal e.key q ≡ true
      → e.hash ≡ hash_of q
  hash_of_equal e q shift p i h = i.hash_lem ∙ key.digest-equal e.key q h

  -- A write of one position is read back there, and nowhere else.
  pub get-put :
      (sl : Slots K V) (f : ℕ) (x : Slot K V) (hash : ℕ) (k : K) (shift : ℕ)
      → f < width sl
      → get (inner (put sl f x)) hash k shift ≡ (
          if fragment hash shift == f
          then get_slot x hash k (shift + bits_per_level)
          else get (inner sl) hash k shift)
  get-put sl f x hash k shift h =
      let g = fragment hash shift in
      rw (get-inner (put sl f x) hash k shift, get-inner sl hash k shift)
        (elim (ℕ_discrete g f) [
          | yes e ↦ rw (e, slot_at-put_self sl f x h, ==_refl f)
          | no n ↦ rw (slot_at-put_ne sl f g x (λ e. n (sym e)), ==_ne g f n)
        ])

  pub get-no_slots :
      (hash : ℕ) (k : K) (shift : ℕ) → get {V = V} (inner no_slots) hash k shift ≡ none
  unfolding get
  get-no_slots hash k shift =
      get-inner no_slots hash k shift
      ∙ ap (λ x. get_slot x hash k (shift + 5)) (slot_at-no_slots (fragment hash shift))

  -- A key whose hash takes another way at this node is another key.
  pub miss :
      (e : Entry K V) (q : K) (shift p : ℕ)
      → IsPlaced e shift p
      → fragment (hash_of q) shift ≢ fragment e.hash shift
      → key.equal e.key q ≡ false
  miss e q shift p i n = elim (Bool-cases (key.equal e.key q)) [
    | inl h ↦ absurd (n (ap (λ x. fragment x shift) (sym (hash_of_equal e q shift p i h))))
    | inr h ↦ h
  ]

  pub get_slot-subtree :
      (t : Trie K V) (hash : ℕ) (k : K) (shift : ℕ)
      → get_slot (subtree t) hash k shift ≡ get t hash k shift
  unfolding get
  get_slot-subtree t hash k shift = refl

  -- An entry in its place is found by its key.
  pub get_slot-entry :
      (e : Entry K V) (q : K) (below shift p : ℕ)
      → IsPlaced e shift p
      → get_slot (entry e) (hash_of q) q below ≡ (if key.equal e.key q then some e.value else none)
  unfolding get
  get_slot-entry e q below shift p i = elim (Bool-cases (key.equal e.key q)) [
    | inl h ↦ rw (hash_of_equal e q shift p i h, ==_refl (hash_of q), h)
    | inr h ↦ rw h (elim (Bool-cases (e.hash == hash_of q)) [ inl c ↦ rw c | inr c ↦ rw c ])
  ]

  abbrev pub either : Entry K V → Entry K V → K → Option V
  either x e q =
      if key.equal e.key q then some e.value else if key.equal x.key q then some x.value else none

  module _ (x e : Entry K V) (q : K) (apart : key.equal x.key e.key ≡ false) where
    get-pair :
        (p : ℕ)
        → IsPlaced x 65 p
        → IsPlaced e 65 p
        → get (collision x.hash (x ∷ e ∷ [])) (hash_of q) q 65 ≡ either x e q
    unfolding get find
    get-pair p i j = ground (
      arith,
      hash_at_end x p i,
      hash_at_end e p j,
      hash_of_equal x q 65 p i,
      hash_of_equal e q 65 p j,
      only_one x.key e.key q apart,
    )

    module _ (shift p : ℕ) (i : IsPlaced x shift p) (j : IsPlaced e shift p) where
      abbrev f1 : ℕ
      f1 = fragment x.hash shift

      abbrev f2 : ℕ
      f2 = fragment e.hash shift

      get-shared :
          f1 ≡ f2
          → (t : Trie K V) → get t (hash_of q) q (shift + 5) ≡ either x e q
          → get (inner (put no_slots f1 (subtree t))) (hash_of q) q shift ≡ either x e q
      unfolding get
      get-shared d t deeper =
          rw (get-put no_slots f1 (subtree t) (hash_of q) q shift (fits K V x.hash shift))
            (elim (ℕ_discrete (fragment (hash_of q) shift) f1) [
              | yes g ↦ rw (g, ==_refl f1) deeper
              | no g ↦
                  rw (==_ne _ _ g, miss x q shift p i g, miss e q shift p j (λ c. g (c ∙ sym d)))
                    (get-no_slots (hash_of q) q shift)
            ])

      get-split :
          f1 ≢ f2
          → get (inner (put (put no_slots f1 (entry x)) f2 (entry e))) (hash_of q) q shift
            ≡ either x e q
      get-split d =
          rw
            (
              get-put (put no_slots f1 (entry x)) f2 (entry e) (hash_of q) q shift
                  (rw width-put (fits K V e.hash shift)),
              get-put no_slots f1 (entry x) (hash_of q) q shift (fits K V x.hash shift),
              get-no_slots (hash_of q) q shift,
            )
            (elim (ℕ_discrete (fragment (hash_of q) shift) f2) [
              | yes g ↦
                  rw (g, ==_refl f2, get_slot-entry e q (shift + 5) shift p j)
                    (rw (miss x q shift p i (λ c. d (sym c ∙ g))) refl)
              | no g ↦
                  rw (==_ne _ _ g, miss e q shift p j g, get_slot-entry x q (shift + 5) shift p i)
                    (elim (ℕ_discrete (fragment (hash_of q) shift) f1) [
                      | yes c ↦ rw (c, ==_refl f1)
                      | no c ↦ rw (==_ne _ _ c, miss x q shift p i c)
                    ])
            ])

    -- A lookup in the tree of two entries finds the one of its key.
    pub get-join :
        (n fuel shift p : ℕ)
        → shift + 5 * n ≡ 65
        → n < fuel
        → IsPlaced x shift p
        → IsPlaced e shift p
        → get (join fuel x e shift) (hash_of q) q shift ≡ either x e q
    get-join n zero shift p l b i j = absurd (omega arith)
    get-join zero (suc fuel) shift p l b i j =
        let s : shift ≡ 65 = omega arith in
        rw (join_deep fuel x e shift (omega arith), s) (get-pair p (rw s at i) (rw s at j))
    get-join (suc n) (suc fuel) shift p l b i j =
        let f1 = fragment x.hash shift in
        let f2 = fragment e.hash shift in
        elim (ℕ_discrete f1 f2) [
          | yes d ↦ rw (join_same fuel x e shift (omega arith) d) (
              get-shared shift p i j d (join fuel x e (shift + 5)) (
                get-join n fuel (shift + 5) (step_path shift p f1) (omega arith) (omega arith)
                  (IsPlaced-step x shift p i) (rw d (IsPlaced-step e shift p j))))
          | no d ↦ rw (join_apart fuel x e shift (omega arith) d) (get-split shift p i j d)
        ]
