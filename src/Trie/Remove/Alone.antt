-- ===== src/Trie/Remove/Alone.antt =====
-- Lookup beside a removal: equal keys, and a node that is left with one entry or with nothing.
use native.Mathlib.Decide.{ℕ_discrete}
use native.Mathlib.Nat.{zero-add}
use champ_trie.Prelude.{
  ℕ, zero, suc, ◌+◌, ◌^◌, ◌<◌, ◌≡◌, ◌≢◌, refl, ap, sym, ◌∙◌, true, Option, none, some, List, [],
  ◌∷◌, length, count_true, arith, Bool-cases, Option-cases, inl, inr, if◌then◌else◌,
}
use champ_trie.Hashing.{Key}
use champ_trie.Node.{Entry, fragment}
use champ_trie.Trie.{
  Trie, Slot, Slots, inner, collision, vacant, entry, subtree, end, cons, slot_at, items,
  node_flags,
}
use champ_trie.Trie.Induction.{trie_induction}
use champ_trie.Trie.Insertion.{equal_congr}
use champ_trie.Trie.Lookup.{hash_of, get-inner, get_slot-entry, get_slot-subtree, miss}
use champ_trie.Trie.Model.{get, get_slot}
use champ_trie.Trie.Paths.{IsPlaced-above, IsPlaced-fragment}
use champ_trie.Trie.Shape.{IsTrie}
use champ_trie.Trie.Remove.{lone, is_blank, whole, slot_after}
use champ_trie.Trie.Remove.Sums.{lone-items, blank_counts}
use champ_trie.Trie.Remove.Shape.{lone_place}
use champ_trie.Trie.Remove.Lookup.{find-congr}

module _ {ℓ} {K V : Type ℓ} ⦃key : Key K⦄ where
  -- The answer for `q` when `k` is gone.
  abbrev pub unless : K → K → Option V → Option V
  unless k q o = if key.equal k q then none else o

  module _ (hash : ℕ) (k q : K) (e : key.equal k q ≡ true) where
    pub equal_alike : (x : Entry K V) → key.equal x.key k ≡ key.equal x.key q
    equal_alike x = key.equal_flip x.key k ∙ equal_congr k q x.key e ∙ key.equal_flip q x.key

    get-congr_collision :
        (h : ℕ) (es : List (Entry K V)) (shift : ℕ)
        → get (collision h es) hash k shift ≡ get (collision h es) hash q shift
    unfolding get
    get-congr_collision h es shift = rw (find-congr es k q e) refl

    get-congr_slot :
        (s : Slot K V) (shift : ℕ)
        → ((t : Trie K V) → s ≡ subtree t → get t hash k shift ≡ get t hash q shift)
        → get_slot s hash k shift ≡ get_slot s hash q shift
    unfolding get
    get-congr_slot vacant shift deep = refl
    get-congr_slot (entry x) shift deep = rw (equal_alike x) refl
    get-congr_slot (subtree t) shift deep = deep t refl

    -- Equal keys are looked up alike.
    pub get-congr :
        (t : Trie K V) (shift p : ℕ) → IsTrie t shift p → get t hash k shift ≡ get t hash q shift
    get-congr =
        trie_induction (λ t shift p. get t hash k shift ≡ get t hash q shift)
          (λ h es shift p a. get-congr_collision h es shift)
          (λ sl shift p a deep.
            rw (get-inner sl hash k shift, get-inner sl hash q shift)
              (get-congr_slot (slot_at sl (fragment hash shift)) (shift + 5)
                (deep (fragment hash shift))))

  -- Nothing was there to remove.
  pub get-absent :
      (k q : K) (t : Trie K V) (shift p : ℕ)
      → IsTrie t shift p
      → get t (hash_of k) k shift ≡ none
      → get t (hash_of q) q shift ≡ unless k q (get t (hash_of q) q shift)
  get-absent k q t shift p a h = elim (Bool-cases (key.equal k q)) [
    | inl e ↦
        let hashes : hash_of q ≡ hash_of k = sym (key.digest-equal k q e) in
        rw (e, hashes) (sym (get-congr (hash_of k) k q e t shift p a) ∙ h)
    | inr e ↦ rw e refl
  ]

  slot_at-blank_rest :
      (sl : Slots K V) (g : ℕ)
      → length (items sl) ≡ 0
      → count_true (node_flags sl) ≡ 0
      → slot_at sl g ≡ vacant
  slot_at-blank_rest end g i n = refl
  slot_at-blank_rest (cons vacant sl) zero i n = refl
  slot_at-blank_rest (cons vacant sl) (suc g) i n = slot_at-blank_rest sl g i n
  slot_at-blank_rest (cons (entry x) sl) g i n = absurd (omega arith)
  slot_at-blank_rest (cons (subtree t) sl) g i n = absurd (omega arith)

  not_among :
      (sl : Slots K V) (x : Entry K V) (f : ℕ)
      → suc (length (items sl)) ≡ 1
      → slot_at sl f ≡ entry x
      → ⊥
  not_among end x f i e = ground arith
  not_among (cons vacant sl) x zero i e = ground arith
  not_among (cons vacant sl) x (suc f) i e = not_among sl x f i e
  not_among (cons (entry y) sl) x f i e = omega arith
  not_among (cons (subtree t) sl) x zero i e = ground arith
  not_among (cons (subtree t) sl) x (suc f) i e = not_among sl x f i e

  -- Other positions than that of a lone entry hold nothing.
  slot_at-alone :
      (sl : Slots K V) (x : Entry K V) (f g : ℕ)
      → items sl ≡ x ∷ []
      → count_true (node_flags sl) ≡ 0
      → slot_at sl f ≡ entry x
      → f ≢ g
      → slot_at sl g ≡ vacant
  slot_at-alone end x f g i n e d = refl
  slot_at-alone (cons vacant sl) x f zero i n e d = refl
  slot_at-alone (cons vacant sl) x zero (suc g) i n e d = absurd (ground arith)
  slot_at-alone (cons vacant sl) x (suc f) (suc g) i n e d =
      slot_at-alone sl x f g i n e (λ h. d (ap suc h))
  slot_at-alone (cons (entry y) sl) x zero zero i n e d = absurd (d refl)
  slot_at-alone (cons (entry y) sl) x (suc f) zero i n e d =
      absurd (not_among sl x f (ap length i) e)
  slot_at-alone (cons (entry y) sl) x f (suc g) i n e d =
      slot_at-blank_rest sl g (omega (arith, ap length i)) n
  slot_at-alone (cons (subtree t) sl) x f g i n e d = absurd (omega arith)

  pub get_slot-vacant : (hash : ℕ) (k : K) (shift : ℕ) → get_slot {V = V} vacant hash k shift ≡ none
  unfolding get
  get_slot-vacant hash k shift = refl

  module _ (sl : Slots K V) (shift p : ℕ) (low : p < 2 ^ shift) (a : IsTrie (inner sl) shift p)
      (q : K) where
    abbrev way : ℕ
    way = fragment (hash_of q) shift

    -- A lone entry answers as its node does.
    pub get-lone :
        (x : Entry K V)
        → lone (inner sl) ≡ some x
        → get_slot (entry x) (hash_of q) q shift ≡ get (inner sl) (hash_of q) q shift
    get-lone x l =
        let (one, no_nodes) = lone-items sl x l in
        let (f, at, i) = lone_place sl shift p 0 x a.2 one in
        let placed = IsPlaced-above x shift p (0 + f) low i in
        let there : fragment x.hash shift ≡ f =
          IsPlaced-fragment x shift p (0 + f) low i ∙ zero-add f in
        get_slot-entry x q shift shift p placed
        ∙ sym (
            get-inner sl (hash_of q) q shift ∙ elim (ℕ_discrete f way) [
              | yes e ↦ rw (← e, at) (get_slot-entry x q (shift + 5) shift p placed)
              | no n ↦
                  rw
                    (
                      slot_at-alone sl x f way one no_nodes at n,
                      get_slot-vacant (hash_of q) q (shift + 5),
                      miss x q shift p placed (λ e. n (sym (e ∙ there))),
                    )
                    refl
            ])

    -- What stands for a node answers as the node does.
    pub get-whole :
        get_slot (slot_after (whole sl)) (hash_of q) q shift ≡ get (inner sl) (hash_of q) q shift
    get-whole = elim (Bool-cases (is_blank sl)) [
      | inl b ↦
          let (no_items, no_nodes) = blank_counts sl b in
          rw
            (
              b,
              get-inner sl (hash_of q) q shift,
              slot_at-blank_rest sl way no_items no_nodes,
              get_slot-vacant (hash_of q) q shift,
              get_slot-vacant (hash_of q) q (shift + 5),
            )
            refl
      | inr b ↦ rw b (elim (Option-cases (lone (inner sl))) [
        | inl l ↦ rw l (get_slot-subtree (inner sl) (hash_of q) q shift)
        | inr (x, l) ↦ rw l (get-lone x l)
      ])
    ]
