-- ===== src/Trie/Split.antt =====
-- Trees without collision nodes: what their positions answer, and that one hash has one entry.
use native.Mathlib.Decide.{ℕ_discrete}
use champ_trie.Prelude.{
  some_ne_none, ℕ, zero, suc, ◌+◌, ◌<◌, ◌≤◌, ◌^◌, ◌≡◌, ◌≢◌, refl, ap, sym, subst, ◌∙◌, true, some,
  List, [], ◌∷◌, length, Bool-cases, inl, inr, arith,
}
use champ_trie.Hashing.{Key}
use champ_trie.Node.{Entry, fragment}
use champ_trie.Node.Bitmap.{fragment-lt}
use champ_trie.Trie.{
  Trie, Slot, Slots, inner, collision, vacant, entry, subtree, end, cons, width, slot_at,
}
use champ_trie.Trie.Bitmaps.{Slot-cases}
use champ_trie.Trie.Induction.{trie_induction}
use champ_trie.Trie.Lookup.{hash_of, get-inner, get_slot-subtree}
use champ_trie.Trie.Model.{find, get, get_slot}
use champ_trie.Trie.Paths.{step_path-lt, IsPlaced-fragment}
use champ_trie.Trie.Preserve.{one, weigh-one}
use champ_trie.Trie.Entries.{held}
use champ_trie.Trie.Search.{find-miss, slot_placed, get_held, get-find}
use champ_trie.Trie.Shape.{IsPlaced, IsTrie, IsSlot, step_path, slot_at-IsSlot}
use champ_trie.Trie.Weight.{weigh, weigh_slot, weigh_slots}

module _ {ℓ} {K V : Type ℓ} where
  -- A tree without collision nodes.
  abbrev mutual
    pub IsSplit : Trie K V → Type 0
    IsSplit (inner sl) = AreSplit sl
    IsSplit (collision h es) = ⊥

    pub IsSplitSlot : Slot K V → Type 0
    IsSplitSlot vacant = Unit
    IsSplitSlot (entry x) = Unit
    IsSplitSlot (subtree t) = IsSplit t

    pub AreSplit : Slots K V → Type 0
    AreSplit end = Unit
    AreSplit (cons s sl) = IsSplitSlot s × AreSplit sl

  pub slot_at-IsSplit : (sl : Slots K V) (f : ℕ) → AreSplit sl → IsSplitSlot (slot_at sl f)
  slot_at-IsSplit end f a = tt
  slot_at-IsSplit (cons s sl) zero a = a.0
  slot_at-IsSplit (cons s sl) (suc f) a = slot_at-IsSplit sl f a.1

  pub slots_same :
      (sl sl' : Slots K V)
      → width sl ≡ width sl'
      → ((f : ℕ) → f < width sl → slot_at sl f ≡ slot_at sl' f)
      → sl ≡ sl'
  slots_same end end w h = refl
  slots_same end (cons s sl') w h = absurd (omega arith)
  slots_same (cons s sl) end w h = absurd (omega arith)
  slots_same (cons s sl) (cons s' sl') w h =
      let heads : s ≡ s' = h 0 (omega arith) in
      let tails : sl ≡ sl' = slots_same sl sl' (omega arith) (λ f b. h (suc f) (omega arith)) in
      rw (heads, tails) refl

  weigh_slot-held : (s : Slot K V) → weigh_slot one s ≡ length (held s)
  weigh_slot-held vacant = refl
  weigh_slot-held (entry x) = refl
  weigh_slot-held (subtree t) = weigh-one t

  no_weight :
      (sl : Slots K V)
      → ((j : ℕ) → j < width sl → weigh_slot one (slot_at sl j) ≡ 0)
      → weigh_slots one sl ≡ 0
  no_weight end h = refl
  no_weight (cons s sl) h =
      omega (arith, h 0 (omega arith), no_weight sl (λ j b. h (suc j) (omega arith)))

  -- The weight of the one position that holds something.
  weigh-only :
      (sl : Slots K V) (f : ℕ)
      → ((j : ℕ) → j < width sl → j ≢ f → weigh_slot one (slot_at sl j) ≡ 0)
      → weigh_slots one sl ≡ weigh_slot one (slot_at sl f)
  weigh-only end f h = refl
  weigh-only (cons s sl) zero h =
      omega (arith, no_weight sl (λ j b. h (suc j) (omega arith) (λ e. omega (arith, e))))
  weigh-only (cons s sl) (suc f) h = omega (
    arith,
    h 0 (omega arith) (λ e. omega (arith, e)),
    weigh-only sl f (λ j b n. h (suc j) (omega arith) (λ e. n (omega (arith, e)))),
  )

module _ {ℓ} {K V : Type ℓ} ⦃key : Key K⦄ where
  pub find-head : (x : Entry K V) (es : List (Entry K V)) → find (x ∷ es) x.key ≡ some x.value
  unfolding find
  find-head x es = rw (key.equal_self x.key) refl

  pub find-one :
      (x : Entry K V) (q : K) (v : V) → find (x ∷ []) q ≡ some v → key.equal x.key q ≡ true
  unfolding find
  find-one x q v h = elim (Bool-cases (key.equal x.key q)) [
    | inl c ↦ c
    | inr c ↦ absurd (some_ne_none v (sym (rw c at h)))
  ]

  -- All keys with an answer have one hash.
  abbrev OneHash : Trie K V → ℕ → ℕ → Type ℓ
  OneHash t shift h = (q : K) (v : V) → get t (hash_of q) q shift ≡ some v → hash_of q ≡ h

  module _ (sl : Slots K V) (shift p : ℕ) (low : p < 2 ^ shift)
      (a : IsTrie (inner sl) shift p) where
    -- What a position answers is what the search through its entries finds.
    pub at_slot :
        (f : ℕ) (q : K)
        → f < 32
        → get_slot (slot_at sl f) (hash_of q) q (shift + 5) ≡ find (held (slot_at sl f)) q
    at_slot f q b =
        get_held (slot_at sl f) q (shift + 5) (step_path shift p f)
          (slot_at-IsSlot sl shift p f a.2)
          (λ t e.
            get-find q t (shift + 5) (step_path shift p f)
              (subst (λ x. IsSlot x (shift + 5) (step_path shift p f)) e
                (slot_at-IsSlot sl shift p f a.2)).0
              (step_path-lt shift p f low b))

    -- The key of the first entry at a position leads there.
    head_there :
        (f : ℕ) (x : Entry K V) (es : List (Entry K V))
        → f < 32
        → held (slot_at sl f) ≡ x ∷ es
        → (fragment (hash_of x.key) shift ≡ f)
          × (get (inner sl) (hash_of x.key) x.key shift ≡ some x.value)
    head_there f x es b e =
        let all =
          slot_placed x.key shift p low (slot_at sl f) f (slot_at-IsSlot sl shift p f a.2) b in
        let placed : IsPlaced x (shift + 5) (step_path shift p f) = (rw e at all).0 in
        let there : fragment (hash_of x.key) shift ≡ f =
          rw (← placed.hash_lem) (IsPlaced-fragment x shift p f low placed) in
        (
          there,
          rw (get-inner sl (hash_of x.key) x.key shift, there, at_slot f x.key b, e)
              (find-head x es),
        )

    -- When all answers are under one hash, the other positions hold nothing.
    elsewhere :
        (h j : ℕ)
        → OneHash (inner sl) shift h
        → j < 32
        → j ≢ fragment h shift
        → weigh_slot one (slot_at sl j) ≡ 0
    elsewhere h j o b n = weigh_slot-held (slot_at sl j) ∙ nothing (held (slot_at sl j)) refl
      where
        nothing : (es : List (Entry K V)) → held (slot_at sl j) ≡ es → length es ≡ 0
        nothing [] e = refl
        nothing (x ∷ es) e =
            let (there, found) = head_there j x es b e in
            absurd (n (sym there ∙ ap (λ z. fragment z shift) (o x.key x.value found)))

    -- What a subtree answers the node answers.
    child_answers :
        (f : ℕ) (t : Trie K V) (q : K) (v : V)
        → f < 32
        → slot_at sl f ≡ subtree t
        → get t (hash_of q) q (shift + 5) ≡ some v
        → get (inner sl) (hash_of q) q shift ≡ some v
    child_answers f t q v b c e =
        let at : get_slot (slot_at sl f) (hash_of q) q (shift + 5) ≡ some v =
          rw c (get_slot-subtree t (hash_of q) q (shift + 5) ∙ e) in
        elim (ℕ_discrete (fragment (hash_of q) shift) f) [
          | yes d ↦ rw (get-inner sl (hash_of q) q shift, d) at
          | no n ↦
              let all =
                slot_placed q shift p low (slot_at sl f) f (slot_at-IsSlot sl shift p f a.2) b in
              absurd (
                some_ne_none v
                  (sym at ∙ at_slot f q b ∙ find-miss q shift p low (held (slot_at sl f)) f all n))
        ]

  -- A tree that answers under one hash alone has one entry at most.
  pub OneHash-weight :
      (h : ℕ) (t : Trie K V) (shift p : ℕ)
      → IsTrie t shift p
      → p < 2 ^ shift
      → IsSplit t
      → OneHash t shift h
      → weigh one t ≤ 1
  OneHash-weight h =
      trie_induction
        (λ t shift p. (p < 2 ^ shift) → IsSplit t → OneHash t shift h → weigh one t ≤ 1)
        (λ hash es shift p a low split o. absurd split)
        (λ sl shift p a deep low split o.
          let f = fragment h shift in
          let b = fragment-lt h shift in
          rw (weigh-only sl f (λ j i n. elsewhere sl shift p low a h j o (rw a.1 at i) n))
            (elim (Slot-cases (slot_at sl f)) [
              | inl c ↦ rw c (omega arith)
              | inr (inl (x, c)) ↦ rw c (omega arith)
              | inr (inr (t, c)) ↦ rw c (
                  deep f t c (step_path-lt shift p f low b)
                    (subst (λ s. IsSplitSlot s) c (slot_at-IsSplit sl f split))
                    (λ q v e. o q v (child_answers sl shift p low a f t q v b c e)))
            ]))
