-- ===== src/Trie/Search.antt =====
-- Lookup in a tree against a search through all its entries.
use native.Mathlib.Nat.{zero-add}
use champ_trie.Prelude.{
  some_ne_none, ℕ, zero, suc, ◌+◌, ◌<◌, ◌^◌, ◌≡◌, ◌≢◌, refl, ap, sym, ◌∙◌, true, false, Option,
  none, some, List, [], ◌∷◌, ◌++◌, ◌==◌, ==_iff, ◌≤◌, subst, Bool-cases, inl, inr, arith,
}
use champ_trie.Hashing.{Key}
use champ_trie.Node.{Entry, fragment}
use champ_trie.Node.Bitmap.{fragment-lt}
use champ_trie.Trie.{
  Trie, Slot, Slots, collision, vacant, entry, subtree, end, cons, width, slot_at, items,
}
use champ_trie.Trie.Induction.{trie_induction}
use champ_trie.Trie.Lookup.{hash_of, hash_of_equal, get-inner, get_slot-entry, get_slot-subtree}
use champ_trie.Trie.Model.{entries, below, find, get, get_slot}
use champ_trie.Trie.Paths.{step_path-lt, IsPlaced-fragment}
use champ_trie.Trie.Remove.Alone.{get_slot-vacant}
use champ_trie.Trie.Shape.{
  AllPlaced, IsBucket, IsTrie, IsSlot, AreSlots, step_path, slot_at-IsSlot, hash_at_end,
}
use champ_trie.Trie.Entries.{held, held-AllPlaced, entries-AllPlaced}

abbrev or_else {ℓ} : {A : Type ℓ} → Option A → Option A → Option A
or_else none o = o
or_else (some x) o = some x

or_else-between {ℓ} :
    {A : Type ℓ} (a b c : Option A) → or_else a c ≡ none → or_else a (or_else b c) ≡ b
or_else-between none none none h = refl
or_else-between none (some x) none h = refl
or_else-between none b (some y) h = absurd (ground arith)
or_else-between (some x) b c h = absurd (ground arith)

module _ {ℓ} {K V : Type ℓ} ⦃key : Key K⦄ where
  find-append_else :
      (es fs : List (Entry K V)) (k : K) → find (es ++ fs) k ≡ or_else (find es k) (find fs k)
  unfolding find
  find-append_else [] fs k = refl
  find-append_else (x ∷ es) fs k = elim (Bool-cases (key.equal x.key k)) [
    | inl c ↦ rw c refl
    | inr c ↦ rw c (find-append_else es fs k)
  ]

  module _ (k : K) (shift p : ℕ) (low : p < 2 ^ shift) where
    -- At another position than the one of its fragment no key is found.
    pub find-miss :
        (es : List (Entry K V)) (g : ℕ)
        → AllPlaced es (shift + 5) (step_path shift p g)
        → fragment (hash_of k) shift ≢ g
        → find es k ≡ none
    unfolding find
    find-miss [] g a n = refl
    find-miss (x ∷ es) g a n = elim (Bool-cases (key.equal x.key k)) [
      | inl c ↦
          let same = hash_of_equal x k (shift + 5) (step_path shift p g) a.0 c in
          absurd (n (ap (λ h. fragment h shift) (sym same) ∙ IsPlaced-fragment x shift p g low a.0))
      | inr c ↦ rw c (find-miss es g a.1 n)
    ]

    -- What the search finds below these positions.
    abbrev found : Slots K V → Option V
    found sl = or_else (find (items sl) k) (find (below sl) k)

    found-skip :
        (s : Slot K V) (sl : Slots K V) → find (held s) k ≡ none → found (cons s sl) ≡ found sl
    unfolding find entries
    found-skip vacant sl h = refl
    found-skip (entry x) sl h = elim (Bool-cases (key.equal x.key k)) [
      | inl c ↦ absurd (some_ne_none x.value (rw c at h))
      | inr c ↦ rw c refl
    ]
    found-skip (subtree t) sl h = rw (find-append_else (entries t) (below sl) k, h) refl

    found-here :
        (s : Slot K V) (sl : Slots K V) → found sl ≡ none → found (cons s sl) ≡ find (held s) k
    unfolding find entries
    found-here vacant sl h = h
    found-here (entry x) sl h = elim (Bool-cases (key.equal x.key k)) [
      | inl c ↦ rw c refl
      | inr c ↦ rw c h
    ]
    found-here (subtree t) sl h =
        rw (find-append_else (entries t) (below sl) k)
          (or_else-between (find (items sl) k) (find (entries t) k) (find (below sl) k) h)

    -- What a slot holds is placed at its position.
    pub slot_placed :
        (s : Slot K V) (g : ℕ)
        → IsSlot s (shift + 5) (step_path shift p g)
        → g < 32
        → AllPlaced (held s) (shift + 5) (step_path shift p g)
    slot_placed s g a b = held-AllPlaced s (shift + 5) (step_path shift p g) a (λ t e.
        entries-AllPlaced t (shift + 5) (step_path shift p g)
          (subst (λ x. IsSlot x (shift + 5) (step_path shift p g)) e a).0
          (step_path-lt shift p g low b))

    missed :
        (sl : Slots K V) (g : ℕ)
        → AreSlots sl shift p g
        → g + width sl ≤ 32
        → fragment (hash_of k) shift < g
        → found sl ≡ none
    unfolding find entries
    missed end g a b l = refl
    missed (cons s sl) g a b l =
        found-skip s sl
          (find-miss (held s) g (slot_placed s g a.0 (omega arith)) (λ e. omega (arith, e)))
        ∙ missed sl (suc g) a.1 (omega arith) (omega arith)

    searched :
        (sl : Slots K V) (g j : ℕ)
        → AreSlots sl shift p g
        → g + width sl ≤ 32
        → fragment (hash_of k) shift ≡ g + j
        → found sl ≡ find (held (slot_at sl j)) k
    unfolding find entries
    searched end g j a b e = refl
    searched (cons s sl) g zero a b e =
        found-here s sl (missed sl (suc g) a.1 (omega arith) (omega (arith, e)))
    searched (cons s sl) g (suc j) a b e =
        found-skip s sl
          (find-miss (held s) g (slot_placed s g a.0 (omega arith)) (λ d. omega (arith, d, e)))
        ∙ searched sl (suc g) j a.1 (omega arith) (omega (arith, e))

  pub get_held :
      (s : Slot K V) (k : K) (shift p : ℕ)
      → IsSlot s shift p
      → ((t : Trie K V) → s ≡ subtree t → get t (hash_of k) k shift ≡ find (entries t) k)
      → get_slot s (hash_of k) k shift ≡ find (held s) k
  unfolding find
  get_held vacant k shift p a deep = get_slot-vacant {V = V} (hash_of k) k shift
  get_held (entry x) k shift p a deep = get_slot-entry x k shift shift p a
  get_held (subtree t) k shift p a deep = get_slot-subtree t (hash_of k) k shift ∙ deep t refl

  find-other_hash :
      (es : List (Entry K V)) (k : K) (h shift : ℕ)
      → shift ≡ 65
      → AllPlaced es shift h
      → (hash_of k == h) ≡ false
      → find es k ≡ none
  unfolding find
  find-other_hash [] k h shift l a n = refl
  find-other_hash (x ∷ es) k h shift l a n = elim (Bool-cases (key.equal x.key k)) [
    | inl c ↦
        let same : hash_of k ≡ h =
          sym (hash_of_equal x k shift h a.0 c) ∙ hash_at_end x h (rw l at a.0) in
        absurd (wrong (sym ((==_iff (hash_of k) h).1 same) ∙ n))
    | inr c ↦ rw c (find-other_hash es k h shift l a.1 n)
  ]
    where
      wrong : true ≡ false → ⊥
      wrong w = ground arith

  search_collision :
      (h : ℕ) (es : List (Entry K V)) (k : K) (shift p : ℕ)
      → IsBucket h es shift p
      → get (collision h es) (hash_of k) k shift ≡ find (entries (collision h es)) k
  unfolding get entries
  search_collision h es k shift p a = elim (Bool-cases (hash_of k == h)) [
    | inl c ↦ rw c refl
    | inr c ↦ rw (c, find-other_hash es k h shift a.deepest (rw a.hash_on_path a.placed) c) refl
  ]

  -- In a well-formed tree whose path is below its bound, a lookup finds what a search through all
  -- entries finds.
  pub get-find :
      (k : K) (t : Trie K V) (shift p : ℕ)
      → IsTrie t shift p
      → p < 2 ^ shift
      → get t (hash_of k) k shift ≡ find (entries t) k
  get-find k =
      trie_induction (λ t shift p. (p < 2 ^ shift) → get t (hash_of k) k shift ≡ find (entries t) k)
        (λ h es shift p a low. search_collision h es k shift p a)
        (λ sl shift p a deep low.
          let f = fragment (hash_of k) shift in
          get-inner sl (hash_of k) k shift
          ∙ get_held (slot_at sl f) k (shift + 5) (step_path shift p f)
              (slot_at-IsSlot sl shift p f a.2)
              (λ t e. deep f t e (step_path-lt shift p f low (fragment-lt (hash_of k) shift)))
          ∙ sym (searched k shift p low sl 0 f a.2 (rw a.1 (omega arith)) (sym (zero-add f)))
          ∙ (unfold entries in sym (find-append_else (items sl) (below sl) k)))
