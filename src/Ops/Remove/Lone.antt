-- ===== src/Ops/Remove/Lone.antt =====
-- `should_inline` and the entry it finds, on a node that represents a tree.
use native.Mathlib.Nat.{add-zero}
use champ_trie.Prelude.{
  ==_ne, Option-cases, ℕ, ◌≡◌, refl, sym, ◌∙◌, Bool, true, false, Option, none, some, List, [], ◌∷◌,
  length, count_true, get_elem?, arith, ◌==◌, ==_iff, Bool-cases, inl, inr,
}
use champ_trie.Bits.Flags.{of_bits, of_bits-eq-zero}
use champ_trie.Hashing.{Hash, Key}
use champ_trie.Node.{Entry, Node, Idx, fragment}
use champ_trie.Node.Bitmap.{is_power_of_two-of_bits}
use champ_trie.Store.{Arenas}
use champ_trie.Ops.Remove.{should_inline}
use champ_trie.Trie.{
  Trie, Slots, inner, collision, width, put, no_slots, items, data_flags, node_flags, entry,
}
use champ_trie.Trie.Positions.{length-items, length-data_flags, width-put, width-no_slots}
use champ_trie.Trie.Remove.{
  Removal, SlotRemoval, absent, removed, kept, changed, only, lone, is_blank, rebuild,
  bucket_removal, pick, drop_key, remove,
}
use champ_trie.Trie.Remove.Sums.{weigh-whole, weigh-lone, lone-items}
use champ_trie.Trie.Model.{entries}
use champ_trie.Trie.Preserve.{one, weigh-one}
use champ_trie.Trie.Shape.{IsTrie}
use champ_trie.Trie.Remove.Shape.{inner_two}
use champ_trie.Trie.Repr.{Repr, sum_of}

module _ {ℓ} {K V : Type ℓ} where
  abbrev pub is_some : Option (Entry K V) → Bool
  is_some none = false
  is_some (some x) = true

  only-is_some : (es : List (Entry K V)) → is_some (only es) ≡ (length es == 1)
  only-is_some [] = refl
  only-is_some (x ∷ []) = refl
  only-is_some (x ∷ y ∷ es) = elim (Bool-cases (length (x ∷ y ∷ es) == 1)) [
    | inl c ↦ absurd (omega (arith, (==_iff (length (x ∷ y ∷ es)) 1).0 c))
    | inr c ↦ sym c
  ]

  -- An inner node of 32 positions.
  abbrev pub IsWide : Trie K V → Type 0
  IsWide (inner sl) = width sl ≡ 32
  IsWide (collision h es) = Unit

  abbrev pub LeavesWide : Removal K V → Type 0
  LeavesWide absent = Unit
  LeavesWide (removed e none) = Unit
  LeavesWide (removed e (some t)) = IsWide t

  inline_test :
      (sl : Slots K V) (ds cs sum : ℕ)
      → width sl ≡ 32
      → should_inline (Node.inner (of_bits (data_flags sl)) (of_bits (node_flags sl)) ds cs sum)
        ≡ is_some (lone (inner sl))
  unfolding should_inline
  inline_test sl ds cs sum w =
      rw
        (
          is_power_of_two-of_bits (data_flags sl) (rw (length-data_flags sl, w) (omega arith)),
          of_bits-eq-zero (node_flags sl),
          ← length-items sl,
        )
        (elim (Bool-cases (count_true (node_flags sl) == 0)) [
          | inl c ↦
              rw (c, only-is_some (items sl))
                (elim (Bool-cases (length (items sl) == 1)) [
                  | inl d ↦ rw d refl
                  | inr d ↦ rw d refl
                ])
          | inr c ↦
              rw c (elim (Bool-cases (length (items sl) == 1)) [
                | inl d ↦ rw d refl
                | inr d ↦ rw d refl
              ])
        ])

module _ {ℓ} {K V : Type ℓ} ⦃h : Hash V⦄ (v : Arenas K V) (i : Idx) where
  -- A node that keeps its place.
  pub stays :
      (t : Trie K V)
      → IsWide t
      → Repr v i t
      → lone t ≡ none
      → (n : Node) × (get_elem? v.nodes i ≡ some n) × (should_inline n ≡ false)
  unfolding should_inline
  stays (inner sl) w (kids, at, below) l = (
    _,
    at.node_at,
    inline_test sl at.data_start at.children_start (sum_of (inner sl)) w ∙ rw l refl,
  )
  stays (collision hash es) w at l = (_, at.node_at, refl)

  -- A node whose entry moves up.
  pub record Inlined (x : Entry K V) : Type ℓ where
    pub data_map : ℕ
    pub node_map : ℕ
    pub data_start : Idx
    pub children_start : Idx
    pub sum : ℕ
    pub node_at :
        get_elem? v.nodes i ≡ some (Node.inner data_map node_map data_start children_start sum)
    pub test : should_inline (Node.inner data_map node_map data_start children_start sum) ≡ true
    pub held : get_elem? v.entries data_start ≡ some x

  pub moves_up :
      (t : Trie K V) (x : Entry K V) → IsWide t → Repr v i t → lone t ≡ some x → Inlined x
  moves_up (inner sl) x w (kids, at, below) l = record {
    data_map = _;
    node_map = _;
    data_start = at.data_start;
    children_start = at.children_start;
    sum = _;
    node_at = at.node_at;
    test = inline_test sl at.data_start at.children_start (sum_of (inner sl)) w ∙ rw l refl;
    held = rw add-zero at (at.items_at 0 x (rw ((lone-items sl x l).0) refl));
  }
  moves_up (collision hash es) x w at l = absurd (ground arith)

module _ {ℓ} {K V : Type ℓ} ⦃key : Key K⦄ where
  rebuild-wide :
      (sl : Slots K V) (f : ℕ) (r : SlotRemoval K V) → width sl ≡ 32 → LeavesWide (rebuild sl f r)
  rebuild-wide sl f kept w = tt
  rebuild-wide sl f (changed e x) w = elim (Bool-cases (is_blank (put sl f x))) [
    | inl b ↦ rw b tt
    | inr b ↦ rw b (width-put sl f x ∙ w)
  ]

  bucket-wide :
      (hash : ℕ) (es : List (Entry K V)) (o : Option (Entry K V))
      → LeavesWide (bucket_removal hash es o)
  bucket-wide hash es none = tt
  bucket-wide hash [] (some e) = tt
  bucket-wide hash (x ∷ []) (some e) =
      width-put no_slots (fragment x.hash 0) (entry x) ∙ width-no_slots K V
  bucket-wide hash (x ∷ y ∷ es) (some e) = tt

  pub remove-wide :
      (t : Trie K V) (hash : ℕ) (k : K) (shift : ℕ) → IsWide t → LeavesWide (remove t hash k shift)
  unfolding remove
  remove-wide (inner sl) hash k shift w = rebuild-wide sl (fragment hash shift) _ w
  remove-wide (collision h es) hash k shift w = elim (Bool-cases (hash == h)) [
    | inl c ↦ rw c (bucket-wide h (drop_key es k) (pick es k))
    | inr c ↦ rw c tt
  ]

module _ {ℓ} {K V : Type ℓ} ⦃key : Key K⦄ where
  -- A node with a lone entry holds one entry; any other node holds two, or none at all.
  lone-entries :
      (sl : Slots K V) (shift p : ℕ)
      → IsTrie (inner sl) shift p
      → is_some (lone (inner sl)) ≡ (length (entries (inner sl)) == 1)
  lone-entries sl shift p a = elim (Option-cases (lone (inner sl))) [
    | inl none_alone ↦ rw none_alone (elim (Bool-cases (is_blank sl)) [
      | inl b ↦
          let gone : length (entries (inner sl)) ≡ 0 =
            sym (weigh-one (inner sl)) ∙ sym (weigh-whole one sl) ∙ rw b refl in
          rw gone refl
      | inr b ↦
          let two = inner_two sl shift p a.2 b none_alone in
          sym (==_ne (length (entries (inner sl))) 1 (λ e. omega (arith, two, e)))
    ])
    | inr (x, c) ↦
        let single : length (entries (inner sl)) ≡ 1 =
          sym (weigh-one (inner sl)) ∙ weigh-lone one (inner sl) x c in
        rw (c, single) refl
  ]

  module _ ⦃h : Hash V⦄ (v : Arenas K V) (i : Idx) where
    -- At a node that represents a well-formed tree, a collision node included: `should_inline`
    -- says whether the tree holds one entry and no more.
    pub should_inline_lem :
        (t : Trie K V) (shift p : ℕ)
        → IsTrie t shift p
        → Repr v i t
        → (n : Node) × (get_elem? v.nodes i ≡ some n)
          × (should_inline n ≡ (length (entries t) == 1))
    unfolding should_inline
    should_inline_lem (inner sl) shift p a (kids, at, below) = (
      _,
      at.node_at,
      inline_test sl at.data_start at.children_start (sum_of (inner sl)) a.1
          ∙ lone-entries sl shift p a,
    )
    should_inline_lem (collision hash es) shift p a at =
        (_, at.node_at, unfold entries in sym (==_ne (length es) 1 (λ e. omega (arith, a.two, e))))
