-- ===== src/Trie/Positions.antt =====
-- The positions of a node: reads and writes, and what a write does to flags and entries.
use champ_trie.Prelude.{
  ℕ, zero, suc, ◌≤◌, ◌<◌, ◌≡◌, ◌≢◌, refl, ap, true, false, [], ◌∷◌, some, arith, length, get_elem?,
  set, insert_at, erase_at, count_true, nth, replicate, ltb, if◌then◌else◌,
}
use champ_trie.Node.{Entry}
use champ_trie.Trie.{
  Slot, Slots, vacant, entry, subtree, end, cons, is_entry, is_subtree, width, slot_at, put, blank,
  no_slots, data_flags, node_flags, items, data_rank, node_rank,
}

width-blank {ℓ} : (K V : Type ℓ) (n : ℕ) → width (blank {K = K} {V = V} n) ≡ n
width-blank K V zero = refl
width-blank K V (suc n) = ap suc (width-blank K V n)

pub width-no_slots {ℓ} : (K V : Type ℓ) → width (no_slots {K = K} {V = V}) ≡ 32
unfolding no_slots
width-no_slots K V = width-blank K V 32

module _ {ℓ} {K V : Type ℓ} where
  slot_at-blank : (n f : ℕ) → slot_at (blank {K = K} {V = V} n) f ≡ vacant
  slot_at-blank zero f = refl
  slot_at-blank (suc n) zero = refl
  slot_at-blank (suc n) (suc f) = slot_at-blank n f

  pub slot_at-no_slots : (f : ℕ) → slot_at (no_slots {K = K} {V = V}) f ≡ vacant
  unfolding no_slots
  slot_at-no_slots f = slot_at-blank 32 f

  pub slot_at-put_self :
      (sl : Slots K V) (f : ℕ) (x : Slot K V) → f < width sl → slot_at (put sl f x) f ≡ x
  slot_at-put_self end f x h = absurd (omega arith)
  slot_at-put_self (cons s sl) zero x h = refl
  slot_at-put_self (cons s sl) (suc f) x h = slot_at-put_self sl f x (omega arith)

  pub slot_at-put_ne :
      (sl : Slots K V) (f g : ℕ) (x : Slot K V) → f ≢ g → slot_at (put sl f x) g ≡ slot_at sl g
  slot_at-put_ne end f g x h = refl
  slot_at-put_ne (cons s sl) zero zero x h = absurd (h refl)
  slot_at-put_ne (cons s sl) zero (suc g) x h = refl
  slot_at-put_ne (cons s sl) (suc f) zero x h = refl
  slot_at-put_ne (cons s sl) (suc f) (suc g) x h = slot_at-put_ne sl f g x (λ e. h (ap suc e))

  pub width-put : (sl : Slots K V) (f : ℕ) (x : Slot K V) → width (put sl f x) ≡ width sl
  width-put end f x = refl
  width-put (cons s sl) zero x = refl
  width-put (cons s sl) (suc f) x = ap suc (width-put sl f x)

  pub length-data_flags : (sl : Slots K V) → length (data_flags sl) ≡ width sl
  length-data_flags end = refl
  length-data_flags (cons s sl) = ap suc (length-data_flags sl)

  pub length-node_flags : (sl : Slots K V) → length (node_flags sl) ≡ width sl
  length-node_flags end = refl
  length-node_flags (cons s sl) = ap suc (length-node_flags sl)

  pub nth-data_flags : (sl : Slots K V) (f : ℕ) → nth (data_flags sl) f ≡ is_entry (slot_at sl f)
  nth-data_flags end f = refl
  nth-data_flags (cons s sl) zero = refl
  nth-data_flags (cons s sl) (suc f) = nth-data_flags sl f

  pub nth-node_flags : (sl : Slots K V) (f : ℕ) → nth (node_flags sl) f ≡ is_subtree (slot_at sl f)
  nth-node_flags end f = refl
  nth-node_flags (cons s sl) zero = refl
  nth-node_flags (cons s sl) (suc f) = nth-node_flags sl f

  pub data_flags-put :
      (sl : Slots K V) (f : ℕ) (x : Slot K V)
      → data_flags (put sl f x) ≡ set (data_flags sl) f (is_entry x)
  data_flags-put end f x = refl
  data_flags-put (cons s sl) zero x = refl
  data_flags-put (cons s sl) (suc f) x = ap (◌∷◌ (is_entry s)) (data_flags-put sl f x)

  pub node_flags-put :
      (sl : Slots K V) (f : ℕ) (x : Slot K V)
      → node_flags (put sl f x) ≡ set (node_flags sl) f (is_subtree x)
  node_flags-put end f x = refl
  node_flags-put (cons s sl) zero x = refl
  node_flags-put (cons s sl) (suc f) x = ap (◌∷◌ (is_subtree s)) (node_flags-put sl f x)

  pub length-items : (sl : Slots K V) → length (items sl) ≡ count_true (data_flags sl)
  length-items end = refl
  length-items (cons vacant sl) = length-items sl
  length-items (cons (entry e) sl) = ap suc (length-items sl)
  length-items (cons (subtree t) sl) = length-items sl

  -- An inline entry stands at its rank.
  pub get_elem?-items :
      (sl : Slots K V) (f : ℕ) {e : Entry K V}
      → slot_at sl f ≡ entry e
      → get_elem? (items sl) (data_rank sl f) ≡ some e
  get_elem?-items end f h = absurd (ground arith)
  get_elem?-items (cons vacant sl) zero h = absurd (ground arith)
  get_elem?-items (cons (entry e) sl) zero h = ground arith
  get_elem?-items (cons (subtree t) sl) zero h = absurd (ground arith)
  get_elem?-items (cons vacant sl) (suc f) h = get_elem?-items sl f h
  get_elem?-items (cons (entry e) sl) (suc f) h = get_elem?-items sl f h
  get_elem?-items (cons (subtree t) sl) (suc f) h = get_elem?-items sl f h

  pub items-put_replace :
      (sl : Slots K V) (f : ℕ) (e : Entry K V)
      → is_entry (slot_at sl f) ≡ true
      → items (put sl f (entry e)) ≡ set (items sl) (data_rank sl f) e
  items-put_replace end f e h = absurd (ground arith)
  items-put_replace (cons vacant sl) zero e h = absurd (ground arith)
  items-put_replace (cons (entry x) sl) zero e h = refl
  items-put_replace (cons (subtree t) sl) zero e h = absurd (ground arith)
  items-put_replace (cons vacant sl) (suc f) e h = items-put_replace sl f e h
  items-put_replace (cons (entry x) sl) (suc f) e h = ap (◌∷◌ x) (items-put_replace sl f e h)
  items-put_replace (cons (subtree t) sl) (suc f) e h = items-put_replace sl f e h

  pub items-put_insert :
      (sl : Slots K V) (f : ℕ) (e : Entry K V)
      → f < width sl
      → is_entry (slot_at sl f) ≡ false
      → items (put sl f (entry e)) ≡ insert_at (items sl) (data_rank sl f) e
  items-put_insert end f e b h = absurd (omega arith)
  items-put_insert (cons vacant sl) zero e b h = refl
  items-put_insert (cons (entry x) sl) zero e b h = absurd (ground arith)
  items-put_insert (cons (subtree t) sl) zero e b h = refl
  items-put_insert (cons vacant sl) (suc f) e b h = items-put_insert sl f e (omega arith) h
  items-put_insert (cons (entry x) sl) (suc f) e b h =
      ap (◌∷◌ x) (items-put_insert sl f e (omega arith) h)
  items-put_insert (cons (subtree t) sl) (suc f) e b h = items-put_insert sl f e (omega arith) h

  pub items-put_erase :
      (sl : Slots K V) (f : ℕ) (y : Slot K V)
      → is_entry y ≡ false
      → is_entry (slot_at sl f) ≡ true
      → items (put sl f y) ≡ erase_at (items sl) (data_rank sl f)
  items-put_erase end f y n h = absurd (ground arith)
  items-put_erase (cons vacant sl) zero y n h = absurd (ground arith)
  items-put_erase (cons (entry x) sl) zero y n h = ground arith
  items-put_erase (cons (subtree t) sl) zero y n h = absurd (ground arith)
  items-put_erase (cons vacant sl) (suc f) y n h = items-put_erase sl f y n h
  items-put_erase (cons (entry x) sl) (suc f) y n h = ap (◌∷◌ x) (items-put_erase sl f y n h)
  items-put_erase (cons (subtree t) sl) (suc f) y n h = items-put_erase sl f y n h

  pub items-put_keep :
      (sl : Slots K V) (f : ℕ) (y : Slot K V)
      → is_entry y ≡ false
      → is_entry (slot_at sl f) ≡ false
      → items (put sl f y) ≡ items sl
  items-put_keep end f y n h = refl
  items-put_keep (cons vacant sl) zero y n h = ground arith
  items-put_keep (cons (entry x) sl) zero y n h = absurd (ground arith)
  items-put_keep (cons (subtree t) sl) zero y n h = ground arith
  items-put_keep (cons vacant sl) (suc f) y n h = items-put_keep sl f y n h
  items-put_keep (cons (entry x) sl) (suc f) y n h = ap (◌∷◌ x) (items-put_keep sl f y n h)
  items-put_keep (cons (subtree t) sl) (suc f) y n h = items-put_keep sl f y n h

  -- A write of the same kind keeps the flags.
  pub data_flags-keep :
      (sl : Slots K V) (f : ℕ) (x : Slot K V)
      → is_entry x ≡ is_entry (slot_at sl f)
      → data_flags (put sl f x) ≡ data_flags sl
  data_flags-keep end f x h = refl
  data_flags-keep (cons s sl) zero x h = ap (λ b. b ∷ data_flags sl) h
  data_flags-keep (cons s sl) (suc f) x h = ap (◌∷◌ (is_entry s)) (data_flags-keep sl f x h)

  pub node_flags-keep :
      (sl : Slots K V) (f : ℕ) (x : Slot K V)
      → is_subtree x ≡ is_subtree (slot_at sl f)
      → node_flags (put sl f x) ≡ node_flags sl
  node_flags-keep end f x h = refl
  node_flags-keep (cons s sl) zero x h = ap (λ b. b ∷ node_flags sl) h
  node_flags-keep (cons s sl) (suc f) x h = ap (◌∷◌ (is_subtree s)) (node_flags-keep sl f x h)

  -- The rank of a position does not depend on what it holds.
  pub data_rank-put :
      (sl : Slots K V) (f : ℕ) (x : Slot K V) → data_rank (put sl f x) f ≡ data_rank sl f
  data_rank-put end zero x = refl
  data_rank-put end (suc f) x = refl
  data_rank-put (cons s sl) zero x = refl
  data_rank-put (cons vacant sl) (suc f) x = data_rank-put sl f x
  data_rank-put (cons (entry e) sl) (suc f) x = ap suc (data_rank-put sl f x)
  data_rank-put (cons (subtree t) sl) (suc f) x = data_rank-put sl f x

  pub node_rank-put :
      (sl : Slots K V) (f : ℕ) (x : Slot K V) → node_rank (put sl f x) f ≡ node_rank sl f
  node_rank-put end zero x = refl
  node_rank-put end (suc f) x = refl
  node_rank-put (cons s sl) zero x = refl
  node_rank-put (cons vacant sl) (suc f) x = node_rank-put sl f x
  node_rank-put (cons (entry e) sl) (suc f) x = node_rank-put sl f x
  node_rank-put (cons (subtree t) sl) (suc f) x = ap suc (node_rank-put sl f x)

  pub data_rank-le : (sl : Slots K V) (f : ℕ) → data_rank sl f ≤ length (items sl)
  data_rank-le end zero = omega arith
  data_rank-le end (suc f) = omega arith
  data_rank-le (cons s sl) zero = omega arith
  data_rank-le (cons vacant sl) (suc f) = data_rank-le sl f
  data_rank-le (cons (entry e) sl) (suc f) = omega (arith, data_rank-le sl f)
  data_rank-le (cons (subtree t) sl) (suc f) = data_rank-le sl f

  pub node_rank-le : (sl : Slots K V) (f : ℕ) → node_rank sl f ≤ count_true (node_flags sl)
  node_rank-le end zero = omega arith
  node_rank-le end (suc f) = omega arith
  node_rank-le (cons s sl) zero = omega arith
  node_rank-le (cons vacant sl) (suc f) = node_rank-le sl f
  node_rank-le (cons (entry e) sl) (suc f) = node_rank-le sl f
  node_rank-le (cons (subtree t) sl) (suc f) = omega (arith, node_rank-le sl f)

  pub data_rank-lt :
      (sl : Slots K V) (f : ℕ) → is_entry (slot_at sl f) ≡ true → data_rank sl f < length (items sl)
  data_rank-lt end f h = absurd (ground arith)
  data_rank-lt (cons vacant sl) zero h = absurd (ground arith)
  data_rank-lt (cons (entry e) sl) zero h = omega arith
  data_rank-lt (cons (subtree t) sl) zero h = absurd (ground arith)
  data_rank-lt (cons vacant sl) (suc f) h = data_rank-lt sl f h
  data_rank-lt (cons (entry e) sl) (suc f) h = omega (arith, data_rank-lt sl f h)
  data_rank-lt (cons (subtree t) sl) (suc f) h = data_rank-lt sl f h

  pub node_rank-lt :
      (sl : Slots K V) (f : ℕ)
      → is_subtree (slot_at sl f) ≡ true
      → node_rank sl f < count_true (node_flags sl)
  node_rank-lt end f h = absurd (ground arith)
  node_rank-lt (cons vacant sl) zero h = absurd (ground arith)
  node_rank-lt (cons (entry e) sl) zero h = absurd (ground arith)
  node_rank-lt (cons (subtree t) sl) zero h = omega arith
  node_rank-lt (cons vacant sl) (suc f) h = node_rank-lt sl f h
  node_rank-lt (cons (entry e) sl) (suc f) h = node_rank-lt sl f h
  node_rank-lt (cons (subtree t) sl) (suc f) h = omega (arith, node_rank-lt sl f h)

ltb-zero_suc : (g : ℕ) → ltb 0 (suc g) ≡ true
ltb-zero_suc g = ground arith

ltb-suc_zero : (f : ℕ) → ltb (suc f) 0 ≡ false
ltb-suc_zero f = ground arith

ltb-suc-suc : (f g : ℕ) → ltb (suc f) (suc g) ≡ ltb f g
ltb-suc-suc f g = ground arith

pub items-no_slots {ℓ} : (K V : Type ℓ) → items (no_slots {K = K} {V = V}) ≡ []
unfolding no_slots
items-no_slots K V = refl

pub node_flags-no_slots {ℓ} :
    (K V : Type ℓ) → node_flags (no_slots {K = K} {V = V}) ≡ replicate 32 false
unfolding no_slots
node_flags-no_slots K V = refl

pub data_flags-no_slots {ℓ} :
    (K V : Type ℓ) → data_flags (no_slots {K = K} {V = V}) ≡ replicate 32 false
unfolding no_slots
data_flags-no_slots K V = refl

module _ {ℓ} {K V : Type ℓ} where
  items-blank : (n : ℕ) → items (blank {K = K} {V = V} n) ≡ []
  items-blank zero = refl
  items-blank (suc n) = items-blank n

  items-blank_one : (n f : ℕ) (e : Entry K V) → f < n → items (put (blank n) f (entry e)) ≡ e ∷ []
  items-blank_one zero f e h = absurd (omega arith)
  items-blank_one (suc n) zero e h = ap (◌∷◌ e) (items-blank n)
  items-blank_one (suc n) (suc f) e h = items-blank_one n f e (omega arith)

  -- Two entries stand in the order of their positions.
  items-blank_two :
      (n f g : ℕ) (x y : Entry K V)
      → f < n
      → g < n
      → f ≢ g
      → items (put (put (blank n) f (entry x)) g (entry y))
        ≡ (if ltb f g then x ∷ y ∷ [] else y ∷ x ∷ [])
  items-blank_two zero f g x y a b d = absurd (omega arith)
  items-blank_two (suc n) zero zero x y a b d = absurd (d refl)
  items-blank_two (suc n) zero (suc g) x y a b d =
      rw (ltb-zero_suc g) (ap (◌∷◌ x) (items-blank_one n g y (omega arith)))
  items-blank_two (suc n) (suc f) zero x y a b d =
      rw (ltb-suc_zero f) (ap (◌∷◌ y) (items-blank_one n f x (omega arith)))
  items-blank_two (suc n) (suc f) (suc g) x y a b d =
      rw (ltb-suc-suc f g)
        (items-blank_two n f g x y (omega arith) (omega arith) (λ e. d (ap suc e)))

  pub items-no_slots_two :
      (f g : ℕ) (x y : Entry K V)
      → f < 32
      → g < 32
      → f ≢ g
      → items (put (put no_slots f (entry x)) g (entry y))
        ≡ (if ltb f g then x ∷ y ∷ [] else y ∷ x ∷ [])
  unfolding no_slots
  items-no_slots_two f g x y a b d = items-blank_two 32 f g x y a b d

  pub items-no_slots_one :
      (f : ℕ) (e : Entry K V) → f < 32 → items (put no_slots f (entry e)) ≡ e ∷ []
  unfolding no_slots
  items-no_slots_one f e a = items-blank_one 32 f e a
