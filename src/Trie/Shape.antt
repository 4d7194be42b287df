-- ===== src/Trie/Shape.antt =====
-- The shape that every tree of the map has: each entry stands where its hash says, full hash
-- collisions alone stand in collision nodes, and no subtree could be inlined into its parent.
use champ_trie.Prelude.{
  ℕ, zero, suc, ◌+◌, ◌*◌, ◌%◌, ◌^◌, ◌≤◌, ◌≡◌, false, List, [], ◌∷◌, length, arith,
}
use native.Mathlib.Nat.{add-zero, zero-add, pow-suc}
use native.Mathlib.Numerals.{towards_suc}
use champ_trie.Bits.Step.{mod-mul}
use champ_trie.Hashing.{Key}
use champ_trie.Node.{Entry, fragment}
use champ_trie.Node.Bitmap.{fragment_lem}
use champ_trie.Trie.{
  Trie, Slot, Slots, inner, collision, vacant, entry, subtree, end, cons, width, slot_at, put,
  blank, no_slots,
}
use champ_trie.Trie.Model.{entries}

-- The part of a path that ends at position `f` of a node at `shift`, with the path `p` above it.
abbrev pub step_path : ℕ → ℕ → ℕ → ℕ
step_path shift p f = p + 2 ^ shift * f

module _ {ℓ} {K V : Type ℓ} ⦃key : Key K⦄ where
  -- The entry has the hash of its key, a 64-bit word whose low `shift` bits are the path.
  pub record IsPlaced (e : Entry K V) (shift p : ℕ) : Type 0 where
    pub hash_lem : e.hash ≡ key.hashed.digest e.key
    pub on_path : e.hash % 2 ^ shift ≡ p

  -- No two entries have equal keys.
  abbrev pub Apart : Entry K V → List (Entry K V) → Type 0
  Apart e [] = Unit
  Apart e (x ∷ es) = (key.equal x.key e.key ≡ false) × Apart e es

  abbrev pub IsDistinct : List (Entry K V) → Type 0
  IsDistinct [] = Unit
  IsDistinct (e ∷ es) = Apart e es × IsDistinct es

  abbrev pub AllPlaced : List (Entry K V) → ℕ → ℕ → Type 0
  AllPlaced [] shift p = Unit
  AllPlaced (e ∷ es) shift p = IsPlaced e shift p × AllPlaced es shift p

  -- A collision node: two to 255 entries of one hash, under different keys.
  pub record IsBucket (h : ℕ) (es : List (Entry K V)) (shift p : ℕ) : Type 0 where
    pub deepest : shift ≡ 65
    pub hash_on_path : h ≡ p
    pub two : 2 ≤ length es
    pub fits : length es ≤ 255
    pub placed : AllPlaced es shift p
    pub distinct : IsDistinct es

  abbrev mutual
    pub IsTrie : Trie K V → ℕ → ℕ → Type 0
    IsTrie (inner sl) shift p = (shift ≤ 60) × (width sl ≡ 32) × AreSlots sl shift p 0
    IsTrie (collision h es) shift p = IsBucket h es shift p

    pub IsSlot : Slot K V → ℕ → ℕ → Type 0
    IsSlot vacant shift p = Unit
    IsSlot (entry e) shift p = IsPlaced e shift p
    IsSlot (subtree t) shift p = IsTrie t shift p × (2 ≤ length (entries t))

    pub AreSlots : Slots K V → ℕ → ℕ → ℕ → Type 0
    AreSlots end shift p f = Unit
    AreSlots (cons s sl) shift p f =
        IsSlot s (shift + 5) (step_path shift p f) × AreSlots sl shift p (suc f)

  slot_at-IsSlot_from :
      (sl : Slots K V) (shift p g f : ℕ)
      → AreSlots sl shift p g
      → IsSlot (slot_at sl f) (shift + 5) (step_path shift p (g + f))
  slot_at-IsSlot_from end shift p g f a = tt
  slot_at-IsSlot_from (cons s sl) shift p g zero a = rw add-zero a.0
  slot_at-IsSlot_from (cons s sl) shift p g (suc f) a =
      let e : g + suc f ≡ suc g + f = omega arith in
      rw e (slot_at-IsSlot_from sl shift p (suc g) f a.1)

  pub slot_at-IsSlot :
      (sl : Slots K V) (shift p f : ℕ)
      → AreSlots sl shift p 0
      → IsSlot (slot_at sl f) (shift + 5) (step_path shift p f)
  slot_at-IsSlot sl shift p f a = rw zero-add at (slot_at-IsSlot_from sl shift p 0 f a)

  put-AreSlots_from :
      (sl : Slots K V) (shift p g f : ℕ) (x : Slot K V)
      → AreSlots sl shift p g
      → IsSlot x (shift + 5) (step_path shift p (g + f))
      → AreSlots (put sl f x) shift p g
  put-AreSlots_from end shift p g f x a h = tt
  put-AreSlots_from (cons s sl) shift p g zero x a h = (rw add-zero at h, a.1)
  put-AreSlots_from (cons s sl) shift p g (suc f) x a h =
      let e : suc g + f ≡ g + suc f = omega arith in
      (a.0, put-AreSlots_from sl shift p (suc g) f x a.1 (rw e h))

  pub put-AreSlots :
      (sl : Slots K V) (shift p f : ℕ) (x : Slot K V)
      → AreSlots sl shift p 0
      → IsSlot x (shift + 5) (step_path shift p f)
      → AreSlots (put sl f x) shift p 0
  put-AreSlots sl shift p f x a h = put-AreSlots_from sl shift p 0 f x a (rw zero-add h)

blank-AreSlots {ℓ} :
    (K V : Type ℓ) ⦃key : Key K⦄ (n shift p g : ℕ) → AreSlots (blank {K = K} {V = V} n) shift p g
blank-AreSlots K V zero shift p g = tt
blank-AreSlots K V (suc n) shift p g = (tt, blank-AreSlots K V n shift p (suc g))

pub no_slots-AreSlots {ℓ} :
    (K V : Type ℓ) ⦃key : Key K⦄ (shift p : ℕ) → AreSlots (no_slots {K = K} {V = V}) shift p 0
unfolding no_slots
no_slots-AreSlots K V shift p = blank-AreSlots K V 32 shift p 0

pub pow-add_five : (s : ℕ) → 2 ^ (s + 5) ≡ 2 ^ s * 32
pow-add_five s = simp towards_suc (simp pow-suc (omega arith))

-- One more level of the path is one more fragment.
pub path-step :
    (hash shift p : ℕ)
    → hash % 2 ^ shift ≡ p
    → hash % 2 ^ (shift + 5) ≡ step_path shift p (fragment hash shift)
path-step hash shift p h =
    rw (pow-add_five shift, mod-mul hash (2 ^ shift) 32, fragment_lem hash shift, h)

module _ {ℓ} {K V : Type ℓ} ⦃key : Key K⦄ where
  pub IsPlaced-step :
      (e : Entry K V) (shift p : ℕ)
      → IsPlaced e shift p
      → IsPlaced e (shift + 5) (step_path shift p (fragment e.hash shift))
  IsPlaced-step e shift p i = record {
    hash_lem = i.hash_lem;
    on_path = path-step e.hash shift p i.on_path;
  }

  -- At the end of a path the path is the hash.
  pub hash_at_end : (e : Entry K V) (p : ℕ) → IsPlaced e 65 p → e.hash ≡ p
  hash_at_end e p i = omega (arith, i.on_path, i.hash_lem, key.hashed.digest-lt e.key)
