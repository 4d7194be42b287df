-- ===== src/Trie/Model.antt =====
-- Lookup and insertion on trees, and what a tree holds. These describe the code of src/ops without
-- bitmaps, indices or a store.
use champ_trie.Prelude.{
  ℕ, zero, suc, ◌+◌, ◌%◌, ◌^◌, Bool, true, false, ◌&&◌, Option, none, some, List, [], ◌∷◌, ◌++◌,
  length, ◌==◌, ltb, ◌≤◌, ◌<◌, ◌≡◌, ◌≢◌, arith, ==_iff, ==_ne, if◌then◌else◌,
}
use champ_trie.Hashing.{Hash, Key}
use champ_trie.Node.{Entry, fragment, bits_per_level, max_shift}
use champ_trie.Ops.Insert.{contribution}
use champ_trie.Trie.{
  Trie, Slot, Slots, inner, collision, vacant, entry, subtree, end, cons, put, no_slots, items,
}

abbrev pub is_none {ℓ} : {V : Type ℓ} → Option V → Bool
is_none none = true
is_none (some _) = false

module _ {ℓ} {K V : Type ℓ} where
  -- Every entry, in the order of the iterator: a node's own, then those of its subtrees.
  unfoldable mutual
    pub entries : Trie K V → List (Entry K V)
    entries (inner sl) = items sl ++ below sl
    entries (collision h es) = es

    pub below_slot : Slot K V → List (Entry K V)
    below_slot vacant = []
    below_slot (entry e) = []
    below_slot (subtree t) = entries t

    pub below : Slots K V → List (Entry K V)
    below end = []
    below (cons s sl) = below_slot s ++ below sl

  -- The tree of two entries that agree on every fragment before `shift`.
  unfoldable pub join : ℕ → Entry K V → Entry K V → ℕ → Trie K V
  join zero e1 e2 shift = collision e1.hash (e1 ∷ e2 ∷ [])
  join (suc fuel) e1 e2 shift =
      let deeper = join fuel e1 e2 (shift + bits_per_level) in
      let f1 = fragment e1.hash shift in
      let f2 = fragment e2.hash shift in
      if ltb max_shift shift
      then collision e1.hash (e1 ∷ e2 ∷ [])
      else if f1 == f2
      then inner (put no_slots f1 (subtree deeper))
      else inner (put (put no_slots f1 (entry e1)) f2 (entry e2))

  module _ (fuel : ℕ) (e1 e2 : Entry K V) (shift : ℕ) where
    pub join_deep : 60 < shift → join (suc fuel) e1 e2 shift ≡ collision e1.hash (e1 ∷ e2 ∷ [])
    unfolding join
    join_deep h = let t : ltb 60 shift ≡ true = ground arith in rw t

    pub join_same :
        shift ≤ 60
        → fragment e1.hash shift ≡ fragment e2.hash shift
        → join (suc fuel) e1 e2 shift
          ≡ inner (put no_slots (fragment e1.hash shift) (subtree (join fuel e1 e2 (shift + 5))))
    unfolding join
    join_same h f = let t : ltb 60 shift ≡ false = ground arith in rw (t, (==_iff _ _).1 f)

    pub join_apart :
        shift ≤ 60
        → fragment e1.hash shift ≢ fragment e2.hash shift
        → join (suc fuel) e1 e2 shift
          ≡ inner (
              put
                (put no_slots (fragment e1.hash shift) (entry e1))
                (fragment e2.hash shift)
                (entry e2))
    unfolding join
    join_apart h f = let t : ltb 60 shift ≡ false = ground arith in rw (t, ==_ne _ _ f)

module _ {ℓ} {K V : Type ℓ} ⦃h : Hash V⦄ where
  -- The sum of the contributions of all entries of a list.
  unfoldable pub total : List (Entry K V) → ℕ
  total [] = 0
  total (e ∷ es) = contribution e + total es

  -- The `AdHash` of a tree: the sum over its entries, as a 64-bit word.
  unfoldable pub trie_adhash : Trie K V → ℕ
  unfolding total entries
  trie_adhash t = total (entries t) % 2 ^ 64

module _ {ℓ} {K V : Type ℓ} ⦃key : Key K⦄ where
  abbrev pub same : Entry K V → Entry K V → Bool
  same x e = x.hash == e.hash && key.equal x.key e.key

  unfoldable pub find : List (Entry K V) → K → Option V
  find [] k = none
  find (e ∷ es) k = if key.equal e.key k then some e.value else find es k

  -- The list with `e` in place of the entry of its key, or at the end.
  unfoldable pub upsert : List (Entry K V) → Entry K V → List (Entry K V)
  upsert [] e = e ∷ []
  upsert (x ∷ es) e = if key.equal x.key e.key then e ∷ es else x ∷ upsert es e

  unfoldable mutual
    pub get : Trie K V → ℕ → K → ℕ → Option V
    get (inner sl) hash k shift = get_slots sl (fragment hash shift) hash k (shift + bits_per_level)
    get (collision node_hash es) hash k shift = if hash == node_hash then find es k else none

    pub get_slot : Slot K V → ℕ → K → ℕ → Option V
    get_slot vacant hash k shift = none
    get_slot (entry e) hash k shift =
        if e.hash == hash && key.equal e.key k then some e.value else none
    get_slot (subtree t) hash k shift = get t hash k shift

    pub get_slots : Slots K V → ℕ → ℕ → K → ℕ → Option V
    get_slots end f hash k shift = none
    get_slots (cons s sl) zero hash k shift = get_slot s hash k shift
    get_slots (cons s sl) (suc f) hash k shift = get_slots sl f hash k shift

  unfoldable mutual
    pub insert : Trie K V → Entry K V → ℕ → Trie K V
    insert (inner sl) e shift =
        inner (insert_slots sl (fragment e.hash shift) e (shift + bits_per_level))
    insert (collision node_hash es) e shift = collision node_hash (upsert es e)

    pub insert_slot : Slot K V → Entry K V → ℕ → Slot K V
    insert_slot vacant e shift = entry e
    insert_slot (entry x) e shift = if same x e then entry e else subtree (join 14 x e shift)
    insert_slot (subtree t) e shift = subtree (insert t e shift)

    pub insert_slots : Slots K V → ℕ → Entry K V → ℕ → Slots K V
    insert_slots end f e shift = end
    insert_slots (cons s sl) zero e shift = cons (insert_slot s e shift) sl
    insert_slots (cons s sl) (suc f) e shift = cons s (insert_slots sl f e shift)

  -- Whether an insertion would give a collision node its 256th entry.
  unfoldable mutual
    pub overflows : Trie K V → Entry K V → ℕ → Bool
    overflows (inner sl) e shift =
        overflows_slots sl (fragment e.hash shift) e (shift + bits_per_level)
    overflows (collision node_hash es) e shift = length es == 255 && is_none (find es e.key)

    pub overflows_slot : Slot K V → Entry K V → ℕ → Bool
    overflows_slot vacant e shift = false
    overflows_slot (entry x) e shift = false
    overflows_slot (subtree t) e shift = overflows t e shift

    pub overflows_slots : Slots K V → ℕ → Entry K V → ℕ → Bool
    overflows_slots end f e shift = false
    overflows_slots (cons s sl) zero e shift = overflows_slot s e shift
    overflows_slots (cons s sl) (suc f) e shift = overflows_slots sl f e shift
