-- ===== src/Trie/Repr.antt =====
-- A tree in the arenas: the node at an index holds the bitmaps of its positions, the blocks of its
-- entries and of the indices of its subtrees, and the sum of the contributions below it.
use champ_trie.Prelude.{
  ℕ, zero, suc, ◌<◌, ◌%◌, ◌^◌, ◌≡◌, insert_at-nil, refl, ap, subst, true, false, some, List, [],
  ◌∷◌, length, get_elem?, set, insert_at, erase_at, count_true, arith,
}
use champ_trie.Bits.Flags.{of_bits}
use champ_trie.Hashing.{Hash, entry_adhash, hash_one}
use champ_trie.Node.{Entry, Node, Idx}
use champ_trie.Node
use champ_trie.Store.{Arenas, Extends}
use champ_trie.Store.Views.{Grows-get}
use champ_trie.Store.Block.{Block}
use champ_trie.Trie.{
  Trie, Slot, Slots, inner, collision, vacant, entry, subtree, end, cons, is_subtree, width,
  slot_at, put, blank, no_slots, data_flags, node_flags, items, node_rank,
}
use champ_trie.Trie.Positions.{width-no_slots, slot_at-no_slots}
use champ_trie.Trie.Weight.{weigh}

-- The contribution of an entry with this hash and value.
abbrev pub share {ℓ} : {V : Type ℓ} ⦃h : Hash V⦄ → ℕ → V → ℕ
share hash v = entry_adhash hash (hash_one v)

-- The `AdHash` of a tree.
abbrev pub sum_of {ℓ} : {K V : Type ℓ} ⦃h : Hash V⦄ → Trie K V → ℕ
sum_of t = weigh share t % 2 ^ 64

module _ {ℓ} {K V : Type ℓ} ⦃h : Hash V⦄ (v : Arenas K V) where
  -- The node at `i` is the inner node of these positions, with these subtree indices.
  pub record InnerAt (i : Idx) (sl : Slots K V) (kids : List Idx) : Type ℓ where
    pub data_start : Idx
    pub children_start : Idx
    pub node_at :
        get_elem? v.nodes i
        ≡ some (
            Node.inner
              (of_bits (data_flags sl))
              (of_bits (node_flags sl))
              data_start
              children_start
              (sum_of (inner sl)))
    pub items_at : Block v.entries data_start (items sl)
    pub kids_at : Block v.children children_start kids

  pub record CollisionAt (i : Idx) (hash : ℕ) (es : List (Entry K V)) : Type ℓ where
    pub entries_start : Idx
    pub node_at :
        get_elem? v.nodes i
        ≡ some (Node.collision hash entries_start (length es) (sum_of (collision hash es)))
    pub entries_at : Block v.entries entries_start es

  abbrev mutual
    pub Repr : Idx → Trie K V → Type ℓ
    Repr i (inner sl) = (kids : List Idx) × InnerAt i sl kids × AreKids kids sl
    Repr i (collision hash es) = CollisionAt i hash es

    pub IsKid : Slot K V → List Idx → (List Idx → Type ℓ) → Type ℓ
    IsKid vacant kids Rest = Rest kids
    IsKid (entry e) kids Rest = Rest kids
    IsKid (subtree t) kids Rest =
        (k : Idx) × (rest : List Idx) × (kids ≡ k ∷ rest) × Repr k t × Rest rest

    pub AreKids : List Idx → Slots K V → Type ℓ
    AreKids kids end = (kids ≡ []) × Unit {ℓ}
    AreKids kids (cons s sl) = IsKid s kids (λ rest. AreKids rest sl)

  AreKids-blank : (n : ℕ) → AreKids [] (blank n)
  AreKids-blank zero = (refl, tt)
  AreKids-blank (suc n) = AreKids-blank n

  pub AreKids-no_slots : AreKids [] no_slots
  unfolding no_slots
  AreKids-no_slots = AreKids-blank 32

  trie_or : Trie K V → Slot K V → Trie K V
  trie_or d (subtree t) = t
  trie_or d vacant = d
  trie_or d (entry e) = d

  pub length-kids :
      (kids : List Idx) (sl : Slots K V)
      → AreKids kids sl
      → length kids ≡ count_true (node_flags sl)
  length-kids kids end a = rw a.0
  length-kids kids (cons vacant sl) a = length-kids kids sl a
  length-kids kids (cons (entry e) sl) a = length-kids kids sl a
  length-kids kids (cons (subtree t) sl) (k, rest, e, r, a) = rw e (ap suc (length-kids rest sl a))

  -- The index of a subtree stands at its rank.
  pub kid_at :
      (kids : List Idx) (sl : Slots K V) (f : ℕ) (t : Trie K V)
      → AreKids kids sl
      → slot_at sl f ≡ subtree t
      → (k : Idx) × (get_elem? kids (node_rank sl f) ≡ some k) × Repr k t
  unfolding trie_or
  kid_at kids end f t a h = absurd (ground arith)
  kid_at kids (cons vacant sl) zero t a h = absurd (ground arith)
  kid_at kids (cons (entry e) sl) zero t a h = absurd (ground arith)
  kid_at kids (cons (subtree u) sl) zero t (k, rest, e, r, a) h =
      (k, rw e refl, subst (Repr k) (ap (trie_or u) h) r)
  kid_at kids (cons vacant sl) (suc f) t a h = kid_at kids sl f t a h
  kid_at kids (cons (entry e) sl) (suc f) t a h = kid_at kids sl f t a h
  kid_at kids (cons (subtree u) sl) (suc f) t (k, rest, e, r, a) h =
      let (j, p, q) = kid_at rest sl f t a h in (j, rw e p, q)

  pub set_kid :
      (kids : List Idx) (sl : Slots K V) (f : ℕ) (t : Trie K V) (k : Idx)
      → AreKids kids sl
      → is_subtree (slot_at sl f) ≡ true
      → Repr k t
      → AreKids (set kids (node_rank sl f) k) (put sl f (subtree t))
  set_kid kids end f t k a h r = absurd (ground arith)
  set_kid kids (cons vacant sl) zero t k a h r = absurd (ground arith)
  set_kid kids (cons (entry e) sl) zero t k a h r = absurd (ground arith)
  set_kid kids (cons (subtree u) sl) zero t k (j, rest, e, q, a) h r = (k, rest, rw e refl, r, a)
  set_kid kids (cons vacant sl) (suc f) t k a h r = set_kid kids sl f t k a h r
  set_kid kids (cons (entry e) sl) (suc f) t k a h r = set_kid kids sl f t k a h r
  set_kid kids (cons (subtree u) sl) (suc f) t k (j, rest, e, q, a) h r =
      (j, set rest (node_rank sl f) k, rw e refl, q, set_kid rest sl f t k a h r)

  pub insert_kid :
      (kids : List Idx) (sl : Slots K V) (f : ℕ) (t : Trie K V) (k : Idx)
      → AreKids kids sl
      → f < width sl
      → is_subtree (slot_at sl f) ≡ false
      → Repr k t
      → AreKids (insert_at kids (node_rank sl f) k) (put sl f (subtree t))
  insert_kid kids end f t k a b h r = absurd (omega arith)
  insert_kid kids (cons vacant sl) zero t k a b h r = (k, kids, refl, r, a)
  insert_kid kids (cons (entry e) sl) zero t k a b h r = (k, kids, refl, r, a)
  insert_kid kids (cons (subtree u) sl) zero t k a b h r = absurd (ground arith)
  insert_kid kids (cons vacant sl) (suc f) t k a b h r =
      insert_kid kids sl f t k a (omega arith) h r
  insert_kid kids (cons (entry e) sl) (suc f) t k a b h r =
      insert_kid kids sl f t k a (omega arith) h r
  insert_kid kids (cons (subtree u) sl) (suc f) t k (j, rest, e, q, a) b h r = (
    j,
    insert_at rest (node_rank sl f) k,
    rw e refl,
    q,
    insert_kid rest sl f t k a (omega arith) h r,
  )

  -- A lone subtree.
  pub one_kid :
      (f : ℕ) (t : Trie K V) (k : Idx)
      → f < 32
      → Repr k t
      → AreKids (k ∷ []) (put no_slots f (subtree t))
  one_kid f t k b r =
      let free = slot_at-no_slots {K = K} {V = V} f in
      rw insert_at-nil at
        (insert_kid [] no_slots f t k AreKids-no_slots (rw (width-no_slots K V) b) (rw free refl) r)

  no_kid :
      (y : Slot K V) (kids : List Idx) (sl : Slots K V)
      → is_subtree y ≡ false
      → AreKids kids sl
      → AreKids kids (cons y sl)
  no_kid vacant kids sl n a = a
  no_kid (entry e) kids sl n a = a
  no_kid (subtree t) kids sl n a = absurd (ground arith)

  pub erase_kid :
      (kids : List Idx) (sl : Slots K V) (f : ℕ) (y : Slot K V)
      → AreKids kids sl
      → is_subtree y ≡ false
      → is_subtree (slot_at sl f) ≡ true
      → AreKids (erase_at kids (node_rank sl f)) (put sl f y)
  erase_kid kids end f y a n h = absurd (ground arith)
  erase_kid kids (cons vacant sl) zero y a n h = absurd (ground arith)
  erase_kid kids (cons (entry e) sl) zero y a n h = absurd (ground arith)
  erase_kid kids (cons (subtree u) sl) zero y (j, rest, e, q, a) n h = rw e (no_kid y rest sl n a)
  erase_kid kids (cons vacant sl) (suc f) y a n h = erase_kid kids sl f y a n h
  erase_kid kids (cons (entry e) sl) (suc f) y a n h = erase_kid kids sl f y a n h
  erase_kid kids (cons (subtree u) sl) (suc f) y (j, rest, e, q, a) n h =
      (j, erase_at rest (node_rank sl f), rw e refl, q, erase_kid rest sl f y a n h)

  pub keep_kids :
      (kids : List Idx) (sl : Slots K V) (f : ℕ) (y : Slot K V)
      → AreKids kids sl
      → is_subtree y ≡ false
      → is_subtree (slot_at sl f) ≡ false
      → AreKids kids (put sl f y)
  keep_kids kids end f y a n h = a
  keep_kids kids (cons vacant sl) zero y a n h = no_kid y kids sl n a
  keep_kids kids (cons (entry e) sl) zero y a n h = no_kid y kids sl n a
  keep_kids kids (cons (subtree u) sl) zero y a n h = absurd (ground arith)
  keep_kids kids (cons vacant sl) (suc f) y a n h = keep_kids kids sl f y a n h
  keep_kids kids (cons (entry e) sl) (suc f) y a n h = keep_kids kids sl f y a n h
  keep_kids kids (cons (subtree u) sl) (suc f) y (j, rest, e, q, a) n h =
      (j, rest, e, q, keep_kids rest sl f y a n h)

module _ {ℓ} {K V : Type ℓ} ⦃h : Hash V⦄ {v w : Arenas K V} (x : Extends v w) where
  pub InnerAt-extends :
      (i : Idx) (sl : Slots K V) (kids : List Idx) → InnerAt v i sl kids → InnerAt w i sl kids
  InnerAt-extends i sl kids a = record {
    data_start = a.data_start;
    children_start = a.children_start;
    node_at = Grows-get v.nodes i _ x.nodes_grow a.node_at;
    items_at = λ j e p. Grows-get v.entries _ e x.entries_grow (a.items_at j e p);
    kids_at = λ j k p. Grows-get v.children _ k x.children_grow (a.kids_at j k p);
  }

  mutual
    Repr-extends_lem : (t : Trie K V) (i : Idx) → Repr v i t → Repr w i t
    Repr-extends_lem (inner sl) i (kids, a, b) =
        (kids, InnerAt-extends i sl kids a, AreKids-extends_lem sl kids b)
    Repr-extends_lem (collision hash es) i a = record {
      entries_start = a.entries_start;
      node_at = Grows-get v.nodes i _ x.nodes_grow a.node_at;
      entries_at = λ j e p. Grows-get v.entries _ e x.entries_grow (a.entries_at j e p);
    }

    AreKids-extends_lem : (sl : Slots K V) (kids : List Idx) → AreKids v kids sl → AreKids w kids sl
    AreKids-extends_lem end kids a = a
    AreKids-extends_lem (cons vacant sl) kids a = AreKids-extends_lem sl kids a
    AreKids-extends_lem (cons (entry e) sl) kids a = AreKids-extends_lem sl kids a
    AreKids-extends_lem (cons (subtree t) sl) kids (k, rest, e, r, a) =
        (k, rest, e, Repr-extends_lem t k r, AreKids-extends_lem sl rest a)

  -- An allocation changes no tree: every older version of the map stays as it is.
  pub Repr-extends : (t : Trie K V) (i : Idx) → Repr v i t → Repr w i t
  Repr-extends t i r = Repr-extends_lem t i r

  pub AreKids-extends : (sl : Slots K V) (kids : List Idx) → AreKids v kids sl → AreKids w kids sl
  AreKids-extends sl kids a = AreKids-extends_lem sl kids a

-- The sum that a node stores is that of its tree.
pub stored_sum {ℓ} :
    {K V : Type ℓ} ⦃h : Hash V⦄ (v : Arenas K V) (i : Idx) (t : Trie K V)
    → Repr v i t
    → (n : Node) × (get_elem? v.nodes i ≡ some n) × (Node.adhash n ≡ sum_of t)
stored_sum v i (inner sl) (kids, a, b) = (_, a.node_at, unfold Node.adhash in refl)
stored_sum v i (collision hash es) a = (_, a.node_at, unfold Node.adhash in refl)
