-- ===== src/Trie/Induction.antt =====
-- Induction over the trees that have the shape of the map's trees.
use champ_trie.Prelude.{ℕ, zero, suc, ◌+◌, ◌≡◌, ap, subst, List, arith}
use native.Mathlib.Nat.{add-zero, zero-add}
use champ_trie.Hashing.{Key}
use champ_trie.Node.{Entry}
use champ_trie.Trie.{
  Trie, Slot, Slots, inner, collision, vacant, entry, subtree, end, cons, slot_at,
}
use champ_trie.Trie.Shape.{IsTrie, IsSlot, AreSlots, step_path, slot_at-IsSlot}

trie_of {ℓ} : {K V : Type ℓ} → Trie K V → Slot K V → Trie K V
trie_of d (subtree t) = t
trie_of d vacant = d
trie_of d (entry e) = d

pub subtree_inj {ℓ} : {K V : Type ℓ} (t u : Trie K V) → subtree t ≡ subtree u → t ≡ u
unfolding trie_of
subtree_inj t u e = ap (trie_of t) e

-- A subtree of a tree is a tree, and holds two entries at least.
pub child-IsSlot {ℓ} :
    {K V : Type ℓ} ⦃key : Key K⦄ (sl : Slots K V) (shift p f : ℕ) (t : Trie K V)
    → IsTrie (inner sl) shift p
    → slot_at sl f ≡ subtree t
    → IsSlot (subtree t) (shift + 5) (step_path shift p f)
child-IsSlot sl shift p f t a e =
    subst (λ x. IsSlot x (shift + 5) (step_path shift p f)) e (slot_at-IsSlot sl shift p f a.2)

module _ {ℓ κ} {K V : Type ℓ} ⦃key : Key K⦄ (P : Trie K V → ℕ → ℕ → Type κ)
    (at_collision : (h : ℕ) (es : List (Entry K V)) (shift p : ℕ)
      → IsTrie (collision h es) shift p
      → P (collision h es) shift p)
    (at_inner : (sl : Slots K V) (shift p : ℕ)
      → IsTrie (inner sl) shift p
      → ((f : ℕ) (t : Trie K V) → slot_at sl f ≡ subtree t → P t (shift + 5) (step_path shift p f))
      → P (inner sl) shift p) where
  abbrev AtSlot : Slot K V → ℕ → ℕ → Type κ
  AtSlot vacant shift p = Unit
  AtSlot (entry e) shift p = Unit
  AtSlot (subtree t) shift p = P t shift p

  from_slot :
      (s : Slot K V) (t : Trie K V) (shift p : ℕ) → s ≡ subtree t → AtSlot s shift p → P t shift p
  from_slot vacant t shift p e a = absurd (ground arith)
  from_slot (entry x) t shift p e a = absurd (ground arith)
  from_slot (subtree u) t shift p e a = subst (λ x. P x shift p) (subtree_inj u t e) a

  mutual
    tree_case : (t : Trie K V) (shift p : ℕ) → IsTrie t shift p → P t shift p
    tree_case (inner sl) shift p a = at_inner sl shift p a (λ f t e.
        from_slot (slot_at sl f) t (shift + 5) (step_path shift p f) e
          (rw zero-add at (slots_case sl shift p 0 f a.2)))
    tree_case (collision h es) shift p a = at_collision h es shift p a

    slot_case : (s : Slot K V) (shift p : ℕ) → IsSlot s shift p → AtSlot s shift p
    slot_case vacant shift p a = tt
    slot_case (entry x) shift p a = tt
    slot_case (subtree t) shift p a = tree_case t shift p a.0

    slots_case :
        (sl : Slots K V) (shift p g f : ℕ)
        → AreSlots sl shift p g
        → AtSlot (slot_at sl f) (shift + 5) (step_path shift p (g + f))
    slots_case end shift p g f a = tt
    slots_case (cons s sl) shift p g zero a =
        rw add-zero (slot_case s (shift + 5) (step_path shift p g) a.0)
    slots_case (cons s sl) shift p g (suc f) a =
        let next : g + suc f ≡ suc g + f = omega arith in
        rw next (slots_case sl shift p (suc g) f a.1)

  -- A property of collision nodes that every inner node takes over from its subtrees holds.
  pub trie_induction : (t : Trie K V) (shift p : ℕ) → IsTrie t shift p → P t shift p
  trie_induction t shift p a = tree_case t shift p a
