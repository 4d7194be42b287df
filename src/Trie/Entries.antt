-- ===== src/Trie/Entries.antt =====
-- What a tree holds stands on its path.
use native.Mathlib.Nat.{add-zero, zero-add}
use champ_trie.Prelude.{ℕ, zero, suc, ◌+◌, ◌<◌, ◌^◌, ◌≡◌, refl, List, [], ◌∷◌, ◌++◌, arith}
use champ_trie.Hashing.{Key}
use champ_trie.Node.{Entry}
use champ_trie.Trie.{
  Trie, Slot, Slots, vacant, entry, subtree, end, cons, width, slot_at, items, add_item,
}
use champ_trie.Trie.Induction.{trie_induction}
use champ_trie.Trie.Model.{entries, below, below_slot}
use champ_trie.Trie.Paths.{step_path-lt, IsPlaced-above}
use champ_trie.Trie.Shape.{AllPlaced, IsTrie, IsSlot, AreSlots, step_path}

module _ {ℓ} {K V : Type ℓ} where
  -- What a position holds.
  abbrev pub held : Slot K V → List (Entry K V)
  held vacant = []
  held (entry x) = x ∷ []
  held (subtree t) = entries t

module _ {ℓ} {K V : Type ℓ} ⦃key : Key K⦄ where
  -- Everything that a tree holds is placed on its path.
  AllPlaced-append :
      (es fs : List (Entry K V)) (shift p : ℕ)
      → AllPlaced es shift p
      → AllPlaced fs shift p
      → AllPlaced (es ++ fs) shift p
  AllPlaced-append [] fs shift p a b = b
  AllPlaced-append (e ∷ es) fs shift p a b = (a.0, AllPlaced-append es fs shift p a.1 b)

  AllPlaced-above :
      (es : List (Entry K V)) (shift p f : ℕ)
      → p < 2 ^ shift
      → AllPlaced es (shift + 5) (step_path shift p f)
      → AllPlaced es shift p
  AllPlaced-above [] shift p f low a = tt
  AllPlaced-above (e ∷ es) shift p f low a =
      (IsPlaced-above e shift p f low a.0, AllPlaced-above es shift p f low a.1)

  pub held-AllPlaced :
      (s : Slot K V) (shift p : ℕ)
      → IsSlot s shift p
      → ((t : Trie K V) → s ≡ subtree t → AllPlaced (entries t) shift p)
      → AllPlaced (held s) shift p
  held-AllPlaced vacant shift p a deep = tt
  held-AllPlaced (entry x) shift p a deep = (a, tt)
  held-AllPlaced (subtree t) shift p a deep = deep t refl

  below-AllPlaced :
      (sl : Slots K V) (shift p g : ℕ)
      → p < 2 ^ shift
      → AreSlots sl shift p g
      → ((f : ℕ) (t : Trie K V)
          → slot_at sl f ≡ subtree t
          → AllPlaced (entries t) (shift + 5) (step_path shift p (g + f)))
      → AllPlaced (items sl) shift p × AllPlaced (below sl) shift p
  unfolding entries
  below-AllPlaced end shift p g low a deep = (tt, tt)
  below-AllPlaced (cons s sl) shift p g low a deep =
      let (i, b) = below-AllPlaced sl shift p (suc g) low a.1 (λ f t e.
        let next : g + suc f ≡ suc g + f = omega arith in rw next at (deep (suc f) t e)) in
      here s i b a.0 (λ t e. rw add-zero at (deep 0 t e))
    where
      here :
          (s : Slot K V)
          → AllPlaced (items sl) shift p
          → AllPlaced (below sl) shift p
          → IsSlot s (shift + 5) (step_path shift p g)
          → ((t : Trie K V)
              → s ≡ subtree t
              → AllPlaced (entries t) (shift + 5) (step_path shift p g))
          → AllPlaced (add_item s (items sl)) shift p × AllPlaced (below_slot s ++ below sl) shift p
      here vacant i b a deep = (i, b)
      here (entry x) i b a deep = ((IsPlaced-above x shift p g low a, i), b)
      here (subtree t) i b a deep = (
        i,
        AllPlaced-append (entries t) (below sl) shift p
            (AllPlaced-above (entries t) shift p g low (deep t refl)) b,
      )

  slot_lt : (sl : Slots K V) (f : ℕ) (t : Trie K V) → slot_at sl f ≡ subtree t → f < width sl
  slot_lt end f t e = absurd (ground arith)
  slot_lt (cons s sl) zero t e = omega arith
  slot_lt (cons s sl) (suc f) t e = omega (arith, slot_lt sl f t e)

  pub entries-AllPlaced :
      (t : Trie K V) (shift p : ℕ)
      → IsTrie t shift p
      → p < 2 ^ shift
      → AllPlaced (entries t) shift p
  entries-AllPlaced =
      trie_induction (λ t shift p. (p < 2 ^ shift) → AllPlaced (entries t) shift p)
        (λ h es shift p a low. unfold entries in a.placed)
        (λ sl shift p a deep low.
          let (i, b) = below-AllPlaced sl shift p 0 low a.2 (λ f t e.
            rw (zero-add f)
              (deep f t e (step_path-lt shift p f low (rw a.1 at (slot_lt sl f t e))))) in
          unfold entries in AllPlaced-append (items sl) (below sl) shift p i b)
