-- ===== src/Trie/Remove/Root.antt =====
-- Removal from a whole tree: a tree that is left with nothing is the tree without entries.
use champ_trie.Prelude.{◌≡◌, ℕ, refl, sym, ◌∙◌, none, some, Option-cases, inl, inr, arith}
use champ_trie.Hashing.{Key}
use champ_trie.Trie.{Trie, inner, collision, no_slots}
use champ_trie.Trie.Model.{get, get_slot}
use champ_trie.Trie.Shape.{IsTrie, no_slots-AreSlots}
use champ_trie.Trie.Lookup.{hash_of, get-no_slots, get_slot-subtree}
use champ_trie.Trie.Weight.{weigh, weigh-no_slots}
use champ_trie.Trie.Remove.{Removal, absent, removed, lone, remove}
use champ_trie.Trie.Remove.Alone.{get-lone, get_slot-vacant, unless}
use champ_trie.Trie.Remove.After.{stays}
use champ_trie.Trie.Remove.Laws.{get-remove}
use champ_trie.Trie.Remove.Shape.{Left, remove-left}
use champ_trie.Trie.Remove.Sums.{rest}

module _ {ℓ} {K V : Type ℓ} where
  abbrev pub remains : Trie K V → Removal K V → Trie K V
  remains t absent = t
  remains t (removed e none) = inner no_slots
  remains t (removed e (some u)) = u

  pub weigh-remains :
      (w : ℕ → V → ℕ) (t : Trie K V) (r : Removal K V) → weigh w (remains t r) ≡ rest w t r
  weigh-remains w t absent = refl
  weigh-remains w t (removed e none) = weigh-no_slots K V w
  weigh-remains w t (removed e (some u)) = refl

module _ {ℓ} {K V : Type ℓ} ⦃key : Key K⦄ where
  left-IsTrie :
      (t : Trie K V) (r : Removal K V) → IsTrie t 0 0 → Left r 0 0 → IsTrie (remains t r) 0 0
  left-IsTrie t absent a l = a
  left-IsTrie t (removed e none) a l =
      (omega arith, unfold no_slots in refl, no_slots-AreSlots K V 0 0)
  left-IsTrie t (removed e (some u)) a l = l.1 (omega arith)

  settled :
      (k q : K) (t : Trie K V) (r : Removal K V)
      → Left r 0 0
      → get_slot (stays k q t r) (hash_of q) q 0 ≡ get (remains t r) (hash_of q) q 0
  settled k q t absent l = get_slot-subtree t (hash_of q) q 0
  settled k q t (removed e none) l =
      get_slot-vacant {V = V} (hash_of q) q 0 ∙ sym (get-no_slots {V = V} (hash_of q) q 0)
  settled k q t (removed e (some (inner sl))) l = elim (Option-cases (lone (inner sl))) [
    | inl c ↦ rw c (get_slot-subtree (inner sl) (hash_of q) q 0)
    | inr (x, c) ↦ rw c (get-lone sl 0 0 (omega arith) (l.1 (omega arith)) q x c)
  ]
  settled k q t (removed e (some (collision h es))) l =
      get_slot-subtree (collision h es) (hash_of q) q 0

  module _ (t : Trie K V) (k : K) (a : IsTrie t 0 0) where
    abbrev r : Removal K V
    r = remove t (hash_of k) k 0

    left : Left r 0 0
    left = remove-left (hash_of k) k t 0 0 a (omega arith)

    pub remains-IsTrie : IsTrie (remains t r) 0 0
    remains-IsTrie = left-IsTrie t r a left

    -- After the removal of a key from a well-formed tree at the root: a key that equals the removed
    -- one has no value, and every other key has the value that it had.
    pub get-remains :
        (q : K) → get (remains t r) (hash_of q) q 0 ≡ unless k q (get t (hash_of q) q 0)
    get-remains q = sym (settled k q t r left) ∙ get-remove k q t 0 0 a (omega arith)
