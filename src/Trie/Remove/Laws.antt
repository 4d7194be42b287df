-- ===== src/Trie/Remove/Laws.antt =====
-- Removal as an operation on the answers of a tree.
use champ_trie.Prelude.{ℕ, ◌+◌, ◌^◌, ◌<◌}
use champ_trie.Hashing.{Key}
use champ_trie.Node.{fragment}
use champ_trie.Node.Bitmap.{fragment-lt}
use champ_trie.Trie.{Trie, slot_at}
use champ_trie.Trie.Induction.{trie_induction, child-IsSlot}
use champ_trie.Trie.Lookup.{hash_of}
use champ_trie.Trie.Paths.{step_path-lt}
use champ_trie.Trie.Shape.{IsTrie, step_path, slot_at-IsSlot}
use champ_trie.Trie.Remove.{remove, remove_slot}
use champ_trie.Trie.Remove.Positions.{remove-inner}
use champ_trie.Trie.Remove.Shape.{slot-left, remove-left}
use champ_trie.Trie.Remove.Lookup.{slot-value, remove-get}
use champ_trie.Trie.Remove.After.{Answers, Answers-rebuild, Answers-slot}
use champ_trie.Trie.Remove.Bucket.{Answers-collision}

module _ {ℓ} {K V : Type ℓ} ⦃key : Key K⦄ (k q : K) where
  -- After a removal equal keys have no value, and all others what they had.
  pub get-remove :
      (t : Trie K V) (shift p : ℕ)
      → IsTrie t shift p
      → p < 2 ^ shift
      → Answers k q t (remove t (hash_of k) k shift) shift
  get-remove =
      trie_induction
        (λ t shift p. (p < 2 ^ shift) → Answers k q t (remove t (hash_of k) k shift) shift)
        (λ h es shift p a low. Answers-collision k q h es shift p a)
        (λ sl shift p a deep low.
          let f = fragment (hash_of k) shift in
          let s = slot_at sl f in
          let i = slot_at-IsSlot sl shift p f a.2 in
          let low' = step_path-lt shift p f low (fragment-lt (hash_of k) shift) in
          rw (remove-inner sl (hash_of k) k shift) (
            Answers-rebuild k q sl shift p low a (remove_slot s (hash_of k) k (shift + 5))
              (slot-value s (hash_of k) k (shift + 5) (λ t e.
                remove-get (hash_of k) k t (shift + 5) (step_path shift p f)
                  (child-IsSlot sl shift p f t a e).0))
              (slot-left s (hash_of k) k (shift + 5) (step_path shift p f) i (λ t e.
                remove-left (hash_of k) k t (shift + 5) (step_path shift p f)
                  (child-IsSlot sl shift p f t a e).0 low'))
              (Answers-slot k q s (shift + 5) (step_path shift p f) i (λ t e. deep f t e low'))))
