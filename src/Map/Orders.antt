-- ===== src/Map/Orders.antt =====
-- Two insertions in either order.
use champ_trie.Prelude.{ℕ, ◌≡◌, false, ◌>>=◌}
use champ_trie.Hashing.{Key}
use champ_trie.Trie.{Trie}
use champ_trie.Trie.Model
use champ_trie.Trie.Model.{overflows}
use champ_trie.Trie.Shape.{IsTrie}
use champ_trie.Trie.Lookup.{hash_of}
use champ_trie.Trie.Weight.{old_weight}
use champ_trie.Map.{insert, get}
use champ_trie.Map.Holds.{Holds}
use champ_trie.Map.Insertion.{entry_of}

module _ {ℓ} {K V : Type ℓ} ⦃key : Key K⦄ where
  module _ (t : Trie K V) (a : IsTrie t 0 0) (k : K) (v : V)
      (room : overflows t (entry_of k v) 0 ≡ false) (l : K) (u : V)
      (other : key.equal k l ≡ false) where
    abbrev first : Trie K V
    first = Model.insert t (entry_of k v) 0

    abbrev both : Trie K V
    both = Model.insert first (entry_of l u) 0

    module _ (w : ℕ → V → ℕ) where
      abbrev old : K → ℕ
      old q = old_weight w (hash_of q) (Model.get t (hash_of q) q 0)
