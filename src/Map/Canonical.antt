-- ===== src/Map/Canonical.antt =====
-- Two maps with the same answers.
use champ_trie.Prelude.{some_inj, ◌≡◌, sym, ◌∙◌, true, ok, arith}
use champ_trie.Hashing.{Hash, Key}
use champ_trie.Store.{ChampStore, IsChampStore}
use champ_trie.Trie.{Trie}
use champ_trie.Trie.Split.{IsSplit}
use champ_trie.Trie.Canonical.{canonical}
use champ_trie.Trie.Lookup.{hash_of}
use champ_trie.Trie.Model
use champ_trie.Trie.Model.{entries}
use champ_trie.Map.{ChampMap, get, adhash, len}
use champ_trie.Map.Holds.{Holds, answer, get_ok, adhash_ok}
use champ_trie.Map.Iteration.{at_first}
use champ_trie.Map.Iterator.{Iter, iter}
use champ_trie.Map.Traversal.{iter_run}

module _ {ℓ} {K V : Type ℓ} ⦃key : Key K⦄ ⦃h : Hash V⦄ (S R : ChampStore K V) (law : IsChampStore S)
    (law' : IsChampStore R) where
  -- On two maps, over any two backends, that hold trees without collision nodes, when equal keys
  -- are one key: if `get` answers every key alike, the maps have one length, one `AdHash`, and
  -- iterators with the same pairs in the same order.
  pub same_answers :
      (m : ChampMap S) (n : ChampMap R) (t u : Trie K V)
      → Holds S law m t
      → Holds R law' n u
      → IsSplit t
      → IsSplit u
      → ((a b : K) → key.equal a b ≡ true → a ≡ b)
      → ((q : K) → answer (get S q m) ≡ answer (get R q n))
      → (len S m ≡ len R n)
        × (adhash S m ≡ adhash R n)
        × ((it : Iter K V) × (iter S m ≡ ok it m) × (iter R n ≡ ok it n))
  unfolding len
  same_answers m n t u holds holds' split split' identity same =
      let alike : t ≡ u =
        canonical identity t 0 0 holds.shape u (omega arith) holds'.shape split split' (λ q.
          some_inj (Model.get t (hash_of q) q 0) (Model.get u (hash_of q) q 0)
            (rw (get_ok S law m t q holds, get_ok R law' n u q holds') at (same q))) in
      (
        holds.size_lem ∙ rw alike (sym holds'.size_lem),
        adhash_ok S law m t holds ∙ rw alike (sym (adhash_ok R law' n u holds')),
        (at_first t, iter_run S law m t holds, rw alike (iter_run R law' n u holds')),
      )
