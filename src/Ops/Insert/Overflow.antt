-- ===== src/Ops/Insert/Overflow.antt =====
-- `insert_into_collision` on a full collision node.
use champ_trie.Prelude.{
  some_ne_none, ℕ, ◌+◌, ◌≡◌, refl, false, none, List, [], ◌∷◌, panic, length, Bool-cases, inl, inr,
  arith,
}
use native.Mathlib.Nat.{add-zero}
use champ_trie.Hashing.{Hash, Key}
use champ_trie.Node.{Entry, offset}
use champ_trie.Store.{ChampStore, IsChampStore}
use champ_trie.Store.Block.{Block, Block-tail}
use champ_trie.Ops.Insert.{append_to_collision, insert_into_collision}
use champ_trie.Ops.Steps.{get_entry_ok}
use champ_trie.Trie.Model.{find}

module _ {ℓ} {K V : Type ℓ} ⦃key : Key K⦄ where
  find-none_head :
      (x : Entry K V) (es : List (Entry K V)) (k : K)
      → find (x ∷ es) k ≡ none
      → key.equal x.key k ≡ false
  unfolding find
  find-none_head x es k h = elim (Bool-cases (key.equal x.key k)) [
    | inl c ↦ absurd (some_ne_none x.value (rw c at h))
    | inr c ↦ c
  ]

  find-none_tail :
      (x : Entry K V) (es : List (Entry K V)) (k : K)
      → key.equal x.key k ≡ false
      → find (x ∷ es) k ≡ none
      → find es k ≡ none
  unfolding find
  find-none_tail x es k c h = rw c at h

module _ {ℓ} {K V : Type ℓ} ⦃key : Key K⦄ ⦃h : Hash V⦄ (S : ChampStore K V) (law : IsChampStore S)
    (s : S.Store) (hash start sum : ℕ) (e : Entry K V) where
  search_panics :
      (rest : List (Entry K V)) (i : ℕ)
      → Block (law.view s).entries (start + i) rest
      → find rest e.key ≡ none
      → insert_into_collision S (length rest) i hash start 255 sum e s ≡ panic
  unfolding insert_into_collision append_to_collision
  search_panics [] i b f = refl
  search_panics (x ∷ rest) i b f =
      let c = find-none_head x rest e.key f in
      let next : start + i + 1 ≡ start + (i + 1) = omega arith in
      rw (get_entry_ok S law s (offset start i) x (rw add-zero at (b 0 x refl)), c)
        (search_panics rest (i + 1)
          (rw next at (Block-tail (law.view s).entries (start + i) x rest b))
          (find-none_tail x rest e.key c f))

  -- On a collision node of 255 entries, `insert_into_collision` with a key that none of them has
  -- panics.
  pub bucket_panics :
      (es : List (Entry K V))
      → Block (law.view s).entries start es
      → length es ≡ 255
      → find es e.key ≡ none
      → insert_into_collision S (length es) 0 hash start (length es) sum e s ≡ panic
  bucket_panics es b full f =
      let run = search_panics es 0 (rw add-zero b) f in rw full (rw full at run)
