-- ===== src/Ops/Remove/Bucket.antt =====
-- `remove_from_collision` on the entries of a collision node.
use native.Mathlib.Nat.{add-zero}
use mathlib.Core.List.{append-nil}
use champ_trie.Prelude.{
  ℕ, suc, ◌+◌, ◌-◌, ◌≤◌, ◌≡◌, ◌≢◌, refl, ap, sym, ◌∙◌, true, false, none, some, List, [], ◌∷◌, ◌++◌,
  length, length-append, erase_at, get_elem?, get_elem?-append_right, arith, ◌==◌, ==_iff,
  Bool-cases, inl, inr,
}
use champ_trie.Bits.{wrapping_sub}
use champ_trie.Hashing.{Hash, Key}
use champ_trie.Node.{Entry, Node, Idx, offset}
use champ_trie.Store.{ChampStore, IsChampStore}
use champ_trie.Store.Block.{Block}
use champ_trie.Store.Views.{Block-grows, Extends-trans}
use champ_trie.Ops.Blocks.Builds.{entries_removing_ok}
use champ_trie.Ops.Insert.{contribution}
use champ_trie.Ops.Insert.Bucket.{assoc_last, length-append_last}
use champ_trie.Ops.Remove.{remove_from_entries}
use champ_trie.Ops.Remove.Outcomes.{Returned, Rest, sum-drop}
use champ_trie.Ops.Single.{single, single_node, single_stored, single_entries}
use champ_trie.Ops.Rebuild.{inner_node}
use champ_trie.Ops.Steps.{
  get_entry_ok, clone_entry_ok, alloc_entries_ok, alloc_node_ok, node_store, entries_store,
  node-Extends, node_stored, entries-Extends, entries_stored,
}
use champ_trie.Trie.{collision}
use champ_trie.Trie.Weight.{weigh_list, weigh_list-append}
use champ_trie.Trie.Remove.{bucket, bucket_removal, pick, drop_key}
use champ_trie.Trie.Repr.{sum_of, share}

module _ {ℓ} {A : Type ℓ} where
  erase_at-append :
      (pre rest : List A) (x : A) → erase_at (pre ++ x ∷ rest) (length pre) ≡ pre ++ rest
  erase_at-append [] rest x = refl
  erase_at-append (a ∷ pre) rest x = ap (◌∷◌ a) (erase_at-append pre rest x)

  -- Of two elements, the other one.
  other_one :
      (pre rest : List A) (x : A)
      → length (pre ++ x ∷ rest) ≡ 2
      → (y : A) × (pre ++ rest ≡ y ∷ []) × (get_elem? (pre ++ x ∷ rest) (1 - length pre) ≡ some y)
  other_one [] [] x l = absurd (omega arith)
  other_one [] (y ∷ []) x l = (y, refl, refl)
  other_one [] (y ∷ z ∷ rest) x l = absurd (omega arith)
  other_one (y ∷ []) [] x l = (y, refl, refl)
  other_one (y ∷ []) (z ∷ rest) x l = absurd (omega arith)
  other_one (y ∷ z ∷ pre) rest x l = absurd (omega (arith, length-append pre (x ∷ rest)))

module _ {ℓ} {K V : Type ℓ} ⦃key : Key K⦄ where
  pick_past :
      (pre rest : List (Entry K V)) (k : K) → pick pre k ≡ none → pick (pre ++ rest) k ≡ pick rest k
  pick_past [] rest k h = refl
  pick_past (x ∷ pre) rest k h = elim (Bool-cases (key.equal x.key k)) [
    | inl c ↦ absurd (not_none x (rw c at h))
    | inr c ↦ rw c (pick_past pre rest k (rw c at h))
  ]
    where
      not_none : (v : Entry K V) → some v ≡ none → ⊥
      not_none v p = ground arith

  drop_past :
      (pre rest : List (Entry K V)) (k : K)
      → pick pre k ≡ none
      → drop_key (pre ++ rest) k ≡ pre ++ drop_key rest k
  drop_past [] rest k h = refl
  drop_past (x ∷ pre) rest k h = elim (Bool-cases (key.equal x.key k)) [
    | inl c ↦ absurd (not_none x (rw c at h))
    | inr c ↦ rw c (ap (◌∷◌ x) (drop_past pre rest k (rw c at h)))
  ]
    where
      not_none : (v : Entry K V) → some v ≡ none → ⊥
      not_none v p = ground arith

  bucket_many :
      (hash : ℕ) (es : List (Entry K V)) → 2 ≤ length es → bucket hash es ≡ collision hash es
  bucket_many hash [] l = absurd (omega arith)
  bucket_many hash (x ∷ []) l = absurd (omega arith)
  bucket_many hash (x ∷ y ∷ es) l = refl

module _ {ℓ} {K V : Type ℓ} ⦃key : Key K⦄ ⦃h : Hash V⦄ (S : ChampStore K V)
    (law : IsChampStore S) where
  open S use {Store}
  open law use {view}

  module _ (s : Store) (hash : ℕ) (start : Idx) (es : List (Entry K V)) (k : K)
      (b : Block (view s).entries start es) where
    abbrev sum : ℕ
    sum = sum_of (collision hash es)

    module _ (x : Entry K V) (pre rest : List (Entry K V)) (p : es ≡ pre ++ x ∷ rest)
        (found : key.equal x.key k ≡ true) where
      abbrev es' : List (Entry K V)
      es' = pre ++ rest

      abbrev s1 : Store
      s1 = entries_store S law s es'

      abbrev fewer : Node
      fewer =
          Node.collision hash (length (view s).entries) (length es') (sum_of (collision hash es'))

      at : get_elem? es (length pre) ≡ some x
      at = rw p (rw add-zero at (get_elem?-append_right pre (x ∷ rest) 0))

      fewer_length : suc (length es') ≡ length es
      fewer_length = rw p (omega (arith, length-append pre (x ∷ rest), length-append pre rest))

      fewer_sum : wrapping_sub sum (contribution x) ≡ sum_of (collision hash es')
      fewer_sum =
          let w : weigh_list share es
              ≡ weigh_list share pre + (share x.hash x.value + weigh_list share rest) =
            rw p (weigh_list-append share pre (x ∷ rest)) in
          sum-drop (collision hash es) (collision hash es') x
            (omega (arith, w, weigh_list-append share pre rest))

      two_ok :
          (rounds : ℕ)
          → (length es == 2) ≡ true
          → Rest S law s x
              (bucket hash es')
              (remove_from_entries S (suc rounds) (length pre) hash start (length es) sum k s)
      unfolding remove_from_entries
      two_ok rounds two =
          let (y, alone, there) = other_one pre rest x (ap length (sym p) ∙ (==_iff _ 2).0 two) in
          let other : get_elem? es (1 - length pre) ≡ some y =
            ap (λ l. get_elem? l (1 - length pre)) p ∙ there in
          let node = inner_node (single y) (length (view s).entries) 0 in
          rw
            (
              get_entry_ok S law s (offset start (length pre)) x (b (length pre) x at),
              found,
              two,
              alone,
              clone_entry_ok S law s (offset start (1 - length pre)) y (b (1 - length pre) y other),
              alloc_entries_ok S law s (y ∷ []) (omega arith),
              single_node y (length (view s).entries),
              alloc_node_ok S law (single_entries S law s y) node,
            )
            (record {
              index = _;
              after = node_store S law (single_entries S law s y) node;
              returns = refl;
              extends =
                  Extends-trans (entries-Extends S law s (y ∷ []))
                    (node-Extends S law (single_entries S law s y) node);
              repr = single_stored S law s y;
            })

      more_ok :
          (rounds : ℕ)
          → (length es == 2) ≡ false
          → 2 ≤ length es'
          → Rest S law s x
              (bucket hash es')
              (remove_from_entries S (suc rounds) (length pre) hash start (length es) sum k s)
      unfolding remove_from_entries
      more_ok rounds more many =
          let erased : erase_at es (length pre) ≡ es' = rw p (erase_at-append pre rest x) in
          let short : length es - 1 ≡ length es' = omega (arith, fewer_length) in
          let g = node-Extends S law s1 fewer in
          rw
            (
              get_entry_ok S law s (offset start (length pre)) x (b (length pre) x at),
              found,
              more,
              bucket_many hash es' many,
              entries_removing_ok S law s start es b (length pre) (omega (arith, fewer_length)),
              erased,
              alloc_entries_ok S law s es' (omega (arith, many)),
              short,
              fewer_sum,
              alloc_node_ok S law s1 fewer,
            )
            (record {
              index = _;
              after = node_store S law s1 fewer;
              returns = refl;
              extends = Extends-trans (entries-Extends S law s es') g;
              repr = record {
                entries_start = length (view s).entries;
                node_at = node_stored S law s1 fewer;
                entries_at =
                    Block-grows (view s1).entries (length (view s).entries) es' g.entries_grow
                      (entries_stored S law s es');
              };
            })

      found_ok :
          (rounds : ℕ)
          → 2 ≤ length es
          → Rest S law s x
              (bucket hash es')
              (remove_from_entries S (suc rounds) (length pre) hash start (length es) sum k s)
      found_ok rounds many = elim (Bool-cases (length es == 2)) [
        | inl c ↦ two_ok rounds c
        | inr c ↦ more_ok rounds c (omega (arith, fewer_length, not_two c))
      ]
        where
          not_two : (length es == 2) ≡ false → length es ≢ 2
          not_two c e = ground (arith, rw e at c)

    search_ok :
        (rest pre : List (Entry K V)) (i : ℕ)
        → es ≡ pre ++ rest
        → i ≡ length pre
        → pick pre k ≡ none
        → 2 ≤ length es
        → Returned S law s
            (bucket_removal hash (drop_key es k) (pick es k))
            (remove_from_entries S (length rest) i hash start (length es) sum k s)
    unfolding remove_from_entries
    search_ok [] pre i p q f many =
        let nothing : pick es k ≡ none = rw (p, append-nil pre) f in rw nothing refl
    search_ok (x ∷ rest) pre i p q f many = elim (Bool-cases (key.equal x.key k)) [
      | inl c ↦
          let here : pick es k ≡ some x =
            ap (λ l. pick l k) p ∙ pick_past pre (x ∷ rest) k f ∙ rw c refl in
          let left : drop_key es k ≡ pre ++ rest =
            ap (λ l. drop_key l k) p ∙ drop_past pre (x ∷ rest) k f ∙ rw c refl in
          rw (here, left, q) (found_ok x pre rest p c (length rest) many)
      | inr c ↦
          rw (get_entry_ok S law s (offset start i) x (b i x (rw q (at_past x rest pre p))), c)
            (search_ok rest (pre ++ x ∷ []) (i + 1) (p ∙ assoc_last pre rest x)
              (omega (arith, q, length-append_last pre x)) (pick_past pre (x ∷ []) k f ∙ rw c refl)
              many)
    ]
      where
        at_past :
            (x : Entry K V) (rest pre : List (Entry K V))
            → es ≡ pre ++ x ∷ rest
            → get_elem? es (length pre) ≡ some x
        at_past x rest pre p = rw p (rw add-zero at (get_elem?-append_right pre (x ∷ rest) 0))

    -- On the entries of a collision node, two at least: the search of `remove_from_collision`
    -- returns that nothing is found, or the removed entry and a node of the others, which is an
    -- inner node when one entry is left.
    pub bucket_removed :
        2 ≤ length es
        → Returned S law s
            (bucket_removal hash (drop_key es k) (pick es k))
            (remove_from_entries S (length es) 0 hash start (length es) sum k s)
    bucket_removed many = search_ok es [] 0 refl refl refl many
