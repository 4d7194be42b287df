-- ===== src/Ops/Insert/Bucket.antt =====
-- `insert_into_collision` on the entries of a collision node.
use champ_trie.Prelude.{
  ap₂, get_elem?-append_right, ℕ, zero, suc, ◌+◌, ◌≡◌, refl, ap, sym, ◌∙◌, true, false, Option,
  none, some, List, [], ◌∷◌, ◌++◌, Run, ok, pure, expect, ◌>>=◌, take_all, length, set, get_elem?,
  get_elem?-lt, length-set, Bool-cases, inl, inr, arith, ◌==◌, ◌&&◌,
}
use native.Mathlib.Nat.{add-zero}
use champ_trie.Bits.{wrapping_add, wrapping_sub}
use champ_trie.Hashing.{Hash, Key}
use champ_trie.Node.{Entry, Node, Idx, offset}
use champ_trie.Store.{ChampStore, IsChampStore}
use champ_trie.Store.Block.{Block}
use champ_trie.Store.Views.{Block-grows, Extends-trans}
use champ_trie.Ops.Blocks.{clone_entry, build_entries_replacing}
use champ_trie.Ops.Blocks.Builds.{entries_replacing_ok}
use champ_trie.Ops.Blocks.Loops.{copy_range_lem}
use champ_trie.Ops.{alloc_node, alloc_entries}
use mathlib.Core.List.{append-nil}
use champ_trie.Ops.Insert.{InsertOutcome, contribution, append_to_collision, insert_into_collision}
use champ_trie.Ops.Insert.Slots.{Inserted}
use champ_trie.Ops.Insert.Sums.{contribution-lt, contribution_lem}
use champ_trie.Ops.Steps.{
  get_entry_ok, clone_entry_ok, alloc_entries_ok, alloc_node_ok, node_store, entries_store,
  node-Extends, node_stored, entries-Extends, entries_stored,
}
use champ_trie.Trie.{collision}
use champ_trie.Trie.Model.{is_none, find, upsert}
use champ_trie.Trie.Weight.{weigh_list, weigh_list-append}
use champ_trie.Trie.Repr.{sum_of, share}

-- Past entries of other keys the search goes on.
module _ {ℓ} {K V : Type ℓ} ⦃key : Key K⦄ where
  upsert-append :
      (pre rest : List (Entry K V)) (e : Entry K V)
      → find pre e.key ≡ none
      → upsert (pre ++ rest) e ≡ pre ++ upsert rest e
  unfolding find upsert
  upsert-append [] rest e h = refl
  upsert-append (x ∷ pre) rest e h = elim (Bool-cases (key.equal x.key e.key)) [
    | inl c ↦ absurd (not_none x.value (rw c at h))
    | inr c ↦ rw c (ap (◌∷◌ x) (upsert-append pre rest e (rw c at h)))
  ]
    where
      not_none : (v : V) → some v ≡ none → ⊥
      not_none v p = ground arith

  find-append :
      (pre rest : List (Entry K V)) (k : K) → find pre k ≡ none → find (pre ++ rest) k ≡ find rest k
  unfolding find
  find-append [] rest k h = refl
  find-append (x ∷ pre) rest k h = elim (Bool-cases (key.equal x.key k)) [
    | inl c ↦ absurd (not_none x.value (rw c at h))
    | inr c ↦ rw c (find-append pre rest k (rw c at h))
  ]
    where
      not_none : (v : V) → some v ≡ none → ⊥
      not_none v p = ground arith

  upsert_here :
      (x : Entry K V) (rest : List (Entry K V)) (e : Entry K V)
      → key.equal x.key e.key ≡ true
      → upsert (x ∷ rest) e ≡ e ∷ rest
  unfolding upsert
  upsert_here x rest e c = rw c

  find_here :
      (x : Entry K V) (rest : List (Entry K V)) (k : K)
      → key.equal x.key k ≡ true
      → find (x ∷ rest) k ≡ some x.value
  unfolding find
  find_here x rest k c = rw c

  find_past : (x : Entry K V) (k : K) → key.equal x.key k ≡ false → find (x ∷ []) k ≡ none
  unfolding find
  find_past x k c = rw c

  roomy :
      (es : List (Entry K V)) (e : Entry K V)
      → find es e.key ≡ none
      → (length es == 255 && is_none (find es e.key)) ≡ false
      → (length es == 255) ≡ false
  roomy es e gone room = elim (Bool-cases (length es == 255)) [
    | inl c ↦ absurd (true_ne_false (rw (c, gone) at room))
    | inr c ↦ c
  ]
    where
      true_ne_false : true ≡ false → ⊥
      true_ne_false p = ground arith

module _ {ℓ} {A : Type ℓ} where
  set-append :
      (pre rest : List A) (x y : A) → set (pre ++ x ∷ rest) (length pre) y ≡ pre ++ y ∷ rest
  set-append [] rest x y = refl
  set-append (a ∷ pre) rest x y = ap (◌∷◌ a) (set-append pre rest x y)

  pub assoc_last : (pre rest : List A) (x : A) → pre ++ x ∷ rest ≡ (pre ++ x ∷ []) ++ rest
  assoc_last [] rest x = refl
  assoc_last (a ∷ pre) rest x = ap (◌∷◌ a) (assoc_last pre rest x)

  pub length-append_last : (pre : List A) (x : A) → length (pre ++ x ∷ []) ≡ length pre + 1
  length-append_last [] x = refl
  length-append_last (a ∷ pre) x = omega (arith, length-append_last pre x)

module _ {ℓ} {K V : Type ℓ} (w : ℕ → V → ℕ) where
  weigh_list-set :
      (es : List (Entry K V)) (i : ℕ) (x e : Entry K V)
      → get_elem? es i ≡ some x
      → weigh_list w (set es i e) + w x.hash x.value ≡ weigh_list w es + w e.hash e.value
  weigh_list-set [] i x e h = absurd (ground arith)
  weigh_list-set (y ∷ es) zero x e h = rw (some_inj h) (omega arith)
    where
      some_inj : some y ≡ some x → y ≡ x
      some_inj p = ap (λ o. elim o [ none ↦ y | some z ↦ z ]) p
  weigh_list-set (y ∷ es) (suc i) x e h = omega (arith, weigh_list-set es i x e h)

module _ {ℓ} {K V : Type ℓ} ⦃key : Key K⦄ ⦃h : Hash V⦄ (S : ChampStore K V)
    (law : IsChampStore S) where
  open S use {Store}
  open law use {view}

  module _ (s : Store) (hash : ℕ) (start : Idx) (es : List (Entry K V)) (e : Entry K V)
      (b : Block (view s).entries start es) where
    abbrev sum : ℕ
    sum = sum_of (collision hash es)

    -- A node over new entries.
    module _ (es' : List (Entry K V)) where
      abbrev s1 : Store
      s1 = entries_store S law s es'

      abbrev bucket : Node
      bucket =
          Node.collision hash (length (view s).entries) (length es') (sum_of (collision hash es'))

      abbrev s2 : Store
      s2 = node_store S law s1 bucket

      stored_ok :
          (delta : ℕ) (old old' : Option V) (run : Run Store (InsertOutcome V))
          → run
            ≡ ok
                (record { node = length (view s1).nodes; adhash_delta = delta; old_value = old })
                s2
          → wrapping_add sum delta ≡ sum_of (collision hash es')
          → old ≡ old'
          → Inserted S law s (collision hash es) (collision hash es') old' run
      stored_ok delta old old' run r d o =
          let x = node-Extends S law s1 bucket in
          record {
            out = _;
            after = s2;
            returns = r;
            extends = Extends-trans (entries-Extends S law s es') x;
            repr = record {
              entries_start = length (view s).entries;
              node_at = node_stored S law s1 bucket;
              entries_at =
                  Block-grows (view s1).entries (length (view s).entries) es' x.entries_grow
                    (entries_stored S law s es');
            };
            delta = d;
            old_lem = o;
          }

    -- The key stands at `i`.
    found_ok :
        (i : ℕ) (x : Entry K V)
        → get_elem? es i ≡ some x
        → find es e.key ≡ some x.value
        → Inserted S law s (collision hash es) (collision hash (set es i e)) (find es e.key) (
            (do
              entries ← build_entries_replacing S start (length es) i e
              block ← alloc_entries S entries
              new_start ← expect block
              new_node ← alloc_node S (
                  Node.collision hash new_start
                    (length es)
                    (wrapping_add sum (wrapping_sub (contribution e) (contribution x))))
              pure (record {
                node = new_node;
                adhash_delta = wrapping_sub (contribution e) (contribution x);
                old_value = some x.value;
              }))
              s)
    found_ok i x at f =
        let es' = set es i e in
        let delta = wrapping_sub (contribution e) (contribution x) in
        let total : wrapping_add sum delta ≡ sum_of (collision hash es') = omega (
          arith,
          weigh_list-set share es i x e at,
          contribution_lem e,
          contribution_lem x,
          contribution-lt e,
          contribution-lt x,
        ) in
        let l : length es' ≡ length es = length-set es i e in
        stored_ok es' delta (some x.value) (find es e.key) _
          (rw
            (
              entries_replacing_ok S law s start es b i e (get_elem?-lt es i at),
              alloc_entries_ok S law s es' (omega (arith, l, get_elem?-lt es i at)),
              total,
              ← l,
              alloc_node_ok S law (s1 es') (bucket es'),
            )
            refl)
          total (sym f)

    append_ok :
        find es e.key ≡ none
        → (length es == 255) ≡ false
        → Inserted S law s
            (collision hash es)
            (collision hash (es ++ e ∷ []))
            (find es e.key)
            (append_to_collision S hash start (length es) sum e s)
    unfolding append_to_collision
    append_ok f room =
        let es' = es ++ e ∷ [] in
        let total : wrapping_add sum (contribution e) ≡ sum_of (collision hash es') =
          omega (arith, weigh_list-append share es (e ∷ []), contribution_lem e) in
        let l = length-append_last es e in
        stored_ok es' (contribution e) none (find es e.key) _
          (rw
            (
              room,
              copy_range_lem (clone_entry S) s (view s).entries (clone_entry_ok S law s) (length es)
                  start 0 es (rw add-zero b) (omega arith),
              take_all (length es) es (omega arith),
              alloc_entries_ok S law s es' (omega (arith, l)),
              total,
              ← l,
              alloc_node_ok S law (s1 es') (bucket es'),
            )
            refl)
          total (sym f)

    search_ok :
        (rest pre : List (Entry K V)) (i : ℕ)
        → es ≡ pre ++ rest
        → i ≡ length pre
        → find pre e.key ≡ none
        → (length es == 255 && is_none (find es e.key)) ≡ false
        → Inserted S law s
            (collision hash es)
            (collision hash (upsert es e))
            (find es e.key)
            (insert_into_collision S (length rest) i hash start (length es) sum e s)
    unfolding insert_into_collision
    search_ok [] pre i p q f room =
        let whole : es ≡ pre = p ∙ append-nil pre in
        let gone : find es e.key ≡ none = rw whole f in
        let last : upsert es e ≡ es ++ e ∷ [] =
          ap (λ l. upsert l e) (sym (append-nil es))
          ∙ upsert-append es [] e gone
          ∙ (unfold upsert in refl) in
        rw last (append_ok gone (roomy es e gone room))
    search_ok (x ∷ rest) pre i p q f room =
        let at : get_elem? es i ≡ some x =
          rw (p, q) (rw add-zero at (get_elem?-append_right pre (x ∷ rest) 0)) in
        rw (get_entry_ok S law s (offset start i) x (b i x at))
          (elim (Bool-cases (key.equal x.key e.key)) [
            | inl c ↦
                let here : find es e.key ≡ some x.value =
                  ap (λ l. find l e.key) p
                  ∙ find-append pre (x ∷ rest) e.key f
                  ∙ find_here x rest e.key c in
                let there : upsert es e ≡ set es i e =
                  ap (λ l. upsert l e) p
                  ∙ upsert-append pre (x ∷ rest) e f
                  ∙ ap (◌++◌ pre) (upsert_here x rest e c)
                  ∙ sym (set-append pre rest x e)
                  ∙ ap₂ (λ l n. set l n e) (sym p) (sym q) in
                rw (c, there) (found_ok i x at here)
            | inr c ↦ rw c (
                search_ok rest (pre ++ x ∷ []) (i + 1) (p ∙ assoc_last pre rest x)
                  (omega (arith, q, length-append_last pre x))
                  (find-append pre (x ∷ []) e.key f ∙ find_past x e.key c) room)
          ])

    -- On the entries of a collision node, when the key is among them or there are not 255 of them:
    -- `insert_into_collision` returns, the arenas only grow, and the returned node holds the
    -- entries with the new one in place of that of its key, or at the end, with the change of the
    -- sum and the old value.
    pub bucket_ok :
        (length es == 255 && is_none (find es e.key)) ≡ false
        → Inserted S law s
            (collision hash es)
            (collision hash (upsert es e))
            (find es e.key)
            (insert_into_collision S (length es) 0 hash start (length es) sum e s)
    bucket_ok room = search_ok es [] 0 refl refl (unfold find in refl) room
