-- ===== src/Ops/Insert/Subtree.antt =====
-- `create_subtree` against the tree that joins two entries.
use native.Mathlib.Decide.{ℕ_discrete, dec_lt}
use champ_trie.Prelude.{
  ℕ, zero, suc, ◌+◌, ◌-◌, ◌*◌, ◌<◌, ◌≡◌, ◌≢◌, refl, sym, true, false, bit_or, List, [], ◌∷◌, Run,
  ok, length, arith, if◌then◌else◌, Bool-cases, inl, inr, ==_iff, ==_ne, ltb,
}
use champ_trie.Bits.{wrapping_add}
use champ_trie.Hashing.{Hash, Key}
use champ_trie.Node.{Entry, Node, Idx, fragment, mask, bits_per_level}
use champ_trie.Node
use champ_trie.Node.Bitmap.{fragment-lt}
use champ_trie.Store.{ChampStore, IsChampStore, Extends}
use champ_trie.Store.Views.{Block-grows, Extends-trans}
use champ_trie.Ops.Insert.{contribution, create_subtree}
use champ_trie.Ops.Insert.Sums.{contribution_lem}
use champ_trie.Ops.Steps.{
  get_node_ok, alloc_entries_ok, alloc_children_ok, alloc_node_ok, node_store, node_stored,
  entries_store, children_store, node-Extends, entries-Extends, children-Extends, entries_stored,
  children_stored,
}
use champ_trie.Ops.Rebuild.{inner_node, inner_stored}
use champ_trie.Trie.{Trie, Slots, inner, collision, entry, subtree, put, no_slots, items}
use champ_trie.Trie.Positions.{
  slot_at-no_slots, items-put_keep, items-no_slots, items-no_slots_two, slot_at-put_ne,
}
use champ_trie.Trie.Model.{join, join_deep, join_same, join_apart}
use champ_trie.Trie.Fresh.{Block-nil, one_node, one_node_data, two_data, two_data_nodes}
use champ_trie.Trie.Weight.{weigh, weigh-join_same, weigh-join_apart}
use champ_trie.Trie.Repr.{
  Repr, AreKids-extends, keep_kids, sum_of, share, stored_sum, AreKids-no_slots, one_kid,
}

module _ {ℓ} {K V : Type ℓ} ⦃key : Key K⦄ ⦃h : Hash V⦄ (S : ChampStore K V)
    (law : IsChampStore S) where
  open S use {Store}
  open law use {view}

  -- The run allocates a tree in a grown store.
  pub record Made (s : Store) (t : Trie K V) (run : Run Store Idx) : Type ℓ where
    pub index : Idx
    pub after : Store
    pub returns : run ≡ ok index after
    pub extends : Extends (view s) (view after)
    pub repr : Repr (view after) index t

  module _ (s : Store) (e1 e2 : Entry K V) where
    abbrev two : List (Entry K V)
    two = e1 ∷ e2 ∷ []

    abbrev bucket : Node
    bucket = Node.collision e1.hash (length (view s).entries) 2 (sum_of (collision e1.hash two))

    two_sum :
        (t : Trie K V)
        → weigh share t ≡ share e1.hash e1.value + share e2.hash e2.value
        → wrapping_add (contribution e1) (contribution e2) ≡ sum_of t
    two_sum t w = omega (arith, w, contribution_lem e1, contribution_lem e2)

    deep_run :
        (fuel shift : ℕ)
        → ltb 60 shift ≡ true
        → create_subtree S (suc fuel) e1 e2 shift s
          ≡ ok
              (length (view (entries_store S law s two)).nodes)
              (node_store S law (entries_store S law s two) bucket)
    unfolding create_subtree
    deep_run fuel shift d =
        rw
          (
            d,
            alloc_entries_ok S law s two (omega arith),
            two_sum (collision e1.hash two) (omega arith),
            alloc_node_ok S law (entries_store S law s two) bucket,
          )
          refl

    deep_ok :
        (fuel shift : ℕ)
        → ltb 60 shift ≡ true
        → Made s (collision e1.hash two) (create_subtree S (suc fuel) e1 e2 shift s)
    deep_ok fuel shift d =
        let s1 = entries_store S law s two in
        let x = node-Extends S law s1 bucket in
        record {
          index = _;
          after = node_store S law s1 bucket;
          returns = deep_run fuel shift d;
          extends = Extends-trans (entries-Extends S law s two) x;
          repr = record {
            entries_start = length (view s).entries;
            node_at = node_stored S law s1 bucket;
            entries_at =
                Block-grows (view s1).entries (length (view s).entries) two x.entries_grow
                  (entries_stored S law s two);
          };
        }

    -- Two positions apart.
    module _ (shift : ℕ) (shallow : ltb 60 shift ≡ false)
        (apart : fragment e1.hash shift ≢ fragment e2.hash shift) where
      abbrev f1 : ℕ
      f1 = fragment e1.hash shift

      abbrev f2 : ℕ
      f2 = fragment e2.hash shift

      abbrev pair : Slots K V
      pair = put (put no_slots f1 (entry e1)) f2 (entry e2)

      abbrev one : Slots K V
      one = put no_slots f1 (entry e1)

      abbrev s2 : Store
      s2 = entries_store S law s (items pair)

      in_order : (if ltb f1 f2 then two else e2 ∷ e1 ∷ []) ≡ items pair
      in_order = sym (
          items-no_slots_two f1 f2 e1 e2 (fragment-lt e1.hash shift) (fragment-lt e2.hash shift)
            apart)

      in_order-length : length (items pair) ≡ 2
      in_order-length =
          rw (← in_order) (elim (Bool-cases (ltb f1 f2)) [ inl c ↦ rw c | inr c ↦ rw c ])

      apart_node :
          Node.inner
            (bit_or (mask f1) (mask f2))
            0
            (length (view s).entries)
            0
            (wrapping_add (contribution e1) (contribution e2))
          ≡ inner_node pair (length (view s).entries) 0
      apart_node =
          rw
            (
              two_data f1 (fragment-lt e1.hash shift) f2 (fragment-lt e2.hash shift) apart e1 e2,
              two_data_nodes f1 (fragment-lt e1.hash shift) f2 (fragment-lt e2.hash shift) apart e1
                  e2,
              two_sum (inner pair) (
                  weigh-join_apart share e1 e2 f1 f2 (fragment-lt e1.hash shift)
                    (fragment-lt e2.hash shift) apart),
            )
            refl

      apart_run :
          (fuel : ℕ)
          → create_subtree S (suc fuel) e1 e2 shift s
            ≡ ok
                (length (view s2).nodes)
                (node_store S law s2 (inner_node pair (length (view s).entries) 0))
      unfolding create_subtree
      apart_run fuel =
          rw
            (
              shallow,
              ==_ne _ _ apart,
              in_order,
              alloc_entries_ok S law s (items pair) (omega (arith, in_order-length)),
              apart_node,
              alloc_node_ok S law s2 (inner_node pair (length (view s).entries) 0),
            )
            refl

      apart_ok : (fuel : ℕ) → Made s (inner pair) (create_subtree S (suc fuel) e1 e2 shift s)
      apart_ok fuel =
          let n = inner_node pair (length (view s).entries) 0 in
          record {
            index = _;
            after = node_store S law s2 n;
            returns = apart_run fuel;
            extends =
                Extends-trans (entries-Extends S law s (items pair)) (node-Extends S law s2 n);
            repr =
                inner_stored S law s2 pair [] (length (view s).entries) 0
                  (entries_stored S law s (items pair)) (Block-nil (view s2).children 0)
                  (keep_kids (view s2) [] one f2 (entry e2)
                    (keep_kids (view s2) [] no_slots f1 (entry e1) (AreKids-no_slots (view s2)) refl
                      (rw (slot_at-no_slots f1) refl))
                    refl
                    (rw (slot_at-put_ne no_slots f1 f2 (entry e1) apart, slot_at-no_slots f2)
                      refl));
          }

    -- One position for both: a child alone in its node.
    module _ (shift : ℕ) (shallow : ltb 60 shift ≡ false)
        (together : fragment e1.hash shift ≡ fragment e2.hash shift) (fuel : ℕ) (t : Trie K V)
        (made : Made s t (create_subtree S fuel e1 e2 (shift + 5) s)) where
      abbrev f : ℕ
      f = fragment e1.hash shift

      abbrev lone : Slots K V
      lone = put no_slots f (subtree t)

      abbrev after_child : Store
      after_child = made.after

      abbrev s3 : Store
      s3 = children_store S law after_child (made.index ∷ [])

      abbrev parent : Node
      parent = inner_node lone 0 (length (view after_child).children)

      same_node :
          (n : Node)
          → Node.adhash n ≡ sum_of t
          → Node.inner 0 (mask f) 0 (length (view after_child).children) (Node.adhash n) ≡ parent
      same_node n e =
          rw
            (
              one_node f (fragment-lt e1.hash shift) t,
              one_node_data f (fragment-lt e1.hash shift) t,
              e,
              weigh-join_same share t f (fragment-lt e1.hash shift),
            )
            refl

      lone-items : items lone ≡ []
      lone-items =
          rw (items-put_keep no_slots f (subtree t) refl (rw (slot_at-no_slots f)))
            (items-no_slots K V)

      same_run :
          create_subtree S (suc fuel) e1 e2 shift s
          ≡ ok (length (view s3).nodes) (node_store S law s3 parent)
      unfolding create_subtree
      same_run =
          let (n, at, sum) = stored_sum (view after_child) made.index t made.repr in
          rw
            (
              shallow,
              (==_iff _ _).1 together,
              made.returns,
              get_node_ok S law after_child made.index n at,
              alloc_children_ok S law after_child (made.index ∷ []) (omega arith),
              same_node n sum,
              alloc_node_ok S law s3 parent,
            )
            refl

      same_ok : Made s (inner lone) (create_subtree S (suc fuel) e1 e2 shift s)
      same_ok =
          let x = children-Extends S law after_child (made.index ∷ []) in
          record {
            index = _;
            after = node_store S law s3 parent;
            returns = same_run;
            extends = Extends-trans made.extends (Extends-trans x (node-Extends S law s3 parent));
            repr =
                inner_stored S law s3 lone (made.index ∷ []) 0 (length (view after_child).children)
                  (rw lone-items (Block-nil (view s3).entries 0))
                  (children_stored S law after_child (made.index ∷ []))
                  (AreKids-extends x lone (made.index ∷ []) (
                    one_kid (view after_child) f t made.index (fragment-lt e1.hash shift)
                      made.repr));
          }

  -- With fuel for the levels that are left, `create_subtree` returns, the arenas only grow, and
  -- the returned node represents the tree that joins the two entries: a chain of nodes down to the
  -- level where their hashes differ, or to a collision node.
  pub create_subtree_ok :
      (fuel n : ℕ) (s : Store) (e1 e2 : Entry K V) (shift : ℕ)
      → n < fuel
      → shift + 5 * n ≡ 65
      → Made s (join fuel e1 e2 shift) (create_subtree S fuel e1 e2 shift s)
  create_subtree_ok zero n s e1 e2 shift b l = absurd (omega arith)
  create_subtree_ok (suc fuel) n s e1 e2 shift b l = elim (dec_lt 60 shift) [
    | yes deep ↦ rw (join_deep fuel e1 e2 shift deep) (deep_ok s e1 e2 fuel shift (ground arith))
    | no shallow ↦ elim (ℕ_discrete (fragment e1.hash shift) (fragment e2.hash shift)) [
      | yes d ↦ rw (join_same fuel e1 e2 shift (omega arith) d) (
          same_ok s e1 e2 shift (ground arith) d fuel (join fuel e1 e2 (shift + 5))
            (create_subtree_ok fuel (n - 1) s e1 e2 (shift + 5) (omega arith) (omega arith)))
      | no d ↦
          rw (join_apart fuel e1 e2 shift (omega arith) d)
            (apart_ok s e1 e2 shift (ground arith) d fuel)
    ]
  ]
