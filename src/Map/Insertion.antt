-- ===== src/Map/Insertion.antt =====
-- `insert` on a map that holds a tree, an empty one included.
use champ_trie.Prelude.{
  ℕ, ◌+◌, ◌≡◌, refl, ap, sym, ◌∙◌, false, Option, none, some, [], ◌∷◌, Run, ok, ◌>>=◌, length,
  if◌then◌else◌, Bool-cases, inl, inr, arith,
}
use champ_trie.Bits.{wrapping_add}
use champ_trie.Hashing.{Hash, Key, hash_one}
use champ_trie.Node.{Entry, Node, Idx, fragment}
use champ_trie.Store.{ChampStore, IsChampStore, Extends}
use champ_trie.Store.Views.{Extends-trans}
use champ_trie.Ops.Insert.{contribution, insert_recursive}
use champ_trie.Ops.Insert.Slots.{Inserted}
use champ_trie.Ops.Insert.Refines.{insert_recursive_ok}
use champ_trie.Ops.Steps.{
  alloc_entries_ok, alloc_node_ok, node_store, entries_store, node-Extends, entries-Extends,
}
use champ_trie.Ops.Single.{single_node, single_sum, single_stored}
use champ_trie.Ops.Rebuild.{inner_node}
use champ_trie.Trie.{Trie, Slots, inner, entry, no_slots, put}
use champ_trie.Trie.Positions.{slot_at-no_slots}
use champ_trie.Trie.Model
use champ_trie.Trie.Model.{entries, overflows}
use champ_trie.Trie.Shape.{IsTrie, IsPlaced}
use champ_trie.Trie.Lookup.{get-no_slots, hash_of, insert-inner}
use champ_trie.Trie.Insertion.{get-insert}
use champ_trie.Trie.Preserve.{insert-IsTrie, one, weigh-one}
use champ_trie.Trie.Weight.{weigh-no_slots, weigh-insert, old_weight}
use champ_trie.Map.{ChampMap, insert, insert_from, new_size, get}
use champ_trie.Map.Holds.{Holds, Rooted, answer, get_ok}

-- The entry that the map makes of a key and a value.
abbrev pub entry_of {ℓ} : {K V : Type ℓ} ⦃key : Key K⦄ → K → V → Entry K V
entry_of k v = record { hash = hash_of k; key = k; value = v }

module _ {ℓ} {K V : Type ℓ} ⦃key : Key K⦄ where
  pub entry_of-IsPlaced : (k : K) (v : V) → IsPlaced (entry_of k v) 0 0
  entry_of-IsPlaced k v = record { hash_lem = refl; on_path = omega arith }

module _ {ℓ} {K V : Type ℓ} ⦃key : Key K⦄ ⦃h : Hash V⦄ (S : ChampStore K V)
    (law : IsChampStore S) where
  open S use {Store}
  open law use {view}

  size_after :
      (t : Trie K V) (k : K) (v : V) (old : Option V)
      → IsTrie t 0 0
      → old ≡ Model.get t (hash_of k) k 0
      → new_size (length (entries t)) old ≡ length (entries (Model.insert t (entry_of k v) 0))
  unfolding new_size
  size_after t k v none a o =
      let w = weigh-insert one t (entry_of k v) 0 0 a (entry_of-IsPlaced k v) in
      let n : old_weight one (hash_of k) (Model.get t (hash_of k) k 0) ≡ 0 = rw (← o) in
      omega (arith, w, n, weigh-one t, weigh-one (Model.insert t (entry_of k v) 0))
  size_after t k v (some x) a o =
      let w = weigh-insert one t (entry_of k v) 0 0 a (entry_of-IsPlaced k v) in
      let n : old_weight one (hash_of k) (Model.get t (hash_of k) k 0) ≡ 1 = rw (← o) in
      omega (arith, w, n, weigh-one t, weigh-one (Model.insert t (entry_of k v) 0))

  -- The map after the run holds the tree with the entry, in a grown store.
  pub record Grown (m : ChampMap S) (t t' : Trie K V) (old : Option V)
      (run : Run (ChampMap S) (Option V)) : Type ℓ where
    pub after : ChampMap S
    pub returns : run ≡ ok old after
    pub extends : Extends (view m.store) (view after.store)
    pub holds : Holds S law after t'

  module _ (m : ChampMap S) (t : Trie K V) (k : K) (v : V) (holds : Holds S law m t)
      (room : overflows t (entry_of k v) 0 ≡ false) where
    abbrev e : Entry K V
    e = entry_of k v

    abbrev t' : Trie K V
    t' = Model.insert t e 0

    shape' : IsTrie t' 0 0
    shape' = insert-IsTrie t e 13 0 0 (omega arith) holds.shape (entry_of-IsPlaced k v) room

    -- A map with a root.
    module _ (root : Idx)
        (run : Inserted S law m.store t t'
          (Model.get t (hash_of k) k 0)
          (insert_recursive S 14 root e 0 m.store)) where
      abbrev grown : ChampMap S
      grown = record {
        store = run.after;
        root = some run.out.node;
        size = new_size m.size run.out.old_value;
        adhash = wrapping_add m.adhash run.out.adhash_delta;
      }

      rooted_run : insert_from S (some root) e m ≡ ok (Model.get t (hash_of k) k 0) grown
      unfolding insert_from
      rooted_run = rw (run.returns, run.old_lem)

      rooted_ok : Grown m t t' (Model.get t (hash_of k) k 0) (insert_from S (some root) e m)
      rooted_ok = record {
        after = grown;
        returns = rooted_run;
        extends = run.extends;
        holds = record {
          shape = shape';
          rooted = run.repr;
          size_lem =
              ap (λ n. new_size n run.out.old_value) holds.size_lem
              ∙ size_after t k v run.out.old_value holds.shape run.old_lem;
          adhash_lem = ap (λ n. wrapping_add n run.out.adhash_delta) holds.adhash_lem ∙ run.delta;
        };
      }

    -- The first entry of a map.
    module _ (nothing : t ≡ inner no_slots) where
      abbrev f : ℕ
      f = fragment e.hash 0

      abbrev sl : Slots K V
      sl = put no_slots f (entry e)

      abbrev s1 : Store
      s1 = entries_store S law m.store (e ∷ [])

      abbrev node : Node
      node = inner_node sl (length (view m.store).entries) 0

      abbrev first : ChampMap S
      first = record {
        store = node_store S law s1 node;
        root = some (length (view s1).nodes);
        size = 1;
        adhash = contribution e;
      }

      first_tree : t' ≡ inner sl
      first_tree =
          ap (λ x. Model.insert x e 0) nothing
          ∙ insert-inner no_slots e 0
          ∙ ap (λ x. inner (put no_slots f x))
              (ap (λ x. Model.insert_slot x e 5) (slot_at-no_slots f)
                ∙ (unfold Model.insert in refl))

      first_run : insert_from S none e m ≡ ok none first
      unfolding insert_from
      first_run =
          rw
            (
              alloc_entries_ok S law m.store (e ∷ []) (omega arith),
              single_node e (length (view m.store).entries),
              alloc_node_ok S law s1 node,
            )
            refl

      first_old : Model.get t (hash_of k) k 0 ≡ none
      first_old = rw nothing (get-no_slots {V = V} (hash_of k) k 0)

      no_entries : length (entries t) ≡ 0
      no_entries = rw nothing (sym (weigh-one (inner no_slots)) ∙ weigh-no_slots K V one)

      first_size : 1 ≡ length (entries t')
      unfolding new_size
      first_size =
          ap (λ n. n + 1) (sym no_entries) ∙ size_after t k v none holds.shape (sym first_old)

      first_ok : Grown m t t' (Model.get t (hash_of k) k 0) (insert_from S none e m)
      first_ok =
          let g = entries-Extends S law m.store (e ∷ []) in
          record {
            after = first;
            returns = rw (first_old, first_run);
            extends = Extends-trans g (node-Extends S law s1 node);
            holds = record {
              shape = shape';
              rooted = rw first_tree (single_stored S law m.store e);
              size_lem = first_size;
              adhash_lem = rw (first_tree, single_sum e);
            };
          }

    grown_from :
        (root : Option Idx)
        → Rooted (view m.store) root t
        → Grown m t t' (Model.get t (hash_of k) k 0) (insert_from S root e m)
    grown_from none r = first_ok r
    grown_from (some root) r = rooted_ok root (
        insert_recursive_ok S law 14 13 t m.store root e 0 0 (omega arith) (omega arith) holds.shape
          (entry_of-IsPlaced k v) room r)

    -- On a map that holds a tree (an empty map included), when the insertion would not give a
    -- collision node its 256th entry: `insert` returns the value that was found under the key, the
    -- arenas only grow, and the map then holds the tree with the entry put in, with its size and
    -- its `AdHash`.
    pub insert_ok : Grown m t t' (Model.get t (hash_of k) k 0) (insert S k v m)
    unfolding insert hash_one
    insert_ok = grown_from m.root holds.rooted

    -- On a map that holds a tree, when the insertion would not give a collision node its 256th
    -- entry: `insert` and then `get` both return, and `get` finds the new value under every key
    -- that equals the inserted one, and what the map answered before under every other key.
    pub get-insert_map :
        (q : K)
        → answer ((do _ ← insert S k v; get S q) m)
          ≡ (if key.equal k q then some (some v) else answer (get S q m))
    get-insert_map q =
        rw
          (
            insert_ok.returns,
            get_ok S law insert_ok.after t' q insert_ok.holds,
            get_ok S law m t q holds,
            get-insert t e q 13 0 0 (omega arith) holds.shape (entry_of-IsPlaced k v),
          )
          (elim (Bool-cases (key.equal k q)) [ inl c ↦ rw c | inr c ↦ rw c ])
