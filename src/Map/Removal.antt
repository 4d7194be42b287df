-- ===== src/Map/Removal.antt =====
-- `remove` on a map that holds a tree.
use champ_trie.Prelude.{
  ℕ, ◌+◌, ◌-◌, ◌≡◌, refl, ap, ◌∙◌, false, Option, none, some, ok, ◌>>=◌, length, if◌then◌else◌,
  Bool-cases, inl, inr, arith, ==_ne,
}
use champ_trie.Bits.{wrapping_sub}
use champ_trie.Hashing.{Hash, Key, hash_one}
use champ_trie.Node.{Entry, Idx}
use champ_trie.Store.{ChampStore, IsChampStore, Extends}
use champ_trie.Store.Views.{Extends-refl}
use champ_trie.Ops.Insert.{contribution}
use champ_trie.Ops.Remove as Outcome
use champ_trie.Ops.Remove.{RemoveOutcome, remove_recursive}
use champ_trie.Ops.Remove.Outcomes.{Returned, sum-drop}
use champ_trie.Ops.Remove.Refines.{remove_recursive_ok}
use champ_trie.Trie.{Trie, inner, no_slots}
use champ_trie.Trie.Model
use champ_trie.Trie.Model.{entries, overflows}
use champ_trie.Trie.Positions.{slot_at-no_slots}
use champ_trie.Trie.Insertion.{get-insert}
use champ_trie.Trie.Lookup.{hash_of, get-no_slots}
use champ_trie.Trie.Shape.{IsTrie}
use champ_trie.Trie.Preserve.{one, weigh-one}
use champ_trie.Trie.Weight.{weigh, weigh-no_slots}
use champ_trie.Trie.Remove
use champ_trie.Trie.Remove.{Removal, absent, removed}
use champ_trie.Trie.Remove.Lookup.{old_value, remove-get}
use champ_trie.Trie.Remove.Positions.{remove-inner, remove-vacant}
use champ_trie.Trie.Remove.Root.{remains, remains-IsTrie, get-remains}
use champ_trie.Trie.Remove.Sums.{rest, gone, weigh-remove}
use champ_trie.Trie.Repr.{share}
use champ_trie.Map.{ChampMap, insert, remove, remove_from, remove_outcome, get}
use champ_trie.Map.Holds.{Holds, Rooted, answer, get_ok}
use champ_trie.Map.Insertion.{Grown, entry_of, entry_of-IsPlaced, insert_ok}

module _ {ℓ} {K V : Type ℓ} ⦃key : Key K⦄ where
  remove-no_slots : (hash : ℕ) (k : K) → Remove.remove {V = V} (inner no_slots) hash k 0 ≡ absent
  remove-no_slots hash k =
      remove-inner {V = V} no_slots hash k 0
      ∙ rw (slot_at-no_slots {K = K} {V = V}, remove-vacant {V = V} hash k 5) refl

module _ {ℓ} {K V : Type ℓ} ⦃key : Key K⦄ ⦃h : Hash V⦄ (S : ChampStore K V)
    (law : IsChampStore S) where
  open S use {Store}
  open law use {view}

  module _ (m : ChampMap S) (t : Trie K V) (k : K) (holds : Holds S law m t) where
    abbrev r : Removal K V
    r = Remove.remove t (hash_of k) k 0

    abbrev old : Option V
    old = Model.get t (hash_of k) k 0

    -- The map after the removal of an entry.
    module _ (e : Entry K V) (u : Trie K V) (root : Idx) (node : Option Idx) (s' : Store)
        (value : some e.value ≡ old) (shares : share e.hash e.value + weigh share u ≡ weigh share t)
        (ones : 1 + weigh one u ≡ weigh one t) where
      abbrev shrunk : ChampMap S
      shrunk = record {
        store = s';
        root = node;
        size = m.size - 1;
        adhash = wrapping_sub m.adhash (contribution e);
      }

      count : m.size ≡ 1 + length (entries u)
      count = omega (arith, holds.size_lem, ones, weigh-one t, weigh-one u)

      shrunk_run :
          remove_recursive S 14 root (hash_of k) k 0 m.store
            ≡ ok (Outcome.removed node (contribution e) e.value) s'
          → remove_from S (some root) k m ≡ ok old shrunk
      unfolding remove_from remove_outcome hash_one
      shrunk_run run = rw (run, ==_ne m.size 0 (omega (arith, count)), ← value) refl

      shrunk_ok :
          remove_recursive S 14 root (hash_of k) k 0 m.store
            ≡ ok (Outcome.removed node (contribution e) e.value) s'
          → Extends (view m.store) (view s')
          → IsTrie u 0 0
          → Rooted (view s') node u
          → Grown S law m t u old (remove_from S (some root) k m)
      shrunk_ok run g shape here = record {
        after = shrunk;
        returns = shrunk_run run;
        extends = g;
        holds = record {
          shape = shape;
          rooted = here;
          size_lem = omega (arith, count);
          adhash_lem =
              ap (λ n. wrapping_sub n (contribution e)) holds.adhash_lem ∙ sum-drop t u e shares;
        };
      }

    -- The map after a run that returned what the removal on trees says.
    removed_ok :
        (q : Removal K V) (root : Idx)
        → old_value q ≡ old
        → gone share q + rest share t q ≡ weigh share t
        → gone one q + rest one t q ≡ weigh one t
        → IsTrie (remains t q) 0 0
        → Rooted (view m.store) (some root) t
        → Returned S law m.store q (remove_recursive S 14 root (hash_of k) k 0 m.store)
        → Grown S law m t (remains t q) old (remove_from S (some root) k m)
    unfolding remove_from remove_outcome hash_one
    removed_ok absent root o shares ones shape here run = record {
      after = m;
      returns = rw (run, ← o) refl;
      extends = Extends-refl (view m.store);
      holds = holds;
    }
    removed_ok (removed e none) root o shares ones shape here run =
        shrunk_ok e (inner no_slots) root none run.after o
          (omega (arith, shares, weigh-no_slots K V share))
          (omega (arith, ones, weigh-no_slots K V one)) run.returns run.extends shape refl
    removed_ok (removed e (some u)) root o shares ones shape here run =
        shrunk_ok e u root (some run.index) run.after o shares ones run.returns run.extends shape
          run.repr

    removed_from :
        (root : Option Idx)
        → Rooted (view m.store) root t
        → Grown S law m t (remains t r) old (remove_from S root k m)
    unfolding remove_from
    removed_from none here =
        let missing : old ≡ none = rw here (get-no_slots {V = V} (hash_of k) k 0) in
        let same : remains t r ≡ t = rw (here, remove-no_slots {V = V} (hash_of k) k) refl in
        record {
          after = m;
          returns = rw missing refl;
          extends = Extends-refl (view m.store);
          holds = rw same holds;
        }
    removed_from (some root) here =
        removed_ok r root (remove-get (hash_of k) k t 0 0 holds.shape)
          (weigh-remove share (hash_of k) k t 0 0 holds.shape)
          (weigh-remove one (hash_of k) k t 0 0 holds.shape) (remains-IsTrie t k holds.shape) here
          (remove_recursive_ok S law 14 13 t m.store root (hash_of k) k 0 0 (omega arith)
            (omega arith) holds.shape here)

    -- On a map that holds a tree (an empty map included): `remove` returns the value that was
    -- found under the key, the arenas only grow, and the map then holds the tree that the removal
    -- leaves, with its size and its `AdHash`.
    pub remove_ok : Grown S law m t (remains t r) old (remove S k m)
    unfolding remove
    remove_ok = removed_from m.root holds.rooted

    -- On a map that holds a tree: `remove` and then `get` both return, and `get` finds nothing
    -- under every key that equals the removed one, and what the map answered before under every
    -- other key.
    pub get-remove_map :
        (q : K)
        → answer ((do _ ← remove S k; get S q) m)
          ≡ (if key.equal k q then some none else answer (get S q m))
    get-remove_map q =
        rw
          (
            remove_ok.returns,
            get_ok S law remove_ok.after (remains t r) q remove_ok.holds,
            get_ok S law m t q holds,
            get-remains t k holds.shape q,
          )
          (elim (Bool-cases (key.equal k q)) [ inl c ↦ rw c refl | inr c ↦ rw c refl ])

  -- On a map that holds a tree, when the insertion would not give a collision node its 256th
  -- entry: after an insertion and a removal of a key, which both return, `get` finds nothing under
  -- every key that equals it, and what the map answered before under every other key.
  pub remove-insert :
      (m : ChampMap S) (t : Trie K V) (k : K) (v : V) (q : K)
      → Holds S law m t
      → overflows t (entry_of k v) 0 ≡ false
      → answer ((do _ ← insert S k v; _ ← remove S k; get S q) m)
        ≡ (if key.equal k q then some none else answer (get S q m))
  remove-insert m t k v q holds room =
      let run = insert_ok S law m t k v holds room in
      let t' = Model.insert t (entry_of k v) 0 in
      rw
        (
          run.returns,
          get-remove_map run.after t' k run.holds q,
          get_ok S law run.after t' q run.holds,
          get_ok S law m t q holds,
          get-insert t (entry_of k v) q 13 0 0 (omega arith) holds.shape (entry_of-IsPlaced k v),
        )
        (elim (Bool-cases (key.equal k q)) [ inl c ↦ rw c refl | inr c ↦ rw c refl ])
