-- ===== src/Ops/Get/Refines.antt =====
-- `get_recursive` against the lookup on trees.
use champ_trie.Prelude.{
  ℕ, zero, suc, ◌+◌, ◌*◌, ◌<◌, ◌≡◌, refl, Option, List, [], ◌∷◌, ok, Cmd, ◌==◌, Bool-cases, inl,
  inr, length, arith,
}
use native.Mathlib.Nat.{add-zero}
use champ_trie.Hashing.{Hash, Key}
use champ_trie.Node.{Entry, Node, Idx, fragment, offset}
use champ_trie.Node.Bitmap.{fragment-lt}
use champ_trie.Store.{ChampStore, IsChampStore}
use champ_trie.Ops.Get.{search_entries, get_at, get_recursive}
use champ_trie.Store.Block.{Block, Block-tail}
use champ_trie.Ops.Steps.{get_node_ok, get_entry_ok, get_child_ok}
use champ_trie.Trie.{Trie, inner, collision, slot_at, node_rank, data_rank}
use champ_trie.Trie.Positions.{get_elem?-items}
use champ_trie.Trie.Model.{find, get}
use champ_trie.Trie.Shape.{IsTrie, step_path, slot_at-IsSlot}
use champ_trie.Trie.Lookup.{get-inner, get_slot-subtree}
use champ_trie.Trie.Repr.{sum_of, Repr, kid_at}
use champ_trie.Trie.Bitmaps.{Slot-cases, data_bit, node_bit, data_index, node_index}

module _ {ℓ} {K V : Type ℓ} ⦃key : Key K⦄ ⦃h : Hash V⦄ (S : ChampStore K V)
    (law : IsChampStore S) where
  open S use {Store}
  open law use {view}

  search_entries_ok :
      (s : Store) (start i : ℕ) (k : K) (es : List (Entry K V))
      → Block (view s).entries (start + i) es
      → search_entries S (length es) start k i s ≡ ok (find es k) s
  unfolding search_entries find
  search_entries_ok s start i k [] b = refl
  search_entries_ok s start i k (e ∷ es) b =
      let at : start + i + 0 ≡ start + i = omega arith in
      let next : start + i + 1 ≡ start + (i + 1) = omega arith in
      rw (get_entry_ok S law s (offset start i) e (rw at at (b 0 e refl)))
        (elim (Bool-cases (key.equal e.key k)) [
          | inl c ↦ rw c
          | inr c ↦ rw c (
              search_entries_ok s start (i + 1) k es
                (rw next at (Block-tail (view s).entries (start + i) e es b)))
        ])

  get_collision_ok :
      (s : Store) (descend : Idx → ℕ → Cmd Store (Option V)) (hash' : ℕ) (es : List (Entry K V))
      (hash : ℕ) (k : K) (shift start : ℕ)
      → Block (view s).entries start es
      → get_at S descend
          (Node.collision hash' start (length es) (sum_of (collision hash' es)))
          hash
          k
          shift
          s
        ≡ ok (get (collision hash' es) hash k shift) s
  unfolding get_at get
  get_collision_ok s descend hash' es hash k shift start b = elim (Bool-cases (hash == hash')) [
    | inl c ↦ rw c (search_entries_ok s start 0 k es (rw add-zero b))
    | inr c ↦ rw c
  ]

  -- At a node that represents a well-formed tree, with fuel for the levels that are left:
  -- `get_recursive` returns what the tree has under the hash and the key, and leaves the store
  -- alone.
  pub get_recursive_ok :
      (fuel n : ℕ) (t : Trie K V) (s : Store) (i : Idx) (hash : ℕ) (k : K) (shift p : ℕ)
      → n < fuel
      → shift + 5 * n ≡ 65
      → IsTrie t shift p
      → Repr (view s) i t
      → get_recursive S fuel i hash k shift s ≡ ok (get t hash k shift) s
  unfolding get_recursive get_at
  get_recursive_ok zero n t s i hash k shift p b l a r = absurd (omega arith)
  get_recursive_ok (suc fuel) zero (inner sl) s i hash k shift p b l a r =
      absurd (omega (arith, a.0))
  get_recursive_ok (suc fuel) (suc n) (inner sl) s i hash k shift p b l a (kids, at, below) =
      let f = fragment hash shift in
      let small = fragment-lt hash shift in
      rw
        (
          get_node_ok S law s i _ at.node_at,
          data_bit sl a.1 f small,
          node_bit sl a.1 f small,
          data_index sl a.1 f small,
          node_index sl a.1 f small,
          get-inner sl hash k shift,
        )
        (elim (Slot-cases (slot_at sl f)) [
          | inl e ↦ rw e (unfold get in refl)
          | inr (inl (x, e)) ↦
              rw
                (
                  e,
                  get_entry_ok S law s _ x
                      (at.items_at (data_rank sl f) x (get_elem?-items sl f e)),
                )
                (unfold get in refl)
          | inr (inr (t, e)) ↦
              let (c, q, r) = kid_at (view s) kids sl f t below e in
              let slot = rw e at (slot_at-IsSlot sl shift p f a.2) in
              rw
                (
                  e,
                  get_child_ok S law s _ c (at.kids_at (node_rank sl f) c q),
                  get_slot-subtree t hash k (shift + 5),
                )
                (get_recursive_ok fuel n t s c hash k (shift + 5) (step_path shift p f)
                  (omega arith) (omega arith) slot.0 r)
        ])
  get_recursive_ok (suc fuel) n (collision hash' es) s i hash k shift p b l a r =
      rw (get_node_ok S law s i _ r.node_at) (
        get_collision_ok s (λ c z. get_recursive S fuel c hash k z) hash' es hash k shift
          r.entries_start r.entries_at)
