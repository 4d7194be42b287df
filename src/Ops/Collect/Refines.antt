-- ===== src/Ops/Collect/Refines.antt =====
-- `collect` against the entries of a tree.
use champ_trie.Prelude.{
  ℕ, zero, suc, ◌+◌, ◌*◌, ◌<◌, ◌≡◌, refl, ap, sym, List, [], ◌∷◌, ◌++◌, map, ok, length, arith,
}
use native.Mathlib.Nat.{add-zero}
use mathlib.Core.List.{append-nil, append_assoc}
use champ_trie.Hashing.{Hash, Key}
use champ_trie.Node.{Entry, Idx, offset}
use champ_trie.Store.{ChampStore, IsChampStore}
use champ_trie.Store.Block.{Block, Block-tail}
use champ_trie.Ops.Collect.{push_entries, collect_children, collect_at, collect}
use champ_trie.Ops.Steps.{get_node_ok, get_entry_ok, get_child_ok}
use champ_trie.Trie.{Trie, Slots, inner, collision, vacant, entry, subtree, end, cons, items}
use champ_trie.Trie.Model.{entries, below}
use champ_trie.Trie.Shape.{IsTrie, AreSlots, step_path}
use champ_trie.Trie.Repr.{Repr, AreKids, length-kids}
use champ_trie.Trie.Bitmaps.{data_count, node_count}

module _ {ℓ} {K V : Type ℓ} where
  abbrev pub pair : Entry K V → K × V
  pair e = (e.key, e.value)

  map-append : (xs ys : List (Entry K V)) → map pair (xs ++ ys) ≡ map pair xs ++ map pair ys
  map-append [] ys = refl
  map-append (x ∷ xs) ys = ap (◌∷◌ (pair x)) (map-append xs ys)

module _ {ℓ} {K V : Type ℓ} ⦃key : Key K⦄ ⦃h : Hash V⦄ (S : ChampStore K V) (law : IsChampStore S)
    (s : S.Store) where
  open law use {view}

  push_entries_ok :
      (es : List (Entry K V)) (start i : ℕ) (out : List (K × V))
      → Block (view s).entries (start + i) es
      → push_entries S (length es) start i out s ≡ ok (out ++ map pair es) s
  unfolding push_entries
  push_entries_ok [] start i out b = ap (λ x. ok x s) (sym (append-nil out))
  push_entries_ok (e ∷ es) start i out b =
      let next : start + i + 1 ≡ start + (i + 1) = omega arith in
      rw
        (
          get_entry_ok S law s (offset start i) e (rw add-zero at (b 0 e refl)),
          push_entries_ok es start (i + 1) (out ++ pair e ∷ [])
              (rw next at (Block-tail (view s).entries (start + i) e es b)),
          append_assoc,
        )
        refl

  collect_children_ok :
      (fuel : ℕ) (sl : Slots K V) (kids : List Idx) (start i shift p g : ℕ) (out : List (K × V))
      → ((t : Trie K V) (k : Idx) (q : ℕ) (acc : List (K × V))
          → IsTrie t (shift + 5) q
          → Repr (view s) k t
          → collect S fuel k acc s ≡ ok (acc ++ map pair (entries t)) s)
      → Block (view s).children (start + i) kids
      → AreKids (view s) kids sl
      → AreSlots sl shift p g
      → collect_children S (λ child acc. collect S fuel child acc) (length kids) start i out s
        ≡ ok (out ++ map pair (below sl)) s
  unfolding collect_children entries
  collect_children_ok fuel end kids start i shift p g out deep b below slots =
      rw below.0 (ap (λ x. ok x s) (sym (append-nil out)))
  collect_children_ok fuel (cons vacant sl) kids start i shift p g out deep b below slots =
      collect_children_ok fuel sl kids start i shift p (suc g) out deep b below slots.1
  collect_children_ok fuel (cons (entry e) sl) kids start i shift p g out deep b below slots =
      collect_children_ok fuel sl kids start i shift p (suc g) out deep b below slots.1
  collect_children_ok fuel (cons (subtree t) sl) kids start i shift p g out deep b
        (k, rest, e, r, below) slots =
      let all : Block (view s).children (start + i) (k ∷ rest) = rw e at b in
      let next : start + i + 1 ≡ start + (i + 1) = omega arith in
      rw
        (
          e,
          get_child_ok S law s (offset start i) k (rw add-zero at (all 0 k refl)),
          deep t k (step_path shift p g) out slots.0.0 r,
          collect_children_ok fuel sl rest start (i + 1) shift p (suc g)
              (out ++ map pair (entries t)) deep
              (rw next at (Block-tail (view s).children (start + i) k rest all)) below slots.1,
          append_assoc,
          map-append,
        )
        refl

  pub collect_ok :
      (fuel n : ℕ) (t : Trie K V) (i : Idx) (shift p : ℕ) (out : List (K × V))
      → n < fuel
      → shift + 5 * n ≡ 65
      → IsTrie t shift p
      → Repr (view s) i t
      → collect S fuel i out s ≡ ok (out ++ map pair (entries t)) s
  unfolding collect collect_at entries
  collect_ok zero n t i shift p out b l a r = absurd (omega arith)
  collect_ok (suc fuel) zero (inner sl) i shift p out b l a r = absurd (omega (arith, a.0))
  collect_ok (suc fuel) (suc n) (inner sl) i shift p out b l a (kids, at, below) =
      rw
        (
          get_node_ok S law s i _ at.node_at,
          data_count sl a.1,
          node_count sl a.1,
          ← length-kids (view s) kids sl below,
          push_entries_ok (items sl) at.data_start 0 out (rw add-zero at.items_at),
          collect_children_ok fuel sl kids at.children_start 0 shift p 0
              (out ++ map pair (items sl))
              (λ t k q acc shape rep.
                collect_ok fuel n t k (shift + 5) q acc (omega arith) (omega arith) shape rep)
              (rw add-zero at.kids_at) below a.2,
          append_assoc,
          map-append,
        )
        refl
  collect_ok (suc fuel) n (collision hash es) i shift p out b l a r =
      rw
        (
          get_node_ok S law s i _ r.node_at,
          push_entries_ok es r.entries_start 0 out (rw add-zero r.entries_at),
        )
        refl
