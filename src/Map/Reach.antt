-- ===== src/Map/Reach.antt =====
-- The maps that methods make of a map, with rollbacks to checkpoints taken on the way.
use champ_trie.Prelude.{
  ◌≡◌, ap, sym, ◌∙◌, Option, Run, ok, panic, out_of_fuel, Bool-cases, inl, inr, arith,
}
use champ_trie.Hashing.{Hash, Key}
use champ_trie.Store.{ChampStore, IsChampStore, Extends}
use champ_trie.Store.Views.{Extends-refl, Extends-trans}
use champ_trie.Trie.{Trie, inner, no_slots}
use champ_trie.Trie.Model.{overflows}
use champ_trie.Map.{ChampMap, new, insert, remove, checkpoint, rollback}
use champ_trie.Map.Holds.{Holds, new-Holds}
use champ_trie.Map.Insertion.{Grown, entry_of, insert_ok}
use champ_trie.Map.Overflow.{insert_panics}
use champ_trie.Map.Removal.{remove_ok}
use champ_trie.Map.Rollback.{rollback-Holds}

module _ {ℓ κ} {S : Type ℓ} {A : Type κ} where
  state_or : S → Run S A → S
  state_or d (ok a s) = s
  state_or d panic = d
  state_or d out_of_fuel = d

  -- A run ends in one state.
  same_state : (run : Run S A) (a b : A) (s t : S) → run ≡ ok a s → run ≡ ok b t → s ≡ t
  unfolding state_or
  same_state run a b s t p q = ap (state_or s) (sym p ∙ q)

  panic_ne_ok : (a : A) (s : S) → panic ≡ ok a s → ⊥
  panic_ne_ok a s p = ground arith

module _ {ℓ} {K V : Type ℓ} ⦃key : Key K⦄ ⦃h : Hash V⦄ (S : ChampStore K V) where
  -- A rollback goes to a checkpoint of a map from which the present one was reached.
  pub data Reach : ChampMap S → ChampMap S → Type ℓ where
    start : {m : ChampMap S} → Reach m m
    inserted :
        {m a b : ChampMap S} (k : K) (v : V) (old : Option V)
        → Reach m a
        → insert S k v a ≡ ok old b
        → Reach m b
    removed :
        {m a b : ChampMap S} (k : K) (old : Option V)
        → Reach m a
        → remove S k a ≡ ok old b
        → Reach m b
    rolled_back :
        {m a b : ChampMap S} → Reach m a → Reach a b → Reach m (rollback S b (checkpoint S a))

module _ {ℓ} {K V : Type ℓ} ⦃key : Key K⦄ ⦃h : Hash V⦄ (S : ChampStore K V)
    (law : IsChampStore S) where
  open law use {view}

  -- A map that holds a tree, in a store that extends an older one.
  abbrev pub Kept : ChampMap S → ChampMap S → Type ℓ
  Kept m b = (t : Trie K V) × Holds S law b t × Extends (view m.store) (view b.store)

  after_grown :
      (m a b : ChampMap S) (t u : Trie K V) (old got : Option V) (run : Run (ChampMap S) (Option V))
      → Extends (view m.store) (view a.store)
      → Grown S law a t u old run
      → run ≡ ok got b
      → Kept m b
  after_grown m a b t u old got run g grown e =
      rw (← same_state run old got grown.after b grown.returns e)
        (u, grown.holds, Extends-trans g grown.extends)

  insert-Kept :
      (m a b : ChampMap S) (k : K) (v : V) (old : Option V)
      → Kept m a
      → insert S k v a ≡ ok old b
      → Kept m b
  insert-Kept m a b k v old (t, holds, g) e = elim (Bool-cases (overflows t (entry_of k v) 0)) [
    | inl full ↦ absurd (panic_ne_ok old b (sym (insert_panics S law a t k v holds full) ∙ e))
    | inr room ↦ after_grown m a b t _ _ old _ g (insert_ok S law a t k v holds room) e
  ]

  rollback-Kept :
      (m a b : ChampMap S) → Kept m a → Kept a b → Kept m (rollback S b (checkpoint S a))
  unfolding rollback checkpoint
  rollback-Kept m a b (t, holds, g) (u, later, g') =
      (t, rollback-Holds S law a b g' t holds, rw (law.rollback-checkpoint a.store b.store g') g)

  pub Reach-Holds : {m b : ChampMap S} → Reach S m b → (t : Trie K V) → Holds S law m t → Kept m b
  Reach-Holds {m} start t holds = (t, holds, Extends-refl (view m.store))
  Reach-Holds {m} (inserted {a = a} {b = b} k v old r e) t holds =
      insert-Kept m a b k v old (Reach-Holds r t holds) e
  Reach-Holds {m} (removed {a = a} {b = b} k old r e) t holds =
      let (u, kept, g) = Reach-Holds r t holds in
      after_grown m a b u _ _ old _ g (remove_ok S law a u k kept) e
  Reach-Holds {m} (rolled_back {a = a} {b = b} r q) t holds =
      let (u, kept, g) = Reach-Holds r t holds in
      rollback-Kept m a b (u, kept, g) (Reach-Holds q u kept)

  -- Every map that is reached from a new one by insertions and removals that returned and by
  -- rollbacks to checkpoints taken on the way holds a tree: the entries stand on the paths of
  -- their hashes under different keys, and its size and its `AdHash` are those of its entries.
  pub reached-Holds : (m : ChampMap S) → Reach S (new S) m → (t : Trie K V) × Holds S law m t
  reached-Holds m r =
      let (t, holds, g) = Reach-Holds r (inner no_slots) (new-Holds S law) in (t, holds)
