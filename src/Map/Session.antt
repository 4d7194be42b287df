-- ===== src/Map/Session.antt =====
-- A sequence of calls on a map, and its replies.
use champ_trie.Prelude.{
  ℕ, ◌≡◌, refl, ap, sym, ◌∙◌, Bool, Option, none, some, List, [], ◌∷◌, Run, Cmd, ok, panic,
  out_of_fuel, pure, and_then, ◌==◌, ◌>>=◌, Bool-cases, inl, inr, if◌then◌else◌, length, map,
}
use champ_trie.Hashing.{Hash, Key}
use champ_trie.Store.{ChampStore, IsChampStore}
use champ_trie.Ops.Collect.Refines.{pair}
use champ_trie.Trie.{Trie, inner, no_slots}
use champ_trie.Trie.Model
use champ_trie.Trie.Model.{entries, overflows, trie_adhash}
use champ_trie.Trie.Lookup.{hash_of}
use champ_trie.Trie.Remove
use champ_trie.Trie.Remove.Root.{remains}
use champ_trie.Map.{
  ChampMap, new, get, contains_key, at_key, insert, remove, len, is_empty, adhash, is_some,
}
use champ_trie.Map.Holds.{Holds, new-Holds, get_ok, adhash_ok}
use champ_trie.Map.Insertion.{entry_of, insert_ok}
use champ_trie.Map.Iteration.{iter_ok}
use champ_trie.Map.Iterator.{iter}
use champ_trie.Map.Lookup.{found_or_panic, lookups_ok}
use champ_trie.Map.Overflow.{insert_panics}
use champ_trie.Map.Removal.{remove_ok}

-- A call of a method of the map.
pub data Call {ℓ} (K V : Type ℓ) : Type ℓ where
  insert_call : K → V → Call K V
  remove_call : K → Call K V
  get_call : K → Call K V
  contains_key_call : K → Call K V
  at_key_call : K → Call K V
  len_call : Call K V
  is_empty_call : Call K V
  adhash_call : Call K V
  iter_call : Call K V

pub data Reply {ℓ} (K V : Type ℓ) : Type ℓ where
  value : Option V → Reply K V
  truth : Bool → Reply K V
  number : ℕ → Reply K V
  pairs : List (K × V) → Reply K V

-- A panic is `none`, after which there are no replies; spent fuel has none.
abbrev pub Replies {ℓ} : Type ℓ → Type ℓ → Type ℓ
Replies K V = List (Option (Reply K V))

module _ {ℓ} {K V : Type ℓ} ⦃key : Key K⦄ ⦃h : Hash V⦄ (S : ChampStore K V) where
  unfoldable pub perform : Call K V → Cmd (ChampMap S) (Reply K V)
  perform (insert_call k v) = do old ← insert S k v; pure (value old)
  perform (remove_call k) = do old ← remove S k; pure (value old)
  perform (get_call k) = do found ← get S k; pure (value found)
  perform (contains_key_call k) = do b ← contains_key S k; pure (truth b)
  perform (at_key_call k) = do v ← at_key S k; pure (value (some v))
  perform len_call = λ m. ok (number (len S m)) m
  perform is_empty_call = λ m. ok (truth (is_empty S m)) m
  perform adhash_call = λ m. ok (number (adhash S m)) m
  perform iter_call = do it ← iter S; pure (pairs it.entries)

module _ {ℓ} {K V M : Type ℓ} (act : Call K V → Cmd M (Reply K V)) where
  -- The reply of a run, and the replies after it.
  abbrev pub reply : (M → Replies K V) → Run M (Reply K V) → Replies K V
  reply later (ok r m) = some r ∷ later m
  reply later panic = none ∷ []
  reply later out_of_fuel = []

  -- The replies to calls, up to a panic.
  unfoldable pub replies : List (Call K V) → M → Replies K V
  replies [] m = []
  replies (c ∷ calls) m = reply (λ m'. replies calls m') (act c m)

module _ {ℓ} {K V : Type ℓ} ⦃key : Key K⦄ ⦃h : Hash V⦄ where
  -- Indexing by a key.
  abbrev pub indexed : Trie K V → Option V → Option (Reply K V × Trie K V)
  indexed t none = none
  indexed t (some v) = some (value (some v), t)

  -- The calls on a tree.
  unfoldable pub perform_on : Call K V → Trie K V → Option (Reply K V × Trie K V)
  perform_on (insert_call k v) t =
      if overflows t (entry_of k v) 0
      then none
      else some (value (Model.get t (hash_of k) k 0), Model.insert t (entry_of k v) 0)
  perform_on (remove_call k) t =
      some (value (Model.get t (hash_of k) k 0), remains t (Remove.remove t (hash_of k) k 0))
  perform_on (get_call k) t = some (value (Model.get t (hash_of k) k 0), t)
  perform_on (contains_key_call k) t = some (truth (is_some (Model.get t (hash_of k) k 0)), t)
  perform_on (at_key_call k) t = indexed t (Model.get t (hash_of k) k 0)
  perform_on len_call t = some (number (length (entries t)), t)
  perform_on is_empty_call t = some (truth (length (entries t) == 0), t)
  perform_on adhash_call t = some (number (trie_adhash t), t)
  perform_on iter_call t = some (pairs (map pair (entries t)), t)

  abbrev pub reply_on : (Trie K V → Replies K V) → Option (Reply K V × Trie K V) → Replies K V
  reply_on later none = none ∷ []
  reply_on later (some (r, t)) = some r ∷ later t

  unfoldable pub replies_on : List (Call K V) → Trie K V → Replies K V
  replies_on [] t = []
  replies_on (c ∷ calls) t = reply_on (λ t'. replies_on calls t') (perform_on c t)

module _ {ℓ} {K V : Type ℓ} ⦃key : Key K⦄ ⦃h : Hash V⦄ (S : ChampStore K V)
    (law : IsChampStore S) where
  -- The call on the map does what the call on the tree says.
  abbrev Agrees : Run (ChampMap S) (Reply K V) → Option (Reply K V × Trie K V) → Type ℓ
  Agrees run none = run ≡ panic
  Agrees run (some (r, t)) = (m : ChampMap S) × (run ≡ ok r m) × Holds S law m t

  indexed_ok :
      (m : ChampMap S) (t : Trie K V)
      → Holds S law m t
      → (o : Option V) (run : Run (ChampMap S) V) → run ≡ found_or_panic S m o
      → Agrees (and_then run (λ v. pure (value (some v)))) (indexed t o)
  indexed_ok m t holds none run e = rw e refl
  indexed_ok m t holds (some v) run e = (m, rw e refl, holds)

  perform_ok :
      (c : Call K V) (m : ChampMap S) (t : Trie K V)
      → Holds S law m t
      → Agrees (perform S c m) (perform_on c t)
  unfolding perform perform_on len is_empty iter
  perform_ok (insert_call k v) m t holds = elim (Bool-cases (overflows t (entry_of k v) 0)) [
    | inl full ↦ rw full (rw (insert_panics S law m t k v holds full) refl)
    | inr room ↦
        let run = insert_ok S law m t k v holds room in
        rw room (run.after, rw run.returns refl, run.holds)
  ]
  perform_ok (remove_call k) m t holds =
      let run = remove_ok S law m t k holds in (run.after, rw run.returns refl, run.holds)
  perform_ok (get_call k) m t holds = (m, rw (get_ok S law m t k holds) refl, holds)
  perform_ok (contains_key_call k) m t holds =
      (m, rw ((lookups_ok S law m t k holds).0) refl, holds)
  perform_ok (at_key_call k) m t holds =
      indexed_ok m t holds (Model.get t (hash_of k) k 0) (at_key S k m)
        (lookups_ok S law m t k holds).1
  perform_ok len_call m t holds = (m, rw (holds.size_lem) refl, holds)
  perform_ok is_empty_call m t holds = (m, rw (holds.size_lem) refl, holds)
  perform_ok adhash_call m t holds = (m, rw (adhash_ok S law m t holds) refl, holds)
  perform_ok iter_call m t holds = (m, rw ((iter_ok S law m t holds).0) refl, holds)

  reply_lem :
      (later : ChampMap S → Replies K V) (later' : Trie K V → Replies K V)
      (run : Run (ChampMap S) (Reply K V)) (next : Option (Reply K V × Trie K V))
      → ((m : ChampMap S) (t : Trie K V) → Holds S law m t → later m ≡ later' t)
      → Agrees run next
      → reply (perform S) later run ≡ reply_on later' next
  reply_lem later later' run none deep a = rw a refl
  reply_lem later later' run (some (r, t)) deep (m, e, holds) =
      rw e (ap (λ rs. some r ∷ rs) (deep m t holds))

  -- For every sequence of calls of the map's methods (`insert`, `remove`, `get`, `contains_key`,
  -- indexing, `len`, `is_empty`, `adhash`, `iter`) on a map that holds a tree: the replies of the
  -- map are those of the same operations on the tree, up to the first panic, and the map panics
  -- exactly where the tree says, at an insertion that would give a collision node its 256th entry
  -- or at an index with no value.
  pub replies_ok :
      (calls : List (Call K V)) (m : ChampMap S) (t : Trie K V)
      → Holds S law m t
      → replies (perform S) calls m ≡ replies_on calls t
  unfolding replies replies_on
  replies_ok [] m t holds = refl
  replies_ok (c ∷ calls) m t holds =
      reply_lem (λ m'. replies (perform S) calls m') (λ t'. replies_on calls t') (perform S c m)
        (perform_on c t) (λ m' t' holds'. replies_ok calls m' t' holds') (perform_ok c m t holds)

-- Two backends that keep the contract of a store give the same replies to every sequence of calls
-- on a new map, up to the first panic.
pub same_replies {ℓ} :
    {K V : Type ℓ} ⦃key : Key K⦄ ⦃h : Hash V⦄ (S R : ChampStore K V)
    → IsChampStore S
    → IsChampStore R
    → (calls : List (Call K V))
    → replies (perform S) calls (new S) ≡ replies (perform R) calls (new R)
same_replies S R law law' calls =
    replies_ok S law calls (new S) (inner no_slots) (new-Holds S law)
    ∙ sym (replies_ok R law' calls (new R) (inner no_slots) (new-Holds R law'))
