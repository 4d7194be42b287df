-- ===== src/Examples/Full.antt =====
-- A map with a full collision node: 255 keys of one hash.
use champ_trie.Prelude.{
  ℕ, zero, suc, ◌*◌, ◌≡◌, refl, Bool, true, false, List, [], ◌∷◌, panic, Bool-cases, inl, inr,
  if◌then◌else◌, arith,
}
use champ_trie.Examples.{lists, lists-IsChampStore, nat_hash, nat_key, no_tree, empty, empty-Holds}
use champ_trie.Node.{fragment}
use champ_trie.Trie.{Trie, no_slots}
use champ_trie.Trie.Model
use champ_trie.Trie.Model.{overflows}
use champ_trie.Map.{ChampMap, insert}
use champ_trie.Map.Holds.{Holds}
use champ_trie.Map.Insertion.{entry_of}
use champ_trie.Map.Extension.{insert_all, AllFit, extend_ok}
use champ_trie.Map.Overflow.{insert_panics}

abbrev colliding : ℕ → List (ℕ × ℕ)
colliding zero = []
colliding (suc n) = (n * 18446744073709551616, n) ∷ colliding n

-- The test for `AllFit`.
abbrev all_fit : Trie ℕ ℕ → List (ℕ × ℕ) → Bool
all_fit t [] = true
all_fit t ((k, v) ∷ iter) =
    if overflows t (entry_of k v) 0 then false else all_fit (Model.insert t (entry_of k v) 0) iter

all_fit-AllFit : (t : Trie ℕ ℕ) (iter : List (ℕ × ℕ)) → all_fit t iter ≡ true → AllFit t iter
all_fit-AllFit t [] h = tt
all_fit-AllFit t ((k, v) ∷ iter) h = elim (Bool-cases (overflows t (entry_of k v) 0)) [
  | inl c ↦ absurd (wrong (rw c at h))
  | inr c ↦ (c, all_fit-AllFit (Model.insert t (entry_of k v) 0) iter (rw c at h))
]
  where
    wrong : false ≡ true → ⊥
    wrong w = ground arith

abbrev many : List (ℕ × ℕ)
many = colliding 255

many_fit : all_fit no_tree many ≡ true
unfolding overflows Model.insert Model.join Model.upsert Model.find no_slots fragment nat_key
    nat_hash
many_fit = refl

abbrev full_tree : Trie ℕ ℕ
full_tree = insert_all no_tree many

full_run : (m : ChampMap lists) × Holds lists lists-IsChampStore m full_tree
full_run =
    let (m, r, holds) =
      extend_ok lists lists-IsChampStore empty no_tree many empty-Holds
        (all_fit-AllFit no_tree many many_fit) in
    (m, holds)

one_more : overflows full_tree (entry_of 4703919738795935662080 7) 0 ≡ true
unfolding overflows Model.insert Model.join Model.upsert Model.find no_slots fragment nat_key
    nat_hash
one_more = refl

insert_panics_example : insert lists 4703919738795935662080 7 full_run.0 ≡ panic
insert_panics_example =
    insert_panics lists lists-IsChampStore full_run.0 full_tree 4703919738795935662080 7 full_run.1
      one_more
