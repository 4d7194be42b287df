-- ===== src/Examples/Removal.antt =====
-- Runs of the theorems on removals and on sequences of calls.
mod Same
use champ_trie.Prelude.{
  ◌==◌, ◌%◌, ◌^◌, length, get_elem?, some, ℕ, ◌≡◌, List, [], ◌∷◌, ok, ◌>>=◌, arith,
}
use champ_trie.Node.{Entry, Node}
use champ_trie.Examples.{
  lists, lists-IsChampStore, list_arena, list_arena-IsArena, nat_hash, nat_key, one_run, one_map,
  one_tree, room_two, leaf, leaf_at, leaf_store, leaf-Repr, leaf-IsTrie, three, three_store,
  three-Block,
}
use champ_trie.Ops.Remove.Lone.{should_inline_lem}
use champ_trie.Ops.Remove.{should_inline, remove_from_entries, remove_recursive}
use champ_trie.Ops.Remove.Outcomes.{Returned}
use champ_trie.Ops.Remove.Refines.{remove_recursive_ok}
use champ_trie.Ops.Remove.Bucket.{bucket_removed}
use champ_trie.Trie.{Trie, inner, collision}
use champ_trie.Trie.Model
use champ_trie.Trie.Remove
use champ_trie.Trie.Remove.{bucket_removal, drop_key, pick}
use champ_trie.Trie.Remove.Root.{remains}
use champ_trie.Trie.Repr.{sum_of}
use champ_trie.Trie.Lookup.{hash_of}
use champ_trie.Map.{
  ChampMap, new, insert, remove, get, len, adhash, arena_len, checkpoint, rollback,
}
use champ_trie.Map.Holds.{Holds, answer}
use champ_trie.Map.Insertion.{Grown, entry_of, insert_ok}
use champ_trie.Map.Removal.{remove_ok, get-remove_map, remove-insert}
use champ_trie.Map.Rollback.{rollback-remove}
use champ_trie.Map.Session.{
  Call, insert_call, remove_call, contains_key_call, at_key_call, len_call, iter_call, perform,
  replies, replies_on, replies_ok, same_replies,
}
use champ_trie.Map.Reach.{start, inserted, removed, reached-Holds}
use champ_trie.Map.Sum.{pairs_adhash, reached-adhash}
use champ_trie.Map.Iterator.{Iter, iter}
use champ_trie.Map.Sync
use champ_trie.Map.Sync.{perform_sync, sync_replies}

-- The map of keys 1 and 33, which share a subtree.
abbrev two_tree : Trie ℕ ℕ
two_tree = Model.insert one_tree (entry_of 33 20) 0

two_run :
    Grown lists lists-IsChampStore one_map one_tree two_tree
      (Model.get one_tree (hash_of {K = ℕ} 33) 33 0)
      (insert lists 33 20 one_map)
two_run = insert_ok lists lists-IsChampStore one_map one_tree 33 20 one_run.holds room_two

abbrev two : ChampMap lists
two = two_run.after

remove_ok_example :
    Grown lists lists-IsChampStore two two_tree
      (remains two_tree (Remove.remove two_tree (hash_of {K = ℕ} 33) 33 0))
      (Model.get two_tree (hash_of {K = ℕ} 33) 33 0)
      (remove lists 33 two)
remove_ok_example = remove_ok lists lists-IsChampStore two two_tree 33 two_run.holds

get-remove_map_example :
    answer ((do _ ← remove lists 33; get lists 1) two) ≡ answer (get lists 1 two)
unfolding nat_key
get-remove_map_example = get-remove_map lists lists-IsChampStore two two_tree 33 two_run.holds 1

remove-insert_example :
    answer ((do _ ← insert lists 33 20; _ ← remove lists 33; get lists 1) one_map)
    ≡ answer (get lists 1 one_map)
unfolding nat_key
remove-insert_example =
    remove-insert lists lists-IsChampStore one_map one_tree 33 20 1 one_run.holds room_two

remove_recursive_ok_example :
    Returned lists lists-IsChampStore leaf_store
      (Remove.remove (inner leaf) 1 1 0)
      (remove_recursive lists 14 leaf_at 1 1 0 leaf_store)
remove_recursive_ok_example =
    remove_recursive_ok lists lists-IsChampStore 14 13 (inner leaf) leaf_store leaf_at 1 1 0 0
      (omega arith) (omega arith) leaf-IsTrie leaf-Repr

bucket_removed_example :
    Returned lists lists-IsChampStore three_store
      (bucket_removal 7 (drop_key three 2) (pick three 2))
      (remove_from_entries lists 3 0 7 0 3 (sum_of (collision 7 three)) 2 three_store)
bucket_removed_example =
    bucket_removed lists lists-IsChampStore three_store 7 0 three 2 three-Block (omega arith)

rollback-remove_example :
    let after = (remove_ok lists lists-IsChampStore two two_tree 33 two_run.holds).after in
    let restored = rollback lists after (checkpoint lists two) in
    let older = record two { store = after.store } in
    (remove lists 33 two ≡ ok (Model.get two_tree (hash_of {K = ℕ} 33) 33 0) after)
    × (answer (get lists 1 older) ≡ answer (get lists 1 two))
    × (answer (get lists 1 restored) ≡ answer (get lists 1 two))
    × (len lists restored ≡ len lists two)
    × (adhash lists restored ≡ adhash lists two)
    × (arena_len lists restored ≡ arena_len lists two)
rollback-remove_example = rollback-remove lists lists-IsChampStore two two_tree 33 two_run.holds 1

-- Calls on a map.
abbrev calls : List (Call ℕ ℕ)
calls =
    insert_call 1 10
    ∷ insert_call 33 20
    ∷ insert_call 18446744073709551617 30
    ∷ remove_call 1
    ∷ contains_key_call 33
    ∷ iter_call
    ∷ at_key_call 1
    ∷ len_call
    ∷ []

replies_ok_example : replies (perform lists) calls one_map ≡ replies_on calls one_tree
replies_ok_example = replies_ok lists lists-IsChampStore calls one_map one_tree one_run.holds

reached-Holds_example : (t : Trie ℕ ℕ) × Holds lists lists-IsChampStore one_map t
reached-Holds_example =
    reached-Holds lists lists-IsChampStore one_map (inserted 1 10 _ start one_run.returns)

sync_replies_example :
    replies
      (perform_sync (list_arena Node) (list_arena (Entry ℕ ℕ)) (list_arena ℕ))
      calls
      (Sync.new (list_arena Node) (list_arena (Entry ℕ ℕ)) (list_arena ℕ))
    ≡ replies (perform lists) calls (new lists)
sync_replies_example =
    sync_replies (list_arena Node) (list_arena Node) (list_arena (Entry ℕ ℕ))
      (list_arena (Entry ℕ ℕ)) (list_arena ℕ) (list_arena ℕ) (list_arena-IsArena Node)
      (list_arena-IsArena (Entry ℕ ℕ)) (list_arena-IsArena ℕ) (list_arena-IsArena Node)
      (list_arena-IsArena (Entry ℕ ℕ)) (list_arena-IsArena ℕ) calls

should_inline_lem_example :
    (n : Node) × (get_elem? (lists-IsChampStore.view leaf_store).nodes leaf_at ≡ some n)
    × (should_inline n ≡ (length (Model.entries (inner leaf)) == 1))
should_inline_lem_example =
    should_inline_lem (lists-IsChampStore.view leaf_store) leaf_at (inner leaf) 0 0 leaf-IsTrie
      leaf-Repr

-- The map of keys 1 and 33 without key 33.
reached-adhash_example :
    let back = (remove_ok lists lists-IsChampStore two two_tree 33 two_run.holds).after in
    (it : Iter ℕ ℕ) × (iter lists back ≡ ok it back)
    × (len lists back ≡ length it.entries)
    × (adhash lists back ≡ pairs_adhash it.entries % 2 ^ 64)
reached-adhash_example =
    let back_run = remove_ok lists lists-IsChampStore two two_tree 33 two_run.holds in
    reached-adhash lists lists-IsChampStore back_run.after (
      removed 33 _ (inserted 33 20 _ (inserted 1 10 _ start one_run.returns) two_run.returns)
        back_run.returns)
