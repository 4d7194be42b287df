-- ===== src/Examples.antt =====
-- Runs of the theorems on a small map with numbers for keys and values, over arenas that are lists.
-- The digest of a number is its last 64 bits, so that keys 1 and 2 ^ 64 + 1 collide.
mod Removal
mod Full
mod Bitmaps
mod Overflow
mod Traversal
use champ_trie.Prelude.{
  ℕ, ◌<◌, ◌%◌, ◌^◌, ◌≡◌, refl, ap, Bool, true, false, none, some, List, [], ◌∷◌, ◌++◌, ok, ◌>>=◌,
  and_then, length, get_elem?, take, set, insert_at, erase_at, nth, count_true, bit_and, arith,
  ◌==◌, ==_iff, ==_refl,
}
use champ_trie.Bits.{is_power_of_two, complement}
use champ_trie.Bits.Flags.{of_bits}
use champ_trie.Hashing.{Hash, Key, entry_adhash}
use champ_trie.Hashing.Bounds.{entry_adhash-lt}
use champ_trie.Node.{Entry, Node, fragment, mask, index, has_bit}
use champ_trie.Node.Bitmap.{
  fragment-lt, has_bit-of_bits, index-of_bits, clear-of_bits, is_power_of_two-of_bits,
}
use champ_trie.Store.{ChampStore, IsChampStore, block_start}
use champ_trie.Store.Block.{Block}
use champ_trie.Store.Arena.{Arena, IsArena, champ_arena, champ_arena-IsChampStore}
use champ_trie.Ops.Blocks.{build_entries_inserting, build_entries_replacing, build_entries_removing}
use champ_trie.Ops.Blocks.Builds.{entries_inserting_ok, entries_replacing_ok, entries_removing_ok}
use champ_trie.Ops.Steps.{entries_store, entries_stored, node_store}
use champ_trie.Ops.Rebuild.{inner_node, inner_stored}
use champ_trie.Ops.Get.{get_recursive}
use champ_trie.Ops.Get.Refines.{get_recursive_ok}
use champ_trie.Ops.Insert.Refines.{insert_recursive_ok}
use champ_trie.Ops.Insert.{insert_recursive, create_subtree, insert_into_collision}
use champ_trie.Ops.Insert.Slots.{Inserted}
use champ_trie.Ops.Insert.Subtree.{Made, create_subtree_ok}
use champ_trie.Ops.Insert.Bucket.{bucket_ok}
use champ_trie.Ops.Insert.Overflow.{bucket_panics}
use champ_trie.Map.Iterator.{new_iter, size_hint}
use champ_trie.Map.Iteration.{at_first, iter_ok}
use champ_trie.Map.Lookup.{found_or_panic, lookups_ok}
use champ_trie.Map.{contains_key, at_key, is_some}
use champ_trie.Prelude.{panic, replicate}
use champ_trie.Trie.{Trie, Slots, inner, collision, entry, put, no_slots}
use champ_trie.Trie.Shape.{IsTrie, put-AreSlots, no_slots-AreSlots}
use champ_trie.Trie.Fresh.{Block-nil}
use champ_trie.Trie.Model
use champ_trie.Trie.Model.{overflows, trie_adhash}
use champ_trie.Trie.Lookup.{hash_of}
use champ_trie.Trie.Repr.{Repr, sum_of, keep_kids, AreKids-no_slots}
use champ_trie.Map.{
  ChampMap, new, insert, get, checkpoint, rollback, len, adhash, arena_len, extend, from_iter,
}
use champ_trie.Map.Holds.{Holds, new-Holds, answer, get_ok, adhash_ok}
use champ_trie.Map.Insertion.{entry_of, insert_ok, get-insert_map, Grown}
use champ_trie.Map.Rollback.{rollback-insert, insert-persistent, rollback-Holds}
use champ_trie.Map.Extension.{insert_all, AllFit, last_value, get-from_iter, extend_ok}

module _ {ℓ} {T : Type ℓ} where
  take_prefix : (xs ys : List T) → take (length xs) (xs ++ ys) ≡ xs
  take_prefix [] ys = refl
  take_prefix (x ∷ xs) ys = ap (◌∷◌ x) (take_prefix xs ys)

abbrev list_arena : (T : Type 0) → Arena T
list_arena T = record {
  Carrier = List T;
  Checkpoint = ℕ;
  new = [];
  alloc = λ a x. (length a, a ++ x ∷ []);
  alloc_extend = λ a xs. (block_start (length a) xs, a ++ xs);
  get = λ a i. get_elem? a i;
  len = λ a. length a;
  checkpoint = λ a. length a;
  rollback = λ a n. take n a;
}

list_arena-IsArena : (T : Type 0) → IsArena (list_arena T)
list_arena-IsArena T = record {
  contents = λ a. a;
  contents-new = refl;
  alloc_index = λ a x. refl;
  alloc_contents = λ a x. refl;
  extend_index = λ a xs. refl;
  extend_contents = λ a xs. refl;
  get_lem = λ a i. refl;
  len_lem = λ a. refl;
  rollback-checkpoint = λ a b g. rw g.1 (take_prefix a g.0);
}

abbrev lists : ChampStore ℕ ℕ
lists = champ_arena (list_arena Node) (list_arena (Entry ℕ ℕ)) (list_arena ℕ)

instance nat_hash : Hash ℕ
nat_hash = record { digest = λ x. x % 2 ^ 64; digest-lt = λ x. omega arith }

equal_lem : (a b : ℕ) → (a == b) ≡ true → a ≡ b
equal_lem a b h = (==_iff a b).0 h

instance nat_key : Key ℕ
unfolding nat_hash
nat_key = record {
  hashed = nat_hash;
  equal = λ a b. a == b;
  equal_self = λ a. ==_refl a;
  equal_flip = λ a b. ground arith;
  equal_chain = λ a b c h k. ground arith;
  digest-equal = λ a b h. ap (λ x. x % 2 ^ 64) (equal_lem a b h);
}

lists-IsChampStore : IsChampStore lists
lists-IsChampStore =
    champ_arena-IsChampStore (list_arena Node) (list_arena (Entry ℕ ℕ)) (list_arena ℕ)
      (list_arena-IsArena Node) (list_arena-IsArena (Entry ℕ ℕ)) (list_arena-IsArena ℕ)

abbrev no_tree : Trie ℕ ℕ
no_tree = inner no_slots

abbrev empty : ChampMap lists
empty = new lists

empty-Holds : Holds lists lists-IsChampStore empty no_tree
empty-Holds = new-Holds lists lists-IsChampStore

room_one : overflows no_tree (entry_of 1 10) 0 ≡ false
unfolding overflows no_slots fragment nat_key nat_hash
room_one = refl

-- The map with one entry.
one_run :
    Grown lists lists-IsChampStore empty no_tree
      (Model.insert no_tree (entry_of 1 10) 0)
      (Model.get no_tree (hash_of {K = ℕ} 1) 1 0)
      (insert lists 1 10 empty)
one_run = insert_ok lists lists-IsChampStore empty no_tree 1 10 empty-Holds room_one

abbrev one_map : ChampMap lists
one_map = one_run.after

abbrev one_tree : Trie ℕ ℕ
one_tree = Model.insert no_tree (entry_of 1 10) 0

-- Keys 1 and 33 share the first position.
room_two : overflows one_tree (entry_of 33 20) 0 ≡ false
unfolding overflows Model.insert no_slots fragment nat_key nat_hash
room_two = refl

abbrev two_map : ChampMap lists
two_map = (insert_ok lists lists-IsChampStore one_map one_tree 33 20 one_run.holds room_two).after

get-insert_map_example :
    answer ((do _ ← insert lists 33 20; get lists 1) one_map) ≡ answer (get lists 1 one_map)
unfolding nat_key
get-insert_map_example =
    get-insert_map lists lists-IsChampStore one_map one_tree 33 20 one_run.holds room_two 1

insert_ok_example :
    Grown lists lists-IsChampStore one_map one_tree
      (Model.insert one_tree (entry_of 33 20) 0)
      (Model.get one_tree (hash_of {K = ℕ} 33) 33 0)
      (insert lists 33 20 one_map)
insert_ok_example = insert_ok lists lists-IsChampStore one_map one_tree 33 20 one_run.holds room_two

get_ok_example : get lists 1 one_map ≡ ok (Model.get one_tree (hash_of {K = ℕ} 1) 1 0) one_map
get_ok_example = get_ok lists lists-IsChampStore one_map one_tree 1 one_run.holds

rollback-insert_example :
    let restored = rollback lists two_map (checkpoint lists one_map) in
    (insert lists 33 20 one_map ≡ ok (Model.get one_tree (hash_of {K = ℕ} 33) 33 0) two_map)
    × (answer (get lists 1 restored) ≡ answer (get lists 1 one_map))
    × (len lists restored ≡ len lists one_map)
    × (adhash lists restored ≡ adhash lists one_map)
    × (arena_len lists restored ≡ arena_len lists one_map)
rollback-insert_example =
    rollback-insert lists lists-IsChampStore one_map one_tree 33 20 one_run.holds room_two 1

insert-persistent_example :
    (insert lists 33 20 one_map ≡ ok (Model.get one_tree (hash_of {K = ℕ} 33) 33 0) two_map)
    × (answer (get lists 1 (record one_map { store = two_map.store }))
        ≡ answer (get lists 1 one_map))
insert-persistent_example =
    insert-persistent lists lists-IsChampStore one_map one_tree 33 20 one_run.holds room_two 1

rollback-Holds_example :
    Holds lists lists-IsChampStore (rollback lists one_map (checkpoint lists empty)) no_tree
rollback-Holds_example =
    rollback-Holds lists lists-IsChampStore empty one_map one_run.extends no_tree empty-Holds

abbrev pairs : List (ℕ × ℕ)
pairs = (1, 10) ∷ (33, 20) ∷ (18446744073709551617, 30) ∷ (1, 40) ∷ []

pairs_fit : AllFit no_tree pairs
unfolding overflows Model.insert Model.join no_slots fragment nat_key nat_hash
pairs_fit = (refl, (refl, (refl, (refl, tt))))

get-from_iter_example :
    answer (and_then (from_iter lists pairs) (λ _. get lists 1)) ≡ some (last_value pairs 1 none)
get-from_iter_example = get-from_iter lists lists-IsChampStore pairs 1 pairs_fit

extend_ok_example :
    (after : ChampMap lists) × (extend lists pairs empty ≡ ok tt after)
    × Holds lists lists-IsChampStore after (insert_all no_tree pairs)
extend_ok_example = extend_ok lists lists-IsChampStore empty no_tree pairs empty-Holds pairs_fit

create_subtree_ok_example :
    Made lists lists-IsChampStore lists.new
      (Model.join 14 (entry_of 1 10) (entry_of 18446744073709551617 20) 0)
      (create_subtree lists 14 (entry_of 1 10) (entry_of 18446744073709551617 20) 0 lists.new)
create_subtree_ok_example =
    create_subtree_ok lists lists-IsChampStore 14 13 lists.new (entry_of 1 10)
      (entry_of 18446744073709551617 20) 0 (omega arith) (omega arith)

champ_arena-IsChampStore_example :
    IsChampStore (champ_arena (list_arena Node) (list_arena (Entry ℕ ℕ)) (list_arena ℕ))
champ_arena-IsChampStore_example =
    champ_arena-IsChampStore (list_arena Node) (list_arena (Entry ℕ ℕ)) (list_arena ℕ)
      (list_arena-IsArena Node) (list_arena-IsArena (Entry ℕ ℕ)) (list_arena-IsArena ℕ)

-- An arena of three entries.
abbrev three : List (Entry ℕ ℕ)
three = entry_of 1 10 ∷ entry_of 2 20 ∷ entry_of 3 30 ∷ []

abbrev three_store : lists.Store
three_store = entries_store lists lists-IsChampStore lists.new three

three-Block : Block (lists-IsChampStore.view three_store).entries 0 three
three-Block =
    let start : length (lists-IsChampStore.view lists.new).entries ≡ 0 =
      ap (λ a. length a.entries) lists-IsChampStore.view-new in
    rw start at (entries_stored lists lists-IsChampStore lists.new three)

entries_inserting_ok_example :
    build_entries_inserting lists 0 3 1 (entry_of 4 40) three_store
    ≡ ok (insert_at three 1 (entry_of 4 40)) three_store
entries_inserting_ok_example =
    entries_inserting_ok lists lists-IsChampStore three_store 0 three three-Block 1 (entry_of 4 40)
      (omega arith)

entries_replacing_ok_example :
    build_entries_replacing lists 0 3 1 (entry_of 4 40) three_store
    ≡ ok (set three 1 (entry_of 4 40)) three_store
entries_replacing_ok_example =
    entries_replacing_ok lists lists-IsChampStore three_store 0 three three-Block 1 (entry_of 4 40)
      (omega arith)

entries_removing_ok_example :
    build_entries_removing lists 0 3 1 three_store ≡ ok (erase_at three 1) three_store
entries_removing_ok_example =
    entries_removing_ok lists lists-IsChampStore three_store 0 three three-Block 1 (omega arith)

bucket_ok_example :
    Inserted lists lists-IsChampStore three_store
      (collision 7 three)
      (collision 7 (Model.upsert three (entry_of 4 40)))
      (Model.find three 4)
      (insert_into_collision lists 3 0 7 0 3
        (sum_of (collision 7 three))
        (entry_of 4 40)
        three_store)
unfolding Model.find nat_key
bucket_ok_example =
    bucket_ok lists lists-IsChampStore three_store 7 0 three (entry_of 4 40) three-Block refl

-- A store with one node, which holds key 1 at its position 1.
abbrev leaf : Slots ℕ ℕ
leaf = put no_slots 1 (entry (entry_of 1 10))

abbrev leaf_entries : lists.Store
leaf_entries = entries_store lists lists-IsChampStore lists.new (entry_of 1 10 ∷ [])

abbrev leaf_store : lists.Store
leaf_store = node_store lists lists-IsChampStore leaf_entries (inner_node leaf 0 0)

abbrev leaf_at : ℕ
leaf_at = length (lists-IsChampStore.view leaf_entries).nodes

leaf-Repr : Repr (lists-IsChampStore.view leaf_store) leaf_at (inner leaf)
unfolding no_slots nat_key nat_hash
leaf-Repr =
    let v = lists-IsChampStore.view leaf_entries in
    let start : length (lists-IsChampStore.view lists.new).entries ≡ 0 =
      ap (λ a. length a.entries) lists-IsChampStore.view-new in
    inner_stored lists lists-IsChampStore leaf_entries leaf [] 0 0
      (rw start at (entries_stored lists lists-IsChampStore lists.new (entry_of 1 10 ∷ [])))
      (Block-nil v.children 0)
      (keep_kids v [] no_slots 1 (entry (entry_of 1 10)) (AreKids-no_slots v) refl refl)

leaf-IsTrie : IsTrie (inner leaf) 0 0
unfolding no_slots nat_key nat_hash
leaf-IsTrie = (
  omega arith,
  refl,
  put-AreSlots no_slots 0 0 1 (entry (entry_of 1 10)) (no_slots-AreSlots ℕ ℕ 0 0)
      (record { hash_lem = refl; on_path = refl }),
)

get_recursive_ok_example :
    get_recursive lists 14 leaf_at 1 1 0 leaf_store ≡ ok (Model.get (inner leaf) 1 1 0) leaf_store
get_recursive_ok_example =
    get_recursive_ok lists lists-IsChampStore 14 13 (inner leaf) leaf_store leaf_at 1 1 0 0
      (omega arith) (omega arith) leaf-IsTrie leaf-Repr

leaf_room : overflows (inner leaf) (entry_of 33 20) 0 ≡ false
unfolding overflows fragment no_slots nat_key nat_hash
leaf_room = refl

insert_recursive_ok_example :
    Inserted lists lists-IsChampStore leaf_store
      (inner leaf)
      (Model.insert (inner leaf) (entry_of 33 20) 0)
      (Model.get (inner leaf) (hash_of {K = ℕ} 33) 33 0)
      (insert_recursive lists 14 leaf_at (entry_of 33 20) 0 leaf_store)
unfolding nat_key nat_hash
insert_recursive_ok_example =
    insert_recursive_ok lists lists-IsChampStore 14 13 (inner leaf) leaf_store leaf_at
      (entry_of 33 20) 0 0 (omega arith) (omega arith) leaf-IsTrie
      (record { hash_lem = refl; on_path = omega arith }) leaf_room leaf-Repr

lookups_ok_example :
    (contains_key lists 1 one_map
      ≡ ok (is_some (Model.get one_tree (hash_of {K = ℕ} 1) 1 0)) one_map)
    × (at_key lists 1 one_map
        ≡ found_or_panic lists one_map (Model.get one_tree (hash_of {K = ℕ} 1) 1 0))
lookups_ok_example = lookups_ok lists lists-IsChampStore one_map one_tree 1 one_run.holds

iter_ok_example :
    (new_iter lists one_map.root one_map.store ≡ ok (at_first one_tree) one_map.store)
    × (size_hint (at_first one_tree) ≡ (len lists one_map, some (len lists one_map)))
iter_ok_example = iter_ok lists lists-IsChampStore one_map one_tree one_run.holds
