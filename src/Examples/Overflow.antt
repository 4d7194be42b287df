-- ===== src/Examples/Overflow.antt =====
-- A full collision node.
use champ_trie.Prelude.{ℕ, ◌≡◌, refl, ap, none, List, length}
use champ_trie.Node.{Entry}
use champ_trie.Store.Block.{Block}
use champ_trie.Ops.Steps.{entries_store, entries_stored}
use champ_trie.Ops.Insert.{insert_into_collision}
use champ_trie.Ops.Insert.Overflow.{bucket_panics}
use champ_trie.Prelude.{panic, replicate}
use champ_trie.Trie.Model
use champ_trie.Trie.Model.{overflows, trie_adhash}
use champ_trie.Map.Insertion.{entry_of}
use champ_trie.Examples.{lists, lists-IsChampStore, nat_hash, nat_key}

-- A full collision node.
abbrev full : List (Entry ℕ ℕ)
full = replicate 255 (entry_of 1 10)

abbrev full_store : lists.Store
full_store = entries_store lists lists-IsChampStore lists.new full

full-Block : Block (lists-IsChampStore.view full_store).entries 0 full
full-Block =
    let start : length (lists-IsChampStore.view lists.new).entries ≡ 0 =
      ap (λ a. length a.entries) lists-IsChampStore.view-new in
    rw start at (entries_stored lists lists-IsChampStore lists.new full)

absent : Model.find full 4 ≡ none
unfolding Model.find nat_key
absent = refl

bucket_panics_example :
    insert_into_collision lists (length full) 0 1 0 (length full) 5 (entry_of 4 40) full_store
    ≡ panic
bucket_panics_example =
    bucket_panics lists lists-IsChampStore full_store 1 0 5 (entry_of 4 40) full full-Block refl
      absent
