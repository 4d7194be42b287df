-- ===== src/Examples/Removal/Same.antt =====
-- A map and the map after an insertion and a removal of another key.
use champ_trie.Prelude.{ℕ, ◌≡◌, refl, sym, none, ok, ◌==◌, Bool-cases, inl, inr}
use champ_trie.Examples.{
  lists, lists-IsChampStore, nat_hash, nat_key, one_run, one_map, one_tree, room_two, equal_lem,
}
use champ_trie.Examples.Removal.{two_tree, two_run, two}
use champ_trie.Node.{fragment}
use champ_trie.Trie.{Trie, no_slots}
use champ_trie.Trie.Split.{IsSplit}
use champ_trie.Trie.Lookup.{hash_of}
use champ_trie.Trie.Model
use champ_trie.Trie.Remove
use champ_trie.Trie.Remove.Root.{remains}
use champ_trie.Map.{ChampMap, get, len, adhash, remove}
use champ_trie.Map.Canonical.{same_answers}
use champ_trie.Map.Holds.{answer, get_ok}
use champ_trie.Map.Insertion.{Grown}
use champ_trie.Map.Iterator.{Iter, iter}
use champ_trie.Map.Removal.{remove_ok, remove-insert}

abbrev back_tree : Trie ℕ ℕ
back_tree = remains two_tree (Remove.remove two_tree (hash_of {K = ℕ} 33) 33 0)

back_run :
    Grown lists lists-IsChampStore two two_tree back_tree
      (Model.get two_tree (hash_of {K = ℕ} 33) 33 0)
      (remove lists 33 two)
back_run = remove_ok lists lists-IsChampStore two two_tree 33 two_run.holds

abbrev back : ChampMap lists
back = back_run.after

one-IsSplit : IsSplit one_tree
unfolding Model.insert no_slots fragment nat_key nat_hash
one-IsSplit = (
  tt,
  (
    tt,
    (
      tt,
      (
        tt,
        (
          tt,
          (
            tt,
            (
              tt,
              (
                tt,
                (
                  tt,
                  (
                    tt,
                    (
                      tt,
                      (
                        tt,
                        (
                          tt,
                          (
                            tt,
                            (
                              tt,
                              (
                                tt,
                                (
                                  tt,
                                  (
                                    tt,
                                    (
                                      tt,
                                      (
                                        tt,
                                        (
                                          tt,
                                          (
                                            tt,
                                            (
                                              tt,
                                              (
                                                tt,
                                                (tt, (tt, (tt, (tt, (tt, (tt, (tt, (tt, tt)))))))),
                                              ),
                                            ),
                                          ),
                                        ),
                                      ),
                                    ),
                                  ),
                                ),
                              ),
                            ),
                          ),
                        ),
                      ),
                    ),
                  ),
                ),
              ),
            ),
          ),
        ),
      ),
    ),
  ),
)

back-IsSplit : IsSplit back_tree
unfolding Model.insert Model.join Remove.remove no_slots fragment nat_key nat_hash
back-IsSplit = (
  tt,
  (
    tt,
    (
      tt,
      (
        tt,
        (
          tt,
          (
            tt,
            (
              tt,
              (
                tt,
                (
                  tt,
                  (
                    tt,
                    (
                      tt,
                      (
                        tt,
                        (
                          tt,
                          (
                            tt,
                            (
                              tt,
                              (
                                tt,
                                (
                                  tt,
                                  (
                                    tt,
                                    (
                                      tt,
                                      (
                                        tt,
                                        (
                                          tt,
                                          (
                                            tt,
                                            (
                                              tt,
                                              (
                                                tt,
                                                (tt, (tt, (tt, (tt, (tt, (tt, (tt, (tt, tt)))))))),
                                              ),
                                            ),
                                          ),
                                        ),
                                      ),
                                    ),
                                  ),
                                ),
                              ),
                            ),
                          ),
                        ),
                      ),
                    ),
                  ),
                ),
              ),
            ),
          ),
        ),
      ),
    ),
  ),
)

missing : Model.get one_tree (hash_of {K = ℕ} 33) 33 0 ≡ none
unfolding Model.get Model.insert no_slots fragment nat_key nat_hash
missing = refl

same : (q : ℕ) → answer (get lists q one_map) ≡ answer (get lists q back)
unfolding nat_key
same q =
    let run =
      rw (two_run.returns, back_run.returns) at
        (remove-insert lists lists-IsChampStore one_map one_tree 33 20 q one_run.holds room_two) in
    elim (Bool-cases (33 == q)) [
      | inl c ↦ rw (← equal_lem 33 q c) (
          rw (get_ok lists lists-IsChampStore one_map one_tree 33 one_run.holds, missing)
            (sym (rw (← equal_lem 33 q c) at run)))
      | inr c ↦ sym (rw c at run)
    ]

same_answers_example :
    (len lists one_map ≡ len lists back)
    × (adhash lists one_map ≡ adhash lists back)
    × ((it : Iter ℕ ℕ) × (iter lists one_map ≡ ok it one_map) × (iter lists back ≡ ok it back))
unfolding nat_key
same_answers_example =
    same_answers lists lists lists-IsChampStore lists-IsChampStore one_map back one_tree back_tree
      one_run.holds back_run.holds one-IsSplit back-IsSplit equal_lem same
