-- ===== src/Ops/Blocks.antt =====
-- The block builders of ops/insert.rs and ops/remove.rs. The two files hold the same text of
-- `clone_entry`, `build_entries_inserting`, `build_entries_removing`, `build_children_replacing` and
-- `alloc_or_sentinel`. The `for` loops over entries and over children differ in what they read;
-- they run on the rounds left. `Vec::with_capacity(len - 1)` panics on an empty block.
pub mod Loops
pub mod Builds
use champ_trie.Prelude.{
  ℕ, zero, suc, ◌+◌, ◌-◌, Option, none, some, List, [], ◌∷◌, ◌++◌, Cmd, panic, pure, ◌>>=◌, ◌==◌,
  if◌then◌else◌,
}
use champ_trie.Node.{Entry, Idx, offset}
use champ_trie.Store.{ChampStore}
use champ_trie.Ops.{get_entry, get_child}

unfoldable pub alloc_or_sentinel : Option Idx → Idx
alloc_or_sentinel none = 0
alloc_or_sentinel (some i) = i

module _ {ℓ κ} {Store : Type ℓ} {A : Type κ} (read : Idx → Cmd Store A) where
  -- `for i in i..i + rounds { out.push(read(offset(start, i))) }`
  unfoldable pub copy_range : ℕ → Idx → ℕ → Cmd Store (List A)
  copy_range zero start i = pure []
  copy_range (suc rounds) start i = do
    x ← read (offset start i)
    out ← copy_range rounds start (i + 1)
    pure (x ∷ out)

  -- The same loop with `if i != at` round its body.
  unfoldable pub copy_others : ℕ → Idx → ℕ → ℕ → Cmd Store (List A)
  copy_others zero start at i = pure []
  copy_others (suc rounds) start at i =
      let rest = copy_others rounds start at (i + 1) in
      if i == at then rest else (do x ← read (offset start i); out ← rest; pure (x ∷ out))

  -- The same loop with `if i == at { out.push(y) } else { … }` as its body.
  unfoldable pub copy_replacing : ℕ → Idx → ℕ → A → ℕ → Cmd Store (List A)
  copy_replacing zero start at y i = pure []
  copy_replacing (suc rounds) start at y i = do
    x ← (if i == at then pure y else read (offset start i))
    out ← copy_replacing rounds start at y (i + 1)
    pure (x ∷ out)

module _ {ℓ} {K V : Type ℓ} (S : ChampStore K V) where
  open S use {Store}

  -- A `Clone` of a key or value is the value itself.
  unfoldable pub clone_entry : Idx → Cmd Store (Entry K V)
  clone_entry idx = do
    e ← get_entry S idx
    pure (record { hash = e.hash; key = e.key; value = e.value })

  unfoldable pub build_entries_inserting : Idx → ℕ → ℕ → Entry K V → Cmd Store (List (Entry K V))
  build_entries_inserting start len at entry = do
    before ← copy_range clone_entry at start 0
    after ← copy_range clone_entry (len - at) start at
    pure (before ++ entry ∷ after)

  unfoldable pub build_entries_replacing : Idx → ℕ → ℕ → Entry K V → Cmd Store (List (Entry K V))
  build_entries_replacing start len at entry = do
    before ← copy_range clone_entry at start 0
    after ← copy_range clone_entry (len - (at + 1)) start (at + 1)
    pure (before ++ entry ∷ after)

  unfoldable pub build_entries_removing : Idx → ℕ → ℕ → Cmd Store (List (Entry K V))
  build_entries_removing start len at =
      if len == 0 then (λ _. panic) else copy_others clone_entry len start at 0

  unfoldable pub build_children_inserting : Idx → ℕ → ℕ → Idx → Cmd Store (List Idx)
  build_children_inserting start len at child = do
    before ← copy_range (get_child S) at start 0
    after ← copy_range (get_child S) (len - at) start at
    pure (before ++ child ∷ after)

  unfoldable pub build_children_replacing : Idx → ℕ → ℕ → Idx → Cmd Store (List Idx)
  build_children_replacing start len at child = copy_replacing (get_child S) len start at child 0

  unfoldable pub build_children_removing : Idx → ℕ → ℕ → Cmd Store (List Idx)
  build_children_removing start len at =
      if len == 0 then (λ _. panic) else copy_others (get_child S) len start at 0
