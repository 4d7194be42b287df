-- ===== src/Store/ArenaSync.antt =====
-- arena_sync.rs: the backend over three shared arenas. Its methods are those of arena.rs on
-- `safe_bump::SharedArena`, which promises of one caller after the other what `Arena` does.
use champ_trie.Node.{Entry, Node, Idx}
use champ_trie.Store.{ChampStore, IsChampStore}
use champ_trie.Store.Arena.{Arena, IsArena, ChampArena, champ_arena, champ_arena-IsChampStore}

module _ {ℓ} {K V : Type ℓ} (N : Arena Node) (E : Arena (Entry K V)) (C : Arena Idx) where
  abbrev pub ChampArenaSync : Type ℓ
  ChampArenaSync = ChampArena N E C

  unfoldable pub new_sync : ChampArenaSync
  unfolding champ_arena
  new_sync = (champ_arena N E C).new

  -- `impl ChampStore for ChampArenaSync`
  unfoldable pub champ_arena_sync : ChampStore K V
  champ_arena_sync = champ_arena N E C

  pub champ_arena_sync-IsChampStore :
      IsArena N → IsArena E → IsArena C → IsChampStore champ_arena_sync
  unfolding champ_arena_sync
  champ_arena_sync-IsChampStore n e c = champ_arena-IsChampStore N E C n e c
