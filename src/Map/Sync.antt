-- ===== src/Map/Sync.antt =====
-- map_sync.rs: the methods of map.rs, over shared arenas.
use champ_trie.Prelude.{
  ℕ, ◌≡◌, refl, ap, sym, ◌∙◌, Bool, Option, List, [], ◌∷◌, Run, Cmd, ok, panic, out_of_fuel, pure,
  ◌>>=◌, some,
}
use champ_trie.Hashing.{Hash, Key}
use champ_trie.Node.{Entry, Node, Idx}
use champ_trie.Store.{ChampStore}
use champ_trie.Store.Arena.{Arena, IsArena, champ_arena, champ_arena-IsChampStore}
use champ_trie.Store.ArenaSync.{champ_arena_sync, champ_arena_sync-IsChampStore}
use champ_trie.Map
use champ_trie.Map.{ChampMap, ChampCheckpoint}
use champ_trie.Map.Iterator
use champ_trie.Map.Iterator.{Iter}
use champ_trie.Map.Session.{
  Call, insert_call, remove_call, get_call, contains_key_call, at_key_call, is_empty_call, len_call,
  adhash_call, iter_call, Reply, value, truth, number, pairs, Replies, reply, replies, perform,
  same_replies,
}

module _ {ℓ} {K V : Type ℓ} (N : Arena Node) (E : Arena (Entry K V)) (C : Arena Idx) where
  abbrev shared : ChampStore K V
  shared = champ_arena_sync N E C

  abbrev pub ChampMapSync : Type ℓ
  ChampMapSync = ChampMap shared

  unfoldable pub new : ChampMapSync
  new = Map.new shared

  unfoldable pub default : ChampMapSync
  default = Map.default shared

  unfoldable pub len : ChampMapSync → ℕ
  len m = Map.len shared m

  unfoldable pub is_empty : ChampMapSync → Bool
  is_empty m = Map.is_empty shared m

  unfoldable pub adhash : ChampMapSync → ℕ
  adhash m = Map.adhash shared m

  unfoldable pub checkpoint : ChampMapSync → ChampCheckpoint shared
  checkpoint m = Map.checkpoint shared m

  unfoldable pub arena_len : ChampMapSync → ℕ × ℕ × ℕ
  arena_len m = Map.arena_len shared m

  unfoldable pub rollback : ChampMapSync → ChampCheckpoint shared → ChampMapSync
  rollback m cp = Map.rollback shared m cp

  unfoldable pub iter : Cmd ChampMapSync (Iter K V)
  iter = Iterator.iter shared

  unfoldable pub into_iter : Cmd ChampMapSync (Iter K V)
  into_iter = Iterator.into_iter shared

  module _ ⦃key : Key K⦄ where
    unfoldable pub get : K → Cmd ChampMapSync (Option V)
    get k = Map.get shared k

    unfoldable pub contains_key : K → Cmd ChampMapSync Bool
    contains_key k = Map.contains_key shared k

    unfoldable pub at_key : K → Cmd ChampMapSync V
    at_key k = Map.at_key shared k

  module _ ⦃key : Key K⦄ ⦃h : Hash V⦄ where
    unfoldable pub insert : K → V → Cmd ChampMapSync (Option V)
    insert k v = Map.insert shared k v

    unfoldable pub remove : K → Cmd ChampMapSync (Option V)
    remove k = Map.remove shared k

    unfoldable pub extend : List (K × V) → Cmd ChampMapSync (Unit {ℓ})
    extend iter = Map.extend shared iter

    unfoldable pub from_iter : List (K × V) → Run ChampMapSync (Unit {ℓ})
    from_iter iter = Map.from_iter shared iter

    unfoldable pub perform_sync : Call K V → Cmd ChampMapSync (Reply K V)
    perform_sync (insert_call k v) = do old ← insert k v; pure (value old)
    perform_sync (remove_call k) = do old ← remove k; pure (value old)
    perform_sync (get_call k) = do found ← get k; pure (value found)
    perform_sync (contains_key_call k) = do b ← contains_key k; pure (truth b)
    perform_sync (at_key_call k) = do v ← at_key k; pure (value (some v))
    perform_sync len_call = λ m. ok (number (len m)) m
    perform_sync is_empty_call = λ m. ok (truth (is_empty m)) m
    perform_sync adhash_call = λ m. ok (number (adhash m)) m
    perform_sync iter_call = do it ← iter; pure (pairs it.entries)

    -- The calls on the two maps have one text.
    perform_lem : (c : Call K V) (m : ChampMap shared) → perform shared c m ≡ perform_sync c m
    unfolding perform perform_sync insert remove get contains_key at_key len is_empty adhash iter
    perform_lem (insert_call k v) m = refl
    perform_lem (remove_call k) m = refl
    perform_lem (get_call k) m = refl
    perform_lem (contains_key_call k) m = refl
    perform_lem (at_key_call k) m = refl
    perform_lem is_empty_call m = refl
    perform_lem len_call m = refl
    perform_lem adhash_call m = refl
    perform_lem iter_call m = refl

    reply-congr :
        (later later' : ChampMapSync → Replies K V) (run : Run ChampMapSync (Reply K V))
        → ((m : ChampMapSync) → later m ≡ later' m)
        → reply (perform shared) later run ≡ reply perform_sync later' run
    reply-congr later later' (ok r m) e = ap (λ rs. some r ∷ rs) (e m)
    reply-congr later later' panic e = refl
    reply-congr later later' out_of_fuel e = refl

    replies-perform_sync :
        (calls : List (Call K V)) (m : ChampMapSync)
        → replies (perform shared) calls m ≡ replies perform_sync calls m
    unfolding replies
    replies-perform_sync [] m = refl
    replies-perform_sync (c ∷ calls) m = rw (perform_lem c m) (
        reply-congr (λ m'. replies (perform shared) calls m') (λ m'. replies perform_sync calls m')
          (perform_sync c m) (λ m'. replies-perform_sync calls m'))

-- Over arenas and shared arenas that behave as sequences: the thread-safe map gives the same
-- replies as the single-threaded map to every sequence of calls on a new map, up to the first
-- panic.
pub sync_replies {ℓ} :
    {K V : Type ℓ} ⦃key : Key K⦄ ⦃h : Hash V⦄ (N M : Arena Node) (E F : Arena (Entry K V))
    (C D : Arena Idx)
    → IsArena N
    → IsArena E
    → IsArena C
    → IsArena M
    → IsArena F
    → IsArena D
    → (calls : List (Call K V))
    → replies (perform_sync N E C) calls (new N E C)
      ≡ replies (perform (champ_arena M F D)) calls (Map.new (champ_arena M F D))
unfolding new
sync_replies N M E F C D n e c n' e' c' calls =
    sym (replies-perform_sync N E C calls (Map.new (champ_arena_sync N E C)))
    ∙ same_replies (champ_arena_sync N E C) (champ_arena M F D)
        (champ_arena_sync-IsChampStore N E C n e c) (champ_arena-IsChampStore M F D n' e' c') calls
