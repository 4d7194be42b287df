-- ===== src/Map/Iterator.antt =====
-- iter.rs: the iterator, a list of the live entries and a position in it, and the methods of map.rs
-- that make one.
use champ_trie.Prelude.{
  ℕ, ◌+◌, ◌-◌, Option, none, some, List, [], Cmd, pure, ◌>>=◌, length, get_elem?, ltb,
  if◌then◌else◌,
}
use champ_trie.Node.{Idx}
use champ_trie.Store.{ChampStore}
use champ_trie.Ops.{levels}
use champ_trie.Ops.Collect.{collect}
use champ_trie.Map.{ChampMap, with_store}

pub record Iter {ℓ} (K V : Type ℓ) : Type ℓ where
  pub entries : List (K × V)
  pub pos : ℕ

module _ {ℓ} {K V : Type ℓ} where
  unfoldable pub next : Iter K V → Option (K × V) × Iter K V
  next it =
      if ltb it.pos (length it.entries)
      then (get_elem? it.entries it.pos, record it { pos = it.pos + 1 })
      else (none, it)

  unfoldable pub size_hint : Iter K V → ℕ × Option ℕ
  size_hint it = let remaining = length it.entries - it.pos in (remaining, some remaining)

  module _ (S : ChampStore K V) where
    open S use {Store}

    -- `Iter::new`, on the store and the root of a map
    unfoldable pub new_iter : Option Idx → Cmd Store (Iter K V)
    new_iter none = pure (record { entries = []; pos = 0 })
    new_iter (some idx) = do
      entries ← collect S levels idx []
      pure (record { entries = entries; pos = 0 })

    -- The methods of the map
    unfoldable pub iter : Cmd (ChampMap S) (Iter K V)
    iter m = with_store S (new_iter m.root) m

    unfoldable pub into_iter : Cmd (ChampMap S) (Iter K V)
    into_iter = iter
