-- ===== src/Ops/Insert/Sums.antt =====
-- The contribution of an entry as a share of a sum.
use champ_trie.Prelude.{ℕ, ◌<◌, ◌+◌, ◌%◌, ◌^◌, ◌≡◌, refl, arith}
use champ_trie.Bits.{wrapping_add}
use champ_trie.Hashing.{Hash, hash_one}
use champ_trie.Hashing.Bounds.{entry_adhash-lt}
use champ_trie.Node.{Entry}
use champ_trie.Ops.Insert.{contribution}
use champ_trie.Trie.{Slot, Slots, inner, width, slot_at, put}
use champ_trie.Trie.Weight.{weigh_slot, weigh-put}
use champ_trie.Trie.Repr.{sum_of, share}

pub contribution-lt {ℓ} : {K V : Type ℓ} ⦃h : Hash V⦄ (e : Entry K V) → contribution e < 2 ^ 64
unfolding contribution
contribution-lt e = entry_adhash-lt e.hash (hash_one e.value)

pub contribution_lem {ℓ} :
    {K V : Type ℓ} ⦃h : Hash V⦄ (e : Entry K V) → contribution e ≡ share e.hash e.value
unfolding contribution
contribution_lem e = refl

-- The sum of a node follows a write of one position.
pub sum-put {ℓ} :
    {K V : Type ℓ} ⦃h : Hash V⦄ (sl : Slots K V) (f : ℕ) (x : Slot K V) (delta : ℕ)
    → f < width sl
    → (weigh_slot share (slot_at sl f) + delta) % 2 ^ 64 ≡ weigh_slot share x % 2 ^ 64
    → wrapping_add (sum_of (inner sl)) delta ≡ sum_of (inner (put sl f x))
sum-put sl f x delta b h = omega (arith, weigh-put share sl f x b)
