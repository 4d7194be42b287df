-- ===== src/Node.antt =====
-- node.rs: entries, nodes and the bitmap helpers. An `Idx<T>` is its raw number, which is all that
-- the code reads of one (`from_raw`, `into_raw`).
pub mod Bitmap
use champ_trie.Prelude.{ℕ, ◌+◌, ◌-◌, ◌/◌, ◌%◌, ◌^◌, bit_and, Bool, not, ◌==◌}
use champ_trie.Bits.{count_ones}

abbrev pub bits_per_level : ℕ
bits_per_level = 5

abbrev pub max_shift : ℕ
max_shift = 60

abbrev pub Idx : Type 0
Idx = ℕ

pub record Entry {ℓ} (K V : Type ℓ) : Type ℓ where
  pub hash : ℕ
  pub key : K
  pub value : V

-- `inner data_map node_map data_start children_start adhash` and
-- `collision hash entries_start entries_len adhash`
pub data Node : Type 0 where
  inner : ℕ → ℕ → Idx → Idx → ℕ → Node
  collision : ℕ → Idx → ℕ → ℕ → Node

-- `((hash >> shift) & 0x1F) as u32`, for the shifts below 64: the code passes 0 to 60, and a shift of
-- 64 or more overflows there.
unfoldable pub fragment : ℕ → ℕ → ℕ
fragment hash shift = bit_and (hash / 2 ^ shift) 0x1F % 2 ^ 32

-- `1 << frag` on a `u32`
unfoldable pub mask : ℕ → ℕ
mask frag = 2 ^ frag % 2 ^ 32

-- A mask is at least 1, so `bit - 1` does not wrap.
unfoldable pub index : ℕ → ℕ → ℕ
index bitmap bit = count_ones (bit_and bitmap (bit - 1))

abbrev pub offset : Idx → ℕ → Idx
offset base n = base + n

-- `bitmap & bit != 0`
unfoldable pub has_bit : ℕ → ℕ → Bool
has_bit bitmap bit = not (bit_and bitmap bit == 0)

unfoldable pub adhash : Node → ℕ
adhash (inner _ _ _ _ sum) = sum
adhash (collision _ _ _ sum) = sum

unfoldable pub data_len : Node → ℕ
data_len (inner data_map _ _ _ _) = count_ones data_map
data_len (collision _ _ entries_len _) = entries_len

unfoldable pub children_len : Node → ℕ
children_len (inner _ node_map _ _ _) = count_ones node_map
children_len (collision _ _ _ _) = 0
