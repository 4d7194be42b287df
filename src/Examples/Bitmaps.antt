-- ===== src/Examples/Bitmaps.antt =====
-- Runs of the theorems on bitmaps, fragments and contributions.
use champ_trie.Prelude.{
  ℕ, ◌*◌, ◌≤◌, ◌≡◌, ◌≢◌, Bool, true, false, List, [], ◌∷◌, take, nth, count_true, arith, ◌==◌,
}
use champ_trie.Bits.Flags.{of_bits}
use champ_trie.Hashing.{entry_adhash}
use champ_trie.Hashing.Mixing.{entry_adhash_apart}
use champ_trie.Trie.Levels.{parting_level}
use champ_trie.Node.{bits_per_level, max_shift, fragment, mask, index, has_bit}
use champ_trie.Node.Bitmap.{has_bit-of_bits, index-of_bits}

entry_adhash_apart_example :
    ((entry_adhash 3 5 == entry_adhash 3 6) ≡ (5 == 6))
    × ((entry_adhash 3 5 == entry_adhash 4 5) ≡ (3 == 4))
entry_adhash_apart_example =
    entry_adhash_apart 3 4 5 6 (omega arith) (omega arith) (omega arith) (omega arith)

-- Keys 1 and 33 share the first fragment.
parting_level_example :
    (i : ℕ) × (bits_per_level * i ≤ max_shift)
    × (fragment 1 (bits_per_level * i) ≢ fragment 33 (bits_per_level * i))
parting_level_example = parting_level 1 33 (omega arith) (omega arith) (λ e. omega (arith, e))

abbrev flags : List Bool
flags = true ∷ false ∷ true ∷ true ∷ []

has_bit-of_bits_example : has_bit (of_bits flags) (mask 2) ≡ nth flags 2
has_bit-of_bits_example = has_bit-of_bits flags 2 (omega arith)

index-of_bits_example : index (of_bits flags) (mask 3) ≡ count_true (take 3 flags)
index-of_bits_example = index-of_bits flags 3 (omega arith) (omega arith)
