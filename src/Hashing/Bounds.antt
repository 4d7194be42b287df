-- ===== src/Hashing/Bounds.antt =====
-- The bounds of the results of adhash.rs.
use champ_trie.Prelude.{ℕ, ◌<◌, ◌^◌, arith}
use champ_trie.Bits.{wrapping_mul}
use champ_trie.Bits.Step.{bit_xor-lt}
use champ_trie.Hashing.{Hash, hash_one, seed_1, seed_2, entry_adhash}

pub hash_one-lt {ℓ} : {T : Type ℓ} ⦃h : Hash T⦄ (x : T) → hash_one x < 2 ^ 64
unfolding hash_one
hash_one-lt ⦃h⦄ x = h.digest-lt x

-- The contribution of an entry is a 64-bit word, for any hashes.
pub entry_adhash-lt : (key_hash value_hash : ℕ) → entry_adhash key_hash value_hash < 2 ^ 64
unfolding entry_adhash
entry_adhash-lt key_hash value_hash =
    bit_xor-lt 64 (wrapping_mul key_hash seed_1) (wrapping_mul value_hash seed_2) (omega arith)
      (omega arith)
