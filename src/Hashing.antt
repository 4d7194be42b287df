-- ===== src/Hashing.antt =====
-- adhash.rs, and what the code asks of a key and of a value. `DefaultHasher` and the `Hash` and
-- `Eq` implementations of the key and value types are not part of the crate: they are instance
-- arguments, with the laws that the traits document.
pub mod Bounds
pub mod Mixing
use champ_trie.Prelude.{ℕ, ◌<◌, ◌^◌, ◌≡◌, Bool, true, bit_xor}
use champ_trie.Bits.{wrapping_mul}

-- `T: Hash`: the 64-bit digest that `DefaultHasher` gives for a value.
pub record Hash {ℓ} (T : Type ℓ) : Type ℓ where
  pub digest : T → ℕ
  pub digest-lt : (x : T) → digest x < 2 ^ 64

-- `K: Hash + Eq`: `==` is an equivalence, and equal keys have equal hashes.
pub record Key {ℓ} (K : Type ℓ) : Type ℓ where
  pub hashed : Hash K
  pub equal : K → K → Bool
  pub digest-equal : (k l : K) → equal k l ≡ true → hashed.digest k ≡ hashed.digest l
  pub equal_self : (k : K) → equal k k ≡ true
  pub equal_flip : (k l : K) → equal k l ≡ equal l k
  pub equal_chain : (k l m : K) → equal k l ≡ true → equal l m ≡ true → equal k m ≡ true

unfoldable pub hash_one {ℓ} : {T : Type ℓ} ⦃h : Hash T⦄ → T → ℕ
hash_one ⦃h⦄ value = h.digest value

abbrev pub seed_1 : ℕ
seed_1 = 0x9E37_79B9_7F4A_7C15

abbrev pub seed_2 : ℕ
seed_2 = 0x517C_C1B7_2722_0A95

unfoldable pub entry_adhash : ℕ → ℕ → ℕ
entry_adhash key_hash value_hash =
    bit_xor (wrapping_mul key_hash seed_1) (wrapping_mul value_hash seed_2)
