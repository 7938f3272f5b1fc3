-- ===== src/Hash/Key.antt =====
-- What the hash table needs of names: the two hashes of `dns_hash` and the test `rhnicmp`.
use tor_android_service_arch.Prelude.{ℕ, ◌^◌, ◌<◌, ◌≡◌, Bool, true}

-- HASH_SZ, as config.h.in sets it.
abbrev pub hash_sz : ℕ
hash_sz = 10

abbrev pub hash_num_buckets : ℕ
hash_num_buckets = 2 ^ hash_sz

pub record Keys (K : Type 0) : Type 0 where
  pub idx : K → ℕ
  pub rhash : K → ℕ
  pub same : K → K → Bool
  pub same_refl : (a : K) → same a a ≡ true
  pub same_symm : (a b : K) → same a b ≡ same b a
  pub same_trans : (a b c : K) → same a b ≡ true → same b c ≡ true → same a c ≡ true
  pub idx-same : (a b : K) → same a b ≡ true → idx a ≡ idx b
  pub rhash-same : (a b : K) → same a b ≡ true → rhash a ≡ rhash b
  pub idx-lt : (a : K) → idx a < hash_num_buckets
