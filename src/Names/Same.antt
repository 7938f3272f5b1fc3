-- ===== src/Names/Same.antt =====
-- What the cache needs of the comparison of names.
use tor_android_service_arch.Names.{Bytes}
use tor_android_service_arch.Prelude.{◌≡◌, Bool, true}

pub record IsEquivalence (same : Bytes → Bytes → Bool) : Type 0 where
  pub same_refl : (a : Bytes) → same a a ≡ true
  pub same_symm : (a b : Bytes) → same a b ≡ same b a
  pub same_trans : (a b c : Bytes) → same a b ≡ true → same b c ≡ true → same a c ≡ true
