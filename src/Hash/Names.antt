-- ===== src/Hash/Names.antt =====
-- The hash function of the table (hash.c, `dns_hash`): a short hash that chooses the bucket, and a
-- long one. `toupper` is that of the C library, `long_bits` the width of `unsigned long`; an
-- `unsigned` has 32 bits.
use tor_android_service_arch.Hash.Key.{hash_sz, hash_num_buckets}
use tor_android_service_arch.Names.Compare.{same_label, same_name}
use tor_android_service_arch.Names.Wire.{Label, encode, IsName}
use tor_android_service_arch.Names.{Bytes}
use tor_android_service_arch.Prelude.{
  ℕ, zero, suc, false, ◌+◌, ◌-◌, ◌*◌, ◌/◌, ◌%◌, ◌^◌, ◌≡◌, refl, arith, true, ◌==◌, if◌then◌else◌,
  List, [], ◌∷◌, ◌++◌, Option, none, some, length, append_assoc,
}

-- `s+=c<<(i%(HASH_SZ-5))`
abbrev pub short_add : (s c i : ℕ) → ℕ
short_add s c i = (s + c * 2 ^ (i % (hash_sz - 5))) % 2 ^ 32

-- One of the two lines that fold the bits above the mask onto those below.
abbrev pub fold_hash : ℕ → ℕ
fold_hash s = (s % hash_num_buckets + s / hash_num_buckets) % 2 ^ 32

abbrev pub finish_hash : ℕ → ℕ
finish_hash s = fold_hash (fold_hash s) % hash_num_buckets

module _ (toupper : ℕ → ℕ) (long_bits : ℕ) where
  -- `r+=((unsigned long)c)<<(i%(8*sizeof(unsigned long)-7))`
  abbrev pub long_add : (r c i : ℕ) → ℕ
  long_add r c i = (r + c * 2 ^ (i % (long_bits - 7))) % 2 ^ long_bits

  -- The loops, with `left` bytes of the label to come; `none` is a read behind the buffer.
  unfoldable pub hash_from : (left : ℕ) → Bytes → (i s r : ℕ) → Option (ℕ × ℕ)
  hash_from left [] i s r = none
  hash_from zero (lb ∷ str) i s r =
      let rest = hash_from lb str (i + 1) (short_add s lb i) (long_add r lb i) in
      if lb == 0 then some (s, r) else rest
  hash_from (suc left) (c ∷ str) i s r =
      hash_from left str (i + 1) (short_add s (toupper c) i) (long_add r (toupper c) i)

  -- The result and `*rhash`.
  unfoldable pub dns_hash : Bytes → Option (ℕ × ℕ)
  unfolding hash_from
  dns_hash str = elim (hash_from 0 str 0 0 0) [
    | none ↦ none
    | some (s, r) ↦ some (finish_hash s, r)
  ]

module _ (tolower toupper : ℕ → ℕ) (long_bits : ℕ) where
  hash_from-same_label :
      (l m : Label) (x y : Bytes)
      → ((a b : ℕ) → tolower a ≡ tolower b → toupper a ≡ toupper b)
      → same_label tolower l m ≡ true
      → ((i s r : ℕ)
          → hash_from toupper long_bits 0 x i s r ≡ hash_from toupper long_bits 0 y i s r)
      → (i s r : ℕ)
      → hash_from toupper long_bits (length l) (l ++ x) i s r
        ≡ hash_from toupper long_bits (length m) (m ++ y) i s r
  unfolding hash_from
  hash_from-same_label [] [] x y case e k i s r = k i s r
  hash_from-same_label [] (b ∷ m) x y case e k i s r = cc
  hash_from-same_label (a ∷ l) [] x y case e k i s r = cc
  hash_from-same_label (a ∷ l) (b ∷ m) x y case e k i s r =
      let low : tolower a ≡ tolower b = ground arith in
      let more : same_label tolower l m ≡ true = ground arith in
      rw (case a b low) (hash_from-same_label l m x y case more k _ _ _)

  same_length : (l m : Label) → same_label tolower l m ≡ true → length l ≡ length m
  same_length [] [] e = refl
  same_length [] (b ∷ m) e = cc
  same_length (a ∷ l) [] e = cc
  same_length (a ∷ l) (b ∷ m) e = ground (arith, same_length l m)

  hash_from-same_name :
      (ls ms : List Label) (x y : Bytes)
      → ((a b : ℕ) → tolower a ≡ tolower b → toupper a ≡ toupper b)
      → IsName ls
      → same_name tolower ls ms ≡ true
      → (i s r : ℕ)
      → hash_from toupper long_bits 0 (encode ls ++ x) i s r
        ≡ hash_from toupper long_bits 0 (encode ms ++ y) i s r
  unfolding hash_from
  hash_from-same_name [] [] x y case n e i s r = refl
  hash_from-same_name [] (m ∷ ms) x y case n e i s r = cc
  hash_from-same_name (l ∷ ls) [] x y case n e i s r = cc
  hash_from-same_name (l ∷ ls) (m ∷ ms) x y case n e i s r =
      let one : same_label tolower l m ≡ true = ground arith in
      let more : same_name tolower ls ms ≡ true = ground arith in
      let inner =
        hash_from-same_label l m (encode ls ++ x) (encode ms ++ y) case one
          (hash_from-same_name ls ms x y case n.2 more) (i + 1) (short_add s (length l) i)
          (long_add toupper long_bits r (length l) i) in
      rw (append_assoc, append_assoc, inner, same_length l m one) refl

  -- Names that are the same up to case have the same hashes, whatever lies behind them, if `toupper`
  -- does not tell apart what `tolower` makes equal.
  pub dns_hash-same_name :
      (ls ms : List Label) (x y : Bytes)
      → ((a b : ℕ) → tolower a ≡ tolower b → toupper a ≡ toupper b)
      → IsName ls
      → same_name tolower ls ms ≡ true
      → dns_hash toupper long_bits (encode ls ++ x) ≡ dns_hash toupper long_bits (encode ms ++ y)
  unfolding dns_hash
  dns_hash-same_name ls ms x y case n e =
      rw (dns_hash, hash_from-same_name ls ms x y case n e 0 0 0) refl

module _ (toupper : ℕ → ℕ) (long_bits : ℕ) where
  hash_from-label :
      (l : Label) (x : Bytes)
      → ((i s r : ℕ) → (h : ℕ × ℕ) × (hash_from toupper long_bits 0 x i s r ≡ some h))
      → (i s r : ℕ) → (h : ℕ × ℕ) × (hash_from toupper long_bits (length l) (l ++ x) i s r ≡ some h)
  unfolding hash_from
  hash_from-label [] x k i s r = k i s r
  hash_from-label (a ∷ l) x k i s r = hash_from-label l x k _ _ _

  hash_from-encode :
      (ls : List Label) (i s r : ℕ)
      → IsName ls
      → (h : ℕ × ℕ) × (hash_from toupper long_bits 0 (encode ls) i s r ≡ some h)
  unfolding hash_from
  hash_from-encode [] i s r n = (_, refl)
  hash_from-encode (l ∷ ls) i s r n =
      let (h, e) =
        hash_from-label l (encode ls) (λ j t u. hash_from-encode ls j t u n.2) (i + 1)
          (short_add s (length l) i) (long_add toupper long_bits r (length l) i) in
      let more : (length l == 0) ≡ false = ground (arith, n.0) in (h, rw more e)

  -- On a proper name the hash function reads no byte behind it.
  pub dns_hash-encode :
      (ls : List Label)
      → IsName ls
      → (s r : ℕ) × (dns_hash toupper long_bits (encode ls) ≡ some (finish_hash s, r))
  unfolding dns_hash
  dns_hash-encode ls n =
      let ((s, r), e) = hash_from-encode ls 0 0 0 n in (s, r, rw (dns_hash, e) refl)
