-- ===== src/Hash/NameKeys.antt =====
-- The names of the cache as the keys of its table: `dns_hash` and `rhnicmp` at proper names have
-- the laws of `Keys`.
use tor_android_service_arch.Hash.Key.{Keys, hash_num_buckets}
use tor_android_service_arch.Hash.Names.{dns_hash, dns_hash-same_name, dns_hash-encode}
use tor_android_service_arch.Names.Equivalence.{
  FixesLengths, same_label-IsEquivalence, same_label-encode, rhnicmp-same_label,
}
use tor_android_service_arch.Names.Compare.{same_label, same_name}
use tor_android_service_arch.Names.Wire.{Label, encode, IsName}
use tor_android_service_arch.Names.{Bytes, rhnicmp}
use tor_android_service_arch.Prelude.{
  ℕ, ◌<◌, arith, [], ◌≡◌, sym, ap, ◌∙◌, Bool, true, false, List, append-nil, Option, none, some,
}

-- A proper name.
pub record Name : Type 0 where
  pub labels : List Label
  pub is_name : IsName labels

abbrev pub name_bytes : Name → Bytes
name_bytes n = encode n.labels

abbrev short_of : Option (ℕ × ℕ) → ℕ
short_of none = 0
short_of (some h) = h.0

abbrev long_of : Option (ℕ × ℕ) → ℕ
long_of none = 0
long_of (some h) = h.1

abbrev answer_of : Option Bool → Bool
answer_of none = false
answer_of (some b) = b

module _ (tolower toupper : ℕ → ℕ) (long_bits : ℕ) where
  -- `rhnicmp`, and the two results of `dns_hash`.
  abbrev pub same_names : Name → Name → Bool
  same_names a b = answer_of (rhnicmp tolower (name_bytes a) (name_bytes b))

  abbrev pub short_hash : Name → ℕ
  short_hash n = short_of (dns_hash toupper long_bits (name_bytes n))

  abbrev pub long_hash : Name → ℕ
  long_hash n = long_of (dns_hash toupper long_bits (name_bytes n))

  -- On proper names `rhnicmp` gives an answer.
  rhnicmp-names :
      (a b : Name)
      → FixesLengths tolower
      → rhnicmp tolower (name_bytes a) (name_bytes b)
        ≡ some (same_label tolower (name_bytes a) (name_bytes b))
  rhnicmp-names a b f =
      rw (append-nil, append-nil) at
        (rhnicmp-same_label tolower a.labels b.labels [] [] f a.is_name b.is_name)

  pub same_names-same_label :
      (a b : Name)
      → FixesLengths tolower
      → same_names a b ≡ same_label tolower (name_bytes a) (name_bytes b)
  same_names-same_label a b f = ap answer_of (rhnicmp-names a b f)

  pub hash-same_names :
      (a b : Name)
      → FixesLengths tolower
      → ((x y : ℕ) → tolower x ≡ tolower y → toupper x ≡ toupper y)
      → same_names a b ≡ true
      → dns_hash toupper long_bits (name_bytes a) ≡ dns_hash toupper long_bits (name_bytes b)
  hash-same_names a b f case e =
      let same : same_name tolower a.labels b.labels ≡ true =
        sym (same_label-encode tolower a.labels b.labels f a.is_name b.is_name)
        ∙ (sym (same_names-same_label a b f) ∙ e) in
      rw (append-nil, append-nil) at
        (dns_hash-same_name tolower toupper long_bits a.labels b.labels [] [] case a.is_name same)

  pub short_hash-lt : (n : Name) → short_hash n < hash_num_buckets
  short_hash-lt n =
      let (s, r, e) = dns_hash-encode toupper long_bits n.labels n.is_name in rw e (omega arith)

  -- The names with `rhnicmp` and `dns_hash` have the laws that the table needs, where `tolower`
  -- leaves the bytes of a length alone and `toupper` does not tell apart what `tolower` makes
  -- equal.
  unfoldable pub name_keys :
      FixesLengths tolower → ((x y : ℕ) → tolower x ≡ tolower y → toupper x ≡ toupper y) → Keys Name
  name_keys f case =
      let s = same_label-IsEquivalence tolower in
      let e = λ (a b : Name). same_names-same_label a b f in
      record {
        idx = short_hash;
        rhash = long_hash;
        same = same_names;
        same_refl = λ a. e a a ∙ s.same_refl (name_bytes a);
        same_symm = λ a b. e a b ∙ (s.same_symm (name_bytes a) (name_bytes b) ∙ sym (e b a));
        same_trans = λ a b c x y.
            e a c
            ∙ s.same_trans (name_bytes a) (name_bytes b) (name_bytes c) (sym (e a b) ∙ x)
                (sym (e b c) ∙ y);
        idx-same = λ a b x. ap short_of (hash-same_names a b f case x);
        rhash-same = λ a b x. ap long_of (hash-same_names a b f case x);
        idx-lt = short_hash-lt;
      }
