-- ===== src/Hash/Tests.antt =====
-- The theorems at a table of names, with the letters of ASCII.
use tor_android_service_arch.Hash.NameKeys.{Name, name_keys, same_names}
use tor_android_service_arch.Hash.NameTable.{add_dns_hash-names, del_dns_hash-names}
use tor_android_service_arch.Hash.Table.{IsTable, lookup, mk_dns_hash-IsTable}
use tor_android_service_arch.Hash.{Buckets, mk_dns_hash, dns_lookup, add_dns_hash, del_dns_hash}
use tor_android_service_arch.Hash.Key.{Keys}
use tor_android_service_arch.Hash.Names.{dns_hash}
use tor_android_service_arch.Names.{rhnicmp}
use tor_android_service_arch.Prelude.{
  ℕ, ◌+◌, ◌-◌, ◌≤◌, ◌&&◌, leb, ◌≡◌, refl, ◌∙◌, true, [], ◌∷◌, if◌then◌else◌, arith, none, some,
}

abbrev ascii_lower : ℕ → ℕ
ascii_lower b = if leb 65 b && leb b 90 then b + 32 else b

abbrev ascii_upper : ℕ → ℕ
ascii_upper b = if leb 97 b && leb b 122 then b - 32 else b

ascii_case : (a b : ℕ) → ascii_lower a ≡ ascii_lower b → ascii_upper a ≡ ascii_upper b
ascii_case a b e = ground arith

ascii_fixes : (n : ℕ) → n ≤ 0x3f → ascii_lower n ≡ n
ascii_fixes n h = ground arith

abbrev keys : Keys Name
keys = name_keys ascii_lower ascii_upper 64 ascii_fixes ascii_case

-- An entry is its name.
abbrev itself : Name → Name
itself n = n

-- "Ab" and "aB".
abbrev ab : Name
ab = record { labels = (65 ∷ 98 ∷ []) ∷ []; is_name = (omega arith, omega arith, tt) }

abbrev ab' : Name
ab' = record { labels = (97 ∷ 66 ∷ []) ∷ []; is_name = (omega arith, omega arith, tt) }

ab_absent : lookup keys itself ab mk_dns_hash ≡ none
ab_absent = unfold mk_dns_hash dns_lookup name_keys dns_hash in refl

add_dns_hash-names_example :
    (bs' : Buckets Name) × (add_dns_hash true ab
        (dns_lookup keys itself ab mk_dns_hash).1
        mk_dns_hash
      ≡ some bs')
    × IsTable keys itself bs'
    × ((q : Name)
        → lookup keys itself q bs' ≡ (
            if same_names ascii_lower ascii_upper 64 q ab
            then some ab
            else lookup keys itself q mk_dns_hash))
add_dns_hash-names_example =
    add_dns_hash-names ascii_lower ascii_upper 64 ascii_fixes ascii_case itself mk_dns_hash ab
      (mk_dns_hash-IsTable keys itself) ab_absent

-- A table with one entry, and the deletion of its name in other letters.
one_name :
    (bs' : Buckets Name) × (add_dns_hash true ab
        (dns_lookup keys itself ab mk_dns_hash).1
        mk_dns_hash
      ≡ some bs')
    × IsTable keys itself bs'
    × ((q : Name)
        → lookup keys itself q bs' ≡ (
            if same_names ascii_lower ascii_upper 64 q ab
            then some ab
            else lookup keys itself q mk_dns_hash))
one_name =
    add_dns_hash-names ascii_lower ascii_upper 64 ascii_fixes ascii_case itself mk_dns_hash ab
      (mk_dns_hash-IsTable keys itself) ab_absent

del_dns_hash-names_example :
    ((del_dns_hash keys itself ab' one_name.0).0 ≡ lookup keys itself ab' one_name.0)
    × IsTable keys itself (del_dns_hash keys itself ab' one_name.0).1
    × ((q : Name)
        → lookup keys itself q (del_dns_hash keys itself ab' one_name.0).1 ≡ (
            if same_names ascii_lower ascii_upper 64 q ab'
            then none
            else lookup keys itself q one_name.0))
del_dns_hash-names_example =
    del_dns_hash-names ascii_lower ascii_upper 64 ascii_fixes ascii_case itself one_name.0 ab'
      one_name.2

-- The lookup in other letters finds the entry, so that the deletion removes it.
one_name_found : lookup keys itself ab' one_name.0 ≡ some ab
one_name_found = one_name.3 ab' ∙ (unfold name_keys rhnicmp in refl)
