-- ===== src/Hash/NameTable.antt =====
-- The hash table with the program's own names, hashes and comparison.
use tor_android_service_arch.Hash.NameKeys.{Name, name_keys, same_names}
use tor_android_service_arch.Hash.Table.{IsTable, lookup, add_dns_hash-lookup, del_dns_hash-lookup}
use tor_android_service_arch.Hash.{Buckets, dns_lookup, add_dns_hash, del_dns_hash}
use tor_android_service_arch.Names.Equivalence.{FixesLengths}
use tor_android_service_arch.Prelude.{ℕ, ◌≡◌, true, none, some, if◌then◌else◌}

module _ {D : Type 0} (tolower toupper : ℕ → ℕ) (long_bits : ℕ) (fixes : FixesLengths tolower)
    (case : (x y : ℕ) → tolower x ≡ tolower y → toupper x ≡ toupper y) (qname : D → Name) where
  -- An entry for a proper name that is not in a sound table is added at the place where the lookup
  -- of its name stopped: the table stays sound, and the lookup of a name that `rhnicmp` calls the
  -- same finds the new entry, that of any other name what it did. `tolower` leaves the bytes of a
  -- length alone, and `toupper` does not tell apart what `tolower` makes equal.
  pub add_dns_hash-names :
      (bs : Buckets D) (d : D)
      → IsTable (name_keys tolower toupper long_bits fixes case) qname bs
      → lookup (name_keys tolower toupper long_bits fixes case) qname (qname d) bs ≡ none
      → (bs' : Buckets D) × (add_dns_hash true d
            (dns_lookup (name_keys tolower toupper long_bits fixes case) qname (qname d) bs).1
            bs
          ≡ some bs')
        × IsTable (name_keys tolower toupper long_bits fixes case) qname bs'
        × ((q : Name)
            → lookup (name_keys tolower toupper long_bits fixes case) qname q bs' ≡ (
                if same_names tolower toupper long_bits q (qname d)
                then some d
                else lookup (name_keys tolower toupper long_bits fixes case) qname q bs))
  unfolding name_keys
  add_dns_hash-names = add_dns_hash-lookup (name_keys tolower toupper long_bits fixes case) qname

  -- `del_dns_hash` of a proper name from a sound table returns what the lookup of the name finds,
  -- and leaves the table sound; then the lookup of a name that `rhnicmp` calls the same finds
  -- nothing, that of any other name what it did. `tolower` leaves the bytes of a length alone, and
  -- `toupper` does not tell apart what `tolower` makes equal.
  pub del_dns_hash-names :
      (bs : Buckets D) (key : Name)
      → IsTable (name_keys tolower toupper long_bits fixes case) qname bs
      → ((del_dns_hash (name_keys tolower toupper long_bits fixes case) qname key bs).0
          ≡ lookup (name_keys tolower toupper long_bits fixes case) qname key bs)
        × IsTable
            (name_keys tolower toupper long_bits fixes case)
            qname
            (del_dns_hash (name_keys tolower toupper long_bits fixes case) qname key bs).1
        × ((q : Name)
            → lookup
                (name_keys tolower toupper long_bits fixes case)
                qname
                q
                (del_dns_hash (name_keys tolower toupper long_bits fixes case) qname key bs).1
              ≡ (if same_names tolower toupper long_bits q key
                  then none
                  else lookup (name_keys tolower toupper long_bits fixes case) qname q bs))
  unfolding name_keys
  del_dns_hash-names = del_dns_hash-lookup (name_keys tolower toupper long_bits fixes case) qname
