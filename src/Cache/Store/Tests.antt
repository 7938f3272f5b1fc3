-- ===== src/Cache/Store/Tests.antt =====
-- The theorems at a cache with one entry, of the name "a", and one record set.
use tor_android_service_arch.Cache.Cent.Accounts.{Accounted}
use tor_android_service_arch.Cache.Cent.Tests.{sizes, one_rr, one_rr-Accounted}
use tor_android_service_arch.Cache.Cent.Ttl.{Global}
use tor_android_service_arch.Cache.Cent.{Cent}
use tor_android_service_arch.Cache.Store.Above.{by_name, search-encode}
use tor_android_service_arch.Cache.Store.Add.{add_cache}
use tor_android_service_arch.Cache.Store.Books.{Books}
use tor_android_service_arch.Cache.Store.Fresh.{Answers, lookup_cache-Answers}
use tor_android_service_arch.Cache.Store.Grown.{add_cache-Books}
use tor_android_service_arch.Cache.Store.Look.{search, lookup_cache}
use tor_android_service_arch.Cache.Store.Purge.{purge_cent, purge_cache}
use tor_android_service_arch.Cache.Store.Shrunk.{purge_cent-Books, purge_cache-Books}
use tor_android_service_arch.Cache.Store.Tested.{purge_cent-test}
use tor_android_service_arch.Cache.Store.{Store}
use tor_android_service_arch.Names.Compare.{same_label}
use tor_android_service_arch.Names.Equivalence.{same_label-IsEquivalence}
use tor_android_service_arch.Names.Tests.{ascii_lower}
use tor_android_service_arch.Names.Wire.{Label, encode, IsName}
use tor_android_service_arch.Names.{Bytes}
use tor_android_service_arch.Prelude.{◌≡◌, refl, arith, Bool, true, false, List, [], ◌∷◌, some}

abbrev same_ascii : Bytes → Bytes → Bool
same_ascii = same_label ascii_lower

abbrev one_entry : Store
one_entry = record {
  entries = one_rr ∷ [];
  rrset_l = record { id = 7; cent = 1 ∷ 97 ∷ 0 ∷ []; idx = some 0 } ∷ [];
  fresh = 8;
  cache_size = 163;
  ent_num = 1;
  insert_sort = true;
}

one_entry-Books : Books sizes one_entry
one_entry-Books = record { size = refl; number = refl; accounted = (one_rr-Accounted, tt) }

abbrev limits : Global
limits = record { min_ttl = 120; max_ttl = 604800; neg_ttl = 900 }

-- The name "b", and an entry for it.
abbrev b_rr : Cent
b_rr = record one_rr { qname = 1 ∷ 98 ∷ 0 ∷ [] }

b_rr-Accounted : Accounted sizes 3 b_rr
b_rr-Accounted = record { shaped = refl; size = refl; count = refl }

purge_cent-Books_example :
    Books sizes (purge_cent same_ascii sizes 5000 true false one_rr one_entry).1
purge_cent-Books_example =
    purge_cent-Books same_ascii sizes 5000 true false one_rr one_entry
      (same_label-IsEquivalence ascii_lower) one_entry-Books refl

purge_cache-Books_example : Books sizes (purge_cache same_ascii sizes 1100 100 true one_entry)
purge_cache-Books_example =
    purge_cache-Books same_ascii sizes 1100 100 true one_entry
      (same_label-IsEquivalence ascii_lower) one_entry-Books

add_cache-Books_example :
    Books sizes
      (add_cache same_ascii sizes (λ i j. false) limits 100 1100 (true ∷ true ∷ []) b_rr one_entry)
add_cache-Books_example =
    add_cache-Books same_ascii sizes (λ i j. false) limits 100 1100 (true ∷ true ∷ []) b_rr
      one_entry (same_label-IsEquivalence ascii_lower) one_entry-Books b_rr-Accounted

purge_cent-test_example :
    (purge_cent same_ascii sizes 5000 true true one_rr one_entry).1 ≡ one_entry
purge_cent-test_example = purge_cent-test same_ascii sizes 5000 true one_rr one_entry refl

-- The name "b.a", below "a".
abbrev b_a : List Label
b_a = (98 ∷ []) ∷ (97 ∷ []) ∷ []

b_a-IsName : IsName b_a
b_a-IsName = (omega arith, omega arith, (omega arith, omega arith, tt))

search-encode_example :
    search same_ascii true (encode b_a) one_entry.entries
    ≡ some (by_name same_ascii one_entry.entries true b_a)
search-encode_example = search-encode same_ascii one_entry.entries true b_a b_a-IsName (omega arith)

-- The entry for "a", which has timed out.
abbrev just_a : List Label
just_a = (97 ∷ []) ∷ []

just_a-IsName : IsName just_a
just_a-IsName = (omega arith, omega arith, tt)

lookup_cache-Answers_example :
    Answers same_ascii sizes 5000
      (lookup_cache same_ascii sizes 5000 [] true (encode just_a) (λ s. s) one_entry)
lookup_cache-Answers_example =
    lookup_cache-Answers same_ascii sizes 5000 just_a just_a-IsName (omega arith) [] true (λ s. s)
      one_entry (same_label-IsEquivalence ascii_lower) one_entry-Books one_entry-Books
