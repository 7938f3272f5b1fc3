-- ===== src/Cache/Cent/Tests.antt =====
-- The theorems at an entry for a name of three bytes with one record.
use tor_android_service_arch.Cache.Cent.Accounts.{Accounted}
use tor_android_service_arch.Cache.Cent.Add.{add_cent_rr-Accounted}
use tor_android_service_arch.Cache.Cent.Conflict.{
  cr_check_add, remove_conflicts, conflicts, cr_check_add-Accounted, remove_conflicts-slot,
}
use tor_android_service_arch.Cache.Cent.Purge.{purge_all_rrsets}
use tor_android_service_arch.Cache.Cent.PurgeBooks.{purge_all_rrsets-Accounted}
use tor_android_service_arch.Cache.Cent.Records.{add_cent_rr}
use tor_android_service_arch.Cache.Cent.{Sizes, SetFlags, CentFlags, RrSet, Cent, rr, slot}
use tor_android_service_arch.Prelude.{
  ℕ, ◌+◌, ◌≡◌, refl, arith, Bool, true, false, ◌&&◌, leb, ltb, if◌then◌else◌, [], ◌∷◌, none, some,
  replicate,
}

abbrev pub sizes : Sizes
sizes = record { cent = 100; rr_set = 40; rr_bucket = 16; pointer = 8 }

abbrev pub no_flags : SetFlags
no_flags = record {
  negative = false;
  local = false;
  auth = false;
  nocache = false;
  additional = false;
  nopurge = false;
  rootserv = false;
}

abbrev pub plain_flags : CentFlags
plain_flags = record { local = false; auth = false; nocache = false; wild = false }

abbrev pub one_set : RrSet
one_set = record {
  lent = some 7;
  ttl = 300;
  ts = 1000;
  flags = no_flags;
  rrs = (1 ∷ 2 ∷ 3 ∷ 4 ∷ []) ∷ [];
}

abbrev pub one_rr : Cent
one_rr = record {
  qname = 1 ∷ 97 ∷ 0 ∷ [];
  cs = 163;
  num_rrs = 1;
  flags = plain_flags;
  body = rr (some one_set ∷ replicate 7 none) none;
  c_ns = none;
  c_soa = none;
}

pub one_rr-Accounted : Accounted sizes 3 one_rr
one_rr-Accounted = record { shaped = refl; size = refl; count = refl }

add_cent_rr-Accounted_example :
    Accounted sizes 3
      (add_cent_rr sizes true true true one_rr 0 200 1000 no_flags (5 ∷ 6 ∷ 7 ∷ 8 ∷ [])).cent
add_cent_rr-Accounted_example =
    add_cent_rr-Accounted sizes 3 0 200 1000 one_rr no_flags (5 ∷ 6 ∷ 7 ∷ 8 ∷ []) true true true
      (omega arith) one_rr-Accounted

-- The first and the third type exclude each other.
abbrev alias_excludes : ℕ → ℕ → Bool
alias_excludes idx i = leb 2 idx && leb i 0

cr_check_add-Accounted_example :
    Accounted sizes 3 (cr_check_add sizes alias_excludes 2 1100 one_rr 400 no_flags).cent
cr_check_add-Accounted_example =
    cr_check_add-Accounted sizes alias_excludes 2 1100 3 400 one_rr no_flags one_rr-Accounted

remove_conflicts-slot_example :
    slot (remove_conflicts sizes alias_excludes 2 1100 8 0 one_rr).0 0 ≡ (
      if leb 0 0 && ltb 0 (0 + 8) && conflicts alias_excludes 2 0 (slot one_rr 0)
      then none
      else slot one_rr 0)
remove_conflicts-slot_example =
    remove_conflicts-slot sizes alias_excludes 2 1100 3 8 0 one_rr one_rr-Accounted 0

purge_all_rrsets-Accounted_example :
    Accounted sizes 3 (purge_all_rrsets sizes 2000 false one_rr).cent
    × ((purge_all_rrsets sizes 2000 false one_rr).cent.cs
          + (purge_all_rrsets sizes 2000 false one_rr).freed
        ≡ 163)
purge_all_rrsets-Accounted_example = purge_all_rrsets-Accounted sizes 2000 3 one_rr one_rr-Accounted
