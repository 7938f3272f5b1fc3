-- ===== src/Query/Tests.antt =====
-- The theorems at a query for the addresses of "a", with an OPT record.
use tor_android_service_arch.Names.{Bytes}
use tor_android_service_arch.Prelude.{◌+◌, ◌≤◌, ◌≡◌, refl, arith, true, [], ◌∷◌, some, length}
use tor_android_service_arch.Query.Answered.{ProcessedSound, process_query-ProcessedSound}
use tor_android_service_arch.Query.InBounds.{DecodedSound, decode_query-DecodedSound}
use tor_android_service_arch.Query.Opt.{
  Answer, dnsmsghdroffset, with_count, add_opt_pseudo_rr, remove_opt_pseudo_rr,
  remove_opt_pseudo_rr-add_opt_pseudo_rr,
}
use tor_android_service_arch.Query.{count_at}
use tor_android_service_arch.Query.Questions.{decode_query}
use tor_android_service_arch.Query.Process.{process_query, accepted}

abbrev query_for_a : Bytes
query_for_a =
    0 ∷ 1 ∷ 1 ∷ 0 ∷ 0 ∷ 1 ∷ 0 ∷ 0 ∷ 0 ∷ 0 ∷ 0 ∷ 1 ∷ 1 ∷ 97 ∷ 0 ∷ 0 ∷ 1 ∷ 0 ∷ 1 ∷ 0 ∷ 0 ∷ 41 ∷ 16 ∷ 0
    ∷ 0 ∷ 0 ∷ 0 ∷ 0 ∷ 0 ∷ 0 ∷ []

decode_query-DecodedSound_example :
    DecodedSound query_for_a (count_at query_for_a 4) (decode_query [] query_for_a)
decode_query-DecodedSound_example = decode_query-DecodedSound [] query_for_a (omega arith)

process_query-ProcessedSound_example :
    ProcessedSound query_for_a (process_query [] 1024 query_for_a (some 512))
process_query-ProcessedSound_example = process_query-ProcessedSound query_for_a [] 1024 (some 512)

-- The query is accepted, with the client's OPT record and the smaller size of the two.
query_for_a_accepted :
    process_query [] 1024 query_for_a (some 512)
    ≡ accepted
        (record { query = 1 ∷ 97 ∷ 0 ∷ []; qtype = 1; qclass = 1 } ∷ [])
        (some (record { udpsize = 4096; rcode = 0; version = 0; do_flg = 0 }))
        (some 1024)
unfolding process_query
query_for_a_accepted = refl

remove_opt_pseudo_rr-add_opt_pseudo_rr_example :
    (ans : Answer) × (add_opt_pseudo_rr true
        (record { msg = with_count 0 1 1 0 0 1 0 0 0 0 0 0 [] 0 0 []; allocsz = 14 })
        1024
        16
        0
        0
      ≡ some ans)
    × (dnsmsghdroffset + length ans.msg ≤ ans.allocsz)
    × (remove_opt_pseudo_rr ans.msg ≡ some (with_count 0 1 1 0 0 1 0 0 0 0 0 0 [] 0 0 []))
remove_opt_pseudo_rr-add_opt_pseudo_rr_example =
    remove_opt_pseudo_rr-add_opt_pseudo_rr 0 1 1 0 0 1 0 0 0 0 0 0 [] 14 1024 16 0 0 (omega arith)
      (omega arith) (omega arith)
