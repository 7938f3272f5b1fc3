-- ===== src/Reply/Tests.antt =====
-- Replies with a few records.
use tor_android_service_arch.Cache.Cent.Tests.{sizes, no_flags, one_set, one_rr}
use tor_android_service_arch.Cache.Cent.{Cent, rr}
use tor_android_service_arch.Names.{Bytes}
use tor_android_service_arch.Prelude.{
  none, some, ◌≤◌, ◌≡◌, refl, arith, true, false, ◌==◌, Bool, ◌&&◌, List, [], ◌∷◌,
}
use tor_android_service_arch.Query.Records.{no_edns}
use tor_android_service_arch.Reply.Rdata.{rdata_of}
use tor_android_service_arch.Reply.Bounded.{Bounded}
use tor_android_service_arch.Reply.RdataInBounds.{AllBytes}
use tor_android_service_arch.Reply.Transcribed.{Transcribed}
use tor_android_service_arch.Reply.Records.{rrs2cent}
use tor_android_service_arch.Reply.Sound.{RrsSound, rrs2cent-RrsSound}
use tor_android_service_arch.Reply.Stored.{Gives, HasMinimum, soa_minimum-rdata_of}
use tor_android_service_arch.Message.Fits.{Fits}
use tor_android_service_arch.Reply.Rcodes.{
  Sent, Incoming, times_sent_again, options, times_sent_again-options,
}
use tor_android_service_arch.Reply.Sections.{read_reply}
use tor_android_service_arch.Reply.SectionsRead.{ReplySound, read_reply-ReplySound}
use tor_android_service_arch.Reply.{Mallocs}

abbrev ample : Mallocs
ample = record { rbuf = true; grown = true; cent = true; rr = true; ext = true; set = true }

abbrev same_bytes : Bytes → Bytes → Bool
same_bytes [] [] = true
same_bytes (x ∷ a) (y ∷ b) = x == y && same_bytes a b
same_bytes _ _ = false

-- Two records of the root: an address, and an SOA record whose maintainer is a pointer to its owner.
abbrev message : Bytes
message =
    0 ∷ 0 ∷ 1 ∷ 0 ∷ 1 ∷ 0 ∷ 0 ∷ 1 ∷ 0 ∷ 0 ∷ 4 ∷ 10 ∷ 0 ∷ 0 ∷ 1 ∷ 0 ∷ 0 ∷ 6 ∷ 0 ∷ 1 ∷ 0 ∷ 0 ∷ 1 ∷ 0
    ∷ 0 ∷ 25 ∷ 1 ∷ 97 ∷ 0 ∷ 192 ∷ 26 ∷ 0 ∷ 0 ∷ 0 ∷ 1 ∷ 0 ∷ 0 ∷ 0 ∷ 2 ∷ 0 ∷ 0 ∷ 0 ∷ 3 ∷ 0 ∷ 0 ∷ 0 ∷ 4
    ∷ 0 ∷ 0 ∷ 0 ∷ 60 ∷ []

message-AllBytes : AllBytes message
message-AllBytes = ground arith

rrs2cent-RrsSound_example :
    RrsSound sizes same_bytes message none
      (rrs2cent (λ t. t) sizes same_bytes no_flags 0 (λ i. ample) message 0 51 2 [] 0 no_edns)
rrs2cent-RrsSound_example =
    rrs2cent-RrsSound sizes same_bytes message none (λ t. t) no_flags 0 (λ i. ample) 0 51 2 [] 0
      no_edns message-AllBytes refl tt tt tt tt

soa_minimum-rdata_of_example : Gives HasMinimum (rdata_of message true 26 25 6)
soa_minimum-rdata_of_example = soa_minimum-rdata_of message true 26 25

root-Fits : Fits (0 ∷ []) []
root-Fits = record { is_name = tt; encoded = refl; short = omega arith }

abbrev root_answer : Cent
root_answer = record one_rr { qname = 0 ∷ []; cs = 161; num_rrs = 1 }

abbrev root_auth : Cent
root_auth = record root_answer {
  body = rr (none ∷ some one_set ∷ none ∷ some one_set ∷ none ∷ none ∷ none ∷ none ∷ []) none;
  num_rrs = 2;
}

-- A reply to a query for the address of the root, with one answer.
abbrev reply : Bytes
reply =
    1 ∷ 2 ∷ 0x84 ∷ 0 ∷ 0 ∷ 1 ∷ 0 ∷ 1 ∷ 0 ∷ 0 ∷ 0 ∷ 0 ∷ 0 ∷ 0 ∷ 1 ∷ 0 ∷ 1 ∷ 0xc0 ∷ 12 ∷ 0 ∷ 1 ∷ 0 ∷ 1
    ∷ 0 ∷ 0 ∷ 1 ∷ 0 ∷ 0 ∷ 4 ∷ 10 ∷ 0 ∷ 0 ∷ 1 ∷ []

reply-AllBytes : AllBytes reply
reply-AllBytes = ground arith

read_reply-ReplySound_example : ReplySound sizes same_bytes (0 ∷ []) (
    read_reply same_bytes
      (0 ∷ [])
      1
      reply
      (λ t. t)
      sizes
      no_flags
      0
      true
      true
      (λ i. ample)
      (λ i. ample)
      (λ i. ample)
      true
      0)
read_reply-ReplySound_example =
    read_reply-ReplySound sizes same_bytes (0 ∷ []) 1 reply (λ t. t) no_flags 0 reply-AllBytes true
      true (λ i. ample) (λ i. ample) (λ i. ample) true 0 [] root-Fits (omega arith)

-- A refusal, and the query that it answers.
abbrev refusal : Bytes
refusal = 1 ∷ 2 ∷ 0x80 ∷ 5 ∷ 0 ∷ 1 ∷ 0 ∷ 0 ∷ 0 ∷ 0 ∷ 0 ∷ 0 ∷ []

abbrev sent : Sent
sent = record { rd = true; edns_query = true; has_additional = true; myrid = 0x0102 }

abbrev refused_twice : List Incoming
refused_twice =
    record { msg = refusal; rand16 = 0x0102; removed = true }
    ∷ record { msg = refusal; rand16 = 0x0102; removed = true }
    ∷ []

refused_twice_run : times_sent_again true false 0 refused_twice sent ≡ 2
unfolding times_sent_again
refused_twice_run = refl

times_sent_again-options_example : times_sent_again true false 0 refused_twice sent ≤ options sent
times_sent_again-options_example = times_sent_again-options true false 0 refused_twice sent
