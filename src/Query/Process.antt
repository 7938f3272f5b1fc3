-- ===== src/Query/Process.antt =====
-- What process_query of dns_answer.c checks before it calls compose_answer.
use tor_android_service_arch.Names.{Bytes}
use tor_android_service_arch.Prelude.{
  ℕ, Bool, true, false, ◌&&◌, ◌||◌, not, ltb, ◌==◌, if◌then◌else◌, List, [], ◌∷◌, Option, none,
  some, length,
}
use tor_android_service_arch.Query.{
  rc_ok, rc_format, rc_notsupp, rc_badvers, rc_trunc, sizeof_dns_hdr, udp_bufsize, QueryEl,
  EdnsInfo, count_at, hdr_qr, hdr_opcode, hdr_tc, hdr_z, hdr_rcode,
}
use tor_android_service_arch.Query.Questions.{Decoded, decode_query, decoded, decode_fault}
use tor_android_service_arch.Query.Records.{
  Additional, decode_query_additional, additional, additional_fault,
}

-- What process_query comes to before compose_answer: no reply, an error reply, or the call of
-- compose_answer with the questions, `ednsinfop` and `*udp`.
pub data Processed : Type 0 where
  discarded : Processed
  error_reply : (res : ℕ) → Processed
  accepted : List QueryEl → Option EdnsInfo → (udp : Option ℕ) → Processed
  process_fault : Processed

-- `*udp` with an OPT record: the smaller one of the two sizes, where the client's is above 512.
abbrev pub new_udp : (udpbufsize : ℕ) → EdnsInfo → Option ℕ → Option ℕ
new_udp udpbufsize ep none = none
new_udp udpbufsize ep (some udp) =
    if ltb udp_bufsize ep.udpsize
    then some (if ltb ep.udpsize udpbufsize then ep.udpsize else udpbufsize)
    else some udp

-- The list of questions may not be empty.
abbrev pub accept : List QueryEl → Option EdnsInfo → Option ℕ → Processed
accept [] ep udp = error_reply rc_format
accept (qe ∷ ql) ep udp = accepted (qe ∷ ql) ep udp

abbrev pub use_edns :
    (udpbufsize : ℕ) → List QueryEl → (numopt : ℕ) → EdnsInfo → Option ℕ → Processed
use_edns udpbufsize ql numopt ep udp =
    if numopt == 0
    then accept ql none udp
    else if not (ep.version == 0)
    then error_reply rc_badvers
    else if not (ep.rcode == 0)
    then error_reply rc_format
    else accept ql (some ep) (new_udp udpbufsize ep udp)

abbrev pub process_additional :
    (udpbufsize : ℕ) → (msg : Bytes) → List QueryEl → Option ℕ → Additional → Processed
process_additional udpbufsize msg ql udp additional_fault = process_fault
process_additional udpbufsize msg ql udp (additional res numopt ep) =
    if not (res == rc_ok || (res == rc_trunc && hdr_tc msg == 1))
    then error_reply rc_format
    else use_edns udpbufsize ql numopt ep udp

abbrev pub is_empty : List QueryEl → Bool
is_empty [] = true
is_empty (qe ∷ ql) = false

unfoldable pub process_questions : (udpbufsize : ℕ) → (msg : Bytes) → Option ℕ → Decoded → Processed
unfolding decode_query_additional
process_questions udpbufsize msg udp decode_fault = process_fault
process_questions udpbufsize msg udp (decoded res ptr sz ql) =
    let arcount = count_at msg 10 in
    let with_additional =
      process_additional udpbufsize msg ql udp (decode_query_additional msg ptr sz arcount) in
    if res == rc_trunc && (not (hdr_tc msg == 1) || is_empty ql)
    then error_reply rc_format
    else if not (res == rc_ok) && not (res == rc_trunc)
    then error_reply res
    else if arcount == 0
    then accept ql none udp
    else if res == rc_trunc
    then error_reply rc_format
    else with_additional

-- A read of the byte `i` of the message, before what follows.
abbrev pub reads : (msg : Bytes) → (i : ℕ) → Processed → Processed
reads msg i next = if ltb i (length msg) then next else process_fault

-- `udp` is `none` where the pointer is NULL; `udpbufsize` is that of the configuration.
unfoldable pub process_query :
    List Bool → (udpbufsize : ℕ) → (msg : Bytes) → (udp : Option ℕ) → Processed
unfolding decode_query process_questions
process_query os udpbufsize msg udp =
    let answer = process_questions udpbufsize msg udp (decode_query os msg) in
    if ltb (length msg) 2
    then discarded
    else if ltb (length msg) sizeof_dns_hdr
    then error_reply rc_format
    else reads msg 2 (
        if not (hdr_qr msg == 0)
        then discarded
        else if not (hdr_opcode msg == 0)
        then error_reply rc_notsupp
        else reads msg 3 (
            if not (hdr_z msg == 0)
            then error_reply rc_format
            else if not (hdr_rcode msg == 0)
            then discarded
            else reads msg 7 (
                if not (count_at msg 6 == 0)
                then error_reply rc_format
                else reads msg 9 (
                    if not (count_at msg 8 == 0)
                    then error_reply rc_format
                    else reads msg 11 answer))))
