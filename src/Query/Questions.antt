-- ===== src/Query/Questions.antt =====
-- The questions of a query (dns_answer.c, decode_query). The outcomes of the calls of `malloc`
-- are a list, in order, which is followed by successes.
use tor_android_service_arch.Cache.Store.Adding.{first_outcome, later_outcomes}
use tor_android_service_arch.Message.Decompress.{
  Decompressed, named, truncated, format, fault, diverged, decompress_name,
}
use tor_android_service_arch.Names.{Bytes}
use tor_android_service_arch.Prelude.{
  ℕ, zero, suc, ◌+◌, ◌-◌, Bool, ltb, if◌then◌else◌, List, [], ◌∷◌, ◌++◌, Option, none, some, length,
}
use tor_android_service_arch.Query.{
  rc_ok, rc_format, rc_servfail, rc_trunc, sizeof_dns_hdr, QueryEl, count_at, getint16,
}

-- The return value, `*ptrrem`, `*lenrem` and the list `qp`.
pub data Decoded : Type 0 where
  decoded : (res ptr sz : ℕ) → List QueryEl → Decoded
  decode_fault : Decoded

-- The type and the class behind a name, stored with the name.
abbrev pub question_at : Bytes → (p : ℕ) → (qbuf : Bytes) → Option QueryEl
question_at msg p qbuf = elim (getint16 msg p) [
  | none ↦ none
  | some t ↦ elim (getint16 msg (p + 2)) [
    | none ↦ none
    | some c ↦ some (record { query = qbuf; qtype = t; qclass = c })
  ]
]

-- The body of the loop behind decompress_name; `next` are the rounds that follow.
abbrev pub question_read :
    List Bool
    → (msg : Bytes) → (ptr sz : ℕ) → List QueryEl
    → (next : (ptr sz : ℕ) → List QueryEl → Decoded) → Decompressed
    → Decoded
question_read os msg ptr sz qp next (named used sz' qbuf) =
    if ltb sz' 4
    then decoded rc_trunc (ptr + used) sz' qp
    else if first_outcome os
    then elim (question_at msg (ptr + used) qbuf) [
      | none ↦ decode_fault
      | some qe ↦ next (ptr + used + 4) (sz' - 4) (qp ++ qe ∷ [])
    ]
    else decoded rc_servfail (ptr + used) sz' []
question_read os msg ptr sz qp next truncated = decoded rc_trunc ptr sz qp
question_read os msg ptr sz qp next (format r) = decoded rc_format ptr sz []
question_read os msg ptr sz qp next fault = decode_fault
question_read os msg ptr sz qp next diverged = decode_fault

unfoldable pub decode_questions :
    (left : ℕ) → List Bool → (msg : Bytes) → (ptr sz : ℕ) → List QueryEl → Decoded
unfolding decompress_name
decode_questions zero os msg ptr sz qp = decoded rc_ok ptr sz qp
decode_questions (suc left) os msg ptr sz qp =
    question_read os msg ptr sz qp (decode_questions left (later_outcomes os) msg)
      (decompress_name msg ptr sz)

unfoldable pub decode_query : List Bool → (msg : Bytes) → Decoded
unfolding decode_questions
decode_query os msg =
    decode_questions (count_at msg 4) os msg sizeof_dns_hdr (length msg - sizeof_dns_hdr) []
