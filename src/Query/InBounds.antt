-- ===== src/Query/InBounds.antt =====
-- Reading a query stays within the message.
use mathlib.Core.Path.{subst}
use tor_android_service_arch.Cache.Store.Adding.{first_outcome, later_outcomes}
use tor_android_service_arch.Message.Decompress.Total.{Sound, decompress_name-Sound}
use tor_android_service_arch.Message.Decompress.{
  Decompressed, named, truncated, format, fault, diverged, decompress_name,
}
use tor_android_service_arch.Names.Wire.{Label, encode, IsName}
use tor_android_service_arch.Names.{Bytes, dnsnamebufsize}
use tor_android_service_arch.Prelude.{
  ℕ, zero, suc, ◌+◌, ◌-◌, ◌*◌, ◌≤◌, ◌<◌, ◌≡◌, refl, ◌∙◌, arith, Bool, ltb, List, [], ◌∷◌, ◌++◌,
  some, length, length-append, get_elem?, Bool-cases, inl, inr,
}
use tor_android_service_arch.Query.{rc_ok, sizeof_dns_hdr, QueryEl, count_at, getint16}
use tor_android_service_arch.Query.Questions.{
  Decoded, decoded, decode_fault, question_at, question_read, decode_questions, decode_query,
}

byte_inside : (msg : Bytes) (i : ℕ) → i < length msg → (b : ℕ) × (get_elem? msg i ≡ some b)
byte_inside [] i h = absurd (omega (arith, h))
byte_inside (b ∷ msg) zero h = (b, refl)
byte_inside (b ∷ msg) (suc i) h = byte_inside msg i (omega (arith, h))

pub getint16_inside :
    (msg : Bytes) (p : ℕ) → p + 2 ≤ length msg → (v : ℕ) × (getint16 msg p ≡ some v)
getint16_inside msg p h =
    let (hi, e) = byte_inside msg p (omega (arith, h)) in
    let (lo, f) = byte_inside msg (p + 1) (omega (arith, h)) in
    (hi * 256 + lo, rw (getint16, e, f) refl)

-- A question's name is a proper name in transport format that fits into a buffer.
abbrev pub IsQuestion : QueryEl → Type 0
IsQuestion qe =
    (ls : List Label) × IsName ls × (qe.query ≡ encode ls) × (length (encode ls) ≤ dnsnamebufsize)

abbrev pub AllQuestions : List QueryEl → Type 0
AllQuestions [] = Unit
AllQuestions (qe ∷ ql) = IsQuestion qe × AllQuestions ql

AllQuestions-append :
    (ql : List QueryEl) (qe : QueryEl)
    → AllQuestions ql
    → IsQuestion qe
    → AllQuestions (ql ++ qe ∷ [])
AllQuestions-append [] qe all q = (q, tt)
AllQuestions-append (x ∷ ql) qe all q = (all.0, AllQuestions-append ql qe all.1 q)

question_inside :
    (msg : Bytes) (p : ℕ) (qbuf : Bytes)
    → p + 4 ≤ length msg
    → (qe : QueryEl) × (question_at msg p qbuf ≡ some qe) × (qe.query ≡ qbuf)
question_inside msg p qbuf h =
    let (t, e) = getint16_inside msg p (omega (arith, h)) in
    let (c, f) = getint16_inside msg (p + 2) (omega (arith, h)) in
    (record { query = qbuf; qtype = t; qclass = c }, rw (question_at, e, f) refl, refl)

-- The pointer and the bytes left stay together, and a complete list has all the `n` questions.
abbrev pub DecodedSound : (msg : Bytes) → (n : ℕ) → Decoded → Type 0
DecodedSound msg n (decoded res ptr sz ql) =
    (ptr + sz ≡ length msg) × AllQuestions ql × (res ≡ rc_ok → length ql ≡ n)
DecodedSound msg n decode_fault = ⊥

module _ (msg : Bytes) (n : ℕ) where
  -- What the rounds that follow come to.
  abbrev NextSound : ((ptr sz : ℕ) → List QueryEl → Decoded) → (left : ℕ) → Type 0
  NextSound next left =
      (ptr sz : ℕ) (qp : List QueryEl)
      → ptr + sz ≡ length msg
      → AllQuestions qp
      → length qp + left ≡ n
      → DecodedSound msg n (next ptr sz qp)

  question_read-DecodedSound :
      (os : List Bool) (ptr sz left : ℕ) (qp : List QueryEl)
      (next : (ptr sz : ℕ) → List QueryEl → Decoded) (r : Decompressed)
      → ptr + sz ≡ length msg
      → AllQuestions qp
      → length qp + suc left ≡ n
      → NextSound next left
      → Sound msg ptr sz r
      → DecodedSound msg n (question_read os msg ptr sz qp next r)
  question_read-DecodedSound os ptr sz left qp next (named used sz' qbuf) e all m k
        (hops, taken, few, reads) =
      let there : ptr + used + sz' ≡ length msg = omega (arith, e, taken) in
      elim (Bool-cases (ltb sz' 4)) [
        | inl short ↦ rw (question_read, short) (there, all, λ z. absurd (omega (arith, z)))
        | inr long ↦ elim (Bool-cases (first_outcome os)) [
          | inr o ↦ rw (question_read, long, o) (there, tt, λ z. absurd (omega (arith, z)))
          | inl o ↦
              let four : 4 ≤ sz' = ground (arith, long) in
              let (qe, f, name) =
                question_inside msg (ptr + used) qbuf (omega (arith, there, four)) in
              let q : IsQuestion qe = (
                reads.labels,
                reads.is_name,
                name ∙ reads.written,
                subst (λ (w : Bytes). length w ≤ dnsnamebufsize) reads.written reads.fits,
              ) in
              rw (question_read, long, o, f)
                (k (ptr + used + 4) (sz' - 4) (qp ++ qe ∷ []) (omega (arith, there, four))
                  (AllQuestions-append qp qe all q) (omega (arith, m, length-append qp (qe ∷ []))))
        ]
      ]
  question_read-DecodedSound os ptr sz left qp next truncated e all m k s =
      (e, all, λ z. absurd (omega (arith, z)))
  question_read-DecodedSound os ptr sz left qp next (format r) e all m k s =
      (e, tt, λ z. absurd (omega (arith, z)))
  question_read-DecodedSound os ptr sz left qp next fault e all m k s = s
  question_read-DecodedSound os ptr sz left qp next diverged e all m k s = s

  decode_questions-NextSound :
      (left : ℕ) (os : List Bool) → NextSound (decode_questions left os msg) left
  unfolding decode_questions
  decode_questions-NextSound zero os ptr sz qp e all m = (e, all, λ z. omega (arith, m))
  decode_questions-NextSound (suc left) os ptr sz qp e all m =
      question_read-DecodedSound os ptr sz left qp (decode_questions left (later_outcomes os) msg)
        (decompress_name msg ptr sz) e all m (decode_questions-NextSound left (later_outcomes os))
        (decompress_name-Sound msg ptr sz)

-- On a message with a header, decode_query reads no byte behind the message, and ends. Its position
-- and the length left make up the message, the names of its questions are proper and fit into their
-- buffers, and with RC_OK there are as many questions as the header says.
pub decode_query-DecodedSound :
    (os : List Bool) (msg : Bytes)
    → sizeof_dns_hdr ≤ length msg
    → DecodedSound msg (count_at msg 4) (decode_query os msg)
unfolding decode_query
decode_query-DecodedSound os msg h =
    decode_questions-NextSound msg (count_at msg 4) (count_at msg 4) os sizeof_dns_hdr
      (length msg - sizeof_dns_hdr) [] (omega (arith, h)) tt (omega arith)
