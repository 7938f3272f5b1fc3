-- ===== src/Query/RecordsInBounds.antt =====
-- Reading the additional section stays within the message.
use tor_android_service_arch.Message.Decompress.Total.{Sound, decompress_name-Sound}
use tor_android_service_arch.Message.Decompress.{
  Decompressed, named, truncated, format, fault, diverged, decompress_name,
}
use tor_android_service_arch.Names.{Bytes}
use tor_android_service_arch.Prelude.{
  ℕ, zero, suc, ◌+◌, ◌-◌, ◌≤◌, ◌≡◌, refl, arith, ltb, [], ◌∷◌, some, length, Bool-cases, inl, inr,
}
use tor_android_service_arch.Query.InBounds.{getint16_inside}
use tor_android_service_arch.Query.{sizeof_rr_hdr, EdnsInfo, byte_or}
use tor_android_service_arch.Query.Records.{
  Additional, additional, additional_fault, RrHeader, rr_header, is_opt, record_at, record_read,
  decode_records, decode_query_additional, no_edns,
}

pub header_inside :
    (msg : Bytes) (p : ℕ)
    → p + sizeof_rr_hdr ≤ length msg
    → (h : RrHeader) × (rr_header msg p ≡ some h)
header_inside msg p h =
    let (t, e) = getint16_inside msg p (omega (arith, h)) in
    let (c, f) = getint16_inside msg (p + 2) (omega (arith, h)) in
    let (len, g) = getint16_inside msg (p + 8) (omega (arith, h)) in
    (
      record {
        type_of = t;
        class_of = c;
        ttlp = byte_or (p + 4) msg ∷ byte_or (p + 5) msg ∷ byte_or (p + 6) msg ∷ [];
        rdlen = len;
      },
      rw (rr_header, e, f, g) refl,
    )

-- At most `n` OPT records are counted, and without one the information is the one given.
abbrev pub AdditionalSound : (n : ℕ) → EdnsInfo → Additional → Type 0
AdditionalSound n ep0 (additional res numopt ep) = (numopt ≤ n) × (numopt ≡ 0 → ep ≡ ep0)
AdditionalSound n ep0 additional_fault = ⊥

module _ (msg : Bytes) (n : ℕ) (ep0 : EdnsInfo) where
  abbrev NextRecords : ((ptr sz numopt : ℕ) → EdnsInfo → Additional) → (left : ℕ) → Type 0
  NextRecords next left =
      (ptr sz numopt : ℕ) (ep : EdnsInfo)
      → ptr + sz ≡ length msg
      → numopt + left ≤ n
      → (numopt ≡ 0 → ep ≡ ep0)
      → AdditionalSound n ep0 (next ptr sz numopt ep)

  record_at-AdditionalSound :
      (ptr sz numopt left : ℕ) (ep : EdnsInfo) (next : (ptr sz numopt : ℕ) → EdnsInfo → Additional)
      (h : RrHeader)
      → ptr + sz ≡ length msg
      → numopt + suc left ≤ n
      → (numopt ≡ 0 → ep ≡ ep0)
      → NextRecords next left
      → AdditionalSound n ep0 (record_at msg ptr sz numopt ep next h)
  record_at-AdditionalSound ptr sz numopt left ep next h e m z k =
      elim (Bool-cases (ltb sz h.rdlen)) [
        | inl short ↦ rw (record_at, short) (omega (arith, m), z)
        | inr long ↦
            let fits : h.rdlen ≤ sz = ground (arith, long) in
            let there : ptr + h.rdlen + (sz - h.rdlen) ≡ length msg = omega (arith, e, fits) in
            elim (Bool-cases (is_opt h)) [
              | inl o ↦
                  rw (record_at, long, o)
                    (k (ptr + h.rdlen) (sz - h.rdlen) (numopt + 1) _ there (omega (arith, m))
                      (λ f. absurd (omega (arith, f))))
              | inr o ↦
                  rw (record_at, long, o)
                    (k (ptr + h.rdlen) (sz - h.rdlen) numopt ep there (omega (arith, m)) z)
            ]
      ]

  record_read-AdditionalSound :
      (ptr sz numopt left : ℕ) (ep : EdnsInfo) (next : (ptr sz numopt : ℕ) → EdnsInfo → Additional)
      (r : Decompressed)
      → ptr + sz ≡ length msg
      → numopt + suc left ≤ n
      → (numopt ≡ 0 → ep ≡ ep0)
      → NextRecords next left
      → Sound msg ptr sz r
      → AdditionalSound n ep0 (record_read msg ptr sz numopt ep next r)
  record_read-AdditionalSound ptr sz numopt left ep next (named used sz' nmbuf) e m z k
        (hops, taken, _, _) =
      elim (Bool-cases (ltb sz' sizeof_rr_hdr)) [
        | inl short ↦ rw (record_read, short) (omega (arith, m), z)
        | inr long ↦
            let ten : 10 ≤ sz' = ground (arith, long) in
            let (h, f) = header_inside msg (ptr + used) (omega (arith, e, taken, ten)) in
            rw (record_read, long, f)
              (record_at-AdditionalSound (ptr + used + sizeof_rr_hdr) (sz' - sizeof_rr_hdr) numopt
                left ep next h (omega (arith, e, taken, ten)) m z k)
      ]
  record_read-AdditionalSound ptr sz numopt left ep next truncated e m z k s = (omega (arith, m), z)
  record_read-AdditionalSound ptr sz numopt left ep next (format r) e m z k s =
      (omega (arith, m), z)
  record_read-AdditionalSound ptr sz numopt left ep next fault e m z k s = s
  record_read-AdditionalSound ptr sz numopt left ep next diverged e m z k s = s

  decode_records-NextRecords : (left : ℕ) → NextRecords (decode_records left msg) left
  unfolding decode_records
  decode_records-NextRecords zero ptr sz numopt ep e m z = (omega (arith, m), z)
  decode_records-NextRecords (suc left) ptr sz numopt ep e m z =
      record_read-AdditionalSound ptr sz numopt left ep (decode_records left msg)
        (decompress_name msg ptr sz) e m z (decode_records-NextRecords left)
        (decompress_name-Sound msg ptr sz)

-- Behind the questions of a message, decode_query_additional reads no byte behind the message, and
-- ends. It counts at most as many OPT records as there are records, and where it counts none its
-- information stays zero.
pub decode_query_additional-AdditionalSound :
    (msg : Bytes) (ptr sz numrr : ℕ)
    → ptr + sz ≡ length msg
    → AdditionalSound numrr no_edns (decode_query_additional msg ptr sz numrr)
unfolding decode_query_additional
decode_query_additional-AdditionalSound msg ptr sz numrr e =
    decode_records-NextRecords msg numrr no_edns numrr ptr sz 0 no_edns e (omega arith) (λ _. refl)
