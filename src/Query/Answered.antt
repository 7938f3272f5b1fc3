-- ===== src/Query/Answered.antt =====
-- What process_query accepts and refuses.
use tor_android_service_arch.Names.{Bytes}
use tor_android_service_arch.Prelude.{
  ℕ, ◌≤◌, ◌<◌, ◌≡◌, ◌≢◌, ◌⊎◌, refl, arith, Bool, true, false, ◌&&◌, ◌||◌, not, ltb, ◌==◌,
  if◌then◌else◌, List, [], ◌∷◌, Option, none, some, length, inl, inr,
}
use tor_android_service_arch.Query.InBounds.{AllQuestions, DecodedSound, decode_query-DecodedSound}
use tor_android_service_arch.Query.{
  rc_ok, rc_format, rc_notsupp, rc_badvers, rc_trunc, sizeof_dns_hdr, QueryEl, EdnsInfo, count_at,
  hdr_qr, hdr_opcode, hdr_tc, hdr_z, hdr_rcode,
}
use tor_android_service_arch.Query.Questions.{Decoded, decoded, decode_fault, decode_query}
use tor_android_service_arch.Query.Records.{
  Additional, additional, additional_fault, decode_query_additional, no_edns,
}
use tor_android_service_arch.Query.Process.{
  Processed, discarded, error_reply, accepted, process_fault, accept, new_udp, process_additional,
  is_empty, process_questions, process_query, reads,
}
use tor_android_service_arch.Query.RecordsInBounds.{
  AdditionalSound, decode_query_additional-AdditionalSound,
}

-- The information of EDNS that is used.
abbrev pub EdnsAllowed : Option EdnsInfo → Type 0
EdnsAllowed none = Unit
EdnsAllowed (some ep) = (ep.version ≡ 0) × (ep.rcode ≡ 0)

-- A message that is discarded: one without an identification, an answer, and a standard query
-- that has the bit Z clear and an error code.
abbrev pub Discarded : Bytes → Type 0
Discarded msg =
    (length msg < 2)
    ⊎ (sizeof_dns_hdr ≤ length msg)
      × ((hdr_qr msg ≢ 0)
          ⊎ (hdr_qr msg ≡ 0) × (hdr_opcode msg ≡ 0) × (hdr_z msg ≡ 0) × (hdr_rcode msg ≢ 0))

-- A query whose header may be answered.
abbrev pub Answerable : Bytes → Type 0
Answerable msg =
    (sizeof_dns_hdr ≤ length msg)
    × (hdr_qr msg ≡ 0)
    × (hdr_opcode msg ≡ 0)
    × (hdr_z msg ≡ 0)
    × (hdr_rcode msg ≡ 0)

-- A message that is refused with an error code: one without a whole header, a query that is not a
-- standard one, one with the bit Z, and, for reasons behind its flags, one without an error code.
abbrev pub Refused : Bytes → (res : ℕ) → Type 0
Refused msg res =
    (2 ≤ length msg) × (length msg < sizeof_dns_hdr) × (res ≡ rc_format)
    ⊎ ((sizeof_dns_hdr ≤ length msg) × (hdr_qr msg ≡ 0) × (hdr_opcode msg ≢ 0) × (res ≡ rc_notsupp)
        ⊎ ((sizeof_dns_hdr ≤ length msg)
              × (hdr_qr msg ≡ 0)
              × (hdr_opcode msg ≡ 0)
              × (hdr_z msg ≢ 0)
              × (res ≡ rc_format)
            ⊎ Answerable msg × (res ≢ rc_ok)))

-- The three outcomes, of which the conditions exclude each other but for what is answerable.
abbrev pub ProcessedSound : Bytes → Processed → Type 0
ProcessedSound msg discarded = Discarded msg
ProcessedSound msg (error_reply res) = Refused msg res
ProcessedSound msg (accepted ql ep udp) =
    Answerable msg
    × (count_at msg 6 ≡ 0)
    × (count_at msg 8 ≡ 0)
    × (1 ≤ length ql)
    × AllQuestions ql
    × EdnsAllowed ep
ProcessedSound msg process_fault = ⊥

module _ (msg : Bytes) where
  record Handled (r : Processed) : Type 0 where
    holds : ProcessedSound msg r

  if_sound :
      (t : Bool) (r r' : Processed)
      → (t ≡ true → Handled r)
      → (t ≡ false → Handled r')
      → Handled (if t then r else r')
  if_sound true r r' h h' = h refl
  if_sound false r r' h h' = h' refl

  reads_sound : (i : ℕ) (r : Processed) → i < length msg → Handled r → Handled (reads msg i r)
  reads_sound i r l h = let e : ltb i (length msg) ≡ true = ground (arith, l) in rw e h

  -- What holds of a message behind the checks of its header.
  record Checked : Type 0 where
    answerable : Answerable msg
    no_answers : count_at msg 6 ≡ 0
    no_authority : count_at msg 8 ≡ 0

  refused_sound : (res : ℕ) → Answerable msg → res ≢ rc_ok → Handled (error_reply res)
  refused_sound res c n = record { holds = inr (inr (inr (c, n))) }

  error_sound : (res : ℕ) → Checked → res ≢ rc_ok → Handled (error_reply res)
  error_sound res c n = refused_sound res c.answerable n

  accept_sound :
      (ql : List QueryEl) (ep : Option EdnsInfo) (udp : Option ℕ)
      → Checked
      → AllQuestions ql
      → EdnsAllowed ep
      → Handled (accept ql ep udp)
  accept_sound [] ep udp c all a = error_sound rc_format c (λ z. omega (arith, z))
  accept_sound (qe ∷ ql) ep udp c all a = record {
    holds = (c.answerable, c.no_answers, c.no_authority, omega arith, all, a);
  }

  additional_sound :
      (udpbufsize n : ℕ) (ql : List QueryEl) (udp : Option ℕ) (r : Additional)
      → Checked
      → AllQuestions ql
      → AdditionalSound n no_edns r
      → Handled (process_additional udpbufsize msg ql udp r)
  additional_sound udpbufsize n ql udp additional_fault c all s = absurd s
  additional_sound udpbufsize n ql udp (additional res numopt ep) c all s =
      if_sound _ _ _ (λ _. error_sound rc_format c (λ z. omega (arith, z)))
        (λ _.
          if_sound (numopt == 0) _ _ (λ _. accept_sound ql none udp c all tt)
            (λ _.
              if_sound (not (ep.version == 0)) _ _
                (λ _. error_sound rc_badvers c (λ z. omega (arith, z)))
                (λ v.
                  if_sound (not (ep.rcode == 0)) _ _
                    (λ _. error_sound rc_format c (λ z. omega (arith, z)))
                    (λ w.
                      accept_sound ql (some ep) (new_udp udpbufsize ep udp) c all
                        (ground (arith, v), ground (arith, w))))))

  questions_sound :
      (udpbufsize n : ℕ) (udp : Option ℕ) (r : Decoded)
      → Checked
      → DecodedSound msg n r
      → Handled (process_questions udpbufsize msg udp r)
  unfolding process_questions
  questions_sound udpbufsize n udp decode_fault c s = absurd s
  questions_sound udpbufsize n udp (decoded res ptr sz ql) c (e, all, _) =
      if_sound (res == rc_trunc && (not (hdr_tc msg == 1) || is_empty ql)) _ _
        (λ _. error_sound rc_format c (λ z. omega (arith, z)))
        (λ _.
          if_sound (not (res == rc_ok) && not (res == rc_trunc)) _ _
            (λ t. error_sound res c (λ z. ground (arith, t, z)))
            (λ _.
              if_sound (count_at msg 10 == 0) _ _ (λ _. accept_sound ql none udp c all tt)
                (λ _.
                  if_sound (res == rc_trunc) _ _
                    (λ _. error_sound rc_format c (λ z. omega (arith, z)))
                    (λ _.
                      additional_sound udpbufsize (count_at msg 10) ql udp
                        (decode_query_additional msg ptr sz (count_at msg 10)) c all
                        (decode_query_additional-AdditionalSound msg ptr sz (count_at msg 10) e)))))

  counts_sound :
      (r : Processed)
      → Answerable msg
      → (Checked → Handled r)
      → Handled (
          reads msg 7 (
            if not (count_at msg 6 == 0)
            then error_reply rc_format
            else reads msg 9
                (if not (count_at msg 8 == 0) then error_reply rc_format else reads msg 11 r)))
  counts_sound r c k =
      let format = refused_sound rc_format c (λ z. omega (arith, z)) in
      let w = c.0 in
      reads_sound 7 _ (omega (arith, w)) (
        if_sound (not (count_at msg 6 == 0)) _ _ (λ _. format)
          (λ a. reads_sound 9 _ (omega (arith, w)) (
            if_sound (not (count_at msg 8 == 0)) _ _ (λ _. format)
              (λ b. reads_sound 11 _ (omega (arith, w)) (
                k (record {
                  answerable = c;
                  no_answers = ground (arith, a);
                  no_authority = ground (arith, b);
                }))))))

  -- The checks of a whole header.
  header_sound :
      (r : Processed)
      → sizeof_dns_hdr ≤ length msg
      → (Checked → Handled r)
      → Handled (
          reads msg 2 (
            if not (hdr_qr msg == 0)
            then discarded
            else if not (hdr_opcode msg == 0)
            then error_reply rc_notsupp
            else reads msg 3 (
                if not (hdr_z msg == 0)
                then error_reply rc_format
                else if not (hdr_rcode msg == 0)
                then discarded
                else reads msg 7 (
                    if not (count_at msg 6 == 0)
                    then error_reply rc_format
                    else reads msg 9 (
                        if not (count_at msg 8 == 0)
                        then error_reply rc_format
                        else reads msg 11 r)))))
  header_sound r w k = reads_sound 2 _ (omega (arith, w)) (
      if_sound (not (hdr_qr msg == 0)) _ _
        (λ q. record { holds = inr (w, inl (λ z. ground (arith, q, z))) })
        (λ q'.
          let q : hdr_qr msg ≡ 0 = ground (arith, q') in
          if_sound (not (hdr_opcode msg == 0)) _ _
            (λ o. record { holds = inr (inl (w, q, (λ z. ground (arith, o, z)), refl)) })
            (λ o'.
              let o : hdr_opcode msg ≡ 0 = ground (arith, o') in
              reads_sound 3 _ (omega (arith, w)) (
                if_sound (not (hdr_z msg == 0)) _ _
                  (λ z'. record {
                    holds = inr (inr (inl (w, q, o, (λ z. ground (arith, z', z)), refl)));
                  })
                  (λ z'.
                    let z : hdr_z msg ≡ 0 = ground (arith, z') in
                    if_sound (not (hdr_rcode msg == 0)) _ _
                      (λ c. record { holds = inr (w, inr (q, o, z, λ y. ground (arith, c, y))) })
                      (λ c'.
                        let c : hdr_rcode msg ≡ 0 = ground (arith, c') in
                        counts_sound r (w, q, o, z, c) k))))))

  -- On any bytes at all, process_query reads none behind the message, and ends. It discards exactly
  -- a message without an identification, an answer, and a standard query that has the bit Z clear
  -- and an error code. It refuses with FORMAT what is shorter than a header, with NOTSUPP a query
  -- that is not a standard one, with FORMAT one with the bit Z, and, with an error code, queries
  -- without these faults. What it answers is one of those, without answer and authority records and
  -- with at least one question, the names of all of them proper, and EDNS, if any, of version 0 and
  -- without an error.
  pub process_query-ProcessedSound :
      (os : List Bool) (udpbufsize : ℕ) (udp : Option ℕ)
      → ProcessedSound msg (process_query os udpbufsize msg udp)
  unfolding process_query
  process_query-ProcessedSound os udpbufsize udp =
      (if_sound (ltb (length msg) 2) _ _ (λ s. record { holds = inl (ground (arith, s)) })
        (λ l.
          if_sound (ltb (length msg) sizeof_dns_hdr) _ _
            (λ s. record { holds = inl (ground (arith, l), ground (arith, s), refl) })
            (λ s.
              let w : sizeof_dns_hdr ≤ length msg = ground (arith, s) in
              header_sound _ w (λ c.
                questions_sound udpbufsize (count_at msg 4) udp (decode_query os msg) c
                  (decode_query-DecodedSound os msg w))))).holds
