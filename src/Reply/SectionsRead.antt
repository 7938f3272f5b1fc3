-- ===== src/Reply/SectionsRead.antt =====
-- Reading a reply of any bytes.
use tor_android_service_arch.Cache.Cent.Accounts.{
  Accounted, slots_size-replicate, slots_count-replicate,
}
use tor_android_service_arch.Query.Records.{no_edns}
use tor_android_service_arch.Cache.Cent.{
  empty_body, Cent, Sizes, SetFlags, CentFlags, nrrmu, init_cent,
}
use tor_android_service_arch.Message.Decompress.Total.{Sound, decompress_name-Sound}
use tor_android_service_arch.Message.Decompress.{
  Decompressed, named, truncated, format, fault, diverged, decompress_name,
}
use tor_android_service_arch.Names.Wire.{Label}
use tor_android_service_arch.Names.{Bytes}
use tor_android_service_arch.Prelude.{
  List, none, some, [], ◌∷◌, ℕ, ◌+◌, ◌-◌, ◌≤◌, ◌≡◌, ◌⊎◌, inl, inr, refl, sym, arith, Bool, true,
  false, Bool-cases, ◌&&◌, not, ltb, ◌==◌, if◌then◌else◌, [], length,
}
use tor_android_service_arch.Query.InBounds.{getint16_inside}
use tor_android_service_arch.Query.{
  rc_ok, rc_format, rc_servfail, rc_trunc, rc_fatalerr, sizeof_dns_hdr, EdnsInfo, count_at,
}
use tor_android_service_arch.Reply.Entries.{Books, Distinct, Leads, AllFit}
use tor_android_service_arch.Message.Fits.{Fits}
use tor_android_service_arch.Reply.RdataInBounds.{AllBytes}
use tor_android_service_arch.Reply.Records.{Rrs, ended, rrs_fault}
use tor_android_service_arch.Reply.Sections.{
  Question, question_behind, mismatch, question_fault, Sections, ReplyRead, usable, unusable,
  reply_fault, edns_checked, checked_rv, with_auth, question_checked, section, after_additional,
  after_authority, after_answer, with_entry, with_question, read_reply, reply_start,
}
use tor_android_service_arch.Reply.Sound.{RrsSound, rrs2cent-RrsSound}
use tor_android_service_arch.Reply.{Mallocs}

-- The codes that rrs2cent returns where memory suffices.
abbrev IsRv : ℕ → Type 0
IsRv rv = (rv ≡ rc_ok) ⊎ ((rv ≡ rc_format) ⊎ (rv ≡ rc_trunc))

module _ (sz : Sizes) (same : Bytes → Bytes → Bool) (name : Bytes) where
  pub record WholeEntries (s : Sections) : Type 0 where
    pub ans_first : Leads (some name) s.ans_sec
    pub ans_books : Books sz s.ans_sec
    pub ans_distinct : Distinct same s.ans_sec
    pub auth_books : Books sz s.auth_sec
    pub auth_distinct : Distinct same s.auth_sec
    pub add_books : Books sz s.add_sec
    pub add_distinct : Distinct same s.add_sec
    pub ans_fit : AllFit s.ans_sec
    pub auth_fit : AllFit s.auth_sec

  -- What may be said of a reply that is read.
  abbrev pub ReplySound : ReplyRead → Type 0
  ReplySound (usable s) = WholeEntries s × ((s.rv ≡ rc_ok) ⊎ ((s.rv ≡ rc_trunc) × (s.tc ≡ true)))
  ReplySound (unusable rv) = (rv ≡ rc_servfail) ⊎ (rv ≡ rc_fatalerr)
  ReplySound reply_fault = ⊥

  checked_rv-ReplySound :
      (tc : Bool) (s : Sections)
      → WholeEntries s
      → IsRv s.rv
      → s.tc ≡ tc
      → ReplySound (checked_rv tc s)
  checked_rv-ReplySound tc s w r e = ground (arith, w, r, e)

  checked_rv-fatal : (tc : Bool) (s : Sections) → s.rv ≡ rc_fatalerr → ReplySound (checked_rv tc s)
  checked_rv-fatal tc s e = ground (arith, e)

  edns_checked-fatal :
      (tc b : Bool) (n : ℕ) (s : Sections)
      → s.rv ≡ rc_fatalerr
      → ReplySound (checked_rv tc (edns_checked b n s))
  edns_checked-fatal tc b n s e = elim (Bool-cases (b && not (s.rcode == n))) [
    | inl z ↦ rw (edns_checked, z) (checked_rv-fatal tc _ e)
    | inr z ↦ rw (edns_checked, z) (checked_rv-fatal tc s e)
  ]

  edns_checked-ReplySound :
      (b : Bool) (n : ℕ) (s : Sections)
      → WholeEntries s
      → IsRv s.rv
      → ReplySound (checked_rv s.tc (edns_checked b n s))
  edns_checked-ReplySound b n s w r = elim (Bool-cases (b && not (s.rcode == n))) [
    | inl z ↦
        let s' = record s { rcode = n; failures = if s.failures == 0 then 1 else s.failures } in
        rw (edns_checked, z)
          (checked_rv-ReplySound s.tc s'
            (record {
              ans_first = w.ans_first;
              ans_books = w.ans_books;
              ans_distinct = w.ans_distinct;
              auth_books = w.auth_books;
              auth_distinct = w.auth_distinct;
              add_books = w.add_books;
              add_distinct = w.add_distinct;
              ans_fit = w.ans_fit;
              auth_fit = w.auth_fit;
            })
            r refl)
    | inr z ↦ rw (edns_checked, z) (checked_rv-ReplySound s.tc s w r refl)
  ]

  module _ (qtype : ℕ) (msg : Bytes) (rrlkuptab : ℕ → ℕ) (flags : SetFlags) (queryts : ℕ)
      (bytes : AllBytes msg) where
    section-RrsSound :
        (mallocs : ℕ → Mallocs) (f : SetFlags) (rv rrp lcnt count : ℕ) (ep : EdnsInfo)
        → IsRv rv
        → rrp + lcnt ≡ length msg
        → RrsSound sz same msg none
            (section same name qtype msg rrlkuptab sz flags queryts mallocs f rv rrp lcnt count ep)
    section-RrsSound mallocs f rv rrp lcnt count ep r e =
        elim (Bool-cases ((rv == rc_ok) && not (count == 0))) [
          | inl z ↦
              rw (section, z)
                (rrs2cent-RrsSound sz same msg none rrlkuptab f queryts mallocs rrp lcnt count [] 0
                  ep bytes e tt tt tt tt)
          | inr z ↦
              rw (section, z)
                (record { at_rest = e; books = tt; distinct = tt; fit = tt }, inr (tt, r))
        ]

    after_additional-ReplySound :
        (s : Sections) (r : Rrs)
        → WholeEntries s
        → RrsSound sz same msg none r
        → ReplySound (after_additional same name qtype msg rrlkuptab sz flags queryts s r)
    after_additional-ReplySound s rrs_fault w h = h
    after_additional-ReplySound s (ended rv p) w (k, inl e) =
        edns_checked-fatal s.tc (not (p.numopt == 0)) p.ep.rcode
          (record s { rv = rv; add_sec = p.centa }) e
    after_additional-ReplySound s (ended rv p) w (k, inr (l, r)) =
        edns_checked-ReplySound (not (p.numopt == 0)) p.ep.rcode
          (record s { rv = rv; add_sec = p.centa })
          (record {
            ans_first = w.ans_first;
            ans_books = w.ans_books;
            ans_distinct = w.ans_distinct;
            auth_books = w.auth_books;
            auth_distinct = w.auth_distinct;
            add_books = k.books;
            add_distinct = k.distinct;
            ans_fit = w.ans_fit;
            auth_fit = w.auth_fit;
          })
          r

    after_authority-ReplySound :
        (cl : ℕ → Mallocs) (f : SetFlags) (s : Sections) (r : Rrs)
        → Leads (some name) s.ans_sec
        → Books sz s.ans_sec
        → Distinct same s.ans_sec
        → AllFit s.ans_sec
        → s.add_sec ≡ []
        → RrsSound sz same msg none r
        → ReplySound (after_authority same name qtype msg rrlkuptab sz flags queryts cl f s r)
    after_authority-ReplySound cl f s rrs_fault l b d a e h = h
    after_authority-ReplySound cl f s (ended rv p) l b d a e (k, inl x) = rw x (inr refl)
    after_authority-ReplySound cl f s (ended rv p) l b d a e (k, inr (t, r)) =
        after_additional-ReplySound (record s { auth_sec = p.centa }) _
          (record {
            ans_first = l;
            ans_books = b;
            ans_distinct = d;
            auth_books = k.books;
            auth_distinct = k.distinct;
            add_books = rw e tt;
            add_distinct = rw e tt;
            ans_fit = a;
            auth_fit = k.fit;
          })
          (section-RrsSound cl f rv p.ptr p.lcnt (count_at msg 10) p.ep r k.at_rest)

    after_answer-ReplySound :
        (bl cl : ℕ → Mallocs) (f : SetFlags) (s : Sections) (r : Rrs)
        → s.add_sec ≡ []
        → RrsSound sz same msg (some name) r
        → ReplySound (after_answer same name qtype msg rrlkuptab sz flags queryts bl cl f s r)
    after_answer-ReplySound bl cl f s rrs_fault e h = h
    after_answer-ReplySound bl cl f s (ended rv p) e (k, inl x) = rw x (inr refl)
    after_answer-ReplySound bl cl f s (ended rv p) e (k, inr (l, r)) =
        after_authority-ReplySound cl f (record s { ans_sec = p.centa }) _ l k.books k.distinct
          k.fit e (section-RrsSound bl f rv p.ptr p.lcnt (count_at msg 8) p.ep r k.at_rest)

    with_entry-ReplySound :
        (allocated : Bool) (cf : CentFlags) (al bl cl : ℕ → Mallocs) (s : Sections) (rrp lcnt : ℕ)
        (ls : List Label)
        → Fits name ls
        → s.add_sec ≡ []
        → rrp + lcnt ≡ length msg
        → ReplySound (
            with_entry same name qtype msg rrlkuptab sz flags queryts al bl cl s rrp lcnt
              (init_cent sz allocated false name (length name) 0 0 cf))
    unfolding init_cent
    with_entry-ReplySound false cf al bl cl s rrp lcnt ls fn e h = inr refl
    with_entry-ReplySound true cf al bl cl s rrp lcnt ls fn e h =
        let c : Cent = record {
          qname = name;
          cs = sz.cent + length name;
          num_rrs = 0;
          flags = cf;
          body = empty_body;
          c_ns = none;
          c_soa = none;
        } in
        let a : Accounted sz (length name) c = record {
          shaped = refl;
          size = omega (arith, slots_size-replicate sz nrrmu);
          count = sym (slots_count-replicate sz nrrmu);
        } in
        after_answer-ReplySound bl cl _ s _ e (
          rrs2cent-RrsSound sz same msg (some name) rrlkuptab (with_auth (s.aa && not s.tc) flags)
            queryts al rrp lcnt (count_at msg 6) (c ∷ []) 0 no_edns bytes h (a, tt) (tt, tt) refl
            ((ls, fn), tt))

    -- Where a question leaves the pointer.
    abbrev AtRest : Question → Type 0
    AtRest (question_behind rrp lcnt) = rrp + lcnt ≡ length msg
    AtRest mismatch = Unit
    AtRest question_fault = ⊥

    question_checked-AtRest :
        (rrp lcnt : ℕ) (r : Decompressed)
        → rrp + lcnt ≡ length msg
        → Sound msg rrp lcnt r
        → AtRest (question_checked same name qtype msg rrp r)
    question_checked-AtRest rrp lcnt (named used left nbuf) e (hops, taken, few, r) =
        elim (Bool-cases (same nbuf name && not (ltb left 4))) [
          | inl z ↦
              let four : 4 ≤ left = ground (arith, z) in
              let (qt, f) = getint16_inside msg (rrp + used) (omega (arith, e, taken, four)) in
              rw (question_checked, z, f)
                (elim (Bool-cases (qt == qtype)) [
                  | inl y ↦ rw y (omega (arith, e, taken, four))
                  | inr y ↦ rw y tt
                ])
          | inr z ↦ rw (question_checked, z) tt
        ]
    question_checked-AtRest rrp lcnt truncated e s = tt
    question_checked-AtRest rrp lcnt (format r) e s = tt
    question_checked-AtRest rrp lcnt fault e s = s
    question_checked-AtRest rrp lcnt diverged e s = s

    with_question-ReplySound :
        (grown allocated : Bool) (al bl cl : ℕ → Mallocs) (s : Sections) (q : Question)
        (ls : List Label)
        → Fits name ls
        → s.add_sec ≡ []
        → AtRest q
        → ReplySound (
            with_question same name qtype msg rrlkuptab sz flags queryts grown allocated al bl cl s
              q)
    with_question-ReplySound grown allocated al bl cl s question_fault ls fn e h = h
    with_question-ReplySound grown allocated al bl cl s mismatch ls fn e h = inl refl
    with_question-ReplySound false allocated al bl cl s (question_behind rrp lcnt) ls fn e h =
        inr refl
    with_question-ReplySound true allocated al bl cl s (question_behind rrp lcnt) ls fn e h =
        with_entry-ReplySound allocated _ al bl cl s rrp lcnt ls fn e h

    -- A reply of at least a header, to a query for a name that fits into a buffer, whatever its bytes,
    -- its counts and its compressed names, and whichever calls of `malloc` fail, is read to the end,
    -- without a read behind the message. It is given up with RC_SERVFAIL or RC_FATALERR, or its three
    -- sections are entries with true sizes and counts and no name twice in a section, those of the
    -- answer and authority sections for names that fit into a buffer, the first of the answer section
    -- that for the name queried; a section that is cut short is accepted only with the bit `tc`.
    pub read_reply-ReplySound :
        (grown allocated : Bool) (al bl cl : ℕ → Mallocs) (rd : Bool) (failures : ℕ)
        (ls : List Label)
        → Fits name ls
        → sizeof_dns_hdr ≤ length msg
        → ReplySound (
            read_reply same name qtype msg rrlkuptab sz flags queryts grown allocated al bl cl rd
              failures)
    unfolding read_reply
    read_reply-ReplySound grown allocated al bl cl rd failures ls fn h =
        let q =
          question_checked-AtRest sizeof_dns_hdr (length msg - sizeof_dns_hdr)
            (decompress_name msg sizeof_dns_hdr (length msg - sizeof_dns_hdr)) (omega (arith, h))
            (decompress_name-Sound msg sizeof_dns_hdr (length msg - sizeof_dns_hdr)) in
        elim (Bool-cases (count_at msg 4 == 1)) [
          | inl z ↦ rw z (
              with_question-ReplySound grown allocated al bl cl (reply_start msg rd failures) _ ls
                fn refl q)
          | inr z ↦ rw z (inl refl)
        ]
