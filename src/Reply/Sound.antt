-- ===== src/Reply/Sound.antt =====
-- The whole of `rrs2cent`: the message, the buffers and the entries.
use tor_android_service_arch.Cache.Cent.{Sizes, SetFlags, Cent, nrrmu, nrrext, t_min}
use mathlib.Core.Path.{subst}
use tor_android_service_arch.Message.Decompress.Total.{Sound, decompress_name-Sound}
use tor_android_service_arch.Message.Decompress.{
  Decompressed, named, truncated, format, fault, diverged,
}
use tor_android_service_arch.Names.Wire.{Label}
use tor_android_service_arch.Names.{Bytes, dnsnamebufsize}
use tor_android_service_arch.Prelude.{
  ℕ, zero, suc, ◌+◌, ◌-◌, ◌≤◌, ◌<◌, ◌≡◌, ◌⊎◌, inl, inr, refl, arith, Bool, Bool-cases, ◌&&◌, not,
  ltb, ◌==◌, List, Option, length,
}
use tor_android_service_arch.Query.Records.{RrHeader, is_opt}
use tor_android_service_arch.Query.RecordsInBounds.{header_inside}
use tor_android_service_arch.Query.{
  rc_ok, rc_format, rc_trunc, sizeof_rr_hdr, EdnsInfo, rc_fatalerr,
}
use tor_android_service_arch.Reply.Bounded.{Bounded}
use tor_android_service_arch.Message.Fits.{Fits}
use tor_android_service_arch.Reply.Entries.{
  Books, Distinct, AllFit, rr_to_cache-AllFit, EntriesKept, Leads, rr_to_cache-EntriesKept,
  rr_to_cache-Leads,
}
use tor_android_service_arch.Reply.Rdata.{Reading, at, refused, faulted, layout_of}
use tor_android_service_arch.Reply.RdataInBounds.{AllBytes, buffer_size, rdata_of-Bounded}
use tor_android_service_arch.Reply.Records.{
  Progress, Rrs, ended, rrs_fault, moved_by, ttl_at, cached, not_cached_type, c_in, to_cache, rr_at,
  owner_read, rrs_from, rrs2cent,
}
use tor_android_service_arch.Reply.{Mallocs}

module _ (sz : Sizes) (same : Bytes → Bytes → Bool) (msg : Bytes) (lead : Option Bytes) where
  -- The rest of the message is from `*ptr` on, and the entries are whole.
  pub record InStep (p : Progress) : Type 0 where
    pub at_rest : p.ptr + p.lcnt ≡ length msg
    pub books : Books sz p.centa
    pub distinct : Distinct same p.centa
    pub fit : AllFit p.centa

  abbrev pub RrsSound : Rrs → Type 0
  RrsSound (ended rc p) =
      InStep p
      × ((rc ≡ rc_fatalerr)
          ⊎ (Leads lead p.centa × ((rc ≡ rc_ok) ⊎ ((rc ≡ rc_format) ⊎ (rc ≡ rc_trunc)))))
  RrsSound rrs_fault = ⊥

  abbrev Continues : (Progress → Rrs) → Type 0
  Continues next = (p : Progress) → InStep p → Leads lead p.centa → p.retval ≡ 0 → RrsSound (next p)

  moved_by-InStep : (n : ℕ) (p : Progress) → InStep p → n ≤ p.lcnt → InStep (moved_by n p)
  moved_by-InStep n p h le = record {
    at_rest = omega (arith, h.at_rest, le);
    books = h.books;
    distinct = h.distinct;
    fit = h.fit;
  }

  cached-RrsSound :
      (next : Progress → Rrs) (n : ℕ) (p : Progress) (r : ℕ × List Cent)
      → InStep p
      → Leads lead p.centa
      → p.retval ≡ 0
      → n ≤ p.lcnt
      → EntriesKept sz same r
      → (r.0 ≡ 0 → Leads lead r.1)
      → AllFit r.1
      → Continues next
      → RrsSound (cached next n p r)
  cached-RrsSound next n p r h l z le k f a go =
      let step : InStep (record p { centa = r.1 }) = record {
        at_rest = h.at_rest;
        books = k.books;
        distinct = k.distinct;
        fit = a;
      } in
      elim k.returns [
        | inl e ↦
            rw (cached, e)
              (go _
                (moved_by-InStep n _
                  (record { at_rest = h.at_rest; books = k.books; distinct = k.distinct; fit = a })
                  le)
                (f e) z)
        | inr e ↦ rw (cached, e) (step, inl refl)
      ]

  module _ (rrlkuptab : ℕ → ℕ) (flags : SetFlags) (queryts : ℕ) where
    to_cache-RrsSound :
        (al : Mallocs) (next : Progress → Rrs) (oname : Bytes) (type ttl n w : ℕ) (p : Progress)
        (r : Reading) (ls : List Label)
        → Fits oname ls
        → InStep p
        → Leads lead p.centa
        → p.retval ≡ 0
        → n ≤ p.lcnt
        → rrlkuptab (type - t_min) < nrrmu + nrrext
        → Bounded msg w r
        → Continues next
        → RrsSound (to_cache rrlkuptab sz same flags queryts al next oname type ttl n p r)
    to_cache-RrsSound al next oname type ttl n w p (at c) ls fo h l z le i b go =
        cached-RrsSound next n p _ h l z le
          (rr_to_cache-EntriesKept sz flags queryts al _ same p.centa i h.books h.distinct)
          (rr_to_cache-Leads sz flags queryts al _ same lead p.centa l)
          (rr_to_cache-AllFit sz flags queryts al _ same p.centa ls h.fit fo) go
    to_cache-RrsSound al next oname type ttl n w p (refused rc) ls fo h l z le i b go =
        elim b.bounded [ inl e ↦ (h, inr (l, inr (inl e))) | inr e ↦ (h, inl e) ]
    to_cache-RrsSound al next oname type ttl n w p faulted ls fo h l z le i b go = absurd b.bounded

    rr_at-RrsSound :
        (al : Mallocs) (next : Progress → Rrs) (oname : Bytes) (ttl : ℕ) (hd : RrHeader)
        (p : Progress) (ls : List Label)
        → Fits oname ls
        → AllBytes msg
        → InStep p
        → Leads lead p.centa
        → p.retval ≡ 0
        → Continues next
        → RrsSound (rr_at rrlkuptab sz same flags queryts msg al next oname ttl hd p)
    rr_at-RrsSound al next oname ttl hd p ls fo bytes h l z go =
        elim (Bool-cases (ltb p.lcnt hd.rdlen)) [
          | inl short ↦ rw (rr_at, short) (h, inr (l, inr (inr refl)))
          | inr long ↦
              let le : hd.rdlen ≤ p.lcnt = ground (arith, long) in
              elim (Bool-cases (is_opt hd)) [
                | inl o ↦
                    rw (rr_at, long, o)
                      (go _
                        (record {
                          at_rest = omega (arith, h.at_rest, le);
                          books = h.books;
                          distinct = h.distinct;
                          fit = h.fit;
                        })
                        l z)
                | inr o ↦
                    elim (Bool-cases
                      (not (not_cached_type rrlkuptab hd.type_of) && (hd.class_of == c_in))) [
                        | inl c ↦
                            rw (rr_at, long, o, c)
                              (to_cache-RrsSound al next oname hd.type_of ttl hd.rdlen
                                (buffer_size hd.rdlen (layout_of hd.type_of)) p _ ls fo h l z le
                                (ground (arith, c))
                                (rdata_of-Bounded msg bytes al.rbuf p.ptr hd.rdlen hd.type_of
                                  (omega (arith, h.at_rest, le)))
                                go)
                        | inr c ↦
                            rw (rr_at, long, o, c) (go _ (moved_by-InStep hd.rdlen p h le) l z)
                      ]
              ]
        ]

    owner_read-RrsSound :
        (al : Mallocs) (next : Progress → Rrs) (p : Progress) (r : Decompressed)
        → AllBytes msg
        → InStep p
        → Leads lead p.centa
        → p.retval ≡ 0
        → Continues next
        → Sound msg p.ptr p.lcnt r
        → RrsSound (owner_read rrlkuptab sz same flags queryts msg al next p r)
    owner_read-RrsSound al next p (named used left oname) bytes h l z go (hops, taken, few, r) =
        let p' = record p { ptr = p.ptr + used; lcnt = left } in
        let step : InStep p' = record {
          at_rest = omega (arith, h.at_rest, taken);
          books = h.books;
          distinct = h.distinct;
          fit = h.fit;
        } in
        elim (Bool-cases (ltb left sizeof_rr_hdr)) [
          | inl short ↦ rw (owner_read, short) (step, inr (l, inr (inr refl)))
          | inr long ↦
              let ten : 10 ≤ left = ground (arith, long) in
              let (hd, f) =
                header_inside msg (p.ptr + used) (omega (arith, h.at_rest, taken, ten)) in
              rw (owner_read, long, f)
                (rr_at-RrsSound al next oname (ttl_at msg p'.ptr) hd (moved_by sizeof_rr_hdr p')
                  r.labels
                  (record {
                    is_name = r.is_name;
                    encoded = r.written;
                    short = subst (λ w. length w ≤ dnsnamebufsize) r.written r.fits;
                  })
                  bytes (moved_by-InStep sizeof_rr_hdr p' step ten) l z go)
        ]
    owner_read-RrsSound al next p truncated bytes h l z go s = (h, inr (l, inr (inr refl)))
    owner_read-RrsSound al next p (format r) bytes h l z go s = (h, inr (l, inr (inl refl)))
    owner_read-RrsSound al next p fault bytes h l z go s = s
    owner_read-RrsSound al next p diverged bytes h l z go s = s

    rrs_from-Continues :
        (left : ℕ) (mallocs : ℕ → Mallocs) (i : ℕ)
        → AllBytes msg
        → Continues (rrs_from rrlkuptab sz same flags queryts left mallocs i msg)
    unfolding rrs_from
    rrs_from-Continues zero mallocs i bytes p h l z = (h, inr (l, inl z))
    rrs_from-Continues (suc left) mallocs i bytes p h l z =
        owner_read-RrsSound (mallocs i) _ p _ bytes h l z
          (rrs_from-Continues left mallocs (i + 1) bytes) (decompress_name-Sound msg p.ptr p.lcnt)

    -- On a message of any bytes, with any number of records announced and whichever calls of
    -- `malloc` fail, `rrs2cent` ends, reads no byte behind the message, writes no byte behind a
    -- buffer, and returns RC_OK, RC_FORMAT, RC_TRUNC or RC_FATALERR. It leaves `*ptr` and `*lcnt`
    -- at the rest of the message and, where this held of the entries that it was given, the size
    -- and count of every entry true, no two entries for one name, every entry for a name that fits
    -- into a buffer and, unless memory has failed, the first entry the one for the name that it was
    -- for.
    pub rrs2cent-RrsSound :
        (mallocs : ℕ → Mallocs) (ptr lcnt recnum : ℕ) (centa : List Cent) (numopt : ℕ)
        (ep : EdnsInfo)
        → AllBytes msg
        → ptr + lcnt ≡ length msg
        → Books sz centa
        → Distinct same centa
        → Leads lead centa
        → AllFit centa
        → RrsSound
            (rrs2cent rrlkuptab sz same flags queryts mallocs msg ptr lcnt recnum centa numopt ep)
    unfolding rrs2cent
    rrs2cent-RrsSound mallocs ptr lcnt recnum centa numopt ep bytes e b d l a =
        rrs_from-Continues recnum mallocs 0 bytes _
          (record { at_rest = e; books = b; distinct = d; fit = a }) l refl
