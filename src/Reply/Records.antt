-- ===== src/Reply/Records.antt =====
-- The loop of `rrs2cent`. `mallocs i` are the outcomes of the calls of `malloc` for record `i`.
use tor_android_service_arch.Cache.Cent.{Sizes, SetFlags, Cent, nrrmu, nrrext, t_min}
use tor_android_service_arch.Message.Decompress.{
  Decompressed, named, truncated, format, fault, diverged, decompress_name,
}
use tor_android_service_arch.Names.{Bytes}
use tor_android_service_arch.Prelude.{
  ℕ, zero, suc, ◌+◌, ◌-◌, ◌*◌, Bool, ◌&&◌, ◌||◌, not, ltb, leb, ◌==◌, if◌then◌else◌, List, Option,
  none, some,
}
use tor_android_service_arch.Query.Records.{RrHeader, rr_header, is_opt, edns_of}
use tor_android_service_arch.Query.{
  rc_ok, rc_format, rc_trunc, sizeof_rr_hdr, EdnsInfo, count_at, rc_fatalerr,
}
use tor_android_service_arch.Reply.Rdata.{Reading, at, refused, faulted, rdata_of}
use tor_android_service_arch.Reply.{Mallocs, rr_to_cache}

abbrev pub t_max : ℕ
t_max = 51

abbrev pub c_in : ℕ
c_in = 1

-- NRRTOT
abbrev pub nrrtot : ℕ
nrrtot = nrrmu + nrrext

-- `*ptr`, `*lcnt`, `*numopt`, `*ep`, `*centa` and `retval`
pub record Progress : Type 0 where
  pub ptr : ℕ
  pub lcnt : ℕ
  pub numopt : ℕ
  pub ep : EdnsInfo
  pub centa : List Cent
  pub retval : ℕ

pub data Rrs : Type 0 where
  ended : (rc : ℕ) → Progress → Rrs
  rrs_fault : Rrs

abbrev pub moved_by : (used : ℕ) → Progress → Progress
moved_by used p = record p { ptr = p.ptr + used; lcnt = p.lcnt - used }

-- The 32 bits of the time to live, which lie before the length of the record.
abbrev pub ttl_at : Bytes → (p : ℕ) → ℕ
ttl_at msg p = count_at msg (p + 4) * 0x10000 + count_at msg (p + 6)

-- What `rr_to_cache` has returned.
abbrev pub cached : (next : Progress → Rrs) → (rdlength : ℕ) → Progress → ℕ × List Cent → Rrs
cached next rdlength p r =
    let p' = record p { centa = r.1 } in
    if r.0 == rc_fatalerr
    then ended rc_fatalerr p'
    else next (moved_by rdlength (record p' { retval = if r.0 == 0 then p.retval else r.0 }))

module _ (rrlkuptab : ℕ → ℕ) where
  -- PDNSD_NOT_CACHED_TYPE
  abbrev pub not_cached_type : ℕ → Bool
  not_cached_type type = ltb type t_min || (ltb t_max type || leb nrrtot (rrlkuptab (type - t_min)))

  module _ (sz : Sizes) (same : Bytes → Bytes → Bool) (flags : SetFlags) (queryts : ℕ) where
    abbrev pub to_cache :
        Mallocs
        → (next : Progress → Rrs) → (oname : Bytes) (type ttl rdlength : ℕ) → Progress
        → Reading
        → Rrs
    to_cache al next oname type ttl rdlength p (refused rc) = ended rc p
    to_cache al next oname type ttl rdlength p faulted = rrs_fault
    to_cache al next oname type ttl rdlength p (at c) = cached next rdlength p (
        rr_to_cache sz flags queryts same al
          (record { oname = oname; idx = rrlkuptab (type - t_min); ttl = ttl; rdata = c.db })
          p.centa)

    -- A record whose header is read; `p` is at its data.
    abbrev pub rr_at :
        (msg : Bytes)
        → Mallocs
        → (next : Progress → Rrs) → (oname : Bytes) (ttl : ℕ) → RrHeader
        → Progress
        → Rrs
    rr_at msg al next oname ttl h p =
        if ltb p.lcnt h.rdlen
        then ended rc_trunc p
        else if is_opt h
        then next (
            moved_by h.rdlen (record p {
              numopt = p.numopt + 1;
              ep = if p.numopt == 0 then edns_of msg h else p.ep;
            }))
        else if not (not_cached_type h.type_of) && (h.class_of == c_in)
        then to_cache al next oname h.type_of ttl h.rdlen p
            (rdata_of msg al.rbuf p.ptr h.rdlen h.type_of)
        else next (moved_by h.rdlen p)

    -- The header, behind the name at `p`.
    abbrev pub header_at :
        (msg : Bytes)
        → Mallocs
        → (next : Progress → Rrs) → (oname : Bytes) → Progress
        → Option RrHeader
        → Rrs
    header_at msg al next oname p none = rrs_fault
    header_at msg al next oname p (some h) =
        rr_at msg al next oname (ttl_at msg p.ptr) h (moved_by sizeof_rr_hdr p)

    abbrev pub owner_read :
        (msg : Bytes) → Mallocs → (next : Progress → Rrs) → Progress → Decompressed → Rrs
    owner_read msg al next p (named used left oname) =
        let p' = record p { ptr = p.ptr + used; lcnt = left } in
        if ltb left sizeof_rr_hdr
        then ended rc_trunc p'
        else header_at msg al next oname p' (rr_header msg p'.ptr)
    owner_read msg al next p truncated = ended rc_trunc p
    owner_read msg al next p (format r) = ended rc_format p
    owner_read msg al next p fault = rrs_fault
    owner_read msg al next p diverged = rrs_fault

    unfoldable pub rrs_from :
        (left : ℕ) → (mallocs : ℕ → Mallocs) (i : ℕ) → (msg : Bytes) → Progress → Rrs
    unfolding decompress_name rdata_of rr_to_cache
    rrs_from zero mallocs i msg p = ended p.retval p
    rrs_from (suc left) mallocs i msg p =
        owner_read msg (mallocs i) (rrs_from left mallocs (i + 1) msg) p
          (decompress_name msg p.ptr p.lcnt)

    unfoldable pub rrs2cent :
        (mallocs : ℕ → Mallocs)
        → (msg : Bytes) → (ptr lcnt recnum : ℕ) → List Cent
        → (numopt : ℕ) → EdnsInfo
        → Rrs
    unfolding rrs_from
    rrs2cent mallocs msg ptr lcnt recnum centa numopt ep =
        rrs_from recnum mallocs 0 msg (record {
          ptr = ptr;
          lcnt = lcnt;
          numopt = numopt;
          ep = ep;
          centa = centa;
          retval = rc_ok;
        })
