-- ===== src/Reply/Sections.antt =====
-- Reading a reply (dns_query.c, p_exec_query, from the number of its questions to the check of what
-- `rrs2cent` has returned for its three sections). `name` and `qtype` are the query's.
use tor_android_service_arch.Cache.Cent.{Sizes, SetFlags, Cent, init_cent}
use tor_android_service_arch.Message.Decompress.{
  Decompressed, named, truncated, format, fault, diverged, decompress_name,
}
use tor_android_service_arch.Names.{Bytes}
use tor_android_service_arch.Prelude.{
  ℕ, ◌+◌, ◌-◌, ◌/◌, ◌%◌, Bool, true, false, ◌&&◌, ◌||◌, not, ltb, ◌==◌, if◌then◌else◌, List, [],
  ◌∷◌, Option, none, some, length,
}
use tor_android_service_arch.Query.Records.{no_edns}
use tor_android_service_arch.Query.{
  rc_ok, rc_servfail, rc_trunc, rc_fatalerr, sizeof_dns_hdr, EdnsInfo, byte_or, count_at, hdr_qr,
  hdr_opcode, hdr_tc, hdr_z, hdr_rcode, getint16,
}
use tor_android_service_arch.Reply.Records.{Rrs, ended, rrs_fault, rrs2cent}
use tor_android_service_arch.Reply.{Mallocs, zero_flags}

-- QT_ALL
abbrev pub qt_all : ℕ
qt_all = 255

abbrev pub reply_id : Bytes → ℕ
reply_id msg = count_at msg 0

abbrev pub hdr_aa : Bytes → Bool
hdr_aa msg = byte_or 2 msg / 4 % 2 == 1

abbrev pub hdr_ra : Bytes → Bool
hdr_ra msg = byte_or 3 msg / 128 == 1

-- "Basic sanity checks": is the reply not discarded?
unfoldable pub is_sane : (myrid : ℕ) → Bytes → Bool
is_sane myrid msg =
    not (ltb (length msg) sizeof_dns_hdr)
    && ((reply_id msg == myrid)
        && ((hdr_qr msg == 1) && ((hdr_opcode msg == 0) && (hdr_z msg == 0))))

-- The query record of the reply; `rrp` and `lcnt` are behind it.
pub data Question : Type 0 where
  question_behind : (rrp lcnt : ℕ) → Question
  mismatch question_fault : Question

abbrev pub type_checked : (qtype rrp lcnt : ℕ) → Option ℕ → Question
type_checked qtype rrp lcnt none = question_fault
type_checked qtype rrp lcnt (some qt) =
    if qt == qtype then question_behind (rrp + 4) (lcnt - 4) else mismatch

-- What rrs2cent leaves of the sections; `aa`, `tc` and `ra` are those of `query_stat_t`.
pub record Sections : Type 0 where
  pub rv : ℕ
  pub ans_sec : List Cent
  pub auth_sec : List Cent
  pub add_sec : List Cent
  pub rcode : ℕ
  pub failures : ℕ
  pub aa : Bool
  pub tc : Bool
  pub ra : Bool

pub data ReplyRead : Type 0 where
  usable : Sections → ReplyRead
  unusable : (rv : ℕ) → ReplyRead
  reply_fault : ReplyRead

-- "Mark as failed, but use answer tentatively."
abbrev pub edns_checked : (has_opt : Bool) → (edns_rcode : ℕ) → Sections → Sections
edns_checked has_opt edns_rcode s =
    if has_opt && not (s.rcode == edns_rcode)
    then record s { rcode = edns_rcode; failures = if s.failures == 0 then 1 else s.failures }
    else s

abbrev pub checked_rv : (tc : Bool) → Sections → ReplyRead
checked_rv tc s =
    if (s.rv == rc_ok) || ((s.rv == rc_trunc) && tc)
    then usable s
    else if s.rv == rc_servfail
    then usable (record s { failures = if s.failures == 0 then 1 else s.failures })
    else unusable (if s.rv == rc_fatalerr then rc_fatalerr else rc_servfail)

abbrev pub with_auth : Bool → SetFlags → SetFlags
with_auth aa f = if aa then record f { auth = true } else f

abbrev pub with_additional : SetFlags → SetFlags
with_additional f = record f { additional = true }

-- The variables before the sections are read.
abbrev pub reply_start : Bytes → (rd : Bool) → (failures : ℕ) → Sections
reply_start msg rd failures = record {
  rv = rc_ok;
  ans_sec = [];
  auth_sec = [];
  add_sec = [];
  rcode = hdr_rcode msg;
  failures = failures;
  aa = hdr_aa msg && (failures == 0);
  tc = hdr_tc msg == 1;
  ra = rd && hdr_ra msg;
}

module _ (same : Bytes → Bytes → Bool) (name : Bytes) (qtype : ℕ) (msg : Bytes) where
  abbrev pub question_checked : (rrp : ℕ) → Decompressed → Question
  question_checked rrp (named used left nbuf) =
      if same nbuf name && not (ltb left 4)
      then type_checked qtype (rrp + used) left (getint16 msg (rrp + used))
      else mismatch
  question_checked rrp truncated = mismatch
  question_checked rrp (format r) = mismatch
  question_checked rrp fault = question_fault
  question_checked rrp diverged = question_fault

  module _ (rrlkuptab : ℕ → ℕ) (sz : Sizes) (flags : SetFlags) (queryts : ℕ) where
    -- A section, where all is well so far and it is not empty; `centa` is its array.
    abbrev pub section :
        (mallocs : ℕ → Mallocs) → SetFlags → (rv rrp lcnt count : ℕ) → EdnsInfo → Rrs
    section mallocs f rv rrp lcnt count ep =
        if (rv == rc_ok) && not (count == 0)
        then rrs2cent rrlkuptab sz same f queryts mallocs msg rrp lcnt count [] 0 ep
        else ended rv
            (record { ptr = rrp; lcnt = lcnt; numopt = 0; ep = ep; centa = []; retval = rv })

    abbrev pub after_additional : Sections → Rrs → ReplyRead
    after_additional s rrs_fault = reply_fault
    after_additional s (ended rv p) =
        checked_rv s.tc
          (edns_checked (not (p.numopt == 0)) p.ep.rcode (record s { rv = rv; add_sec = p.centa }))

    abbrev pub after_authority : (mallocs : ℕ → Mallocs) → SetFlags → Sections → Rrs → ReplyRead
    after_authority mallocs f s rrs_fault = reply_fault
    after_authority mallocs f s (ended rv p) =
        after_additional (record s { auth_sec = p.centa })
          (section mallocs f rv p.ptr p.lcnt (count_at msg 10) p.ep)

    -- `al`, `bl` and `cl` are the outcomes of the calls of `malloc` in the three sections.
    abbrev pub after_answer : (bl cl : ℕ → Mallocs) → SetFlags → Sections → Rrs → ReplyRead
    after_answer bl cl f s rrs_fault = reply_fault
    after_answer bl cl f s (ended rv p) =
        after_authority cl f (record s { ans_sec = p.centa })
          (section bl f rv p.ptr p.lcnt (count_at msg 8) p.ep)

    abbrev pub with_entry :
        (al bl cl : ℕ → Mallocs) → Sections → (rrp lcnt : ℕ) → Option Cent → ReplyRead
    with_entry al bl cl s rrp lcnt none = unusable rc_fatalerr
    with_entry al bl cl s rrp lcnt (some c) =
        let f = with_auth (s.aa && not s.tc) flags in
        after_answer bl cl (with_additional f) s
          (rrs2cent rrlkuptab sz same f queryts al msg rrp lcnt (count_at msg 6) (c ∷ []) 0 no_edns)

    abbrev pub with_question :
        (grown allocated : Bool) → (al bl cl : ℕ → Mallocs) → Sections → Question → ReplyRead
    with_question grown allocated al bl cl s question_fault = reply_fault
    with_question grown allocated al bl cl s mismatch = unusable rc_servfail
    with_question grown allocated al bl cl s (question_behind rrp lcnt) =
        if grown
        then with_entry al bl cl s rrp lcnt (
            init_cent sz allocated false name (length name) 0 0
              (record zero_flags { auth = (s.aa && not s.tc) && (qtype == qt_all) }))
        else unusable rc_fatalerr

    -- `rd` is the bit of the query, `failures` the field `failed` of `query_stat_t`.
    unfoldable pub read_reply :
        (grown allocated : Bool)
        → (al bl cl : ℕ → Mallocs) → (rd : Bool) → (failures : ℕ) → ReplyRead
    unfolding rrs2cent decompress_name init_cent
    read_reply grown allocated al bl cl rd failures =
        if count_at msg 4 == 1
        then with_question grown allocated al bl cl (reply_start msg rd failures) (
            question_checked sizeof_dns_hdr
              (decompress_name msg sizeof_dns_hdr (length msg - sizeof_dns_hdr)))
        else unusable rc_servfail
