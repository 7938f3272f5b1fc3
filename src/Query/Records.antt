-- ===== src/Query/Records.antt =====
-- The additional section of a query (dns_answer.c, decode_query_additional).
use tor_android_service_arch.Message.Decompress.{
  Decompressed, named, truncated, format, fault, diverged, decompress_name,
}
use tor_android_service_arch.Names.{Bytes}
use tor_android_service_arch.Prelude.{
  ℕ, zero, suc, ◌+◌, ◌-◌, ◌*◌, ◌/◌, ◌%◌, Bool, ◌&&◌, ltb, ◌==◌, if◌then◌else◌, List, [], ◌∷◌,
  Option, none, some,
}
use tor_android_service_arch.Query.{
  rc_ok, rc_format, rc_trunc, t_opt, sizeof_rr_hdr, EdnsInfo, byte_or, hdr_rcode, getint16,
}

-- The return value, `*numopt` and `*ep`.
pub data Additional : Type 0 where
  additional : (res numopt : ℕ) → EdnsInfo → Additional
  additional_fault : Additional

-- What is read of a record's header: `type`, `class`, the time to live, three bytes of which matter,
-- and `rdlen`.
pub record RrHeader : Type 0 where
  pub type_of : ℕ
  pub class_of : ℕ
  pub ttlp : List ℕ
  pub rdlen : ℕ

abbrev pub rr_header : Bytes → ℕ → Option RrHeader
rr_header msg p = elim (getint16 msg p) [
  | none ↦ none
  | some t ↦ elim (getint16 msg (p + 2)) [
    | none ↦ none
    | some c ↦ elim (getint16 msg (p + 8)) [
      | none ↦ none
      | some len ↦ some (record {
        type_of = t;
        class_of = c;
        ttlp = byte_or (p + 4) msg ∷ byte_or (p + 5) msg ∷ byte_or (p + 6) msg ∷ [];
        rdlen = len;
      })
    ]
  ]
]

abbrev pub ttl_byte : ℕ → RrHeader → ℕ
ttl_byte i h = byte_or i h.ttlp

-- The information of an OPT pseudo record.
abbrev pub edns_of : Bytes → RrHeader → EdnsInfo
edns_of msg h = record {
  udpsize = h.class_of;
  rcode = ttl_byte 0 h * 16 + hdr_rcode msg;
  version = ttl_byte 1 h;
  do_flg = ttl_byte 2 h / 128 % 2;
}

abbrev pub is_opt : RrHeader → Bool
is_opt h = h.type_of == t_opt

-- The part of the body that has read the header; the record's data are skipped.
abbrev pub record_at :
    (msg : Bytes)
    → (ptr sz numopt : ℕ) → EdnsInfo
    → (next : (ptr sz numopt : ℕ) → EdnsInfo → Additional) → RrHeader
    → Additional
record_at msg ptr sz numopt ep next h =
    if ltb sz h.rdlen
    then additional rc_trunc numopt ep
    else next (ptr + h.rdlen) (sz - h.rdlen) (if is_opt h then numopt + 1 else numopt)
        (if is_opt h && (numopt == 0) then edns_of msg h else ep)

-- The body of the loop behind decompress_name.
abbrev pub record_read :
    (msg : Bytes)
    → (ptr sz numopt : ℕ) → EdnsInfo
    → (next : (ptr sz numopt : ℕ) → EdnsInfo → Additional) → Decompressed
    → Additional
record_read msg ptr sz numopt ep next (named used sz' nmbuf) =
    if ltb sz' sizeof_rr_hdr
    then additional rc_trunc numopt ep
    else elim (rr_header msg (ptr + used)) [
      | none ↦ additional_fault
      | some h ↦ record_at msg (ptr + used + sizeof_rr_hdr) (sz' - sizeof_rr_hdr) numopt ep next h
    ]
record_read msg ptr sz numopt ep next truncated = additional rc_trunc numopt ep
record_read msg ptr sz numopt ep next (format r) = additional rc_format numopt ep
record_read msg ptr sz numopt ep next fault = additional_fault
record_read msg ptr sz numopt ep next diverged = additional_fault

unfoldable pub decode_records :
    (left : ℕ) → (msg : Bytes) → (ptr sz numopt : ℕ) → EdnsInfo → Additional
unfolding decompress_name
decode_records zero msg ptr sz numopt ep = additional rc_ok numopt ep
decode_records (suc left) msg ptr sz numopt ep =
    record_read msg ptr sz numopt ep (decode_records left msg) (decompress_name msg ptr sz)

-- `edns_info_t ednsinfo= {0}`
abbrev pub no_edns : EdnsInfo
no_edns = record { udpsize = 0; rcode = 0; version = 0; do_flg = 0 }

unfoldable pub decode_query_additional : (msg : Bytes) → (ptr sz numrr : ℕ) → Additional
unfolding decode_records
decode_query_additional msg ptr sz numrr = decode_records numrr msg ptr sz 0 no_edns
