-- ===== src/Query.antt =====
-- Reading a query (dns_answer.c): the codes and the header of dns.h, and the header of an error reply.
-- `msg`, the argument `data`, is the list of the bytes of the message, a pointer its offset; a read
-- behind the message is a fault. The header is read from its bytes, as the bit fields of dns.h lay it
-- out. compose_answer is not modelled.
pub mod Questions
pub mod Records
pub mod Process
pub mod InBounds
pub mod RecordsInBounds
pub mod Answered
pub mod Opt
mod Tests
use tor_android_service_arch.Cache.Store.Adding.{first_outcome, later_outcomes}
use tor_android_service_arch.Message.Decompress.{
  Decompressed, named, truncated, format, fault, diverged, decompress_name,
}
use tor_android_service_arch.Names.{Bytes}
use tor_android_service_arch.Prelude.{
  ℕ, zero, suc, ◌+◌, ◌-◌, ◌*◌, ◌/◌, ◌%◌, Bool, true, false, ◌&&◌, ◌||◌, not, ltb, leb, ◌==◌,
  if◌then◌else◌, List, [], ◌∷◌, ◌++◌, Option, none, some, length, get_elem?,
}

abbrev pub rc_ok : ℕ
rc_ok = 0

abbrev pub rc_format : ℕ
rc_format = 1

abbrev pub rc_servfail : ℕ
rc_servfail = 2

abbrev pub rc_notsupp : ℕ
rc_notsupp = 4

abbrev pub rc_badvers : ℕ
rc_badvers = 16

abbrev pub rc_trunc : ℕ
rc_trunc = 0xfffe

abbrev pub rc_fatalerr : ℕ
rc_fatalerr = 0xffff

abbrev pub t_opt : ℕ
t_opt = 41

abbrev pub sizeof_dns_hdr : ℕ
sizeof_dns_hdr = 12

abbrev pub sizeof_rr_hdr : ℕ
sizeof_rr_hdr = 10

abbrev pub udp_bufsize : ℕ
udp_bufsize = 512

-- `dns_queryel_t`
pub record QueryEl : Type 0 where
  pub query : Bytes
  pub qtype : ℕ
  pub qclass : ℕ

-- `edns_info_t`
pub record EdnsInfo : Type 0 where
  pub udpsize : ℕ
  pub rcode : ℕ
  pub version : ℕ
  pub do_flg : ℕ

-- The bytes of the header; out of the message they are not read.
abbrev pub byte_or : ℕ → Bytes → ℕ
byte_or i msg = elim (get_elem? msg i) [ none ↦ 0 | some b ↦ b ]

-- The fields of `dns_hdr_t`: a count in network order, and the bit fields.
abbrev pub count_at : Bytes → ℕ → ℕ
count_at msg i = byte_or i msg * 256 + byte_or (i + 1) msg

abbrev pub hdr_qr : Bytes → ℕ
hdr_qr msg = byte_or 2 msg / 128 % 2

abbrev pub hdr_opcode : Bytes → ℕ
hdr_opcode msg = byte_or 2 msg / 8 % 16

abbrev pub hdr_tc : Bytes → ℕ
hdr_tc msg = byte_or 2 msg / 2 % 2

abbrev pub hdr_z : Bytes → ℕ
hdr_z msg = byte_or 3 msg / 64 % 2

abbrev pub hdr_rcode : Bytes → ℕ
hdr_rcode msg = byte_or 3 msg % 16

-- GETINT16
abbrev pub getint16 : Bytes → ℕ → Option ℕ
getint16 msg p = elim (get_elem? msg p) [
  | none ↦ none
  | some hi ↦ elim (get_elem? msg (p + 1)) [ none ↦ none | some lo ↦ some (hi * 256 + lo) ]
]

-- `dns_hdr_t`, with the counts
pub record DnsHdr : Type 0 where
  pub id : ℕ
  pub qr : ℕ
  pub opcode : ℕ
  pub aa : ℕ
  pub tc : ℕ
  pub rd : ℕ
  pub ra : ℕ
  pub z : ℕ
  pub ad : ℕ
  pub cd : ℕ
  pub rcode : ℕ
  pub qdcount : ℕ
  pub ancount : ℕ
  pub nscount : ℕ
  pub arcount : ℕ

-- `opcode` and `rcode` are fields of four bits.
unfoldable pub mk_error_reply : (id opcode rescode : ℕ) → DnsHdr
mk_error_reply id opcode rescode = record {
  id = id;
  qr = 1;
  opcode = opcode % 16;
  aa = 0;
  tc = 0;
  rd = 0;
  ra = 1;
  z = 0;
  ad = 0;
  cd = 0;
  rcode = rescode % 16;
  qdcount = 0;
  ancount = 0;
  nscount = 0;
  arcount = 0;
}
