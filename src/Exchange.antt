-- ===== src/Exchange.antt =====
-- The exchange of one query with one server (dns_query.c, from `query_stat_t` to `p_query_sm`, and
-- `p_cancel_query`). A system call's outcome is a field of `Calls`: one field per place of the source
-- that calls it, `connect` by the number of the attempt. What has come in on a socket is a list
-- of bytes, of which `read` and `recv` hand out no more than they are asked for. The fields `opened`,
-- `closed` and `double_free` are not in the source: they count the calls of `socket` and `close`
-- and record a block that was freed twice.
pub mod Tcp
pub mod Machine
pub mod Handled
pub mod BalancedTcp
pub mod Balanced
pub mod Buffer
pub mod Runs
mod Tests
use tor_android_service_arch.Query.{rc_ok, rc_servfail}
use tor_android_service_arch.Names.{Bytes}
use tor_android_service_arch.Prelude.{
  ℕ, zero, suc, ◌+◌, ◌==◌, Bool, true, false, ◌||◌, ◌&&◌, [], Option, none, some, take,
  if◌then◌else◌,
}

-- The constants QS_…
pub data State : Type 0 where
  qs_initial qs_tcpinitial qs_tcpwrite qs_tcpread qs_udpinitial qs_udpreceive : State
  qs_canceled qs_done : State

-- consts.h
pub data QueryMethod : Type 0 where
  udp_only tcp_only tcp_udp udp_tcp : QueryMethod

pub data Errno : Type 0 where
  einprogress epipe econnrefused econnreset enetunreach enetdown ewouldblock : Errno
  other_errno : ℕ → Errno

-- `st->a`: as it was set, or by IPV6_MAPIPV4
pub data Address : Type 0 where
  given : ℕ → Address
  mapipv4 : ℕ → Address

-- A block of `size` bytes, of which the first, `got`, are written.
pub record RecvBuf : Type 0 where
  pub size : ℕ
  pub got : Bytes

-- `query_stat_t`, without what only p_exec_query reads; `a4fallback` is `none` for INADDR_ANY, and
-- `hdr_id` is the `id` of the message `st->msg`.
pub record QueryStat : Type 0 where
  pub a : Address
  pub a4fallback : Option ℕ
  pub state : State
  pub qm : QueryMethod
  pub edns_query : Bool
  pub failures : ℕ
  pub transl : ℕ
  pub recvl : ℕ
  pub iolen : ℕ
  pub hdr_id : ℕ
  pub myrid : ℕ
  pub recvbuf : Option RecvBuf
  pub s_errno : Option Errno
  pub opened : ℕ
  pub closed : ℕ
  pub double_free : Bool

pub data Received : Type 0 where
  came : Bytes → Received
  not_received : Errno → Received

pub data Written : Type 0 where
  accepts : ℕ → Written
  not_written : Errno → Written

-- `realloc`: the block, or NULL with the old block kept, or NULL with the old block freed.
pub data Realloc : Type 0 where
  moved null_kept null_freed : Realloc

-- `run_ipv4` and `udpbufsize` (that of `global`) are the program's settings.
pub record Calls : Type 0 where
  pub run_ipv4 : Bool
  pub udpbufsize : ℕ
  pub rand16 : ℕ
  pub realloc : ℕ → Realloc
  pub tcp_socket : Bool
  pub tcp_bind_socket : Bool
  pub tcp_fcntl : Bool
  pub tcp_connect : ℕ → Address → Option Errno
  pub write : Written
  pub read_length : Received
  pub read : Received
  pub udp_socket : Bool
  pub udp_bind_socket : Bool
  pub udp_connect : ℕ → Address → Option Errno
  pub send : Option Errno
  pub recv : Received

-- `again` is the return value -1, `diverged` an end of the fuel.
pub data Ran : Type 0 where
  again : QueryStat → Ran
  returned : (rc : ℕ) → QueryStat → Ran
  diverged : Ran

abbrev pub is_ewouldblock : Errno → Bool
is_ewouldblock ewouldblock = true
is_ewouldblock _ = false

abbrev pub is_econnrefused : Errno → Bool
is_econnrefused econnrefused = true
is_econnrefused _ = false

abbrev pub is_unreachable : Errno → Bool
is_unreachable enetunreach = true
is_unreachable enetdown = true
is_unreachable _ = false

abbrev pub is_pending : Errno → Bool
is_pending einprogress = true
is_pending epipe = true
is_pending _ = false

abbrev pub is_delayed : Errno → Bool
is_delayed econnrefused = true
is_delayed econnreset = true
is_delayed epipe = true
is_delayed _ = false

abbrev pub is_tcp_udp : QueryMethod → Bool
is_tcp_udp tcp_udp = true
is_tcp_udp _ = false

-- USE_UDP
unfoldable pub use_udp : QueryMethod → Bool
use_udp udp_only = true
use_udp udp_tcp = true
use_udp _ = false

abbrev pub waits_to_connect : State → (iolen : ℕ) → Bool
waits_to_connect qs_tcpwrite iolen = true
waits_to_connect qs_tcpread iolen = iolen == 0
waits_to_connect _ iolen = false

unfoldable pub tentative_tcp_query : QueryStat → Bool
tentative_tcp_query st = is_tcp_udp st.qm && waits_to_connect st.state st.iolen

unfoldable pub switch_to_udp : (rand16 : ℕ) → QueryStat → QueryStat
switch_to_udp rand16 st = record st {
  qm = udp_only;
  myrid = rand16;
  hdr_id = rand16;
  state = qs_udpinitial;
}

unfoldable pub switch_to_tcp : QueryStat → QueryStat
switch_to_tcp st = record st { qm = tcp_only; state = qs_initial; failures = 0 }

-- `case QS_INITIAL` of p_exec_query, of which the message is not modelled beyond its id. Where `malloc`
-- fails the query is done, and p_exec_query returns RC_FATALERR.
unfoldable pub start_query : (allocated : Bool) (rand16 transl : ℕ) → QueryStat → QueryStat
unfolding use_udp
start_query false rand16 transl st = record st { state = qs_done }
start_query true rand16 transl st = record st {
  myrid = rand16;
  hdr_id = rand16;
  transl = transl;
  recvbuf = none;
  state = if use_udp st.qm then qs_udpinitial else qs_tcpinitial;
}

-- `resetstate_tryagain` of p_exec_query, with the new length of the message where `try_withoutedns`
-- has taken the OPT record out.
unfoldable pub send_query_again : (without_edns : Option ℕ) (rand16 : ℕ) → QueryStat → QueryStat
unfolding use_udp
send_query_again none rand16 st = record st {
  myrid = rand16;
  hdr_id = rand16;
  state = if use_udp st.qm then qs_udpinitial else qs_tcpinitial;
}
send_query_again (some transl) rand16 st = record st {
  transl = transl;
  edns_query = false;
  myrid = rand16;
  hdr_id = rand16;
  state = if use_udp st.qm then qs_udpinitial else qs_tcpinitial;
}

-- `st->sock=socket(…)` and `close(st->sock)`
abbrev pub open_sock : QueryStat → QueryStat
open_sock st = record st { opened = st.opened + 1 }

abbrev pub close_sock : QueryStat → QueryStat
close_sock st = record st { closed = st.closed + 1 }

abbrev pub has_block : Option RecvBuf → Bool
has_block none = false
has_block (some b) = true

abbrev pub kept_bytes : Option RecvBuf → ℕ → Bytes
kept_bytes none n = []
kept_bytes (some b) n = take n b.got

-- What `realloc_or_cleanup` leaves: the block, and whether one was freed twice.
unfoldable pub realloc_or_cleanup : Realloc → Option RecvBuf → (size : ℕ) → Option RecvBuf × Bool
realloc_or_cleanup moved b size = (some (record { size = size; got = kept_bytes b size }), false)
realloc_or_cleanup null_kept b size = (none, false)
realloc_or_cleanup null_freed b size = (none, has_block b)

-- `st->recvbuf=realloc_or_cleanup(st->recvbuf, size)`
abbrev pub realloc_recvbuf : Realloc → (size : ℕ) → QueryStat → QueryStat
realloc_recvbuf r size st =
    let p = realloc_or_cleanup r st.recvbuf size in
    record st { recvbuf = p.0; double_free = st.double_free || p.1 }

-- Behind the switch: `st->state=QS_DONE; return retval;`
abbrev pub fail_query : (retval : ℕ) → QueryStat → Ran
fail_query retval st = returned retval (record st { state = qs_done })

abbrev pub got_reply : QueryStat → Ran
got_reply st = returned rc_ok (record (close_sock st) { state = qs_done })

-- The failed `connect` of either case: with `retry`, the jump to the label before it.
abbrev pub retry_fallback : (next : QueryStat → Ran) → (retry : Bool) → Option ℕ → QueryStat → Ran
retry_fallback next retry none st = fail_query rc_servfail (close_sock st)
retry_fallback next retry (some v4) st =
    if retry
    then next (record st { a = mapipv4 v4; a4fallback = none })
    else fail_query rc_servfail (close_sock st)

-- `p_cancel_query`, without its calls of `free`
unfoldable pub p_cancel_query : QueryStat → QueryStat
p_cancel_query st = elim st.state [
  | qs_tcpwrite ↦ record (close_sock st) { state = qs_canceled }
  | qs_tcpread ↦ record (close_sock st) { state = qs_canceled }
  | qs_udpreceive ↦ record (close_sock st) { state = qs_canceled }
  | qs_initial ↦ st
  | qs_done ↦ st
  | other ↦ record st { state = qs_canceled }
]
