-- ===== src/Exchange/Machine.antt =====
-- The UDP cases of `p_query_sm`, and the whole of it.
use tor_android_service_arch.Query.{rc_servfail, rc_fatalerr, sizeof_dns_hdr, udp_bufsize}
use tor_android_service_arch.Exchange.Tcp.{tcpread, tcpwrite, tcpinitial}
use tor_android_service_arch.Exchange.{
  State, qs_tcpinitial, qs_tcpwrite, qs_tcpread, qs_udpinitial, qs_udpreceive, QueryStat, Errno,
  Received, came, not_received, Calls, Ran, again, diverged, is_econnrefused, is_unreachable,
  is_tcp_udp, switch_to_udp, open_sock, close_sock, realloc_recvbuf, fail_query, got_reply,
  retry_fallback,
}
use tor_android_service_arch.Names.{Bytes}
use tor_android_service_arch.Prelude.{
  ℕ, zero, suc, ◌+◌, ◌*◌, ◌%◌, ltb, ◌==◌, if◌then◌else◌, not, ◌&&◌, ◌||◌, Option, none, some,
  length, take, get_or,
}

-- `ntohs(st->recvbuf->id)`
abbrev pub recv_id : Bytes → ℕ
recv_id bs = get_or bs 0 0 * 256 + get_or bs 1 0

abbrev pub got_datagram : (udpbufsize : ℕ) → Received → QueryStat → Ran
got_datagram udpbufsize (not_received e) st =
    fail_query rc_servfail (close_sock (record st { s_errno = some e }))
got_datagram udpbufsize (came bs) st =
    let now = take udpbufsize bs in
    let recvl = length now % 0x10000 in
    let st' = record st {
      recvl = recvl;
      recvbuf = some (record { size = udpbufsize; got = now });
    } in
    if ltb recvl sizeof_dns_hdr || not (recv_id now == st.myrid)
    then again (record st' { state = qs_udpreceive })
    else got_reply st'

unfoldable pub udpreceive : Calls → QueryStat → Ran
udpreceive calls st =
    let size = if st.edns_query then calls.udpbufsize else udp_bufsize in
    let st' = realloc_recvbuf (calls.realloc size) size st in
    elim st'.recvbuf [
      | none ↦ fail_query rc_fatalerr (close_sock st')
      | some b ↦ got_datagram size calls.recv st'
    ]

abbrev pub udp_sent : Option Errno → QueryStat → Ran
udp_sent none st = again (record st { state = qs_udpreceive })
udp_sent (some e) st = fail_query rc_servfail (close_sock (record st { s_errno = some e }))

-- The label `retry_udp_connect`; the retry is `next`.
abbrev pub udp_connected : Calls → (next : QueryStat → Ran) → Option Errno → QueryStat → Ran
udp_connected calls next none st = udp_sent calls.send st
udp_connected calls next (some e) st =
    if is_econnrefused e
    then fail_query rc_servfail (close_sock (record st { s_errno = some e }))
    else retry_fallback next (not calls.run_ipv4 && is_unreachable e) st.a4fallback st

unfoldable pub connect_udp : (fuel : ℕ) → Calls → (attempt : ℕ) → QueryStat → Ran
connect_udp zero calls attempt st = diverged
connect_udp (suc fuel) calls attempt st =
    udp_connected calls (connect_udp fuel calls (attempt + 1)) (calls.udp_connect attempt st.a) st

unfoldable pub udpinitial : Calls → QueryStat → Ran
unfolding connect_udp
udpinitial calls st =
    let st' = open_sock st in
    if not calls.udp_socket
    then fail_query rc_servfail st
    else if not calls.udp_bind_socket
    then fail_query rc_servfail (close_sock st')
    else connect_udp 2 calls 0 st'

-- The label `tcp_failed`, with `tryagain` as a function.
unfoldable pub tcp_failed : Calls → (tryagain : QueryStat → Ran) → QueryStat → Ran
unfolding switch_to_udp
tcp_failed calls tryagain st =
    if is_tcp_udp st.qm then tryagain (switch_to_udp calls.rand16 st) else fail_query rc_servfail st

-- The switch.
abbrev pub handle_state : State → Calls → (tcp_failed : QueryStat → Ran) → QueryStat → Ran
handle_state qs_tcpinitial calls failed st = tcpinitial calls failed st
handle_state qs_tcpwrite calls failed st = tcpwrite calls failed st
handle_state qs_tcpread calls failed st = tcpread calls failed st
handle_state qs_udpinitial calls failed st = udpinitial calls st
handle_state qs_udpreceive calls failed st = udpreceive calls st
handle_state _ calls failed st = fail_query rc_servfail st

-- One round of it is one arrival at the label `tryagain`.
unfoldable pub rounds : (fuel : ℕ) → Calls → QueryStat → Ran
unfolding tcpinitial tcpwrite tcpread udpinitial udpreceive tcp_failed
rounds zero calls st = diverged
rounds (suc fuel) calls st = handle_state st.state calls (tcp_failed calls (rounds fuel calls)) st

unfoldable pub p_query_sm : Calls → QueryStat → Ran
unfolding rounds
p_query_sm calls st = rounds 2 calls st
