-- ===== src/Exchange/Tcp.antt =====
-- The TCP cases of `p_query_sm`. `tcp_failed` is the label of that name, given as a function.
use tor_android_service_arch.Query.Opt.{dnsmsghdroffset}
use tor_android_service_arch.Query.{rc_servfail, rc_fatalerr}
use tor_android_service_arch.Exchange.{
  qs_tcpwrite, qs_tcpread, QueryStat, RecvBuf, Received, came, not_received, Written, accepts,
  not_written, Calls, Ran, again, diverged, is_ewouldblock, is_econnrefused, is_unreachable,
  is_pending, is_delayed, open_sock, close_sock, realloc_recvbuf, fail_query, got_reply,
  retry_fallback, Errno,
}
use tor_android_service_arch.Names.{Bytes}
use tor_android_service_arch.Prelude.{
  ℕ, zero, suc, ◌+◌, ◌-◌, ◌*◌, min, ltb, ◌==◌, if◌then◌else◌, not, ◌&&◌, [], ◌∷◌, ◌++◌, Option,
  none, some, length, take,
}

-- The bytes that a read of `rem` bytes has put at `offset`.
abbrev pub filled : ℕ → Bytes → Option RecvBuf → Option RecvBuf
filled offset bs none = none
filled offset bs (some b) = some (record b { got = take offset b.got ++ bs })

-- The rest of QS_TCPREAD, behind a length: the reading of the message.
abbrev pub got_message :
    (tcp_failed : QueryStat → Ran) (offset rem : ℕ) → Received → QueryStat → Ran
got_message tcp_failed offset rem (not_received e) st =
    if is_ewouldblock e then again st else tcp_failed (close_sock (record st { s_errno = some e }))
got_message tcp_failed offset rem (came bs) st =
    let now = take rem bs in
    let rv = length now in
    let st' = record st { iolen = st.iolen + rv; recvbuf = filled offset now st.recvbuf } in
    if rv == 0 then tcp_failed (close_sock st) else if ltb rv rem then again st' else got_reply st'

abbrev pub read_message : Calls → (tcp_failed : QueryStat → Ran) → QueryStat → Ran
read_message calls tcp_failed st =
    let offset = st.iolen - 2 in
    let rem = st.recvl - offset in
    if ltb 0 rem then got_message tcp_failed offset rem calls.read st else got_reply st

abbrev pub with_length : Calls → (tcp_failed : QueryStat → Ran) → (hi lo : ℕ) → QueryStat → Ran
with_length calls tcp_failed hi lo st =
    let recvl = hi * 256 + lo in
    let st' =
      realloc_recvbuf (calls.realloc recvl) recvl (record st { iolen = 2; recvl = recvl }) in
    elim st'.recvbuf [
      | none ↦ fail_query rc_fatalerr (close_sock st')
      | some b ↦ read_message calls tcp_failed st'
    ]

abbrev pub got_length : Calls → (tcp_failed : QueryStat → Ran) → Received → QueryStat → Ran
got_length calls tcp_failed (not_received e) st =
    if is_ewouldblock e then again st else tcp_failed (close_sock (record st { s_errno = some e }))
got_length calls tcp_failed (came (hi ∷ lo ∷ bs)) st = with_length calls tcp_failed hi lo st
got_length calls tcp_failed (came (hi ∷ [])) st = tcp_failed (close_sock st)
got_length calls tcp_failed (came []) st = tcp_failed (close_sock st)

unfoldable pub tcpread : Calls → (tcp_failed : QueryStat → Ran) → QueryStat → Ran
tcpread calls tcp_failed st =
    if st.iolen == 0
    then got_length calls tcp_failed calls.read_length st
    else read_message calls tcp_failed st

-- `st->state=QS_TCPREAD; st->iolen=0;` and on into the case
abbrev pub to_tcpread : Calls → (tcp_failed : QueryStat → Ran) → QueryStat → Ran
to_tcpread calls tcp_failed st =
    tcpread calls tcp_failed (record st { state = qs_tcpread; iolen = 0 })

abbrev pub wrote : Calls → (tcp_failed : QueryStat → Ran) → (rem : ℕ) → Written → QueryStat → Ran
wrote calls tcp_failed rem (not_written e) st =
    let st' = close_sock (record st { s_errno = some e }) in
    if is_ewouldblock e
    then again st
    else if (st.iolen == 0) && is_delayed e
    then tcp_failed st'
    else fail_query rc_servfail st'
wrote calls tcp_failed rem (accepts n) st =
    let rv = min n rem in
    let st' = record st { iolen = st.iolen + rv } in
    if ltb rv rem then again st' else to_tcpread calls tcp_failed st'

unfoldable pub tcpwrite : Calls → (tcp_failed : QueryStat → Ran) → QueryStat → Ran
unfolding tcpread
tcpwrite calls tcp_failed st =
    let rem = dnsmsghdroffset + st.transl - st.iolen in
    if ltb 0 rem then wrote calls tcp_failed rem calls.write st else to_tcpread calls tcp_failed st

-- The label `retry_tcp_connect`; the retry is `next`.
abbrev pub tcp_connected :
    Calls → (tcp_failed next : QueryStat → Ran) → Option Errno → QueryStat → Ran
tcp_connected calls tcp_failed next none st =
    tcpwrite calls tcp_failed (record st { state = qs_tcpwrite })
tcp_connected calls tcp_failed next (some e) st =
    if is_pending e
    then again (record st { state = qs_tcpwrite })
    else if is_econnrefused e
    then tcp_failed (close_sock (record st { s_errno = some e }))
    else retry_fallback next (not calls.run_ipv4 && is_unreachable e) st.a4fallback st

unfoldable pub connect_tcp :
    (fuel : ℕ) → Calls → (tcp_failed : QueryStat → Ran) → (attempt : ℕ) → QueryStat → Ran
unfolding tcpwrite
connect_tcp zero calls tcp_failed attempt st = diverged
connect_tcp (suc fuel) calls tcp_failed attempt st =
    tcp_connected calls tcp_failed (connect_tcp fuel calls tcp_failed (attempt + 1))
      (calls.tcp_connect attempt st.a) st

unfoldable pub tcpinitial : Calls → (tcp_failed : QueryStat → Ran) → QueryStat → Ran
unfolding connect_tcp
tcpinitial calls tcp_failed st =
    let st' = open_sock st in
    if not calls.tcp_socket
    then fail_query rc_servfail st
    else if not (calls.tcp_bind_socket && calls.tcp_fcntl)
    then fail_query rc_servfail (close_sock st')
    else connect_tcp 2 calls tcp_failed 0 (record st' { iolen = 0 })
