-- ===== src/Exchange/Buffer.antt =====
-- What `p_query_sm` takes for a reply, and a reply without a byte.
use tor_android_service_arch.Query.{rc_ok, rc_fatalerr, sizeof_dns_hdr, udp_bufsize}
use tor_android_service_arch.Exchange.Machine.{
  handle_state, tcp_failed, recv_id, got_datagram, udpreceive, rounds, p_query_sm,
}
use tor_android_service_arch.Exchange.{
  qs_udpreceive, QueryStat, RecvBuf, Received, came, Calls, Ran, again, returned, diverged,
  realloc_recvbuf, fail_query, close_sock,
}
use mathlib.Core.Path.{subst}
use tor_android_service_arch.Names.{Bytes}
use tor_android_service_arch.Prelude.{
  ℕ, ◌%◌, ◌≤◌, ◌≡◌, ◌≢◌, ◌⊎◌, inl, sym, arith, if◌then◌else◌, Option, none, some, length, take,
}

-- A datagram, cut to the block, that has a whole header and the id of the query.
abbrev pub Answers : (size myrid : ℕ) → Bytes → Type 0
Answers size myrid bs =
    (sizeof_dns_hdr ≤ length (take size bs) % 0x10000) × (recv_id (take size bs) ≡ myrid)

abbrev pub Accepts : (size : ℕ) → QueryStat → Received → Ran → Type 0
Accepts size st r (again st') =
    (bs : Bytes) × (r ≡ came bs)
    × (Answers size st.myrid bs → ⊥)
    × (st'.state ≡ qs_udpreceive)
    × (st'.closed ≡ st.closed)
Accepts size st r (returned rc st') =
    (rc ≢ rc_ok)
    ⊎ ((bs : Bytes) × (r ≡ came bs)
        × Answers size st.myrid bs
        × (st'.recvbuf ≡ some (record { size = size; got = take size bs })))
Accepts size st r diverged = ⊥

got_datagram-Accepts :
    (size : ℕ) (r : Received) (st : QueryStat) → Accepts size st r (got_datagram size r st)
got_datagram-Accepts size r st = ground arith

elim_Accepts :
    (size : ℕ) (r : Received) (st : QueryStat) (o : Option RecvBuf) (x y : Ran)
    → Accepts size st r x
    → Accepts size st r y
    → Accepts size st r (elim o [ none ↦ x | some b ↦ y ])
elim_Accepts size r st none x y h k = h
elim_Accepts size r st (some b) x y h k = k

udpreceive-Accepts :
    (calls : Calls) (st : QueryStat)
    → Accepts
        (if st.edns_query then calls.udpbufsize else udp_bufsize)
        st
        calls.recv
        (udpreceive calls st)
unfolding udpreceive
udpreceive-Accepts calls st =
    let size = if st.edns_query then calls.udpbufsize else udp_bufsize in
    let st' = realloc_recvbuf (calls.realloc size) size st in
    elim_Accepts size calls.recv st st'.recvbuf (fail_query rc_fatalerr (close_sock st'))
      (got_datagram size calls.recv st') (inl (λ e. absurd (omega (arith, e))))
      (got_datagram-Accepts size calls.recv st')

-- Waiting for a UDP reply, `p_query_sm` returns RC_OK only for a datagram that, cut to the buffer's
-- size, has a whole header and the query's own id, and that is then what the buffer holds; it goes
-- on waiting, its socket open, only for a datagram that fails this.
pub p_query_sm-Accepts :
    (calls : Calls) (st : QueryStat)
    → st.state ≡ qs_udpreceive
    → Accepts
        (if st.edns_query then calls.udpbufsize else udp_bufsize)
        st
        calls.recv
        (p_query_sm calls st)
unfolding p_query_sm rounds
p_query_sm-Accepts calls st q =
    let size = if st.edns_query then calls.udpbufsize else udp_bufsize in
    subst
      (λ s.
        Accepts size st calls.recv (handle_state s calls (tcp_failed calls (rounds 1 calls)) st))
      (sym q) (udpreceive-Accepts calls st)
