-- ===== src/Exchange/Balanced.antt =====
-- One call of `p_query_sm`: what it returns, the state it leaves and the sockets it holds.
use tor_android_service_arch.Query.{udp_bufsize}
use tor_android_service_arch.Exchange.BalancedTcp.{
  tcpread-Handled, tcpwrite-Handled, tcpinitial-Handled,
}
use tor_android_service_arch.Exchange.Handled.{
  Buffered, sockets_of, Balanced, Left, Handled, Holding, Without, Continues, Retried, if_Handled,
  elim_Handled, again-Handled, fail_query-Handled, got_reply-Handled, retry_fallback-Handled,
  no_retry,
}
use tor_android_service_arch.Exchange.Machine.{
  handle_state, got_datagram, udpreceive, connect_udp, udpinitial, tcp_failed, rounds, p_query_sm,
  udp_connected,
}
use tor_android_service_arch.Exchange.{
  State, qs_initial, qs_tcpinitial, qs_tcpwrite, qs_tcpread, qs_udpinitial, qs_udpreceive,
  qs_canceled, qs_done, QueryStat, Received, came, not_received, Calls, Ran, switch_to_udp,
  open_sock, realloc_recvbuf, close_sock, Errno, mapipv4,
}
use tor_android_service_arch.Prelude.{
  ℕ, zero, suc, ◌+◌, ◌≤◌, ◌≡◌, ◌⊎◌, inl, inr, refl, arith, if◌then◌else◌, Option, Option-cases,
  none, some, length, take, length-take_le, ◌%◌,
}

module _ (calls : Calls) where
  got_datagram-Handled :
      (n : ℕ) (r : Received) (st : QueryStat) → Holding st → Handled (got_datagram n r st)
  got_datagram-Handled n (not_received e) st h =
      fail_query-Handled _ (close_sock (record st { s_errno = some e })) (inl refl) h
  got_datagram-Handled n (came bs) st h =
      let now = take n bs in
      let st' = record st {
        recvl = length now % 0x10000;
        recvbuf = some (record { size = n; got = now });
      } in
      if_Handled _ (again-Handled (record st' { state = qs_udpreceive }) refl h tt) (
        got_reply-Handled st' h
          (record { size = n; got = now }, refl, omega arith, omega (arith, length-take_le n bs)))

  udpreceive-Handled : (st : QueryStat) → Holding st → Handled (udpreceive calls st)
  unfolding udpreceive
  udpreceive-Handled st h =
      let size = if st.edns_query then calls.udpbufsize else udp_bufsize in
      let st' = realloc_recvbuf (calls.realloc size) size st in
      elim_Handled st'.recvbuf (fail_query-Handled _ (close_sock st') (inr refl) h)
        (λ b o. got_datagram-Handled size calls.recv st' h)

  udp_connected-Handled :
      (next : QueryStat → Ran) (r : Option Errno) (st : QueryStat)
      → Holding st
      → Retried next st.a4fallback st
      → Handled (udp_connected calls next r st)
  udp_connected-Handled next none st h n = elim (Option-cases calls.send) [
    | inl o ↦ rw o (again-Handled (record st { state = qs_udpreceive }) refl h tt)
    | inr (e, o) ↦
        rw o (fail_query-Handled _ (close_sock (record st { s_errno = some e })) (inl refl) h)
  ]
  udp_connected-Handled next (some e) st h n =
      if_Handled _ (fail_query-Handled _ (close_sock (record st { s_errno = some e })) (inl refl) h)
        (retry_fallback-Handled next _ st.a4fallback st h n)

  connect_udp-Handled :
      (fuel attempt : ℕ) (st : QueryStat)
      → Holding st
      → (st.a4fallback ≡ none) ⊎ (1 ≤ fuel)
      → Handled (connect_udp (suc fuel) calls attempt st)
  unfolding connect_udp
  connect_udp-Handled zero attempt st h (inl o) =
      udp_connected-Handled (connect_udp 0 calls (attempt + 1)) (calls.udp_connect attempt st.a) st
        h (no_retry (connect_udp 0 calls (attempt + 1)) st o)
  connect_udp-Handled zero attempt st h (inr o) = absurd (omega (arith, o))
  connect_udp-Handled (suc fuel) attempt st h o =
      udp_connected-Handled (connect_udp (suc fuel) calls (attempt + 1))
        (calls.udp_connect attempt st.a) st h
        (λ v4 e.
          connect_udp-Handled fuel (attempt + 1) (record st { a = mapipv4 v4; a4fallback = none }) h
            (inl refl))

  udpinitial-Handled : (st : QueryStat) → Without st → Handled (udpinitial calls st)
  unfolding udpinitial
  udpinitial-Handled st h =
      let held : Holding (open_sock st) = omega (arith, h) in
      if_Handled _ (fail_query-Handled _ st (inl refl) h) (
        if_Handled _ (fail_query-Handled _ (close_sock (open_sock st)) (inl refl) held)
          (connect_udp-Handled 1 0 (open_sock st) held (inr (omega arith))))

  -- The second round is one of UDP.
  tcp_failed-Handled : (fuel : ℕ) → Continues (tcp_failed calls (rounds (suc fuel) calls))
  unfolding tcp_failed rounds switch_to_udp
  tcp_failed-Handled fuel st h =
      if_Handled _ (udpinitial-Handled (switch_to_udp calls.rand16 st) h)
        (fail_query-Handled _ st (inl refl) h)

  handle_state-Handled :
      (s : State) (f : QueryStat → Ran) (st : QueryStat)
      → st.state ≡ s
      → Continues f
      → st.opened ≡ st.closed + sockets_of s
      → Buffered s st
      → Handled (handle_state s calls f st)
  handle_state-Handled qs_initial f st q k h b =
      fail_query-Handled _ st (inl refl) (omega (arith, h))
  handle_state-Handled qs_tcpinitial f st q k h b =
      tcpinitial-Handled calls f k st (omega (arith, h))
  handle_state-Handled qs_tcpwrite f st q k h b = tcpwrite-Handled calls f k st q h
  handle_state-Handled qs_tcpread f st q k h b = tcpread-Handled calls f k st q h b
  handle_state-Handled qs_udpinitial f st q k h b = udpinitial-Handled st (omega (arith, h))
  handle_state-Handled qs_udpreceive f st q k h b = udpreceive-Handled st h
  handle_state-Handled qs_canceled f st q k h b =
      fail_query-Handled _ st (inl refl) (omega (arith, h))
  handle_state-Handled qs_done f st q k h b = fail_query-Handled _ st (inl refl) (omega (arith, h))

-- A call of `p_query_sm` on a query that holds a socket exactly in its three waiting states comes
-- to an end after at most two arrivals at `tryagain` and two attempts of each `connect`. Either it
-- returns -1, in a waiting state with one socket open, or it returns RC_OK, RC_SERVFAIL or
-- RC_FATALERR in state QS_DONE, with every socket closed that was opened, and each once. While a
-- message is partly read, the block has room for the length it has announced and no byte is written
-- behind it; with RC_OK, every byte of the reply is in the block.
pub p_query_sm-Left : (calls : Calls) (st : QueryStat) → Balanced st → Left (p_query_sm calls st)
unfolding p_query_sm rounds
p_query_sm-Left calls st h =
    (handle_state-Handled calls st.state _ st refl (tcp_failed-Handled calls 0) h.0 h.1).left
