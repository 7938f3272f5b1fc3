-- ===== src/Exchange/BalancedTcp.antt =====
-- The TCP cases of `p_query_sm`, from any state.
use tor_android_service_arch.Query.Opt.{dnsmsghdroffset}
use tor_android_service_arch.Exchange.Handled.{
  if_else, Sized, realloc_or_cleanup-Sized, PartlyRead, Reply, Handled, Holding, Without, Continues,
  Retried, if_Handled, elim_Handled, again-Handled, fail_query-Handled, got_reply-Handled,
  retry_fallback-Handled, no_retry,
}
use tor_android_service_arch.Exchange.Tcp.{
  filled, got_message, read_message, with_length, got_length, tcpread, to_tcpread, wrote, tcpwrite,
  tcp_connected, connect_tcp, tcpinitial,
}
use tor_android_service_arch.Exchange.{
  qs_tcpwrite, qs_tcpread, QueryStat, Received, came, not_received, Written, accepts, not_written,
  Calls, Ran, open_sock, realloc_recvbuf, close_sock, Errno, mapipv4,
}
use mathlib.Core.Path.{subst}
use tor_android_service_arch.Names.{Bytes}
use tor_android_service_arch.Prelude.{
  ℕ, zero, suc, ◌+◌, ◌-◌, ◌*◌, ◌≤◌, ◌≡◌, ◌⊎◌, inl, inr, refl, arith, ltb, ◌==◌, true, false, [],
  ◌∷◌, Option, none, some, length, length-append, length-take_le, length-take_short, take, min,
  ◌++◌,
}

module _ (calls : Calls) (f : QueryStat → Ran) (k : Continues f) where
  -- What a read of at most the rest leaves.
  filled-PartlyRead :
      (st : QueryStat) (bs : Bytes)
      → PartlyRead st
      → length bs ≤ st.recvl - (st.iolen - 2)
      → PartlyRead (record st {
        iolen = st.iolen + length bs;
        recvbuf = filled (st.iolen - 2) bs st.recvbuf;
      })
  filled-PartlyRead st bs (b, e, size, within, two, some_read) fits =
      let n = st.iolen - 2 in
      let parts = length-append (take n b.got) bs in
      let head = length-take_short n b.got (omega (arith, some_read)) in
      (
        record b { got = take n b.got ++ bs },
        rw e refl,
        size,
        omega (arith, parts, head, fits, within, some_read),
        omega (arith, two),
        omega (arith, parts, head, two),
      )

  whole_read :
      (st : QueryStat) → PartlyRead st → ltb 0 (st.recvl - (st.iolen - 2)) ≡ false → Reply st
  whole_read st (b, e, size, within, two, some_read) z =
      (b, e, ground (arith, z, some_read, two), omega (arith, size, within))

  got_message-Handled :
      (r : Received) (st : QueryStat)
      → st.state ≡ qs_tcpread
      → Holding st
      → PartlyRead st
      → Handled (got_message f (st.iolen - 2) (st.recvl - (st.iolen - 2)) r st)
  got_message-Handled (not_received e) st q h p =
      if_Handled _ (again-Handled st (rw q refl) h (rw q (inr p))) (k _ h)
  got_message-Handled (came bs) st q h p =
      let rem = st.recvl - (st.iolen - 2) in
      let now = take rem bs in
      let few = length-take_le rem bs in
      let st' = record st {
        iolen = st.iolen + length now;
        recvbuf = filled (st.iolen - 2) now st.recvbuf;
      } in
      let p' : PartlyRead st' = filled-PartlyRead st now p (omega (arith, few)) in
      if_Handled _ (k _ h) (
        if_else (ltb (length now) rem) (again-Handled st' (rw q refl) h (rw q (inr p')))
          (λ z. got_reply-Handled st' h (whole_read st' p' (ground (arith, z, few)))))

  read_message-Handled :
      (st : QueryStat)
      → st.state ≡ qs_tcpread
      → Holding st
      → PartlyRead st
      → Handled (read_message calls f st)
  read_message-Handled st q h p =
      if_else _ (got_message-Handled calls.read st q h p)
        (λ z. got_reply-Handled st h (whole_read st p z))

  with_length-Handled :
      (hi lo : ℕ) (st : QueryStat)
      → st.state ≡ qs_tcpread
      → Holding st
      → Handled (with_length calls f hi lo st)
  with_length-Handled hi lo st q h =
      let n = hi * 256 + lo in
      let st' = realloc_recvbuf (calls.realloc n) n (record st { iolen = 2; recvl = n }) in
      elim_Handled st'.recvbuf (fail_query-Handled _ (close_sock st') (inr refl) h) (λ b o.
        let (size, within) =
          subst (Sized n) o (realloc_or_cleanup-Sized (calls.realloc n) st.recvbuf n) in
        read_message-Handled st' q h (b, o, size, within, omega arith, omega arith))

  got_length-Handled :
      (r : Received) (st : QueryStat)
      → st.state ≡ qs_tcpread
      → st.iolen ≡ 0
      → Holding st
      → Handled (got_length calls f r st)
  got_length-Handled (not_received e) st q z h =
      if_Handled _ (again-Handled st (rw q refl) h (rw q (inl z))) (k _ h)
  got_length-Handled (came []) st q z h = k _ h
  got_length-Handled (came (hi ∷ [])) st q z h = k _ h
  got_length-Handled (came (hi ∷ lo ∷ bs)) st q z h = with_length-Handled hi lo st q h

  pub tcpread-Handled :
      (st : QueryStat)
      → st.state ≡ qs_tcpread
      → Holding st
      → (st.iolen ≡ 0) ⊎ PartlyRead st
      → Handled (tcpread calls f st)
  unfolding tcpread
  tcpread-Handled st q h (inl z) =
      let none_yet : (st.iolen == 0) ≡ true = ground (arith, z) in
      rw none_yet (got_length-Handled calls.read_length st q z h)
  tcpread-Handled st q h (inr p) =
      let (b, e, size, within, two, some_read) = p in
      let more : (st.iolen == 0) ≡ false = ground (arith, two) in
      rw more (read_message-Handled st q h p)

  to_tcpread-Handled : (st : QueryStat) → Holding st → Handled (to_tcpread calls f st)
  to_tcpread-Handled st h = tcpread-Handled _ refl h (inl refl)

  wrote-Handled :
      (rem : ℕ) (w : Written) (st : QueryStat)
      → st.state ≡ qs_tcpwrite
      → Holding st
      → Handled (wrote calls f rem w st)
  wrote-Handled rem (not_written e) st q h =
      let st' = close_sock (record st { s_errno = some e }) in
      if_Handled _ (again-Handled st (rw q refl) h (rw q tt))
        (if_Handled _ (k _ h) (fail_query-Handled _ st' (inl refl) h))
  wrote-Handled rem (accepts n) st q h =
      let st' = record st { iolen = st.iolen + min n rem } in
      if_Handled _ (again-Handled st' (rw q refl) h (rw q tt)) (to_tcpread-Handled st' h)

  pub tcpwrite-Handled :
      (st : QueryStat) → st.state ≡ qs_tcpwrite → Holding st → Handled (tcpwrite calls f st)
  unfolding tcpwrite
  tcpwrite-Handled st q h =
      if_Handled _ (wrote-Handled (dnsmsghdroffset + st.transl - st.iolen) calls.write st q h)
        (to_tcpread-Handled st h)

  tcp_connected-Handled :
      (next : QueryStat → Ran) (r : Option Errno) (st : QueryStat)
      → Holding st
      → Retried next st.a4fallback st
      → Handled (tcp_connected calls f next r st)
  tcp_connected-Handled next none st h n = tcpwrite-Handled _ refl h
  tcp_connected-Handled next (some e) st h n =
      if_Handled _ (again-Handled (record st { state = qs_tcpwrite }) refl h tt)
        (if_Handled _ (k _ h) (retry_fallback-Handled next _ st.a4fallback st h n))

  connect_tcp-Handled :
      (fuel attempt : ℕ) (st : QueryStat)
      → Holding st
      → (st.a4fallback ≡ none) ⊎ (1 ≤ fuel)
      → Handled (connect_tcp (suc fuel) calls f attempt st)
  unfolding connect_tcp
  connect_tcp-Handled zero attempt st h (inl o) =
      tcp_connected-Handled (connect_tcp 0 calls f (attempt + 1)) (calls.tcp_connect attempt st.a)
        st h (no_retry (connect_tcp 0 calls f (attempt + 1)) st o)
  connect_tcp-Handled zero attempt st h (inr o) = absurd (omega (arith, o))
  connect_tcp-Handled (suc fuel) attempt st h o =
      tcp_connected-Handled (connect_tcp (suc fuel) calls f (attempt + 1))
        (calls.tcp_connect attempt st.a) st h
        (λ v4 e.
          connect_tcp-Handled fuel (attempt + 1) (record st { a = mapipv4 v4; a4fallback = none }) h
            (inl refl))

  pub tcpinitial-Handled : (st : QueryStat) → Without st → Handled (tcpinitial calls f st)
  unfolding tcpinitial
  tcpinitial-Handled st h =
      let held : Holding (open_sock st) = omega (arith, h) in
      if_Handled _ (fail_query-Handled _ st (inl refl) h) (
        if_Handled _ (fail_query-Handled _ (close_sock (open_sock st)) (inl refl) held)
          (connect_tcp-Handled 1 0 (record (open_sock st) { iolen = 0 }) held (inr (omega arith))))
