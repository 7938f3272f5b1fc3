-- ===== src/Exchange/Handled.antt =====
-- What a call of `p_query_sm` may leave, and the ways it ends.
use tor_android_service_arch.Query.{rc_ok, rc_servfail, rc_fatalerr}
use tor_android_service_arch.Exchange.{
  State, qs_tcpwrite, qs_tcpread, qs_udpreceive, qs_done, QueryStat, Ran, again, returned, diverged,
  realloc_or_cleanup, kept_bytes, Realloc, moved, null_kept, null_freed, fail_query, got_reply,
  retry_fallback, RecvBuf, close_sock, mapipv4,
}
use tor_android_service_arch.Prelude.{
  ℕ, ◌+◌, ◌≤◌, ◌≡◌, ◌⊎◌, inl, inr, refl, arith, Bool, true, false, if◌then◌else◌, Option, none,
  some, length, length-take_le,
}

-- The sockets that a query holds in a state.
abbrev pub sockets_of : State → ℕ
sockets_of qs_tcpwrite = 1
sockets_of qs_tcpread = 1
sockets_of qs_udpreceive = 1
sockets_of _ = 0

-- A message that is partly read: the block has its size, and holds the bytes that `iolen` counts
-- behind the two of the length.
abbrev pub PartlyRead : QueryStat → Type 0
PartlyRead st =
    (b : RecvBuf) × (st.recvbuf ≡ some b)
    × (b.size ≡ st.recvl)
    × (length b.got ≤ st.recvl)
    × (2 ≤ st.iolen)
    × (st.iolen ≤ length b.got + 2)

abbrev pub Buffered : State → QueryStat → Type 0
Buffered qs_tcpread st = (st.iolen ≡ 0) ⊎ PartlyRead st
Buffered _ st = Unit

abbrev pub Balanced : QueryStat → Type 0
Balanced st = (st.opened ≡ st.closed + sockets_of st.state) × Buffered st.state st

-- A reply: `recvl` bytes of the block are written, and no byte behind it.
abbrev pub Reply : QueryStat → Type 0
Reply st =
    (b : RecvBuf) × (st.recvbuf ≡ some b) × (st.recvl ≤ length b.got) × (length b.got ≤ b.size)

abbrev pub Left : Ran → Type 0
Left (again st) = (sockets_of st.state ≡ 1) × (st.opened ≡ st.closed + 1) × Buffered st.state st
Left (returned rc st) =
    (st.state ≡ qs_done)
    × (st.opened ≡ st.closed)
    × (((rc ≡ rc_ok) × Reply st) ⊎ ((rc ≡ rc_servfail) ⊎ (rc ≡ rc_fatalerr)))
Left diverged = ⊥

pub record Handled (r : Ran) : Type 0 where
  pub left : Left r

pub if_Handled : (b : Bool) {x y : Ran} → Handled x → Handled y → Handled (if b then x else y)
if_Handled true h k = h
if_Handled false h k = k

-- With what the test says where it fails.
pub if_else :
    (b : Bool) {x y : Ran} → Handled x → (b ≡ false → Handled y) → Handled (if b then x else y)
if_else true h k = h
if_else false h k = k refl

pub elim_Handled :
    (o : Option RecvBuf) {x y : Ran}
    → Handled x
    → ((b : RecvBuf) → o ≡ some b → Handled y)
    → Handled (elim o [ none ↦ x | some b ↦ y ])
elim_Handled none h k = h
elim_Handled (some b) h k = k b refl

-- A block of `n` bytes that holds no more.
abbrev pub Sized : ℕ → Option RecvBuf → Type 0
Sized n none = Unit
Sized n (some b) = (b.size ≡ n) × (length b.got ≤ n)

length-kept_bytes : (o : Option RecvBuf) (n : ℕ) → length (kept_bytes o n) ≤ n
length-kept_bytes none n = omega arith
length-kept_bytes (some b) n = omega (arith, length-take_le n b.got)

pub realloc_or_cleanup-Sized :
    (r : Realloc) (o : Option RecvBuf) (n : ℕ) → Sized n (realloc_or_cleanup r o n).0
unfolding realloc_or_cleanup
realloc_or_cleanup-Sized moved o n = (refl, length-kept_bytes o n)
realloc_or_cleanup-Sized null_kept o n = tt
realloc_or_cleanup-Sized null_freed o n = tt

-- With a socket held; without one; with the one held closed.
abbrev pub Holding : QueryStat → Type 0
Holding st = st.opened ≡ st.closed + 1

abbrev pub Without : QueryStat → Type 0
Without st = st.opened ≡ st.closed

pub again-Handled :
    (st : QueryStat)
    → sockets_of st.state ≡ 1
    → Holding st
    → Buffered st.state st
    → Handled (again st)
again-Handled st q h b = record { left = (q, h, b) }

pub fail_query-Handled :
    (rc : ℕ) (st : QueryStat)
    → (rc ≡ rc_servfail) ⊎ (rc ≡ rc_fatalerr)
    → Without st
    → Handled (fail_query rc st)
fail_query-Handled rc st r h = record { left = (refl, h, inr r) }

pub got_reply-Handled : (st : QueryStat) → Holding st → Reply st → Handled (got_reply st)
got_reply-Handled st h r = record { left = (refl, h, inl (refl, r)) }

-- The retry of a failed `connect`, where there is a fallback address.
abbrev pub Retried : (next : QueryStat → Ran) → Option ℕ → QueryStat → Type 0
Retried next o st =
    (v4 : ℕ) → o ≡ some v4 → Handled (next (record st { a = mapipv4 v4; a4fallback = none }))

pub no_retry :
    (next : QueryStat → Ran) (st : QueryStat) → st.a4fallback ≡ none → Retried next st.a4fallback st
no_retry next st o v4 e = let f : ⊥ = ground (arith, o, e) in absurd f

pub retry_fallback-Handled :
    (next : QueryStat → Ran) (b : Bool) (o : Option ℕ) (st : QueryStat)
    → Holding st
    → Retried next o st
    → Handled (retry_fallback next b o st)
retry_fallback-Handled next b none st h n = fail_query-Handled _ (close_sock st) (inl refl) h
retry_fallback-Handled next b (some v4) st h n =
    if_Handled b (n v4 refl) (fail_query-Handled _ (close_sock st) (inl refl) h)

-- A continuation that is given a query without a socket.
abbrev pub Continues : (QueryStat → Ran) → Type 0
Continues f = (st : QueryStat) → Without st → Handled (f st)
