-- ===== src/Exchange/Runs.antt =====
-- A query from its start to its end, as the callers of `p_query_sm` drive it: a socket becomes ready,
-- or `poll` times out (a TCP query that is not connected is then tried over UDP),
-- or the query is canceled.
use tor_android_service_arch.Exchange.Balanced.{p_query_sm-Left}
use tor_android_service_arch.Exchange.Handled.{Balanced, Left}
use tor_android_service_arch.Exchange.Machine.{p_query_sm}
use tor_android_service_arch.Exchange.{
  State, qs_initial, qs_canceled, qs_done, QueryStat, Calls, Ran, again, returned, diverged,
  tentative_tcp_query, switch_to_udp, switch_to_tcp, start_query, send_query_again, use_udp,
  QueryMethod, udp_tcp, close_sock, p_cancel_query,
}
use tor_android_service_arch.Prelude.{
  ℕ, ◌≡◌, refl, arith, Bool, true, false, if◌then◌else◌, List, [], ◌∷◌, Option, ◌&&◌, none, some,
}

-- What happens to a query: p_exec_query starts it with a message of `transl` bytes, if there is
-- memory for it, its socket is ready, `poll` times out, p_exec_query sends it again after a reply,
-- with or without its OPT record, its reply was truncated, or it is canceled. The code sends it
-- again, or goes over to TCP, only after a reply; here it may after any end, which gives more runs
-- than the code has.
pub data Event : Type 0 where
  start : (allocated : Bool) (transl : ℕ) → Calls → Event
  ready timed_out : Calls → Event
  sent_again : (without_edns : Option ℕ) → Calls → Event
  truncated cancel : Event

abbrev pub left_by : Ran → Option QueryStat
left_by (again st) = some st
left_by (returned rc st) = some st
left_by diverged = none

abbrev pub is_initial : State → Bool
is_initial qs_initial = true
is_initial _ = false

abbrev pub is_done : State → Bool
is_done qs_done = true
is_done _ = false

-- QS_QUERY_CASES
abbrev pub in_progress : State → Bool
in_progress qs_initial = false
in_progress qs_canceled = false
in_progress qs_done = false
in_progress _ = true

abbrev pub is_udp_tcp : QueryMethod → Bool
is_udp_tcp udp_tcp = true
is_udp_tcp _ = false

unfoldable pub query_step : QueryStat → Event → Option QueryStat
unfolding tentative_tcp_query switch_to_udp switch_to_tcp start_query send_query_again
    p_cancel_query
query_step st (start allocated transl calls) =
    let started = start_query allocated calls.rand16 transl st in
    if is_initial st.state
    then (if allocated then left_by (p_query_sm calls started) else some started)
    else some st
query_step st (ready calls) =
    if in_progress st.state then left_by (p_query_sm calls st) else some st
query_step st (timed_out calls) =
    if tentative_tcp_query st
    then left_by (p_query_sm calls (switch_to_udp calls.rand16 (close_sock st)))
    else some st
query_step st (sent_again without_edns calls) =
    if is_done st.state
    then left_by (p_query_sm calls (send_query_again without_edns calls.rand16 st))
    else some st
query_step st truncated =
    some (if is_done st.state && is_udp_tcp st.qm then switch_to_tcp st else st)
query_step st cancel = some (p_cancel_query st)

unfoldable pub run_query : QueryStat → List Event → Option QueryStat
unfolding query_step
run_query st [] = some st
run_query st (e ∷ es) = elim (query_step st e) [ none ↦ none | some st' ↦ run_query st' es ]

-- A query that is there and holds a socket exactly in its waiting states.
abbrev pub Steps : Option QueryStat → Type 0
Steps none = ⊥
Steps (some st) = Balanced st

record Kept (o : Option QueryStat) : Type 0 where
  kept : Steps o

if_Kept :
    (b : Bool) {x y : Option QueryStat} → (b ≡ true → Kept x) → Kept y → Kept (if b then x else y)
if_Kept true h k = h refl
if_Kept false h k = k

unchanged : (st : QueryStat) → Balanced st → Kept (some st)
unchanged st h = record { kept = h }

left_by-Kept : (r : Ran) → Left r → Kept (left_by r)
left_by-Kept (again st) (w, h, b) = record { kept = (omega (arith, w, h), b) }
left_by-Kept (returned rc st) (q, h, r) = record { kept = (rw q (omega (arith, h)), rw q tt) }
left_by-Kept diverged h = absurd h

start_query-Balanced :
    (a : Bool) (r n : ℕ) (st : QueryStat)
    → is_initial st.state ≡ true
    → Balanced st
    → Balanced (start_query a r n st)
unfolding start_query use_udp
start_query-Balanced false r n st q h = ground arith
start_query-Balanced true r n st q h = ground arith

send_query_again-Balanced :
    (o : Option ℕ) (r : ℕ) (st : QueryStat)
    → is_done st.state ≡ true
    → Balanced st
    → Balanced (send_query_again o r st)
unfolding send_query_again use_udp
send_query_again-Balanced none r st q h = ground arith
send_query_again-Balanced (some n) r st q h = ground arith

timed_out-Balanced :
    (r : ℕ) (st : QueryStat)
    → tentative_tcp_query st ≡ true
    → Balanced st
    → Balanced (switch_to_udp r (close_sock st))
unfolding tentative_tcp_query switch_to_udp
timed_out-Balanced r st q h = ground arith

truncated-Balanced :
    (st : QueryStat)
    → Balanced st
    → Balanced (if is_done st.state && is_udp_tcp st.qm then switch_to_tcp st else st)
unfolding switch_to_tcp
truncated-Balanced st h = ground arith

p_cancel_query-Balanced : (st : QueryStat) → Balanced st → Balanced (p_cancel_query st)
unfolding p_cancel_query
p_cancel_query-Balanced st h = ground arith

query_step-Kept : (st : QueryStat) (e : Event) → Balanced st → Kept (query_step st e)
unfolding query_step
query_step-Kept st (start a n calls) h =
    if_Kept _
      (λ q.
        let started = start_query-Balanced a calls.rand16 n st q h in
        if_Kept a (λ _. left_by-Kept _ (p_query_sm-Left calls _ started)) (unchanged _ started))
      (unchanged st h)
query_step-Kept st (ready calls) h =
    if_Kept (in_progress st.state) (λ _. left_by-Kept _ (p_query_sm-Left calls st h))
      (unchanged st h)
query_step-Kept st (timed_out calls) h =
    if_Kept _
      (λ q. left_by-Kept _ (p_query_sm-Left calls _ (timed_out-Balanced calls.rand16 st q h)))
      (unchanged st h)
query_step-Kept st (sent_again o calls) h =
    if_Kept _
      (λ q.
        left_by-Kept _ (p_query_sm-Left calls _ (send_query_again-Balanced o calls.rand16 st q h)))
      (unchanged st h)
query_step-Kept st truncated h = record { kept = truncated-Balanced st h }
query_step-Kept st cancel h = record { kept = p_cancel_query-Balanced st h }

next-Steps :
    (o : Option QueryStat) (es : List Event)
    → Steps o
    → ((st : QueryStat) → Balanced st → Steps (run_query st es))
    → Steps (elim o [ none ↦ none | some st' ↦ run_query st' es ])
next-Steps none es h k = h
next-Steps (some st) es h k = k st h

-- Whatever happens to a query that holds a socket exactly in its waiting states, in whatever order
-- - it is started, with memory or without, its socket is ready, it times out, is sent again, goes
-- over to TCP or is canceled -, every step of it ends, and it holds one socket in its waiting
-- states and none in any other: none is left open and none is closed twice.
pub run_query-Steps : (st : QueryStat) (es : List Event) → Balanced st → Steps (run_query st es)
unfolding run_query
run_query-Steps st [] h = h
run_query-Steps st (e ∷ es) h =
    next-Steps (query_step st e) es (query_step-Kept st e h).kept
      (λ st' h'. run_query-Steps st' es h')
