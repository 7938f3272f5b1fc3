-- ===== src/Exchange/Tests.antt =====
-- Queries on concrete results of the system calls.
use tor_android_service_arch.Exchange.Balanced.{p_query_sm-Left}
use tor_android_service_arch.Exchange.Buffer.{Accepts, p_query_sm-Accepts}
use tor_android_service_arch.Exchange.Handled.{Left}
use tor_android_service_arch.Exchange.Machine.{p_query_sm, rounds}
use tor_android_service_arch.Exchange.Tcp.{tcpread}
use tor_android_service_arch.Exchange.Runs.{
  Event, start, ready, sent_again, Steps, run_query, run_query-Steps,
}
use tor_android_service_arch.Exchange.{
  qs_initial, qs_tcpwrite, qs_udpreceive, tcp_udp, econnreset, ewouldblock, given, QueryStat, came,
  not_received, accepts, not_written, moved, null_freed, Calls, realloc_or_cleanup,
}
use tor_android_service_arch.Names.{Bytes}
use tor_android_service_arch.Prelude.{
  ◌≡◌, refl, Bool, true, false, Option, List, [], ◌∷◌, none, some,
}

-- Every call succeeds, and a reply of twelve bytes with the id 0x0102 comes in.
abbrev reply : Bytes
reply = 1 ∷ 2 ∷ 0x80 ∷ 0 ∷ 0 ∷ 0 ∷ 0 ∷ 0 ∷ 0 ∷ 0 ∷ 0 ∷ 0 ∷ []

abbrev working : Calls
working = record {
  run_ipv4 = true;
  udpbufsize = 1024;
  rand16 = 0x0102;
  realloc = λ n. moved;
  tcp_socket = true;
  tcp_bind_socket = true;
  tcp_fcntl = true;
  tcp_connect = λ i a. none;
  write = accepts 100;
  read_length = came (0 ∷ 12 ∷ []);
  read = came reply;
  udp_socket = true;
  udp_bind_socket = true;
  udp_connect = λ i a. none;
  send = none;
  recv = came reply;
}

abbrev fresh : QueryStat
fresh = record {
  a = given 0x7f000001;
  a4fallback = none;
  state = qs_initial;
  qm = tcp_udp;
  edns_query = false;
  failures = 0;
  transl = 0;
  recvl = 0;
  iolen = 0;
  hdr_id = 0;
  myrid = 0;
  recvbuf = none;
  s_errno = none;
  opened = 0;
  closed = 0;
  double_free = false;
}

-- The connection is reset when the message is written, and the query goes over to UDP.
abbrev writing : QueryStat
writing = record fresh { state = qs_tcpwrite; transl = 20; opened = 1 }

p_query_sm-Left_example :
    Left (p_query_sm (record working { write = not_written econnreset }) writing)
p_query_sm-Left_example =
    p_query_sm-Left (record working { write = not_written econnreset }) writing (refl, tt)

abbrev story : List Event
story =
    start true 20 (record working { read_length = not_received ewouldblock })
    ∷ ready working
    ∷ sent_again (some 9) working
    ∷ start false 20 working
    ∷ []

run_query-Steps_example : Steps (run_query fresh story)
run_query-Steps_example = run_query-Steps fresh story (refl, tt)

abbrev receiving : QueryStat
receiving = record fresh { state = qs_udpreceive; myrid = 0x0102; opened = 1 }

p_query_sm-Accepts_example : Accepts 512 receiving (came reply) (p_query_sm working receiving)
p_query_sm-Accepts_example = p_query_sm-Accepts working receiving refl

abbrev no_bytes : Calls
no_bytes = record working { realloc = λ n. null_freed; read_length = came (0 ∷ 0 ∷ []) }

-- A query over TCP that is answered, sent again without its OPT record, and answered with no bytes,
-- where `realloc` to no bytes frees the block and returns NULL.
abbrev freed_story : List Event
freed_story =
    start true 20 working
    ∷ ready working
    ∷ ready working
    ∷ sent_again (some 9) no_bytes
    ∷ ready no_bytes
    ∷ ready no_bytes
    ∷ []

abbrev has_freed_twice : Option QueryStat → Bool
has_freed_twice none = false
has_freed_twice (some st) = st.double_free

freed_twice_run : has_freed_twice (run_query fresh freed_story) ≡ true
unfolding run_query p_query_sm rounds tcpread realloc_or_cleanup
freed_twice_run = refl
