-- ===== src/Reply/Rcodes.antt =====
-- What p_exec_query (dns_query.c) does with a reply by its code, and how often it asks again.
use tor_android_service_arch.Names.{Bytes}
use tor_android_service_arch.Prelude.{
  ℕ, suc, ◌+◌, ◌≤◌, arith, Bool, true, false, ◌&&◌, ◌||◌, not, ◌==◌, if◌then◌else◌, List, [], ◌∷◌,
}
use tor_android_service_arch.Query.{rc_ok, rc_format, rc_servfail, rc_notsupp, count_at, hdr_rcode}
use tor_android_service_arch.Reply.Sections.{is_sane, hdr_ra}

abbrev pub rc_nameerr : ℕ
rc_nameerr = 3

abbrev pub rc_refused : ℕ
rc_refused = 5

-- The query that was sent: `st->msg->hdr.rd`, `st->edns_query`, and whether `hdr.arcount` is not zero.
pub record Sent : Type 0 where
  pub rd : Bool
  pub edns_query : Bool
  pub has_additional : Bool
  pub myrid : ℕ

-- The reply is used, with `failed` set to `failures`; the query is sent again, with a new id; or the
-- reply is discarded.
pub data Action : Type 0 where
  use_reply : (failures : ℕ) → Action
  send_again : Sent → Action
  discard : (rv : ℕ) → Action

-- try_withoutedns; `removed` says that remove_opt_pseudo_rr has left no additional section.
abbrev pub try_withoutedns : (removed : Bool) → (rand16 rv : ℕ) → Sent → Action
try_withoutedns removed rand16 rv q =
    if removed
    then send_again (record q { edns_query = false; has_additional = false; myrid = rand16 })
    else discard rv

-- The codes for which a server may answer otherwise.
abbrev pub is_refusal : ℕ → Bool
is_refusal rcode = (rcode == rc_servfail) || ((rcode == rc_notsupp) || (rcode == rc_refused))

-- `lower` is `auth_serv==2`, `entp` whether an answer is wanted.
abbrev pub on_rcode :
    (entp lower removed : Bool) → (rand16 failures : ℕ) → (rcode : ℕ) → Bytes → Sent → Action
on_rcode entp lower removed rand16 failures rcode msg q =
    if (rcode == rc_ok) || (rcode == rc_nameerr)
    then use_reply failures
    else if not entp
    then discard rcode
    else if is_refusal rcode
    then (if q.rd && not (hdr_ra msg)
        then send_again (record q { rd = false; myrid = rand16 })
        else if not (rcode == rc_servfail) && (q.edns_query && q.has_additional)
        then try_withoutedns removed rand16 rcode q
        else if not (count_at msg 6 == 0) && lower
        then use_reply 3
        else discard rcode)
    else if (rcode == rc_format) && (q.edns_query && q.has_additional)
    then try_withoutedns removed rand16 rcode q
    else discard rcode

unfoldable pub exec_reply :
    (entp lower removed : Bool) → (rand16 failures : ℕ) → Bytes → Sent → Action
unfolding is_sane
exec_reply entp lower removed rand16 failures msg q =
    if is_sane q.myrid msg
    then on_rcode entp lower removed rand16 failures (hdr_rcode msg) msg q
    else discard rc_servfail

-- A reply that comes in, with what is drawn and removed on the way.
pub record Incoming : Type 0 where
  pub msg : Bytes
  pub rand16 : ℕ
  pub removed : Bool

-- The replies that make the query be sent again, among those that come in until one does not.
unfoldable pub times_sent_again : (entp lower : Bool) → (failures : ℕ) → List Incoming → Sent → ℕ
unfolding exec_reply
times_sent_again entp lower failures [] q = 0
times_sent_again entp lower failures (i ∷ is) q =
    elim (exec_reply entp lower i.removed i.rand16 failures i.msg q) [
      | send_again q' ↦ suc (times_sent_again entp lower failures is q')
      | use_reply n ↦ 0
      | discard rv ↦ 0
    ]

-- What can still be taken out of the query.
abbrev pub options_of : Bool → ℕ
options_of true = 1
options_of false = 0

abbrev pub options : Sent → ℕ
options q = options_of q.rd + options_of (q.edns_query && q.has_additional)

-- Sending again takes something out.
abbrev Lessens : Sent → Action → Type 0
Lessens q (send_again q') = suc (options q') ≤ options q
Lessens q (use_reply n) = Unit
Lessens q (discard rv) = Unit

exec_reply-Lessens :
    (entp lower removed : Bool) (rand16 failures : ℕ) (msg : Bytes) (q : Sent)
    → Lessens q (exec_reply entp lower removed rand16 failures msg q)
unfolding exec_reply
exec_reply-Lessens entp lower removed rand16 failures msg q = ground arith

after_action :
    (entp lower : Bool) (failures : ℕ) (is : List Incoming) (q : Sent) (a : Action)
    → Lessens q a
    → ((q' : Sent) → times_sent_again entp lower failures is q' ≤ options q')
    → elim a as (λ _. ℕ) [
      | send_again q' ↦ suc (times_sent_again entp lower failures is q')
      | use_reply n ↦ 0
      | discard rv ↦ 0
    ]
      ≤ options q
after_action entp lower failures is q (send_again q') h k = omega (arith, h, k q')
after_action entp lower failures is q (use_reply n) h k = omega arith
after_action entp lower failures is q (discard rv) h k = omega arith

-- However many replies come in, and whatever they say, a query is sent again at most once without
-- its bit `rd`, if it has that, and at most once without its additional section, if it has one by
-- EDNS.
pub times_sent_again-options :
    (entp lower : Bool) (failures : ℕ) (is : List Incoming) (q : Sent)
    → times_sent_again entp lower failures is q ≤ options q
unfolding times_sent_again
times_sent_again-options entp lower failures [] q = omega arith
times_sent_again-options entp lower failures (i ∷ is) q =
    after_action entp lower failures is q
      (exec_reply entp lower i.removed i.rand16 failures i.msg q)
      (exec_reply-Lessens entp lower i.removed i.rand16 failures i.msg q)
      (times_sent_again-options entp lower failures is)
