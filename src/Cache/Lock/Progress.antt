-- ===== src/Cache/Lock/Progress.antt =====
-- No wake-up is lost between threads that use `lock_cache_r`, `lock_cache_rw` and
-- `yield_lock_cache_rw`. Threads in `timedlock_cache_rw` and the soft locks of the exit path, which
-- wake nobody, are outside of this.
use tor_android_service_arch.Prelude.{
  ◌+◌, ◌≤◌, ◌<◌, ◌≡◌, ◌⊎◌, Bool, true, false, arith, List, [], ◌∷◌,
}
use tor_android_service_arch.Cache.Lock.{System, Op, step, run, initial, susp_thresh}
use tor_android_service_arch.Cache.Lock.Exclusion.{Inv, step-Inv, initial-Inv}

-- The operations of the threads that serve queries.
abbrev pub is_plain : Op → Bool
is_plain Op.arrive_timed = false
is_plain Op.test_timed = false
is_plain Op.spurious_timed = false
is_plain Op.timeout = false
is_plain Op.soft_r = false
is_plain Op.soft_rw = false
is_plain Op.soft_leave_r = false
is_plain Op.soft_leave_rw = false
is_plain _ = true

abbrev pub AllPlain : List Op → Type 0
AllPlain [] = Unit
AllPlain (o ∷ os) = (is_plain o ≡ true) × AllPlain os

-- Who will wake the sleepers.
record Live (s : System) : Type 0 where
  counts : Inv s
  no_blocked_timed : s.blocked_timed ≡ 0
  no_ready_timed : s.ready_timed ≡ 0
  suspended : s.lock.r_susp ≡ true → s.writing ≡ 0 → 0 < s.lock.rw_pend
  readers_wait : 0 < s.blocked_r → s.writing ≡ 0 → 0 < s.lock.rw_pend
  writers_next : 0 < s.blocked_r → s.ready_r ≡ 0 → s.writing ≡ 0 → s.reading ≡ 0 → 0 < s.ready_rw
  readers_next :
      0 < s.blocked_rw
      → s.ready_rw ≡ 0
      → s.writing ≡ 0
      → s.reading ≡ 0
      → (0 < s.ready_r) × (s.lock.r_susp ≡ false) × (s.lock.rw_pend ≤ susp_thresh s.lock.r_pend)

step-Live : (o : Op) (s : System) → Live s → is_plain o ≡ true → Live (step o s)
unfolding step
step-Live Op.arrive_r s v p = ground (arith, step-Inv Op.arrive_r s v.counts)
step-Live o s v p = ground (arith, step-Inv o s v.counts)

run-Live : (os : List Op) (s : System) → AllPlain os → Live s → Live (run os s)
unfolding run
run-Live [] s p v = v
run-Live (o ∷ os) s p v = run-Live os (step o s) p.1 (step-Live o s v p.0)

initial-Live : Live initial
initial-Live = record {
  counts = initial-Inv;
  no_blocked_timed = omega arith;
  no_ready_timed = omega arith;
  suspended = ground arith;
  readers_wait = ground arith;
  writers_next = ground arith;
  readers_next = ground arith;
}

Live-next :
    (s : System)
    → Live s
    → 0 < s.blocked_r + s.blocked_rw
    → s.reading ≡ 0
    → s.writing ≡ 0
    → (0 < (step Op.test_rw s).writing) ⊎ (0 < (step Op.test_r s).reading)
unfolding step
Live-next s v b r w = ground arith

-- A sleeper is never left behind: whenever a thread sleeps on a condition variable while nobody
-- holds the lock, some thread that has been woken obtains the lock by its next test. This holds
-- after every sequence of steps in which neither `timedlock_cache_rw` nor a soft lock takes part.
pub run_no_lost_wakeup :
    (os : List Op)
    → AllPlain os
    → 0 < (run os initial).blocked_r + (run os initial).blocked_rw
    → (run os initial).reading ≡ 0
    → (run os initial).writing ≡ 0
    → (0 < (step Op.test_rw (run os initial)).writing)
      ⊎ (0 < (step Op.test_r (run os initial)).reading)
run_no_lost_wakeup os p b r w =
    Live-next (run os initial) (run-Live os initial p initial-Live) b r w
