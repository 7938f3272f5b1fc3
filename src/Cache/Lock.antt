-- ===== src/Cache/Lock.antt =====
-- The readers/writer lock of the cache (cache.c, "Locking functions"). Every function is cut where
-- its mutex is released: what runs under one hold of `lock_mutex` is one atomic step on the
-- variables of the lock. The threads are counted by the place in the code where they stand.
pub mod Exclusion
pub mod Progress
mod Tests
use tor_android_service_arch.Prelude.{
  ℕ, ◌+◌, ◌-◌, ◌/◌, Bool, true, false, ◌&&◌, ◌||◌, not, ltb, ◌==◌, if◌then◌else◌, List, [], ◌∷◌,
}

-- The static variables. `cache_w_lock` and `r_susp` are only ever 0 or 1.
pub record LockState : Type 0 where
  pub use_cache_lock : Bool
  pub cache_w_lock : Bool
  pub cache_r_lock : ℕ
  pub r_pend : ℕ
  pub rw_pend : ℕ
  pub r_susp : Bool

abbrev pub susp_thresh : ℕ → ℕ
susp_thresh r_pend = r_pend / 2 + 2

-- What a step does to the condition variables.
pub data Wake : Type 0 where
  no_wake signal_rw broadcast_r : Wake

-- `r_pend++`
unfoldable pub lock_cache_r_enter : LockState → LockState
lock_cache_r_enter s = record s { r_pend = s.r_pend + 1 }

-- The test of the loop in `lock_cache_r` with its side effect on `r_susp`, and what follows the
-- loop. The flag tells whether the lock was obtained; if not, the thread sleeps on `r_cond`.
unfoldable pub lock_cache_r_test : LockState → LockState × Bool
lock_cache_r_test s =
    let susp = ltb (susp_thresh s.r_pend) s.rw_pend || s.r_susp in
    if susp || s.cache_w_lock then (record s { r_susp = susp }, false) else (
      record s { r_susp = susp; cache_r_lock = s.cache_r_lock + 1; r_pend = s.r_pend - 1 },
      true,
    )

unfoldable pub unlock_cache_r : LockState → LockState × Wake
unlock_cache_r s =
    let left = if ltb 0 s.cache_r_lock then s.cache_r_lock - 1 else s.cache_r_lock in
    (record s { cache_r_lock = left }, if left == 0 then signal_rw else no_wake)

-- `rw_pend++`, in `lock_cache_rw` and in `timedlock_cache_rw`
unfoldable pub lock_cache_rw_enter : LockState → LockState
lock_cache_rw_enter s = record s { rw_pend = s.rw_pend + 1 }

unfoldable pub lock_cache_rw_test : LockState → LockState × Bool
lock_cache_rw_test s =
    if s.cache_w_lock || not (s.cache_r_lock == 0)
    then (s, false)
    else (record s { cache_w_lock = true; rw_pend = s.rw_pend - 1 }, true)

-- `cleanup_return` of `timedlock_cache_rw` after ETIMEDOUT
unfoldable pub timedlock_cache_rw_timeout : LockState → LockState
timedlock_cache_rw_timeout s = record s { rw_pend = s.rw_pend - 1 }

unfoldable pub unlock_cache_rw : LockState → LockState × Wake
unlock_cache_rw s = (
  record s { cache_w_lock = false; r_susp = false },
  if s.r_pend == 0 || ltb (susp_thresh s.r_pend) s.rw_pend then signal_rw else broadcast_r,
)

-- The early return of `yield_lock_cache_rw`, on a look at the counters without the mutex.
unfoldable pub yield_lock_cache_rw_keeps : LockState → Bool
yield_lock_cache_rw_keeps s = not s.use_cache_lock || (s.r_pend == 0 && s.rw_pend == 0)

-- One attempt of the soft locks, once `softlock_mutex` has succeeded. They wake nobody.
unfoldable pub softlock_cache_r_try : LockState → LockState × Bool
softlock_cache_r_try s =
    if not s.cache_w_lock
    then (record s { cache_r_lock = s.cache_r_lock + 1 }, true)
    else (s, false)

unfoldable pub softunlock_cache_r : LockState → LockState
softunlock_cache_r s = record s {
  cache_r_lock = if ltb 0 s.cache_r_lock then s.cache_r_lock - 1 else s.cache_r_lock;
}

unfoldable pub softlock_cache_rw_try : LockState → LockState × Bool
softlock_cache_rw_try s =
    if not (s.cache_w_lock || not (s.cache_r_lock == 0))
    then (record s { cache_w_lock = true }, true)
    else (s, false)

unfoldable pub softunlock_cache_rw : LockState → LockState
softunlock_cache_rw s = record s { cache_w_lock = false }

-- How many threads stand at each place. A blocked thread sleeps on its condition variable until
-- it is woken; a ready one has been woken, or has not tested yet, and tests its loop next.
pub record System : Type 0 where
  pub lock : LockState
  pub blocked_r : ℕ
  pub ready_r : ℕ
  pub reading : ℕ
  pub blocked_rw : ℕ
  pub ready_rw : ℕ
  pub blocked_timed : ℕ
  pub ready_timed : ℕ
  pub writing : ℕ
  pub yielded : ℕ

-- `pthread_cond_signal(&rw_cond)` wakes one of the sleepers, of either kind: the scheduler's flag
-- prefers a timed one. `pthread_cond_broadcast(&r_cond)` wakes all the readers that sleep.
unfoldable pub wake : Wake → Bool → System → System
wake no_wake timed s = s
wake broadcast_r timed s = record s { blocked_r = 0; ready_r = s.ready_r + s.blocked_r }
wake signal_rw timed s =
    if ltb 0 s.blocked_timed && (timed || s.blocked_rw == 0)
    then record s { blocked_timed = s.blocked_timed - 1; ready_timed = s.ready_timed + 1 }
    else if ltb 0 s.blocked_rw
    then record s { blocked_rw = s.blocked_rw - 1; ready_rw = s.ready_rw + 1 }
    else s

-- The steps that the scheduler may choose. `spurious_*` are wake-ups without a signal, which POSIX
-- allows; the flags choose whom a signal wakes.
pub data Op : Type 0 where
  arrive_r arrive_rw arrive_timed : Op
  test_r test_rw test_timed : Op
  spurious_r spurious_rw spurious_timed timeout : Op
  leave_r leave_rw yield : Bool → Op
  resume : Op
  soft_r soft_rw soft_leave_r soft_leave_rw : Op

-- A step that no thread can take changes nothing.
when : Bool → System → System → System
when able t s = if able then t else s

tested_r : System → LockState × Bool → System
tested_r s (l, true) = record s { lock = l; ready_r = s.ready_r - 1; reading = s.reading + 1 }
tested_r s (l, false) = record s { lock = l; ready_r = s.ready_r - 1; blocked_r = s.blocked_r + 1 }

tested_rw : System → LockState × Bool → System
tested_rw s (l, true) = record s { lock = l; ready_rw = s.ready_rw - 1; writing = s.writing + 1 }
tested_rw s (l, false) = record s {
  lock = l;
  ready_rw = s.ready_rw - 1;
  blocked_rw = s.blocked_rw + 1;
}

tested_timed : System → LockState × Bool → System
tested_timed s (l, true) = record s {
  lock = l;
  ready_timed = s.ready_timed - 1;
  writing = s.writing + 1;
}
tested_timed s (l, false) = record s {
  lock = l;
  ready_timed = s.ready_timed - 1;
  blocked_timed = s.blocked_timed + 1;
}

soft_read : System → LockState × Bool → System
soft_read s (l, true) = record s { lock = l; reading = s.reading + 1 }
soft_read s (l, false) = s

soft_write : System → LockState × Bool → System
soft_write s (l, true) = record s { lock = l; writing = s.writing + 1 }
soft_write s (l, false) = s

released : System → LockState × Wake → Bool → System
released s (l, w) timed = wake w timed (record s { lock = l })

unfoldable pub step : Op → System → System
unfolding when tested_r tested_rw tested_timed soft_read soft_write released wake lock_cache_r_enter
    lock_cache_r_test unlock_cache_r lock_cache_rw_enter lock_cache_rw_test
    timedlock_cache_rw_timeout unlock_cache_rw yield_lock_cache_rw_keeps softlock_cache_r_try
    softunlock_cache_r softlock_cache_rw_try softunlock_cache_rw
step arrive_r s = record s { lock = lock_cache_r_enter s.lock; ready_r = s.ready_r + 1 }
step arrive_rw s = record s { lock = lock_cache_rw_enter s.lock; ready_rw = s.ready_rw + 1 }
step arrive_timed s = record s {
  lock = lock_cache_rw_enter s.lock;
  ready_timed = s.ready_timed + 1;
}
step test_r s = when (ltb 0 s.ready_r) (tested_r s (lock_cache_r_test s.lock)) s
step test_rw s = when (ltb 0 s.ready_rw) (tested_rw s (lock_cache_rw_test s.lock)) s
step test_timed s = when (ltb 0 s.ready_timed) (tested_timed s (lock_cache_rw_test s.lock)) s
step spurious_r s =
    when (ltb 0 s.blocked_r) (record s { blocked_r = s.blocked_r - 1; ready_r = s.ready_r + 1 }) s
step spurious_rw s =
    when (ltb 0 s.blocked_rw)
      (record s { blocked_rw = s.blocked_rw - 1; ready_rw = s.ready_rw + 1 }) s
step spurious_timed s =
    when (ltb 0 s.blocked_timed)
      (record s { blocked_timed = s.blocked_timed - 1; ready_timed = s.ready_timed + 1 }) s
step timeout s =
    when (ltb 0 s.blocked_timed)
      (record s { lock = timedlock_cache_rw_timeout s.lock; blocked_timed = s.blocked_timed - 1 }) s
step (leave_r timed) s =
    when (ltb 0 s.reading)
      (released (record s { reading = s.reading - 1 }) (unlock_cache_r s.lock) timed) s
step (leave_rw timed) s =
    when (ltb 0 s.writing)
      (released (record s { writing = s.writing - 1 }) (unlock_cache_rw s.lock) timed) s
step (yield timed) s =
    when (ltb 0 s.writing && not (yield_lock_cache_rw_keeps s.lock))
      (released (record s { writing = s.writing - 1; yielded = s.yielded + 1 })
        (unlock_cache_rw s.lock) timed)
      s
step resume s =
    when (ltb 0 s.yielded)
      (record s {
        lock = lock_cache_rw_enter s.lock;
        yielded = s.yielded - 1;
        ready_rw = s.ready_rw + 1;
      })
      s
step soft_r s = soft_read s (softlock_cache_r_try s.lock)
step soft_rw s = soft_write s (softlock_cache_rw_try s.lock)
step soft_leave_r s =
    when (ltb 0 s.reading) (record s { lock = softunlock_cache_r s.lock; reading = s.reading - 1 })
      s
step soft_leave_rw s =
    when (ltb 0 s.writing) (record s { lock = softunlock_cache_rw s.lock; writing = s.writing - 1 })
      s

unfoldable pub run : List Op → System → System
run [] s = s
run (o ∷ os) s = run os (step o s)

-- `init_cache_lock` has run and nobody has called a lock function yet.
abbrev pub initial : System
initial = record {
  lock = record {
    use_cache_lock = true;
    cache_w_lock = false;
    cache_r_lock = 0;
    r_pend = 0;
    rw_pend = 0;
    r_susp = false;
  };
  blocked_r = 0;
  ready_r = 0;
  reading = 0;
  blocked_rw = 0;
  ready_rw = 0;
  blocked_timed = 0;
  ready_timed = 0;
  writing = 0;
  yielded = 0;
}
