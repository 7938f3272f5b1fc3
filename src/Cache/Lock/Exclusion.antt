-- ===== src/Cache/Lock/Exclusion.antt =====
-- The lock variables count the threads, and readers and writers exclude one another.
use tor_android_service_arch.Prelude.{
  ℕ, ◌+◌, ◌≤◌, ◌<◌, ◌≡◌, Bool, true, arith, List, [], ◌∷◌, if◌then◌else◌,
}
use tor_android_service_arch.Cache.Lock.{System, Op, step, run, initial}

abbrev flag : Bool → ℕ
flag b = if b then 1 else 0

-- The variables of the lock count the threads at the places of the code.
pub record Inv (s : System) : Type 0 where
  pub in_use : s.lock.use_cache_lock ≡ true
  pub readers : s.lock.cache_r_lock ≡ s.reading
  pub writers : flag s.lock.cache_w_lock ≡ s.writing
  pub pending_r : s.lock.r_pend ≡ s.blocked_r + s.ready_r
  pub pending_rw : s.lock.rw_pend ≡ s.blocked_rw + s.ready_rw + s.blocked_timed + s.ready_timed
  pub apart : 0 < s.writing → s.reading ≡ 0

pub step-Inv : (o : Op) (s : System) → Inv s → Inv (step o s)
unfolding step
step-Inv Op.arrive_r s v = ground arith
step-Inv _ s v = ground arith

pub run-Inv : (os : List Op) (s : System) → Inv s → Inv (run os s)
unfolding run
run-Inv [] s v = v
run-Inv (o ∷ os) s v = run-Inv os (step o s) (step-Inv o s v)

pub initial-Inv : Inv initial
initial-Inv = ground arith

-- Whatever order the scheduler chooses, at most one thread holds the write lock, and no thread
-- holds the read lock while one does.
pub run-exclusion :
    (os : List Op)
    → ((run os initial).writing ≤ 1) × (0 < (run os initial).writing → (run os initial).reading ≡ 0)
run-exclusion os = let v = run-Inv os initial initial-Inv in (ground (arith, v.writers), v.apart)
