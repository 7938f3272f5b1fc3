-- ===== src/Cache/Lock/Tests.antt =====
-- The theorems at schedules in which threads meet.
use tor_android_service_arch.Prelude.{◌≡◌, refl, ◌≤◌, ◌<◌, ◌⊎◌, false, arith, List, [], ◌∷◌}
use tor_android_service_arch.Cache.Lock.{
  Op, arrive_r, arrive_rw, test_r, test_rw, leave_rw, step, run, initial,
}
use tor_android_service_arch.Cache.Lock.Exclusion.{run-exclusion}
use tor_android_service_arch.Cache.Lock.Progress.{run_no_lost_wakeup}

-- A writer holds the lock; a writer and a reader go to sleep; the first writer leaves.
abbrev handover : List Op
handover = arrive_rw ∷ test_rw ∷ arrive_rw ∷ test_rw ∷ arrive_r ∷ test_r ∷ leave_rw false ∷ []

run-exclusion_example :
    ((run handover initial).writing ≤ 1)
    × (0 < (run handover initial).writing → (run handover initial).reading ≡ 0)
run-exclusion_example = run-exclusion handover

run_no_lost_wakeup_example :
    (0 < (step test_rw (run handover initial)).writing)
    ⊎ (0 < (step test_r (run handover initial)).reading)
run_no_lost_wakeup_example =
    run_no_lost_wakeup handover
      (unfold run step in (refl, (refl, (refl, (refl, (refl, (refl, (refl, tt))))))))
      (unfold run step in omega arith) (unfold run step in refl) (unfold run step in refl)

handover_wakes_reader : (run handover initial).ready_r ≡ 1
unfolding run step
handover_wakes_reader = refl
