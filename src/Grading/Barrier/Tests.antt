-- ===== src/Grading/Barrier/Tests.antt =====
-- Tests of the barrier of grading/common.hpp, with two threads.
use cs453_concurrent_algorit.Base.{ℕ, zero, suc, ◌<◌, ◌≤◌, refl, update, arith}
use cs453_concurrent_algorit.Grading.Barrier.{
  leave, at, outside, opening, awaiting_leave, leaving, entered, enter_last, enter_other, set_leave,
  see_leave, System, pick, Reach, initial, later,
}
use cs453_concurrent_algorit.Grading.Barrier.Synchrony.{crossed, sync_together}
use cs453_concurrent_algorit.Grading.Barrier.Progress.{Advances, no_deadlock}

-- Thread 0 waits in its first call, thread 1 enters last and opens the barrier, and thread 0 goes on.
abbrev passed : System
passed = record {
  shared = record { step = 2; mode = leave };
  local =
      update
        (update (update (update (λ _. at 0 outside) 0 (at 1 awaiting_leave)) 1 (at 1 opening)) 1
          (at 1 leaving))
        0 (at 1 leaving);
}

passed-Reach : Reach 2 passed
passed-Reach =
    later
      (later
        (later (later initial (pick 0 (omega arith) (enter_other (λ e. omega arith))))
          (pick 1 (omega arith) (enter_last refl)))
        (pick 1 (omega arith) set_leave))
      (pick 0 (omega arith) (see_leave refl))

sync_together_example : crossed (passed.local 0) ≤ entered (passed.local 1)
sync_together_example =
    sync_together 2 passed 0 1 (omega arith) (omega arith) passed-Reach (omega arith) (omega arith)

passed-begun : (i : ℕ) → i < 2 → 1 ≤ entered (passed.local i)
passed-begun zero small = omega arith
passed-begun (suc zero) small = omega arith
passed-begun (suc (suc i)) small = absurd (omega arith)

no_deadlock_example : Advances 2 1 passed
no_deadlock_example =
    no_deadlock 2 passed 1 0 (omega arith) (omega arith) passed-Reach passed-begun
      (refl, omega arith)
