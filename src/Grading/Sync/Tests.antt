-- ===== src/Grading/Sync/Tests.antt =====
-- Tests of the threads of measure in grading/grading.cpp, with two workers.
use cs453_concurrent_algorit.Base.{ℕ, ◌<◌, ◌≡◌, ◌≢◌, ◌⊎◌, inl, refl, suc, zero, false, some, arith}
use cs453_concurrent_algorit.Grading.Latch.{reset}
use cs453_concurrent_algorit.Grading.Sync.{
  said, see_wait, see_quit, arrive_last, arrive_other, reset_ready, start_run, see_run, begin_test,
  succeed, return_error, store_error, store_abort, finish_last, finish_other, clear_ready, judge,
  store_end, raise_latch, Local, at, passed, waiting, overrun, unreachable, notify, wake, read_fail,
  read_error, join_failure, System, Stopped, worker, master_step, joined, Reach, initial, later,
}
use cs453_concurrent_algorit.Grading.Sync.Verdict.{Outcome, measure_lem}
use cs453_concurrent_algorit.Grading.Sync.Unreachable.{never_unreachable}
use cs453_concurrent_algorit.Grading.Sync.Together.{Alongside, tests_together}
use cs453_concurrent_algorit.Grading.Sync.Progress.{Advances, Over, measure-Advances}

-- Both workers have come to the first test, and worker 1 is in it.
abbrev first_test : (s : System) × Reach 2 0 s
first_test = (
  _,
  later
      (later
        (later
          (later
            (later
              (later
                (later
                  (later (later initial (master_step notify))
                    (worker 0 (omega arith) (see_wait refl)))
                  (worker 0 (omega arith) (arrive_other (λ e. omega arith))))
                (worker 1 (omega arith) (see_wait refl)))
              (worker 1 (omega arith) (arrive_last refl)))
            (worker 1 (omega arith) reset_ready))
          (worker 1 (omega arith) start_run))
        (worker 1 (omega arith) begin_test))
      (worker 0 (omega arith) (see_run (inl refl))),
)

tests_together_example :
    ((first_test.0.master ≡ waiting 1) ⊎ (first_test.0.master ≡ overrun))
    × ((j : ℕ) → j < 2 → Alongside 1 (first_test.0.local j))
tests_together_example =
    tests_together 2 0 1 1 first_test.0 (omega arith) first_test.1 (omega arith) refl

-- Worker 1 fails, worker 0 does not, and finishes last.
abbrev first_end : (s : System) × Reach 2 0 s
first_end = (
  _,
  later
      (later
        (later
          (later
            (later
              (later
                (later
                  (later
                    (later (later first_test.1 (worker 1 (omega arith) (return_error (said 7))))
                      (worker 0 (omega arith) begin_test))
                    (worker 1 (omega arith) (store_error (said 7))))
                  (worker 0 (omega arith) succeed))
                (worker 1 (omega arith) store_abort))
              (worker 1 (omega arith) (finish_other (λ e. omega arith))))
            (worker 0 (omega arith) (finish_last refl)))
          (worker 0 (omega arith) clear_ready))
        (worker 0 (omega arith) judge))
      (worker 0 (omega arith) (store_end _)),
)

never_unreachable_example :
    (first_end.0.master ≢ unreachable) × ((j : ℕ) → j < 2 → first_end.0.local j ≢ at 0 passed)
never_unreachable_example =
    never_unreachable 2 0 first_end.0 (omega arith) (omega arith) first_end.1

measure-Advances_example : Advances 2 first_end.0 ⊎ Over first_end.0.master
measure-Advances_example = measure-Advances 2 0 first_end.0 (omega arith) (omega arith) first_end.1

both : (f : ℕ → Local) → Stopped (f 0) → Stopped (f 1) → (j : ℕ) → j < 2 → Stopped (f j)
both f first second zero inside = first
both f first second (suc zero) inside = second
both f first second (suc (suc j)) inside = absurd (omega arith)

-- The master reads the failure, and both workers end.
abbrev whole : (s : System) × Reach 2 0 s
whole = (
  _,
  later
      (later
        (later
          (later
            (later
              (later
                (later (later first_end.1 (worker 0 (omega arith) raise_latch))
                  (master_step (wake {bounded = false} (reset refl))))
                (master_step (read_fail refl)))
              (master_step read_error))
            (master_step join_failure))
          (worker 1 (omega arith) (see_quit refl)))
        (worker 0 (omega arith) (see_quit refl)))
      (joined refl (both _ (1, refl) (1, refl))),
)

measure_lem_example : Outcome 2 whole.0 (some (said 7))
measure_lem_example =
    measure_lem 2 0 whole.0 (some (said 7)) (omega arith) (omega arith) whole.1 refl
