-- ===== src/Grading/Measure.antt =====
-- The times that measure of grading/grading.cpp returns when no round fails.
--
-- `runtime` of class Sync is one Chrono for all rounds: master_notify starts it, the last worker stops
-- it, and master_wait returns a copy. nth_element of the standard library is a parameter.
pub mod Cumulative
mod Tests
use cs453_concurrent_algorit.Base.{ℕ, zero, suc, ◌/◌, Option, none, some, List, [], ◌∷◌}
use cs453_concurrent_algorit.Grading.Chrono.{Chrono, Reading, start, stop, get_tick}

-- The clock when the master notifies the workers, and when the last of them is done
pub record Round : Type 0 where
  pub begun : Reading
  pub ended : Reading

abbrev pub after_round : Chrono → Round → Chrono
after_round c r = stop r.ended (start r.begun c)

-- The loop of the performance measurements: the ticks of each round, and the Chrono after it.
unfoldable pub run_times : Chrono → List Round → List ℕ × Chrono
run_times c [] = ([], c)
run_times c (r ∷ rs) =
    let c' = after_round c r in let (times, last) = run_times c' rs in (get_tick c' ∷ times, last)

abbrev pub at_index : List ℕ → ℕ → Option ℕ
at_index [] i = none
at_index (x ∷ xs) zero = some x
at_index (x ∷ xs) (suc i) = at_index xs i

-- The time of the initialization, the median time of a run, and the time of the check
unfoldable pub measured_times :
    (List ℕ → ℕ → List ℕ)
    → Chrono
    → (init : Round) (runs : List Round) (check : Round) → (nbrepeats : ℕ) → ℕ × Option ℕ × ℕ
measured_times nth_element runtime init runs check nbrepeats =
    let posmedian = nbrepeats / 2 in
    let c = after_round runtime init in
    let (times, last) = run_times c runs in
    (
      get_tick c,
      at_index (nth_element times posmedian) posmedian,
      get_tick (after_round last check),
    )
