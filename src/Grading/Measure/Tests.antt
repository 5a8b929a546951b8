-- ===== src/Grading/Measure/Tests.antt =====
-- Test of the times of measure of grading/grading.cpp: rounds of 10, 5, 7, 6 and 10 ns.
use cs453_concurrent_algorit.Base.{ℕ, ◌≡◌, refl, some, List, [], ◌∷◌, arith}
use cs453_concurrent_algorit.Grading.Chrono.{zeroed, convert}
use cs453_concurrent_algorit.Grading.Measure.{Round, measured_times}
use cs453_concurrent_algorit.Grading.Measure.Cumulative.{measured_times-cumulative}

abbrev round : ℕ → ℕ → Round
round a b = record { begun = some (0, a); ended = some (0, b) }

abbrev runs : List Round
runs = round 20 25 ∷ round 30 37 ∷ round 40 46 ∷ []

measured_times-cumulative_example :
    measured_times (λ xs i. xs) (zeroed 3) (round 0 10) runs (round 50 60) 3 ≡ (10, some 22, 38)
unfolding convert
measured_times-cumulative_example =
    measured_times-cumulative (λ xs i. xs) 3 (round 0 10) runs (round 50 60) (λ xs i h. refl)
      (omega arith) (omega arith)
