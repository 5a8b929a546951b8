-- ===== src/Grading/Measure/Cumulative.antt =====
-- The times that measure of grading/grading.cpp returns are sums over all rounds so far.
use cs453_concurrent_algorit.Base.{
  ℕ, zero, suc, ◌+◌, ◌/◌, ◌<◌, ◌≤◌, ◌≡◌, refl, sym, subst, ◌∙◌, ap, some, List, [], ◌∷◌, length,
  arith,
}
use cs453_concurrent_algorit.Base.Word.{word_limit, sub64}
use cs453_concurrent_algorit.Grading.Chrono.{Chrono, convert, zeroed}
use cs453_concurrent_algorit.Grading.Measure.{
  Round, after_round, run_times, at_index, measured_times,
}

-- The time that one round took
abbrev pub elapsed : Round → ℕ
elapsed r = sub64 (convert r.ended) (convert r.begun)

abbrev pub total_elapsed : List Round → ℕ
total_elapsed [] = 0
total_elapsed (r ∷ rs) = elapsed r + total_elapsed rs

-- The time that the first rounds took
abbrev pub first_elapsed : ℕ → List Round → ℕ
first_elapsed zero rs = 0
first_elapsed (suc k) [] = 0
first_elapsed (suc k) (r ∷ rs) = elapsed r + first_elapsed k rs

abbrev sums : ℕ → List Round → List ℕ
sums before [] = []
sums before (r ∷ rs) = (before + elapsed r) ∷ sums (before + elapsed r) rs

abbrev pub Ascending : List ℕ → Type 0
Ascending [] = Unit
Ascending (x ∷ []) = Unit
Ascending (x ∷ y ∷ xs) = (x ≤ y) × Ascending (y ∷ xs)

sums-Ascending : (before : ℕ) (rs : List Round) → Ascending (sums before rs)
sums-Ascending before [] = tt
sums-Ascending before (r ∷ []) = tt
sums-Ascending before (r ∷ q ∷ rs) = (omega arith, sums-Ascending (before + elapsed r) (q ∷ rs))

at_index-sums :
    (before k : ℕ) (rs : List Round)
    → k < length rs
    → at_index (sums before rs) k ≡ some (before + first_elapsed (suc k) rs)
at_index-sums before k [] inside = absurd (omega arith)
at_index-sums before zero (r ∷ rs) inside = ap some (omega arith)
at_index-sums before (suc k) (r ∷ rs) inside =
    at_index-sums (before + elapsed r) k rs (omega arith) ∙ ap some (omega arith)

total_after :
    (c : Chrono) (r : Round)
    → c.total + elapsed r < word_limit
    → (after_round c r).total ≡ c.total + elapsed r
total_after c r small = omega arith

run_times-sums :
    (c : Chrono) (rs : List Round)
    → c.total + total_elapsed rs < word_limit
    → ((run_times c rs).0 ≡ sums c.total rs)
      × ((run_times c rs).1.total ≡ c.total + total_elapsed rs)
unfolding run_times
run_times-sums c [] small = (refl, omega arith)
run_times-sums c (r ∷ rs) small =
    let c' : Chrono = after_round c r in
    let e : c'.total ≡ c.total + elapsed r = total_after c r (omega arith) in
    let (times, last) = run_times-sums c' rs (omega arith) in
    (
      ap (λ x. x ∷ (run_times c' rs).0) e
          ∙ ap (λ xs. (c.total + elapsed r) ∷ xs) (times ∙ ap (λ x. sums x rs) e),
      omega arith,
    )

-- When no round fails and the rounds together take less than 2 ^ 64 ns, the time that measure returns
-- for the initialization is what that round took; but its median time of a run is what the
-- initialization and all runs up to the middle one took together, and its time of the check is what all rounds
-- took. Here there is at least one run, and nth_element, on times in ascending order, keeps the one at its position.
pub measured_times-cumulative :
    (nth_element : List ℕ → ℕ → List ℕ) (junk : ℕ) (init : Round) (runs : List Round)
    (check : Round)
    → ((xs : List ℕ) (i : ℕ) → Ascending xs → at_index (nth_element xs i) i ≡ at_index xs i)
    → 0 < length runs
    → elapsed init + total_elapsed runs + elapsed check < word_limit
    → measured_times nth_element (zeroed junk) init runs check (length runs) ≡ (
      elapsed init,
      some (elapsed init + first_elapsed (suc (length runs / 2)) runs),
      elapsed init + total_elapsed runs + elapsed check,
    )
unfolding measured_times
measured_times-cumulative nth_element junk init runs check law some_run small =
    let c : Chrono = after_round (zeroed junk) init in
    let first : c.total ≡ elapsed init =
      omega (arith, total_after (zeroed junk) init (omega arith)) in
    let (times, last) = run_times-sums c runs (omega arith) in
    let median : at_index (nth_element (run_times c runs).0 (length runs / 2)) (length runs / 2)
        ≡ some (elapsed init + first_elapsed (suc (length runs / 2)) runs) =
      law (run_times c runs).0 (length runs / 2)
        (subst Ascending (sym times) (sums-Ascending c.total runs))
      ∙ ap (λ xs. at_index xs (length runs / 2)) times
      ∙ at_index-sums c.total (length runs / 2) runs (omega arith)
      ∙ ap (λ x. some (x + first_elapsed (suc (length runs / 2)) runs)) first in
    let final : (after_round (run_times c runs).1 check).total
        ≡ elapsed init + total_elapsed runs + elapsed check =
      omega (arith, total_after (run_times c runs).1 check (omega arith)) in
    λ i. (first i, median i, final i)
