-- ===== src/Grading/Main/Tests.antt =====
-- Test of main of grading/grading.cpp: a library is a number, its times, and is measured within its limits.
use cs453_concurrent_algorit.Base.{ℕ, ◌≡◌, ◌↔◌, refl, some, [], ◌∷◌, leb, ◌==◌, ◌||◌, if◌then◌else◌}
use cs453_concurrent_algorit.Grading.Chrono.{invalid_tick}
use cs453_concurrent_algorit.Grading.Main.{
  Evaluation, threw, measured, Limits, returned, quick, evaluate_all, main,
}
use cs453_concurrent_algorit.Grading.Main.Success.{Succeeds, main-Succeeds}

abbrev evaluate : (index : ℕ) → ℕ → Limits → ℕ → Evaluation
evaluate index seed l time =
    if (l.init == invalid_tick) || leb time l.init then measured time time time else threw

-- A library that takes 40 is passed after one that takes 3, and one that takes 50 is not.
main_slow : main some evaluate (0 ∷ 1 ∷ 3 ∷ 40 ∷ 50 ∷ []) ≡ quick 2
unfolding main evaluate_all
main_slow = refl

main-Succeeds_example :
    (main some evaluate (0 ∷ 1 ∷ 3 ∷ 40 ∷ []) ≡ returned 0) ↔ Succeeds some evaluate 1 3 (40 ∷ [])
main-Succeeds_example = main-Succeeds some evaluate 0 1 1 3 (40 ∷ []) refl
