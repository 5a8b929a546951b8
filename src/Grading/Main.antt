-- ===== src/Grading/Main.antt =====
-- Function main of grading/grading.cpp: which libraries it evaluates under which time limits, and with
-- what the process ends.
--
-- Loading a library, creating the workload and measuring it are a parameter, and so is stoul. The
-- output is left out.
pub mod Success
mod Tests
use cs453_concurrent_algorit.Base.{
  ℕ, suc, ◌≡◌, ◌==◌, if◌then◌else◌, Option, none, some, List, [], ◌∷◌,
}
use cs453_concurrent_algorit.Base.Word.{add64, mul64}
use cs453_concurrent_algorit.Grading.Chrono.{invalid_tick}

-- How the evaluation of a library ends: an exception before the measurements, one in them, an error that
-- they return, or three times.
pub data Evaluation : Type 0 where
  unusable : Evaluation
  threw : Evaluation
  incorrect : Evaluation
  measured : (tick_init tick_perf tick_chck : ℕ) → Evaluation

-- The variables maxtick_init, maxtick_perf and maxtick_chck
pub record Limits : Type 0 where
  pub init : ℕ
  pub perf : ℕ
  pub chck : ℕ

abbrev pub no_limits : Limits
no_limits = record { init = invalid_tick; perf = invalid_tick; chck = invalid_tick }

abbrev pub slow_factor : ℕ
slow_factor = 16

-- `maxtick = slow_factor * tick; if (unlikely(maxtick == Chrono::invalid_tick)) ++maxtick;`
abbrev pub limit_for : ℕ → ℕ
limit_for tick =
    let maxtick = mul64 slow_factor tick in
    if maxtick == invalid_tick then add64 maxtick 1 else maxtick

abbrev pub limits_for : (tick_init tick_perf tick_chck : ℕ) → Limits
limits_for i p c = record { init = limit_for i; perf = limit_for p; chck = limit_for c }

-- `return` from main, or `quick_exit`
pub data Exit : Type 0 where
  returned : ℕ → Exit
  quick : ℕ → Exit

-- What `evaluate` answers may change from one evaluation to the next, even of the same library: its first
-- argument is the index of the library in argv.
module _ {Argument Seed : Type 0} (stoul : Argument → Option Seed)
    (evaluate : ℕ → Seed → Limits → Argument → Evaluation) where
  abbrev pub next_limits : Limits → (tick_init tick_perf tick_chck : ℕ) → Limits
  next_limits l i p c = if l.init == invalid_tick then limits_for i p c else l

  abbrev pub after_evaluation : Evaluation → (ℕ → ℕ → ℕ → Exit) → Exit
  after_evaluation unusable go_on = returned 1
  after_evaluation threw go_on = quick 2
  after_evaluation incorrect go_on = returned 1
  after_evaluation (measured i p c) go_on = go_on i p c

  -- The loop over the libraries from index `k` on
  unfoldable pub evaluate_all : ℕ → Seed → Limits → List Argument → Exit
  evaluate_all k seed l [] = returned 0
  evaluate_all k seed l (x ∷ xs) =
      after_evaluation (evaluate k seed l x)
        (λ i p c. evaluate_all (suc k) seed (next_limits l i p c) xs)

  abbrev pub with_seed : Option Seed → (Seed → Exit) → Exit
  with_seed none go_on = returned 1
  with_seed (some seed) go_on = go_on seed

  -- The arguments, the name of the program first
  unfoldable pub main : List Argument → Exit
  main [] = returned 1
  main (name ∷ []) = returned 1
  main (name ∷ seed ∷ []) = returned 1
  main (name ∷ seed ∷ x ∷ xs) = with_seed (stoul seed) (λ s. evaluate_all 2 s no_limits (x ∷ xs))
