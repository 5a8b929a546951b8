-- ===== src/Grading/Main/Success.antt =====
-- When main of grading/grading.cpp succeeds.
use cs453_concurrent_algorit.Base.{
  ℕ, suc, ◌*◌, ◌%◌, ◌^◌, ◌≡◌, ◌↔◌, ◌≢◌, refl, sym, ap, ◌∙◌, subst, ◌==◌, false, if_false,
  Bool-cases, inl, inr, Option, some, List, [], ◌∷◌, arith,
}
use cs453_concurrent_algorit.Base.Word.{add64, mul64}
use cs453_concurrent_algorit.Grading.Chrono.{invalid_tick}
use cs453_concurrent_algorit.Grading.Main.{
  Evaluation, unusable, threw, incorrect, measured, Limits, no_limits, slow_factor, limit_for,
  limits_for, Exit, returned, quick, next_limits, after_evaluation, evaluate_all, with_seed, main,
}

-- The branch for bad luck is never taken: no multiple of 16 is the value for no limit, also when the product
-- wraps around.
limit_for_lem : (tick : ℕ) → limit_for tick ≡ 16 * tick % 2 ^ 64
limit_for_lem tick = elim (Bool-cases (mul64 slow_factor tick == invalid_tick)) [
  | inl bad ↦ let same : 16 * tick % 2 ^ 64 ≡ 195936478 = ground arith in absurd (omega arith)
  | inr good ↦ if_false (add64 (mul64 slow_factor tick) 1) (mul64 slow_factor tick) good
]

limit_for-valid : (tick : ℕ) → (limit_for tick == invalid_tick) ≡ false
limit_for-valid tick = elim (Bool-cases (limit_for tick == invalid_tick)) [
  | inl bad ↦
      let same : 16 * tick % 2 ^ 64 ≡ 195936478 = ground (arith, limit_for_lem tick) in
      absurd (omega arith)
  | inr good ↦ good
]

-- 16 times each of three times, in 64 bits
abbrev pub sixteenfold : (tick_init tick_perf tick_chck : ℕ) → Limits
sixteenfold i p c = record {
  init = 16 * i % 2 ^ 64;
  perf = 16 * p % 2 ^ 64;
  chck = 16 * c % 2 ^ 64;
}

limits_for_lem : (i p c : ℕ) → limits_for i p c ≡ sixteenfold i p c
limits_for_lem i p c = rw (limit_for_lem i, limit_for_lem p, limit_for_lem c) refl

abbrev pub Measured : Evaluation → Type 0
Measured unusable = ⊥
Measured threw = ⊥
Measured incorrect = ⊥
Measured (measured i p c) = Unit

Measured-measured :
    (o : Evaluation) → Measured o → (i : ℕ) × (p : ℕ) × (c : ℕ) × (o ≡ measured i p c)
Measured-measured (measured i p c) h = (i, p, c, refl)
Measured-measured o h = elim h [ ]

abbrev exit_code : Exit → ℕ
exit_code (returned n) = n
exit_code (quick n) = n

one_not_zero : returned 1 ≢ returned 0
one_not_zero e = let same : ◌≡◌ {A = ℕ} 1 0 = ap exit_code e in omega arith

module _ {Argument Seed : Type 0} (stoul : Argument → Option Seed)
    (evaluate : ℕ → Seed → Limits → Argument → Evaluation) where
  -- Each of the libraries, from index `k` on, is measured under the limits `l`.
  abbrev pub AllMeasured : ℕ → Seed → Limits → List Argument → Type 0
  AllMeasured k seed l [] = Unit
  AllMeasured k seed l (y ∷ ys) = Measured (evaluate k seed l y) × AllMeasured (suc k) seed l ys

  -- The first library is measured without limits, and all others under limits of 16 times the times of
  -- the first: of its initialization, of its runs and of its check, each by its own.
  pub data Succeeds (seed : Seed) (x : Argument) (xs : List Argument) : Type 0 where
    succeeds :
        (i p c : ℕ)
        → evaluate 2 seed
            (record { init = invalid_tick; perf = invalid_tick; chck = invalid_tick })
            x
          ≡ measured i p c
        → AllMeasured 3 seed (sixteenfold i p c) xs
        → Succeeds seed x xs

  -- A library is passed only when it was measured.
  after_evaluation-measured :
      (o : Evaluation) (go_on : ℕ → ℕ → ℕ → Exit)
      → after_evaluation stoul evaluate o go_on ≡ returned 0
      → (i : ℕ) × (p : ℕ) × (c : ℕ) × (o ≡ measured i p c) × (go_on i p c ≡ returned 0)
  after_evaluation-measured unusable go_on e = absurd (one_not_zero e)
  after_evaluation-measured threw go_on e = cc
  after_evaluation-measured incorrect go_on e = absurd (one_not_zero e)
  after_evaluation-measured (measured i p c) go_on e = (i, p, c, refl, e)

  -- The limits stay those of the first library.
  next_limits-stay :
      (i p c i' p' c' : ℕ)
      → next_limits stoul evaluate (limits_for i p c) i' p' c' ≡ limits_for i p c
  next_limits-stay i p c i' p' c' = if_false _ _ (limit_for-valid i)

  bounded :
      (k : ℕ) (seed : Seed) (i p c : ℕ) (xs : List Argument)
      → evaluate_all stoul evaluate k seed (limits_for i p c) xs ≡ returned 0
      → AllMeasured k seed (limits_for i p c) xs
  unfolding evaluate_all
  bounded k seed i p c [] e = tt
  bounded k seed i p c (x ∷ xs) e =
      let (i', p', c', here, rest) = after_evaluation-measured _ _ e in
      (
        subst Measured (sym here) tt,
        bounded (suc k) seed i p c xs (
            ap (λ l. evaluate_all stoul evaluate (suc k) seed l xs)
              (sym (next_limits-stay i p c i' p' c'))
            ∙ rest),
      )

  bounded_back :
      (k : ℕ) (seed : Seed) (i p c : ℕ) (xs : List Argument)
      → AllMeasured k seed (limits_for i p c) xs
      → evaluate_all stoul evaluate k seed (limits_for i p c) xs ≡ returned 0
  unfolding evaluate_all
  bounded_back k seed i p c [] h = refl
  bounded_back k seed i p c (x ∷ xs) h =
      let (i', p', c', here) = Measured-measured (evaluate k seed (limits_for i p c) x) h.0 in
      ap
        (λ o. after_evaluation stoul evaluate o (λ i' p' c'.
          evaluate_all stoul evaluate (suc k) seed
            (next_limits stoul evaluate (limits_for i p c) i' p' c') xs))
        here
      ∙ ap (λ l. evaluate_all stoul evaluate (suc k) seed l xs) (next_limits-stay i p c i' p' c')
      ∙ bounded_back (suc k) seed i p c xs h.1

  Succeeds-returned :
      (seed : Seed) (x : Argument) (xs : List Argument)
      → Succeeds seed x xs
      → evaluate_all stoul evaluate 2 seed no_limits (x ∷ xs) ≡ returned 0
  unfolding evaluate_all
  Succeeds-returned seed x xs (succeeds i p c here all) =
      ap
        (λ o. after_evaluation stoul evaluate o (λ i p c.
          evaluate_all stoul evaluate 3 seed (next_limits stoul evaluate no_limits i p c) xs))
        here
      ∙ bounded_back 3 seed i p c xs
          (subst (λ l. AllMeasured 3 seed l xs) (sym (limits_for_lem i p c)) all)

  -- When its seed is read and there is at least one library, main returns 0 if and only if the first
  -- library, the reference, is measured without an error or an exception and without time limits, and
  -- each other one is so under limits of 16 times the times of the first, in 64 bits: for the
  -- initialization, for a run and for the check, each by its own time.
  pub main-Succeeds :
      (name argument : Argument) (seed : Seed) (x : Argument) (xs : List Argument)
      → stoul argument ≡ some seed
      → (main stoul evaluate (name ∷ argument ∷ x ∷ xs) ≡ returned 0) ↔ Succeeds seed x xs
  unfolding main evaluate_all
  main-Succeeds name argument seed x xs reads =
      let start : main stoul evaluate (name ∷ argument ∷ x ∷ xs)
          ≡ evaluate_all stoul evaluate 2 seed no_limits (x ∷ xs) =
        ap
          (λ o.
            with_seed stoul evaluate o (λ s. evaluate_all stoul evaluate 2 s no_limits (x ∷ xs)))
          reads in
      (
        λ e.
            let (i, p, c, here, rest) = after_evaluation-measured _ _ (sym start ∙ e) in
            succeeds i p c here (
              subst (λ l. AllMeasured 3 seed l xs) (limits_for_lem i p c)
                (bounded 3 seed i p c xs rest)),
        λ h. start ∙ Succeeds-returned seed x xs h,
      )
