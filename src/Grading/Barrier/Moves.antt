-- ===== src/Grading/Barrier/Moves.antt =====
-- The moves of a thread in each phase of the barrier of grading/common.hpp.
use cs453_concurrent_algorit.Base.{
  ℕ, suc, ◌<◌, ◌≡◌, ◌≢◌, refl, sym, ap, ◌∙◌, Bool, true, false, update, update_ind, arith,
}
use cs453_concurrent_algorit.Base.Word.{word_limit}
use cs453_concurrent_algorit.Grading.Barrier.{
  enter, leave, Barrier, Local, at, outside, opening, awaiting_leave, leaving, closing,
  awaiting_enter, Move, enter_last, enter_other, set_leave, see_leave, pause_enter, leave_last,
  leave_other, set_enter, see_enter, pause_leave, entered, System,
}
use cs453_concurrent_algorit.Grading.Barrier.Counting.{counted}
use cs453_concurrent_algorit.Grading.Counting.{everyone, others, count, count-full, count-none}
use cs453_concurrent_algorit.Grading.Barrier.Phases.{
  Filling, Waiting, Draining, Drained, Phase, filling, opened, draining, emptied, Filling-Waiting,
  Waiting-Draining, Draining-Drained, Drained-Filling,
}

module _ (n : ℕ) (small : n < word_limit) (b : Barrier) (local : ℕ → Local) (i : ℕ)
    (below : i < n) where
  -- The system after a move of thread `i`
  abbrev after : Barrier → Local → System
  after c y = record { shared = c; local = update local i y }

  counted_after :
      (y : Local) (j : ℕ) (k : Bool)
      → j ≢ i
      → counted (update local i y j) ≡ k
      → counted (local j) ≡ k
  counted_after y j k ne h =
      let same : update local i y j ≡ local j = ground arith in ap counted (sym same) ∙ h

  moved : (y : Local) → update local i y i ≡ y
  moved y = ground arith

  pub fill_move :
      (r : ℕ) (x y : Local) (c : Barrier)
      → b.mode ≡ enter
      → b.step < n
      → ((j : ℕ) → j < n → Filling r (local j))
      → Filling r x
      → c.step ≡ count counted n (update local i y)
      → Move n b x c y
      → Phase n (after c y)
  fill_move r x y c mode few all here held' (enter_last {e} last) =
      opened r i mode below (moved (at (suc e) opening) ∙ ap (λ e. at (suc e) opening) here) (
        others n local i (Waiting r) (at (suc e) opening) (λ j ne inside.
          Filling-Waiting r (local j) (all j inside) (
            counted_after (at (suc e) opening) j true ne (
              count-full counted n (update local i (at (suc e) opening)) j (sym held' ∙ last)
                inside))))
  fill_move r x y c mode few all here held' (enter_other {e} more) =
      filling r mode (ground arith)
        (everyone n local i (Filling r) (at (suc e) awaiting_leave) (ap suc here) (λ j ne. all j))
  fill_move r x y c mode few all here held' set_leave = elim here [ ]
  fill_move r x y c mode few all here held' (see_leave seen) = cc
  fill_move r x y c mode few all here held' (pause_enter {e} unseen) =
      filling r mode few (everyone n local i (Filling r) (at e awaiting_leave) here (λ j ne. all j))
  fill_move r x y c mode few all here held' (leave_last last) = elim here [ ]
  fill_move r x y c mode few all here held' (leave_other more) = elim here [ ]
  fill_move r x y c mode few all here held' set_enter = elim here [ ]
  fill_move r x y c mode few all here held' (see_enter {e} seen) =
      filling r mode few (everyone n local i (Filling r) (at e outside) here (λ j ne. all j))
  fill_move r x y c mode few all here held' (pause_leave unseen) = absurd (unseen mode)

  -- The thread that stores `leave`
  pub opener_move :
      (r : ℕ) (x y : Local) (c : Barrier)
      → 0 < b.step
      → ((j : ℕ) → j ≢ i → j < n → Waiting r (local j))
      → x ≡ at (suc r) opening
      → Move n b x c y
      → Phase n (after c y)
  opener_move r x y c some_in all is_x (enter_last last) = cc
  opener_move r x y c some_in all is_x (enter_other more) = cc
  opener_move r x y c some_in all is_x (set_leave {e}) = draining r refl some_in (
      everyone n local i (Draining r) (at e leaving) (ap entered is_x)
        (λ j ne inside. Waiting-Draining r (local j) (all j ne inside)))
  opener_move r x y c some_in all is_x (see_leave seen) = cc
  opener_move r x y c some_in all is_x (pause_enter unseen) = cc
  opener_move r x y c some_in all is_x (leave_last last) = cc
  opener_move r x y c some_in all is_x (leave_other more) = cc
  opener_move r x y c some_in all is_x set_enter = cc
  opener_move r x y c some_in all is_x (see_enter seen) = cc
  opener_move r x y c some_in all is_x (pause_leave unseen) = cc

  -- A thread that waits meanwhile
  pub waiter_move :
      (r o : ℕ) (x y : Local) (c : Barrier)
      → b.mode ≡ enter
      → o < n
      → o ≢ i
      → local o ≡ at (suc r) opening
      → ((j : ℕ) → j ≢ o → j < n → Waiting r (local j))
      → Waiting r x
      → Move n b x c y
      → Phase n (after c y)
  waiter_move r o x y c mode inside ne opener all here (enter_last last) = elim here [ ]
  waiter_move r o x y c mode inside ne opener all here (enter_other more) = elim here [ ]
  waiter_move r o x y c mode inside ne opener all here set_leave = elim here [ ]
  waiter_move r o x y c mode inside ne opener all here (see_leave seen) = cc
  waiter_move r o x y c mode inside ne opener all here (pause_enter {e} unseen) =
      let same : update local i (at e awaiting_leave) o ≡ local o = ground arith in
      opened r o mode inside (same ∙ opener)
        (update_ind (λ j x. j ≢ o → j < n → Waiting r x) local i (λ _ _. here) (λ j _. all j))
  waiter_move r o x y c mode inside ne opener all here (leave_last last) = elim here [ ]
  waiter_move r o x y c mode inside ne opener all here (leave_other more) = elim here [ ]
  waiter_move r o x y c mode inside ne opener all here set_enter = elim here [ ]
  waiter_move r o x y c mode inside ne opener all here (see_enter seen) = elim here [ ]
  waiter_move r o x y c mode inside ne opener all here (pause_leave unseen) = elim here [ ]

  pub drain_move :
      (r : ℕ) (x y : Local) (c : Barrier)
      → b.mode ≡ leave
      → 0 < b.step
      → ((j : ℕ) → j < n → Draining r (local j))
      → Draining r x
      → c.step ≡ count counted n (update local i y)
      → Move n b x c y
      → Phase n (after c y)
  drain_move r x y c mode some_in all here held' (enter_last last) = elim here [ ]
  drain_move r x y c mode some_in all here held' (enter_other more) = elim here [ ]
  drain_move r x y c mode some_in all here held' set_leave = elim here [ ]
  drain_move r x y c mode some_in all here held' (see_leave {e} seen) =
      draining r mode some_in (everyone n local i (Draining r) (at e leaving) here (λ j ne. all j))
  drain_move r x y c mode some_in all here held' (pause_enter unseen) = absurd (unseen mode)
  drain_move r x y c mode some_in all here held' (leave_last {e} last) =
      emptied r i mode last below (moved (at e closing) ∙ ap (λ e. at e closing) here) (
        others n local i (Drained r) (at e closing) (λ j ne inside.
          Draining-Drained r (local j) (all j inside) (
            counted_after (at e closing) j false ne
              (count-none counted n (update local i (at e closing)) j (sym held' ∙ last) inside))))
  drain_move r x y c mode some_in all here held' (leave_other {e} more) =
      draining r mode (ground arith)
        (everyone n local i (Draining r) (at e awaiting_enter) here (λ j ne. all j))
  drain_move r x y c mode some_in all here held' set_enter = elim here [ ]
  drain_move r x y c mode some_in all here held' (see_enter seen) = cc
  drain_move r x y c mode some_in all here held' (pause_leave {e} unseen) =
      draining r mode some_in
        (everyone n local i (Draining r) (at e awaiting_enter) here (λ j ne. all j))

  -- The thread that stores `enter`
  pub closer_move :
      (r : ℕ) (x y : Local) (c : Barrier)
      → b.step ≡ 0
      → ((j : ℕ) → j ≢ i → j < n → Drained r (local j))
      → x ≡ at (suc r) closing
      → Move n b x c y
      → Phase n (after c y)
  closer_move r x y c empty all is_x (enter_last last) = cc
  closer_move r x y c empty all is_x (enter_other more) = cc
  closer_move r x y c empty all is_x set_leave = cc
  closer_move r x y c empty all is_x (see_leave seen) = cc
  closer_move r x y c empty all is_x (pause_enter unseen) = cc
  closer_move r x y c empty all is_x (leave_last last) = cc
  closer_move r x y c empty all is_x (leave_other more) = cc
  closer_move r x y c empty all is_x (set_enter {e}) = filling (suc r) refl (omega arith) (
      everyone n local i (Filling (suc r)) (at e outside) (ap entered is_x)
        (λ j ne inside. Drained-Filling r (local j) (all j ne inside)))
  closer_move r x y c empty all is_x (see_enter seen) = cc
  closer_move r x y c empty all is_x (pause_leave unseen) = cc

  pub rest_move :
      (r o : ℕ) (x y : Local) (c : Barrier)
      → b.mode ≡ leave
      → b.step ≡ 0
      → o < n
      → o ≢ i
      → local o ≡ at (suc r) closing
      → ((j : ℕ) → j ≢ o → j < n → Drained r (local j))
      → Drained r x
      → Move n b x c y
      → Phase n (after c y)
  rest_move r o x y c mode empty inside ne closer all here (enter_last last) = elim here [ ]
  rest_move r o x y c mode empty inside ne closer all here (enter_other more) = elim here [ ]
  rest_move r o x y c mode empty inside ne closer all here set_leave = elim here [ ]
  rest_move r o x y c mode empty inside ne closer all here (see_leave seen) = elim here [ ]
  rest_move r o x y c mode empty inside ne closer all here (pause_enter unseen) = elim here [ ]
  rest_move r o x y c mode empty inside ne closer all here (leave_last last) = elim here [ ]
  rest_move r o x y c mode empty inside ne closer all here (leave_other more) = elim here [ ]
  rest_move r o x y c mode empty inside ne closer all here set_enter = elim here [ ]
  rest_move r o x y c mode empty inside ne closer all here (see_enter seen) = cc
  rest_move r o x y c mode empty inside ne closer all here (pause_leave {e} unseen) =
      let same : update local i (at e awaiting_enter) o ≡ local o = ground arith in
      emptied r o mode empty inside (same ∙ closer)
        (update_ind (λ j x. j ≢ o → j < n → Drained r x) local i (λ _ _. here) (λ j _. all j))
