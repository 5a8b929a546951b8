-- ===== src/Grading/Barrier/Rounds.antt =====
-- The barrier of grading/common.hpp, after any number of moves.
use cs453_concurrent_algorit.Base.{
  ℕ, ◌+◌, ◌<◌, ◌≤◌, ◌≡◌, ◌≢◌, refl, sym, ap, ◌∙◌, subst, update, ◌==◌, Bool-cases, inl, inr, arith,
}
use cs453_concurrent_algorit.Base.Word.{word_limit}
use cs453_concurrent_algorit.Grading.Barrier.{
  Barrier, Local, at, outside, Move, enter_last, enter_other, set_leave, see_leave, pause_enter,
  leave_last, leave_other, set_enter, see_enter, pause_leave, System, pick, Reach, initial, later,
}
use cs453_concurrent_algorit.Grading.Barrier.Counting.{counted}
use cs453_concurrent_algorit.Grading.Counting.{
  count-bound, count-positive, count-zero, one_if, count, count-moved,
}
use cs453_concurrent_algorit.Grading.Barrier.Phases.{
  Filling, Waiting, Draining, Drained, Phase, filling, opened, draining, emptied, Invariant,
}
use cs453_concurrent_algorit.Grading.Barrier.Moves.{
  fill_move, opener_move, waiter_move, drain_move, closer_move, rest_move,
}

module _ (n : ℕ) (small : n < word_limit) where
  -- The counter follows the threads that it counts.
  held_move :
      (b c : Barrier) (x y : Local) (before now : ℕ)
      → b.step ≡ before
      → now + one_if (counted x) ≡ before + one_if (counted y)
      → now ≤ n
      → Move n b x c y
      → c.step ≡ now
  held_move b c x y before now held k few (enter_last last) = omega arith
  held_move b c x y before now held k few (enter_other more) = omega arith
  held_move b c x y before now held k few set_leave = omega arith
  held_move b c x y before now held k few (see_leave seen) = omega arith
  held_move b c x y before now held k few (pause_enter unseen) = omega arith
  held_move b c x y before now held k few (leave_last last) = omega arith
  held_move b c x y before now held k few (leave_other more) = omega arith
  held_move b c x y before now held k few set_enter = omega arith
  held_move b c x y before now held k few (see_enter seen) = omega arith
  held_move b c x y before now held k few (pause_leave unseen) = omega arith

  held_after :
      (b c : Barrier) (local : ℕ → Local) (i : ℕ) (x y : Local)
      → i < n
      → local i ≡ x
      → b.step ≡ count counted n local
      → Move n b x c y
      → c.step ≡ count counted n (update local i y)
  held_after b c local i x y below is_x held move =
      held_move b c x y (count counted n local) (count counted n (update local i y)) held
        (count-moved counted n local i x y below (sym is_x))
        (count-bound counted n (update local i y)) move

  move-Phase :
      (s : System) (i : ℕ) (x y : Local) (c : Barrier)
      → i < n
      → s.local i ≡ x
      → Phase n s
      → s.shared.step ≡ count counted n s.local
      → c.step ≡ count counted n (update s.local i y)
      → Move n s.shared x c y
      → Phase n (record { shared = c; local = update s.local i y })
  move-Phase s i x y c below is_x (filling r mode few all) held held' move =
      fill_move n small s.shared s.local i below r x y c mode few all
        (subst (Filling r) is_x (all i below)) held' move
  move-Phase s i x y c below is_x (opened r o mode inside opener all) held held' move =
      elim (Bool-cases (o == i)) [
        | inl e ↦
            let same : o ≡ i = ground arith in
            opener_move n small s.shared s.local i below r x y c
              (subst (λ k. 0 < k) (sym held)
                (count-positive counted n s.local o (ap counted opener) inside))
              (subst (λ o. (j : ℕ) → j ≢ o → j < n → Waiting r (s.local j)) same all)
              (sym is_x ∙ ap s.local (sym same) ∙ opener) move
        | inr e ↦
            waiter_move n small s.shared s.local i below r o x y c mode inside (ground arith) opener
              all (subst (Waiting r) is_x (all i (ground arith) below)) move
      ]
  move-Phase s i x y c below is_x (draining r mode some_in all) held held' move =
      drain_move n small s.shared s.local i below r x y c mode some_in all
        (subst (Draining r) is_x (all i below)) held' move
  move-Phase s i x y c below is_x (emptied r o mode empty inside closer all) held held' move =
      elim (Bool-cases (o == i)) [
        | inl e ↦
            let same : o ≡ i = ground arith in
            closer_move n small s.shared s.local i below r x y c empty
              (subst (λ o. (j : ℕ) → j ≢ o → j < n → Drained r (s.local j)) same all)
              (sym is_x ∙ ap s.local (sym same) ∙ closer) move
        | inr e ↦
            rest_move n small s.shared s.local i below r o x y c mode empty inside (ground arith)
              closer all (subst (Drained r) is_x (all i (ground arith) below)) move
      ]

  pub Reach-Invariant : (s : System) → 0 < n → Reach n s → Invariant n s
  Reach-Invariant s some_thread initial = record {
    held = sym (count-zero counted n (λ _. at 0 outside) (λ j inside. refl));
    phase = filling 0 refl some_thread (λ j inside. refl);
  }
  Reach-Invariant s some_thread (later {s = before} reached (pick i {b = c} {y = y} below move)) =
      let inv : Invariant n before = Reach-Invariant before some_thread reached in
      let held' : c.step ≡ count counted n (update before.local i y) =
        held_after before.shared c before.local i (before.local i) y below refl inv.held move in
      record {
        held = held';
        phase = move-Phase before i (before.local i) y c below refl inv.phase inv.held held' move;
      }
