-- ===== src/Grading/Sync/Run.antt =====
-- The moves of the workers of grading/grading.cpp in a round, by where the round stands.
use cs453_concurrent_algorit.Base.{
  ℕ, suc, ◌^◌, ◌<◌, ◌≡◌, ◌≢◌, inl, inr, refl, sym, ap, subst, true, false, Option, some, List,
  update, update_ind, arith,
}
use cs453_concurrent_algorit.Grading.Counting.{everyone, others, moved, count, count-moved}
use cs453_concurrent_algorit.Grading.Latch.{raise}
use cs453_concurrent_algorit.Grading.Sync.{
  Status, Message, internal, Sync, verdict, polling, spinning, passed, working, notifying,
  reporting, aborting, finishing, judging, ending, raising, Local, at, Move, see_wait, see_quit,
  pause_wait, see_run, pause_run, begin_test, unexpected, succeed, return_error, throw, store_error,
  store_abort, finish_last, finish_other, clear_ready, judge, store_end, raise_latch, Master,
  waiting, overrun, System, after_notify,
}
use cs453_concurrent_algorit.Grading.Sync.Places.{
  Idle, Running, Closer, success, failure, Active, Verdict, is_idle, is_pending, Closer-Awake,
}
use cs453_concurrent_algorit.Grading.Sync.Phases.{
  Awaiting, Resting, Progress, unseen, seen, Phase, settled, running, closing,
}
use cs453_concurrent_algorit.Grading.Sync.Finish.{
  Running-grows, Progress-cases, run_on, run_fail, run_last, run_other, after_notify-Idle,
  after_notify-Running, after_notify-idle, after_notify-pending,
}

module _ (n : ℕ) (small : n < 2 ^ 32) (s : Sync) (local : ℕ → Local) (m : Master) (i : ℕ)
    (below : i < n) where
  abbrev after : Sync → Local → System
  after c y = record { sync = c; local = update local i y; master = m }

  Awaiting-Resting :
      (l : ℕ) (m : Master)
      → Awaiting l s.donelatch.raised m
      → Resting l (record s { donelatch = raise s.donelatch }) m
  Awaiting-Resting l (waiting k) h = (h.0, refl)
  Awaiting-Resting l overrun h = tt
  Awaiting-Resting l m h = elim h [ ]

  Active-Verdict :
      {e : Option Message} {fs : List Message} {st : Status}
      → Active e fs st
      → Verdict e fs (verdict st)
  Active-Verdict (success status clean) = success (ap verdict status) clean
  Active-Verdict (failure status told) = failure (ap verdict status) told

  pub run_move :
      (l : ℕ) (x y : Local) (c : Sync)
      → Progress n s local
      → s.nbready ≡ count is_idle n local
      → s.nbready < n
      → Awaiting l s.donelatch.raised m
      → ((j : ℕ) → j < n → Running l s.errmsg s.failures (local j))
      → x ≡ local i
      → Running l s.errmsg s.failures x
      → Move n s x c y
      → Phase n (after c y)
  run_move l x y c p ready few master all is_x here (see_wait seen_wait) =
      elim (Progress-cases n small s local m i below p) [ inl same ↦ cc | inr same ↦ cc ]
  run_move l x y c p ready few master all is_x here (see_quit seen_quit) =
      elim (Progress-cases n small s local m i below p) [ inl same ↦ cc | inr same ↦ cc ]
  run_move l x y c p ready few master all is_x here (pause_wait {k} no_wait no_quit) =
      run_on n small s local m i below l (at k polling) (at k polling) p ready few master all is_x
        refl refl here
  run_move l x y c p ready few master all is_x here (see_run {k} seen_run) =
      run_on n small s local m i below l (at k spinning) (at k passed) p ready few master all is_x
        refl refl here
  run_move l x y c p ready few master all is_x here (pause_run {k} no_run no_abort) =
      run_on n small s local m i below l (at k spinning) (at k spinning) p ready few master all is_x
        refl refl here
  run_move l x y c p ready few master all is_x here (begin_test {k}) =
      run_on n small s local m i below l (at (suc k) passed) (at k working) p ready few master all
        is_x refl refl (omega arith)
  run_move l x y c p ready few master all is_x here unexpected = absurd (omega arith)
  run_move l x y c p ready few master all is_x here (succeed {k}) =
      run_on n small s local m i below l (at k working) (at k (notifying false finishing)) p ready
        few master all is_x refl refl (here, λ no. cc, tt)
  run_move l x y c p ready few master all is_x here (return_error {k} e) =
      run_fail n small s local m i below l k false e p ready few master all is_x here
  run_move l x y c p ready few master all is_x here (throw {k}) =
      run_fail n small s local m i below l k true internal p ready few master all is_x here
  run_move l x y c p ready few master all is_x here (store_error {k} {leaves} e) =
      running l
        (elim p [
          | unseen status same ↦ unseen status (
              omega (
                arith,
                count-moved is_pending n local i (at k (notifying leaves (reporting e)))
                    (at k (notifying leaves aborting)) below is_x,
              ))
          | seen status told ↦ seen status here.2
        ])
        (omega (
          arith,
          count-moved is_idle n local i (at k (notifying leaves (reporting e)))
              (at k (notifying leaves aborting)) below is_x,
        ))
        few master
        (everyone n local i (Running l (some e) s.failures) (at k (notifying leaves aborting)) here
          (λ j ne inside.
            Running-grows s.errmsg s.failures (some e) s.failures (λ m h. h) (λ told. here.2) l
              (local j) (all j inside)))
  run_move l x y c p ready few master all is_x here (store_abort {k} {leaves}) =
      running l (seen refl here.2)
        (omega (
          arith,
          count-moved is_idle n local i (at k (notifying leaves aborting))
              (at k (notifying leaves finishing)) below is_x,
        ))
        few master
        (everyone n local i (Running l s.errmsg s.failures) (at k (notifying leaves finishing))
          (here.0, here.1, tt) (λ j ne. all j))
  run_move l x y c p ready few master all is_x here (finish_last {k} {leaves} last) =
      run_last n small s local m i below l k leaves p ready few master all is_x here last
  run_move l x y c p ready few master all is_x here (finish_other {k} {leaves} more) =
      run_other n small s local m i below l (at k (notifying leaves finishing))
        (at k (after_notify leaves)) p ready few master all is_x
        (sym (after_notify-pending l k s.errmsg s.failures leaves)) refl
        (after_notify-idle l k s.errmsg s.failures leaves)
        (after_notify-Running l k s.errmsg s.failures leaves here.0 here.1) more
  run_move l x y c p ready few master all is_x here (clear_ready {k} {leaves}) = elim here.2 [ ]
  run_move l x y c p ready few master all is_x here (judge {k} {leaves}) = elim here.2 [ ]
  run_move l x y c p ready few master all is_x here (store_end {k} {leaves} e) = elim here.2 [ ]
  run_move l x y c p ready few master all is_x here (raise_latch {k} {leaves}) = elim here.2 [ ]
  run_move l x y c p ready few master all is_x here move = elim here [ ]

  -- The last worker
  pub closer_move :
      (l : ℕ) (x y : Local) (c : Sync)
      → Awaiting l s.donelatch.raised m
      → ((j : ℕ) → j ≢ i → j < n → Idle l s.failures (local j))
      → Closer l s x
      → Move n s x c y
      → Phase n (after c y)
  closer_move l x y c master all here (clear_ready {k} {leaves}) =
      closing l i master below
        (subst (Closer l (record s { nbready = 0 }))
          (sym (moved n local i (at k (notifying leaves judging))))
          (here.0, here.1, (here.2, refl)))
        (others n local i (Idle l s.failures) (at k (notifying leaves judging)) all)
  closer_move l x y c master all here (judge {k} {leaves}) =
      closing l i master below
        (subst (Closer l s)
          (sym (moved n local i (at k (notifying leaves (ending (verdict s.status))))))
          (here.0, here.1, (Active-Verdict here.2.0, here.2.1, here.2.0)))
        (others n local i (Idle l s.failures) (at k (notifying leaves (ending (verdict s.status))))
          all)
  closer_move l x y c master all here (store_end {k} {leaves} e) =
      closing l i master below
        (subst (Closer l (record s { status = e }))
          (sym (moved n local i (at k (notifying leaves raising))))
          (here.0, here.1, (here.2.0, here.2.1)))
        (others n local i (Idle l s.failures) (at k (notifying leaves raising)) all)
  closer_move l x y c master all here (raise_latch {k} {leaves}) =
      settled l here.2.1 here.2.0 (Awaiting-Resting l m master) (
        everyone n local i (Idle l s.failures) (at k (after_notify leaves))
          (after_notify-Idle l k s.errmsg s.failures leaves here.0 here.1) all)
  closer_move l x y c master all here (store_error e) = elim here.2 [ ]
  closer_move l x y c master all here store_abort = elim here.2 [ ]
  closer_move l x y c master all here (finish_last last) = elim here.2 [ ]
  closer_move l x y c master all here (finish_other more) = elim here.2 [ ]
  closer_move l x y c master all here move = elim here [ ]

  -- Another one, meanwhile
  pub idle_move :
      (l o : ℕ) (x y : Local) (c : Sync)
      → Awaiting l s.donelatch.raised m
      → o < n
      → o ≢ i
      → Closer l s (local o)
      → ((j : ℕ) → j ≢ o → j < n → Idle l s.failures (local j))
      → Idle l s.failures x
      → Move n s x c y
      → Phase n (after c y)
  idle_move l o x y c master inside ne closer all here (see_wait seen_wait) =
      absurd ((Closer-Awake l s (local o) closer).0 seen_wait)
  idle_move l o x y c master inside ne closer all here (see_quit seen_quit) =
      absurd ((Closer-Awake l s (local o) closer).1 seen_quit)
  idle_move l o x y c master inside ne closer all here (pause_wait {k} no_wait no_quit) =
      let same : update local i (at k polling) o ≡ local o = ground arith in
      closing l o master inside (subst (Closer l s) (sym same) closer) (
        update_ind (λ j x. j ≢ o → j < n → Idle l s.failures x) local i (λ _ _. here)
          (λ j _. all j))
  idle_move l o x y c master inside ne closer all here move = elim here [ ]
