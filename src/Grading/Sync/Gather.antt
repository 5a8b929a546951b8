-- ===== src/Grading/Sync/Gather.antt =====
-- The moves of the workers of grading/grading.cpp between two rounds and in worker_wait.
use cs453_concurrent_algorit.Base.{
  ℕ, suc, ◌^◌, ◌<◌, ◌≡◌, ◌≢◌, inl, inr, refl, sym, ap, ◌∙◌, subst, Bool, true, false, [], update,
  update_ind, arith,
}
use cs453_concurrent_algorit.Grading.Counting.{
  everyone, others, moved, count, count-moved, count-others, count-zero,
}
use cs453_concurrent_algorit.Grading.Sync.{
  wait, quit, Sync, add32, polling, arriving, resetting, starting, spinning, passed, stopped, Local,
  at, Move, see_wait, see_quit, pause_wait, arrive_last, arrive_other, reset_ready, start_run,
  see_run, pause_run, Master, joining, returned, System, Stopped,
}
use cs453_concurrent_algorit.Grading.Sync.Places.{
  Idle, Gathering, Opener, Spinning, Running, Verdict, is_spinning, is_idle, is_pending, number,
  Quitting, Verdict-Awake,
}
use cs453_concurrent_algorit.Grading.Sync.Phases.{
  Awaiting, Resting, unseen, Joining, Phase, settled, gathering, opening, running, quitting,
}

Gathering-Spinning : (l : ℕ) (x : Local) → Gathering l x → is_spinning x ≡ true → Spinning l x
Gathering-Spinning l (at k spinning) h e = ap (λ k. at k spinning) h
Gathering-Spinning l (at k polling) h e = cc
Gathering-Spinning l (at k arriving) h e = cc
Gathering-Spinning l x h e = elim h [ ]

module _ (n : ℕ) (small : n < 2 ^ 32) (s : Sync) (local : ℕ → Local) (m : Master) (i : ℕ)
    (below : i < n) where
  abbrev after : Sync → Local → System
  after c y = record { sync = c; local = update local i y; master = m }

  Joining-stopped :
      (l k : ℕ) (m : Master)
      → Joining n l s.failures local m
      → Joining n l s.failures (update local i (at k stopped)) m
  Joining-stopped l k (joining e) h = h
  Joining-stopped l k (returned e) h =
      (h.0, everyone n local i Stopped (at k stopped) (k, refl) (λ j ne. h.1 j))
  Joining-stopped l k m h = elim h [ ]

  -- Between two rounds
  pub settled_move :
      (l : ℕ) (x y : Local) (c : Sync)
      → s.nbready ≡ 0
      → Verdict s.errmsg s.failures s.status
      → Resting l s m
      → ((j : ℕ) → j < n → Idle l s.failures (local j))
      → Idle l s.failures x
      → Move n s x c y
      → Phase n (after c y)
  settled_move l x y c none v rest all here (see_wait seen_wait) =
      absurd ((Verdict-Awake v).0 seen_wait)
  settled_move l x y c none v rest all here (see_quit seen_quit) =
      absurd ((Verdict-Awake v).1 seen_quit)
  settled_move l x y c none v rest all here (pause_wait {k} no_wait no_quit) =
      settled l none v rest
        (everyone n local i (Idle l s.failures) (at k polling) here (λ j ne. all j))
  settled_move l x y c none v rest all here move = elim here [ ]

  -- Before the last worker has come
  pub gather_move :
      (l : ℕ) (x y : Local) (c : Sync)
      → s.status ≡ wait
      → s.failures ≡ []
      → s.nbready ≡ count is_spinning n local
      → s.nbready < n
      → Awaiting l s.donelatch.raised m
      → ((j : ℕ) → j < n → Gathering l (local j))
      → x ≡ local i
      → Gathering l x
      → Move n s x c y
      → Phase n (after c y)
  gather_move l x y c status clean ready few master all is_x here (see_wait {k} seen_wait) =
      gathering l status clean
        (omega (arith, count-moved is_spinning n local i (at k polling) (at k arriving) below is_x))
        few master (everyone n local i (Gathering l) (at k arriving) here (λ j ne. all j))
  gather_move l x y c status clean ready few master all is_x here (see_quit seen_quit) = cc
  gather_move l x y c status clean ready few master all is_x here (pause_wait no_wait no_quit) =
      absurd (no_wait status)
  gather_move l x y c status clean ready few master all is_x here (arrive_last {k} last) =
      opening l i status clean master below
        (subst (Opener l (add32 s.nbready 1)) (sym (moved n local i (at k resetting))) here)
        (others n local i (Spinning l) (at k resetting) (λ j ne inside.
          Gathering-Spinning l (local j) (all j inside) (
            count-others is_spinning n local i (at k spinning) (omega arith) below
              (ap is_spinning (sym is_x)) refl j ne inside)))
  gather_move l x y c status clean ready few master all is_x here (arrive_other {k} more) =
      gathering l status clean
        (omega
          (arith, count-moved is_spinning n local i (at k arriving) (at k spinning) below is_x))
        (omega arith) master (everyone n local i (Gathering l) (at k spinning) here (λ j ne. all j))
  gather_move l x y c status clean ready few master all is_x here (see_run {k} (inl seen_run)) = cc
  gather_move l x y c status clean ready few master all is_x here (see_run {k} (inr seen_run)) = cc
  gather_move l x y c status clean ready few master all is_x here (pause_run {k} no_run no_abort) =
      gathering l status clean
        (omega
          (arith, count-moved is_spinning n local i (at k spinning) (at k spinning) below is_x))
        few master (everyone n local i (Gathering l) (at k spinning) here (λ j ne. all j))
  gather_move l x y c status clean ready few master all is_x here move = elim here [ ]

  -- The last worker that has come
  pub opener_move :
      (l : ℕ) (x y : Local) (c : Sync)
      → s.status ≡ wait
      → s.failures ≡ []
      → Awaiting l s.donelatch.raised m
      → ((j : ℕ) → j ≢ i → j < n → Spinning l (local j))
      → Opener l s.nbready x
      → Move n s x c y
      → Phase n (after c y)
  opener_move l x y c status clean master all here (reset_ready {k}) =
      opening l i status clean master below
        (subst (Opener l 0) (sym (moved n local i (at k starting))) (here, refl))
        (others n local i (Spinning l) (at k starting) all)
  opener_move l x y c status clean master all here (start_run {k}) =
      let nobody : (test : Local → Bool)
          → test (at k passed) ≡ false
          → ((x : Local) → x ≡ at (suc l) spinning → test x ≡ false)
          → count test n (update local i (at k passed)) ≡ 0 =
        λ test here there. count-zero test n (update local i (at k passed)) (
          everyone n local i (λ x. test x ≡ false) (at k passed) here
            (λ j ne inside. there (local j) (all j ne inside))) in
      running l
        (unseen refl (ap number clean ∙ sym (nobody is_pending refl (λ x e. ap is_pending e))))
        (here.1 ∙ sym (nobody is_idle refl (λ x e. ap is_idle e))) (omega arith) master
        (everyone n local i (Running l s.errmsg s.failures) (at k passed) here.0
          (λ j ne inside. subst (Running l s.errmsg s.failures) (sym (all j ne inside)) refl))
  opener_move l x y c status clean master all here move = elim here [ ]

  -- Another one, meanwhile
  pub spinner_move :
      (l o : ℕ) (x y : Local) (c : Sync)
      → s.status ≡ wait
      → s.failures ≡ []
      → Awaiting l s.donelatch.raised m
      → o < n
      → o ≢ i
      → Opener l s.nbready (local o)
      → ((j : ℕ) → j ≢ o → j < n → Spinning l (local j))
      → Spinning l x
      → Move n s x c y
      → Phase n (after c y)
  spinner_move l o x y c status clean master inside ne opener all here (see_run (inl seen_run)) = cc
  spinner_move l o x y c status clean master inside ne opener all here (see_run (inr seen_run)) = cc
  spinner_move l o x y c status clean master inside ne opener all here
        (pause_run {k} no_run no_abort) =
      let same : update local i (at k spinning) o ≡ local o = ground arith in
      opening l o status clean master inside (subst (Opener l s.nbready) (sym same) opener)
        (update_ind (λ j x. j ≢ o → j < n → Spinning l x) local i (λ _ _. here) (λ j _. all j))
  spinner_move l o x y c status clean master inside ne opener all here move = cc

  -- After master_join
  pub quit_move :
      (l : ℕ) (x y : Local) (c : Sync)
      → s.status ≡ quit
      → Joining n l s.failures local m
      → ((j : ℕ) → j < n → Quitting l (local j))
      → x ≡ local i
      → Quitting l x
      → Move n s x c y
      → Phase n (after c y)
  quit_move l x y c status master all is_x here (see_wait seen_wait) = cc
  quit_move l x y c status master all is_x here (see_quit {k} seen_quit) =
      quitting l status (Joining-stopped l k m master)
        (everyone n local i (Quitting l) (at k stopped) here (λ j ne. all j))
  quit_move l x y c status master all is_x here (pause_wait no_wait no_quit) =
      absurd (no_quit status)
  quit_move l x y c status master all is_x here move = elim here [ ]
