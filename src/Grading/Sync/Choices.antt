-- ===== src/Grading/Sync/Choices.antt =====
-- The steps of a worker of grading/grading.cpp that are not pauses, by where it stands.
use cs453_concurrent_algorit.Base.{
  ℕ, zero, suc, ◌≡◌, ◌≢◌, ◌⊎◌, inl, inr, Bool, true, false, ◌==◌, Bool-cases, arith,
}
use cs453_concurrent_algorit.Grading.Sync.{
  Sync, add32, wait, run, abort, polling, arriving, resetting, starting, spinning, passed, working,
  notifying, stopped, Stage, reporting, aborting, finishing, clearing, judging, ending, raising,
  after_notify, Local, at, Move, see_wait, arrive_last, arrive_other, reset_ready, start_run,
  see_run, begin_test, succeed, store_error, store_abort, finish_last, finish_other, clear_ready,
  judge, store_end, raise_latch,
}
use cs453_concurrent_algorit.Grading.Sync.Places.{
  Gathering, Opener, Running, Closer, is_spinning, is_idle,
}

module _ (n : ℕ) where
  -- A worker at `x` has a step that is not a pause.
  pub data Goes (s : Sync) (x : Local) : Type 0 where
    goes : (c : Sync) (y : Local) → Move n s x c y → y ≢ x → Goes s x

  pub Gathering-Goes :
      (l : ℕ) (s : Sync) (x : Local)
      → s.status ≡ wait
      → Gathering l x
      → is_spinning x ≡ false
      → Goes s x
  Gathering-Goes l s (at k polling) status h e = goes _ _ (see_wait status) (λ same. cc)
  Gathering-Goes l s (at k arriving) status h e = elim (Bool-cases (add32 s.nbready 1 == n)) [
    | inl last ↦ goes _ _ (arrive_last (ground arith)) (λ same. cc)
    | inr more ↦ goes _ _ (arrive_other (ground arith)) (λ same. cc)
  ]
  Gathering-Goes l s (at k spinning) status h e = cc
  Gathering-Goes l s x status h e = elim h [ ]

  pub Opener-Goes : (l : ℕ) (s : Sync) (x : Local) → Opener l s.nbready x → Goes s x
  Opener-Goes l s (at k resetting) h = goes _ _ reset_ready (λ same. cc)
  Opener-Goes l s (at k starting) h = goes _ _ start_run (λ same. cc)
  Opener-Goes l s x h = elim h [ ]

  after_notify-stays :
      (leaves : Bool) (k : ℕ) (x : Stage) → at k (after_notify leaves) ≢ at k (notifying leaves x)
  after_notify-stays true k x same = cc
  after_notify-stays false k x same = cc

  notifying-Goes :
      (s : Sync) (k : ℕ) (leaves : Bool) (x : Stage) → Goes s (at k (notifying leaves x))
  notifying-Goes s k leaves (reporting m) = goes _ _ (store_error m) (λ same. cc)
  notifying-Goes s k leaves aborting = goes _ _ store_abort (λ same. cc)
  notifying-Goes s k leaves finishing = elim (Bool-cases (add32 s.nbready 1 == n)) [
    | inl last ↦ goes _ _ (finish_last (ground arith)) (λ same. cc)
    | inr more ↦ goes _ _ (finish_other (ground arith)) (after_notify-stays leaves k finishing)
  ]
  notifying-Goes s k leaves clearing = goes _ _ clear_ready (λ same. cc)
  notifying-Goes s k leaves judging = goes _ _ judge (λ same. cc)
  notifying-Goes s k leaves (ending e) = goes _ _ (store_end e) (λ same. cc)
  notifying-Goes s k leaves raising = goes _ _ raise_latch (after_notify-stays leaves k raising)

  pub Running-Goes :
      (l : ℕ) (s : Sync) (x : Local)
      → (s.status ≡ run) ⊎ (s.status ≡ abort)
      → Running l s.errmsg s.failures x
      → is_idle x ≡ false
      → Goes s x
  Running-Goes l s (at k spinning) active h e = goes _ _ (see_run active) (λ same. cc)
  Running-Goes l s (at zero passed) active h e = absurd (omega arith)
  Running-Goes l s (at (suc k) passed) active h e = goes _ _ begin_test (λ same. cc)
  Running-Goes l s (at k working) active h e = goes _ _ succeed (λ same. cc)
  Running-Goes l s (at k (notifying leaves stage)) active h e = notifying-Goes s k leaves stage
  Running-Goes l s (at k polling) active h e = cc
  Running-Goes l s (at k stopped) active h e = cc
  Running-Goes l s x active h e = elim h [ ]

  pub Closer-Goes : (l : ℕ) (s : Sync) (x : Local) → Closer l s x → Goes s x
  Closer-Goes l s (at k (notifying leaves stage)) h = notifying-Goes s k leaves stage
  Closer-Goes l s x h = elim h [ ]
