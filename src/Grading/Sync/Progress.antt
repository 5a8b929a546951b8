-- ===== src/Grading/Sync/Progress.antt =====
-- The workers and the master of grading/grading.cpp do not block each other.
use cs453_concurrent_algorit.Base.{
  ℕ, zero, suc, ◌^◌, ◌<◌, ◌≡◌, ◌≢◌, ◌⊎◌, inl, inr, refl, subst, Bool, true, false, Option, ltb,
  Bool-cases, arith,
}
use cs453_concurrent_algorit.Grading.Counting.{count, count-bound, count-full, count-missing}
use cs453_concurrent_algorit.Grading.Latch.{reset}
use cs453_concurrent_algorit.Grading.Sync.{
  Message, Sync, run, abort, quit, polling, arriving, resetting, starting, spinning, passed,
  working, notifying, stopped, Local, at, Move, see_quit, Master, ready, waiting, loading, failing,
  failed, joining, returned, overrun, unreachable, MasterMove, notify, wake, read_done, read_fail,
  read_error, join_success, join_failure, System, Stopped, Reach,
}
use cs453_concurrent_algorit.Grading.Sync.Places.{
  Quitting, Verdict, success, failure, is_spinning, is_idle,
}
use cs453_concurrent_algorit.Grading.Sync.Phases.{
  Resting, Joining, Progress, unseen, seen, Phase, settled, gathering, opening, running, closing,
  quitting,
}
use cs453_concurrent_algorit.Grading.Sync.Choices.{
  Goes, goes, Gathering-Goes, Opener-Goes, Running-Goes, Closer-Goes,
}
use cs453_concurrent_algorit.Grading.Sync.Rounds.{Reach-Phase}

-- The master has given up or returned.
abbrev pub Over : Master → Type 0
Over (ready k) = ⊥
Over (waiting k) = ⊥
Over (loading k) = ⊥
Over (failing k) = ⊥
Over (failed e) = ⊥
Over (joining e) = ⊥
Over (returned e) = Unit
Over overrun = Unit
Over unreachable = ⊥

-- A thread has a step that is neither a pause in a loop nor the end of a bounded wait.
pub data Advances (n : ℕ) (s : System) : Type 0 where
  worker_goes :
      (i : ℕ) (c : Sync) (y : Local)
      → i < n
      → Move n s.sync (s.local i) c y
      → y ≢ s.local i
      → Advances n s
  master_goes :
      (c : Sync) (m : Master) → MasterMove s.sync s.master c m → m ≢ overrun → Advances n s
  joins :
      (e : Option Message)
      → s.master ≡ joining e
      → ((j : ℕ) → j < n → Stopped (s.local j))
      → Advances n s

abbrev is_stopped : Local → Bool
is_stopped (at k polling) = false
is_stopped (at k arriving) = false
is_stopped (at k resetting) = false
is_stopped (at k starting) = false
is_stopped (at k spinning) = false
is_stopped (at k passed) = false
is_stopped (at k working) = false
is_stopped (at k (notifying leaves stage)) = false
is_stopped (at k stopped) = true

Quitting-Stopped : (l : ℕ) (x : Local) → Quitting l x → is_stopped x ≡ true → Stopped x
Quitting-Stopped l (at k stopped) h e = (k, refl)
Quitting-Stopped l (at k polling) h e = cc
Quitting-Stopped l x h e = elim h [ ]

module _ (n : ℕ) where
  advance : (s : System) (i : ℕ) → i < n → Goes n s.sync (s.local i) → Advances n s
  advance s i below (goes c y move differs) = worker_goes i c y below move differs

  Quitting-Goes :
      (l : ℕ) (s : Sync) (x : Local)
      → s.status ≡ quit
      → Quitting l x
      → is_stopped x ≡ false
      → Goes n s x
  Quitting-Goes l s (at k polling) status h e = goes _ _ (see_quit status) (λ same. cc)
  Quitting-Goes l s (at k stopped) status h e = cc
  Quitting-Goes l s x status h e = elim h [ ]

  -- The master between two rounds
  Resting-Advances :
      (l : ℕ) (s : Sync) (local : ℕ → Local) (m : Master)
      → Verdict s.errmsg s.failures s.status
      → Resting l s m
      → Advances n (record { sync = s; local = local; master = m }) ⊎ Over m
  Resting-Advances l s local (ready zero) v h = inl (master_goes _ _ join_success (λ same. cc))
  Resting-Advances l s local (ready (suc k)) v h = inl (master_goes _ _ notify (λ same. cc))
  Resting-Advances l s local (waiting k) v h =
      inl (master_goes _ _ (wake {bounded = false} (reset h.1)) (λ same. cc))
  Resting-Advances l s local (loading k) (success status clean) h =
      inl (master_goes _ _ (read_done status) (λ same. cc))
  Resting-Advances l s local (loading k) (failure status told) h =
      inl (master_goes _ _ (read_fail status) (λ same. cc))
  Resting-Advances l s local (failing k) v h = inl (master_goes _ _ read_error (λ same. cc))
  Resting-Advances l s local (failed e) v h = inl (master_goes _ _ join_failure (λ same. cc))
  Resting-Advances l s local overrun v h = inr tt
  Resting-Advances l s local m v h = elim h [ ]

  Joining-Advances :
      (l : ℕ) (s : Sync) (local : ℕ → Local) (m : Master)
      → ((j : ℕ) → j < n → Stopped (local j))
      → Joining n l s.failures local m
      → Advances n (record { sync = s; local = local; master = m }) ⊎ Over m
  Joining-Advances l s local (joining e) ended h = inl (joins e refl ended)
  Joining-Advances l s local (returned e) ended h = inr tt
  Joining-Advances l s local m ended h = elim h [ ]

  Progress-active :
      (s : Sync) (local : ℕ → Local) → Progress n s local → (s.status ≡ run) ⊎ (s.status ≡ abort)
  Progress-active s local (unseen status same) = inl status
  Progress-active s local (seen status told) = inr status

  Phase-Advances : (s : System) → Phase n s → Advances n s ⊎ Over s.master
  Phase-Advances s (settled l held v rest all) = Resting-Advances l s.sync s.local s.master v rest
  Phase-Advances s (gathering l status clean held few master all) =
      let (i, below, free) = count-missing is_spinning n s.local (subst (λ k. k < n) held few) in
      inl (advance s i below (Gathering-Goes n l s.sync (s.local i) status (all i below) free))
  Phase-Advances s (opening l o status clean master below opener all) =
      inl (advance s o below (Opener-Goes n l s.sync (s.local o) opener))
  Phase-Advances s (running l progress held few master all) =
      let (i, below, busy) = count-missing is_idle n s.local (subst (λ k. k < n) held few) in
      inl (
        advance s i below (
          Running-Goes n l s.sync (s.local i) (Progress-active s.sync s.local progress)
            (all i below) busy))
  Phase-Advances s (closing l o master below closer all) =
      inl (advance s o below (Closer-Goes n l s.sync (s.local o) closer))
  Phase-Advances s (quitting l status rest all) =
      elim (Bool-cases (ltb (count is_stopped n s.local) n)) [
        | inl e ↦
            let (i, below, awake) = count-missing is_stopped n s.local (ground arith) in
            inl (advance s i below (Quitting-Goes l s.sync (s.local i) status (all i below) awake))
        | inr e ↦
            let full : count is_stopped n s.local ≡ n =
              ground (arith, count-bound is_stopped n s.local) in
            Joining-Advances l s.sync s.local s.master
              (λ j inside.
                Quitting-Stopped l (s.local j) (all j inside)
                  (count-full is_stopped n s.local j full inside))
              rest
      ]

-- However the threads are interleaved and whatever the tests answer, some thread can go on until measure
-- returns or the master gives up: a worker has a step that is not a pause, or the master has one that
-- does not give up, or all workers have ended and the master has joined them. Here there is at least
-- one worker, and fewer than 2 ^ 32.
pub measure-Advances :
    (n nbrepeats : ℕ) (s : System)
    → 0 < n
    → n < 2 ^ 32
    → Reach n nbrepeats s
    → Advances n s ⊎ Over s.master
measure-Advances n nbrepeats s some_worker small reached =
    Phase-Advances n s (Reach-Phase n nbrepeats s some_worker small reached)
