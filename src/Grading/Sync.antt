-- ===== src/Grading/Sync.antt =====
-- Class Sync of grading/grading.cpp and the threads of measure that use it: `nbworkers` workers and the
-- master, one access to a shared variable at a time, interleaved in any order.
--
-- What a test of the workload (init, run or check) answers is left open: any test can succeed, return a
-- message, or throw. `failures` is no part of the program: it lists the messages that tests have
-- returned, with the one that stands for an exception.
mod Places
mod Phases
mod Gather
mod Finish
mod Run
mod Rounds
mod Choices
pub mod Verdict
pub mod Unreachable
pub mod Together
pub mod Progress
pub mod Tests
use cs453_concurrent_algorit.Base.{
  ℕ, suc, ◌+◌, ◌%◌, ◌^◌, ◌<◌, ◌≡◌, ◌≢◌, ◌⊎◌, Bool, true, false, Option, none, some, List, [], ◌∷◌,
  update, if◌then◌else◌,
}
use cs453_concurrent_algorit.Grading.Latch.{Latch, lowered, raise, Wait}

pub data Status : Type 0 where
  wait : Status
  run : Status
  abort : Status
  done : Status
  fail : Status
  quit : Status

-- An error message: one of the workload's, or "Internal worker exception(s)"
pub data Message : Type 0 where
  said : ℕ → Message
  internal : Message

pub record Sync : Type 0 where
  pub nbready : ℕ
  pub status : Status
  pub errmsg : Option Message
  pub donelatch : Latch
  pub failures : List Message

-- The constructor
abbrev pub fresh : Sync
fresh = record { nbready = 0; status = done; errmsg = none; donelatch = lowered; failures = [] }

-- `unsigned int` wraps around.
abbrev pub add32 : ℕ → ℕ → ℕ
add32 a b = (a + b) % 2 ^ 32

-- The status that ends a round
abbrev pub verdict : Status → Status
verdict abort = fail
verdict wait = done
verdict run = done
verdict done = done
verdict fail = done
verdict quit = done

-- Where a worker stands in worker_notify: before the store of the message, of `abort`, the fetch_add,
-- the store of 0, the load of the status, the store of the new status, and the raise.
pub data Stage : Type 0 where
  reporting : Message → Stage
  aborting : Stage
  finishing : Stage
  clearing : Stage
  judging : Stage
  ending : Status → Stage
  raising : Stage

-- Where a worker stands: in the first loop of worker_wait, before the fetch_add, the store of 0, the
-- store of `run`, in the second loop, after worker_wait returned true, in a test, in worker_notify
-- (of which the thread `leaves`, or goes on to the next worker_wait), or at its end.
pub data Pc : Type 0 where
  polling : Pc
  arriving : Pc
  resetting : Pc
  starting : Pc
  spinning : Pc
  passed : Pc
  working : Pc
  notifying : (leaves : Bool) → Stage → Pc
  stopped : Pc

-- A worker with the number of tests that it has not begun
pub data Local : Type 0 where
  at : (left : ℕ) → Pc → Local

abbrev pub after_notify : Bool → Pc
after_notify leaves = if leaves then stopped else polling

-- One access of one worker
pub data Move (nbworkers : ℕ) (s : Sync) : Local → Sync → Local → Type 0 where
  see_wait : {k : ℕ} → s.status ≡ wait → Move nbworkers s (at k polling) s (at k arriving)
  see_quit : {k : ℕ} → s.status ≡ quit → Move nbworkers s (at k polling) s (at k stopped)
  pause_wait :
      {k : ℕ} → s.status ≢ wait → s.status ≢ quit → Move nbworkers s (at k polling) s (at k polling)
  arrive_last :
      {k : ℕ}
      → add32 s.nbready 1 ≡ nbworkers
      → Move nbworkers s (at k arriving) (record s { nbready = add32 s.nbready 1 }) (at k resetting)
  arrive_other :
      {k : ℕ}
      → add32 s.nbready 1 ≢ nbworkers
      → Move nbworkers s (at k arriving) (record s { nbready = add32 s.nbready 1 }) (at k spinning)
  reset_ready :
      {k : ℕ} → Move nbworkers s (at k resetting) (record s { nbready = 0 }) (at k starting)
  start_run : {k : ℕ} → Move nbworkers s (at k starting) (record s { status = run }) (at k passed)
  see_run :
      {k : ℕ}
      → (s.status ≡ run) ⊎ (s.status ≡ abort)
      → Move nbworkers s (at k spinning) s (at k passed)
  pause_run :
      {k : ℕ}
      → s.status ≢ run
      → s.status ≢ abort
      → Move nbworkers s (at k spinning) s (at k spinning)
  begin_test : {k : ℕ} → Move nbworkers s (at (suc k) passed) s (at k working)
  unexpected :
      Move nbworkers s
        (at 0 passed)
        (record s { failures = internal ∷ s.failures })
        (at 0 (notifying true (reporting internal)))
  succeed : {k : ℕ} → Move nbworkers s (at k working) s (at k (notifying false finishing))
  return_error :
      {k : ℕ} (m : Message)
      → Move nbworkers s
          (at k working)
          (record s { failures = m ∷ s.failures })
          (at k (notifying false (reporting m)))
  throw :
      {k : ℕ}
      → Move nbworkers s
          (at k working)
          (record s { failures = internal ∷ s.failures })
          (at k (notifying true (reporting internal)))
  store_error :
      {k : ℕ} {leaves : Bool} (m : Message)
      → Move nbworkers s
          (at k (notifying leaves (reporting m)))
          (record s { errmsg = some m })
          (at k (notifying leaves aborting))
  store_abort :
      {k : ℕ} {leaves : Bool}
      → Move nbworkers s
          (at k (notifying leaves aborting))
          (record s { status = abort })
          (at k (notifying leaves finishing))
  finish_last :
      {k : ℕ} {leaves : Bool}
      → add32 s.nbready 1 ≡ nbworkers
      → Move nbworkers s
          (at k (notifying leaves finishing))
          (record s { nbready = add32 s.nbready 1 })
          (at k (notifying leaves clearing))
  finish_other :
      {k : ℕ} {leaves : Bool}
      → add32 s.nbready 1 ≢ nbworkers
      → Move nbworkers s
          (at k (notifying leaves finishing))
          (record s { nbready = add32 s.nbready 1 })
          (at k (after_notify leaves))
  clear_ready :
      {k : ℕ} {leaves : Bool}
      → Move nbworkers s
          (at k (notifying leaves clearing))
          (record s { nbready = 0 })
          (at k (notifying leaves judging))
  judge :
      {k : ℕ} {leaves : Bool}
      → Move nbworkers s
          (at k (notifying leaves judging))
          s
          (at k (notifying leaves (ending (verdict s.status))))
  store_end :
      {k : ℕ} {leaves : Bool} (e : Status)
      → Move nbworkers s
          (at k (notifying leaves (ending e)))
          (record s { status = e })
          (at k (notifying leaves raising))
  raise_latch :
      {k : ℕ} {leaves : Bool}
      → Move nbworkers s
          (at k (notifying leaves raising))
          (record s { donelatch = raise s.donelatch })
          (at k (after_notify leaves))

-- Where the master stands: before a notification or the end of the last round, in master_wait before
-- its wait, the load of the status and the load of the message, before master_join, in the joins, and
-- after them. The other two end measure with an exception.
pub data Master : Type 0 where
  ready : (left : ℕ) → Master
  waiting : (left : ℕ) → Master
  loading : (left : ℕ) → Master
  failing : (left : ℕ) → Master
  failed : Option Message → Master
  joining : Option Message → Master
  returned : Option Message → Master
  overrun : Master
  unreachable : Master

pub data MasterMove (s : Sync) : Master → Sync → Master → Type 0 where
  notify : {k : ℕ} → MasterMove s (ready (suc k)) (record s { status = wait }) (waiting k)
  wake :
      {k : ℕ} {bounded : Bool} {l : Latch}
      → Wait bounded s.donelatch l true
      → MasterMove s (waiting k) (record s { donelatch = l }) (loading k)
  give_up :
      {k : ℕ} {bounded : Bool} {l : Latch}
      → Wait bounded s.donelatch l false
      → MasterMove s (waiting k) (record s { donelatch = l }) overrun
  read_done : {k : ℕ} → s.status ≡ done → MasterMove s (loading k) s (ready k)
  read_fail : {k : ℕ} → s.status ≡ fail → MasterMove s (loading k) s (failing k)
  read_other : {k : ℕ} → s.status ≢ done → s.status ≢ fail → MasterMove s (loading k) s unreachable
  read_error : {k : ℕ} → MasterMove s (failing k) s (failed s.errmsg)
  join_success : MasterMove s (ready 0) (record s { status = quit }) (joining none)
  join_failure :
      {e : Option Message} → MasterMove s (failed e) (record s { status = quit }) (joining e)

pub record System : Type 0 where
  pub sync : Sync
  pub local : ℕ → Local
  pub master : Master

abbrev pub Stopped : Local → Type 0
Stopped x = (k : ℕ) × (x ≡ at k stopped)

pub data Step (nbworkers : ℕ) (s : System) : System → Type 0 where
  worker :
      (i : ℕ) {c : Sync} {y : Local}
      → i < nbworkers
      → Move nbworkers s.sync (s.local i) c y
      → Step nbworkers s (record s { sync = c; local = update s.local i y })
  master_step :
      {c : Sync} {m : Master}
      → MasterMove s.sync s.master c m
      → Step nbworkers s (record s { sync = c; master = m })
  joined :
      {e : Option Message}
      → s.master ≡ joining e
      → ((j : ℕ) → j < nbworkers → Stopped (s.local j))
      → Step nbworkers s (record s { master = returned e })

-- All threads of measure are started: the tests are init, `nbrepeats` calls of run, and check.
abbrev pub start : ℕ → System
start nbrepeats = record {
  sync = fresh;
  local = λ _. at (nbrepeats + 2) polling;
  master = ready (nbrepeats + 2);
}

pub data Reach (nbworkers nbrepeats : ℕ) : System → Type 0 where
  initial : Reach nbworkers nbrepeats (start nbrepeats)
  later :
      {s t : System}
      → Reach nbworkers nbrepeats s
      → Step nbworkers s t
      → Reach nbworkers nbrepeats t
