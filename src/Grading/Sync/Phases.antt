-- ===== src/Grading/Sync/Phases.antt =====
-- The phases of a round of the workers of grading/grading.cpp: they gather, run and finish, and rest
-- while the master reads the verdict.
use cs453_concurrent_algorit.Base.{ℕ, ◌<◌, ◌≡◌, ◌≢◌, Bool, true, false, Option, none, List, []}
use cs453_concurrent_algorit.Grading.Counting.{count}
use cs453_concurrent_algorit.Grading.Sync.{
  wait, run, abort, quit, Message, Sync, Local, Master, ready, waiting, loading, failing, failed,
  joining, returned, overrun, unreachable, System, Stopped,
}
use cs453_concurrent_algorit.Grading.Sync.Places.{
  Closer, Gathering, Idle, Opener, Quitting, Running, Spinning, Told, Verdict, is_idle, is_pending,
  is_spinning, number,
}

-- Where the master stands: during a round, between two rounds, and at the end
abbrev pub Awaiting : ℕ → Bool → Master → Type 0
Awaiting l raised (ready k) = ⊥
Awaiting l raised (waiting k) = (k ≡ l) × (raised ≡ false)
Awaiting l raised (loading k) = ⊥
Awaiting l raised (failing k) = ⊥
Awaiting l raised (failed e) = ⊥
Awaiting l raised (joining e) = ⊥
Awaiting l raised (returned e) = ⊥
Awaiting l raised overrun = raised ≡ false
Awaiting l raised unreachable = ⊥

abbrev pub Resting : ℕ → Sync → Master → Type 0
Resting l s (ready k) = (k ≡ l) × (s.failures ≡ []) × (s.donelatch.raised ≡ false)
Resting l s (waiting k) = (k ≡ l) × (s.donelatch.raised ≡ true)
Resting l s (loading k) = (k ≡ l) × (s.donelatch.raised ≡ false)
Resting l s (failing k) = Told s.errmsg s.failures × (s.donelatch.raised ≡ false)
Resting l s (failed e) = Told e s.failures × (s.donelatch.raised ≡ false)
Resting l s (joining e) = ⊥
Resting l s (returned e) = ⊥
Resting l s overrun = Unit
Resting l s unreachable = ⊥

-- The error that measure returns
pub data Reported (l : ℕ) (fs : List Message) (e : Option Message) : Type 0 where
  nothing : e ≡ none → fs ≡ [] → l ≡ 0 → Reported l fs e
  something : Told e fs → Reported l fs e

abbrev pub Joining : (n l : ℕ) → List Message → (ℕ → Local) → Master → Type 0
Joining n l fs local (ready k) = ⊥
Joining n l fs local (waiting k) = ⊥
Joining n l fs local (loading k) = ⊥
Joining n l fs local (failing k) = ⊥
Joining n l fs local (failed e) = ⊥
Joining n l fs local (joining e) = Reported l fs e
Joining n l fs local (returned e) = Reported l fs e × ((j : ℕ) → j < n → Stopped (local j))
Joining n l fs local overrun = ⊥
Joining n l fs local unreachable = ⊥

-- How the status follows the failures while workers run
pub data Progress (n : ℕ) (s : Sync) (local : ℕ → Local) : Type 0 where
  unseen : s.status ≡ run → number s.failures ≡ count is_pending n local → Progress n s local
  seen : s.status ≡ abort → Told s.errmsg s.failures → Progress n s local

pub data Phase (n : ℕ) (s : System) : Type 0 where
  settled :
      (l : ℕ)
      → s.sync.nbready ≡ 0
      → Verdict s.sync.errmsg s.sync.failures s.sync.status
      → Resting l s.sync s.master
      → ((j : ℕ) → j < n → Idle l s.sync.failures (s.local j))
      → Phase n s
  gathering :
      (l : ℕ)
      → s.sync.status ≡ wait
      → s.sync.failures ≡ []
      → s.sync.nbready ≡ count is_spinning n s.local
      → s.sync.nbready < n
      → Awaiting l s.sync.donelatch.raised s.master
      → ((j : ℕ) → j < n → Gathering l (s.local j))
      → Phase n s
  opening :
      (l i : ℕ)
      → s.sync.status ≡ wait
      → s.sync.failures ≡ []
      → Awaiting l s.sync.donelatch.raised s.master
      → i < n
      → Opener l s.sync.nbready (s.local i)
      → ((j : ℕ) → j ≢ i → j < n → Spinning l (s.local j))
      → Phase n s
  running :
      (l : ℕ)
      → Progress n s.sync s.local
      → s.sync.nbready ≡ count is_idle n s.local
      → s.sync.nbready < n
      → Awaiting l s.sync.donelatch.raised s.master
      → ((j : ℕ) → j < n → Running l s.sync.errmsg s.sync.failures (s.local j))
      → Phase n s
  closing :
      (l i : ℕ)
      → Awaiting l s.sync.donelatch.raised s.master
      → i < n
      → Closer l s.sync (s.local i)
      → ((j : ℕ) → j ≢ i → j < n → Idle l s.sync.failures (s.local j))
      → Phase n s
  quitting :
      (l : ℕ)
      → s.sync.status ≡ quit
      → Joining n l s.sync.failures s.local s.master
      → ((j : ℕ) → j < n → Quitting l (s.local j))
      → Phase n s
