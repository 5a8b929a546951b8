-- ===== src/Grading/Sync/Unreachable.antt =====
-- The exceptions Unreachable of measure and of master_wait in grading/grading.cpp.
use cs453_concurrent_algorit.Base.{ℕ, suc, ◌^◌, ◌<◌, ◌≡◌, ◌≢◌, sym, ◌∙◌, subst, Bool, arith}
use cs453_concurrent_algorit.Grading.Counting.{with_one}
use cs453_concurrent_algorit.Grading.Sync.{
  spinning, passed, Local, at, unreachable, Master, System, Reach,
}
use cs453_concurrent_algorit.Grading.Sync.Places.{
  Idle, Gathering, Opener, Running, Closer, Quitting,
}
use cs453_concurrent_algorit.Grading.Sync.Phases.{
  Awaiting, Resting, Joining, Phase, settled, gathering, opening, running, closing, quitting,
}
use cs453_concurrent_algorit.Grading.Sync.Rounds.{Reach-Phase}

-- The master during a round
Awaiting-unreachable : (l : ℕ) (raised : Bool) (m : Master) → Awaiting l raised m → m ≢ unreachable
Awaiting-unreachable l raised m h e = elim (subst (Awaiting l raised) e h) [ ]

-- The places for which measure throws Unreachable
abbrev Expected : Local → Type 0
Expected x = x ≢ at 0 passed

Phase-Expected :
    (n : ℕ) (s : System)
    → Phase n s
    → (s.master ≢ unreachable) × ((j : ℕ) → j < n → s.local j ≢ at 0 passed)
Phase-Expected n s (settled l idle v rest all) = (
  λ e. elim (subst (Resting l s.sync) e rest) [ ],
  λ j inside e. elim (subst (Idle l s.sync.failures) e (all j inside)) [ ],
)
Phase-Expected n s (gathering l status clean held few waits all) = (
  Awaiting-unreachable l s.sync.donelatch.raised s.master waits,
  λ j inside e. elim (subst (Gathering l) e (all j inside)) [ ],
)
Phase-Expected n s (opening l o status clean waits below opener all) = (
  Awaiting-unreachable l s.sync.donelatch.raised s.master waits,
  λ j inside.
      with_one Expected s.local o j (λ e. elim (subst (Opener l s.sync.nbready) e opener) [ ])
        (λ ne e. let same : at (suc l) spinning ≡ at 0 passed = sym (all j ne inside) ∙ e in cc),
)
Phase-Expected n s (running l progress held few waits all) = (
  Awaiting-unreachable l s.sync.donelatch.raised s.master waits,
  λ j inside e.
      let zero : 0 ≡ suc l = subst (Running l s.sync.errmsg s.sync.failures) e (all j inside) in
      absurd (omega arith),
)
Phase-Expected n s (closing l o waits below closer all) = (
  Awaiting-unreachable l s.sync.donelatch.raised s.master waits,
  λ j inside.
      with_one Expected s.local o j (λ e. elim (subst (Closer l s.sync) e closer) [ ])
        (λ ne e. elim (subst (Idle l s.sync.failures) e (all j ne inside)) [ ]),
)
Phase-Expected n s (quitting l status joins all) = (
  λ e. elim (subst (Joining n l s.sync.failures s.local) e joins) [ ],
  λ j inside e. elim (subst (Quitting l) e (all j inside)) [ ],
)

-- However the threads are interleaved and whatever the tests answer, neither the master nor a worker
-- throws Unreachable: the master finds the status done or failed when it wakes, and no worker passes
-- worker_wait after its last test. Here there is at least one worker, and fewer than 2 ^ 32.
pub never_unreachable :
    (n nbrepeats : ℕ) (s : System)
    → 0 < n
    → n < 2 ^ 32
    → Reach n nbrepeats s
    → (s.master ≢ unreachable) × ((j : ℕ) → j < n → s.local j ≢ at 0 passed)
never_unreachable n nbrepeats s some_worker small reached =
    Phase-Expected n s (Reach-Phase n nbrepeats s some_worker small reached)
