-- ===== src/Grading/Sync/Together.antt =====
-- The workers of grading/grading.cpp run their tests together.
use cs453_concurrent_algorit.Base.{
  ℕ, suc, ◌^◌, ◌<◌, ◌≡◌, ◌≢◌, ◌⊎◌, inl, inr, refl, sym, ap, ◌∙◌, subst, Bool, Option, List, arith,
}
use cs453_concurrent_algorit.Grading.Counting.{with_one}
use cs453_concurrent_algorit.Grading.Sync.{
  Message, polling, spinning, passed, working, notifying, stopped, Pc, Local, at, Master, waiting,
  overrun, System, Reach,
}
use cs453_concurrent_algorit.Grading.Sync.Places.{
  Idle, Gathering, Opener, Running, Closer, Quitting,
}
use cs453_concurrent_algorit.Grading.Sync.Phases.{
  Awaiting, Phase, settled, gathering, opening, running, closing, quitting,
}
use cs453_concurrent_algorit.Grading.Sync.Rounds.{Reach-Phase}

-- A worker that begins its test, is in it, or has ended it and no other, while `k` are left after it.
pub data Alongside (k : ℕ) : Local → Type 0 where
  called : Alongside k (at (suc k) spinning)
  released : Alongside k (at (suc k) passed)
  begun : (p : Pc) → Alongside k (at k p)

Running-Alongside :
    (l : ℕ) (e : Option Message) (fs : List Message) (x : Local) → Running l e fs x → Alongside l x
Running-Alongside l e fs (at k polling) h =
    subst (λ r. Alongside l (at r polling)) (sym h) (begun polling)
Running-Alongside l e fs (at k spinning) h = subst (λ r. Alongside l (at r spinning)) (sym h) called
Running-Alongside l e fs (at k passed) h = subst (λ r. Alongside l (at r passed)) (sym h) released
Running-Alongside l e fs (at k working) h =
    subst (λ r. Alongside l (at r working)) (sym h) (begun working)
Running-Alongside l e fs (at k (notifying leaves stage)) h =
    subst (λ r. Alongside l (at r (notifying leaves stage))) (sym h.0)
      (begun (notifying leaves stage))
Running-Alongside l e fs (at k stopped) h =
    subst (λ r. Alongside l (at r stopped)) (sym h.0) (begun stopped)
Running-Alongside l e fs x h = elim h [ ]

Awaiting-cases :
    (l : ℕ) (raised : Bool) (m : Master) → Awaiting l raised m → (m ≡ waiting l) ⊎ (m ≡ overrun)
Awaiting-cases l raised (waiting k) h = inl (ap waiting h.0)
Awaiting-cases l raised overrun h = inr refl
Awaiting-cases l raised m h = elim h [ ]

abbrev IsWorking : ℕ → Local → Type 0
IsWorking k x = x ≡ at k working

-- A worker is in a test only in the phase for it.
Phase-Alongside :
    (n k i : ℕ) (s : System)
    → i < n
    → Phase n s
    → s.local i ≡ at k working
    → ((s.master ≡ waiting k) ⊎ (s.master ≡ overrun)) × ((j : ℕ) → j < n → Alongside k (s.local j))
Phase-Alongside n k i s below (settled l held v rest all) works =
    elim (subst (Idle l s.sync.failures) works (all i below)) [ ]
Phase-Alongside n k i s below (gathering l status clean held few waits all) works =
    elim (subst (Gathering l) works (all i below)) [ ]
Phase-Alongside n k i s below (opening l o status clean waits inside opener all) works = absurd (
    with_one (λ x. x ≢ at k working) s.local o i
      (λ e. elim (subst (Opener l s.sync.nbready) e opener) [ ])
      (λ ne e. let same : at (suc l) spinning ≡ at k working = sym (all i ne below) ∙ e in cc)
      works)
Phase-Alongside n k i s below (running l progress held few waits all) works =
    let here : k ≡ l = subst (Running l s.sync.errmsg s.sync.failures) works (all i below) in
    subst
      (λ k.
        ((s.master ≡ waiting k) ⊎ (s.master ≡ overrun))
        × ((j : ℕ) → j < n → Alongside k (s.local j)))
      (sym here)
      (
        Awaiting-cases l s.sync.donelatch.raised s.master waits,
        λ j inside. Running-Alongside l s.sync.errmsg s.sync.failures (s.local j) (all j inside),
      )
Phase-Alongside n k i s below (closing l o waits inside closer all) works = absurd (
    with_one (λ x. x ≢ at k working) s.local o i (λ e. elim (subst (Closer l s.sync) e closer) [ ])
      (λ ne e. elim (subst (Idle l s.sync.failures) e (all i ne below)) [ ]) works)
Phase-Alongside n k i s below (quitting l status rest all) works =
    elim (subst (Quitting l) works (all i below)) [ ]

-- However the threads are interleaved and whatever the tests answer: while a worker is in the test after
-- which it has `k` left, the master waits for that test or has given up, and every worker begins this
-- test, is in it, or has ended it and no other. So a test starts only when all workers have ended the
-- one before it. Here there is at least one worker, and fewer than 2 ^ 32.
pub tests_together :
    (n nbrepeats k i : ℕ) (s : System)
    → n < 2 ^ 32
    → Reach n nbrepeats s
    → i < n
    → s.local i ≡ at k working
    → ((s.master ≡ waiting k) ⊎ (s.master ≡ overrun)) × ((j : ℕ) → j < n → Alongside k (s.local j))
tests_together n nbrepeats k i s small reached below works =
    Phase-Alongside n k i s below (Reach-Phase n nbrepeats s (omega arith) small reached) works
