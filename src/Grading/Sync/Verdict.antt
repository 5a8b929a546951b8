-- ===== src/Grading/Sync/Verdict.antt =====
-- What measure of grading/grading.cpp makes of the answers of the tests.
use cs453_concurrent_algorit.Base.{ℕ, ◌^◌, ◌<◌, ◌≡◌, sym, ap, ◌∙◌, subst, Option, none, some, []}
use cs453_concurrent_algorit.Grading.Sync.{
  Message, stopped, Local, at, returned, System, Stopped, Reach,
}
use cs453_concurrent_algorit.Grading.Sync.Places.{Among, Quitting}
use cs453_concurrent_algorit.Grading.Sync.Phases.{
  Awaiting, Resting, Joining, Reported, nothing, something, Phase, settled, gathering, opening,
  running, closing, quitting,
}
use cs453_concurrent_algorit.Grading.Sync.Rounds.{Reach-Phase}

pub data Outcome (n : ℕ) (s : System) : Option Message → Type 0 where
  correct : s.sync.failures ≡ [] → ((j : ℕ) → j < n → s.local j ≡ at 0 stopped) → Outcome n s none
  incorrect : (m : Message) → Among m s.sync.failures → Outcome n s (some m)

Quitting-left : (l : ℕ) (x : Local) → l ≡ 0 → Stopped x → Quitting l x → x ≡ at 0 stopped
Quitting-left l x zero (k, is_x) h =
    let here : Quitting l (at k stopped) = subst (Quitting l) is_x h in
    is_x ∙ ap (λ k. at k stopped) (here ∙ zero)

Reported-Outcome :
    (n l : ℕ) (s : System) (e : Option Message)
    → Reported l s.sync.failures e
    → ((j : ℕ) → j < n → Stopped (s.local j))
    → ((j : ℕ) → j < n → Quitting l (s.local j))
    → Outcome n s e
Reported-Outcome n l s e (nothing is_e clean zero) ended all =
    subst (Outcome n s) (sym is_e)
      (correct clean (λ j inside. Quitting-left l (s.local j) zero (ended j inside) (all j inside)))
Reported-Outcome n l s (some m) (something told) ended all = incorrect m told
Reported-Outcome n l s none (something told) ended all = elim told [ ]

-- The master has returned only when it has joined the workers.
Phase-Outcome :
    (n : ℕ) (s : System) (e : Option Message) → Phase n s → s.master ≡ returned e → Outcome n s e
Phase-Outcome n s e (settled l idle v rest all) is_m = elim (subst (Resting l s.sync) is_m rest) [ ]
Phase-Outcome n s e (gathering l status clean held few waits all) is_m =
    elim (subst (Awaiting l s.sync.donelatch.raised) is_m waits) [ ]
Phase-Outcome n s e (opening l o status clean waits inside opener all) is_m =
    elim (subst (Awaiting l s.sync.donelatch.raised) is_m waits) [ ]
Phase-Outcome n s e (running l progress held few waits all) is_m =
    elim (subst (Awaiting l s.sync.donelatch.raised) is_m waits) [ ]
Phase-Outcome n s e (closing l o waits inside closer all) is_m =
    elim (subst (Awaiting l s.sync.donelatch.raised) is_m waits) [ ]
Phase-Outcome n s e (quitting l status joins all) is_m =
    let (told, ended) = subst (Joining n l s.sync.failures s.local) is_m joins in
    Reported-Outcome n l s e told ended all

-- However the threads are interleaved and whatever the tests answer, measure returns without an error
-- only when every worker has ended with no test left and no test has failed, and with an error only if
-- it is the message of a test that failed. Here there is at least one worker, and fewer than 2 ^ 32.
pub measure_lem :
    (n nbrepeats : ℕ) (s : System) (e : Option Message)
    → 0 < n
    → n < 2 ^ 32
    → Reach n nbrepeats s
    → s.master ≡ returned e
    → Outcome n s e
measure_lem n nbrepeats s e some_worker small reached is_m =
    Phase-Outcome n s e (Reach-Phase n nbrepeats s some_worker small reached) is_m
