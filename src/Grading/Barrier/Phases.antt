-- ===== src/Grading/Barrier/Phases.antt =====
-- The phases of a round of the barrier of grading/common.hpp: it fills, opens, drains and closes.
use cs453_concurrent_algorit.Base.{ℕ, suc, ◌<◌, ◌≡◌, ◌≢◌, true, false}
use cs453_concurrent_algorit.Grading.Barrier.{
  enter, leave, Local, at, outside, opening, awaiting_leave, leaving, closing, awaiting_enter,
  System,
}
use cs453_concurrent_algorit.Grading.Barrier.Counting.{counted}
use cs453_concurrent_algorit.Grading.Counting.{count}

-- Where the threads stand in each phase of a round
abbrev pub Filling : ℕ → Local → Type 0
Filling r (at e outside) = e ≡ r
Filling r (at e opening) = ⊥
Filling r (at e awaiting_leave) = e ≡ suc r
Filling r (at e leaving) = ⊥
Filling r (at e closing) = ⊥
Filling r (at e awaiting_enter) = e ≡ r

abbrev pub Waiting : ℕ → Local → Type 0
Waiting r (at e outside) = ⊥
Waiting r (at e opening) = ⊥
Waiting r (at e awaiting_leave) = e ≡ suc r
Waiting r (at e leaving) = ⊥
Waiting r (at e closing) = ⊥
Waiting r (at e awaiting_enter) = ⊥

abbrev pub Draining : ℕ → Local → Type 0
Draining r (at e outside) = ⊥
Draining r (at e opening) = ⊥
Draining r (at e awaiting_leave) = e ≡ suc r
Draining r (at e leaving) = e ≡ suc r
Draining r (at e closing) = ⊥
Draining r (at e awaiting_enter) = e ≡ suc r

abbrev pub Drained : ℕ → Local → Type 0
Drained r (at e outside) = ⊥
Drained r (at e opening) = ⊥
Drained r (at e awaiting_leave) = ⊥
Drained r (at e leaving) = ⊥
Drained r (at e closing) = ⊥
Drained r (at e awaiting_enter) = e ≡ suc r

-- The phases: `opened` and `emptied` are those in which one thread is about to store the mode.
pub data Phase (n : ℕ) (s : System) : Type 0 where
  filling :
      (r : ℕ)
      → s.shared.mode ≡ enter
      → s.shared.step < n
      → ((j : ℕ) → j < n → Filling r (s.local j))
      → Phase n s
  opened :
      (r i : ℕ)
      → s.shared.mode ≡ enter
      → i < n
      → s.local i ≡ at (suc r) opening
      → ((j : ℕ) → j ≢ i → j < n → Waiting r (s.local j))
      → Phase n s
  draining :
      (r : ℕ)
      → s.shared.mode ≡ leave
      → 0 < s.shared.step
      → ((j : ℕ) → j < n → Draining r (s.local j))
      → Phase n s
  emptied :
      (r i : ℕ)
      → s.shared.mode ≡ leave
      → s.shared.step ≡ 0
      → i < n
      → s.local i ≡ at (suc r) closing
      → ((j : ℕ) → j ≢ i → j < n → Drained r (s.local j))
      → Phase n s

pub record Invariant (n : ℕ) (s : System) : Type 0 where
  pub held : s.shared.step ≡ count counted n s.local
  pub phase : Phase n s

pub Filling-Waiting : (r : ℕ) (x : Local) → Filling r x → counted x ≡ true → Waiting r x
Filling-Waiting r (at e outside) h k = cc
Filling-Waiting r (at e opening) h k = h
Filling-Waiting r (at e awaiting_leave) h k = h
Filling-Waiting r (at e leaving) h k = h
Filling-Waiting r (at e closing) h k = h
Filling-Waiting r (at e awaiting_enter) h k = cc

pub Waiting-Draining : (r : ℕ) (x : Local) → Waiting r x → Draining r x
Waiting-Draining r (at e awaiting_leave) h = h
Waiting-Draining r (at e outside) h = h
Waiting-Draining r (at e opening) h = h
Waiting-Draining r (at e leaving) h = elim h [ ]
Waiting-Draining r (at e closing) h = h
Waiting-Draining r (at e awaiting_enter) h = elim h [ ]

pub Draining-Drained : (r : ℕ) (x : Local) → Draining r x → counted x ≡ false → Drained r x
Draining-Drained r (at e outside) h k = h
Draining-Drained r (at e opening) h k = h
Draining-Drained r (at e awaiting_leave) h k = cc
Draining-Drained r (at e leaving) h k = cc
Draining-Drained r (at e closing) h k = h
Draining-Drained r (at e awaiting_enter) h k = h

pub Drained-Filling : (r : ℕ) (x : Local) → Drained r x → Filling (suc r) x
Drained-Filling r (at e awaiting_enter) h = h
Drained-Filling r (at e outside) h = elim h [ ]
Drained-Filling r (at e opening) h = h
Drained-Filling r (at e awaiting_leave) h = elim h [ ]
Drained-Filling r (at e leaving) h = h
Drained-Filling r (at e closing) h = h
