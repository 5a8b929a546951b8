-- ===== src/Grading/Barrier/Synchrony.antt =====
-- What the barrier of grading/common.hpp promises to the threads that call sync.
use cs453_concurrent_algorit.Base.{ℕ, suc, ◌-◌, ◌<◌, ◌≤◌, sym, subst, arith}
use cs453_concurrent_algorit.Base.Word.{word_limit}
use cs453_concurrent_algorit.Grading.Barrier.{
  Local, at, outside, opening, awaiting_leave, leaving, closing, awaiting_enter, entered, System,
  Reach,
}
use cs453_concurrent_algorit.Grading.Counting.{with_one}
use cs453_concurrent_algorit.Grading.Barrier.Phases.{
  Filling, Waiting, Draining, Drained, Phase, filling, opened, draining, emptied, Invariant,
}
use cs453_concurrent_algorit.Grading.Barrier.Rounds.{Reach-Invariant}

-- The calls of sync whose first loop a thread has passed
abbrev pub crossed : Local → ℕ
crossed (at e outside) = e
crossed (at e opening) = e - 1
crossed (at e awaiting_leave) = e - 1
crossed (at e leaving) = e
crossed (at e closing) = e
crossed (at e awaiting_enter) = e

abbrev Within : ℕ → Local → Type 0
Within r x = (crossed x ≤ r) × (r ≤ entered x)

Filling-Within : (r : ℕ) (x : Local) → Filling r x → Within r x
Filling-Within r (at e outside) h = (omega arith, omega arith)
Filling-Within r (at e opening) h = elim h [ ]
Filling-Within r (at e awaiting_leave) h = (omega arith, omega arith)
Filling-Within r (at e leaving) h = elim h [ ]
Filling-Within r (at e closing) h = elim h [ ]
Filling-Within r (at e awaiting_enter) h = (omega arith, omega arith)

Waiting-Within : (r : ℕ) (x : Local) → Waiting r x → Within r x
Waiting-Within r (at e outside) h = elim h [ ]
Waiting-Within r (at e opening) h = elim h [ ]
Waiting-Within r (at e awaiting_leave) h = (omega arith, omega arith)
Waiting-Within r (at e leaving) h = elim h [ ]
Waiting-Within r (at e closing) h = elim h [ ]
Waiting-Within r (at e awaiting_enter) h = elim h [ ]

Draining-Within : (r : ℕ) (x : Local) → Draining r x → Within (suc r) x
Draining-Within r (at e outside) h = elim h [ ]
Draining-Within r (at e opening) h = elim h [ ]
Draining-Within r (at e awaiting_leave) h = (omega arith, omega arith)
Draining-Within r (at e leaving) h = (omega arith, omega arith)
Draining-Within r (at e closing) h = elim h [ ]
Draining-Within r (at e awaiting_enter) h = (omega arith, omega arith)

Drained-Within : (r : ℕ) (x : Local) → Drained r x → Within (suc r) x
Drained-Within r (at e outside) h = elim h [ ]
Drained-Within r (at e opening) h = elim h [ ]
Drained-Within r (at e awaiting_leave) h = elim h [ ]
Drained-Within r (at e leaving) h = elim h [ ]
Drained-Within r (at e closing) h = elim h [ ]
Drained-Within r (at e awaiting_enter) h = (omega arith, omega arith)

Phase-Within : (n : ℕ) (s : System) → Phase n s → (r : ℕ) × ((j : ℕ) → j < n → Within r (s.local j))
Phase-Within n s (filling r mode few all) =
    (r, λ j inside. Filling-Within r (s.local j) (all j inside))
Phase-Within n s (opened r o mode below opener all) = (
  r,
  λ j inside.
      with_one (Within r) s.local o j (subst (Within r) (sym opener) (omega arith, omega arith))
        (λ ne. Waiting-Within r (s.local j) (all j ne inside)),
)
Phase-Within n s (draining r mode some_in all) =
    (suc r, λ j inside. Draining-Within r (s.local j) (all j inside))
Phase-Within n s (emptied r o mode empty below closer all) = (
  suc r,
  λ j inside.
      with_one (Within (suc r)) s.local o j
        (subst (Within (suc r)) (sym closer) (omega arith, omega arith))
        (λ ne. Drained-Within r (s.local j) (all j ne inside)),
)

-- However the threads are interleaved, no thread passes the first loop of its k-th call of sync, and so
-- none returns from it, before every thread has begun its own k-th call. Here there is at least one
-- thread, and fewer than 2 ^ 64.
pub sync_together :
    (n : ℕ) (s : System) (i j : ℕ)
    → 0 < n
    → n < word_limit
    → Reach n s
    → i < n
    → j < n
    → crossed (s.local i) ≤ entered (s.local j)
sync_together n s i j some_thread small reached below below' =
    let inv : Invariant n s = Reach-Invariant n small s some_thread reached in
    let (r, within) = Phase-Within n s inv.phase in
    omega (arith, (within i below).0, (within j below').1)
