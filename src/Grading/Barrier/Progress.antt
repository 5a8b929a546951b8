-- ===== src/Grading/Barrier/Progress.antt =====
-- The threads that call sync of grading/common.hpp do not block each other.
use cs453_concurrent_algorit.Base.{
  ℕ, suc, ◌<◌, ◌≤◌, ◌≡◌, ◌≢◌, refl, sym, ap, ◌∙◌, subst, true, false, inl, inr, ◌==◌, Bool-cases,
  ℕ_discrete, arith,
}
use cs453_concurrent_algorit.Base.Word.{word_limit, sub64}
use cs453_concurrent_algorit.Grading.Barrier.{
  enter, leave, Barrier, Pc, Local, at, outside, opening, awaiting_leave, leaving, closing,
  awaiting_enter, entered, Move, set_leave, see_leave, leave_last, leave_other, set_enter,
  see_enter, System, Reach,
}
use cs453_concurrent_algorit.Grading.Barrier.Counting.{counted}
use cs453_concurrent_algorit.Grading.Counting.{count, count-missing, count-some}
use cs453_concurrent_algorit.Grading.Barrier.Phases.{
  Filling, Waiting, Draining, Drained, Phase, filling, opened, draining, emptied, Invariant,
  Waiting-Draining,
}
use cs453_concurrent_algorit.Grading.Barrier.Rounds.{Reach-Invariant}

-- The accesses that a thread has left in its call of sync, besides those of a loop that go round
abbrev pub left_at : Pc → ℕ
left_at outside = 0
left_at opening = 3
left_at awaiting_leave = 3
left_at leaving = 2
left_at closing = 1
left_at awaiting_enter = 1

-- The thread has begun its call number `r`, and has not returned from it.
abbrev pub InCall : ℕ → Local → Type 0
InCall r (at e p) = (e ≡ r) × (0 < left_at p)

abbrev pub accesses_left : Local → ℕ
accesses_left (at e p) = left_at p

module _ (n : ℕ) where
  -- A thread at `x` is in its call number `r`, and can make an access that brings it closer to its return.
  data Goes (r : ℕ) (b : Barrier) (x : Local) : Type 0 where
    goes :
        (c : Barrier) (y : Local)
        → InCall r x
        → Move n b x c y
        → entered y ≡ r
        → accesses_left y < accesses_left x
        → Goes r b x

  -- Some thread is and can.
  pub data Advances (r : ℕ) (s : System) : Type 0 where
    advances :
        (i : ℕ) (c : Barrier) (y : Local)
        → i < n
        → InCall r (s.local i)
        → Move n s.shared (s.local i) c y
        → entered y ≡ r
        → accesses_left y < accesses_left (s.local i)
        → Advances r s

  advance : (r : ℕ) (s : System) (i : ℕ) → i < n → Goes r s.shared (s.local i) → Advances r s
  advance r s i below (goes c y here move same less) = advances i c y below here move same less

  -- While a round fills, a thread in an old call leaves it, and one in a new call waits for others.
  Filling-Goes :
      (k r : ℕ) (b : Barrier) (x : Local)
      → b.mode ≡ enter
      → Filling k x
      → InCall r x
      → r ≤ k
      → Goes r b x
  Filling-Goes k r b (at e outside) mode h c few = absurd (omega (arith, c.1))
  Filling-Goes k r b (at e opening) mode h c few = elim h [ ]
  Filling-Goes k r b (at e awaiting_leave) mode h c few = absurd (omega (arith, c.0, h))
  Filling-Goes k r b (at e leaving) mode h c few = elim h [ ]
  Filling-Goes k r b (at e closing) mode h c few = elim h [ ]
  Filling-Goes k r b (at e awaiting_enter) mode h c few =
      goes _ _ c (see_enter mode) c.0 (omega arith)

  Filling-missing : (k : ℕ) (x : Local) → Filling k x → counted x ≡ false → entered x ≡ k
  Filling-missing k (at e outside) h free = h
  Filling-missing k (at e opening) h free = elim h [ ]
  Filling-missing k (at e awaiting_leave) h free = cc
  Filling-missing k (at e leaving) h free = elim h [ ]
  Filling-missing k (at e closing) h free = elim h [ ]
  Filling-missing k (at e awaiting_enter) h free = h

  Draining-Goes :
      (k : ℕ) (b : Barrier) (x : Local)
      → b.mode ≡ leave
      → Draining k x
      → counted x ≡ true
      → Goes (suc k) b x
  Draining-Goes k b (at e outside) mode h c = elim h [ ]
  Draining-Goes k b (at e opening) mode h c = elim h [ ]
  Draining-Goes k b (at e awaiting_leave) mode h c =
      goes _ _ (h, omega arith) (see_leave mode) h (omega arith)
  Draining-Goes k b (at e leaving) mode h c = elim (Bool-cases (sub64 b.step 1 == 0)) [
    | inl last ↦ goes _ _ (h, omega arith) (leave_last (ground arith)) h (omega arith)
    | inr more ↦ goes _ _ (h, omega arith) (leave_other (ground arith)) h (omega arith)
  ]
  Draining-Goes k b (at e closing) mode h c = elim h [ ]
  Draining-Goes k b (at e awaiting_enter) mode h c = cc

  opening-Goes : (k : ℕ) (b : Barrier) (x : Local) → x ≡ at (suc k) opening → Goes (suc k) b x
  opening-Goes k b x e = subst (Goes (suc k) b) (sym e) (
      goes (record b { mode = leave }) (at (suc k) leaving) (refl, omega arith) set_leave refl
        (omega arith))

  closing-Goes : (k : ℕ) (b : Barrier) (x : Local) → x ≡ at (suc k) closing → Goes (suc k) b x
  closing-Goes k b x e = subst (Goes (suc k) b) (sym e) (
      goes (record b { mode = enter }) (at (suc k) outside) (refl, omega arith) set_enter refl
        (omega arith))

  InCall-entered : (r : ℕ) (x : Local) → InCall r x → entered x ≡ r
  InCall-entered r (at e p) h = h.0

  Draining-entered : (k : ℕ) (x : Local) → Draining k x → entered x ≡ suc k
  Draining-entered k (at e awaiting_leave) h = h
  Draining-entered k (at e leaving) h = h
  Draining-entered k (at e awaiting_enter) h = h
  Draining-entered k (at e outside) h = elim h [ ]
  Draining-entered k (at e opening) h = elim h [ ]
  Draining-entered k (at e closing) h = elim h [ ]

  Waiting-entered : (k : ℕ) (x : Local) → Waiting k x → entered x ≡ suc k
  Waiting-entered k x h = Draining-entered k x (Waiting-Draining k x h)

  Drained-entered : (k : ℕ) (x : Local) → Drained k x → entered x ≡ suc k
  Drained-entered k (at e awaiting_enter) h = h
  Drained-entered k (at e outside) h = elim h [ ]
  Drained-entered k (at e opening) h = elim h [ ]
  Drained-entered k (at e awaiting_leave) h = elim h [ ]
  Drained-entered k (at e leaving) h = elim h [ ]
  Drained-entered k (at e closing) h = elim h [ ]

  module _ (s : System) (r j : ℕ) (below : j < n)
      (begun : (i : ℕ) → i < n → r ≤ entered (s.local i)) (here : InCall r (s.local j)) where
    -- In the phases other than `filling`, all threads are in one call.
    same_call :
        (k i : ℕ) (P : Local → Type 0)
        → entered (s.local i) ≡ suc k
        → ((x : Local) → P x → entered x ≡ suc k)
        → ((l : ℕ) → l ≢ i → l < n → P (s.local l))
        → suc k ≡ r
    same_call k i P mine knows all = elim (ℕ_discrete j i) [
      | yes same ↦
          sym (subst (λ l. entered (s.local l) ≡ suc k) (sym same) mine)
          ∙ InCall-entered r (s.local j) here
      | no far ↦ sym (knows (s.local j) (all j far below)) ∙ InCall-entered r (s.local j) here
    ]

    Phase-Advances : Phase n s → s.shared.step ≡ count counted n s.local → Advances r s
    Phase-Advances (filling k mode few all) held =
        let (i, small, free) = count-missing counted n s.local (subst (λ c. c < n) held few) in
        let r_le : r ≤ k =
          subst (λ e. r ≤ e) (Filling-missing k (s.local i) (all i small) free) (begun i small) in
        advance r s j below (Filling-Goes k r s.shared (s.local j) mode (all j below) here r_le)
    Phase-Advances (opened k o mode small opener all) held =
        subst (λ q. Advances q s)
          (same_call k o (Waiting k) (ap entered opener) (Waiting-entered k) all)
          (advance (suc k) s o small (opening-Goes k s.shared (s.local o) opener))
    Phase-Advances (draining k mode some_in all) held =
        let (i, small, held_i) = count-some counted n s.local (subst (λ c. 0 < c) held some_in) in
        subst (λ q. Advances q s)
          (sym (Draining-entered k (s.local j) (all j below)) ∙ InCall-entered r (s.local j) here)
          (advance (suc k) s i small
            (Draining-Goes k s.shared (s.local i) mode (all i small) held_i))
    Phase-Advances (emptied k o mode empty small closer all) held =
        subst (λ q. Advances q s)
          (same_call k o (Drained k) (ap entered closer) (Drained-entered k) all)
          (advance (suc k) s o small (closing-Goes k s.shared (s.local o) closer))

  -- However the threads are interleaved, when each thread has begun its call number `r` of sync and
  -- thread `j` has not returned from its own, some thread in its call number `r` can make an access
  -- that leaves it fewer accesses to its return. Here there are fewer than 2 ^ 64 threads.
  pub no_deadlock :
      (s : System) (r j : ℕ)
      → n < word_limit
      → j < n
      → Reach n s
      → ((i : ℕ) → i < n → r ≤ entered (s.local i))
      → InCall r (s.local j)
      → Advances r s
  no_deadlock s r j small below reached begun here =
      let inv : Invariant n s = Reach-Invariant n small s (omega arith) reached in
      Phase-Advances s r j below begun here inv.phase inv.held
