-- ===== src/Grading/Barrier.antt =====
-- Class Barrier of grading/common.hpp: `cardinal` threads that call sync again and again, one access to
-- the shared counter or mode at a time, interleaved in any order.
--
-- `entered` is no part of the program: it counts the calls of sync that a thread has begun.
mod Counting
mod Phases
mod Moves
mod Rounds
pub mod Synchrony
pub mod Progress
pub mod Tests
use cs453_concurrent_algorit.Base.{ℕ, suc, ◌<◌, ◌≡◌, ◌≢◌, update}
use cs453_concurrent_algorit.Base.Word.{add64, sub64}

pub data Mode : Type 0 where
  enter : Mode
  leave : Mode

pub record Barrier : Type 0 where
  pub step : ℕ
  pub mode : Mode

-- The constructor
abbrev pub fresh : Barrier
fresh = record { step = 0; mode = enter }

-- Where a thread stands: outside of sync, before the store of `leave`, in the first loop, before the
-- fetch_sub, before the store of `enter`, in the second loop.
pub data Pc : Type 0 where
  outside : Pc
  opening : Pc
  awaiting_leave : Pc
  leaving : Pc
  closing : Pc
  awaiting_enter : Pc

pub data Local : Type 0 where
  at : (entered : ℕ) → Pc → Local

abbrev pub entered : Local → ℕ
entered (at e p) = e

-- One access of one thread.
pub data Move (cardinal : ℕ) (b : Barrier) : Local → Barrier → Local → Type 0 where
  enter_last :
      {e : ℕ}
      → add64 b.step 1 ≡ cardinal
      → Move cardinal b (at e outside) (record b { step = add64 b.step 1 }) (at (suc e) opening)
  enter_other :
      {e : ℕ}
      → add64 b.step 1 ≢ cardinal
      → Move cardinal b
          (at e outside)
          (record b { step = add64 b.step 1 })
          (at (suc e) awaiting_leave)
  set_leave : {e : ℕ} → Move cardinal b (at e opening) (record b { mode = leave }) (at e leaving)
  see_leave : {e : ℕ} → b.mode ≡ leave → Move cardinal b (at e awaiting_leave) b (at e leaving)
  pause_enter :
      {e : ℕ} → b.mode ≢ leave → Move cardinal b (at e awaiting_leave) b (at e awaiting_leave)
  leave_last :
      {e : ℕ}
      → sub64 b.step 1 ≡ 0
      → Move cardinal b (at e leaving) (record b { step = sub64 b.step 1 }) (at e closing)
  leave_other :
      {e : ℕ}
      → sub64 b.step 1 ≢ 0
      → Move cardinal b (at e leaving) (record b { step = sub64 b.step 1 }) (at e awaiting_enter)
  set_enter : {e : ℕ} → Move cardinal b (at e closing) (record b { mode = enter }) (at e outside)
  see_enter : {e : ℕ} → b.mode ≡ enter → Move cardinal b (at e awaiting_enter) b (at e outside)
  pause_leave :
      {e : ℕ} → b.mode ≢ enter → Move cardinal b (at e awaiting_enter) b (at e awaiting_enter)

pub record System : Type 0 where
  pub shared : Barrier
  pub local : ℕ → Local

pub data Step (cardinal : ℕ) (s : System) : System → Type 0 where
  pick :
      (i : ℕ) {b : Barrier} {y : Local}
      → i < cardinal
      → Move cardinal s.shared (s.local i) b y
      → Step cardinal s (record { shared = b; local = update s.local i y })

abbrev pub start : System
start = record { shared = fresh; local = λ _. at 0 outside }

pub data Reach (cardinal : ℕ) : System → Type 0 where
  initial : Reach cardinal start
  later : {s t : System} → Reach cardinal s → Step cardinal s t → Reach cardinal t
