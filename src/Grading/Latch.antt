-- ===== src/Grading/Latch.antt =====
-- Class Latch of grading/common.hpp. Both calls hold the mutex of the latch from their first access to
-- the flag to the last, except while they sleep, so each is one step here.
use cs453_concurrent_algorit.Base.{◌≡◌, Bool, true, false}

pub record Latch : Type 0 where
  pub raised : Bool

-- The constructor with its default argument
abbrev pub lowered : Latch
lowered = record { raised = false }

abbrev pub raise : Latch → Latch
raise l = record l { raised = true }

-- How a call of wait ends, with a bound on the time or with none: the latch after it, and what it returns.
pub data Wait (bounded : Bool) (l : Latch) : Latch → Bool → Type 0 where
  reset : l.raised ≡ true → Wait bounded l (record l { raised = false }) true
  overtime : l.raised ≡ false → bounded ≡ true → Wait bounded l l false
