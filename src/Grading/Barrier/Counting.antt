-- ===== src/Grading/Barrier/Counting.antt =====
-- The threads that hold a place in `step` of grading/common.hpp.
use cs453_concurrent_algorit.Base.{Bool, true, false}
use cs453_concurrent_algorit.Grading.Barrier.{
  Local, at, outside, opening, awaiting_leave, leaving, closing, awaiting_enter,
}

-- Between the fetch_add and the fetch_sub of sync
abbrev pub counted : Local → Bool
counted (at e outside) = false
counted (at e opening) = true
counted (at e awaiting_leave) = true
counted (at e leaving) = true
counted (at e closing) = false
counted (at e awaiting_enter) = false
