-- ===== src/Grading/Chrono.antt =====
-- Class Chrono of grading/common.hpp. What the clock of the system answers is an argument: seconds and
-- nanoseconds, or none when the call fails.
use cs453_concurrent_algorit.Base.{ℕ, suc, ◌==◌, if◌then◌else◌, Option, none, some}
use cs453_concurrent_algorit.Base.Word.{add64, sub64, mul64}

-- 0xbadc0de
abbrev pub invalid_tick : ℕ
invalid_tick = 195936478

pub record Chrono : Type 0 where
  pub total : ℕ
  pub local : ℕ

-- The constructor with its default argument; `local` is not initialised.
abbrev pub zeroed : ℕ → Chrono
zeroed junk = record { total = 0; local = junk }

abbrev pub Reading : Type 0
Reading = Option (ℕ × ℕ)

unfoldable pub convert : Reading → ℕ
convert none = invalid_tick
convert (some (seconds, nanoseconds)) =
    let res = add64 nanoseconds (mul64 seconds 1000000000) in
    if res == invalid_tick then suc invalid_tick else res

abbrev pub start : Reading → Chrono → Chrono
start now c = record c { local = convert now }

abbrev pub delta : Reading → Chrono → ℕ
delta now c = sub64 (convert now) c.local

abbrev pub stop : Reading → Chrono → Chrono
stop now c = record c { total = add64 c.total (delta now c) }

abbrev pub get_tick : Chrono → ℕ
get_tick c = c.total
