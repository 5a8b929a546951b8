-- ===== src/Base/CInt.antt =====
-- The C type `int` of 32 bits: a value is its bit pattern, a number below 2 ^ 32.
use Prim.Native.Nat.{ℕ, ◌+◌, ◌%◌, ◌^◌, ◌≤◌, ◌<◌}
use mathlib.Core.Path.{◌≡◌}
use mathlib.Core.Bool.{Bool, false}
use native.Mathlib.Omega.{arith}
use cs453_concurrent_algorit.Base.Tests.{ltb}

-- `v + 1`, which wraps around
abbrev pub int_suc : ℕ → ℕ
int_suc v = (v + 1) % 2 ^ 32

-- `a > b` on signed numbers: moving both by 2 ^ 31 puts the negative patterns below the others.
abbrev pub int_gt : ℕ → ℕ → Bool
int_gt a b = ltb ((b + 2 ^ 31) % 2 ^ 32) ((a + 2 ^ 31) % 2 ^ 32)

pub int_gt-le : (a b : ℕ) → a < 2 ^ 31 → b < 2 ^ 31 → int_gt a b ≡ false → a ≤ b
int_gt-le a b ha hb h = ground arith

pub le-int_gt : (a b : ℕ) → b < 2 ^ 31 → a ≤ b → int_gt a b ≡ false
le-int_gt a b hb h = ground arith
