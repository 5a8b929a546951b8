-- ===== src/Base/Word.antt =====
-- 64-bit words: `size_t`, and `intptr_t` as its bit pattern. Arithmetic wraps around.
use Prim.Native.Nat.{ℕ, ◌+◌, ◌-◌, ◌*◌, ◌%◌, ◌^◌}
use mathlib.Core.Bool.{Bool, not, ◌&&◌}
use cs453_concurrent_algorit.Base.Tests.{leb, ◌==◌}

abbrev pub word_limit : ℕ
word_limit = 2 ^ 64

abbrev pub add64 : ℕ → ℕ → ℕ
add64 a b = (a + b) % word_limit

abbrev pub sub64 : ℕ → ℕ → ℕ
sub64 a b = (a + word_limit - b) % word_limit

abbrev pub mul64 : ℕ → ℕ → ℕ
mul64 a b = a * b % word_limit

-- The sign of an `intptr_t`
abbrev pub is_negative : ℕ → Bool
is_negative a = leb (2 ^ 63) a

abbrev pub is_positive : ℕ → Bool
is_positive a = not (is_negative a) && not (a == 0)
