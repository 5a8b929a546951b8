-- ===== src/Spinlock.antt =====
-- 335740/versioned-spinlock.c: a test-and-set lock with a version and a bounded back-off.
--
-- While a thread acquires the lock, others may use it too. Their effect is an argument `env`:
-- `env k` is what they do to the lock before this thread's access number `k`. Alone, `env` is
-- `idle`. The pauses (`_mm_pause`) have no effect on the state.
pub mod Acquire
mod Tests
use cs453_concurrent_algorit.Base.{ℕ, zero, suc, Bool, true, false, not, if◌then◌else◌}
use cs453_concurrent_algorit.Base.CInt.{int_gt}

-- `struct versioned_spinlock_t`; `version` is an `int`
pub record VersionedSpinlock : Type 0 where
  pub lock : Bool
  pub version : ℕ

unfoldable pub init : VersionedSpinlock
init = record { lock = false; version = 0 }

abbrev pub Env : Type 0
Env = ℕ → VersionedSpinlock → VersionedSpinlock

abbrev pub idle : Env
idle k l = l

-- `if (!atomic_exchange(&lock->lock, true)) return true;`, and what follows otherwise
unfoldable pub exchange_or :
    VersionedSpinlock → (VersionedSpinlock → Bool × VersionedSpinlock) → Bool × VersionedSpinlock
exchange_or l retry =
    let held = record l { lock = true } in if not l.lock then (true, held) else retry held

-- The `do` loop, with `left` rounds until `bound > 3`; access `k` is the next one. A round ends
-- with a load: on a held lock the loop goes on, on a free one the outer loop exchanges again.
unfoldable pub back_off : Env → ℕ → ℕ → VersionedSpinlock → Bool × VersionedSpinlock
back_off env zero k l = (false, l)
back_off env (suc left) k l =
    let seen = env k l in
    let again = back_off env left (suc k) seen in
    let retry = exchange_or (env (suc k) seen) (back_off env left (suc (suc k))) in
    if seen.lock then again else retry

unfoldable pub acquire : Env → VersionedSpinlock → Bool × VersionedSpinlock
acquire env l = exchange_or (env 0 l) (back_off env 4 1)

unfoldable pub release : VersionedSpinlock → VersionedSpinlock
release l = record l { lock = false }

unfoldable pub update : VersionedSpinlock → ℕ → VersionedSpinlock
update l version = record l { version = version }

unfoldable pub validate : VersionedSpinlock → ℕ → Bool
validate l version = if l.lock then false else if int_gt l.version version then false else true
