-- ===== src/SharedLock.antt =====
-- 335740/shared-lock.c: the global version clock, the table of versioned spinlocks onto which
-- addresses are hashed, and the mutex of the list of segments.
--
-- The table is a function of the index; `init_locks` writes its NUM_LOCKS entries. The mutex is
-- the flag that pthread_mutex_lock sets and pthread_mutex_unlock clears: no error is reported, as
-- the code ignores what these calls return.
pub mod Laws
mod Tests
use cs453_concurrent_algorit.Base.{ℕ, zero, suc, ◌+◌, ◌%◌, Bool, true, false, update}
use cs453_concurrent_algorit.Base.CInt.{int_suc}
use cs453_concurrent_algorit.Spinlock
use cs453_concurrent_algorit.Spinlock.{VersionedSpinlock, Env}

abbrev pub num_locks : ℕ
num_locks = 4999

-- `struct shared_lock_t`
pub record SharedLock : Type 0 where
  pub clock : ℕ  -- _Atomic int
  pub locks : ℕ → VersionedSpinlock
  pub segment_lock : Bool

-- for (int i = 0; i < NUM_LOCKS; i++), with the rounds left and `i`
unfoldable pub init_locks : ℕ → ℕ → (ℕ → VersionedSpinlock) → ℕ → VersionedSpinlock
init_locks zero i locks = locks
init_locks (suc rounds) i locks = init_locks rounds (suc i) (update locks i Spinlock.init)

-- What the memory held before does not matter; `lock` is that.
unfoldable pub init : SharedLock → SharedLock
init lock = record { clock = 0; locks = init_locks num_locks 0 lock.locks; segment_lock = false }

unfoldable pub global_clock_get : SharedLock → ℕ
global_clock_get lock = lock.clock

unfoldable pub global_clock_increment_and_get : SharedLock → ℕ × SharedLock
global_clock_increment_and_get lock =
    let clock = int_suc lock.clock in (clock, record lock { clock = clock })

unfoldable pub find_lock : ℕ → ℕ
find_lock shared = shared % num_locks

-- The entry of an address.
abbrev pub lock_at : SharedLock → ℕ → VersionedSpinlock
lock_at lock shared = lock.locks (find_lock shared)

abbrev pub set_lock_at : SharedLock → ℕ → VersionedSpinlock → SharedLock
set_lock_at lock shared l = record lock { locks = update lock.locks (find_lock shared) l }

unfoldable pub versioned_spinlock_acquire : Env → SharedLock → ℕ → Bool × SharedLock
versioned_spinlock_acquire env lock shared =
    let (done, l) = Spinlock.acquire env (lock_at lock shared) in (done, set_lock_at lock shared l)

unfoldable pub versioned_spinlock_release : SharedLock → ℕ → SharedLock
versioned_spinlock_release lock shared =
    set_lock_at lock shared (Spinlock.release (lock_at lock shared))

unfoldable pub versioned_spinlock_update : SharedLock → ℕ → ℕ → SharedLock
versioned_spinlock_update lock shared version =
    set_lock_at lock shared (Spinlock.update (lock_at lock shared) version)

unfoldable pub versioned_spinlock_validate : SharedLock → ℕ → ℕ → Bool
versioned_spinlock_validate lock shared version = Spinlock.validate (lock_at lock shared) version

unfoldable pub segment_lock_acquire : SharedLock → SharedLock
segment_lock_acquire lock = record lock { segment_lock = true }

unfoldable pub segment_lock_release : SharedLock → SharedLock
segment_lock_release lock = record lock { segment_lock = false }
