-- ===== src/SharedLock/Laws.antt =====
-- The lock table: initialisation reaches every entry, and operations touch one entry each.
use cs453_concurrent_algorit.Base.{
  ℕ, zero, suc, ◌+◌, ◌<◌, ◌≡◌, refl, true, false, not, arith, ltb, leb, ◌&&◌, if◌then◌else◌, update,
}
use cs453_concurrent_algorit.Spinlock
use cs453_concurrent_algorit.Spinlock.{VersionedSpinlock, idle}
use cs453_concurrent_algorit.Spinlock.Acquire.{acquire-idle}
use cs453_concurrent_algorit.SharedLock.{
  SharedLock, num_locks, init_locks, init, find_lock, lock_at, set_lock_at,
  versioned_spinlock_acquire,
}

init_locks_lem :
    (rounds i : ℕ) (locks : ℕ → VersionedSpinlock) (j : ℕ)
    → init_locks rounds i locks j
      ≡ (if leb i j && ltb j (i + rounds) then Spinlock.init else locks j)
unfolding init_locks
init_locks_lem zero i locks j = ground arith
init_locks_lem (suc rounds) i locks j =
    ground (arith, init_locks_lem rounds (suc i) (update locks i Spinlock.init) j)

pub find_lock-lt : (shared : ℕ) → find_lock shared < num_locks
unfolding find_lock
find_lock-lt shared = omega arith

pub init-entry :
    (lock : SharedLock) (x : ℕ)
    → x < num_locks
    → (init lock).locks x ≡ record { lock = false; version = 0 }
unfolding init Spinlock.init
init-entry lock x small = ground (arith, init_locks_lem num_locks 0 lock.locks x)

-- Whatever the memory held, after `shared_lock_init` the lock that any address is hashed onto is
-- in the table, free, and has version 0, which the clock has too.
pub init-lock_at :
    (lock : SharedLock) (shared : ℕ)
    → (find_lock shared < num_locks)
      × (lock_at (init lock) shared ≡ record { lock = false; version = 0 })
      × ((init lock).clock ≡ 0)
unfolding init Spinlock.init
init-lock_at lock shared =
    (find_lock-lt shared, init-entry lock (find_lock shared) (find_lock-lt shared), refl)

-- With no interference an acquisition succeeds exactly if the address's lock is free, leaves that
-- lock taken, and changes no other.
pub acquire_lem :
    (lock : SharedLock) (shared : ℕ)
    → versioned_spinlock_acquire idle lock shared ≡ (
      not (lock_at lock shared).lock,
      set_lock_at lock shared (record (lock_at lock shared) { lock = true }),
    )
unfolding versioned_spinlock_acquire
acquire_lem lock shared = rw (acquire-idle (lock_at lock shared))
