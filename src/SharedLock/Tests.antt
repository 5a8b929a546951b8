-- ===== src/SharedLock/Tests.antt =====
-- The theorems at one lock object, and a collision of addresses.
use cs453_concurrent_algorit.Base.{◌<◌, ◌≡◌, refl, true, false}
use cs453_concurrent_algorit.SharedLock.{SharedLock, num_locks, init, find_lock, lock_at}
use cs453_concurrent_algorit.SharedLock.Laws.{init-lock_at}

-- Two words that are 8 * 4999 bytes apart share a lock.
same_bucket : find_lock 40_008 ≡ find_lock 16
unfolding find_lock
same_bucket = refl

abbrev dirty : SharedLock
dirty = record { clock = 7; locks = λ x. record { lock = true; version = x }; segment_lock = true }

init-lock_at_example :
    (find_lock 16 < num_locks)
    × (lock_at (init dirty) 16 ≡ record { lock = false; version = 0 })
    × ((init dirty).clock ≡ 0)
init-lock_at_example = init-lock_at dirty 16
