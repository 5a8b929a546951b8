-- ===== src/Reference/Lock.antt =====
-- reference/shared-lock.c: the readers-writer lock of pthreads.
use cs453_concurrent_algorit.Base.{ℕ, ◌≡◌, Bool, true}

-- The functions of pthreads, on the content of a pthread_rwlock_t: whether a call returns 0, and what
-- the object holds then.
pub record RwLock : Type 0 where
  pub rwlock_init : ℕ → Bool × ℕ
  pub rwlock_destroy : ℕ → ℕ
  pub wrlock : ℕ → Bool × ℕ
  pub rdlock : ℕ → Bool × ℕ
  pub unlock : ℕ → ℕ

-- What pthreads documents for a thread that runs alone: initialisation gives a lock that nobody holds,
-- such a lock can be had in both modes, and is as free as before when it is released.
pub record RwLockLaws (L : RwLock) (is_free : ℕ → Bool) : Type 0 where
  pub init_frees : (l : ℕ) → is_free (L.rwlock_init l).1 ≡ true
  pub wrlock_done : (l : ℕ) → is_free l ≡ true → (L.wrlock l).0 ≡ true
  pub wrlock_freed : (l : ℕ) → is_free l ≡ true → is_free (L.unlock (L.wrlock l).1) ≡ true
  pub rdlock_done : (l : ℕ) → is_free l ≡ true → (L.rdlock l).0 ≡ true
  pub rdlock_freed : (l : ℕ) → is_free l ≡ true → is_free (L.unlock (L.rdlock l).1) ≡ true

module _ (L : RwLock) where
  unfoldable pub shared_lock_init : ℕ → Bool × ℕ
  shared_lock_init lock = L.rwlock_init lock

  unfoldable pub shared_lock_cleanup : ℕ → ℕ
  shared_lock_cleanup lock = L.rwlock_destroy lock

  unfoldable pub shared_lock_acquire : ℕ → Bool × ℕ
  shared_lock_acquire lock = L.wrlock lock

  unfoldable pub shared_lock_release : ℕ → ℕ
  shared_lock_release lock = L.unlock lock

  unfoldable pub shared_lock_acquire_shared : ℕ → Bool × ℕ
  shared_lock_acquire_shared lock = L.rdlock lock

  unfoldable pub shared_lock_release_shared : ℕ → ℕ
  shared_lock_release_shared lock = L.unlock lock
