-- ===== src/Concurrent/Safety.antt =====
-- What holds in every state that threads calling 335740/tm.c can reach.
use cs453_concurrent_algorit.Base.{
  ℕ, ◌<◌, ◌≤◌, ◌≡◌, true, false, some, [], inl, inr, Bool-cases, ap, has, arith,
}
use cs453_concurrent_algorit.SharedLock.{SharedLock, num_locks}
use cs453_concurrent_algorit.Concurrent.Thread.{flag, version}
use cs453_concurrent_algorit.Concurrent.System.{System, Step, pick, Reach}
use cs453_concurrent_algorit.Concurrent.Locks.{Reach-LocksInv, held, holds}
use cs453_concurrent_algorit.Concurrent.Versions.{Reach-VersionsInv, Move-version-le, wv_of}

-- Mutual exclusion: no lock is held by two threads, and whoever holds a lock has its flag set.
pub mutual_exclusion :
    {raw : SharedLock} {mem : ℕ → ℕ} {s : System}
    → Reach raw mem s
    → (i j x : ℕ) → holds (s.pc i) x ≡ true
    → holds (s.pc j) x ≡ true
    → (i ≡ j) × (flag s.shared x ≡ true)
mutual_exclusion r i j x h k = let inv = Reach-LocksInv r in (inv.unique i j x h k, inv.own i x h)

-- No lock is lost: while no thread holds a lock, whether its transactions committed or aborted,
-- every lock of the table is free.
pub no_lock_leak :
    {raw : SharedLock} {mem : ℕ → ℕ} {s : System}
    → Reach raw mem s
    → ((i : ℕ) → held (s.pc i) ≡ [])
    → (x : ℕ) → x < num_locks
    → flag s.shared x ≡ false
no_lock_leak {s} r quiet x small = elim (Bool-cases (flag s.shared x)) [
  | inr free ↦ free
  | inl taken ↦
      let (i, h) = (Reach-LocksInv r).owned x small taken in ground (arith, ap (has x) (quiet i))
]

-- No step takes the version of a lock back, and no version of the table is ahead of the clock.
pub version_monotone :
    {raw : SharedLock} {mem : ℕ → ℕ} {s t : System}
    → Reach raw mem s
    → Step s t
    → (x : ℕ)
    → (version s.shared x ≤ version t.shared x)
      × (x < num_locks → version s.shared x ≤ s.shared.lock.clock)
version_monotone r (pick i mv) x = (
  Move-version-le (Reach-LocksInv r) (Reach-VersionsInv r) i mv x,
  (Reach-VersionsInv r).bounded x,
)

-- Two threads never commit with the same write version.
pub write_versions_differ :
    {raw : SharedLock} {mem : ℕ → ℕ} {s : System}
    → Reach raw mem s
    → (i j wv : ℕ) → wv_of (s.pc i) ≡ some wv
    → wv_of (s.pc j) ≡ some wv
    → i ≡ j
write_versions_differ r = (Reach-VersionsInv r).different
