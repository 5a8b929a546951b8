-- ===== src/Concurrent/Anomaly.antt =====
-- tm_read of 335740/tm.c validates a word only after it has copied it. Between the tick of a writer
-- and its stores, a transaction that begins takes the writer's version for its read version and
-- still copies the old word, which then passes validation.
use native.Mathlib.Bridge.{le_by_compare, IsLe}
use cs453_concurrent_algorit.Base.{ℕ, ◌+◌, ◌^◌, ◌≤◌, ◌≡◌, refl, true, false, [], ◌∷◌, arith, update}
use cs453_concurrent_algorit.Spinlock
use cs453_concurrent_algorit.SharedLock.{
  SharedLock, find_lock, init, global_clock_get, global_clock_increment_and_get,
  versioned_spinlock_release, versioned_spinlock_update,
}
use cs453_concurrent_algorit.SharedLock.Laws.{init-entry, find_lock-lt}
use cs453_concurrent_algorit.Concurrent.Thread.{Shared, flag, version, Seen, Tx, Pc, ended, Move}
use cs453_concurrent_algorit.Concurrent.System.{System, pick, start, Reach, initial, later}

-- The thread has committed a transaction that read the word at `a` and stored one more than that.
abbrev pub HasIncremented : ℕ → Pc → Type 0
HasIncremented a p =
    (tx : Tx) × (e : Seen) × (p ≡ ended tx true)
    × (tx.seen ≡ e ∷ [])
    × (e.address ≡ a)
    × (tx.writes ≡ record { address = a; value = e.value + 1 } ∷ [])

pub move :
    {raw : SharedLock} {mem : ℕ → ℕ} {s : System}
    → Reach raw mem s
    → (i : ℕ) {m : Shared} {p : Pc} → Move s.shared (s.pc i) m p
    → Reach raw mem (record { shared = m; pc = update s.pc i p })
move r i mv = later r (pick i mv)

module _ (raw : SharedLock) (mem : ℕ → ℕ) (a : ℕ) where
  pub free_at_start : flag (start raw mem).shared (find_lock a) ≡ false
  unfolding init
  free_at_start = ground (arith, init-entry raw (find_lock a) (find_lock-lt a))

  pub old_at_start : version (start raw mem).shared (find_lock a) ≤ 0
  unfolding init
  old_at_start = ground (arith, init-entry raw (find_lock a) (find_lock-lt a))

  -- Thread 0 has read the word, has locked it, and is about to store one more; thread 1 has begun
  -- a transaction.
  unfoldable pub about_to_store : (s : System) × Reach raw mem s
  unfolding init global_clock_get global_clock_increment_and_get IsLe
  about_to_store =
      let r = move initial 0 (Move.begin false) in
      let r = move r 0 (Move.copy_rw a refl refl) in
      let r = move r 0 (Move.flag_free free_at_start) in
      let r = move r 0 (Move.version_old old_at_start) in
      let r = move r 0 (Move.write a (mem a + 1)) in
      let r = move r 0 (Move.end_rw refl) in
      let r = move r 0 (Move.acquire free_at_start) in
      let r = move r 0 (Move.tick_next (le_by_compare 2 (2 ^ 31) tt) refl) in
      (_, move r 1 (Move.begin false))

  -- Two transactions that read the same word, whatever it holds, and store one more than they read
  -- can both commit although the word grows by one only.
  pub lost_update :
      (s : System) × Reach raw mem s
      × HasIncremented a (s.pc 0)
      × HasIncremented a (s.pc 1)
      × (s.shared.mem a ≡ mem a + 1)
  unfolding about_to_store versioned_spinlock_release versioned_spinlock_update Spinlock.release
      Spinlock.update
  lost_update =
      let r = about_to_store.1 in
      let r = move r 1 (Move.copy_rw a refl refl) in
      let r = move r 0 Move.store_word in
      let r = move r 0 Move.update_version in
      let r = move r 0 Move.unlock in
      let r = move r 0 Move.commit in
      let r = move r 1 (Move.flag_free (ground arith)) in
      let r = move r 1 (Move.version_old (ground arith)) in
      let r = move r 1 (Move.write a (mem a + 1)) in
      let r = move r 1 (Move.end_rw refl) in
      let r = move r 1 (Move.acquire (ground arith)) in
      let r = move r 1 (Move.tick_next (omega arith) (omega arith)) in
      let r = move r 1 Move.store_word in
      let r = move r 1 Move.update_version in
      let r = move r 1 Move.unlock in
      let r = move r 1 Move.commit in
      (_, r, (_, _, refl, refl, refl, refl), (_, _, refl, refl, refl, refl), ground arith)
