-- ===== src/Tl2.antt =====
-- The helper functions of 335740/tm.c: lock, validate, store and unlock the words of a transaction
-- that runs alone.
--
-- The `size` of store_write_set is region->align at its one call, and a word is what so many bytes at an
-- address spell: its memcpy copies one word. The `lock` of the region is passed along; a function that changes it returns it. The loops take
-- fuel, one more than the nodes. Concurrent has the same loops step by step.
pub mod Locks
pub mod Locking
pub mod Loops
mod Tests
use cs453_concurrent_algorit.Base.{ℕ, zero, suc, Bool, true, false, ◌==◌, if◌then◌else◌}
use cs453_concurrent_algorit.Spinlock.{idle}
use cs453_concurrent_algorit.SharedLock.{
  SharedLock, versioned_spinlock_acquire, versioned_spinlock_release, versioned_spinlock_update,
  versioned_spinlock_validate,
}
use cs453_concurrent_algorit.Heap.{
  Ptr, null, Cmd, out_of_fuel, pure, ◌>>=◌, ◌>>◌, load_read, load_write, load_word, set_word,
}

unfoldable pub unlock_write_set : ℕ → SharedLock → (first next_to_lock : Ptr) → Cmd SharedLock
unlock_write_set zero lock first next_to_lock = λ _. out_of_fuel
unlock_write_set (suc fuel) lock first next_to_lock =
    if first == next_to_lock then pure lock else do
      n ← load_write first
      unlock_write_set fuel (versioned_spinlock_release lock n.address) n.next next_to_lock

-- The loop of lock_write_set, with the fuel for unlock_write_set and `begin`.
unfoldable pub lock_rest : ℕ → ℕ → SharedLock → (begin first : Ptr) → Cmd (Bool × SharedLock)
lock_rest zero fuel_undo lock begin first = λ _. out_of_fuel
lock_rest (suc fuel) fuel_undo lock begin first = if first == null then pure (true, lock) else do
  n ← load_write first
  let (done, held) = versioned_spinlock_acquire idle lock n.address
  let undo = unlock_write_set fuel_undo held begin first >>= λ freed. pure (false, freed)
  if done then lock_rest fuel fuel_undo held begin n.next else undo

unfoldable pub lock_write_set : ℕ → SharedLock → Ptr → Cmd (Bool × SharedLock)
lock_write_set fuel lock first = lock_rest fuel fuel lock first first

unfoldable pub validate_read_set : ℕ → SharedLock → Ptr → ℕ → Cmd Bool
validate_read_set zero lock first rv = λ _. out_of_fuel
validate_read_set (suc fuel) lock first rv = if first == null then pure true else do
  n ← load_read first
  if versioned_spinlock_validate lock n.address rv
      then validate_read_set fuel lock n.next rv
      else pure false

unfoldable pub store_write_set : ℕ → SharedLock → Ptr → ℕ → Cmd SharedLock
store_write_set zero lock first wv = λ _. out_of_fuel
store_write_set (suc fuel) lock first wv = if first == null then pure lock else do
  n ← load_write first
  v ← load_word n.value
  set_word n.address v
  let new = versioned_spinlock_update lock n.address wv
  store_write_set fuel (versioned_spinlock_release new n.address) n.next wv
