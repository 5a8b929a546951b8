-- ===== src/Reference/Locking.antt =====
-- tm_begin and tm_end of reference/tm.c on a lock that nobody holds.
use cs453_concurrent_algorit.Base.{ℕ, ◌≡◌, ◌≢◌, Bool, true, false, some}
use cs453_concurrent_algorit.Heap.{
  Ptr, null, Machine, reference_region, ReferenceRegion, ok, with_cell,
}
use cs453_concurrent_algorit.Heap.Laws.{load-ok}
use cs453_concurrent_algorit.Reference.Lock.{
  RwLock, RwLockLaws, shared_lock_acquire, shared_lock_acquire_shared, shared_lock_release,
  shared_lock_release_shared,
}
use cs453_concurrent_algorit.Reference.{tm_begin, tm_end, read_write_tx, read_only_tx}

abbrev pub tx_for : Bool → ℕ
tx_for true = read_only_tx
tx_for false = read_write_tx

abbrev pub with_lock : Machine → Ptr → ReferenceRegion → ℕ → Machine
with_lock m p r lock = with_cell m p (some (reference_region (record r { lock = lock })))

module _ (L : RwLock) where
  -- What a lock object holds after tm_begin
  abbrev pub acquired : Bool → ℕ → ℕ
  acquired true lock = (L.rdlock lock).1
  acquired false lock = (L.wrlock lock).1

  pub tm_begin_lem :
      (is_free : ℕ → Bool) (laws : RwLockLaws L is_free) (is_ro : Bool) (p : Ptr)
      (r : ReferenceRegion) (m : Machine)
      → p ≢ null
      → m.cells p ≡ some (reference_region r)
      → is_free r.lock ≡ true
      → tm_begin L p is_ro m ≡ ok (tx_for is_ro) (with_lock m p r (acquired is_ro r.lock))
  unfolding tm_begin shared_lock_acquire shared_lock_acquire_shared
  tm_begin_lem is_free laws true p r m real at free = rw (
    load-ok m p (reference_region r) real at,
    load-ok m p (reference_region r) real at,
    laws.rdlock_done r.lock free,
  )
  tm_begin_lem is_free laws false p r m real at free = rw (
    load-ok m p (reference_region r) real at,
    load-ok m p (reference_region r) real at,
    laws.wrlock_done r.lock free,
  )

  pub tm_end_lem :
      (is_ro : Bool) (p : Ptr) (r : ReferenceRegion) (m : Machine)
      → p ≢ null
      → m.cells p ≡ some (reference_region r)
      → tm_end L p (tx_for is_ro) m ≡ ok true (with_lock m p r (L.unlock r.lock))
  unfolding tm_end shared_lock_release shared_lock_release_shared
  tm_end_lem true p r m real at =
      rw (load-ok m p (reference_region r) real at, load-ok m p (reference_region r) real at)
  tm_end_lem false p r m real at =
      rw (load-ok m p (reference_region r) real at, load-ok m p (reference_region r) real at)

  pub freed :
      (is_free : ℕ → Bool) (laws : RwLockLaws L is_free) (is_ro : Bool) (lock : ℕ)
      → is_free lock ≡ true
      → is_free (L.unlock (acquired is_ro lock)) ≡ true
  freed is_free laws true lock free = laws.rdlock_freed lock free
  freed is_free laws false lock free = laws.wrlock_freed lock free
