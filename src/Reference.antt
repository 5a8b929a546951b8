-- ===== src/Reference.antt =====
-- reference/: transactions under one readers-writer lock, with direct access to shared memory.
--
-- The lock is that of pthreads, which is a parameter: what its functions return for the content of a
-- lock object, and what the object holds then. A call that would wait for another thread is outside
-- the model, since here a thread runs alone.
pub mod Lock
pub mod Segments
pub mod Transactions
mod Locking
pub mod Atomicity
pub mod Tests
use cs453_concurrent_algorit.Base.{
  ℕ, zero, suc, ◌+◌, ◌-◌, ◌/◌, Bool, true, false, ◌==◌, if◌then◌else◌,
}
use cs453_concurrent_algorit.Heap.{
  Ptr, null, Cell, ReferenceRegion, SegmentNode, reference_region, segment_node, start_segment, Cmd,
  out_of_fuel, pure, ◌>>=◌, ◌>>◌, set, load_reference, load_segment, malloc, free, clear_words,
  copy_words,
}
use cs453_concurrent_algorit.Interface.{
  invalid_shared, invalid_tx, Alloc, success_alloc, nomem_alloc, Library,
}
use Lock.{
  RwLock, shared_lock_init, shared_lock_cleanup, shared_lock_acquire, shared_lock_release,
  shared_lock_acquire_shared, shared_lock_release_shared,
}

-- `UINTPTR_MAX - 10` and `UINTPTR_MAX - 11`
abbrev pub read_only_tx : ℕ
read_only_tx = 18446744073709551605

abbrev pub read_write_tx : ℕ
read_write_tx = 18446744073709551604

-- `sizeof(struct segment_node)`
abbrev pub segment_node_size : ℕ
segment_node_size = 16

-- `if (next) next->prev = prev;`
unfoldable pub set_prev : (next prev : Ptr) → Cmd (Unit {0})
set_prev next prev =
    if next == null
    then pure tt
    else do n ← load_segment next; set next (segment_node (record n { prev = prev }))

-- The removal of `sn`, whose fields are `n`, from the front of the list or behind another segment.
unfoldable pub unlink_next : (shared : Ptr) → SegmentNode → Cmd (Unit {0})
unlink_next shared n =
    if n.prev == null
    then (do
      r ← load_reference shared
      set shared (reference_region (record r { allocs = n.next })))
    else (do p ← load_segment n.prev; set n.prev (segment_node (record p { next = n.next })))

unfoldable pub free_segments : ℕ → Ptr → Cmd (Unit {0})
free_segments zero shared = λ _. out_of_fuel
free_segments (suc fuel) shared = do
  r ← load_reference shared
  if r.allocs == null then pure tt else do
    n ← load_segment r.allocs
    free r.allocs
    set shared (reference_region (record r { allocs = n.next }))
    free_segments fuel shared

unfoldable pub tm_start : Ptr → Cmd Ptr
tm_start shared = load_reference shared >>= λ r. pure r.start

unfoldable pub tm_size : Ptr → Cmd ℕ
tm_size shared = load_reference shared >>= λ r. pure r.size

unfoldable pub tm_align : Ptr → Cmd ℕ
tm_align shared = load_reference shared >>= λ r. pure r.align

-- The words of 8 bytes that `size` bytes take
abbrev pub words_of : ℕ → ℕ
words_of size = (size + 7) / 8

unfoldable pub tm_read : Ptr → ℕ → (source size target : ℕ) → Cmd Bool
tm_read shared tx source size target = copy_words (words_of size) source target >> pure true

unfoldable pub tm_write : Ptr → ℕ → (source size target : ℕ) → Cmd Bool
tm_write shared tx source size target = copy_words (words_of size) source target >> pure true

-- The insertion of `sn` at the front of the list.
unfoldable pub link_front : (shared sn : Ptr) → Cmd (Unit {0})
link_front shared sn = do
  n ← load_segment sn
  set sn (segment_node (record n { prev = null }))
  r ← load_reference shared
  n ← load_segment sn
  set sn (segment_node (record n { next = r.allocs }))
  set_prev r.allocs sn
  r ← load_reference shared
  set shared (reference_region (record r { allocs = sn }))

unfoldable pub tm_alloc : Ptr → ℕ → ℕ → Cmd Alloc
tm_alloc shared tx size = do
  load_reference shared
  sn ← malloc (λ junk. segment_node (record { prev = junk; next = junk }))
  if sn == null then pure nomem_alloc else do
    link_front shared sn
    let segment = sn + segment_node_size
    clear_words segment size
    pure (success_alloc segment)

unfoldable pub tm_free : Ptr → ℕ → Ptr → Cmd Bool
tm_free shared tx segment = do
  let sn = segment - segment_node_size
  n ← load_segment sn
  unlink_next shared n
  n ← load_segment sn
  set_prev n.next n.prev
  free sn
  pure true

module _ (L : RwLock) where
  -- `region->lock` after a call that was given `&region->lock`
  abbrev pub set_lock : Ptr → ℕ → Cmd (Unit {0})
  set_lock shared lock = do
    r ← load_reference shared
    set shared (reference_region (record r { lock = lock }))

  -- The rest of tm_create once both allocations have succeeded.
  unfoldable pub init_region : (shared start : Ptr) → (size align : ℕ) → Cmd Ptr
  init_region shared start size align = do
    r ← load_reference shared
    let (done, lock) = shared_lock_init L r.lock
    if done
        then (do
          clear_words start size
          set shared (
              reference_region
                (record { lock = lock; start = start; allocs = null; size = size; align = align }))
          pure shared)
        else (free start >> free shared >> pure invalid_shared)

  unfoldable pub tm_create : (size align : ℕ) → Cmd Ptr
  tm_create size align = do
    shared ← malloc (λ junk.
        reference_region
          (record { lock = junk; start = junk; allocs = junk; size = junk; align = junk }))
    if shared == null then pure invalid_shared else do
      start ← malloc (λ _. start_segment)
      if start == null
          then (free shared >> pure invalid_shared)
          else init_region shared start size align

  unfoldable pub tm_destroy : ℕ → Ptr → Cmd (Unit {0})
  tm_destroy fuel shared = do
    free_segments fuel shared
    r ← load_reference shared
    free r.start
    set_lock shared (shared_lock_cleanup L r.lock)
    free shared

  unfoldable pub tm_begin : Ptr → Bool → Cmd ℕ
  tm_begin shared is_ro = do
    r ← load_reference shared
    let (done, lock) =
        if is_ro then shared_lock_acquire_shared L r.lock else shared_lock_acquire L r.lock
    set_lock shared lock
    pure (if done then (if is_ro then read_only_tx else read_write_tx) else invalid_tx)

  unfoldable pub tm_end : Ptr → ℕ → Cmd Bool
  tm_end shared tx = do
    r ← load_reference shared
    let lock =
        if tx == read_only_tx
        then shared_lock_release_shared L r.lock
        else shared_lock_release L r.lock
    set_lock shared lock
    pure true

  -- The library, with the fuel for tm_destroy.
  abbrev pub reference : ℕ → Library
  reference fuel = record {
    tm_create = tm_create;
    tm_destroy = tm_destroy fuel;
    tm_start = tm_start;
    tm_size = tm_size;
    tm_align = tm_align;
    tm_begin = tm_begin;
    tm_end = tm_end;
    tm_read = tm_read;
    tm_write = tm_write;
    tm_alloc = tm_alloc;
    tm_free = tm_free;
  }
