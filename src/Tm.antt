-- ===== src/Tm.antt =====
-- The calls of 335740/tm.c, each made with no other thread running; Concurrent has tm_begin, tm_end,
-- tm_read and tm_write step by step.
--
-- A region is an object on the heap, and the words of its segments are `mem`. The loops over a list
-- take fuel, one more than its nodes; the loops of tm_read and tm_write over words take theirs, one
-- for each word.
--
-- A word is what the region->align bytes at an address spell, so that a memcpy of region->align bytes
-- copies one word. posix_memalign is an allocation, and a failure of it a NULL; the alignment that it is
-- asked for bears on the address alone, which the list of supplied addresses gives.
pub mod Begin
pub mod Cleanup
pub mod End
pub mod Own
pub mod Write
pub mod Allocation
pub mod Destroy
pub mod Read
mod Tests
use cs453_concurrent_algorit.Base.{ℕ, zero, suc, ◌+◌, Bool, true, false, ◌==◌, ltb, if◌then◌else◌}
use cs453_concurrent_algorit.Base.CInt.{int_suc}
use cs453_concurrent_algorit.SharedLock
use cs453_concurrent_algorit.SharedLock.{
  SharedLock, global_clock_get, global_clock_increment_and_get, versioned_spinlock_validate,
  segment_lock_acquire, segment_lock_release,
}
use cs453_concurrent_algorit.Heap.{
  Ptr, null, Cell, Transaction, SegmentNode, Region, transaction, segment_node, start_segment,
  region, Cmd, out_of_fuel, pure, ◌>>=◌, ◌>>◌, set, load_transaction, load_write, load_word,
  load_segment, load_region, malloc, free, word_at, set_word, clear_words,
}
use cs453_concurrent_algorit.Interface.{invalid_tx, Alloc, success_alloc, nomem_alloc}
use cs453_concurrent_algorit.ReadSet.{read_set_add}
use cs453_concurrent_algorit.WriteSet.{write_set_add, write_node_find, write_node_overwrite}
use cs453_concurrent_algorit.Transaction.{transaction_init, transaction_cleanup}
use cs453_concurrent_algorit.Tl2.{
  unlock_write_set, lock_write_set, validate_read_set, store_write_set,
}

-- `region->lock` after a call that was given `&region->lock`
abbrev pub set_lock : Ptr → SharedLock → Cmd (Unit {0})
set_lock shared lock = do r ← load_region shared; set shared (region (record r { lock = lock }))

-- Fresh memory holds junk, in the fields of the lock as well.
abbrev pub blank_lock : ℕ → SharedLock
blank_lock junk = record {
  clock = junk;
  locks = λ _. record { lock = true; version = junk };
  segment_lock = true;
}

unfoldable pub tm_create : (size align : ℕ) → Cmd Ptr
tm_create size align = do
  shared ← malloc (λ junk.
      region
        (record { lock = blank_lock junk; start = junk; allocs = junk; size = junk; align = junk }))
  if shared == null then pure null else do
    start ← malloc (λ _. start_segment)
    if start == null then free shared >> pure null else do
      r ← load_region shared
      clear_words start size
      set shared (
          region (record {
            lock = SharedLock.init r.lock;
            start = start;
            allocs = null;
            size = size;
            align = align;
          }))
      pure shared

-- The loop of tm_destroy.
unfoldable pub free_segments : ℕ → Ptr → Cmd (Unit {0})
free_segments zero shared = λ _. out_of_fuel
free_segments (suc fuel) shared = do
  r ← load_region shared
  if r.allocs == null then pure tt else do
    n ← load_segment r.allocs
    free r.allocs
    set shared (region (record r { allocs = n.next }))
    free_segments fuel shared

unfoldable pub tm_destroy : ℕ → Ptr → Cmd (Unit {0})
tm_destroy fuel shared = do
  free_segments fuel shared
  r ← load_region shared
  free r.start
  free shared

unfoldable pub tm_start : Ptr → Cmd Ptr
tm_start shared = load_region shared >>= λ r. pure r.start

unfoldable pub tm_size : Ptr → Cmd ℕ
tm_size shared = load_region shared >>= λ r. pure r.size

unfoldable pub tm_align : Ptr → Cmd ℕ
tm_align shared = load_region shared >>= λ r. pure r.align

unfoldable pub tm_begin : Ptr → Bool → Cmd Ptr
tm_begin shared is_ro = do
  tx ← malloc (λ junk. transaction (record {
    is_ro = true;
    rv = junk;
    first_read_node = junk;
    last_read_node = junk;
    first_write_node = junk;
    last_write_node = junk;
  }))
  if tx == null then pure invalid_tx else do
    transaction_init tx is_ro
    r ← load_region shared
    t ← load_transaction tx
    set tx (transaction (record t { rv = global_clock_get r.lock }))
    pure tx

-- `transaction_cleanup(transaction); free(transaction); return false;`
unfoldable pub abort : ℕ → Ptr → Cmd Bool
abort fuel tx = do transaction_cleanup fuel tx; free tx; pure false

-- The branch of tm_end on `wv != transaction->rv + 1`: whether the commit goes on.
unfoldable pub check_reads : ℕ → SharedLock → Transaction → ℕ → Cmd Bool
check_reads fuel lock t wv =
    if wv == int_suc t.rv then pure true else validate_read_set fuel lock t.first_read_node t.rv

-- The two ways in which tm_end goes on when the write set is locked.
unfoldable pub end_valid : ℕ → (shared tx : Ptr) → Transaction → SharedLock → ℕ → Cmd Bool
end_valid fuel shared tx t lock wv = do
  new ← store_write_set fuel lock t.first_write_node wv
  set_lock shared new
  transaction_cleanup fuel tx
  free tx
  pure true

unfoldable pub end_invalid : ℕ → (shared tx : Ptr) → Transaction → SharedLock → Cmd Bool
end_invalid fuel shared tx t lock = do
  freed ← unlock_write_set fuel lock t.first_write_node null
  set_lock shared freed
  abort fuel tx

unfoldable pub end_locked : ℕ → (shared tx : Ptr) → Transaction → SharedLock → Cmd Bool
end_locked fuel shared tx t held = do
  let (wv, lock) = global_clock_increment_and_get held
  valid ← check_reads fuel lock t wv
  if valid then end_valid fuel shared tx t lock wv else end_invalid fuel shared tx t lock

unfoldable pub tm_end : ℕ → (shared tx : Ptr) → Cmd Bool
tm_end fuel shared tx = do
  t ← load_transaction tx
  if t.is_ro then free tx >> pure true else do
    r ← load_region shared
    (done, lock) ← lock_write_set fuel r.lock t.first_write_node
    if done then end_locked fuel shared tx t lock else set_lock shared lock >> abort fuel tx

-- The branches of tm_read in a read-write transaction.
unfoldable pub copy_added : Ptr → Transaction → (source_word target_word : ℕ) → Cmd Bool
copy_added tx t source_word target_word = do
  (done, first, last) ← read_set_add t.first_read_node t.last_read_node source_word
  set tx (transaction (record t { first_read_node = first; last_read_node = last }))
  if done then (word_at source_word >>= λ v. set_word target_word v >> pure true) else pure false

unfoldable pub copy_own : Ptr → ℕ → Cmd Bool
copy_own old_node target_word = do
  n ← load_write old_node
  v ← load_word n.value
  set_word target_word v
  pure true

-- The body of the loop of tm_read up to the validation: the word is copied, from the write set if it
-- is there, or a read node could not be created. Each memcpy is of region->align bytes, one word.
unfoldable pub copy_in : ℕ → Ptr → Transaction → (source_word target_word : ℕ) → Cmd Bool
copy_in fuel tx t source_word target_word = do
  let copy = word_at source_word >>= λ v. set_word target_word v >> pure true
  if t.is_ro then copy else do
    old_node ← write_node_find fuel t.first_write_node source_word
    if old_node == null
        then copy_added tx t source_word target_word
        else copy_own old_node target_word

unfoldable pub read_words :
    (words fuel : ℕ) (shared tx : Ptr) (source_word target_word num_bytes_read size : ℕ) → Cmd Bool
read_words zero fuel shared tx source_word target_word num_bytes_read size = λ _. out_of_fuel
read_words (suc words) fuel shared tx source_word target_word num_bytes_read size = do
  r ← load_region shared
  t ← load_transaction tx
  copied ← copy_in fuel tx t source_word target_word
  let read = num_bytes_read + r.align
  let next =
      read_words words fuel shared tx (source_word + r.align) (target_word + r.align) read size
  let more = if ltb read size then next else pure true
  let valid = versioned_spinlock_validate r.lock source_word t.rv
  if copied then (if valid then more else abort fuel tx) else abort fuel tx

unfoldable pub tm_read : (words fuel : ℕ) (shared tx : Ptr) (source size target : ℕ) → Cmd Bool
tm_read words fuel shared tx source size target =
    read_words words fuel shared tx source target 0 size

-- The body of the loop of tm_write.
unfoldable pub add_write : Ptr → Transaction → (source_word target_word : ℕ) → Cmd Bool
add_write tx t source_word target_word = do
  (done, first, last) ← write_set_add t.first_write_node t.last_write_node target_word source_word
  set tx (transaction (record t { first_write_node = first; last_write_node = last }))
  pure done

unfoldable pub write_word : ℕ → Ptr → Transaction → (source_word target_word : ℕ) → Cmd Bool
write_word fuel tx t source_word target_word = do
  old_node ← write_node_find fuel t.first_write_node target_word
  let overwrite = write_node_overwrite old_node source_word >> pure true
  if old_node == null then add_write tx t source_word target_word else overwrite

unfoldable pub write_words :
    (words fuel : ℕ) (shared tx : Ptr) (source_word target_word num_bytes_read size : ℕ) → Cmd Bool
write_words zero fuel shared tx source_word target_word num_bytes_read size = λ _. out_of_fuel
write_words (suc words) fuel shared tx source_word target_word num_bytes_read size = do
  r ← load_region shared
  t ← load_transaction tx
  done ← write_word fuel tx t source_word target_word
  let read = num_bytes_read + r.align
  let next =
      write_words words fuel shared tx (source_word + r.align) (target_word + r.align) read size
  let more = if ltb read size then next else pure true
  if done then more else abort fuel tx

unfoldable pub tm_write : (words fuel : ℕ) (shared tx : Ptr) (source size target : ℕ) → Cmd Bool
tm_write words fuel shared tx source size target =
    write_words words fuel shared tx source target 0 size

-- `sizeof(struct segment_node)`
abbrev pub segment_node_size : ℕ
segment_node_size = 16

-- `if (sn->next) sn->next->prev = sn;`
unfoldable pub link_back : Ptr → Ptr → Cmd (Unit {0})
link_back next sn =
    if next == null
    then pure tt
    else do n ← load_segment next; set next (segment_node (record n { prev = sn }))

-- The critical section of tm_alloc.
unfoldable pub add_segment : (shared sn : Ptr) → Cmd (Unit {0})
add_segment shared sn = do
  r ← load_region shared
  set_lock shared (segment_lock_acquire r.lock)
  r ← load_region shared
  n ← load_segment sn
  set sn (segment_node (record n { next = r.allocs }))
  link_back r.allocs sn
  set shared (region (record r { allocs = sn }))
  r ← load_region shared
  set_lock shared (segment_lock_release r.lock)

-- The region is followed for the alignment, which posix_memalign is asked for.
unfoldable pub tm_alloc : (shared tx : Ptr) → ℕ → Cmd Alloc
tm_alloc shared tx size = do
  load_region shared
  sn ← malloc (λ junk. segment_node (record { prev = junk; next = junk }))
  if sn == null then pure nomem_alloc else do
    n ← load_segment sn
    set sn (segment_node (record n { prev = null }))
    add_segment shared sn
    let segment = sn + segment_node_size
    clear_words segment size
    pure (success_alloc segment)

unfoldable pub tm_free : (shared tx segment : Ptr) → Cmd Bool
tm_free shared tx segment = pure true
