-- ===== src/Tm/End.antt =====
-- `tm_end` of 335740/tm.c, of a transaction that no other thread disturbs.
use cs453_concurrent_algorit.Base.{
  ℕ, ◌<◌, ◌≡◌, ◌≢◌, ◌∙◌, Bool, true, false, some, List, update, ◌==◌, if◌then◌else◌, arith, length,
  ne_of_has, Bool-cases, inl, inr,
}
use cs453_concurrent_algorit.Base.CInt.{int_suc}
use cs453_concurrent_algorit.SharedLock.{SharedLock, global_clock_increment_and_get}
use cs453_concurrent_algorit.Heap.{
  Ptr, null, Cells, transaction, region, Transaction, Region, Machine, Run, ok, load, ◌>>◌,
}
use cs453_concurrent_algorit.Heap.Laws.{load-ok, update_other}
use cs453_concurrent_algorit.ReadSet.Chain as ReadChain
use cs453_concurrent_algorit.WriteSet.Chain.{Entry, addresses, Chain-frame, Within-ne}
use cs453_concurrent_algorit.Tl2.Locks.{taken, can_take, taken-tick, can_take-tick}
use cs453_concurrent_algorit.Tl2.Locking.{lock_write_set_lem, unlock_write_set_lem}
use cs453_concurrent_algorit.Tl2.Loops.{
  all_valid, stored, published, validate_read_set_lem, store_write_set_lem,
}
use cs453_concurrent_algorit.Tm.{
  check_reads, end_valid, end_invalid, end_locked, tm_end, set_lock, abort,
}
use cs453_concurrent_algorit.Tm.Cleanup.{
  IsTransaction, freed, not-has-reads, not-has-objects, kind_ne, transaction_cleanup_lem,
  free_transaction_lem, abort_lem,
}

abbrev pub ticked : SharedLock → SharedLock
ticked lock = record lock { clock = int_suc lock.clock }

-- Whether a commit with the locks `lock` held goes on: the clock has passed the read version by one
-- only, or every read is valid.
abbrev pub goes_on : SharedLock → ℕ → List ℕ → Bool
goes_on lock rv reads =
    if int_suc lock.clock == int_suc rv then true else all_valid (ticked lock) rv reads

-- What a commit does to the locks and to shared memory.
abbrev pub commit : SharedLock → ℕ → List ℕ → List Entry → (ℕ → ℕ) → Bool × SharedLock × (ℕ → ℕ)
commit lock rv reads es mem =
    let held = taken lock (addresses es) in
    if can_take lock (addresses es)
    then (if goes_on held rv reads
        then (true, published (int_suc held.clock) (ticked held) (addresses es), stored mem es)
        else (false, record lock { clock = int_suc held.clock }, mem))
    else (false, lock, mem)

-- The cells with other locks in the region at `shared`.
abbrev pub with_lock : Cells → Ptr → Region → SharedLock → Cells
with_lock cells shared r lock = update cells shared (some (region (record r { lock = lock })))

-- The run that has had this effect, and has freed the transaction.
abbrev pub ended :
    Machine
    → (shared tx : Ptr) → Region
    → List ReadChain.Entry
    → List Entry
    → Bool × SharedLock × (ℕ → ℕ)
    → Run Bool
ended m shared tx r rs es (done, lock, mem) =
    ok done (record m { cells = freed tx rs es (with_lock m.cells shared r lock); mem = mem })

with_lock-IsTransaction :
    (cells : Cells) (shared tx : Ptr) (r : Region) (lock : SharedLock) (t : Transaction)
    → (rs : List ReadChain.Entry) (es : List Entry) → cells shared ≡ some (region r)
    → IsTransaction cells tx t rs es
    → IsTransaction (with_lock cells shared r lock) tx t rs es
with_lock-IsTransaction cells shared tx r lock t rs es at_shared s =
    let no_read = not-has-reads cells rs shared _ s.reads at_shared (omega arith) in
    let no_write =
      not-has-objects cells es shared _ s.writes at_shared (omega arith) (omega arith) in
    let ne = kind_ne cells tx shared _ _ s.at_tx at_shared (omega arith) in
    record {
      real = s.real;
      at_tx = update_other cells shared tx _ ne ∙ s.at_tx;
      first_read = s.first_read;
      first_write = s.first_write;
      reads =
          ReadChain.Chain-frame cells (with_lock cells shared r lock) rs
            (λ q h.
              update_other cells shared q _ (ne_of_has shared q (ReadChain.nodes rs) no_read h))
            s.reads;
      writes =
          Chain-frame cells (with_lock cells shared r lock) es
            (λ q w. update_other cells shared q _ (Within-ne shared q es no_write.1 no_write.2 w))
            s.writes;
    }

module _ (fuel : ℕ) (m : Machine) (shared tx : Ptr) (r : Region) (t : Transaction)
    (rs : List ReadChain.Entry) (es : List Entry) (real : shared ≢ null)
    (at_shared : m.cells shared ≡ some (region r)) (s : IsTransaction m.cells tx t rs es)
    (enough_reads : length rs < fuel) (enough : length es < fuel) where
  load-shared :
      (mem : ℕ → ℕ) → load shared (record m { mem = mem }) ≡ ok (region r) (record m { mem = mem })
  load-shared mem = load-ok (record m { mem = mem }) shared (region r) real at_shared

  check_reads_lem :
      (lock : SharedLock)
      → check_reads fuel (ticked lock) t (int_suc lock.clock) m
        ≡ ok (goes_on lock t.rv (ReadChain.addresses rs)) m
  unfolding check_reads
  check_reads_lem lock = elim (Bool-cases (int_suc lock.clock == int_suc t.rv)) [
    | inl next ↦ rw next
    | inr later ↦ rw (
      later,
      s.first_read,
      validate_read_set_lem fuel (ticked lock) t.rv m rs s.reads enough_reads,
    )
  ]

  end_valid_lem :
      (lock : SharedLock) (wv : ℕ)
      → end_valid fuel shared tx t lock wv m
        ≡ ended m shared tx r rs es (true, published wv lock (addresses es), stored m.mem es)
  unfolding end_valid
  end_valid_lem lock wv =
      let new = published wv lock (addresses es) in
      let s' = with_lock-IsTransaction m.cells shared tx r new t rs es at_shared s in
      let m' = record m { cells = with_lock m.cells shared r new; mem = stored m.mem es } in
      rw (
        s.first_write,
        store_write_set_lem fuel lock wv m es s.writes enough,
        load-shared (stored m.mem es),
        transaction_cleanup_lem fuel m' tx t rs es s' enough_reads enough,
        free_transaction_lem m' tx t rs es s',
      )

  abort_locked :
      (lock : SharedLock)
      → (set_lock shared lock >> abort fuel tx) m ≡ ended m shared tx r rs es (false, lock, m.mem)
  abort_locked lock =
      let s' = with_lock-IsTransaction m.cells shared tx r lock t rs es at_shared s in
      let m' = record m { cells = with_lock m.cells shared r lock } in
      rw (load-shared m.mem, abort_lem fuel m' tx t rs es s' enough_reads enough)

  end_invalid_lem :
      (lock : SharedLock) (c : ℕ)
      → can_take lock (addresses es) ≡ true
      → end_invalid fuel shared tx t (record (taken lock (addresses es)) { clock = c }) m
        ≡ ended m shared tx r rs es (false, record lock { clock = c }, m.mem)
  unfolding end_invalid
  end_invalid_lem lock c able =
      rw
        (
          s.first_write,
          taken-tick c lock (addresses es),
          unlock_write_set_lem fuel (record lock { clock = c }) m es s.writes enough
              (can_take-tick c lock (addresses es) ∙ able),
        )
        (abort_locked (record lock { clock = c }))

  end_locked_lem :
      (lock : SharedLock)
      → can_take lock (addresses es) ≡ true
      → end_locked fuel shared tx t (taken lock (addresses es)) m
        ≡ ended m shared tx r rs es (commit lock t.rv (ReadChain.addresses rs) es m.mem)
  unfolding end_locked global_clock_increment_and_get
  end_locked_lem lock able =
      let held = taken lock (addresses es) in
      elim (Bool-cases (goes_on held t.rv (ReadChain.addresses rs))) [
        | inl valid ↦
            rw (check_reads_lem held, able, valid)
              (end_valid_lem (ticked held) (int_suc held.clock))
        | inr invalid ↦
            rw (check_reads_lem held, able, invalid)
              (end_invalid_lem lock (int_suc held.clock) able)
      ]

  tm_end-able :
      t.is_ro ≡ false
      → can_take r.lock (addresses es) ≡ true
      → tm_end fuel shared tx m ≡ end_locked fuel shared tx t (taken r.lock (addresses es)) m
  unfolding tm_end
  tm_end-able rw_tx able = rw (
    load-ok m tx (transaction t) s.real s.at_tx,
    rw_tx,
    load-shared m.mem,
    s.first_write,
    lock_write_set_lem fuel r.lock m es s.writes enough,
    able,
  )

  -- With fuel above the sizes of its sets, `tm_end` of a read-write transaction ends without a fault
  -- and frees the transaction with its read set and write set, each object once and nothing else.
  -- It returns false with the locks as they were if the write set cannot be locked; otherwise the
  -- clock is ticked, and if the new clock is not one above the read version and some read is not
  -- valid under the locks held, it returns false with the other locks as they were; otherwise it
  -- returns true, the words of the write set are in shared memory, and their locks are free and have
  -- the new clock for version.
  pub tm_end_lem :
      t.is_ro ≡ false
      → tm_end fuel shared tx m
        ≡ ended m shared tx r rs es (commit r.lock t.rv (ReadChain.addresses rs) es m.mem)
  unfolding tm_end
  tm_end_lem rw_tx = elim (Bool-cases (can_take r.lock (addresses es))) [
    | inl able ↦ tm_end-able rw_tx able ∙ end_locked_lem r.lock able
    | inr unable ↦
        rw
          (
            load-ok m tx (transaction t) s.real s.at_tx,
            rw_tx,
            load-shared m.mem,
            s.first_write,
            lock_write_set_lem fuel r.lock m es s.writes enough,
            unable,
          )
          (abort_locked r.lock)
  ]
