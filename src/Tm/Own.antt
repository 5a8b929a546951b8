-- ===== src/Tm/Own.antt =====
-- `tm_end` of 335740/tm.c in the cases that stand apart: a transaction that wrote to a lock it read
-- under, and one that is read-only.
use cs453_concurrent_algorit.Base.{
  ℕ, ◌<◌, ◌≡◌, ◌≢◌, ◌∙◌, ap, subst, true, false, some, none, List, [], ◌∷◌, has, ◌==◌, arith,
  length, Bool-cases, inl, inr,
}
use cs453_concurrent_algorit.Base.CInt.{int_suc}
use cs453_concurrent_algorit.Spinlock.{validate}
use cs453_concurrent_algorit.SharedLock.{
  SharedLock, find_lock, lock_at, versioned_spinlock_validate,
}
use cs453_concurrent_algorit.Heap.{
  Ptr, null, transaction, region, Transaction, Region, Machine, ok, with_cell,
}
use cs453_concurrent_algorit.Heap.Laws.{load-ok, free-ok}
use cs453_concurrent_algorit.ReadSet.Chain as ReadChain
use cs453_concurrent_algorit.WriteSet.Chain.{Entry, addresses}
use cs453_concurrent_algorit.Tl2.Locks.{indices, taken, can_take, taken-locks, taken-clock}
use cs453_concurrent_algorit.Tl2.Loops.{all_valid}
use cs453_concurrent_algorit.Tm.{tm_end}
use cs453_concurrent_algorit.Tm.Cleanup.{IsTransaction}
use cs453_concurrent_algorit.Tm.End.{ticked, commit, ended, tm_end_lem}

-- Validation under a lock that is held.
validate-held :
    (lock : SharedLock) (a rv : ℕ)
    → (lock_at lock a).lock ≡ true
    → versioned_spinlock_validate lock a rv ≡ false
unfolding versioned_spinlock_validate validate
validate-held lock a rv held = rw held

all_valid-held :
    (lock : SharedLock) (rv : ℕ) (xs : List ℕ) (i : ℕ)
    → (lock.locks i).lock ≡ true
    → has i (indices xs) ≡ true
    → all_valid lock rv xs ≡ false
all_valid-held lock rv [] i held inside = cc
all_valid-held lock rv (a ∷ xs) i held inside = elim (Bool-cases (i == find_lock a)) [
  | inl here ↦
      rw (validate-held lock a rv (subst (λ j. (lock.locks j).lock ≡ true) (same here) held))
  | inr there ↦ elim (Bool-cases (versioned_spinlock_validate lock a rv)) [
    | inl valid ↦ rw (valid, all_valid-held lock rv xs i held (later there))
    | inr invalid ↦ rw invalid
  ]
]
  where
    same : (i == find_lock a) ≡ true → i ≡ find_lock a
    same h = ground arith

    later : (i == find_lock a) ≡ false → has i (indices xs) ≡ true
    later h = ground arith

taken-held :
    (lock : SharedLock) (xs : List ℕ) (i : ℕ)
    → has i (indices xs) ≡ true
    → ((taken lock xs).locks i).lock ≡ true
taken-held lock xs i inside = rw (taken-locks i lock xs, inside)

-- The validation finds a lock of the write set held.
commit-own :
    (lock : SharedLock) (rv : ℕ) (reads : List ℕ) (es : List Entry) (mem : ℕ → ℕ) (i : ℕ)
    → has i (indices reads) ≡ true
    → has i (indices (addresses es)) ≡ true
    → (int_suc lock.clock == int_suc rv) ≡ false
    → (new : SharedLock) × (commit lock rv reads es mem ≡ (false, new, mem))
commit-own lock rv reads es mem i read written moved =
    let held = taken lock (addresses es) in
    let invalid : all_valid (ticked held) rv reads ≡ false =
      all_valid-held (ticked held) rv reads i (taken-held lock (addresses es) i written) read in
    elim (Bool-cases (can_take lock (addresses es))) [
      | inl able ↦ (
        record lock { clock = int_suc held.clock },
        rw (able, invalid, taken-clock lock (addresses es), moved),
      )
      | inr unable ↦ (lock, rw unable)
    ]

-- If a read and a written address have the same lock, as when a word is both read and written, and
-- the clock is not the read version, then `tm_end` of a read-write transaction returns false and
-- leaves shared memory as it was, although no other thread runs: it finds the lock that it holds
-- itself. It frees the transaction.
pub tm_end-own :
    (fuel : ℕ) (m : Machine) (shared tx : Ptr) (r : Region) (t : Transaction)
    → (rs : List ReadChain.Entry) (es : List Entry) (i : ℕ) → shared ≢ null
    → m.cells shared ≡ some (region r)
    → IsTransaction m.cells tx t rs es
    → length rs < fuel
    → length es < fuel
    → t.is_ro ≡ false
    → has i (indices (ReadChain.addresses rs)) ≡ true
    → has i (indices (addresses es)) ≡ true
    → (int_suc r.lock.clock == int_suc t.rv) ≡ false
    → (new : SharedLock) × (tm_end fuel shared tx m ≡ ended m shared tx r rs es (false, new, m.mem))
tm_end-own fuel m shared tx r t rs es i real at_shared s enough_reads enough rw_tx read written
      moved =
    let (new, aborted) =
      commit-own r.lock t.rv (ReadChain.addresses rs) es m.mem i read written moved in
    (
      new,
      tm_end_lem fuel m shared tx r t rs es real at_shared s enough_reads enough rw_tx
          ∙ ap (ended m shared tx r rs es) aborted,
    )

-- `tm_end` of a read-only transaction frees its object and returns true.
pub tm_end-ro :
    (fuel : ℕ) (m : Machine) (shared tx : Ptr) (t : Transaction)
    → tx ≢ null
    → m.cells tx ≡ some (transaction t)
    → t.is_ro ≡ true
    → tm_end fuel shared tx m ≡ ok true (with_cell m tx none)
unfolding tm_end
tm_end-ro fuel m shared tx t real at_tx ro =
    rw (load-ok m tx (transaction t) real at_tx, ro, free-ok m tx (transaction t) real at_tx)
