-- ===== src/Grading/Transaction/Running.antt =====
-- grading/transactional.hpp: a closure that returns has not aborted its transaction.
use cs453_concurrent_algorit.Base.{ℕ, ◌≡◌, Bool, true, false}
use cs453_concurrent_algorit.Heap.{Ptr, Machine, Run, Cmd, ok, word_at, set_word}
use cs453_concurrent_algorit.Heap
use cs453_concurrent_algorit.Interface.{Alloc, success_alloc, abort_alloc, nomem_alloc, Library}
use cs453_concurrent_algorit.Grading.Program.{
  Exception, Program, done, throw, read, write, alloc, free, assign, stuck, Outcome, returned,
  thrown, terminated, fault, out_of_fuel, Act, and_then,
}
use cs453_concurrent_algorit.Grading.Transaction.{
  TransactionalMemory, Session, outcome, call, tx_read, tx_write, tx_alloc, tx_free, memory_read,
  memory_write, memory_alloc, memory_free, run, go_on_or_abort, allocated,
}

-- A computation that returns has not aborted the transaction.
pub data Keeps {C A : Type 0} : Outcome (Session C) A → Type 0 where
  by_return : {a : A} {s : Session C} → s.aborted ≡ false → Keeps (returned a s)
  by_throw : {e : Exception} {s : Session C} → Keeps (thrown e s)
  by_terminate : Keeps terminated
  by_fault : Keeps fault
  by_fuel : Keeps out_of_fuel

Keeps-and_then :
    {C A B : Type 0} (o : Outcome (Session C) A) (k : A → Act (Session C) B)
    → Keeps o
    → ((a : A) (s : Session C) → s.aborted ≡ false → Keeps (k a s))
    → Keeps (and_then o k)
Keeps-and_then o k (by_return h) next = next _ _ h
Keeps-and_then o k by_throw next = by_throw
Keeps-and_then o k by_terminate next = by_terminate
Keeps-and_then o k by_fault next = by_fault
Keeps-and_then o k by_fuel next = by_fuel

Keeps-call :
    {C A : Type 0} (r : Run A) (s : Session C)
    → s.aborted ≡ false
    → Keeps (outcome (λ m. record s { machine = m }) r)
Keeps-call (ok a m) s h = by_return h
Keeps-call Heap.fault s h = by_fault
Keeps-call Heap.out_of_fuel s h = by_fuel

module _ (L : Library) (tm : TransactionalMemory) (local : ℕ) where
  module _ {C : Type 0} (is_ro : Bool) (tx : ℕ) where
    Keeps-go_on_or_abort :
        (b : Bool) (s : Session C)
        → s.aborted ≡ false
        → Keeps (go_on_or_abort L tm local is_ro tx b s)
    Keeps-go_on_or_abort true s h = by_return h
    Keeps-go_on_or_abort false s h = by_throw

    Keeps-allocated :
        (r : Alloc) (s : Session C) → s.aborted ≡ false → Keeps (allocated L tm local is_ro tx r s)
    Keeps-allocated (success_alloc p) s h = by_return h
    Keeps-allocated nomem_alloc s h = by_throw
    Keeps-allocated abort_alloc s h = by_throw

    tx_read-Keeps :
        (source : ℕ) (s : Session C)
        → s.aborted ≡ false
        → Keeps (tx_read L tm local is_ro tx source s)
    unfolding tx_read
    tx_read-Keeps source s h =
        Keeps-and_then _ (λ u s. call (word_at local) s)
          (Keeps-and_then _ _ (Keeps-call (memory_read L tm local tx source s.machine) s h)
            Keeps-go_on_or_abort)
          (λ u s h. Keeps-call (word_at local s.machine) s h)

    tx_write-Keeps :
        (value target : ℕ) (s : Session C)
        → s.aborted ≡ false
        → Keeps (tx_write L tm local is_ro tx value target s)
    unfolding tx_write
    tx_write-Keeps value target s h =
        Keeps-and_then _ _ (Keeps-call (set_word local value s.machine) s h) (λ u s h.
          Keeps-and_then _ _ (Keeps-call (memory_write L tm local tx target s.machine) s h)
            Keeps-go_on_or_abort)

    tx_alloc-Keeps :
        (size : ℕ) (s : Session C) → s.aborted ≡ false → Keeps (tx_alloc L tm local is_ro tx size s)
    unfolding tx_alloc
    tx_alloc-Keeps size s h =
        Keeps-and_then _ _ (Keeps-call (memory_alloc L tm local tx size s.machine) s h)
          Keeps-allocated

    tx_free-Keeps :
        (target : Ptr) (s : Session C)
        → s.aborted ≡ false
        → Keeps (tx_free L tm local is_ro tx target s)
    unfolding tx_free
    tx_free-Keeps target s h =
        Keeps-and_then _ _ (Keeps-call (memory_free L tm local tx target s.machine) s h)
          Keeps-go_on_or_abort

    pub run-Keeps :
        {A : Type 0} (p : Program C A) (s : Session C)
        → s.aborted ≡ false
        → Keeps (run L tm local is_ro tx p s)
    unfolding run
    run-Keeps (done a) s h = by_return h
    run-Keeps (throw e) s h = by_throw
    run-Keeps (read source k) s h =
        Keeps-and_then _ _ (tx_read-Keeps source s h) (λ v. run-Keeps (k v))
    run-Keeps (write value target k) s h =
        Keeps-and_then _ _ (tx_write-Keeps value target s h) (λ u. run-Keeps k)
    run-Keeps (alloc size k) s h =
        Keeps-and_then _ _ (tx_alloc-Keeps size s h) (λ p. run-Keeps (k p))
    run-Keeps (free target k) s h = Keeps-and_then _ _ (tx_free-Keeps target s h) (λ u. run-Keeps k)
    run-Keeps (assign c k) s h = run-Keeps k (record s { captured = c }) h
    run-Keeps stuck s h = by_fuel
