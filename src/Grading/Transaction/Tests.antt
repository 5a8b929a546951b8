-- ===== src/Grading/Transaction/Tests.antt =====
-- Tests of grading/transactional.hpp, with the library of reference/: a counter is read and changed.
use cs453_concurrent_algorit.Base.{ℕ, ◌≡◌, refl, true, false, some, ◌+◌, update, arith}
use cs453_concurrent_algorit.Heap.{Machine, reference_region, load, malloc}
use cs453_concurrent_algorit.Reference.Lock.{shared_lock_acquire, shared_lock_release}
use cs453_concurrent_algorit.Reference.{
  reference, tm_begin, tm_end, tm_read, tm_write, tm_alloc, read_write_tx,
}
use cs453_concurrent_algorit.Reference.Tests.{simple_lock, machine, memory, caller, increase}
use cs453_concurrent_algorit.Grading.Program.{
  Program, done, write, Outcome, returned, thrown, transaction_alloc,
}
use cs453_concurrent_algorit.Grading.Transaction.{
  Caller, Session, read_write, begin, end, memory_read, memory_write, tx_read, tx_write, run, scope,
  attempt, transactional,
}
use cs453_concurrent_algorit.Grading.Transaction.Retry.{Transacted, transactional-commits}
use cs453_concurrent_algorit.Grading.Transaction.Unwind.{allocating, transactional-nomem}

-- What a computation leaves.
abbrev left : {S A : Type 0} → Outcome S A → S → S
left (returned a s) t = s
left (thrown e s) t = s
left _ t = t

abbrev increased : Caller ℕ
increased =
    left (transactional (reference simple_lock 1) memory 1000 2 read_write increase caller) caller

increased_captured : increased.captured ≡ 12
unfolding transactional attempt scope begin end memory_read memory_write tx_read tx_write run
    tm_begin tm_end tm_read tm_write load shared_lock_acquire shared_lock_release
increased_captured = refl

increased_word : increased.machine.mem 200 ≡ 12
unfolding transactional attempt scope begin end memory_read memory_write tx_read tx_write run
    tm_begin tm_end tm_read tm_write load shared_lock_acquire shared_lock_release
increased_word = refl

transactional-commits_example :
    Transacted (reference simple_lock 1) memory 1000 read_write increase caller 7 increased
unfolding transactional attempt scope begin end memory_read memory_write tx_read tx_write run
    tm_begin tm_end tm_read tm_write load shared_lock_acquire shared_lock_release
transactional-commits_example =
    transactional-commits (reference simple_lock 1) memory 1000 2 read_write increase caller 7
      increased refl

-- The write of 12 to the counter, after which there is no memory.
abbrev store : ℕ → Program ℕ (Unit {0})
store c = write (7 + c) 200 (done tt)

abbrev with_lock : ℕ → Machine → Machine
with_lock lock m = record m {
  cells = update m.cells 100 (
      some
        (reference_region (record { lock = lock; start = 200; allocs = 0; size = 16; align = 8 })));
}

abbrev begun : Machine
begun = with_lock 1 machine

abbrev written : Machine
written = record begun { mem = update (update begun.mem 1000 12) 200 12 }

abbrev stored : Session ℕ
stored = record { aborted = false; captured = 5; machine = written }

abbrev released : Machine
released = with_lock 0 written

transactional-nomem_example :
    transactional
      (reference simple_lock 1)
      memory
      1000
      2
      read_write
      (allocating (reference simple_lock 1) memory 1000 read_write store 24 (λ u p. done p))
      caller
    ≡ thrown transaction_alloc (record { captured = 5; machine = released })
unfolding begin memory_write tx_write run tm_begin tm_end tm_write tm_alloc malloc load
    shared_lock_acquire shared_lock_release
transactional-nomem_example =
    transactional-nomem (reference simple_lock 1) memory 1000 read_write store 24 (λ u p. done p) 1
      caller read_write_tx begun written released stored tt true refl (λ e. omega arith) refl refl
      refl
