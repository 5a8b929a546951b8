-- ===== src/Grading/Transaction.antt =====
-- Classes TransactionalMemory and Transaction of grading/transactional.hpp, and `transactional`, which
-- repeats a transaction until it commits.
--
-- The library is a parameter, and so is `local`, the address of the variable or temporary of a caller
-- that a value is read into or written from. The time limits of bounded_run have no part here.
mod Tests
mod Running
mod Attempt
pub mod Retry
pub mod Unwind
use cs453_concurrent_algorit.Base.{
  ℕ, zero, suc, ◌-◌, ◌%◌, Bool, true, false, not, ◌==◌, ◌&&◌, ◌||◌, if◌then◌else◌,
}
use cs453_concurrent_algorit.Heap.{Ptr, Machine, Run, Cmd, ok, word_at, set_word}
use cs453_concurrent_algorit.Heap
use cs453_concurrent_algorit.Interface.{
  invalid_shared, invalid_tx, Alloc, success_alloc, abort_alloc, nomem_alloc, Library,
}
use cs453_concurrent_algorit.Grading.Program.{
  assert_mode, Exception, transaction_align, transaction_create, transaction_read_only,
  transaction_begin, transaction_alloc, transaction_retry, Program, done, throw, read, write, alloc,
  free, assign, stuck, Outcome, returned, thrown, terminated, fault, out_of_fuel, Act, and_then,
}

-- Class TransactionalMemory, without its library.
pub record TransactionalMemory : Type 0 where
  pub shared : Ptr
  pub start_addr : Ptr
  pub start_size : ℕ
  pub alignment : ℕ

-- `align & (align - 1)` is taken as an argument, as the numbers here have no bits.
abbrev pub is_power_of_two : (ℕ → ℕ → ℕ) → ℕ → Bool
is_power_of_two bit_and align = not (align == 0) && (bit_and align (align - 1) == 0)

-- The state of a transaction while its closure runs.
pub record Session (C : Type 0) : Type 0 where
  pub aborted : Bool
  pub captured : C
  pub machine : Machine

-- The state between transactions.
pub record Caller (C : Type 0) : Type 0 where
  pub captured : C
  pub machine : Machine

-- What a call of the library means for its caller.
abbrev pub outcome : {S A : Type 0} → (Machine → S) → Run A → Outcome S A
outcome state (ok a m) = returned a (state m)
outcome state Heap.fault = fault
outcome state Heap.out_of_fuel = out_of_fuel

abbrev pub call : {C A : Type 0} → Cmd A → Act (Session C) A
call c s = outcome (λ m. record s { machine = m }) (c s.machine)

pub data Mode : Type 0 where
  read_write : Mode
  read_only : Mode

-- `static_cast<bool>(mode)`
abbrev pub is_read_only : Mode → Bool
is_read_only read_write = false
is_read_only read_only = true

module _ (L : Library) where
  -- The constructor and the destructor of TransactionalMemory.
  unfoldable pub create_memory : (ℕ → ℕ → ℕ) → (align size : ℕ) → Act Machine TransactionalMemory
  create_memory bit_and align size m =
      if assert_mode && (not (is_power_of_two bit_and align) || not (size % align == 0))
      then thrown transaction_align m
      else and_then (outcome (λ m. m) (L.tm_create size align m)) (λ shared m.
        if shared == invalid_shared
        then thrown transaction_create m
        else and_then (outcome (λ m. m) (L.tm_start shared m)) (λ start m.
          returned
            (record { shared = shared; start_addr = start; start_size = size; alignment = align })
            m))

  unfoldable pub destroy_memory : TransactionalMemory → Act Machine (Unit {0})
  destroy_memory tm m = outcome (λ m. m) (L.tm_destroy tm.shared m)

module _ (L : Library) (tm : TransactionalMemory) (local : ℕ) where
  -- The methods of TransactionalMemory; a value is read into or written from `local`.
  unfoldable pub begin : Bool → Cmd ℕ
  begin ro = L.tm_begin tm.shared ro

  unfoldable pub end : ℕ → Cmd Bool
  end tx = L.tm_end tm.shared tx

  unfoldable pub memory_read : ℕ → (source : ℕ) → Cmd Bool
  memory_read tx source = L.tm_read tm.shared tx source 8 local

  unfoldable pub memory_write : ℕ → (target : ℕ) → Cmd Bool
  memory_write tx target = L.tm_write tm.shared tx local 8 target

  unfoldable pub memory_alloc : ℕ → (size : ℕ) → Cmd Alloc
  memory_alloc tx size = L.tm_alloc tm.shared tx size

  unfoldable pub memory_free : ℕ → Ptr → Cmd Bool
  memory_free tx target = L.tm_free tm.shared tx target

  module _ {C : Type 0} (is_ro : Bool) (tx : ℕ) where
    -- `aborted = true; throw Exception::TransactionRetry{};`
    abbrev pub abort : {A : Type 0} → Act (Session C) A
    abort s = thrown transaction_retry (record s { aborted = true })

    abbrev pub go_on_or_abort : Bool → Act (Session C) (Unit {0})
    go_on_or_abort true s = returned tt s
    go_on_or_abort false s = abort s

    -- Transaction::read, for `Type res; tx.read(address, sizeof(Type), &res);`
    unfoldable pub tx_read : ℕ → Act (Session C) ℕ
    tx_read source s =
        and_then (and_then (call (memory_read tx source) s) go_on_or_abort)
          (λ u s. call (word_at local) s)

    -- Transaction::write, for `tx.write(&source, sizeof(Type), address);`
    unfoldable pub tx_write : (value target : ℕ) → Act (Session C) (Unit {0})
    tx_write value target s =
        if assert_mode && is_ro
        then thrown transaction_read_only s
        else and_then (call (set_word local value) s)
            (λ u s. and_then (call (memory_write tx target) s) go_on_or_abort)

    abbrev pub allocated : Alloc → Act (Session C) Ptr
    allocated (success_alloc p) s = returned p s
    allocated nomem_alloc s = thrown transaction_alloc s
    allocated abort_alloc s = abort s

    -- Transaction::alloc
    unfoldable pub tx_alloc : ℕ → Act (Session C) Ptr
    tx_alloc size s =
        if assert_mode && is_ro
        then thrown transaction_read_only s
        else and_then (call (memory_alloc tx size) s) allocated

    -- Transaction::free
    unfoldable pub tx_free : Ptr → Act (Session C) (Unit {0})
    tx_free target s =
        if assert_mode && is_ro
        then thrown transaction_read_only s
        else and_then (call (memory_free tx target) s) go_on_or_abort

    -- A closure, in a transaction.
    unfoldable pub run : {A : Type 0} → Program C A → Act (Session C) A
    run (done a) s = returned a s
    run (throw e) s = thrown e s
    run (read source k) s = and_then (tx_read source s) (λ v. run (k v))
    run (write value target k) s = and_then (tx_write value target s) (λ u. run k)
    run (alloc size k) s = and_then (tx_alloc size s) (λ p. run (k p))
    run (free target k) s = and_then (tx_free target s) (λ u. run k)
    run (assign c k) s = run k (record s { captured = c })
    run stuck s = out_of_fuel

  -- The destructor: what tm_end returns, for a transaction that is not aborted.
  abbrev pub destroy : {C : Type 0} → ℕ → Act (Session C) Bool
  destroy tx s = if s.aborted then returned true s else call (end tx) s

  -- The closure has returned `a`: the transaction is destroyed, and may have to be retried.
  abbrev pub leave : {C A : Type 0} → A → Bool → Act (Session C) A
  leave a true s = returned a s
  leave a false s = thrown transaction_retry s

  -- The closure has thrown `e`: an exception of the destructor would then be a second one.
  abbrev pub unwind : {C A : Type 0} → Exception → Bool → Act (Session C) A
  unwind e true s = thrown e s
  unwind e false s = terminated

  abbrev pub finish : {C A : Type 0} → ℕ → Outcome (Session C) A → Outcome (Session C) A
  finish tx (returned a s) = and_then (destroy tx s) (leave a)
  finish tx (thrown e s) = and_then (destroy tx s) (unwind e)
  finish tx terminated = terminated
  finish tx fault = fault
  finish tx out_of_fuel = out_of_fuel

  -- Leaving the scope of the transaction.
  abbrev pub outside : {C A : Type 0} → Outcome (Session C) A → Outcome (Caller C) A
  outside (returned a s) = returned a (record { captured = s.captured; machine = s.machine })
  outside (thrown e s) = thrown e (record { captured = s.captured; machine = s.machine })
  outside terminated = terminated
  outside fault = fault
  outside out_of_fuel = out_of_fuel

  -- `return func(tx);` in the scope of a transaction `tx`
  unfoldable pub scope : {C A : Type 0} → Bool → ℕ → (C → Program C A) → Act (Caller C) A
  scope is_ro tx func s = outside (
      finish tx (
        run is_ro tx (func s.captured)
          (record { aborted = false; captured = s.captured; machine = s.machine })))

  -- `Transaction tx{tm, mode}; return func(tx);`
  unfoldable pub attempt : {C A : Type 0} → Mode → (C → Program C A) → Act (Caller C) A
  attempt mode func s =
      and_then (outcome (λ m. record s { machine = m }) (begin (is_read_only mode) s.machine))
        (λ tx s.
          if tx == invalid_tx
          then thrown transaction_begin s
          else scope (is_read_only mode) tx func s)

  -- `catch (Exception::TransactionRetry const&) { continue; }`
  abbrev pub catch_retry : {S A : Type 0} → Outcome S A → Act S A → Outcome S A
  catch_retry (thrown transaction_retry s) again = again s
  catch_retry (returned a s) again = returned a s
  catch_retry (thrown e s) again = thrown e s
  catch_retry terminated again = terminated
  catch_retry fault again = fault
  catch_retry out_of_fuel again = out_of_fuel

  unfoldable pub transactional : {C A : Type 0} → ℕ → Mode → (C → Program C A) → Act (Caller C) A
  transactional zero mode func s = out_of_fuel
  transactional (suc fuel) mode func s =
      catch_retry (attempt mode func s) (λ s. transactional fuel mode func s)
