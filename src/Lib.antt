-- ===== src/Lib.antt =====
-- Verification of the software transactional memory of 335740/, an implementation of Transactional
-- Locking II (TL2) in C, of the reference implementation of reference/, which has one lock, and of the
-- program of grading/, which runs transactions on either and checks what they did.
--
-- Parts and files:
--
-- - Base holds what the modules share. Base/CInt is the C type `int`, as its 32-bit pattern.
-- - Spinlock models 335740/versioned-spinlock.c. A record for struct versioned_spinlock_t and one function
--   per operation. Other threads' effects on the lock during an acquisition are an argument.
-- - SharedLock models 335740/shared-lock.c. The version clock and the table of NUM_LOCKS spinlocks.
-- - Heap models memory: cells that hold one object each, an allocator that takes the addresses it returns
--   from a given list, and a fault when NULL or a freed object is followed.
-- - ReadSet and WriteSet model 335740/read-set.c and 335740/write-set.c on that heap. Chain says which list
--   of entries a linked list stands for; Add, Find and Cleanup follow the operations.
-- - Transaction models 335740/transaction.c, Tl2 the helper functions of 335740/tm.c and Tm its calls, all on
--   that heap and run by one thread alone. Tl2/Locks says what it is to take and release several locks;
--   Tl2/Locking and Tl2/Loops follow the helpers, Tm/Begin, Tm/Read, Tm/Write, Tm/Allocation,
--   Tm/Destroy, Tm/Cleanup, Tm/End and Tm/Own the calls.
-- - Alone runs a transaction on 335740/tm.c by the classes of Grading, with no other thread: what each step keeps
--   on the heap (Kept, Objects), the words that the transaction sees (Words), its reads and writes (Read, Calls,
--   Run), its commit (Commit), and the whole (Effect), beside the same on reference/tm.c (Agreement).
-- - Concurrent models tm_begin, tm_read, tm_write and tm_end of 335740/tm.c with their helpers
--   (lock_write_set, unlock_write_set, validate_read_set, store_write_set), as the moves of one thread
--   (Thread), one access to shared memory each, and any number of threads interleaved (System). The
--   locks, versions, words read and the validation at commit each have an invariant in a module; AsOf says
--   what the memory is as of a version.
-- - Interface models include/tm.h and include/tm.hpp: a library is a record of its eleven functions.
-- - Reference models reference/tm.c on the heap, run by one thread alone. Reference/Lock is
--   reference/shared-lock.c: the readers-writer lock of pthreads is a parameter, with the documented
--   behaviour for one thread as laws. Transactions, Locking and Atomicity follow a transaction, Segments
--   tm_alloc and tm_free.
-- - Grading/Program says what the closure of a transaction can do (a tree of its calls), and Grading/Atomic
--   what it does when it runs at one instant. Grading/Transaction models classes
--   TransactionalMemory and Transaction of grading/transactional.hpp, with their exceptions, and
--   `transactional`, which retries; Running, Attempt, Retry and Unwind follow it. Grading/Shared
--   is the templates Shared.
-- - Grading/Bank models class WorkloadBank of grading/workload.hpp: the closures of its transactions
--   (Closures has those of init and check) and, in Workload, its functions init, run and check for one worker.
--   Memory says what linked segments of accounts are; Accounts, Lookup, Opening, Audit and Transfers follow
--   the closures.
-- - Grading/Sync models class Sync and the threads of measure of grading/grading.cpp, workers and master, as the
--   moves of each and any number of workers interleaved; Grading/Latch is class Latch of grading/common.hpp.
--   A test of the workload may give any answer. Places and Phases say where the threads stand in a
--   round; Gather, Finish, Run and Rounds follow their moves; Verdict, Unreachable, Together and Progress hold
--   what follows. Grading/Counting counts threads, for this and for the barrier.
-- - Grading/Chrono is class Chrono of grading/common.hpp, Grading/Measure what measure makes of its times, and
--   Grading/Main the libraries that main evaluates, the limits that it sets and what the process ends with.
-- - Grading/Barrier models class Barrier of grading/common.hpp, as the moves of one thread, and any number of
--   threads interleaved. Phases, Moves and Rounds hold its invariant, Synchrony and Progress what follows.
--
-- How they interact: the moves of Concurrent change the shared state by the operations of SharedLock,
-- and these by the operations of Spinlock. Grading takes a Library as a parameter, and `reference`
-- of Reference is one.
--
-- Bounds: an acquisition has four rounds of back-off, as in the source, and no fuel. The
-- loops over linked lists take fuel, one more than the nodes, and those of tm_read and tm_write one
-- more for each word. `transactional` has as many attempts as its fuel, and the loops of the bank one
-- round for each segment, and one more. In
-- Concurrent the clock does not overflow an `int`: a run stops where the next increment would.
--
-- Abstractions: memory is a function from the address of a word to the number its bytes spell. For
-- 335740/tm.c a word has region->align bytes, which is the size of each of its memcpy; where it meets the
-- 8-byte values of grading/, the alignment is 8. A word is copied in one access, and accesses are
-- sequentially consistent. In Concurrent the linked lists of a transaction, which no other thread can
-- reach, are lists, memory allocation succeeds, and a call of tm_read or tm_write on several words is as
-- many calls on one word. The alignment that posix_memalign is asked for is left out, since it bears on the
-- addresses alone, which are given. What the evaluation of a library answers in main is a parameter, and may
-- change from one evaluation to the next.
--
-- A variable of a closure's caller that is captured by reference is part of the state, and outlives an
-- abort. The variable or temporary that a value is copied through is a word at an address `local`.
--
-- Not modelled: loading a library with dlopen and the time limits of bounded_run in
-- grading/transactional.hpp, since they are calls of the system; the random numbers of
-- grading/workload.hpp, which are a parameter; the rest of grading/common.hpp and grading/grading.cpp
-- (starting threads, the clock of the system and the output); several workers on one bank; the locks of 335740/lock.c
-- and reference/lock.c, which nothing uses. The macros of macros.h are hints to the compiler.
pub mod Alone
pub mod Base
pub mod Concurrent
pub mod Grading
pub mod Heap
pub mod Interface
pub mod ReadSet
pub mod Reference
pub mod SharedLock
pub mod Spinlock
pub mod Tl2
pub mod Tm
pub mod Transaction
pub mod WriteSet
