-- ===== src/Reference/Tests.antt =====
-- Tests of reference/, with a lock that one word holds.
use cs453_concurrent_algorit.Base.{
  ℕ, refl, Bool, true, inr, ◌∷◌, [], none, some, ◌+◌, ◌==◌, if◌then◌else◌, update, arith,
}
use cs453_concurrent_algorit.Heap.{Machine, reference_region, ReferenceRegion}
use cs453_concurrent_algorit.Reference.Lock.{RwLock, RwLockLaws}
use cs453_concurrent_algorit.Reference.{reference}
use cs453_concurrent_algorit.Reference.Atomicity.{TookEffect, transactional-atomic}
use cs453_concurrent_algorit.Reference.Segments.{seg, ThereAndBack, tm_free-tm_alloc}
use cs453_concurrent_algorit.Grading.Program.{Program, done, read, write, assign}
use cs453_concurrent_algorit.Grading.Atomic.{eval}
use cs453_concurrent_algorit.Grading.Transaction.{
  TransactionalMemory, Caller, read_write, transactional,
}

-- A lock that holds 0 when it is free, and 1 when it is held.
abbrev pub simple_lock : RwLock
simple_lock = record {
  rwlock_init = λ l. (true, 0);
  rwlock_destroy = λ l. 0;
  wrlock = λ l. (l == 0, 1);
  rdlock = λ l. (l == 0, 1);
  unlock = λ l. 0;
}

abbrev pub simple_free : ℕ → Bool
simple_free l = l == 0

pub simple_laws : RwLockLaws simple_lock simple_free
simple_laws = record {
  init_frees = λ l. refl;
  wrlock_done = λ l h. h;
  wrlock_freed = λ l h. refl;
  rdlock_done = λ l h. h;
  rdlock_freed = λ l h. refl;
}

abbrev pub free_region : ReferenceRegion
free_region = record { lock = 0; start = 200; allocs = 0; size = 16; align = 8 }

-- A region at 100 whose words start at 200, and no memory left; the word at 200 is 7.
abbrev pub machine : Machine
machine = record {
  cells = λ p. if p == 100 then some (reference_region free_region) else none;
  supply = [];
  junk = 9;
  mem = λ a. if a == 200 then 7 else 0;
}

abbrev pub memory : TransactionalMemory
memory = record { shared = 100; start_addr = 200; start_size = 16; alignment = 8 }

abbrev pub caller : Caller ℕ
caller = record { captured = 5; machine = machine }

-- The closure adds its captured variable to the counter, and assigns the sum to it.
abbrev pub increase : ℕ → Program ℕ ℕ
increase c = read 200 (λ v. write (v + c) 200 (assign (v + c) (done v)))

transactional-atomic_example :
    TookEffect simple_lock 1 memory 1000 simple_free simple_laws free_region 7
      (record { captured = 12; words = update machine.mem 200 12; fresh = [] })
      (transactional (reference simple_lock 1) memory 1000 1 read_write increase caller)
unfolding eval
transactional-atomic_example =
    transactional-atomic simple_lock 1 memory 1000 simple_free simple_laws 0 read_write increase
      caller free_region (record { captured = 5; words = machine.mem; fresh = [] })
      (record { captured = 12; words = update machine.mem 200 12; fresh = [] }) 7 (λ e. omega arith)
      (record { region_at = refl; lock_free = refl; shows = λ a far. refl }) refl
      ((λ e. omega arith), ((λ e. omega arith), tt)) refl

-- A region at 100 with one segment at 300; the next allocation gives 400.
abbrev one_segment : ReferenceRegion
one_segment = record { lock = 1; start = 200; allocs = 300; size = 16; align = 8 }

abbrev with_segment : Machine
with_segment = record {
  cells = λ p.
      if p == 100
      then some (reference_region one_segment)
      else (if p == 300 then some (seg 0 0) else none);
  supply = 400 ∷ [];
  junk = 9;
  mem = λ a. 5;
}

tm_free-tm_alloc_example : ThereAndBack 100 0 24 400 with_segment
tm_free-tm_alloc_example =
    tm_free-tm_alloc with_segment 100 400 [] one_segment 0 24 (λ e. omega arith) refl
      (inr ((λ e. omega arith), (0, refl)))
      (record { supply = refl; fresh = refl; real = λ e. omega arith })
