-- ===== src/Alone/Tests.antt =====
-- A transaction alone on 335740/tm.c, with the closure and the words of the tests of reference/.
use cs453_concurrent_algorit.Base.{
  ℕ, false, refl, [], ◌∷◌, none, some, ◌==◌, if◌then◌else◌, update, arith,
}
use cs453_concurrent_algorit.SharedLock.{SharedLock}
use cs453_concurrent_algorit.Heap.{Machine, region, Region}
use cs453_concurrent_algorit.Grading.Atomic.{eval}
use cs453_concurrent_algorit.Grading.Transaction.{Caller, read_write, transactional}
use cs453_concurrent_algorit.Reference.{reference}
use cs453_concurrent_algorit.Reference.Tests.{
  simple_lock, simple_free, simple_laws, free_region, memory, increase,
}
use cs453_concurrent_algorit.Reference.Tests
use cs453_concurrent_algorit.Alone.{tl2}
use cs453_concurrent_algorit.Alone.Effect.{Ready, TookEffect, transactional-alone}
use cs453_concurrent_algorit.Alone.Agreement.{SameEffect, transactional-SameEffect}

-- A region at 100 whose clock is 5
abbrev lock : SharedLock
lock = record { clock = 5; locks = λ _. record { lock = false; version = 2 }; segment_lock = false }

abbrev quiet_region : Region
quiet_region = record { lock = lock; start = 200; allocs = 0; size = 16; align = 8 }

abbrev machine : Machine
machine = record {
  cells = λ p. if p == 100 then some (region quiet_region) else none;
  supply = 10 ∷ 11 ∷ 12 ∷ 13 ∷ 14 ∷ [];
  junk = 9;
  mem = λ a. if a == 200 then 7 else 0;
}

abbrev caller : Caller ℕ
caller = record { captured = 5; machine = machine }

machine-Ready : Ready 1000 100 quiet_region machine machine.mem
machine-Ready = record {
  region_at = refl;
  quiet = record { free = λ i. refl; old = λ i. omega arith };
  unused = (
    (refl, (refl, (refl, (refl, (refl, tt))))),
    (
      ((λ e. omega arith), refl),
      (
        ((λ e. omega arith), refl),
        (
          ((λ e. omega arith), refl),
          (((λ e. omega arith), refl), (((λ e. omega arith), refl), tt)),
        ),
      ),
    ),
  );
  shows = λ a far. refl;
}

transactional-alone_example :
    TookEffect 0 3 memory 1000 quiet_region
      (200 ∷ [])
      (λ e. omega arith)
      (omega arith)
      7
      (record { captured = 12; words = update machine.mem 200 12; fresh = [] })
      (transactional (tl2 1 3) memory 1000 1 read_write increase caller)
unfolding eval
transactional-alone_example =
    transactional-alone 0 3 memory 1000 quiet_region (200 ∷ []) (λ e. omega arith) (omega arith) 0 2
      increase caller (record { captured = 5; words = machine.mem; fresh = [] })
      (record { captured = 12; words = update machine.mem 200 12; fresh = [] }) 7 machine-Ready
      (omega arith) (refl, tt) refl (omega arith) (omega arith) refl
      ((λ e. omega arith), ((λ e. omega arith), refl, tt)) refl

transactional-SameEffect_example :
    SameEffect 1000
      (transactional (tl2 1 3) memory 1000 1 read_write increase caller)
      (transactional (reference simple_lock 3) memory 1000 1 read_write increase Tests.caller)
unfolding eval
transactional-SameEffect_example =
    transactional-SameEffect 0 3 memory 1000 quiet_region (200 ∷ []) (λ e. omega arith)
      (omega arith) simple_lock simple_free simple_laws free_region 0 2 increase caller Tests.caller
      (record { captured = 5; words = machine.mem; fresh = [] })
      (record { captured = 12; words = update machine.mem 200 12; fresh = [] }) 7 machine-Ready
      (record { region_at = refl; lock_free = refl; shows = λ a far. refl }) (omega arith)
      (refl, tt) refl (omega arith) (omega arith) refl refl
      ((λ e. omega arith), ((λ e. omega arith), refl, tt)) refl
