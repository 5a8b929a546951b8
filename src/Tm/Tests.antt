-- ===== src/Tm/Tests.antt =====
-- Runs of the calls of 335740/tm.c, on a region at 2 whose clock is 5.
use cs453_concurrent_algorit.Base.{
  ℕ, ◌+◌, leb, ltb, ◌&&◌, if◌then◌else◌, has, ◌≡◌, refl, none, some, true, false, List, [], ◌∷◌,
  update, arith,
}
use cs453_concurrent_algorit.SharedLock.{SharedLock, find_lock, versioned_spinlock_validate}
use cs453_concurrent_algorit.Spinlock
use cs453_concurrent_algorit.Heap.{
  start_segment, segment_node, Ptr, Cells, Machine, Region, Transaction, ok, word, region,
  transaction,
}
use cs453_concurrent_algorit.Heap.Laws.{allocated}
use cs453_concurrent_algorit.ReadSet.Chain as ReadChain
use cs453_concurrent_algorit.ReadSet.Add as ReadAdd
use cs453_concurrent_algorit.WriteSet.Chain.{Entry, Chain, IsWriteSet, node}
use cs453_concurrent_algorit.WriteSet.Add.{entry}
use cs453_concurrent_algorit.WriteSet.Find.{find_entry}
use cs453_concurrent_algorit.Tm.{tm_alloc, segment_node_size, tm_destroy, tm_read, tm_end}
use cs453_concurrent_algorit.Interface.{success_alloc}
use cs453_concurrent_algorit.Tm.Begin.{empty_transaction}
use cs453_concurrent_algorit.Tm.Destroy.{AreSegments, tm_destroy_lem}
use cs453_concurrent_algorit.Tm.Allocation.{tm_alloc_lem}
use cs453_concurrent_algorit.Tm.Cleanup.{IsTransaction, freed}
use cs453_concurrent_algorit.Tm.Read.{tm_read-ro}
use cs453_concurrent_algorit.Tl2.Locks.{indices}
use cs453_concurrent_algorit.Tm.Own.{tm_end-own}
use cs453_concurrent_algorit.Tm.End.{commit, ended, tm_end_lem}

abbrev lock : SharedLock
lock = record { clock = 5; locks = λ _. record { lock = false; version = 2 }; segment_lock = false }

abbrev shared_region : Region
shared_region = record { lock = lock; start = 96; allocs = 0; size = 64; align = 8 }

-- A transaction that has read the word at 104 and has written 5 to that at 112.
abbrev running : Transaction
running = record {
  is_ro = false;
  rv = 3;
  first_read_node = 30;
  last_read_node = 30;
  first_write_node = 10;
  last_write_node = 10;
}

abbrev cells : Cells
cells =
    update
      (update
        (update
          (update (update (λ _. none) 2 (some (region shared_region))) 3
            (some (transaction running)))
          10 (some (node 112 11 0)))
        11 (some (word 5)))
      30 (some (ReadAdd.node 104 0))

abbrev machine : Machine
machine = record { cells = cells; supply = 40 ∷ []; junk = 7; mem = λ x. x }

abbrev writes : List Entry
writes = entry 10 11 112 5 ∷ []

abbrev reads : List ReadChain.Entry
reads = ReadAdd.entry 30 104 ∷ []

writes-Chain : Chain cells writes
writes-Chain = (
  record { real = omega arith; at_node = refl; real_buffer = omega arith; at_buffer = refl },
  refl,
  refl,
  tt,
)

running-IsTransaction : IsTransaction cells 3 running reads writes
running-IsTransaction = record {
  real = omega arith;
  at_tx = refl;
  first_read = refl;
  first_write = refl;
  reads = (omega arith, refl, refl, tt);
  writes = writes-Chain;
}

tm_end_lem_example :
    tm_end 2 2 3 machine
    ≡ ended machine 2 3 shared_region reads writes (commit lock 3 (104 ∷ []) writes (λ x. x))
tm_end_lem_example =
    tm_end_lem 2 machine 2 3 shared_region running reads writes (omega arith) refl
      running-IsTransaction (omega arith) (omega arith) refl

-- That transaction commits.
commit_done : (commit lock 3 (104 ∷ []) writes (λ x. x)).0 ≡ true
unfolding find_lock versioned_spinlock_validate Spinlock.validate
commit_done = refl

abbrev begun : Machine
begun = allocated machine 40 [] (transaction (empty_transaction false 5))

-- A transaction that has also read the word that it writes.
abbrev both_reads : List ReadChain.Entry
both_reads = ReadAdd.entry 30 112 ∷ []

abbrev both : Machine
both = record machine { cells = update cells 30 (some (ReadAdd.node 112 0)) }

both-IsTransaction : IsTransaction both.cells 3 running both_reads writes
both-IsTransaction = record {
  real = omega arith;
  at_tx = refl;
  first_read = refl;
  first_write = refl;
  reads = (omega arith, refl, refl, tt);
  writes = (
    record { real = omega arith; at_node = refl; real_buffer = omega arith; at_buffer = refl },
    refl,
    refl,
    tt,
  );
}

in_both : has 112 (indices (112 ∷ [])) ≡ true
unfolding find_lock
in_both = refl

tm_end-own_example :
    (new : SharedLock) × (tm_end 2 2 3 both
      ≡ ended both 2 3 shared_region both_reads writes (false, new, λ x. x))
tm_end-own_example =
    tm_end-own 2 both 2 3 shared_region running both_reads writes 112 (omega arith) refl
      both-IsTransaction (omega arith) (omega arith) refl in_both in_both refl

abbrev begun_read_only : Machine
begun_read_only = allocated machine 40 [] (transaction (empty_transaction true 5))

abbrev more : Machine
more = record machine { supply = 40 ∷ 41 ∷ [] }

writes-IsWriteSet : IsWriteSet more 10 10 writes
writes-IsWriteSet = record { first = refl; final = refl; chain = writes-Chain }

written_before : find_entry 112 writes ≡ some (entry 10 11 112 5)
unfolding find_entry
written_before = refl

not_written_before : find_entry 120 writes ≡ none
unfolding find_entry
not_written_before = refl

begun_read_only-IsTransaction :
    IsTransaction begun_read_only.cells 40 (empty_transaction true 5) [] []
begun_read_only-IsTransaction = record {
  real = omega arith;
  at_tx = refl;
  first_read = refl;
  first_write = refl;
  reads = tt;
  writes = tt;
}

tm_read-ro_example : tm_read 1 2 2 40 112 8 200 begun_read_only ≡ (
    if versioned_spinlock_validate lock 112 5
    then ok true (record begun_read_only { mem = update (λ x. x) 200 112 })
    else ok false (record begun_read_only {
      mem = update (λ x. x) 200 112;
      cells = freed 40 [] [] begun_read_only.cells;
    }))
tm_read-ro_example =
    tm_read-ro 0 2 begun_read_only 2 40 shared_region (empty_transaction true 5) [] [] 112 8 200
      (omega arith) refl begun_read_only-IsTransaction (omega arith) (omega arith) (omega arith)
      refl

-- A region with two segments beside the first.
abbrev segments : Machine
segments = record machine {
  cells =
      update
        (update
          (update (update cells 2 (some (region (record shared_region { allocs = 50 })))) 96
            (some start_segment))
          50 (some (segment_node (record { prev = 0; next = 60 }))))
        60 (some (segment_node (record { prev = 50; next = 0 })));
}

tm_destroy_lem_example :
    (after : Cells) × (tm_destroy 3 2 segments ≡ ok tt (record segments { cells = after }))
    × ((q : Ptr) → after q ≡ (if has q (2 ∷ 96 ∷ 50 ∷ 60 ∷ []) then none else segments.cells q))
tm_destroy_lem_example =
    tm_destroy_lem 3 segments 2 (record shared_region { allocs = 50 }) (50 ∷ 60 ∷ []) (omega arith)
      refl (omega arith) refl refl
      (omega arith, (0, refl), refl, (omega arith, (50, refl), refl, tt)) (omega arith)

tm_alloc_lem_example :
    (new : Machine) × (tm_alloc 2 3 32 segments ≡ ok (success_alloc (40 + segment_node_size)) new)
    × (new.cells 2
        ≡ some (
            region
              (record shared_region { lock = record lock { segment_lock = false }; allocs = 40 })))
    × AreSegments new.cells (40 ∷ 50 ∷ 60 ∷ [])
    × ((a : ℕ)
        → new.mem a ≡ (
            if leb (40 + segment_node_size) a && ltb a (40 + segment_node_size + 32) then 0 else a))
tm_alloc_lem_example =
    tm_alloc_lem segments 2 3 40 [] (record shared_region { allocs = 50 }) (50 ∷ 60 ∷ []) 32
      (omega arith) refl refl (omega arith, (0, refl), refl, (omega arith, (50, refl), refl, tt))
      (record { supply = refl; fresh = refl; real = omega arith })
