-- ===== src/Tl2/Tests.antt =====
-- Runs of the helper functions of 335740/tm.c on sets of two words; those at 100 and 5099 share a
-- lock, and those at 100 and 104 do not.
use cs453_concurrent_algorit.Base.{
  ℕ, ◌≡◌, refl, none, some, true, false, List, [], ◌∷◌, has, update, arith, if◌then◌else◌,
}
use cs453_concurrent_algorit.SharedLock.{SharedLock, find_lock}
use cs453_concurrent_algorit.Heap.{Cells, Machine, ok, word}
use cs453_concurrent_algorit.ReadSet.Chain as ReadChain
use cs453_concurrent_algorit.ReadSet.Add as ReadAdd
use cs453_concurrent_algorit.WriteSet.Chain.{Entry, Chain, node, addresses}
use cs453_concurrent_algorit.WriteSet.Add.{entry}
use cs453_concurrent_algorit.WriteSet.Find.{find_entry}
use cs453_concurrent_algorit.Tl2.{lock_write_set, store_write_set}
use cs453_concurrent_algorit.Tl2.Locks.{indices, can_take}
use cs453_concurrent_algorit.Tl2.Locking.{all_or_none, lock_write_set_lem, lock_write_set-twice}
use cs453_concurrent_algorit.Tl2.Loops.{word_or, store_write_set-find}

-- No lock is held; the clock is 5.
abbrev lock : SharedLock
lock = record { clock = 5; locks = λ _. record { lock = false; version = 2 }; segment_lock = false }

-- Two writes, the second at the address `a`, and two reads.
abbrev cells : ℕ → Cells
cells a =
    update
      (update
        (update
          (update (update (update (λ _. none) 10 (some (node 100 11 20))) 11 (some (word 5))) 20
            (some (node a 21 0)))
          21 (some (word 6)))
        30 (some (ReadAdd.node 104 40)))
      40 (some (ReadAdd.node 108 0))

abbrev machine : ℕ → Machine
machine a = record { cells = cells a; supply = []; junk = 7; mem = λ x. x }

abbrev writes : ℕ → List Entry
writes a = entry 10 11 100 5 ∷ entry 20 21 a 6 ∷ []

writes-Chain : (a : ℕ) → Chain (cells a) (writes a)
writes-Chain a = (
  record { real = omega arith; at_node = refl; real_buffer = omega arith; at_buffer = refl },
  refl,
  refl,
  (
    record { real = omega arith; at_node = refl; real_buffer = omega arith; at_buffer = refl },
    refl,
    refl,
    tt,
  ),
)

abbrev reads : List ReadChain.Entry
reads = ReadAdd.entry 30 104 ∷ ReadAdd.entry 40 108 ∷ []

reads-Chain : ReadChain.Chain (cells 104) reads
reads-Chain = (omega arith, refl, refl, (omega arith, refl, refl, tt))

shared_lock : has (find_lock 100) (indices (5099 ∷ [])) ≡ true
unfolding find_lock
shared_lock = refl

able : can_take lock (100 ∷ 104 ∷ []) ≡ true
unfolding find_lock
able = refl

lock_write_set_lem_example :
    lock_write_set 3 lock 10 (machine 104)
    ≡ ok (all_or_none lock lock (100 ∷ 104 ∷ [])) (machine 104)
lock_write_set_lem_example =
    lock_write_set_lem 3 lock (machine 104) (writes 104) (writes-Chain 104) (omega arith)

lock_write_set-twice_example :
    lock_write_set 3 lock 10 (machine 5099) ≡ ok (false, lock) (machine 5099)
lock_write_set-twice_example =
    lock_write_set-twice 3 lock (machine 5099) [] (entry 10 11 100 5) (entry 20 21 5099 6 ∷ [])
      (writes-Chain 5099) (omega arith) shared_lock

store_write_set-find_example :
    (mem : ℕ → ℕ) × (new : SharedLock) × (store_write_set 3 lock 10 6 (machine 104)
      ≡ ok new (record (machine 104) { mem = mem }))
    × ((a : ℕ) → mem a ≡ word_or a (find_entry a (writes 104)))
    × ((i : ℕ)
        → new.locks i ≡ (
            if has i (indices (addresses (writes 104)))
            then record { lock = false; version = 6 }
            else lock.locks i))
store_write_set-find_example =
    store_write_set-find 3 lock 6 (machine 104) (writes 104) (writes-Chain 104) (refl, (refl, tt))
      (omega arith)
