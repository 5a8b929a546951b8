-- ===== src/WriteSet/Tests.antt =====
-- Write sets of two nodes for 335740/write-set.c.
use cs453_concurrent_algorit.Base.{
  ◌≡◌, refl, none, some, true, false, List, [], ◌∷◌, ◌++◌, has, update, arith,
}
use cs453_concurrent_algorit.Heap.{Ptr, Cells, Machine, ok, word}
use cs453_concurrent_algorit.Heap.Laws.{without}
use cs453_concurrent_algorit.WriteSet.{write_set_add, write_node_find, write_set_cleanup}
use cs453_concurrent_algorit.WriteSet.Chain.{Entry, Chain, IsWriteSet, nodes, node}
use cs453_concurrent_algorit.WriteSet.Add.{
  AreSupplied, half_written, entry, added, write_set_add-append, write_set_add-leak,
}
use cs453_concurrent_algorit.WriteSet.Find.{find_entry, write_node_find_lem}
use cs453_concurrent_algorit.WriteSet.Cleanup.{objects, write_set_cleanup-without}

abbrev two_nodes : Cells
two_nodes =
    update
      (update (update (update (λ _. none) 10 (some (node 100 11 20))) 11 (some (word 5))) 20
        (some (node 104 21 0)))
      21 (some (word 6))

-- The word at an address is the address itself.
abbrev machine : List Ptr → Machine
machine supply = record { cells = two_nodes; supply = supply; junk = 7; mem = λ a. a }

abbrev two_entries : List Entry
two_entries = entry 10 11 100 5 ∷ entry 20 21 104 6 ∷ []

two_entries-Chain : Chain two_nodes two_entries
two_entries-Chain = (
  record { real = omega arith; at_node = refl; real_buffer = omega arith; at_buffer = refl },
  refl,
  refl,
  (
    record { real = omega arith; at_node = refl; real_buffer = omega arith; at_buffer = refl },
    refl,
    refl,
    tt,
  ),
)

two_entries-IsWriteSet : (supply : List Ptr) → IsWriteSet (machine supply) 10 20 two_entries
two_entries-IsWriteSet supply = record { first = refl; final = refl; chain = two_entries-Chain }

supplied : AreSupplied (machine (30 ∷ 31 ∷ [])) 30 31 []
supplied = record {
  supply = refl;
  fresh = refl;
  fresh_buffer = refl;
  real = omega arith;
  real_buffer = omega arith;
  apart = omega arith;
}

write_set_add-append_example :
    (write_set_add 10 20 108 44 (machine (30 ∷ 31 ∷ []))
      ≡ ok (true, 10, 30) (added (machine (30 ∷ 31 ∷ [])) 30 31 [] 108 44 two_entries))
    × IsWriteSet
        (added (machine (30 ∷ 31 ∷ [])) 30 31 [] 108 44 two_entries)
        10
        30
        (two_entries ++ entry 30 31 108 44 ∷ [])
write_set_add-append_example =
    write_set_add-append (machine (30 ∷ 31 ∷ [])) 10 20 30 31 [] 108 44 two_entries
      (two_entries-IsWriteSet (30 ∷ 31 ∷ [])) supplied

write_set_add-leak_example :
    (write_set_add 10 20 108 44 (machine (30 ∷ 0 ∷ []))
      ≡ ok (false, 10, 20) (half_written (machine (30 ∷ 0 ∷ [])) 30 [] 108))
    × IsWriteSet (half_written (machine (30 ∷ 0 ∷ [])) 30 [] 108) 10 20 two_entries
    × ((half_written (machine (30 ∷ 0 ∷ [])) 30 [] 108).cells 30 ≡ some (node 108 0 7))
    × (has 30 (nodes two_entries) ≡ false)
write_set_add-leak_example =
    write_set_add-leak (machine (30 ∷ 0 ∷ [])) 10 20 30 [] 108 44 two_entries
      (two_entries-IsWriteSet (30 ∷ 0 ∷ []))
      (record { supply = refl; fresh = refl; real = omega arith })

write_node_find_lem_example : write_node_find 3 10 104 (machine []) ≡ ok 20 (machine [])
unfolding find_entry
write_node_find_lem_example =
    write_node_find_lem 3 (machine []) 104 two_entries two_entries-Chain (omega arith)

write_set_cleanup-without_example :
    write_set_cleanup 3 10 (machine [])
    ≡ ok tt (record (machine []) { cells = without (objects two_entries) two_nodes })
write_set_cleanup-without_example =
    write_set_cleanup-without 3 (machine []) two_entries two_entries-Chain (omega arith)
