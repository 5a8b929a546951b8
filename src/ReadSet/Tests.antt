-- ===== src/ReadSet/Tests.antt =====
-- Read sets of two nodes for 335740/read-set.c.
use cs453_concurrent_algorit.Base.{◌≡◌, refl, none, some, true, List, [], ◌∷◌, ◌++◌, update, arith}
use cs453_concurrent_algorit.Heap.{Ptr, Cells, Machine, ok, fault}
use cs453_concurrent_algorit.Heap.Laws.{IsSupplied}
use cs453_concurrent_algorit.ReadSet.{read_set_add}
use cs453_concurrent_algorit.ReadSet.Chain.{Entry, Chain, IsReadSet}
use cs453_concurrent_algorit.ReadSet.Add.{
  node, entry, added, read_set_add-append, read_set_add-null,
}

abbrev two_nodes : Cells
two_nodes = update (update (λ _. none) 10 (some (node 100 20))) 20 (some (node 104 0))

abbrev machine : List Ptr → Machine
machine supply = record { cells = two_nodes; supply = supply; junk = 7; mem = λ a. a }

abbrev two_entries : List Entry
two_entries = entry 10 100 ∷ entry 20 104 ∷ []

two_entries-Chain : Chain two_nodes two_entries
two_entries-Chain = (omega arith, refl, refl, (omega arith, refl, refl, tt))

two_entries-IsReadSet : (supply : List Ptr) → IsReadSet (machine supply) 10 20 two_entries
two_entries-IsReadSet supply = record { first = refl; final = refl; chain = two_entries-Chain }

supplied : IsSupplied (machine (30 ∷ [])) 30 []
supplied = record { supply = refl; fresh = refl; real = omega arith }

read_set_add-append_example :
    (read_set_add 10 20 108 (machine (30 ∷ []))
      ≡ ok (true, 10, 30) (added (machine (30 ∷ [])) 30 [] 108 two_entries))
    × IsReadSet
        (added (machine (30 ∷ [])) 30 [] 108 two_entries)
        10
        30
        (two_entries ++ entry 30 108 ∷ [])
read_set_add-append_example =
    read_set_add-append (machine (30 ∷ [])) 10 20 30 [] 108 two_entries
      (two_entries-IsReadSet (30 ∷ [])) supplied

read_set_add-null_example : read_set_add 10 20 108 (machine []) ≡ fault
read_set_add-null_example = read_set_add-null (machine []) 10 20 108 refl
