-- ===== src/ReadSet/Cleanup.antt =====
-- `read_set_cleanup` of 335740/read-set.c frees each node once and nothing else.
use cs453_concurrent_algorit.Base.{
  ℕ, zero, suc, ◌<◌, ◌≡◌, refl, none, List, [], ◌∷◌, update, arith, length, ne_of_has,
}
use cs453_concurrent_algorit.Heap.{Machine, ok, with_cell}
use cs453_concurrent_algorit.Heap.Laws.{ne_null, load-ok, free-ok, update_other, without}
use cs453_concurrent_algorit.ReadSet.{read_set_cleanup}
use cs453_concurrent_algorit.ReadSet.Chain.{Entry, nodes, head, Chain, Chain-frame}
use cs453_concurrent_algorit.ReadSet.Add.{node}

-- With fuel above the number of nodes the loop ends without a fault, and has freed exactly the
-- nodes of the read set.
pub read_set_cleanup-without :
    (fuel : ℕ) (m : Machine) (es : List Entry)
    → Chain m.cells es
    → length es < fuel
    → read_set_cleanup fuel (head es) m ≡ ok tt (record m { cells = without (nodes es) m.cells })
unfolding read_set_cleanup
read_set_cleanup-without zero m es c enough = absurd (omega arith)
read_set_cleanup-without (suc fuel) m [] c enough = refl
read_set_cleanup-without (suc fuel) m (e ∷ es) c enough =
    rw
      (
        ne_null e.node c.0,
        load-ok m e.node (node e.address (head es)) c.0 c.1,
        free-ok m e.node (node e.address (head es)) c.0 c.1,
      )
      (read_set_cleanup-without fuel (with_cell m e.node none) es
        (Chain-frame m.cells (update m.cells e.node none) es
          (λ q h. update_other m.cells e.node q none (ne_of_has e.node q (nodes es) c.2 h)) c.3)
        (omega arith))
