-- ===== src/WriteSet/Cleanup.antt =====
-- `write_set_cleanup` of 335740/write-set.c frees each node and each buffer once and nothing else.
use cs453_concurrent_algorit.Base.{
  ℕ, zero, suc, ◌<◌, ◌≡◌, refl, ◌∙◌, none, List, [], ◌∷◌, update, arith, length,
}
use cs453_concurrent_algorit.Heap.{Ptr, Machine, word, ok, with_cell}
use cs453_concurrent_algorit.Heap.Laws.{ne_null, load-ok, free-ok, update_other, without}
use cs453_concurrent_algorit.WriteSet.{write_set_cleanup}
use cs453_concurrent_algorit.WriteSet.Chain.{
  Entry, head, node, Holds, Chain, Chain-frame, Within-ne, not-has-buffers,
}
use cs453_concurrent_algorit.WriteSet.Find.{not-has-word, node-ne-word}

-- The objects of a write set, in the order in which they are freed.
abbrev pub objects : List Entry → List Ptr
objects [] = []
objects (e ∷ es) = e.buffer ∷ e.node ∷ objects es

-- With fuel above the number of nodes the loop ends without a fault, and has freed exactly the
-- nodes and the buffers of the write set.
pub write_set_cleanup-without :
    (fuel : ℕ) (m : Machine) (es : List Entry)
    → Chain m.cells es
    → length es < fuel
    → write_set_cleanup fuel (head es) m ≡ ok tt (record m { cells = without (objects es) m.cells })
unfolding write_set_cleanup
write_set_cleanup-without zero m es c enough = absurd (omega arith)
write_set_cleanup-without (suc fuel) m [] c enough = refl
write_set_cleanup-without (suc fuel) m (e ∷ es) c enough =
    let h : Holds m.cells e (head es) = c.0 in
    let n = node e.address e.buffer (head es) in
    let ne = node-ne-word m.cells e (head es) e.buffer e.value h h.at_buffer in
    let rest = update (update m.cells e.buffer none) e.node none in
    rw
      (
        ne_null e.node h.real,
        load-ok m e.node n h.real h.at_node,
        free-ok m e.buffer (word e.value) h.real_buffer h.at_buffer,
        free-ok (with_cell m e.buffer none) e.node n h.real
            (update_other m.cells e.buffer e.node none ne ∙ h.at_node),
      )
      (write_set_cleanup-without fuel (record m { cells = rest }) es
        (Chain-frame m.cells rest es
          (λ q w.
            update_other (update m.cells e.buffer none) e.node q none (
              Within-ne e.node q es c.1
                (not-has-buffers m.cells es e.address e.node e.buffer (head es) c.3 h.at_node) w)
            ∙ update_other m.cells e.buffer q none (
                Within-ne e.buffer q es (not-has-word m.cells es e.buffer e.value c.3 h.at_buffer)
                  c.2 w))
          c.3)
        (omega arith))
