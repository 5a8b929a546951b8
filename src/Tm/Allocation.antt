-- ===== src/Tm/Allocation.antt =====
-- `tm_alloc` of 335740/tm.c: a new segment at the front of the list.
use cs453_concurrent_algorit.Base.{
  ℕ, ◌+◌, ◌≡◌, ◌≢◌, refl, sym, ◌∙◌, ap, false, some, none, List, [], ◌∷◌, has, update, arith,
  ne_of_has, if◌then◌else◌, leb, ltb, ◌&&◌,
}
use cs453_concurrent_algorit.SharedLock.{segment_lock_acquire, segment_lock_release}
use cs453_concurrent_algorit.Heap.{
  Ptr, null, Cell, Cells, segment_node, region, Region, Machine, ok,
}
use cs453_concurrent_algorit.Heap.Laws.{
  ne_null, load-ok, IsSupplied, malloc-ok, allocated, with_cell-allocated, update_self,
  update_other,
}
use cs453_concurrent_algorit.Interface.{success_alloc}
use cs453_concurrent_algorit.Tm.{link_back, add_segment, tm_alloc, segment_node_size}
use cs453_concurrent_algorit.Tm.Cleanup.{kind_ne}
use cs453_concurrent_algorit.Tm.Destroy.{first, AreSegments, AreSegments-frame, not-has-segments}

abbrev seg : Ptr → Ptr → Cell
seg prev next = segment_node (record { prev = prev; next = next })

-- The cells with the first segment's `prev` set.
abbrev linked : List Ptr → Ptr → Cells → Cells
linked [] sn cells = cells
linked (p ∷ ps) sn cells = update cells p (some (seg sn (first ps)))

link_back_lem :
    (m : Machine) (ps : List Ptr) (sn : Ptr)
    → AreSegments m.cells ps
    → link_back (first ps) sn m ≡ ok tt (record m { cells = linked ps sn m.cells })
unfolding link_back
link_back_lem m [] sn s = refl
link_back_lem m (p ∷ ps) sn s =
    let (prev, at) = s.1 in rw (ne_null p s.0, load-ok m p (seg prev (first ps)) s.0 at)

linked-other :
    (ps : List Ptr) (sn : Ptr) (cells : Cells) (q : Ptr)
    → has q ps ≡ false
    → linked ps sn cells q ≡ cells q
linked-other [] sn cells q absent = refl
linked-other (p ∷ ps) sn cells q absent = ground arith

linked-AreSegments :
    (ps : List Ptr) (sn : Ptr) (cells : Cells)
    → AreSegments cells ps
    → AreSegments (linked ps sn cells) ps
linked-AreSegments [] sn cells s = tt
linked-AreSegments (p ∷ ps) sn cells s = (
  s.0,
  (sn, update_self cells p _),
  s.2,
  AreSegments-frame cells (linked (p ∷ ps) sn cells) ps
      (λ q h. update_other cells p q _ (ne_of_has p q ps s.2 h)) s.3,
)

not-has-fresh :
    (cells : Cells) (ps : List Ptr) (p : Ptr)
    → AreSegments cells ps
    → cells p ≡ none
    → has p ps ≡ false
not-has-fresh cells [] p s fresh = refl
not-has-fresh cells (q ∷ ps) p s fresh =
    let ne : p ≢ q = λ k. cc (ap cells k, fresh, s.1.1) in
    ground (arith, not-has-fresh cells ps p s.3 fresh)

add_segment_lem :
    (m : Machine) (shared p : Ptr) (r : Region) (ps : List Ptr) (junk : Ptr)
    → shared ≢ null
    → p ≢ null
    → m.cells shared ≡ some (region r)
    → m.cells p ≡ some (seg null junk)
    → has p ps ≡ false
    → r.allocs ≡ first ps
    → AreSegments m.cells ps
    → (cells : Cells) × (add_segment shared p m ≡ ok tt (record m { cells = cells }))
      × (cells shared
          ≡ some (
              region (record r {
                lock = segment_lock_release (segment_lock_acquire r.lock);
                allocs = p;
              })))
      × AreSegments cells (p ∷ ps)
unfolding add_segment
add_segment_lem m shared p r ps junk real real_p at at_p new e s =
    let r1 : Region = record r { lock = segment_lock_acquire r.lock } in
    let r2 : Region = record r1 { allocs = p } in
    let r3 : Region = record r2 { lock = segment_lock_release r1.lock } in
    let apart = kind_ne m.cells shared p _ _ at at_p (omega arith) in
    let absent = not-has-segments m.cells ps shared r s at in
    let c1 = update m.cells shared (some (region r1)) in
    let c2 = update c1 p (some (seg null r.allocs)) in
    let c3 = linked ps p c2 in
    let c4 = update c3 shared (some (region r2)) in
    let s2 : AreSegments c2 ps =
      AreSegments-frame m.cells c2 ps
        (λ q h.
          update_other c1 p q _ (ne_of_has p q ps new h)
          ∙ update_other m.cells shared q _ (ne_of_has shared q ps absent h))
        s in
    let m1 : Machine = record m { cells = c1 } in
    let m2 : Machine = record m { cells = c2 } in
    let m4 : Machine = record m { cells = c4 } in
    let c5 = update c4 shared (some (region r3)) in
    (
      c5,
      rw (
        load-ok m shared (region r) real at,
        load-ok m shared (region r) real at,
        load-ok m1 shared (region r1) real (update_self m.cells shared _),
        load-ok m1 p (seg null junk) real_p
            (update_other m.cells shared p _ (λ k. apart (sym k)) ∙ at_p),
        ap (λ q. link_back q p m2) e ∙ link_back_lem m2 ps p s2,
        load-ok m4 shared (region r2) real (update_self c3 shared _),
        load-ok m4 shared (region r2) real (update_self c3 shared _),
      ),
      update_self c4 shared _,
      (
        real_p,
        (
          null,
          update_other c4 shared p _ (λ k. apart (sym k))
              ∙ update_other c3 shared p _ (λ k. apart (sym k))
              ∙ linked-other ps p c2 p new
              ∙ update_self c1 p _
              ∙ ap (λ q. some (seg null q)) e,
        ),
        new,
        AreSegments-frame c3 c5 ps
            (λ q h.
              update_other c4 shared q _ (ne_of_has shared q ps absent h)
              ∙ update_other c3 shared q _ (ne_of_has shared q ps absent h))
            (linked-AreSegments ps p c2 s2),
      ),
    )

-- If the next allocation succeeds, `tm_alloc` returns the address behind the header of the new
-- segment. The list of segments has the new one in front, linked to the old
-- first; the mutex is free, the other fields of the region are as they were, and of shared memory exactly
-- the words of the new segment are now 0.
pub tm_alloc_lem :
    (m : Machine) (shared tx p : Ptr) (rest : List Ptr) (r : Region) (ps : List Ptr) (size : ℕ)
    → shared ≢ null
    → m.cells shared ≡ some (region r)
    → r.allocs ≡ first ps
    → AreSegments m.cells ps
    → IsSupplied m p rest
    → (new : Machine) × (tm_alloc shared tx size m ≡ ok (success_alloc (p + segment_node_size)) new)
      × (new.cells shared
          ≡ some (region (record r { lock = record r.lock { segment_lock = false }; allocs = p })))
      × AreSegments new.cells (p ∷ ps)
      × ((a : ℕ)
          → new.mem a ≡ (
              if leb (p + segment_node_size) a && ltb a (p + segment_node_size + size)
              then 0
              else m.mem a))
unfolding tm_alloc segment_lock_acquire segment_lock_release
tm_alloc_lem m shared tx p rest r ps size real at e s supplied =
    let j = m.junk in
    let m0 : Machine = allocated m p rest (seg null j) in
    let apart : shared ≢ p = λ k. cc (ap m.cells k, supplied.fresh, at) in
    let new = not-has-fresh m.cells ps p s supplied.fresh in
    let (cells, run, at', s') =
      add_segment_lem m0 shared p r ps j real supplied.real
        (update_other m.cells p shared _ apart ∙ at) (update_self m.cells p _) new e
        (AreSegments-frame m.cells m0.cells ps
          (λ q h. update_other m.cells p q _ (ne_of_has p q ps new h)) s) in
    (
      record m0 {
        cells = cells;
        mem = λ a.
            if leb (p + segment_node_size) a && ltb a (p + segment_node_size + size)
            then 0
            else m.mem a;
      },
      rw (
        load-ok m shared (region r) real at,
        malloc-ok m p rest (λ k. seg k k) supplied,
        ne_null p supplied.real,
        load-ok (allocated m p rest (seg j j)) p (seg j j) supplied.real (update_self m.cells p _),
        with_cell-allocated m p rest (seg j j) (seg null j),
        run,
      ),
      at',
      s',
      λ a. refl,
    )
