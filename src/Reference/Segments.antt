-- ===== src/Reference/Segments.antt =====
-- tm_alloc and tm_free of reference/tm.c, on the doubly linked list of segments.
use cs453_concurrent_algorit.Base.{
  ℕ, ◌+◌, ◌-◌, ◌≡◌, ◌≢◌, refl, sym, ap, ◌∙◌, true, some, none, List, ◌⊎◌, inl, inr, update, leb,
  ltb, ◌&&◌, if◌then◌else◌, arith,
}
use cs453_concurrent_algorit.Heap.{
  Ptr, null, Cell, Cells, Machine, reference_region, segment_node, ReferenceRegion, ok, with_cell,
}
use cs453_concurrent_algorit.Heap.Laws.{
  ne_null, load-ok, free-ok, IsSupplied, malloc-ok, allocated, with_cell-allocated, update_self,
  update_other,
}
use cs453_concurrent_algorit.Interface.{success_alloc}
use cs453_concurrent_algorit.Reference.{
  tm_alloc, tm_free, link_front, set_prev, unlink_next, segment_node_size,
}

abbrev pub seg : Ptr → Ptr → Cell
seg prev next = segment_node (record { prev = prev; next = next })

-- Memory once the words of the new segment are cleared
abbrev pub cleared : (sn size : ℕ) → (ℕ → ℕ) → ℕ → ℕ
cleared sn size mem a =
    let start = sn + segment_node_size in if leb start a && ltb a (start + size) then 0 else mem a

set_prev-null : (p q : Ptr) (m : Machine) → p ≡ null → set_prev p q m ≡ ok tt m
unfolding set_prev
set_prev-null p q m e = rw (e, set_prev)

set_prev-some :
    (p q prev next : Ptr) (m : Machine)
    → p ≢ null
    → m.cells p ≡ some (seg prev next)
    → set_prev p q m ≡ ok tt (with_cell m p (some (seg q next)))
unfolding set_prev
set_prev-some p q prev next m real at = rw (ne_null p real, load-ok m p (seg prev next) real at)

module _ (shared sn : Ptr) (r : ReferenceRegion) (tx size : ℕ) (real : shared ≢ null)
    (real_sn : sn ≢ null) (apart : shared ≢ sn) where
  abbrev in_front : ReferenceRegion
  in_front = record r { allocs = sn }

  -- The cells once the region points to the new segment
  abbrev headed : Cells → Cells
  headed cells = update cells shared (some (reference_region in_front))

  tm_alloc-linked :
      (m : Machine) (rest : List Ptr) (cells : Cells)
      → m.cells shared ≡ some (reference_region r)
      → IsSupplied m sn rest
      → set_prev r.allocs sn (allocated m sn rest (seg null r.allocs))
        ≡ ok tt (record m { supply = rest; cells = cells })
      → cells shared ≡ some (reference_region r)
      → tm_alloc shared tx size m
        ≡ ok
            (success_alloc (sn + segment_node_size))
            (record m { supply = rest; cells = headed cells; mem = cleared sn size m.mem })
  unfolding tm_alloc link_front
  tm_alloc-linked m rest cells at supplied prev at' =
      let j : ℕ = m.junk in
      let old : (c : Cell) → update m.cells sn (some c) shared ≡ some (reference_region r) =
        λ c. update_other m.cells sn shared (some c) apart ∙ at in
      rw (
        load-ok m shared (reference_region r) real at,
        malloc-ok m sn rest (λ k. seg k k) supplied,
        ne_null sn real_sn,
        load-ok (allocated m sn rest (seg j j)) sn (seg j j) real_sn (update_self m.cells sn _),
        with_cell-allocated m sn rest (seg j j) (seg null j),
        load-ok (allocated m sn rest (seg null j)) shared (reference_region r) real (old _),
        load-ok (allocated m sn rest (seg null j)) sn (seg null j) real_sn
            (update_self m.cells sn _),
        with_cell-allocated m sn rest (seg null j) (seg null r.allocs),
        prev,
        load-ok (record m { supply = rest; cells = cells }) shared (reference_region r) real at',
      )

  -- The cells once the region points to the old first segment again
  abbrev restored : Cells → Cells
  restored cells = update (headed cells) shared (some (reference_region r))

  restored-other : (cells : Cells) (q : Ptr) → q ≢ shared → restored cells q ≡ cells q
  restored-other cells q ne = ground arith

  tm_free-linked :
      (m : Machine) (cells cells' : Cells)
      → cells sn ≡ some (seg null r.allocs)
      → set_prev r.allocs null (record m { cells = restored cells })
        ≡ ok tt (record m { cells = cells' })
      → cells' sn ≡ some (seg null r.allocs)
      → tm_free shared tx (sn + segment_node_size) (record m { cells = headed cells })
        ≡ ok true (record m { cells = update cells' sn none })
  unfolding tm_free unlink_next
  tm_free-linked m cells cells' at prev at' =
      let node : Cell = seg null r.allocs in
      let back : sn + segment_node_size - segment_node_size ≡ sn = omega arith in
      let away : sn ≢ shared = λ e. apart (sym e) in
      let at_headed : headed cells sn ≡ some node = update_other cells shared sn _ away ∙ at in
      rw (
        back,
        load-ok (record m { cells = headed cells }) sn node real_sn at_headed,
        load-ok (record m { cells = headed cells }) shared (reference_region in_front) real
            (update_self cells shared _),
        load-ok (record m { cells = restored cells }) sn node real_sn
            (update_other (headed cells) shared sn _ away ∙ at_headed),
        prev,
        free-ok (record m { cells = cells' }) sn node real_sn at',
      )

-- The first segment of the list, if there is one: nothing comes before it.
abbrev pub IsFirst : Cells → Ptr → Type 0
IsFirst cells p = (p ≡ null) ⊎ ((p ≢ null) × ((next : Ptr) × (cells p ≡ some (seg null next))))

-- An allocation that gives `sn`, and then the release of what it gave
abbrev pub ThereAndBack : (shared tx size sn : ℕ) → Machine → Type 0
ThereAndBack shared tx size sn m =
    (used : Machine) × ((final : Machine) × (tm_alloc shared tx size m
        ≡ ok (success_alloc (sn + segment_node_size)) used)
      × (tm_free shared tx (sn + segment_node_size) used ≡ ok true final)
      × ((q : Ptr) → final.cells q ≡ m.cells q)
      × ((a : ℕ) → final.mem a ≡ cleared sn size m.mem a))

module _ (m : Machine) (shared sn : Ptr) (rest : List Ptr) (r : ReferenceRegion) (tx size : ℕ)
    (real : shared ≢ null) (at : m.cells shared ≡ some (reference_region r))
    (supplied : IsSupplied m sn rest) where
  apart : shared ≢ sn
  apart e = cc (ap m.cells e, at, supplied.fresh)

  -- The cells with the new segment
  abbrev with_new : Cells
  with_new = update m.cells sn (some (seg null r.allocs))

  there_and_back :
      (cells cells' : Cells)
      → set_prev r.allocs sn (allocated m sn rest (seg null r.allocs))
        ≡ ok tt (record m { supply = rest; cells = cells })
      → cells shared ≡ some (reference_region r)
      → cells sn ≡ some (seg null r.allocs)
      → set_prev r.allocs null (record m {
        supply = rest;
        cells = restored shared sn r tx size real supplied.real apart cells;
        mem = cleared sn size m.mem;
      })
        ≡ ok tt (record m { supply = rest; cells = cells'; mem = cleared sn size m.mem })
      → cells' sn ≡ some (seg null r.allocs)
      → ((q : Ptr) → update cells' sn none q ≡ m.cells q)
      → ThereAndBack shared tx size sn m
  there_and_back cells cells' linked at_shared at_sn unlinked at_sn' same =
      let cleared_m : Machine = record m { supply = rest; mem = cleared sn size m.mem } in
      (
        record cleared_m { cells = headed shared sn r tx size real supplied.real apart cells },
        (
          record cleared_m { cells = update cells' sn none },
          tm_alloc-linked shared sn r tx size real supplied.real apart m rest cells at supplied
              linked at_shared,
          tm_free-linked shared sn r tx size real supplied.real apart cleared_m cells cells' at_sn
              unlinked at_sn',
          same,
          λ a. refl,
        ),
      )

  away : sn ≢ shared
  away e = apart (sym e)

  alone_and_back : r.allocs ≡ null → ThereAndBack shared tx size sn m
  alone_and_back empty =
      there_and_back with_new (restored shared sn r tx size real supplied.real apart with_new)
        (set_prev-null r.allocs sn _ empty) (update_other m.cells sn shared _ apart ∙ at)
        (update_self m.cells sn _) (set_prev-null r.allocs null _ empty)
        (restored-other shared sn r tx size real supplied.real apart with_new sn away
          ∙ update_self m.cells sn _)
        (λ q. ground (arith, at, supplied.fresh))

  linked_and_back :
      (next : Ptr)
      → r.allocs ≢ null
      → m.cells r.allocs ≡ some (seg null next)
      → ThereAndBack shared tx size sn m
  linked_and_back next real_p at_p =
      let p : Ptr = r.allocs in
      let p_not_sn : p ≢ sn = λ e. cc (ap m.cells e, at_p, supplied.fresh) in
      let sn_not_p : sn ≢ p = λ e. p_not_sn (sym e) in
      let p_not_shared : p ≢ shared = λ e. cc (ap m.cells e, at_p, at) in
      let shared_not_p : shared ≢ p = λ e. p_not_shared (sym e) in
      let cells : Cells = update with_new p (some (seg sn next)) in
      let back : Cells = restored shared sn r tx size real supplied.real apart cells in
      there_and_back cells (update back p (some (seg null next)))
        (set_prev-some p sn null next _ real_p (update_other m.cells sn p _ p_not_sn ∙ at_p))
        (update_other with_new p shared _ shared_not_p
          ∙ update_other m.cells sn shared _ apart
          ∙ at)
        (update_other with_new p sn _ sn_not_p ∙ update_self m.cells sn _)
        (set_prev-some p null sn next _ real_p (
          restored-other shared sn r tx size real supplied.real apart cells p p_not_shared
          ∙ update_self with_new p _))
        (update_other back p sn _ sn_not_p
          ∙ restored-other shared sn r tx size real supplied.real apart cells sn away
          ∙ update_other with_new p sn _ sn_not_p
          ∙ update_self m.cells sn _)
        (λ q. ground (arith, at, at_p, supplied.fresh))

-- If memory can be had, and the first segment of the region's list, if there is one, has no
-- predecessor, tm_free undoes tm_alloc: after an allocation and the release of the segment it gave,
-- every object is as before, the region and the segments included, no object is left, and of
-- shared memory exactly the words of the segment have been cleared.
pub tm_free-tm_alloc :
    (m : Machine) (shared sn : Ptr) (rest : List Ptr) (r : ReferenceRegion) (tx size : ℕ)
    → shared ≢ null
    → m.cells shared ≡ some (reference_region r)
    → IsFirst m.cells r.allocs
    → IsSupplied m sn rest
    → ThereAndBack shared tx size sn m
tm_free-tm_alloc m shared sn rest r tx size real at (inl empty) supplied =
    alone_and_back m shared sn rest r tx size real at supplied empty
tm_free-tm_alloc m shared sn rest r tx size real at (inr (real_p, (next, at_p))) supplied =
    linked_and_back m shared sn rest r tx size real at supplied next real_p at_p
