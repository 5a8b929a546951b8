-- ===== src/Tm/Destroy.antt =====
-- `tm_destroy` of 335740/tm.c: the region and its segments.
use cs453_concurrent_algorit.Base.{
  ℕ, zero, suc, ◌<◌, ◌≡◌, ◌≢◌, refl, sym, ◌∙◌, true, false, some, none, Option, List, [], ◌∷◌, has,
  update, ◌==◌, arith, length, if◌then◌else◌, ne_of_has, Bool-cases, inl, inr,
}
use cs453_concurrent_algorit.Heap.{
  Ptr, null, Cell, Cells, segment_node, start_segment, region, Region, Machine, ok, with_cell,
}
use cs453_concurrent_algorit.Heap.Laws.{ne_null, load-ok, free-ok, update_self, update_other}
use cs453_concurrent_algorit.Tm.{free_segments, tm_destroy}
use cs453_concurrent_algorit.Tm.Cleanup.{kind_ne}

abbrev pub first : List Ptr → Ptr
first [] = null
first (p ∷ ps) = p

-- Distinct segments, each of which points to the next, and the last to NULL.
abbrev pub AreSegments : Cells → List Ptr → Type 0
AreSegments cells [] = Unit
AreSegments cells (p ∷ ps) =
    (p ≢ null)
    × ((prev : Ptr) × (cells p ≡ some (segment_node (record { prev = prev; next = first ps }))))
    × (has p ps ≡ false)
    × AreSegments cells ps

pub AreSegments-frame :
    (cells cells' : Cells) (ps : List Ptr)
    → ((q : Ptr) → has q ps ≡ true → cells' q ≡ cells q)
    → AreSegments cells ps
    → AreSegments cells' ps
AreSegments-frame cells cells' [] same s = tt
AreSegments-frame cells cells' (p ∷ ps) same s =
    let (prev, at) = s.1 in
    (
      s.0,
      (prev, same p (ground arith) ∙ at),
      s.2,
      AreSegments-frame cells cells' ps (λ q h. same q (ground arith)) s.3,
    )

pub not-has-segments :
    (cells : Cells) (ps : List Ptr) (shared : Ptr) (r : Region)
    → AreSegments cells ps
    → cells shared ≡ some (region r)
    → has shared ps ≡ false
not-has-segments cells [] shared r s at = refl
not-has-segments cells (p ∷ ps) shared r s at =
    let ne = kind_ne cells shared p _ _ at s.1.1 (omega arith) in
    ground (arith, not-has-segments cells ps shared r s.3 at)

freed-step :
    (cells : Cells) (p shared q : Ptr) (ps : List Ptr) (c : Option Cell)
    → q ≢ shared
    → (if has q ps then none else update (update cells p none) shared c q)
      ≡ (if has q (p ∷ ps) then none else cells q)
freed-step cells p shared q ps c other = ground arith

free_segments_lem :
    (fuel : ℕ) (m : Machine) (shared : Ptr) (r : Region) (ps : List Ptr)
    → shared ≢ null
    → m.cells shared ≡ some (region r)
    → r.allocs ≡ first ps
    → AreSegments m.cells ps
    → length ps < fuel
    → (cells : Cells) × (free_segments fuel shared m ≡ ok tt (record m { cells = cells }))
      × (cells shared ≡ some (region (record r { allocs = null })))
      × ((q : Ptr) → q ≢ shared → cells q ≡ (if has q ps then none else m.cells q))
unfolding free_segments
free_segments_lem zero m shared r ps real at e s enough = absurd (omega arith)
free_segments_lem (suc fuel) m shared r [] real at e s enough = (
  m.cells,
  rw (load-ok m shared (region r) real at, e),
  at ∙ (λ i. some (region (record r { allocs = e i }))),
  λ q ne. refl,
)
free_segments_lem (suc fuel) m shared r (p ∷ ps) real at e s enough =
    let (prev, at_p) = s.1 in
    let r' : Region = record r { allocs = first ps } in
    let cells = update (update m.cells p none) shared (some (region r')) in
    let absent = not-has-segments m.cells (p ∷ ps) shared r s at in
    let absent' = not-has-segments m.cells ps shared r s.3 at in
    let (cells', run, at', others) =
      free_segments_lem fuel (record m { cells = cells }) shared r' ps real
        (update_self (update m.cells p none) shared _) refl
        (AreSegments-frame m.cells cells ps
          (λ q h.
            update_other (update m.cells p none) shared q _ (ne_of_has shared q ps absent' h)
            ∙ update_other m.cells p q none (ne_of_has p q ps s.2 h))
          s.3)
        (omega arith) in
    (
      cells',
      rw
          (
            load-ok m shared (region r) real at,
            e,
            ne_null p s.0,
            load-ok m p (segment_node (record { prev = prev; next = first ps })) s.0 at_p,
            free-ok m p (segment_node (record { prev = prev; next = first ps })) s.0 at_p,
          )
          run,
      at',
      λ q ne. others q ne ∙ freed-step m.cells p shared q ps (some (region r')) ne,
    )

not-has-start :
    (cells : Cells) (ps : List Ptr) (start : Ptr)
    → AreSegments cells ps
    → cells start ≡ some start_segment
    → has start ps ≡ false
not-has-start cells [] start s at = refl
not-has-start cells (p ∷ ps) start s at =
    let ne = kind_ne cells start p _ _ at s.1.1 (omega arith) in
    ground (arith, not-has-start cells ps start s.3 at)

unfreed :
    (cells : Cells) (q : Ptr) (ps : List Ptr)
    → has q ps ≡ false
    → (if has q ps then none else cells q) ≡ cells q
unfreed cells q ps outside = rw outside

destroyed-step :
    (before after : Cells) (shared start q : Ptr) (ps : List Ptr)
    → (q ≢ shared → after q ≡ (if has q ps then none else before q))
    → update (update after start none) shared none q
      ≡ (if has q (shared ∷ start ∷ ps) then none else before q)
destroyed-step before after shared start q ps others = elim (Bool-cases (q == shared)) [
  | inl here ↦ rw here
  | inr away ↦ let same = others (ground arith) in ground (arith, same)
]

-- With fuel above the number of segments `tm_destroy` ends without a fault; it has freed the region,
-- its first segment and each segment of its list, once each, and nothing else.
pub tm_destroy_lem :
    (fuel : ℕ) (m : Machine) (shared : Ptr) (r : Region) (ps : List Ptr)
    → shared ≢ null
    → m.cells shared ≡ some (region r)
    → r.start ≢ null
    → m.cells r.start ≡ some start_segment
    → r.allocs ≡ first ps
    → AreSegments m.cells ps
    → length ps < fuel
    → (cells : Cells) × (tm_destroy fuel shared m ≡ ok tt (record m { cells = cells }))
      × ((q : Ptr) → cells q ≡ (if has q (shared ∷ r.start ∷ ps) then none else m.cells q))
unfolding tm_destroy
tm_destroy_lem fuel m shared r ps real at real_start at_start e s enough =
    let (cells, run, at', others) = free_segments_lem fuel m shared r ps real at e s enough in
    let r' : Region = record r { allocs = null } in
    let apart = kind_ne m.cells r.start shared _ _ at_start at (omega arith) in
    let outside = not-has-start m.cells ps r.start s at_start in
    let at_start' : cells r.start ≡ some start_segment =
      others r.start apart ∙ unfreed m.cells r.start ps outside ∙ at_start in
    let m' : Machine = record m { cells = cells } in
    (
      update (update cells r.start none) shared none,
      rw (
        run,
        load-ok m' shared (region r') real at',
        free-ok m' r.start start_segment real_start at_start',
        free-ok (with_cell m' r.start none) shared (region r') real
            (update_other cells r.start shared none (λ k. apart (sym k)) ∙ at'),
      ),
      λ q. destroyed-step m.cells cells shared r.start q ps (others q),
    )
