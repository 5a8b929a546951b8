-- ===== src/Tm/Begin.antt =====
-- `tm_begin` of 335740/tm.c.
use cs453_concurrent_algorit.Base.{ℕ, ◌≡◌, ◌≢◌, refl, ◌∙◌, ap, Bool, true, some, List, []}
use cs453_concurrent_algorit.SharedLock.{global_clock_get}
use cs453_concurrent_algorit.Heap.{Ptr, null, region, transaction, Transaction, Region, Machine, ok}
use cs453_concurrent_algorit.Heap.Laws.{
  ne_null, load-ok, IsSupplied, malloc-ok, allocated, with_cell-allocated, update_self,
  update_other,
}
use cs453_concurrent_algorit.ReadSet
use cs453_concurrent_algorit.WriteSet
use cs453_concurrent_algorit.Transaction.{transaction_init}
use cs453_concurrent_algorit.Tm.{tm_begin}
use cs453_concurrent_algorit.Tm.Cleanup.{IsTransaction}

abbrev pub empty_transaction : Bool → ℕ → Transaction
empty_transaction is_ro rv = record {
  is_ro = is_ro;
  rv = rv;
  first_read_node = null;
  last_read_node = null;
  first_write_node = null;
  last_write_node = null;
}

-- If the next allocation succeeds, `tm_begin` returns the new object, a transaction that has read
-- and written nothing and whose read version is the clock; nothing else changes, the region included.
pub tm_begin_lem :
    (m : Machine) (shared p : Ptr) (rest : List Ptr) (r : Region) (is_ro : Bool)
    → shared ≢ null
    → m.cells shared ≡ some (region r)
    → IsSupplied m p rest
    → (tm_begin shared is_ro m
        ≡ ok p (allocated m p rest (transaction (empty_transaction is_ro r.lock.clock))))
      × IsTransaction
          (allocated m p rest (transaction (empty_transaction is_ro r.lock.clock))).cells
          p
          (empty_transaction is_ro r.lock.clock)
          []
          []
unfolding tm_begin transaction_init ReadSet.init WriteSet.init global_clock_get
tm_begin_lem m shared p rest r is_ro real at_shared s =
    let blank : Transaction = record (empty_transaction true m.junk) {
      first_read_node = m.junk;
      last_read_node = m.junk;
      first_write_node = m.junk;
      last_write_node = m.junk;
    } in
    let begun : Transaction = empty_transaction is_ro m.junk in
    let apart : shared ≢ p = λ k. cc (ap m.cells k, s.fresh, at_shared) in
    (
      rw (
        malloc-ok m p rest
            (λ k. transaction (record (empty_transaction true k) {
              first_read_node = k;
              last_read_node = k;
              first_write_node = k;
              last_write_node = k;
            }))
            s,
        ne_null p s.real,
        load-ok (allocated m p rest (transaction blank)) p (transaction blank) s.real
            (update_self m.cells p _),
        with_cell-allocated m p rest (transaction blank) (transaction begun),
        load-ok (allocated m p rest (transaction begun)) shared (region r) real
            (update_other m.cells p shared _ apart ∙ at_shared),
        load-ok (allocated m p rest (transaction begun)) p (transaction begun) s.real
            (update_self m.cells p _),
        with_cell-allocated m p rest (transaction begun)
            (transaction (empty_transaction is_ro r.lock.clock)),
      ),
      record {
        real = s.real;
        at_tx = update_self m.cells p _;
        first_read = refl;
        first_write = refl;
        reads = tt;
        writes = tt;
      },
    )
