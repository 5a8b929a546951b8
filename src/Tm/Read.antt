-- ===== src/Tm/Read.antt =====
-- `tm_read` of 335740/tm.c on one word.
use cs453_concurrent_algorit.Base.{
  ℕ, suc, ◌<◌, ◌+◌, ◌≤◌, ◌≡◌, ◌≢◌, true, false, some, List, update, ltb, arith, length, ap, ◌∙◌,
  if◌then◌else◌, Bool-cases, inl, inr,
}
use cs453_concurrent_algorit.SharedLock.{versioned_spinlock_validate}
use cs453_concurrent_algorit.Heap.{
  Ptr, null, word, transaction, region, Transaction, Region, Machine, ok,
}
use cs453_concurrent_algorit.Heap.Laws.{ne_null, load-ok}
use cs453_concurrent_algorit.ReadSet.Chain as ReadChain
use cs453_concurrent_algorit.WriteSet.{write_node_find}
use cs453_concurrent_algorit.WriteSet.Chain.{Entry, node}
use cs453_concurrent_algorit.WriteSet.Find.{find_entry, find-Holds, write_node_find_lem}
use cs453_concurrent_algorit.Tm.{copy_in, copy_own, read_words, tm_read}
use cs453_concurrent_algorit.Tm.Cleanup.{IsTransaction, freed, abort_lem}

module _ (words fuel : ℕ) (m : Machine) (shared tx : Ptr) (r : Region) (t : Transaction)
    (rs : List ReadChain.Entry) (es : List Entry) (source size target : ℕ) (real : shared ≢ null)
    (at_shared : m.cells shared ≡ some (region r)) (s : IsTransaction m.cells tx t rs es)
    (enough_reads : length rs < fuel) (enough : length es < fuel) (one_word : size ≤ r.align) where
  last_word : ltb (0 + r.align) size ≡ false
  last_word = ground arith

  -- A read-only transaction: `tm_read` of one word copies it, and returns true if its lock is free and
  -- has a version up to the read version. Otherwise it returns false and frees the transaction, each
  -- of its objects once and nothing else.
  pub tm_read-ro :
      t.is_ro ≡ true
      → tm_read (suc words) fuel shared tx source size target m ≡ (
          if versioned_spinlock_validate r.lock source t.rv
          then ok true (record m { mem = update m.mem target (m.mem source) })
          else ok false (record m {
            mem = update m.mem target (m.mem source);
            cells = freed tx rs es m.cells;
          }))
  unfolding tm_read read_words copy_in
  tm_read-ro ro = elim (Bool-cases (versioned_spinlock_validate r.lock source t.rv)) [
    | inl valid ↦ rw (
      load-ok m shared (region r) real at_shared,
      load-ok m tx (transaction t) s.real s.at_tx,
      ro,
      last_word,
      valid,
    )
    | inr invalid ↦ rw (
      load-ok m shared (region r) real at_shared,
      load-ok m tx (transaction t) s.real s.at_tx,
      ro,
      invalid,
      abort_lem fuel (record m { mem = update m.mem target (m.mem source) }) tx t rs es s
          enough_reads enough,
    )
  ]

  copy_in-own :
      (e : Entry)
      → t.is_ro ≡ false
      → find_entry source es ≡ some e
      → copy_in fuel tx t source target m ≡ ok true (record m { mem = update m.mem target e.value })
  unfolding copy_in copy_own
  copy_in-own e rw_tx found =
      let (q, h, inside) = find-Holds m.cells source es e s.writes found in
      rw (
        rw_tx,
        ap (λ p. write_node_find fuel p source m) s.first_write
            ∙ write_node_find_lem fuel m source es s.writes enough,
        found,
        ne_null e.node h.real,
        load-ok m e.node (node e.address e.buffer q) h.real h.at_node,
        load-ok m e.buffer (word e.value) h.real_buffer h.at_buffer,
      )

  -- A read-write transaction that has written the address: `tm_read` of one word copies the word that
  -- it has buffered, and not that of shared memory. It returns true if the word's lock is free and has
  -- a version up to the read version, and otherwise returns false and frees the transaction.
  pub tm_read-own :
      (e : Entry)
      → t.is_ro ≡ false
      → find_entry source es ≡ some e
      → tm_read (suc words) fuel shared tx source size target m ≡ (
          if versioned_spinlock_validate r.lock source t.rv
          then ok true (record m { mem = update m.mem target e.value })
          else ok false
              (record m { mem = update m.mem target e.value; cells = freed tx rs es m.cells }))
  unfolding tm_read read_words
  tm_read-own e rw_tx found = elim (Bool-cases (versioned_spinlock_validate r.lock source t.rv)) [
    | inl valid ↦ rw (
      load-ok m shared (region r) real at_shared,
      load-ok m tx (transaction t) s.real s.at_tx,
      copy_in-own e rw_tx found,
      last_word,
      valid,
    )
    | inr invalid ↦ rw (
      load-ok m shared (region r) real at_shared,
      load-ok m tx (transaction t) s.real s.at_tx,
      copy_in-own e rw_tx found,
      invalid,
      abort_lem fuel (record m { mem = update m.mem target e.value }) tx t rs es s enough_reads
          enough,
    )
  ]
