-- ===== src/Alone/Read.antt =====
-- `tm_read` of 335740/tm.c on one word that its transaction has not written.
use cs453_concurrent_algorit.Base.{
  ℕ, suc, ◌<◌, ◌+◌, ◌≤◌, ◌≡◌, ◌≢◌, refl, ◌∙◌, ap, true, false, some, none, List, [], ◌∷◌, ◌++◌,
  update, ltb, arith, length,
}
use cs453_concurrent_algorit.SharedLock.{versioned_spinlock_validate}
use cs453_concurrent_algorit.Heap.{
  Ptr, null, transaction, region, Transaction, Region, Machine, ok, with_cell,
}
use cs453_concurrent_algorit.Heap.Laws.{load-ok, IsSupplied}
use cs453_concurrent_algorit.ReadSet.Chain.{Entry, head, IsReadSet}
use cs453_concurrent_algorit.ReadSet.Add.{entry, added, read_set_add-append}
use cs453_concurrent_algorit.WriteSet.Chain as WriteChain
use cs453_concurrent_algorit.WriteSet.{write_node_find}
use cs453_concurrent_algorit.WriteSet.Find.{find_entry, write_node_find_lem}
use cs453_concurrent_algorit.Tm.{copy_in, copy_added, read_words, tm_read}

-- The transaction with a new first and last node of its read set
abbrev pub with_reads : Transaction → Ptr → Ptr → Transaction
with_reads t first final = record t { first_read_node = first; last_read_node = final }

-- The machine after the address is appended to the read set and its word is copied
abbrev pub after_read :
    Machine → Ptr → Transaction → Ptr → List Ptr → (source target : ℕ) → List Entry → Machine
after_read m tx t p rest source target rs =
    let grown = added m p rest source rs in
    record (with_cell grown tx
      (some (transaction (with_reads t (head (rs ++ entry p source ∷ [])) p)))) {
        mem = update m.mem target (m.mem source);
      }

mem-added :
    (m : Machine) (p : Ptr) (rest : List Ptr) (a : ℕ) (rs : List Entry)
    → (added m p rest a rs).mem ≡ m.mem
mem-added m p rest a [] = refl
mem-added m p rest a (e ∷ rs) = refl

module _ (words fuel : ℕ) (m : Machine) (shared tx : Ptr) (r : Region) (t : Transaction)
    (rs : List Entry) (es : List WriteChain.Entry) (source size target : ℕ) (real : shared ≢ null)
    (at_shared : m.cells shared ≡ some (region r)) (real_tx : tx ≢ null)
    (at_tx : m.cells tx ≡ some (transaction t))
    (reads : IsReadSet m t.first_read_node t.last_read_node rs)
    (first_write : t.first_write_node ≡ WriteChain.head es) (writes : WriteChain.Chain m.cells es)
    (enough : length es < fuel) (one_word : size ≤ r.align) where
  last_word : ltb (0 + r.align) size ≡ false
  last_word = ground arith

  copy_in-new :
      (p : Ptr) (rest : List Ptr)
      → IsSupplied m p rest
      → t.is_ro ≡ false
      → find_entry source es ≡ none
      → copy_in fuel tx t source target m ≡ ok true (after_read m tx t p rest source target rs)
  unfolding copy_in copy_added
  copy_in-new p rest s rw_tx absent =
      let (add, _) =
        read_set_add-append m t.first_read_node t.last_read_node p rest source rs reads s in
      rw (
        rw_tx,
        ap (λ q. write_node_find fuel q source m) first_write
            ∙ write_node_find_lem fuel m source es writes enough,
        absent,
        add,
        mem-added m p rest source rs,
      )

  -- If a read-write transaction has not written the address, the next allocation succeeds and the word is
  -- valid at the read version, `tm_read` of one word copies it from shared memory, returns true, and
  -- has the address at the end of the read set.
  pub tm_read-new :
      (p : Ptr) (rest : List Ptr)
      → IsSupplied m p rest
      → t.is_ro ≡ false
      → find_entry source es ≡ none
      → versioned_spinlock_validate r.lock source t.rv ≡ true
      → tm_read (suc words) fuel shared tx source size target m
        ≡ ok true (after_read m tx t p rest source target rs)
  unfolding tm_read read_words
  tm_read-new p rest s rw_tx absent valid = rw (
    load-ok m shared (region r) real at_shared,
    load-ok m tx (transaction t) real_tx at_tx,
    copy_in-new p rest s rw_tx absent,
    last_word,
    valid,
  )
