-- ===== src/Tm/Write.antt =====
-- `tm_write` of 335740/tm.c on one word.
use cs453_concurrent_algorit.Base.{
  ℕ, suc, ◌<◌, ◌+◌, ◌≡◌, ◌≢◌, ◌≤◌, refl, ◌∙◌, ap, true, false, some, none, List, [], ◌∷◌, ◌++◌,
  update, ltb, arith, length,
}
use cs453_concurrent_algorit.Heap.{
  Ptr, null, Cells, word, transaction, region, Transaction, Region, Machine, ok, with_cell,
}
use cs453_concurrent_algorit.Heap.Laws.{ne_null, load-ok, update_self, update_other}
use cs453_concurrent_algorit.WriteSet.Chain.{
  Entry, head, last, node, Chain, Chain-frame, Within-ne, IsWriteSet,
}
use cs453_concurrent_algorit.WriteSet.Find.{
  find_entry, find-Holds, overwritten, write_node_find_lem, write_node_overwrite_lem,
}
use cs453_concurrent_algorit.WriteSet.{write_node_find}
use cs453_concurrent_algorit.WriteSet.Add.{
  AreSupplied, written, entry, added, last_node, write_set_add-append, written-other, last-cell,
}
use cs453_concurrent_algorit.Tm.{add_write, write_word, write_words, tm_write}
use cs453_concurrent_algorit.Tm.Cleanup.{kind, kind_ne, not-has-objects}

-- Overwriting a word that the transaction has written before.
write_word-overwrite :
    (fuel : ℕ) (m : Machine) (tx : Ptr) (t : Transaction) (source_word target_word : ℕ)
    → (es : List Entry) (e : Entry) → IsWriteSet m t.first_write_node t.last_write_node es
    → length es < fuel
    → find_entry target_word es ≡ some e
    → e.node ≢ null
    → write_word fuel tx t source_word target_word m
      ≡ ok true (with_cell m e.buffer (some (word (m.mem source_word))))
unfolding write_word
write_word-overwrite fuel m tx t source_word target_word es e w enough found real = rw (
  w.first,
  write_node_find_lem fuel m target_word es w.chain enough,
  found,
  ne_null e.node real,
  (write_node_overwrite_lem m t.first_write_node t.last_write_node target_word source_word es e w
      found).0,
)

pub kind-last_node : (e : Entry) (es : List Entry) (q : Ptr) → kind (last_node e es q) ≡ 1
kind-last_node e [] q = refl
kind-last_node e (f ∷ es) q = kind-last_node f es q

-- Adding to a write set keeps every transaction.
pub added-transaction :
    (m : Machine) (p b : Ptr) (rest : List Ptr) (a v : ℕ) (es : List Entry) (q : Ptr)
    (t : Transaction)
    → AreSupplied m p b rest
    → Chain m.cells es
    → m.cells q ≡ some (transaction t)
    → (added m p b rest a v es).cells q ≡ some (transaction t)
added-transaction m p b rest a v [] q t s c at_q =
    (written-other m p b rest (node a b null) _ v q s at_q).2 ∙ at_q
added-transaction m p b rest a v (e ∷ es) q t s c at_q =
    let no_node : kind (transaction t) ≢ kind (last_node e es null) =
      λ k. three (k ∙ kind-last_node e es null) in
    let ne = kind_ne m.cells q (last (e ∷ es)) _ _ at_q (last-cell m.cells e es c).1 no_node in
    update_other (written m p b rest (node a b null) v).cells (last (e ∷ es)) q _ ne
    ∙ (written-other m p b rest (node a b null) _ v q s at_q).2
    ∙ at_q
  where
    three : kind (transaction t) ≢ 1
    three = omega arith

-- Another transaction object at the same address leaves a chain as it is.
Chain-with_transaction :
    (cells : Cells) (es : List Entry) (tx : Ptr) (t t' : Transaction)
    → Chain cells es
    → cells tx ≡ some (transaction t)
    → Chain (update cells tx (some (transaction t'))) es
Chain-with_transaction cells es tx t t' c at_tx =
    let (_, no_node, no_buffer) =
      not-has-objects cells es tx _ c at_tx (omega arith) (omega arith) in
    Chain-frame cells (update cells tx (some (transaction t'))) es
      (λ q w. update_other cells tx q _ (Within-ne tx q es no_node no_buffer w)) c

module _ (words fuel : ℕ) (m : Machine) (shared tx : Ptr) (r : Region) (t : Transaction)
    (es : List Entry) (source size target : ℕ) (real : shared ≢ null)
    (at_shared : m.cells shared ≡ some (region r)) (real_tx : tx ≢ null)
    (at_tx : m.cells tx ≡ some (transaction t))
    (w : IsWriteSet m t.first_write_node t.last_write_node es) (enough : length es < fuel)
    (one_word : size ≤ r.align) where
  last_word : ltb (0 + r.align) size ≡ false
  last_word = ground arith

  -- If the transaction has written the address before, `tm_write` of one word returns true and
  -- replaces the word in that entry of the write set; nothing else changes, shared memory included.
  pub tm_write-overwrite :
      (e : Entry)
      → find_entry target es ≡ some e
      → (tm_write (suc words) fuel shared tx source size target m
          ≡ ok true (with_cell m e.buffer (some (word (m.mem source)))))
        × IsWriteSet
            (with_cell m e.buffer (some (word (m.mem source))))
            t.first_write_node
            t.last_write_node
            (overwritten target (m.mem source) es)
  unfolding tm_write write_words
  tm_write-overwrite e found =
      let (q, h, inside) = find-Holds m.cells target es e w.chain found in
      (
        rw (
          load-ok m shared (region r) real at_shared,
          load-ok m tx (transaction t) real_tx at_tx,
          write_word-overwrite fuel m tx t source target es e w enough found h.real,
          last_word,
        ),
        (write_node_overwrite_lem m t.first_write_node t.last_write_node target source es e w
            found).1,
      )

  -- The transaction with a new first and last node of its write set.
  abbrev pub with_writes : Ptr → Ptr → Transaction
  with_writes first final = record t { first_write_node = first; last_write_node = final }

  write_word-new :
      (p b : Ptr) (rest : List Ptr)
      → AreSupplied m p b rest
      → find_entry target es ≡ none
      → write_word fuel tx t source target m
        ≡ ok true (
            with_cell (added m p b rest target (m.mem source) es) tx (
              some
                (transaction (with_writes (head (es ++ entry p b target (m.mem source) ∷ [])) p))))
  unfolding write_word add_write
  write_word-new p b rest s absent =
      let (add, _) =
        write_set_add-append m t.first_write_node t.last_write_node p b rest target source es w s in
      let find = write_node_find_lem fuel m target es w.chain enough in
      rw (ap (λ q. write_node_find fuel q target m) w.first ∙ find, absent, add)

  pub tm_write-added :
      (p b : Ptr) (rest : List Ptr)
      → AreSupplied m p b rest
      → find_entry target es ≡ none
      → tm_write (suc words) fuel shared tx source size target m
        ≡ ok true (
            with_cell (added m p b rest target (m.mem source) es) tx (
              some
                (transaction (with_writes (head (es ++ entry p b target (m.mem source) ∷ [])) p))))
  unfolding tm_write write_words
  tm_write-added p b rest s absent = rw (
    load-ok m shared (region r) real at_shared,
    load-ok m tx (transaction t) real_tx at_tx,
    write_word-new p b rest s absent,
    last_word,
  )

  -- If the transaction has not written the address before and the next two allocations succeed,
  -- `tm_write` of one word returns true, and the write set has the address with the word at its end;
  -- shared memory is as it was.
  pub tm_write-new :
      (p b : Ptr) (rest : List Ptr)
      → AreSupplied m p b rest
      → find_entry target es ≡ none
      → (new : Machine) × (t' : Transaction) × (tm_write
            (suc words)
            fuel
            shared
            tx
            source
            size
            target
            m
          ≡ ok true new)
        × (new.mem ≡ m.mem)
        × (new.cells tx ≡ some (transaction t'))
        × IsWriteSet new t'.first_write_node t'.last_write_node
            (es ++ entry p b target (m.mem source) ∷ [])
  tm_write-new p b rest s absent =
      let v = m.mem source in
      let es' = es ++ entry p b target v ∷ [] in
      let t' = with_writes (head es') p in
      let grown = added m p b rest target v es in
      let (_, w') =
        write_set_add-append m t.first_write_node t.last_write_node p b rest target source es w s in
      (
        with_cell grown tx (some (transaction t')),
        t',
        tm_write-added p b rest s absent,
        mem-added es,
        update_self grown.cells tx _,
        record {
          first = refl;
          final = w'.final;
          chain =
              Chain-with_transaction grown.cells es' tx t t' w'.chain
                (added-transaction m p b rest target v es tx t s w.chain at_tx);
        },
      )
    where
      mem-added : (fs : List Entry) → (added m p b rest target (m.mem source) fs).mem ≡ m.mem
      mem-added [] = refl
      mem-added (f ∷ fs) = refl
