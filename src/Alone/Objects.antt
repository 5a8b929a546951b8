-- ===== src/Alone/Objects.antt =====
-- The objects of a transaction of 335740/tm.c and of its region on the heap, and the memory that is left.
use cs453_concurrent_algorit.Base.{
  ℕ, ◌≤◌, ◌≡◌, ◌≢◌, refl, sym, subst, true, false, some, none, List, [], ◌∷◌, ◌++◌, has, update,
  arith, length, ne_of_has,
}
use cs453_concurrent_algorit.Heap.{
  Ptr, null, Cells, transaction, region, word, Transaction, Region, Machine, with_cell,
}
use cs453_concurrent_algorit.Heap.Laws.{IsSupplied, update_self}
use cs453_concurrent_algorit.ReadSet.Chain as ReadChain
use cs453_concurrent_algorit.ReadSet.Add as ReadAdd
use cs453_concurrent_algorit.WriteSet.Chain.{Entry, head, IsWriteSet}
use cs453_concurrent_algorit.WriteSet.Add.{AreSupplied, entry, added, write_set_add-append}
use cs453_concurrent_algorit.WriteSet.Find.{
  find_entry, find-Holds, overwritten, write_node_overwrite_lem,
}
use cs453_concurrent_algorit.Tm.Cleanup.{IsTransaction}
use cs453_concurrent_algorit.Alone.Kept.{
  Keeps, Keeps-reads, Keeps-writes, update-Keeps, Unused, All-unused, update-unused, read-Keeps,
  read-unused, write-Keeps, write-unused,
}
use cs453_concurrent_algorit.Alone.Read.{with_reads, after_read}

pub record OnHeap (shared tx : Ptr) (r : Region) (m : Machine) (u : Transaction)
    (rs : List ReadChain.Entry) (es : List Entry) : Type 0 where
  pub region_at : m.cells shared ≡ some (region r)
  pub real_tx : tx ≢ null
  pub at_tx : m.cells tx ≡ some (transaction u)
  pub reads : ReadChain.IsReadSet m u.first_read_node u.last_read_node rs
  pub writes : IsWriteSet m u.first_write_node u.last_write_node es
  pub unused : Unused m.cells m.supply

Unused-kept :
    (cells cells' : Cells) (ps : List Ptr)
    → Unused cells ps
    → ((q : Ptr) → has q ps ≡ true → cells q ≡ none → cells' q ≡ none)
    → Unused cells' ps
Unused-kept cells cells' ps u same = (u.0, All-unused cells cells' ps same u.1)

supply-two :
    (ps : List Ptr)
    → 2 ≤ length ps
    → (p : Ptr) × (b : Ptr) × (rest : List Ptr) × (ps ≡ p ∷ b ∷ rest)
supply-two [] few = absurd (omega arith)
supply-two (p ∷ []) few = absurd (omega arith)
supply-two (p ∷ b ∷ rest) few = (p, b, rest, refl)

pub next-AreSupplied :
    (m : Machine)
    → Unused m.cells m.supply
    → 2 ≤ length m.supply
    → (p : Ptr) × (b : Ptr) × (rest : List Ptr) × AreSupplied m p b rest
next-AreSupplied m unused some_left =
    let (p, b, rest, is_supply) = supply-two m.supply some_left in
    let u : Unused m.cells (p ∷ b ∷ rest) = subst (Unused m.cells) is_supply unused in
    let distinct : has p (b ∷ rest) ≡ false = u.0.0 in
    (
      p,
      b,
      rest,
      record {
        supply = is_supply;
        fresh = u.1.0.1;
        fresh_buffer = u.1.1.0.1;
        real = u.1.0.0;
        real_buffer = u.1.1.0.0;
        apart = λ same. absurd (ground arith);
      },
    )

pub supply-read :
    (m : Machine) (p : Ptr) (rest : List Ptr) (a : ℕ) (rs : List ReadChain.Entry)
    → (ReadAdd.added m p rest a rs).supply ≡ rest
supply-read m p rest a [] = refl
supply-read m p rest a (e ∷ rs) = refl

pub supply-write :
    (m : Machine) (p b : Ptr) (rest : List Ptr) (a v : ℕ) (es : List Entry)
    → (added m p b rest a v es).supply ≡ rest
supply-write m p b rest a v [] = refl
supply-write m p b rest a v (e ∷ es) = refl

pub mem-write :
    (m : Machine) (p b : Ptr) (rest : List Ptr) (a v : ℕ) (es : List Entry)
    → (added m p b rest a v es).mem ≡ m.mem
mem-write m p b rest a v [] = refl
mem-write m p b rest a v (e ∷ es) = refl

-- The transaction with a new first and last node of its write set
abbrev pub with_writes : Transaction → Ptr → Ptr → Transaction
with_writes u first final = record u { first_write_node = first; last_write_node = final }

-- The machine after the word at `source` was added to the write set
abbrev pub after_write :
    Machine
    → Ptr
    → Transaction
    → (p b : Ptr) → List Ptr
    → (source target : ℕ) → List Entry
    → Machine
after_write m tx u p b rest source target es =
    let v : ℕ = m.mem source in
    with_cell (added m p b rest target v es) tx
      (some (transaction (with_writes u (head (es ++ entry p b target v ∷ [])) p)))

module _ (shared tx : Ptr) (r : Region) (m : Machine) (u : Transaction) (rs : List ReadChain.Entry)
    (es : List Entry) (o : OnHeap shared tx r m u rs es) where
  pub OnHeap-IsTransaction : IsTransaction m.cells tx u rs es
  OnHeap-IsTransaction = record {
    real = o.real_tx;
    at_tx = o.at_tx;
    first_read = o.reads.first;
    first_write = o.writes.first;
    reads = o.reads.chain;
    writes = o.writes.chain;
  }

  pub OnHeap-mem : (mem : ℕ → ℕ) → OnHeap shared tx r (record m { mem = mem }) u rs es
  OnHeap-mem mem = record {
    region_at = o.region_at;
    real_tx = o.real_tx;
    at_tx = o.at_tx;
    reads = record { first = o.reads.first; final = o.reads.final; chain = o.reads.chain };
    writes = record { first = o.writes.first; final = o.writes.final; chain = o.writes.chain };
    unused = o.unused;
  }

  -- A read node is added, and the transaction points to it.
  pub OnHeap-read :
      (p : Ptr) (rest : List Ptr) (source target : ℕ)
      → m.supply ≡ p ∷ rest
      → OnHeap shared tx r
          (after_read m tx u p rest source target rs)
          (with_reads u (ReadChain.head (rs ++ ReadAdd.entry p source ∷ [])) p)
          (rs ++ ReadAdd.entry p source ∷ [])
          es
  OnHeap-read p rest source target is_supply =
      let free : Unused m.cells (p ∷ rest) = subst (Unused m.cells) is_supply o.unused in
      let s : IsSupplied m p rest = record {
        supply = is_supply;
        fresh = free.1.0.1;
        real = free.1.0.0;
      } in
      let (_, w) =
        ReadAdd.read_set_add-append m u.first_read_node u.last_read_node p rest source rs o.reads
          s in
      let rs' = rs ++ ReadAdd.entry p source ∷ [] in
      let u' : Transaction = with_reads u (ReadChain.head rs') p in
      let grown : Machine = ReadAdd.added m p rest source rs in
      let keeps : Keeps 0 m.cells grown.cells = read-Keeps m p rest source rs s o.reads.chain in
      let at_tx : grown.cells tx ≡ some (transaction u) = keeps tx _ o.at_tx (omega arith) in
      let keeps' : Keeps 3 grown.cells (update grown.cells tx (some (transaction u'))) =
        update-Keeps grown.cells tx (transaction u) (transaction u') at_tx in
      record {
        region_at = keeps' shared _ (keeps shared _ o.region_at (omega arith)) (omega arith);
        real_tx = o.real_tx;
        at_tx = update_self grown.cells tx _;
        reads = record {
          first = refl;
          final = w.final;
          chain = Keeps-reads 3 grown.cells _ rs' keeps' (omega arith) w.chain;
        };
        writes = record {
          first = o.writes.first;
          final = o.writes.final;
          chain = Keeps-writes 3 grown.cells _ es keeps' (omega arith) (omega arith) (
              Keeps-writes 0 m.cells grown.cells es keeps (omega arith) (omega arith)
                o.writes.chain);
        };
        unused =
            subst (Unused (update grown.cells tx (some (transaction u'))))
              (sym (supply-read m p rest source rs))
              (Unused-kept m.cells (update grown.cells tx (some (transaction u'))) rest
                (free.0.1, free.1.1)
                (λ q inside none_there.
                  update-unused grown.cells tx q (transaction u) (transaction u') at_tx (
                    read-unused m p rest source rs q o.reads.chain
                      (ne_of_has p q rest free.0.0 inside) none_there)));
      }

  -- A write node and its buffer are added, and the transaction points to the node.
  pub OnHeap-write :
      (p b : Ptr) (rest : List Ptr) (source target : ℕ)
      → AreSupplied m p b rest
      → OnHeap shared tx r
          (after_write m tx u p b rest source target es)
          (with_writes u (head (es ++ entry p b target (m.mem source) ∷ [])) p)
          rs
          (es ++ entry p b target (m.mem source) ∷ [])
  OnHeap-write p b rest source target s =
      let v : ℕ = m.mem source in
      let free : Unused m.cells (p ∷ b ∷ rest) = subst (Unused m.cells) s.supply o.unused in
      let p_apart : has p (b ∷ rest) ≡ false = free.0.0 in
      let (_, w) =
        write_set_add-append m u.first_write_node u.last_write_node p b rest target source es
          o.writes s in
      let es' = es ++ entry p b target v ∷ [] in
      let u' : Transaction = with_writes u (head es') p in
      let grown : Machine = added m p b rest target v es in
      let keeps : Keeps 1 m.cells grown.cells =
        write-Keeps m p b rest target v es s o.writes.chain in
      let at_tx : grown.cells tx ≡ some (transaction u) = keeps tx _ o.at_tx (omega arith) in
      let keeps' : Keeps 3 grown.cells (update grown.cells tx (some (transaction u'))) =
        update-Keeps grown.cells tx (transaction u) (transaction u') at_tx in
      record {
        region_at = keeps' shared _ (keeps shared _ o.region_at (omega arith)) (omega arith);
        real_tx = o.real_tx;
        at_tx = update_self grown.cells tx _;
        reads = record {
          first = o.reads.first;
          final = o.reads.final;
          chain =
              Keeps-reads 3 grown.cells _ rs keeps' (omega arith)
                (Keeps-reads 1 m.cells grown.cells rs keeps (omega arith) o.reads.chain);
        };
        writes = record {
          first = refl;
          final = w.final;
          chain = Keeps-writes 3 grown.cells _ es' keeps' (omega arith) (omega arith) w.chain;
        };
        unused =
            subst (Unused (update grown.cells tx (some (transaction u'))))
              (sym (supply-write m p b rest target v es))
              (Unused-kept m.cells (update grown.cells tx (some (transaction u'))) rest
                (free.0.1.1, free.1.1.1)
                (λ q inside none_there.
                  update-unused grown.cells tx q (transaction u) (transaction u') at_tx (
                    write-unused m p b rest target v es q o.writes.chain
                      (ne_of_has p q rest (ground arith) inside)
                      (ne_of_has b q rest free.0.1.0 inside) none_there)));
      }

  -- A buffered word is replaced.
  pub OnHeap-overwrite :
      (source target : ℕ) (e : Entry)
      → find_entry target es ≡ some e
      → OnHeap shared tx r
          (with_cell m e.buffer (some (word (m.mem source))))
          u
          rs
          (overwritten target (m.mem source) es)
  OnHeap-overwrite source target e found =
      let (q, h, inside) = find-Holds m.cells target es e o.writes.chain found in
      let (_, w) =
        write_node_overwrite_lem m u.first_write_node u.last_write_node target source es e o.writes
          found in
      let cells = update m.cells e.buffer (some (word (m.mem source))) in
      let keeps : Keeps 2 m.cells cells =
        update-Keeps m.cells e.buffer (word e.value) (word (m.mem source)) h.at_buffer in
      record {
        region_at = keeps shared _ o.region_at (omega arith);
        real_tx = o.real_tx;
        at_tx = keeps tx _ o.at_tx (omega arith);
        reads = record {
          first = o.reads.first;
          final = o.reads.final;
          chain = Keeps-reads 2 m.cells cells rs keeps (omega arith) o.reads.chain;
        };
        writes = w;
        unused = Unused-kept m.cells cells m.supply o.unused (λ q inside none_there.
            update-unused m.cells e.buffer q (word e.value) (word (m.mem source)) h.at_buffer
              none_there);
      }
