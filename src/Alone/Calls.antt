-- ===== src/Alone/Calls.antt =====
-- The methods read and write of class Transaction of grading/transactional.hpp on 335740/tm.c, when no
-- other thread runs.
use cs453_concurrent_algorit.Base.{
  ℕ, suc, ◌+◌, ◌*◌, ◌<◌, ◌≤◌, ◌≡◌, ◌≢◌, sym, ◌∙◌, ap, subst, Bool, true, false, some, List, [], ◌∷◌,
  ◌++◌, has, AllDistinct, update, ◌==◌, if◌then◌else◌, arith, length, length-append, if_true,
  Option-cases, inl, inr,
}
use cs453_concurrent_algorit.SharedLock.{SharedLock, versioned_spinlock_validate}
use cs453_concurrent_algorit.Heap.{
  Ptr, null, word, Transaction, Region, Machine, with_cell, ok, word_at,
}
use cs453_concurrent_algorit.Heap.Laws.{IsSupplied}
use cs453_concurrent_algorit.ReadSet.Chain as ReadChain
use cs453_concurrent_algorit.ReadSet.Add as ReadAdd
use cs453_concurrent_algorit.WriteSet.Chain.{Entry, addresses}
use cs453_concurrent_algorit.WriteSet.Add.{entry}
use cs453_concurrent_algorit.WriteSet.Find.{find_entry, overwritten}
use cs453_concurrent_algorit.Tl2.Loops.{word_or}
use cs453_concurrent_algorit.Tm.{tm_read, tm_write}
use cs453_concurrent_algorit.Tm.Read.{tm_read-own}
use cs453_concurrent_algorit.Tm.Write.{tm_write-overwrite, tm_write-added}
use cs453_concurrent_algorit.Grading.Program.{returned, and_then}
use cs453_concurrent_algorit.Grading.Atomic.{Atomic}
use cs453_concurrent_algorit.Grading.Transaction.{
  TransactionalMemory, Session, tx_read, tx_write, memory_read, memory_write, outcome, call,
  go_on_or_abort,
}
use cs453_concurrent_algorit.Alone.{tl2}
use cs453_concurrent_algorit.Alone.Read.{with_reads, after_read, tm_read-new}
use cs453_concurrent_algorit.Alone.Words.{
  seen, seen-append, seen-overwritten, addresses-overwritten, distinct-append, among-append,
  has-find_entry, length-overwritten,
}
use cs453_concurrent_algorit.Alone.Objects.{
  OnHeap, OnHeap-IsTransaction, OnHeap-mem, OnHeap-read, OnHeap-write, OnHeap-overwrite,
  next-AreSupplied, with_writes, after_write, supply-read, supply-write, mem-write,
}

-- A transaction while its closure runs, and the atomic state that it stands for, with what is left for
-- `n` more reads and writes: each may take two allocations. The addresses written are among `targets`.
pub record Runs {C : Type 0} (local : ℕ) (shared : Ptr) (r : Region) (targets : List ℕ) (fuel : ℕ)
    (tx : Ptr) (n : ℕ) (s : Session C) (t : Atomic C) : Type 0 where
  pub read_entries : List ReadChain.Entry
  pub write_entries : List Entry
  pub object : Transaction
  pub going : s.aborted ≡ false
  pub captured : s.captured ≡ t.captured
  pub words : (a : ℕ) → a ≢ local → seen s.machine.mem write_entries a ≡ t.words a
  pub read_write : object.is_ro ≡ false
  pub version : object.rv ≡ r.lock.clock
  pub on_heap : OnHeap shared tx r s.machine object read_entries write_entries
  pub room_reads : length read_entries + n < fuel
  pub room_writes : length write_entries + n < fuel
  pub distinct : AllDistinct (addresses write_entries)
  pub among : (a : ℕ) → has a (addresses write_entries) ≡ true → has a targets ≡ true
  pub plenty : 2 * n ≤ length s.machine.supply

-- Every word is valid: its lock is free, and has a version up to the clock.
abbrev pub AllValid : SharedLock → Type 0
AllValid lock = (a : ℕ) → versioned_spinlock_validate lock a lock.clock ≡ true

updated : (local : ℕ) (mem : ℕ → ℕ) (v : ℕ) → update mem local v local ≡ v
updated local mem v = ground arith

unchanged : (local : ℕ) (mem : ℕ → ℕ) (v a : ℕ) → a ≢ local → update mem local v a ≡ mem a
unchanged local mem v a ne = ground arith

-- The words after a write
choice :
    (b : Bool) (v v' w w' : ℕ) → v ≡ v' → w ≡ w' → (if b then v else w) ≡ (if b then v' else w')
choice true v v' w w' e f = e
choice false v v' w w' e f = f

module _ {C : Type 0} (words fuel : ℕ) (tm : TransactionalMemory) (local : ℕ) (r : Region)
    (targets : List ℕ) (tx n : ℕ) where
  abbrev Now : ℕ → Session C → Atomic C → Type 0
  Now = Runs local tm.shared r targets fuel tx

  -- What the methods make of a call of the library that returns true
  read_returns :
      (source : ℕ) (s : Session C) (m' : Machine)
      → tm_read (suc words) fuel tm.shared tx source 8 local s.machine ≡ ok true m'
      → tx_read (tl2 (suc words) fuel) tm local false tx source s
        ≡ returned (m'.mem local) (record s { machine = m' })
  unfolding tx_read memory_read
  read_returns source s m' e =
      ap
        (λ o.
          and_then
            (and_then (outcome (λ m. record s { machine = m }) o)
              (go_on_or_abort (tl2 (suc words) fuel) tm local false tx))
            (λ u s. call (word_at local) s))
        e

  write_returns :
      (value target : ℕ) (s : Session C) (m' : Machine)
      → tm_write
          (suc words)
          fuel
          tm.shared
          tx
          local
          8
          target
          (record s.machine { mem = update s.machine.mem local value })
        ≡ ok true m'
      → tx_write (tl2 (suc words) fuel) tm local false tx value target s
        ≡ returned tt (record s { machine = m' })
  unfolding tx_write memory_write
  write_returns value target s m' e =
      ap
        (λ o.
          and_then (outcome (λ m. record s { machine = m }) o)
            (go_on_or_abort (tl2 (suc words) fuel) tm local false tx))
        e

  -- A word is copied to the private variable, and the address may be new in the read set.
  Runs-read :
      (s : Session C) (t : Atomic C) (k : Now (suc n) s t) (m' : Machine) (u : Transaction)
      (rs : List ReadChain.Entry)
      → ((a : ℕ) → a ≢ local → m'.mem a ≡ s.machine.mem a)
      → OnHeap tm.shared tx r m' u rs k.write_entries
      → u.is_ro ≡ false
      → u.rv ≡ r.lock.clock
      → length rs ≤ suc (length k.read_entries)
      → 2 * n ≤ length m'.supply
      → Now n (record s { machine = m' }) t
  Runs-read s t k m' u rs same o read_write version more plenty = record {
    read_entries = rs;
    write_entries = k.write_entries;
    object = u;
    going = k.going;
    captured = k.captured;
    words =
        λ a far. ap (λ w. word_or w (find_entry a k.write_entries)) (same a far) ∙ k.words a far;
    read_write = read_write;
    version = version;
    on_heap = o;
    room_reads = omega (arith, k.room_reads);
    room_writes = omega (arith, k.room_writes);
    distinct = k.distinct;
    among = k.among;
    plenty = plenty;
  }

  -- A word is written, to the write set.
  Runs-write :
      (s : Session C) (t : Atomic C) (k : Now (suc n) s t) (value target : ℕ) (m' : Machine)
      (u : Transaction) (es : List Entry)
      → ((a : ℕ) → a ≢ local → seen m'.mem es a ≡ (if a == target then value else t.words a))
      → OnHeap tm.shared tx r m' u k.read_entries es
      → u.is_ro ≡ false
      → u.rv ≡ r.lock.clock
      → length es ≤ suc (length k.write_entries)
      → AllDistinct (addresses es)
      → ((a : ℕ) → has a (addresses es) ≡ true → has a targets ≡ true)
      → 2 * n ≤ length m'.supply
      → Now n (record s { machine = m' }) (record t { words = update t.words target value })
  Runs-write s t k value target m' u es words o read_write version more distinct among plenty =
      record {
        read_entries = k.read_entries;
        write_entries = es;
        object = u;
        going = k.going;
        captured = k.captured;
        words = words;
        read_write = read_write;
        version = version;
        on_heap = o;
        room_reads = omega (arith, k.room_reads);
        room_writes = omega (arith, k.room_writes);
        distinct = distinct;
        among = among;
        plenty = plenty;
      }

  module _ (real : tm.shared ≢ null) (one_word : r.align ≡ 8) (valid : AllValid r.lock) where
    pub tx_read-Runs :
        (source : ℕ) (s : Session C) (t : Atomic C)
        → source ≢ local
        → Now (suc n) s t
        → (s' : Session C) × (tx_read (tl2 (suc words) fuel) tm local false tx source s
            ≡ returned (t.words source) s')
          × Now n s' t
    tx_read-Runs source s t far k =
        let m : Machine = s.machine in
        let o = k.on_heap in
        let valid' : versioned_spinlock_validate r.lock source k.object.rv ≡ true =
          ap (versioned_spinlock_validate r.lock source) k.version ∙ valid source in
        elim (Option-cases (find_entry source k.write_entries)) [
          | inl absent ↦
              let (p, b, rest, two) = next-AreSupplied m o.unused (omega (arith, k.plenty)) in
              let left : length m.supply ≡ length (p ∷ b ∷ rest) = ap length two.supply in
              let supplied : IsSupplied m p (b ∷ rest) = record {
                supply = two.supply;
                fresh = two.fresh;
                real = two.real;
              } in
              let m' : Machine =
                after_read m tx k.object p (b ∷ rest) source local k.read_entries in
              let value : m'.mem local ≡ t.words source =
                updated local m.mem (m.mem source)
                ∙ sym (ap (word_or (m.mem source)) absent)
                ∙ k.words source far in
              (
                record s { machine = m' },
                read_returns source s m' (
                      tm_read-new words fuel m tm.shared tx r k.object k.read_entries
                        k.write_entries source 8 local real o.region_at o.real_tx o.at_tx o.reads
                        o.writes.first o.writes.chain (omega (arith, k.room_writes))
                        (omega (arith, one_word)) p (b ∷ rest) supplied k.read_write absent valid')
                    ∙ ap (λ v. returned v (record s { machine = m' })) value,
                Runs-read s t k m' (with_reads k.object _ p) _ (λ a far. ground arith)
                    (OnHeap-read tm.shared tx r m k.object k.read_entries k.write_entries o p
                      (b ∷ rest) source local two.supply)
                    k.read_write k.version
                    (omega (arith, length-append k.read_entries (ReadAdd.entry p source ∷ [])))
                    (subst (λ l. 2 * n ≤ length l)
                      (sym (supply-read m p (b ∷ rest) source k.read_entries))
                      (omega (arith, left))),
              )
          | inr (e, found) ↦
              let m' : Machine = record m { mem = update m.mem local e.value } in
              let value : m'.mem local ≡ t.words source =
                updated local m.mem e.value
                ∙ sym (ap (word_or (m.mem source)) found)
                ∙ k.words source far in
              (
                record s { machine = m' },
                read_returns source s m' (
                      tm_read-own words fuel m tm.shared tx r k.object k.read_entries
                        k.write_entries source 8 local real o.region_at
                        (OnHeap-IsTransaction tm.shared tx r m k.object k.read_entries
                          k.write_entries o)
                        (omega (arith, k.room_reads)) (omega (arith, k.room_writes))
                        (omega (arith, one_word)) e k.read_write found
                      ∙ if_true _ _ valid')
                    ∙ ap (λ v. returned v (record s { machine = m' })) value,
                Runs-read s t k m' k.object k.read_entries (λ a far. ground arith)
                    (OnHeap-mem tm.shared tx r m k.object k.read_entries k.write_entries o m'.mem)
                    k.read_write k.version (omega arith) (omega (arith, k.plenty)),
              )
        ]

    pub tx_write-Runs :
        (value target : ℕ) (s : Session C) (t : Atomic C)
        → target ≢ local
        → has target targets ≡ true
        → Now (suc n) s t
        → (s' : Session C) × (tx_write (tl2 (suc words) fuel) tm local false tx value target s
            ≡ returned tt s')
          × Now n s' (record t { words = update t.words target value })
    tx_write-Runs value target s t far inside k =
        let m : Machine = record s.machine { mem = update s.machine.mem local value } in
        let o =
          OnHeap-mem tm.shared tx r s.machine k.object k.read_entries k.write_entries k.on_heap
            m.mem in
        let source : m.mem local ≡ value = updated local s.machine.mem value in
        let same : (a : ℕ) → a ≢ local → seen m.mem k.write_entries a ≡ t.words a = λ a ne.
          ap (λ w. word_or w (find_entry a k.write_entries))
            (unchanged local s.machine.mem value a ne)
          ∙ k.words a ne in
        elim (Option-cases (find_entry target k.write_entries)) [
          | inl absent ↦
              let (p, b, rest, two) = next-AreSupplied m o.unused (omega (arith, k.plenty)) in
              let left : length m.supply ≡ length (p ∷ b ∷ rest) = ap length two.supply in
              let m' : Machine = after_write m tx k.object p b rest local target k.write_entries in
              (
                record s { machine = m' },
                write_returns value target s m' (
                    tm_write-added words fuel m tm.shared tx r k.object k.write_entries local 8
                      target real o.region_at o.real_tx o.at_tx o.writes
                      (omega (arith, k.room_writes)) (omega (arith, one_word)) p b rest two absent),
                Runs-write s t k value target m' (with_writes k.object _ p)
                    (k.write_entries ++ entry p b target (m.mem local) ∷ [])
                    (λ a ne.
                      ap
                        (λ mem. seen mem (k.write_entries ++ entry p b target (m.mem local) ∷ []) a)
                        (mem-write m p b rest target (m.mem local) k.write_entries)
                      ∙ seen-append m.mem p b target (m.mem local) k.write_entries a absent
                      ∙ choice (a == target) (m.mem local) value (seen m.mem k.write_entries a)
                          (t.words a) source (same a ne))
                    (OnHeap-write tm.shared tx r m k.object k.read_entries k.write_entries o p b
                      rest local target two)
                    k.read_write k.version
                    (omega
                      (arith, length-append k.write_entries (entry p b target (m.mem local) ∷ [])))
                    (distinct-append p b target (m.mem local) k.write_entries k.distinct
                      (has-find_entry target k.write_entries absent))
                    (λ a.
                      among-append p b target (m.mem local) k.write_entries targets a inside
                        (k.among a))
                    (subst (λ l. 2 * n ≤ length l)
                      (sym (supply-write m p b rest target (m.mem local) k.write_entries))
                      (omega (arith, left, k.plenty))),
              )
          | inr (e, found) ↦
              let m' : Machine = with_cell m e.buffer (some (word (m.mem local))) in
              (
                record s { machine = m' },
                write_returns value target s m'
                    (tm_write-overwrite words fuel m tm.shared tx r k.object k.write_entries local 8
                      target real o.region_at o.real_tx o.at_tx o.writes
                      (omega (arith, k.room_writes)) (omega (arith, one_word)) e found).0,
                Runs-write s t k value target m' k.object
                    (overwritten target (m.mem local) k.write_entries)
                    (λ a ne.
                      seen-overwritten m.mem target (m.mem local) k.write_entries e a found
                      ∙ choice (a == target) (m.mem local) value (seen m.mem k.write_entries a)
                          (t.words a) source (same a ne))
                    (OnHeap-overwrite tm.shared tx r m k.object k.read_entries k.write_entries o
                      local target e found)
                    k.read_write k.version
                    (omega (arith, length-overwritten target (m.mem local) k.write_entries))
                    (subst AllDistinct
                      (sym (addresses-overwritten target (m.mem local) k.write_entries)) k.distinct)
                    (λ a h. k.among a (
                      subst (λ l. has a l ≡ true)
                        (addresses-overwritten target (m.mem local) k.write_entries) h))
                    (omega (arith, k.plenty)),
              )
        ]
