-- ===== src/Alone/Run.antt =====
-- The closure of a transaction on 335740/tm.c does what it does at one instant, when no other thread runs.
use cs453_concurrent_algorit.Base.{
  ℕ, zero, suc, ◌≡◌, ◌≢◌, refl, ◌∙◌, ap, subst, true, false, List, has, update, arith,
}
use cs453_concurrent_algorit.Heap.{Ptr, null, Region}
use cs453_concurrent_algorit.Grading.Program.{
  Program, done, throw, read, write, alloc, free, assign, stuck, returned, and_then,
}
use cs453_concurrent_algorit.Grading.Atomic.{Atomic, eval}
use cs453_concurrent_algorit.Grading.Transaction.{TransactionalMemory, Session, run}
use cs453_concurrent_algorit.Alone.{tl2}
use cs453_concurrent_algorit.Alone.Calls.{Runs, AllValid, tx_read-Runs, tx_write-Runs}

-- A closure that makes at most `n` reads and writes, none of them of the private variable, that writes
-- only to `targets`, and neither allocates nor frees.
abbrev pub Small : {C A : Type 0} → ℕ → List ℕ → ℕ → Program C A → Atomic C → Type 0
Small local targets n (done a) s = Unit
Small local targets n (throw e) s = Unit
Small local targets zero (read source k) s = ⊥
Small local targets (suc n) (read source k) s =
    (source ≢ local) × Small local targets n (k (s.words source)) s
Small local targets zero (write value target k) s = ⊥
Small local targets (suc n) (write value target k) s =
    (target ≢ local)
    × (has target targets ≡ true)
    × Small local targets n k (record s { words = update s.words target value })
Small local targets n (alloc size k) s = ⊥
Small local targets n (free p k) s = ⊥
Small local targets n (assign c k) s = Small local targets n k (record s { captured = c })
Small local targets n stuck s = Unit

module _ {C : Type 0} (words fuel : ℕ) (tm : TransactionalMemory) (local : ℕ) (r : Region)
    (targets : List ℕ) (tx : Ptr) (real : tm.shared ≢ null) (one_word : r.align ≡ 8)
    (valid : AllValid r.lock) where
  abbrev Now : ℕ → Session C → Atomic C → Type 0
  Now = Runs local tm.shared r targets fuel tx

  Runs-zero : (n : ℕ) (s : Session C) (t : Atomic C) → Now n s t → Now 0 s t
  Runs-zero n s t k = record {
    read_entries = k.read_entries;
    write_entries = k.write_entries;
    object = k.object;
    going = k.going;
    captured = k.captured;
    words = k.words;
    read_write = k.read_write;
    version = k.version;
    on_heap = k.on_heap;
    room_reads = omega (arith, k.room_reads);
    room_writes = omega (arith, k.room_writes);
    distinct = k.distinct;
    among = k.among;
    plenty = omega arith;
  }

  Runs-assign :
      (n : ℕ) (c : C) (s : Session C) (t : Atomic C)
      → Now n s t
      → Now n (record s { captured = c }) (record t { captured = c })
  Runs-assign n c s t k = record {
    read_entries = k.read_entries;
    write_entries = k.write_entries;
    object = k.object;
    going = k.going;
    captured = refl;
    words = k.words;
    read_write = k.read_write;
    version = k.version;
    on_heap = k.on_heap;
    room_reads = k.room_reads;
    room_writes = k.room_writes;
    distinct = k.distinct;
    among = k.among;
    plenty = k.plenty;
  }

  pub run-Runs :
      {A : Type 0} (n : ℕ) (p : Program C A) (s : Session C) (t t' : Atomic C) (a : A)
      → Small local targets n p t
      → Now n s t
      → eval p t ≡ returned a t'
      → (s' : Session C) × (run (tl2 (suc words) fuel) tm local false tx p s ≡ returned a s')
        × Now 0 s' t'
  unfolding run eval
  run-Runs n (done b) s t t' a small k e =
      let same : b ≡ a = cc in
      let state : t ≡ t' = cc in
      (s, ap (λ a. returned a s) same, subst (Now 0 s) state (Runs-zero n s t k))
  run-Runs n (throw x) s t t' a small k e = cc
  run-Runs zero (read source f) s t t' a small k e = elim small [ ]
  run-Runs (suc n) (read source f) s t t' a small k e =
      let (s', call, k') =
        tx_read-Runs words fuel tm local r targets tx n real one_word valid source s t small.0 k in
      let (s'', rest, k'') = run-Runs n (f (t.words source)) s' t t' a small.1 k' e in
      (
        s'',
        ap (λ o. and_then o (λ v. run (tl2 (suc words) fuel) tm local false tx (f v))) call ∙ rest,
        k'',
      )
  run-Runs zero (write value target f) s t t' a small k e = elim small [ ]
  run-Runs (suc n) (write value target f) s t t' a small k e =
      let (s', call, k') =
        tx_write-Runs words fuel tm local r targets tx n real one_word valid value target s t
          small.0 small.1 k in
      let (s'', rest, k'') =
        run-Runs n f s' (record t { words = update t.words target value }) t' a small.2 k' e in
      (
        s'',
        ap (λ o. and_then o (λ u. run (tl2 (suc words) fuel) tm local false tx f)) call ∙ rest,
        k'',
      )
  run-Runs n (alloc size f) s t t' a small k e = elim small [ ]
  run-Runs n (free p f) s t t' a small k e = elim small [ ]
  run-Runs n (assign c f) s t t' a small k e =
      run-Runs n f (record s { captured = c }) (record t { captured = c }) t' a small
        (Runs-assign n c s t k) e
  run-Runs n stuck s t t' a small k e = cc
