-- ===== src/Alone/Effect.antt =====
-- A transaction on 335740/tm.c under `transactional` of grading/transactional.hpp, when no other thread
-- runs.
use cs453_concurrent_algorit.Base.{
  ℕ, suc, ◌+◌, ◌*◌, ◌^◌, ◌<◌, ◌≤◌, ◌≡◌, ◌≢◌, refl, sym, ◌∙◌, ap, subst, true, false, some, none,
  List, [], ◌∷◌, has, AllDistinct, ◌==◌, if◌then◌else◌, arith, length, ne_of_has, if_false,
}
use cs453_concurrent_algorit.SharedLock.{SharedLock}
use cs453_concurrent_algorit.Heap.{Ptr, null, transaction, region, Region, Machine, ok}
use cs453_concurrent_algorit.Heap.Laws.{allocated, update_self, update_other}
use cs453_concurrent_algorit.Interface.{invalid_tx, Library}
use cs453_concurrent_algorit.ReadSet.Chain as ReadChain
use cs453_concurrent_algorit.WriteSet.Chain.{addresses}
use cs453_concurrent_algorit.WriteSet.Find.{find_entry}
use cs453_concurrent_algorit.Tl2.Locks.{indices}
use cs453_concurrent_algorit.Tl2.Loops.{stored, stored-find}
use cs453_concurrent_algorit.Tm.{tm_end}
use cs453_concurrent_algorit.Tm.Begin.{tm_begin_lem, empty_transaction}
use cs453_concurrent_algorit.Tm.Cleanup.{freed}
use cs453_concurrent_algorit.Tm.End.{commit, ended, with_lock, tm_end_lem}
use cs453_concurrent_algorit.Reference.Transactions.{Agrees}
use cs453_concurrent_algorit.Grading.Program.{
  transaction_begin, Program, Outcome, returned, thrown, Act, and_then,
}
use cs453_concurrent_algorit.Grading.Atomic.{Atomic, eval}
use cs453_concurrent_algorit.Grading.Transaction.{
  TransactionalMemory, Session, Caller, read_write, outcome, call, begin, end, leave, finish,
  outside, scope, attempt, catch_retry, transactional,
}
use cs453_concurrent_algorit.Alone.{tl2}
use cs453_concurrent_algorit.Alone.Kept.{Unused, All-unused, update-unused}
use cs453_concurrent_algorit.Alone.Words.{distinct-indices}
use cs453_concurrent_algorit.Alone.Objects.{OnHeap-IsTransaction}
use cs453_concurrent_algorit.Alone.Calls.{Runs}
use cs453_concurrent_algorit.Alone.Run.{Small, run-Runs}
use cs453_concurrent_algorit.Alone.Commit.{
  IsQuiet, IsQuiet-AllValid, committed, committed-IsQuiet, commit-quiet, region-freed, freed-unused,
}

-- The library between two transactions, with memory that shows `words`
pub record Ready (local : ℕ) (shared : Ptr) (r : Region) (m : Machine) (words : ℕ → ℕ)
    : Type 0 where
  pub region_at : m.cells shared ≡ some (region r)
  pub quiet : IsQuiet r.lock
  pub unused : Unused m.cells m.supply
  pub shows : Agrees local m.mem words

supply-one : (ps : List Ptr) → 1 ≤ length ps → (p : Ptr) × (rest : List Ptr) × (ps ≡ p ∷ rest)
supply-one [] few = absurd (omega arith)
supply-one (p ∷ rest) few = (p, rest, refl)

module _ (words fuel : ℕ) (tm : TransactionalMemory) (local : ℕ) (r : Region) (targets : List ℕ)
    (real : tm.shared ≢ null) (one_word : r.align ≡ 8) where
  -- A call of `transactional` that has returned `a`
  pub data TookEffect {C A : Type 0} (a : A) (t : Atomic C) : Outcome (Caller C) A → Type 0 where
    took_effect :
        (s : Caller C) (lock : SharedLock)
        → s.captured ≡ t.captured
        → Ready local tm.shared (record r { lock = lock }) s.machine t.words
        → TookEffect a t (returned a s)

  -- The transaction that tm_begin returns
  begin-Runs :
      {C : Type 0} (n : ℕ) (c : C) (m : Machine) (t : Atomic C) (p : Ptr) (rest : List Ptr)
      → Ready local tm.shared r m t.words
      → c ≡ t.captured
      → m.supply ≡ p ∷ rest
      → 2 * n ≤ length rest
      → n < fuel
      → Runs local tm.shared r targets fuel p n
          (record {
            aborted = false;
            captured = c;
            machine = allocated m p rest (transaction (empty_transaction false r.lock.clock));
          })
          t
  unfolding find_entry
  begin-Runs n c m t p rest ready same is_supply plenty room =
      let free : Unused m.cells (p ∷ rest) = subst (Unused m.cells) is_supply ready.unused in
      let fresh : m.cells p ≡ none = free.1.0.1 in
      let apart : tm.shared ≢ p = λ k. cc (ap m.cells k, fresh, ready.region_at) in
      record {
        read_entries = [];
        write_entries = [];
        object = empty_transaction false r.lock.clock;
        going = refl;
        captured = same;
        words = ready.shows;
        read_write = refl;
        version = refl;
        on_heap = record {
          region_at = update_other m.cells p tm.shared _ apart ∙ ready.region_at;
          real_tx = free.1.0.0;
          at_tx = update_self m.cells p _;
          reads = record { first = refl; final = refl; chain = tt };
          writes = record { first = refl; final = refl; chain = tt };
          unused = (
            free.0.1,
            All-unused m.cells _ rest
                (λ q inside none_there.
                  update_other m.cells p q _ (ne_of_has p q rest free.0.0 inside) ∙ none_there)
                free.1.1,
          );
        };
        room_reads = omega arith;
        room_writes = omega arith;
        distinct = tt;
        among = λ a h. cc;
        plenty = plenty;
      }

  -- tm_end commits.
  end-Ready :
      {C : Type 0} (tx : Ptr) (s : Session C) (t : Atomic C)
      → suc r.lock.clock < 2 ^ 31
      → IsQuiet r.lock
      → AllDistinct (indices targets)
      → Runs local tm.shared r targets fuel tx 0 s t
      → (m : Machine) × (lock : SharedLock) × (tm_end fuel tm.shared tx s.machine ≡ ok true m)
        × Ready local tm.shared (record r { lock = lock }) m t.words
  end-Ready tx s t small quiet apart k =
      let m : Machine = s.machine in
      let rs = k.read_entries in
      let es = k.write_entries in
      let lock : SharedLock = committed r.lock (addresses es) in
      let cells = freed tx rs es (with_lock m.cells tm.shared r lock) in
      let o = k.on_heap in
      let is_tx = OnHeap-IsTransaction tm.shared tx r m k.object rs es o in
      let ends : commit r.lock k.object.rv (ReadChain.addresses rs) es m.mem
          ≡ (true, lock, stored m.mem es) =
        ap (λ rv. commit r.lock rv (ReadChain.addresses rs) es m.mem) k.version
        ∙ commit-quiet r.lock (ReadChain.addresses rs) es m.mem quiet
            (distinct-indices targets (addresses es) apart k.among k.distinct) in
      (
        record m { cells = cells; mem = stored m.mem es },
        lock,
        tm_end_lem fuel m tm.shared tx r k.object rs es real o.region_at is_tx
              (omega (arith, k.room_reads)) (omega (arith, k.room_writes)) k.read_write
            ∙ ap (ended m tm.shared tx r rs es) ends,
        record {
          region_at = region-freed m.cells tm.shared tx r lock k.object rs es o.region_at is_tx;
          quiet = committed-IsQuiet r.lock (addresses es) small quiet;
          unused = (
            o.unused.0,
            All-unused m.cells cells m.supply
                (λ q inside none_there.
                  freed-unused (with_lock m.cells tm.shared r lock) tx rs es q (
                    update-unused m.cells tm.shared q (region r) (region (record r { lock = lock }))
                      o.region_at none_there))
                o.unused.1,
          );
          shows = λ a far. stored-find m.mem es a k.distinct ∙ k.words a far;
        },
      )

  abbrev library : Library
  library = tl2 (suc words) fuel

  -- The scope of the transaction `tx`: its closure returns, and its destructor commits.
  scope_lem :
      {C A : Type 0} (n : ℕ) (func : C → Program C A) (s : Caller C) (t t' : Atomic C) (a : A)
      (tx : Ptr)
      → suc r.lock.clock < 2 ^ 31
      → IsQuiet r.lock
      → AllDistinct (indices targets)
      → Small local targets n (func s.captured) t
      → Runs local tm.shared r targets fuel tx n
          (record { aborted = false; captured = s.captured; machine = s.machine })
          t
      → eval (func s.captured) t ≡ returned a t'
      → TookEffect a t' (scope library tm local false tx func s)
  unfolding scope end
  scope_lem n func s t t' a tx small quiet apart direct k e =
      let start : Session _ = record {
        aborted = false;
        captured = s.captured;
        machine = s.machine;
      } in
      let (v, ran, k') =
        run-Runs words fuel tm local r targets tx real one_word
          (IsQuiet-AllValid r.lock (omega arith) quiet) n (func s.captured) start t t' a direct k
          e in
      let (m, lock, ends, ready) = end-Ready tx v t' small quiet apart k' in
      let destroyed : finish library tm local tx (returned a v)
          ≡ returned a (record v { machine = m }) =
        ap
          (λ b.
            and_then (if b then returned true v else call (end library tm local tx) v)
              (leave library tm local a))
          k'.going
        ∙ ap (λ o. and_then (outcome (λ m. record v { machine = m }) o) (leave library tm local a))
            ends in
      subst (TookEffect a t')
        (sym (
          ap (λ o. outside library tm local (finish library tm local tx o)) ran
          ∙ ap (outside library tm local) destroyed))
        (took_effect (record { captured = v.captured; machine = m }) lock k'.captured ready)

  TookEffect-catch :
      {C A : Type 0} (a : A) (t : Atomic C) (o : Outcome (Caller C) A) (again : Act (Caller C) A)
      → TookEffect a t o
      → TookEffect a t (catch_retry library tm local o again)
  TookEffect-catch a t o again (took_effect s lock same ready) = took_effect s lock same ready

  -- Take a region whose words are 8 bytes, as the values of the closure are, and whose locks are all free and no newer than the
  -- clock, a clock that is not about to overflow, and addresses to allocate that are in no use. Take a
  -- closure that makes at most `n` reads and writes, neither allocates nor frees, does not touch the
  -- variable that values are copied through, writes only to `targets`, no two of which have the same
  -- lock, and returns when it is run at one instant on the words of shared memory. With two
  -- allocations for each of its reads and writes and one more, and with fuel above `n`, its read-write
  -- transaction alone on the library commits at the first attempt: the result, the words and the captured variables
  -- are those of that run, and again all locks are free and no newer than the clock.
  pub transactional-alone :
      {C A : Type 0} (tries n : ℕ) (func : C → Program C A) (s : Caller C) (t t' : Atomic C) (a : A)
      → Ready local tm.shared r s.machine t.words
      → suc r.lock.clock < 2 ^ 31
      → AllDistinct (indices targets)
      → has invalid_tx s.machine.supply ≡ false
      → 1 + 2 * n ≤ length s.machine.supply
      → n < fuel
      → s.captured ≡ t.captured
      → Small local targets n (func s.captured) t
      → eval (func s.captured) t ≡ returned a t'
      → TookEffect a t' (transactional library tm local (suc tries) read_write func s)
  unfolding transactional attempt begin
  transactional-alone tries n func s t t' a ready small apart valid plenty room same direct e =
      let m : Machine = s.machine in
      let (p, rest, is_supply) = supply-one m.supply (omega arith) in
      let left : length m.supply ≡ suc (length rest) = ap length is_supply in
      let free : Unused m.cells (p ∷ rest) = subst (Unused m.cells) is_supply ready.unused in
      let begun : Machine =
        allocated m p rest (transaction (empty_transaction false r.lock.clock)) in
      let real_tx : (p == invalid_tx) ≡ false =
        let valid' : has invalid_tx (p ∷ rest) ≡ false =
          subst (λ l. has invalid_tx l ≡ false) is_supply valid in
        ground arith in
      let begins =
        tm_begin_lem m tm.shared p rest r false real ready.region_at
          (record { supply = is_supply; fresh = free.1.0.1; real = free.1.0.0 }) in
      let inside : Caller _ = record { captured = s.captured; machine = begun } in
      let scoped : TookEffect a t' (scope library tm local false p func inside) =
        scope_lem n func inside t t' a p small ready.quiet apart direct
          (begin-Runs n s.captured m t p rest ready same is_supply (omega arith) room) e in
      let attempted : attempt library tm local read_write func s
          ≡ scope library tm local false p func inside =
        ap
          (λ o. and_then (outcome (λ m. record s { machine = m }) o) (λ tx s.
            if tx == invalid_tx
            then thrown transaction_begin s
            else scope library tm local false tx func s))
          begins.0
        ∙ if_false _ _ real_tx in
      TookEffect-catch a t' (attempt library tm local read_write func s)
        (λ s. transactional library tm local tries read_write func s)
        (subst (TookEffect a t') (sym attempted) scoped)
