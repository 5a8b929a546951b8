-- ===== src/Reference/Atomicity.antt =====
-- reference/tm.c with `transactional` of grading/transactional.hpp: a transaction under the lock takes
-- effect at one instant.
use cs453_concurrent_algorit.Base.{
  ℕ, suc, ◌≡◌, ◌≢◌, refl, sym, ap, ◌∙◌, subst, Bool, true, false, some, ◌==◌, if◌then◌else◌,
  if_false,
}
use cs453_concurrent_algorit.Heap.{null, Machine, reference_region, ReferenceRegion}
use cs453_concurrent_algorit.Heap.Laws.{update_self}
use cs453_concurrent_algorit.Interface.{invalid_tx}
use cs453_concurrent_algorit.Reference.Lock.{RwLock, RwLockLaws}
use cs453_concurrent_algorit.Reference.{reference}
use cs453_concurrent_algorit.Reference.Locking.{
  tx_for, with_lock, acquired, tm_begin_lem, tm_end_lem, freed,
}
use cs453_concurrent_algorit.Reference.Transactions.{
  Agrees, Direct, Stands, Follows, both_return, both_throw, both_stuck, run-Follows,
}
use cs453_concurrent_algorit.Grading.Program.{
  transaction_begin, Program, Outcome, returned, thrown, and_then,
}
use cs453_concurrent_algorit.Grading.Atomic.{Atomic, eval}
use cs453_concurrent_algorit.Grading.Transaction.{
  TransactionalMemory, Session, Caller, Mode, is_read_only, outcome, call, begin, end, run, leave,
  finish, outside, scope, attempt, catch_retry, transactional,
}

Follows-returned :
    {C A : Type 0} (local : ℕ) (m : Machine) (o : Outcome (Session C) A) (o' : Outcome (Atomic C) A)
    (a : A) (t : Atomic C)
    → Follows local m o o'
    → o' ≡ returned a t
    → (s : Session C) × (o ≡ returned a s) × Stands local m s t
Follows-returned local m (returned c s) o' a t (both_return {t = u} at) e =
    let same : u ≡ t = cc in
    let value : c ≡ a = cc in
    (s, ap (λ c. returned c s) value, subst (λ t. Stands local m s t) same at)
Follows-returned local m o o' a t (both_throw at) e = cc
Follows-returned local m o o' a t both_stuck e = cc

valid_tx : (is_ro : Bool) → (tx_for is_ro == invalid_tx) ≡ false
valid_tx true = refl
valid_tx false = refl

module _ (L : RwLock) (fuel : ℕ) (tm : TransactionalMemory) (local : ℕ) where
  -- The end of a transaction whose closure has returned.
  finish_lem :
      {C A : Type 0} (is_ro : Bool) (r : ReferenceRegion) (a : A) (s : Session C)
      → tm.shared ≢ null
      → s.machine.cells tm.shared ≡ some (reference_region r)
      → s.aborted ≡ false
      → outside
          (reference L fuel)
          tm
          local
          (finish (reference L fuel) tm local (tx_for is_ro) (returned a s))
        ≡ returned a (record {
          captured = s.captured;
          machine = with_lock s.machine tm.shared r (L.unlock r.lock);
        })
  unfolding end
  finish_lem is_ro r a s real at going =
      ap
        (λ b. outside (reference L fuel) tm local (
          and_then
            (if b then returned true s else call (end (reference L fuel) tm local (tx_for is_ro)) s)
            (leave (reference L fuel) tm local a)))
        going
      ∙ ap
          (λ o. outside (reference L fuel) tm local (
            and_then (outcome (λ m. record s { machine = m }) o)
              (leave (reference L fuel) tm local a)))
          (tm_end_lem L is_ro tm.shared r s.machine real at)

  module _ (is_free : ℕ → Bool) (laws : RwLockLaws L is_free) where
    -- The library on a region whose lock is free.
    pub record Ready (m : Machine) (r : ReferenceRegion) (words : ℕ → ℕ) : Type 0 where
      pub region_at : m.cells tm.shared ≡ some (reference_region r)
      pub lock_free : is_free r.lock ≡ true
      pub shows : Agrees local m.mem words

    -- A call of `transactional` that has returned `a`, with the lock free again.
    pub data TookEffect {C A : Type 0} (r : ReferenceRegion) (a : A) (t : Atomic C)
        : Outcome (Caller C) A → Type 0 where
      took_effect :
          (s : Caller C) (lock : ℕ)
          → s.captured ≡ t.captured
          → Ready s.machine (record r { lock = lock }) t.words
          → TookEffect r a t (returned a s)

    attempt_lem :
        {C A : Type 0} (mode : Mode) (func : C → Program C A) (s : Caller C) (r : ReferenceRegion)
        → tm.shared ≢ null
        → s.machine.cells tm.shared ≡ some (reference_region r)
        → is_free r.lock ≡ true
        → (let ro = is_read_only mode in
            attempt (reference L fuel) tm local mode func s
            ≡ outside (reference L fuel) tm local (
                finish (reference L fuel) tm local (tx_for ro) (
                  run (reference L fuel) tm local ro (tx_for ro) (func s.captured) (record {
                    aborted = false;
                    captured = s.captured;
                    machine = with_lock s.machine tm.shared r (acquired L ro r.lock);
                  }))))
    unfolding attempt scope begin
    attempt_lem mode func s r real at free =
        let ro : Bool = is_read_only mode in
        ap
          (λ o. and_then (outcome (λ m. record s { machine = m }) o) (λ tx s.
            if tx == invalid_tx
            then thrown transaction_begin s
            else scope (reference L fuel) tm local ro tx func s))
          (tm_begin_lem L is_free laws ro tm.shared r s.machine real at free)
        ∙ if_false _ _ (valid_tx ro)

    -- With the library of reference/ and a region whose lock is free, take a closure that neither
    -- allocates nor frees nor touches the variable that values are copied through, and that returns when
    -- it is run at one instant on the words of shared memory. Its transaction commits at the first
    -- attempt: the result, the words and the captured variables are those of that run, and the lock is
    -- free again.
    pub transactional-atomic :
        {C A : Type 0} (tries : ℕ) (mode : Mode) (func : C → Program C A) (s : Caller C)
        (r : ReferenceRegion) (t t' : Atomic C) (a : A)
        → tm.shared ≢ null
        → Ready s.machine r t.words
        → s.captured ≡ t.captured
        → Direct local (func s.captured) t
        → eval (func s.captured) t ≡ returned a t'
        → TookEffect r a t' (transactional (reference L fuel) tm local (suc tries) mode func s)
    unfolding transactional
    transactional-atomic tries mode func s r t t' a real ready same direct e =
        let ro : Bool = is_read_only mode in
        let m : Machine = with_lock s.machine tm.shared r (acquired L ro r.lock) in
        let start : Session _ = record { aborted = false; captured = s.captured; machine = m } in
        let (v, ran, at) =
          Follows-returned local m _ _ a t'
            (run-Follows L fuel tm local ro (tx_for ro) m (func s.captured) start t direct
              (record { going = refl; captured = same; words = ready.shows; cells = refl }))
            e in
        let held : ReferenceRegion = record r { lock = acquired L ro r.lock } in
        let held_at : v.machine.cells tm.shared ≡ some (reference_region held) =
          ap (λ cells. cells tm.shared) at.cells ∙ update_self s.machine.cells tm.shared _ in
        let lock : ℕ = L.unlock held.lock in
        let ended : Caller _ = record {
          captured = v.captured;
          machine = with_lock v.machine tm.shared held lock;
        } in
        let committed : attempt (reference L fuel) tm local mode func s ≡ returned a ended =
          attempt_lem mode func s r real ready.region_at ready.lock_free
          ∙ ap
              (λ o.
                outside (reference L fuel) tm local
                  (finish (reference L fuel) tm local (tx_for ro) o))
              ran
          ∙ finish_lem ro held a v real held_at at.going in
        subst
          (λ o. TookEffect r a t' (
            catch_retry (reference L fuel) tm local o
              (λ s. transactional (reference L fuel) tm local tries mode func s)))
          (sym committed)
          (took_effect ended lock at.captured (record {
            region_at = update_self v.machine.cells tm.shared _;
            lock_free = freed L is_free laws ro r.lock ready.lock_free;
            shows = at.words;
          }))
