-- ===== src/Reference/Transactions.antt =====
-- reference/tm.c under `transactional` of grading/transactional.hpp: the closure takes effect at one
-- instant.
use cs453_concurrent_algorit.Base.{
  ℕ, ◌≡◌, ◌≢◌, refl, sym, ap, ◌∙◌, subst, Bool, false, update, arith,
}
use cs453_concurrent_algorit.Heap.{Machine}
use cs453_concurrent_algorit.Reference.Lock.{RwLock}
use cs453_concurrent_algorit.Reference.{reference, tm_read, tm_write}
use cs453_concurrent_algorit.Grading.Program.{
  Exception, Program, done, throw, read, write, alloc, free, assign, stuck, Outcome, returned,
  thrown, out_of_fuel, and_then,
}
use cs453_concurrent_algorit.Grading.Atomic.{Atomic, eval}
use cs453_concurrent_algorit.Grading.Transaction.{
  TransactionalMemory, Session, memory_read, memory_write, tx_read, tx_write, run,
}

-- Memory agrees with the words of the shared region but for a private variable.
abbrev pub Agrees : ℕ → (ℕ → ℕ) → (ℕ → ℕ) → Type 0
Agrees local mem words = (a : ℕ) → a ≢ local → mem a ≡ words a

-- A closure that does not touch the private variable, and neither allocates nor frees.
abbrev pub Direct : {C A : Type 0} → ℕ → Program C A → Atomic C → Type 0
Direct local (done a) s = Unit
Direct local (throw e) s = Unit
Direct local (read source k) s = (source ≢ local) × Direct local (k (s.words source)) s
Direct local (write value target k) s =
    (target ≢ local) × Direct local k (record s { words = update s.words target value })
Direct local (alloc size k) s = ⊥
Direct local (free p k) s = ⊥
Direct local (assign c k) s = Direct local k (record s { captured = c })
Direct local stuck s = Unit

-- A session and the atomic state that it stands for; `m` is the machine when the closure starts.
pub record Stands {C : Type 0} (local : ℕ) (m : Machine) (s : Session C) (t : Atomic C)
    : Type 0 where
  pub going : s.aborted ≡ false
  pub captured : s.captured ≡ t.captured
  pub words : Agrees local s.machine.mem t.words
  pub cells : s.machine.cells ≡ m.cells

-- A closure under the library does what it does at one instant.
pub data Follows {C A : Type 0} (local : ℕ) (m : Machine)
    : Outcome (Session C) A → Outcome (Atomic C) A → Type 0 where
  both_return :
      {a : A} {s : Session C} {t : Atomic C}
      → Stands local m s t
      → Follows local m (returned a s) (returned a t)
  both_throw :
      {e : Exception} {s : Session C} {t : Atomic C}
      → Stands local m s t
      → Follows local m (thrown e s) (thrown e t)
  both_stuck : Follows local m out_of_fuel out_of_fuel

module _ (L : RwLock) (fuel : ℕ) (tm : TransactionalMemory) (local : ℕ) (is_ro : Bool)
    (tx : ℕ) where
  module _ {C : Type 0} where
    abbrev after_read : ℕ → Session C → Session C
    after_read source s = record s {
      machine = record s.machine { mem = update s.machine.mem local (s.machine.mem source) };
    }

    read_lem :
        (source : ℕ) (s : Session C)
        → tx_read (reference L fuel) tm local is_ro tx source s
          ≡ returned (update s.machine.mem local (s.machine.mem source) local) (after_read source s)
    unfolding tx_read memory_read tm_read
    read_lem source s = refl

    abbrev after_write : (value target : ℕ) → Session C → Session C
    after_write value target s =
        let mem : ℕ → ℕ = update s.machine.mem local value in
        record s { machine = record s.machine { mem = update mem target (mem local) } }

    write_lem :
        (value target : ℕ) (s : Session C)
        → tx_write (reference L fuel) tm local is_ro tx value target s
          ≡ returned tt (after_write value target s)
    unfolding tx_write memory_write tm_write
    write_lem value target s = refl

    Stands-read :
        (m : Machine) (source : ℕ) (s : Session C) (t : Atomic C)
        → Stands local m s t
        → Stands local m (after_read source s) t
    Stands-read m source s t at = record {
      going = at.going;
      captured = at.captured;
      words = λ a far. ground (arith, at.words a far);
      cells = at.cells;
    }

    Stands-write :
        (m : Machine) (value target : ℕ) (s : Session C) (t : Atomic C)
        → Stands local m s t
        → Stands local m
            (after_write value target s)
            (record t { words = update t.words target value })
    Stands-write m value target s t at = record {
      going = at.going;
      captured = at.captured;
      words = λ a far. ground (arith, at.words a far);
      cells = at.cells;
    }

    pub run-Follows :
        {A : Type 0} (m : Machine) (p : Program C A) (s : Session C) (t : Atomic C)
        → Direct local p t
        → Stands local m s t
        → Follows local m (run (reference L fuel) tm local is_ro tx p s) (eval p t)
    unfolding run eval
    run-Follows m (done a) s t direct at = both_return at
    run-Follows m (throw e) s t direct at = both_throw at
    run-Follows m (read source k) s t (far, direct) at =
        let v : update s.machine.mem local (s.machine.mem source) local ≡ t.words source =
          ground (arith, at.words source far) in
        let e : run (reference L fuel) tm local is_ro tx (read source k) s
            ≡ run (reference L fuel) tm local is_ro tx (k (t.words source)) (after_read source s) =
          ap (λ o. and_then o (λ v. run (reference L fuel) tm local is_ro tx (k v)))
            (read_lem source s)
          ∙ ap (λ v. run (reference L fuel) tm local is_ro tx (k v) (after_read source s)) v in
        subst (λ o. Follows local m o (eval (k (t.words source)) t)) (sym e)
          (run-Follows m (k (t.words source)) (after_read source s) t direct
            (Stands-read m source s t at))
    run-Follows m (write value target k) s t (far, direct) at =
        subst (λ o. Follows local m o (eval k (record t { words = update t.words target value })))
          (sym (
            ap (λ o. and_then o (λ u. run (reference L fuel) tm local is_ro tx k))
              (write_lem value target s)))
          (run-Follows m k (after_write value target s) _ direct
            (Stands-write m value target s t at))
    run-Follows m (alloc size k) s t direct at = elim direct [ ]
    run-Follows m (free p k) s t direct at = elim direct [ ]
    run-Follows m (assign c k) s t direct at =
        run-Follows m k (record s { captured = c }) (record t { captured = c }) direct
          (record { going = at.going; captured = refl; words = at.words; cells = at.cells })
    run-Follows m stuck s t direct at = both_stuck
