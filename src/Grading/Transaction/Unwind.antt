-- ===== src/Grading/Transaction/Unwind.antt =====
-- grading/transactional.hpp: a transaction whose closure throws is destroyed too, and so committed.
use cs453_concurrent_algorit.Base.{
  ℕ, suc, ◌≡◌, ◌≢◌, ap, sym, ◌∙◌, refl, Bool, true, false, ◌==◌, if◌then◌else◌, arith,
}
use cs453_concurrent_algorit.Heap.{Ptr, Machine, ok}
use cs453_concurrent_algorit.Interface.{invalid_tx, nomem_alloc, Library}
use cs453_concurrent_algorit.Grading.Program.{
  transaction_begin, transaction_alloc, Program, done, throw, read, write, alloc, free, assign,
  stuck, ◌>>=◌, Outcome, returned, thrown, terminated, fault, out_of_fuel, and_then, and_then_after,
}
use cs453_concurrent_algorit.Grading.Transaction.{
  TransactionalMemory, Session, Caller, Mode, is_read_only, outcome, call, begin, end, memory_alloc,
  allocated, tx_alloc, run, unwind, finish, outside, scope, attempt, catch_retry, transactional,
}
use cs453_concurrent_algorit.Grading.Transaction.Running.{Keeps, by_return, run-Keeps}

Keeps-returned :
    {C A : Type 0} (o : Outcome (Session C) A) (a : A) (s : Session C)
    → Keeps o
    → o ≡ returned a s
    → s.aborted ≡ false
Keeps-returned (returned b t) a s (by_return open_t) h =
    let e : t ≡ s = cc in ap (λ s. s.aborted) (sym e) ∙ open_t
Keeps-returned (thrown e t) a s k h = cc
Keeps-returned terminated a s k h = cc
Keeps-returned fault a s k h = cc
Keeps-returned out_of_fuel a s k h = cc

module _ (L : Library) (tm : TransactionalMemory) (local : ℕ) where
  module _ {C : Type 0} (is_ro : Bool) (tx : ℕ) where
    -- A sequence of closures runs in sequence.
    pub run->>= :
        {A B : Type 0} (p : Program C A) (f : A → Program C B) (s : Session C)
        → run L tm local is_ro tx (p >>= f) s
          ≡ and_then (run L tm local is_ro tx p s) (λ a. run L tm local is_ro tx (f a))
    unfolding run
    run->>= (done a) f s = refl
    run->>= (throw e) f s = refl
    run->>= (read source k) f s = and_then_after _ _ _ _ (λ v. run->>= (k v) f)
    run->>= (write value target k) f s = and_then_after _ _ _ _ (λ u. run->>= k f)
    run->>= (alloc size k) f s = and_then_after _ _ _ _ (λ p. run->>= (k p) f)
    run->>= (free target k) f s = and_then_after _ _ _ _ (λ u. run->>= k f)
    run->>= (assign c k) f s = run->>= k f (record s { captured = c })
    run->>= stuck f s = refl

  -- A closure that asks for memory after `before`, when there is none.
  module _ {C A B : Type 0} (mode : Mode) (before : C → Program C B) (size : ℕ)
      (k : B → Ptr → Program C A) where
    abbrev pub allocating : C → Program C A
    allocating c = before c >>= λ b. alloc size (k b)

    run-nomem :
        (tx : ℕ) (c : C) (s v : Session C) (b : B) (m : Machine)
        → run L tm local (is_read_only mode) tx (before c) s ≡ returned b v
        → L.tm_alloc tm.shared tx size v.machine ≡ ok nomem_alloc m
        → run L tm local (is_read_only mode) tx (allocating c) s
          ≡ thrown transaction_alloc (record v { machine = m })
    unfolding run tx_alloc memory_alloc
    run-nomem tx c s v b m ran nomem =
        run->>= (is_read_only mode) tx (before c) (λ b. alloc size (k b)) s
        ∙ ap (λ o. and_then o (λ b. run L tm local (is_read_only mode) tx (alloc size (k b)))) ran
        ∙ ap
            (λ r.
              and_then
                (and_then (outcome (λ m. record v { machine = m }) r)
                  (allocated L tm local (is_read_only mode) tx))
                (λ p. run L tm local (is_read_only mode) tx (k b p)))
            nomem

    -- The end of a transaction that there is no memory for.
    abbrev pub after_end : Bool → Caller C → Outcome (Caller C) A
    after_end true s = thrown transaction_alloc s
    after_end false s = terminated

    finish-thrown :
        (tx : ℕ) (v : Session C) (m : Machine) (ended : Bool)
        → v.aborted ≡ false
        → end L tm local tx v.machine ≡ ok ended m
        → outside L tm local (finish L tm local {A = A} tx (thrown transaction_alloc v))
          ≡ after_end ended (record { captured = v.captured; machine = m })
    finish-thrown tx v m ended open_v e =
        ap
          (λ b. outside L tm local (
            and_then (if b then returned true v else call (end L tm local tx) v)
              (unwind L tm local {A = A} transaction_alloc)))
          open_v
        ∙ ap
            (λ r. outside L tm local (
              and_then (outcome (λ m. record v { machine = m }) r)
                (unwind L tm local {A = A} transaction_alloc)))
            e
        ∙ after ended
      where
        after :
            (b : Bool)
            → outside L tm local
                (unwind L tm local {A = A} transaction_alloc b (record v { machine = m }))
              ≡ after_end b (record { captured = v.captured; machine = m })
        after true = refl
        after false = refl

    attempt-nomem :
        (s : Caller C) (tx : ℕ) (m m' m'' : Machine) (v : Session C) (b : B) (ended : Bool)
        → begin L tm local (is_read_only mode) s.machine ≡ ok tx m
        → tx ≢ invalid_tx
        → run L tm local
            (is_read_only mode)
            tx
            (before s.captured)
            (record { aborted = false; captured = s.captured; machine = m })
          ≡ returned b v
        → L.tm_alloc tm.shared tx size v.machine ≡ ok nomem_alloc m'
        → L.tm_end tm.shared tx m' ≡ ok ended m''
        → attempt L tm local mode allocating s
          ≡ after_end ended (record { captured = v.captured; machine = m'' })
    unfolding attempt scope end
    attempt-nomem s tx m m' m'' v b ended begun valid ran nomem e =
        let ro : Bool = is_read_only mode in
        let start : Session C = record { aborted = false; captured = s.captured; machine = m } in
        let fresh : (tx == invalid_tx) ≡ false = ground arith in
        ap
          (λ r. and_then (outcome (λ m. record s { machine = m }) r) (λ tx s.
            if tx == invalid_tx
            then thrown transaction_begin s
            else scope L tm local ro tx allocating s))
          begun
        ∙ ap
            (λ b.
              if b
              then thrown transaction_begin (record s { machine = m })
              else scope L tm local ro tx allocating (record s { machine = m }))
            fresh
        ∙ ap (λ o. outside L tm local (finish L tm local tx o))
            (run-nomem tx s.captured start v b m' ran nomem)
        ∙ finish-thrown tx (record v { machine = m' }) m'' ended
            (Keeps-returned _ b v (run-Keeps L tm local ro tx (before s.captured) start refl) ran) e

    -- A transaction that tm_begin has given, and whose tm_alloc answers nomem after some calls that
    -- succeeded, is ended by the destructor of Transaction, which calls tm_end: if tm_end returns true, what
    -- was written is committed and the caller sees a TransactionAlloc; if it returns false, the program
    -- ends by std::terminate, and does not retry.
    pub transactional-nomem :
        (fuel : ℕ) (s : Caller C) (tx : ℕ) (m m' m'' : Machine) (v : Session C) (b : B)
        (ended : Bool)
        → begin L tm local (is_read_only mode) s.machine ≡ ok tx m
        → tx ≢ invalid_tx
        → run L tm local
            (is_read_only mode)
            tx
            (before s.captured)
            (record { aborted = false; captured = s.captured; machine = m })
          ≡ returned b v
        → L.tm_alloc tm.shared tx size v.machine ≡ ok nomem_alloc m'
        → L.tm_end tm.shared tx m' ≡ ok ended m''
        → transactional L tm local (suc fuel) mode allocating s
          ≡ after_end ended (record { captured = v.captured; machine = m'' })
    unfolding transactional
    transactional-nomem fuel s tx m m' m'' v b ended begun valid ran nomem e =
        ap (λ o. catch_retry L tm local o (λ s. transactional L tm local fuel mode allocating s))
          (attempt-nomem s tx m m' m'' v b ended begun valid ran nomem e)
        ∙ not_caught ended
      where
        not_caught :
            (b : Bool)
            → catch_retry L tm local
                (after_end b (record { captured = v.captured; machine = m'' }))
                (λ s. transactional L tm local fuel mode allocating s)
              ≡ after_end b (record { captured = v.captured; machine = m'' })
        not_caught true = refl
        not_caught false = refl
