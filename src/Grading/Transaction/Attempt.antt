-- ===== src/Grading/Transaction/Attempt.antt =====
-- grading/transactional.hpp: an attempt of `transactional` that returns has committed.
use cs453_concurrent_algorit.Base.{
  ℕ, ◌≡◌, ◌≢◌, ap, sym, ◌∙◌, refl, Bool, true, false, ◌==◌, if◌then◌else◌, arith,
}
use cs453_concurrent_algorit.Heap.{Machine, Run, ok}
use cs453_concurrent_algorit.Heap
use cs453_concurrent_algorit.Interface.{invalid_tx, Library}
use cs453_concurrent_algorit.Grading.Program.{
  Exception, transaction_begin, Program, Outcome, returned, thrown, terminated, fault, out_of_fuel,
  Act, and_then,
}
use cs453_concurrent_algorit.Grading.Transaction.{
  TransactionalMemory, Session, Caller, Mode, is_read_only, outcome, call, begin, end, run, destroy,
  leave, unwind, finish, outside, scope, attempt,
}
use cs453_concurrent_algorit.Grading.Transaction.Running.{Keeps, by_return, run-Keeps}

if_else :
    {A : Type 0} (b : Bool) (x y z : A) → (if b then x else y) ≡ z → x ≢ z → (b ≡ false) × (y ≡ z)
if_else true x y z h differs = absurd (differs h)
if_else false x y z h differs = (refl, h)

-- The result of a computation that goes on.
data Continued {S A B : Type 0} (o : Outcome S A) (k : A → Act S B) (r : Outcome S B) : Type 0 where
  continued : (a : A) (s : S) → o ≡ returned a s → k a s ≡ r → Continued o k r

and_then-returned :
    {S A B : Type 0} (o : Outcome S A) (k : A → Act S B) (b : B) (t : S)
    → and_then o k ≡ returned b t
    → Continued o k (returned b t)
and_then-returned (returned a s) k b t h = continued a s refl h
and_then-returned (thrown e s) k b t h = cc
and_then-returned terminated k b t h = cc
and_then-returned fault k b t h = cc
and_then-returned out_of_fuel k b t h = cc

-- The run of the library behind an outcome.
data Called {S A : Type 0} (state : Machine → S) (r : Run A) (a : A) (s : S) : Type 0 where
  called : (m : Machine) → r ≡ ok a m → s ≡ state m → Called state r a s

outcome-returned :
    {S A : Type 0} (state : Machine → S) (r : Run A) (a : A) (s : S)
    → outcome state r ≡ returned a s
    → Called state r a s
outcome-returned state (ok b m) a s h =
    let e : b ≡ a = cc in let f : s ≡ state m = cc in called m (ap (λ b. ok b m) e) f
outcome-returned state Heap.fault a s h = cc
outcome-returned state Heap.out_of_fuel a s h = cc

module _ (L : Library) (tm : TransactionalMemory) (local : ℕ) where
  destroy-open :
      {C : Type 0} (tx : ℕ) (s : Session C)
      → s.aborted ≡ false
      → destroy L tm local tx s ≡ call (end L tm local tx) s
  destroy-open tx s h = ap (λ b. if b then returned true s else call (end L tm local tx) s) h

  module _ {C A : Type 0} where
    unwind-lem :
        (e : Exception) (o : Outcome (Session C) Bool) (a : A) (t : Session C)
        → and_then o (unwind L tm local {A = A} e) ≢ returned a t
    unwind-lem e (returned true s) a t h = cc
    unwind-lem e (returned false s) a t h = cc
    unwind-lem e (thrown e' s) a t h = cc
    unwind-lem e terminated a t h = cc
    unwind-lem e fault a t h = cc
    unwind-lem e out_of_fuel a t h = cc

    -- The end of a transaction whose closure has returned `a` in the state `s`.
    data Ended (tx : ℕ) (o : Outcome (Session C) A) (a : A) (t : Session C) : Type 0 where
      ended :
          (s : Session C)
          → o ≡ returned a s
          → s.aborted ≡ false
          → end L tm local tx s.machine ≡ ok true t.machine
          → t.captured ≡ s.captured
          → Ended tx o a t

    leave-ended :
        (tx : ℕ) (a b : A) (s t u : Session C) (ok_end : Bool)
        → s.aborted ≡ false
        → Called (λ m. record s { machine = m }) (end L tm local tx s.machine) ok_end u
        → leave L tm local a ok_end u ≡ returned b t
        → Ended tx (returned a s) b t
    leave-ended tx a b s t u true open_s (called m e f) h =
        let g : u ≡ t = cc in
        let i : a ≡ b = cc in
        let j : m ≡ t.machine = ap (λ s. s.machine) (sym f) ∙ ap (λ s. s.machine) g in
        ended s (ap (λ a. returned a s) i) open_s (e ∙ ap (λ m. ok true m) j)
          (ap (λ s. s.captured) (sym g) ∙ ap (λ s. s.captured) f)
    leave-ended tx a b s t u false open_s c h = cc

    finish-returned :
        (tx : ℕ) (o : Outcome (Session C) A) (a : A) (t : Session C)
        → Keeps o
        → finish L tm local tx o ≡ returned a t
        → Ended tx o a t
    finish-returned tx (returned b s) a t (by_return open_s) h =
        elim (and_then-returned (call (end L tm local tx) s) (leave L tm local b) a t
          (ap (λ o. and_then o (leave L tm local b)) (sym (destroy-open tx s open_s)) ∙ h)) [
            | continued ok_end u e f ↦
                leave-ended tx b a s t u ok_end open_s
                  (outcome-returned (λ m. record s { machine = m }) _ _ _ e) f
          ]
    finish-returned tx (thrown e s) a t k h = absurd (unwind-lem e (destroy L tm local tx s) a t h)
    finish-returned tx terminated a t k h = cc
    finish-returned tx fault a t k h = cc
    finish-returned tx out_of_fuel a t k h = cc

    -- What the scope of a transaction leaves of its session.
    outside-returned :
        (o : Outcome (Session C) A) (a : A) (t : Caller C)
        → outside L tm local o ≡ returned a t
        → (v : Session C) × (o ≡ returned a v) × (v.machine ≡ t.machine) × (t.captured ≡ v.captured)
    outside-returned (returned b v) a t h =
        let f : record { captured = v.captured; machine = v.machine } ≡ t = cc in
        let i : b ≡ a = cc in
        (v, ap (λ a. returned a v) i, ap (λ s. s.machine) f, sym (ap (λ s. s.captured) f))
    outside-returned (thrown e v) a t h = cc
    outside-returned terminated a t h = cc
    outside-returned fault a t h = cc
    outside-returned out_of_fuel a t h = cc

    -- A transaction that begins in `s`, whose closure returns `a`, and that tm_end commits.
    pub data Committed (mode : Mode) (func : C → Program C A) (s : Caller C) (a : A) (t : Caller C)
        : Type 0 where
      committed :
          (tx : ℕ) (m : Machine) (v : Session C)
          → begin L tm local (is_read_only mode) s.machine ≡ ok tx m
          → tx ≢ invalid_tx
          → run L tm local
              (is_read_only mode)
              tx
              (func s.captured)
              (record { aborted = false; captured = s.captured; machine = m })
            ≡ returned a v
          → v.aborted ≡ false
          → end L tm local tx v.machine ≡ ok true t.machine
          → t.captured ≡ v.captured
          → Committed mode func s a t

    scope-Committed :
        (mode : Mode) (tx : ℕ) (func : C → Program C A) (s s' : Caller C) (a : A) (t : Caller C)
        → begin L tm local (is_read_only mode) s.machine ≡ ok tx s'.machine
        → s'.captured ≡ s.captured
        → tx ≢ invalid_tx
        → scope L tm local (is_read_only mode) tx func s' ≡ returned a t
        → Committed mode func s a t
    unfolding scope
    scope-Committed mode tx func s s' a t started same valid h =
        let started_session : C → Session C =
          λ c. record { aborted = false; captured = c; machine = s'.machine } in
        let o : Outcome (Session C) A =
          run L tm local (is_read_only mode) tx (func s'.captured) (started_session s'.captured) in
        let (v, e, f, g) = outside-returned (finish L tm local tx o) a t h in
        elim (finish-returned tx o a v
          (run-Keeps L tm local (is_read_only mode) tx (func s'.captured)
            (started_session s'.captured) refl)
          e) [
            | ended w ran open_w ended_w kept ↦
                committed tx s'.machine w started valid
                  (ap (λ c. run L tm local (is_read_only mode) tx (func c) (started_session c))
                      (sym same)
                    ∙ ran)
                  open_w (ended_w ∙ ap (λ m. ok true m) f) (g ∙ kept)
          ]

    begun :
        (mode : Mode) (tx : ℕ) (func : C → Program C A) (s : Caller C) (a : A) (t : Caller C)
        → (if tx == invalid_tx
            then thrown transaction_begin s
            else scope L tm local (is_read_only mode) tx func s)
          ≡ returned a t
        → (tx ≢ invalid_tx) × (scope L tm local (is_read_only mode) tx func s ≡ returned a t)
    begun mode tx func s a t h =
        let (e, f) =
          if_else (tx == invalid_tx) (thrown transaction_begin s)
            (scope L tm local (is_read_only mode) tx func s) (returned a t) h cc in
        ((λ i. ground arith), f)

    pub attempt-Committed :
        (mode : Mode) (func : C → Program C A) (s : Caller C) (a : A) (t : Caller C)
        → attempt L tm local mode func s ≡ returned a t
        → Committed mode func s a t
    unfolding attempt
    attempt-Committed mode func s a t h =
        elim (and_then-returned
          (outcome (λ m. record s { machine = m }) (begin L tm local (is_read_only mode) s.machine))
          _ a t h) [
            | continued tx s' e f ↦
                elim (outcome-returned (λ m. record s { machine = m }) _ tx s' e) [
                  | called m started same ↦
                      let (valid, scoped) = begun mode tx func s' a t f in
                      scope-Committed mode tx func s s' a t
                        (started ∙ ap (λ m. ok tx m) (sym (ap (λ s. s.machine) same)))
                        (ap (λ s. s.captured) same) valid scoped
                ]
          ]
