-- ===== src/Grading/Transaction/Retry.antt =====
-- What `transactional` of grading/transactional.hpp guarantees, whatever the library does.
use cs453_concurrent_algorit.Base.{ℕ, zero, suc, ◌≡◌, ◌≢◌, ◌∙◌, refl}
use cs453_concurrent_algorit.Interface.{Library}
use cs453_concurrent_algorit.Grading.Program.{
  transaction_retry, Program, Outcome, returned, thrown, terminated, fault, out_of_fuel, Act,
}
use cs453_concurrent_algorit.Grading.Transaction.{
  TransactionalMemory, Caller, Mode, attempt, catch_retry, transactional,
}
use cs453_concurrent_algorit.Grading.Transaction.Attempt.{Committed, attempt-Committed}

module _ (L : Library) (tm : TransactionalMemory) (local : ℕ) where
  module _ {C A : Type 0} where
    -- The attempts that ended in a TransactionRetry, from one state to another.
    pub data Retried (mode : Mode) (func : C → Program C A) : Caller C → Caller C → Type 0 where
      no_more : {s : Caller C} → Retried mode func s s
      once_more :
          {s t u : Caller C}
          → attempt L tm local mode func s ≡ thrown transaction_retry t
          → Retried mode func t u
          → Retried mode func s u

    -- A result of `transactional`: some attempts to be retried, then one that commits.
    pub data Transacted (mode : Mode) (func : C → Program C A) (s : Caller C) (a : A) (t : Caller C)
        : Type 0 where
      transacted :
          (u : Caller C)
          → Retried mode func s u
          → Committed L tm local mode func u a t
          → Transacted mode func s a t

    catch_retry-Transacted :
        (mode : Mode) (func : C → Program C A) (s : Caller C) (a : A) (t : Caller C)
        → (o : Outcome (Caller C) A) (again : Act (Caller C) A) → attempt L tm local mode func s ≡ o
        → ((u : Caller C) → again u ≡ returned a t → Transacted mode func u a t)
        → catch_retry L tm local o again ≡ returned a t
        → Transacted mode func s a t
    catch_retry-Transacted mode func s a t (thrown transaction_retry u) again e more h =
        elim (more u h) [ transacted v before last ↦ transacted v (once_more e before) last ]
    catch_retry-Transacted mode func s a t (returned b u) again e more h =
        transacted s no_more (attempt-Committed L tm local mode func s a t (e ∙ h))
    catch_retry-Transacted mode func s a t o again e more h = cc

    -- If `transactional` returns, then every attempt but the last ended in a TransactionRetry, and in the
    -- last one tm_begin gave a transaction, in which the closure returned the result without an abort,
    -- and tm_end committed it: the caller's variables are what this closure left.
    pub transactional-commits :
        (fuel : ℕ) (mode : Mode) (func : C → Program C A) (s : Caller C) (a : A) (t : Caller C)
        → transactional L tm local fuel mode func s ≡ returned a t
        → Transacted mode func s a t
    unfolding transactional
    transactional-commits zero mode func s a t h = cc
    transactional-commits (suc fuel) mode func s a t h =
        catch_retry-Transacted mode func s a t _ _ refl
          (λ u. transactional-commits fuel mode func u a t) h

    catch_retry-no_retry :
        (o : Outcome (Caller C) A) (again : Act (Caller C) A)
        → ((u t : Caller C) → again u ≢ thrown transaction_retry t)
        → (t : Caller C) → catch_retry L tm local o again ≢ thrown transaction_retry t
    catch_retry-no_retry (thrown transaction_retry u) again never t h = never u t h
    catch_retry-no_retry (returned a s) again never t h = cc
    catch_retry-no_retry (thrown e s) again never t h = cc
    catch_retry-no_retry terminated again never t h = cc
    catch_retry-no_retry fault again never t h = cc
    catch_retry-no_retry out_of_fuel again never t h = cc

    -- A TransactionRetry never leaves `transactional`.
    pub transactional-no_retry :
        (fuel : ℕ) (mode : Mode) (func : C → Program C A) (s t : Caller C)
        → transactional L tm local fuel mode func s ≢ thrown transaction_retry t
    unfolding transactional
    transactional-no_retry zero mode func s t h = cc
    transactional-no_retry (suc fuel) mode func s t h =
        catch_retry-no_retry (attempt L tm local mode func s) _
          (λ u. transactional-no_retry fuel mode func u) t h
