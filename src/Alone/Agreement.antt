-- ===== src/Alone/Agreement.antt =====
-- 335740/tm.c and reference/tm.c under `transactional` of grading/transactional.hpp, each when no other
-- thread runs.
use cs453_concurrent_algorit.Base.{
  ℕ, zero, suc, ◌+◌, ◌*◌, ◌^◌, ◌<◌, ◌≤◌, ◌≡◌, ◌≢◌, sym, ◌∙◌, Bool, false, List, has, AllDistinct,
  length, update, subst, ap,
}
use cs453_concurrent_algorit.Heap.{null, Region, ReferenceRegion}
use cs453_concurrent_algorit.Interface.{invalid_tx}
use cs453_concurrent_algorit.Tl2.Locks.{indices}
use cs453_concurrent_algorit.Reference.{reference}
use cs453_concurrent_algorit.Reference.Lock.{RwLock, RwLockLaws}
use cs453_concurrent_algorit.Reference.Transactions.{Direct}
use cs453_concurrent_algorit.Reference.Atomicity as Atomicity
use cs453_concurrent_algorit.Grading.Program.{
  Program, done, throw, read, write, alloc, free, assign, stuck, Outcome, returned,
}
use cs453_concurrent_algorit.Grading.Atomic.{Atomic, eval}
use cs453_concurrent_algorit.Grading.Transaction.{
  TransactionalMemory, Caller, read_write, transactional,
}
use cs453_concurrent_algorit.Alone.{tl2}
use cs453_concurrent_algorit.Alone.Run.{Small}
use cs453_concurrent_algorit.Alone.Effect.{Ready, TookEffect, took_effect, transactional-alone}

Small-Direct :
    {C A : Type 0} (local : ℕ) (targets : List ℕ) (n : ℕ) (p : Program C A) (t : Atomic C)
    → Small local targets n p t
    → Direct local p t
Small-Direct local targets n (done a) t h = tt
Small-Direct local targets n (throw e) t h = tt
Small-Direct local targets zero (read source k) t h = elim h [ ]
Small-Direct local targets (suc n) (read source k) t h =
    (h.0, Small-Direct local targets n (k (t.words source)) t h.1)
Small-Direct local targets zero (write value target k) t h = elim h [ ]
Small-Direct local targets (suc n) (write value target k) t h =
    (h.0, Small-Direct local targets n k (record t { words = update t.words target value }) h.2)
Small-Direct local targets n (alloc size k) t h = h
Small-Direct local targets n (free p k) t h = h
Small-Direct local targets n (assign c k) t h =
    Small-Direct local targets n k (record t { captured = c }) h
Small-Direct local targets n stuck t h = tt

-- Both calls return, with one result, the same captured variables, and the same words but for the
-- private variable.
pub data SameEffect {C A : Type 0} (local : ℕ)
    : Outcome (Caller C) A → Outcome (Caller C) A → Type 0 where
  same_effect :
      (a : A) (s s' : Caller C)
      → s.captured ≡ s'.captured
      → ((x : ℕ) → x ≢ local → s.machine.mem x ≡ s'.machine.mem x)
      → SameEffect local (returned a s) (returned a s')

module _ (words fuel : ℕ) (tm : TransactionalMemory) (local : ℕ) (r : Region) (targets : List ℕ)
    (real : tm.shared ≢ null) (one_word : r.align ≡ 8) (L : RwLock) (is_free : ℕ → Bool)
    (laws : RwLockLaws L is_free) (r' : ReferenceRegion) where
  effects_agree :
      {C A : Type 0} (a : A) (t : Atomic C) (o o' : Outcome (Caller C) A)
      → TookEffect words fuel tm local r targets real one_word a t o
      → Atomicity.TookEffect L fuel tm local is_free laws r' a t o'
      → SameEffect local o o'
  effects_agree a t o o' (took_effect s lock same ready)
        (Atomicity.took_effect s' lock' same' ready') =
      same_effect a s s' (same ∙ sym same') (λ x far. ready.shows x far ∙ sym (ready'.shows x far))

  -- Take a region of each library at the same address, that of 335740/tm.c with words of 8 bytes, both free of other transactions and with the
  -- same words, and callers with the same captured variables. Take a closure as `transactional-alone` does. Then its
  -- transaction alone on 335740/tm.c and its transaction alone on reference/tm.c both return at the first attempt,
  -- with the same result, and leave the same captured variables and the same words, but for the
  -- variable that values are copied through.
  pub transactional-SameEffect :
      {C A : Type 0} (tries n : ℕ) (func : C → Program C A) (s s' : Caller C) (t t' : Atomic C)
      (a : A)
      → Ready local tm.shared r s.machine t.words
      → Atomicity.Ready L fuel tm local is_free laws s'.machine r' t.words
      → suc r.lock.clock < 2 ^ 31
      → AllDistinct (indices targets)
      → has invalid_tx s.machine.supply ≡ false
      → 1 + 2 * n ≤ length s.machine.supply
      → n < fuel
      → s.captured ≡ t.captured
      → s'.captured ≡ t.captured
      → Small local targets n (func t.captured) t
      → eval (func t.captured) t ≡ returned a t'
      → SameEffect local
          (transactional (tl2 (suc words) fuel) tm local (suc tries) read_write func s)
          (transactional (reference L fuel) tm local (suc tries) read_write func s')
  transactional-SameEffect {C} tries n func s s' t t' a ready ready' small apart valid plenty room
        same same' direct e =
      let at : (c : C) → c ≡ t.captured → Small local targets n (func c) t =
        λ c h. subst (λ c. Small local targets n (func c) t) (sym h) direct in
      let ends : (c : C) → c ≡ t.captured → eval (func c) t ≡ returned a t' =
        λ c h. ap (λ c. eval (func c) t) h ∙ e in
      effects_agree a t' _ _
        (transactional-alone words fuel tm local r targets real one_word tries n func s t t' a ready
          small apart valid plenty room same (at s.captured same) (ends s.captured same))
        (Atomicity.transactional-atomic L fuel tm local is_free laws tries read_write func s' r' t
          t' a real ready' same'
          (Small-Direct local targets n (func s'.captured) t (at s'.captured same'))
          (ends s'.captured same'))
