-- ===== src/Grading/Atomic.antt =====
-- include/tm.hpp: what a closure does to shared memory when its transaction takes effect at one instant,
-- without other transactions in between and without an abort.
use cs453_concurrent_algorit.Base.{
  ℕ, ◌+◌, ◌≡◌, refl, List, [], ◌∷◌, update, leb, ltb, ◌&&◌, if◌then◌else◌,
}
use cs453_concurrent_algorit.Heap.{Ptr}
use cs453_concurrent_algorit.Grading.Program.{
  Program, done, throw, read, write, alloc, free, assign, stuck, ◌>>=◌, returned, thrown,
  out_of_fuel, Act, and_then, and_then_after, transaction_alloc,
}

-- The variables that the closure captures, the words of shared memory, and the addresses of the next
-- segments that tm_alloc returns.
pub record Atomic (C : Type 0) : Type 0 where
  pub captured : C
  pub words : ℕ → ℕ
  pub fresh : List Ptr

-- A new segment holds zeros.
abbrev pub taken : {C : Type 0} → List Ptr → (size : ℕ) → Act (Atomic C) Ptr
taken [] size s = thrown transaction_alloc s
taken (p ∷ rest) size s =
    returned p
      (record s { words = λ a. if leb p a && ltb a (p + size) then 0 else s.words a; fresh = rest })

module _ {C : Type 0} where
  unfoldable pub eval : {A : Type 0} → Program C A → Act (Atomic C) A
  eval (done a) s = returned a s
  eval (throw e) s = thrown e s
  eval (read source k) s = eval (k (s.words source)) s
  eval (write value target k) s = eval k (record s { words = update s.words target value })
  eval (alloc size k) s = and_then (taken s.fresh size s) (λ p. eval (k p))
  eval (free target k) s = eval k s
  eval (assign c k) s = eval k (record s { captured = c })
  eval stuck s = out_of_fuel

  pub eval->>= :
      {A B : Type 0} (p : Program C A) (f : A → Program C B) (s : Atomic C)
      → eval (p >>= f) s ≡ and_then (eval p s) (λ a. eval (f a))
  unfolding eval
  eval->>= (done a) f s = refl
  eval->>= (throw e) f s = refl
  eval->>= (read source k) f s = eval->>= (k (s.words source)) f s
  eval->>= (write value target k) f s =
      eval->>= k f (record s { words = update s.words target value })
  eval->>= (alloc size k) f s = and_then_after (taken s.fresh size s) _ _ _ (λ p. eval->>= (k p) f)
  eval->>= (free target k) f s = eval->>= k f s
  eval->>= (assign c k) f s = eval->>= k f (record s { captured = c })
  eval->>= stuck f s = refl
