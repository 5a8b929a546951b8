-- ===== src/Grading/Program.antt =====
-- grading/transactional.hpp: what the closure of a transaction can do, and how it can end.
--
-- A closure is the tree of its calls of the methods of class Transaction. It captures variables of its
-- caller by reference: `captured` is their values, and an assignment to them outlives an abort.
use cs453_concurrent_algorit.Base.{ℕ, ◌≡◌, refl, Bool, true, false}
use cs453_concurrent_algorit.Heap.{Ptr}

-- `constexpr static auto assert_mode = false;`
abbrev pub assert_mode : Bool
assert_mode = false

-- The exceptions that grading/transactional.hpp declares and throws.
pub data Exception : Type 0 where
  path_resolve : Exception
  module_loading : Exception
  module_symbol : Exception
  transaction_align : Exception
  transaction_read_only : Exception
  transaction_create : Exception
  transaction_begin : Exception
  transaction_alloc : Exception
  transaction_retry : Exception
  transaction_not_last_segment : Exception
  shared_align : Exception
  shared_overflow : Exception
  shared_double_alloc : Exception
  shared_double_free : Exception

-- Every value that is read or written here is a word of 8 bytes.
pub data Program (C A : Type 0) : Type 0 where
  done : A → Program C A
  throw : Exception → Program C A
  read : (source : ℕ) → (ℕ → Program C A) → Program C A
  write : (value target : ℕ) → Program C A → Program C A
  alloc : (size : ℕ) → (Ptr → Program C A) → Program C A
  free : Ptr → Program C A → Program C A
  assign : (captured : C) → Program C A → Program C A
  stuck : Program C A  -- a loop has no fuel left

module _ {C A B : Type 0} where
  infixl 5 ◌>>=◌
  abbrev pub ◌>>=◌ : Program C A → (A → Program C B) → Program C B
  done a >>= f = f a
  throw e >>= f = throw e
  read source k >>= f = read source (λ v. k v >>= f)
  write value target k >>= f = write value target (k >>= f)
  alloc size k >>= f = alloc size (λ p. k p >>= f)
  free p k >>= f = free p (k >>= f)
  assign c k >>= f = assign c (k >>= f)
  stuck >>= f = stuck

infixl 5 ◌>>◌
abbrev pub ◌>>◌ : {C A B : Type 0} → Program C A → Program C B → Program C B
m >> k = m >>= λ _. k

abbrev pub throw_if : {C : Type 0} → Bool → Exception → Program C (Unit {0})
throw_if true e = throw e
throw_if false e = done tt

-- How a computation on a state `S` ends: `terminated` is a call of std::terminate, `fault` a memory
-- fault.
pub data Outcome (S A : Type 0) : Type 0 where
  returned : A → S → Outcome S A
  thrown : Exception → S → Outcome S A
  terminated : Outcome S A
  fault : Outcome S A
  out_of_fuel : Outcome S A

abbrev pub Act : Type 0 → Type 0 → Type 0
Act S A = S → Outcome S A

module _ {S A B : Type 0} where
  abbrev pub and_then : Outcome S A → (A → Act S B) → Outcome S B
  and_then (returned a s) k = k a s
  and_then (thrown e s) k = thrown e s
  and_then terminated k = terminated
  and_then fault k = fault
  and_then out_of_fuel k = out_of_fuel

-- A computation that goes on in two steps.
pub and_then_after :
    {S A B D : Type 0} (o : Outcome S A) (k : A → Act S B) (l : B → Act S D) (m : A → Act S D)
    → ((a : A) (s : S) → m a s ≡ and_then (k a s) l)
    → and_then o m ≡ and_then (and_then o k) l
and_then_after (returned a s) k l m h = h a s
and_then_after (thrown e s) k l m h = refl
and_then_after terminated k l m h = refl
and_then_after fault k l m h = refl
and_then_after out_of_fuel k l m h = refl
