-- ===== src/Grading/Shared.antt =====
-- The class templates Shared of grading/transactional.hpp: typed access to shared memory.
--
-- A Shared object is the address that it is bound to. Every type that it is used at has words of
-- `word_size` bytes, to which it is aligned.
use cs453_concurrent_algorit.Base.{ℕ, ◌+◌, ◌*◌, ◌%◌, not, ◌==◌, leb, ◌&&◌, if◌then◌else◌}
use cs453_concurrent_algorit.Heap.{Ptr, null}
use cs453_concurrent_algorit.Grading.Program.{
  assert_mode, shared_align, shared_overflow, shared_double_alloc, shared_double_free, Program,
  done, read, write, alloc, free, throw_if, ◌>>=◌, ◌>>◌,
}

-- `sizeof(Type)` and `alignof(Type)`
abbrev pub word_size : ℕ
word_size = 8

module _ {C : Type 0} where
  -- Shared<Type>: the constructor, with the alignment of the memory, then the methods
  unfoldable pub bind : (align address : ℕ) → Program C ℕ
  bind align address = do
    throw_if (assert_mode && not (address % align == 0)) shared_align
    throw_if (assert_mode && not (address % word_size == 0)) shared_align
    done address

  unfoldable pub get : ℕ → Program C ℕ
  get address = read address done

  unfoldable pub put : ℕ → ℕ → Program C (Unit {0})
  put address source = write source address (done tt)

  -- Shared<Type*>
  unfoldable pub bind_pointer : (align address : ℕ) → Program C ℕ
  bind_pointer align address = do
    throw_if (assert_mode && not (address % align == 0)) shared_align
    throw_if (assert_mode && not (address % word_size == 0)) shared_align
    done address

  unfoldable pub get_pointer : ℕ → Program C Ptr
  get_pointer address = read address done

  unfoldable pub put_pointer : ℕ → Ptr → Program C (Unit {0})
  put_pointer address source = write source address (done tt)

  -- The check of `alloc` and of `free` reads only in assert mode.
  unfoldable pub alloc_pointer : (address size : ℕ) → Program C Ptr
  alloc_pointer address size = do
    if assert_mode
        then (get_pointer address >>= λ p. throw_if (not (p == null)) shared_double_alloc)
        else done tt
    addr ← alloc (if size == 0 then word_size else size) done
    put_pointer address addr
    done addr

  unfoldable pub free_pointer : ℕ → Program C (Unit {0})
  free_pointer address = do
    if assert_mode
        then (get_pointer address >>= λ p. throw_if (p == null) shared_double_free)
        else done tt
    p ← get_pointer address
    free p (put_pointer address null)

  -- Shared<Type[]>
  unfoldable pub bind_array : (align address : ℕ) → Program C ℕ
  bind_array align address = do
    throw_if (assert_mode && not (address % align == 0)) shared_align
    throw_if (assert_mode && not (address % word_size == 0)) shared_align
    done address

  unfoldable pub get_element : (address index : ℕ) → Program C ℕ
  get_element address index = read (address + word_size * index) done

  -- `operator[]`
  unfoldable pub element : (align address index : ℕ) → Program C ℕ
  element align address index = bind align (address + word_size * index)

  -- Shared<Type[n]>
  unfoldable pub bind_fixed : (align address : ℕ) → Program C ℕ
  bind_fixed align address = do
    throw_if (assert_mode && not (address % align == 0)) shared_align
    throw_if (assert_mode && not (address % word_size == 0)) shared_align
    done address

  unfoldable pub get_fixed : (n address index : ℕ) → Program C ℕ
  get_fixed n address index = do
    throw_if (assert_mode && leb n index) shared_overflow
    read (address + word_size * index) done

  unfoldable pub element_fixed : (n align address index : ℕ) → Program C ℕ
  element_fixed n align address index = do
    throw_if (assert_mode && leb n index) shared_overflow
    bind align (address + word_size * index)

-- `after`, of the four templates in turn
unfoldable pub after : ℕ → ℕ
after address = address + word_size

unfoldable pub after_pointer : ℕ → ℕ
after_pointer address = address + word_size

unfoldable pub after_array : (address length : ℕ) → ℕ
after_array address length = address + word_size * length

unfoldable pub after_fixed : (n address : ℕ) → ℕ
after_fixed n address = address + word_size * n
