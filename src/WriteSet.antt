-- ===== src/WriteSet.antt =====
-- 335740/write-set.c: a singly linked list of the addresses that a transaction has written, each
-- with a buffer that holds the word, and with pointers to the first and last node.
--
-- A function that changes the pointers `*first_node` and `*last_node` of its caller returns them.
-- `size` is region->align at every call, and a word is what so many bytes at an address spell: a buffer
-- of `size` bytes holds one word, and a memcpy of `size` bytes copies one. The loops take fuel, one more than the nodes.
pub mod Chain
pub mod Add
pub mod Find
pub mod Cleanup
mod Tests
use cs453_concurrent_algorit.Base.{ℕ, zero, suc, Bool, true, false, ◌==◌, if◌then◌else◌}
use cs453_concurrent_algorit.Heap.{
  Ptr, null, WriteNode, write_node, word, Cmd, out_of_fuel, pure, ◌>>=◌, ◌>>◌, set, load_write,
  load_word, word_at, malloc, free,
}

-- The address of the local variable `new_node`, as any address of a variable not NULL.
abbrev pub new_node_address : Ptr
new_node_address = 1

unfoldable pub init : Ptr × Ptr
init = (null, null)

-- `memcpy` of a word into a buffer
abbrev pub copy_word : Ptr → ℕ → Cmd (Unit {0})
copy_word buffer source_word = do load_word buffer; v ← word_at source_word; set buffer (word v)

-- The second half of write_node_create: the test of the buffer, the copy and `next`.
unfoldable pub fill : Ptr → Ptr → ℕ → Cmd (Bool × Ptr)
fill p value source_word = if value == null then pure (false, p) else do
  copy_word value source_word
  n ← load_write p
  set p (write_node (record n { next = null }))
  pure (true, p)

-- The first test is of `new_node`, the address of the caller's variable, and not of what malloc
-- returned. Returns success and `*new_node`.
unfoldable pub write_node_create : Ptr → (target_word source_word : ℕ) → Cmd (Bool × Ptr)
write_node_create new_node target_word source_word = do
  p ← malloc (λ junk. write_node (record { address = junk; value = junk; next = junk }))
  if new_node == null then pure (false, p) else do
    n ← load_write p
    set p (write_node (record n { address = target_word }))
    value ← malloc word
    n ← load_write p
    set p (write_node (record n { value = value }))
    fill p value source_word

-- Each returns success, `*first_node` and `*last_node`.
unfoldable pub write_set_add_first :
    (first last : Ptr) → (target_word source_word : ℕ) → Cmd (Bool × Ptr × Ptr)
write_set_add_first first last target_word source_word = do
  (done, new_node) ← write_node_create new_node_address target_word source_word
  if done then pure (true, new_node, new_node) else pure (false, first, last)

-- `(*last_node)->next = new_node; *last_node = new_node;`
unfoldable pub append_node : (first last new_node : Ptr) → Cmd (Bool × Ptr × Ptr)
append_node first last new_node = do
  n ← load_write last
  set last (write_node (record n { next = new_node }))
  pure (true, first, new_node)

unfoldable pub write_set_add_next :
    (first last : Ptr) → (target_word source_word : ℕ) → Cmd (Bool × Ptr × Ptr)
write_set_add_next first last target_word source_word = do
  (done, new_node) ← write_node_create new_node_address target_word source_word
  if done then append_node first last new_node else pure (false, first, last)

unfoldable pub write_set_add :
    (first last : Ptr) → (target_word source_word : ℕ) → Cmd (Bool × Ptr × Ptr)
write_set_add first last target_word source_word =
    if first == null
    then write_set_add_first first last target_word source_word
    else write_set_add_next first last target_word source_word

unfoldable pub write_node_overwrite : Ptr → ℕ → Cmd (Unit {0})
write_node_overwrite node source_word = do n ← load_write node; copy_word n.value source_word

unfoldable pub write_node_find : ℕ → Ptr → ℕ → Cmd Ptr
write_node_find zero first target_word = λ _. out_of_fuel
write_node_find (suc fuel) first target_word = if first == null then pure null else do
  n ← load_write first
  if n.address == target_word then pure first else write_node_find fuel n.next target_word

unfoldable pub write_set_cleanup : ℕ → Ptr → Cmd (Unit {0})
write_set_cleanup zero first = λ _. out_of_fuel
write_set_cleanup (suc fuel) first =
    if first == null
    then pure tt
    else do n ← load_write first; free n.value; free first; write_set_cleanup fuel n.next
