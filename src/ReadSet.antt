-- ===== src/ReadSet.antt =====
-- 335740/read-set.c: a singly linked list of the addresses that a transaction has read, with
-- pointers to its first and last node.
--
-- A function that changes the pointers `*first_node` and `*last_node` of its caller returns them.
-- The loop of read_set_cleanup takes fuel, one more than the nodes.
pub mod Chain
pub mod Add
pub mod Cleanup
mod Tests
use cs453_concurrent_algorit.Base.{ℕ, zero, suc, Bool, true, false, ◌==◌, if◌then◌else◌}
use cs453_concurrent_algorit.Heap.{
  Ptr, null, ReadNode, read_node, Cmd, out_of_fuel, pure, ◌>>=◌, ◌>>◌, set, load_read, malloc, free,
}

-- The address of the local variable `new_node`, as any address of a variable not NULL.
abbrev pub new_node_address : Ptr
new_node_address = 1

unfoldable pub init : Ptr × Ptr
init = (null, null)

-- `(*new_node)->address = …; (*new_node)->next = NULL;`
unfoldable pub fill : Ptr → ℕ → Cmd (Bool × Ptr)
fill p source_word = do
  n ← load_read p
  set p (read_node (record n { address = source_word }))
  n ← load_read p
  set p (read_node (record n { next = null }))
  pure (true, p)

-- The test is of `new_node`, the address of the caller's variable, and not of what malloc returned.
-- Returns success and `*new_node`.
unfoldable pub read_node_create : Ptr → ℕ → Cmd (Bool × Ptr)
read_node_create new_node source_word = do
  p ← malloc (λ junk. read_node (record { address = junk; next = junk }))
  if new_node == null then pure (false, p) else fill p source_word

-- Each returns success, `*first_node` and `*last_node`.
unfoldable pub read_set_add_first : (first last : Ptr) → ℕ → Cmd (Bool × Ptr × Ptr)
read_set_add_first first last source_word = do
  (done, new_node) ← read_node_create new_node_address source_word
  if done then pure (true, new_node, new_node) else pure (false, first, last)

-- `(*last_node)->next = new_node; *last_node = new_node;`
unfoldable pub append_node : (first last new_node : Ptr) → Cmd (Bool × Ptr × Ptr)
append_node first last new_node = do
  n ← load_read last
  set last (read_node (record n { next = new_node }))
  pure (true, first, new_node)

unfoldable pub read_set_add_next : (first last : Ptr) → ℕ → Cmd (Bool × Ptr × Ptr)
read_set_add_next first last source_word = do
  (done, new_node) ← read_node_create new_node_address source_word
  if done then append_node first last new_node else pure (false, first, last)

unfoldable pub read_set_add : (first last : Ptr) → ℕ → Cmd (Bool × Ptr × Ptr)
read_set_add first last source_word =
    if first == null
    then read_set_add_first first last source_word
    else read_set_add_next first last source_word

unfoldable pub read_set_cleanup : ℕ → Ptr → Cmd (Unit {0})
read_set_cleanup zero first = λ _. out_of_fuel
read_set_cleanup (suc fuel) first =
    if first == null
    then pure tt
    else do n ← load_read first; free first; read_set_cleanup fuel n.next
