-- ===== src/Transaction.antt =====
-- 335740/transaction.c: the object of a transaction on the heap.
use cs453_concurrent_algorit.Base.{ℕ, Bool}
use cs453_concurrent_algorit.Heap.{Ptr, Cmd, ◌>>=◌, ◌>>◌, transaction, load_transaction, set}
use cs453_concurrent_algorit.ReadSet
use cs453_concurrent_algorit.ReadSet.{read_set_cleanup}
use cs453_concurrent_algorit.WriteSet
use cs453_concurrent_algorit.WriteSet.{write_set_cleanup}

unfoldable pub transaction_init : Ptr → Bool → Cmd (Unit {0})
transaction_init p is_ro = do
  t ← load_transaction p
  let (first_read, last_read) = ReadSet.init
  let (first_write, last_write) = WriteSet.init
  set p (
      transaction (record t {
        is_ro = is_ro;
        first_read_node = first_read;
        last_read_node = last_read;
        first_write_node = first_write;
        last_write_node = last_write;
      }))

unfoldable pub transaction_cleanup : ℕ → Ptr → Cmd (Unit {0})
transaction_cleanup fuel p = do
  t ← load_transaction p
  read_set_cleanup fuel t.first_read_node
  write_set_cleanup fuel t.first_write_node
