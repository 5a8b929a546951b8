-- ===== src/Concurrent/Thread.antt =====
-- 335740/tm.c, one thread: its calls of tm_begin, tm_read, tm_write and tm_end, one access to
-- shared memory at a time. The local work between two accesses belongs to one of them.
--
-- The transaction's read and write set are lists here. A word is the number that its bytes spell.
-- The clock is an `int`: a run stops where the next increment would overflow it.
-- `stamp` and `seen` are no part of the program: they record who wrote a word and what was read.
use cs453_concurrent_algorit.Base.{
  ℕ, suc, ◌+◌, ◌^◌, ◌≤◌, ◌<◌, ◌≡◌, ◌≢◌, Bool, true, false, Option, none, some, List, [], ◌∷◌, ◌++◌,
  update, ◌==◌, if◌then◌else◌,
}
use cs453_concurrent_algorit.SharedLock.{
  SharedLock, find_lock, global_clock_get, global_clock_increment_and_get,
  versioned_spinlock_release, versioned_spinlock_update, lock_at, set_lock_at,
}

pub record Shared : Type 0 where
  pub lock : SharedLock
  pub mem : ℕ → ℕ
  pub stamp : ℕ → ℕ  -- the write version of the transaction that stored the word

abbrev pub clock : Shared → ℕ
clock m = m.lock.clock

-- Flag and version of the lock with an index.
abbrev pub flag : Shared → ℕ → Bool
flag m x = (m.lock.locks x).lock

abbrev pub version : Shared → ℕ → ℕ
version m x = (m.lock.locks x).version

pub record Write : Type 0 where
  pub address : ℕ
  pub value : ℕ

-- A word that was read from shared memory. `clean`: its lock was free at that moment.
pub record Seen : Type 0 where
  pub address : ℕ
  pub value : ℕ
  pub stamp : ℕ
  pub clean : Bool

-- `struct transaction`, and what it has read
pub record Tx : Type 0 where
  pub is_ro : Bool
  pub rv : ℕ
  pub reads : List ℕ
  pub writes : List Write
  pub seen : List Seen

abbrev pub begin_tx : Bool → ℕ → Tx
begin_tx ro rv = record { is_ro = ro; rv = rv; reads = []; writes = []; seen = [] }

abbrev pub writes_to : ℕ → List Write → Bool
writes_to a [] = false
writes_to a (w ∷ ws) = if w.address == a then true else writes_to a ws

-- The body of the loop of `tm_write`: overwrite the node of the address, or add one at the end.
abbrev pub put : ℕ → ℕ → List Write → List Write
put a v [] = record { address = a; value = v } ∷ []
put a v (w ∷ ws) = if w.address == a then record w { value = v } ∷ ws else w ∷ put a v ws

abbrev pub note : Option Seen → Tx → Tx
note none tx = tx
note (some e) tx = record tx { seen = e ∷ tx.seen }

abbrev pub look : Shared → ℕ → Seen
look m a = record {
  address = a;
  value = m.mem a;
  stamp = m.stamp a;
  clean = if flag m (find_lock a) then false else true;
}

-- Where a thread stands, with the locals that are live there.
pub data Pc : Type 0 where
  idle : Pc  -- no transaction
  running : Tx → Pc  -- between two calls
  copied : Tx → (a : ℕ) → Option Seen → Pc  -- tm_read: after the memcpy
  flagged : Tx → (a : ℕ) → Option Seen → Pc  -- the lock was seen free, before its version is read
  locking : Tx → (done todo : List Write) → Pc  -- lock_write_set
  undoing : Tx → (todo : List Write) → Pc  -- unlock_write_set
  checking : Tx → (wv : ℕ) → (todo : List ℕ) → Pc  -- validate_read_set
  checked : Tx → (wv : ℕ) → (todo : List ℕ) → Pc  -- the first lock was seen free
  storing : Tx → (wv : ℕ) → (todo : List Write) → Pc  -- store_write_set
  stored : Tx → (wv : ℕ) → (todo : List Write) → Pc  -- before the first version is updated
  updated : Tx → (wv : ℕ) → (todo : List Write) → Pc  -- before the first lock is released
  ended : Tx → Bool → Pc  -- committed or aborted

-- `atomic_exchange(&lock->lock, true)` on a free lock
abbrev pub take : Shared → ℕ → Shared
take m a = record m { lock = set_lock_at m.lock a (record (lock_at m.lock a) { lock = true }) }

abbrev pub release : Shared → ℕ → Shared
release m a = record m { lock = versioned_spinlock_release m.lock a }

abbrev pub tick : Shared → Shared
tick m = record m { lock = (global_clock_increment_and_get m.lock).1 }

abbrev pub store : Shared → Write → ℕ → Shared
store m w wv = record m {
  mem = update m.mem w.address w.value;
  stamp = update m.stamp w.address wv;
}

abbrev pub set_version : Shared → ℕ → ℕ → Shared
set_version m a wv = record m { lock = versioned_spinlock_update m.lock a wv }

-- One access of one thread.
pub data Move (m : Shared) : Pc → Shared → Pc → Type 0 where
  begin : (ro : Bool) → Move m idle m (running (begin_tx ro (global_clock_get m.lock)))
  -- tm_read
  copy_ro :
      {tx : Tx} (a : ℕ) → tx.is_ro ≡ true → Move m (running tx) m (copied tx a (some (look m a)))
  copy_rw :
      {tx : Tx} (a : ℕ)
      → tx.is_ro ≡ false
      → writes_to a tx.writes ≡ false
      → Move m
          (running tx)
          m
          (copied (record tx { reads = tx.reads ++ a ∷ [] }) a (some (look m a)))
  copy_own :
      {tx : Tx} (a : ℕ)
      → tx.is_ro ≡ false
      → writes_to a tx.writes ≡ true
      → Move m (running tx) m (copied tx a none)
  flag_busy :
      {tx : Tx} {a : ℕ} {o : Option Seen}
      → flag m (find_lock a) ≡ true
      → Move m (copied tx a o) m (ended tx false)
  flag_free :
      {tx : Tx} {a : ℕ} {o : Option Seen}
      → flag m (find_lock a) ≡ false
      → Move m (copied tx a o) m (flagged tx a o)
  version_new :
      {tx : Tx} {a : ℕ} {o : Option Seen}
      → tx.rv < version m (find_lock a)
      → Move m (flagged tx a o) m (ended tx false)
  version_old :
      {tx : Tx} {a : ℕ} {o : Option Seen}
      → version m (find_lock a) ≤ tx.rv
      → Move m (flagged tx a o) m (running (note o tx))
  -- tm_write
  write :
      {tx : Tx} (a v : ℕ)
      → Move m (running tx) m (running (record tx { writes = put a v tx.writes }))
  -- tm_end
  end_ro : {tx : Tx} → tx.is_ro ≡ true → Move m (running tx) m (ended tx true)
  end_rw : {tx : Tx} → tx.is_ro ≡ false → Move m (running tx) m (locking tx [] tx.writes)
  -- lock_write_set: the exchange fails and the thread goes on, fails for good, or succeeds
  spin :
      {tx : Tx} {done todo : List Write} {w : Write}
      → flag m (find_lock w.address) ≡ true
      → Move m (locking tx done (w ∷ todo)) m (locking tx done (w ∷ todo))
  give_up :
      {tx : Tx} {done todo : List Write} {w : Write}
      → flag m (find_lock w.address) ≡ true
      → Move m (locking tx done (w ∷ todo)) m (undoing tx done)
  acquire :
      {tx : Tx} {done todo : List Write} {w : Write}
      → flag m (find_lock w.address) ≡ false
      → Move m (locking tx done (w ∷ todo)) (take m w.address) (locking tx (done ++ w ∷ []) todo)
  -- unlock_write_set, after which the transaction has aborted
  undo :
      {tx : Tx} {todo : List Write} {w : Write}
      → Move m (undoing tx (w ∷ todo)) (release m w.address) (undoing tx todo)
  undone : {tx : Tx} → Move m (undoing tx []) m (ended tx false)
  -- the increment of the clock, with and without need of validation
  tick_next :
      {tx : Tx} {done : List Write}
      → suc (clock m) < 2 ^ 31
      → suc (clock m) ≡ tx.rv + 1
      → Move m (locking tx done []) (tick m) (storing tx (suc (clock m)) tx.writes)
  tick_check :
      {tx : Tx} {done : List Write}
      → suc (clock m) < 2 ^ 31
      → suc (clock m) ≢ tx.rv + 1
      → Move m (locking tx done []) (tick m) (checking tx (suc (clock m)) tx.reads)
  -- validate_read_set
  check_busy :
      {tx : Tx} {wv a : ℕ} {todo : List ℕ}
      → flag m (find_lock a) ≡ true
      → Move m (checking tx wv (a ∷ todo)) m (undoing tx tx.writes)
  check_free :
      {tx : Tx} {wv a : ℕ} {todo : List ℕ}
      → flag m (find_lock a) ≡ false
      → Move m (checking tx wv (a ∷ todo)) m (checked tx wv (a ∷ todo))
  check_new :
      {tx : Tx} {wv a : ℕ} {todo : List ℕ}
      → tx.rv < version m (find_lock a)
      → Move m (checked tx wv (a ∷ todo)) m (undoing tx tx.writes)
  check_old :
      {tx : Tx} {wv a : ℕ} {todo : List ℕ}
      → version m (find_lock a) ≤ tx.rv
      → Move m (checked tx wv (a ∷ todo)) m (checking tx wv todo)
  check_done : {tx : Tx} {wv : ℕ} → Move m (checking tx wv []) m (storing tx wv tx.writes)
  -- store_write_set
  store_word :
      {tx : Tx} {wv : ℕ} {todo : List Write} {w : Write}
      → Move m (storing tx wv (w ∷ todo)) (store m w wv) (stored tx wv (w ∷ todo))
  update_version :
      {tx : Tx} {wv : ℕ} {todo : List Write} {w : Write}
      → Move m (stored tx wv (w ∷ todo)) (set_version m w.address wv) (updated tx wv (w ∷ todo))
  unlock :
      {tx : Tx} {wv : ℕ} {todo : List Write} {w : Write}
      → Move m (updated tx wv (w ∷ todo)) (release m w.address) (storing tx wv todo)
  commit : {tx : Tx} {wv : ℕ} → Move m (storing tx wv []) m (ended tx true)
  -- the next transaction of the thread
  restart : {tx : Tx} {done : Bool} → Move m (ended tx done) m idle
