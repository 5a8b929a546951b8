-- ===== src/Concurrent/System.antt =====
-- Any number of threads over one region, interleaved in any order.
use cs453_concurrent_algorit.Base.{ℕ, update}
use cs453_concurrent_algorit.SharedLock.{SharedLock}
use cs453_concurrent_algorit.SharedLock
use cs453_concurrent_algorit.Concurrent.Thread.{Shared, Pc, Move}

pub record System : Type 0 where
  pub shared : Shared
  pub pc : ℕ → Pc

-- Thread `i` makes a move.
pub data Step (s : System) : System → Type 0 where
  pick :
      (i : ℕ) {m : Shared} {p : Pc}
      → Move s.shared (s.pc i) m p
      → Step s (record { shared = m; pc = update s.pc i p })

-- After tm_create: `raw` is what the memory of the lock held before, `mem` the words.
abbrev pub start : SharedLock → (ℕ → ℕ) → System
start raw mem = record {
  shared = record { lock = SharedLock.init raw; mem = mem; stamp = λ _. 0 };
  pc = λ _. Pc.idle;
}

-- The states that the threads can reach from a fresh region.
pub data Reach (raw : SharedLock) (mem : ℕ → ℕ) : System → Type 0 where
  initial : Reach raw mem (start raw mem)
  later : {s t : System} → Reach raw mem s → Step s t → Reach raw mem t
