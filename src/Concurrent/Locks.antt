-- ===== src/Concurrent/Locks.antt =====
-- Who holds which lock: the locks that are taken are those that some thread between
-- lock_write_set and the releases of 335740/tm.c has taken, each by one thread.
mod Changes
use cs453_concurrent_algorit.Base.{
  ℕ, ◌<◌, ◌≡◌, refl, Bool, true, false, ◌⊎◌, inl, inr, List, [], ◌∷◌, ◌++◌, has, AllDistinct,
  update, ◌==◌, arith, if◌then◌else◌, ==_iff,
}
use cs453_concurrent_algorit.SharedLock.{SharedLock, num_locks}
use cs453_concurrent_algorit.SharedLock.Laws.{init-entry}
use cs453_concurrent_algorit.SharedLock
use cs453_concurrent_algorit.Concurrent.Thread.{Shared, flag, Pc, Move}
use cs453_concurrent_algorit.Concurrent.System.{System, Step, pick, start, Reach, initial, later}
use Changes.{LockChange, Move-lock, Move-distinct, Move-IsSplit}
pub use Changes.{indices, held, holds, IsSplit}

pub record LocksInv (m : Shared) (pc : ℕ → Pc) : Type 0 where
  pub own : (i x : ℕ) → holds (pc i) x ≡ true → flag m x ≡ true
  pub unique : (i j x : ℕ) → holds (pc i) x ≡ true → holds (pc j) x ≡ true → i ≡ j
  pub owned : (x : ℕ) → x < num_locks → flag m x ≡ true → (i : ℕ) × (holds (pc i) x ≡ true)
  pub distinct : (i : ℕ) → AllDistinct (held (pc i))
  pub split : (i : ℕ) → IsSplit (pc i)

start-LocksInv :
    (raw : SharedLock) (mem : ℕ → ℕ) → LocksInv (start raw mem).shared (start raw mem).pc
start-LocksInv raw mem = record {
  own = λ i x h. cc;
  unique = λ i j x h k. cc;
  owned = λ x small h. ground (arith, init-entry raw x small);
  distinct = λ i. tt;
  split = λ i. tt;
}

module _ {m : Shared} {pc : ℕ → Pc} (inv : LocksInv m pc) (i : ℕ) where
  open inv use {own, unique, owned, distinct, split}

  module _ {m' : Shared} {p' : Pc} (mv : Move m (pc i) m' p') where
    change : (x : ℕ) → LockChange m (pc i) m' p' x
    change x = Move-lock x mv (split i) (distinct i)

    Move-own : (j x : ℕ) → holds (update pc i p' j) x ≡ true → flag m' x ≡ true
    Move-own j x h = ground (arith, change x, own i x, own j x, unique i j x)

    Move-unique :
        (j k x : ℕ) → holds (update pc i p' j) x ≡ true → holds (update pc i p' k) x ≡ true → j ≡ k
    Move-unique j k x h g = ground (arith, change x, own j x, own k x, unique j k x)

    Move-owned :
        (x : ℕ) → x < num_locks → flag m' x ≡ true → (j : ℕ) × (holds (update pc i p' j) x ≡ true)
    Move-owned x small h = elim (change x) [
      | inl (same, holder) ↦ let (j, has_x) = owned x small (ground arith) in (j, ground arith)
      | inr (inl (free, taken, holder)) ↦ (i, ground arith)
      | inr (inr (holder, free, gone)) ↦ absurd (ground arith)
    ]

    pub Move-LocksInv : LocksInv m' (update pc i p')
    Move-LocksInv = record {
      own = Move-own;
      unique = Move-unique;
      owned = Move-owned;
      distinct = λ j. ground (arith, Move-distinct mv (split i) (distinct i) (own i), distinct j);
      split = λ j. ground (arith, Move-IsSplit mv (split i), split j);
    }

pub Step-LocksInv : {s t : System} → LocksInv s.shared s.pc → Step s t → LocksInv t.shared t.pc
Step-LocksInv inv (pick i mv) = Move-LocksInv inv i mv

pub Reach-LocksInv :
    {raw : SharedLock} {mem : ℕ → ℕ} {s : System} → Reach raw mem s → LocksInv s.shared s.pc
Reach-LocksInv {raw} {mem} initial = start-LocksInv raw mem
Reach-LocksInv (later r st) = Step-LocksInv (Reach-LocksInv r) st
