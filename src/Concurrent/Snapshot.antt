-- ===== src/Concurrent/Snapshot.antt =====
-- The snapshot that a transaction reads: words copied while their lock was free are those of the
-- memory as of the read version.
use cs453_concurrent_algorit.Base.{
  ℕ, ◌<◌, ◌≤◌, ◌≡◌, true, ◌⊎◌, inl, inr, some, [], All, All-map, update, update_ind, arith, subst,
  sym, ap, has,
}
use cs453_concurrent_algorit.SharedLock.{SharedLock, find_lock}
use cs453_concurrent_algorit.Concurrent.Thread.{Shared, clock, Seen, look, Pc, Move}
use cs453_concurrent_algorit.Concurrent.System.{System, Step, pick, start, Reach, initial, later}
use cs453_concurrent_algorit.Concurrent.Locks.{LocksInv, Reach-LocksInv, held, holds}
use cs453_concurrent_algorit.Concurrent.Versions.{VersionsInv, Reach-VersionsInv, wv_of, rv_of}
use cs453_concurrent_algorit.Concurrent.Reads.{
  seen_of, Move-word, Move-holder, Move-seen, Move-same_rv,
}

-- The threads that hold the lock of a word and have a write version will stamp it above `r`.
abbrev pub LaterOnly : (ℕ → Pc) → ℕ → ℕ → Type 0
LaterOnly pc r a = (j wv : ℕ) → holds (pc j) (find_lock a) ≡ true → wv_of (pc j) ≡ some wv → r < wv

-- The word is still as it was read, or was overwritten by a transaction with a write version above
-- `r`; and nobody is about to store it with a version up to `r`.
pub record IsFresh (m : Shared) (pc : ℕ → Pc) (r : ℕ) (e : Seen) : Type 0 where
  pub current : (m.mem e.address ≡ e.value) ⊎ (r < m.stamp e.address)
  pub writers : LaterOnly pc r e.address

module _ (pc : ℕ → Pc) (i : ℕ) {m m' : Shared} {p' : Pc} (mv : Move m (pc i) m' p') where
  pub Move-LaterOnly : (r a : ℕ) → r ≤ clock m → LaterOnly pc r a → LaterOnly (update pc i p') r a
  Move-LaterOnly r a small only j wv =
      update_ind (λ j p. holds p (find_lock a) ≡ true → wv_of p ≡ some wv → r < wv) pc i
        (λ h e. ground (arith, Move-holder (find_lock a) mv wv h e, only i wv)) (λ j ne. only j wv)
        j

  pub Move-IsFresh :
      (r : ℕ) → r ≤ clock m → (e : Seen) → IsFresh m pc r e → IsFresh m' (update pc i p') r e
  Move-IsFresh r small e fresh = record {
    current =
        ground (arith, Move-word e.address mv, fresh.current, fresh.writers i (m'.stamp e.address));
    writers = Move-LaterOnly r e.address small fresh.writers;
  }

-- Every clean read of every live transaction.
abbrev pub SnapshotInv : Shared → (ℕ → Pc) → Type 0
SnapshotInv m pc =
    (i : ℕ) → All (λ e. e.clean ≡ true → IsFresh m pc (rv_of (pc i)) e) (seen_of (pc i))

module _ {m : Shared} {pc : ℕ → Pc} (locks : LocksInv m pc) (versions : VersionsInv m pc)
    (inv : SnapshotInv m pc) (i : ℕ) {m' : Shared} {p' : Pc} (mv : Move m (pc i) m' p') where
  Kept : ℕ → Seen → Type 0
  Kept r e = e.clean ≡ true → IsFresh m' (update pc i p') r e

  keep : (j : ℕ) → All (Kept (rv_of (pc j))) (seen_of (pc j))
  unfolding Kept
  keep j =
      All-map
        (λ e fresh clean. Move-IsFresh pc i mv (rv_of (pc j)) (versions.begun j) e (fresh clean)) _
        (inv j)

  copied_now : (a : ℕ) → m ≡ m' → held p' ≡ [] → Kept (rv_of (pc i)) (look m a)
  unfolding Kept
  copied_now a same none_held clean = record {
    current = inl (sym (ap (λ (n : Shared). n.mem a) same));
    writers = λ j wv h e.
        absurd (ground (arith, ap (has (find_lock a)) none_held, locks.own j (find_lock a)));
  }

  self : All (Kept (rv_of p')) (seen_of p')
  self = elim (Move-same_rv mv) [
    | inl same ↦
        subst (λ r. All (Kept r) (seen_of p')) (sym same)
          (Move-seen (Kept (rv_of (pc i))) mv copied_now (keep i))
    | inr nothing ↦ subst (λ es. All (Kept (rv_of p')) es) (sym nothing) tt
  ]

  pub Move-SnapshotInv : SnapshotInv m' (update pc i p')
  unfolding Kept
  Move-SnapshotInv =
      update_ind
        (λ j p. All (λ e. e.clean ≡ true → IsFresh m' (update pc i p') (rv_of p) e) (seen_of p)) pc
        i self (λ j ne. keep j)

start-SnapshotInv :
    (raw : SharedLock) (mem : ℕ → ℕ) → SnapshotInv (start raw mem).shared (start raw mem).pc
start-SnapshotInv raw mem i = tt

Step-SnapshotInv :
    {s t : System}
    → LocksInv s.shared s.pc
    → VersionsInv s.shared s.pc
    → SnapshotInv s.shared s.pc
    → Step s t
    → SnapshotInv t.shared t.pc
Step-SnapshotInv locks versions inv (pick i mv) = Move-SnapshotInv locks versions inv i mv

pub Reach-SnapshotInv :
    {raw : SharedLock} {mem : ℕ → ℕ} {s : System} → Reach raw mem s → SnapshotInv s.shared s.pc
Reach-SnapshotInv {raw} {mem} initial = start-SnapshotInv raw mem
Reach-SnapshotInv (later r st) =
    Step-SnapshotInv (Reach-LocksInv r) (Reach-VersionsInv r) (Reach-SnapshotInv r) st
