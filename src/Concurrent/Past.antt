-- ===== src/Concurrent/Past.antt =====
-- No read from the future: a word that tm_read of 335740/tm.c has validated was written by a
-- transaction whose write version is at most the reader's read version.
use cs453_concurrent_algorit.Base.{
  ℕ, ◌≤◌, ◌≡◌, false, inl, inr, some, none, List, [], All, update, update_ind, arith,
}
use cs453_concurrent_algorit.SharedLock.{SharedLock, find_lock}
use cs453_concurrent_algorit.Concurrent.Thread.{
  Shared, flag, version, Seen, Pc, idle, running, copied, flagged, locking, undoing, checking,
  checked, storing, stored, updated, ended, Move,
}
use cs453_concurrent_algorit.Concurrent.System.{System, Step, pick, Reach, initial, later}
use cs453_concurrent_algorit.Concurrent.Locks.{LocksInv, Reach-LocksInv}
use cs453_concurrent_algorit.Concurrent.Versions.{
  VersionsInv, Reach-VersionsInv, rv_of, IsBacked, Move-IsBacked, Move-version-le, StoresAt-holds,
}

-- The words for which tm_read has returned true.
abbrev pub validated_of : Pc → List Seen
validated_of idle = []
validated_of (running tx) = tx.seen
validated_of (copied tx a o) = tx.seen
validated_of (flagged tx a o) = tx.seen
validated_of (locking tx done todo) = tx.seen
validated_of (undoing tx todo) = tx.seen
validated_of (checking tx wv todo) = tx.seen
validated_of (checked tx wv todo) = tx.seen
validated_of (storing tx wv todo) = tx.seen
validated_of (stored tx wv todo) = tx.seen
validated_of (updated tx wv todo) = tx.seen
validated_of (ended tx done) = tx.seen

abbrev pub IsPast : Pc → Type 0
IsPast p = All (λ e. e.stamp ≤ rv_of p) (validated_of p)

-- What is known of a word that is copied and not validated yet.
abbrev IsPending : Shared → (ℕ → Pc) → Pc → Type 0
IsPending m pc (copied tx a (some e)) = IsBacked m pc a e.stamp
IsPending m pc (flagged tx a (some e)) = e.stamp ≤ version m (find_lock a)
IsPending m pc _ = Unit

record PastInv (m : Shared) (pc : ℕ → Pc) : Type 0 where
  past : (i : ℕ) → IsPast (pc i)
  pending : (i : ℕ) → IsPending m pc (pc i)

-- A stamp that is backed while the lock is free is at most the version of the lock.
IsBacked-le :
    {m : Shared} {pc : ℕ → Pc}
    → LocksInv m pc
    → (a s : ℕ) → IsBacked m pc a s
    → flag m (find_lock a) ≡ false
    → s ≤ version m (find_lock a)
IsBacked-le locks a s (inl below) free = below
IsBacked-le {pc} locks a s (inr (j, h)) free =
    ground (arith, StoresAt-holds (pc j) a s h, locks.own j (find_lock a))

module _ {m : Shared} {pc : ℕ → Pc} (locks : LocksInv m pc) (versions : VersionsInv m pc) where
  Move-IsPast : {m' : Shared} {p p' : Pc} → Move m p m' p' → IsPending m pc p → IsPast p → IsPast p'
  Move-IsPast (Move.begin ro) w h = tt
  Move-IsPast (Move.version_old {o = none} old) w h = h
  Move-IsPast (Move.version_old {o = some e} old) w h = (omega arith, h)
  Move-IsPast Move.restart w h = tt
  Move-IsPast _ w h = h

  Move-IsPending : {m' : Shared} {p p' : Pc} → Move m p m' p' → IsPending m pc p → IsPending m pc p'
  Move-IsPending (Move.copy_ro a h) w = versions.stamps a
  Move-IsPending (Move.copy_rw a h k) w = versions.stamps a
  Move-IsPending (Move.flag_free {a} {o = none} free) w = tt
  Move-IsPending (Move.flag_free {a} {o = some e} free) w = IsBacked-le locks a e.stamp w free
  Move-IsPending _ w = tt

  module _ (i : ℕ) {m' : Shared} {p' : Pc} (mv : Move m (pc i) m' p') where
    IsPending-keep : (p : Pc) → IsPending m pc p → IsPending m' (update pc i p') p
    IsPending-keep (copied tx a (some e)) w = Move-IsBacked locks versions i mv a e.stamp w
    IsPending-keep (flagged tx a (some e)) w =
        omega (arith, Move-version-le locks versions i mv (find_lock a))
    IsPending-keep _ w = tt

    Move-PastInv : PastInv m pc → PastInv m' (update pc i p')
    Move-PastInv inv = record {
      past =
          update_ind (λ j p. IsPast p) pc i (Move-IsPast mv (inv.pending i) (inv.past i))
            (λ j ne. inv.past j);
      pending =
          update_ind (λ j p. IsPending m' (update pc i p') p) pc i
            (IsPending-keep p' (Move-IsPending mv (inv.pending i)))
            (λ j ne. IsPending-keep (pc j) (inv.pending j));
    }

Step-PastInv :
    {s t : System}
    → LocksInv s.shared s.pc
    → VersionsInv s.shared s.pc
    → PastInv s.shared s.pc
    → Step s t
    → PastInv t.shared t.pc
Step-PastInv locks versions inv (pick i mv) = Move-PastInv locks versions i mv inv

Reach-PastInv :
    {raw : SharedLock} {mem : ℕ → ℕ} {s : System} → Reach raw mem s → PastInv s.shared s.pc
Reach-PastInv initial = record { past = λ i. tt; pending = λ i. tt }
Reach-PastInv (later r st) =
    Step-PastInv (Reach-LocksInv r) (Reach-VersionsInv r) (Reach-PastInv r) st

pub Reach-IsPast :
    {raw : SharedLock} {mem : ℕ → ℕ} {s : System} → Reach raw mem s → (i : ℕ) → IsPast (s.pc i)
Reach-IsPast r = (Reach-PastInv r).past
