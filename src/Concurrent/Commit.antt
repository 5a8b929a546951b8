-- ===== src/Concurrent/Commit.antt =====
-- Validation at commit: once tm_end of 335740/tm.c has validated the read set, or has found that
-- it need not, what the transaction read is the memory as of its write version.
mod Linked
pub use Linked.{LinkedInv, Reach-LinkedInv}
use cs453_concurrent_algorit.Base.{
  ℕ, suc, ◌+◌, ◌-◌, ◌<◌, ◌≤◌, ◌≡◌, refl, true, false, ◌⊎◌, inl, inr, Option, some, none, List, [],
  ◌∷◌, has, All, All-map, All-map₂, update, update_ind, ◌≢◌, arith, ◌==◌, subst, ℕ_discrete,
}
use cs453_concurrent_algorit.SharedLock.{SharedLock, find_lock}
use cs453_concurrent_algorit.Concurrent.Thread.{
  Shared, clock, flag, version, Seen, Tx, Pc, idle, running, copied, flagged, locking, undoing,
  checking, checked, storing, stored, updated, ended, Move,
}
use cs453_concurrent_algorit.Concurrent.System.{System, Step, pick, start, Reach, initial, later}
use cs453_concurrent_algorit.Concurrent.Locks.{LocksInv, Reach-LocksInv, holds}
use cs453_concurrent_algorit.Concurrent.Versions.{
  VersionsInv, Reach-VersionsInv, rv_of, wv_of, IsBacked, StoresAt-holds,
}
use cs453_concurrent_algorit.Concurrent.Reads.{seen_of}
use cs453_concurrent_algorit.Concurrent.Snapshot.{
  LaterOnly, IsFresh, Move-LaterOnly, Move-IsFresh, SnapshotInv, Reach-SnapshotInv,
}

-- Still as read, or overwritten at `wv` or later, and nobody is about to store it earlier.
abbrev pub IsCertified : Shared → (ℕ → Pc) → ℕ → Seen → Type 0
IsCertified m pc wv e = e.clean ≡ true → IsFresh m pc (wv - 1) e

abbrev pub IsOpen : Shared → (ℕ → Pc) → ℕ → List ℕ → Seen → Type 0
IsOpen m pc wv todo e = e.clean ≡ true → (has e.address todo ≡ true) ⊎ IsFresh m pc (wv - 1) e

abbrev pub HeadLater : (ℕ → Pc) → ℕ → List ℕ → Type 0
HeadLater pc wv [] = Unit
HeadLater pc wv (a ∷ todo) = LaterOnly pc (wv - 1) a

abbrev pub IsValidating : Shared → (ℕ → Pc) → Pc → Type 0
IsValidating m pc (checking tx wv todo) = All (IsOpen m pc wv todo) tx.seen
IsValidating m pc (checked tx wv todo) = All (IsOpen m pc wv todo) tx.seen × HeadLater pc wv todo
IsValidating m pc (storing tx wv todo) = All (IsCertified m pc wv) tx.seen
IsValidating m pc (stored tx wv todo) = All (IsCertified m pc wv) tx.seen
IsValidating m pc (updated tx wv todo) = All (IsCertified m pc wv) tx.seen
IsValidating m pc _ = Unit

module _ {m : Shared} {pc : ℕ → Pc} (locks : LocksInv m pc) (versions : VersionsInv m pc) where
  -- A word whose lock has a version up to `rv`, and that was read from the snapshot at `rv`, is
  -- still as read, or its writer is known to come later.
  certify :
      (rv wv : ℕ) (e : Seen)
      → IsFresh m pc rv e
      → version m (find_lock e.address) ≤ rv
      → LaterOnly pc (wv - 1) e.address
      → IsFresh m pc (wv - 1) e
  certify rv wv e fresh old only = record {
    current = elim fresh.current [
      | inl same ↦ inl same
      | inr newer ↦ elim (versions.stamps e.address) [
        | inl below ↦ absurd (omega arith)
        | inr (j, h) ↦
            let (holder, stamps) = StoresAt-holds (pc j) e.address (m.stamp e.address) h in
            inr (only j (m.stamp e.address) holder stamps)
      ]
    ];
    writers = only;
  }

  -- One more address of the read set is validated.
  close :
      (rv wv a : ℕ) (todo : List ℕ)
      → version m (find_lock a) ≤ rv
      → LaterOnly pc (wv - 1) a
      → (e : Seen) → (e.clean ≡ true → IsFresh m pc rv e)
      → IsOpen m pc wv (a ∷ todo) e
      → IsOpen m pc wv todo e
  close rv wv a todo old only e fresh pending clean = elim (pending clean) [
    | inr certified ↦ inr certified
    | inl named ↦ elim (ℕ_discrete a e.address) [
      | yes same ↦ inr (
          certify rv wv e (fresh clean) (subst (λ b. version m (find_lock b) ≤ rv) same old)
            (subst (LaterOnly pc (wv - 1)) same only))
      | no other ↦ inl (ground arith)
    ]
  ]

  pub Move-IsValidating :
      {m' : Shared} {p p' : Pc}
      → Move m p m' p'
      → LinkedInv p
      → All (λ e. e.clean ≡ true → IsFresh m pc (rv_of p) e) (seen_of p)
      → IsValidating m pc p
      → IsValidating m pc p'
  Move-IsValidating (Move.tick_next {tx} small next) linked fresh v =
      All-map
        (λ e old clean.
          let same : tx.rv ≡ suc (clock m) - 1 = omega arith in
          subst (λ r. IsFresh m pc r e) same (old clean))
        tx.seen fresh
  Move-IsValidating (Move.tick_check small next) linked fresh v =
      All-map (λ e named clean. inl named) _ (linked.linked linked.rw_only)
  Move-IsValidating (Move.check_free {a} free) linked fresh v =
      (v, λ j wv h e. absurd (ground (arith, locks.own j (find_lock a))))
  Move-IsValidating (Move.check_old {tx} {wv} {a} {todo} old) linked fresh v =
      All-map₂ (close tx.rv wv a todo old v.1) tx.seen fresh v.0
  Move-IsValidating (Move.check_done {tx} {wv}) linked fresh v =
      All-map (λ e pending clean. ground (arith, pending clean)) tx.seen v
  Move-IsValidating Move.store_word linked fresh v = v
  Move-IsValidating Move.update_version linked fresh v = v
  Move-IsValidating Move.unlock linked fresh v = v
  Move-IsValidating _ linked fresh v = tt

  module _ (i : ℕ) {m' : Shared} {p' : Pc} (mv : Move m (pc i) m' p') where
    keep-IsFresh :
        (wv : ℕ) (e : Seen)
        → wv ≤ suc (clock m)
        → IsFresh m pc (wv - 1) e
        → IsFresh m' (update pc i p') (wv - 1) e
    keep-IsFresh wv e small = Move-IsFresh pc i mv (wv - 1) (omega arith) e

    keep-IsOpen :
        (wv : ℕ) (todo : List ℕ)
        → wv ≤ suc (clock m)
        → (e : Seen) → IsOpen m pc wv todo e
        → IsOpen m' (update pc i p') wv todo e
    keep-IsOpen wv todo small e pending clean = elim (pending clean) [
      | inl named ↦ inl named
      | inr fresh ↦ inr (keep-IsFresh wv e small fresh)
    ]

    keep-HeadLater :
        (wv : ℕ) (todo : List ℕ)
        → wv ≤ suc (clock m)
        → HeadLater pc wv todo
        → HeadLater (update pc i p') wv todo
    keep-HeadLater wv [] small only = tt
    keep-HeadLater wv (a ∷ todo) small only = Move-LaterOnly pc i mv (wv - 1) a (omega arith) only

    pub keep-IsValidating :
        (p : Pc)
        → ((wv : ℕ) → wv_of p ≡ some wv → wv ≤ suc (clock m))
        → IsValidating m pc p
        → IsValidating m' (update pc i p') p
    keep-IsValidating (checking tx wv todo) small v =
        All-map (keep-IsOpen wv todo (small wv refl)) tx.seen v
    keep-IsValidating (checked tx wv todo) small v = (
      All-map (keep-IsOpen wv todo (small wv refl)) tx.seen v.0,
      keep-HeadLater wv todo (small wv refl) v.1,
    )
    keep-IsValidating (storing tx wv todo) small v =
        All-map (λ e fresh clean. keep-IsFresh wv e (small wv refl) (fresh clean)) tx.seen v
    keep-IsValidating (stored tx wv todo) small v =
        All-map (λ e fresh clean. keep-IsFresh wv e (small wv refl) (fresh clean)) tx.seen v
    keep-IsValidating (updated tx wv todo) small v =
        All-map (λ e fresh clean. keep-IsFresh wv e (small wv refl) (fresh clean)) tx.seen v
    keep-IsValidating _ small v = tt
