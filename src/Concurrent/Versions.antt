-- ===== src/Concurrent/Versions.antt =====
-- The versions of the locks and the version clock: no version is ahead of the clock, versions only
-- grow, and no two threads have the same write version.
mod Changes
pub use Changes.{wv_of, rv_of, unstamped, StoresAt, StoresAt-holds}
use cs453_concurrent_algorit.Base.{
  ℕ, suc, ◌<◌, ◌≤◌, ◌≡◌, refl, Bool, true, false, ◌⊎◌, inl, inr, some, has, update, update_ind,
  subst, ◌≢◌, ℕ_discrete, arith,
}
use cs453_concurrent_algorit.SharedLock.{SharedLock, num_locks, find_lock}
use cs453_concurrent_algorit.SharedLock
use cs453_concurrent_algorit.SharedLock.Laws.{init-entry, find_lock-lt}
use cs453_concurrent_algorit.Concurrent.Thread.{Shared, clock, version, Pc, Move}
use cs453_concurrent_algorit.Concurrent.System.{System, Step, pick, start, Reach, initial, later}
use cs453_concurrent_algorit.Concurrent.Locks.{LocksInv, Reach-LocksInv}
use Changes.{
  holds-lt, unstamped-holds, Move-clock, Move-version, Move-unstamped, Move-rv, Move-stamp,
  Move-StoresAt,
}

-- The version of the word's lock has reached `s`, or a thread is about to set it to `s`.
abbrev pub IsBacked : Shared → (ℕ → Pc) → ℕ → ℕ → Type 0
IsBacked m pc a s = (s ≤ version m (find_lock a)) ⊎ ((j : ℕ) × StoresAt (pc j) a s)

pub record VersionsInv (m : Shared) (pc : ℕ → Pc) : Type 0 where
  pub bounded : (x : ℕ) → x < num_locks → version m x ≤ clock m
  pub begun : (i : ℕ) → rv_of (pc i) ≤ clock m
  pub ticked : (i wv : ℕ) → wv_of (pc i) ≡ some wv → wv ≤ clock m
  pub different : (i j wv : ℕ) → wv_of (pc i) ≡ some wv → wv_of (pc j) ≡ some wv → i ≡ j
  pub ahead :
      (i x wv : ℕ) → has x (unstamped (pc i)) ≡ true → wv_of (pc i) ≡ some wv → version m x < wv
  pub stamps :
      (a : ℕ) → (m.stamp a ≤ version m (find_lock a)) ⊎ ((j : ℕ) × StoresAt (pc j) a (m.stamp a))

start-VersionsInv :
    (raw : SharedLock) (mem : ℕ → ℕ) → VersionsInv (start raw mem).shared (start raw mem).pc
unfolding SharedLock.init
start-VersionsInv raw mem = record {
  bounded = λ x small. ground (arith, init-entry raw x small);
  begun = λ i. omega arith;
  ticked = λ i wv e. cc;
  different = λ i j wv e f. cc;
  ahead = λ i x wv h e. cc;
  stamps = λ a. inl (omega arith);
}

module _ {m : Shared} {pc : ℕ → Pc} (locks : LocksInv m pc) (inv : VersionsInv m pc) (i : ℕ) where
  open locks use {unique, distinct}
  open inv use {bounded, begun, ticked, different, ahead, stamps}

  module _ {m' : Shared} {p' : Pc} (mv : Move m (pc i) m' p') where
    Move-clock-le : clock m ≤ clock m'
    Move-clock-le = ground (arith, Move-clock mv)

    -- No access takes a version of a lock back.
    pub Move-version-le : (x : ℕ) → version m x ≤ version m' x
    Move-version-le x = elim (Move-version x mv (distinct i)) [
      | inl same ↦ omega arith
      | inr (waits, wv, done) ↦ omega (arith, ahead i x (version m' x) waits wv)
    ]

    Move-bounded : (x : ℕ) → x < num_locks → version m' x ≤ clock m'
    Move-bounded x small = elim (Move-version x mv (distinct i)) [
      | inl same ↦ omega (arith, bounded x small, Move-clock-le)
      | inr (waits, wv, done) ↦ omega (arith, ticked i (version m' x) wv, Move-clock-le)
    ]

    Move-begun : (j : ℕ) → rv_of (update pc i p' j) ≤ clock m'
    Move-begun j = ground (arith, Move-rv mv, begun i, begun j, Move-clock-le)

    Move-ticked : (j wv : ℕ) → wv_of (update pc i p' j) ≡ some wv → wv ≤ clock m'
    Move-ticked j wv e = ground (arith, Move-clock mv, ticked i wv, ticked j wv)

    -- The write version of the thread after its move, seen from before.
    mine : (wv : ℕ) → wv_of p' ≡ some wv → (wv_of (pc i) ≡ some wv) ⊎ (wv ≡ suc (clock m))
    mine wv e = ground (arith, Move-clock mv)

    pub Move-wv-le : (wv : ℕ) → wv_of p' ≡ some wv → wv ≤ suc (clock m)
    Move-wv-le wv e = ground (arith, mine wv e, ticked i wv)

    mine_alone : (wv : ℕ) → wv_of p' ≡ some wv → (j : ℕ) → j ≢ i → wv_of (pc j) ≡ some wv → ⊥
    mine_alone wv e j ne f = elim (mine wv e) [
      | inl old ↦ ne (different j i wv f old)
      | inr new ↦ omega (arith, ticked j wv f)
    ]

    Move-different :
        (j k wv : ℕ)
        → wv_of (update pc i p' j) ≡ some wv
        → wv_of (update pc i p' k) ≡ some wv
        → j ≡ k
    Move-different j k wv =
        update_ind (λ j p. wv_of p ≡ some wv → wv_of (update pc i p' k) ≡ some wv → j ≡ k) pc i
          (λ e.
            update_ind (λ k p. wv_of p ≡ some wv → i ≡ k) pc i (λ f. refl)
              (λ k ne f. absurd (mine_alone wv e k ne f)) k)
          (λ j ne e.
            update_ind (λ k p. wv_of p ≡ some wv → j ≡ k) pc i
              (λ f. absurd (mine_alone wv f j ne e)) (λ k _ f. different j k wv e f) k)
          j

    Move-ahead_self :
        (x wv : ℕ) → has x (unstamped p') ≡ true → wv_of p' ≡ some wv → version m' x < wv
    Move-ahead_self x wv h e = ground (
      arith,
      Move-unstamped x mv wv h e,
      Move-version x mv (distinct i),
      ahead i x wv,
      bounded x (holds-lt x p' (unstamped-holds x p' h)),
    )

    Move-ahead_other :
        (x wv j : ℕ)
        → j ≢ i
        → has x (unstamped (pc j)) ≡ true
        → wv_of (pc j) ≡ some wv
        → version m' x < wv
    Move-ahead_other x wv j ne h e = elim (Move-version x mv (distinct i)) [
      | inl same ↦ omega (arith, ahead j x wv h e)
      | inr (waits, _, done) ↦
          absurd (ne (unique j i x (unstamped-holds x (pc j) h) (unstamped-holds x (pc i) waits)))
    ]

    Move-ahead :
        (j x wv : ℕ)
        → has x (unstamped (update pc i p' j)) ≡ true
        → wv_of (update pc i p' j) ≡ some wv
        → version m' x < wv
    Move-ahead j x wv =
        update_ind (λ j p. has x (unstamped p) ≡ true → wv_of p ≡ some wv → version m' x < wv) pc i
          (Move-ahead_self x wv) (Move-ahead_other x wv) j

    -- Backing of a stamp is kept.
    pub Move-IsBacked : (a s : ℕ) → IsBacked m pc a s → IsBacked m' (update pc i p') a s
    Move-IsBacked a s (inl below) = inl (omega (arith, Move-version-le (find_lock a)))
    Move-IsBacked a s (inr (j, h)) = elim (ℕ_discrete j i) [
      | yes same ↦
          inl (omega (arith, Move-StoresAt a s mv (subst (λ k. StoresAt (pc k) a s) same h)))
      | no ne ↦ inr (j, ground arith)
    ]

    Move-stamps : (a : ℕ) → IsBacked m' (update pc i p') a (m'.stamp a)
    Move-stamps a = elim (Move-stamp a mv) [
      | inl kept ↦ rw kept (Move-IsBacked a (m.stamp a) (stamps a))
      | inr here ↦ inr (i, ground arith)
    ]

    pub Move-VersionsInv : VersionsInv m' (update pc i p')
    Move-VersionsInv = record {
      bounded = Move-bounded;
      begun = Move-begun;
      ticked = Move-ticked;
      different = Move-different;
      ahead = Move-ahead;
      stamps = Move-stamps;
    }

pub Step-VersionsInv :
    {s t : System}
    → LocksInv s.shared s.pc
    → VersionsInv s.shared s.pc
    → Step s t
    → VersionsInv t.shared t.pc
Step-VersionsInv locks inv (pick i mv) = Move-VersionsInv locks inv i mv

pub Reach-VersionsInv :
    {raw : SharedLock} {mem : ℕ → ℕ} {s : System} → Reach raw mem s → VersionsInv s.shared s.pc
Reach-VersionsInv {raw} {mem} initial = start-VersionsInv raw mem
Reach-VersionsInv (later r st) = Step-VersionsInv (Reach-LocksInv r) (Reach-VersionsInv r) st
