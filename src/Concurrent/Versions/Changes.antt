-- ===== src/Concurrent/Versions/Changes.antt =====
-- What one access does to the clock, to the versions and to the stamps of words.
use cs453_concurrent_algorit.Base.{
  ℕ, suc, ◌<◌, ◌≤◌, ◌≡◌, refl, true, false, ◌⊎◌, inl, inr, Option, none, some, List, [], ◌∷◌, has,
  AllDistinct, ◌==◌, arith, Bool-cases,
}
use cs453_concurrent_algorit.Spinlock
use cs453_concurrent_algorit.SharedLock.{
  num_locks, find_lock, versioned_spinlock_release, versioned_spinlock_update,
  global_clock_increment_and_get, global_clock_get,
}
use cs453_concurrent_algorit.SharedLock.Laws.{find_lock-lt}
use cs453_concurrent_algorit.Concurrent.Thread.{
  Shared, clock, version, Write, Pc, idle, running, copied, flagged, locking, undoing, checking,
  checked, storing, stored, updated, ended, Move,
}
use cs453_concurrent_algorit.Concurrent.Locks.{indices, held, holds}

-- The write version of a thread that has one.
abbrev pub wv_of : Pc → Option ℕ
wv_of (checking tx wv todo) = some wv
wv_of (checked tx wv todo) = some wv
wv_of (storing tx wv todo) = some wv
wv_of (stored tx wv todo) = some wv
wv_of (updated tx wv todo) = some wv
wv_of _ = none

-- The read version of the thread's transaction.
abbrev pub rv_of : Pc → ℕ
rv_of idle = 0
rv_of (running tx) = tx.rv
rv_of (copied tx a o) = tx.rv
rv_of (flagged tx a o) = tx.rv
rv_of (locking tx done todo) = tx.rv
rv_of (undoing tx todo) = tx.rv
rv_of (checking tx wv todo) = tx.rv
rv_of (checked tx wv todo) = tx.rv
rv_of (storing tx wv todo) = tx.rv
rv_of (stored tx wv todo) = tx.rv
rv_of (updated tx wv todo) = tx.rv
rv_of (ended tx done) = tx.rv

-- The locks that a thread holds and whose version it has not yet updated.
abbrev pub unstamped : Pc → List ℕ
unstamped (updated tx wv []) = []
unstamped (updated tx wv (w ∷ todo)) = indices todo
unstamped p = held p

-- The word that a thread has stored under a lock whose version is still the old one.
abbrev pub StoresAt : Pc → ℕ → ℕ → Type 0
StoresAt (stored tx wv (w ∷ todo)) a s = (w.address ≡ a) × (wv ≡ s)
StoresAt _ a s = ⊥

has-indices-lt : (x : ℕ) (ws : List Write) → has x (indices ws) ≡ true → x < num_locks
has-indices-lt x [] h = cc
has-indices-lt x (w ∷ ws) h = ground (arith, find_lock-lt w.address, has-indices-lt x ws)

pub holds-lt : (x : ℕ) (p : Pc) → holds p x ≡ true → x < num_locks
holds-lt x (locking tx done todo) h = has-indices-lt x done h
holds-lt x (undoing tx todo) h = has-indices-lt x todo h
holds-lt x (checking tx wv todo) h = has-indices-lt x tx.writes h
holds-lt x (checked tx wv todo) h = has-indices-lt x tx.writes h
holds-lt x (storing tx wv todo) h = has-indices-lt x todo h
holds-lt x (stored tx wv todo) h = has-indices-lt x todo h
holds-lt x (updated tx wv todo) h = has-indices-lt x todo h
holds-lt x _ h = cc

pub unstamped-holds : (x : ℕ) (p : Pc) → has x (unstamped p) ≡ true → holds p x ≡ true
unstamped-holds x (updated tx wv []) h = cc
unstamped-holds x (updated tx wv (w ∷ todo)) h = ground arith
unstamped-holds x (locking tx done todo) h = h
unstamped-holds x (undoing tx todo) h = h
unstamped-holds x (checking tx wv todo) h = h
unstamped-holds x (checked tx wv todo) h = h
unstamped-holds x (storing tx wv todo) h = h
unstamped-holds x (stored tx wv todo) h = h
unstamped-holds x _ h = cc

-- The clock stands, and the write version is the old one or none; or the clock goes on, and the
-- write version is its new value.
abbrev pub ClockChange : Shared → Pc → Shared → Pc → Type 0
ClockChange m p m' p' =
    ((clock m' ≡ clock m) × ((wv_of p' ≡ none) ⊎ (wv_of p' ≡ wv_of p)))
    ⊎ ((clock m' ≡ suc (clock m)) × (wv_of p ≡ none) × (wv_of p' ≡ some (suc (clock m))))

pub Move-clock : {m m' : Shared} {p p' : Pc} → Move m p m' p' → ClockChange m p m' p'
unfolding global_clock_increment_and_get versioned_spinlock_release versioned_spinlock_update
Move-clock (Move.tick_next small next) = ground arith
Move-clock (Move.tick_check small next) = ground arith
Move-clock (Move.check_free free) = inl (refl, inr refl)
Move-clock (Move.check_old old) = inl (refl, inr refl)
Move-clock Move.check_done = inl (refl, inr refl)
Move-clock Move.store_word = inl (refl, inr refl)
Move-clock Move.update_version = inl (refl, inr refl)
Move-clock Move.unlock = inl (refl, inr refl)
Move-clock _ = inl (refl, inl refl)

-- A version changes only to the write version of a thread that holds the lock and has not
-- updated it yet.
abbrev pub VersionChange : Shared → Pc → Shared → Pc → ℕ → Type 0
VersionChange m p m' p' x =
    (version m' x ≡ version m x)
    ⊎ ((has x (unstamped p) ≡ true)
        × (wv_of p ≡ some (version m' x))
        × (has x (unstamped p') ≡ false))

pub Move-version :
    {m m' : Shared} {p p' : Pc} (x : ℕ)
    → Move m p m' p'
    → AllDistinct (held p)
    → VersionChange m p m' p' x
unfolding versioned_spinlock_release versioned_spinlock_update global_clock_increment_and_get
    Spinlock.release Spinlock.update
Move-version x (Move.acquire free) d = inl (ground arith)
Move-version x Move.undo d = inl (ground arith)
Move-version x Move.update_version d = ground arith
Move-version x Move.unlock d = inl (ground arith)
Move-version x _ d = inl refl

-- A lock that is to be updated was so before, or its thread has just got its write version.
abbrev pub UnstampedChange : Shared → Pc → Pc → ℕ → Type 0
UnstampedChange m p p' x =
    (wv : ℕ)
    → has x (unstamped p') ≡ true
    → wv_of p' ≡ some wv
    → ((has x (unstamped p) ≡ true) × (wv_of p ≡ some wv)) ⊎ (wv ≡ suc (clock m))

pub Move-unstamped : {m m' : Shared} {p p' : Pc} (x : ℕ) → Move m p m' p' → UnstampedChange m p p' x
Move-unstamped x (Move.tick_next small next) wv h e = inr (ground arith)
Move-unstamped x (Move.tick_check small next) wv h e = inr (ground arith)
Move-unstamped x (Move.check_free free) wv h e = inl (h, e)
Move-unstamped x (Move.check_old old) wv h e = inl (h, e)
Move-unstamped x Move.check_done wv h e = inl (h, e)
Move-unstamped x Move.store_word wv h e = inl (h, e)
Move-unstamped x Move.update_version wv h e = inl (ground arith, e)
Move-unstamped x Move.unlock wv h e = inl (h, e)
Move-unstamped x _ wv h e = cc

-- The read version is kept, or sampled from the clock.
pub Move-rv :
    {m m' : Shared} {p p' : Pc} → Move m p m' p' → (rv_of p' ≤ rv_of p) ⊎ (rv_of p' ≡ clock m)
unfolding global_clock_get
Move-rv (Move.begin ro) = inr refl
Move-rv (Move.version_old {o = none} old) = inl (omega arith)
Move-rv (Move.version_old {o = some e} old) = inl (omega arith)
Move-rv _ = inl (omega arith)

-- A word keeps its stamp, unless the thread has just stored it.
pub Move-stamp :
    {m m' : Shared} {p p' : Pc} (a : ℕ)
    → Move m p m' p'
    → (m'.stamp a ≡ m.stamp a) ⊎ StoresAt p' a (m'.stamp a)
Move-stamp a (Move.store_word {w}) = elim (Bool-cases (a == w.address)) [
  | inl here ↦ inr (ground arith, ground arith)
  | inr other ↦ inl (ground arith)
]
Move-stamp a _ = inl refl

-- After its next access the thread that has stored a word has updated the version.
pub Move-StoresAt :
    {m m' : Shared} {p p' : Pc} (a s : ℕ)
    → Move m p m' p'
    → StoresAt p a s
    → version m' (find_lock a) ≡ s
unfolding versioned_spinlock_update Spinlock.update
Move-StoresAt a s Move.update_version h = ground arith
Move-StoresAt a s _ h = absurd h

pub StoresAt-holds :
    (p : Pc) (a s : ℕ) → StoresAt p a s → (holds p (find_lock a) ≡ true) × (wv_of p ≡ some s)
StoresAt-holds (stored tx wv (w ∷ todo)) a s h = ground arith
StoresAt-holds (stored tx wv []) a s h = absurd h
StoresAt-holds idle a s h = absurd h
StoresAt-holds _ a s h = absurd h
