-- ===== src/Concurrent/Reads.antt =====
-- What a transaction has read, and how one access changes words and what is known of them.
use cs453_concurrent_algorit.Base.{
  ℕ, suc, ◌≡◌, refl, true, ◌⊎◌, inl, inr, Option, none, some, List, [], ◌∷◌, All, arith,
}
use cs453_concurrent_algorit.SharedLock.{find_lock}
use cs453_concurrent_algorit.Concurrent.Thread.{
  Shared, clock, Seen, look, Pc, idle, running, copied, flagged, locking, undoing, checking,
  checked, storing, stored, updated, ended, Move,
}
use cs453_concurrent_algorit.Concurrent.Locks.{held, holds}
use cs453_concurrent_algorit.Concurrent.Versions.{wv_of, rv_of}

abbrev pub noted : Option Seen → List Seen → List Seen
noted none es = es
noted (some e) es = e ∷ es

-- All words that the transaction has copied from shared memory.
abbrev pub seen_of : Pc → List Seen
seen_of idle = []
seen_of (running tx) = tx.seen
seen_of (copied tx a o) = noted o tx.seen
seen_of (flagged tx a o) = noted o tx.seen
seen_of (locking tx done todo) = tx.seen
seen_of (undoing tx todo) = tx.seen
seen_of (checking tx wv todo) = tx.seen
seen_of (checked tx wv todo) = tx.seen
seen_of (storing tx wv todo) = tx.seen
seen_of (stored tx wv todo) = tx.seen
seen_of (updated tx wv todo) = tx.seen
seen_of (ended tx done) = tx.seen

-- A word and its stamp change only under the word's lock, which the storing thread holds, and the
-- stamp is that thread's write version then.
abbrev pub WordChange : Shared → Pc → Shared → ℕ → Type 0
WordChange m p m' a =
    ((m'.mem a ≡ m.mem a) × (m'.stamp a ≡ m.stamp a))
    ⊎ ((holds p (find_lock a) ≡ true) × (wv_of p ≡ some (m'.stamp a)))

pub Move-word : {m m' : Shared} {p p' : Pc} (a : ℕ) → Move m p m' p' → WordChange m p m' a
Move-word a Move.store_word = ground arith
Move-word a _ = inl (refl, refl)

-- A thread that holds a lock and has a write version was so before, or has just got the version.
abbrev pub HolderChange : Shared → Pc → Pc → ℕ → Type 0
HolderChange m p p' x =
    (wv : ℕ)
    → holds p' x ≡ true
    → wv_of p' ≡ some wv
    → ((holds p x ≡ true) × (wv_of p ≡ some wv)) ⊎ (wv ≡ suc (clock m))

pub Move-holder : {m m' : Shared} {p p' : Pc} (x : ℕ) → Move m p m' p' → HolderChange m p p' x
Move-holder x (Move.tick_next small next) wv h e = inr (ground arith)
Move-holder x (Move.tick_check small next) wv h e = inr (ground arith)
Move-holder x (Move.check_free free) wv h e = inl (h, e)
Move-holder x (Move.check_old old) wv h e = inl (h, e)
Move-holder x Move.check_done wv h e = inl (h, e)
Move-holder x Move.store_word wv h e = inl (h, e)
Move-holder x Move.update_version wv h e = inl (h, e)
Move-holder x Move.unlock wv h e = inl (ground arith, e)
Move-holder x _ wv h e = cc

-- The words that a thread knows after its move, it knew before or has just copied.
pub Move-seen {ℓ} :
    {m m' : Shared} {p p' : Pc} (P : Seen → Type ℓ)
    → Move m p m' p'
    → ((a : ℕ) → m ≡ m' → held p' ≡ [] → P (look m a))
    → All P (seen_of p)
    → All P (seen_of p')
Move-seen P (Move.begin ro) new all = tt
Move-seen P (Move.copy_ro a h) new all = (new a refl refl, all)
Move-seen P (Move.copy_rw a h k) new all = (new a refl refl, all)
Move-seen P (Move.flag_busy {o = none} h) new all = all
Move-seen P (Move.flag_busy {o = some e} h) new all = all.1
Move-seen P (Move.version_new {o = none} h) new all = all
Move-seen P (Move.version_new {o = some e} h) new all = all.1
Move-seen P (Move.version_old {o = none} h) new all = all
Move-seen P (Move.version_old {o = some e} h) new all = all
Move-seen P Move.restart new all = tt
Move-seen P _ new all = all

-- A transaction keeps its read version; a new one has read nothing.
pub Move-same_rv :
    {m m' : Shared} {p p' : Pc} → Move m p m' p' → (rv_of p' ≡ rv_of p) ⊎ (seen_of p' ≡ [])
Move-same_rv (Move.begin ro) = inr refl
Move-same_rv (Move.version_old {o = none} old) = inl refl
Move-same_rv (Move.version_old {o = some e} old) = inl refl
Move-same_rv Move.restart = inr refl
Move-same_rv _ = inl refl
