-- ===== src/Concurrent/Locks/Changes.antt =====
-- What one access does to the locks and to what its thread holds.
use cs453_concurrent_algorit.Base.{
  ℕ, ◌≡◌, refl, Bool, true, false, ◌⊎◌, inl, ◌||◌, List, [], ◌∷◌, ◌++◌, has, AllDistinct, ◌==◌,
  arith, ap, sym, ◌∙◌, subst,
}
use mathlib.Core.List.{append-nil, append_assoc}
use cs453_concurrent_algorit.Spinlock
use cs453_concurrent_algorit.SharedLock.{
  find_lock, versioned_spinlock_release, versioned_spinlock_update, global_clock_increment_and_get,
}
use cs453_concurrent_algorit.Concurrent.Thread.{
  Shared, flag, Write, Pc, locking, undoing, checking, checked, storing, stored, updated, Move,
}

abbrev pub indices : List Write → List ℕ
indices [] = []
indices (w ∷ ws) = find_lock w.address ∷ indices ws

-- The indices of the locks that a thread has taken and not released.
abbrev pub held : Pc → List ℕ
held (locking tx done todo) = indices done
held (undoing tx todo) = indices todo
held (checking tx wv todo) = indices tx.writes
held (checked tx wv todo) = indices tx.writes
held (storing tx wv todo) = indices todo
held (stored tx wv todo) = indices todo
held (updated tx wv todo) = indices todo
held _ = []

abbrev pub holds : Pc → ℕ → Bool
holds p x = has x (held p)

abbrev pub IsSplit : Pc → Type 0
IsSplit (locking tx done todo) = done ++ todo ≡ tx.writes
IsSplit _ = Unit

has-indices-append :
    (x : ℕ) (done : List Write) (w : Write)
    → has x (indices (done ++ w ∷ [])) ≡ (has x (indices done) || (x == find_lock w.address))
has-indices-append x [] w = ground arith
has-indices-append x (v ∷ done) w = ground (arith, has-indices-append x done w)

AllDistinct-append :
    (done : List Write) (w : Write)
    → AllDistinct (indices done)
    → has (find_lock w.address) (indices done) ≡ false
    → AllDistinct (indices (done ++ w ∷ []))
AllDistinct-append [] w d h = (refl, tt)
AllDistinct-append (v ∷ done) w d h = (
  ground (arith, has-indices-append (find_lock v.address) done w),
  AllDistinct-append done w d.1 (ground arith),
)

-- The lock with index `x` is left alone, taken from nobody, or given back.
abbrev pub LockChange : Shared → Pc → Shared → Pc → ℕ → Type 0
LockChange m p m' p' x =
    ((flag m' x ≡ flag m x) × (holds p' x ≡ holds p x))
    ⊎ (((flag m x ≡ false) × (flag m' x ≡ true) × (holds p' x ≡ true))
        ⊎ ((holds p x ≡ true) × (flag m' x ≡ false) × (holds p' x ≡ false)))

pub Move-lock :
    {m m' : Shared} {p p' : Pc} (x : ℕ)
    → Move m p m' p'
    → IsSplit p
    → AllDistinct (held p)
    → LockChange m p m' p' x
unfolding versioned_spinlock_release versioned_spinlock_update global_clock_increment_and_get
    Spinlock.release Spinlock.update
Move-lock x (Move.begin ro) s d = inl (refl, refl)
Move-lock x (Move.end_rw ro) s d = inl (refl, refl)
Move-lock x (Move.give_up busy) s d = inl (refl, refl)
Move-lock x (Move.acquire {done} {w} free) s d = ground (arith, has-indices-append x done w)
Move-lock x Move.undo s d = ground arith
Move-lock x (Move.tick_next {tx} {done} small next) s d =
    inl (refl, ap (λ l. has x (indices l)) (sym (sym (append-nil done) ∙ s)))
Move-lock x (Move.tick_check {tx} {done} small next) s d =
    inl (refl, ap (λ l. has x (indices l)) (sym (sym (append-nil done) ∙ s)))
Move-lock x Move.update_version s d = ground arith
Move-lock x Move.unlock s d = ground arith
Move-lock x _ s d = inl (refl, refl)

pub Move-distinct :
    {m m' : Shared} {p p' : Pc}
    → Move m p m' p'
    → IsSplit p
    → AllDistinct (held p)
    → ((x : ℕ) → holds p x ≡ true → flag m x ≡ true)
    → AllDistinct (held p')
Move-distinct (Move.acquire {done} {w} free) s d own =
    AllDistinct-append done w d (ground (arith, own (find_lock w.address)))
Move-distinct (Move.tick_next {done} small next) s d own =
    subst (λ l. AllDistinct (indices l)) (sym (append-nil done) ∙ s) d
Move-distinct (Move.tick_check {done} small next) s d own =
    subst (λ l. AllDistinct (indices l)) (sym (append-nil done) ∙ s) d
Move-distinct Move.undo s d own = d.1
Move-distinct Move.unlock s d own = d.1
Move-distinct (Move.begin ro) s d own = tt
Move-distinct (Move.copy_ro a h) s d own = tt
Move-distinct (Move.copy_rw a h k) s d own = tt
Move-distinct (Move.copy_own a h k) s d own = tt
Move-distinct (Move.write a v) s d own = tt
Move-distinct (Move.end_ro h) s d own = tt
Move-distinct (Move.end_rw h) s d own = tt
Move-distinct Move.undone s d own = tt
Move-distinct Move.commit s d own = tt
Move-distinct Move.restart s d own = tt
Move-distinct _ s d own = d

pub Move-IsSplit : {m m' : Shared} {p p' : Pc} → Move m p m' p' → IsSplit p → IsSplit p'
Move-IsSplit (Move.acquire {done} {todo} {w} free) s = append_assoc done (w ∷ []) todo ∙ s
Move-IsSplit (Move.spin busy) s = s
Move-IsSplit (Move.end_rw h) s = refl
Move-IsSplit _ s = tt
