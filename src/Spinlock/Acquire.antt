-- ===== src/Spinlock/Acquire.antt =====
-- What `versioned_spinlock_acquire` guarantees, whatever other threads do meanwhile.
use cs453_concurrent_algorit.Base.{
  ℕ, zero, suc, ◌+◌, ◌*◌, ◌<◌, ◌≡◌, refl, ◌↔◌, Bool, true, false, not, arith, if_ind, fun_ext,
}
use cs453_concurrent_algorit.Base.CInt.{int_gt}
use cs453_concurrent_algorit.Spinlock.{
  VersionedSpinlock, Env, idle, exchange_or, back_off, acquire, validate,
}

-- On success the lock was seen free, in a state of the invariant, and only its flag was set. On
-- failure the lock is held, in a state of the invariant: this thread has changed nothing.
abbrev pub Outcome : (VersionedSpinlock → Type 0) → Bool × VersionedSpinlock → Type 0
Outcome P (true, l) =
    (seen : VersionedSpinlock) × P seen × (seen.lock ≡ false) × (l ≡ record seen { lock = true })
Outcome P (false, l) = P l × (l.lock ≡ true)

set_held : (l : VersionedSpinlock) → l.lock ≡ true → record l { lock = true } ≡ l
set_held l h = ground arith

module _ (P : VersionedSpinlock → Type 0) where
  exchange_or-Outcome :
      (l : VersionedSpinlock) (retry : VersionedSpinlock → Bool × VersionedSpinlock)
      → P l
      → ((m : VersionedSpinlock) → P m → m.lock ≡ true → Outcome P (retry m))
      → Outcome P (exchange_or l retry)
  unfolding exchange_or
  exchange_or-Outcome l retry p next =
      if_ind (Outcome P) (not l.lock) (λ free. (l, p, ground arith, refl))
        (λ held. let h : l.lock ≡ true = ground arith in rw (set_held l h) (next l p h))

  module _ (env : Env) (keep : (k : ℕ) (l : VersionedSpinlock) → P l → P (env k l)) where
    back_off-Outcome :
        (left k : ℕ) (l : VersionedSpinlock)
        → P l
        → l.lock ≡ true
        → Outcome P (back_off env left k l)
    unfolding back_off
    back_off-Outcome zero k l p h = (p, h)
    back_off-Outcome (suc left) k l p h =
        if_ind (Outcome P) (env k l).lock (back_off-Outcome left (suc k) (env k l) (keep k l p))
          (λ _.
            exchange_or-Outcome (env (suc k) (env k l)) (back_off env left (suc (suc k)))
              (keep (suc k) (env k l) (keep k l p)) (back_off-Outcome left (suc (suc k))))

    -- Whatever other threads do to the lock meanwhile, if it keeps an invariant: when `acquire`
    -- returns true it has seen the lock free in a state of the invariant, and leaves that state with
    -- the flag set; when it returns false the lock is held and in a state of the invariant.
    pub acquire-Outcome : (l : VersionedSpinlock) → P l → Outcome P (acquire env l)
    unfolding acquire
    acquire-Outcome l p =
        exchange_or-Outcome (env 0 l) (back_off env 4 1) (keep 0 l p) (back_off-Outcome 4 1)

abbrev Agree : ℕ → Env → Env → Type 0
Agree n env env' = (k : ℕ) (l : VersionedSpinlock) → k < n → env k l ≡ env' k l

back_off-Agree :
    (env env' : Env) (left k : ℕ) (l : VersionedSpinlock)
    → Agree (k + 2 * left) env env'
    → back_off env left k l ≡ back_off env' left k l
unfolding back_off
back_off-Agree env env' zero k l same = refl
back_off-Agree env env' (suc left) k l same = rw (
  ← same k l (omega arith),
  ← same (suc k) (env k l) (omega arith),
  back_off-Agree env env' left (suc k) (env k l) (λ j m h. same j m (omega arith)),
  fun_ext (λ m. back_off-Agree env env' left (suc (suc k)) m (λ j n h. same j n (omega arith))),
)

-- The back-off is bounded: an acquisition depends on what others do before its first nine accesses
-- to the lock, and on nothing later.
pub acquire-Agree :
    (env env' : Env) (l : VersionedSpinlock) → Agree 9 env env' → acquire env l ≡ acquire env' l
unfolding acquire
acquire-Agree env env' l same = rw (
  same 0 l (omega arith),
  fun_ext (λ m. back_off-Agree env env' 4 1 m (λ j n h. same j n (omega arith))),
)

-- With no interference an acquisition succeeds exactly if the lock is free.
pub acquire-idle : (l : VersionedSpinlock) → acquire idle l ≡ (not l.lock, record l { lock = true })
unfolding acquire exchange_or back_off
acquire-idle l = ground arith

-- Validation accepts exactly the unlocked locks whose version is not above the given one.
pub validate_iff :
    (l : VersionedSpinlock) (version : ℕ)
    → (validate l version ≡ true) ↔ ((l.lock ≡ false) × (int_gt l.version version ≡ false))
unfolding validate
validate_iff l version = ground arith
