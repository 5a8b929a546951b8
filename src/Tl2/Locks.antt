-- ===== src/Tl2/Locks.antt =====
-- Taking and releasing the locks of several addresses, one after the other.
use cs453_concurrent_algorit.Base.{
  ℕ, ◌≡◌, refl, ◌∙◌, ap, Bool, true, false, List, [], ◌∷◌, has, update, ◌==◌, ◌||◌, if◌then◌else◌,
  arith, fun_ext, Bool-cases, inl, inr,
}
use cs453_concurrent_algorit.Spinlock.{VersionedSpinlock}
use cs453_concurrent_algorit.SharedLock.{SharedLock, find_lock, lock_at, set_lock_at}

-- The indices of the locks of some addresses.
abbrev pub indices : List ℕ → List ℕ
indices [] = []
indices (a ∷ xs) = find_lock a ∷ indices xs

-- The locks with that of an address taken.
abbrev pub hold : SharedLock → ℕ → SharedLock
hold lock a = set_lock_at lock a (record (lock_at lock a) { lock = true })

-- The locks with their flags set, or cleared, at some addresses.
abbrev pub taken : SharedLock → List ℕ → SharedLock
taken lock [] = lock
taken lock (a ∷ xs) = taken (hold lock a) xs

abbrev pub released : SharedLock → List ℕ → SharedLock
released lock [] = lock
released lock (a ∷ xs) = released (set_lock_at lock a (record (lock_at lock a) { lock = false })) xs

-- The locks can be taken one after the other: each is free when its turn comes.
abbrev pub can_take : SharedLock → List ℕ → Bool
can_take lock [] = true
can_take lock (a ∷ xs) =
    let rest = can_take (hold lock a) xs in if (lock_at lock a).lock then false else rest

pub taken-clock : (lock : SharedLock) (xs : List ℕ) → (taken lock xs).clock ≡ lock.clock
taken-clock lock [] = refl
taken-clock lock (a ∷ xs) = taken-clock (set_lock_at lock a _) xs

-- One step of a loop that sets the flags of some locks to `v`; `b` is whether it reaches lock `i`
-- later.
flag-step :
    (v : Bool) (locks : ℕ → VersionedSpinlock) (k i : ℕ) (b : Bool)
    → (if b
        then record (update locks k (record (locks k) { lock = v }) i) { lock = v }
        else update locks k (record (locks k) { lock = v }) i)
      ≡ (if (i == k) || b then record (locks i) { lock = v } else locks i)
flag-step v locks k i b = ground arith

module _ (i : ℕ) where
  pub taken-locks :
      (lock : SharedLock) (xs : List ℕ)
      → (taken lock xs).locks i
        ≡ (if has i (indices xs) then record (lock.locks i) { lock = true } else lock.locks i)
  taken-locks lock [] = refl
  taken-locks lock (a ∷ xs) =
      taken-locks (set_lock_at lock a (record (lock_at lock a) { lock = true })) xs
      ∙ flag-step true lock.locks (find_lock a) i (has i (indices xs))

  released-locks :
      (lock : SharedLock) (xs : List ℕ)
      → (released lock xs).locks i
        ≡ (if has i (indices xs) then record (lock.locks i) { lock = false } else lock.locks i)
  released-locks lock [] = refl
  released-locks lock (a ∷ xs) =
      released-locks (set_lock_at lock a (record (lock_at lock a) { lock = false })) xs
      ∙ flag-step false lock.locks (find_lock a) i (has i (indices xs))

  can_take-free :
      (lock : SharedLock) (xs : List ℕ)
      → can_take lock xs ≡ true
      → has i (indices xs) ≡ true
      → (lock.locks i).lock ≡ false
  can_take-free lock [] able inside = cc
  can_take-free lock (a ∷ xs) able inside =
      ground
        (arith, can_take-free (set_lock_at lock a (record (lock_at lock a) { lock = true })) xs)

  restored :
      (lock : SharedLock) (xs : List ℕ)
      → can_take lock xs ≡ true
      → (released (taken lock xs) xs).locks i ≡ lock.locks i
  restored lock xs able =
      let free = can_take-free lock xs able in
      rw (released-locks (taken lock xs) xs, taken-locks lock xs) (ground (arith, free))

taken-segment_lock :
    (lock : SharedLock) (xs : List ℕ) → (taken lock xs).segment_lock ≡ lock.segment_lock
taken-segment_lock lock [] = refl
taken-segment_lock lock (a ∷ xs) = taken-segment_lock (set_lock_at lock a _) xs

released-clock : (lock : SharedLock) (xs : List ℕ) → (released lock xs).clock ≡ lock.clock
released-clock lock [] = refl
released-clock lock (a ∷ xs) = released-clock (set_lock_at lock a _) xs

released-segment_lock :
    (lock : SharedLock) (xs : List ℕ) → (released lock xs).segment_lock ≡ lock.segment_lock
released-segment_lock lock [] = refl
released-segment_lock lock (a ∷ xs) = released-segment_lock (set_lock_at lock a _) xs

-- Releasing the locks that could be taken restores them all.
pub released-taken :
    (lock : SharedLock) (xs : List ℕ) → can_take lock xs ≡ true → released (taken lock xs) xs ≡ lock
released-taken lock xs able = λ i. record {
  clock = (released-clock (taken lock xs) xs ∙ taken-clock lock xs) i;
  locks = fun_ext (λ x. restored x lock xs able) i;
  segment_lock = (released-segment_lock (taken lock xs) xs ∙ taken-segment_lock lock xs) i;
}

-- Setting the flag of a lock that is held changes nothing.
pub set_held :
    (lock : SharedLock) (a : ℕ)
    → (lock_at lock a).lock ≡ true
    → set_lock_at lock a (record (lock_at lock a) { lock = true }) ≡ lock
set_held lock a held = λ i. record lock { locks = fun_ext at i }
  where
    at :
        (x : ℕ)
        → update lock.locks (find_lock a) (record (lock_at lock a) { lock = true }) x ≡ lock.locks x
    at x = ground arith

pub can_take-held :
    (lock : SharedLock) (xs : List ℕ) (i : ℕ)
    → (lock.locks i).lock ≡ true
    → has i (indices xs) ≡ true
    → can_take lock xs ≡ false
can_take-held lock xs i held inside = elim (Bool-cases (can_take lock xs)) [
  | inl able ↦ absurd (cc (can_take-free i lock xs able inside, held))
  | inr unable ↦ unable
]

-- The clock has no part in it.
pub taken-tick :
    (c : ℕ) (lock : SharedLock) (xs : List ℕ)
    → record (taken lock xs) { clock = c } ≡ taken (record lock { clock = c }) xs
taken-tick c lock [] = refl
taken-tick c lock (a ∷ xs) = taken-tick c (hold lock a) xs

pub can_take-tick :
    (c : ℕ) (lock : SharedLock) (xs : List ℕ)
    → can_take (record lock { clock = c }) xs ≡ can_take lock xs
can_take-tick c lock [] = refl
can_take-tick c lock (a ∷ xs) =
    ap (λ b. if (lock_at lock a).lock then false else b) (can_take-tick c (hold lock a) xs)
