-- ===== src/Alone/Commit.antt =====
-- The commit of a transaction of 335740/tm.c when no other thread runs.
use cs453_concurrent_algorit.Base.{
  ℕ, suc, ◌^◌, ◌<◌, ◌≤◌, ◌≡◌, refl, ◌∙◌, ap, true, false, some, none, List, [], ◌∷◌, has,
  AllDistinct, update, ◌==◌, if◌then◌else◌, arith, Bool-cases, inl, inr, if_ind,
}
use cs453_concurrent_algorit.Base.CInt.{int_suc, le-int_gt}
use cs453_concurrent_algorit.Spinlock.{VersionedSpinlock, validate}
use cs453_concurrent_algorit.SharedLock.{
  SharedLock, find_lock, set_lock_at, versioned_spinlock_validate,
}
use cs453_concurrent_algorit.Heap.{Ptr, Cells, region, Transaction, Region}
use cs453_concurrent_algorit.Heap.Laws.{without, update_self, update_other}
use cs453_concurrent_algorit.ReadSet.Chain as ReadChain
use cs453_concurrent_algorit.WriteSet.Chain.{Entry, addresses}
use cs453_concurrent_algorit.WriteSet.Cleanup.{objects}
use cs453_concurrent_algorit.Tl2.Locks.{indices, taken, can_take, taken-locks, taken-clock}
use cs453_concurrent_algorit.Tl2.Loops.{stored, published, published-locks}
use cs453_concurrent_algorit.Tm.Cleanup.{
  IsTransaction, freed, without-other, not-has-reads, not-has-objects, kind_ne,
}
use cs453_concurrent_algorit.Tm.End.{ticked, commit, with_lock}
use cs453_concurrent_algorit.Alone.Calls.{AllValid}
use cs453_concurrent_algorit.Alone.Words.{can_take-distinct}

-- Every lock is free and has a version up to the clock.
pub record IsQuiet (lock : SharedLock) : Type 0 where
  pub free : (i : ℕ) → (lock.locks i).lock ≡ false
  pub old : (i : ℕ) → (lock.locks i).version ≤ lock.clock

pub IsQuiet-AllValid : (lock : SharedLock) → lock.clock < 2 ^ 31 → IsQuiet lock → AllValid lock
unfolding versioned_spinlock_validate validate
IsQuiet-AllValid lock small q a = rw (
  q.free (find_lock a),
  le-int_gt (lock.locks (find_lock a)).version lock.clock small (q.old (find_lock a)),
)

-- The locks after a commit
abbrev pub committed : SharedLock → List ℕ → SharedLock
committed lock xs = let held = taken lock xs in published (int_suc held.clock) (ticked held) xs

published-clock :
    (wv : ℕ) (lock : SharedLock) (xs : List ℕ) → (published wv lock xs).clock ≡ lock.clock
published-clock wv lock [] = refl
published-clock wv lock (a ∷ xs) =
    published-clock wv (set_lock_at lock a (record { lock = false; version = wv })) xs

committed-clock : (lock : SharedLock) (xs : List ℕ) → (committed lock xs).clock ≡ int_suc lock.clock
committed-clock lock xs =
    published-clock (int_suc (taken lock xs).clock) (ticked (taken lock xs)) xs
    ∙ ap int_suc (taken-clock lock xs)

committed-locks :
    (lock : SharedLock) (xs : List ℕ) (i : ℕ)
    → (committed lock xs).locks i ≡ (
        if has i (indices xs)
        then record { lock = false; version = int_suc lock.clock }
        else lock.locks i)
committed-locks lock xs i =
    published-locks (int_suc (taken lock xs).clock) (ticked (taken lock xs)) xs i
    ∙ elim (Bool-cases (has i (indices xs))) [
      | inl inside ↦ rw (inside, taken-clock lock xs)
      | inr outside ↦ rw (outside, taken-locks i lock xs, outside)
    ]

pub committed-IsQuiet :
    (lock : SharedLock) (xs : List ℕ)
    → suc lock.clock < 2 ^ 31
    → IsQuiet lock
    → IsQuiet (committed lock xs)
committed-IsQuiet lock xs small q = record {
  free = λ i. rw (committed-locks lock xs i) (
      if_ind (λ (l : VersionedSpinlock). l.lock ≡ false) (has i (indices xs)) (λ h. refl)
        (λ h. q.free i));
  old = λ i.
      rw (committed-locks lock xs i, committed-clock lock xs)
        (if_ind (λ (l : VersionedSpinlock). l.version ≤ int_suc lock.clock) (has i (indices xs))
          (λ h. omega arith) (λ h. omega (arith, q.old i)));
}

-- A commit at the read version of writes with distinct locks succeeds.
pub commit-quiet :
    (lock : SharedLock) (reads : List ℕ) (es : List Entry) (mem : ℕ → ℕ)
    → IsQuiet lock
    → AllDistinct (indices (addresses es))
    → commit lock lock.clock reads es mem ≡ (true, committed lock (addresses es), stored mem es)
commit-quiet lock reads es mem q distinct =
    let able : can_take lock (addresses es) ≡ true =
      can_take-distinct lock (addresses es) (λ i h. q.free i) distinct in
    let next : (int_suc (taken lock (addresses es)).clock == int_suc lock.clock) ≡ true =
      let same = taken-clock lock (addresses es) in ground arith in
    rw (able, next)

-- The region is not among the objects that are freed.
pub region-freed :
    (cells : Cells) (shared tx : Ptr) (r : Region) (lock : SharedLock) (u : Transaction)
    (rs : List ReadChain.Entry) (es : List Entry)
    → cells shared ≡ some (region r)
    → IsTransaction cells tx u rs es
    → freed tx rs es (with_lock cells shared r lock) shared
      ≡ some (region (record r { lock = lock }))
region-freed cells shared tx r lock u rs es at_shared s =
    let new : Cells = with_lock cells shared r lock in
    let apart = kind_ne cells shared tx _ _ at_shared s.at_tx (omega arith) in
    update_other (without (objects es) (without (ReadChain.nodes rs) new)) tx shared _ apart
    ∙ without-other (objects es) (without (ReadChain.nodes rs) new) shared
        (not-has-objects cells es shared _ s.writes at_shared (omega arith) (omega arith)).0
    ∙ without-other (ReadChain.nodes rs) new shared
        (not-has-reads cells rs shared _ s.reads at_shared (omega arith))
    ∙ update_self cells shared _

without-unused :
    (ps : List Ptr) (cells : Cells) (q : Ptr) → cells q ≡ none → without ps cells q ≡ none
without-unused [] cells q unused = unused
without-unused (p ∷ ps) cells q unused = without-unused ps (update cells p none) q (ground arith)

pub freed-unused :
    (cells : Cells) (tx : Ptr) (rs : List ReadChain.Entry) (es : List Entry) (q : Ptr)
    → cells q ≡ none
    → freed tx rs es cells q ≡ none
freed-unused cells tx rs es q unused =
    let rest =
      without-unused (objects es) (without (ReadChain.nodes rs) cells) q
        (without-unused (ReadChain.nodes rs) cells q unused) in
    ground arith
