-- ===== src/Tl2/Locking.antt =====
-- `lock_write_set` and `unlock_write_set` of 335740/tm.c: all locks or none.
use cs453_concurrent_algorit.Base.{
  ℕ, zero, suc, ◌<◌, ◌≡◌, ◌≢◌, refl, sym, ◌∙◌, ap, subst, Bool, true, false, List, [], ◌∷◌, ◌++◌,
  has, ◌==◌, if◌then◌else◌, arith, length, Bool-cases, inl, inr,
}
use cs453_concurrent_algorit.Spinlock
use cs453_concurrent_algorit.Spinlock.{VersionedSpinlock}
use cs453_concurrent_algorit.SharedLock.{
  SharedLock, find_lock, lock_at, set_lock_at, versioned_spinlock_release,
}
use cs453_concurrent_algorit.SharedLock.Laws.{acquire_lem}
use cs453_concurrent_algorit.Heap.{Ptr, null, Machine, Cells, ok}
use cs453_concurrent_algorit.Heap.Laws.{ne_null, load-ok}
use cs453_concurrent_algorit.WriteSet.Chain.{Entry, nodes, addresses, head, node, Holds, Chain}
use cs453_concurrent_algorit.Tl2.Locks.{
  indices, hold, taken, released, can_take, released-taken, set_held, can_take-held,
}
use cs453_concurrent_algorit.Tl2.{unlock_write_set, lock_rest, lock_write_set}

-- A node of a chain is not the one at which a later part of it starts, nor NULL.
ne_of_prefix :
    (p : Ptr) (ds es : List Entry)
    → p ≢ null
    → has p (nodes (ds ++ es)) ≡ false
    → (p == head es) ≡ false
ne_of_prefix p [] [] real new = ground arith
ne_of_prefix p [] (e ∷ es) real new = ground arith
ne_of_prefix p (d ∷ ds) es real new = ne_of_prefix p ds es real (ground arith)

==_self : (p : Ptr) → (p == p) ≡ true
==_self p = ground arith

-- Up to the node at which `es` starts, and with no such node to the end.
unlock_write_set-prefix :
    (fuel : ℕ) (lock : SharedLock) (m : Machine) (ds es : List Entry)
    → Chain m.cells (ds ++ es)
    → length ds < fuel
    → unlock_write_set fuel lock (head (ds ++ es)) (head es) m ≡ ok (released lock (addresses ds)) m
unfolding unlock_write_set versioned_spinlock_release Spinlock.release
unlock_write_set-prefix zero lock m ds es c enough = absurd (omega arith)
unlock_write_set-prefix (suc fuel) lock m [] es c enough = rw (==_self (head es))
unlock_write_set-prefix (suc fuel) lock m (d ∷ ds) es c enough =
    let h : Holds m.cells d (head (ds ++ es)) = c.0 in
    rw
      (
        ne_of_prefix d.node ds es h.real c.1,
        load-ok m d.node (node d.address d.buffer (head (ds ++ es))) h.real h.at_node,
      )
      (unlock_write_set-prefix fuel
        (set_lock_at lock d.address (record (lock_at lock d.address) { lock = false })) m ds es c.3
        (omega arith))

append_assoc : (ds : List Entry) (e : Entry) (es : List Entry) → (ds ++ e ∷ []) ++ es ≡ ds ++ e ∷ es
append_assoc [] e es = refl
append_assoc (d ∷ ds) e es = ap (λ fs. d ∷ fs) (append_assoc ds e es)

taken-append :
    (lock : SharedLock) (ds : List Entry) (e : Entry)
    → taken lock (addresses (ds ++ e ∷ [])) ≡ hold (taken lock (addresses ds)) e.address
taken-append lock [] e = refl
taken-append lock (d ∷ ds) e = taken-append (set_lock_at lock d.address _) ds e

can_take-append :
    (lock : SharedLock) (ds : List Entry) (e : Entry)
    → can_take lock (addresses ds) ≡ true
    → (lock_at (taken lock (addresses ds)) e.address).lock ≡ false
    → can_take lock (addresses (ds ++ e ∷ [])) ≡ true
can_take-append lock [] e able free = rw free
can_take-append lock (d ∷ ds) e able free = elim (Bool-cases (lock_at lock d.address).lock) [
  | inl busy ↦ absurd (cc (rw busy at able))
  | inr unheld ↦ rw unheld (can_take-append (hold lock d.address) ds e (rw unheld at able) free)
]

Chain-suffix : (cells : Cells) (ds es : List Entry) → Chain cells (ds ++ es) → Chain cells es
Chain-suffix cells [] es c = c
Chain-suffix cells (d ∷ ds) es c = Chain-suffix cells ds es c.3

-- All locks are taken if they can be, and none otherwise.
abbrev pub all_or_none : (before now : SharedLock) → List ℕ → Bool × SharedLock
all_or_none before now xs = if can_take now xs then (true, taken now xs) else (false, before)

length-prefix :
    (ds : List Entry) (e : Entry) (es : List Entry) (fuel : ℕ)
    → length (ds ++ e ∷ es) < fuel
    → length (ds ++ e ∷ []) < fuel
length-prefix [] e es fuel enough = omega arith
length-prefix (d ∷ ds) e es zero enough = absurd (omega arith)
length-prefix (d ∷ ds) e es (suc fuel) enough =
    let shorter = length-prefix ds e es fuel (omega arith) in omega arith

-- The loop, when the locks of `ds` are taken already.
lock_rest_lem :
    (fuel fuel_undo : ℕ) (lock : SharedLock) (m : Machine) (begin : Ptr) (ds es : List Entry)
    → begin ≡ head (ds ++ es)
    → Chain m.cells (ds ++ es)
    → can_take lock (addresses ds) ≡ true
    → length es < fuel
    → length (ds ++ es) < fuel_undo
    → length ds < fuel_undo
    → lock_rest fuel fuel_undo (taken lock (addresses ds)) begin (head es) m
      ≡ ok (all_or_none lock (taken lock (addresses ds)) (addresses es)) m
unfolding lock_rest
lock_rest_lem zero fuel_undo lock m begin ds es b c able enough undo short = absurd (omega arith)
lock_rest_lem (suc fuel) fuel_undo lock m begin ds [] b c able enough undo short = refl
lock_rest_lem (suc fuel) fuel_undo lock m begin ds (e ∷ es) b c able enough undo short =
    let now = taken lock (addresses ds) in
    let h : Holds m.cells e (head es) = (Chain-suffix m.cells ds (e ∷ es) c).0 in
    let at = load-ok m e.node (node e.address e.buffer (head es)) h.real h.at_node in
    elim (Bool-cases (lock_at now e.address).lock) [
      | inl busy ↦ rw (
        ne_null e.node h.real,
        at,
        acquire_lem now e.address,
        busy,
        set_held now e.address busy,
        b,
        unlock_write_set-prefix fuel_undo now m ds (e ∷ es) c short,
        released-taken lock (addresses ds) able,
      )
      | inr unheld ↦
          rw (ne_null e.node h.real, at, acquire_lem now e.address, unheld)
            (subst
              (λ X.
                lock_rest fuel fuel_undo X begin (head es) m
                ≡ ok (all_or_none lock X (addresses es)) m)
              (taken-append lock ds e)
              (lock_rest_lem fuel fuel_undo lock m begin (ds ++ e ∷ []) es
                (b ∙ ap head (sym (append_assoc ds e es)))
                (subst (Chain m.cells) (sym (append_assoc ds e es)) c)
                (can_take-append lock ds e able unheld) (omega arith)
                (subst (λ fs. length fs < fuel_undo) (sym (append_assoc ds e es)) undo)
                (length-prefix ds e es fuel_undo undo)))
    ]

-- With fuel above the number of nodes `lock_write_set` ends without a fault and changes no memory.
-- If each written address's lock is free when its turn comes, it returns true with exactly these
-- locks taken besides those that were; otherwise it returns false with all locks as before.
pub lock_write_set_lem :
    (fuel : ℕ) (lock : SharedLock) (m : Machine) (es : List Entry)
    → Chain m.cells es
    → length es < fuel
    → lock_write_set fuel lock (head es) m ≡ ok (all_or_none lock lock (addresses es)) m
unfolding lock_write_set
lock_write_set_lem fuel lock m es c enough =
    lock_rest_lem fuel fuel lock m (head es) [] es refl c refl enough enough (omega arith)

can_take-twice :
    (lock : SharedLock) (ds : List Entry) (e : Entry) (es : List Entry)
    → has (find_lock e.address) (indices (addresses es)) ≡ true
    → can_take lock (addresses (ds ++ e ∷ es)) ≡ false
can_take-twice lock [] e es inside =
    let held : ((hold lock e.address).locks (find_lock e.address)).lock ≡ true = ground arith in
    rw (can_take-held (hold lock e.address) (addresses es) (find_lock e.address) held inside)
      (ground arith)
can_take-twice lock (d ∷ ds) e es inside =
    rw (can_take-twice (hold lock d.address) ds e es inside) (ground arith)

-- A transaction that has written two addresses with the same lock cannot lock its write set, even
-- when no lock is held: it waits for itself, gives up and returns false, with all locks as before.
pub lock_write_set-twice :
    (fuel : ℕ) (lock : SharedLock) (m : Machine) (ds : List Entry) (e : Entry) (es : List Entry)
    → Chain m.cells (ds ++ e ∷ es)
    → length (ds ++ e ∷ es) < fuel
    → has (find_lock e.address) (indices (addresses es)) ≡ true
    → lock_write_set fuel lock (head (ds ++ e ∷ es)) m ≡ ok (false, lock) m
lock_write_set-twice fuel lock m ds e es c enough inside =
    rw (lock_write_set_lem fuel lock m (ds ++ e ∷ es) c enough, can_take-twice lock ds e es inside)

-- With fuel above the number of nodes `unlock_write_set` up to NULL, on locks that `lock_write_set`
-- could take and has taken, ends without a fault, changes no memory and restores all locks.
pub unlock_write_set_lem :
    (fuel : ℕ) (lock : SharedLock) (m : Machine) (es : List Entry)
    → Chain m.cells es
    → length es < fuel
    → can_take lock (addresses es) ≡ true
    → unlock_write_set fuel (taken lock (addresses es)) (head es) null m ≡ ok lock m
unlock_write_set_lem fuel lock m es c enough able =
    subst (λ fs. unlock_write_set fuel (taken lock (addresses es)) (head fs) null m ≡ ok lock m)
      (append_nil es)
      (unlock_write_set-prefix fuel (taken lock (addresses es)) m es []
          (subst (Chain m.cells) (sym (append_nil es)) c) enough
        ∙ ap (λ l. ok l m) (released-taken lock (addresses es) able))
  where
    append_nil : (fs : List Entry) → fs ++ [] ≡ fs
    append_nil [] = refl
    append_nil (f ∷ fs) = ap (λ gs. f ∷ gs) (append_nil fs)
