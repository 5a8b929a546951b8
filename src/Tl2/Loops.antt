-- ===== src/Tl2/Loops.antt =====
-- `validate_read_set` and `store_write_set` of 335740/tm.c.
use cs453_concurrent_algorit.Base.{
  ℕ, zero, suc, ◌<◌, ◌≡◌, refl, ◌∙◌, ap, subst, ◌||◌, Bool, true, false, Option, some, none, List,
  [], ◌∷◌, has, update, ◌==◌, if◌then◌else◌, arith, length, fun_ext, AllDistinct, Bool-cases, inl,
  inr,
}
use cs453_concurrent_algorit.Spinlock
use cs453_concurrent_algorit.Spinlock.{VersionedSpinlock}
use cs453_concurrent_algorit.SharedLock.{
  SharedLock, find_lock, set_lock_at, versioned_spinlock_release, versioned_spinlock_update,
  versioned_spinlock_validate,
}
use cs453_concurrent_algorit.Heap.{Machine, word, ok}
use cs453_concurrent_algorit.Heap.Laws.{ne_null, load-ok}
use cs453_concurrent_algorit.ReadSet.Chain as ReadChain
use cs453_concurrent_algorit.ReadSet.Add as ReadAdd
use cs453_concurrent_algorit.Tl2.Locks.{indices}
use cs453_concurrent_algorit.WriteSet.Chain.{Entry, addresses, head, node, Holds, Chain}
use cs453_concurrent_algorit.WriteSet.Find.{find_entry}
use cs453_concurrent_algorit.Tl2.{validate_read_set, store_write_set}

abbrev pub all_valid : SharedLock → ℕ → List ℕ → Bool
all_valid lock rv [] = true
all_valid lock rv (a ∷ xs) =
    let rest = all_valid lock rv xs in if versioned_spinlock_validate lock a rv then rest else false

-- With fuel above the number of nodes `validate_read_set` ends without a fault, changes nothing, and
-- returns whether every address of the read set is valid at the read version.
pub validate_read_set_lem :
    (fuel : ℕ) (lock : SharedLock) (rv : ℕ) (m : Machine) (es : List ReadChain.Entry)
    → ReadChain.Chain m.cells es
    → length es < fuel
    → validate_read_set fuel lock (ReadChain.head es) rv m
      ≡ ok (all_valid lock rv (ReadChain.addresses es)) m
unfolding validate_read_set
validate_read_set_lem zero lock rv m es c enough = absurd (omega arith)
validate_read_set_lem (suc fuel) lock rv m [] c enough = refl
validate_read_set_lem (suc fuel) lock rv m (e ∷ es) c enough =
    let at = load-ok m e.node (ReadAdd.node e.address (ReadChain.head es)) c.0 c.1 in
    elim (Bool-cases (versioned_spinlock_validate lock e.address rv)) [
      | inl valid ↦
          rw (ne_null e.node c.0, at, valid)
            (validate_read_set_lem fuel lock rv m es c.3 (omega arith))
      | inr invalid ↦ rw (ne_null e.node c.0, at, invalid)
    ]

-- The memory with the words of the entries, and the locks with the write version, free.
abbrev pub stored : (ℕ → ℕ) → List Entry → ℕ → ℕ
stored mem [] = mem
stored mem (e ∷ es) = stored (update mem e.address e.value) es

abbrev pub published : ℕ → SharedLock → List ℕ → SharedLock
published wv lock [] = lock
published wv lock (a ∷ xs) =
    published wv (set_lock_at lock a (record { lock = false; version = wv })) xs

update-release :
    (lock : SharedLock) (a wv : ℕ)
    → versioned_spinlock_release (versioned_spinlock_update lock a wv) a
      ≡ set_lock_at lock a (record { lock = false; version = wv })
unfolding versioned_spinlock_release versioned_spinlock_update Spinlock.release Spinlock.update
update-release lock a wv = λ i. record lock { locks = fun_ext at i }
  where
    at :
        (x : ℕ)
        → ((versioned_spinlock_release (versioned_spinlock_update lock a wv) a).locks x)
          ≡ (set_lock_at lock a (record { lock = false; version = wv })).locks x
    at x = ground arith

-- The loop stores the words in order and leaves each lock free with the write version.
pub store_write_set_lem :
    (fuel : ℕ) (lock : SharedLock) (wv : ℕ) (m : Machine) (es : List Entry)
    → Chain m.cells es
    → length es < fuel
    → store_write_set fuel lock (head es) wv m
      ≡ ok (published wv lock (addresses es)) (record m { mem = stored m.mem es })
unfolding store_write_set
store_write_set_lem zero lock wv m es c enough = absurd (omega arith)
store_write_set_lem (suc fuel) lock wv m [] c enough = refl
store_write_set_lem (suc fuel) lock wv m (e ∷ es) c enough =
    let h : Holds m.cells e (head es) = c.0 in
    rw
      (
        ne_null e.node h.real,
        load-ok m e.node (node e.address e.buffer (head es)) h.real h.at_node,
        load-ok m e.buffer (word e.value) h.real_buffer h.at_buffer,
        update-release lock e.address wv,
      )
      (store_write_set_lem fuel (set_lock_at lock e.address (record { lock = false; version = wv }))
        wv (record m { mem = update m.mem e.address e.value }) es c.3 (omega arith))

stored-other :
    (mem : ℕ → ℕ) (es : List Entry) (a : ℕ) → has a (addresses es) ≡ false → stored mem es a ≡ mem a
stored-other mem [] a absent = refl
stored-other mem (e ∷ es) a absent =
    stored-other (update mem e.address e.value) es a (ground arith) ∙ ground arith

abbrev pub word_or : ℕ → Option Entry → ℕ
word_or old none = old
word_or old (some e) = e.value

pub stored-find :
    (mem : ℕ → ℕ) (es : List Entry) (a : ℕ)
    → AllDistinct (addresses es)
    → stored mem es a ≡ word_or (mem a) (find_entry a es)
unfolding find_entry
stored-find mem [] a distinct = refl
stored-find mem (e ∷ es) a distinct = elim (Bool-cases (e.address == a)) [
  | inl here ↦
      let same : e.address ≡ a = ground arith in
      rw here (
        stored-other (update mem e.address e.value) es a
          (subst (λ x. has x (addresses es) ≡ false) same distinct.0)
        ∙ written e.value e.address same)
  | inr there ↦
      rw (there, stored-find (update mem e.address e.value) es a distinct.1)
        (ap (λ w. word_or w (find_entry a es)) (unwritten e.value e.address there))
]
  where
    written : (v x : ℕ) → x ≡ a → update mem x v a ≡ v
    written v x same = ground arith

    unwritten : (v x : ℕ) → (x == a) ≡ false → update mem x v a ≡ mem a
    unwritten v x other = ground arith

published-step :
    (locks : ℕ → VersionedSpinlock) (l : VersionedSpinlock) (k i : ℕ) (b : Bool)
    → (if b then l else update locks k l i) ≡ (if (i == k) || b then l else locks i)
published-step locks l k i b = ground arith

pub published-locks :
    (wv : ℕ) (lock : SharedLock) (xs : List ℕ) (i : ℕ)
    → (published wv lock xs).locks i
      ≡ (if has i (indices xs) then record { lock = false; version = wv } else lock.locks i)
published-locks wv lock [] i = refl
published-locks wv lock (a ∷ xs) i =
    published-locks wv (set_lock_at lock a (record { lock = false; version = wv })) xs i
    ∙ published-step lock.locks (record { lock = false; version = wv }) (find_lock a) i
        (has i (indices xs))

-- With fuel above the number of nodes, and no address twice in the write set, `store_write_set` ends
-- without a fault in a state with this memory and these locks: a word that was written has its
-- buffered value and any other its old one; the lock of a written address is free and has the write
-- version, and any other lock is as it was. The objects on the heap are as before.
pub store_write_set-find :
    (fuel : ℕ) (lock : SharedLock) (wv : ℕ) (m : Machine) (es : List Entry)
    → Chain m.cells es
    → AllDistinct (addresses es)
    → length es < fuel
    → (mem : ℕ → ℕ) × (new : SharedLock) × (store_write_set fuel lock (head es) wv m
        ≡ ok new (record m { mem = mem }))
      × ((a : ℕ) → mem a ≡ word_or (m.mem a) (find_entry a es))
      × ((i : ℕ)
          → new.locks i ≡ (
              if has i (indices (addresses es))
              then record { lock = false; version = wv }
              else lock.locks i))
store_write_set-find fuel lock wv m es c distinct enough = (
  stored m.mem es,
  published wv lock (addresses es),
  store_write_set_lem fuel lock wv m es c enough,
  λ a. stored-find m.mem es a distinct,
  published-locks wv lock (addresses es),
)
