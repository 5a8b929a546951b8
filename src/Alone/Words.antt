-- ===== src/Alone/Words.antt =====
-- The words that a transaction of 335740/tm.c sees: those that it has buffered, and those of shared memory.
use cs453_concurrent_algorit.Base.{
  ℕ, ◌≡◌, ◌≢◌, refl, sym, ◌∙◌, ap, subst, true, false, some, none, List, [], ◌∷◌, ◌++◌, has,
  AllDistinct, ◌==◌, ◌||◌, if◌then◌else◌, arith, length, Bool-cases, inl, inr,
}
use cs453_concurrent_algorit.SharedLock.{SharedLock, find_lock, lock_at}
use cs453_concurrent_algorit.WriteSet.Chain.{Entry, addresses}
use cs453_concurrent_algorit.WriteSet.Find.{find_entry, overwritten}
use cs453_concurrent_algorit.WriteSet.Add.{entry}
use cs453_concurrent_algorit.Tl2.Loops.{word_or}
use cs453_concurrent_algorit.Tl2.Locks.{indices, hold, can_take}

-- The word at an address, for a transaction with the entries `es`
abbrev pub seen : (ℕ → ℕ) → List Entry → ℕ → ℕ
seen mem es a = word_or (mem a) (find_entry a es)

pub seen-append :
    (mem : ℕ → ℕ) (p b target v : ℕ) (es : List Entry) (a : ℕ)
    → find_entry target es ≡ none
    → seen mem (es ++ entry p b target v ∷ []) a ≡ (if a == target then v else seen mem es a)
unfolding find_entry
seen-append mem p b target v [] a absent = ground arith
seen-append mem p b target v (e ∷ es) a absent = elim (Bool-cases (e.address == target)) [
  | inl here ↦ cc (rw here at absent)
  | inr there ↦
      let rest = seen-append mem p b target v es a (rw there at absent) in
      elim (Bool-cases (e.address == a)) [
        | inl same ↦ rw same (ground arith)
        | inr other ↦ rw other rest
      ]
]

pub seen-overwritten :
    (mem : ℕ → ℕ) (target v : ℕ) (es : List Entry) (e : Entry) (a : ℕ)
    → find_entry target es ≡ some e
    → seen mem (overwritten target v es) a ≡ (if a == target then v else seen mem es a)
unfolding find_entry overwritten
seen-overwritten mem target v [] e a found = cc
seen-overwritten mem target v (f ∷ es) e a found = elim (Bool-cases (f.address == target)) [
  | inl here ↦ elim (Bool-cases (f.address == a)) [
    | inl same ↦ rw (here, same) (ground arith)
    | inr other ↦ rw (here, other) (ground arith)
  ]
  | inr there ↦
      let rest = seen-overwritten mem target v es e a (rw there at found) in
      elim (Bool-cases (f.address == a)) [
        | inl same ↦ rw (there, same) (ground arith)
        | inr other ↦ rw (there, other) rest
      ]
]

pub addresses-overwritten :
    (target v : ℕ) (es : List Entry) → addresses (overwritten target v es) ≡ addresses es
unfolding overwritten
addresses-overwritten target v [] = refl
addresses-overwritten target v (e ∷ es) = elim (Bool-cases (e.address == target)) [
  | inl here ↦ rw here
  | inr there ↦ rw (there, addresses-overwritten target v es)
]

pub has-find_entry :
    (a : ℕ) (es : List Entry) → find_entry a es ≡ none → has a (addresses es) ≡ false
unfolding find_entry
has-find_entry a [] absent = refl
has-find_entry a (e ∷ es) absent = elim (Bool-cases (e.address == a)) [
  | inl here ↦ cc (rw here at absent)
  | inr there ↦ let rest = has-find_entry a es (rw there at absent) in ground arith
]

has-addresses_append :
    (a p b target v : ℕ) (es : List Entry)
    → has a (addresses (es ++ entry p b target v ∷ [])) ≡ ((a == target) || has a (addresses es))
has-addresses_append a p b target v [] = ground arith
has-addresses_append a p b target v (e ∷ es) =
    ground (arith, has-addresses_append a p b target v es)

-- The written addresses stay distinct and among `targets`.
pub distinct-append :
    (p b target v : ℕ) (es : List Entry)
    → AllDistinct (addresses es)
    → has target (addresses es) ≡ false
    → AllDistinct (addresses (es ++ entry p b target v ∷ []))
distinct-append p b target v [] distinct absent = (refl, tt)
distinct-append p b target v (e ∷ es) distinct absent = (
  ground (arith, has-addresses_append e.address p b target v es),
  distinct-append p b target v es distinct.1 (ground arith),
)

pub among-append :
    (p b target v : ℕ) (es : List Entry) (targets : List ℕ) (a : ℕ)
    → has target targets ≡ true
    → (has a (addresses es) ≡ true → has a targets ≡ true)
    → has a (addresses (es ++ entry p b target v ∷ [])) ≡ true
    → has a targets ≡ true
among-append p b target v es targets a inside among h = elim (Bool-cases (a == target)) [
  | inl same ↦ let e : a ≡ target = ground arith in subst (λ x. has x targets ≡ true) (sym e) inside
  | inr other ↦ among (ground (arith, has-addresses_append a p b target v es))
]

indices-has : (xs : List ℕ) (a : ℕ) → has a xs ≡ true → has (find_lock a) (indices xs) ≡ true
indices-has [] a h = h
indices-has (x ∷ xs) a h = elim (Bool-cases (a == x)) [
  | inl same ↦
      let e : a ≡ x = ground arith in
      let lock : find_lock a ≡ find_lock x = ap find_lock e in ground arith
  | inr other ↦ let rest = indices-has xs a (ground arith) in ground arith
]

-- Two of the targets do not share a lock.
indices-injective :
    (targets : List ℕ) (a b : ℕ)
    → AllDistinct (indices targets)
    → has a targets ≡ true
    → has b targets ≡ true
    → find_lock a ≡ find_lock b
    → a ≡ b
indices-injective [] a b distinct ha hb same = cc
indices-injective (x ∷ xs) a b distinct ha hb same = elim (Bool-cases (a == x)) [
  | inl a_here ↦ elim (Bool-cases (b == x)) [
    | inl b_here ↦ ground arith
    | inr b_there ↦
        let e : a ≡ x = ground arith in
        let inside : has (find_lock b) (indices xs) ≡ true = indices-has xs b (ground arith) in
        let lock : find_lock x ≡ find_lock b = sym (ap find_lock e) ∙ same in
        absurd (cc (distinct.0, subst (λ i. has i (indices xs) ≡ true) (sym lock) inside))
  ]
  | inr a_there ↦ elim (Bool-cases (b == x)) [
    | inl b_here ↦
        let e : b ≡ x = ground arith in
        let inside : has (find_lock a) (indices xs) ≡ true = indices-has xs a (ground arith) in
        let lock : find_lock a ≡ find_lock x = same ∙ ap find_lock e in
        absurd (cc (distinct.0, subst (λ i. has i (indices xs) ≡ true) lock inside))
    | inr b_there ↦ indices-injective xs a b distinct.1 (ground arith) (ground arith) same
  ]
]

-- Distinct addresses among the targets have distinct locks.
has-indices :
    (targets xs : List ℕ) (a : ℕ)
    → AllDistinct (indices targets)
    → has a targets ≡ true
    → ((x : ℕ) → has x xs ≡ true → has x targets ≡ true)
    → has a xs ≡ false
    → has (find_lock a) (indices xs) ≡ false
has-indices targets [] a distinct inside among absent = refl
has-indices targets (x ∷ xs) a distinct inside among absent =
    let rest : has (find_lock a) (indices xs) ≡ false =
      has-indices targets xs a distinct inside (λ y h. among y (ground arith)) (ground arith) in
    let apart : find_lock a ≢ find_lock x = λ same.
      let e : a ≡ x = indices-injective targets a x distinct inside (among x (ground arith)) same in
      absurd (ground arith) in
    ground arith

pub distinct-indices :
    (targets xs : List ℕ)
    → AllDistinct (indices targets)
    → ((x : ℕ) → has x xs ≡ true → has x targets ≡ true)
    → AllDistinct xs
    → AllDistinct (indices xs)
distinct-indices targets [] distinct among apart = tt
distinct-indices targets (x ∷ xs) distinct among apart = (
  has-indices targets xs x distinct (among x (ground arith)) (λ y h. among y (ground arith))
      apart.0,
  distinct-indices targets xs distinct (λ y h. among y (ground arith)) apart.1,
)

pub can_take-distinct :
    (lock : SharedLock) (xs : List ℕ)
    → ((i : ℕ) → has i (indices xs) ≡ true → (lock.locks i).lock ≡ false)
    → AllDistinct (indices xs)
    → can_take lock xs ≡ true
can_take-distinct lock [] free distinct = refl
can_take-distinct lock (x ∷ xs) free distinct =
    let here : (lock_at lock x).lock ≡ false = free (find_lock x) (ground arith) in
    let rest : can_take (hold lock x) xs ≡ true =
      can_take-distinct (hold lock x) xs
        (λ i h.
          let ne : i ≢ find_lock x =
            λ e. absurd (cc (distinct.0, subst (λ i. has i (indices xs) ≡ true) e h)) in
          let old : (lock.locks i).lock ≡ false = free i (ground arith) in ground arith)
        distinct.1 in
    rw (here, rest)

pub length-overwritten :
    (target v : ℕ) (es : List Entry) → length (overwritten target v es) ≡ length es
unfolding overwritten
length-overwritten target v [] = refl
length-overwritten target v (e ∷ es) = elim (Bool-cases (e.address == target)) [
  | inl here ↦ rw here
  | inr there ↦ rw (there, length-overwritten target v es)
]
