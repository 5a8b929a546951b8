-- ===== src/Grading/Counting.antt =====
-- Counting the threads whose local state passes a test, for the counters that threads of the grading
-- program share.
use cs453_concurrent_algorit.Base.{
  ℕ, zero, suc, ◌+◌, ◌<◌, ◌≤◌, ◌≡◌, ◌≢◌, refl, sym, ap, ◌∙◌, Bool, true, false, update, ◌==◌,
  Bool-cases, inl, inr, arith, subst, update_ind,
}

abbrev pub one_if : Bool → ℕ
one_if true = 1
one_if false = 0

abbrev pub count {ℓ} : {A : Type ℓ} → (A → Bool) → ℕ → (ℕ → A) → ℕ
count counted zero local = 0
count counted (suc n) local = one_if (counted (local n)) + count counted n local

module _ {ℓ} {A : Type ℓ} (counted : A → Bool) where
  count-far :
      (n : ℕ) (local : ℕ → A) (i : ℕ) (y : A)
      → n ≤ i
      → count counted n (update local i y) ≡ count counted n local
  count-far zero local i y far = refl
  count-far (suc n) local i y far = ground (arith, count-far n local i y)

  pub count-update :
      (n : ℕ) (local : ℕ → A) (i : ℕ) (y : A)
      → i < n
      → count counted n (update local i y) + one_if (counted (local i))
        ≡ count counted n local + one_if (counted y)
  count-update zero local i y below = absurd (omega arith)
  count-update (suc n) local i y below = elim (Bool-cases (n == i)) [
    | inl e ↦ ground (arith, count-far n local i y)
    | inr e ↦ ground (arith, count-update n local i y)
  ]

  pub count-bound : (n : ℕ) (local : ℕ → A) → count counted n local ≤ n
  count-bound zero local = omega arith
  count-bound (suc n) local = ground (arith, count-bound n local)

  pub count-full :
      (n : ℕ) (local : ℕ → A) (j : ℕ) → count counted n local ≡ n → j < n → counted (local j) ≡ true
  count-full zero local j full below = absurd (omega arith)
  count-full (suc n) local j full below = ground (arith, count-bound n local, count-full n local j)

  pub count-none :
      (n : ℕ) (local : ℕ → A) (j : ℕ)
      → count counted n local ≡ 0
      → j < n
      → counted (local j) ≡ false
  count-none zero local j none below = absurd (omega arith)
  count-none (suc n) local j none below = ground (arith, count-none n local j)

  pub count-positive :
      (n : ℕ) (local : ℕ → A) (j : ℕ) → counted (local j) ≡ true → j < n → 0 < count counted n local
  count-positive zero local j e below = absurd (omega arith)
  count-positive (suc n) local j e below = ground (arith, count-positive n local j e)

  -- No thread is counted.
  pub count-zero :
      (n : ℕ) (local : ℕ → A)
      → ((j : ℕ) → j < n → counted (local j) ≡ false)
      → count counted n local ≡ 0
  count-zero zero local none = refl
  count-zero (suc n) local none =
      let rest = count-zero n local (λ j inside. none j (omega arith)) in
      let one : one_if (counted (local n)) ≡ 0 = ap one_if (none n (omega arith)) in omega arith

  pub count-moved :
      (n : ℕ) (local : ℕ → A) (i : ℕ) (x y : A)
      → i < n
      → x ≡ local i
      → count counted n (update local i y) + one_if (counted x)
        ≡ count counted n local + one_if (counted y)
  count-moved n local i x y below is_x =
      subst
        (λ x.
          count counted n (update local i y) + one_if (counted x)
          ≡ count counted n local + one_if (counted y))
        (sym is_x) (count-update n local i y below)

  -- A thread that is not counted, and one that is
  pub count-missing :
      (n : ℕ) (local : ℕ → A)
      → count counted n local < n
      → (j : ℕ) × (j < n) × (counted (local j) ≡ false)
  count-missing zero local few = absurd (omega arith)
  count-missing (suc n) local few = elim (Bool-cases (counted (local n))) [
    | inr e ↦ (n, omega arith, e)
    | inl e ↦
        let one : one_if (counted (local n)) ≡ 1 = ap one_if e in
        let (j, inside, f) = count-missing n local (omega arith) in (j, omega arith, f)
  ]

  pub count-some :
      (n : ℕ) (local : ℕ → A)
      → 0 < count counted n local
      → (j : ℕ) × (j < n) × (counted (local j) ≡ true)
  count-some zero local some_in = absurd (omega arith)
  count-some (suc n) local some_in = elim (Bool-cases (counted (local n))) [
    | inl e ↦ (n, omega arith, e)
    | inr e ↦
        let none : one_if (counted (local n)) ≡ 0 = ap one_if e in
        let (j, inside, f) = count-some n local (omega arith) in (j, omega arith, f)
  ]

  -- All threads but one are counted.
  pub count-others :
      (n : ℕ) (local : ℕ → A) (i : ℕ) (y : A)
      → count counted n local + 1 ≡ n
      → i < n
      → counted (local i) ≡ false
      → counted y ≡ true
      → (j : ℕ) → j ≢ i
      → j < n
      → counted (local j) ≡ true
  count-others n local i y all_but below e k j ne inside =
      let one : one_if (counted y) ≡ 1 = ap one_if k in
      let zero : one_if (counted (local i)) ≡ 0 = ap one_if e in
      let full : count counted n (update local i y) ≡ n =
        omega (arith, count-update n local i y below) in
      let same : update local i y j ≡ local j = ground arith in
      ap counted (sym same) ∙ count-full n (update local i y) j full inside

module _ {ℓ} {A : Type ℓ} (n : ℕ) (local : ℕ → A) (i : ℕ) where
  -- All threads, by the one that has moved and the others
  pub everyone :
      (P : A → Type 0) (y : A)
      → P y
      → ((j : ℕ) → j ≢ i → j < n → P (local j))
      → (j : ℕ) → j < n
      → P (update local i y j)
  everyone P y here there = update_ind (λ j x. j < n → P x) local i (λ _. here) there

  pub others :
      (P : A → Type 0) (y : A)
      → ((j : ℕ) → j ≢ i → j < n → P (local j))
      → (j : ℕ) → j ≢ i
      → j < n
      → P (update local i y j)
  others P y there =
      update_ind (λ j x. j ≢ i → j < n → P x) local i (λ ne. absurd (ne refl))
        (λ j ne _. there j ne)

  pub moved : (y : A) → update local i y i ≡ y
  moved y = ground arith

-- All threads but `o` are known, and `o` too.
pub with_one {ℓ} :
    {A : Type ℓ} (Q : A → Type 0) (local : ℕ → A) (o j : ℕ)
    → Q (local o)
    → (j ≢ o → Q (local j))
    → Q (local j)
with_one Q local o j here there = elim (Bool-cases (o == j)) [
  | inl e ↦ let same : o ≡ j = ground arith in subst (λ j. Q (local j)) same here
  | inr e ↦ there (ground arith)
]
