-- ===== src/Grading/Bank/Accounts.antt =====
-- grading/workload.hpp: a write to one account, in segments that do not overlap.
use cs453_concurrent_algorit.Base.{
  ℕ, zero, suc, ◌+◌, ◌-◌, ◌*◌, ◌<◌, ◌≤◌, ◌≡◌, ◌≢◌, refl, sym, ◌∙◌, true, false, Option, none, some,
  [], ◌∷◌, ◌⊎◌, inl, inr, ltb, ◌==◌, if◌then◌else◌, update, subst, All, All-map, Bool-cases,
  if_true, if_false, arith,
}
use cs453_concurrent_algorit.Heap.{Ptr, null}
use cs453_concurrent_algorit.Grading.Shared.{word_size}
use cs453_concurrent_algorit.Grading.Bank.Memory.{
  parity_of, accounts_of, Layout, Segments, number, money, total,
}

-- The address of the account with an index
abbrev pub account_at : Layout → ℕ → Option Ptr
account_at [] id = none
account_at ((q, n) ∷ rest) id =
    let below = account_at rest (id - n) in
    if ltb id n then some (accounts_of q + word_size * id) else below

-- The address behind a segment
abbrev pub end_of : Ptr × ℕ → ℕ
end_of (q, n) = accounts_of q + word_size * n

abbrev Outside : ℕ → Ptr × ℕ → Type 0
Outside a (q, n) = (a < q) ⊎ (end_of (q, n) ≤ a)

abbrev OutsideHeader : ℕ → Ptr × ℕ → Type 0
OutsideHeader a (q, n) = (a < q) ⊎ (accounts_of q ≤ a)

-- No two segments overlap.
abbrev pub Apart : Layout → Type 0
Apart [] = Unit
Apart ((q, n) ∷ rest) = All (λ s. (end_of (q, n) ≤ s.0) ⊎ (end_of s ≤ q)) rest × Apart rest

module _ (g : ℕ → ℕ) (v : ℕ) where
  money-outside :
      (rounds accounts i a : ℕ)
      → (a < accounts + word_size * i) ⊎ (accounts + word_size * (i + rounds) ≤ a)
      → money (update g a v) rounds accounts i ≡ money g rounds accounts i
  money-outside zero accounts i a far = refl
  money-outside (suc rounds) accounts i a far =
      ground (arith, money-outside rounds accounts (i + 1) a)

  money-inside :
      (rounds accounts i id : ℕ)
      → i ≤ id
      → id < i + rounds
      → money (update g (accounts + word_size * id) v) rounds accounts i
          + g (accounts + word_size * id)
        ≡ money g rounds accounts i + v
  money-inside zero accounts i id low high = absurd (omega arith)
  money-inside (suc rounds) accounts i id low high = elim (Bool-cases (i == id)) [
    | inl e ↦ ground (arith, money-outside rounds accounts (i + 1) (accounts + word_size * id))
    | inr e ↦ ground (arith, money-inside rounds accounts (i + 1) id)
  ]

  total-Outside :
      (layout : Layout) (a : ℕ)
      → All (Outside a) layout
      → total (update g a v) layout ≡ total g layout
  total-Outside [] a far = refl
  total-Outside ((q, n) ∷ rest) a (here, there) =
      ground (arith, money-outside n (accounts_of q) 0 a, total-Outside rest a there)

-- The segment that an account is found in.
account_at-inside :
    {Q : Ptr × ℕ → Type 0} (layout : Layout) (id a : ℕ)
    → All Q layout
    → account_at layout id ≡ some a
    → (s : Ptr × ℕ) × Q s × (accounts_of s.0 ≤ a) × (a < end_of s)
account_at-inside [] id a all e = cc
account_at-inside ((q, n) ∷ rest) id a (here, there) e = elim (Bool-cases (ltb id n)) [
  | inl f ↦
      let address : accounts_of q + word_size * id ≡ a = ground (arith) in
      ((q, n), here, omega arith, ground arith)
  | inr f ↦ account_at-inside rest (id - n) a there (sym (if_false _ _ f) ∙ e)
]

-- An account of one segment is outside those that the segment is apart from.
account-Outside :
    (q n a : ℕ) (rest : Layout)
    → (accounts_of q ≤ a) × (a < end_of (q, n))
    → All (λ s. (end_of (q, n) ≤ s.0) ⊎ (end_of s ≤ q)) rest
    → All (Outside a) rest
account-Outside q n a rest inside apart = All-map (λ s far. ground arith) rest apart

rest-Outside :
    (q n id a : ℕ) (rest : Layout)
    → All (λ s. (end_of (q, n) ≤ s.0) ⊎ (end_of s ≤ q)) rest
    → account_at rest id ≡ some a
    → Outside a (q, n)
rest-Outside q n id a rest apart e =
    let (s, far, low, high) = account_at-inside rest id a apart e in ground arith

module _ (g : ℕ → ℕ) (v : ℕ) where
  -- A write to an account changes the total by the difference.
  pub total-update :
      (layout : Layout) (id a : ℕ)
      → Apart layout
      → account_at layout id ≡ some a
      → total (update g a v) layout + g a ≡ total g layout + v
  total-update [] id a apart e = cc
  total-update ((q, n) ∷ rest) id a (here, there) e = elim (Bool-cases (ltb id n)) [
    | inl f ↦
        let address : accounts_of q + word_size * id ≡ a = ground arith in
        let far : All (Outside a) rest = account-Outside q n a rest (ground arith) here in
        let same : total (update g a v) rest ≡ total g rest = total-Outside g v rest a far in
        let moved : money (update g (accounts_of q + word_size * id) v) n (accounts_of q) 0
              + g (accounts_of q + word_size * id)
            ≡ money g n (accounts_of q) 0 + v =
          money-inside g v n (accounts_of q) 0 id (omega arith) (ground arith) in
        let moved' : money (update g a v) n (accounts_of q) 0 + g a
            ≡ money g n (accounts_of q) 0 + v =
          subst
            (λ a. money (update g a v) n (accounts_of q) 0 + g a ≡ money g n (accounts_of q) 0 + v)
            address moved in
        let parity : update g a v (parity_of q) ≡ g (parity_of q) = ground arith in
        omega (arith, parity, moved', same)
    | inr f ↦
        let later : account_at rest (id - n) ≡ some a = sym (if_false _ _ f) ∙ e in
        let far : Outside a (q, n) = rest-Outside q n (id - n) a rest here later in
        let parity : update g a v (parity_of q) ≡ g (parity_of q) = ground arith in
        let same : money (update g a v) n (accounts_of q) 0 ≡ money g n (accounts_of q) 0 =
          money-outside g v n (accounts_of q) 0 a (ground arith) in
        omega (arith, parity, same, total-update rest (id - n) a there later)
  ]

-- An account is no word of the header of a segment.
account-headers :
    (layout : Layout) (id a : ℕ)
    → Apart layout
    → account_at layout id ≡ some a
    → All (OutsideHeader a) layout
account-headers [] id a apart e = tt
account-headers ((q, n) ∷ rest) id a (here, there) e = elim (Bool-cases (ltb id n)) [
  | inl f ↦
      let address : accounts_of q + word_size * id ≡ a = ground arith in
      (
        inr (omega arith),
        All-map (λ s far. ground arith) rest (account-Outside q n a rest (ground arith) here),
      )
  | inr f ↦
      let later : account_at rest (id - n) ≡ some a = sym (if_false _ _ f) ∙ e in
      let far : Outside a (q, n) = rest-Outside q n (id - n) a rest here later in
      (ground arith, account-headers rest (id - n) a there later)
]

Segments-outside :
    (g : ℕ → ℕ) (v a p : ℕ) (layout : Layout)
    → All (OutsideHeader a) layout
    → Segments g p layout
    → Segments (update g a v) p layout
Segments-outside g v a p [] far at = at
Segments-outside g v a p ((q, n) ∷ rest) (here, there) (same, real, counted, more) =
    let count : update g a v q ≡ g q = ground arith in
    let link : update g a v (q + word_size) ≡ g (q + word_size) = ground arith in
    (
      same,
      real,
      count ∙ counted,
      subst (λ p. Segments (update g a v) p rest) (sym link)
          (Segments-outside g v a (g (q + word_size)) rest there more),
    )

-- A write to an account leaves the segments linked.
pub Segments-update :
    (g : ℕ → ℕ) (v p : ℕ) (layout : Layout) (id a : ℕ)
    → Apart layout
    → account_at layout id ≡ some a
    → Segments g p layout
    → Segments (update g a v) p layout
Segments-update g v p layout id a apart e at =
    Segments-outside g v a p layout (account-headers layout id a apart e) at

pub account_at-real : (layout : Layout) (id a : ℕ) → account_at layout id ≡ some a → a ≢ null
account_at-real [] id a e = cc
account_at-real ((q, n) ∷ rest) id a e = elim (Bool-cases (ltb id n)) [
  | inl f ↦ ground arith
  | inr f ↦ account_at-real rest (id - n) a (sym (if_false _ _ f) ∙ e)
]

-- An account exists when its index is below the number of accounts.
account_at-some :
    (layout : Layout) (id : ℕ) → id < number layout → (a : Ptr) × (account_at layout id ≡ some a)
account_at-some [] id below = absurd (omega arith)
account_at-some ((q, n) ∷ rest) id below = elim (Bool-cases (ltb id n)) [
  | inl f ↦ (accounts_of q + word_size * id, if_true _ _ f)
  | inr f ↦ let (a, e) = account_at-some rest (id - n) (ground arith) in (a, if_false _ _ f ∙ e)
]

account_at-none : (layout : Layout) (id : ℕ) → number layout ≤ id → account_at layout id ≡ none
account_at-none [] id above = refl
account_at-none ((q, n) ∷ rest) id above = ground (arith, account_at-none rest (id - n))

pub account_at-cases :
    (layout : Layout) (id : ℕ)
    → ((a : Ptr) × (ltb id (number layout) ≡ true) × (account_at layout id ≡ some a))
      ⊎ ((ltb id (number layout) ≡ false) × (account_at layout id ≡ none))
account_at-cases layout id = elim (Bool-cases (ltb id (number layout))) [
  | inl f ↦ let (a, e) = account_at-some layout id (ground arith) in inl (a, f, e)
  | inr f ↦ inr (f, account_at-none layout id (ground arith))
]
