-- ===== src/Grading/Bank/Audit.antt =====
-- grading/workload.hpp: what long_tx answers for the segments that memory holds.
use cs453_concurrent_algorit.Base.{
  ℕ, zero, suc, ◌+◌, ◌*◌, ◌%◌, ◌<◌, ◌≡◌, ◌≢◌, refl, ap, ◌∙◌, Bool, true, false, not, Option, none,
  some, [], ◌∷◌, ◌&&◌, ◌==◌, if◌then◌else◌, length, arith, if_false,
}
use cs453_concurrent_algorit.Base.Word.{word_limit, add64, mul64, is_negative}
use cs453_concurrent_algorit.Heap.{Ptr, null}
use cs453_concurrent_algorit.Grading.Program.{Program, done, ◌>>=◌, Outcome, returned, and_then}
use cs453_concurrent_algorit.Grading.Atomic.{Atomic, eval, eval->>=}
use cs453_concurrent_algorit.Grading.Transaction.{TransactionalMemory}
use cs453_concurrent_algorit.Grading.Shared.{
  word_size, bind, get, bind_pointer, get_pointer, bind_array, element, after, after_pointer,
}
use cs453_concurrent_algorit.Grading.Bank.{
  Bank, account_segment, sum_accounts, sum_segments, if_some, judge, long_tx,
}
use cs453_concurrent_algorit.Grading.Bank.Memory.{
  parity_of, accounts_of, Layout, Segments, number, money, solvent, total, all_solvent, add64_mod,
}

abbrev pub some_if : {A : Type 0} → Bool → A → Option A
some_if true a = some a
some_if false a = none

module _ (b : Bank) (tm : TransactionalMemory) {C : Type 0} (s : Atomic C) where
  none_if_negative :
      {A : Type 0} (negative left : Bool) (a : A) (p : Program C (Option A))
      → eval p s ≡ returned (some_if left a) s
      → eval (if negative then done none else p) s ≡ returned (some_if (not negative && left) a) s
  unfolding eval
  none_if_negative true left a p h = refl
  none_if_negative false left a p h = h

  sum_accounts_lem :
      (rounds accounts i x : ℕ)
      → eval (sum_accounts b tm rounds accounts i (x % word_limit)) s
        ≡ returned
            (some_if
              (solvent s.words rounds accounts i)
              ((x + money s.words rounds accounts i) % word_limit))
            s
  unfolding eval sum_accounts element bind get
  sum_accounts_lem zero accounts i x = ap (λ y. returned (some y) s) (omega arith)
  sum_accounts_lem (suc rounds) accounts i x =
      let balance : ℕ = s.words (accounts + word_size * i) in
      let rest : ℕ = money s.words rounds accounts (i + 1) in
      none_if_negative (is_negative balance) (solvent s.words rounds accounts (i + 1)) _ _ (
        ap (λ y. eval (sum_accounts b tm rounds accounts (i + 1) y) s) (add64_mod x balance)
        ∙ sum_accounts_lem rounds accounts (i + 1) (x + balance)
        ∙ ap (λ y. returned (some_if (solvent s.words rounds accounts (i + 1)) y) s) (omega arith))

  -- The rest of the loop of long_tx, after a segment.
  abbrev add_rest : (fuel next count : ℕ) → Option ℕ → Program C (Option (ℕ × ℕ))
  add_rest fuel next count total =
      if_some b tm total (λ sum. get_pointer next >>= λ next. sum_segments b tm fuel next count sum)

  one_segment :
      (fuel next count : ℕ) (here there : Bool) (sum : ℕ) (end : ℕ × ℕ)
      → eval (sum_segments b tm fuel (s.words next) count sum) s ≡ returned (some_if there end) s
      → eval (add_rest fuel next count (some_if here sum)) s
        ≡ returned (some_if (here && there) end) s
  unfolding eval get_pointer
  one_segment fuel next count true there sum end h = h
  one_segment fuel next count false there sum end h = refl

  sum_segments-step :
      (fuel : ℕ) (p : Ptr) (n c x : ℕ)
      → p ≢ null
      → s.words p ≡ n
      → eval (sum_segments b tm (suc fuel) p (c % word_limit) (x % word_limit)) s
        ≡ and_then
            (eval
              (sum_accounts b tm n (accounts_of p) 0 ((x + s.words (parity_of p)) % word_limit))
              s)
            (λ sum. eval (add_rest fuel (p + word_size) ((c + n) % word_limit) sum))
  unfolding eval sum_segments account_segment bind get bind_pointer bind_array after after_pointer
  sum_segments-step fuel p n c x real counted =
      let fresh : (p == null) ≡ false = ground arith in
      let after : (n y k : ℕ) → Outcome (Atomic C) (Option (ℕ × ℕ)) = λ n y k.
        and_then (eval (sum_accounts b tm n (accounts_of p) 0 y) s)
          (λ sum. eval (add_rest fuel (p + word_size) k sum)) in
      let sum : ℕ = add64 (x % word_limit) (s.words (parity_of p)) in
      ap (λ p. eval p s) (if_false _ _ fresh)
      ∙ eval->>= (sum_accounts b tm (s.words p) (accounts_of p) 0 sum)
          (add_rest fuel (p + word_size) (add64 (c % word_limit) (s.words p))) s
      ∙ ap (λ n. after n sum (add64 (c % word_limit) n)) counted
      ∙ ap (λ y. after n y (add64 (c % word_limit) n)) (add64_mod x (s.words (parity_of p)))
      ∙ ap (λ k. after n ((x + s.words (parity_of p)) % word_limit) k) (add64_mod c n)

  abbrev summed : Option (ℕ × ℕ) → Outcome (Atomic C) (Option (ℕ × ℕ))
  summed sums = returned sums s

  same_sums :
      {c d x y : ℕ} (all : Bool)
      → c ≡ d
      → x ≡ y
      → summed (some_if all (c, x)) ≡ summed (some_if all (d, y))
  same_sums {d = d} {x = x} all e f =
      ap (λ c. summed (some_if all (c, x))) e ∙ ap (λ x. summed (some_if all (d, x))) f

  no_segments :
      (fuel c x : ℕ)
      → eval (sum_segments b tm (suc fuel) null (c % word_limit) (x % word_limit)) s
        ≡ returned (some ((c + 0) % word_limit, (x + 0) % word_limit)) s
  unfolding eval sum_segments
  no_segments fuel c x = same_sums true (omega arith) (omega arith)

  sum_segments_lem :
      (fuel : ℕ) (p : Ptr) (layout : Layout) (c x : ℕ)
      → Segments s.words p layout
      → length layout < fuel
      → eval (sum_segments b tm fuel p (c % word_limit) (x % word_limit)) s
        ≡ returned
            (some_if
              (all_solvent s.words layout)
              ((c + number layout) % word_limit, (x + total s.words layout) % word_limit))
            s
  sum_segments_lem zero p layout c x at enough = absurd (omega arith)
  sum_segments_lem (suc fuel) p [] c x at enough =
      ap (λ p. eval (sum_segments b tm (suc fuel) p (c % word_limit) (x % word_limit)) s) at
      ∙ no_segments fuel c x
  sum_segments_lem (suc fuel) p ((q, n) ∷ rest) c x (same, real, counted, more) enough =
      let g : ℕ → ℕ = s.words in
      let y : ℕ = x + g (parity_of q) + money g n (accounts_of q) 0 in
      ap (λ p. eval (sum_segments b tm (suc fuel) p (c % word_limit) (x % word_limit)) s) same
      ∙ sum_segments-step fuel q n c x real counted
      ∙ ap
          (λ o. and_then o (λ sum. eval (add_rest fuel (q + word_size) ((c + n) % word_limit) sum)))
          (sum_accounts_lem n (accounts_of q) 0 (x + g (parity_of q)))
      ∙ one_segment fuel (q + word_size) ((c + n) % word_limit) (solvent g n (accounts_of q) 0)
          (all_solvent g rest) (y % word_limit) _
          (sum_segments_lem fuel (g (q + word_size)) rest (c + n) y more (omega arith))
      ∙ same_sums _ (omega arith) (omega arith)

module _ (b : Bank) (tm : TransactionalMemory) where
  -- The audit of the segments: the number of accounts that is stored in the variable of the caller, and
  -- the answer.
  abbrev pub audited : (all_solvent : Bool) → (count sum : ℕ) → Atomic ℕ → Outcome (Atomic ℕ) Bool
  audited false count sum s = returned false s
  audited true count sum s =
      returned (sum % word_limit == mul64 b.init_balance (count % word_limit))
        (record s { captured = count % word_limit })

  judge_lem :
      (all : Bool) (count sum : ℕ) (s : Atomic ℕ)
      → eval (judge b tm (some_if all (count % word_limit, sum % word_limit))) s
        ≡ audited all count sum s
  unfolding eval
  judge_lem true count sum s = refl
  judge_lem false count sum s = refl

  -- In memory with linked segments, and with fuel above their number, long_tx ends and changes no memory. If
  -- an account is negative it answers false; otherwise it answers whether the sum of accounts and
  -- parities is the initial balance times the number of accounts, modulo 2 ^ 64, and stores this
  -- number, modulo 2 ^ 64, in its caller's variable.
  pub long_tx_lem :
      (fuel : ℕ) (layout : Layout) (s : Atomic ℕ) (nbaccounts : ℕ)
      → Segments s.words tm.start_addr layout
      → length layout < fuel
      → eval (long_tx b tm fuel nbaccounts) s
        ≡ audited (all_solvent s.words layout) (number layout) (total s.words layout) s
  unfolding long_tx
  long_tx_lem fuel layout s nbaccounts at enough =
      eval->>= (sum_segments b tm fuel tm.start_addr 0 0) (judge b tm) s
      ∙ ap (λ o. and_then o (λ r. eval (judge b tm r)))
          (sum_segments_lem b tm s fuel tm.start_addr layout 0 0 at enough
            ∙ same_sums b tm s (all_solvent s.words layout) (omega arith) (omega arith))
      ∙ judge_lem (all_solvent s.words layout) (number layout) (total s.words layout) s
