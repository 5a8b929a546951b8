-- ===== src/Grading/Bank/Opening.antt =====
-- grading/workload.hpp: the first segment of accounts, as init_tx leaves it.
use cs453_concurrent_algorit.Base.{
  ℕ, zero, suc, ◌+◌, ◌*◌, ◌%◌, ◌<◌, ◌≡◌, ◌≢◌, refl, sym, ap, ◌∙◌, true, false, [], ◌∷◌, update,
  ◌==◌, arith,
}
use cs453_concurrent_algorit.Base.Word.{word_limit, mul64, is_negative}
use native.Mathlib.Nat.{mul_comm}
use cs453_concurrent_algorit.Heap.{null}
use cs453_concurrent_algorit.Grading.Program.{◌>>◌, returned, and_then}
use cs453_concurrent_algorit.Grading.Atomic.{Atomic, eval, eval->>=}
use cs453_concurrent_algorit.Grading.Transaction.{TransactionalMemory}
use cs453_concurrent_algorit.Grading.Shared.{
  word_size, bind, put, bind_pointer, bind_array, element, after, after_pointer,
}
use cs453_concurrent_algorit.Grading.Bank.{Bank, account_segment, long_tx}
use cs453_concurrent_algorit.Grading.Bank.Closures.{fill_accounts, init_tx}
use cs453_concurrent_algorit.Grading.Bank.Memory.{
  parity_of, accounts_of, Layout, Segments, number, money, solvent, total, all_solvent,
}
use cs453_concurrent_algorit.Grading.Bank.Audit.{long_tx_lem, audited}

-- The words once `rounds` accounts from `i` on hold `init`
abbrev filled : (init rounds accounts i : ℕ) → (ℕ → ℕ) → ℕ → ℕ
filled init zero accounts i g = g
filled init (suc rounds) accounts i g =
    filled init rounds accounts (i + 1) (update g (accounts + word_size * i) init)

filled-outside :
    (init rounds accounts i : ℕ) (g : ℕ → ℕ) (a : ℕ)
    → a < accounts + word_size * i
    → filled init rounds accounts i g a ≡ g a
filled-outside init zero accounts i g a below = refl
filled-outside init (suc rounds) accounts i g a below =
    filled-outside init rounds accounts (i + 1) _ a (omega arith) ∙ ground arith

filled-here :
    (init rounds accounts i : ℕ) (g : ℕ → ℕ)
    → filled init (suc rounds) accounts i g (accounts + word_size * i) ≡ init
filled-here init rounds accounts i g =
    filled-outside init rounds accounts (i + 1) _ (accounts + word_size * i) (omega arith)
    ∙ ground arith

filled-money :
    (init rounds accounts i : ℕ) (g : ℕ → ℕ)
    → money (filled init rounds accounts i g) rounds accounts i ≡ rounds * init
filled-money init zero accounts i g = omega arith
filled-money init (suc rounds) accounts i g = omega (
  arith,
  filled-here init rounds accounts i g,
  filled-money init rounds accounts (i + 1) (update g (accounts + word_size * i) init),
)

filled-solvent :
    (init rounds accounts i : ℕ) (g : ℕ → ℕ)
    → is_negative init ≡ false
    → solvent (filled init rounds accounts i g) rounds accounts i ≡ true
filled-solvent init zero accounts i g good = refl
filled-solvent init (suc rounds) accounts i g good = rw (
  filled-here init rounds accounts i g,
  good,
  filled-solvent init rounds accounts (i + 1) (update g (accounts + word_size * i) init) good,
)

same_test : (x y : ℕ) → x ≡ y → (x == y) ≡ true
same_test x y e = ground arith

module _ (b : Bank) (tm : TransactionalMemory) where
  fill_accounts_lem :
      {C : Type 0} (rounds accounts i : ℕ) (s : Atomic C)
      → eval (fill_accounts b tm rounds accounts i) s
        ≡ returned tt (record s { words = filled b.init_balance rounds accounts i s.words })
  unfolding eval fill_accounts element bind put
  fill_accounts_lem zero accounts i s = refl
  fill_accounts_lem (suc rounds) accounts i s = fill_accounts_lem rounds accounts (i + 1) _

  -- The words after init_tx
  abbrev pub opened : (ℕ → ℕ) → ℕ → ℕ
  opened g =
      filled b.init_balance b.nbaccounts (accounts_of tm.start_addr) 0
        (update g tm.start_addr b.nbaccounts)

  init_tx_lem :
      {C : Type 0} (s : Atomic C)
      → eval (init_tx b tm) s ≡ returned tt (record s { words = opened s.words })
  unfolding eval init_tx account_segment bind put bind_pointer bind_array after after_pointer
  init_tx_lem s = fill_accounts_lem b.nbaccounts (accounts_of tm.start_addr) 0 _

  -- The header of the first segment after init_tx
  opened-header :
      (g : ℕ → ℕ) (a : ℕ) → a < accounts_of tm.start_addr → a ≢ tm.start_addr → opened g a ≡ g a
  opened-header g a below ne =
      filled-outside b.init_balance b.nbaccounts (accounts_of tm.start_addr) 0 _ a (omega arith)
      ∙ ground arith

  opened-count : (g : ℕ → ℕ) → opened g tm.start_addr ≡ b.nbaccounts
  opened-count g =
      filled-outside b.init_balance b.nbaccounts (accounts_of tm.start_addr) 0 _ tm.start_addr
        (omega arith)
      ∙ ground arith

  opened-total :
      (g : ℕ → ℕ)
      → g (parity_of tm.start_addr) ≡ 0
      → total (opened g) ((tm.start_addr, b.nbaccounts) ∷ []) ≡ b.nbaccounts * b.init_balance
  opened-total g no_parity = omega (
    arith,
    opened-header g (parity_of tm.start_addr) (omega arith) (λ e. omega arith),
    no_parity,
    filled-money b.init_balance b.nbaccounts (accounts_of tm.start_addr) 0
        (update g tm.start_addr b.nbaccounts),
  )

  opened-Segments :
      (g : ℕ → ℕ)
      → tm.start_addr ≢ null
      → g (tm.start_addr + word_size) ≡ null
      → Segments (opened g) tm.start_addr ((tm.start_addr, b.nbaccounts) ∷ [])
  opened-Segments g real alone = (
    refl,
    real,
    opened-count g,
    opened-header g (tm.start_addr + word_size) (omega arith) (λ e. omega arith) ∙ alone,
  )

  opened-solvent :
      (g : ℕ → ℕ)
      → is_negative b.init_balance ≡ false
      → all_solvent (opened g) ((tm.start_addr, b.nbaccounts) ∷ []) ≡ true
  opened-solvent g good = rw (
      filled-solvent b.init_balance b.nbaccounts (accounts_of tm.start_addr) 0
        (update g tm.start_addr b.nbaccounts) good)

  agreed :
      (sum count : ℕ) (s : Atomic ℕ)
      → b.nbaccounts < word_limit
      → sum ≡ b.nbaccounts * b.init_balance
      → count ≡ b.nbaccounts
      → audited b tm true count sum s ≡ returned true (record s { captured = b.nbaccounts })
  agreed sum count s small e f =
      let kept : count % word_limit ≡ b.nbaccounts = omega arith in
      let answer : (sum % word_limit == mul64 b.init_balance (count % word_limit)) ≡ true =
        same_test _ _ (
          ap (λ k. k % word_limit) (e ∙ mul_comm b.nbaccounts b.init_balance)
          ∙ sym (ap (λ c. mul64 b.init_balance c) kept)) in
      ap (λ k. returned k (record s { captured = count % word_limit })) answer
      ∙ ap (λ c. returned true (record s { captured = c })) kept

  -- In a fresh memory, whose words are 0 where the first segment has its link and parity, the first
  -- transaction of init followed by long_tx answers true, with the number of accounts: the bank opens
  -- with the balances that its check asks for. The initial balance is not negative, and there are fewer
  -- than 2 ^ 64 accounts.
  pub long_tx-init_tx :
      (s : Atomic ℕ) (nbaccounts : ℕ)
      → tm.start_addr ≢ null
      → s.words (tm.start_addr + word_size) ≡ null
      → s.words (parity_of tm.start_addr) ≡ 0
      → is_negative b.init_balance ≡ false
      → b.nbaccounts < word_limit
      → eval (init_tx b tm >> long_tx b tm 2 nbaccounts) s
        ≡ returned true (record s { captured = b.nbaccounts; words = opened s.words })
  long_tx-init_tx s nbaccounts real alone no_parity good small =
      let layout : Layout = (tm.start_addr, b.nbaccounts) ∷ [] in
      let g : ℕ → ℕ = opened s.words in
      let s' : Atomic ℕ = record s { words = g } in
      eval->>= (init_tx b tm) (λ _. long_tx b tm 2 nbaccounts) s
      ∙ ap (λ o. and_then o (λ _. eval (long_tx b tm 2 nbaccounts))) (init_tx_lem s)
      ∙ long_tx_lem b tm 2 layout s' nbaccounts (opened-Segments s.words real alone) (omega arith)
      ∙ ap (λ all. audited b tm all (number layout) (total g layout) s')
          (opened-solvent s.words good)
      ∙ agreed (total g layout) (number layout) s' small (opened-total s.words no_parity)
          (omega arith)
