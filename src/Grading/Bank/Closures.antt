-- ===== src/Grading/Bank/Closures.antt =====
-- The closures of the transactions of `init` and `check` in grading/workload.hpp.
use cs453_concurrent_algorit.Base.{ℕ, zero, suc, ◌+◌, Bool, true, false, ltb, ◌==◌, if◌then◌else◌}
use cs453_concurrent_algorit.Base.Word.{sub64}
use cs453_concurrent_algorit.Grading.Program.{Program, done, ◌>>=◌, ◌>>◌}
use cs453_concurrent_algorit.Grading.Transaction.{TransactionalMemory}
use cs453_concurrent_algorit.Grading.Shared.{bind, get, put, element}
use cs453_concurrent_algorit.Grading.Bank.{Bank, account_segment}

module _ (tm : TransactionalMemory) {C : Type 0} where
  -- The transactions of `check`, on a counter in the first word
  unfoldable pub set_counter : ℕ → Program C (Unit {0})
  set_counter init_counter = do counter ← bind tm.alignment tm.start_addr; put counter init_counter

  unfoldable pub counter_is : ℕ → Program C Bool
  counter_is value = do
    counter ← bind tm.alignment tm.start_addr
    v ← get counter
    done (v == value)

  unfoldable pub get_counter : Program C ℕ
  get_counter = do counter ← bind tm.alignment tm.start_addr; get counter

  unfoldable pub decrease : (last : ℕ) → Program C Bool
  decrease last = do
    counter ← bind tm.alignment tm.start_addr
    value ← get counter
    if ltb last value then done false else (put counter (sub64 value 1) >> done true)

module _ (b : Bank) (tm : TransactionalMemory) {C : Type 0} where
  -- for (size_t i = 0; i < nbaccounts; ++i) segment.accounts[i] = init_balance;
  unfoldable pub fill_accounts : (rounds accounts i : ℕ) → Program C (Unit {0})
  fill_accounts zero accounts i = done tt
  fill_accounts (suc rounds) accounts i = do
    cell ← element tm.alignment accounts i
    put cell b.init_balance
    fill_accounts rounds accounts (i + 1)

  unfoldable pub init_tx : Program C (Unit {0})
  init_tx = do
    segment ← account_segment b tm tm.start_addr
    put segment.count b.nbaccounts
    fill_accounts b.nbaccounts segment.accounts 0

  unfoldable pub init_check_tx : Program C Bool
  init_check_tx = do
    segment ← account_segment b tm tm.start_addr
    cell ← element tm.alignment segment.accounts 0
    balance ← get cell
    done (balance == b.init_balance)
