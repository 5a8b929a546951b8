-- ===== src/Grading/Bank/Workload.antt =====
-- `init`, `run` and `check` of class WorkloadBank in grading/workload.hpp, for one worker alone: a
-- barrier for one thread lets it pass at once.
--
-- The random numbers are a parameter: what the distributions draw from the state of the engine.
-- Fuel: `retries` for a transaction that aborts, `fuel` for the segments, and `tries` for a short
-- transaction that has hit no account.
use cs453_concurrent_algorit.Base.{ℕ, zero, suc, Bool, Option, none, some, if◌then◌else◌}
use cs453_concurrent_algorit.Base.Word.{sub64, mul64}
use cs453_concurrent_algorit.Heap.{Machine}
use cs453_concurrent_algorit.Interface.{Library}
use cs453_concurrent_algorit.Grading.Program.{
  Program, Outcome, returned, thrown, terminated, fault, out_of_fuel, Act, and_then,
}
use cs453_concurrent_algorit.Grading.Transaction.{
  TransactionalMemory, Caller, Mode, read_write, read_only, transactional,
}
use cs453_concurrent_algorit.Grading.Bank.{Bank, long_tx, alloc_tx, short_tx}
use cs453_concurrent_algorit.Grading.Bank.Closures.{
  init_tx, init_check_tx, set_counter, counter_is, get_counter, decrease,
}

-- The error messages, each a string constant of the source.
pub data Message : Type 0 where
  violated_visibility : Message
  violated_isolation : Message
  violated_initialization : Message
  violated_order : Message
  violated_consistency : Message

-- std::minstd_rand and the distributions of `run`, on the state of the engine.
pub record Dice : Type 0 where
  pub seeded : ℕ → ℕ
  pub long_dist : ℕ → Bool × ℕ
  pub alloc_dist : ℕ → Bool × ℕ
  pub alloc_trigger : ℕ → ℕ × ℕ
  pub account : (last : ℕ) → ℕ → ℕ × ℕ

infixl 5 ◌>>=◌ ◌>>◌
abbrev ◌>>=◌ : {A B : Type 0} → Act Machine A → (A → Act Machine B) → Act Machine B
c >>= k = λ m. and_then (c m) k

abbrev ◌>>◌ : {A B : Type 0} → Act Machine A → Act Machine B → Act Machine B
c >> k = c >>= λ _. k

abbrev pure : {A : Type 0} → A → Act Machine A
pure = returned

module _ (L : Library) (tm : TransactionalMemory) (local : ℕ) (retries : ℕ) where
  -- What a transaction leaves for its caller.
  abbrev leave : {C A : Type 0} → Outcome (Caller C) A → Outcome Machine (A × C)
  leave (returned a s) = returned (a, s.captured) s.machine
  leave (thrown e s) = thrown e s.machine
  leave terminated = terminated
  leave fault = fault
  leave out_of_fuel = out_of_fuel

  -- A transaction whose closure captures variables that hold `c`, which come back.
  unfoldable pub transact : {C A : Type 0} → Mode → (C → Program C A) → C → Act Machine (A × C)
  transact mode func c m =
      leave (transactional L tm local retries mode func (record { captured = c; machine = m }))

  -- A transaction whose closure changes no variable of its caller.
  abbrev pub transact_alone : {A : Type 0} → Mode → Program (Unit {0}) A → Act Machine A
  transact_alone mode p = transact mode (λ u. p) tt >>= λ (a, u). pure a

  module _ (b : Bank) (fuel : ℕ) where
    unfoldable pub init : Act Machine (Option Message)
    init = do
      transact_alone read_write (init_tx b tm)
      correct ← transact_alone read_only (init_check_tx b tm)
      pure (if correct then none else some violated_visibility)

    module _ (dice : Dice) where
      -- while (unlikely(!short_tx(account(engine), account(engine))));
      unfoldable pub short_txs : (tries count engine : ℕ) → Act Machine ℕ
      short_txs zero count engine = λ m. out_of_fuel
      short_txs (suc tries) count engine = do
        let (send_id, engine) = dice.account (sub64 count 1) engine
        let (recv_id, engine) = dice.account (sub64 count 1) engine
        (useful, ids) ← transact read_write (short_tx b tm fuel) (send_id, recv_id)
        if useful then pure engine else short_txs tries count engine

      -- The loop of run and the last long transaction, with the rounds left and `count`.
      unfoldable pub run_txs : (rounds tries count engine : ℕ) → Act Machine (Option Message)
      run_txs zero tries count engine = do
        (correct, dummy) ← transact read_only (long_tx b tm fuel) 0
        pure (if correct then none else some violated_isolation)
      run_txs (suc rounds) tries count engine = do
        let (is_long, engine) = dice.long_dist engine
        let (is_alloc, engine') = dice.alloc_dist engine
        let (trigger, engine'') = dice.alloc_trigger engine'
        let long = transact read_only (long_tx b tm fuel) count >>= λ (correct, count').
            if correct then run_txs rounds tries count' engine else pure (some violated_isolation)
        let resize = transact_alone read_write (alloc_tx b tm fuel trigger) >>= λ u.
            run_txs rounds tries count engine''
        let move = short_txs tries count engine' >>= λ engine. run_txs rounds tries count engine
        if is_long then long else if is_alloc then resize else move

      unfoldable pub run : (tries seed : ℕ) → Act Machine (Option Message)
      run tries seed = run_txs b.nbtxperwrk tries b.nbaccounts (dice.seeded seed)

    -- The loop of check and the last transaction, with the rounds left.
    unfoldable pub decrease_all : ℕ → Act Machine (Option Message)
    decrease_all zero = do
      correct ← transact_alone read_only (counter_is tm 0)
      pure (if correct then none else some violated_consistency)
    decrease_all (suc rounds) = do
      last ← transact_alone read_only (get_counter tm)
      correct ← transact_alone read_write (decrease tm last)
      if correct then decrease_all rounds else pure (some violated_order)

    -- With `nbtxperwrk` of check, which is 100 there.
    unfoldable pub check : (nbtxperwrk : ℕ) → Act Machine (Option Message)
    check nbtxperwrk = do
      let init_counter = mul64 nbtxperwrk b.nbworkers
      transact_alone read_write (set_counter tm init_counter)
      correct ← transact_alone read_only (counter_is tm init_counter)
      if correct then decrease_all nbtxperwrk else pure (some violated_initialization)
