-- ===== src/Grading/Bank/Tests.antt =====
-- Tests of grading/workload.hpp: a bank of three accounts in two segments.
use cs453_concurrent_algorit.Base.{ℕ, ◌≡◌, refl, true, [], ◌∷◌, ◌==◌, inl, if◌then◌else◌, arith}
use cs453_concurrent_algorit.Grading.Program.{◌>>◌, Outcome, returned}
use cs453_concurrent_algorit.Grading.Atomic.{Atomic, eval}
use cs453_concurrent_algorit.Grading.Transaction.{TransactionalMemory}
use cs453_concurrent_algorit.Grading.Bank.{
  Bank, account_segment, locate, find_accounts, transfer, long_tx, short_tx,
}
use cs453_concurrent_algorit.Grading.Shared.{
  bind, get, put, bind_pointer, get_pointer, bind_array, after, after_pointer,
}
use cs453_concurrent_algorit.Grading.Bank.Memory.{Layout}
use cs453_concurrent_algorit.Grading.Bank.Audit.{long_tx_lem}
use cs453_concurrent_algorit.Grading.Bank.Closures.{init_tx}
use cs453_concurrent_algorit.Grading.Bank.Opening.{opened, long_tx-init_tx}
use cs453_concurrent_algorit.Grading.Bank.Transfers.{Conserves, short_tx_lem}

abbrev bank : Bank
bank = record { nbworkers = 1; nbtxperwrk = 10; nbaccounts = 2; init_balance = 100 }

abbrev memory : TransactionalMemory
memory = record { shared = 16; start_addr = 200; start_size = 40; alignment = 8 }

-- Two accounts with 100 and 90 in the first segment, one with 110 in the second.
abbrev words : ℕ → ℕ
words a =
    if a == 200
    then 2
    else if a == 208
    then 400
    else if a == 224
    then 100
    else if a == 232
    then 90
    else if a == 400
    then 1
    else if a == 424
    then 110
    else 0

abbrev layout : Layout
layout = (200, 2) ∷ (400, 1) ∷ []

abbrev for_long : Atomic ℕ
for_long = record { captured = 0; words = words; fresh = [] }

abbrev for_short : Atomic (ℕ × ℕ)
for_short = record { captured = (1, 2); words = words; fresh = [] }

long_tx_lem_example :
    eval (long_tx bank memory 3 0) for_long ≡ returned true (record for_long { captured = 3 })
long_tx_lem_example =
    long_tx_lem bank memory 3 layout for_long 0
      (refl, (λ e. omega arith), refl, (refl, (λ e. omega arith), refl, refl)) (omega arith)

short_tx_lem_example :
    Conserves bank memory (eval (short_tx bank memory 2 (1, 2)) for_short) true 200 layout words
short_tx_lem_example =
    short_tx_lem bank memory 2 layout for_short 1 2
      (refl, (λ e. omega arith), refl, (refl, (λ e. omega arith), refl, refl))
      ((inl (omega arith), tt), (tt, tt)) (λ e. omega arith) (omega arith) (omega arith)
      (omega arith)

-- Memory of zeros
abbrev blank : Atomic ℕ
blank = record { captured = 0; words = λ a. 0; fresh = [] }

long_tx-init_tx_example :
    eval (init_tx bank memory >> long_tx bank memory 2 0) blank
    ≡ returned true (record blank { captured = 2; words = opened bank memory blank.words })
long_tx-init_tx_example =
    long_tx-init_tx bank memory blank 0 (λ e. omega arith) refl refl refl (omega arith)

-- What a computation leaves in the variables that its closure captures
abbrev indices : {A : Type 0} → Outcome (Atomic (ℕ × ℕ)) A → ℕ × ℕ → ℕ × ℕ
indices (returned a s) given = s.captured
indices _ given = given

-- The closure changes the indices of its caller: a second run of it, after an abort, would give the unit
-- to account 0 and not to account 2.
indices-short_tx : indices (eval (short_tx bank memory 2 (1, 2)) for_short) (1, 2) ≡ (1, 0)
unfolding eval short_tx find_accounts account_segment locate transfer bind get put bind_pointer
    get_pointer bind_array after after_pointer
indices-short_tx = refl
