-- ===== src/Grading/Bank.antt =====
-- Class WorkloadBank of grading/workload.hpp: accounts in linked segments of shared memory, and the
-- transactions that move money between them, open and close them, and check their sum.
--
-- `size_t` and `Balance`, which is `intptr_t`, are 64-bit words. A loop over the segments takes fuel,
-- one more than the segments; a loop over the accounts of one has the rounds left.
mod Tests
pub mod Closures
pub mod Workload
pub mod Memory
pub mod Audit
mod Accounts
mod Opening
mod Lookup
mod Transfers
use cs453_concurrent_algorit.Base.{
  ℕ, zero, suc, ◌+◌, ◌*◌, Bool, true, false, not, Option, none, some, ltb, ◌==◌, ◌&&◌, ◌||◌,
  if◌then◌else◌,
}
use cs453_concurrent_algorit.Base.Word.{add64, sub64, mul64, is_negative, is_positive}
use cs453_concurrent_algorit.Heap.{Ptr, null}
use cs453_concurrent_algorit.Grading.Program.{
  assert_mode, transaction_not_last_segment, Program, done, assign, stuck, throw_if, ◌>>=◌, ◌>>◌,
}
use cs453_concurrent_algorit.Grading.Transaction.{TransactionalMemory}
use cs453_concurrent_algorit.Grading.Shared.{
  word_size, bind, get, put, bind_pointer, get_pointer, alloc_pointer, free_pointer, bind_array,
  element, after, after_pointer,
}

pub record Bank : Type 0 where
  pub nbworkers : ℕ
  pub nbtxperwrk : ℕ
  pub nbaccounts : ℕ
  pub init_balance : ℕ

-- The addresses of the fields of a segment
pub record AccountSegment : Type 0 where
  pub count : ℕ
  pub next : ℕ
  pub parity : ℕ
  pub accounts : ℕ

-- `sizeof(Dummy)` is 24.
unfoldable pub segment_size : ℕ → ℕ
segment_size nbaccounts = 24 + nbaccounts * word_size

unfoldable pub segment_align : ℕ
segment_align = 8

module _ (b : Bank) (tm : TransactionalMemory) where
  module _ {C : Type 0} where
    unfoldable pub account_segment : Ptr → Program C AccountSegment
    account_segment address = do
      count ← bind tm.alignment address
      next ← bind_pointer tm.alignment (after count)
      parity ← bind tm.alignment (after_pointer next)
      accounts ← bind_array tm.alignment (after parity)
      done (record { count = count; next = next; parity = parity; accounts = accounts })

    -- The sum with the accounts from `i` on, or none if one is negative.
    unfoldable pub sum_accounts : (rounds accounts i sum : ℕ) → Program C (Option ℕ)
    sum_accounts zero accounts i sum = done (some sum)
    sum_accounts (suc rounds) accounts i sum = do
      cell ← element tm.alignment accounts i
      balance ← get cell
      if is_negative balance
          then done none
          else sum_accounts rounds accounts (i + 1) (add64 sum balance)

    abbrev pub if_some :
        {A B : Type 0} → Option A → (A → Program C (Option B)) → Program C (Option B)
    if_some none k = done none
    if_some (some a) k = k a

    -- The loop of long_tx: the number of accounts and the sum, or none.
    unfoldable pub sum_segments : (fuel : ℕ) → Ptr → (count sum : ℕ) → Program C (Option (ℕ × ℕ))
    sum_segments zero start count sum = stuck
    sum_segments (suc fuel) start count sum = if start == null then done (some (count, sum)) else do
      segment ← account_segment start
      segment_count ← get segment.count
      parity ← get segment.parity
      total ← sum_accounts segment_count segment.accounts 0 (add64 sum parity)
      if_some total (λ sum. get_pointer segment.next >>= λ next.
          sum_segments fuel next (add64 count segment_count) sum)

  -- `nbaccounts = count; return sum == static_cast<Balance>(init_balance * count);`
  abbrev pub judge : Option (ℕ × ℕ) → Program ℕ Bool
  judge none = done false
  judge (some (count, sum)) = assign count (done (sum == mul64 b.init_balance count))

  -- The closure of long_tx; the variable `nbaccounts` of its caller is captured.
  unfoldable pub long_tx : (fuel : ℕ) → ℕ → Program ℕ Bool
  long_tx fuel nbaccounts = sum_segments fuel tm.start_addr 0 0 >>= judge

  module _ {C : Type 0} where
    -- The end of alloc_tx in the last segment, when an account is removed.
    unfoldable pub remove_account :
        (prev : Ptr) → AccountSegment → (segment_count : ℕ) → Program C (Unit {0})
    remove_account prev segment segment_count = do
      let left = sub64 segment_count 1
      parity ← get segment.parity
      cell ← element tm.alignment segment.accounts left
      balance ← get cell
      let new_parity = sub64 (add64 parity balance) b.init_balance
      if ltb 0 left then (put segment.count left >> put segment.parity new_parity) else (do
        throw_if (assert_mode && prev == null) transaction_not_last_segment
        prev_segment ← account_segment prev
        free_pointer prev_segment.next
        prev_parity ← get prev_segment.parity
        put prev_segment.parity (add64 prev_parity new_parity))

    -- The end of alloc_tx in the last segment, when an account is added.
    unfoldable pub add_account : AccountSegment → (segment_count : ℕ) → Program C (Unit {0})
    add_account segment segment_count =
        if ltb segment_count b.nbaccounts
        then (do
          cell ← element tm.alignment segment.accounts segment_count
          put cell b.init_balance
          put segment.count (add64 segment_count 1))
        else (do
          address ← alloc_pointer segment.next (segment_size b.nbaccounts)
          next_segment ← account_segment address
          put next_segment.count 1
          cell ← element tm.alignment next_segment.accounts 0
          put cell b.init_balance)

    -- The loop of alloc_tx.
    unfoldable pub alloc_segments :
        (fuel trigger : ℕ) → (start prev : Ptr) → (count : ℕ) → Program C (Unit {0})
    alloc_segments zero trigger start prev count = stuck
    alloc_segments (suc fuel) trigger start prev count = do
      segment ← account_segment start
      segment_count ← get segment.count
      let seen = add64 count segment_count
      next ← get_pointer segment.next
      let more = alloc_segments fuel trigger next start seen
      let last =
          if ltb trigger seen && ltb 2 seen
          then remove_account prev segment segment_count
          else add_account segment segment_count
      if next == null then last else more

    unfoldable pub alloc_tx : (fuel trigger : ℕ) → Program C (Unit {0})
    alloc_tx fuel trigger = alloc_segments fuel trigger tm.start_addr null 0

  -- The pointer to an account that is not found yet, and the index that is left.
  unfoldable pub locate : Ptr → (id segment_count accounts : ℕ) → Ptr × ℕ
  locate ptr id segment_count accounts =
      if ptr == null
      then (if ltb id segment_count
          then (accounts + word_size * id, id)
          else (null, sub64 id segment_count))
      else (ptr, id)

  -- Whether `locate` has just found the account.
  abbrev pub found : Ptr → (id segment_count : ℕ) → Bool
  found ptr id segment_count = ptr == null && ltb id segment_count

  -- The loop of short_tx; the indices, which it changes, are captured. None if an account is missing.
  unfoldable pub find_accounts :
      (fuel : ℕ)
      → (start send_ptr recv_ptr : Ptr) → (send_id recv_id : ℕ)
      → Program (ℕ × ℕ) (Option (Ptr × Ptr))
  find_accounts zero start send_ptr recv_ptr send_id recv_id = stuck
  find_accounts (suc fuel) start send_ptr recv_ptr send_id recv_id = do
    segment ← account_segment start
    segment_count ← get segment.count
    let (sender, send_left) = locate send_ptr send_id segment_count segment.accounts
    assign (send_left, recv_id) (done tt)
    if found send_ptr send_id segment_count && not (recv_ptr == null)
        then done (some (sender, recv_ptr))
        else (do
          let (recver, recv_left) = locate recv_ptr recv_id segment_count segment.accounts
          assign (send_left, recv_left) (done tt)
          if found recv_ptr recv_id segment_count && not (sender == null)
              then done (some (sender, recver))
              else (do
                next ← get_pointer segment.next
                if next == null
                    then done none
                    else find_accounts fuel next sender recver send_left recv_left))

  -- `Transfer the money if enough fund`
  unfoldable pub transfer : (send_ptr recv_ptr : Ptr) → Program (ℕ × ℕ) Bool
  transfer send_ptr recv_ptr = do
    sender ← bind tm.alignment send_ptr
    recver ← bind tm.alignment recv_ptr
    send_val ← get sender
    if is_positive send_val
        then (do
          put sender (sub64 send_val 1)
          recv_val ← get recver
          put recver (add64 recv_val 1))
        else done tt
    done true

  abbrev pub transfer_found : Option (Ptr × Ptr) → Program (ℕ × ℕ) Bool
  transfer_found none = done false
  transfer_found (some (send_ptr, recv_ptr)) = transfer send_ptr recv_ptr

  -- The closure of short_tx.
  unfoldable pub short_tx : (fuel : ℕ) → ℕ × ℕ → Program (ℕ × ℕ) Bool
  short_tx fuel (send_id, recv_id) =
      find_accounts fuel tm.start_addr null null send_id recv_id >>= transfer_found
