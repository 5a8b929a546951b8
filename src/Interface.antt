-- ===== src/Interface.antt =====
-- include/tm.h and include/tm.hpp: what a transactional memory offers to the program that uses it.
--
-- A library is a record of its functions; an implementation fills it.
use cs453_concurrent_algorit.Base.{ℕ, Bool}
use cs453_concurrent_algorit.Heap.{Ptr, null, Cmd}

abbrev pub invalid_shared : Ptr
invalid_shared = null

-- `~((tx_t) 0)`
abbrev pub invalid_tx : ℕ
invalid_tx = 18446744073709551615

-- A success comes with `*target`.
pub data Alloc : Type 0 where
  success_alloc : Ptr → Alloc
  abort_alloc : Alloc
  nomem_alloc : Alloc

pub record Library : Type 0 where
  pub tm_create : (size align : ℕ) → Cmd Ptr
  pub tm_destroy : Ptr → Cmd (Unit {0})
  pub tm_start : Ptr → Cmd Ptr
  pub tm_size : Ptr → Cmd ℕ
  pub tm_align : Ptr → Cmd ℕ
  pub tm_begin : Ptr → Bool → Cmd ℕ
  pub tm_end : Ptr → ℕ → Cmd Bool
  pub tm_read : Ptr → ℕ → (source size target : ℕ) → Cmd Bool
  pub tm_write : Ptr → ℕ → (source size target : ℕ) → Cmd Bool
  pub tm_alloc : Ptr → ℕ → ℕ → Cmd Alloc
  pub tm_free : Ptr → ℕ → Ptr → Cmd Bool
