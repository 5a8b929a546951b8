-- ===== src/Alone.antt =====
-- 335740/tm.c as a library under `transactional` of grading/transactional.hpp, when no other thread
-- runs.
mod Kept
mod Read
mod Words
mod Objects
mod Calls
mod Run
mod Commit
pub mod Effect
pub mod Agreement
mod Tests
use cs453_concurrent_algorit.Base.{ℕ}
use cs453_concurrent_algorit.Interface.{Library}
use cs453_concurrent_algorit.Tm.{
  tm_create, tm_destroy, tm_start, tm_size, tm_align, tm_begin, tm_end, tm_read, tm_write, tm_alloc,
  tm_free,
}

-- With `words` rounds for the loops over words, and `fuel` for those over nodes
abbrev pub tl2 : (words fuel : ℕ) → Library
tl2 words fuel = record {
  tm_create = tm_create;
  tm_destroy = tm_destroy fuel;
  tm_start = tm_start;
  tm_size = tm_size;
  tm_align = tm_align;
  tm_begin = tm_begin;
  tm_end = tm_end fuel;
  tm_read = tm_read words fuel;
  tm_write = tm_write words fuel;
  tm_alloc = tm_alloc;
  tm_free = tm_free;
}
