-- ===== src/Heap.antt =====
-- Memory of 335740/ and reference/: the objects that malloc and posix_memalign hand out, and the words of shared
-- and private buffers.
--
-- An object is a cell at the address of its first byte. `supply` lists the addresses that the next
-- allocations return, NULL for a failure; an empty list is a memory that is exhausted for good.
-- Fresh memory holds `junk`. Following NULL, or a pointer to no object of the right type, is a fault.
pub mod Laws
use cs453_concurrent_algorit.Base.{
  ℕ, zero, suc, Bool, true, false, Option, none, some, List, [], ◌∷◌, ◌==◌, if◌then◌else◌, update,
  leb, ltb, ◌&&◌, ◌+◌,
}
use cs453_concurrent_algorit.SharedLock.{SharedLock}

abbrev pub Ptr : Type 0
Ptr = ℕ

abbrev pub null : Ptr
null = 0

-- `struct read_node`
pub record ReadNode : Type 0 where
  pub address : ℕ
  pub next : Ptr

-- `struct write_node`
pub record WriteNode : Type 0 where
  pub address : ℕ
  pub value : Ptr
  pub next : Ptr

-- `struct transaction`
pub record Transaction : Type 0 where
  pub is_ro : Bool
  pub rv : ℕ
  pub first_read_node : Ptr
  pub last_read_node : Ptr
  pub first_write_node : Ptr
  pub last_write_node : Ptr

-- `struct segment_node`
pub record SegmentNode : Type 0 where
  pub prev : Ptr
  pub next : Ptr

-- `struct region`
pub record Region : Type 0 where
  pub lock : SharedLock
  pub start : Ptr
  pub allocs : Ptr
  pub size : ℕ
  pub align : ℕ

-- `struct region` of reference/tm.c; `lock` is what a pthread_rwlock_t holds
pub record ReferenceRegion : Type 0 where
  pub lock : ℕ
  pub start : Ptr
  pub allocs : Ptr
  pub size : ℕ
  pub align : ℕ

pub data Cell : Type 0 where
  read_node : ReadNode → Cell
  write_node : WriteNode → Cell
  word : ℕ → Cell  -- the buffer of a written value, of one word
  transaction : Transaction → Cell
  segment_node : SegmentNode → Cell  -- the header of a segment
  start_segment : Cell  -- the first segment
  region : Region → Cell
  reference_region : ReferenceRegion → Cell

abbrev pub Cells : Type 0
Cells = Ptr → Option Cell

pub record Machine : Type 0 where
  pub cells : Cells
  pub supply : List Ptr
  pub junk : ℕ
  pub mem : ℕ → ℕ  -- the word at an address

pub data Run (A : Type 0) : Type 0 where
  ok : A → Machine → Run A
  fault : Run A
  out_of_fuel : Run A

abbrev pub Cmd : Type 0 → Type 0
Cmd A = Machine → Run A

abbrev pub pure : {A : Type 0} → A → Cmd A
pure = ok

module _ {A B : Type 0} where
  abbrev pub and_then : Run A → (A → Cmd B) → Run B
  and_then (ok a m) k = k a m
  and_then fault k = fault
  and_then out_of_fuel k = out_of_fuel

  infixl 5 ◌>>=◌ ◌>>◌
  abbrev pub ◌>>=◌ : Cmd A → (A → Cmd B) → Cmd B
  c >>= k = λ m. and_then (c m) k

  abbrev pub ◌>>◌ : Cmd A → Cmd B → Cmd B
  c >> d = c >>= λ _. d

abbrev pub with_cell : Machine → Ptr → Option Cell → Machine
with_cell m p c = record m { cells = update m.cells p c }

abbrev pub set : Ptr → Cell → Cmd (Unit {0})
set p c m = ok tt (with_cell m p (some c))

-- The object at an address.
unfoldable pub load : Ptr → Cmd Cell
load p m = if p == null then fault else elim (m.cells p) [ none ↦ fault | some c ↦ ok c m ]

abbrev pub as_read : Cell → Cmd ReadNode
as_read (read_node n) = pure n
as_read _ = λ _. fault

abbrev pub as_write : Cell → Cmd WriteNode
as_write (write_node n) = pure n
as_write _ = λ _. fault

abbrev pub as_word : Cell → Cmd ℕ
as_word (word v) = pure v
as_word _ = λ _. fault

abbrev pub as_transaction : Cell → Cmd Transaction
as_transaction (transaction t) = pure t
as_transaction _ = λ _. fault

abbrev pub as_segment : Cell → Cmd SegmentNode
as_segment (segment_node n) = pure n
as_segment _ = λ _. fault

abbrev pub as_region : Cell → Cmd Region
as_region (region r) = pure r
as_region _ = λ _. fault

abbrev pub as_reference : Cell → Cmd ReferenceRegion
as_reference (reference_region r) = pure r
as_reference _ = λ _. fault

-- `*p` for a pointer to each type of object
abbrev pub load_read : Ptr → Cmd ReadNode
load_read p = load p >>= as_read

abbrev pub load_write : Ptr → Cmd WriteNode
load_write p = load p >>= as_write

abbrev pub load_word : Ptr → Cmd ℕ
load_word p = load p >>= as_word

abbrev pub load_transaction : Ptr → Cmd Transaction
load_transaction p = load p >>= as_transaction

abbrev pub load_segment : Ptr → Cmd SegmentNode
load_segment p = load p >>= as_segment

abbrev pub load_region : Ptr → Cmd Region
load_region p = load p >>= as_region

abbrev pub load_reference : Ptr → Cmd ReferenceRegion
load_reference p = load p >>= as_reference

-- malloc and posix_memalign: the new object, whose fields all hold junk, or NULL
abbrev pub place : (ℕ → Cell) → Ptr → List Ptr → Cmd Ptr
place blank p rest m =
    if p == null
    then ok null (record m { supply = rest })
    else ok p (record m { supply = rest; cells = update m.cells p (some (blank m.junk)) })

unfoldable pub malloc : (ℕ → Cell) → Cmd Ptr
malloc blank m = elim m.supply [ [] ↦ ok null m | p ∷ rest ↦ place blank p rest m ]

-- `free(NULL)` does nothing; any other pointer must be to an object
unfoldable pub free : Ptr → Cmd (Unit {0})
free p = if p == null then pure tt else load p >> λ m. ok tt (with_cell m p none)

-- `memset` of the words of a segment to 0
abbrev pub clear_words : (start size : ℕ) → Cmd (Unit {0})
clear_words start size m =
    ok tt (record m { mem = λ a. if leb start a && ltb a (start + size) then 0 else m.mem a })

-- `memcpy` of one word between buffers, and the word itself
abbrev pub word_at : ℕ → Cmd ℕ
word_at a m = ok (m.mem a) m

abbrev pub set_word : ℕ → ℕ → Cmd (Unit {0})
set_word a v m = ok tt (record m { mem = update m.mem a v })

-- `memcpy` of `words` words of 8 bytes, one after the other
abbrev pub copy_words : (words source target : ℕ) → Cmd (Unit {0})
copy_words zero source target = pure tt
copy_words (suc words) source target = do
  v ← word_at source
  set_word target v
  copy_words words (source + 8) (target + 8)
