-- ===== src/Heap/Laws.antt =====
-- Loads, frees and allocations of known cells.
use cs453_concurrent_algorit.Base.{
  ℕ, ◌≡◌, ◌≢◌, false, Option, none, some, List, [], ◌∷◌, arith, ◌==◌, update, fun_ext,
}
use cs453_concurrent_algorit.Heap.{
  Ptr, null, Cell, Cells, Machine, ok, with_cell, load, malloc, free,
}

pub ne_null : (p : Ptr) → p ≢ null → (p == null) ≡ false
ne_null p h = ground arith

pub load-ok : (m : Machine) (p : Ptr) (c : Cell) → p ≢ null → m.cells p ≡ some c → load p m ≡ ok c m
unfolding load
load-ok m p c h e = rw (ne_null p h, e)

pub free-ok :
    (m : Machine) (p : Ptr) (c : Cell)
    → p ≢ null
    → m.cells p ≡ some c
    → free p m ≡ ok tt (with_cell m p none)
unfolding free
free-ok m p c h e = rw (ne_null p h, load-ok m p c h e)

-- The next allocation returns `p`, which is in no use.
pub record IsSupplied (m : Machine) (p : Ptr) (rest : List Ptr) : Type 0 where
  pub supply : m.supply ≡ p ∷ rest
  pub fresh : m.cells p ≡ none
  pub real : p ≢ null

pub malloc-ok :
    (m : Machine) (p : Ptr) (rest : List Ptr) (blank : ℕ → Cell)
    → IsSupplied m p rest
    → malloc blank m
      ≡ ok p (record m { supply = rest; cells = update m.cells p (some (blank m.junk)) })
unfolding malloc
malloc-ok m p rest blank s = rw (s.supply, malloc, ne_null p s.real)

pub malloc-null :
    (m : Machine) (rest : List Ptr) (blank : ℕ → Cell)
    → m.supply ≡ null ∷ rest
    → malloc blank m ≡ ok null (record m { supply = rest })
unfolding malloc
malloc-null m rest blank s = rw (s, malloc)

-- The cells without those at some addresses.
abbrev pub without : List Ptr → Cells → Cells
without [] cells = cells
without (p ∷ ps) cells = without ps (update cells p none)

pub with_cell-with_cell :
    (m : Machine) (p : Ptr) (c d : Option Cell) → with_cell (with_cell m p c) p d ≡ with_cell m p d
with_cell-with_cell m p c d = λ i. record m { cells = fun_ext (λ q. twice q) i }
  where
    twice : (q : Ptr) → update (update m.cells p c) p d q ≡ update m.cells p d q
    twice q = ground arith

-- The machine after an allocation that returns `p`, with `c` stored there.
abbrev pub allocated : Machine → Ptr → List Ptr → Cell → Machine
allocated m p rest c = record m { supply = rest; cells = update m.cells p (some c) }

pub with_cell-allocated :
    (m : Machine) (p : Ptr) (rest : List Ptr) (c d : Cell)
    → with_cell (allocated m p rest c) p (some d) ≡ allocated m p rest d
with_cell-allocated m p rest c d =
    with_cell-with_cell (record m { supply = rest }) p (some c) (some d)

pub update_self : (cells : Cells) (p : Ptr) (c : Option Cell) → update cells p c p ≡ c
update_self cells p c = ground arith

pub update_other :
    (cells : Cells) (p q : Ptr) (c : Option Cell) → q ≢ p → update cells p c q ≡ cells q
update_other cells p q c h = ground arith
