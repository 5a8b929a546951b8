-- ===== src/ReadSet/Add.antt =====
-- `read_set_add` of 335740/read-set.c appends an address, and never reports that memory is exhausted.
use cs453_concurrent_algorit.Base.{
  ℕ, ◌≡◌, ◌≢◌, refl, sym, ◌∙◌, true, false, some, List, [], ◌∷◌, ◌++◌, has, update, ◌==◌, arith,
  ne_of_has, Bool-cases, inl, inr,
}
use cs453_concurrent_algorit.Heap.{
  Ptr, null, ReadNode, read_node, Cell, Cells, Machine, ok, fault, with_cell, malloc, load,
}
use cs453_concurrent_algorit.Heap.Laws.{
  ne_null, load-ok, IsSupplied, malloc-ok, allocated, with_cell-allocated, update_self,
  update_other,
}
use cs453_concurrent_algorit.ReadSet.{
  new_node_address, fill, read_node_create, read_set_add_first, append_node, read_set_add_next,
  read_set_add,
}
use cs453_concurrent_algorit.ReadSet.Chain.{
  Entry, nodes, head, last, Chain, IsReadSet, not-has-nodes, has-last,
}

abbrev pub node : ℕ → Ptr → Cell
node a q = read_node (record { address = a; next = q })

abbrev pub entry : Ptr → ℕ → Entry
entry p a = record { node = p; address = a }

fill-ok :
    (m : Machine) (p : Ptr) (rest : List Ptr) (n : ReadNode) (a : ℕ)
    → p ≢ null
    → fill p a (allocated m p rest (read_node n)) ≡ ok (true, p) (allocated m p rest (node a null))
unfolding fill
fill-ok m p rest n a real = rw (
  load-ok (allocated m p rest (read_node n)) p (read_node n) real (update_self m.cells p _),
  with_cell-allocated m p rest (read_node n) (node a n.next),
  load-ok (allocated m p rest (node a n.next)) p (node a n.next) real (update_self m.cells p _),
  with_cell-allocated m p rest (node a n.next) (node a null),
)

read_node_create-ok :
    (m : Machine) (p : Ptr) (rest : List Ptr) (a : ℕ)
    → IsSupplied m p rest
    → read_node_create new_node_address a m ≡ ok (true, p) (allocated m p rest (node a null))
unfolding read_node_create
read_node_create-ok m p rest a s =
    rw (malloc-ok m p rest (λ junk. node junk junk) s) (fill-ok m p rest _ a s.real)

abbrev pub last_address : ℕ → List Entry → ℕ
last_address a [] = a
last_address a (e ∷ es) = last_address e.address es

-- The machine after an address was appended to `es`.
abbrev pub added : Machine → Ptr → List Ptr → ℕ → List Entry → Machine
added m p rest a [] = allocated m p rest (node a null)
added m p rest a (e ∷ es) =
    with_cell (allocated m p rest (node a null)) (last (e ∷ es))
      (some (node (last_address e.address es) p))

pub last-cell :
    (cells : Cells) (e : Entry) (es : List Entry)
    → Chain cells (e ∷ es)
    → (last (e ∷ es) ≢ null)
      × (cells (last (e ∷ es)) ≡ some (node (last_address e.address es) null))
last-cell cells e [] c = (c.0, c.1)
last-cell cells e (f ∷ es) c = last-cell cells f es c.3

has-append_new :
    (q p : Ptr) (a : ℕ) (es : List Entry)
    → q ≢ p
    → has q (nodes es) ≡ false
    → has q (nodes (es ++ entry p a ∷ [])) ≡ false
has-append_new q p a [] ne h = ground arith
has-append_new q p a (e ∷ es) ne h = ground (arith, has-append_new q p a es)

-- Linking a new last node behind a chain.
Chain-append :
    (cells cells' : Cells) (p : Ptr) (a : ℕ) (e : Entry) (es : List Entry)
    → Chain cells (e ∷ es)
    → p ≢ null
    → has p (nodes (e ∷ es)) ≡ false
    → cells' p ≡ some (node a null)
    → cells' (last (e ∷ es)) ≡ some (node (last_address e.address es) p)
    → ((q : Ptr) → has q (nodes (e ∷ es)) ≡ true → q ≢ last (e ∷ es) → cells' q ≡ cells q)
    → Chain cells' (e ∷ es ++ entry p a ∷ [])
Chain-append cells cells' p a e [] c real new at_p at_last same =
    (c.0, at_last, ground arith, (real, at_p, refl, tt))
Chain-append cells cells' p a e (f ∷ es) c real new at_p at_last same = (
  c.0,
  same e.node (ground arith) (ground (arith, has-last f es)) ∙ c.1,
  has-append_new e.node p a (f ∷ es) (ground arith) c.2,
  Chain-append cells cells' p a f es c.3 real (ground arith) at_p at_last
      (λ q h ne. same q (ground arith) ne),
)

added-Chain :
    (m : Machine) (p : Ptr) (rest : List Ptr) (a : ℕ) (es : List Entry)
    → IsSupplied m p rest
    → Chain m.cells es
    → Chain (added m p rest a es).cells (es ++ entry p a ∷ [])
added-Chain m p rest a [] s c = (s.real, update_self m.cells p _, refl, tt)
added-Chain m p rest a (e ∷ es) s c =
    let new = not-has-nodes m.cells (e ∷ es) p c s.fresh in
    let ne = ne_of_has p (last (e ∷ es)) (nodes (e ∷ es)) new (has-last e es) in
    let cells = update m.cells p (some (node a null)) in
    Chain-append m.cells (added m p rest a (e ∷ es)).cells p a e es c s.real new
      (update_other cells (last (e ∷ es)) p _ (λ q. ne (sym q)) ∙ update_self m.cells p _)
      (update_self cells (last (e ∷ es)) _)
      (λ q h nl.
        update_other cells (last (e ∷ es)) q _ nl
        ∙ update_other m.cells p q _ (ne_of_has p q (nodes (e ∷ es)) new h))

allocated-last :
    (m : Machine) (p : Ptr) (rest : List Ptr) (c : Cell) (e : Entry) (es : List Entry)
    → IsSupplied m p rest
    → Chain m.cells (e ∷ es)
    → (allocated m p rest c).cells (last (e ∷ es)) ≡ some (node (last_address e.address es) null)
allocated-last m p rest c e es s ch =
    let new = not-has-nodes m.cells (e ∷ es) p ch s.fresh in
    update_other m.cells p (last (e ∷ es)) _
      (ne_of_has p (last (e ∷ es)) (nodes (e ∷ es)) new (has-last e es))
    ∙ (last-cell m.cells e es ch).1

last-append : (e : Entry) (es : List Entry) → last (es ++ e ∷ []) ≡ e.node
last-append e [] = refl
last-append e (f ∷ []) = refl
last-append e (f ∷ g ∷ es) = last-append e (g ∷ es)

-- If the next allocation succeeds, `read_set_add` returns true and the pointers to the first and
-- last node of a read set that has the new address at its end, in a new node. Besides that node it
-- has changed only the node that was the last.
pub read_set_add-append :
    (m : Machine) (first_node last_node p : Ptr) (rest : List Ptr) (a : ℕ) (es : List Entry)
    → IsReadSet m first_node last_node es
    → IsSupplied m p rest
    → (read_set_add first_node last_node a m
        ≡ ok (true, head (es ++ entry p a ∷ []), p) (added m p rest a es))
      × IsReadSet (added m p rest a es) (head (es ++ entry p a ∷ [])) p (es ++ entry p a ∷ [])
unfolding read_set_add read_set_add_first read_set_add_next append_node
read_set_add-append m first_node last_node p rest a [] r s = (
  rw (r.first, read_node_create-ok m p rest a s),
  record { first = refl; final = refl; chain = added-Chain m p rest a [] s r.chain },
)
read_set_add-append m first_node last_node p rest a (e ∷ es) r s = (
  rw (
    r.first,
    ne_null e.node r.chain.0,
    read_node_create-ok m p rest a s,
    r.final,
    load-ok (allocated m p rest (node a null)) (last (e ∷ es))
        (node (last_address e.address es) null) (last-cell m.cells e es r.chain).0
        (allocated-last m p rest (node a null) e es s r.chain),
  ),
  record {
    first = refl;
    final = sym (last-append (entry p a) (e ∷ es));
    chain = added-Chain m p rest a (e ∷ es) s r.chain;
  },
)

read_node_create-null :
    (m : Machine) (a : ℕ) → m.supply ≡ [] → read_node_create new_node_address a m ≡ fault
unfolding read_node_create fill malloc load
read_node_create-null m a none_left = rw (none_left, malloc)

-- If memory is exhausted, the test for it looks at the address of a variable instead of what malloc
-- returned, and the function follows NULL, whatever the read set.
pub read_set_add-null :
    (m : Machine) (first_node last_node : Ptr) (a : ℕ)
    → m.supply ≡ []
    → read_set_add first_node last_node a m ≡ fault
unfolding read_set_add read_set_add_first read_set_add_next
read_set_add-null m first_node last_node a none_left =
    let stuck = read_node_create-null m a none_left in
    elim (Bool-cases (first_node == null)) [
      | inl empty ↦ rw (empty, stuck)
      | inr filled ↦ rw (filled, stuck)
    ]
