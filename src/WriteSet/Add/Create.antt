-- ===== src/WriteSet/Add/Create.antt =====
-- `write_node_create`: a node and its buffer, or a node without one.
use cs453_concurrent_algorit.Base.{
  ℕ, ◌≡◌, ◌≢◌, refl, sym, ◌∙◌, true, false, some, none, List, ◌∷◌, update, arith, fun_ext,
}
use cs453_concurrent_algorit.Heap.{Ptr, null, word, Cell, Machine, ok, with_cell}
use cs453_concurrent_algorit.Heap.Laws.{
  ne_null, load-ok, IsSupplied, malloc-ok, malloc-null, allocated, with_cell-allocated, update_self,
  update_other,
}
use cs453_concurrent_algorit.WriteSet.{new_node_address, fill, write_node_create}
use cs453_concurrent_algorit.WriteSet.Chain.{node}

-- The next two allocations return `p` and `b`, which are in no use.
pub record AreSupplied (m : Machine) (p b : Ptr) (rest : List Ptr) : Type 0 where
  pub supply : m.supply ≡ p ∷ b ∷ rest
  pub fresh : m.cells p ≡ none
  pub fresh_buffer : m.cells b ≡ none
  pub real : p ≢ null
  pub real_buffer : b ≢ null
  pub apart : b ≢ p

-- The machine with a node at `p` and a word in the buffer `b`.
abbrev pub written : Machine → Ptr → Ptr → List Ptr → Cell → ℕ → Machine
written m p b rest c w = record m {
  supply = rest;
  cells = update (update m.cells p (some c)) b (some (word w));
}

-- The machine with a node that has no buffer.
abbrev pub half_written : Machine → Ptr → List Ptr → ℕ → Machine
half_written m p rest a = allocated m p rest (node a null m.junk)

module _ (m : Machine) (p b : Ptr) (rest : List Ptr) where
  set_node-written :
      (c d : Cell) (w : ℕ)
      → b ≢ p
      → with_cell (written m p b rest c w) p (some d) ≡ written m p b rest d w
  set_node-written c d w ne = λ i. record m { supply = rest; cells = fun_ext at i }
    where
      at :
          (q : Ptr)
          → update (update (update m.cells p (some c)) b (some (word w))) p (some d) q
            ≡ update (update m.cells p (some d)) b (some (word w)) q
      at q = ground arith

  set_buffer-written :
      (c : Cell) (w v : ℕ)
      → with_cell (written m p b rest c w) b (some (word v)) ≡ written m p b rest c v
  set_buffer-written c w v = λ i. record m { supply = rest; cells = fun_ext at i }
    where
      at :
          (q : Ptr)
          → update (update (update m.cells p (some c)) b (some (word w))) b (some (word v)) q
            ≡ update (update m.cells p (some c)) b (some (word v)) q
      at q = ground arith

  node-written : (c : Cell) (w : ℕ) → b ≢ p → (written m p b rest c w).cells p ≡ some c
  node-written c w ne =
      update_other (update m.cells p (some c)) b p _ (λ e. ne (sym e)) ∙ update_self m.cells p _

  buffer-written : (c : Cell) (w : ℕ) → (written m p b rest c w).cells b ≡ some (word w)
  buffer-written c w = update_self (update m.cells p (some c)) b _

  fill-ok :
      (a q w source_word : ℕ)
      → AreSupplied m p b rest
      → fill p b source_word (written m p b rest (node a b q) w)
        ≡ ok (true, p) (written m p b rest (node a b null) (m.mem source_word))
  unfolding fill
  fill-ok a q w source_word s =
      let v = m.mem source_word in
      rw (
        ne_null b s.real_buffer,
        load-ok (written m p b rest (node a b q) w) b (word w) s.real_buffer
            (buffer-written (node a b q) w),
        set_buffer-written (node a b q) w v,
        load-ok (written m p b rest (node a b q) v) p (node a b q) s.real
            (node-written (node a b q) v s.apart),
        set_node-written (node a b q) (node a b null) v s.apart,
      )

  pub write_node_create-ok :
      (a source_word : ℕ)
      → AreSupplied m p b rest
      → write_node_create new_node_address a source_word m
        ≡ ok (true, p) (written m p b rest (node a b null) (m.mem source_word))
  unfolding write_node_create
  write_node_create-ok a source_word s =
      let j = m.junk in
      rw
        (
          malloc-ok m p (b ∷ rest) (λ k. node k k k)
              (record { supply = s.supply; fresh = s.fresh; real = s.real }),
          load-ok (allocated m p (b ∷ rest) (node j j j)) p (node j j j) s.real
              (update_self m.cells p _),
          with_cell-allocated m p (b ∷ rest) (node j j j) (node a j j),
          malloc-ok (allocated m p (b ∷ rest) (node a j j)) b rest word (record {
            supply = refl;
            fresh = update_other m.cells p b _ s.apart ∙ s.fresh_buffer;
            real = s.real_buffer;
          }),
          load-ok (written m p b rest (node a j j) j) p (node a j j) s.real
              (node-written (node a j j) j s.apart),
          set_node-written (node a j j) (node a b j) j s.apart,
        )
        (fill-ok a j j source_word s)

-- Without memory for the buffer the node stays allocated.
pub write_node_create-leak :
    (m : Machine) (p : Ptr) (rest : List Ptr) (a source_word : ℕ)
    → IsSupplied m p (null ∷ rest)
    → write_node_create new_node_address a source_word m ≡ ok (false, p) (half_written m p rest a)
unfolding write_node_create fill
write_node_create-leak m p rest a source_word s =
    let j = m.junk in
    let l = null ∷ rest in
    rw (
      malloc-ok m p l (λ k. node k k k) s,
      load-ok (allocated m p l (node j j j)) p (node j j j) s.real (update_self m.cells p _),
      with_cell-allocated m p l (node j j j) (node a j j),
      malloc-null (allocated m p l (node a j j)) rest word refl,
      load-ok (allocated m p rest (node a j j)) p (node a j j) s.real (update_self m.cells p _),
      with_cell-allocated m p rest (node a j j) (node a null j),
    )
