-- ===== src/WriteSet/Add.antt =====
-- `write_set_add` of 335740/write-set.c appends an address with a buffered word, and leaks a node
-- when the buffer cannot be allocated.
mod Create
use cs453_concurrent_algorit.Base.{
  ℕ, ◌≡◌, ◌≢◌, refl, sym, ◌∙◌, ap, Bool, true, false, some, none, List, [], ◌∷◌, ◌++◌, has, update,
  ◌==◌, ◌||◌, arith, ne_of_has, Bool-cases, inl, inr,
}
use cs453_concurrent_algorit.Heap.{
  Ptr, null, word, Cell, Cells, Machine, ok, fault, with_cell, malloc, load,
}
use cs453_concurrent_algorit.Heap.Laws.{ne_null, load-ok, IsSupplied, update_self, update_other}
use cs453_concurrent_algorit.WriteSet.{
  new_node_address, write_node_create, write_set_add_first, append_node, write_set_add_next,
  write_set_add,
}
use cs453_concurrent_algorit.WriteSet.Chain.{
  Entry, nodes, buffers, head, last, node, Holds, Holds-frame, Chain, Chain-frame, IsWriteSet,
  Within, Within-node, Within-buffer, Within-tail, Within-ne, not-has-nodes, not-has-buffers,
  has-last,
}
use cs453_concurrent_algorit.WriteSet.Find.{not-has-word, node-ne-word}
pub use Create.{AreSupplied, written, half_written}
use Create.{write_node_create-ok, write_node_create-leak}

abbrev pub entry : Ptr → Ptr → ℕ → ℕ → Entry
entry p b a v = record { node = p; buffer = b; address = a; value = v }

-- The last node, before a next one is linked.
abbrev pub last_node : Entry → List Entry → Ptr → Cell
last_node e [] q = node e.address e.buffer q
last_node e (f ∷ es) q = last_node f es q

-- The machine after a node at `p` with a buffer at `b` was appended to `es`.
abbrev pub added : Machine → (p b : Ptr) → List Ptr → (a v : ℕ) → List Entry → Machine
added m p b rest a v [] = written m p b rest (node a b null) v
added m p b rest a v (e ∷ es) =
    with_cell (written m p b rest (node a b null) v) (last (e ∷ es)) (some (last_node e es p))

pub last-cell :
    (cells : Cells) (e : Entry) (es : List Entry)
    → Chain cells (e ∷ es)
    → (last (e ∷ es) ≢ null) × (cells (last (e ∷ es)) ≡ some (last_node e es null))
last-cell cells e [] c = let h : Holds cells e null = c.0 in (h.real, h.at_node)
last-cell cells e (f ∷ es) c = last-cell cells f es c.3

has-nodes_new :
    (q p b : Ptr) (a v : ℕ) (es : List Entry)
    → q ≢ p
    → has q (nodes es) ≡ false
    → has q (nodes (es ++ entry p b a v ∷ [])) ≡ false
has-nodes_new q p b a v [] ne h = ground arith
has-nodes_new q p b a v (e ∷ es) ne h = ground (arith, has-nodes_new q p b a v es)

has-buffers_new :
    (q p b : Ptr) (a v : ℕ) (es : List Entry)
    → q ≢ b
    → has q (buffers es) ≡ false
    → has q (buffers (es ++ entry p b a v ∷ [])) ≡ false
has-buffers_new q p b a v [] ne h = ground arith
has-buffers_new q p b a v (e ∷ es) ne h = ground (arith, has-buffers_new q p b a v es)

ne_of_not-has : (p q : Ptr) (qs : List Ptr) → has p (q ∷ qs) ≡ false → q ≢ p
ne_of_not-has p q qs h = ground arith

not-has-rest : (p q : Ptr) (qs : List Ptr) → has p (q ∷ qs) ≡ false → has p qs ≡ false
not-has-rest p q qs h = ground arith

-- Linking a new last node behind a chain.
Chain-append :
    (cells cells' : Cells) (p b : Ptr) (a v : ℕ) (e : Entry) (es : List Entry)
    → Chain cells (e ∷ es)
    → has p (nodes (e ∷ es)) ≡ false
    → has b (buffers (e ∷ es)) ≡ false
    → Holds cells' (entry p b a v) null
    → cells' (last (e ∷ es)) ≡ some (last_node e es p)
    → ((q : Ptr) → Within (e ∷ es) q → q ≢ last (e ∷ es) → cells' q ≡ cells q)
    → Chain cells' (e ∷ es ++ entry p b a v ∷ [])
Chain-append cells cells' p b a v e [] c new new_buffer at_new at_last same =
    let h : Holds cells e null = c.0 in
    let ne = node-ne-word cells e null e.buffer e.value h h.at_buffer in
    (
      record {
        real = h.real;
        at_node = at_last;
        real_buffer = h.real_buffer;
        at_buffer = same e.buffer (Within-buffer e []) (λ k. ne (sym k)) ∙ h.at_buffer;
      },
      has-nodes_new e.node p b a v [] (ne_of_not-has p e.node [] new) refl,
      has-buffers_new e.buffer p b a v [] (ne_of_not-has b e.buffer [] new_buffer) refl,
      (at_new, refl, refl, tt),
    )
Chain-append cells cells' p b a v e (f ∷ es) c new new_buffer at_new at_last same =
    let h : Holds cells e f.node = c.0 in
    let inside = has-last f es in
    let ne = ne_of_has e.node (last (f ∷ es)) (nodes (f ∷ es)) c.1 inside in
    let outside = not-has-word cells (f ∷ es) e.buffer e.value c.3 h.at_buffer in
    let ne_buffer = ne_of_has e.buffer (last (f ∷ es)) (nodes (f ∷ es)) outside inside in
    (
      Holds-frame cells cells' e f.node (same e.node (Within-node e (f ∷ es)) (λ k. ne (sym k)))
          (same e.buffer (Within-buffer e (f ∷ es)) (λ k. ne_buffer (sym k))) h,
      has-nodes_new e.node p b a v (f ∷ es) (ne_of_not-has p e.node (nodes (f ∷ es)) new) c.1,
      has-buffers_new e.buffer p b a v (f ∷ es)
          (ne_of_not-has b e.buffer (buffers (f ∷ es)) new_buffer) c.2,
      Chain-append cells cells' p b a v f es c.3 (not-has-rest p e.node (nodes (f ∷ es)) new)
          (not-has-rest b e.buffer (buffers (f ∷ es)) new_buffer) at_new at_last
          (λ q w. same q (Within-tail e (f ∷ es) q w)),
    )

Holds-written :
    (m : Machine) (p b : Ptr) (rest : List Ptr) (a v : ℕ)
    → AreSupplied m p b rest
    → Holds (written m p b rest (node a b null) v).cells (entry p b a v) null
Holds-written m p b rest a v s = record {
  real = s.real;
  at_node =
      update_other (update m.cells p (some (node a b null))) b p _ (λ k. s.apart (sym k))
      ∙ update_self m.cells p _;
  real_buffer = s.real_buffer;
  at_buffer = update_self (update m.cells p (some (node a b null))) b _;
}

-- An object that is in use is not one of the new ones.
pub written-other :
    (m : Machine) (p b : Ptr) (rest : List Ptr) (c d : Cell) (v : ℕ) (q : Ptr)
    → AreSupplied m p b rest
    → m.cells q ≡ some d
    → (q ≢ p) × (q ≢ b) × ((written m p b rest c v).cells q ≡ m.cells q)
written-other m p b rest c d v q s used =
    let ne : q ≢ p = λ k. cc (ap m.cells k, s.fresh, used) in
    let ne_buffer : q ≢ b = λ k. cc (ap m.cells k, s.fresh_buffer, used) in
    (
      ne,
      ne_buffer,
      update_other (update m.cells p (some c)) b q _ ne_buffer ∙ update_other m.cells p q _ ne,
    )

added-Chain :
    (m : Machine) (p b : Ptr) (rest : List Ptr) (a v : ℕ) (es : List Entry)
    → AreSupplied m p b rest
    → Chain m.cells es
    → Chain (added m p b rest a v es).cells (es ++ entry p b a v ∷ [])
added-Chain m p b rest a v [] s c = (Holds-written m p b rest a v s, refl, refl, tt)
added-Chain m p b rest a v (e ∷ es) s c =
    let q = last (e ∷ es) in
    let fresh = not-has-nodes m.cells (e ∷ es) p c s.fresh in
    let fresh_buffer = not-has-nodes m.cells (e ∷ es) b c s.fresh_buffer in
    let (ne, ne_buffer, _) =
      written-other m p b rest (node a b null) _ v q s (last-cell m.cells e es c).1 in
    let cells = (written m p b rest (node a b null) v).cells in
    let cells' = (added m p b rest a v (e ∷ es)).cells in
    Chain-append m.cells cells' p b a v e es c fresh.0 fresh_buffer.1
      (Holds-frame cells cells' (entry p b a v) null (update_other cells q p _ (λ k. ne (sym k)))
        (update_other cells q b _ (λ k. ne_buffer (sym k))) (Holds-written m p b rest a v s))
      (update_self cells q _)
      (λ r w nl.
        update_other cells q r _ nl
        ∙ update_other (update m.cells p (some (node a b null))) b r _
            (Within-ne b r (e ∷ es) fresh_buffer.0 fresh_buffer.1 w)
        ∙ update_other m.cells p r _ (Within-ne p r (e ∷ es) fresh.0 fresh.1 w))

last-append : (e : Entry) (es : List Entry) → last (es ++ e ∷ []) ≡ e.node
last-append e [] = refl
last-append e (f ∷ []) = refl
last-append e (f ∷ g ∷ es) = last-append e (g ∷ es)

-- The field assignment to the last node of a chain.
append_node-ok :
    (m : Machine) (first p : Ptr) (e : Entry) (es : List Entry)
    → last (e ∷ es) ≢ null
    → m.cells (last (e ∷ es)) ≡ some (last_node e es null)
    → append_node first (last (e ∷ es)) p m
      ≡ ok (true, first, p) (with_cell m (last (e ∷ es)) (some (last_node e es p)))
unfolding append_node
append_node-ok m first p e [] real at_last =
    rw (load-ok m e.node (node e.address e.buffer null) real at_last)
append_node-ok m first p e (f ∷ es) real at_last = append_node-ok m first p f es real at_last

-- If the next two allocations succeed, `write_set_add` returns true and the pointers to the first
-- and last node of a write set that has the address and the word at its source at its end, in a
-- new node with a new buffer. Besides these it has changed only the node that was the last.
pub write_set_add-append :
    (m : Machine) (first_node final_node p b : Ptr) (rest : List Ptr) (a source_word : ℕ)
    → (es : List Entry) → IsWriteSet m first_node final_node es
    → AreSupplied m p b rest
    → (write_set_add first_node final_node a source_word m
        ≡ ok
            (true, head (es ++ entry p b a (m.mem source_word) ∷ []), p)
            (added m p b rest a (m.mem source_word) es))
      × IsWriteSet
          (added m p b rest a (m.mem source_word) es)
          (head (es ++ entry p b a (m.mem source_word) ∷ []))
          p
          (es ++ entry p b a (m.mem source_word) ∷ [])
unfolding write_set_add write_set_add_first write_set_add_next
write_set_add-append m first_node final_node p b rest a source_word [] w s = (
  rw (w.first, write_node_create-ok m p b rest a source_word s),
  record {
    first = refl;
    final = refl;
    chain = added-Chain m p b rest a (m.mem source_word) [] s w.chain;
  },
)
write_set_add-append m first_node final_node p b rest a source_word (e ∷ es) w s =
    let v = m.mem source_word in
    let at_last = last-cell m.cells e es w.chain in
    let h : Holds m.cells e (head es) = w.chain.0 in
    (
      rw (
        w.first,
        ne_null e.node h.real,
        write_node_create-ok m p b rest a source_word s,
        w.final,
        append_node-ok (written m p b rest (node a b null) v) e.node p e es at_last.0 (
            (written-other m p b rest (node a b null) _ v (last (e ∷ es)) s at_last.1).2
            ∙ at_last.1),
      ),
      record {
        first = refl;
        final = sym (last-append (entry p b a v) (e ∷ es));
        chain = added-Chain m p b rest a v (e ∷ es) s w.chain;
      },
    )

-- If the node is allocated and its buffer is not, `write_set_add` returns false with the pointers
-- to the first and last node as they were; the write set is as before, and the new node stays
-- allocated although no node of the set points to it.
pub write_set_add-leak :
    (m : Machine) (first_node final_node p : Ptr) (rest : List Ptr) (a source_word : ℕ)
    → (es : List Entry) → IsWriteSet m first_node final_node es
    → IsSupplied m p (null ∷ rest)
    → (write_set_add first_node final_node a source_word m
        ≡ ok (false, first_node, final_node) (half_written m p rest a))
      × IsWriteSet (half_written m p rest a) first_node final_node es
      × ((half_written m p rest a).cells p ≡ some (node a null m.junk))
      × (has p (nodes es) ≡ false)
unfolding write_set_add write_set_add_first write_set_add_next
write_set_add-leak m first_node final_node p rest a source_word es w s =
    let fresh = not-has-nodes m.cells es p w.chain s.fresh in
    (
      elim (Bool-cases (first_node == null)) [
        | inl empty ↦ rw (empty, write_node_create-leak m p rest a source_word s)
        | inr filled ↦ rw (filled, write_node_create-leak m p rest a source_word s)
      ],
      record {
        first = w.first;
        final = w.final;
        chain =
            Chain-frame m.cells (half_written m p rest a).cells es
              (λ q k. update_other m.cells p q _ (Within-ne p q es fresh.0 fresh.1 k)) w.chain;
      },
      update_self m.cells p _,
      fresh.0,
    )
