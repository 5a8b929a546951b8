-- ===== src/WriteSet/Find.antt =====
-- `write_node_find` and `write_node_overwrite` of 335740/write-set.c: look-up and update by address.
use mathlib.Core.Option.{some-injective}
use mathlib.Core.Path.{subst, ap}
use cs453_concurrent_algorit.Base.{
  ℕ, zero, suc, ◌<◌, ◌≡◌, ◌≢◌, refl, sym, ◌∙◌, Option, true, false, none, some, List, [], ◌∷◌, has,
  update, ◌==◌, arith, length, inl, inr, Bool-cases, if◌then◌else◌, ne_of_has,
}
use cs453_concurrent_algorit.Heap.{Ptr, null, Machine, Cells, word, ok, with_cell}
use cs453_concurrent_algorit.Heap.Laws.{ne_null, load-ok, update_self, update_other}
use cs453_concurrent_algorit.WriteSet.{write_node_find, write_node_overwrite}
use cs453_concurrent_algorit.WriteSet.Chain.{
  Entry, nodes, buffers, head, node, Holds, Holds-frame, Chain, Chain-frame, IsWriteSet, Within-ne,
  last,
}

-- The first entry of an address.
unfoldable pub find_entry : ℕ → List Entry → Option Entry
find_entry a [] = none
find_entry a (e ∷ es) = if e.address == a then some e else find_entry a es

abbrev pub node_or_null : Option Entry → Ptr
node_or_null none = null
node_or_null (some e) = e.node

-- With fuel above the number of nodes the search ends without a fault, changes nothing and returns
-- the node of the first entry of the address, or NULL if there is none.
pub write_node_find_lem :
    (fuel : ℕ) (m : Machine) (a : ℕ) (es : List Entry)
    → Chain m.cells es
    → length es < fuel
    → write_node_find fuel (head es) a m ≡ ok (node_or_null (find_entry a es)) m
unfolding write_node_find find_entry
write_node_find_lem zero m a es c enough = absurd (omega arith)
write_node_find_lem (suc fuel) m a [] c enough = refl
write_node_find_lem (suc fuel) m a (e ∷ es) c enough =
    let h : Holds m.cells e (head es) = c.0 in
    rw
      (ne_null e.node h.real, load-ok m e.node (node e.address e.buffer (head es)) h.real h.at_node)
      (elim (Bool-cases (e.address == a)) [
        | inl here ↦ rw here
        | inr there ↦ rw there (write_node_find_lem fuel m a es c.3 (omega arith))
      ])

-- The entries with a new word for an address.
unfoldable pub overwritten : ℕ → ℕ → List Entry → List Entry
overwritten a v [] = []
overwritten a v (e ∷ es) =
    if e.address == a then record e { value = v } ∷ es else e ∷ overwritten a v es

nodes-overwritten : (a v : ℕ) (es : List Entry) → nodes (overwritten a v es) ≡ nodes es
unfolding overwritten
nodes-overwritten a v [] = refl
nodes-overwritten a v (e ∷ es) = elim (Bool-cases (e.address == a)) [
  | inl here ↦ rw here
  | inr there ↦ rw (there, nodes-overwritten a v es)
]

buffers-overwritten : (a v : ℕ) (es : List Entry) → buffers (overwritten a v es) ≡ buffers es
unfolding overwritten
buffers-overwritten a v [] = refl
buffers-overwritten a v (e ∷ es) = elim (Bool-cases (e.address == a)) [
  | inl here ↦ rw here
  | inr there ↦ rw (there, buffers-overwritten a v es)
]

pub head-overwritten : (a v : ℕ) (es : List Entry) → head (overwritten a v es) ≡ head es
unfolding overwritten
head-overwritten a v [] = refl
head-overwritten a v (e ∷ es) = elim (Bool-cases (e.address == a)) [
  | inl here ↦ rw here
  | inr there ↦ rw there
]

-- The entry that is found lies in the chain.
pub find-Holds :
    (cells : Cells) (a : ℕ) (es : List Entry) (e : Entry)
    → Chain cells es
    → find_entry a es ≡ some e
    → (q : Ptr) × Holds cells e q × (has e.buffer (buffers es) ≡ true)
unfolding find_entry
find-Holds cells a [] e c found = cc
find-Holds cells a (f ∷ es) e c found = elim (Bool-cases (f.address == a)) [
  | inl here ↦
      let same : f ≡ e = some-injective _ _ (rw here at found) in
      subst (λ g. (q : Ptr) × Holds cells g q × (has g.buffer (buffers (f ∷ es)) ≡ true)) same
        (head es, c.0, ground arith)
  | inr there ↦
      let (q, h, inside) = find-Holds cells a es e c.3 (rw there at found) in
      (q, h, ground (arith, inside))
]

-- A buffer is no node.
pub not-has-word :
    (cells : Cells) (es : List Entry) (b v : ℕ)
    → Chain cells es
    → cells b ≡ some (word v)
    → has b (nodes es) ≡ false
not-has-word cells [] b v c at_b = refl
not-has-word cells (e ∷ es) b v c at_b =
    let h : Holds cells e (head es) = c.0 in
    ground (arith, not-has-word cells es b v c.3 at_b, h.at_node)

pub node-ne-word :
    (cells : Cells) (e : Entry) (q : Ptr) (b v : ℕ)
    → Holds cells e q
    → cells b ≡ some (word v)
    → e.node ≢ b
node-ne-word cells e q b v h at_b same = cc (ap cells same, h.at_node)

Chain-overwritten_here :
    (cells : Cells) (v : ℕ) (f : Entry) (es : List Entry)
    → Chain cells (f ∷ es)
    → Chain (update cells f.buffer (some (word v))) (record f { value = v } ∷ es)
Chain-overwritten_here cells v f es c =
    let h : Holds cells f (head es) = c.0 in
    let outside = not-has-word cells es f.buffer f.value c.3 h.at_buffer in
    (
      record {
        real = h.real;
        at_node =
            update_other cells f.buffer f.node _
              (node-ne-word cells f (head es) f.buffer f.value h h.at_buffer)
            ∙ h.at_node;
        real_buffer = h.real_buffer;
        at_buffer = update_self cells f.buffer _;
      },
      c.1,
      c.2,
      Chain-frame cells (update cells f.buffer (some (word v))) es
          (λ q w. update_other cells f.buffer q _ (Within-ne f.buffer q es outside c.2 w)) c.3,
    )

Chain-overwritten_there :
    (cells : Cells) (b w v : ℕ) (f : Entry) (es es' : List Entry)
    → Chain cells (f ∷ es)
    → cells b ≡ some (word w)
    → has b (buffers es) ≡ true
    → head es' ≡ head es
    → nodes es' ≡ nodes es
    → buffers es' ≡ buffers es
    → Chain (update cells b (some (word v))) es'
    → Chain (update cells b (some (word v))) (f ∷ es')
Chain-overwritten_there cells b w v f es es' c at_b inside same_head same_nodes same_buffers rest =
    let h : Holds cells f (head es) = c.0 in
    (
      subst (Holds (update cells b (some (word v))) f) (sym same_head) (
          Holds-frame cells (update cells b (some (word v))) f (head es)
            (update_other cells b f.node _ (node-ne-word cells f (head es) b w h at_b))
            (update_other cells b f.buffer _
              (λ e. ne_of_has f.buffer b (buffers es) c.2 inside (sym e)))
            h),
      ap (has f.node) same_nodes ∙ c.1,
      ap (has f.buffer) same_buffers ∙ c.2,
      rest,
    )

Chain-overwritten :
    (cells : Cells) (a v : ℕ) (es : List Entry) (e : Entry)
    → Chain cells es
    → find_entry a es ≡ some e
    → Chain (update cells e.buffer (some (word v))) (overwritten a v es)
unfolding find_entry overwritten
Chain-overwritten cells a v [] e c found = cc
Chain-overwritten cells a v (f ∷ es) e c found = elim (Bool-cases (f.address == a)) [
  | inl here ↦
      let same : f ≡ e = some-injective _ _ (rw here at found) in
      subst
        (λ (g : Entry). Chain (update cells g.buffer (some (word v))) (overwritten a v (f ∷ es)))
        same (rw here (Chain-overwritten_here cells v f es c))
  | inr there ↦
      let found' : find_entry a es ≡ some e = rw there at found in
      let (q, h, inside) = find-Holds cells a es e c.3 found' in
      rw there (
        Chain-overwritten_there cells e.buffer e.value v f es (overwritten a v es) c h.at_buffer
          inside (head-overwritten a v es) (nodes-overwritten a v es) (buffers-overwritten a v es)
          (Chain-overwritten cells a v es e c.3 found'))
]

last_of : List Ptr → Ptr
last_of [] = null
last_of (p ∷ []) = p
last_of (p ∷ q ∷ ps) = last_of (q ∷ ps)

last_of-nodes : (es : List Entry) → last es ≡ last_of (nodes es)
unfolding last_of
last_of-nodes [] = refl
last_of-nodes (e ∷ []) = refl
last_of-nodes (e ∷ f ∷ es) = last_of-nodes (f ∷ es)

last-overwritten : (a v : ℕ) (es : List Entry) → last (overwritten a v es) ≡ last es
last-overwritten a v es =
    last_of-nodes (overwritten a v es)
    ∙ ap last_of (nodes-overwritten a v es)
    ∙ sym (last_of-nodes es)

-- Overwriting the node that was found puts the word at `source_word` into the first entry of the
-- address, and changes nothing but that entry's buffer.
pub write_node_overwrite_lem :
    (m : Machine) (first_node last_node a source_word : ℕ) (es : List Entry) (e : Entry)
    → IsWriteSet m first_node last_node es
    → find_entry a es ≡ some e
    → (write_node_overwrite e.node source_word m
        ≡ ok tt (with_cell m e.buffer (some (word (m.mem source_word)))))
      × IsWriteSet
          (with_cell m e.buffer (some (word (m.mem source_word))))
          first_node
          last_node
          (overwritten a (m.mem source_word) es)
unfolding write_node_overwrite
write_node_overwrite_lem m first_node last_node a source_word es e s found =
    let (q, h, inside) = find-Holds m.cells a es e s.chain found in
    (
      rw (
        load-ok m e.node (node e.address e.buffer q) h.real h.at_node,
        load-ok m e.buffer (word e.value) h.real_buffer h.at_buffer,
      ),
      record {
        first = s.first ∙ sym (head-overwritten a (m.mem source_word) es);
        final = s.final ∙ sym (last-overwritten a (m.mem source_word) es);
        chain = Chain-overwritten m.cells a (m.mem source_word) es e s.chain found;
      },
    )
