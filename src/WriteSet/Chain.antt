-- ===== src/WriteSet/Chain.antt =====
-- What a linked write set stands for: nodes, their buffers, and the words written to addresses.
use cs453_concurrent_algorit.Base.{
  ℕ, ◌≡◌, ◌≢◌, refl, ◌∙◌, true, false, some, none, List, [], ◌∷◌, has, arith, ◌||◌,
}
use cs453_concurrent_algorit.Heap.{Ptr, null, write_node, word, Cell, Cells, Machine}

pub record Entry : Type 0 where
  pub node : Ptr
  pub buffer : Ptr
  pub address : ℕ
  pub value : ℕ

abbrev pub nodes : List Entry → List Ptr
nodes [] = []
nodes (e ∷ es) = e.node ∷ nodes es

abbrev pub buffers : List Entry → List Ptr
buffers [] = []
buffers (e ∷ es) = e.buffer ∷ buffers es

abbrev pub addresses : List Entry → List ℕ
addresses [] = []
addresses (e ∷ es) = e.address ∷ addresses es

abbrev pub head : List Entry → Ptr
head [] = null
head (e ∷ es) = e.node

abbrev pub last : List Entry → Ptr
last [] = null
last (e ∷ []) = e.node
last (e ∷ f ∷ es) = last (f ∷ es)

abbrev pub node : ℕ → Ptr → Ptr → Cell
node a b q = write_node (record { address = a; value = b; next = q })

-- The node and the buffer of one entry, whose successor is `q`.
pub record Holds (cells : Cells) (e : Entry) (q : Ptr) : Type 0 where
  pub real : e.node ≢ null
  pub at_node : cells e.node ≡ some (node e.address e.buffer q)
  pub real_buffer : e.buffer ≢ null
  pub at_buffer : cells e.buffer ≡ some (word e.value)

-- The entries lie in distinct nodes and buffers, each node points to the next, and the last to NULL.
abbrev pub Chain : Cells → List Entry → Type 0
Chain cells [] = Unit
Chain cells (e ∷ es) =
    Holds cells e (head es)
    × (has e.node (nodes es) ≡ false)
    × (has e.buffer (buffers es) ≡ false)
    × Chain cells es

pub record IsWriteSet (m : Machine) (first_node last_node : Ptr) (es : List Entry) : Type 0 where
  pub first : first_node ≡ head es
  pub final : last_node ≡ last es
  pub chain : Chain m.cells es

-- Where a chain lies, and what stays if nothing is changed there.
abbrev pub Within : List Entry → Ptr → Type 0
Within es q = (has q (nodes es) || has q (buffers es)) ≡ true

pub Within-node : (e : Entry) (es : List Entry) → Within (e ∷ es) e.node
Within-node e es = ground arith

pub Within-buffer : (e : Entry) (es : List Entry) → Within (e ∷ es) e.buffer
Within-buffer e es = ground arith

pub Within-tail : (e : Entry) (es : List Entry) (q : Ptr) → Within es q → Within (e ∷ es) q
Within-tail e es q h = ground arith

pub Within-ne :
    (p q : Ptr) (es : List Entry)
    → has p (nodes es) ≡ false
    → has p (buffers es) ≡ false
    → Within es q
    → q ≢ p
Within-ne p q es h k w e = cc (h, k, w)

pub Holds-frame :
    (cells cells' : Cells) (e : Entry) (q : Ptr)
    → cells' e.node ≡ cells e.node
    → cells' e.buffer ≡ cells e.buffer
    → Holds cells e q
    → Holds cells' e q
Holds-frame cells cells' e q f g h = record {
  real = h.real;
  at_node = f ∙ h.at_node;
  real_buffer = h.real_buffer;
  at_buffer = g ∙ h.at_buffer;
}

pub Chain-frame :
    (cells cells' : Cells) (es : List Entry)
    → ((q : Ptr) → Within es q → cells' q ≡ cells q)
    → Chain cells es
    → Chain cells' es
Chain-frame cells cells' [] same c = tt
Chain-frame cells cells' (e ∷ es) same c = (
  Holds-frame cells cells' e (head es) (same e.node (Within-node e es))
      (same e.buffer (Within-buffer e es)) c.0,
  c.1,
  c.2,
  Chain-frame cells cells' es (λ q h. same q (Within-tail e es q h)) c.3,
)

-- An unused address is in no node and no buffer of a chain.
pub not-has-nodes :
    (cells : Cells) (es : List Entry) (p : Ptr)
    → Chain cells es
    → cells p ≡ none
    → (has p (nodes es) ≡ false) × (has p (buffers es) ≡ false)
not-has-nodes cells [] p c unused = (refl, refl)
not-has-nodes cells (e ∷ es) p c unused =
    let h : Holds cells e (head es) = c.0 in
    ground (arith, not-has-nodes cells es p c.3 unused, h.at_node, h.at_buffer)

-- A cell of another type is none either: a node is no buffer.
pub not-has-buffers :
    (cells : Cells) (es : List Entry) (a : ℕ) (p b q : Ptr)
    → Chain cells es
    → cells p ≡ some (node a b q)
    → has p (buffers es) ≡ false
not-has-buffers cells [] a p b q c at_p = refl
not-has-buffers cells (e ∷ es) a p b q c at_p =
    let h : Holds cells e (head es) = c.0 in
    ground (arith, not-has-buffers cells es a p b q c.3 at_p, h.at_buffer)

pub has-last : (e : Entry) (es : List Entry) → has (last (e ∷ es)) (nodes (e ∷ es)) ≡ true
has-last e [] = ground arith
has-last e (f ∷ es) = ground (arith, has-last f es)
