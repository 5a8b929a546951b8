-- ===== src/ReadSet/Chain.antt =====
-- What a linked read set stands for: the address of each node and the address that it holds.
use cs453_concurrent_algorit.Base.{
  ℕ, ◌≡◌, ◌≢◌, refl, true, false, some, none, List, [], ◌∷◌, has, arith,
}
use cs453_concurrent_algorit.Heap.{Ptr, null, read_node, Cells, Machine}

pub record Entry : Type 0 where
  pub node : Ptr
  pub address : ℕ

abbrev pub nodes : List Entry → List Ptr
nodes [] = []
nodes (e ∷ es) = e.node ∷ nodes es

abbrev pub addresses : List Entry → List ℕ
addresses [] = []
addresses (e ∷ es) = e.address ∷ addresses es

abbrev pub head : List Entry → Ptr
head [] = null
head (e ∷ es) = e.node

abbrev pub last : List Entry → Ptr
last [] = null
last (e ∷ []) = e.node
last (e ∷ f ∷ es) = last (f ∷ es)

-- The entries lie in distinct nodes, each of which points to the next, and the last to NULL.
abbrev pub Chain : Cells → List Entry → Type 0
Chain cells [] = Unit
Chain cells (e ∷ es) =
    (e.node ≢ null)
    × (cells e.node ≡ some (read_node (record { address = e.address; next = head es })))
    × (has e.node (nodes es) ≡ false)
    × Chain cells es

pub record IsReadSet (m : Machine) (first_node last_node : Ptr) (es : List Entry) : Type 0 where
  pub first : first_node ≡ head es
  pub final : last_node ≡ last es
  pub chain : Chain m.cells es

-- A chain is kept by a change elsewhere.
pub Chain-frame :
    (cells cells' : Cells) (es : List Entry)
    → ((q : Ptr) → has q (nodes es) ≡ true → cells' q ≡ cells q)
    → Chain cells es
    → Chain cells' es
Chain-frame cells cells' [] same c = tt
Chain-frame cells cells' (e ∷ es) same c = (
  c.0,
  ground (arith, same e.node),
  c.2,
  Chain-frame cells cells' es (λ q h. same q (ground arith)) c.3,
)

-- An unused address is no node of a chain.
pub not-has-nodes :
    (cells : Cells) (es : List Entry) (p : Ptr)
    → Chain cells es
    → cells p ≡ none
    → has p (nodes es) ≡ false
not-has-nodes cells [] p c unused = refl
not-has-nodes cells (e ∷ es) p c unused = ground (arith, not-has-nodes cells es p c.3 unused)

pub has-last : (e : Entry) (es : List Entry) → has (last (e ∷ es)) (nodes (e ∷ es)) ≡ true
has-last e [] = ground arith
has-last e (f ∷ es) = ground (arith, has-last f es)
