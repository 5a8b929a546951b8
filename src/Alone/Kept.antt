-- ===== src/Alone/Kept.antt =====
-- What a step of a transaction of 335740/tm.c leaves as it is on the heap, by the types of the objects.
use cs453_concurrent_algorit.Base.{
  ℕ, ◌≡◌, ◌≢◌, sym, ◌∙◌, ap, true, some, none, List, [], ◌∷◌, has, All, AllDistinct, update, arith,
}
use cs453_concurrent_algorit.Heap.{Ptr, null, Cell, Cells, Machine}
use cs453_concurrent_algorit.Heap.Laws.{IsSupplied, update_other}
use cs453_concurrent_algorit.ReadSet.Chain as ReadChain
use cs453_concurrent_algorit.ReadSet.Add as ReadAdd
use cs453_concurrent_algorit.WriteSet.Chain.{Entry, head, last, node, Holds, Chain}
use cs453_concurrent_algorit.WriteSet.Add.{AreSupplied, written, added, written-other, last-cell}
use cs453_concurrent_algorit.Tm.Write.{kind-last_node}
use cs453_concurrent_algorit.Tm.Cleanup.{kind, kind_ne}

-- All objects stay that are not of the type `k`.
abbrev pub Keeps : ℕ → Cells → Cells → Type 0
Keeps k cells cells' = (q : Ptr) (c : Cell) → cells q ≡ some c → kind c ≢ k → cells' q ≡ some c

pub Keeps-reads :
    (k : ℕ) (cells cells' : Cells) (rs : List ReadChain.Entry)
    → Keeps k cells cells'
    → k ≢ 0
    → ReadChain.Chain cells rs
    → ReadChain.Chain cells' rs
Keeps-reads k cells cells' [] keeps other c = tt
Keeps-reads k cells cells' (e ∷ rs) keeps other c = (
  c.0,
  keeps e.node _ c.1 (λ z. other (sym z)),
  c.2,
  Keeps-reads k cells cells' rs keeps other c.3,
)

pub Keeps-writes :
    (k : ℕ) (cells cells' : Cells) (es : List Entry)
    → Keeps k cells cells'
    → k ≢ 1
    → k ≢ 2
    → Chain cells es
    → Chain cells' es
Keeps-writes k cells cells' [] keeps no_node no_word c = tt
Keeps-writes k cells cells' (e ∷ es) keeps no_node no_word c =
    let h : Holds cells e (head es) = c.0 in
    (
      record {
        real = h.real;
        at_node = keeps e.node _ h.at_node (λ z. no_node (sym z));
        real_buffer = h.real_buffer;
        at_buffer = keeps e.buffer _ h.at_buffer (λ z. no_word (sym z));
      },
      c.1,
      c.2,
      Keeps-writes k cells cells' es keeps no_node no_word c.3,
    )

-- Replacing an object.
pub update-Keeps :
    (cells : Cells) (p : Ptr) (c d : Cell)
    → cells p ≡ some c
    → Keeps (kind c) cells (update cells p (some d))
update-Keeps cells p c d at_p q e at_q other =
    update_other cells p q _ (kind_ne cells q p e c at_q at_p other) ∙ at_q

-- Addresses that no object uses.
abbrev pub Unused : Cells → List Ptr → Type 0
Unused cells ps = AllDistinct ps × All (λ p. (p ≢ null) × (cells p ≡ none)) ps

-- The unused addresses stay so when only others are used.
pub All-unused :
    (cells cells' : Cells) (ps : List Ptr)
    → ((q : Ptr) → has q ps ≡ true → cells q ≡ none → cells' q ≡ none)
    → All (λ p. (p ≢ null) × (cells p ≡ none)) ps
    → All (λ p. (p ≢ null) × (cells' p ≡ none)) ps
All-unused cells cells' [] same h = tt
All-unused cells cells' (p ∷ ps) same h = (
  (h.0.0, same p (ground arith) h.0.1),
  All-unused cells cells' ps (λ q inside. same q (ground arith)) h.1,
)

used_ne : (cells : Cells) (p q : Ptr) (c : Cell) → cells p ≡ some c → cells q ≡ none → q ≢ p
used_ne cells p q c at_p unused same = cc (ap cells same, at_p, unused)

pub update-unused :
    (cells : Cells) (p q : Ptr) (c d : Cell)
    → cells p ≡ some c
    → cells q ≡ none
    → update cells p (some d) q ≡ none
update-unused cells p q c d at_p unused =
    update_other cells p q _ (used_ne cells p q c at_p unused) ∙ unused

-- A read node is added.
module _ (m : Machine) (p : Ptr) (rest : List Ptr) (a : ℕ) where
  pub read-Keeps :
      (rs : List ReadChain.Entry)
      → IsSupplied m p rest
      → ReadChain.Chain m.cells rs
      → Keeps 0 m.cells (ReadAdd.added m p rest a rs).cells
  read-Keeps [] s ch q c at_q other =
      update_other m.cells p q _ (λ same. used_ne m.cells q p c at_q s.fresh (sym same)) ∙ at_q
  read-Keeps (e ∷ rs) s ch q c at_q other =
      let final : Ptr = ReadChain.last (e ∷ rs) in
      update_other (update m.cells p (some (ReadAdd.node a null))) final q _
        (kind_ne m.cells q final c _ at_q (ReadAdd.last-cell m.cells e rs ch).1 other)
      ∙ update_other m.cells p q _ (λ same. used_ne m.cells q p c at_q s.fresh (sym same))
      ∙ at_q

  pub read-unused :
      (rs : List ReadChain.Entry) (q : Ptr)
      → ReadChain.Chain m.cells rs
      → q ≢ p
      → m.cells q ≡ none
      → (ReadAdd.added m p rest a rs).cells q ≡ none
  read-unused [] q ch ne unused = update_other m.cells p q _ ne ∙ unused
  read-unused (e ∷ rs) q ch ne unused =
      let final : Ptr = ReadChain.last (e ∷ rs) in
      update_other (update m.cells p (some (ReadAdd.node a null))) final q _
        (used_ne m.cells final q _ (ReadAdd.last-cell m.cells e rs ch).1 unused)
      ∙ update_other m.cells p q _ ne
      ∙ unused

-- A write node with its buffer is added.
module _ (m : Machine) (p b : Ptr) (rest : List Ptr) (a v : ℕ) where
  pub write-Keeps :
      (es : List Entry)
      → AreSupplied m p b rest
      → Chain m.cells es
      → Keeps 1 m.cells (added m p b rest a v es).cells
  write-Keeps [] s ch q c at_q other =
      (written-other m p b rest (node a b null) c v q s at_q).2 ∙ at_q
  write-Keeps (e ∷ es) s ch q c at_q other =
      let at_last = (last-cell m.cells e es ch).1 in
      update_other (written m p b rest (node a b null) v).cells (last (e ∷ es)) q _ (
        kind_ne m.cells q (last (e ∷ es)) c _ at_q at_last
          (λ same. other (same ∙ kind-last_node e es null)))
      ∙ (written-other m p b rest (node a b null) c v q s at_q).2
      ∙ at_q

  pub write-unused :
      (es : List Entry) (q : Ptr)
      → Chain m.cells es
      → q ≢ p
      → q ≢ b
      → m.cells q ≡ none
      → (added m p b rest a v es).cells q ≡ none
  write-unused [] q ch ne ne_buffer unused =
      update_other (update m.cells p (some (node a b null))) b q _ ne_buffer
      ∙ update_other m.cells p q _ ne
      ∙ unused
  write-unused (e ∷ es) q ch ne ne_buffer unused =
      update_other (written m p b rest (node a b null) v).cells (last (e ∷ es)) q _
        (used_ne m.cells (last (e ∷ es)) q _ (last-cell m.cells e es ch).1 unused)
      ∙ update_other (update m.cells p (some (node a b null))) b q _ ne_buffer
      ∙ update_other m.cells p q _ ne
      ∙ unused
