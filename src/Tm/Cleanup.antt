-- ===== src/Tm/Cleanup.antt =====
-- What ends a transaction in 335740/tm.c: `transaction_cleanup` and `free`, for objects that lie apart
-- because they are of different types.
use mathlib.Core.Option.{some-injective}
use cs453_concurrent_algorit.Base.{
  ℕ, ◌<◌, ◌≡◌, ◌≢◌, refl, sym, ◌∙◌, ap, subst, true, false, some, none, List, [], ◌∷◌, has, update,
  ◌==◌, arith, length, Bool-cases, inl, inr,
}
use cs453_concurrent_algorit.Heap.{
  Ptr, null, Cell, Cells, read_node, write_node, word, transaction, segment_node, start_segment,
  reference_region, region, Transaction, Machine, ok, free,
}
use cs453_concurrent_algorit.Heap.Laws.{load-ok, free-ok, without}
use cs453_concurrent_algorit.ReadSet.Chain as ReadChain
use cs453_concurrent_algorit.ReadSet.Cleanup.{read_set_cleanup-without}
use cs453_concurrent_algorit.WriteSet.Chain.{
  Entry, nodes, buffers, head, Holds, Chain, Chain-frame, Within,
}
use cs453_concurrent_algorit.WriteSet.Cleanup.{objects, write_set_cleanup-without}
use cs453_concurrent_algorit.Transaction.{transaction_cleanup}
use cs453_concurrent_algorit.Tm.{abort}

-- The type of an object, as a number.
abbrev pub kind : Cell → ℕ
kind (read_node n) = 0
kind (write_node n) = 1
kind (word v) = 2
kind (transaction t) = 3
kind (segment_node n) = 4
kind start_segment = 5
kind (region r) = 6
kind (reference_region r) = 7

pub kind_ne :
    (cells : Cells) (p q : Ptr) (c d : Cell)
    → cells p ≡ some c
    → cells q ≡ some d
    → kind c ≢ kind d
    → p ≢ q
kind_ne cells p q c d at_p at_q other same =
    other (ap kind (some-injective _ _ (sym at_p ∙ ap cells same ∙ at_q)))

pub not-has-reads :
    (cells : Cells) (rs : List ReadChain.Entry) (p : Ptr) (c : Cell)
    → ReadChain.Chain cells rs
    → cells p ≡ some c
    → kind c ≢ 0
    → has p (ReadChain.nodes rs) ≡ false
not-has-reads cells [] p c ch at_p other = refl
not-has-reads cells (e ∷ rs) p c ch at_p other =
    let ne = kind_ne cells p e.node c _ at_p ch.1 other in
    ground (arith, not-has-reads cells rs p c ch.3 at_p other)

pub not-has-objects :
    (cells : Cells) (es : List Entry) (p : Ptr) (c : Cell)
    → Chain cells es
    → cells p ≡ some c
    → kind c ≢ 1
    → kind c ≢ 2
    → (has p (objects es) ≡ false) × (has p (nodes es) ≡ false) × (has p (buffers es) ≡ false)
not-has-objects cells [] p c ch at_p no_node no_word = (refl, refl, refl)
not-has-objects cells (e ∷ es) p c ch at_p no_node no_word =
    let h : Holds cells e (head es) = ch.0 in
    let ne = kind_ne cells p e.node c _ at_p h.at_node no_node in
    let ne_buffer = kind_ne cells p e.buffer c _ at_p h.at_buffer no_word in
    ground (arith, not-has-objects cells es p c ch.3 at_p no_node no_word)

pub without-other :
    (ps : List Ptr) (cells : Cells) (q : Ptr) → has q ps ≡ false → without ps cells q ≡ cells q
without-other [] cells q absent = refl
without-other (p ∷ ps) cells q absent =
    without-other ps (update cells p none) q (ground arith) ∙ ground arith

-- What lies in a write set is no read node.
Within-not-read :
    (cells : Cells) (es : List Entry) (rs : List ReadChain.Entry) (q : Ptr)
    → Chain cells es
    → ReadChain.Chain cells rs
    → Within es q
    → has q (ReadChain.nodes rs) ≡ false
Within-not-read cells [] rs q ch rch w = absurd (cc)
Within-not-read cells (e ∷ es) rs q ch rch w =
    let h : Holds cells e (head es) = ch.0 in
    elim (Bool-cases (q == e.node)) [
      | inl at ↦
          subst (λ p. has p (ReadChain.nodes rs) ≡ false) (same q e.node at)
            (not-has-reads cells rs e.node _ rch h.at_node (omega arith))
      | inr away ↦ elim (Bool-cases (q == e.buffer)) [
        | inl at ↦
            subst (λ p. has p (ReadChain.nodes rs) ≡ false) (same q e.buffer at)
              (not-has-reads cells rs e.buffer _ rch h.at_buffer (omega arith))
        | inr away_too ↦ Within-not-read cells es rs q ch.3 rch (later q e es away away_too w)
      ]
    ]
  where
    same : (x y : Ptr) → (x == y) ≡ true → y ≡ x
    same x y h = ground arith

    later :
        (x : Ptr) (f : Entry) (fs : List Entry)
        → (x == f.node) ≡ false
        → (x == f.buffer) ≡ false
        → Within (f ∷ fs) x
        → Within fs x
    later x f fs h k v = ground arith

-- The objects of a transaction at `tx`: itself, its read set `rs` and its write set `es`.
pub record IsTransaction (cells : Cells) (tx : Ptr) (t : Transaction) (rs : List ReadChain.Entry)
    (es : List Entry) : Type 0 where
  pub real : tx ≢ null
  pub at_tx : cells tx ≡ some (transaction t)
  pub first_read : t.first_read_node ≡ ReadChain.head rs
  pub first_write : t.first_write_node ≡ head es
  pub reads : ReadChain.Chain cells rs
  pub writes : Chain cells es

-- The cells without the read set, without the write set, and without the transaction too.
abbrev pub without_sets : List ReadChain.Entry → List Entry → Cells → Cells
without_sets rs es cells = without (objects es) (without (ReadChain.nodes rs) cells)

abbrev pub freed : Ptr → List ReadChain.Entry → List Entry → Cells → Cells
freed tx rs es cells = update (without_sets rs es cells) tx none

pub transaction_cleanup_lem :
    (fuel : ℕ) (m : Machine) (tx : Ptr) (t : Transaction)
    → (rs : List ReadChain.Entry) (es : List Entry) → IsTransaction m.cells tx t rs es
    → length rs < fuel
    → length es < fuel
    → transaction_cleanup fuel tx m ≡ ok tt (record m { cells = without_sets rs es m.cells })
unfolding transaction_cleanup
transaction_cleanup_lem fuel m tx t rs es s enough enough_writes =
    let cells = without (ReadChain.nodes rs) m.cells in
    rw (
      load-ok m tx (transaction t) s.real s.at_tx,
      s.first_read,
      read_set_cleanup-without fuel m rs s.reads enough,
      s.first_write,
      write_set_cleanup-without fuel (record m { cells = cells }) es
          (Chain-frame m.cells cells es
            (λ q w.
              without-other (ReadChain.nodes rs) m.cells q
                (Within-not-read m.cells es rs q s.writes s.reads w))
            s.writes)
          enough_writes,
    )

-- The transaction itself is not among what the clean-up frees.
kept :
    (cells : Cells) (tx : Ptr) (t : Transaction) (rs : List ReadChain.Entry) (es : List Entry)
    → IsTransaction cells tx t rs es
    → without_sets rs es cells tx ≡ some (transaction t)
kept cells tx t rs es s =
    without-other (objects es) (without (ReadChain.nodes rs) cells) tx
      (not-has-objects cells es tx _ s.writes s.at_tx (omega arith) (omega arith)).0
    ∙ without-other (ReadChain.nodes rs) cells tx
        (not-has-reads cells rs tx _ s.reads s.at_tx (omega arith))
    ∙ s.at_tx

pub free_transaction_lem :
    (m : Machine) (tx : Ptr) (t : Transaction) (rs : List ReadChain.Entry) (es : List Entry)
    → IsTransaction m.cells tx t rs es
    → free tx (record m { cells = without_sets rs es m.cells })
      ≡ ok tt (record m { cells = freed tx rs es m.cells })
free_transaction_lem m tx t rs es s =
    free-ok (record m { cells = without_sets rs es m.cells }) tx (transaction t) s.real
      (kept m.cells tx t rs es s)

-- An abort frees the transaction, its read set and its write set, each object once, and nothing else.
pub abort_lem :
    (fuel : ℕ) (m : Machine) (tx : Ptr) (t : Transaction)
    → (rs : List ReadChain.Entry) (es : List Entry) → IsTransaction m.cells tx t rs es
    → length rs < fuel
    → length es < fuel
    → abort fuel tx m ≡ ok false (record m { cells = freed tx rs es m.cells })
unfolding abort
abort_lem fuel m tx t rs es s enough enough_writes = rw (
  transaction_cleanup_lem fuel m tx t rs es s enough enough_writes,
  free_transaction_lem m tx t rs es s,
)
