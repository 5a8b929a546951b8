-- ===== src/Concurrent/Commit/Linked.antt =====
-- The read set of a read-write transaction names every word that it has read, and only such a
-- transaction commits through the write locks.
use cs453_concurrent_algorit.Base.{
  ℕ, ◌≡◌, true, false, some, none, [], ◌∷◌, has, All, All-map, update_ind, has-append_left,
  has-append_last,
}
use cs453_concurrent_algorit.SharedLock.{SharedLock}
use cs453_concurrent_algorit.Concurrent.Thread.{
  Shared, Seen, Tx, begin_tx, Pc, idle, running, copied, flagged, locking, undoing, checking,
  checked, storing, stored, updated, ended, Move,
}
use cs453_concurrent_algorit.Concurrent.System.{System, Step, pick, Reach, initial, later}
use cs453_concurrent_algorit.Concurrent.Reads.{seen_of}

-- The transaction of a thread; for a thread without one, an empty one.
abbrev pub tx_of : Pc → Tx
tx_of idle = begin_tx true 0
tx_of (running tx) = tx
tx_of (copied tx a o) = tx
tx_of (flagged tx a o) = tx
tx_of (locking tx done todo) = tx
tx_of (undoing tx todo) = tx
tx_of (checking tx wv todo) = tx
tx_of (checked tx wv todo) = tx
tx_of (storing tx wv todo) = tx
tx_of (stored tx wv todo) = tx
tx_of (updated tx wv todo) = tx
tx_of (ended tx done) = tx

abbrev pub Named : Tx → Seen → Type 0
Named tx e = has e.address tx.reads ≡ true

abbrev pub IsLinked : Pc → Type 0
IsLinked p = (tx_of p).is_ro ≡ false → All (Named (tx_of p)) (seen_of p)

-- Between lock_write_set and the validation the transaction is a read-write one.
abbrev pub IsRw : Pc → Type 0
IsRw (locking tx done todo) = tx.is_ro ≡ false
IsRw _ = Unit

pub record LinkedInv (p : Pc) : Type 0 where
  pub linked : IsLinked p
  pub rw_only : IsRw p

Move-IsLinked : {m m' : Shared} {p p' : Pc} → Move m p m' p' → IsLinked p → IsLinked p'
Move-IsLinked (Move.begin ro) l rw_tx = tt
Move-IsLinked (Move.copy_ro a h) l rw_tx = cc
Move-IsLinked (Move.copy_rw {tx} a h k) l rw_tx = (
  has-append_last a tx.reads,
  All-map (λ e named. has-append_left e.address tx.reads (a ∷ []) named) tx.seen (l rw_tx),
)
Move-IsLinked (Move.flag_busy {o = none} h) l rw_tx = l rw_tx
Move-IsLinked (Move.flag_busy {o = some e} h) l rw_tx = (l rw_tx).1
Move-IsLinked (Move.version_new {o = none} h) l rw_tx = l rw_tx
Move-IsLinked (Move.version_new {o = some e} h) l rw_tx = (l rw_tx).1
Move-IsLinked (Move.version_old {o = none} h) l rw_tx = l rw_tx
Move-IsLinked (Move.version_old {o = some e} h) l rw_tx = l rw_tx
Move-IsLinked Move.restart l rw_tx = tt
Move-IsLinked _ l rw_tx = l rw_tx

Move-IsRw : {m m' : Shared} {p p' : Pc} → Move m p m' p' → IsRw p → IsRw p'
Move-IsRw (Move.end_rw h) k = h
Move-IsRw (Move.spin busy) k = k
Move-IsRw (Move.acquire free) k = k
Move-IsRw _ k = tt

Step-LinkedInv :
    {s t : System} → ((i : ℕ) → LinkedInv (s.pc i)) → Step s t → (i : ℕ) → LinkedInv (t.pc i)
Step-LinkedInv {s} inv (pick i mv) =
    update_ind (λ j p. LinkedInv p) s.pc i
      (record { linked = Move-IsLinked mv (inv i).linked; rw_only = Move-IsRw mv (inv i).rw_only })
      (λ j ne. inv j)

pub Reach-LinkedInv :
    {raw : SharedLock} {mem : ℕ → ℕ} {s : System} → Reach raw mem s → (i : ℕ) → LinkedInv (s.pc i)
Reach-LinkedInv initial = λ i. record { linked = λ h. tt; rw_only = tt }
Reach-LinkedInv (later r st) = Step-LinkedInv (Reach-LinkedInv r) st
