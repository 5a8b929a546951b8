-- ===== src/Concurrent/AsOf.antt =====
-- The memory as of a version: the words that tm_read of 335740/tm.c has validated and that were copied
-- under a free lock are those of the memory as of the reader's read version.
use cs453_concurrent_algorit.Base.{
  ℕ, ◌≤◌, ◌<◌, ◌≡◌, refl, sym, ap, subst, ◌∙◌, true, ◌⊎◌, inl, inr, some, none, All, All-map₂,
  update, update_ind, leb, if◌then◌else◌, arith,
}
use cs453_concurrent_algorit.SharedLock.{SharedLock}
use cs453_concurrent_algorit.Concurrent.Thread.{
  Shared, clock, Seen, look, Pc, idle, running, copied, flagged, locking, undoing, checking,
  checked, storing, stored, updated, ended, Move,
}
use cs453_concurrent_algorit.Concurrent.System.{System, pick, Reach, initial, later}
use cs453_concurrent_algorit.Concurrent.Versions.{Reach-VersionsInv, rv_of}
use cs453_concurrent_algorit.Concurrent.Reads.{seen_of, Move-seen, Move-same_rv}
use cs453_concurrent_algorit.Concurrent.Snapshot.{IsFresh, Move-IsFresh, Reach-SnapshotInv}
use cs453_concurrent_algorit.Concurrent.Past.{validated_of, Reach-IsPast}

-- A store counts when its transaction has a write version of at most `v`.
abbrev after_move : {m m' : Shared} {p p' : Pc} → ℕ → (ℕ → ℕ) → Move m p m' p' → ℕ → ℕ
after_move v old (Move.store_word {wv} {w}) a =
    if leb wv v then update old w.address w.value a else old a
after_move v old _ a = old a

-- The memory as of version `v`: what the stores of a run leave there, when those of the transactions
-- with a write version above `v` are left out.
abbrev pub mem_as_of : {raw : SharedLock} {mem : ℕ → ℕ} {s : System} → Reach raw mem s → ℕ → ℕ → ℕ
mem_as_of {mem} initial v a = mem a
mem_as_of (later r (pick i mv)) v a = after_move v (mem_as_of r v) mv a

-- A move stores nothing at `a`, or the word is what the move stores unless its version is too high.
abbrev AsOfChange : (m m' : Shared) → ℕ → ℕ → (old new : ℕ) → Type 0
AsOfChange m m' v a old new =
    ((m'.mem a ≡ m.mem a) × (m'.stamp a ≡ m.stamp a) × (new ≡ old))
    ⊎ ((m'.stamp a ≤ v) × (new ≡ m'.mem a))
    ⊎ ((v < m'.stamp a) × (new ≡ old))

Move-AsOfChange :
    {m m' : Shared} {p p' : Pc} (v : ℕ) (old : ℕ → ℕ) (a : ℕ) (mv : Move m p m' p')
    → AsOfChange m m' v a (old a) (after_move v old mv a)
Move-AsOfChange v old a Move.store_word = ground arith
Move-AsOfChange v old a _ = inl (refl, refl, refl)

-- As of any version from its stamp on, a word is the one in the memory.
mem_as_of-latest :
    {raw : SharedLock} {mem : ℕ → ℕ} {s : System} (r : Reach raw mem s) (v a : ℕ)
    → s.shared.stamp a ≤ v
    → mem_as_of r v a ≡ s.shared.mem a
mem_as_of-latest initial v a small = refl
mem_as_of-latest (later r (pick i mv)) v a small =
    ground (arith, Move-AsOfChange v (mem_as_of r v) a mv, mem_as_of-latest r v a)

-- What is known of a word that was copied while its lock was free
abbrev IsAsOf : {raw : SharedLock} {mem : ℕ → ℕ} {s : System} → Reach raw mem s → ℕ → Seen → Type 0
IsAsOf r v e = e.clean ≡ true → e.stamp ≤ v → mem_as_of r v e.address ≡ e.value

abbrev AsOfInv : {raw : SharedLock} {mem : ℕ → ℕ} {s : System} → Reach raw mem s → Type 0
AsOfInv {s} r = (i : ℕ) → All (IsAsOf r (rv_of (s.pc i))) (seen_of (s.pc i))

module _ {raw : SharedLock} {mem : ℕ → ℕ} {s : System} (r : Reach raw mem s) (inv : AsOfInv r)
    (i : ℕ) {m' : Shared} {p' : Pc} (mv : Move s.shared (s.pc i) m' p') where
  -- A fresh word was not stored by a transaction with a write version up to `v`.
  IsAsOf-keep :
      (v : ℕ) (e : Seen)
      → v ≤ clock s.shared
      → (e.clean ≡ true → IsFresh s.shared s.pc v e)
      → IsAsOf r v e
      → IsAsOf (later r (pick i mv)) v e
  IsAsOf-keep v e begun fresh known clean small =
      let kept = Move-IsFresh s.pc i mv v begun e (fresh clean) in
      ground
        (arith, Move-AsOfChange v (mem_as_of r v) e.address mv, kept.current, known clean small)

  keep : (j : ℕ) → All (IsAsOf (later r (pick i mv)) (rv_of (s.pc j))) (seen_of (s.pc j))
  keep j =
      All-map₂ (λ e. IsAsOf-keep (rv_of (s.pc j)) e ((Reach-VersionsInv r).begun j))
        (seen_of (s.pc j)) (Reach-SnapshotInv r j) (inv j)

  copied_now : (v a : ℕ) → s.shared ≡ m' → IsAsOf (later r (pick i mv)) v (look s.shared a)
  copied_now v a same clean small =
      mem_as_of-latest (later r (pick i mv)) v a (subst (λ (n : Shared). n.stamp a ≤ v) same small)
      ∙ sym (ap (λ (n : Shared). n.mem a) same)

  self : All (IsAsOf (later r (pick i mv)) (rv_of p')) (seen_of p')
  self = elim (Move-same_rv mv) [
    | inl same ↦
        subst (λ v. All (IsAsOf (later r (pick i mv)) v) (seen_of p')) (sym same)
          (Move-seen (IsAsOf (later r (pick i mv)) (rv_of (s.pc i))) mv
            (λ a same held. copied_now (rv_of (s.pc i)) a same) (keep i))
    | inr nothing ↦ subst (λ es. All (IsAsOf (later r (pick i mv)) (rv_of p')) es) (sym nothing) tt
  ]

  Move-AsOfInv : AsOfInv (later r (pick i mv))
  Move-AsOfInv =
      update_ind (λ j p. All (IsAsOf (later r (pick i mv)) (rv_of p)) (seen_of p)) s.pc i self
        (λ j ne. keep j)

Reach-AsOfInv : {raw : SharedLock} {mem : ℕ → ℕ} {s : System} (r : Reach raw mem s) → AsOfInv r
Reach-AsOfInv initial = λ i. tt
Reach-AsOfInv (later r (pick i mv)) = Move-AsOfInv r (Reach-AsOfInv r) i mv

validated-All {ℓ} : (P : Seen → Type ℓ) (p : Pc) → All P (seen_of p) → All P (validated_of p)
validated-All P (copied tx a (some e)) all = all.1
validated-All P (copied tx a none) all = all
validated-All P (flagged tx a (some e)) all = all.1
validated-All P (flagged tx a none) all = all
validated-All P idle all = tt
validated-All P (running tx) all = all
validated-All P (locking tx done todo) all = all
validated-All P (undoing tx todo) all = all
validated-All P (checking tx wv todo) all = all
validated-All P (checked tx wv todo) all = all
validated-All P (storing tx wv todo) all = all
validated-All P (stored tx wv todo) all = all
validated-All P (updated tx wv todo) all = all
validated-All P (ended tx done) all = all

-- However the threads are interleaved, each word for which tm_read has returned true in a transaction
-- was written, when it was copied, by a transaction with a write version up to the reader's read version.
-- Those of these words that were copied while their locks were free belong to one snapshot, the memory
-- as of the read version: each has the value that the stores so far of all transactions with a write
-- version up to the read version, and of no others, leave at its address.
pub clean_reads_consistent :
    {raw : SharedLock} {mem : ℕ → ℕ} {s : System} (r : Reach raw mem s) (i : ℕ)
    → All
        (λ e.
          (e.stamp ≤ rv_of (s.pc i))
          × (e.clean ≡ true → mem_as_of r (rv_of (s.pc i)) e.address ≡ e.value))
        (validated_of (s.pc i))
clean_reads_consistent {s} r i =
    All-map₂ (λ e past known. (past, λ clean. known clean past)) (validated_of (s.pc i))
      (Reach-IsPast r i) (validated-All (IsAsOf r (rv_of (s.pc i))) (s.pc i) (Reach-AsOfInv r i))
