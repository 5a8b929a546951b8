-- ===== src/Concurrent/Serial.antt =====
-- Serializability by write versions: when a transaction of 335740/tm.c stores its write set, what it
-- has read is still the memory that the transactions with smaller write versions have left.
use mathlib.Core.Option.{some-injective}
use cs453_concurrent_algorit.Base.{
  subst, ℕ, ◌≤◌, ◌≡◌, true, ◌⊎◌, Option, some, none, All, All-map, update_ind, update, arith,
}
use cs453_concurrent_algorit.SharedLock.{SharedLock}
use cs453_concurrent_algorit.Concurrent.Thread.{Shared, Pc, storing, stored, updated}
use cs453_concurrent_algorit.Concurrent.System.{System, Step, pick, Reach, initial, later}
use cs453_concurrent_algorit.Concurrent.Locks.{LocksInv, Reach-LocksInv}
use cs453_concurrent_algorit.Concurrent.Versions.{VersionsInv, Reach-VersionsInv, Move-wv-le}
use cs453_concurrent_algorit.Concurrent.Reads.{seen_of}
use cs453_concurrent_algorit.Concurrent.Snapshot.{SnapshotInv, Reach-SnapshotInv}
use cs453_concurrent_algorit.Concurrent.Commit.{
  LinkedInv, Reach-LinkedInv, IsCertified, IsValidating, Move-IsValidating, keep-IsValidating,
}

abbrev AllValidating : Shared → (ℕ → Pc) → Type 0
AllValidating m pc = (i : ℕ) → IsValidating m pc (pc i)

Step-AllValidating :
    {s t : System}
    → LocksInv s.shared s.pc
    → VersionsInv s.shared s.pc
    → ((i : ℕ) → LinkedInv (s.pc i))
    → SnapshotInv s.shared s.pc
    → Step s t
    → AllValidating s.shared s.pc
    → AllValidating t.shared t.pc
Step-AllValidating {s} locks versions linked snapshot (pick i {m} {p} mv) v =
    update_ind (λ j q. IsValidating m (update s.pc i p) q) s.pc i
      (keep-IsValidating locks versions i mv p (Move-wv-le locks versions i mv)
        (Move-IsValidating locks versions mv (linked i) (snapshot i) (v i)))
      (λ j ne.
        keep-IsValidating locks versions i mv (s.pc j)
          (λ wv e. omega (arith, versions.ticked j wv e)) (v j))

Reach-AllValidating :
    {raw : SharedLock} {mem : ℕ → ℕ} {s : System} → Reach raw mem s → AllValidating s.shared s.pc
Reach-AllValidating initial = λ i. tt
Reach-AllValidating (later r st) =
    Step-AllValidating (Reach-LocksInv r) (Reach-VersionsInv r) (Reach-LinkedInv r)
      (Reach-SnapshotInv r) st (Reach-AllValidating r)

-- The write version of a thread in store_write_set.
abbrev pub storing_wv : Pc → Option ℕ
storing_wv (storing tx wv todo) = some wv
storing_wv (stored tx wv todo) = some wv
storing_wv (updated tx wv todo) = some wv
storing_wv _ = none

certified :
    (m : Shared) (pc : ℕ → Pc) (p : Pc) (wv : ℕ)
    → storing_wv p ≡ some wv
    → IsValidating m pc p
    → All (IsCertified m pc wv) (seen_of p)
certified m pc (storing tx w todo) wv e v =
    subst (λ k. All (IsCertified m pc k) tx.seen) (some-injective _ _ e) v
certified m pc (stored tx w todo) wv e v =
    subst (λ k. All (IsCertified m pc k) tx.seen) (some-injective _ _ e) v
certified m pc (updated tx w todo) wv e v =
    subst (λ k. All (IsCertified m pc k) tx.seen) (some-injective _ _ e) v
certified m pc _ wv e v = cc

-- While a thread stores its write set with version `wv`, each word that its transaction read while
-- the word's lock was free is as it was read, or was overwritten with a stamp of at least `wv`.
pub storing-seen :
    {raw : SharedLock} {mem : ℕ → ℕ} {s : System}
    → Reach raw mem s
    → (i wv : ℕ) → storing_wv (s.pc i) ≡ some wv
    → All
        (λ e. e.clean ≡ true → (s.shared.mem e.address ≡ e.value) ⊎ (wv ≤ s.shared.stamp e.address))
        (seen_of (s.pc i))
storing-seen {s} r i wv e =
    All-map (λ e fresh clean. ground (arith, (fresh clean).current)) (seen_of (s.pc i))
      (certified s.shared s.pc (s.pc i) wv e (Reach-AllValidating r i))
