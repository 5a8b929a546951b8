-- ===== src/Concurrent/Examples.antt =====
-- The theorems at one run: thread 0 has read a word and is about to store it, while thread 1 has
-- begun a transaction.
use cs453_concurrent_algorit.Base.{ℕ, ◌≤◌, ◌≡◌, refl, true, false, ◌⊎◌, All, arith, ◌+◌}
use cs453_concurrent_algorit.SharedLock.{SharedLock, find_lock}
use cs453_concurrent_algorit.Concurrent.Thread.{flag}
use cs453_concurrent_algorit.Concurrent.System.{System, Reach, initial, start}
use cs453_concurrent_algorit.Concurrent.Versions.{rv_of}
use cs453_concurrent_algorit.Concurrent.Reads.{seen_of}
use cs453_concurrent_algorit.Concurrent.Past.{validated_of}
use cs453_concurrent_algorit.Concurrent.AsOf.{mem_as_of, clean_reads_consistent}
use cs453_concurrent_algorit.Concurrent.Serial.{storing-seen}
use cs453_concurrent_algorit.Concurrent.Safety.{mutual_exclusion, no_lock_leak}
use cs453_concurrent_algorit.Concurrent.Anomaly.{HasIncremented, lost_update, about_to_store}

abbrev raw : SharedLock
raw = record { clock = 7; locks = λ x. record { lock = true; version = 9 }; segment_lock = true }

abbrev mem : ℕ → ℕ
mem a = a

abbrev busy : System
busy = (about_to_store raw mem 16).0

mutual_exclusion_example : ◌≡◌ {A = ℕ} 0 0 × (flag busy.shared (find_lock 16) ≡ true)
unfolding about_to_store find_lock
mutual_exclusion_example =
    mutual_exclusion (about_to_store raw mem 16).1 0 0 (find_lock 16) refl refl

no_lock_leak_example : flag (start raw mem).shared 16 ≡ false
no_lock_leak_example = no_lock_leak {raw = raw} {mem = mem} initial (λ i. refl) 16 (omega arith)

clean_reads_consistent_example :
    All
      (λ e.
        (e.stamp ≤ rv_of (busy.pc 0))
        × (e.clean ≡ true
            → mem_as_of (about_to_store raw mem 16).1 (rv_of (busy.pc 0)) e.address ≡ e.value))
      (validated_of (busy.pc 0))
clean_reads_consistent_example = clean_reads_consistent (about_to_store raw mem 16).1 0

storing-seen_example :
    All
      (λ e.
        e.clean ≡ true → (busy.shared.mem e.address ≡ e.value) ⊎ (1 ≤ busy.shared.stamp e.address))
      (seen_of (busy.pc 0))
unfolding about_to_store
storing-seen_example = storing-seen (about_to_store raw mem 16).1 0 1 refl

lost_update_example :
    (s : System) × Reach raw mem s
    × HasIncremented 16 (s.pc 0)
    × HasIncremented 16 (s.pc 1)
    × (s.shared.mem 16 ≡ mem 16 + 1)
lost_update_example = lost_update raw mem 16
