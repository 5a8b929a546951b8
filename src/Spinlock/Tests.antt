-- ===== src/Spinlock/Tests.antt =====
use cs453_concurrent_algorit.Base.{
  ℕ, zero, suc, ◌<◌, ◌≡◌, refl, true, false, ltb, lt→ltb, if◌then◌else◌,
}
use cs453_concurrent_algorit.Spinlock.{
  VersionedSpinlock, acquire, exchange_or, back_off, init, idle, Env,
}
use cs453_concurrent_algorit.Spinlock.Acquire.{Outcome, acquire-Outcome, acquire-Agree}

free_lock : acquire idle init ≡ (true, record { lock = true; version = 0 })
unfolding acquire exchange_or back_off init
free_lock = refl

held_lock :
    acquire idle (record { lock = true; version = 0 })
    ≡ (false, record { lock = true; version = 0 })
unfolding acquire exchange_or back_off init
held_lock = refl

-- The holder releases the lock before the load of the third round.
abbrev released_late : Env
released_late zero l = l
released_late (suc zero) l = l
released_late (suc (suc zero)) l = l
released_late (suc (suc (suc zero))) l = record l { lock = false }
released_late (suc (suc (suc (suc k)))) l = l

late_release :
    acquire released_late (record { lock = true; version = 5 })
    ≡ (true, record { lock = true; version = 5 })
unfolding acquire exchange_or back_off
late_release = refl

-- Other threads only ever take and release the lock, whose version stays 5.
abbrev HasVersion5 : VersionedSpinlock → Type 0
HasVersion5 l = l.version ≡ 5

released_late-keep :
    (k : ℕ) (l : VersionedSpinlock) → HasVersion5 l → HasVersion5 (released_late k l)
released_late-keep zero l h = h
released_late-keep (suc zero) l h = h
released_late-keep (suc (suc zero)) l h = h
released_late-keep (suc (suc (suc zero))) l h = h
released_late-keep (suc (suc (suc (suc k)))) l h = h

acquire-Outcome_example :
    Outcome HasVersion5 (acquire released_late (record { lock = true; version = 5 }))
acquire-Outcome_example =
    acquire-Outcome HasVersion5 released_late released_late-keep
      (record { lock = true; version = 5 }) refl

-- The same for nine accesses, and another lock afterwards.
abbrev then_reset : Env
then_reset k l = if ltb k 9 then released_late k l else init

then_reset-Agree : (k : ℕ) (l : VersionedSpinlock) → k < 9 → released_late k l ≡ then_reset k l
then_reset-Agree k l h = rw (lt→ltb k 9 h)

acquire-Agree_example :
    acquire released_late (record { lock = true; version = 5 })
    ≡ acquire then_reset (record { lock = true; version = 5 })
acquire-Agree_example =
    acquire-Agree released_late then_reset (record { lock = true; version = 5 }) then_reset-Agree
