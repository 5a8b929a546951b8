-- ===== src/Grading/Sync/Rounds.antt =====
-- The threads of measure in grading/grading.cpp, after any number of moves.
use cs453_concurrent_algorit.Base.{
  ℕ, suc, ◌+◌, ◌^◌, ◌<◌, ◌≡◌, ◌≢◌, inl, inr, refl, sym, ◌∙◌, subst, false, Option, List, [], update,
  ◌==◌, Bool-cases, arith,
}
use cs453_concurrent_algorit.Grading.Counting.{count-zero}
use cs453_concurrent_algorit.Grading.Latch.{reset, overtime}
use cs453_concurrent_algorit.Grading.Sync.{
  Message, Sync, polling, stopped, Local, at, Move, Master, joining, returned, MasterMove, notify,
  wake, give_up, read_done, read_fail, read_other, read_error, join_success, join_failure, System,
  Stopped, worker, master_step, joined, Reach, initial, later,
}
use cs453_concurrent_algorit.Grading.Sync.Places.{
  Idle, Gathering, Spinning, Opener, Closer, Quitting, success, failure, Verdict, is_spinning,
}
use cs453_concurrent_algorit.Grading.Sync.Phases.{
  Awaiting, Resting, Joining, nothing, something, Phase, settled, gathering, opening, running,
  closing, quitting,
}
use cs453_concurrent_algorit.Grading.Sync.Gather.{
  settled_move, gather_move, opener_move, spinner_move, quit_move,
}
use cs453_concurrent_algorit.Grading.Sync.Run.{run_move, closer_move, idle_move}

Idle-quiet : (l : ℕ) (fs : List Message) (x : Local) → Idle l fs x → is_spinning x ≡ false
Idle-quiet l fs (at k polling) h = refl
Idle-quiet l fs (at k stopped) h = refl
Idle-quiet l fs x h = elim h [ ]

Idle-Gathering : (k : ℕ) (x : Local) → Idle (suc k) [] x → Gathering k x
Idle-Gathering k (at r polling) h = h
Idle-Gathering k (at r stopped) h = elim (h.1.1) [ ]
Idle-Gathering k x h = elim h [ ]

Idle-Quitting : (l : ℕ) (fs : List Message) (x : Local) → Idle l fs x → Quitting l x
Idle-Quitting l fs (at k polling) h = h
Idle-Quitting l fs (at k stopped) h = h.0
Idle-Quitting l fs x h = elim h [ ]

module _ (n : ℕ) (some_worker : 0 < n) (s : Sync) (local : ℕ → Local) where
  abbrev with_master : Sync → Master → System
  with_master c m = record { sync = c; local = local; master = m }

  -- The master between two rounds
  settled_master :
      (l : ℕ) (m m' : Master) (c : Sync)
      → s.nbready ≡ 0
      → Verdict s.errmsg s.failures s.status
      → Resting l s m
      → ((j : ℕ) → j < n → Idle l s.failures (local j))
      → MasterMove s m c m'
      → Phase n (with_master c m')
  settled_master l m m' c none v rest all (notify {k}) =
      gathering k refl rest.1
        (none
          ∙ sym (
              count-zero is_spinning n local
                (λ j inside. Idle-quiet l s.failures (local j) (all j inside))))
        (omega arith) (refl, rest.2)
        (λ j inside. Idle-Gathering k (local j) (
          subst (λ l. Idle l [] (local j)) (sym rest.0)
            (subst (λ fs. Idle l fs (local j)) rest.1 (all j inside))))
  settled_master l m m' c none v rest all (wake (reset raised)) =
      settled l none v (rest.0, refl) all
  settled_master l m m' c none v rest all (give_up (overtime lowered bounded)) = cc
  settled_master l m m' c none v rest all (read_done status) = elim v [
    | success same clean ↦ settled l none (success same clean) (rest.0, clean, rest.1) all
    | failure same told ↦ cc
  ]
  settled_master l m m' c none v rest all (read_fail status) = elim v [
    | success same clean ↦ cc
    | failure same told ↦ settled l none (failure same told) (told, rest.1) all
  ]
  settled_master l m m' c none v rest all (read_other no_done no_fail) = elim v [
    | success same clean ↦ absurd (no_done same)
    | failure same told ↦ absurd (no_fail same)
  ]
  settled_master l m m' c none v rest all read_error = settled l none v rest all
  settled_master l m m' c none v rest all join_success =
      quitting l refl (nothing refl rest.1 (sym rest.0))
        (λ j inside. Idle-Quitting l s.failures (local j) (all j inside))
  settled_master l m m' c none v rest all join_failure =
      quitting l refl (something rest.0)
        (λ j inside. Idle-Quitting l s.failures (local j) (all j inside))

  -- The master during a round can only give up.
  Awaiting-overrun :
      (l : ℕ) (m m' : Master) (c : Sync)
      → Awaiting l s.donelatch.raised m
      → MasterMove s m c m'
      → (c ≡ s) × Awaiting l s.donelatch.raised m'
  Awaiting-overrun l m m' c h (wake (reset raised)) = cc
  Awaiting-overrun l m m' c h (give_up (overtime lowered bounded)) = (refl, lowered)
  Awaiting-overrun l m m' c h move = elim h [ ]

  Joining-stays :
      (l : ℕ) (m m' : Master) (c : Sync) → Joining n l s.failures local m → MasterMove s m c m' → ⊥
  Joining-stays l m m' c h (wake w) = h
  Joining-stays l m m' c h move = elim h [ ]

  master-Phase :
      (m m' : Master) (c : Sync)
      → Phase n (with_master s m)
      → MasterMove s m c m'
      → Phase n (with_master c m')
  master-Phase m m' c (settled l none v rest all) move =
      settled_master l m m' c none v rest all move
  master-Phase m m' c (gathering l status clean held few master all) move =
      let (same, master') = Awaiting-overrun l m m' c master move in
      subst (λ c. Phase n (with_master c m')) (sym same)
        (gathering l status clean held few master' all)
  master-Phase m m' c (opening l i status clean master below opener all) move =
      let (same, master') = Awaiting-overrun l m m' c master move in
      subst (λ c. Phase n (with_master c m')) (sym same)
        (opening l i status clean master' below opener all)
  master-Phase m m' c (running l progress held few master all) move =
      let (same, master') = Awaiting-overrun l m m' c master move in
      subst (λ c. Phase n (with_master c m')) (sym same) (running l progress held few master' all)
  master-Phase m m' c (closing l i master below closer all) move =
      let (same, master') = Awaiting-overrun l m m' c master move in
      subst (λ c. Phase n (with_master c m')) (sym same) (closing l i master' below closer all)
  master-Phase m m' c (quitting l status master all) move =
      absurd (Joining-stays l m m' c master move)

module _ (n : ℕ) (small : n < 2 ^ 32) (s : System) (i : ℕ) (below : i < n) where
  move-Phase :
      (y : Local) (c : Sync)
      → Phase n s
      → Move n s.sync (s.local i) c y
      → Phase n (record s { sync = c; local = update s.local i y })
  move-Phase y c (settled l none v rest all) move =
      settled_move n small s.sync s.local s.master i below l (s.local i) y c none v rest all
        (all i below) move
  move-Phase y c (gathering l status clean held few master all) move =
      gather_move n small s.sync s.local s.master i below l (s.local i) y c status clean held few
        master all refl (all i below) move
  move-Phase y c (opening l o status clean master inside opener all) move =
      elim (Bool-cases (o == i)) [
        | inl e ↦
            let same : o ≡ i = ground arith in
            opener_move n small s.sync s.local s.master i below l (s.local i) y c status clean
              master (subst (λ o. (j : ℕ) → j ≢ o → j < n → Spinning l (s.local j)) same all)
              (subst (λ o. Opener l s.sync.nbready (s.local o)) same opener) move
        | inr e ↦
            spinner_move n small s.sync s.local s.master i below l o (s.local i) y c status clean
              master inside (ground arith) opener all (all i (ground arith) below) move
      ]
  move-Phase y c (running l progress held few master all) move =
      run_move n small s.sync s.local s.master i below l (s.local i) y c progress held few master
        all refl (all i below) move
  move-Phase y c (closing l o master inside closer all) move = elim (Bool-cases (o == i)) [
    | inl e ↦
        let same : o ≡ i = ground arith in
        closer_move n small s.sync s.local s.master i below l (s.local i) y c master
          (subst (λ o. (j : ℕ) → j ≢ o → j < n → Idle l s.sync.failures (s.local j)) same all)
          (subst (λ o. Closer l s.sync (s.local o)) same closer) move
    | inr e ↦
        idle_move n small s.sync s.local s.master i below l o (s.local i) y c master inside
          (ground arith) closer all (all i (ground arith) below) move
  ]
  move-Phase y c (quitting l status master all) move =
      quit_move n small s.sync s.local s.master i below l (s.local i) y c status master all refl
        (all i below) move

joined-Phase :
    (n : ℕ) (s : System) (e : Option Message)
    → s.master ≡ joining e
    → ((j : ℕ) → j < n → Stopped (s.local j))
    → Phase n s
    → Phase n (record s { master = returned e })
joined-Phase n s e master ended (settled l none v rest all) =
    elim (subst (Resting l s.sync) master rest) [ ]
joined-Phase n s e master ended (gathering l status clean held few waits all) =
    elim (subst (Awaiting l s.sync.donelatch.raised) master waits) [ ]
joined-Phase n s e master ended (opening l o status clean waits inside opener all) =
    elim (subst (Awaiting l s.sync.donelatch.raised) master waits) [ ]
joined-Phase n s e master ended (running l progress held few waits all) =
    elim (subst (Awaiting l s.sync.donelatch.raised) master waits) [ ]
joined-Phase n s e master ended (closing l o waits inside closer all) =
    elim (subst (Awaiting l s.sync.donelatch.raised) master waits) [ ]
joined-Phase n s e master ended (quitting l status joins all) =
    quitting l status (subst (Joining n l s.sync.failures s.local) master joins, ended) all

pub Reach-Phase :
    (n nbrepeats : ℕ) (s : System) → 0 < n → n < 2 ^ 32 → Reach n nbrepeats s → Phase n s
Reach-Phase n nbrepeats s some_worker small initial =
    settled (nbrepeats + 2) refl (success refl refl) (refl, refl, refl) (λ j inside. refl)
Reach-Phase n nbrepeats s some_worker small
      (later {s = before} reached (worker i {c = c} {y = y} below move)) =
    move-Phase n small before i below y c (Reach-Phase n nbrepeats before some_worker small reached)
      move
Reach-Phase n nbrepeats s some_worker small
      (later {s = before} reached (master_step {c = c} {m = m} move)) =
    master-Phase n some_worker before.sync before.local before.master m c
      (Reach-Phase n nbrepeats before some_worker small reached) move
Reach-Phase n nbrepeats s some_worker small
      (later {s = before} reached (joined {e = e} master ended)) =
    joined-Phase n before e master ended (Reach-Phase n nbrepeats before some_worker small reached)
