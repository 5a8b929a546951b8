-- ===== src/Grading/Sync/Finish.antt =====
-- The moves of the workers of grading/grading.cpp during their tests and in worker_notify.
use cs453_concurrent_algorit.Base.{
  ℕ, ◌^◌, ◌<◌, ◌≡◌, ◌≢◌, ◌⊎◌, inl, inr, refl, sym, ap, subst, Bool, true, false, Option, none, some,
  List, [], ◌∷◌, update, arith,
}
use cs453_concurrent_algorit.Grading.Counting.{
  everyone, others, moved, count, count-moved, count-others, count-zero, one_if,
}
use cs453_concurrent_algorit.Grading.Sync.{
  run, abort, Message, Sync, add32, polling, stopped, spinning, passed, working, notifying,
  reporting, aborting, finishing, clearing, Stage, Local, at, Master, System, after_notify,
}
use cs453_concurrent_algorit.Grading.Sync.Places.{
  Among, Told, number, Idle, Running, Notifying, Leaving, Closer, success, failure, is_idle,
  is_pending,
}
use cs453_concurrent_algorit.Grading.Sync.Phases.{
  Awaiting, Progress, unseen, seen, Phase, running, closing,
}

-- What a worker knows stays true when there are more failures.
module _ (e : Option Message) (fs : List Message) (e' : Option Message) (fs' : List Message)
    (more : (m : Message) → Among m fs → Among m fs') (told : Told e fs → Told e' fs') where
  Notifying-grows : (x : Stage) → Notifying e fs x → Notifying e' fs' x
  Notifying-grows (reporting m) h = more m h
  Notifying-grows aborting h = told h
  Notifying-grows finishing h = h
  Notifying-grows x h = elim h [ ]

  pub Running-grows : (l : ℕ) (x : Local) → Running l e fs x → Running l e' fs' x
  Running-grows l (at k polling) h = h
  Running-grows l (at k spinning) h = h
  Running-grows l (at k passed) h = h
  Running-grows l (at k working) h = h
  Running-grows l (at k (notifying leaves stage)) h =
      (h.0, λ yes. let (m, among) = h.1 yes in (m, more m among), Notifying-grows stage h.2)
  Running-grows l (at k stopped) h = let (m, among) = h.1 in (h.0, (m, more m among))
  Running-grows l x h = elim h [ ]

pub Told-more : (e : Option Message) (m : Message) (fs : List Message) → Told e fs → Told e (m ∷ fs)
Told-more none m fs h = h
Told-more (some x) m fs h = inr h

Running-Idle :
    (l : ℕ) (e : Option Message) (fs : List Message) (x : Local)
    → Running l e fs x
    → is_idle x ≡ true
    → Idle l fs x
Running-Idle l e fs (at k polling) h i = h
Running-Idle l e fs (at k stopped) h i = h
Running-Idle l e fs (at k spinning) h i = cc
Running-Idle l e fs (at k passed) h i = cc
Running-Idle l e fs (at k working) h i = cc
Running-Idle l e fs (at k (notifying leaves stage)) h i = cc
Running-Idle l e fs x h i = elim h [ ]

Idle-settled : (l : ℕ) (fs : List Message) (x : Local) → Idle l fs x → is_pending x ≡ false
Idle-settled l fs (at k polling) h = refl
Idle-settled l fs (at k stopped) h = refl
Idle-settled l fs x h = elim h [ ]

-- After worker_notify
module _ (l k : ℕ) (e : Option Message) (fs : List Message) where
  pub after_notify-Idle :
      (leaves : Bool) → k ≡ l → Leaving leaves fs → Idle l fs (at k (after_notify leaves))
  after_notify-Idle true same leaving = (same, leaving refl)
  after_notify-Idle false same leaving = same

  pub after_notify-Running :
      (leaves : Bool) → k ≡ l → Leaving leaves fs → Running l e fs (at k (after_notify leaves))
  after_notify-Running true same leaving = (same, leaving refl)
  after_notify-Running false same leaving = same

  pub after_notify-idle : (leaves : Bool) → is_idle (at k (after_notify leaves)) ≡ true
  after_notify-idle true = refl
  after_notify-idle false = refl

  pub after_notify-pending : (leaves : Bool) → is_pending (at k (after_notify leaves)) ≡ false
  after_notify-pending true = refl
  after_notify-pending false = refl

number-none : (fs : List Message) → number fs ≡ 0 → fs ≡ []
number-none [] h = refl
number-none (m ∷ fs) h = absurd (omega arith)

module _ (n : ℕ) (small : n < 2 ^ 32) (s : Sync) (local : ℕ → Local) (m : Master) (i : ℕ)
    (below : i < n) where
  abbrev after : Sync → Local → System
  after c y = record { sync = c; local = update local i y; master = m }

  -- A worker that stays on its side of the store of `abort`
  pub Progress-kept :
      (x y : Local) (r : ℕ)
      → x ≡ local i
      → is_pending x ≡ is_pending y
      → Progress n s local
      → Progress n (record s { nbready = r }) (update local i y)
  Progress-kept x y r is_x same (unseen status all) =
      unseen status (omega (arith, count-moved is_pending n local i x y below is_x, ap one_if same))
  Progress-kept x y r is_x same (seen status told) = seen status told

  -- A worker that does not finish
  pub run_on :
      (l : ℕ) (x y : Local)
      → Progress n s local
      → s.nbready ≡ count is_idle n local
      → s.nbready < n
      → Awaiting l s.donelatch.raised m
      → ((j : ℕ) → j < n → Running l s.errmsg s.failures (local j))
      → x ≡ local i
      → is_pending x ≡ is_pending y
      → is_idle x ≡ is_idle y
      → Running l s.errmsg s.failures y
      → Phase n (after s y)
  run_on l x y progress ready few master all is_x pending idle here =
      running l (Progress-kept x y s.nbready is_x pending progress)
        (omega (arith, count-moved is_idle n local i x y below is_x, ap one_if idle)) few master
        (everyone n local i (Running l s.errmsg s.failures) y here (λ j ne. all j))

  pub Progress-cases : Progress n s local → (s.status ≡ run) ⊎ (s.status ≡ abort)
  Progress-cases (unseen status all) = inl status
  Progress-cases (seen status told) = inr status

  -- A test fails.
  pub run_fail :
      (l k : ℕ) (leaves : Bool) (x : Message)
      → Progress n s local
      → s.nbready ≡ count is_idle n local
      → s.nbready < n
      → Awaiting l s.donelatch.raised m
      → ((j : ℕ) → j < n → Running l s.errmsg s.failures (local j))
      → at k working ≡ local i
      → k ≡ l
      → Phase n
          (after (record s { failures = x ∷ s.failures }) (at k (notifying leaves (reporting x))))
  run_fail l k leaves x progress ready few master all is_x here =
      let y : Local = at k (notifying leaves (reporting x)) in
      let counted = count-moved is_pending n local i (at k working) y below is_x in
      running l
        (elim progress [
          | unseen status same ↦ unseen status (omega arith)
          | seen status told ↦ seen status (Told-more s.errmsg x s.failures told)
        ])
        (omega (arith, count-moved is_idle n local i (at k working) y below is_x)) few master
        (everyone n local i (Running l s.errmsg (x ∷ s.failures)) y
          (here, λ _. (x, inl refl), inl refl)
          (λ j ne inside.
            Running-grows s.errmsg s.failures s.errmsg (x ∷ s.failures) (λ m among. inr among)
              (Told-more s.errmsg x s.failures) l (local j) (all j inside)))

  -- The last worker finishes: the status says whether a test has failed.
  pub run_last :
      (l k : ℕ) (leaves : Bool)
      → Progress n s local
      → s.nbready ≡ count is_idle n local
      → s.nbready < n
      → Awaiting l s.donelatch.raised m
      → ((j : ℕ) → j < n → Running l s.errmsg s.failures (local j))
      → at k (notifying leaves finishing) ≡ local i
      → Running l s.errmsg s.failures (at k (notifying leaves finishing))
      → add32 s.nbready 1 ≡ n
      → Phase n
          (after (record s { nbready = add32 s.nbready 1 }) (at k (notifying leaves clearing)))
  run_last l k leaves progress ready few master all is_x here last =
      let y : Local = at k (notifying leaves clearing) in
      let idle : (j : ℕ) → j ≢ i → j < n → Idle l s.failures (local j) = λ j ne inside.
        Running-Idle l s.errmsg s.failures (local j) (all j inside) (
          count-others is_idle n local i (at 0 polling) (omega arith) below (ap is_idle (sym is_x))
            refl j ne inside) in
      let none_pending : count is_pending n (update local i y) ≡ 0 =
        count-zero is_pending n (update local i y) (
          everyone n local i (λ x. is_pending x ≡ false) y refl
            (λ j ne inside. Idle-settled l s.failures (local j) (idle j ne inside))) in
      closing l i master below
        (subst (Closer l (record s { nbready = add32 s.nbready 1 })) (sym (moved n local i y)) (
          here.0,
          here.1,
          elim progress [
            | unseen status same ↦ success status (
                number-none s.failures (
                  omega (
                    arith,
                    count-moved is_pending n local i (at k (notifying leaves finishing)) y below
                        is_x,
                  )))
            | seen status told ↦ failure status told
          ],
        ))
        (others n local i (Idle l s.failures) y idle)

  pub run_other :
      (l : ℕ) (x y : Local)
      → Progress n s local
      → s.nbready ≡ count is_idle n local
      → s.nbready < n
      → Awaiting l s.donelatch.raised m
      → ((j : ℕ) → j < n → Running l s.errmsg s.failures (local j))
      → x ≡ local i
      → is_pending x ≡ is_pending y
      → is_idle x ≡ false
      → is_idle y ≡ true
      → Running l s.errmsg s.failures y
      → add32 s.nbready 1 ≢ n
      → Phase n (after (record s { nbready = add32 s.nbready 1 }) y)
  run_other l x y progress ready few master all is_x pending before now here more =
      running l (Progress-kept x y (add32 s.nbready 1) is_x pending progress)
        (omega
          (arith, count-moved is_idle n local i x y below is_x, ap one_if before, ap one_if now))
        (omega arith) master
        (everyone n local i (Running l s.errmsg s.failures) y here (λ j ne. all j))
