-- ===== src/Grading/Sync/Places.antt =====
-- Where the workers of grading/grading.cpp stand in each phase of a round, and what the shared status and
-- message say there.
use cs453_concurrent_algorit.Base.{
  ℕ, suc, ◌≡◌, ◌≢◌, ◌⊎◌, sym, subst, Bool, true, false, Option, none, some, List, [], ◌∷◌,
}
use cs453_concurrent_algorit.Grading.Sync.{
  Status, wait, run, abort, done, fail, quit, Message, Sync, Stage, reporting, aborting, finishing,
  clearing, judging, ending, raising, polling, arriving, resetting, starting, spinning, passed,
  working, notifying, stopped, Local, at,
}

abbrev pub Among : Message → List Message → Type 0
Among m [] = ⊥
Among m (x ∷ fs) = (m ≡ x) ⊎ Among m fs

abbrev pub number : List Message → ℕ
number [] = 0
number (x ∷ fs) = suc (number fs)

-- A test has failed, and the stored message is that of a test that has.
abbrev pub Failed : List Message → Type 0
Failed fs = (m : Message) × Among m fs

abbrev pub Told : Option Message → List Message → Type 0
Told none fs = ⊥
Told (some m) fs = Among m fs

-- Between the two loops of worker_wait
abbrev pub is_spinning : Local → Bool
is_spinning (at k polling) = false
is_spinning (at k arriving) = false
is_spinning (at k resetting) = false
is_spinning (at k starting) = false
is_spinning (at k spinning) = true
is_spinning (at k passed) = false
is_spinning (at k working) = false
is_spinning (at k (notifying leaves stage)) = false
is_spinning (at k stopped) = false

-- Past worker_notify
abbrev pub is_idle : Local → Bool
is_idle (at k polling) = true
is_idle (at k arriving) = false
is_idle (at k resetting) = false
is_idle (at k starting) = false
is_idle (at k spinning) = false
is_idle (at k passed) = false
is_idle (at k working) = false
is_idle (at k (notifying leaves stage)) = false
is_idle (at k stopped) = true

-- Its test has failed and the status does not say so yet.
abbrev pub is_early : Stage → Bool
is_early (reporting m) = true
is_early aborting = true
is_early finishing = false
is_early clearing = false
is_early judging = false
is_early (ending e) = false
is_early raising = false

abbrev pub is_pending : Local → Bool
is_pending (at k polling) = false
is_pending (at k arriving) = false
is_pending (at k resetting) = false
is_pending (at k starting) = false
is_pending (at k spinning) = false
is_pending (at k passed) = false
is_pending (at k working) = false
is_pending (at k (notifying leaves stage)) = is_early stage
is_pending (at k stopped) = false

-- Where the workers stand in each phase
abbrev pub Idle : ℕ → List Message → Local → Type 0
Idle l fs (at k polling) = k ≡ l
Idle l fs (at k arriving) = ⊥
Idle l fs (at k resetting) = ⊥
Idle l fs (at k starting) = ⊥
Idle l fs (at k spinning) = ⊥
Idle l fs (at k passed) = ⊥
Idle l fs (at k working) = ⊥
Idle l fs (at k (notifying leaves stage)) = ⊥
Idle l fs (at k stopped) = (k ≡ l) × Failed fs

abbrev pub Gathering : ℕ → Local → Type 0
Gathering l (at k polling) = k ≡ suc l
Gathering l (at k arriving) = k ≡ suc l
Gathering l (at k resetting) = ⊥
Gathering l (at k starting) = ⊥
Gathering l (at k spinning) = k ≡ suc l
Gathering l (at k passed) = ⊥
Gathering l (at k working) = ⊥
Gathering l (at k (notifying leaves stage)) = ⊥
Gathering l (at k stopped) = ⊥

abbrev pub Opener : ℕ → ℕ → Local → Type 0
Opener l nbready (at k polling) = ⊥
Opener l nbready (at k arriving) = ⊥
Opener l nbready (at k resetting) = k ≡ suc l
Opener l nbready (at k starting) = (k ≡ suc l) × (nbready ≡ 0)
Opener l nbready (at k spinning) = ⊥
Opener l nbready (at k passed) = ⊥
Opener l nbready (at k working) = ⊥
Opener l nbready (at k (notifying leaves stage)) = ⊥
Opener l nbready (at k stopped) = ⊥

abbrev pub Spinning : ℕ → Local → Type 0
Spinning l x = x ≡ at (suc l) spinning

-- A worker in worker_notify
abbrev pub Leaving : Bool → List Message → Type 0
Leaving leaves fs = leaves ≡ true → Failed fs

abbrev pub Notifying : Option Message → List Message → Stage → Type 0
Notifying e fs (reporting m) = Among m fs
Notifying e fs aborting = Told e fs
Notifying e fs finishing = Unit
Notifying e fs clearing = ⊥
Notifying e fs judging = ⊥
Notifying e fs (ending st) = ⊥
Notifying e fs raising = ⊥

abbrev pub Running : ℕ → Option Message → List Message → Local → Type 0
Running l e fs (at k polling) = k ≡ l
Running l e fs (at k arriving) = ⊥
Running l e fs (at k resetting) = ⊥
Running l e fs (at k starting) = ⊥
Running l e fs (at k spinning) = k ≡ suc l
Running l e fs (at k passed) = k ≡ suc l
Running l e fs (at k working) = k ≡ l
Running l e fs (at k (notifying leaves stage)) = (k ≡ l) × Leaving leaves fs × Notifying e fs stage
Running l e fs (at k stopped) = (k ≡ l) × Failed fs

-- The status of a round that ends, and of one that has ended
pub data Judged (before after : Status) (e : Option Message) (fs : List Message) (s : Status)
    : Type 0 where
  success : s ≡ before → fs ≡ [] → Judged before after e fs s
  failure : s ≡ after → Told e fs → Judged before after e fs s

abbrev pub Active : Option Message → List Message → Status → Type 0
Active = Judged run abort

abbrev pub Verdict : Option Message → List Message → Status → Type 0
Verdict = Judged done fail

-- The last worker in worker_notify
abbrev pub Closing : Sync → Stage → Type 0
Closing s (reporting m) = ⊥
Closing s aborting = ⊥
Closing s finishing = ⊥
Closing s clearing = Active s.errmsg s.failures s.status
Closing s judging = Active s.errmsg s.failures s.status × (s.nbready ≡ 0)
Closing s (ending e) =
    Verdict s.errmsg s.failures e × (s.nbready ≡ 0) × Active s.errmsg s.failures s.status
Closing s raising = Verdict s.errmsg s.failures s.status × (s.nbready ≡ 0)

abbrev pub Closer : ℕ → Sync → Local → Type 0
Closer l s (at k polling) = ⊥
Closer l s (at k arriving) = ⊥
Closer l s (at k resetting) = ⊥
Closer l s (at k starting) = ⊥
Closer l s (at k spinning) = ⊥
Closer l s (at k passed) = ⊥
Closer l s (at k working) = ⊥
Closer l s (at k (notifying leaves stage)) = (k ≡ l) × Leaving leaves s.failures × Closing s stage
Closer l s (at k stopped) = ⊥

abbrev pub Quitting : ℕ → Local → Type 0
Quitting l (at k polling) = k ≡ l
Quitting l (at k arriving) = ⊥
Quitting l (at k resetting) = ⊥
Quitting l (at k starting) = ⊥
Quitting l (at k spinning) = ⊥
Quitting l (at k passed) = ⊥
Quitting l (at k working) = ⊥
Quitting l (at k (notifying leaves stage)) = ⊥
Quitting l (at k stopped) = k ≡ l

-- A status in which no worker leaves its first loop
abbrev pub Awake : Status → Type 0
Awake st = (st ≢ wait) × (st ≢ quit)

Judged-Awake :
    (before after : Status) (e : Option Message) (fs : List Message) (st : Status)
    → Awake before
    → Awake after
    → Judged before after e fs st
    → Awake st
Judged-Awake before after e fs st b a (success same clean) = subst Awake (sym same) b
Judged-Awake before after e fs st b a (failure same told) = subst Awake (sym same) a

Active-Awake : {e : Option Message} {fs : List Message} {st : Status} → Active e fs st → Awake st
Active-Awake {e} {fs} {st} h =
    Judged-Awake run abort e fs st (λ e. cc, λ e. cc) (λ e. cc, λ e. cc) h

pub Verdict-Awake :
    {e : Option Message} {fs : List Message} {st : Status} → Verdict e fs st → Awake st
Verdict-Awake {e} {fs} {st} h =
    Judged-Awake done fail e fs st (λ e. cc, λ e. cc) (λ e. cc, λ e. cc) h

Closing-Awake : (s : Sync) (x : Stage) → Closing s x → Awake s.status
Closing-Awake s clearing h = Active-Awake h
Closing-Awake s judging h = Active-Awake h.0
Closing-Awake s (ending e) h = Active-Awake h.2
Closing-Awake s raising h = Verdict-Awake h.0
Closing-Awake s x h = elim h [ ]

pub Closer-Awake : (l : ℕ) (s : Sync) (x : Local) → Closer l s x → Awake s.status
Closer-Awake l s (at k (notifying leaves stage)) h = Closing-Awake s stage h.2
Closer-Awake l s x h = elim h [ ]
