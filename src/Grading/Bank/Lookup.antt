-- ===== src/Grading/Bank/Lookup.antt =====
-- grading/workload.hpp: the accounts that short_tx finds.
use cs453_concurrent_algorit.Base.{
  ℕ, zero, suc, ◌+◌, ◌<◌, ◌≤◌, ◌≡◌, ◌≢◌, refl, sym, ap, ◌∙◌, subst, Bool, true, false, not, ◌&&◌,
  ◌==◌, Option, none, some, [], ◌∷◌, ◌⊎◌, if◌then◌else◌, length, if_true, if_false, arith,
}
use cs453_concurrent_algorit.Base.Word.{word_limit}
use cs453_concurrent_algorit.Heap.{Ptr, null}
use cs453_concurrent_algorit.Grading.Program.{Program, done, assign, ◌>>=◌, ◌>>◌, Outcome, returned}
use cs453_concurrent_algorit.Grading.Atomic.{Atomic, eval}
use cs453_concurrent_algorit.Grading.Transaction.{TransactionalMemory}
use cs453_concurrent_algorit.Grading.Shared.{
  word_size, bind, get, bind_pointer, get_pointer, bind_array, after, after_pointer,
}
use cs453_concurrent_algorit.Grading.Bank.{Bank, account_segment, locate, found, find_accounts}
use cs453_concurrent_algorit.Grading.Bank.Memory.{accounts_of, Layout, Segments}
use cs453_concurrent_algorit.Grading.Bank.Accounts.{account_at}

-- The account that is looked for in the segments left: it may be known already.
abbrev pub target : Ptr → ℕ → Layout → Option Ptr
target ptr id layout = if ptr == null then account_at layout id else some ptr

abbrev pub both : Option Ptr → Option Ptr → Option (Ptr × Ptr)
both (some a) (some c) = some (a, c)
both _ _ = none

abbrev pub State : Type 0
State = Atomic (ℕ × ℕ)

-- A computation that changes nothing but the captured indices.
abbrev pub Finds : {A : Type 0} → Outcome State A → A → State → Type 0
Finds o r s = (c : ℕ × ℕ) × (o ≡ returned r (record s { captured = c }))

module _ (b : Bank) (tm : TransactionalMemory) where
  -- The early returns of the loop, when the sender's or the receiver's account completes the pair.
  either_known :
      {A : Type 0} (by_sender by_recver : Bool) (x y r : A) (c : ℕ × ℕ) (more : Program (ℕ × ℕ) A)
      (s : State)
      → (by_sender ≡ true → x ≡ r)
      → (by_sender ≡ false → by_recver ≡ true → y ≡ r)
      → (by_sender ≡ false → by_recver ≡ false → Finds (eval more (record s { captured = c })) r s)
      → Finds
          (eval
            (if by_sender
              then done x
              else assign c (done tt) >> (if by_recver then done y else more))
            s)
          r
          s
  unfolding eval
  either_known true by_recver x y r c more s f g h = (s.captured, ap (λ x. returned x s) (f refl))
  either_known false true x y r c more s f g h =
      (c, ap (λ x. returned x (record s { captured = c })) (g refl refl))
  either_known false false x y r c more s f g h = h refl refl

  target-locate :
      (ptr id q n : ℕ) (rest : Layout)
      → id < word_limit
      → target
          (locate b tm ptr id n (accounts_of q)).0
          (locate b tm ptr id n (accounts_of q)).1
          rest
        ≡ target ptr id ((q, n) ∷ rest)
  unfolding locate
  target-locate ptr id q n rest small = ground arith

  locate-small :
      (ptr id n accounts : ℕ) → id < word_limit → (locate b tm ptr id n accounts).1 < word_limit
  unfolding locate
  locate-small ptr id n accounts small = ground arith

  both_known :
      (sp rp sl rl : ℕ) (rest : Layout)
      → sp ≢ null
      → rp ≢ null
      → some (sp, rp) ≡ both (target sp sl rest) (target rp rl rest)
  both_known sp rp sl rl rest real real' =
      let e : target sp sl rest ≡ some sp = ground arith in
      let f : target rp rl rest ≡ some rp = ground arith in
      ap (λ a. both a (some rp)) (sym e) ∙ ap (λ c. both (target sp sl rest) c) (sym f)

  none_known :
      (sp rp sl rl : ℕ)
      → (sp ≡ null) ⊎ (rp ≡ null)
      → none ≡ both (target sp sl []) (target rp rl [])
  none_known sp rp sl rl open_one = ground arith

  -- The accounts found in one segment.
  module _ (sp rp si ri q n : ℕ) (open_one : (sp ≡ null) ⊎ (rp ≡ null)) where
    abbrev sender : Ptr × ℕ
    sender = locate b tm sp si n (accounts_of q)

    abbrev recver : Ptr × ℕ
    recver = locate b tm rp ri n (accounts_of q)

    sender_found :
        found b tm sp si n && not (rp == null) ≡ true
        → (sender.0 ≢ null) × (rp ≢ null) × (recver.0 ≡ rp)
    unfolding locate
    sender_found h = (ground arith, ground arith, ground arith)

    recver_found :
        found b tm rp ri n && not (sender.0 == null) ≡ true → (sender.0 ≢ null) × (recver.0 ≢ null)
    unfolding locate
    recver_found h = (ground arith, ground arith)

    still_open :
        found b tm sp si n && not (rp == null) ≡ false
        → found b tm rp ri n && not (sender.0 == null) ≡ false
        → (sender.0 ≡ null) ⊎ (recver.0 ≡ null)
    unfolding locate
    still_open h k = ground arith

  -- The rest of the loop, after a segment.
  abbrev next_segment :
      (fuel next : ℕ) → (sender recver : Ptr × ℕ) → Program (ℕ × ℕ) (Option (Ptr × Ptr))
  next_segment fuel next (send_ptr, send_id) (recv_ptr, recv_id) = get_pointer next >>= λ next.
      if next == null
      then done none
      else find_accounts b tm fuel next send_ptr recv_ptr send_id recv_id

  abbrev in_segment : (fuel sp rp si ri q n : ℕ) → Program (ℕ × ℕ) (Option (Ptr × Ptr))
  in_segment fuel sp rp si ri q n =
      let sender = locate b tm sp si n (accounts_of q) in
      let recver = locate b tm rp ri n (accounts_of q) in
      if found b tm sp si n && not (rp == null)
      then done (some (sender.0, rp))
      else assign (sender.1, recver.1) (done tt)
        >> (if found b tm rp ri n && not (sender.0 == null)
            then done (some (sender.0, recver.0))
            else next_segment fuel (q + word_size) sender recver)

  find_accounts-step :
      (fuel sp rp si ri q n : ℕ) (s : State)
      → s.words q ≡ n
      → eval (find_accounts b tm (suc fuel) q sp rp si ri) s
        ≡ eval
            (in_segment fuel sp rp si ri q n)
            (record s { captured = ((locate b tm sp si n (accounts_of q)).1, ri) })
  unfolding eval find_accounts account_segment bind get bind_pointer bind_array after after_pointer
  find_accounts-step fuel sp rp si ri q n s counted =
      ap
        (λ n.
          eval (in_segment fuel sp rp si ri q n)
            (record s { captured = ((locate b tm sp si n (accounts_of q)).1, ri) }))
        counted

  -- After a segment in which the pair is not complete.
  next_segment_lem :
      (fuel next a l c k : ℕ) (rest : Layout) (s : State)
      → Segments s.words (s.words next) rest
      → (a ≡ null) ⊎ (c ≡ null)
      → (s.words next ≢ null
          → Finds
              (eval (find_accounts b tm fuel (s.words next) a c l k) s)
              (both (target a l rest) (target c k rest))
              s)
      → Finds
          (eval (next_segment fuel next (a, l) (c, k)) s)
          (both (target a l rest) (target c k rest))
          s
  unfolding eval get_pointer
  next_segment_lem fuel next a l c k [] s at open_one later =
      let ended : (s.words next == null) ≡ true = ground arith in
      (
        s.captured,
        ap (λ p. eval p s) (if_true _ _ ended)
            ∙ ap (λ r. returned r s) (none_known a c l k open_one),
      )
  next_segment_lem fuel next a l c k ((q, n) ∷ rest) s (same, real, counted, at) open_one later =
      let goes_on : s.words next ≢ null = λ e. real (sym same ∙ e) in
      let more : (s.words next == null) ≡ false = ground arith in
      let (found, e) = later goes_on in (found, ap (λ p. eval p s) (if_false _ _ more) ∙ e)

  in_segment_lem :
      (fuel sp rp si ri q n : ℕ) (rest : Layout) (s : State)
      → (let sender = locate b tm sp si n (accounts_of q) in
          let recver = locate b tm rp ri n (accounts_of q) in
          let pair = both (target sender.0 sender.1 rest) (target recver.0 recver.1 rest) in
          (sp ≡ null) ⊎ (rp ≡ null)
          → Segments s.words (s.words (q + word_size)) rest
          → (s.words (q + word_size) ≢ null
              → (sender.0 ≡ null) ⊎ (recver.0 ≡ null)
              → Finds
                  (eval
                    (find_accounts b tm fuel
                      (s.words (q + word_size))
                      sender.0
                      recver.0
                      sender.1
                      recver.1)
                    (record s { captured = (sender.1, recver.1) }))
                  pair
                  s)
          → Finds
              (eval (in_segment fuel sp rp si ri q n) (record s { captured = (sender.1, ri) }))
              pair
              s)
  in_segment_lem fuel sp rp si ri q n rest s open_one more later =
      let sender : Ptr × ℕ = locate b tm sp si n (accounts_of q) in
      let recver : Ptr × ℕ = locate b tm rp ri n (accounts_of q) in
      let pair : Option (Ptr × Ptr) =
        both (target sender.0 sender.1 rest) (target recver.0 recver.1 rest) in
      either_known (found b tm sp si n && not (rp == null))
        (found b tm rp ri n && not (sender.0 == null)) (some (sender.0, rp))
        (some (sender.0, recver.0)) pair (sender.1, recver.1)
        (next_segment fuel (q + word_size) sender recver) (record s { captured = (sender.1, ri) })
        (λ h.
          let (real, real', same) = sender_found sp rp si ri q n open_one h in
          ap (λ c. some (sender.0, c)) (sym same)
          ∙ both_known sender.0 recver.0 sender.1 recver.1 rest real (λ e. real' (sym same ∙ e)))
        (λ h k.
          let (real, real') = recver_found sp rp si ri q n open_one k in
          both_known sender.0 recver.0 sender.1 recver.1 rest real real')
        (λ h k.
          let open_one' = still_open sp rp si ri q n open_one h k in
          next_segment_lem fuel (q + word_size) sender.0 sender.1 recver.0 recver.1 rest
            (record s { captured = (sender.1, recver.1) }) more open_one'
            (λ goes_on. later goes_on open_one'))

  pub find_accounts_lem :
      (fuel p : ℕ) (layout : Layout) (sp rp si ri : ℕ) (s : State)
      → Segments s.words p layout
      → p ≢ null
      → length layout ≤ fuel
      → si < word_limit
      → ri < word_limit
      → (sp ≡ null) ⊎ (rp ≡ null)
      → Finds
          (eval (find_accounts b tm fuel p sp rp si ri) s)
          (both (target sp si layout) (target rp ri layout))
          s
  find_accounts_lem fuel p [] sp rp si ri s at real enough small small' open_one = absurd (real at)
  find_accounts_lem zero p ((q, n) ∷ rest) sp rp si ri s at real enough small small' open_one =
      absurd (omega arith)
  find_accounts_lem (suc fuel) p ((q, n) ∷ rest) sp rp si ri s (same, real, counted, more) _ enough
        small small' open_one =
      let sender : Ptr × ℕ = locate b tm sp si n (accounts_of q) in
      let recver : Ptr × ℕ = locate b tm rp ri n (accounts_of q) in
      let pair : Option (Ptr × Ptr) =
        both (target sender.0 sender.1 rest) (target recver.0 recver.1 rest) in
      let e : pair ≡ both (target sp si ((q, n) ∷ rest)) (target rp ri ((q, n) ∷ rest)) =
        ap (λ a. both a (target recver.0 recver.1 rest)) (target-locate sp si q n rest small)
        ∙ ap (λ c. both (target sp si ((q, n) ∷ rest)) c) (target-locate rp ri q n rest small') in
      let step : eval (find_accounts b tm (suc fuel) p sp rp si ri) s
          ≡ eval (in_segment fuel sp rp si ri q n) (record s { captured = (sender.1, ri) }) =
        ap (λ p. eval (find_accounts b tm (suc fuel) p sp rp si ri) s) same
        ∙ find_accounts-step fuel sp rp si ri q n s counted in
      subst (λ o. Finds o (both (target sp si ((q, n) ∷ rest)) (target rp ri ((q, n) ∷ rest))) s)
        (sym step)
        (subst
          (λ r.
            Finds (eval (in_segment fuel sp rp si ri q n) (record s { captured = (sender.1, ri) }))
              r s)
          e
          (in_segment_lem fuel sp rp si ri q n rest s open_one more (λ goes_on still_open.
            find_accounts_lem fuel (s.words (q + word_size)) rest sender.0 recver.0 sender.1
              recver.1 (record s { captured = (sender.1, recver.1) }) more goes_on (omega arith)
              (locate-small sp si n (accounts_of q) small)
              (locate-small rp ri n (accounts_of q) small') still_open)))
