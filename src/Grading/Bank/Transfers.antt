-- ===== src/Grading/Bank/Transfers.antt =====
-- grading/workload.hpp: what short_tx changes.
use cs453_concurrent_algorit.Base.{
  ℕ, ◌+◌, ◌%◌, ◌<◌, ◌≤◌, ◌≡◌, ◌≢◌, refl, sym, ap, ◌∙◌, Bool, true, ◌&&◌, Option, some, inl, inr,
  ltb, update, length, Bool-cases, if_true, if_false, arith,
}
use cs453_concurrent_algorit.Base.Word.{word_limit, add64, sub64, is_positive}
use cs453_concurrent_algorit.Heap.{Ptr, null}
use cs453_concurrent_algorit.Grading.Program.{Program, done, ◌>>◌, Outcome, returned, and_then}
use cs453_concurrent_algorit.Grading.Atomic.{eval, eval->>=}
use cs453_concurrent_algorit.Grading.Transaction.{TransactionalMemory}
use cs453_concurrent_algorit.Grading.Shared.{bind, get, put}
use cs453_concurrent_algorit.Grading.Bank.{
  Bank, found, find_accounts, transfer, transfer_found, short_tx,
}
use cs453_concurrent_algorit.Grading.Bank.Memory.{Layout, Segments, number, total}
use cs453_concurrent_algorit.Grading.Bank.Accounts.{
  account_at, Apart, total-update, Segments-update, account_at-cases,
}
use cs453_concurrent_algorit.Grading.Bank.Lookup.{both, State, find_accounts_lem}

moved_mod :
    (v v' x t t' t'' : ℕ)
    → v' + 1 ≡ v
    → t' + v ≡ t + v'
    → t'' + x ≡ t' + add64 x 1
    → t'' % word_limit ≡ t % word_limit
moved_mod v v' x t t' t'' less taken given = omega arith

module _ (b : Bank) (tm : TransactionalMemory) where
  -- A transaction that answers `r`, and keeps the segments and the total.
  abbrev pub Conserves : Outcome State Bool → Bool → Ptr → Layout → (ℕ → ℕ) → Type 0
  Conserves o r p layout g =
      (s : State) × (o ≡ returned r s)
      × Segments s.words p layout
      × (total s.words layout % word_limit ≡ total g layout % word_limit)

  -- One unit is taken from one account and given to another, or to the same.
  moved_total :
      (g : ℕ → ℕ) (layout : Layout) (i j a c : ℕ)
      → Apart layout
      → account_at layout i ≡ some a
      → account_at layout j ≡ some c
      → is_positive (g a) ≡ true
      → (let g' = update g a (sub64 (g a) 1) in
          total (update g' c (add64 (g' c) 1)) layout % word_limit ≡ total g layout % word_limit)
  moved_total g layout i j a c apart e f positive =
      let g' : ℕ → ℕ = update g a (sub64 (g a) 1) in
      let less : sub64 (g a) 1 + 1 ≡ g a = ground arith in
      let taken : total g' layout + g a ≡ total g layout + sub64 (g a) 1 =
        total-update g (sub64 (g a) 1) layout i a apart e in
      let given : total (update g' c (add64 (g' c) 1)) layout + g' c
          ≡ total g' layout + add64 (g' c) 1 =
        total-update g' (add64 (g' c) 1) layout j c apart f in
      moved_mod (g a) (sub64 (g a) 1) (g' c) (total g layout) (total g' layout)
        (total (update g' c (add64 (g' c) 1)) layout) less taken given

  transfer_lem :
      (layout : Layout) (p i j a c : ℕ) (s : State)
      → Segments s.words p layout
      → Apart layout
      → account_at layout i ≡ some a
      → account_at layout j ≡ some c
      → Conserves (eval (transfer b tm a c) s) true p layout s.words
  unfolding eval transfer bind get put
  transfer_lem layout p i j a c s at apart e f =
      let g : ℕ → ℕ = s.words in
      let g' : ℕ → ℕ = update g a (sub64 (g a) 1) in
      let g'' : ℕ → ℕ = update g' c (add64 (g' c) 1) in
      let before_end : Program (ℕ × ℕ) (Unit {0}) → Outcome State Bool =
        λ p. eval (p >> done true) s in
      elim (Bool-cases (is_positive (g a))) [
        | inl positive ↦ (
          record s { words = g'' },
          ap before_end (if_true _ _ positive),
          Segments-update g' (add64 (g' c) 1) p layout j c apart f
              (Segments-update g (sub64 (g a) 1) p layout i a apart e at),
          moved_total g layout i j a c apart e f positive,
        )
        | inr poor ↦ (s, ap before_end (if_false _ _ poor), at, refl)
      ]

  Conserves-subst :
      {o o' : Outcome State Bool} {r r' : Bool} (p : Ptr) (layout : Layout) (g : ℕ → ℕ)
      → o ≡ o'
      → r ≡ r'
      → Conserves o' r' p layout g
      → Conserves o r p layout g
  Conserves-subst p layout g e f (s, h, at, kept) =
      (s, e ∙ h ∙ ap (λ r. returned r s) (sym f), at, kept)

  -- The answer of `both`, by the cases of the two accounts.
  transfer_found_lem :
      (layout : Layout) (p i j : ℕ) (s : State)
      → Segments s.words p layout
      → Apart layout
      → Conserves
          (eval (transfer_found b tm (both (account_at layout i) (account_at layout j))) s)
          (ltb i (number layout) && ltb j (number layout))
          p
          layout
          s.words
  unfolding eval
  transfer_found_lem layout p i j s at apart =
      let after : Option Ptr → Option Ptr → Outcome State Bool =
        λ x y. eval (transfer_found b tm (both x y)) s in
      elim (account_at-cases layout i) [
        | inr (absent, e) ↦
            Conserves-subst p layout s.words (ap (λ x. after x (account_at layout j)) e)
              (ap (λ k. k && ltb j (number layout)) absent) (s, refl, at, refl)
        | inl (a, present, e) ↦ elim (account_at-cases layout j) [
          | inr (absent, f) ↦
              Conserves-subst p layout s.words
                (ap (λ x. after x (account_at layout j)) e ∙ ap (λ y. after (some a) y) f)
                (ap (λ k. k && ltb j (number layout)) present ∙ absent) (s, refl, at, refl)
          | inl (c, present', f) ↦
              Conserves-subst p layout s.words
                (ap (λ x. after x (account_at layout j)) e ∙ ap (λ y. after (some a) y) f)
                (ap (λ k. k && ltb j (number layout)) present ∙ present')
                (transfer_lem layout p i j a c s at apart e f)
        ]
      ]

  -- In memory with linked segments that do not overlap, at least one, with fuel for each, and for indices
  -- below 2 ^ 64, short_tx ends and answers whether both indices are below the number of accounts;
  -- the segments stay linked, with the same counts, and the sum of accounts and parities is the
  -- same modulo 2 ^ 64.
  pub short_tx_lem :
      (fuel : ℕ) (layout : Layout) (s : State) (send_id recv_id : ℕ)
      → Segments s.words tm.start_addr layout
      → Apart layout
      → tm.start_addr ≢ null
      → length layout ≤ fuel
      → send_id < word_limit
      → recv_id < word_limit
      → Conserves
          (eval (short_tx b tm fuel (send_id, recv_id)) s)
          (ltb send_id (number layout) && ltb recv_id (number layout))
          tm.start_addr
          layout
          s.words
  unfolding short_tx
  short_tx_lem fuel layout s send_id recv_id at apart real enough small small' =
      let (c, found) =
        find_accounts_lem b tm fuel tm.start_addr layout null null send_id recv_id s at real enough
          small small' (inl refl) in
      let pair : Option (Ptr × Ptr) =
        both (account_at layout send_id) (account_at layout recv_id) in
      Conserves-subst tm.start_addr layout s.words
        (eval->>= (find_accounts b tm fuel tm.start_addr null null send_id recv_id)
            (transfer_found b tm) s
          ∙ ap (λ o. and_then o (λ r. eval (transfer_found b tm r))) found)
        refl
        (transfer_found_lem layout tm.start_addr send_id recv_id (record s { captured = c }) at
          apart)
