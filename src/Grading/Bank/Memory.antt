-- ===== src/Grading/Bank/Memory.antt =====
-- grading/workload.hpp: the segments of accounts in shared memory, as their addresses and counts.
use cs453_concurrent_algorit.Base.{
  ℕ, zero, suc, ◌+◌, ◌*◌, ◌%◌, ◌≡◌, ◌≢◌, Bool, true, not, List, [], ◌∷◌, ◌&&◌, arith,
}
use cs453_concurrent_algorit.Base.Word.{word_limit, add64, is_negative}
use cs453_concurrent_algorit.Heap.{Ptr, null}
use cs453_concurrent_algorit.Grading.Shared.{word_size}

-- The addresses of the parity and of the accounts of a segment
abbrev pub parity_of : Ptr → ℕ
parity_of p = p + word_size + word_size

abbrev pub accounts_of : Ptr → ℕ
accounts_of p = p + word_size + word_size + word_size

-- The address and the number of accounts of each segment
abbrev pub Layout : Type 0
Layout = List (Ptr × ℕ)

-- The words `g` of memory hold linked segments from an address on.
abbrev pub Segments : (ℕ → ℕ) → Ptr → Layout → Type 0
Segments g p [] = p ≡ null
Segments g p ((q, n) ∷ rest) =
    (p ≡ q) × (q ≢ null) × (g q ≡ n) × Segments g (g (q + word_size)) rest

-- The number of accounts of all the segments
abbrev pub number : Layout → ℕ
number [] = 0
number ((p, n) ∷ rest) = n + number rest

module _ (g : ℕ → ℕ) where
  -- The money on `rounds` accounts from `i` on, and whether none is negative
  abbrev pub money : (rounds accounts i : ℕ) → ℕ
  money zero accounts i = 0
  money (suc rounds) accounts i = g (accounts + word_size * i) + money rounds accounts (i + 1)

  abbrev pub solvent : (rounds accounts i : ℕ) → Bool
  solvent zero accounts i = true
  solvent (suc rounds) accounts i =
      not (is_negative (g (accounts + word_size * i))) && solvent rounds accounts (i + 1)

  -- The accounts and parities of all the segments
  abbrev pub total : Layout → ℕ
  total [] = 0
  total ((p, n) ∷ rest) = g (parity_of p) + money n (accounts_of p) 0 + total rest

  abbrev pub all_solvent : Layout → Bool
  all_solvent [] = true
  all_solvent ((p, n) ∷ rest) = solvent n (accounts_of p) 0 && all_solvent rest

pub add64_mod : (x y : ℕ) → add64 (x % word_limit) y ≡ (x + y) % word_limit
add64_mod x y = omega arith
