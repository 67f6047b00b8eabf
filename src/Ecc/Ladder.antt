-- ===== src/Ecc/Ladder.antt =====
-- `erasure_ladder` of research/python/src/splitbind_ref/ecc.py: the erasures that a receiver tries.
use splitbind.Base.{
  ℕ, zero, suc, ◌/◌, ◌≤◌, ◌≡◌, refl, inl, inr, Bool, false, ◌||◌, List, [], ◌∷◌, length, take, leb,
  if◌then◌else◌, All, arith, Bool-cases,
}
use splitbind.Payload.{bytes_eq}

-- `parity_symbols` of the contract
abbrev pub erasure_budget : ℕ
erasure_budget = 16

-- `while counts[-1] > 0: counts.append(counts[-1] // 2)`; a number of rounds above the count is enough
abbrev pub halves : ℕ → ℕ → List ℕ
halves zero count = count ∷ []
halves (suc rounds) zero = zero ∷ []
halves (suc rounds) (suc n) = suc n ∷ halves rounds (suc n / 2)

abbrev insert : ℕ → List ℕ → List ℕ
insert a [] = a ∷ []
insert a (x ∷ xs) = let rest = insert a xs in if leb a x then a ∷ x ∷ xs else x ∷ rest

-- `sorted`
abbrev pub sort : List ℕ → List ℕ
sort [] = []
sort (x ∷ xs) = insert x (sort xs)

-- the attempts of the counts that the ranking allows
unfoldable pub ranked_attempts : List ℕ → List ℕ → List (List ℕ)
ranked_attempts [] ranking = []
ranked_attempts (count ∷ counts) ranking =
    let rest = ranked_attempts counts ranking in
    if leb count (length ranking) then sort (take count ranking) ∷ rest else rest

abbrev pub was_seen : List ℕ → List (List ℕ) → Bool
was_seen a [] = false
was_seen a (x ∷ xs) = bytes_eq a x || was_seen a xs

unfoldable pub keep_new : List (List ℕ) → List (List ℕ) → List (List ℕ)
keep_new seen [] = []
keep_new seen (a ∷ attempts) =
    let skipped = keep_new seen attempts in
    let kept = a ∷ keep_new (a ∷ seen) attempts in if was_seen a seen then skipped else kept

unfoldable pub erasure_ladder : List ℕ → List ℕ → List (List ℕ)
unfolding keep_new ranked_attempts
erasure_ladder erase_positions erasure_ranking =
    keep_new [] (erase_positions ∷ ranked_attempts (halves 16 erasure_budget) erasure_ranking)

-- the weakest bytes of the ranking, within the budget
pub record IsRetry (ranking attempt : List ℕ) : Type 0 where
  pub count : ℕ
  pub bounded : (count ≤ erasure_budget) × (count ≤ length ranking)
  pub weakest : attempt ≡ sort (take count ranking)

ranked-IsRetry :
    (counts ranking : List ℕ)
    → All (λ c. c ≤ 16) counts
    → All (IsRetry ranking) (ranked_attempts counts ranking)
unfolding ranked_attempts
ranked-IsRetry [] ranking h = tt
ranked-IsRetry (c ∷ counts) ranking h =
    let rest = ranked-IsRetry counts ranking h.1 in
    elim (Bool-cases (leb c (length ranking))) [
      | inl t ↦ rw t (record { count = c; bounded = (h.0, ground arith); weakest = refl }, rest)
      | inr t ↦ rw t rest
    ]

All-keep_new :
    (P : List ℕ → Type 0) (seen attempts : List (List ℕ))
    → All P attempts
    → All P (keep_new seen attempts)
unfolding keep_new
All-keep_new P seen [] h = tt
All-keep_new P seen (a ∷ attempts) h = elim (Bool-cases (was_seen a seen)) [
  | inl t ↦ rw t (All-keep_new P seen attempts h.1)
  | inr t ↦ rw t (h.0, All-keep_new P (a ∷ seen) attempts h.1)
]

weaken :
    (old xs : List (List ℕ)) (a : List ℕ)
    → All (λ b. was_seen b (a ∷ old) ≡ false) xs
    → All (λ b. was_seen b old ≡ false) xs
weaken old [] a h = tt
weaken old (x ∷ xs) a h = (ground arith, weaken old xs a h.1)

unseen :
    (seen attempts : List (List ℕ)) → All (λ b. was_seen b seen ≡ false) (keep_new seen attempts)
unfolding keep_new
unseen seen [] = tt
unseen seen (a ∷ attempts) = elim (Bool-cases (was_seen a seen)) [
  | inl t ↦ rw t (unseen seen attempts)
  | inr t ↦ rw t (t, weaken seen (keep_new (a ∷ seen) attempts) a (unseen (a ∷ seen) attempts))
]

-- The receiver's own claim is tried first. Every later attempt erases the weakest bytes of the ranking,
-- at most 16 of them, and is not the claim again.
pub erasure_ladder-IsRetry :
    (claim ranking : List ℕ)
    → (rest : List (List ℕ)) × (erasure_ladder claim ranking ≡ claim ∷ rest)
      × All (IsRetry ranking) rest
      × All (λ a. was_seen a (claim ∷ []) ≡ false) rest
unfolding erasure_ladder keep_new
erasure_ladder-IsRetry claim ranking =
    let attempts = ranked_attempts (halves 16 erasure_budget) ranking in
    (
      keep_new (claim ∷ []) attempts,
      refl,
      All-keep_new (IsRetry ranking) (claim ∷ []) attempts (
          ranked-IsRetry (halves 16 erasure_budget) ranking (
            omega arith,
            (omega arith, (omega arith, (omega arith, (omega arith, (omega arith, tt))))),
          )),
      unseen (claim ∷ []) attempts,
    )
