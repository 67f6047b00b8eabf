-- ===== src/Ecc/Count.antt =====
-- How many values of the lanes pass a test: no value is lost or made by the interleaving.
use splitbind.Base.{
  ℕ, zero, suc, ◌+◌, ◌-◌, ◌≤◌, ◌<◌, ◌≡◌, refl, Bool, true, List, [], ◌∷◌, ◌++◌, ltb, if◌then◌else◌,
  arith, length,
}
use splitbind.Ecc.{every, fill, join_lanes}
use splitbind.Ecc.Blend.{next_phase, gap}

module _ {ℓ} {A : Type ℓ} (test : A → Bool) where
  abbrev pub count : List A → ℕ
  count [] = 0
  count (x ∷ xs) = (if test x then 1 else 0) + count xs

  pub count-append : (xs ys : List A) → count (xs ++ ys) ≡ count xs + count ys
  count-append [] ys = omega arith
  count-append (x ∷ xs) ys = omega (arith, count-append xs ys)

module _ {ℓ} {A : Type ℓ} (depth : ℕ) (test : A → Bool) where
  -- the same for the positions of the lanes below an offset
  abbrev pub count_below : ℕ → ℕ → List A → ℕ
  count_below offset phase [] = 0
  count_below offset phase (x ∷ xs) =
      (if ltb phase offset then (if test x then 1 else 0) else 0)
      + count_below offset (next_phase depth phase) xs

  count-every :
      (offset phase distance : ℕ) (xs : List A)
      → offset < depth
      → phase < depth
      → distance ≡ gap depth phase offset
      → count_below (suc offset) phase xs
        ≡ count_below offset phase xs + count test (every distance depth xs)
  count-every offset phase distance [] o p e = refl
  count-every offset phase zero (x ∷ xs) o p e =
      let same : phase ≡ offset = ground arith in
      let ih =
        count-every offset (next_phase depth phase) (depth - 1) xs o (ground arith)
          (ground arith) in
      ground (arith, ih)
  count-every offset phase (suc distance) (x ∷ xs) o p e =
      let ih =
        count-every offset (next_phase depth phase) distance xs o (ground arith) (ground arith) in
      ground (arith, ih)

  count-fill :
      (offset phase distance : ℕ) (rs lane : List A)
      → offset < depth
      → phase < depth
      → distance ≡ gap depth phase offset
      → length lane ≡ length (every distance depth rs)
      → count_below (suc offset) phase (fill distance depth rs lane)
        ≡ count_below offset phase rs + count test lane
  count-fill offset phase distance [] [] o p e n = refl
  count-fill offset phase distance [] (y ∷ lane) o p e n = absurd (omega (arith, n))
  count-fill offset phase zero (r ∷ rs) [] o p e n = absurd (omega (arith, n))
  count-fill offset phase zero (r ∷ rs) (y ∷ lane) o p e n =
      let same : phase ≡ offset = ground arith in
      let ih =
        count-fill offset (next_phase depth phase) (depth - 1) rs lane o (ground arith)
          (ground arith) (omega (arith, n)) in
      ground (arith, ih)
  count-fill offset phase (suc distance) (r ∷ rs) lane o p e n =
      let ih =
        count-fill offset (next_phase depth phase) distance rs lane o (ground arith) (ground arith)
          n in
      ground (arith, ih)

  pub count_below-none : (phase : ℕ) (xs : List A) → count_below 0 phase xs ≡ 0
  count_below-none phase [] = refl
  count_below-none phase (x ∷ xs) = ground (arith, count_below-none (next_phase depth phase) xs)

  pub count_below-all :
      (phase : ℕ) (xs : List A) → phase < depth → count_below depth phase xs ≡ count test xs
  count_below-all phase [] p = refl
  count_below-all phase (x ∷ xs) p =
      let ih = count_below-all (next_phase depth phase) xs (ground arith) in ground (arith, ih)

  pub count_below-le : (offset phase : ℕ) (xs : List A) → count_below offset phase xs ≤ length xs
  count_below-le offset phase [] = omega arith
  count_below-le offset phase (x ∷ xs) =
      let ih = count_below-le offset (next_phase depth phase) xs in ground (arith, ih)

  -- From the first position the lane starts at its offset.
  pub count-lane :
      (offset : ℕ) (xs : List A)
      → offset < depth
      → count_below (suc offset) 0 xs ≡ count_below offset 0 xs + count test (every offset depth xs)
  count-lane offset xs o = count-every offset 0 offset xs o (omega (arith, o)) (ground arith)

  pub count-fill_lane :
      (offset : ℕ) (rs lane : List A)
      → offset < depth
      → length lane ≡ length (every offset depth rs)
      → count_below (suc offset) 0 (fill offset depth rs lane)
        ≡ count_below offset 0 rs + count test lane
  count-fill_lane offset rs lane o n =
      count-fill offset 0 offset rs lane o (omega (arith, o)) (ground arith) n

  pub count-lanes :
      (lanes offset : ℕ) (xs : List A)
      → lanes + offset ≡ depth
      → 0 < depth
      → count test (join_lanes lanes offset depth xs) + count_below offset 0 xs ≡ count test xs
  unfolding join_lanes
  count-lanes zero offset xs e p =
      let all : offset ≡ depth = omega (arith, e) in rw all (omega (arith, count_below-all 0 xs p))
  count-lanes (suc lanes) offset xs e p = omega (
    arith,
    count-append test (every offset depth xs) (join_lanes lanes (suc offset) depth xs),
    count-lanes lanes (suc offset) xs (omega (arith, e)) p,
    count-lane offset xs (omega (arith, e)),
  )

pub length-count {ℓ} : {A : Type ℓ} (xs : List A) → count (λ x. true) xs ≡ length xs
length-count [] = refl
length-count (x ∷ xs) = omega (arith, length-count xs)
