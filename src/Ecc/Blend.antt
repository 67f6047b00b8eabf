-- ===== src/Ecc/Blend.antt =====
-- The list that is partly restored: positions in the lanes below an offset have their value.
use splitbind.Base.{
  ℕ, zero, suc, ◌+◌, ◌-◌, ◌<◌, ◌≡◌, refl, ap, List, [], ◌∷◌, ◌==◌, ltb, leb, if◌then◌else◌, arith,
  length,
}
use splitbind.Ecc.{every, fill}

-- the next phase of a position, which is its index modulo the depth
abbrev pub next_phase : ℕ → ℕ → ℕ
next_phase depth phase = if suc phase == depth then 0 else suc phase

-- the distance from a position to the next one of the lane `offset`
abbrev pub gap : ℕ → ℕ → ℕ → ℕ
gap depth phase offset = if leb phase offset then offset - phase else offset + depth - phase

module _ {ℓ} {A : Type ℓ} (depth : ℕ) where
  abbrev pub blend : ℕ → ℕ → List A → List A → List A
  blend offset phase [] xs = []
  blend offset phase (r ∷ rs) [] = []
  blend offset phase (r ∷ rs) (x ∷ xs) =
      (if ltb phase offset then x else r) ∷ blend offset (next_phase depth phase) rs xs

  pub fill-blend-gap :
      (offset phase distance : ℕ) (rs xs : List A)
      → offset < depth
      → phase < depth
      → distance ≡ gap depth phase offset
      → fill distance depth (blend offset phase rs xs) (every distance depth xs)
        ≡ blend (suc offset) phase rs xs
  fill-blend-gap offset phase distance [] xs o p e = refl
  fill-blend-gap offset phase zero (r ∷ rs) [] o p e = refl
  fill-blend-gap offset phase (suc distance) (r ∷ rs) [] o p e = refl
  fill-blend-gap offset phase zero (r ∷ rs) (x ∷ xs) o p e =
      let same : phase ≡ offset = ground arith in
      let ih =
        fill-blend-gap offset (next_phase depth phase) (depth - 1) rs xs o (ground arith)
          (ground arith) in
      ground (arith, ih)
  fill-blend-gap offset phase (suc distance) (r ∷ rs) (x ∷ xs) o p e =
      let ih =
        fill-blend-gap offset (next_phase depth phase) distance rs xs o (ground arith)
          (ground arith) in
      ground (arith, ih)

  pub blend-none : (phase : ℕ) (rs xs : List A) → length rs ≡ length xs → blend 0 phase rs xs ≡ rs
  blend-none phase [] xs n = refl
  blend-none phase (r ∷ rs) [] n = absurd (omega (arith, n))
  blend-none phase (r ∷ rs) (x ∷ xs) n =
      ground (arith, blend-none (next_phase depth phase) rs xs (omega (arith, n)))

  pub blend-all :
      (phase : ℕ) (rs xs : List A)
      → phase < depth
      → length rs ≡ length xs
      → blend depth phase rs xs ≡ xs
  blend-all phase [] [] p n = refl
  blend-all phase [] (x ∷ xs) p n = absurd (omega (arith, n))
  blend-all phase (r ∷ rs) [] p n = absurd (omega (arith, n))
  blend-all phase (r ∷ rs) (x ∷ xs) p n =
      let ih = blend-all (next_phase depth phase) rs xs (ground arith) (omega (arith, n)) in
      ground (arith, ih)

  pub length-fill : (offset : ℕ) (rs lane : List A) → length (fill offset depth rs lane) ≡ length rs
  length-fill offset [] lane = refl
  length-fill zero (r ∷ rs) [] = refl
  length-fill zero (r ∷ rs) (y ∷ lane) = ap suc (length-fill (depth - 1) rs lane)
  length-fill (suc offset) (r ∷ rs) lane = ap suc (length-fill offset rs lane)

pub length-every {ℓ κ} :
    {A : Type ℓ} {B : Type κ} (depth offset : ℕ) (xs : List A) (ys : List B)
    → length xs ≡ length ys
    → length (every offset depth xs) ≡ length (every offset depth ys)
length-every depth offset [] [] n = refl
length-every depth offset [] (y ∷ ys) n = absurd (omega (arith, n))
length-every depth offset (x ∷ xs) [] n = absurd (omega (arith, n))
length-every depth zero (x ∷ xs) (y ∷ ys) n =
    ap suc (length-every depth (depth - 1) xs ys (omega (arith, n)))
length-every depth (suc offset) (x ∷ xs) (y ∷ ys) n =
    length-every depth offset xs ys (omega (arith, n))
