-- ===== src/Ecc/Natural.antt =====
-- Interleaving moves values and does not look at them: it commutes with a function on the values.
use splitbind.Base.{
  ℕ, zero, suc, ◌+◌, ◌-◌, ◌≡◌, refl, ap, ◌∙◌, List, [], ◌∷◌, arith, length, take, drop, map, ok,
}
use splitbind.Ecc.{every, fill, restore, indices, repeat, deinterleave}

module _ {ℓ κ} {A : Type ℓ} {B : Type κ} (f : A → B) where
  length-map : (xs : List A) → length (map f xs) ≡ length xs
  length-map [] = refl
  length-map (x ∷ xs) = ap suc (length-map xs)

  map-take : (n : ℕ) (xs : List A) → take n (map f xs) ≡ map f (take n xs)
  map-take zero xs = refl
  map-take (suc n) [] = refl
  map-take (suc n) (x ∷ xs) = ap (λ t. f x ∷ t) (map-take n xs)

  map-drop : (n : ℕ) (xs : List A) → drop n (map f xs) ≡ map f (drop n xs)
  map-drop zero xs = refl
  map-drop (suc n) [] = refl
  map-drop (suc n) (x ∷ xs) = map-drop n xs

  map-repeat : (a : A) (n : ℕ) → repeat (f a) n ≡ map f (repeat a n)
  map-repeat a zero = refl
  map-repeat a (suc n) = ap (λ t. f a ∷ t) (map-repeat a n)

  map-fill :
      (offset depth : ℕ) (xs lane : List A)
      → fill offset depth (map f xs) (map f lane) ≡ map f (fill offset depth xs lane)
  map-fill offset depth [] lane = refl
  map-fill zero depth (x ∷ xs) [] = refl
  map-fill zero depth (x ∷ xs) (y ∷ lane) = ap (λ t. f y ∷ t) (map-fill (depth - 1) depth xs lane)
  map-fill (suc offset) depth (x ∷ xs) lane = ap (λ t. f x ∷ t) (map-fill offset depth xs lane)

  map-restore :
      (lanes offset depth cursor : ℕ) (rs ys : List A)
      → restore lanes offset depth (map f rs) cursor (map f ys)
        ≡ map f (restore lanes offset depth rs cursor ys)
  unfolding restore
  map-restore zero offset depth cursor rs ys = refl
  map-restore (suc lanes) offset depth cursor rs ys =
      let n = length (every offset depth (indices 0 (length ys))) in
      rw
        (
          length-map ys,
          map-drop cursor ys,
          map-take n (drop cursor ys),
          map-fill offset depth rs (take n (drop cursor ys)),
        )
        (map-restore lanes (suc offset) depth (cursor + n)
          (fill offset depth rs (take n (drop cursor ys))) ys)

  pub map-deinterleave :
      (unset : A) (xs ys : List A) (depth : ℕ)
      → deinterleave unset ys depth ≡ ok xs
      → deinterleave (f unset) (map f ys) depth ≡ ok (map f xs)
  unfolding deinterleave
  map-deinterleave unset xs ys zero e = absurd (cc e)
  map-deinterleave unset xs ys (suc d) e =
      let made : restore (suc d) 0 (suc d) (repeat unset (length ys)) 0 ys ≡ xs = ground arith in
      let moved : restore (suc d) 0 (suc d) (repeat (f unset) (length (map f ys))) 0 (map f ys)
          ≡ map f xs =
        rw (length-map ys, map-repeat unset (length ys))
          (map-restore (suc d) 0 (suc d) 0 (repeat unset (length ys)) ys ∙ ap (map f) made) in
      ground (arith, moved)
