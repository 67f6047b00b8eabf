-- ===== src/Ecc/Laws.antt =====
-- Interleaving and its inverse: nothing is lost, at every depth and length.
use splitbind.Base.{
  ℕ, zero, suc, ◌+◌, ◌<◌, ◌≡◌, refl, sym, ap, Bool, true, List, [], ◌∷◌, ◌++◌, arith, ◌∙◌, length,
  take, drop, ok, length-append, length-take, length-drop,
}
use splitbind.Ecc.{every, join_lanes, restore, indices, repeat, interleave, deinterleave}
use splitbind.Ecc.Blend.{blend, blend-none, blend-all, fill-blend-gap, length-fill, length-every}
use splitbind.Ecc.Count.{
  count, count_below, count-lane, count-fill_lane, count-lanes, length-count, count_below-none,
  count_below-all, count_below-le,
}

pub length-indices : (start n : ℕ) → length (indices start n) ≡ n
length-indices start zero = refl
length-indices start (suc n) = ap suc (length-indices (suc start) n)

module _ {ℓ} {A : Type ℓ} where
  pub length-repeat : (a : A) (n : ℕ) → length (repeat a n) ≡ n
  length-repeat a zero = refl
  length-repeat a (suc n) = ap suc (length-repeat a n)

  pub length-join_lanes :
      (depth : ℕ) (xs : List A) → 0 < depth → length (join_lanes depth 0 depth xs) ≡ length xs
  length-join_lanes depth xs p = omega (
    arith,
    count-lanes depth (λ x. true) depth 0 xs (omega arith) p,
    length-count (join_lanes depth 0 depth xs),
    length-count xs,
    count_below-none depth (λ x. true) 0 xs,
  )

  drop_prefix : (xs ys : List A) → drop (length xs) (xs ++ ys) ≡ ys
  drop_prefix [] ys = refl
  drop_prefix (x ∷ xs) ys = drop_prefix xs ys

  take_prefix : (xs ys : List A) → take (length xs) (xs ++ ys) ≡ xs
  take_prefix [] ys = refl
  take_prefix (x ∷ xs) ys = ap (λ t. x ∷ t) (take_prefix xs ys)

  append_assoc : (xs ys zs : List A) → (xs ++ ys) ++ zs ≡ xs ++ (ys ++ zs)
  append_assoc [] ys zs = refl
  append_assoc (x ∷ xs) ys zs = ap (λ t. x ∷ t) (append_assoc xs ys zs)

  take_all : (n : ℕ) (xs : List A) → n ≡ length xs → take n xs ≡ xs
  take_all zero [] e = refl
  take_all zero (x ∷ xs) e = absurd (omega (arith, e))
  take_all (suc n) [] e = refl
  take_all (suc n) (x ∷ xs) e = ap (λ t. x ∷ t) (take_all n xs (omega (arith, e)))

  count-take_add :
      (test : A → Bool) (m n s : ℕ) (xs : List A)
      → s ≡ m + n
      → count test (take s xs) ≡ count test (take m xs) + count test (take n (drop m xs))
  count-take_add test zero n s xs e = let same : s ≡ n = omega (arith, e) in rw same (omega arith)
  count-take_add test (suc m) n zero xs e = absurd (omega (arith, e))
  count-take_add test (suc m) zero (suc s) [] e = refl
  count-take_add test (suc m) (suc n) (suc s) [] e = refl
  count-take_add test (suc m) n (suc s) (x ∷ xs) e =
      omega (arith, count-take_add test m n s xs (omega (arith, e)))

  -- the length of the lane that the loop reads
  lane_length :
      (offset depth : ℕ) (xs ys : List A)
      → length ys ≡ length xs
      → length (every offset depth (indices 0 (length ys))) ≡ length (every offset depth xs)
  lane_length offset depth xs ys m =
      length-every depth offset (indices 0 (length ys)) xs (length-indices 0 (length ys) ∙ m)

  lane_read :
      (n cursor : ℕ) (pre lane rest ys : List A)
      → length pre ≡ cursor
      → n ≡ length lane
      → ys ≡ pre ++ (lane ++ rest)
      → take n (drop cursor ys) ≡ lane
  lane_read n cursor pre lane rest ys c l made =
      rw (made, ← c, l, drop_prefix pre (lane ++ rest)) (take_prefix lane rest)

  -- The lanes from an offset, read after the lanes before it, complete the blend.
  restore_lanes :
      (lanes offset depth cursor : ℕ) (pre ys rs xs : List A)
      → lanes + offset ≡ depth
      → 0 < depth
      → length rs ≡ length xs
      → length ys ≡ length xs
      → length pre ≡ cursor
      → ys ≡ pre ++ join_lanes lanes offset depth xs
      → restore lanes offset depth (blend depth offset 0 rs xs) cursor ys ≡ xs
  unfolding join_lanes restore
  restore_lanes zero offset depth cursor pre ys rs xs e p n m c made =
      let all : offset ≡ depth = omega (arith, e) in rw all (blend-all depth 0 rs xs p n)
  restore_lanes (suc lanes) offset depth cursor pre ys rs xs e p n m c made =
      let lane = every offset depth xs in
      let l = lane_length offset depth xs ys m in
      let read = lane_read _ cursor pre lane (join_lanes lanes (suc offset) depth xs) ys c l made in
      let filled = fill-blend-gap depth offset 0 offset rs xs (omega (arith, e)) p (ground arith) in
      rw (read, filled)
        (restore_lanes lanes (suc offset) depth _ (pre ++ lane) ys rs xs (omega (arith, e)) p n m
          (omega (arith, length-append pre lane, c, l))
          (made ∙ sym (append_assoc pre lane (join_lanes lanes (suc offset) depth xs))))

  count-restore :
      (lanes offset depth cursor : ℕ) (test : A → Bool) (rs ys : List A)
      → lanes + offset ≡ depth
      → 0 < depth
      → length rs ≡ length ys
      → cursor ≡ count_below depth (λ x. true) offset 0 ys
      → count_below depth test offset 0 rs ≡ count test (take cursor ys)
      → count test (restore lanes offset depth rs cursor ys) ≡ count test ys
  unfolding restore
  count-restore zero offset depth cursor test rs ys e p n c h =
      let all : offset ≡ depth = omega (arith, e) in
      let counted : count_below depth test offset 0 rs ≡ count test rs =
        rw all (count_below-all depth test 0 rs p) in
      let counted_all : count_below depth (λ x. true) offset 0 ys ≡ count (λ x. true) ys =
        rw all (count_below-all depth (λ x. true) 0 ys p) in
      let full : cursor ≡ length ys = omega (arith, c, counted_all, length-count ys) in
      omega (arith, h, counted, ap (count test) (take_all cursor ys full))
  count-restore (suc lanes) offset depth cursor test rs ys e p n c h =
      let l = lane_length offset depth ys ys refl in
      let o : offset < depth = omega (arith, e) in
      let lane = take (length (every offset depth (indices 0 (length ys)))) (drop cursor ys) in
      let next : cursor + length (every offset depth (indices 0 (length ys)))
          ≡ count_below depth (λ x. true) (suc offset) 0 ys =
        omega (
          arith,
          c,
          l,
          count-lane depth (λ x. true) offset ys o,
          length-count (every offset depth ys),
        ) in
      let sized : length lane ≡ length (every offset depth rs) = omega (
        arith,
        length-take (length (every offset depth (indices 0 (length ys)))) (drop cursor ys),
        length-drop cursor ys,
        next,
        count_below-le depth (λ x. true) (suc offset) 0 ys,
        l,
        length-every depth offset rs ys n,
      ) in
      count-restore lanes (suc offset) depth _ test _ ys (omega (arith, e)) p
        (length-fill depth offset rs lane ∙ n) next
        (omega (
          arith,
          count-fill_lane depth test offset rs lane o sized,
          h,
          count-take_add test cursor (length (every offset depth (indices 0 (length ys)))) _ ys
              refl,
        ))

  -- At every depth but 0 and for every length, what is interleaved and then deinterleaved is as
  -- before.
  pub deinterleave-interleave :
      (unset : A) (xs ys : List A) (depth : ℕ)
      → interleave xs depth ≡ ok ys
      → deinterleave unset ys depth ≡ ok xs
  unfolding interleave deinterleave
  deinterleave-interleave unset xs ys zero e = absurd (cc e)
  deinterleave-interleave unset xs ys (suc d) e =
      let made : join_lanes (suc d) 0 (suc d) xs ≡ ys = ground arith in
      let sized = length-join_lanes (suc d) xs (omega arith) in
      let n : length ys ≡ length xs = ap length (sym made) ∙ sized in
      let m : length (repeat unset (length ys)) ≡ length xs = length-repeat unset (length ys) ∙ n in
      let blank = blend-none (suc d) 0 (repeat unset (length ys)) xs m in
      let restored =
        restore_lanes (suc d) 0 (suc d) 0 [] ys (repeat unset (length ys)) xs (omega arith)
          (omega arith) m n refl (sym made) in
      let done = ap (λ b. restore (suc d) 0 (suc d) b 0 ys) (sym blank) ∙ restored in
      ground (arith, done)

  -- Deinterleaving moves the values and changes none: each test is passed by as many values of the
  -- result as of the argument.
  pub count-deinterleave :
      (test : A → Bool) (unset : A) (xs ys : List A) (depth : ℕ)
      → deinterleave unset ys depth ≡ ok xs
      → count test xs ≡ count test ys
  unfolding deinterleave
  count-deinterleave test unset xs ys zero e = absurd (cc e)
  count-deinterleave test unset xs ys (suc d) e =
      let made : restore (suc d) 0 (suc d) (repeat unset (length ys)) 0 ys ≡ xs = ground arith in
      rw (← made) (
        count-restore (suc d) 0 (suc d) 0 test (repeat unset (length ys)) ys (omega arith)
          (omega arith) (length-repeat unset (length ys))
          (sym (count_below-none (suc d) (λ x. true) 0 ys))
          (count_below-none (suc d) test 0 (repeat unset (length ys))))
