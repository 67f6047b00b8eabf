-- ===== src/Tiles/Shuffle/Laws.antt =====
-- A shuffle only moves the elements of a list.
use mathlib.Core.Path.{subst}
use splitbind.Base.{
  ℕ, zero, suc, ◌-◌, ◌≡◌, refl, sym, ◌∙◌, ap, ◌≢◌, ◌⊎◌, inl, inr, some, List, [], ◌∷◌, length,
  get_elem?, set, ok, arith, ◌==◌, if◌then◌else◌, Option-cases, some-inv, ok-inv, >>=-eq-ok,
}
use splitbind.Payload.{Bytes}
use splitbind.Tiles.Shuffle.{swap, shuffle_from, shuffle}
use splitbind.Tiles.Stream.{HmacByteStream, randbelow}

module _ {A : Type 0} where
  length-set : (xs : List A) (i : ℕ) (v : A) → length (set xs i v) ≡ length xs
  length-set [] i v = refl
  length-set (x ∷ xs) zero v = refl
  length-set (x ∷ xs) (suc i) v = ap suc (length-set xs i v)

  get_set_other :
      (xs : List A) (i k : ℕ) (v : A) → k ≢ i → get_elem? (set xs i v) k ≡ get_elem? xs k
  get_set_other [] i k v n = refl
  get_set_other (x ∷ xs) zero zero v n = absurd (n refl)
  get_set_other (x ∷ xs) zero (suc k) v n = refl
  get_set_other (x ∷ xs) (suc i) zero v n = refl
  get_set_other (x ∷ xs) (suc i) (suc k) v n = get_set_other xs i k v (λ e. n (ap suc e))

  get_set_same : (xs : List A) (i : ℕ) (v c : A) → get_elem? (set xs i v) i ≡ some c → c ≡ v
  get_set_same [] i v c e = absurd (cc e)
  get_set_same (x ∷ xs) zero v c e = sym (some-inv e)
  get_set_same (x ∷ xs) (suc i) v c e = get_set_same xs i v c e

-- Each element of the new list stands in the old one, at a place of its own, and the lengths agree.
pub record IsRearranged {A : Type 0} (old new : List A) : Type 0 where
  pub place : ℕ → ℕ
  pub distinct : (i j : ℕ) → place i ≡ place j → i ≡ j
  pub same : (k : ℕ) (c : A) → get_elem? new k ≡ some c → get_elem? old (place k) ≡ some c
  pub size : length new ≡ length old

exchange : ℕ → ℕ → ℕ → ℕ
exchange i j k = if k == j then i else if k == i then j else k

exchange-distinct : (i j k l : ℕ) → exchange i j k ≡ exchange i j l → k ≡ l
unfolding exchange
exchange-distinct i j k l e = ground arith

exchange_at : (i j k : ℕ) → (k ≡ j) ⊎ ((k ≢ j) × ((k ≡ i) ⊎ (k ≢ i)))
exchange_at i j k = ground arith

module _ {A : Type 0} where
  exchanged :
      (xs : List A) (i j k : ℕ) (a b c : A)
      → get_elem? xs i ≡ some a
      → get_elem? xs j ≡ some b
      → get_elem? (set (set xs i b) j a) k ≡ some c
      → get_elem? xs (exchange i j k) ≡ some c
  unfolding exchange
  exchanged xs i j k a b c at_i at_j e = elim (exchange_at i j k) [
    | inl last ↦
        (let same =
            get_set_same (set xs i b) j a c
              (subst (λ n. get_elem? (set (set xs i b) j a) n ≡ some c) last e) in
          let place : (if k == j then i else if k == i then j else k) ≡ i = ground arith in
          rw (place, same) at_i)
    | inr (other, inl first) ↦
        (let e' = sym (get_set_other (set xs i b) j k a other) ∙ e in
          let same =
            get_set_same xs i b c (subst (λ n. get_elem? (set xs i b) n ≡ some c) first e') in
          let place : (if k == j then i else if k == i then j else k) ≡ j = ground arith in
          rw (place, same) at_j)
    | inr (other, inr away) ↦
        (let place : (if k == j then i else if k == i then j else k) ≡ k = ground arith in
          rw place
            (sym (get_set_other xs i k b away) ∙ sym (get_set_other (set xs i b) j k a other) ∙ e))
  ]

  kept-IsRearranged : (xs : List A) → IsRearranged xs xs
  kept-IsRearranged xs = record {
    place = λ k. k;
    distinct = λ i j e. e;
    same = λ k c e. e;
    size = refl;
  }

  swap-IsRearranged : (i j : ℕ) (xs : List A) → IsRearranged xs (swap i j xs)
  unfolding swap
  swap-IsRearranged i j xs = elim (Option-cases (get_elem? xs i)) [
    | inl none_i ↦ rw (swap, none_i) (kept-IsRearranged xs)
    | inr (a, at_i) ↦ elim (Option-cases (get_elem? xs j)) [
      | inl none_j ↦ rw (swap, at_i, none_j) (kept-IsRearranged xs)
      | inr (b, at_j) ↦
          rw (swap, at_i, at_j)
            (record {
              place = exchange i j;
              distinct = exchange-distinct i j;
              same = λ k c e. exchanged xs i j k a b c at_i at_j e;
              size = length-set (set xs i b) j a ∙ length-set xs i b;
            })
    ]
  ]

  IsRearranged-trans :
      (xs ys zs : List A) → IsRearranged xs ys → IsRearranged ys zs → IsRearranged xs zs
  IsRearranged-trans xs ys zs r s = record {
    place = λ k. r.place (s.place k);
    distinct = λ i j e. s.distinct i j (r.distinct (s.place i) (s.place j) e);
    same = λ k c e. r.same (s.place k) c (s.same k c e);
    size = s.size ∙ r.size;
  }

module _ (hmac : Bytes → Bytes → Bytes) (domain : Bytes) {A : Type 0} where
  shuffle_from-IsRearranged :
      (draws index : ℕ) (xs ys : List A) (stream : HmacByteStream)
      → shuffle_from hmac domain draws index xs stream ≡ ok ys
      → IsRearranged xs ys
  unfolding shuffle_from
  shuffle_from-IsRearranged draws zero xs ys stream e =
      subst (λ zs. IsRearranged xs zs) (ok-inv e) (kept-IsRearranged xs)
  shuffle_from-IsRearranged draws (suc index) xs ys stream e =
      let (p, drawn, rest) = >>=-eq-ok (randbelow hmac domain draws (suc (suc index)) stream) _ e in
      IsRearranged-trans xs (swap (suc index) p.0 xs) ys (swap-IsRearranged (suc index) p.0 xs)
        (shuffle_from-IsRearranged draws index (swap (suc index) p.0 xs) ys p.1 rest)

  -- What a shuffle answers is a rearrangement of what it was given: no element is lost, repeated or
  -- changed, whatever the stream of bytes is.
  pub shuffle-IsRearranged :
      (draws : ℕ) (xs ys : List A) (stream : HmacByteStream)
      → shuffle hmac domain draws xs stream ≡ ok ys
      → IsRearranged xs ys
  unfolding shuffle
  shuffle-IsRearranged draws xs ys stream e =
      shuffle_from-IsRearranged draws (length xs - 1) xs ys stream e
