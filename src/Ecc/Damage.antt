-- ===== src/Ecc/Damage.antt =====
-- A damaged codeword: interleaving does not change how many bytes differ.
use splitbind.Base.{
  ℕ, zero, suc, ◌≤◌, ◌≡◌, refl, sym, ap, ◌∙◌, true, not, List, [], ◌∷◌, ◌==◌, ok-inv, some, arith,
  length, map, ok,
}
use mathlib.Core.Path.{subst}
use splitbind.Ecc.{deinterleave, interleave, restore, repeat}
use splitbind.Ecc.Count.{count, length-count}
use splitbind.Ecc.Laws.{deinterleave-interleave, count-deinterleave}
use splitbind.Ecc.Natural.{map-deinterleave}
use splitbind.Ecc.Codec.{Codec, encode_ecc, decode_ecc, decoded_message}

abbrev pub pairs : List ℕ → List ℕ → List (ℕ × ℕ)
pairs [] ys = []
pairs (x ∷ xs) [] = []
pairs (x ∷ xs) (y ∷ ys) = (x, y) ∷ pairs xs ys

-- the number of positions at which two words differ
abbrev pub differing : List ℕ → List ℕ → ℕ
differing xs ys = count (λ (p : ℕ × ℕ). not (p.0 == p.1)) (pairs xs ys)

pairs-first : (xs ys : List ℕ) → length xs ≡ length ys → map (λ (p : ℕ × ℕ). p.0) (pairs xs ys) ≡ xs
pairs-first [] ys n = refl
pairs-first (x ∷ xs) [] n = absurd (omega (arith, n))
pairs-first (x ∷ xs) (y ∷ ys) n = ap (λ t. x ∷ t) (pairs-first xs ys (omega (arith, n)))

pairs-second :
    (xs ys : List ℕ) → length xs ≡ length ys → map (λ (p : ℕ × ℕ). p.1) (pairs xs ys) ≡ ys
pairs-second [] [] n = refl
pairs-second [] (y ∷ ys) n = absurd (omega (arith, n))
pairs-second (x ∷ xs) [] n = absurd (omega (arith, n))
pairs-second (x ∷ xs) (y ∷ ys) n = ap (λ t. y ∷ t) (pairs-second xs ys (omega (arith, n)))

pairs-unzip : (ps : List (ℕ × ℕ)) → pairs (map (λ p. p.0) ps) (map (λ p. p.1) ps) ≡ ps
pairs-unzip [] = refl
pairs-unzip (p ∷ ps) = ap (λ t. p ∷ t) (pairs-unzip ps)

-- What reedsolo documents for a code of 16 parity symbols without erasures: a message of 23 bytes
-- has a codeword of 39, and a word with at most 8 wrong bytes decodes to the message.
pub record Corrects (codec : ℕ → Codec) (message : List ℕ) : Type 0 where
  pub sized : length ((codec 16).encode message) ≡ 39
  pub corrects :
      (word : List ℕ)
      → length word ≡ 39
      → differing ((codec 16).encode message) word ≤ 8
      → (codec 16).decode word [] ≡ some message

deinterleave-total {ℓ κ} :
    {A : Type ℓ} {B : Type κ} (depth : ℕ) (a : A) (b : B) (xs raw : List A) (ys : List B)
    → deinterleave a xs depth ≡ ok raw
    → (other : List B) × (deinterleave b ys depth ≡ ok other)
unfolding deinterleave
deinterleave-total zero a b xs raw ys e = absurd (cc e)
deinterleave-total (suc d) a b xs raw ys e =
    (restore (suc d) 0 (suc d) (repeat b (length ys)) 0 ys, ground arith)

-- The deinterleaved words differ in as many bytes as the words.
deinterleave-differing :
    (depth : ℕ) (sent received raw raw' : List ℕ)
    → length sent ≡ length received
    → deinterleave 0 sent depth ≡ ok raw
    → deinterleave 0 received depth ≡ ok raw'
    → differing raw raw' ≡ differing sent received
deinterleave-differing depth sent received raw raw' n e e' =
    let (zs, both) = deinterleave-total depth 0 (0, 0) sent raw (pairs sent received) e in
    let first = map-deinterleave (λ (p : ℕ × ℕ). p.0) (0, 0) zs (pairs sent received) depth both in
    let second = map-deinterleave (λ (p : ℕ × ℕ). p.1) (0, 0) zs (pairs sent received) depth both in
    let one : raw ≡ map (λ p. p.0) zs = ok-inv (
      sym e
      ∙ subst (λ w. deinterleave 0 w depth ≡ ok (map (λ p. p.0) zs)) (pairs-first sent received n)
          first) in
    let two : raw' ≡ map (λ p. p.1) zs = ok-inv (
      sym e'
      ∙ subst (λ w. deinterleave 0 w depth ≡ ok (map (λ p. p.1) zs)) (pairs-second sent received n)
          second) in
    rw (one, two, pairs-unzip zs)
      (count-deinterleave (λ (p : ℕ × ℕ). not (p.0 == p.1)) (0, 0) zs (pairs sent received) depth
        both)

length-deinterleave :
    (xs ys : List ℕ) (depth : ℕ) → deinterleave 0 ys depth ≡ ok xs → length xs ≡ length ys
length-deinterleave xs ys depth e =
    sym (length-count xs) ∙ count-deinterleave (λ x. true) 0 xs ys depth e ∙ length-count ys

decode-word :
    (codec : ℕ → Codec) (payload raw sent received : List ℕ)
    → length payload ≡ 23
    → Corrects codec payload
    → interleave ((codec 16).encode payload) 8 ≡ ok sent
    → length received ≡ length sent
    → differing sent received ≤ 8
    → deinterleave 0 received 8 ≡ ok raw
    → (length received ≡ 39) × ((codec 16).decode raw [] ≡ some payload)
decode-word codec payload raw sent received sized h e n few found =
    let back = deinterleave-interleave 0 ((codec 16).encode payload) sent 8 e in
    let whole = length-deinterleave ((codec 16).encode payload) sent 8 back in
    let same = deinterleave-differing 8 sent received _ raw (sym n) back found in
    let size = length-deinterleave raw received 8 found in
    (
      omega (arith, n, whole, h.sized),
      h.corrects raw (omega (arith, size, n, whole, h.sized)) (omega (arith, same, few)),
    )

decode-at :
    (codec : ℕ → Codec) (payload sent received : List ℕ)
    → Corrects codec payload
    → encode_ecc codec payload 16 ≡ ok sent
    → length received ≡ length sent
    → differing sent received ≤ 8
    → decode_ecc codec received 16 ≡ ok payload
unfolding encode_ecc decode_ecc decoded_message
decode-at codec payload sent received h e n few =
    let sized : length payload ≡ 23 = ground arith in
    let woven : interleave ((codec 16).encode payload) 8 ≡ ok sent = ground arith in
    let back = deinterleave-interleave 0 ((codec 16).encode payload) sent 8 woven in
    let (raw, found) = deinterleave-total 8 0 0 sent _ received back in
    let (size, decoded) = decode-word codec payload raw sent received sized h woven n few found in
    rw (size, found, decoded, sized) refl

-- A payload whose codeword is damaged in at most 8 bytes, wherever they are, is recovered.
pub decode_ecc-encode_ecc :
    (codec : ℕ → Codec) (payload sent received : List ℕ) (parity_symbols : ℕ)
    → Corrects codec payload
    → encode_ecc codec payload parity_symbols ≡ ok sent
    → length received ≡ length sent
    → differing sent received ≤ 8
    → decode_ecc codec received parity_symbols ≡ ok payload
unfolding encode_ecc
decode_ecc-encode_ecc codec payload sent received parity_symbols h e n few =
    let parity : parity_symbols ≡ 16 = ground arith in
    subst (λ q. decode_ecc codec received q ≡ ok payload) (sym parity)
      (decode-at codec payload sent received h
        (subst (λ q. encode_ecc codec payload q ≡ ok sent) parity e) n few)
