-- ===== src/Payload/Laws.antt =====
-- The payloads that are accepted are those that are made.
use mathlib.Core.Path.{subst}
use splitbind.Base.{
  ℕ, ◌≡◌, refl, sym, ap, ◌↔◌, true, [], ◌∷◌, ◌++◌, ◌==◌, ==_iff, length, take, drop, ok, arith,
  Bool-cases, length-append, length-take, ok-inv, take-append-drop, inl, inr,
}
use splitbind.Payload.{
  Bytes, PayloadDecode, encode_payload, decode_payload, verify_crc, bytes_eq, to_bytes4,
}

pub bytes_eq_iff : (xs ys : Bytes) → (bytes_eq xs ys ≡ true) ↔ (xs ≡ ys)
bytes_eq_iff [] [] = (λ h. refl, λ h. refl)
bytes_eq_iff [] (b ∷ ys) = (λ h. cc, λ h. cc)
bytes_eq_iff (a ∷ xs) [] = (λ h. cc, λ h. cc)
bytes_eq_iff (a ∷ xs) (b ∷ ys) =
    let rest = bytes_eq_iff xs ys in (λ h. ground (arith, rest), λ h. ground (arith, rest))

take_exactly : (xs ys : Bytes) → take (length xs) (xs ++ ys) ≡ xs
take_exactly [] ys = refl
take_exactly (x ∷ xs) ys = ap (λ t. x ∷ t) (take_exactly xs ys)

drop_exactly : (xs ys : Bytes) → drop (length xs) (xs ++ ys) ≡ ys
drop_exactly [] ys = refl
drop_exactly (x ∷ xs) ys = drop_exactly xs ys

module _ (crc32 : Bytes → ℕ) where
  decode-body :
      (rest : Bytes)
      → length rest ≡ 20
      → to_bytes4 (crc32 (83 ∷ 66 ∷ 1 ∷ take 16 rest)) ≡ drop 16 rest
      → decode_payload crc32 (83 ∷ 66 ∷ 1 ∷ rest)
        ≡ ok (record { issuance_id = take 16 rest; version = 1 })
  unfolding decode_payload verify_crc
  decode-body rest sized sum =
      rw (
        sized,
        (bytes_eq_iff (to_bytes4 (crc32 (83 ∷ 66 ∷ 1 ∷ take 16 rest))) (drop 16 rest)).1 sum,
      )

  parts :
      (v : ℕ) (rest : Bytes) (d : PayloadDecode)
      → decode_payload crc32 (83 ∷ 66 ∷ v ∷ rest) ≡ ok d
      → (v ≡ 1)
        × (length rest ≡ 20)
        × (d ≡ record { issuance_id = take 16 rest; version = 1 })
        × (to_bytes4 (crc32 (83 ∷ 66 ∷ v ∷ take 16 rest)) ≡ drop 16 rest)
  unfolding decode_payload verify_crc
  parts v rest d e =
      let same = bytes_eq_iff (to_bytes4 (crc32 (83 ∷ 66 ∷ v ∷ take 16 rest))) (drop 16 rest) in
      ground (arith, same)

  header :
      (p : Bytes) (d : PayloadDecode)
      → decode_payload crc32 p ≡ ok d
      → (v : ℕ) × (rest : Bytes) × (p ≡ 83 ∷ 66 ∷ v ∷ rest)
  unfolding decode_payload verify_crc
  header [] d e = absurd (cc e)
  header (a ∷ []) d e = absurd (cc e)
  header (a ∷ b ∷ []) d e = absurd (cc e)
  header (a ∷ b ∷ v ∷ rest) d e = (v, rest, ground arith)

  encode-parts :
      (v : ℕ) (rest : Bytes) (d : PayloadDecode)
      → decode_payload crc32 (83 ∷ 66 ∷ v ∷ rest) ≡ ok d
      → (length d.issuance_id ≡ 16)
        × (encode_payload crc32 d.issuance_id d.version ≡ ok (83 ∷ 66 ∷ v ∷ rest))
  unfolding encode_payload
  encode-parts v rest d e =
      let (one, sized, found, sum) = parts v rest d e in
      subst
        (λ r.
          (length r.issuance_id ≡ 16)
          × (encode_payload crc32 r.issuance_id r.version ≡ ok (83 ∷ 66 ∷ v ∷ rest)))
        (sym found)
        (
          omega (arith, length-take 16 rest, sized),
          rw (← one) (rw sum (ap (λ r. ok (83 ∷ 66 ∷ v ∷ r)) (take-append-drop 16 rest))),
        )

  decode-encoded :
      (issuance_id : Bytes)
      → length issuance_id ≡ 16
      → decode_payload crc32
          (83 ∷ 66 ∷ 1 ∷ (issuance_id ++ to_bytes4 (crc32 (83 ∷ 66 ∷ 1 ∷ issuance_id))))
        ≡ ok (record { issuance_id = issuance_id; version = 1 })
  unfolding to_bytes4
  decode-encoded issuance_id sized =
      let sum = to_bytes4 (crc32 (83 ∷ 66 ∷ 1 ∷ issuance_id)) in
      let taken : take 16 (issuance_id ++ sum) ≡ issuance_id =
        rw (← sized) (take_exactly issuance_id sum) in
      let dropped : drop 16 (issuance_id ++ sum) ≡ sum =
        rw (← sized) (drop_exactly issuance_id sum) in
      let all : length (issuance_id ++ sum) ≡ 20 =
        omega (arith, length-append issuance_id sum, sized) in
      subst
        (λ t.
          decode_payload crc32 (83 ∷ 66 ∷ 1 ∷ (issuance_id ++ sum))
          ≡ ok (record { issuance_id = t; version = 1 }))
        taken (decode-body (issuance_id ++ sum) all (rw (taken, dropped)))

  decode-made :
      (p issuance_id : Bytes) (version : ℕ)
      → length issuance_id ≡ 16
      → encode_payload crc32 issuance_id version ≡ ok p
      → decode_payload crc32 p ≡ ok (record { issuance_id = issuance_id; version = version })
  unfolding encode_payload
  decode-made p issuance_id version sized made = elim (Bool-cases (version == 1)) [
    | inl e ↦
        let one : 1 ≡ version = sym ((==_iff version 1).0 e) in
        let same = ok-inv (subst (λ v. encode_payload crc32 issuance_id v ≡ ok p) (sym one) made) in
        subst
          (λ q.
            decode_payload crc32 q ≡ ok (record { issuance_id = issuance_id; version = version }))
          same
          (subst
            (λ v.
              decode_payload crc32
                (83 ∷ 66 ∷ 1 ∷ (issuance_id ++ to_bytes4 (crc32 (83 ∷ 66 ∷ 1 ∷ issuance_id))))
              ≡ ok (record { issuance_id = issuance_id; version = v }))
            one (decode-encoded issuance_id sized))
    | inr e ↦ absurd (cc (rw e at made))
  ]

  -- A sequence of bytes decodes to an issuance and a version exactly when the issuance has 16 bytes
  -- and the sequence is its encoding at that version.
  pub decode_payload_iff :
      (p : Bytes) (d : PayloadDecode)
      → (decode_payload crc32 p ≡ ok d)
        ↔ ((length d.issuance_id ≡ 16) × (encode_payload crc32 d.issuance_id d.version ≡ ok p))
  decode_payload_iff p d = (
    λ e.
        let (v, rest, shape) = header p d e in
        subst
          (λ q. (length d.issuance_id ≡ 16) × (encode_payload crc32 d.issuance_id d.version ≡ ok q))
          (sym shape) (encode-parts v rest d (subst (λ q. decode_payload crc32 q ≡ ok d) shape e)),
    λ (sized, made). decode-made p d.issuance_id d.version sized made,
  )
