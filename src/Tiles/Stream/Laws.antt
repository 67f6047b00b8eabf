-- ===== src/Tiles/Stream/Laws.antt =====
-- The loops of the byte stream end.
use native.Mathlib.Nat.{mod-lt}
use splitbind.Base.{
  ℕ, zero, suc, ◌+◌, ◌*◌, ◌%◌, ◌≡◌, refl, ◌∙◌, ◌≤◌, ◌<◌, ◌⊎◌, inl, inr, true, false, ◌++◌, length,
  take, drop, ok, err, arith, ltb, ◌==◌, Bool-cases, length-append, length-take,
}
use splitbind.Payload.{Bytes, from_bytes, to_bytes4}
use splitbind.Tiles.Stream.{
  HmacByteStream, out_of_draws, extend, refill, read, draw_below, randbelow, byte_count,
  acceptance_limit, sample_space,
}
use splitbind.Tiles.Stream.Accept.{acceptance_limit-fair}

module _ (hmac : Bytes → Bytes → Bytes) (domain : Bytes)
    (some_byte : (key message : Bytes) → 1 ≤ length (hmac key message)) where
  -- The buffer has enough bytes, and the counter has grown by at most the rounds.
  record IsFull (fuel count : ℕ) (stream full : HmacByteStream) : Type 0 where
    enough : count ≤ length full.buffer
    counter : full.counter ≤ stream.counter + fuel

  refill-IsFull :
      (fuel count : ℕ) (stream : HmacByteStream)
      → count ≤ fuel + length stream.buffer
      → stream.counter + fuel ≤ 4294967296
      → (full : HmacByteStream) × (refill hmac domain fuel count stream ≡ ok full)
        × IsFull fuel count stream full
  unfolding refill
  refill-IsFull zero count stream enough room = (
    stream,
    ground (arith, enough),
    record { enough = omega (arith, enough); counter = omega arith },
  )
  refill-IsFull (suc fuel) count stream enough room =
      elim (Bool-cases (ltb (length stream.buffer) count)) [
        | inr full ↦ (
          stream,
          rw (refill, full) refl,
          record { enough = ground (arith, full); counter = omega arith },
        )
        | inl short ↦
            (let added =
                length-append stream.buffer
                  (hmac stream.seed (domain ++ to_bytes4 stream.counter)) in
              let one = some_byte stream.seed (domain ++ to_bytes4 stream.counter) in
              let (full, run, f) =
                refill-IsFull fuel count (extend hmac domain stream)
                  (omega (arith, enough, added, one)) (omega (arith, room)) in
              let low : ltb stream.counter 4294967296 ≡ true = ground (arith, room) in
              (
                full,
                rw (refill, short, low) run,
                record { enough = f.enough; counter = omega (arith, f.counter) },
              ))
      ]

  -- What a reading gives, when it is not stopped by the counter: exactly the bytes asked for.
  record IsRead (count : ℕ) (stream rest : HmacByteStream) (bytes : Bytes) : Type 0 where
    size : length bytes ≡ count
    counter : rest.counter ≤ stream.counter + count

  read-IsRead :
      (count : ℕ) (stream : HmacByteStream)
      → stream.counter + count ≤ 4294967296
      → (bytes : Bytes) × (rest : HmacByteStream) × (read hmac domain count stream
          ≡ ok (bytes, rest))
        × IsRead count stream rest bytes
  unfolding read
  read-IsRead count stream room =
      let (full, run, f) = refill-IsFull count count stream (omega arith) room in
      (
        take count full.buffer,
        record full { buffer = drop count full.buffer },
        rw (read, run) refl,
        record {
          size = length-take count full.buffer ∙ omega (arith, f.enough);
          counter = f.counter;
        },
      )

  -- Every one of so many candidates is read and rejected.
  abbrev pub AllRejected : ℕ → ℕ → HmacByteStream → Type 0
  AllRejected zero upper_bound stream = Unit
  AllRejected (suc draws) upper_bound stream =
      (bytes : Bytes) × (rest : HmacByteStream) × (read hmac domain (byte_count upper_bound) stream
        ≡ ok (bytes, rest))
      × (acceptance_limit upper_bound ≤ from_bytes 0 bytes)
      × AllRejected draws upper_bound rest

  draw_below-bounded :
      (draws upper_bound : ℕ) (stream : HmacByteStream)
      → 0 < upper_bound
      → stream.counter + draws * byte_count upper_bound ≤ 4294967296
      → ((value : ℕ) × (rest : HmacByteStream) × (draw_below hmac domain draws upper_bound stream
            ≡ ok (value, rest))
          × (value < upper_bound))
        ⊎ (draw_below hmac domain draws upper_bound stream ≡ err out_of_draws)
          × AllRejected draws upper_bound stream
  unfolding draw_below
  draw_below-bounded zero upper_bound stream positive room = inr (refl, tt)
  draw_below-bounded (suc draws) upper_bound stream positive room =
      let (bytes, rest, run, r) =
        read-IsRead (byte_count upper_bound) stream (omega (arith, room)) in
      elim (Bool-cases (ltb (from_bytes 0 bytes) (acceptance_limit upper_bound))) [
        | inl accepted ↦ inl (
          from_bytes 0 bytes % upper_bound,
          rest,
          rw (draw_below, run, accepted) refl,
          mod-lt (from_bytes 0 bytes) positive,
        )
        | inr rejected ↦
            (elim (draw_below-bounded draws upper_bound rest positive
              (omega (arith, room, r.counter))) [
                | inl (value, last, drawn, below) ↦
                    inl (value, last, rw (draw_below, run, rejected) drawn, below)
                | inr (drawn, others) ↦ inr (
                  rw (draw_below, run, rejected) drawn,
                  (bytes, rest, run, ground (arith, rejected), others),
                )
              ])
      ]

  -- A draw below a positive bound, with digests that are not empty and a counter that the readings of
  -- all the draws allowed cannot carry to 2 ** 32, answers a number below the bound unless every one of the
  -- candidates allowed is read and at the acceptance limit or above. More than half of the sample space is
  -- below that limit, which is a multiple of the bound, so that no remainder is preferred.
  pub randbelow-bounded :
      (draws upper_bound : ℕ) (stream : HmacByteStream)
      → 0 < upper_bound
      → stream.counter + draws * byte_count upper_bound ≤ 4294967296
      → (sample_space upper_bound < 2 * acceptance_limit upper_bound)
        × (acceptance_limit upper_bound % upper_bound ≡ 0)
        × (((value : ℕ) × (rest : HmacByteStream) × (randbelow hmac domain draws upper_bound stream
                ≡ ok (value, rest))
              × (value < upper_bound))
            ⊎ (randbelow hmac domain draws upper_bound stream ≡ err out_of_draws)
              × AllRejected draws upper_bound stream)
  unfolding randbelow
  randbelow-bounded draws upper_bound stream positive room =
      let nonzero : (upper_bound == 0) ≡ false = ground arith in
      let (half, fair) = acceptance_limit-fair upper_bound positive in
      (
        half,
        fair,
        elim (draw_below-bounded draws upper_bound stream positive room) [
          | inl (value, rest, run, below) ↦ inl (value, rest, rw (randbelow, nonzero) run, below)
          | inr (run, rejected) ↦ inr (rw (randbelow, nonzero) run, rejected)
        ],
      )
