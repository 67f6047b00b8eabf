-- ===== src/Tiles/Stream.antt =====
-- `_HmacByteStream` of research/python/src/splitbind_ref/tile_layout.py. `hmac` is HMAC-SHA256 of the
-- standard library, by its key and its message; bytes are numbers. The rejection of a candidate is
-- repeated up to a number of draws.
pub mod Accept
pub mod Laws
use splitbind.Base.{
  ℕ, zero, suc, ◌+◌, ◌-◌, ◌*◌, ◌/◌, ◌%◌, ◌^◌, Bool, true, false, not, List, [], ◌++◌, length, take,
  drop, Result, ok, err, ◌>>=◌, ltb, ◌==◌, if◌then◌else◌,
}
use splitbind.Payload.{Bytes, to_bytes4, from_bytes}

pub data LayoutError : Type 0 where
  counter_overflow out_of_fuel out_of_draws bad_bound bad_page_shape bad_key bad_nonce
        bad_page_index bad_profile page_too_large page_too_small too_few_slots :
      LayoutError

pub record HmacByteStream : Type 0 where
  pub seed : Bytes
  pub counter : ℕ
  pub buffer : Bytes

-- `value.bit_length()`, where a number has at most as many bits as its value
unfoldable pub bit_length : ℕ → ℕ → ℕ
bit_length zero value = 0
bit_length (suc fuel) value =
    let rest = bit_length fuel (value / 2) in if value == 0 then 0 else suc rest

-- `max(1, (upper_bound.bit_length() + 7) // 8)`
unfoldable pub byte_count : ℕ → ℕ
unfolding bit_length
byte_count upper_bound =
    let count = (bit_length upper_bound upper_bound + 7) / 8 in if ltb count 1 then 1 else count

unfoldable pub sample_space : ℕ → ℕ
unfolding byte_count
sample_space upper_bound = 2 ^ (byte_count upper_bound * 8)

unfoldable pub acceptance_limit : ℕ → ℕ
unfolding sample_space
acceptance_limit upper_bound = sample_space upper_bound - sample_space upper_bound % upper_bound

module _ (hmac : Bytes → Bytes → Bytes) (domain : Bytes) where
  unfoldable pub extend : HmacByteStream → HmacByteStream
  unfolding to_bytes4
  extend stream = record stream {
    counter = suc stream.counter;
    buffer = stream.buffer ++ hmac stream.seed (domain ++ to_bytes4 stream.counter);
  }

  -- the loop of `_read`; each round adds a digest
  unfoldable pub refill : ℕ → ℕ → HmacByteStream → Result LayoutError HmacByteStream
  unfolding extend
  refill zero count stream = if ltb (length stream.buffer) count then err out_of_fuel else ok stream
  refill (suc fuel) count stream =
      let rest = refill fuel count (extend stream) in
      if ltb (length stream.buffer) count
      then if ltb stream.counter 4294967296 then rest else err counter_overflow
      else ok stream

  -- `_read`
  unfoldable pub read : ℕ → HmacByteStream → Result LayoutError (Bytes × HmacByteStream)
  unfolding refill
  read count stream = do
    full ← refill count count stream
    ok (take count full.buffer, record full { buffer = drop count full.buffer })

  -- the loop of `randbelow` for a positive bound
  unfoldable pub draw_below : ℕ → ℕ → HmacByteStream → Result LayoutError (ℕ × HmacByteStream)
  unfolding read byte_count acceptance_limit
  draw_below zero upper_bound stream = err out_of_draws
  draw_below (suc draws) upper_bound stream =
      read (byte_count upper_bound) stream >>= λ (bytes, rest).
      let candidate = from_bytes 0 bytes in
      let next = draw_below draws upper_bound rest in
      if ltb candidate (acceptance_limit upper_bound)
      then ok (candidate % upper_bound, rest)
      else next

  unfoldable pub randbelow : ℕ → ℕ → HmacByteStream → Result LayoutError (ℕ × HmacByteStream)
  unfolding draw_below
  randbelow draws upper_bound stream =
      if upper_bound == 0 then err bad_bound else draw_below draws upper_bound stream
