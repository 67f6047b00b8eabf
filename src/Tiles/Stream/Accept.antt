-- ===== src/Tiles/Stream/Accept.antt =====
-- Which candidates a draw below a bound accepts.
use native.Mathlib.Nat.{mod-lt, mod-add-div, mul-mod_right, mul-suc, pow-le-pow_right, two-pow-succ}
use mathlib.Core.Path.{subst}
use splitbind.Base.{
  ℕ, zero, suc, ◌+◌, ◌-◌, ◌*◌, ◌/◌, ◌%◌, ◌^◌, ◌≡◌, ◌≤◌, ◌<◌, arith, ◌==◌, Bool-cases, inl, inr,
}
use splitbind.Tiles.Stream.{bit_length, byte_count, sample_space, acceptance_limit}

-- The number has no more bits than that.
bit_length-covers : (fuel value : ℕ) → value ≤ fuel → value < 2 ^ bit_length fuel value
unfolding bit_length
bit_length-covers zero value low = omega (arith, low)
bit_length-covers (suc fuel) value low = elim (Bool-cases (value == 0)) [
  | inl none_left ↦ rw none_left (ground (arith, none_left))
  | inr some_left ↦
      let positive : 1 ≤ value = ground (arith, some_left) in
      let half = bit_length-covers fuel (value / 2) (omega (arith, low, positive)) in
      let twice = two-pow-succ (bit_length fuel (value / 2)) in
      rw some_left (omega (arith, half, twice))
]

byte_count-covers :
    (upper_bound : ℕ) → bit_length upper_bound upper_bound ≤ byte_count upper_bound * 8
unfolding byte_count
byte_count-covers upper_bound = ground arith

sample_space-covers : (upper_bound : ℕ) → upper_bound < sample_space upper_bound
unfolding sample_space
sample_space-covers upper_bound =
    let bits = bit_length-covers upper_bound upper_bound (omega arith) in
    let wide : 2 ^ bit_length upper_bound upper_bound ≤ 2 ^ (byte_count upper_bound * 8) =
      pow-le-pow_right (omega arith) (byte_count-covers upper_bound) in
    omega (arith, bits, wide)

-- The remainder of a larger number is less than half of it.
remainder_below_half : (b s q : ℕ) → s % b + b * q ≡ s → s % b < b → b < s → 2 * (s % b) < s
remainder_below_half b s zero split small large = absurd (omega (arith, split, small, large))
remainder_below_half b s (suc q) split small large =
    let one = mul-suc b q in omega (arith, split, small, one)

-- More than half of the samples are accepted, and every remainder equally often.
pub acceptance_limit-fair :
    (upper_bound : ℕ)
    → 0 < upper_bound
    → (sample_space upper_bound < 2 * acceptance_limit upper_bound)
      × (acceptance_limit upper_bound % upper_bound ≡ 0)
unfolding acceptance_limit
acceptance_limit-fair upper_bound positive =
    let s = sample_space upper_bound in
    let split = mod-add-div s upper_bound in
    let half =
      remainder_below_half upper_bound s (s / upper_bound) split (mod-lt s positive)
        (sample_space-covers upper_bound) in
    let multiple : upper_bound * (s / upper_bound) ≡ s - s % upper_bound = omega (arith, split) in
    (
      omega (arith, half),
      subst (λ n. n % upper_bound ≡ 0) multiple (mul-mod_right upper_bound (s / upper_bound)),
    )
