-- ===== src/Ecc/Tests.antt =====
-- Runs of the interleaving, and what the theorems say of them.
use splitbind.Base.{All, false, ℕ, ◌≡◌, refl, List, [], ◌∷◌, ◌==◌, ok, arith, some}
use splitbind.Ecc.{interleave, deinterleave, restore, join_lanes, repeat}
use splitbind.Ecc.Ladder.{
  erasure_ladder, erasure_ladder-IsRetry, IsRetry, ranked_attempts, keep_new, was_seen,
}
use splitbind.Ecc.Laws.{deinterleave-interleave, count-deinterleave}
use splitbind.Ecc.Count.{count}
use splitbind.Ecc.Codec.{Codec, encode_ecc, decode_ecc}
use splitbind.Ecc.Damage.{Corrects, decode_ecc-encode_ecc}

-- the last row of four lanes is ragged
abbrev six_bytes : List ℕ
six_bytes = 10 ∷ 11 ∷ 12 ∷ 13 ∷ 14 ∷ 15 ∷ []

abbrev woven_bytes : List ℕ
woven_bytes = 10 ∷ 14 ∷ 11 ∷ 15 ∷ 12 ∷ 13 ∷ []

interleave_run : interleave six_bytes 4 ≡ ok woven_bytes
unfolding interleave join_lanes
interleave_run = refl

deinterleave_run : deinterleave 0 woven_bytes 4 ≡ ok six_bytes
unfolding deinterleave restore
deinterleave_run = refl

deinterleave-interleave_example : deinterleave 0 woven_bytes 4 ≡ ok six_bytes
deinterleave-interleave_example = deinterleave-interleave 0 six_bytes woven_bytes 4 interleave_run

count-deinterleave_example : count (λ b. b == 12) six_bytes ≡ count (λ b. b == 12) woven_bytes
count-deinterleave_example =
    count-deinterleave (λ b. b == 12) 0 six_bytes woven_bytes 4 deinterleave_run

-- a codec of one message, all of whose codewords are zero
abbrev message : List ℕ
message = repeat 5 23

abbrev one_message : ℕ → Codec
one_message parity = record { encode = λ m. repeat 0 39; decode = λ word erased. some message }

one_message-Corrects : Corrects one_message message
one_message-Corrects = record { sized = refl; corrects = λ word n few. refl }

abbrev damaged : List ℕ
damaged = 9 ∷ 9 ∷ 9 ∷ 9 ∷ 9 ∷ 9 ∷ 9 ∷ 9 ∷ repeat 0 31

message_sent : encode_ecc one_message message 16 ≡ ok (repeat 0 39)
unfolding encode_ecc interleave join_lanes
message_sent = refl

decode_ecc-encode_ecc_example : decode_ecc one_message damaged 16 ≡ ok message
decode_ecc-encode_ecc_example =
    decode_ecc-encode_ecc one_message message (repeat 0 39) damaged 16 one_message-Corrects
      message_sent refl (omega arith)

-- a ranking of three bytes allows attempts of 2, 1 and 0 erasures
ladder_run : erasure_ladder (7 ∷ []) (5 ∷ 3 ∷ 9 ∷ []) ≡ (7 ∷ []) ∷ (3 ∷ 5 ∷ []) ∷ (5 ∷ []) ∷ [] ∷ []
unfolding erasure_ladder keep_new ranked_attempts
ladder_run = refl

erasure_ladder-IsRetry_example :
    (rest : List (List ℕ)) × (erasure_ladder (7 ∷ []) (5 ∷ 3 ∷ 9 ∷ []) ≡ (7 ∷ []) ∷ rest)
    × All (IsRetry (5 ∷ 3 ∷ 9 ∷ [])) rest
    × All (λ a. was_seen a ((7 ∷ []) ∷ []) ≡ false) rest
erasure_ladder-IsRetry_example = erasure_ladder-IsRetry (7 ∷ []) (5 ∷ 3 ∷ 9 ∷ [])
