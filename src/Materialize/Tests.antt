-- ===== src/Materialize/Tests.antt =====
-- Runs of the message buffer (src/userspace/libs/materialize/src/buffer.rs and serialize.rs).
use vanadinite.Prelude.Powers.{next_power_of_two}
use vanadinite.Prelude.{ℕ, Bool, ◌+◌, ◌-◌, ◌^◌, ◌<◌, ◌≡◌, refl, List, [], ◌∷◌, ltb, arith}
use vanadinite.Materialize.{
  AlignedHeapBuffer, Outcome, ok, allocation_error, not_enough_space, new_buffer, resize, realloc,
  init, allocate_zeroed, fill_to, Layout, ReservationToken, align, split, align_to, reserve_space,
  ◌>>=◌,
}
use vanadinite.Materialize.Spaces.{Reserved, reserve_space-Reserved}
use vanadinite.Materialize.Tokens.{Splits, split-Splits, split-past_end}

abbrev allocator : List (ℕ → Bool)
allocator = (λ n. ltb n 65) ∷ (λ n. ltb n 65) ∷ (λ n. ltb n 65) ∷ []

abbrev word : Layout
word = record { size = 8; align = 8 }

abbrev byte : Layout
byte = record { size = 1; align = 1 }

-- A byte, and then a word behind seven bytes of padding.
second_position : Outcome ℕ
second_position = do
  (b, first) ← reserve_space byte (new_buffer allocator)
  (c, second) ← reserve_space word b
  ok (c.len + second.position)

second_position_value : second_position ≡ ok 24
unfolding second_position reserve_space align_to resize realloc init allocate_zeroed fill_to
    next_power_of_two
second_position_value = refl

too_large :
    reserve_space (record { size = 100; align = 1 }) (new_buffer allocator) ≡ allocation_error
unfolding reserve_space align_to resize realloc init allocate_zeroed next_power_of_two
too_large = refl

abbrev three_bytes : AlignedHeapBuffer
three_bytes = record { allocator = allocator; bytes = λ i. i + 7; len = 3; cap = 4 }

reserve_space-Reserved_example : Reserved three_bytes word (reserve_space word three_bytes)
reserve_space-Reserved_example =
    reserve_space-Reserved three_bytes word (omega arith) (omega arith) (omega arith)

abbrev token : ReservationToken
token = record { position = 3; length = 24 }

split-Splits_example :
    (first : ReservationToken) × (second : ReservationToken) × (split word token
      ≡ ok (first, second))
    × Splits word token first second
split-Splits_example = split-Splits word token (omega arith) (omega arith) (omega arith)

abbrev short_token : ReservationToken
short_token = record { position = 16; length = 4 }

split-past_end_example :
    (first : ReservationToken) × (second : ReservationToken) × (split word short_token
      ≡ ok (first, second))
    × (16 + 4 < first.position + first.length)
    × (second.length ≡ 4 + 2 ^ 64 - 8)
split-past_end_example = split-past_end word short_token refl (omega arith) (omega arith)

refused_split : align word (record { position = 17; length = 8 }) ≡ not_enough_space
unfolding align
refused_split = refl
