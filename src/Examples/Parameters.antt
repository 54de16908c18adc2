-- ===== src/Examples/Parameters.antt =====
-- Parameters of the three types in a buffer.
use j1939_framework.Base.{
  ℕ, ◌*◌, ◌/◌, ◌%◌, ◌^◌, ◌≡◌, refl, arith, List, [], ◌∷◌, length, drop, some,
}
use j1939_framework.Common.{ok}
use j1939_framework.Spn.{Spec, Numeric, Status, Text, construct_status}
use j1939_framework.Spn.Codec.{
  encode_numeric, decode_numeric, encode_status, decode_status, encode_text, decode_text,
  set_status,
}
use j1939_framework.Spn.Codec.NumericBytes.{decode_numeric-encode_numeric}
use j1939_framework.Spn.Codec.StatusBits.{
  IsValid, decode_status-encode_status, construct_status-IsValid, set_status-IsValid,
}
use j1939_framework.Spn.Codec.TextBytes.{decode_text-encode_text}

abbrev spec : Spec
spec = record { spec_id = 1; number = 100; name = "Engine"; offset = 0 }

abbrev speed : Numeric
speed = record { spec = spec; byte_size = 2; value = 0x12345 }

decode_numeric-encode_numeric_example :
    (out : List ℕ) × (encode_numeric speed (7 ∷ 8 ∷ 9 ∷ []) ≡ ok out)
    × (decode_numeric speed out ≡ ok (record speed { value = 0x12345 % 2 ^ (2 * 8) }))
    × (drop 2 out ≡ 9 ∷ [])
    × (length out ≡ 3)
decode_numeric-encode_numeric_example =
    decode_numeric-encode_numeric speed speed (7 ∷ 8 ∷ 9 ∷ []) (omega arith) (omega arith) refl
      (omega arith)

abbrev switch : Status
switch = record { spec = spec; bit_offset = 2; bit_size = 3; descriptions = []; value = 5 }

switch-IsValid : IsValid switch
switch-IsValid = record { has_bits = omega arith; inside = omega arith; value_fits = omega arith }

decode_status-encode_status_example :
    (c : ℕ) × (encode_status switch (0xE3 ∷ 9 ∷ []) ≡ ok (c ∷ 9 ∷ []))
    × (decode_status switch (c ∷ 9 ∷ []) ≡ ok (record switch { value = 5 }))
    × (c % 2 ^ 2 ≡ 0xE3 % 2 ^ 2)
    × (c / 2 ^ 2 / 2 ^ 3 ≡ 0xE3 / 2 ^ 2 / 2 ^ 3)
decode_status-encode_status_example =
    decode_status-encode_status switch switch 0xE3 (9 ∷ []) switch-IsValid (omega arith) refl refl

set_status-IsValid_example : IsValid (set_status switch 7).0
set_status-IsValid_example = set_status-IsValid switch 7 switch-IsValid

switch_constructed : construct_status spec 2 3 [] ≡ some (record switch { value = 7 })
unfolding construct_status
switch_constructed = refl

construct_status-IsValid_example : IsValid (record switch { value = 7 })
construct_status-IsValid_example =
    construct_status-IsValid spec 2 3 [] (record switch { value = 7 }) switch_constructed

abbrev plate : Text
plate = record { spec = spec; offset = 0; value = 65 ∷ 66 ∷ [] }

decode_text-encode_text_example :
    (out : List ℕ) × (encode_text plate (1 ∷ 2 ∷ 3 ∷ 4 ∷ []) ≡ ok out)
    × (decode_text plate out ≡ ok (record plate { value = 65 ∷ 66 ∷ [] }))
    × (drop 3 out ≡ 4 ∷ [])
    × (length out ≡ 4)
decode_text-encode_text_example =
    decode_text-encode_text plate plate (1 ∷ 2 ∷ 3 ∷ 4 ∷ []) (ground arith) (omega arith)
