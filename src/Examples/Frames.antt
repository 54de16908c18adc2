-- ===== src/Examples/Frames.antt =====
-- Frames of parameters, trouble codes, tell tales, and the factory.
use j1939_framework.Base.{
  ℕ, ◌%◌, ◌≡◌, ◌<◌, inl, refl, ap, arith, List, [], ◌∷◌, ◌++◌, length, replicate, none, some,
}
use j1939_framework.Base.Dict
use j1939_framework.Common.{ok, err, ◌>>=◌, fault}
use j1939_framework.Header
use j1939_framework.Header.{Header, blank, decode_header, frame_pgn}
use j1939_framework.Spn
use j1939_framework.Spn.{Spec, Spn, numeric, text}
use j1939_framework.Generic
use j1939_framework.Generic.{
  Generic, Spns, data_length, encode_data, recalculate_string_offsets, register_spn, has_spn,
  delete_spn, get_spn, compare, compare_spns, same_bytes,
}
use j1939_framework.Generic.Offsets.{IsSized, StartsBelow, AllStrings, data_length-StartsBelow}
use j1939_framework.Diagnosis
use j1939_framework.Diagnosis.{Dtc, decode_dtc, dtc_bytes, decode_dtcs, code_bytes}
use j1939_framework.Diagnosis.Codes.{AreFaults, decode_dtcs-code_bytes}
use j1939_framework.Fms
use j1939_framework.Fms.Block.{rows, decode_data-encode_data_fms}
use j1939_framework.Frame.{Frame, decode, generic}
use j1939_framework.Factory.{get_frame, predefined, register_frames, new_factory}
use j1939_framework.Factory.Registry.{first_with, get_frame-register_frames}

abbrev spec : ℕ → ℕ → Spec
spec number offset = record { spec_id = number; number = number; name = "P"; offset = offset }

abbrev number_at : ℕ → ℕ → ℕ → Spn
number_at n offset size = numeric (record { spec = spec n offset; byte_size = size; value = 7 })

abbrev string_at : ℕ → ℕ → List ℕ → Spn
string_at n offset value = text (record { spec = spec n 0; offset = offset; value = value })

abbrev engine : Generic
engine = record { specified = 0; spns = (10, number_at 10 0 2) ∷ (11, number_at 11 2 1) ∷ [] }

engine-IsSized : IsSized engine.spns
unfolding Spn.get_byte_size
engine-IsSized = ground arith

data_length-StartsBelow_example : StartsBelow (data_length engine) engine.spns
data_length-StartsBelow_example = data_length-StartsBelow engine engine-IsSized

two_strings : AllStrings ((20, string_at 20 0 (65 ∷ [])) ∷ (21, string_at 21 0 (66 ∷ [])) ∷ [])
unfolding Generic.is_string
two_strings = (refl, (refl, tt))

-- The first parameter is compared with the terminator, and the second lacks two bytes.
engine_overruns : compare engine (1 ∷ 2 ∷ 3 ∷ []) (1 ∷ []) ≡ err fault
unfolding compare compare_spns same_bytes Spn.get_offset Spn.get_byte_size
engine_overruns = refl

engine_compared : compare engine (1 ∷ 2 ∷ 3 ∷ []) (1 ∷ 2 ∷ []) ≡ ok (11 ∷ [])
unfolding compare compare_spns same_bytes Spn.get_offset Spn.get_byte_size
engine_compared = refl

abbrev engine_with : Generic
engine_with = record engine { spns = engine.spns ++ (12, number_at 12 3 1) ∷ [] }

engine_registered : register_spn engine (number_at 12 3 1) ≡ some engine_with
unfolding register_spn Dict.insert Dict.find Spn.get_spn_number
engine_registered = refl

abbrev code : ℕ → Dtc
code n = record { spn = n; fmi = 3; oc = 1 }

code-IsValid : (n : ℕ) → n < 0x80000 → Diagnosis.IsValid (code n)
code-IsValid n h = record { spn_fits = omega arith; fmi_fits = omega arith; oc_fits = omega arith }

codes-AreFaults : AreFaults (code 100 ∷ code 70000 ∷ [])
codes-AreFaults = (
  (code-IsValid 100 (omega arith), λ e. omega arith),
  ((code-IsValid 70000 (omega arith), λ e. omega arith), tt),
)

decode_dtcs-code_bytes_example :
    decode_dtcs (code_bytes (code 100 ∷ code 70000 ∷ []) ++ 0xFF ∷ 0xFF ∷ [])
    ≡ ok (code 100 ∷ code 70000 ∷ [])
decode_dtcs-code_bytes_example =
    decode_dtcs-code_bytes (code 100 ∷ code 70000 ∷ []) (0xFF ∷ 0xFF ∷ []) codes-AreFaults
      (omega arith) (λ e. absurd (omega (arith, ap length e)))

abbrev lit : ℕ → ℕ
lit n = n % 8

lit_small : (i : ℕ) → lit i < 8
lit_small i = omega arith

decode_data-encode_data_fms_example :
    (Fms.encode_data (record { block_id = 2; ttss = rows 2 lit }) (replicate 8 0xFF)
      >>= Fms.decode_data Fms.no_block)
    ≡ ok (record { block_id = 2; ttss = rows 2 lit })
decode_data-encode_data_fms_example =
    decode_data-encode_data_fms lit lit_small 2 lit Fms.no_block (replicate 8 0xFF) (omega arith)
      refl (λ e. inl refl)

abbrev prototype : Frame
prototype = record { header = blank 0xF004 "EEC1"; payload = generic engine }

get_frame-register_frames_example :
    get_frame (register_frames new_factory (prototype ∷ [])) 0x0CF00421 (1 ∷ 2 ∷ 3 ∷ [])
    ≡ elim (first_with (frame_pgn 0x0CF00421) (predefined ++ prototype ∷ [])) [
      | none ↦ ok none
      | some f ↦ elim (decode f 0x0CF00421 (1 ∷ 2 ∷ 3 ∷ [])) [ ok g ↦ ok (some g) | err e ↦ err e ]
    ]
get_frame-register_frames_example =
    get_frame-register_frames (prototype ∷ []) 0x0CF00421 (1 ∷ 2 ∷ 3 ∷ [])

prototype_found : Dict.find (frame_pgn 0x0CF00421) ((0xF004, prototype) ∷ []) ≡ some prototype
unfolding Dict.find Header.frame_pgn
prototype_found = refl
