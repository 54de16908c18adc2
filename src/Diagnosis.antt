-- ===== src/Diagnosis.antt =====
-- J1939/Diagnosis: trouble codes (DTC.cpp, DTC.h) and the DM1 frame that carries them behind the lamp
-- states (Frames/DM1.cpp, Frames/DM1.h).
pub mod Codes
use j1939_framework.Base.{
  String, ℕ, zero, suc, ◌+◌, ◌*◌, ◌-◌, ◌/◌, ◌%◌, ◌^◌, ◌≤◌, ◌<◌, bit_and, bit_or, Bool, true, false,
  not, List, [], ◌∷◌, ◌++◌, ◌==◌, Option, none, some, length, take, drop, overwrite, overwrite_at,
  byte_at, ltb, leb, if◌then◌else◌, u8, ◌<<◌, ◌>>◌, replicate,
}
use j1939_framework.Common.{
  Result, ok, err, ◌>>=◌, fault, decode_exception, encode_exception, unknown_conversion, lamp_size,
}
use j1939_framework.Spn.{Spec, Status, Spn, status}
use j1939_framework.Generic.{Generic}
use j1939_framework.Generic

pub record Dtc : Type 0 where
  pub spn : ℕ
  pub fmi : ℕ
  pub oc : ℕ

abbrev pub dtc_size : ℕ
dtc_size = 4

abbrev pub dtc_cm_mask : ℕ
dtc_cm_mask = 0x80

abbrev pub dtc_oc_mask : ℕ
dtc_oc_mask = 0x7F

abbrev pub dtc_fmi_mask : ℕ
dtc_fmi_mask = 0x1F

-- `~mask` on a byte is `255 - mask`.
unfoldable pub decode_dtc : List ℕ → Result Dtc
decode_dtc buf =
    let low = bit_or (byte_at buf 0) (byte_at buf 1 << 8) in
    if bit_and (byte_at buf 3) dtc_cm_mask == 0
    then ok (record {
      spn = bit_or low (bit_and (byte_at buf 2) (255 - dtc_fmi_mask) << 11);
      fmi = bit_and (byte_at buf 2) dtc_fmi_mask;
      oc = bit_and (byte_at buf 3) dtc_oc_mask;
    })
    else err (decode_exception unknown_conversion)

-- `mSPN` is a u32: the complement of the mask has 32 bits, and the store keeps the lowest eight.
unfoldable pub dtc_bytes : Dtc → List ℕ
dtc_bytes d =
    bit_and d.spn 0xFF
    ∷ bit_and (d.spn >> 8) 0xFF
    ∷ bit_or (u8 (bit_and (d.spn >> 11) (0xFFFFFFFF - dtc_fmi_mask))) (bit_and d.fmi dtc_fmi_mask)
    ∷ bit_and (bit_and d.oc dtc_oc_mask) (255 - dtc_cm_mask)
    ∷ []

-- The `while` loop of `decodeData`, from the byte behind the lamps on. A code without a number
-- stands for no fault, and is left out.
unfoldable pub decode_dtcs : List ℕ → Result (List Dtc)
decode_dtcs (a ∷ b ∷ c ∷ d ∷ rest) =
    let others = decode_dtcs rest in
    elim (decode_dtc (a ∷ b ∷ c ∷ d ∷ [])) [
      | err e ↦ err e
      | ok code ↦ elim others [
        | err e ↦ err e
        | ok codes ↦ ok (if code.spn == 0 then codes else code ∷ codes)
      ]
    ]
decode_dtcs _ = ok []

unfoldable pub encode_dtcs : List Dtc → List ℕ
encode_dtcs [] = []
encode_dtcs (d ∷ ds) = dtc_bytes d ++ encode_dtcs ds

pub record Dm1 : Type 0 where
  pub lamps : Generic
  pub dtcs : List Dtc

abbrev pub dm1_pgn : ℕ
dm1_pgn = 0xFECA

abbrev pub dm1_minimum_length : ℕ
dm1_minimum_length = 8

lamp : ℕ → String → ℕ → ℕ → ℕ × Spn
lamp number name offset bit_offset = (
  number,
  status (record {
    spec = record { spec_id = number; number = number; name = name; offset = offset };
    bit_offset = bit_offset;
    bit_size = 2;
    descriptions = [];
    value = 3;
  }),
)

-- The constructor: the eight lamps that it registers, in the order of the map.
unfoldable pub new_dm1 : Dm1
unfolding lamp
new_dm1 = record {
  lamps = record {
    specified = 0;
    spns =
        lamp 623 "Red Stop Lamp Status" 0 4
        ∷ lamp 624 "Amber Warning Lamp Status" 0 2
        ∷ lamp 987 "Protect Lamp Status" 0 0
        ∷ lamp 1213 "Malfunction indicator Lamp Status" 0 6
        ∷ lamp 3038 "Flash Malfunction indicator Lamp Status" 1 6
        ∷ lamp 3039 "Flash Red Stop Lamp Status" 1 4
        ∷ lamp 3040 "Flash Amber Warning Lamp Status" 1 2
        ∷ lamp 3041 "Flash Protect Lamp Status" 1 0
        ∷ [];
  };
  dtcs = [];
}

-- The lamps are decoded at the length that they take, whatever the length of the frame; in a shorter
-- frame that is a read behind its end. The codes join those that the frame holds already.
unfoldable pub decode_data : Dm1 → List ℕ → Result Dm1
unfolding decode_dtcs
decode_data d buf =
    let lamp_length = Generic.data_length d.lamps in
    if ltb (length buf) lamp_length then err fault else do
      lamps ← Generic.decode_data d.lamps buf lamp_length
      codes ← decode_dtcs (drop lamp_length buf)
      ok (record { lamps = lamps; dtcs = d.dtcs ++ codes })

unfoldable pub data_length : Dm1 → ℕ
data_length d =
    let needed = Generic.data_length d.lamps + dtc_size * length d.dtcs in
    if ltb dm1_minimum_length needed then needed else dm1_minimum_length

-- Without a code, four bytes 0 and two bytes 0xFF follow the lamps.
unfoldable pub code_bytes : List Dtc → List ℕ
unfolding encode_dtcs
code_bytes [] = replicate 4 0 ++ replicate 2 0xFF
code_bytes (d ∷ ds) = encode_dtcs (d ∷ ds)

unfoldable pub encode_data : Dm1 → List ℕ → Result (List ℕ)
unfolding code_bytes
encode_data d buf =
    let lamp_length = Generic.data_length d.lamps in
    do
      buf' ← Generic.encode_data d.lamps buf lamp_length
      if lamp_length == 2
          then ok (overwrite_at lamp_length (code_bytes d.dtcs) buf')
          else err (encode_exception lamp_size)

unfoldable pub add_dtc : Dm1 → Dtc → Dm1
add_dtc d c = record d { dtcs = d.dtcs ++ c ∷ [] }

unfoldable pub delete_dtc : Dm1 → ℕ → Dm1 × Bool
delete_dtc d pos =
    if leb (length d.dtcs) pos
    then (d, false)
    else (record d { dtcs = take pos d.dtcs ++ drop (suc pos) d.dtcs }, true)

unfoldable pub set_dtc : Dm1 → ℕ → Dtc → Dm1 × Bool
set_dtc d pos c =
    if leb (length d.dtcs) pos
    then (d, false)
    else (record d { dtcs = overwrite_at pos (c ∷ []) d.dtcs }, true)

-- `copy` from another DM1 frame.
unfoldable pub copy : Dm1 → Dm1 → Dm1
copy d other = record { lamps = Generic.copy d.lamps other.lamps; dtcs = other.dtcs }

-- The fields fit the bits that a code has for them.
pub record IsValid (d : Dtc) : Type 0 where
  pub spn_fits : d.spn < 0x80000
  pub fmi_fits : d.fmi < 32
  pub oc_fits : d.oc < 128
