-- ===== src/Spn.antt =====
-- J1939/SPN and J1939/include/SPN: one parameter in the data of a frame, of one of three types.
-- A specification that is shared between clones is a value with an identity, `spec_id`; gain,
-- offset and units of a numeric one are read by the display only and are left out.
pub mod Codec
use j1939_framework.Base.{
  ℕ, ◌+◌, ◌*◌, ◌-◌, ◌/◌, ◌%◌, ◌^◌, ◌<◌, bit_and, bit_or, Bool, true, false, not, ◌||◌, String, List,
  [], ◌∷◌, ◌++◌, Option, none, some, ltb, leb, ◌==◌, if◌then◌else◌, u8, u32, ◌<<◌, ◌>>◌, length,
  take, overwrite, byte_at,
}
use j1939_framework.Base.Dict
use j1939_framework.Common.{
  Result, ok, err, decode_exception, encode_exception, spn_size, spn_format, value_range,
  no_terminator, not_ascii, no_room, spn_number_max_bits, spn_numeric_max_byte_size, str_terminator,
}

-- SPNSpec
pub record Spec : Type 0 where
  pub spec_id : ℕ
  pub number : ℕ
  pub name : String
  pub offset : ℕ

-- SPNNumeric; `byte_size` is that of its SPNNumericSpec.
pub record Numeric : Type 0 where
  pub spec : Spec
  pub byte_size : ℕ
  pub value : ℕ

-- SPNStatus; the bits and the descriptions are those of its SPNStatusSpec.
pub record Status : Type 0 where
  pub spec : Spec
  pub bit_offset : ℕ
  pub bit_size : ℕ
  pub descriptions : List (ℕ × String)
  pub value : ℕ

-- SPNString; the characters are bytes.
pub record Text : Type 0 where
  pub spec : Spec
  pub offset : ℕ
  pub value : List ℕ

pub data Spn : Type 0 where
  numeric : Numeric → Spn
  status : Status → Spn
  text : Text → Spn

pub data SpnType : Type 0 where
  spn_numeric spn_status spn_string : SpnType

-- The constructors; `none` is a failed assertion, which ends the process.
unfoldable pub construct_spec : ℕ → ℕ → String → ℕ → Option Spec
construct_spec id number name offset =
    if ltb number (1 << spn_number_max_bits)
    then some (record { spec_id = id; number = number; name = name; offset = offset })
    else none

unfoldable pub construct_numeric : Spec → ℕ → Option Numeric
construct_numeric spec size =
    if not (ltb 0 size)
    then none
    else if leb size spn_numeric_max_byte_size
    then some (record { spec = spec; byte_size = size; value = 0xFFFFFFFF })
    else none

unfoldable pub construct_status : Spec → ℕ → ℕ → List (ℕ × String) → Option Status
construct_status spec bit_offset bit_size descriptions =
    if not (ltb 0 bit_size)
    then none
    else if leb (bit_offset + bit_size) 8
    then some (record {
      spec = spec;
      bit_offset = bit_offset;
      bit_size = bit_size;
      descriptions = descriptions;
      value = 0xFF >> (8 - bit_size);
    })
    else none

-- The virtual members of SPN.
unfoldable pub get_type : Spn → SpnType
get_type (numeric n) = spn_numeric
get_type (status s) = spn_status
get_type (text t) = spn_string

unfoldable pub get_spec : Spn → Spec
get_spec (numeric n) = n.spec
get_spec (status s) = s.spec
get_spec (text t) = t.spec

unfoldable pub get_spn_number : Spn → ℕ
unfolding get_spec
get_spn_number s = (get_spec s).number

unfoldable pub get_offset : Spn → ℕ
get_offset (numeric n) = n.spec.offset
get_offset (status s) = s.spec.offset
get_offset (text t) = t.offset

-- Only a string can be moved.
unfoldable pub set_offset : Spn → ℕ → Spn
set_offset (numeric n) o = numeric n
set_offset (status s) o = status s
set_offset (text t) o = text (record t { offset = o })

-- `getByteSize` returns a byte.
unfoldable pub get_byte_size : Spn → ℕ
get_byte_size (numeric n) = n.byte_size
get_byte_size (status s) = 1
get_byte_size (text t) = u8 (length t.value + 1)

-- `copy`: the value only. Both have one specification, so the other pairs do not occur.
unfoldable pub copy_value : Spn → Spn → Spn
copy_value (numeric n) (numeric m) = numeric (record n { value = m.value })
copy_value (status s) (status r) = status (record s { value = r.value })
copy_value (text t) (text r) = text (record t { value = r.value })
copy_value s _ = s
