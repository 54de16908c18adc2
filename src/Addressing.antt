-- ===== src/Addressing.antt =====
-- J1939/include/Addressing/AddressClaimFrame.h and J1939/Addressing/AddressClaimFrame.cpp: the
-- 64-bit NAME of a control unit and the eight bytes in which an Address Claim frame carries it.
pub mod Name
pub mod Codec
use j1939_framework.Base.{
  ℕ, ◌*◌, ◌/◌, ◌^◌, ◌<◌, bit_and, bit_or, Bool, true, false, not, List, [], ◌∷◌, ltb, ◌==◌,
  if◌then◌else◌, u8, u16, ◌<<◌, ◌>>◌, length, overwrite, byte_at,
}
use j1939_framework.Common.{Result, ok, err, decode_exception, bad_length}

pub record EcuName : Type 0 where
  pub id_number : ℕ
  pub manufacturer_code : ℕ
  pub ecu_instance : ℕ
  pub function_instance : ℕ
  pub function : ℕ
  pub vehicle_system : ℕ
  pub vehicle_system_instance : ℕ
  pub industry_group : ℕ
  pub arbitrary_address_capable : Bool

abbrev pub address_claim_pgn : ℕ
address_claim_pgn = 0xEE00

abbrev pub address_frame_length : ℕ
address_frame_length = 8

abbrev pub bit : Bool → ℕ
bit b = if b then 1 else 0

-- `getValue`, the fields in the order in which the source joins them.
unfoldable pub get_value : EcuName → ℕ
get_value n =
    let capable = bit n.arbitrary_address_capable << 63 in
    let group = bit_or capable (bit_and n.industry_group 0x7 << 60) in
    let system_instance = bit_or group (bit_and n.vehicle_system_instance 0xF << 56) in
    let system = bit_or system_instance (bit_and n.vehicle_system 0x7F << 49) in
    let functions = bit_or system (bit_and n.function 0xFF << 40) in
    let function_instance = bit_or functions (bit_and n.function_instance 0x1F << 35) in
    let instance_ = bit_or function_instance (bit_and n.ecu_instance 0x7 << 32) in
    let manufacturer = bit_or instance_ (bit_and n.manufacturer_code 0x7FF << 21) in
    bit_or manufacturer (bit_and n.id_number 0x1FFFFF << 0)

-- `operator<`: the smaller NAME has the higher priority.
unfoldable pub name_lt : EcuName → EcuName → Bool
name_lt a b = ltb (get_value a) (get_value b)

unfoldable pub decode_data : EcuName → List ℕ → Result EcuName
decode_data old buf =
    let at = byte_at buf in
    if length buf == address_frame_length
    then ok (record {
      id_number = bit_or (bit_or (at 0) (at 1 << 8)) (bit_and (at 2) 0x1F << 16);
      manufacturer_code = bit_or (bit_and (at 2) 0xE0 >> 5) (at 3 << 3);
      ecu_instance = bit_and (at 4) 0x07;
      function_instance = bit_and (at 4) 0xF8 >> 3;
      function = at 5;
      vehicle_system = at 6 >> 1;
      vehicle_system_instance = bit_and (at 7) 0x0F;
      industry_group = bit_and (at 7 >> 4) 0x07;
      arbitrary_address_capable = not (at 7 >> 7 == 0);
    })
    else err (decode_exception bad_length)

-- The bytes that `encodeData` stores, from `buffer[0]` on.
unfoldable pub name_bytes : EcuName → List ℕ
name_bytes n =
    bit_and n.id_number 0xFF
    ∷ bit_and (n.id_number >> 8) 0xFF
    ∷ bit_or (bit_and (n.id_number >> 16) 0x1F) (bit_and (n.manufacturer_code << 5) 0xFF)
    ∷ bit_and (n.manufacturer_code >> 3) 0xFF
    ∷ bit_or (bit_and n.ecu_instance 0x7) (bit_and (n.function_instance << 3) 0xFF)
    ∷ n.function
    ∷ u8 (n.vehicle_system << 1)
    ∷ bit_or (bit_or (bit_and n.vehicle_system_instance 0xF) (bit_and n.industry_group 0x7 << 4))
        (bit n.arbitrary_address_capable << 7)
    ∷ []

unfoldable pub encode_data : EcuName → List ℕ → Result (List ℕ)
encode_data n buf = ok (overwrite (name_bytes n) buf)

-- The fields fit the widths that the NAME has for them.
pub record IsValid (n : EcuName) : Type 0 where
  pub id_fits : n.id_number < 0x200000
  pub manufacturer_fits : n.manufacturer_code < 0x800
  pub ecu_fits : n.ecu_instance < 8
  pub function_instance_fits : n.function_instance < 32
  pub function_fits : n.function < 256
  pub system_fits : n.vehicle_system < 128
  pub system_instance_fits : n.vehicle_system_instance < 16
  pub group_fits : n.industry_group < 8
