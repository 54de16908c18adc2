-- ===== src/Addressing/Codec.antt =====
-- The eight bytes of a NAME.
use j1939_framework.Base.{
  ℕ, ◌+◌, ◌*◌, ◌/◌, ◌%◌, ◌^◌, ◌<◌, ◌≡◌, refl, sym, ap, arith, List, [], ◌∷◌, bit_and_mask,
  bit_and-shl, bit_or_low, All, IsByte, byte_at, byte_at-lt, length, overwrite_all, leb, Bool,
}
use j1939_framework.Common.{ok, ◌>>=◌}
use j1939_framework.Addressing.{EcuName, IsValid, bit, decode_data, encode_data, name_bytes}

-- The bytes in plain arithmetic.
abbrev pub plain_bytes : EcuName → List ℕ
plain_bytes n =
    n.id_number % 256
    ∷ n.id_number / 256 % 256
    ∷ (n.id_number / 65536 % 32 + n.manufacturer_code % 8 * 32)
    ∷ n.manufacturer_code / 8 % 256
    ∷ (n.ecu_instance % 8 + n.function_instance % 32 * 8)
    ∷ n.function
    ∷ n.vehicle_system % 128 * 2
    ∷ (n.vehicle_system_instance % 16
        + n.industry_group % 8 * 16
        + bit n.arbitrary_address_capable * 128)
    ∷ []

pub name_bytes_lem : (n : EcuName) → name_bytes n ≡ plain_bytes n
unfolding name_bytes
name_bytes_lem n = ground (
  arith,
  bit_and_mask 8 n.id_number,
  bit_and_mask 8 (n.id_number / 2 ^ 8),
  bit_and_mask 5 (n.id_number / 2 ^ 16),
  bit_and_mask 8 (n.manufacturer_code * 2 ^ 5),
  bit_or_low 5 (n.manufacturer_code % 8) (n.id_number / 65536 % 32),
  bit_and_mask 8 (n.manufacturer_code / 2 ^ 3),
  bit_and_mask 3 n.ecu_instance,
  bit_and_mask 8 (n.function_instance * 2 ^ 3),
  bit_or_low 3 (n.function_instance % 32) (n.ecu_instance % 8),
  bit_and_mask 4 n.vehicle_system_instance,
  bit_and_mask 3 n.industry_group,
  bit_or_low 4 (n.industry_group % 8) (n.vehicle_system_instance % 16),
  bit_or_low 7 (bit n.arbitrary_address_capable)
      (n.vehicle_system_instance % 16 + n.industry_group % 8 * 16),
)

-- `decode_data` on eight bytes, in plain arithmetic.
pub decode_data_lem :
    (old : EcuName) (buf : List ℕ)
    → length buf ≡ 8
    → All IsByte buf
    → decode_data old buf
      ≡ ok (record {
        id_number = byte_at buf 0 + byte_at buf 1 * 256 + byte_at buf 2 % 32 * 65536;
        manufacturer_code = byte_at buf 2 / 32 + byte_at buf 3 * 8;
        ecu_instance = byte_at buf 4 % 8;
        function_instance = byte_at buf 4 / 8;
        function = byte_at buf 5;
        vehicle_system = byte_at buf 6 / 2;
        vehicle_system_instance = byte_at buf 7 % 16;
        industry_group = byte_at buf 7 / 16 % 8;
        arbitrary_address_capable = leb 128 (byte_at buf 7);
      })
unfolding decode_data
decode_data_lem old buf len bytes =
    let at = byte_at buf in
    ground (
      arith,
      byte_at-lt buf 0 bytes,
      byte_at-lt buf 1 bytes,
      byte_at-lt buf 2 bytes,
      byte_at-lt buf 3 bytes,
      byte_at-lt buf 4 bytes,
      byte_at-lt buf 7 bytes,
      bit_and_mask 5 (at 2),
      bit_or_low 8 (at 1) (at 0),
      bit_or_low 16 (at 2 % 32) (at 1 * 256 + at 0),
      bit_and-shl 5 (at 2) 7,
      bit_and_mask 3 (at 2 / 2 ^ 5),
      bit_or_low 3 (at 3) (at 2 / 32),
      bit_and_mask 3 (at 4),
      bit_and-shl 3 (at 4) 31,
      bit_and_mask 5 (at 4 / 2 ^ 3),
      bit_and_mask 4 (at 7),
      bit_and_mask 3 (at 7 / 2 ^ 4),
    )

pub encode_data_lem :
    (n : EcuName) (buf : List ℕ) → length buf ≡ 8 → encode_data n buf ≡ ok (plain_bytes n)
unfolding encode_data
encode_data_lem n buf len =
    rw (name_bytes_lem n) (ap ok (overwrite_all (plain_bytes n) buf (sym len)))

bit-lt : (b : Bool) → bit b < 2
bit-lt b = ground arith

plain_bytes-IsByte : (n : EcuName) → n.function < 256 → All IsByte (plain_bytes n)
plain_bytes-IsByte n h = omega (arith, bit-lt n.arbitrary_address_capable)

capable_bit : (b : Bool) (x : ℕ) → x < 128 → leb 128 (x + bit b * 128) ≡ b
capable_bit b x h = ground arith

-- A decoder finds again every NAME whose fields fit, whatever the buffer of eight bytes held.
pub decode_data-encode_data_name :
    (n old : EcuName) (buf : List ℕ)
    → IsValid n
    → length buf ≡ 8
    → (encode_data n buf >>= decode_data old) ≡ ok n
decode_data-encode_data_name n old buf v len = rw (encode_data_lem n buf len) (
    ground (
      arith,
      decode_data_lem old (plain_bytes n) refl (plain_bytes-IsByte n v.function_fits),
      capable_bit n.arbitrary_address_capable
          (n.vehicle_system_instance % 16 + n.industry_group % 8 * 16),
      bit-lt n.arbitrary_address_capable,
    ))

-- Any other length is refused.
decode_data-length : (old n : EcuName) (buf : List ℕ) → decode_data old buf ≡ ok n → length buf ≡ 8
unfolding decode_data
decode_data-length old n buf e = ground arith

capable_high : (x : ℕ) → x < 256 → bit (leb 128 x) ≡ x / 128
capable_high x h = ground arith

pub decode_data-IsValid :
    (old n : EcuName) (buf : List ℕ) → All IsByte buf → decode_data old buf ≡ ok n → IsValid n
decode_data-IsValid old n buf bytes e = ground (
  arith,
  decode_data-length old n buf e,
  decode_data_lem old buf (decode_data-length old n buf e) bytes,
  byte_at-lt buf 0 bytes,
  byte_at-lt buf 1 bytes,
  byte_at-lt buf 2 bytes,
  byte_at-lt buf 3 bytes,
  byte_at-lt buf 4 bytes,
  byte_at-lt buf 5 bytes,
  byte_at-lt buf 6 bytes,
  byte_at-lt buf 7 bytes,
)

-- The other way round, the bytes that were decoded are encoded again into any buffer of eight bytes,
-- but for the reserved bit of byte 6, which is sent as 0.
encode_data-decode_data_name :
    (old n : EcuName) (buf out : List ℕ)
    → All IsByte buf
    → length out ≡ 8
    → decode_data old buf ≡ ok n
    → encode_data n out
      ≡ ok (
          byte_at buf 0
          ∷ byte_at buf 1
          ∷ byte_at buf 2
          ∷ byte_at buf 3
          ∷ byte_at buf 4
          ∷ byte_at buf 5
          ∷ byte_at buf 6 / 2 * 2
          ∷ byte_at buf 7
          ∷ [])
encode_data-decode_data_name old n buf out bytes len e = rw (encode_data_lem n out len) (
    ground (
      arith,
      decode_data_lem old buf (decode_data-length old n buf e) bytes,
      capable_high (byte_at buf 7),
      byte_at-lt buf 0 bytes,
      byte_at-lt buf 1 bytes,
      byte_at-lt buf 2 bytes,
      byte_at-lt buf 3 bytes,
      byte_at-lt buf 4 bytes,
      byte_at-lt buf 6 bytes,
      byte_at-lt buf 7 bytes,
    ))
