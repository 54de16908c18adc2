-- ===== src/Addressing/Name.antt =====
-- EcuName::getValue, by which NAMEs are compared.
use j1939_framework.Base.{
  ℕ, ◌+◌, ◌*◌, ◌%◌, ◌^◌, ◌<◌, ◌≡◌, ◌≢◌, arith, List, [], ◌∷◌, ◌⊎◌, inl, inr, bit_and_mask,
  bit_or-add, Bool, true, false, ◌==◌, Bool-cases,
}
use j1939_framework.Addressing.{EcuName, IsValid, bit, get_value, name_lt, name_bytes}
use j1939_framework.Addressing.Codec.{name_bytes_lem}

-- The number that bytes stand for, the first byte lowest.
unfoldable pub little_endian : List ℕ → ℕ
little_endian [] = 0
little_endian (b ∷ bs) = b + little_endian bs * 256

-- `getValue` as a sum: the masks cut each field to its width, and the fields do not meet.
pub get_value_lem :
    (n : EcuName)
    → get_value n
      ≡ bit n.arbitrary_address_capable * 2 ^ 63
        + n.industry_group % 8 * 2 ^ 60
        + n.vehicle_system_instance % 16 * 2 ^ 56
        + n.vehicle_system % 128 * 2 ^ 49
        + n.function % 256 * 2 ^ 40
        + n.function_instance % 32 * 2 ^ 35
        + n.ecu_instance % 8 * 2 ^ 32
        + n.manufacturer_code % 2048 * 2 ^ 21
        + n.id_number % 0x200000
unfolding get_value
get_value_lem n =
    let a1 = bit n.arbitrary_address_capable * 2 ^ 63 in
    let a2 = a1 + n.industry_group % 8 * 2 ^ 60 in
    let a3 = a2 + n.vehicle_system_instance % 16 * 2 ^ 56 in
    let a4 = a3 + n.vehicle_system % 128 * 2 ^ 49 in
    let a5 = a4 + n.function % 256 * 2 ^ 40 in
    let a6 = a5 + n.function_instance % 32 * 2 ^ 35 in
    let a7 = a6 + n.ecu_instance % 8 * 2 ^ 32 in
    let a8 = a7 + n.manufacturer_code % 2048 * 2 ^ 21 in
    ground (
      arith,
      bit_and_mask 3 n.industry_group,
      bit_and_mask 4 n.vehicle_system_instance,
      bit_and_mask 7 n.vehicle_system,
      bit_and_mask 8 n.function,
      bit_and_mask 5 n.function_instance,
      bit_and_mask 3 n.ecu_instance,
      bit_and_mask 11 n.manufacturer_code,
      bit_and_mask 21 n.id_number,
      bit_or-add 63 a1 (n.industry_group % 8 * 2 ^ 60) (omega arith) (omega arith),
      bit_or-add 60 a2 (n.vehicle_system_instance % 16 * 2 ^ 56) (omega arith) (omega arith),
      bit_or-add 56 a3 (n.vehicle_system % 128 * 2 ^ 49) (omega arith) (omega arith),
      bit_or-add 49 a4 (n.function % 256 * 2 ^ 40) (omega arith) (omega arith),
      bit_or-add 40 a5 (n.function_instance % 32 * 2 ^ 35) (omega arith) (omega arith),
      bit_or-add 35 a6 (n.ecu_instance % 8 * 2 ^ 32) (omega arith) (omega arith),
      bit_or-add 32 a7 (n.manufacturer_code % 2048 * 2 ^ 21) (omega arith) (omega arith),
      bit_or-add 21 a8 (n.id_number % 0x200000) (omega arith) (omega arith),
    )

-- If the function of a NAME fits a byte, its value is the 64-bit number that its eight bytes stand for, the first byte lowest.
get_value-name_bytes : (n : EcuName) → n.function < 256 → get_value n ≡ little_endian (name_bytes n)
unfolding little_endian
get_value-name_bytes n h = rw (name_bytes_lem n) (omega (arith, get_value_lem n))

bit_injective : (a b : Bool) → bit a ≡ bit b → a ≡ b
bit_injective a b h = ground arith

bit-lt : (b : Bool) → bit b < 2
bit-lt b = ground arith

-- Valid NAMEs of one value are one NAME.
pub get_value_injective :
    (a b : EcuName) → IsValid a → IsValid b → get_value a ≡ get_value b → a ≡ b
get_value_injective a b va vb e = ground (
  arith,
  get_value_lem a,
  get_value_lem b,
  bit-lt a.arbitrary_address_capable,
  bit-lt b.arbitrary_address_capable,
  bit_injective a.arbitrary_address_capable b.arbitrary_address_capable,
)

-- Of two different valid NAMEs exactly one is smaller, so that of two units that contend for an
-- address exactly one wins.
pub name_lt_total :
    (a b : EcuName)
    → IsValid a
    → IsValid b
    → a ≢ b
    → ((name_lt a b ≡ true) × (name_lt b a ≡ false))
      ⊎ ((name_lt a b ≡ false) × (name_lt b a ≡ true))
unfolding name_lt
name_lt_total a b va vb ne = elim (Bool-cases (get_value a == get_value b)) [
  | inl same ↦ absurd (ne (get_value_injective a b va vb (ground arith)))
  | inr differ ↦ ground arith
]
