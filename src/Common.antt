-- ===== src/Common.antt =====
-- J1939/include/J1939Common.h: the constants of the protocol, and the two exceptions with the
-- reason that their message gives. `Result` is a call that returns or throws.
use j1939_framework.Base.{ℕ, ◌≡◌, refl, ◌⊎◌, inl, inr}

-- What the message of an exception says.
pub data Reason : Type 0 where
  pgn_mismatch priority_range short_buffer bad_length unknown_ctrl_type : Reason
  block_id_range tts_count tts_number : Reason
  unknown_conversion lamp_size spn_offset spn_size spn_format value_range : Reason
  no_terminator not_ascii no_room : Reason

-- `fault` is an access behind a buffer, which C++ leaves undefined; `out_of_range` is the
-- `std::out_of_range` of `std::map::at`.
pub data Error : Type 0 where
  decode_exception : Reason → Error
  encode_exception : Reason → Error
  fault : Error
  out_of_range : Error

pub data Result {ℓ} (A : Type ℓ) : Type ℓ where
  ok : A → Result A
  err : Error → Result A

infixl 5 ◌>>=◌
abbrev pub ◌>>=◌ {ℓ κ} : {A : Type ℓ} {B : Type κ} → Result A → (A → Result B) → Result B
ok a >>= f = f a
err e >>= f = err e

-- J1939_PGN_OFFSET, J1939_PGN_MASK, J1939_DST_ADDR_MASK, J1939_SRC_ADDR_MASK, J1939_PDU_FMT_MASK,
-- J1939_PDU_FMT_OFFSET, J1939_PRIORITY_OFFSET, J1939_PRIORITY_MASK, PDU_FMT_DELIMITER,
-- J1939_INVALID_ADDRESS, J1939_BROADCAST_ADDRESS, J1939_MAX_SIZE, TP_DT_PACKET_SIZE
abbrev pub pgn_offset : ℕ
pgn_offset = 8

abbrev pub pgn_mask : ℕ
pgn_mask = 0x3FFFF

abbrev pub pdu_specific_mask : ℕ
pdu_specific_mask = 0xFF

abbrev pub dst_addr_mask : ℕ
dst_addr_mask = 0xFF

abbrev pub dst_addr_offset : ℕ
dst_addr_offset = 0

abbrev pub src_addr_mask : ℕ
src_addr_mask = 0xFF

abbrev pub pdu_fmt_mask : ℕ
pdu_fmt_mask = 0xFF

abbrev pub pdu_fmt_offset : ℕ
pdu_fmt_offset = 8

abbrev pub data_page_mask : ℕ
data_page_mask = 1

abbrev pub data_page_offset : ℕ
data_page_offset = 16

abbrev pub ext_data_page_mask : ℕ
ext_data_page_mask = 1

abbrev pub ext_data_page_offset : ℕ
ext_data_page_offset = 17

abbrev pub priority_offset : ℕ
priority_offset = 26

abbrev pub priority_mask : ℕ
priority_mask = 7

abbrev pub pdu_fmt_delimiter : ℕ
pdu_fmt_delimiter = 0xF0

abbrev pub invalid_address : ℕ
invalid_address = 0xFE

abbrev pub broadcast_address : ℕ
broadcast_address = 0xFF

abbrev pub max_size : ℕ
max_size = 8

abbrev pub tp_dt_packet_size : ℕ
tp_dt_packet_size = 7

abbrev pub spn_number_max_bits : ℕ
spn_number_max_bits = 19

abbrev pub spn_numeric_max_byte_size : ℕ
spn_numeric_max_byte_size = 4

abbrev pub str_terminator : ℕ
str_terminator = b'*'

pub Result-cases {ℓ} :
    {A : Type ℓ} (r : Result A) → ((a : A) × (r ≡ ok a)) ⊎ ((e : Error) × (r ≡ err e))
Result-cases (ok a) = inl (a, refl)
Result-cases (err e) = inr (e, refl)
