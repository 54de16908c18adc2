-- ===== src/Examples/Wire.antt =====
-- Identifiers, NAMEs, requests and connection management messages.
use j1939_framework.Base.{
  ℕ, ◌≡◌, ◌≢◌, refl, ap, arith, true, List, [], ◌∷◌, replicate, take, if◌then◌else◌,
}
use j1939_framework.Common.{ok, err, ◌>>=◌, decode_exception, pgn_mismatch}
use j1939_framework.Header
use j1939_framework.Header.{Header, IsValid, blank, decode_header, get_identifier, frame_pgn}
use j1939_framework.Header.Identifier.{is_pdu1, decode_header-get_identifier, decode_header_page}
use j1939_framework.Addressing
use j1939_framework.Addressing.{EcuName, get_value, name_lt, name_bytes}
use j1939_framework.Addressing.Codec.{decode_data-encode_data_name}
use j1939_framework.Frame.{
  Frame, address_claim, encode, decode, data_length, no_name, new_address_claim,
}
use j1939_framework.Frame.Classes.{carries_name, decode-encode_classes}
use j1939_framework.Transport.Tpcm
use j1939_framework.Transport.Tpcm.{Tpcm, cleared}
use j1939_framework.Transport.Tpcm.Codec.{carried, decode_data-encode_data_tpcm}

-- A request to the unit 0x32, and a frame of the same PGN that receives it.
abbrev request_header : Header
request_header = record (blank 0xEA00 "Request") { priority = 6; src_addr = 0x21; dst_addr = 0x32 }

request_header-IsValid : IsValid request_header
request_header-IsValid = record {
  priority_fits = omega arith;
  src_fits = omega arith;
  dst_fits = omega arith;
  pgn_fits = omega arith;
  no_specific = λ h. refl;
}

receiver-IsValid : IsValid (blank 0xEA00 "Request")
receiver-IsValid = record {
  priority_fits = omega arith;
  src_fits = omega arith;
  dst_fits = omega arith;
  pgn_fits = omega arith;
  no_specific = λ h. refl;
}

decode_header-get_identifier_example :
    decode_header (blank 0xEA00 "Request") (get_identifier request_header)
    ≡ ok (record (blank 0xEA00 "Request") {
      priority = 6;
      src_addr = 0x21;
      dst_addr = if is_pdu1 0xEA00 then 0x32 else 0xFE;
    })
decode_header-get_identifier_example =
    decode_header-get_identifier request_header (blank 0xEA00 "Request") request_header-IsValid refl
      (λ h. omega arith)

request_decoded : decode_header (blank 0xEA00 "Request") 0x18EA3221 ≡ ok request_header
unfolding decode_header Header.frame_pgn Header.stored_fields
request_decoded = refl

-- A PGN of the first format on the second data page.
abbrev paged : Header
paged = record (blank 0x1EA00 "Paged") { priority = 6; src_addr = 0x21; dst_addr = 0x32 }

paged-IsValid : IsValid paged
paged-IsValid = record {
  priority_fits = omega arith;
  src_fits = omega arith;
  dst_fits = omega arith;
  pgn_fits = omega arith;
  no_specific = λ h. refl;
}

decode_header_page_example :
    decode_header paged (get_identifier paged) ≡ err (decode_exception pgn_mismatch)
decode_header_page_example =
    decode_header_page paged paged paged-IsValid refl (omega arith) (omega arith)

abbrev unit : EcuName
unit = record {
  id_number = 0x12345;
  manufacturer_code = 0x2A1;
  ecu_instance = 3;
  function_instance = 17;
  function = 200;
  vehicle_system = 99;
  vehicle_system_instance = 9;
  industry_group = 5;
  arbitrary_address_capable = true;
}

abbrev other_unit : EcuName
other_unit = record unit { id_number = 0x12346 }

unit-IsValid : Addressing.IsValid unit
unit-IsValid = record {
  id_fits = omega arith;
  manufacturer_fits = omega arith;
  ecu_fits = omega arith;
  function_instance_fits = omega arith;
  function_fits = omega arith;
  system_fits = omega arith;
  system_instance_fits = omega arith;
  group_fits = omega arith;
}

other_unit-IsValid : Addressing.IsValid other_unit
other_unit-IsValid = record {
  id_fits = omega arith;
  manufacturer_fits = omega arith;
  ecu_fits = omega arith;
  function_instance_fits = omega arith;
  function_fits = omega arith;
  system_fits = omega arith;
  system_instance_fits = omega arith;
  group_fits = omega arith;
}

decode_data-encode_data_name_example :
    (Addressing.encode_data unit (replicate 8 0xFF) >>= Addressing.decode_data other_unit) ≡ ok unit
decode_data-encode_data_name_example =
    decode_data-encode_data_name unit other_unit (replicate 8 0xFF) unit-IsValid refl

abbrev claim : Frame
claim = record {
  header = record (new_address_claim unit).header {
    priority = 6;
    src_addr = 0x21;
    dst_addr = 0xFF;
  };
  payload = address_claim unit;
}

claim-IsValid : Header.IsValid claim.header
claim-IsValid = record {
  priority_fits = omega arith;
  src_fits = omega arith;
  dst_fits = omega arith;
  pgn_fits = omega arith;
  no_specific = λ h. omega arith;
}

decode-encode_classes_example :
    (encode claim (data_length claim.payload)
      >>= (λ e. decode (new_address_claim no_name) e.identifier (take e.used e.buffer)))
    ≡ ok claim
decode-encode_classes_example =
    decode-encode_classes claim (new_address_claim no_name) (address_claim unit) claim-IsValid refl
      (λ h. omega arith) (carries_name unit no_name unit-IsValid)

abbrev unit_bytes : List ℕ
unit_bytes = 0x45 ∷ 0x23 ∷ 0x21 ∷ 0x54 ∷ 0x8B ∷ 200 ∷ 198 ∷ 0xD9 ∷ []

unit_decoded : Addressing.decode_data other_unit unit_bytes ≡ ok unit
unfolding Addressing.decode_data
unit_decoded = refl

units_differ : unit ≢ other_unit
units_differ e = absurd (omega (arith, ap (λ (n : EcuName). n.id_number) e))

abbrev announcement : Tpcm
announcement = record cleared {
  ctrl_type = 32;
  total_msg_size = 1000;
  total_packets = 143;
  data_pgn = 0xFEEC;
}

announcement-IsValid : Tpcm.IsValid announcement
announcement-IsValid = record {
  ctrl_fits = omega arith;
  size_fits = omega arith;
  packets_fits = omega arith;
  max_fits = omega arith;
  to_tx_fits = omega arith;
  next_fits = omega arith;
  reason_fits = omega arith;
  pgn_fits = omega arith;
}

decode_data-encode_data_tpcm_example :
    (Tpcm.encode_data announcement (replicate 8 0xFF) >>= Tpcm.decode_data cleared)
    ≡ ok (carried cleared announcement)
decode_data-encode_data_tpcm_example =
    decode_data-encode_data_tpcm announcement cleared (replicate 8 0xFF) announcement-IsValid
      (ground arith) refl
