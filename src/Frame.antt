-- ===== src/Frame.antt =====
-- J1939Frame (J1939/J1939Frame.cpp) over its subclasses: a header and the payload of one class. A call
-- of a virtual member is a case distinction on the payload.
pub mod Encoding
pub mod Classes
use j1939_framework.Base.{
  ℕ, zero, suc, ◌+◌, ◌≤◌, ◌<◌, bit_and, Bool, true, false, not, List, [], ◌∷◌, ◌==◌, Option, none,
  some, String, length, replicate, ltb, if◌then◌else◌,
}
use j1939_framework.Common.{
  Result, ok, err, ◌>>=◌, encode_exception, priority_range, short_buffer, priority_mask,
}
use j1939_framework.Header.{Header, blank, decode_header, get_identifier}
use j1939_framework.Addressing
use j1939_framework.Addressing.{EcuName, address_claim_pgn, address_frame_length}
use j1939_framework.Request
use j1939_framework.Request.{request_pgn, request_frame_length}
use j1939_framework.Transport.Tpcm
use j1939_framework.Transport.Tpcm.{Tpcm, tp_cm_pgn, tp_cm_size}
use j1939_framework.Transport.Tpdt
use j1939_framework.Transport.Tpdt.{Tpdt, tp_dt_pgn, bam_dt_size}
use j1939_framework.Generic
use j1939_framework.Generic.{Generic}
use j1939_framework.Diagnosis
use j1939_framework.Diagnosis.{Dm1, dm1_pgn}
use j1939_framework.Fms
use j1939_framework.Fms.{Fms1, fms1_pgn, fms1_frame_length}

pub data Payload : Type 0 where
  tpcm : Tpcm → Payload
  tpdt : Tpdt → Payload
  fms1 : Fms1 → Payload
  dm1 : Dm1 → Payload
  address_claim : EcuName → Payload
  request : ℕ → Payload
  generic : Generic → Payload

pub record Frame : Type 0 where
  pub header : Header
  pub payload : Payload

unfoldable pub decode_data : Payload → List ℕ → Result Payload
decode_data (tpcm t) buf = elim (Tpcm.decode_data t buf) [ ok u ↦ ok (tpcm u) | err e ↦ err e ]
decode_data (tpdt t) buf = elim (Tpdt.decode_data t buf) [ ok u ↦ ok (tpdt u) | err e ↦ err e ]
decode_data (fms1 f) buf = elim (Fms.decode_data f buf) [ ok u ↦ ok (fms1 u) | err e ↦ err e ]
decode_data (dm1 d) buf = elim (Diagnosis.decode_data d buf) [ ok u ↦ ok (dm1 u) | err e ↦ err e ]
decode_data (address_claim n) buf = elim (Addressing.decode_data n buf) [
  | ok u ↦ ok (address_claim u)
  | err e ↦ err e
]
decode_data (request p) buf = elim (Request.decode_data p buf) [
  | ok u ↦ ok (request u)
  | err e ↦ err e
]
decode_data (generic g) buf = elim (Generic.decode_data g buf (length buf)) [
  | ok u ↦ ok (generic u)
  | err e ↦ err e
]

unfoldable pub encode_data : Payload → List ℕ → Result (List ℕ)
encode_data (tpcm t) buf = Tpcm.encode_data t buf
encode_data (tpdt t) buf = Tpdt.encode_data t buf
encode_data (fms1 f) buf = Fms.encode_data f buf
encode_data (dm1 d) buf = Diagnosis.encode_data d buf
encode_data (address_claim n) buf = Addressing.encode_data n buf
encode_data (request p) buf = Request.encode_data p buf
encode_data (generic g) buf = Generic.encode_data g buf (length buf)

unfoldable pub data_length : Payload → ℕ
data_length (tpcm t) = tp_cm_size
data_length (tpdt t) = bam_dt_size
data_length (fms1 f) = fms1_frame_length
data_length (dm1 d) = Diagnosis.data_length d
data_length (address_claim n) = address_frame_length
data_length (request p) = request_frame_length
data_length (generic g) = Generic.data_length g

-- `decode`. After an exception the frame is not used again: the frames that are decoded are clones.
unfoldable pub decode : Frame → ℕ → List ℕ → Result Frame
decode f identifier buf = do
  h ← decode_header f.header identifier
  p ← decode_data f.payload buf
  ok (record { header = h; payload = p })

-- What `encode` hands back: the identifier, the whole buffer and the length of the data in it.
pub record Encoded : Type 0 where
  pub identifier : ℕ
  pub buffer : List ℕ
  pub used : ℕ

-- `encode` into a buffer of `capacity` bytes.
unfoldable pub encode : Frame → ℕ → Result Encoded
encode f capacity =
    if not (bit_and f.header.priority priority_mask == f.header.priority)
    then err (encode_exception priority_range)
    else if ltb capacity (data_length f.payload)
    then err (encode_exception short_buffer)
    else do
      buf ← encode_data f.payload (replicate capacity 0xFF)
      ok (record {
        identifier = get_identifier f.header;
        buffer = buf;
        used = data_length f.payload;
      })

-- The frames that the constructors of the classes make.
abbrev pub new_tpcm : Frame
new_tpcm = record {
  header = blank tp_cm_pgn "Transport Connection Management";
  payload = tpcm Tpcm.cleared;
}

abbrev pub new_tpdt : Tpdt → Frame
new_tpdt t = record { header = blank tp_dt_pgn "Transport Data"; payload = tpdt t }

abbrev pub new_fms1 : Frame
new_fms1 = record { header = blank fms1_pgn "FMS1"; payload = fms1 Fms.no_block }

abbrev pub new_dm1 : Frame
new_dm1 = record { header = blank dm1_pgn "DM1"; payload = dm1 Diagnosis.new_dm1 }

abbrev pub no_name : EcuName
no_name = record {
  id_number = 0;
  manufacturer_code = 0;
  ecu_instance = 0;
  function_instance = 0;
  function = 0;
  vehicle_system = 0;
  vehicle_system_instance = 0;
  industry_group = 0;
  arbitrary_address_capable = false;
}

abbrev pub new_address_claim : EcuName → Frame
new_address_claim n = record {
  header = blank address_claim_pgn "Address Claim";
  payload = address_claim n;
}

abbrev pub new_request : ℕ → Frame
new_request pgn = record { header = blank request_pgn "Request"; payload = request pgn }
