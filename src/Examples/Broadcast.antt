-- ===== src/Examples/Broadcast.antt =====
-- A vehicle identification of nine characters, sent as a broadcast message.
use j1939_framework.Base.{
  ℕ, ◌≡◌, ◌≤◌, refl, arith, true, List, none, some, [], ◌∷◌, ◌++◌, length, replicate,
  length-replicate, if◌then◌else◌, ◌==◌,
}
use j1939_framework.Base.Dict
use j1939_framework.Common.{ok, err, decode_exception, spn_size}
use j1939_framework.Header
use j1939_framework.Header.{Header, IsValid, blank}
use j1939_framework.Spn
use j1939_framework.Spn.{text, numeric}
use j1939_framework.Spn.Codec
use j1939_framework.Generic
use j1939_framework.Transport.Tpcm
use j1939_framework.Transport.Tpdt
use j1939_framework.Frame
use j1939_framework.Frame.{Frame, Encoded, encode, decode, decode_data, data_length, generic}
use j1939_framework.Factory.{Factory, get_frame}
use j1939_framework.Bam.Fragmenter
use j1939_framework.Bam.Fragmenter.{
  Fragmenter, DtFrame, CmFrame, fragment, new_fragmenter, get_data_frames,
}
use j1939_framework.Bam.Reassembler.{new_reassembler, bam_ok, new_id}
use j1939_framework.Factory.Registry.{IsKeyed}
use j1939_framework.Bam.Rebuilt.{rebuilt, rebuilt_frame}
use j1939_framework.Bam.Delivery.{receive, delivered, decoder_throws}

abbrev spec : Spn.Spec
spec = record { spec_id = 237; number = 237; name = "VIN"; offset = 0 }

abbrev vin : List ℕ
vin = 87 ∷ 68 ∷ 66 ∷ 49 ∷ 50 ∷ 51 ∷ 52 ∷ 53 ∷ 54 ∷ []

abbrev with_text : List ℕ → Frame
with_text value = record {
  header = record (blank 0xFEEC "VI") { priority = 6; src_addr = 0x21 };
  payload = generic (record {
    specified = 0;
    spns = (237, text (record { spec = spec; offset = 0; value = value })) ∷ [];
  });
}

abbrev message : Frame
message = with_text vin

-- A frame of the same PGN with a number behind the end of the text.
abbrev with_number : Frame
with_number = record {
  header = blank 0xFEEC "VI";
  payload = generic (record {
    specified = 0;
    spns =
        (238, numeric (record { spec = record spec { offset = 8 }; byte_size = 4; value = 0 }))
        ∷ [];
  });
}

abbrev encoded : Encoded
encoded = record { identifier = 0x18FEEC21; buffer = vin ++ 42 ∷ []; used = 10 }

message-encoded : encode message 10 ≡ ok encoded
unfolding encode Frame.encode_data Frame.data_length Generic.encode_data Generic.data_length
    Codec.encode Header.get_identifier Spn.get_offset Spn.get_byte_size
message-encoded = refl

abbrev packet_of : ℕ → List ℕ → DtFrame
packet_of sq bytes = record {
  header = record {
    priority = 6;
    src_addr = 0x21;
    pgn = 0xEB00;
    dst_addr = 0xFF;
    name = "Transport Data";
  };
  body = record { sq = sq; bytes = bytes };
}

abbrev connection : CmFrame
connection = record {
  header = record {
    priority = 6;
    src_addr = 0x21;
    pgn = 0xEC00;
    dst_addr = 0xFF;
    name = "Transport Connection Management";
  };
  body = record Tpcm.cleared {
    ctrl_type = 32;
    total_msg_size = 10;
    total_packets = 2;
    data_pgn = 0xFEEC;
  };
}

abbrev fragments : Fragmenter
fragments = record {
  cm = connection;
  dts =
      (1, packet_of 1 (87 ∷ 68 ∷ 66 ∷ 49 ∷ 50 ∷ 51 ∷ 52 ∷ []))
      ∷ (2, packet_of 2 (53 ∷ 54 ∷ 42 ∷ 0xFF ∷ 0xFF ∷ 0xFF ∷ 0xFF ∷ []))
      ∷ [];
}

message_length : data_length message.payload ≡ 10
unfolding Frame.data_length Generic.data_length Spn.get_offset Spn.get_byte_size
message_length = refl

message_fragmented : fragment new_fragmenter message ≡ ok (fragments, true)
unfolding fragment encode Frame.encode_data Frame.data_length Generic.encode_data
    Generic.data_length Codec.encode Header.get_identifier Spn.get_offset Spn.get_byte_size
    Fragmenter.cut Fragmenter.data_frame Fragmenter.addressed_like Tpdt.packet Header.set_priority
    Header.set_dst_addr Fragmenter.clear_cm Dict.insert
message_fragmented = refl

abbrev knowing : Frame → Factory
knowing f = (0xFEEC, f) ∷ []

message_known :
    get_frame (knowing (with_text [])) (new_id connection) encoded.buffer ≡ ok (some message)
unfolding get_frame new_id decode Header.decode_header Header.frame_pgn Header.stored_fields
    Frame.decode_data Generic.decode_data Codec.decode Spn.get_offset Spn.get_byte_size Dict.find
    Dict.insert
message_known = refl

message_refused :
    get_frame (knowing with_number) (new_id connection) encoded.buffer
    ≡ err (decode_exception spn_size)
unfolding get_frame new_id decode Header.decode_header Header.frame_pgn Header.stored_fields
    Frame.decode_data Generic.decode_data Codec.decode Spn.get_offset Spn.get_byte_size Dict.find
    Dict.insert
message_refused = refl

message_small : data_length message.payload ≤ 1785
message_small = rw message_length (omega arith)

message-encoded_whole : encode message (data_length message.payload) ≡ ok encoded
message-encoded_whole = rw message_length message-encoded

abbrev heap : ℕ → List ℕ
heap n = replicate n 0

length-heap : (n : ℕ) → length (heap n) ≡ n
length-heap n = length-replicate {A = ℕ} n 0

delivered_example :
    let after = receive (knowing (with_text [])) heap new_reassembler fragments in
    (after.reassembled ≡ message ∷ [])
    × (after.last_error ≡ bam_ok)
    × ((a : ℕ) → Dict.find a after.fragments ≡ (if 0x21 == a then none else Dict.find a []))
delivered_example =
    delivered (knowing (with_text [])) heap length-heap new_fragmenter fragments message encoded
      new_reassembler refl message_small message-encoded_whole message_fragmented message
      message_known

decoder_throws_example :
    let after = receive (knowing with_number) heap new_reassembler fragments in
    (after.reassembled ≡ [])
    × (Dict.find 0x21 after.fragments
        ≡ some (record { cm = connection; dts = get_data_frames fragments.dts }))
decoder_throws_example =
    decoder_throws (knowing with_number) heap length-heap new_fragmenter fragments message encoded
      new_reassembler refl message_small message-encoded_whole message_fragmented
      (decode_exception spn_size) message_refused

message-IsValid : IsValid message.header
message-IsValid = record {
  priority_fits = omega arith;
  src_fits = omega arith;
  dst_fits = omega arith;
  pgn_fits = omega arith;
  no_specific = λ h. omega arith;
}

text_read : decode_data (with_text []).payload encoded.buffer ≡ ok message.payload
unfolding Frame.decode_data Generic.decode_data Codec.decode Spn.get_offset Spn.get_byte_size
    Dict.find Dict.insert
text_read = refl

keyed : IsKeyed (knowing (with_text []))
keyed = (refl, tt)

prototype_known : Dict.find 0xFEEC (knowing (with_text [])) ≡ some (with_text [])
unfolding Dict.find
prototype_known = refl

rebuilt_example :
    (receive (knowing (with_text [])) heap new_reassembler fragments).reassembled
    ≡ rebuilt_frame message (with_text []) message.payload ∷ []
rebuilt_example =
    rebuilt (knowing (with_text [])) heap new_fragmenter fragments message (with_text []) encoded
      new_reassembler message.payload length-heap refl message_small message-encoded_whole
      message_fragmented keyed message-IsValid (λ h. omega arith) prototype_known text_read
