-- ===== src/Transport/Tpcm.antt =====
-- J1939/Transport/TPCMFrame.cpp and J1939/include/Transport/TPCMFrame.h: the payload of a
-- connection management frame. The control byte selects which of the fields travel.
pub mod Codec
use j1939_framework.Base.{
  ℕ, ◌+◌, ◌*◌, ◌/◌, ◌%◌, ◌^◌, ◌<◌, ◌≡◌, ◌⊎◌, not, List, [], ◌∷◌, bit_and, bit_or, ◌==◌,
  if◌then◌else◌, ◌<<◌, ◌>>◌, length, overwrite, overwrite_at, replicate, byte_at,
}
use j1939_framework.Common.{Result, ok, err, ◌>>=◌, decode_exception, bad_length, unknown_ctrl_type}

pub record Tpcm : Type 0 where
  pub ctrl_type : ℕ
  pub total_msg_size : ℕ
  pub total_packets : ℕ
  pub max_packets : ℕ
  pub packets_to_tx : ℕ
  pub next_packet : ℕ
  pub abort_reason : ℕ
  pub data_pgn : ℕ

abbrev pub tp_cm_pgn : ℕ
tp_cm_pgn = 0xEC00

abbrev pub tp_cm_size : ℕ
tp_cm_size = 8

abbrev pub ctrl_rts : ℕ
ctrl_rts = 16

abbrev pub ctrl_cts : ℕ
ctrl_cts = 17

abbrev pub ctrl_ack : ℕ
ctrl_ack = 19

abbrev pub ctrl_bam : ℕ
ctrl_bam = 32

abbrev pub ctrl_abort : ℕ
ctrl_abort = 255

-- The constructor, and what `clear` leaves in the payload.
abbrev pub cleared : Tpcm
cleared = record {
  ctrl_type = 0;
  total_msg_size = 0;
  total_packets = 0;
  max_packets = 0;
  packets_to_tx = 0;
  next_packet = 0;
  abort_reason = 0;
  data_pgn = 0;
}

-- The byte arguments are `buffer + 1` and on.
unfoldable pub decode_rts : Tpcm → List ℕ → Tpcm
decode_rts t b = record t {
  total_msg_size = bit_or (byte_at b 0) (byte_at b 1 << 8);
  total_packets = byte_at b 2;
  max_packets = byte_at b 3;
}

unfoldable pub decode_cts : Tpcm → List ℕ → Tpcm
decode_cts t b = record t { packets_to_tx = byte_at b 0; next_packet = byte_at b 1 }

unfoldable pub decode_end_of_msg_ack : Tpcm → List ℕ → Tpcm
decode_end_of_msg_ack t b = record t {
  total_msg_size = bit_or (byte_at b 0) (byte_at b 1 << 8);
  total_packets = byte_at b 2;
}

unfoldable pub decode_conn_abort : Tpcm → List ℕ → Tpcm
decode_conn_abort t b = record t { abort_reason = byte_at b 0 }

unfoldable pub decode_bam : Tpcm → List ℕ → Tpcm
decode_bam t b = record t {
  total_msg_size = bit_or (byte_at b 0) (byte_at b 1 << 8);
  total_packets = byte_at b 2;
}

-- The `switch` of `decodeData`.
unfoldable pub decode_ctrl : Tpcm → List ℕ → Result Tpcm
unfolding decode_rts decode_cts decode_end_of_msg_ack decode_conn_abort decode_bam
decode_ctrl t b =
    if t.ctrl_type == ctrl_rts
    then ok (decode_rts t b)
    else if t.ctrl_type == ctrl_cts
    then ok (decode_cts t b)
    else if t.ctrl_type == ctrl_ack
    then ok (decode_end_of_msg_ack t b)
    else if t.ctrl_type == ctrl_abort
    then ok (decode_conn_abort t b)
    else if t.ctrl_type == ctrl_bam
    then ok (decode_bam t b)
    else err (decode_exception unknown_ctrl_type)

tail : List ℕ → List ℕ
tail [] = []
tail (x ∷ xs) = xs

unfoldable pub decode_data : Tpcm → List ℕ → Result Tpcm
unfolding decode_ctrl tail
decode_data t buf = if not (length buf == tp_cm_size) then err (decode_exception bad_length) else do
  t' ← decode_ctrl (record t { ctrl_type = byte_at buf 0 }) (tail buf)
  ok (record t' {
    data_pgn = bit_or (bit_or (byte_at buf 5) (byte_at buf 6 << 8)) (byte_at buf 7 << 16);
  })

-- What each `encode…` stores at `buffer + 1`.
unfoldable pub encode_rts : Tpcm → List ℕ
encode_rts t =
    bit_and t.total_msg_size 0xFF
    ∷ bit_and (t.total_msg_size >> 8) 0xFF
    ∷ t.total_packets
    ∷ t.max_packets
    ∷ []

unfoldable pub encode_cts : Tpcm → List ℕ
encode_cts t = t.packets_to_tx ∷ t.next_packet ∷ []

unfoldable pub encode_end_of_msg_ack : Tpcm → List ℕ
encode_end_of_msg_ack t =
    bit_and t.total_msg_size 0xFF ∷ bit_and (t.total_msg_size >> 8) 0xFF ∷ t.total_packets ∷ []

unfoldable pub encode_conn_abort : Tpcm → List ℕ
encode_conn_abort t = t.abort_reason ∷ []

unfoldable pub encode_bam : Tpcm → List ℕ
encode_bam t =
    bit_and t.total_msg_size 0xFF ∷ bit_and (t.total_msg_size >> 8) 0xFF ∷ t.total_packets ∷ []

-- The `switch` of `encodeData`; its default throws the exception of the decoder.
unfoldable pub encode_ctrl : Tpcm → Result (List ℕ)
unfolding encode_rts encode_cts encode_end_of_msg_ack encode_conn_abort encode_bam
encode_ctrl t =
    if t.ctrl_type == ctrl_rts
    then ok (encode_rts t)
    else if t.ctrl_type == ctrl_cts
    then ok (encode_cts t)
    else if t.ctrl_type == ctrl_ack
    then ok (encode_end_of_msg_ack t)
    else if t.ctrl_type == ctrl_abort
    then ok (encode_conn_abort t)
    else if t.ctrl_type == ctrl_bam
    then ok (encode_bam t)
    else err (decode_exception unknown_ctrl_type)

unfoldable pub encode_data : Tpcm → List ℕ → Result (List ℕ)
unfolding encode_ctrl
encode_data t buf =
    let reserved = overwrite (replicate 8 0xFF) buf in
    let with_ctrl = overwrite_at 0 (t.ctrl_type ∷ []) reserved in
    do
      fields ← encode_ctrl t
      ok (
          overwrite_at 5
            (bit_and t.data_pgn 0xFF
              ∷ bit_and (t.data_pgn >> 8) 0xFF
              ∷ bit_and (t.data_pgn >> 16) 0xFF
              ∷ [])
            (overwrite_at 1 fields with_ctrl))

-- One of the five control bytes of the protocol.
abbrev pub IsCtrl : ℕ → Type 0
IsCtrl c = (c ≡ ctrl_rts) ⊎ (c ≡ ctrl_cts) ⊎ (c ≡ ctrl_ack) ⊎ (c ≡ ctrl_abort) ⊎ (c ≡ ctrl_bam)

-- The members are u8 and u16; the PGN of the message fits its three bytes.
pub record IsValid (t : Tpcm) : Type 0 where
  pub ctrl_fits : t.ctrl_type < 256
  pub size_fits : t.total_msg_size < 65536
  pub packets_fits : t.total_packets < 256
  pub max_fits : t.max_packets < 256
  pub to_tx_fits : t.packets_to_tx < 256
  pub next_fits : t.next_packet < 256
  pub reason_fits : t.abort_reason < 256
  pub pgn_fits : t.data_pgn < 0x1000000
