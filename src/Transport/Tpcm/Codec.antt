-- ===== src/Transport/Tpcm/Codec.antt =====
-- Which fields of a connection management frame survive the way over the bus.
use j1939_framework.Base.{
  ℕ, ◌/◌, ◌%◌, ◌^◌, ◌≡◌, sym, arith, List, ◌==◌, if◌then◌else◌, ◌||◌, length, overwrite_all,
  replicate, bit_and_mask, bit_or_low,
}
use j1939_framework.Common.{ok, ◌>>=◌}
use j1939_framework.Transport.Tpcm.{
  Tpcm, IsCtrl, IsValid, ctrl_rts, ctrl_cts, ctrl_ack, ctrl_bam, ctrl_abort, decode_data,
  encode_data,
}

-- The payload that a receiver holding `old` has after the message `t`: the fields that belong to the
-- control byte are those of `t`, the others stay.
abbrev pub carried : Tpcm → Tpcm → Tpcm
carried old t =
    let sized = t.ctrl_type == ctrl_rts || t.ctrl_type == ctrl_ack || t.ctrl_type == ctrl_bam in
    record {
      ctrl_type = t.ctrl_type;
      total_msg_size = if sized then t.total_msg_size else old.total_msg_size;
      total_packets = if sized then t.total_packets else old.total_packets;
      max_packets = if t.ctrl_type == ctrl_rts then t.max_packets else old.max_packets;
      packets_to_tx = if t.ctrl_type == ctrl_cts then t.packets_to_tx else old.packets_to_tx;
      next_packet = if t.ctrl_type == ctrl_cts then t.next_packet else old.next_packet;
      abort_reason = if t.ctrl_type == ctrl_abort then t.abort_reason else old.abort_reason;
      data_pgn = t.data_pgn;
    }

-- A message with a known control byte, whose fields fit, is encoded into eight bytes from which the
-- receiver takes the fields of that control byte, and only those.
pub decode_data-encode_data_tpcm :
    (t old : Tpcm) (buf : List ℕ)
    → IsValid t
    → IsCtrl t.ctrl_type
    → length buf ≡ 8
    → (encode_data t buf >>= decode_data old) ≡ ok (carried old t)
unfolding encode_data decode_data
decode_data-encode_data_tpcm t old buf v c len =
    rw (overwrite_all (replicate 8 255) buf (sym len)) (
      ground (
        arith,
        bit_and_mask 8 t.total_msg_size,
        bit_and_mask 8 (t.total_msg_size / 2 ^ 8),
        bit_or_low 8 (t.total_msg_size / 256) (t.total_msg_size % 256),
        bit_and_mask 8 t.data_pgn,
        bit_and_mask 8 (t.data_pgn / 2 ^ 8),
        bit_and_mask 8 (t.data_pgn / 2 ^ 16),
        bit_or_low 8 (t.data_pgn / 256 % 256) (t.data_pgn % 256),
        bit_or_low 16 (t.data_pgn / 65536) (t.data_pgn % 65536),
      ))
