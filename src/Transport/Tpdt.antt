-- ===== src/Transport/Tpdt.antt =====
-- J1939/Transport/TPDTFrame.cpp and J1939/include/Transport/TPDTFrame.h: a sequence number and
-- seven bytes of a longer message.
use j1939_framework.Base.{
  ℕ, ◌<◌, ◌≡◌, List, ◌∷◌, ◌==◌, ltb, if◌then◌else◌, u8, length, take, drop, overwrite, replicate,
  byte_at, All, IsByte,
}
use j1939_framework.Common.{Result, ok, err, decode_exception, bad_length, tp_dt_packet_size}

pub record Tpdt : Type 0 where
  pub sq : ℕ
  pub bytes : List ℕ

abbrev pub tp_dt_pgn : ℕ
tp_dt_pgn = 0xEB00

abbrev pub bam_dt_size : ℕ
bam_dt_size = 8

abbrev pub empty : Tpdt
empty = record { sq = 0; bytes = replicate tp_dt_packet_size 0xFF }

abbrev min_size : ℕ → ℕ → ℕ
min_size a b = if ltb a b then a else b

-- `TPDTFrame(sq, data, length)`; the sequence number is cut to a byte by the call.
unfoldable pub packet : ℕ → List ℕ → ℕ → Tpdt
packet sq src len = record {
  sq = u8 sq;
  bytes = overwrite (take (min_size len tp_dt_packet_size) src) empty.bytes;
}

unfoldable pub decode_data : Tpdt → List ℕ → Result Tpdt
decode_data t buf =
    if length buf == bam_dt_size
    then ok (record { sq = byte_at buf 0; bytes = take tp_dt_packet_size (drop 1 buf) })
    else err (decode_exception bad_length)

unfoldable pub encode_data : Tpdt → List ℕ → Result (List ℕ)
encode_data t buf = ok (overwrite (t.sq ∷ t.bytes) buf)

-- `mData` is an array of seven bytes.
pub record IsValid (t : Tpdt) : Type 0 where
  pub sq_fits : t.sq < 256
  pub seven : length t.bytes ≡ 7
  pub all_bytes : All IsByte t.bytes
