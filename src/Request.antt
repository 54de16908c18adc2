-- ===== src/Request.antt =====
-- J1939/Frames/RequestFrame.cpp and J1939/include/Frames/RequestFrame.h: the payload that asks for
-- another PGN.
use j1939_framework.Base.{
  ℕ, ◌+◌, ◌*◌, ◌/◌, ◌%◌, ◌^◌, ◌≡◌, refl, sym, ap, arith, List, [], ◌∷◌, bit_and, bit_or, ◌==◌,
  if◌then◌else◌, ◌<<◌, ◌>>◌, length, overwrite, overwrite_all, byte_at, byte_at-lt, bit_and_mask,
  bit_or_low, All, IsByte,
}
use j1939_framework.Common.{Result, ok, err, ◌>>=◌, decode_exception, bad_length, pgn_mask}

abbrev pub request_pgn : ℕ
request_pgn = 0xEA00

abbrev pub request_frame_length : ℕ
request_frame_length = 3

unfoldable pub decode_data : ℕ → List ℕ → Result ℕ
decode_data old buf =
    let p1 = byte_at buf 0 in
    let p2 = bit_or p1 (byte_at buf 1 << 8) in
    let p3 = bit_or p2 (byte_at buf 2 << 16) in
    if length buf == request_frame_length
    then ok (bit_and p3 pgn_mask)
    else err (decode_exception bad_length)

unfoldable pub request_bytes : ℕ → List ℕ
request_bytes pgn =
    bit_and pgn 0xFF ∷ bit_and (pgn >> 8) 0xFF ∷ bit_and (pgn >> 16) (pgn_mask >> 16) ∷ []

unfoldable pub encode_data : ℕ → List ℕ → Result (List ℕ)
encode_data pgn buf = ok (overwrite (request_bytes pgn) buf)

abbrev plain_bytes : ℕ → List ℕ
plain_bytes pgn = pgn % 256 ∷ pgn / 256 % 256 ∷ pgn / 65536 % 4 ∷ []

request_bytes_lem : (pgn : ℕ) → request_bytes pgn ≡ plain_bytes pgn
unfolding request_bytes
request_bytes_lem pgn =
    ground (arith, bit_and_mask 8 pgn, bit_and_mask 8 (pgn / 2 ^ 8), bit_and_mask 2 (pgn / 2 ^ 16))

encode_data_lem :
    (pgn : ℕ) (buf : List ℕ) → length buf ≡ 3 → encode_data pgn buf ≡ ok (plain_bytes pgn)
unfolding encode_data
encode_data_lem pgn buf len =
    rw (request_bytes_lem pgn) (ap ok (overwrite_all (plain_bytes pgn) buf (sym len)))

decode_data_lem :
    (old : ℕ) (buf : List ℕ)
    → length buf ≡ 3
    → All IsByte buf
    → decode_data old buf
      ≡ ok ((byte_at buf 0 + byte_at buf 1 * 256 + byte_at buf 2 * 65536) % 0x40000)
unfolding decode_data
decode_data_lem old buf len bytes =
    let at = byte_at buf in
    ground (
      arith,
      byte_at-lt buf 0 bytes,
      byte_at-lt buf 1 bytes,
      bit_or_low 8 (at 1) (at 0),
      bit_or_low 16 (at 2) (at 1 * 256 + at 0),
      bit_and_mask 18 (at 2 * 65536 + (at 1 * 256 + at 0)),
    )

-- A requested PGN that is written into three bytes comes back from them, cut to the eighteen bits that a PGN has.
pub decode_data-encode_data_request :
    (pgn old : ℕ) (buf : List ℕ)
    → length buf ≡ 3
    → (encode_data pgn buf >>= decode_data old) ≡ ok (pgn % 0x40000)
decode_data-encode_data_request pgn old buf len =
    rw (encode_data_lem pgn buf len)
      (ground (arith, decode_data_lem old (plain_bytes pgn) refl (omega arith)))
