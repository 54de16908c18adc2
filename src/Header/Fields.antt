-- ===== src/Header/Fields.antt =====
-- What the bit operations of the header compute, in plain arithmetic.
use j1939_framework.Base.{
  ℕ, ◌+◌, ◌*◌, ◌/◌, ◌%◌, ◌^◌, ◌<◌, ◌≡◌, arith, ltb, if◌then◌else◌, bit_and_mask, bit_and-shl,
  bit_or_low, bit_or-add,
}
use j1939_framework.Header.{
  Header, IsValid, pdu_format_1, pdu_format_2, pdu_format_group, pgn_with_dst, get_identifier,
  raw_pgn, has_dst, frame_pgn,
}

pub pdu_format_group_lem :
    (h : Header)
    → pdu_format_group h ≡ (if ltb (h.pgn / 256 % 256) 240 then pdu_format_1 else pdu_format_2)
unfolding pdu_format_group
pdu_format_group_lem h = rw (bit_and_mask 8 (h.pgn / 2 ^ 8))

pub raw_pgn_lem : (id : ℕ) → raw_pgn id ≡ id / 256 % 0x40000
unfolding raw_pgn
raw_pgn_lem id = bit_and_mask 18 (id / 2 ^ 8)

pub has_dst_lem : (pgn : ℕ) → has_dst pgn ≡ ltb (pgn / 256 % 256) 240
unfolding has_dst
has_dst_lem pgn = rw (bit_and_mask 8 (pgn / 2 ^ 8))

pub frame_pgn_lem :
    (id : ℕ)
    → frame_pgn id
      ≡ (if ltb (id / 65536 % 256) 240 then id / 65536 % 256 * 256 else id / 256 % 0x40000)
unfolding frame_pgn
frame_pgn_lem id = ground (
  arith,
  raw_pgn_lem id,
  has_dst_lem (raw_pgn id),
  bit_and-shl 8 (raw_pgn id) 255,
  bit_and_mask 8 (raw_pgn id / 2 ^ 8),
)

-- The destination address stands in the low byte of a PGN of the first format.
pub pgn_with_dst_lem :
    (h : Header)
    → IsValid h
    → pgn_with_dst h ≡ h.pgn + (if ltb (h.pgn / 256 % 256) 240 then h.dst_addr else 0)
unfolding pgn_with_dst
pgn_with_dst_lem h v = ground (
  arith,
  pdu_format_group_lem h,
  bit_and_mask 8 h.dst_addr,
  bit_or-add 8 h.pgn h.dst_addr,
  v.no_specific,
)

pub pgn_with_dst-lt : (h : Header) → IsValid h → pgn_with_dst h < 0x40000
pgn_with_dst-lt h v = ground (arith, pgn_with_dst_lem h v, v.no_specific)

-- The three fields of an identifier do not meet.
pub get_identifier_lem :
    (h : Header)
    → IsValid h
    → get_identifier h ≡ h.src_addr + pgn_with_dst h * 256 + h.priority * 0x4000000
unfolding get_identifier
get_identifier_lem h v = ground (
  arith,
  pgn_with_dst-lt h v,
  bit_and_mask 18 (pgn_with_dst h),
  bit_or_low 8 (pgn_with_dst h) h.src_addr,
  bit_or_low 26 h.priority (pgn_with_dst h * 256 + h.src_addr),
)
