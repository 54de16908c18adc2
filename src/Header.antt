-- ===== src/Header.antt =====
-- J1939/J1939Frame.cpp and J1939/include/J1939Frame.h: the fields that every frame has, and the
-- 29-bit identifier that carries them. The payload of a frame is in the module of its class.
pub mod Fields
pub mod Identifier
use j1939_framework.Base.{
  ℕ, ◌+◌, ◌*◌, ◌/◌, ◌%◌, ◌^◌, ◌≤◌, ◌<◌, bit_and, bit_or, ◌≡◌, Bool, true, false, Option, none, some,
  String, ltb, ◌==◌, if◌then◌else◌, u8, u32, ◌<<◌, ◌>>◌,
}
use j1939_framework.Common.{
  Result, ok, err, decode_exception, pgn_mismatch, pgn_offset, pgn_mask, pdu_specific_mask,
  dst_addr_mask, dst_addr_offset, src_addr_mask, pdu_fmt_mask, pdu_fmt_offset, data_page_mask,
  data_page_offset, ext_data_page_mask, ext_data_page_offset, priority_offset, priority_mask,
  pdu_fmt_delimiter, invalid_address,
}

pub record Header : Type 0 where
  pub priority : ℕ
  pub src_addr : ℕ
  pub pgn : ℕ
  pub dst_addr : ℕ
  pub name : String

pub data PduFormat : Type 0 where
  pdu_format_1 pdu_format_2 : PduFormat

pub pdu_format : Header → ℕ
pdu_format h = bit_and (h.pgn >> pdu_fmt_offset) pdu_fmt_mask

pub ext_data_page : Header → ℕ
ext_data_page h = bit_and (h.pgn >> ext_data_page_offset) ext_data_page_mask

pub data_page : Header → ℕ
data_page h = bit_and (h.pgn >> data_page_offset) data_page_mask

pub pdu_specific : Header → ℕ
pdu_specific h = bit_and h.pgn pdu_specific_mask

unfoldable pub pdu_format_group : Header → PduFormat
unfolding pdu_format
pdu_format_group h = if ltb (pdu_format h) pdu_fmt_delimiter then pdu_format_1 else pdu_format_2

-- The members as the constructor leaves them; `name` is what the subclass then stores.
abbrev pub blank : ℕ → String → Header
blank pgn name = record {
  priority = 0;
  src_addr = invalid_address;
  pgn = pgn;
  dst_addr = invalid_address;
  name = name;
}

-- The constructor; `none` is the failed assertion, which ends the process.
unfoldable pub construct : ℕ → String → Option Header
unfolding pdu_format_group
construct pgn name =
    let h = blank pgn name in
    elim (pdu_format_group h) [
      | pdu_format_2 ↦ some h
      | pdu_format_1 ↦ if bit_and h.pgn dst_addr_mask >> dst_addr_offset == 0 then some h else none
    ]

unfoldable pub set_priority : Header → ℕ → Header × Bool
set_priority h p =
    let masked = bit_and p priority_mask in (record h { priority = masked }, masked == p)

abbrev pub set_src_addr : Header → ℕ → Header
set_src_addr h a = record h { src_addr = a }

unfoldable pub set_dst_addr : Header → ℕ → Header × Bool
unfolding pdu_format_group
set_dst_addr h dst = elim (pdu_format_group h) [
  | pdu_format_1 ↦ (record h { dst_addr = dst }, true)
  | pdu_format_2 ↦ (h, false)
]

-- The PGN with the destination address in it, if the format has one.
unfoldable pub pgn_with_dst : Header → ℕ
unfolding pdu_format_group
pgn_with_dst h = elim (pdu_format_group h) [
  | pdu_format_1 ↦ bit_or h.pgn (bit_and h.dst_addr dst_addr_mask << dst_addr_offset)
  | pdu_format_2 ↦ h.pgn
]

unfoldable pub get_identifier : Header → ℕ
unfolding pgn_with_dst
get_identifier h =
    let id = bit_or h.src_addr (bit_and (pgn_with_dst h) pgn_mask << pgn_offset) in
    u32 (bit_or id (h.priority << priority_offset))

-- The PGN field of an identifier, and the PGN by which a frame is known: the first format loses
-- the destination address, and with it all that stands above the PDU format.
unfoldable pub raw_pgn : ℕ → ℕ
raw_pgn identifier = bit_and (identifier >> pgn_offset) pgn_mask

unfoldable pub has_dst : ℕ → Bool
has_dst pgn = ltb (bit_and (pgn >> pdu_fmt_offset) pdu_fmt_mask) pdu_fmt_delimiter

unfoldable pub frame_pgn : ℕ → ℕ
unfolding raw_pgn has_dst
frame_pgn identifier =
    let pgn = raw_pgn identifier in
    if has_dst pgn then bit_and pgn (pdu_fmt_mask << pdu_fmt_offset) else pgn

-- The members that `decode` stores.
unfoldable pub stored_fields : Header → ℕ → Header
unfolding raw_pgn has_dst
stored_fields h identifier =
    let pgn = raw_pgn identifier in
    let dst = if has_dst pgn then bit_and (pgn >> dst_addr_offset) dst_addr_mask else h.dst_addr in
    record h {
      dst_addr = dst;
      src_addr = bit_and identifier src_addr_mask;
      priority = bit_and (identifier >> priority_offset) priority_mask;
    }

-- `decode`, up to the call of `decodeData`.
unfoldable pub decode_header : Header → ℕ → Result Header
unfolding frame_pgn stored_fields
decode_header h identifier =
    if frame_pgn identifier == h.pgn
    then ok (stored_fields h identifier)
    else err (decode_exception pgn_mismatch)

-- The fields fit their widths, and the assertion of the constructor holds.
pub record IsValid (h : Header) : Type 0 where
  pub priority_fits : h.priority < 8
  pub src_fits : h.src_addr < 256
  pub dst_fits : h.dst_addr < 256
  pub pgn_fits : h.pgn < 0x40000
  pub no_specific : h.pgn / 256 % 256 < 240 → h.pgn % 256 ≡ 0
