-- ===== src/Header/Identifier.antt =====
-- J1939Frame::decode against J1939Frame::getIdentifier.
use j1939_framework.Base.{
  ℕ, ◌*◌, ◌/◌, ◌%◌, ◌^◌, ◌≤◌, ◌<◌, ◌≡◌, ◌≢◌, ◌↔◌, arith, Bool, ltb, if◌then◌else◌, bit_and_mask,
}
use j1939_framework.Common.{ok, err, decode_exception, pgn_mismatch}
use j1939_framework.Header.{
  Header, IsValid, pgn_with_dst, get_identifier, raw_pgn, frame_pgn, stored_fields, decode_header,
}
use j1939_framework.Header.Fields.{
  raw_pgn_lem, has_dst_lem, frame_pgn_lem, pgn_with_dst_lem, pgn_with_dst-lt, get_identifier_lem,
}

-- The PDU format of a PGN is below 240: it is sent to a destination address.
abbrev pub is_pdu1 : ℕ → Bool
is_pdu1 pgn = ltb (pgn / 256 % 256) 240

-- `decode_header` in plain arithmetic.
pub decode_header_lem :
    (b : Header) (id pgn : ℕ)
    → id / 256 % 0x40000 ≡ pgn
    → (if is_pdu1 pgn then pgn / 256 % 256 * 256 else pgn) ≡ b.pgn
    → decode_header b id
      ≡ ok (record b {
        dst_addr = if is_pdu1 pgn then pgn % 256 else b.dst_addr;
        src_addr = id % 256;
        priority = id / 0x4000000 % 8;
      })
unfolding decode_header
decode_header_lem b id pgn e same = ground (
  arith,
  raw_pgn_lem id,
  has_dst_lem (raw_pgn id),
  frame_pgn_lem id,
  bit_and_mask 8 id,
  bit_and_mask 8 (raw_pgn id / 2 ^ 0),
  bit_and_mask 3 (id / 2 ^ 26),
)

-- A header whose fields fit comes back whole from its own identifier, into any frame of the same
-- PGN; a frame of the second format keeps the destination address that it had. The PGN of a frame
-- of the first format must have its two page bits clear.
pub decode_header-get_identifier :
    (h b : Header)
    → IsValid h
    → b.pgn ≡ h.pgn
    → (h.pgn / 256 % 256 < 240 → h.pgn < 0x10000)
    → decode_header b (get_identifier h)
      ≡ ok (record b {
        priority = h.priority;
        src_addr = h.src_addr;
        dst_addr = if is_pdu1 h.pgn then h.dst_addr else b.dst_addr;
      })
decode_header-get_identifier h b v same page = ground (
  arith,
  get_identifier_lem h v,
  pgn_with_dst_lem h v,
  pgn_with_dst-lt h v,
  v.no_specific,
  decode_header_lem b (get_identifier h) (pgn_with_dst h),
)

-- Decoding fails, with the mismatch as its only error, exactly when the PGN under which the
-- identifier travels is not the frame's.
decode_header_fails :
    (b : Header) (id : ℕ)
    → (decode_header b id ≡ err (decode_exception pgn_mismatch)) ↔ (frame_pgn id ≢ b.pgn)
unfolding decode_header
decode_header_fails b id = ground arith

-- A PGN of the first format that has a page bit set never comes back: decoding drops the page bits,
-- so every frame of that PGN refuses its own identifier.
pub decode_header_page :
    (h b : Header)
    → IsValid h
    → b.pgn ≡ h.pgn
    → h.pgn / 256 % 256 < 240
    → 0x10000 ≤ h.pgn
    → decode_header b (get_identifier h) ≡ err (decode_exception pgn_mismatch)
decode_header_page h b v same pdu1 page = (decode_header_fails b (get_identifier h)).1 (
    ground (
      arith,
      get_identifier_lem h v,
      pgn_with_dst_lem h v,
      v.no_specific,
      frame_pgn_lem (get_identifier h),
    ))

-- What a decoded header holds.
decoded_fields :
    (b h : Header) (id : ℕ)
    → decode_header b id ≡ ok h
    → (h.priority ≡ id / 0x4000000 % 8)
      × (h.src_addr ≡ id % 256)
      × (h.pgn ≡ b.pgn)
      × (h.pgn ≡ frame_pgn id)
      × (h.dst_addr ≡ (if is_pdu1 (id / 256) then id / 256 % 256 else b.dst_addr))
unfolding decode_header
decoded_fields b h id e = ground (
  arith,
  raw_pgn_lem id,
  has_dst_lem (raw_pgn id),
  bit_and_mask 8 id,
  bit_and_mask 8 (raw_pgn id / 2 ^ 0),
  bit_and_mask 3 (id / 2 ^ 26),
)

-- A header whose fields fit decodes any identifier that it accepts to a header whose fields fit.
decode_header-IsValid : (b h : Header) (id : ℕ) → IsValid b → decode_header b id ≡ ok h → IsValid h
decode_header-IsValid b h id v e =
    ground (arith, decoded_fields b h id e, frame_pgn_lem id, v.no_specific)

-- The other way round: a 29-bit identifier that a frame accepts is the identifier of the decoded
-- frame, provided that its two page bits are clear where it has the first format.
get_identifier-decode_header :
    (b h : Header) (id : ℕ)
    → IsValid b
    → id < 0x20000000
    → (id / 0x10000 % 256 < 240 → id / 0x1000000 % 4 ≡ 0)
    → decode_header b id ≡ ok h
    → get_identifier h ≡ id
get_identifier-decode_header b h id v fits page e = ground (
  arith,
  decoded_fields b h id e,
  decode_header-IsValid b h id v e,
  get_identifier_lem h (decode_header-IsValid b h id v e),
  pgn_with_dst_lem h (decode_header-IsValid b h id v e),
  frame_pgn_lem id,
)

pub decode_header_accepts :
    (b : Header) (id : ℕ) → frame_pgn id ≡ b.pgn → decode_header b id ≡ ok (stored_fields b id)
unfolding decode_header
decode_header_accepts b id e = ground arith
