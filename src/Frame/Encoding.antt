-- ===== src/Frame/Encoding.antt =====
-- J1939Frame::encode against J1939Frame::decode, over all payloads.
use j1939_framework.Base.{
  ℕ, bit_and, zero, suc, ◌+◌, ◌-◌, ◌*◌, ◌/◌, ◌%◌, ◌≤◌, ◌<◌, ◌≡◌, refl, ap, arith, inl, inr, List,
  [], ◌∷◌, if◌then◌else◌, length, take, drop, replicate, overwrite_at, ltb, ◌==◌, u8,
  length-overwrite, length-replicate, bit_and_mask,
}
use j1939_framework.Common.{ok, err, encode_exception, priority_range, short_buffer, Result-cases}
use j1939_framework.Header.{IsValid, get_identifier}
use j1939_framework.Header.Identifier.{is_pdu1, decode_header-get_identifier}
use j1939_framework.Spn.{Spn, numeric, status, text, get_offset}
use j1939_framework.Spn.Codec
use j1939_framework.Generic
use j1939_framework.Generic.{Spns}
use j1939_framework.Diagnosis
use j1939_framework.Fms
use j1939_framework.Addressing
use j1939_framework.Request
use j1939_framework.Transport.Tpcm
use j1939_framework.Transport.Tpdt
use j1939_framework.Frame.{
  Frame, Payload, Encoded, tpcm, tpdt, fms1, dm1, address_claim, request, generic, encode, decode,
  encode_data, decode_data, data_length,
}

pub length-overwrite_at :
    (i : ℕ) (xs block : List ℕ) → length (overwrite_at i xs block) ≡ length block
length-overwrite_at zero xs block = length-overwrite xs block
length-overwrite_at (suc i) xs [] = refl
length-overwrite_at (suc i) xs (b ∷ block) = ap suc (length-overwrite_at i xs block)

encode_spn-length :
    (s : Spn) (buf out : List ℕ) → Codec.encode s buf ≡ ok out → length out ≡ length buf
unfolding Codec.encode Codec.encode_numeric Codec.encode_status Codec.encode_text
encode_spn-length (numeric n) buf out e =
    ground (arith, length-overwrite (Codec.numeric_bytes n.byte_size 0 n.value) buf)
encode_spn-length (status s) buf out e = grind (arith, length-overwrite)
encode_spn-length (text t) buf out e = grind (arith, length-overwrite, length-overwrite_at)

encode_spns-length :
    (m : Spns) (buf out : List ℕ) (len : ℕ)
    → Generic.encode_spns m buf len ≡ ok out
    → length out ≡ length buf
unfolding Generic.encode_spns
encode_spns-length [] buf out len e = ground arith
encode_spns-length ((k, s) ∷ m) buf out len e =
    let offset = get_offset s in
    elim (Result-cases (Codec.encode s (take (len - offset) (drop offset buf)))) [
      | inl (part, h) ↦ ground (
        arith,
        encode_spns-length m (overwrite_at offset part buf) out len,
        length-overwrite_at offset part buf,
      )
      | inr (f, h) ↦ ground arith
    ]

encode_fms-length :
    (f : Fms.Fms1) (buf out : List ℕ) → Fms.encode_data f buf ≡ ok out → length out ≡ length buf
unfolding Fms.encode_data
encode_fms-length f buf out e =
    elim (Result-cases (Fms.status_at f.ttss (u8 (15 * f.block_id + 1)))) [
      | inl (first, h) ↦ elim (Result-cases (Fms.encode_bytes 7 1 f.block_id f.ttss)) [
        | inl (others, k) ↦ grind (arith, length-overwrite)
        | inr (g, k) ↦ ground arith
      ]
      | inr (g, h) ↦ ground arith
    ]

-- No class writes behind the buffer that it is given.
pub encode_data-length :
    (p : Payload) (buf out : List ℕ) → encode_data p buf ≡ ok out → length out ≡ length buf
unfolding encode_data Tpcm.encode_data Tpdt.encode_data Diagnosis.encode_data Addressing.encode_data
    Request.encode_data Generic.encode_data
encode_data-length (tpcm t) buf out e = elim (Result-cases (Tpcm.encode_ctrl t)) [
  | inl (fields, h) ↦ grind (arith, length-overwrite, length-overwrite_at)
  | inr (f, h) ↦ ground arith
]
encode_data-length (tpdt t) buf out e = ground (arith, length-overwrite (t.sq ∷ t.bytes) buf)
encode_data-length (fms1 f) buf out e = encode_fms-length f buf out e
encode_data-length (dm1 d) buf out e =
    let len = Generic.data_length d.lamps in
    elim (Result-cases (Generic.encode_spns d.lamps.spns buf len)) [
      | inl (part, h) ↦ ground (
        arith,
        encode_spns-length d.lamps.spns buf part len h,
        length-overwrite_at len (Diagnosis.code_bytes d.dtcs) part,
      )
      | inr (f, h) ↦ ground arith
    ]
encode_data-length (address_claim n) buf out e =
    ground (arith, length-overwrite (Addressing.name_bytes n) buf)
encode_data-length (request p) buf out e =
    ground (arith, length-overwrite (Request.request_bytes p) buf)
encode_data-length (generic g) buf out e = encode_spns-length g.spns buf out (length buf) e

pub priority_lem : (p : ℕ) → (bit_and p 7 == p) ≡ ltb p 8
priority_lem p = ground (arith, bit_and_mask 3 p)

-- What an encoder that returns has checked, and what it hands back: the priority fits its three bits
-- and the data fits the buffer; the identifier is that of the header, the length in use is that of
-- the data, and the buffer has kept its capacity.
pub encode_returns :
    (f : Frame) (capacity : ℕ) (e : Encoded)
    → encode f capacity ≡ ok e
    → (f.header.priority < 8)
      × (e.identifier ≡ get_identifier f.header)
      × (e.used ≡ data_length f.payload)
      × (e.used ≤ capacity)
      × (length e.buffer ≡ capacity)
unfolding encode
encode_returns f capacity e returned =
    elim (Result-cases (encode_data f.payload (replicate capacity 0xFF))) [
      | inl (buf, h) ↦ ground (
        arith,
        priority_lem f.header.priority,
        encode_data-length f.payload (replicate capacity 0xFF) buf h,
        length-replicate {A = ℕ} capacity 0xFF,
      )
      | inr (g, h) ↦ ground arith
    ]

-- A priority above 7 is refused before the length is looked at, and then a buffer that is shorter
-- than the data, whatever the class of the frame.
encode_refuses :
    (f : Frame) (capacity : ℕ)
    → (8 ≤ f.header.priority → encode f capacity ≡ err (encode_exception priority_range))
      × (f.header.priority < 8
          → capacity < data_length f.payload
          → encode f capacity ≡ err (encode_exception short_buffer))
unfolding encode
encode_refuses f capacity =
    let fits = priority_lem f.header.priority in (ground (arith, fits), ground (arith, fits))

-- A frame of any class round trips as a whole as soon as its payload does: any frame of the same PGN
-- whose payload decodes the encoded buffer to `p` decodes identifier and buffer to a frame with the
-- sender's priority and source, its destination where the PGN has the first format, and `p`. The
-- header's fields fit, and a PGN of the first format has its page bits clear.
pub decode-encode :
    (f b : Frame) (capacity : ℕ) (e : Encoded) (p : Payload)
    → IsValid f.header
    → b.header.pgn ≡ f.header.pgn
    → (f.header.pgn / 256 % 256 < 240 → f.header.pgn < 0x10000)
    → encode f capacity ≡ ok e
    → decode_data b.payload e.buffer ≡ ok p
    → decode b e.identifier e.buffer
      ≡ ok (record {
        header = record b.header {
          priority = f.header.priority;
          src_addr = f.header.src_addr;
          dst_addr = if is_pdu1 f.header.pgn then f.header.dst_addr else b.header.dst_addr;
        };
        payload = p;
      })
unfolding decode
decode-encode f b capacity e p v same page returned decoded =
    rw (encode_returns f capacity e returned).1
      (rw (decode_header-get_identifier f.header b.header v same page) (rw decoded refl))
