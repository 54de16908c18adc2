-- ===== src/Bam/Rebuilt.antt =====
-- The frame that a receiver rebuilds from a broadcast message, by the factory of J1939Factory.cpp.
use j1939_framework.Base.{
  ℕ, ◌+◌, ◌*◌, ◌/◌, ◌%◌, ◌^◌, ◌≤◌, ◌<◌, ◌≡◌, ◌∙◌, ap, arith, true, List, some, [], ◌∷◌, ◌++◌,
  if◌then◌else◌, length, bit_and_mask, bit_or_high,
}
use j1939_framework.Base.Dict
use j1939_framework.Common.{ok}
use j1939_framework.Header.{Header, IsValid, get_identifier, frame_pgn}
use j1939_framework.Header.Fields.{get_identifier_lem, pgn_with_dst_lem, frame_pgn_lem}
use j1939_framework.Header.Identifier.{is_pdu1, decode_header-get_identifier}
use j1939_framework.Transport.Tpcm.{Tpcm}
use j1939_framework.Frame.{Frame, Payload, Encoded, encode, decode, decode_data, data_length}
use j1939_framework.Factory.{Factory, get_frame}
use j1939_framework.Factory.Registry.{IsKeyed, find-IsKeyed}
use j1939_framework.Bam.Fragmenter.{CmFrame, Fragmenter, fragment}
use j1939_framework.Bam.Reassembler.{Reassembler, new_id}
use j1939_framework.Bam.Delivery.{receive, IsFragmenter, fragment_lem, delivered}

-- The header without its destination address: the connection management frame does not carry it.
abbrev pub undirected : Header → Header
undirected h = record h { dst_addr = 0 }

undirected-IsValid : (h : Header) → IsValid h → IsValid (undirected h)
undirected-IsValid h v = record {
  priority_fits = v.priority_fits;
  src_fits = v.src_fits;
  dst_fits = omega arith;
  pgn_fits = v.pgn_fits;
  no_specific = v.no_specific;
}

new_id_lem :
    (h : Header) (c : CmFrame)
    → IsValid h
    → c.header.priority ≡ h.priority % 8
    → c.header.src_addr ≡ h.src_addr
    → c.body.data_pgn ≡ h.pgn
    → new_id c ≡ get_identifier (undirected h)
unfolding new_id
new_id_lem h c v priority src pgn = ground (
  arith,
  priority,
  src,
  pgn,
  v.priority_fits,
  v.src_fits,
  v.pgn_fits,
  bit_and_mask 3 c.header.priority,
  bit_and_mask 8 c.header.src_addr,
  bit_or_high 26 h.priority (h.pgn * 256),
  bit_or_high 8 (h.priority * 2 ^ 18 + h.pgn) h.src_addr,
  get_identifier_lem (undirected h) (undirected-IsValid h v),
  pgn_with_dst_lem (undirected h) (undirected-IsValid h v),
)

frame_pgn-undirected :
    (h : Header)
    → IsValid h
    → (h.pgn / 256 % 256 < 240 → h.pgn < 0x10000)
    → frame_pgn (get_identifier (undirected h)) ≡ h.pgn
frame_pgn-undirected h v page = ground (
  arith,
  get_identifier_lem (undirected h) (undirected-IsValid h v),
  pgn_with_dst_lem (undirected h) (undirected-IsValid h v),
  v.no_specific,
  frame_pgn_lem (get_identifier (undirected h)),
)

-- What a receiver makes of the payload `p`.
abbrev pub rebuilt_frame : Frame → Frame → Payload → Frame
rebuilt_frame frame b p = record {
  header = record b.header {
    priority = frame.header.priority;
    src_addr = frame.header.src_addr;
    dst_addr = if is_pdu1 frame.header.pgn then 0 else b.header.dst_addr;
  };
  payload = p;
}

get_frame-undirected :
    (factory : Factory) (frame b : Frame) (buf : List ℕ) (p : Payload)
    → IsKeyed factory
    → IsValid frame.header
    → (frame.header.pgn / 256 % 256 < 240 → frame.header.pgn < 0x10000)
    → Dict.find frame.header.pgn factory ≡ some b
    → decode_data b.payload buf ≡ ok p
    → get_frame factory (get_identifier (undirected frame.header)) buf
      ≡ ok (some (rebuilt_frame frame b p))
unfolding get_frame decode
get_frame-undirected factory frame b buf p keyed v page known decoded =
    let h = undirected frame.header in
    let found =
      ap (λ (k : ℕ). Dict.find k factory) (frame_pgn-undirected frame.header v page) ∙ known in
    let header =
      decode_header-get_identifier h b.header (undirected-IsValid frame.header v)
        (find-IsKeyed _ factory b keyed known) page in
    ground (arith, found, header, decoded)

-- A valid frame of at most 1785 bytes is fragmented and received by a unit whose factory has a
-- prototype of its PGN that decodes the encoded bytes; a PGN of the first format has its page bits
-- clear. Then the queue has grown by just one frame: that prototype with the priority and the
-- source of the sender and the decoded payload. The destination address is not carried: it is 0 for
-- a PGN of the first format and that of the prototype for one of the second.
pub rebuilt :
    (factory : Factory) (heap : ℕ → List ℕ) (f sent : Fragmenter) (frame b : Frame) (e : Encoded)
    (r : Reassembler) (p : Payload)
    → ((n : ℕ) → length (heap n) ≡ n)
    → IsFragmenter f
    → data_length frame.payload ≤ 1785
    → encode frame (data_length frame.payload) ≡ ok e
    → fragment f frame ≡ ok (sent, true)
    → IsKeyed factory
    → IsValid frame.header
    → (frame.header.pgn / 256 % 256 < 240 → frame.header.pgn < 0x10000)
    → Dict.find frame.header.pgn factory ≡ some b
    → decode_data b.payload e.buffer ≡ ok p
    → (receive factory heap r sent).reassembled ≡ r.reassembled ++ rebuilt_frame frame b p ∷ []
rebuilt factory heap f sent frame b e r p memory made small encoded accepted keyed v page known
      decoded =
    let l = fragment_lem f sent frame e made small encoded accepted in
    let id = new_id_lem frame.header sent.cm v l.2 l.3 (ap (λ (t : Tpcm). t.data_pgn) l.6) in
    (delivered factory heap memory f sent frame e r made small encoded accepted
      (rebuilt_frame frame b p)
      (ap (λ (i : ℕ). get_frame factory i e.buffer) id
        ∙ get_frame-undirected factory frame b e.buffer p keyed v page known decoded)).0
