-- ===== src/Bam/Delivery.antt =====
-- A message from BamFragmenter::fragment through BamReassembler::handleFrame to the queue of
-- reassembled frames.
use j1939_framework.Base.{
  ℕ, ◌%◌, ◌≤◌, ◌<◌, ◌≡◌, ◌∙◌, refl, sym, ap, arith, true, List, none, some, [], ◌∷◌, ◌++◌,
  if◌then◌else◌, length, ◌==◌, bit_and, bit_and_mask,
}
use native.Mathlib.Nat.{zero-add}
use j1939_framework.Base.Dict
use j1939_framework.Common.{ok, err, Error, broadcast_address}
use j1939_framework.Header.{Header, set_priority, set_dst_addr}
use j1939_framework.Transport.Tpcm.{Tpcm, tp_cm_pgn, ctrl_bam, cleared}
use j1939_framework.Frame.{Frame, tpcm, Encoded, encode, data_length}
use j1939_framework.Frame.Encoding.{encode_returns}
use j1939_framework.Factory.{Factory, get_frame}
use j1939_framework.Bam.Fragmenter.{
  CmFrame, Fragmenter, clear_cm, addressed_like, cut, fragment, get_data_frames,
}
use j1939_framework.Bam.Reassembler.{
  BamFragments, Reassembler, bam_ok, handle_frame, complete, reassemble, new_id, get_last_sq,
}
use j1939_framework.Bam.Packets.{packets, cut-packets, join_from-packets, length-get_data_frames}
use j1939_framework.Bam.Sessions.{handle_all, handle_all-packets, length-packets, stored}

abbrev pub cm_as_frame : CmFrame → Frame
cm_as_frame c = record { header = c.header; payload = tpcm c.body }

-- The connection management frame of a fragmented message, and then its data frames.
abbrev pub receive : Factory → (ℕ → List ℕ) → Reassembler → Fragmenter → Reassembler
receive factory heap r sent =
    handle_all factory heap (handle_frame factory heap r (cm_as_frame sent.cm)).state
      (get_data_frames sent.dts)

-- The connection management frame that a fragmenter holds has its PGN.
abbrev pub IsFragmenter : Fragmenter → Type 0
IsFragmenter f = f.cm.header.pgn ≡ tp_cm_pgn

clear_cm_lem :
    (c : CmFrame)
    → c.header.pgn ≡ tp_cm_pgn
    → clear_cm c ≡ record {
      header = record c.header { priority = 0; src_addr = 0; dst_addr = broadcast_address };
      body = cleared;
    }
unfolding clear_cm set_priority set_dst_addr
clear_cm_lem c e = rw e refl

addressed_like_lem :
    (frame h : Header)
    → h.pgn ≡ tp_cm_pgn
    → addressed_like frame h ≡ record h {
      priority = bit_and frame.priority 7;
      src_addr = frame.src_addr;
      dst_addr = broadcast_address;
    }
unfolding addressed_like set_priority set_dst_addr
addressed_like_lem frame h e = rw e refl

-- A fragmenter accepts only frames of more than eight bytes. Of a frame of at most 1785 bytes that
-- encodes it makes the packets of the encoded bytes in their order, and an announcement with the
-- priority and source of the frame and the broadcast address, which gives the PGN, the length and
-- the number of packets.
pub fragment_lem :
    (f sent : Fragmenter) (frame : Frame) (e : Encoded)
    → IsFragmenter f
    → data_length frame.payload ≤ 1785
    → encode frame (data_length frame.payload) ≡ ok e
    → fragment f frame ≡ ok (sent, true)
    → (8 < data_length frame.payload)
      × (get_data_frames sent.dts ≡ packets (data_length frame.payload) frame.header 0 e.buffer)
      × (sent.cm.header.priority ≡ frame.header.priority % 8)
      × (sent.cm.header.src_addr ≡ frame.header.src_addr)
      × (sent.cm.header.dst_addr ≡ broadcast_address)
      × (sent.cm.header.pgn ≡ tp_cm_pgn)
      × (sent.cm.body ≡ record cleared {
        ctrl_type = ctrl_bam;
        data_pgn = frame.header.pgn;
        total_packets = length (get_data_frames sent.dts);
        total_msg_size = data_length frame.payload;
      })
unfolding fragment
fragment_lem f sent frame e made small encoded accepted =
    let size = data_length frame.payload in
    let returned = encode_returns frame size e encoded in
    let dts = cut size frame.header 0 e.buffer [] in
    let same : get_data_frames dts ≡ packets size frame.header 0 e.buffer =
      unfold get_data_frames in
      cut-packets size frame.header 0 e.buffer [] tt (omega (arith, returned.4)) in
    let count = length-packets size frame.header 0 e.buffer (omega (arith, returned.4)) in
    let cleaned = clear_cm_lem f.cm made in
    let like = addressed_like_lem frame.header (clear_cm f.cm).header (rw cleaned made) in
    ground (
      arith,
      cleaned,
      like,
      length-get_data_frames dts,
      same,
      count,
      returned.4,
      bit_and_mask 3 frame.header.priority,
    )

module _ (factory : Factory) (heap : ℕ → List ℕ) where
  -- A connection management frame opens a session without packets, in place of any other of its
  -- source.
  opened_lem :
      (r : Reassembler) (c : CmFrame)
      → c.header.dst_addr ≡ broadcast_address
      → c.header.pgn ≡ tp_cm_pgn
      → c.body.ctrl_type ≡ ctrl_bam
      → let opened = (handle_frame factory heap r (cm_as_frame c)).state in
        (opened.reassembled ≡ r.reassembled)
        × (opened.fragments
            ≡ Dict.insert c.header.src_addr
                (record { cm = c; dts = [] })
                (Dict.erase c.header.src_addr r.fragments))
  unfolding handle_frame
  opened_lem r c e_dst e_pgn e_ctrl = ground arith

  -- The packets of a whole message join to the encoded data.
  reassemble_lem :
      (s : BamFragments) (frame : Header) (buf : List ℕ) (size : ℕ)
      → ((n : ℕ) → length (heap n) ≡ n)
      → s.dts ≡ packets size frame 0 buf
      → s.cm.body.total_msg_size ≡ size
      → length buf ≡ size
      → 1 ≤ size
      → reassemble factory heap s ≡ buf
  unfolding reassemble
  reassemble_lem s frame buf size memory packed e_size len nonempty = rw packed (
      rw e_size (
        join_from-packets size size 0 frame 0 buf (heap size) (omega arith) (omega arith)
          (omega arith) (memory size)))

  complete_ok :
      (r : Reassembler) (src : ℕ) (s : BamFragments) (g : Frame)
      → get_frame factory (new_id s.cm) (reassemble factory heap s) ≡ ok (some g)
      → (complete factory heap r src s).state ≡ record {
        fragments = Dict.erase src r.fragments;
        last_error = bam_ok;
        reassembled = r.reassembled ++ g ∷ [];
      }
  unfolding complete
  complete_ok r src s g known = ground (arith, known)

  complete_err :
      (r : Reassembler) (src : ℕ) (s : BamFragments) (why : Error)
      → get_frame factory (new_id s.cm) (reassemble factory heap s) ≡ err why
      → (complete factory heap r src s).state ≡ r
  unfolding complete
  complete_err r src s why thrown = ground (arith, thrown)

  module _ (memory : (n : ℕ) → length (heap n) ≡ n) (f sent : Fragmenter) (frame : Frame)
      (e : Encoded) (r : Reassembler) (made : IsFragmenter f)
      (small : data_length frame.payload ≤ 1785)
      (encoded : encode frame (data_length frame.payload) ≡ ok e)
      (accepted : fragment f frame ≡ ok (sent, true)) where
    opened_here :
        let src = frame.header.src_addr in
        let opened = (handle_frame factory heap r (cm_as_frame sent.cm)).state in
        (opened.reassembled ≡ r.reassembled)
        × (opened.fragments
            ≡ Dict.insert src (record { cm = sent.cm; dts = [] }) (Dict.erase src r.fragments))
    opened_here =
        let l = fragment_lem f sent frame e made small encoded accepted in
        let o = opened_lem r sent.cm l.4 l.5 (ap (λ (t : Tpcm). t.ctrl_type) l.6) in
        let fresh : BamFragments = record { cm = sent.cm; dts = [] } in
        (o.0, o.1 ∙ ap (λ (a : ℕ). Dict.insert a fresh (Dict.erase a r.fragments)) l.3)

    receive_lem :
        let src = frame.header.src_addr in
        let opened = (handle_frame factory heap r (cm_as_frame sent.cm)).state in
        let session : BamFragments = record { cm = sent.cm; dts = get_data_frames sent.dts } in
        (receive factory heap r sent
          ≡ (complete factory heap (stored opened src session) src session).state)
        × (reassemble factory heap session ≡ e.buffer)
    unfolding get_last_sq
    receive_lem =
        let size = data_length frame.payload in
        let src = frame.header.src_addr in
        let l = fragment_lem f sent frame e made small encoded accepted in
        let long = l.0 in
        let packed = l.1 in
        let returned = encode_returns frame size e encoded in
        let count = length-packets size frame.header 0 e.buffer (omega (arith, returned.4)) in
        let session : BamFragments = record { cm = sent.cm; dts = get_data_frames sent.dts } in
        let fresh : BamFragments = record { cm = sent.cm; dts = [] } in
        let total : sent.cm.body.total_packets ≡ length (get_data_frames sent.dts) =
          ap (λ (t : Tpcm). t.total_packets) l.6 in
        let length_sent : sent.cm.body.total_msg_size ≡ size =
          ap (λ (t : Tpcm). t.total_msg_size) l.6 in
        let opened = (handle_frame factory heap r (cm_as_frame sent.cm)).state in
        let found : Dict.find src opened.fragments ≡ some fresh =
          ap (Dict.find src) opened_here.1
          ∙ ground (arith, Dict.find-insert src src fresh (Dict.erase src r.fragments)) in
        let fed =
          handle_all-packets factory heap size frame.header 0 e.buffer opened fresh
            (omega (arith, returned.4)) (omega (arith, returned.4)) found refl
            (zero-add _ ∙ sym (total ∙ ap length packed))
            (omega (arith, total, ap length packed, count)) in
        (
          rw packed fed,
          reassemble_lem session frame.header e.buffer size memory packed length_sent returned.4
              (omega arith),
        )

    -- A frame of at most 1785 bytes that encodes and that a fragmenter accepts: after the connection
    -- management frame and all data frames, if the factory decodes the encoded bytes to a frame, just
    -- that frame has joined the queue, the error is cleared, the session of the source has ended, and
    -- the session of every other source is as it was, whatever the reassembler held before and
    -- whatever was in the memory that it allocated.
    pub delivered :
        (g : Frame)
        → get_frame factory (new_id sent.cm) e.buffer ≡ ok (some g)
        → let after = receive factory heap r sent in
          (after.reassembled ≡ r.reassembled ++ g ∷ [])
          × (after.last_error ≡ bam_ok)
          × ((a : ℕ)
              → Dict.find a after.fragments
                ≡ (if frame.header.src_addr == a then none else Dict.find a r.fragments))
    delivered g known =
        let src = frame.header.src_addr in
        let opened = (handle_frame factory heap r (cm_as_frame sent.cm)).state in
        let session : BamFragments = record { cm = sent.cm; dts = get_data_frames sent.dts } in
        let fresh : BamFragments = record { cm = sent.cm; dts = [] } in
        let full = receive_lem.1 in
        let end =
          receive_lem.0
          ∙ complete_ok (stored opened src session) src session g
              (ap (get_frame factory (new_id sent.cm)) full ∙ known) in
        (
          ap (λ (x : Reassembler). x.reassembled) end
              ∙ ap (λ (x : List Frame). x ++ g ∷ []) opened_here.0,
          ap (λ (x : Reassembler). x.last_error) end,
          λ a.
              ap (λ (x : Reassembler). Dict.find a x.fragments) end
              ∙ ground (
                arith,
                Dict.find-erase src a (Dict.insert src session opened.fragments),
                Dict.find-insert src a session opened.fragments,
                ap (Dict.find a) opened_here.1,
                Dict.find-insert src a fresh (Dict.erase src r.fragments),
                Dict.find-erase src a r.fragments,
              ),
        )

    -- A frame of at most 1785 bytes that encodes and that a fragmenter accepts: if the factory throws on
    -- the encoded bytes, nothing has joined the queue after the last data frame, but the session of
    -- the source is not ended: it stays with all of its packets.
    pub decoder_throws :
        (why : Error)
        → get_frame factory (new_id sent.cm) e.buffer ≡ err why
        → let after = receive factory heap r sent in
          (after.reassembled ≡ r.reassembled)
          × (Dict.find frame.header.src_addr after.fragments
              ≡ some (record { cm = sent.cm; dts = get_data_frames sent.dts }))
    decoder_throws why thrown =
        let src = frame.header.src_addr in
        let opened = (handle_frame factory heap r (cm_as_frame sent.cm)).state in
        let session : BamFragments = record { cm = sent.cm; dts = get_data_frames sent.dts } in
        let end =
          receive_lem.0
          ∙ complete_err (stored opened src session) src session why
              (ap (get_frame factory (new_id sent.cm)) receive_lem.1 ∙ thrown) in
        (
          ap (λ (x : Reassembler). x.reassembled) end ∙ opened_here.0,
          ap (λ (x : Reassembler). Dict.find src x.fragments) end
              ∙ ground (arith, Dict.find-insert src src session opened.fragments),
        )
