-- ===== src/Bam/Reassembler.antt =====
-- J1939/Transport/BAM/BamReassembler.cpp: the sessions by source address, and the frames that have
-- been put together.
use j1939_framework.Base.{
  ℕ, ◌+◌, ◌-◌, bit_and, bit_or, Bool, false, not, ◌&&◌, List, [], ◌∷◌, ◌++◌, ◌==◌, none, some,
  if◌then◌else◌, take, overwrite_at, ltb, leb, u32, ◌<<◌,
}
use j1939_framework.Base.Dict
use j1939_framework.Common.{
  Result, ok, err, fault, broadcast_address, tp_dt_packet_size, priority_mask, priority_offset,
  pgn_offset, src_addr_mask,
}
use j1939_framework.Header.{Header}
use j1939_framework.Transport.Tpcm.{Tpcm, tp_cm_pgn, ctrl_bam}
use j1939_framework.Transport.Tpdt.{Tpdt, tp_dt_pgn}
use j1939_framework.Frame.{Frame, tpcm, tpdt}
use j1939_framework.Factory.{Factory, get_frame}
use j1939_framework.Bam.Fragmenter.{CmFrame, DtFrame}

pub data BamError : Type 0 where
  incomplete_frame unexpected_frame not_bcast_addr decoding bam_ok : BamError

pub record BamFragments : Type 0 where
  pub cm : CmFrame
  pub dts : List DtFrame

pub record Reassembler : Type 0 where
  pub fragments : List (ℕ × BamFragments)
  pub last_error : BamError
  pub reassembled : List Frame

abbrev pub new_reassembler : Reassembler
new_reassembler = record { fragments = []; last_error = bam_ok; reassembled = [] }

unfoldable pub get_last_sq : List DtFrame → ℕ
get_last_sq [] = 0
get_last_sq (d ∷ []) = d.body.sq
get_last_sq (d ∷ e ∷ ds) = get_last_sq (e ∷ ds)

-- The loop of `reassemble` at `offset`, into a block of `size` bytes.
unfoldable pub join_from : ℕ → ℕ → List DtFrame → List ℕ → List ℕ
join_from size offset [] block = block
join_from size offset (d ∷ ds) block =
    let left = size - offset in
    let part = take (if ltb left tp_dt_packet_size then left else tp_dt_packet_size) d.body.bytes in
    let block' = overwrite_at offset part block in
    let more = join_from size (offset + tp_dt_packet_size) ds block' in
    if leb size (offset + tp_dt_packet_size) then block' else more

unfoldable pub to_be_handled : Frame → Result Bool
to_be_handled frame =
    if not (frame.header.dst_addr == broadcast_address)
    then ok false
    else if frame.header.pgn == tp_cm_pgn
    then elim frame.payload [ tpcm t ↦ ok (t.ctrl_type == ctrl_bam) | _ ↦ err fault ]
    else ok (frame.header.pgn == tp_dt_pgn)

-- What a call leaves, and what it returns or throws.
pub record Handled : Type 0 where
  pub state : Reassembler
  pub result : Result ℕ

abbrev pub set_error : Reassembler → BamError → Reassembler
set_error r e = record r { last_error = e }

-- A connection management frame.
unfoldable pub handle_cm : Reassembler → Header → Tpcm → Handled
handle_cm r h t =
    let session : BamFragments = record { cm = record { header = h; body = t }; dts = [] } in
    let replaced = Dict.has h.src_addr r.fragments in
    if not (t.ctrl_type == ctrl_bam)
    then record { state = set_error r unexpected_frame; result = ok 0 }
    else record {
      state = record r {
        fragments = Dict.insert h.src_addr session (Dict.erase h.src_addr r.fragments);
        last_error = if replaced then incomplete_frame else bam_ok;
      };
      result = ok t.total_msg_size;
    }

-- The identifier under which the joined data is decoded.
unfoldable pub new_id : CmFrame → ℕ
new_id c =
    let with_pgn =
      bit_or (bit_and c.header.priority priority_mask << priority_offset)
        (u32 (c.body.data_pgn << pgn_offset)) in
    bit_or with_pgn (bit_and c.header.src_addr src_addr_mask)

-- The known frames, and what `new u8[length]` finds in the memory that it gets.
module _ (factory : Factory) (heap : ℕ → List ℕ) where
  unfoldable pub reassemble : BamFragments → List ℕ
  unfolding join_from
  reassemble s = join_from s.cm.body.total_msg_size 0 s.dts (heap s.cm.body.total_msg_size)

  -- The last packet is there: the data is decoded, and the session ends, unless the decoder throws.
  unfoldable pub complete : Reassembler → ℕ → BamFragments → Handled
  complete r src s =
      let ended = record r { fragments = Dict.erase src r.fragments } in
      elim (get_frame factory (new_id s.cm) (reassemble s)) [
        | err e ↦ record { state = r; result = err e }
        | ok none ↦ record { state = set_error ended decoding; result = ok 0 }
        | ok (some f) ↦ record {
          state = record ended { reassembled = r.reassembled ++ f ∷ []; last_error = bam_ok };
          result = ok s.cm.body.total_msg_size;
        }
      ]

  -- A data frame of the session `s`.
  unfoldable pub handle_packet : Reassembler → Header → Tpdt → BamFragments → Handled
  handle_packet r h t s =
      let size = s.cm.body.total_msg_size in
      let s' = record s { dts = s.dts ++ record { header = h; body = t } ∷ [] } in
      let r' = record r { fragments = Dict.insert h.src_addr s' r.fragments } in
      if leb t.sq s.cm.body.total_packets && (get_last_sq s.dts + 1 == t.sq)
      then if t.sq == s.cm.body.total_packets
        then complete r' h.src_addr s'
        else record { state = r'; result = ok size }
      else record { state = set_error r unexpected_frame; result = ok size }

  unfoldable pub handle_dt : Reassembler → Header → Tpdt → Handled
  unfolding handle_packet
  handle_dt r h t = elim (Dict.find h.src_addr r.fragments) [
    | none ↦ record { state = set_error r unexpected_frame; result = ok 0 }
    | some s ↦ handle_packet r h t s
  ]

  -- A frame with one of the two PGNs is of the class of that PGN; the cast of any other is undefined.
  unfoldable pub handle_frame : Reassembler → Frame → Handled
  unfolding handle_cm handle_dt
  handle_frame r frame =
      if not (frame.header.dst_addr == broadcast_address)
      then record { state = set_error r not_bcast_addr; result = ok 0 }
      else if frame.header.pgn == tp_cm_pgn
      then elim frame.payload [
        | tpcm t ↦ handle_cm r frame.header t
        | _ ↦ record { state = r; result = err fault }
      ]
      else if frame.header.pgn == tp_dt_pgn
      then elim frame.payload [
        | tpdt t ↦ handle_dt r frame.header t
        | _ ↦ record { state = r; result = err fault }
      ]
      else record { state = set_error r unexpected_frame; result = ok 0 }

-- `dequeueReassembledFrame`; on an empty queue the source reads a front that is not there.
unfoldable pub dequeue : Reassembler → Result (Reassembler × Frame)
dequeue r = elim r.reassembled [ [] ↦ err fault | f ∷ fs ↦ ok (record r { reassembled = fs }, f) ]

unfoldable pub clear : Reassembler → Reassembler
clear r = new_reassembler
