-- ===== src/Bam/Fragmenter.antt =====
-- J1939/Transport/BAM/BamFragmenter.cpp: a frame longer than eight bytes becomes a connection
-- management frame and numbered data frames of seven bytes.
use j1939_framework.Base.{
  ℕ, zero, suc, ◌+◌, Bool, true, false, List, [], ◌∷◌, if◌then◌else◌, length, drop, ltb, leb, u8,
  u16,
}
use j1939_framework.Base.Dict
use j1939_framework.Common.{Result, ok, ◌>>=◌, broadcast_address, max_size, tp_dt_packet_size}
use j1939_framework.Header.{Header, set_priority, set_src_addr, set_dst_addr}
use j1939_framework.Transport.Tpcm.{Tpcm, ctrl_bam, cleared}
use j1939_framework.Transport.Tpdt.{Tpdt, packet}
use j1939_framework.Frame.{Frame, encode, data_length, new_tpcm, new_tpdt}

pub record CmFrame : Type 0 where
  pub header : Header
  pub body : Tpcm

pub record DtFrame : Type 0 where
  pub header : Header
  pub body : Tpdt

pub record Fragmenter : Type 0 where
  pub cm : CmFrame
  pub dts : List (ℕ × DtFrame)

abbrev pub new_fragmenter : Fragmenter
new_fragmenter = record { cm = record { header = new_tpcm.header; body = cleared }; dts = [] }

-- `TPCMFrame::clear`
unfoldable pub clear_cm : CmFrame → CmFrame
clear_cm c =
    let prioritised = (set_priority c.header 0).0 in
    record {
      header = (set_dst_addr (set_src_addr prioritised 0) broadcast_address).0;
      body = cleared;
    }

unfoldable pub clear : Fragmenter → Fragmenter
clear f = record { cm = clear_cm f.cm; dts = [] }

-- Priority and source of `frame`, and the broadcast address.
unfoldable pub addressed_like : Header → Header → Header
addressed_like frame h =
    let prioritised = (set_priority h frame.priority).0 in
    (set_dst_addr (set_src_addr prioritised frame.src_addr) broadcast_address).0

-- The data frame with the sequence number `sq`, over what is left of the data.
unfoldable pub data_frame : Header → ℕ → List ℕ → DtFrame
data_frame frame sq rest =
    let size = if ltb tp_dt_packet_size (length rest) then tp_dt_packet_size else length rest in
    let body = packet sq rest size in
    record { header = addressed_like frame (new_tpdt body).header; body = body }

-- The loop over the data; `sq` is the number of packets so far, and the map is keyed by a byte.
-- There are at most as many rounds as bytes.
unfoldable pub cut : ℕ → Header → ℕ → List ℕ → List (ℕ × DtFrame) → List (ℕ × DtFrame)
cut zero frame sq rest m = m
cut (suc fuel) frame sq [] m = m
cut (suc fuel) frame sq (b ∷ rest) m =
    cut fuel frame (sq + 1) (drop tp_dt_packet_size (b ∷ rest))
      (Dict.insert (u8 (sq + 1)) (data_frame frame (sq + 1) (b ∷ rest)) m)

unfoldable pub fragment : Fragmenter → Frame → Result (Fragmenter × Bool)
unfolding clear
fragment f frame =
    let size = data_length frame.payload in
    let cleaned = clear f in
    if leb size max_size then ok (f, false) else do
      encoded ← encode frame size
      let dts = cut size frame.header 0 encoded.buffer []
      ok (
        record {
          cm = record {
            header = addressed_like frame.header cleaned.cm.header;
            body = record cleared {
              ctrl_type = ctrl_bam;
              data_pgn = frame.header.pgn;
              total_packets = u8 (length dts);
              total_msg_size = u16 size;
            };
          };
          dts = dts;
        },
        true,
      )

unfoldable pub get_data_frames : List (ℕ × DtFrame) → List DtFrame
get_data_frames [] = []
get_data_frames ((k, d) ∷ m) = d ∷ get_data_frames m
