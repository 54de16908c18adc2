-- ===== src/Bam/Sessions.antt =====
-- BamReassembler::handleFrame over the frames of one message.
use j1939_framework.Base.{
  ℕ, zero, suc, ◌+◌, ◌*◌, ◌≤◌, ◌<◌, ◌≡◌, ◌∙◌, refl, ap, arith, inl, inr, Bool-cases, List, some, [],
  ◌∷◌, ◌++◌, if◌then◌else◌, length, drop, ◌==◌, u8, length-drop,
}
use mathlib.Core.List.{append_assoc}
use j1939_framework.Base.Dict
use j1939_framework.Common.{broadcast_address}
use j1939_framework.Header.{Header, set_priority, set_dst_addr}
use j1939_framework.Transport.Tpdt.{tp_dt_pgn, packet}
use j1939_framework.Frame.{Frame, tpdt}
use j1939_framework.Factory.{Factory}
use j1939_framework.Bam.Fragmenter.{addressed_like, CmFrame, DtFrame, data_frame}
use j1939_framework.Bam.Reassembler.{BamFragments, Reassembler, get_last_sq, handle_frame, complete}
use j1939_framework.Bam.Packets.{packets}

abbrev pub data_as_frame : DtFrame → Frame
data_as_frame d = record { header = d.header; payload = tpdt d.body }

-- The session `s` of the source address `src`, as the only change.
abbrev pub stored : Reassembler → ℕ → BamFragments → Reassembler
stored r src s = record r { fragments = Dict.insert src s r.fragments }

-- The state after a list of data frames; an exception ends the handling of its own frame only.
unfoldable pub handle_all : Factory → (ℕ → List ℕ) → Reassembler → List DtFrame → Reassembler
handle_all factory heap r [] = r
handle_all factory heap r (d ∷ ds) =
    handle_all factory heap (handle_frame factory heap r (data_as_frame d)).state ds

data_frame_header :
    (frame : Header) (sq : ℕ) (rest : List ℕ)
    → ((data_frame frame sq rest).header.src_addr ≡ frame.src_addr)
      × ((data_frame frame sq rest).header.dst_addr ≡ broadcast_address)
      × ((data_frame frame sq rest).header.pgn ≡ tp_dt_pgn)
      × ((data_frame frame sq rest).body.sq ≡ u8 sq)
unfolding data_frame addressed_like packet set_dst_addr set_priority
data_frame_header frame sq rest = (refl, refl, refl, refl)

last_of : (ds : List DtFrame) (d : DtFrame) → get_last_sq (ds ++ d ∷ []) ≡ d.body.sq
unfolding get_last_sq
last_of [] d = refl
last_of (a ∷ []) d = refl
last_of (a ∷ b ∷ ds) d = last_of (b ∷ ds) d

insert-insert :
    (k : ℕ) (s t : BamFragments) (m : List (ℕ × BamFragments))
    → Dict.insert k t (Dict.insert k s m) ≡ Dict.insert k t m
unfolding Dict.insert
insert-insert k s t [] = ground arith
insert-insert k s t ((j, u) ∷ m) = ground (arith, insert-insert k s t m)

-- The number of packets, seven bytes each.
pub length-packets :
    (fuel : ℕ) (frame : Header) (sq : ℕ) (rest : List ℕ)
    → length rest ≤ fuel
    → (length rest ≤ length (packets fuel frame sq rest) * 7)
      × (length (packets fuel frame sq rest) * 7 ≤ length rest + 6)
unfolding packets
length-packets zero frame sq rest enough = omega arith
length-packets (suc fuel) frame sq [] enough = omega arith
length-packets (suc fuel) frame sq (b ∷ rest) enough =
    let left = length-drop 7 (b ∷ rest) in
    let ih = length-packets fuel frame (sq + 1) (drop 7 (b ∷ rest)) (omega arith) in omega arith

length-zero : (ds : List DtFrame) → length ds ≡ 0 → ds ≡ []
length-zero [] e = refl
length-zero (d ∷ ds) e = absurd (omega arith)

module _ (factory : Factory) (heap : ℕ → List ℕ) where
  -- Storing twice is storing once, and it does not matter how the packets were put together.
  again :
      (r : Reassembler) (src : ℕ) (cm : CmFrame) (s' : BamFragments) (xs ys : List DtFrame)
      → xs ≡ ys
      → let full : BamFragments = record { cm = cm; dts = xs } in
        let same : BamFragments = record { cm = cm; dts = ys } in
        (complete factory heap (stored (stored r src s') src full) src full).state
        ≡ (complete factory heap (stored r src same) src same).state
  again r src cm s' xs ys e =
      rw e (rw (insert-insert src s' (record { cm = cm; dts = ys }) r.fragments) refl)

  -- The next data frame of a session that is not complete yet.
  next_packet :
      (r : Reassembler) (s : BamFragments) (d : DtFrame) (src : ℕ)
      → d.header.src_addr ≡ src
      → d.header.dst_addr ≡ broadcast_address
      → d.header.pgn ≡ tp_dt_pgn
      → Dict.find src r.fragments ≡ some s
      → get_last_sq s.dts + 1 ≡ d.body.sq
      → d.body.sq ≤ s.cm.body.total_packets
      → let s' : BamFragments = record s { dts = s.dts ++ d ∷ [] } in
        (handle_frame factory heap r (data_as_frame d)).state ≡ (
          if d.body.sq == s.cm.body.total_packets
          then (complete factory heap (stored r src s') src s').state
          else stored r src s')
  unfolding handle_frame
  next_packet r s d src e_src e_dst e_pgn found in_order in_range = ground arith

  after_next :
      (r r' : Reassembler) (d : DtFrame) (ds : List DtFrame)
      → (handle_frame factory heap r (data_as_frame d)).state ≡ r'
      → handle_all factory heap r (d ∷ ds) ≡ handle_all factory heap r' ds
  unfolding handle_all
  after_next r r' d ds e = ap (λ (x : Reassembler). handle_all factory heap x ds) e

  after_last :
      (r r' : Reassembler) (d : DtFrame) (ds : List DtFrame)
      → ds ≡ []
      → (handle_frame factory heap r (data_as_frame d)).state ≡ r'
      → handle_all factory heap r (d ∷ ds) ≡ r'
  unfolding handle_all
  after_last r r' d ds nothing e = rw nothing e

  -- The data frames that are still missing from a session, in their order, complete it.
  pub handle_all-packets :
      (fuel : ℕ) (frame : Header) (sq : ℕ) (rest : List ℕ) (r : Reassembler) (s : BamFragments)
      → length rest ≤ fuel
      → 1 ≤ length rest
      → Dict.find frame.src_addr r.fragments ≡ some s
      → get_last_sq s.dts ≡ sq
      → sq + length (packets fuel frame sq rest) ≡ s.cm.body.total_packets
      → s.cm.body.total_packets < 256
      → let full : BamFragments = record s { dts = s.dts ++ packets fuel frame sq rest } in
        handle_all factory heap r (packets fuel frame sq rest)
        ≡ (complete factory heap (stored r frame.src_addr full) frame.src_addr full).state
  unfolding packets
  handle_all-packets zero frame sq rest r s enough some_left found last count fits =
      absurd (omega arith)
  handle_all-packets (suc fuel) frame sq [] r s enough some_left found last count fits =
      absurd (omega arith)
  handle_all-packets (suc fuel) frame sq (b ∷ rest) r s enough some_left found last count fits =
      let src = frame.src_addr in
      let d = data_frame frame (sq + 1) (b ∷ rest) in
      let rest' = drop 7 (b ∷ rest) in
      let ps = packets fuel frame (sq + 1) rest' in
      let s' : BamFragments = record s { dts = s.dts ++ d ∷ [] } in
      let left = length-drop 7 (b ∷ rest) in
      let h = data_frame_header frame (sq + 1) (b ∷ rest) in
      let len = length-packets fuel frame (sq + 1) rest' (omega (arith, left)) in
      let number : d.body.sq ≡ sq + 1 = omega (arith, h.3) in
      let step = next_packet r s d src h.0 h.1 h.2 found (omega arith) (omega arith) in
      elim (Bool-cases (d.body.sq == s.cm.body.total_packets)) [
        | inl e ↦
            let done = (complete factory heap (stored r src s') src s').state in
            let nothing = length-zero ps (ground arith) in
            after_last r done d ps nothing (step ∙ rw e refl) ∙ rw nothing refl
        | inr e ↦
            let more =
              handle_all-packets fuel frame (sq + 1) rest' (stored r src s') s'
                (omega (arith, left)) (ground (arith, left))
                (ground (arith, Dict.find-insert src src s' r.fragments)) (last_of s.dts d ∙ number)
                (omega (arith, count)) fits in
            after_next r (stored r src s') d ps (step ∙ rw e refl)
            ∙ more
            ∙ again r src s.cm s' ((s.dts ++ d ∷ []) ++ ps) (s.dts ++ d ∷ ps)
                (append_assoc s.dts (d ∷ []) ps)
      ]
