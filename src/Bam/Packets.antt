-- ===== src/Bam/Packets.antt =====
-- The data frames of a message as a list, and the message that they give when they are joined.
use j1939_framework.Base.{
  ℕ, zero, suc, ◌+◌, ◌-◌, ◌*◌, ◌≤◌, ◌<◌, ◌≡◌, ◌∙◌, refl, sym, ap, arith, inl, inr, Bool-cases, List,
  [], ◌∷◌, ◌++◌, if◌then◌else◌, length, take, drop, overwrite, overwrite_at, ltb, leb, u8,
  take-append-drop, take_all, length-take, length-drop, length-overwrite,
}
use mathlib.Core.Path.{subst}
use mathlib.Core.List.{append-nil, append_assoc}
use native.Mathlib.Numerals.{add-one}
use native.Mathlib.Nat.{zero-add, suc-add}
use j1939_framework.Base.Dict
use j1939_framework.Common.{tp_dt_packet_size}
use j1939_framework.Header.{Header}
use j1939_framework.Transport.Tpdt.{packet}
use j1939_framework.Bam.Fragmenter.{DtFrame, data_frame, cut, get_data_frames}
use j1939_framework.Bam.Reassembler.{join_from}

-- The packets behind the first `sq`, over what is left of the data.
unfoldable pub packets : ℕ → Header → ℕ → List ℕ → List DtFrame
packets zero frame sq rest = []
packets (suc fuel) frame sq [] = []
packets (suc fuel) frame sq (b ∷ rest) =
    data_frame frame (sq + 1) (b ∷ rest)
    ∷ packets fuel frame (sq + 1) (drop tp_dt_packet_size (b ∷ rest))

-- All keys are at most `k`.
abbrev KeysTo : ℕ → List (ℕ × DtFrame) → Type 0
KeysTo k [] = Unit {0}
KeysTo k ((j, d) ∷ m) = (j ≤ k) × KeysTo k m

insert_last :
    (k : ℕ) (d : DtFrame) (m : List (ℕ × DtFrame))
    → KeysTo k m
    → (Dict.insert (suc k) d m ≡ m ++ (suc k, d) ∷ []) × KeysTo (suc k) (Dict.insert (suc k) d m)
unfolding Dict.insert
insert_last k d [] h = (refl, omega arith)
insert_last k d ((j, e) ∷ m) h = ground (arith, insert_last k d m h.1)

get_data_frames-append :
    (m n : List (ℕ × DtFrame)) → get_data_frames (m ++ n) ≡ get_data_frames m ++ get_data_frames n
unfolding get_data_frames
get_data_frames-append [] n = refl
get_data_frames-append ((k, d) ∷ m) n = ap (◌∷◌ d) (get_data_frames-append m n)

pub length-get_data_frames : (m : List (ℕ × DtFrame)) → length (get_data_frames m) ≡ length m
unfolding get_data_frames
length-get_data_frames [] = refl
length-get_data_frames ((k, d) ∷ m) = ap suc (length-get_data_frames m)

-- As long as the sequence numbers fit a byte, the map holds the packets in their order.
pub cut-packets :
    (fuel : ℕ) (frame : Header) (sq : ℕ) (rest : List ℕ) (m : List (ℕ × DtFrame))
    → KeysTo sq m
    → length rest + sq * 7 ≤ 1785
    → get_data_frames (cut fuel frame sq rest m) ≡ get_data_frames m ++ packets fuel frame sq rest
unfolding cut packets
cut-packets zero frame sq rest m h small = sym (append-nil _)
cut-packets (suc fuel) frame sq [] m h small = sym (append-nil _)
cut-packets (suc fuel) frame sq (b ∷ rest) m h small =
    let d = data_frame frame (sq + 1) (b ∷ rest) in
    let rest' = drop tp_dt_packet_size (b ∷ rest) in
    let more = packets fuel frame (sq + 1) rest' in
    let key : u8 (sq + 1) ≡ suc sq = omega arith in
    let last = insert_last sq d m h in
    let keys = subst (λ (n : ℕ). KeysTo n (Dict.insert (suc sq) d m)) (sym (add-one sq)) last.1 in
    let ih =
      cut-packets fuel frame (sq + 1) rest' (Dict.insert (suc sq) d m) keys
        (omega (arith, length-drop 7 (b ∷ rest))) in
    rw key (
      ih
      ∙ ap (λ (x : List (ℕ × DtFrame)). get_data_frames x ++ more) last.0
      ∙ ap (λ (x : List DtFrame). x ++ more) (get_data_frames-append m ((suc sq, d) ∷ []))
      ∙ unfold get_data_frames in append_assoc (get_data_frames m) (d ∷ []) more)

-- A packet carries the first seven bytes of what is left.
packet_bytes :
    (frame : Header) (sq : ℕ) (rest : List ℕ)
    → take (if ltb (length rest) 7 then length rest else 7) (data_frame frame sq rest).body.bytes
      ≡ take 7 rest
unfolding data_frame packet
packet_bytes frame sq [] = refl
packet_bytes frame sq (a ∷ []) = refl
packet_bytes frame sq (a ∷ b ∷ []) = refl
packet_bytes frame sq (a ∷ b ∷ c ∷ []) = refl
packet_bytes frame sq (a ∷ b ∷ c ∷ d ∷ []) = refl
packet_bytes frame sq (a ∷ b ∷ c ∷ d ∷ e ∷ []) = refl
packet_bytes frame sq (a ∷ b ∷ c ∷ d ∷ e ∷ f ∷ []) = refl
packet_bytes frame sq (a ∷ b ∷ c ∷ d ∷ e ∷ f ∷ g ∷ rest) = ground arith

take-overwrite :
    (xs block : List ℕ) → length xs ≤ length block → take (length xs) (overwrite xs block) ≡ xs
take-overwrite [] block h = refl
take-overwrite (x ∷ xs) [] h = absurd (omega arith)
take-overwrite (x ∷ xs) (b ∷ block) h = ap (◌∷◌ x) (take-overwrite xs block (omega arith))

length-overwrite_at : (i : ℕ) (xs block : List ℕ) → length (overwrite_at i xs block) ≡ length block
length-overwrite_at zero xs block = length-overwrite xs block
length-overwrite_at (suc i) xs [] = refl
length-overwrite_at (suc i) xs (b ∷ block) = ap suc (length-overwrite_at i xs block)

-- The block in front of the end of what was written.
take-overwrite_at :
    (i : ℕ) (xs block : List ℕ)
    → i + length xs ≤ length block
    → take (i + length xs) (overwrite_at i xs block) ≡ take i block ++ xs
take-overwrite_at zero xs block h = rw zero-add (take-overwrite xs block (omega arith))
take-overwrite_at (suc i) [] [] h = absurd (omega arith)
take-overwrite_at (suc i) (x ∷ xs) [] h = absurd (omega arith)
take-overwrite_at (suc i) xs (b ∷ block) h =
    rw suc-add (ap (◌∷◌ b) (take-overwrite_at i xs block (omega arith)))

-- The bytes that one round writes, at the end of the message and in front of it.
last_part :
    (frame : Header) (sq left : ℕ) (rest : List ℕ)
    → length rest ≡ left
    → take (if ltb left 7 then left else 7) (data_frame frame sq rest).body.bytes ≡ take 7 rest
last_part frame sq left rest e =
    ap (λ (n : ℕ). take (if ltb n 7 then n else 7) (data_frame frame sq rest).body.bytes) (sym e)
    ∙ packet_bytes frame sq rest

-- Writing the next seven bytes, and then all that follow them.
grow :
    (offset : ℕ) (rest block : List ℕ)
    → offset + length rest ≡ length block
    → 7 ≤ length rest
    → take (offset + 7) (overwrite_at offset (take 7 rest) block) ++ drop 7 rest
      ≡ take offset block ++ rest
grow offset rest block e h =
    let n : length (take 7 rest) ≡ 7 = omega (arith, length-take 7 rest) in
    ap (λ (x : ℕ). take (offset + x) (overwrite_at offset (take 7 rest) block) ++ drop 7 rest)
      (sym n)
    ∙ ap (λ (x : List ℕ). x ++ drop 7 rest)
        (take-overwrite_at offset (take 7 rest) block (omega arith))
    ∙ append_assoc (take offset block) (take 7 rest) (drop 7 rest)
    ∙ ap (λ (x : List ℕ). take offset block ++ x) (take-append-drop 7 rest)

finish :
    (offset : ℕ) (rest block : List ℕ)
    → offset + length rest ≡ length block
    → length rest ≤ 7
    → overwrite_at offset (take 7 rest) block ≡ take offset block ++ rest
finish offset rest block e h = rw (take_all 7 rest h) (
    sym (
      take_all (offset + length rest) (overwrite_at offset rest block)
        (omega (arith, length-overwrite_at offset rest block)))
    ∙ take-overwrite_at offset rest block (omega arith))

-- Joining packets behind `offset` keeps what is in front of it, and appends the data.
pub join_from-packets :
    (fuel size offset : ℕ) (frame : Header) (sq : ℕ) (rest block : List ℕ)
    → length rest ≤ fuel
    → 1 ≤ length rest
    → offset + length rest ≡ size
    → length block ≡ size
    → join_from size offset (packets fuel frame sq rest) block ≡ take offset block ++ rest
unfolding join_from packets
join_from-packets zero size offset frame sq rest block enough some_left ends full =
    absurd (omega arith)
join_from-packets (suc fuel) size offset frame sq [] block enough some_left ends full =
    absurd (omega arith)
join_from-packets (suc fuel) size offset frame sq (b ∷ rest) block enough some_left ends full =
    let all : List ℕ = b ∷ rest in
    let part = last_part frame (sq + 1) (size - offset) all (omega arith) in
    let block' = overwrite_at offset (take 7 all) block in
    let more = λ (h : 7 < length all).
      join_from-packets fuel size (offset + 7) frame (sq + 1) (drop 7 all) block'
        (omega (arith, length-drop 7 all)) (omega (arith, length-drop 7 all))
        (omega (arith, length-drop 7 all))
        (omega (arith, length-overwrite_at offset (take 7 all) block)) in
    rw part (elim (Bool-cases (leb size (offset + 7))) [
      | inl last ↦ rw last (finish offset all block (omega arith) (ground arith))
      | inr later ↦
          rw later (more (ground arith) ∙ grow offset all block (omega arith) (ground arith))
    ])
