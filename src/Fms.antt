-- ===== src/Fms.antt =====
-- J1939/FMS/TellTale/FMS1Frame.cpp and TellTale.cpp with their headers: the fifteen tell tales of one
-- of four blocks, two to a byte.
pub mod Block
use j1939_framework.Base.{
  ℕ, zero, suc, ◌+◌, ◌*◌, ◌-◌, ◌/◌, ◌%◌, ◌^◌, ◌≤◌, ◌<◌, bit_and, bit_or, Bool, true, false, not,
  ◌||◌, List, [], ◌∷◌, ◌++◌, ◌==◌, Option, none, some, length, take, drop, overwrite, overwrite_at,
  byte_at, ltb, leb, if◌then◌else◌, u8, ◌<<◌, ◌>>◌, replicate,
}
use j1939_framework.Base.Dict
use j1939_framework.Common.{
  Result, ok, err, ◌>>=◌, out_of_range, decode_exception, encode_exception, bad_length,
  block_id_range, tts_count, tts_number,
}

pub record TellTale : Type 0 where
  pub number : ℕ
  pub tts_status : ℕ

abbrev pub status_not_available : ℕ
status_not_available = 7

abbrev pub tts_mask : ℕ
tts_mask = 0x7

abbrev pub block_id_mask : ℕ
block_id_mask = 0xF

abbrev pub tts_high_part_shift : ℕ
tts_high_part_shift = 4

abbrev pub ttss_per_block : ℕ
ttss_per_block = 15

abbrev pub tts_encoding_mask : ℕ
tts_encoding_mask = 0x8

abbrev pub number_of_blocks : ℕ
number_of_blocks = 4

abbrev pub fms1_frame_length : ℕ
fms1_frame_length = 8

abbrev pub fms1_pgn : ℕ
fms1_pgn = 0xFD7D

abbrev pub Ttss : Type 0
Ttss = List (ℕ × TellTale)

pub record Fms1 : Type 0 where
  pub block_id : ℕ
  pub ttss : Ttss

abbrev tell_tale : ℕ → ℕ → TellTale
tell_tale n s = record { number = n; tts_status = s }

-- `FMS1Frame()`: no block yet.
abbrev pub no_block : Fms1
no_block = record { block_id = number_of_blocks; ttss = [] }

-- The loop of `FMS1Frame(blockID)`, with the rounds that are left.
unfoldable pub unavailable : ℕ → ℕ → Ttss → Ttss
unavailable zero i m = m
unavailable (suc left) i m =
    unavailable left (i + 1) (Dict.insert i (tell_tale i status_not_available) m)

-- `none` is the failed assertion, which ends the process.
unfoldable pub construct : ℕ → Option Fms1
unfolding unavailable
construct block =
    if ltb block number_of_blocks
    then some (record {
      block_id = block;
      ttss = unavailable ttss_per_block (block * ttss_per_block + 1) [];
    })
    else none

-- The loop of `decodeData` over the bytes from `i` on.
unfoldable pub decode_bytes : ℕ → ℕ → ℕ → List ℕ → Ttss → Ttss
decode_bytes zero i block buf m = m
decode_bytes (suc left) i block buf m =
    let low = u8 (ttss_per_block * block + 2 * i) in
    let high = u8 (ttss_per_block * block + 2 * i + 1) in
    let low_status = bit_and (byte_at buf i) tts_mask in
    let high_status = bit_and (byte_at buf i >> tts_high_part_shift) tts_mask in
    let with_low = Dict.insert low (tell_tale low low_status) m in
    decode_bytes left (i + 1) block buf (Dict.insert high (tell_tale high high_status) with_low)

unfoldable pub decode_data : Fms1 → List ℕ → Result Fms1
decode_data f buf =
    let block = bit_and (byte_at buf 0) block_id_mask in
    let kept = if f.block_id == block then f.ttss else [] in
    let first = u8 (ttss_per_block * block + 1) in
    let first_status = bit_and (byte_at buf 0 >> tts_high_part_shift) tts_mask in
    if not (length buf == fms1_frame_length)
    then err (decode_exception bad_length)
    else if leb number_of_blocks block
    then err (decode_exception block_id_range)
    else ok (record {
      block_id = block;
      ttss = decode_bytes 7 1 block buf (Dict.insert first (tell_tale first first_status) kept);
    })

-- `mTTSs.at(number).getStatus()`
unfoldable pub status_at : Ttss → ℕ → Result ℕ
status_at m n = elim (Dict.find n m) [ none ↦ err out_of_range | some t ↦ ok t.tts_status ]

-- The loop of `encodeData` over the bytes from `i` on.
unfoldable pub encode_bytes : ℕ → ℕ → ℕ → Ttss → Result (List ℕ)
unfolding status_at
encode_bytes zero i block m = ok []
encode_bytes (suc left) i block m =
    let rest = encode_bytes left (i + 1) block m in
    do
      low ← status_at m (u8 (ttss_per_block * block + 2 * i))
      high ← status_at m (u8 (ttss_per_block * block + 2 * i + 1))
      others ← rest
      ok (
          u8 (
            bit_or (bit_or low tts_encoding_mask)
              (bit_or high tts_encoding_mask << tts_high_part_shift))
          ∷ others)

unfoldable pub first_key : Ttss → ℕ
first_key [] = 0
first_key ((k, t) ∷ m) = k

unfoldable pub last_key : Ttss → ℕ
last_key [] = 0
last_key ((k, t) ∷ []) = k
last_key ((k, t) ∷ x ∷ m) = last_key (x ∷ m)

unfoldable pub encode_data : Fms1 → List ℕ → Result (List ℕ)
unfolding encode_bytes first_key last_key status_at
encode_data f buf =
    let base = f.block_id * ttss_per_block in
    if not (length f.ttss == ttss_per_block)
    then err (encode_exception tts_count)
    else if leb (first_key f.ttss) base || ltb ((f.block_id + 1) * ttss_per_block) (last_key f.ttss)
    then err (encode_exception tts_number)
    else do
      first ← status_at f.ttss (u8 (ttss_per_block * f.block_id + 1))
      others ← encode_bytes 7 1 f.block_id f.ttss
      let head = u8 (
          bit_or (bit_and f.block_id block_id_mask)
            (bit_or first tts_encoding_mask << tts_high_part_shift))
      ok (overwrite (head ∷ others) buf)

unfoldable pub has_tts : Fms1 → ℕ → Bool
has_tts f n = Dict.has n f.ttss

unfoldable pub get_tts : Fms1 → ℕ → TellTale
get_tts f n = elim (Dict.find n f.ttss) [ some t ↦ t | none ↦ tell_tale n status_not_available ]

unfoldable pub set_tts : Fms1 → ℕ → ℕ → Fms1 × Bool
set_tts f n s =
    if Dict.has n f.ttss
    then (record f { ttss = Dict.insert n (tell_tale n s) f.ttss }, true)
    else (f, false)
