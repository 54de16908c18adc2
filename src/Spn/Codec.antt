-- ===== src/Spn/Codec.antt =====
-- SPNNumeric.cpp, SPNStatus.cpp and SPNString.cpp of J1939/SPN: how a parameter is read from the
-- bytes of a frame and written to them.
pub mod NumericBytes
pub mod StatusBits
pub mod TextBytes
use j1939_framework.Base.{
  ℕ, zero, suc, ◌+◌, ◌*◌, ◌-◌, ◌/◌, ◌%◌, ◌^◌, ◌<◌, bit_and, bit_or, Bool, true, false, not, ◌||◌,
  String, List, [], ◌∷◌, ◌++◌, Option, none, some, ltb, leb, ◌==◌, if◌then◌else◌, u8, u32, ◌<<◌,
  ◌>>◌, length, take, overwrite, overwrite_at, byte_at,
}
use j1939_framework.Common.{
  Result, ok, err, decode_exception, encode_exception, spn_size, spn_format, value_range,
  no_terminator, not_ascii, no_room, spn_number_max_bits, spn_numeric_max_byte_size, str_terminator,
}
use j1939_framework.Spn.{Spn, Numeric, Status, Text, numeric, status, text}

-- The byte buffer is `buffer + offset` and what follows it in the frame.
-- `for (i = 0; i < size; ++i) mValue |= buffer[i] << (i * 8)`
unfoldable pub numeric_loop : ℕ → ℕ → ℕ → List ℕ → ℕ
numeric_loop zero i acc buf = acc
numeric_loop (suc left) i acc buf =
    numeric_loop left (i + 1) (u32 (bit_or acc (byte_at buf i << (i * 8)))) buf

bad_size : Numeric → ℕ → Bool
bad_size n len = ltb len n.byte_size || ltb spn_numeric_max_byte_size n.byte_size

unfoldable pub decode_numeric : Numeric → List ℕ → Result Numeric
unfolding numeric_loop bad_size
decode_numeric n buf =
    if bad_size n (length buf)
    then err (decode_exception spn_size)
    else ok (record n { value = numeric_loop n.byte_size 0 0 buf })

-- `for (i = 0; i < size; ++i) buffer[i] = (mValue >> (i * 8)) & 0xFF`
unfoldable pub numeric_bytes : ℕ → ℕ → ℕ → List ℕ
numeric_bytes zero i v = []
numeric_bytes (suc left) i v = bit_and (v >> (i * 8)) 0xFF ∷ numeric_bytes left (i + 1) v

unfoldable pub encode_numeric : Numeric → List ℕ → Result (List ℕ)
unfolding numeric_bytes bad_size
encode_numeric n buf =
    if bad_size n (length buf)
    then err (encode_exception spn_size)
    else ok (overwrite (numeric_bytes n.byte_size 0 n.value) buf)

bad_format : Status → Bool
bad_format s = ltb 7 s.bit_offset || ltb 8 s.bit_size || ltb 8 (s.bit_offset + s.bit_size)

unfoldable pub decode_status : Status → List ℕ → Result Status
unfolding bad_format
decode_status s buf =
    let mask = 0xFF >> (8 - s.bit_size) in
    if bad_format s
    then err (decode_exception spn_format)
    else ok (record s { value = bit_and (byte_at buf 0 >> s.bit_offset) mask })

-- `~mask` on a byte is `255 - mask`.
unfoldable pub encode_status : Status → List ℕ → Result (List ℕ)
unfolding bad_format
encode_status s buf =
    let mask = u8 ((0xFF >> (8 - s.bit_size)) << s.bit_offset) in
    let value = u8 (s.value << s.bit_offset) in
    if bad_format s
    then err (encode_exception spn_format)
    else if bit_and value mask == value
    then ok (overwrite (bit_or (bit_and (byte_at buf 0) (255 - mask)) value ∷ []) buf)
    else err (encode_exception value_range)

-- `memchr`: the bytes in front of the terminator.
unfoldable pub before_terminator : List ℕ → Option (List ℕ)
before_terminator [] = none
before_terminator (c ∷ cs) =
    let rest = before_terminator cs in
    if c == str_terminator then some [] else elim rest [ none ↦ none | some s ↦ some (c ∷ s) ]

unfoldable pub is_ascii : List ℕ → Bool
is_ascii [] = true
is_ascii (c ∷ cs) = if bit_and c 0x80 == 0 then is_ascii cs else false

-- The new offsets of the strings behind it are the frame's business (`Generic.decode_data`).
unfoldable pub decode_text : Text → List ℕ → Result Text
unfolding before_terminator is_ascii
decode_text t buf = elim (before_terminator buf) [
  | none ↦ err (decode_exception no_terminator)
  | some s ↦ if is_ascii s then ok (record t { value = s }) else err (decode_exception not_ascii)
]

-- `strcpy` copies up to the first 0, and a 0 behind it.
unfoldable pub c_string : List ℕ → List ℕ
c_string [] = []
c_string (c ∷ cs) = if c == 0 then [] else c ∷ c_string cs

unfoldable pub encode_text : Text → List ℕ → Result (List ℕ)
unfolding c_string
encode_text t buf =
    if leb (length buf) (length t.value)
    then err (encode_exception no_room)
    else ok (
        overwrite_at (length t.value) (str_terminator ∷ [])
          (overwrite (c_string t.value ++ 0 ∷ []) buf))

-- `setValue` of a string, without the frame's part.
unfoldable pub set_text : Text → List ℕ → Text
unfolding is_ascii
set_text t s = if is_ascii s then record t { value = s } else t

unfoldable pub set_status : Status → ℕ → Status × Bool
set_status s v = if ltb v (1 << s.bit_size) then (record s { value = v }, true) else (s, false)

-- The dispatch on the class.
unfoldable pub decode : Spn → List ℕ → Result Spn
unfolding decode_numeric decode_status decode_text
decode (numeric n) buf = elim (decode_numeric n buf) [ ok m ↦ ok (numeric m) | err e ↦ err e ]
decode (status s) buf = elim (decode_status s buf) [ ok m ↦ ok (status m) | err e ↦ err e ]
decode (text t) buf = elim (decode_text t buf) [ ok m ↦ ok (text m) | err e ↦ err e ]

unfoldable pub encode : Spn → List ℕ → Result (List ℕ)
unfolding encode_numeric encode_status encode_text
encode (numeric n) buf = encode_numeric n buf
encode (status s) buf = encode_status s buf
encode (text t) buf = encode_text t buf
