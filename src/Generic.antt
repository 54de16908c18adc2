-- ===== src/Generic.antt =====
-- J1939/GenericFrame.cpp and J1939/include/GenericFrame.h: a payload made of parameters (SPNs), kept
-- in a map by number, which is also the order in which they are written and read.
pub mod Offsets
pub mod Registry
pub mod Compare
use j1939_framework.Base.{
  ℕ, zero, suc, ◌+◌, ◌*◌, ◌-◌, ◌/◌, ◌%◌, ◌^◌, ◌≤◌, ◌<◌, ◌≡◌, Bool, true, false, not, ◌&&◌, ◌||◌,
  List, [], ◌∷◌, ◌++◌, map, ◌==◌, Option, none, some, length, take, drop, overwrite, overwrite_at,
  byte_at, ltb, leb, if◌then◌else◌,
}
use j1939_framework.Base.Dict
use j1939_framework.Common.{
  Result, ok, err, ◌>>=◌, fault, decode_exception, encode_exception, spn_offset,
}
use j1939_framework.Spn.{
  Spn, SpnType, spn_numeric, spn_status, spn_string, get_type, get_spec, get_spn_number, get_offset,
  set_offset, get_byte_size, copy_value,
}
use j1939_framework.Spn.Codec.{decode, encode}

abbrev pub Spns : Type 0
Spns = List (ℕ × Spn)

-- `specified` is `mLength`.
pub record Generic : Type 0 where
  pub specified : ℕ
  pub spns : Spns

abbrev pub empty : Generic
empty = record { specified = 0; spns = [] }

unfoldable pub is_string : Spn → Bool
unfolding get_type
is_string s = elim (get_type s) [ spn_string ↦ true | _ ↦ false ]

-- `recalculateStringOffsets`: from the second on, each is placed behind the one before it.
unfoldable pub place_from : ℕ → Spns → Spns
place_from o [] = []
place_from o ((k, s) ∷ m) =
    let s' = set_offset s o in (k, s') ∷ place_from (get_offset s' + get_byte_size s') m

unfoldable pub recalculate_string_offsets : Spns → Spns
unfolding place_from
recalculate_string_offsets [] = []
recalculate_string_offsets ((k, s) ∷ m) = (k, s) ∷ place_from (get_offset s + get_byte_size s) m

-- One round of `decodeData`, at the parameter with the number `k`. A string that was decoded has the
-- offsets of all strings calculated anew.
unfoldable pub decode_one : Spns → List ℕ → ℕ → ℕ → Result Spns
unfolding is_string recalculate_string_offsets
decode_one m buf len k = elim (Dict.find k m) [
  | none ↦ ok m
  | some s ↦ if leb len (get_offset s) then err (decode_exception spn_offset) else do
    s' ← decode s (take (len - get_offset s) (drop (get_offset s) buf))
    let m' = Dict.insert k s' m
    ok (if is_string s' then recalculate_string_offsets m' else m')
]

unfoldable pub decode_keys : List ℕ → Spns → List ℕ → ℕ → Result Spns
unfolding decode_one
decode_keys [] m buf len = ok m
decode_keys (k ∷ ks) m buf len = elim (decode_one m buf len k) [
  | ok m' ↦ decode_keys ks m' buf len
  | err e ↦ err e
]

unfoldable pub spn_numbers : Spns → List ℕ
spn_numbers [] = []
spn_numbers ((k, s) ∷ m) = k ∷ spn_numbers m

-- `len` is the length that the caller passes; the buffer has at least as many bytes.
unfoldable pub decode_data : Generic → List ℕ → ℕ → Result Generic
unfolding decode_keys spn_numbers
decode_data g buf len = elim (decode_keys (spn_numbers g.spns) g.spns buf len) [
  | ok m ↦ ok (record g { spns = m })
  | err e ↦ err e
]

-- `encodeData`: each parameter writes at its offset into what the ones before it left.
unfoldable pub encode_spns : Spns → List ℕ → ℕ → Result (List ℕ)
encode_spns [] buf len = ok buf
encode_spns ((k, s) ∷ m) buf len =
    if leb len (get_offset s)
    then err (encode_exception spn_offset)
    else elim (encode s (take (len - get_offset s) (drop (get_offset s) buf))) [
      | ok part ↦ encode_spns m (overwrite_at (get_offset s) part buf) len
      | err e ↦ err e
    ]

unfoldable pub encode_data : Generic → List ℕ → ℕ → Result (List ℕ)
unfolding encode_spns
encode_data g buf len = encode_spns g.spns buf len

-- The loop of `getDataLength`, from the last parameter to the first: the greatest offset, and the
-- size of the parameter that set it last.
unfoldable pub last_place : Spns → record { offset : ℕ; size : ℕ }
last_place [] = record { offset = 0; size = 1 }
last_place ((k, s) ∷ m) =
    let later = last_place m in
    if ltb (get_offset s) later.offset
    then later
    else record { offset = get_offset s; size = get_byte_size s }

unfoldable pub data_length : Generic → ℕ
unfolding last_place
data_length g =
    let place = last_place g.spns in
    if ltb (place.offset + place.size) g.specified then g.specified else place.offset + place.size

-- All parameters of a frame are strings, or none is.
unfoldable pub same_kind : Spns → Spn → Bool
unfolding is_string
same_kind [] spn = true
same_kind ((k, s) ∷ m) spn = if is_string s then is_string spn else not (is_string spn)

-- `none` is the failed assertion, which ends the process.
unfoldable pub register_spn : Generic → Spn → Option Generic
unfolding same_kind recalculate_string_offsets
register_spn g spn =
    let number = get_spn_number spn in
    let added = if Dict.has number g.spns then g.spns else Dict.insert number spn g.spns in
    if same_kind g.spns spn
    then some
        (record g { spns = if is_string spn then recalculate_string_offsets added else added })
    else none

unfoldable pub get_spn : Generic → ℕ → Option Spn
get_spn g number = Dict.find number g.spns

unfoldable pub has_spn : Generic → ℕ → Bool
has_spn g number = Dict.has number g.spns

unfoldable pub delete_spn : Generic → ℕ → Generic × Bool
delete_spn g number =
    if Dict.has number g.spns
    then (record g { spns = Dict.erase number g.spns }, true)
    else (g, false)

-- `memcmp` of two runs of bytes.
unfoldable pub same_bytes : ℕ → List ℕ → List ℕ → Bool
same_bytes zero xs ys = true
same_bytes (suc n) (x ∷ xs) (y ∷ ys) = if x == y then same_bytes n xs ys else false
same_bytes (suc n) [] [] = true
same_bytes (suc n) [] (y ∷ ys) = false
same_bytes (suc n) (x ∷ xs) [] = false

-- `compare`: the numbers of the parameters whose bytes differ. The source compares bytes as soon as
-- one of the two texts is long enough; the other is then read up to its end and the zero that
-- `c_str` puts there, and a read behind that is a fault.
unfoldable pub compare_spns : Spns → List ℕ → List ℕ → Result (List ℕ)
unfolding same_bytes
compare_spns [] new old = ok []
compare_spns ((k, s) ∷ m) new old =
    let max_length = get_offset s + get_byte_size s in
    let rest = compare_spns m new old in
    if leb max_length (length new) || leb max_length (length old)
    then if leb max_length (suc (length new)) && leb max_length (suc (length old))
      then if same_bytes (get_byte_size s) (drop (get_offset s) (new ++ 0 ∷ []))
          (drop (get_offset s) (old ++ 0 ∷ []))
        then rest
        else elim rest [ ok ks ↦ ok (k ∷ ks) | err e ↦ err e ]
      else err fault
    else elim rest [ ok ks ↦ ok (k ∷ ks) | err e ↦ err e ]

unfoldable pub compare : Generic → List ℕ → List ℕ → Result (List ℕ)
unfolding compare_spns
compare g new old = compare_spns g.spns new old

-- `copy`: values are copied in step, up to the first pair that does not share its specification.
unfoldable pub copy_spns : Spns → Spns → Spns
copy_spns [] other = []
copy_spns (x ∷ m) [] = x ∷ m
copy_spns ((k, s) ∷ m) ((j, o) ∷ other) =
    if (get_spec o).spec_id == (get_spec s).spec_id
    then (k, copy_value s o) ∷ copy_spns m other
    else (k, s) ∷ m

unfoldable pub copy : Generic → Generic → Generic
unfolding copy_spns
copy g other = record g { spns = copy_spns g.spns other.spns }
