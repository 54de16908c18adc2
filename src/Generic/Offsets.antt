-- ===== src/Generic/Offsets.antt =====
-- Where the parameters of a generic frame lie: the length of the frame covers every offset, and the
-- strings of a frame follow one another.
use j1939_framework.Base.{
  ℕ, ◌+◌, ◌-◌, ◌≤◌, ◌<◌, ◌≡◌, ◌≢◌, inl, inr, refl, arith, true, List, [], ◌∷◌, take, drop,
  overwrite_at,
}
use j1939_framework.Common.{err, Result-cases, encode_exception, spn_offset}
use j1939_framework.Spn.{Spn, numeric, status, text, get_offset, set_offset, get_byte_size}
use j1939_framework.Spn.Codec.{encode, encode_numeric, encode_status, encode_text}
use j1939_framework.Generic.{
  Spns, Generic, is_string, place_from, recalculate_string_offsets, encode_spns, encode_data,
  last_place, data_length,
}

-- Every parameter takes a byte at least. A string of 255 characters reports 0 bytes.
abbrev pub IsSized : Spns → Type 0
IsSized [] = Unit {0}
IsSized ((k, s) ∷ m) = (0 < get_byte_size s) × IsSized m

-- Every parameter begins before `limit`.
abbrev pub StartsBelow : ℕ → Spns → Type 0
StartsBelow limit [] = Unit {0}
StartsBelow limit ((k, s) ∷ m) = (get_offset s < limit) × StartsBelow limit m

StartsBelow-mono : (a b : ℕ) (m : Spns) → a ≤ b → StartsBelow a m → StartsBelow b m
StartsBelow-mono a b [] h p = tt
StartsBelow-mono a b ((k, s) ∷ m) h p = (omega arith, StartsBelow-mono a b m h p.1)

last_place-StartsBelow : (m : Spns) → StartsBelow ((last_place m).offset + 1) m
unfolding last_place
last_place-StartsBelow [] = tt
last_place-StartsBelow ((k, s) ∷ m) =
    let rest = last_place-StartsBelow m in
    ground (
      arith,
      rest,
      StartsBelow-mono ((last_place m).offset + 1) ((last_place ((k, s) ∷ m)).offset + 1) m,
      StartsBelow-mono ((last_place m).offset + 1) (get_offset s + 1) m,
    )

last_place_sized : (m : Spns) → IsSized m → 0 < (last_place m).size
unfolding last_place
last_place_sized [] h = omega arith
last_place_sized ((k, s) ∷ m) h = ground (arith, last_place_sized m h.1)

-- If every parameter of a frame takes a byte at least, the length of the frame is beyond the offset of
-- each of them.
pub data_length-StartsBelow : (g : Generic) → IsSized g.spns → StartsBelow (data_length g) g.spns
unfolding data_length
data_length-StartsBelow g h =
    StartsBelow-mono ((last_place g.spns).offset + 1) (data_length g) g.spns
      (ground (arith, last_place_sized g.spns h)) (last_place-StartsBelow g.spns)

encode-ne-spn_offset : (s : Spn) (buf : List ℕ) → encode s buf ≢ err (encode_exception spn_offset)
unfolding encode encode_numeric encode_status encode_text
encode-ne-spn_offset (numeric n) buf = λ e. ground arith
encode-ne-spn_offset (status t) buf = λ e. ground arith
encode-ne-spn_offset (text t) buf = λ e. ground arith

encode_spns-ne-spn_offset :
    (m : Spns) (buf : List ℕ) (len : ℕ)
    → StartsBelow len m
    → encode_spns m buf len ≢ err (encode_exception spn_offset)
unfolding encode_spns
encode_spns-ne-spn_offset [] buf len h = λ e. cc
encode_spns-ne-spn_offset ((k, s) ∷ m) buf len h =
    let slice = take (len - get_offset s) (drop (get_offset s) buf) in
    elim (Result-cases (encode s slice)) [
      | inl (part, e) ↦ λ p.
          encode_spns-ne-spn_offset m (overwrite_at (get_offset s) part buf) len h.1
            (ground (arith, e, p))
      | inr (x, e) ↦ λ p. ground (arith, e, p, encode-ne-spn_offset s slice)
    ]

-- If every parameter of a frame takes a byte at least, encoding at the length that the frame reports
-- never fails for an offset beyond the frame.
encode_data-ne-spn_offset :
    (g : Generic) (buf : List ℕ)
    → IsSized g.spns
    → encode_data g buf (data_length g) ≢ err (encode_exception spn_offset)
unfolding encode_data
encode_data-ne-spn_offset g buf h =
    encode_spns-ne-spn_offset g.spns buf (data_length g) (data_length-StartsBelow g h)

-- Strings only, each behind the one before it, the first at `o`.
abbrev pub IsChain : ℕ → Spns → Type 0
IsChain o [] = Unit {0}
IsChain o ((k, s) ∷ m) = (get_offset s ≡ o) × IsChain (o + get_byte_size s) m

abbrev pub AllStrings : Spns → Type 0
AllStrings [] = Unit {0}
AllStrings ((k, s) ∷ m) = (is_string s ≡ true) × AllStrings m

get_offset-set_offset :
    (s : Spn) (o : ℕ)
    → is_string s ≡ true
    → (get_offset (set_offset s o) ≡ o) × (get_byte_size (set_offset s o) ≡ get_byte_size s)
unfolding is_string get_offset set_offset get_byte_size
get_offset-set_offset (numeric n) o h = absurd (ground arith)
get_offset-set_offset (status t) o h = absurd (ground arith)
get_offset-set_offset (text t) o h = (refl, refl)

place_from-IsChain : (o : ℕ) (m : Spns) → AllStrings m → IsChain o (place_from o m)
unfolding place_from
place_from-IsChain o [] h = tt
place_from-IsChain o ((k, s) ∷ m) h =
    let facts = get_offset-set_offset s o h.0 in
    (facts.0, rw (facts.0) (place_from-IsChain (o + get_byte_size (set_offset s o)) m h.1))

-- After `recalculateStringOffsets` on a frame that has strings only, they follow one another without a gap, the
-- first where it was.
recalculate_string_offsets-IsChain :
    (k : ℕ) (s : Spn) (m : Spns)
    → AllStrings ((k, s) ∷ m)
    → IsChain (get_offset s) (recalculate_string_offsets ((k, s) ∷ m))
unfolding recalculate_string_offsets
recalculate_string_offsets-IsChain k s m h =
    (refl, place_from-IsChain (get_offset s + get_byte_size s) m h.1)
