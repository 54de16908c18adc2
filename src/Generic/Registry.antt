-- ===== src/Generic/Registry.antt =====
-- Which parameters a generic frame has.
use j1939_framework.Base.{
  ℕ, ◌+◌, ◌≡◌, refl, arith, true, false, ◌||◌, [], ◌∷◌, ◌==◌, none, some, if◌then◌else◌,
}
use j1939_framework.Base.Dict
use j1939_framework.Spn.{Spn, get_offset, set_offset, get_byte_size, get_spn_number}
use j1939_framework.Generic.{
  Spns, Generic, is_string, same_kind, place_from, recalculate_string_offsets, register_spn,
  get_spn, has_spn, delete_spn,
}

has-place_from : (j o : ℕ) (m : Spns) → Dict.has j (place_from o m) ≡ Dict.has j m
unfolding place_from Dict.find
has-place_from j o [] = refl
has-place_from j o ((k, s) ∷ m) =
    ground
      (arith, has-place_from j (get_offset (set_offset s o) + get_byte_size (set_offset s o)) m)

has-recalculate : (j : ℕ) (m : Spns) → Dict.has j (recalculate_string_offsets m) ≡ Dict.has j m
unfolding recalculate_string_offsets Dict.find
has-recalculate j [] = refl
has-recalculate j ((k, s) ∷ m) = ground (arith, has-place_from j (get_offset s + get_byte_size s) m)

has-insert :
    (j k : ℕ) (s : Spn) (m : Spns)
    → Dict.has j (Dict.insert k s m) ≡ (if k == j then true else Dict.has j m)
has-insert j k s m = ground (arith, Dict.find-insert k j s m)

-- Registering a parameter makes its number known, and no other.
has_spn-register_spn :
    (g h : Generic) (spn : Spn) (j : ℕ)
    → register_spn g spn ≡ some h
    → has_spn h j ≡ (get_spn_number spn == j || has_spn g j)
unfolding register_spn has_spn
has_spn-register_spn g h spn j e =
    let number = get_spn_number spn in
    let added = if Dict.has number g.spns then g.spns else Dict.insert number spn g.spns in
    ground (
      arith,
      has-recalculate j added,
      has-recalculate j g.spns,
      has-recalculate j (Dict.insert number spn g.spns),
      has-insert j number spn g.spns,
    )

-- A parameter that is there already is kept: registering one of its number changes nothing else than
-- the offsets of strings.
pub register_spn_again :
    (g : Generic) (spn old : Spn)
    → get_spn g (get_spn_number spn) ≡ some old
    → is_string spn ≡ false
    → same_kind g.spns spn ≡ true
    → register_spn g spn ≡ some g
unfolding register_spn get_spn
register_spn_again g spn old e s k = ground arith

-- `deleteSPN` answers whether there was such a parameter; afterwards there is none, and all others
-- are as they were.
delete_spn_lem :
    (g : Generic) (number j : ℕ)
    → ((delete_spn g number).1 ≡ has_spn g number)
      × (get_spn (delete_spn g number).0 j ≡ (if number == j then none else get_spn g j))
unfolding delete_spn has_spn get_spn
delete_spn_lem g number j = (ground arith, ground (arith, Dict.find-erase number j g.spns))
