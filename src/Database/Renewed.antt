-- ===== src/Database/Renewed.antt =====
-- A parameter as the constructors of J1939/J1939DataBase.cpp register it: what has to fit, and what is
-- new.
use j1939_framework.Base.{
  ℕ, ◌+◌, ◌-◌, ◌<◌, ◌≤◌, ◌^◌, ◌≡◌, refl, arith, true, not, ◌&&◌, [], ltb, leb, lt→ltb, ◌%◌, ◌==◌,
  u32, ◌>>◌,
}
use j1939_framework.Spn.{
  Spn, numeric, status, text, Numeric, Status, Spec, Text, construct_spec, construct_numeric,
  construct_status,
}
use j1939_framework.Generic.{Generic, register_spn}
use j1939_framework.Database.{◌>>=◌, check, asserted, build_numeric, build_status, build_string}
use j1939_framework.Base.Dict
use j1939_framework.Database.Descriptions.{top}

-- The numbers of a specification that fit.
abbrev pub Fits : Spec → Type 0
Fits s = (s.number < 2 ^ 19) × (s.offset < 2 ^ 32)

-- The parameters that are written whole: their numbers fit, and the descriptions of a status are those
-- of values of a byte, in rising order.
abbrev pub IsWritten : Spn → Type 0
IsWritten (numeric n) = Fits n.spec × ((0 < n.byte_size) × (n.byte_size ≤ 4))
IsWritten (status s) =
    Fits s.spec
    × ((Dict.IsSorted s.descriptions × (top s.descriptions ≤ 256))
        × ((0 < s.bit_size) × (s.bit_offset + s.bit_size ≤ 8)))
IsWritten (text t) = t.spec.number < 2 ^ 19

-- The parameter with a new specification of the identity `id` and the value of a new one.
abbrev pub renewed : ℕ → Spn → Spn
renewed id (numeric n) =
    numeric (record {
      spec = record n.spec { spec_id = id };
      byte_size = n.byte_size;
      value = 0xFFFFFFFF;
    })
renewed id (status s) =
    status (record s { spec = record s.spec { spec_id = id }; value = 0xFF >> (8 - s.bit_size) })
renewed id (text t) =
    text (record { spec = record t.spec { spec_id = id; offset = 0 }; offset = 0; value = [] })

pub build_numeric-renewed :
    (frame : Generic) (id : ℕ) (n : Numeric)
    → n.spec.number < 2 ^ 19
    → 0 < n.byte_size
    → n.byte_size ≤ 4
    → build_numeric frame id n.spec.number n.byte_size n.spec.name n.spec.offset
      ≡ asserted (register_spn frame (renewed id (numeric n)))
unfolding build_numeric check asserted construct_spec construct_numeric ◌>>=◌
build_numeric-renewed frame id n number pos size =
    let cut : n.byte_size % 256 ≡ n.byte_size = omega arith in
    let in_range : (leb n.byte_size 4 && not (n.byte_size == 0)) ≡ true = ground arith in
    let known : ltb n.spec.number 524288 ≡ true = lt→ltb _ _ number in
    let some_byte : ltb 0 n.byte_size ≡ true = lt→ltb _ _ pos in
    let four : leb n.byte_size 4 ≡ true = ground arith in
    rw in_range (rw known (rw cut (rw (some_byte, four) refl)))

pub build_status-renewed :
    (frame : Generic) (id : ℕ) (s : Status)
    → s.spec.number < 2 ^ 19
    → 0 < s.bit_size
    → s.bit_offset + s.bit_size ≤ 8
    → build_status frame id s.spec.number s.bit_offset s.bit_size s.spec.name s.spec.offset
        s.descriptions
      ≡ asserted (register_spn frame (renewed id (status s)))
unfolding build_status asserted construct_spec construct_status ◌>>=◌
build_status-renewed frame id s number pos room =
    let cut : s.bit_size % 256 ≡ s.bit_size = omega arith in
    let cut' : s.bit_offset % 256 ≡ s.bit_offset = omega arith in
    let known : ltb s.spec.number 524288 ≡ true = lt→ltb _ _ number in
    let some_bit : ltb 0 s.bit_size ≡ true = lt→ltb _ _ pos in
    let fit : leb (s.bit_offset + s.bit_size) 8 ≡ true = ground arith in
    rw known (rw (cut, cut') (rw (some_bit, fit) refl))

pub build_string-renewed :
    (frame : Generic) (id : ℕ) (t : Text)
    → t.spec.number < 2 ^ 19
    → build_string frame id t.spec.number t.spec.name
      ≡ asserted (register_spn frame (renewed id (text t)))
unfolding build_string asserted construct_spec ◌>>=◌
build_string-renewed frame id t number =
    let known : ltb t.spec.number 524288 ≡ true = lt→ltb _ _ number in rw known refl

pub in_limits :
    (s : Status)
    → 0 < s.bit_size
    → s.bit_offset + s.bit_size ≤ 8
    → (not (s.bit_size == 0) && leb (u32 (s.bit_size + s.bit_offset)) 8) ≡ true
in_limits s pos room = ground arith
