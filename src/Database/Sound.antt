-- ===== src/Database/Sound.antt =====
-- Parameters that the code can use, and outcomes that hold a property: what the constructors assert and
-- the checks before them leave.
use j1939_framework.Base.{
  ℕ, ◌+◌, ◌≤◌, ◌<◌, ◌≡◌, ◌≢◌, inl, inr, refl, arith, Bool, true, false, String, List, [], ◌∷◌, ltb,
  leb, if◌then◌else◌, u8, Bool-cases, ◌<<◌,
}
use j1939_framework.Base.Dict
use j1939_framework.Common.{spn_numeric_max_byte_size, spn_number_max_bits}
use j1939_framework.Spn.{
  Spn, numeric, status, text, Spec, construct_spec, construct_numeric, construct_status, set_offset,
  get_offset, get_byte_size, get_spn_number,
}
use j1939_framework.Generic.{
  Generic, Spns, register_spn, place_from, recalculate_string_offsets, is_string, same_kind,
}
use j1939_framework.Frame.{Frame, generic}
use j1939_framework.Diagnosis.{dm1_pgn}
use j1939_framework.Database.{
  ErrorCode, error_ok, error_out_of_range, Outcome, returned, refused, thrown, aborted, ◌>>=◌,
  check, asserted, build_numeric, build_status, build_string,
}

-- The parameters that the codecs can read and write.
abbrev pub IsSound : Spn → Type 0
IsSound (numeric n) = (n.spec.number < 0x80000) × (0 < n.byte_size) × (n.byte_size ≤ 4)
IsSound (status s) = (s.spec.number < 0x80000) × (0 < s.bit_size) × (s.bit_offset + s.bit_size ≤ 8)
IsSound (text t) = t.spec.number < 0x80000

abbrev pub AllSound : Spns → Type 0
AllSound [] = Unit {0}
AllSound ((k, s) ∷ m) = IsSound s × AllSound m

abbrev pub AllSoundIn : Generic → Type 0
AllSoundIn g = AllSound g.spns

abbrev pub IsSoundFrame : Frame → Type 0
IsSoundFrame f =
    (f.header.pgn ≢ dm1_pgn) × elim f.payload [ generic g ↦ AllSound g.spns | _ ↦ Unit {0} ]

-- What is returned has a property, and what is refused leaves an error code.
abbrev pub Anything {ℓ} : {A : Type ℓ} → A → Type 0
Anything a = Unit {0}

abbrev pub Holds {ℓ} : {A : Type ℓ} → (A → Type 0) → Outcome A → Type 0
Holds P (returned a) = P a
Holds P (refused e) = e ≢ error_ok
Holds P thrown = Unit {0}
Holds P aborted = Unit {0}

pub bind-Holds {ℓ κ} :
    {A : Type ℓ} {B : Type κ} {P : A → Type 0} (Q : B → Type 0) (o : Outcome A) (f : A → Outcome B)
    → Holds P o
    → ((a : A) → P a → Holds Q (f a))
    → Holds Q (o >>= f)
unfolding ◌>>=◌
bind-Holds Q (returned a) f h k = k a h
bind-Holds Q (refused e) f h k = h
bind-Holds Q thrown f h k = tt
bind-Holds Q aborted f h k = tt

pub check-Holds : (c : Bool) (e : ErrorCode) → e ≢ error_ok → Holds (λ u. c ≡ true) (check c e)
unfolding check
check-Holds true e n = refl
check-Holds false e n = n

set_offset-IsSound : (s : Spn) (o : ℕ) → IsSound s → IsSound (set_offset s o)
unfolding set_offset
set_offset-IsSound (numeric n) o h = h
set_offset-IsSound (status s) o h = h
set_offset-IsSound (text t) o h = h

place_from-AllSound : (o : ℕ) (m : Spns) → AllSound m → AllSound (place_from o m)
unfolding place_from
place_from-AllSound o [] h = tt
place_from-AllSound o ((k, s) ∷ m) h = (
  set_offset-IsSound s o h.0,
  place_from-AllSound (get_offset (set_offset s o) + get_byte_size (set_offset s o)) m h.1,
)

recalculate-AllSound : (m : Spns) → AllSound m → AllSound (recalculate_string_offsets m)
unfolding recalculate_string_offsets
recalculate-AllSound [] h = tt
recalculate-AllSound ((k, s) ∷ m) h =
    (h.0, place_from-AllSound (get_offset s + get_byte_size s) m h.1)

insert-AllSound :
    (k : ℕ) (s : Spn) (m : Spns) → IsSound s → AllSound m → AllSound (Dict.insert k s m)
unfolding Dict.insert
insert-AllSound k s [] h a = (h, tt)
insert-AllSound k s ((j, r) ∷ m) h a = ground (arith, insert-AllSound k s m h a.1)

pub choose {ℓ} :
    {A : Type ℓ} (Q : A → Type 0) (b : Bool) (x y : Outcome A)
    → Holds Q x
    → Holds Q y
    → Holds Q (if b then x else y)
choose Q true x y p q = p
choose Q false x y p q = q

pick {ℓ} : {A : Type ℓ} (P : A → Type 0) (b : Bool) (x y : A) → P x → P y → P (if b then x else y)
pick P true x y p q = p
pick P false x y p q = q

register_spn-AllSound :
    (g : Generic) (s : Spn)
    → AllSound g.spns
    → IsSound s
    → Holds AllSoundIn (asserted (register_spn g s))
unfolding register_spn asserted
register_spn-AllSound g s a h =
    let added : Spns =
      if Dict.has (get_spn_number s) g.spns
      then g.spns
      else Dict.insert (get_spn_number s) s g.spns in
    let sound : AllSound added =
      pick AllSound (Dict.has (get_spn_number s) g.spns) g.spns
        (Dict.insert (get_spn_number s) s g.spns) a
        (insert-AllSound (get_spn_number s) s g.spns h a) in
    let placed : AllSound (if is_string s then recalculate_string_offsets added else added) =
      pick AllSound (is_string s) (recalculate_string_offsets added) added
        (recalculate-AllSound added sound) sound in
    elim (Bool-cases (same_kind g.spns s)) [ inl same ↦ rw same placed | inr other ↦ rw other tt ]

construct_spec-Holds :
    (id number offset : ℕ) (name : String)
    → Holds (λ spec. spec.number < 0x80000) (asserted (construct_spec id number name offset))
unfolding construct_spec asserted
construct_spec-Holds id number offset name =
    elim (Bool-cases (ltb number (1 << spn_number_max_bits))) [
      | inl fits ↦ rw fits (ground arith)
      | inr over ↦ rw over tt
    ]

construct_numeric-IsSound :
    (spec : Spec) (size : ℕ)
    → spec.number < 0x80000
    → Holds (λ n. IsSound (numeric n)) (asserted (construct_numeric spec size))
unfolding construct_numeric asserted
construct_numeric-IsSound spec size h = elim (Bool-cases (ltb 0 size)) [
  | inl some_size ↦ elim (Bool-cases (leb size spn_numeric_max_byte_size)) [
    | inl fits ↦ rw some_size (rw fits (h, ground arith, ground arith))
    | inr over ↦ rw some_size (rw over tt)
  ]
  | inr none_left ↦ rw none_left tt
]

construct_status-IsSound :
    (spec : Spec) (bit_offset bit_size : ℕ) (descriptions : List (ℕ × String))
    → spec.number < 0x80000
    → Holds
        (λ s. IsSound (status s))
        (asserted (construct_status spec bit_offset bit_size descriptions))
unfolding construct_status asserted
construct_status-IsSound spec bit_offset bit_size descriptions h =
    elim (Bool-cases (ltb 0 bit_size)) [
      | inl some_size ↦ elim (Bool-cases (leb (bit_offset + bit_size) 8)) [
        | inl fits ↦ rw some_size (rw fits (h, ground arith, ground arith))
        | inr over ↦ rw some_size (rw over tt)
      ]
      | inr none_left ↦ rw none_left tt
    ]

pub out_of_range-is-error : error_out_of_range ≢ error_ok
out_of_range-is-error e = cc

pub build_numeric-AllSound :
    (g : Generic) (id number size offset : ℕ) (name : String)
    → AllSound g.spns
    → Holds AllSoundIn (build_numeric g id number size name offset)
unfolding build_numeric
build_numeric-AllSound g id number size offset name a =
    bind-Holds AllSoundIn _ _ (check-Holds _ _ out_of_range-is-error) (λ u in_range.
      bind-Holds AllSoundIn _ _ (construct_spec-Holds id number offset name) (λ spec made.
        bind-Holds AllSoundIn _ _ (construct_numeric-IsSound spec (u8 size) made)
          (λ n sound. register_spn-AllSound g (numeric n) a sound)))

pub build_status-AllSound :
    (g : Generic) (id number bit_offset bit_size offset : ℕ) (name : String)
    (descriptions : List (ℕ × String))
    → AllSound g.spns
    → Holds AllSoundIn (build_status g id number bit_offset bit_size name offset descriptions)
unfolding build_status
build_status-AllSound g id number bit_offset bit_size offset name descriptions a =
    bind-Holds AllSoundIn _ _ (construct_spec-Holds id number offset name) (λ spec made.
      bind-Holds AllSoundIn _ _
        (construct_status-IsSound spec (u8 bit_offset) (u8 bit_size) descriptions made)
        (λ s sound. register_spn-AllSound g (status s) a sound))

pub build_string-AllSound :
    (g : Generic) (id number : ℕ) (name : String)
    → AllSound g.spns
    → Holds AllSoundIn (build_string g id number name)
unfolding build_string
build_string-AllSound g id number name a =
    bind-Holds AllSoundIn _ _ (construct_spec-Holds id number 0 name) (λ spec made.
      register_spn-AllSound g (text (record { spec = spec; offset = 0; value = [] })) a made)
