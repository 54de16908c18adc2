-- ===== src/Database/RoundTrip.antt =====
-- A parameter that is written into a document is read from it again.
use package.text.Mathlib.Text.{◌==◌ as str_eq}
use j1939_framework.Base.{
  ℕ, ◌+◌, ◌<◌, ◌≤◌, ◌^◌, ◌≡◌, ◌∙◌, refl, ap, arith, Bool, true, false, String, List, [], ◌∷◌, ◌++◌,
  Option, none, some, if◌then◌else◌, All,
}
use j1939_framework.Spn.{
  Spn, numeric, status, text, Numeric, Status, get_type, get_spec, Text, get_spn_number, get_offset,
}
use j1939_framework.Generic.{Generic, register_spn}
use j1939_framework.Database.{
  Json, returned, ◌>>=◌, check, asserted, answered, build_numeric, build_status, build_string,
  status_fits,
}
use j1939_framework.Database.Parser.{
  has_members, parse_spn, parse_by_type, parse_spn_numeric, parse_spn_status, parse_spn_string,
}
use j1939_framework.Base.Dict
use j1939_framework.Database.Descriptions.{top, ListLaw, parse_descriptions-write_descriptions}
use j1939_framework.Database.Writer.{
  Builder, write_descriptions, type_number, write_spn_numeric, write_spn_status, write_common,
  write_spn,
}
use j1939_framework.Database.Renewed.{
  Fits, IsWritten, renewed, build_numeric-renewed, build_status-renewed, build_string-renewed,
  in_limits,
}

-- The last value that is assigned to a key.
abbrev pub last_of : {J : Type 0} → String → List (String × J) → Option J → Option J
last_of key [] found = found
last_of key ((k, v) ∷ fields) found = last_of key fields (if str_eq k key then some v else found)

abbrev pub object_from : {J : Type 0} → Builder J → J → List (String × J) → J
object_from build j [] = j
object_from build j ((k, v) ∷ fields) = object_from build (build.set_member j k v) fields

abbrev pub is_some : {J : Type 0} → Option J → Bool
is_some none = false
is_some (some v) = true

-- What the library documents of values that are built: an object has the members that were assigned to
-- it, each with the last value, and numbers and texts are what they were made of.
pub record Law {J : Type 0} (json : Json J) (build : Builder J) : Type 0 where
  pub has :
      (fields : List (String × J)) (key : String)
      → json.is_member (object_from build build.null fields) key
        ≡ some (is_some (last_of key fields none))
  pub gets :
      (fields : List (String × J)) (key : String) (v : J)
      → last_of key fields none ≡ some v
      → json.member (object_from build build.null fields) key ≡ some v
  pub numbers :
      (n : ℕ)
      → n < 2 ^ 32
      → (json.is_u_int (build.of_u_int n) ≡ true) × (json.as_u_int (build.of_u_int n) ≡ n)
  pub texts :
      (s : String)
      → (json.is_string (build.of_string s) ≡ true) × (json.as_string (build.of_string s) ≡ some s)
  pub displays :
      (i : ℕ)
      → (json.is_double (build.gain_of i) ≡ true)
        × (json.is_double (build.shift_of i) ≡ true)
        × (json.is_string (build.units_of i) ≡ true)
  pub lists : ListLaw json build

module _ {J : Type 0} (json : Json J) (build : Builder J) (law : Law json build) where
  common_fields : Spn → List (String × J)
  common_fields s =
      ("type", build.of_u_int (type_number (get_type s)))
      ∷ ("number", build.of_u_int (get_spn_number s))
      ∷ ("name", build.of_string (get_spec s).name)
      ∷ ("offset", build.of_u_int (get_offset s))
      ∷ []

  -- Members that are there, one after another.
  has_members_lem :
      (fields : List (String × J)) (keys : List String)
      → All (λ key. is_some (last_of key fields none) ≡ true) keys
      → has_members json (object_from build build.null fields) keys ≡ returned true
  unfolding has_members ◌>>=◌ answered
  has_members_lem fields [] all = refl
  has_members_lem fields (key ∷ keys) (here, all) =
      rw (law.has fields key, here) (has_members_lem fields keys all)

  get_field :
      (fields : List (String × J)) (key : String) (v : J)
      → last_of key fields none ≡ some v
      → answered (json.member (object_from build build.null fields) key) ≡ returned v
  unfolding answered
  get_field fields key v e = rw (law.gets fields key v e) refl

  numeric_fields : Numeric → List (String × J)
  unfolding common_fields
  numeric_fields n =
      common_fields (numeric n)
      ++ ("byteSize", build.of_u_int n.byte_size)
        ∷ ("formatGain", build.gain_of n.spec.spec_id)
        ∷ ("formatOffset", build.shift_of n.spec.spec_id)
        ∷ ("units", build.units_of n.spec.spec_id)
        ∷ []

  write_spn-numeric :
      (n : Numeric) → write_spn build (numeric n) ≡ object_from build build.null (numeric_fields n)
  unfolding write_spn write_common write_spn_numeric numeric_fields common_fields
  write_spn-numeric n = refl

  parse_by_type-numeric :
      (frame : Generic) (id : ℕ) (n : Numeric)
      → Fits n.spec
      → n.byte_size < 2 ^ 32
      → parse_spn_numeric json frame id (object_from build build.null (numeric_fields n))
        ≡ build_numeric frame id n.spec.number n.byte_size n.spec.name n.spec.offset
  unfolding parse_spn_numeric numeric_fields common_fields get_spec get_offset get_spn_number ◌>>=◌
      check answered
  parse_by_type-numeric frame id n fits size =
      let fields = numeric_fields n in
      let number = law.numbers n.spec.number (omega (arith, fits.0)) in
      let offset = law.numbers n.spec.offset fits.1 in
      let bytes = law.numbers n.byte_size size in
      let shown = law.displays n.spec.spec_id in
      rw
        (has_members_lem fields
          ("formatGain" ∷ "formatOffset" ∷ "byteSize" ∷ "units" ∷ "offset" ∷ [])
          (refl, (refl, (refl, (refl, (refl, tt))))))
        (rw
          (
            law.gets fields "name" _ refl,
            law.gets fields "number" _ refl,
            law.gets fields "offset" _ refl,
            law.gets fields "formatGain" _ refl,
            law.gets fields "formatOffset" _ refl,
            law.gets fields "byteSize" _ refl,
            law.gets fields "units" _ refl,
          )
          (rw
            (
              shown.0,
              shown.1,
              shown.2,
              bytes.0,
              offset.0,
              (law.texts n.spec.name).1,
              number.1,
              bytes.1,
              offset.1,
            )
            refl))

  description_fields : List (ℕ × String) → List (String × J)
  description_fields [] = []
  description_fields (d ∷ more) =
      ("descriptions", write_descriptions build (d ∷ more) build.null) ∷ []

  status_fields : List (ℕ × String) → Status → List (String × J)
  unfolding common_fields description_fields
  status_fields descriptions s =
      common_fields (status s)
      ++ ("bitOffset", build.of_u_int s.bit_offset)
        ∷ ("bitSize", build.of_u_int s.bit_size)
        ∷ description_fields descriptions

  kept :
      (key : String) (descriptions : List (ℕ × String)) (found : Option J)
      → str_eq "descriptions" key ≡ false
      → last_of key (description_fields descriptions) found ≡ found
  unfolding description_fields
  kept key [] found e = refl
  kept key (d ∷ more) found e = rw e refl

  parse_by_type-status :
      (frame : Generic) (id : ℕ) (descriptions : List (ℕ × String)) (s : Status)
      → Fits s.spec
      → 0 < s.bit_size
      → s.bit_offset + s.bit_size ≤ 8
      → Dict.IsSorted descriptions
      → top descriptions ≤ 256
      → parse_spn_status json frame id (object_from build build.null (status_fields descriptions s))
        ≡ build_status frame id s.spec.number s.bit_offset s.bit_size s.spec.name s.spec.offset
            descriptions
  unfolding parse_spn_status status_fields description_fields common_fields get_spec get_offset
      get_spn_number ◌>>=◌ check answered status_fits
  parse_by_type-status frame id [] s fits pos room sorted bound =
      let fields = status_fields [] s in
      let number = law.numbers s.spec.number (omega (arith, fits.0)) in
      let offset = law.numbers s.spec.offset fits.1 in
      let bits = law.numbers s.bit_offset (omega arith) in
      let size = law.numbers s.bit_size (omega arith) in
      let fit = in_limits s pos room in
      rw
        (has_members_lem fields ("bitOffset" ∷ "bitSize" ∷ "offset" ∷ [])
          (refl, (refl, (refl, tt))))
        (rw
          (
            law.gets fields "name" _ refl,
            law.gets fields "number" _ refl,
            law.gets fields "offset" _ refl,
            law.gets fields "bitOffset" _ refl,
            law.gets fields "bitSize" _ refl,
            law.has fields "descriptions",
          )
          (rw
            (
              bits.0,
              size.0,
              offset.0,
              number.1,
              bits.1,
              size.1,
              offset.1,
              fit,
              (law.texts s.spec.name).1,
            )
            refl))
  parse_by_type-status frame id (d ∷ more) s fits pos room sorted bound =
      let fields = status_fields (d ∷ more) s in
      let number = law.numbers s.spec.number (omega (arith, fits.0)) in
      let offset = law.numbers s.spec.offset fits.1 in
      let bits = law.numbers s.bit_offset (omega arith) in
      let size = law.numbers s.bit_size (omega arith) in
      let fit = in_limits s pos room in
      rw
        (has_members_lem fields ("bitOffset" ∷ "bitSize" ∷ "offset" ∷ [])
          (refl, (refl, (refl, tt))))
        (rw
          (
            law.gets fields "name" _ refl,
            law.gets fields "number" _ refl,
            law.gets fields "offset" _ refl,
            law.gets fields "bitOffset" _ refl,
            law.gets fields "bitSize" _ refl,
            law.has fields "descriptions",
            law.gets fields "descriptions" _ refl,
          )
          (rw
            (
              bits.0,
              size.0,
              offset.0,
              number.1,
              bits.1,
              size.1,
              offset.1,
              fit,
              (law.texts s.spec.name).1,
            )
            (rw (parse_descriptions-write_descriptions json build law.lists (d ∷ more) sorted bound)
              refl)))

  parse_by_type-text :
      (frame : Generic) (id : ℕ) (t : Text)
      → t.spec.number < 2 ^ 19
      → parse_spn_string json frame id (object_from build build.null (common_fields (text t)))
        ≡ build_string frame id t.spec.number t.spec.name
  unfolding parse_spn_string common_fields get_spec get_offset get_spn_number ◌>>=◌ answered
  parse_by_type-text frame id t fits =
      let fields = common_fields (text t) in
      rw (law.gets fields "name" _ refl, law.gets fields "number" _ refl)
        (rw ((law.numbers t.spec.number (omega (arith, fits))).1, (law.texts t.spec.name).1) refl)

  -- The members that every type of parameter has.
  parse_spn-object :
      (frame : Generic) (id number kind : ℕ) (name : String) (fields : List (String × J))
      → number < 2 ^ 32
      → kind < 2 ^ 32
      → last_of "name" fields none ≡ some (build.of_string name)
      → last_of "number" fields none ≡ some (build.of_u_int number)
      → last_of "type" fields none ≡ some (build.of_u_int kind)
      → let j = object_from build build.null fields in
        parse_spn json frame id j ≡ parse_by_type json kind frame id j
  unfolding parse_spn ◌>>=◌ check answered
  parse_spn-object frame id number kind name fields small known at_name at_number at_type =
      rw
        (has_members_lem fields ("name" ∷ "number" ∷ "type" ∷ [])
          (ap is_some at_name, (ap is_some at_number, (ap is_some at_type, tt))))
        (rw
          (
            law.gets fields "name" _ at_name,
            law.gets fields "number" _ at_number,
            law.gets fields "type" _ at_type,
          )
          (rw
            (
              (law.texts name).0,
              (law.numbers number small).0,
              (law.numbers kind known).0,
              (law.numbers kind known).1,
            )
            refl))

  write_status-fields :
      (s : Status) (descriptions : List (ℕ × String))
      → write_spn build (status (record s { descriptions = descriptions }))
        ≡ object_from build build.null (status_fields descriptions s)
  unfolding write_spn write_common write_spn_status status_fields description_fields common_fields
  write_status-fields s [] = refl
  write_status-fields s (d ∷ more) = refl

  write_spn-text :
      (t : Text) → write_spn build (text t) ≡ object_from build build.null (common_fields (text t))
  unfolding write_spn write_common common_fields
  write_spn-text t = refl

  -- A parameter that is written, with a number of 19 bits and, but for a string, an offset of 32 bits and
  -- a size in its limits, and for a status with descriptions of values of a byte, is read as one with
  -- the same number, name, size and descriptions, and the same place unless it is a string, which is
  -- placed at 0: it is registered with the frame under a new specification and without a value. The
  -- JSON library reads objects, lists, numbers and texts as they were built.
  pub parse_spn-write_spn :
      (frame : Generic) (id : ℕ) (s : Spn)
      → IsWritten s
      → parse_spn json frame id (write_spn build s) ≡ asserted (register_spn frame (renewed id s))
  unfolding numeric_fields status_fields common_fields get_spec get_spn_number parse_by_type
      get_type type_number
  parse_spn-write_spn frame id (numeric n) (fits, size) =
      ap (parse_spn json frame id) (write_spn-numeric n)
      ∙ (parse_spn-object frame id n.spec.number 0 n.spec.name (numeric_fields n)
            (omega (arith, fits.0)) (omega arith) refl refl refl
          ∙ (parse_by_type-numeric frame id n fits (omega (arith, size.1))
              ∙ build_numeric-renewed frame id n fits.0 size.0 size.1))
  parse_spn-write_spn frame id (status s) (fits, ((sorted, bound), (pos, room))) =
      ap (parse_spn json frame id) (write_status-fields s s.descriptions)
      ∙ (parse_spn-object frame id s.spec.number 1 s.spec.name (status_fields s.descriptions s)
            (omega (arith, fits.0)) (omega arith) (kept "name" s.descriptions _ refl)
            (kept "number" s.descriptions _ refl) (kept "type" s.descriptions _ refl)
          ∙ (parse_by_type-status frame id s.descriptions s fits pos room sorted bound
              ∙ build_status-renewed frame id s fits.0 pos room))
  parse_spn-write_spn frame id (text t) small =
      ap (parse_spn json frame id) (write_spn-text t)
      ∙ (parse_spn-object frame id t.spec.number 2 t.spec.name (common_fields (text t))
            (omega arith) (omega arith) refl refl refl
          ∙ (parse_by_type-text frame id t small ∙ build_string-renewed frame id t small))
