-- ===== src/Database/Writer.antt =====
-- `writeJsonFile` of J1939/J1939DataBase.cpp and the functions that it calls. The values of the JSON
-- library are built by a parameter.
use j1939_framework.Base.{ℕ, suc, Bool, String, List, [], ◌∷◌, Option, none, some, if◌then◌else◌}
use j1939_framework.Spn.{
  Spn, numeric, status, text, Numeric, Status, SpnType, spn_numeric, spn_status, spn_string,
  get_type, get_spec, get_spn_number, get_offset,
}
use j1939_framework.Generic.{Generic, Spns, data_length}
use j1939_framework.Header.{Header}

-- `Json::Value` as the code builds it: null, the values, and the assignment of a member or of an
-- element. `gain_of`, `shift_of` and `units_of` are the values of a specification that is not modelled
-- further, by its identity.
pub record Builder (J : Type 0) : Type 0 where
  pub null : J
  pub of_u_int : ℕ → J
  pub of_string : String → J
  pub set_member : J → String → J → J
  pub set_element : J → ℕ → J → J
  pub gain_of : ℕ → J
  pub shift_of : ℕ → J
  pub units_of : ℕ → J

-- The number of a type of parameters.
unfoldable pub type_number : SpnType → ℕ
type_number spn_numeric = 0
type_number spn_status = 1
type_number spn_string = 2

module _ {J : Type 0} (build : Builder J) where
  unfoldable pub write_spn_numeric : Numeric → J → J
  write_spn_numeric n j =
      let with_size = build.set_member j "byteSize" (build.of_u_int n.byte_size) in
      let with_gain = build.set_member with_size "formatGain" (build.gain_of n.spec.spec_id) in
      let with_shift = build.set_member with_gain "formatOffset" (build.shift_of n.spec.spec_id) in
      build.set_member with_shift "units" (build.units_of n.spec.spec_id)

  unfoldable pub write_descriptions : List (ℕ × String) → J → J
  write_descriptions [] j = j
  write_descriptions ((place, description) ∷ more) j =
      write_descriptions more (build.set_element j place (build.of_string description))

  unfoldable pub write_spn_status : Status → J → J
  unfolding write_descriptions
  write_spn_status s j =
      let with_offset = build.set_member j "bitOffset" (build.of_u_int s.bit_offset) in
      let with_size = build.set_member with_offset "bitSize" (build.of_u_int s.bit_size) in
      elim s.descriptions [
        | [] ↦ with_size
        | d ∷ more ↦
            build.set_member with_size "descriptions" (write_descriptions (d ∷ more) build.null)
      ]

  -- What is written for every type of parameter.
  unfoldable pub write_common : Spn → J
  unfolding type_number get_type get_spn_number get_spec get_offset
  write_common s =
      let with_type =
        build.set_member build.null "type" (build.of_u_int (type_number (get_type s))) in
      let with_number = build.set_member with_type "number" (build.of_u_int (get_spn_number s)) in
      let with_name = build.set_member with_number "name" (build.of_string (get_spec s).name) in
      build.set_member with_name "offset" (build.of_u_int (get_offset s))

  -- The body of the inner loop.
  unfoldable pub write_spn : Spn → J
  unfolding write_common write_spn_numeric write_spn_status
  write_spn (numeric n) = write_spn_numeric n (write_common (numeric n))
  write_spn (status s) = write_spn_status s (write_common (status s))
  write_spn (text t) = write_common (text t)

  unfoldable pub write_spns : Spns → ℕ → J → J
  unfolding write_spn
  write_spns [] place j = j
  write_spns ((number, s) ∷ spns) place j =
      write_spns spns (suc place) (build.set_element j place (write_spn s))

  -- The body of the outer loop.
  unfoldable pub write_frame : Header × Generic → J
  unfolding write_spns data_length
  write_frame (header, g) =
      let with_pgn = build.set_member build.null "pgn" (build.of_u_int header.pgn) in
      let with_name = build.set_member with_pgn "name" (build.of_string header.name) in
      let with_length = build.set_member with_name "length" (build.of_u_int (data_length g)) in
      elim g.spns [
        | [] ↦ with_length
        | s ∷ spns ↦ build.set_member with_length "spns" (write_spns (s ∷ spns) 0 build.null)
      ]

  unfoldable pub write_frames : List (Header × Generic) → ℕ → J → J
  unfolding write_frame
  write_frames [] place j = j
  write_frames (f ∷ frames) place j =
      write_frames frames (suc place) (build.set_element j place (write_frame f))

  -- `writeJsonFile`: the document that is put into the file, if it opens.
  unfoldable pub write_json_file : Bool → List (Header × Generic) → Option J
  unfolding write_frames
  write_json_file opens frames = if opens then some (write_frames frames 0 build.null) else none
