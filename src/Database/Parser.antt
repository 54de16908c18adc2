-- ===== src/Database/Parser.antt =====
-- `parseJsonFile` and the functions that it calls, over the answers of the JSON library.
use j1939_framework.Base.{
  ℕ, zero, suc, ◌+◌, Bool, true, false, not, ◌&&◌, ◌||◌, String, List, [], ◌∷◌, ◌++◌, Option, none,
  some, ◌==◌, if◌then◌else◌, u8,
}
use j1939_framework.Base.Dict
use j1939_framework.Header
use j1939_framework.Generic
use j1939_framework.Generic.{Generic}
use j1939_framework.Frame.{Frame, generic}
use j1939_framework.Diagnosis.{dm1_pgn}
use j1939_framework.Database.{
  ErrorCode, error_ok, error_file_not_found, error_json_syntax, error_unexpected_tokens,
  error_out_of_range, error_unknown_spn_type, error_forbidden_token, Outcome, returned, refused,
  thrown, aborted, ◌>>=◌, check, asserted, answered, Json, build_numeric, status_fits, build_status,
  build_string,
}

-- J1939DataBase; `specs` counts the specifications that were made.
pub record Database : Type 0 where
  pub frames : List Frame
  pub error_code : ErrorCode
  pub specs : ℕ

-- The name of a frame before it is given one.
abbrev pub unknown_frame : String
unknown_frame = "Unknown"

module _ {ℓ} {J : Type ℓ} (json : Json J) where
  -- `isMember` for one name after another, as long as it holds.
  unfoldable pub has_members : J → List String → Outcome Bool
  has_members j [] = returned true
  has_members j (key ∷ keys) =
      let rest = has_members j keys in
      answered (json.is_member j key) >>= (λ found. if found then rest else returned false)

  unfoldable pub describe : J → ℕ → List (ℕ × String) → Outcome (List (ℕ × String))
  describe description place found =
      if json.is_null description
      then returned found
      else (answered (json.as_string description)
          >>= (λ text. returned (Dict.insert (u8 place) text found)))

  -- The members of a list that are not null, by their place cut to a byte.
  unfoldable pub parse_descriptions :
      J → (left place : ℕ) → List (ℕ × String) → Outcome (List (ℕ × String))
  parse_descriptions j zero place found = returned found
  parse_descriptions j (suc left) place found = do
    description ← answered (json.element j place)
    found' ← describe description place found
    parse_descriptions j left (suc place) found'

  unfoldable pub parse_spn_numeric : Generic → ℕ → J → Outcome Generic
  parse_spn_numeric frame id spn = do
    complete ←
        has_members spn ("formatGain" ∷ "formatOffset" ∷ "byteSize" ∷ "units" ∷ "offset" ∷ [])
    has_all ← check complete error_unexpected_tokens
    name ← answered (json.member spn "name")
    number ← answered (json.member spn "number")
    offset ← answered (json.member spn "offset")
    gain ← answered (json.member spn "formatGain")
    shift ← answered (json.member spn "formatOffset")
    byte_size ← answered (json.member spn "byteSize")
    units ← answered (json.member spn "units")
    typed ←
        check
          (json.is_double gain
            && json.is_double shift
            && json.is_u_int byte_size
            && json.is_string units
            && json.is_u_int offset)
          error_unexpected_tokens
    label ← answered (json.as_string name)
    build_numeric frame id (json.as_u_int number) (json.as_u_int byte_size) label
        (json.as_u_int offset)

  unfoldable pub parse_spn_status : Generic → ℕ → J → Outcome Generic
  parse_spn_status frame id spn = do
    complete ← has_members spn ("bitOffset" ∷ "bitSize" ∷ "offset" ∷ [])
    has_all ← check complete error_unexpected_tokens
    name ← answered (json.member spn "name")
    number ← answered (json.member spn "number")
    offset ← answered (json.member spn "offset")
    bit_offset ← answered (json.member spn "bitOffset")
    bit_size ← answered (json.member spn "bitSize")
    typed ←
        check (json.is_u_int bit_offset && json.is_u_int bit_size && json.is_u_int offset)
          error_unexpected_tokens
    in_range ←
        check (status_fits (json.as_u_int bit_offset) (json.as_u_int bit_size)) error_out_of_range
    described ← answered (json.is_member spn "descriptions")
    descriptions ←
        if described
        then (answered (json.member spn "descriptions")
            >>= (λ list. parse_descriptions list (json.size list) 0 []))
        else returned []
    label ← answered (json.as_string name)
    build_status frame id (json.as_u_int number) (json.as_u_int bit_offset) (json.as_u_int bit_size)
        label (json.as_u_int offset) descriptions

  unfoldable pub parse_spn_string : Generic → ℕ → J → Outcome Generic
  parse_spn_string frame id spn = do
    name ← answered (json.member spn "name")
    number ← answered (json.member spn "number")
    label ← answered (json.as_string name)
    build_string frame id (json.as_u_int number) label

  unfoldable pub parse_by_type : ℕ → Generic → ℕ → J → Outcome Generic
  parse_by_type kind frame id spn =
      if kind == 0
      then parse_spn_numeric frame id spn
      else if kind == 1
      then parse_spn_status frame id spn
      else if kind == 2
      then parse_spn_string frame id spn
      else refused error_unknown_spn_type

  -- The body of the inner loop.
  unfoldable pub parse_spn : Generic → ℕ → J → Outcome Generic
  parse_spn frame id spn = do
    complete ← has_members spn ("name" ∷ "number" ∷ "type" ∷ [])
    has_all ← check complete error_unexpected_tokens
    name ← answered (json.member spn "name")
    number ← answered (json.member spn "number")
    kind ← answered (json.member spn "type")
    typed ←
        check (json.is_string name && json.is_u_int number && json.is_u_int kind)
          error_unexpected_tokens
    parse_by_type (json.as_u_int kind) frame id spn

  unfoldable pub parse_spns : J → (left place : ℕ) → Generic → ℕ → Outcome Generic
  parse_spns spns zero place frame id = returned frame
  parse_spns spns (suc left) place frame id = do
    spn ← answered (json.element spns place)
    frame' ← parse_spn frame (id + place) spn
    parse_spns spns left (suc place) frame' id

  -- The body of the outer loop, with the number of specifications afterwards.
  unfoldable pub parse_frame : ℕ → J → Outcome (Frame × ℕ)
  parse_frame id j = do
    has_pgn ← answered (json.is_member j "pgn")
    with_pgn ← check has_pgn error_unexpected_tokens
    pgn ← answered (json.member j "pgn")
    typed ← check (json.is_u_int pgn) error_unexpected_tokens
    allowed ← check (not (json.as_u_int pgn == dm1_pgn)) error_forbidden_token
    header ← asserted (Header.construct (json.as_u_int pgn) unknown_frame)
    named ← answered (json.is_member j "name")
    name ← if named then answered (json.member j "name") else returned j
    label ←
        if named && json.is_string name
        then answered (json.as_string name)
        else returned unknown_frame
    sized ← answered (json.is_member j "length")
    size ← if sized then answered (json.member j "length") else returned j
    listed ← answered (json.is_member j "spns")
    list ← if listed then answered (json.member j "spns") else returned j
    array ← check (not listed || json.is_array list) error_unexpected_tokens
    let specified = if sized && json.is_u_int size then json.as_u_int size else 0
    let count = if listed then json.size list else 0
    frame ← parse_spns list count 0 (record Generic.empty { specified = specified }) id
    returned
        (record { header = record header { name = label }; payload = generic frame }, id + count)

  -- The outer loop: the frames before one that is refused stay in the database.
  unfoldable pub parse_frames : J → (left place : ℕ) → Database → Outcome (Database × Bool)
  parse_frames document zero place db = returned (record db { error_code = error_ok }, true)
  parse_frames document (suc left) place db =
      elim (answered (json.element document place) >>= parse_frame db.specs) [
        | returned (frame, specs) ↦
            parse_frames document left (suc place)
              (record db { frames = db.frames ++ frame ∷ []; specs = specs })
        | refused e ↦ returned (record db { error_code = e }, false)
        | thrown ↦ thrown
        | aborted ↦ aborted
      ]

  -- `parseJsonFile`, with the file as the document that the library has parsed: `none` if the file
  -- cannot be opened, and nothing in it if its syntax is wrong.
  unfoldable pub parse_json_file : Database → Option (Option J) → Outcome (Database × Bool)
  parse_json_file db none = returned (record db { error_code = error_file_not_found }, false)
  parse_json_file db (some none) = returned (record db { error_code = error_json_syntax }, false)
  parse_json_file db (some (some document)) =
      if json.is_array document
      then parse_frames document (json.size document) 0 db
      else returned (record db { error_code = error_unexpected_tokens }, false)

abbrev pub new_database : Database
new_database = record { frames = []; error_code = error_ok; specs = 0 }

unfoldable pub add_frame : Database → Frame → Database
add_frame db f = record db { frames = db.frames ++ f ∷ [] }

unfoldable pub clear : Database → Database
clear db = record db { frames = []; error_code = error_ok }
