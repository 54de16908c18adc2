-- ===== src/Factory.antt =====
-- J1939/J1939Factory.cpp and J1939/include/J1939Factory.h: the prototypes of the known frames by PGN.
-- The frames of a database file come as a list, which J1939DataBase has parsed.
pub mod Registry
use j1939_framework.Base.{
  ℕ, ◌+◌, ◌≤◌, ◌<◌, Bool, true, false, not, List, [], ◌∷◌, ◌==◌, Option, none, some, String,
  if◌then◌else◌,
}
use text.Mathlib.Text.{◌==◌ as str_eq}
use j1939_framework.Base.Dict
use j1939_framework.Common.{Result, ok, err}
use j1939_framework.Header.{frame_pgn}
use j1939_framework.Transport.Tpdt
use j1939_framework.Frame.{
  Frame, decode, new_tpcm, new_tpdt, new_fms1, new_dm1, new_address_claim, new_request, no_name,
}

abbrev pub Factory : Type 0
Factory = List (ℕ × Frame)

-- `getJ1939Frame(id, data, length)`: `none` is the null pointer, and an exception of the decoder
-- goes through.
unfoldable pub get_frame : Factory → ℕ → List ℕ → Result (Option Frame)
get_frame fs id buf = elim (Dict.find (frame_pgn id) fs) [
  | none ↦ ok none
  | some f ↦ elim (decode f id buf) [ ok g ↦ ok (some g) | err e ↦ err e ]
]

unfoldable pub get_frame_by_pgn : Factory → ℕ → Option Frame
get_frame_by_pgn fs pgn = Dict.find pgn fs

unfoldable pub get_frame_by_name : Factory → String → Option Frame
get_frame_by_name [] name = none
get_frame_by_name ((k, f) ∷ fs) name =
    if str_eq f.header.name name then some f else get_frame_by_name fs name

unfoldable pub register_frame : Factory → Frame → Factory × Bool
register_frame fs f =
    if Dict.has f.header.pgn fs then (fs, false) else (Dict.insert f.header.pgn f fs, true)

unfoldable pub unregister_frame : Factory → ℕ → Factory
unregister_frame fs pgn = Dict.erase pgn fs

unfoldable pub unregister_all_frames : Factory → Factory
unregister_all_frames fs = []

unfoldable pub register_frames : Factory → List Frame → Factory
register_frames fs [] = fs
register_frames fs (f ∷ rest) = register_frames (register_frame fs f).0 rest

-- `registerDatabaseFrames`, given what the parser made of the file.
unfoldable pub register_database_frames : Factory → Option (List Frame) → Factory × Bool
unfolding register_frames
register_database_frames fs none = (fs, false)
register_database_frames fs (some frames) = (register_frames fs frames, true)

unfoldable pub get_all_registered_pgns : Factory → List ℕ
get_all_registered_pgns [] = []
get_all_registered_pgns ((k, f) ∷ fs) = k ∷ get_all_registered_pgns fs

-- `registerPredefinedFrames`
abbrev pub predefined : List Frame
predefined =
    new_tpcm
    ∷ new_tpdt Tpdt.empty
    ∷ new_fms1
    ∷ new_dm1
    ∷ new_address_claim no_name
    ∷ new_request 0
    ∷ []

unfoldable pub new_factory : Factory
unfolding register_frames
new_factory = register_frames [] predefined
