-- ===== src/Examples/Databases.antt =====
-- A database of one frame with one parameter, in a document whose values are numbered.
use Prim.Native.String.{compare}
use Prim.Native.Nat.{eq, lt, gt}
use j1939_framework.Base.{
  ℕ, ◌≡◌, refl, arith, Bool, true, false, ◌||◌, ◌&&◌, String, List, [], ◌∷◌, Option, none, some,
  ◌==◌, if◌then◌else◌,
}
use j1939_framework.Base.Dict
use j1939_framework.Header
use j1939_framework.Spn
use j1939_framework.Spn.{numeric}
use j1939_framework.Generic
use j1939_framework.Frame.{Frame, generic}
use j1939_framework.Database.{
  Json, returned, aborted, status_fits, build_status, ◌>>=◌, check, asserted, answered, error_ok,
  build_numeric,
}
use j1939_framework.Database.Parser.{
  Database, new_database, parse_json_file, parse_frames, parse_frame, parse_spns, parse_spn,
  parse_by_type, parse_spn_numeric, has_members,
}
use j1939_framework.Database.Accepted.{Allowed, parse_spn-Allowed}
use j1939_framework.Database.Limits.{build_status_aborts}

abbrev same_key : String → String → Bool
same_key s t = elim (compare s t) [ eq ↦ true | lt ↦ false | gt ↦ false ]

-- The members of the objects: the frame is 1, its parameter 4.
abbrev edges : List (ℕ × String × ℕ)
edges =
    (1, "pgn", 2)
    ∷ (1, "spns", 3)
    ∷ (4, "name", 5)
    ∷ (4, "number", 6)
    ∷ (4, "type", 7)
    ∷ (4, "offset", 8)
    ∷ (4, "formatGain", 9)
    ∷ (4, "formatOffset", 9)
    ∷ (4, "byteSize", 10)
    ∷ (4, "units", 5)
    ∷ []

abbrev look_up : List (ℕ × String × ℕ) → ℕ → String → Option ℕ
look_up [] j key = none
look_up ((i, k, target) ∷ rest) j key =
    let later = look_up rest j key in if i == j && same_key k key then some target else later

abbrev u_int_of : ℕ → Option ℕ
u_int_of j = Dict.find j ((2, 0xFEF1) ∷ (6, 84) ∷ (7, 0) ∷ (8, 1) ∷ (10, 2) ∷ [])

abbrev document : Json ℕ
document = record {
  is_array = λ j. j == 0 || (j == 3);
  is_u_int = λ j. elim (u_int_of j) [ none ↦ false | some n ↦ true ];
  is_string = λ j. j == 5;
  is_double = λ j. j == 9;
  is_null = λ j. j == 100;
  size = λ j. if j == 0 || (j == 3) then 1 else 0;
  as_u_int = λ j. elim (u_int_of j) [ none ↦ 0 | some n ↦ n ];
  as_string = λ j. if j == 5 then some "km/h" else none;
  is_member = λ j key. some (elim (look_up edges j key) [ none ↦ false | some t ↦ true ]);
  member = λ j key. some (elim (look_up edges j key) [ none ↦ 100 | some t ↦ t ]);
  element = λ j i. some (if j == 0 then 1 else 4);
}

abbrev speed_frame : Frame
speed_frame = record {
  header = Header.blank 0xFEF1 "Unknown";
  payload = generic (record {
    specified = 0;
    spns =
        (
          84,
          numeric (record {
            spec = record { spec_id = 0; number = 84; name = "km/h"; offset = 1 };
            byte_size = 2;
            value = 0xFFFFFFFF;
          }),
        )
        ∷ [];
  });
}

abbrev filled : Database
filled = record { frames = speed_frame ∷ []; error_code = error_ok; specs = 1 }

read_file : parse_json_file document new_database (some (some 0)) ≡ returned (filled, true)
unfolding parse_json_file parse_frames parse_frame parse_spns parse_spn parse_by_type
    parse_spn_numeric has_members build_numeric ◌>>=◌ check asserted answered Dict.find
    Header.construct Spn.construct_spec Spn.construct_numeric Generic.register_spn Dict.insert
    Spn.get_spn_number
read_file = refl

abbrev speed : Generic.Generic
speed = record Generic.empty {
  spns =
      (
        84,
        numeric (record {
          spec = record { spec_id = 0; number = 84; name = "km/h"; offset = 1 };
          byte_size = 2;
          value = 0xFFFFFFFF;
        }),
      )
      ∷ [];
}

read_spn : parse_spn document Generic.empty 0 4 ≡ returned speed
unfolding parse_spn parse_by_type parse_spn_numeric has_members build_numeric ◌>>=◌ check asserted
    answered Dict.find Spn.construct_spec Spn.construct_numeric Generic.register_spn Dict.insert
    Spn.get_spn_number
read_spn = refl

parse_spn-Allowed_example : Allowed document 7 10 100 100
parse_spn-Allowed_example =
    parse_spn-Allowed document Generic.empty speed 0 4 7 10 100 100 refl refl refl refl read_spn

build_status_aborts_example :
    (status_fits 0xFFFFFFFF 1 ≡ true)
    × (build_status Generic.empty 0 84 0xFFFFFFFF 1 "speed" 0 [] ≡ aborted)
build_status_aborts_example =
    build_status_aborts Generic.empty 0 84 0xFFFFFFFF 1 0 "speed" [] (omega arith) refl
