-- ===== src/Database.antt =====
-- J1939/J1939DataBase.cpp: the reading of a database of frames from a JSON document, and its writing
-- (Writer). The document and what the JSON library answers about it are parameters.
pub mod Parser
pub mod Sound
pub mod Parameters
pub mod Accepted
pub mod Parsed
pub mod Limits
pub mod Writer
pub mod Descriptions
pub mod Renewed
pub mod RoundTrip
use j1939_framework.Base.{
  ℕ, zero, suc, ◌+◌, ◌<◌, ◌≡◌, Bool, true, false, not, ◌&&◌, ◌||◌, String, List, [], ◌∷◌, ◌++◌,
  Option, none, some, ◌==◌, ltb, leb, if◌then◌else◌, u8, u32,
}
use j1939_framework.Base.Dict
use j1939_framework.Common.{spn_numeric_max_byte_size}
use j1939_framework.Header
use j1939_framework.Spn.{
  Spn, numeric, status, text, Spec, Numeric, Status, construct_spec, construct_numeric,
  construct_status,
}
use j1939_framework.Generic
use j1939_framework.Generic.{Generic, register_spn}
use j1939_framework.Frame.{Frame, generic}
use j1939_framework.Diagnosis.{dm1_pgn}

pub data ErrorCode : Type 0 where
  error_ok error_file_not_found error_json_syntax error_unexpected_tokens : ErrorCode
  error_out_of_range error_unknown_spn_type error_forbidden_token : ErrorCode

-- What a call comes to: a value, `return false` with the error code that is then set, an exception of
-- the JSON library, or a failed assertion, which ends the process.
pub data Outcome {ℓ} (A : Type ℓ) : Type ℓ where
  returned : A → Outcome A
  refused : ErrorCode → Outcome A
  thrown aborted : Outcome A

infixl 5 ◌>>=◌
unfoldable pub ◌>>=◌ {ℓ κ} : {A : Type ℓ} {B : Type κ} → Outcome A → (A → Outcome B) → Outcome B
returned a >>= f = f a
refused e >>= f = refused e
thrown >>= f = thrown
aborted >>= f = aborted

-- `if (!condition) return false`
unfoldable pub check : Bool → ErrorCode → Outcome (Unit {0})
check condition e = if condition then returned tt else refused e

unfoldable pub asserted {ℓ} : {A : Type ℓ} → Option A → Outcome A
asserted none = aborted
asserted (some a) = returned a

-- `Json::Value` as the code reads it; `none` is an exception.
pub record Json {ℓ} (J : Type ℓ) : Type ℓ where
  pub is_array : J → Bool
  pub is_u_int : J → Bool
  pub is_string : J → Bool
  pub is_double : J → Bool
  pub is_null : J → Bool
  pub size : J → ℕ
  pub as_u_int : J → ℕ
  pub as_string : J → Option String
  pub is_member : J → String → Option Bool
  pub member : J → String → Option J
  pub element : J → ℕ → Option J

unfoldable pub answered {ℓ} : {A : Type ℓ} → Option A → Outcome A
answered none = thrown
answered (some a) = returned a

-- The last conditions and the construction of a numeric parameter, `id` being its specification.
unfoldable pub build_numeric : Generic → (id number byte_size : ℕ) → String → ℕ → Outcome Generic
build_numeric frame id number byte_size name offset = do
  in_range ←
      check (leb byte_size spn_numeric_max_byte_size && not (byte_size == 0)) error_out_of_range
  spec ← asserted (construct_spec id number name offset)
  built ← asserted (construct_numeric spec (u8 byte_size))
  asserted (register_spn frame (numeric built))

-- The limits of a status; the sum of the two u32 wraps.
unfoldable pub status_fits : (bit_offset bit_size : ℕ) → Bool
status_fits bit_offset bit_size = not (bit_size == 0) && leb (u32 (bit_size + bit_offset)) 8

unfoldable pub build_status :
    Generic → (id number bit_offset bit_size : ℕ) → String → ℕ → List (ℕ × String) → Outcome Generic
build_status frame id number bit_offset bit_size name offset descriptions = do
  spec ← asserted (construct_spec id number name offset)
  built ← asserted (construct_status spec (u8 bit_offset) (u8 bit_size) descriptions)
  asserted (register_spn frame (status built))

unfoldable pub build_string : Generic → (id number : ℕ) → String → Outcome Generic
build_string frame id number name = do
  spec ← asserted (construct_spec id number name 0)
  asserted (register_spn frame (text (record { spec = spec; offset = 0; value = [] })))
