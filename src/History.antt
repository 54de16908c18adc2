-- ===== src/History.antt =====
-- J1939/SPN/SPNHistory.cpp and J1939/include/SPN/SPNHistory.h: the values that a parameter has had,
-- and the histories of GUI_WEB/backend/src/graph.cpp. A formatted value is a double; its type, its
-- test and its computation from a parameter (`getFormattedValue`) are the section's parameters.
pub mod Chain
pub mod Samples
pub mod Moments
pub mod Window
pub mod Size
pub mod Store
use j1939_framework.Base.{
  ℕ, zero, suc, ◌+◌, ◌-◌, ◌*◌, ◌/◌, Bool, true, false, not, ◌&&◌, List, [], ◌∷◌, ◌++◌, Option, none,
  some, ◌==◌, if◌then◌else◌, length, ltb, String, bit_or, ◌<<◌, ◌%◌, ◌^◌,
}
use j1939_framework.Base.Dict
use j1939_framework.Common.{Result, ok, err, ◌>>=◌, fault}
use j1939_framework.Spn.{
  Spn, numeric, status, text, Numeric, Status, Spec, get_spec, get_spn_number,
}
use j1939_framework.TimeStamp.{
  TimeStamp, minus_millis, plus_millis, earlier_than, not_later, not_earlier,
}

-- MAX_NUMBER_OF_SAMPLES
abbrev pub max_number_of_samples : ℕ
max_number_of_samples = 50000

-- The union of a sample, with the member that was written.
pub data Value {ℓ} (D : Type ℓ) : Type ℓ where
  of_numeric : D → Value D
  of_status : ℕ → Value D

pub record Sample {ℓ} (D : Type ℓ) : Type ℓ where
  pub time_stamp : TimeStamp
  pub value : Value D

-- SPNHistory. Of the special specification the size, or the place and the size of the bits.
pub record History {ℓ} (D : Type ℓ) : Type ℓ where
  pub general_spec : Option Spec
  pub numeric_spec : Option ℕ
  pub status_spec : Option (ℕ × ℕ)
  pub samples : List (Sample D)
  pub capacity : ℕ

-- Specifications are compared by their pointers.
unfoldable pub is_same_spec : Option Spec → Spec → Bool
is_same_spec none spec = false
is_same_spec (some s) spec = s.spec_id == spec.spec_id

module _ {ℓ} {D : Type ℓ} where
  -- `reserve` gives at least this capacity; here it gives exactly this one.
  abbrev pub new_history : History D
  new_history = record {
    general_spec = none;
    numeric_spec = none;
    status_spec = none;
    samples = [];
    capacity = max_number_of_samples;
  }

  -- `back()` of samples that are not empty.
  abbrev pub back : Sample D → List (Sample D) → Sample D
  back s [] = s
  back s (t ∷ rest) = back t rest

  abbrev pub set_time_stamp : Sample D → TimeStamp → Sample D
  set_time_stamp s t = record s { time_stamp = t }

  -- The specifications of the first parameter that is added.
  unfoldable pub set_specs : History D → Spn → History D
  set_specs h (numeric n) = record h { general_spec = some n.spec; numeric_spec = some n.byte_size }
  set_specs h (status s) = record h {
    general_spec = some s.spec;
    status_spec = some (s.bit_offset, s.bit_size);
  }
  set_specs h (text t) = record h { general_spec = some t.spec }

  unfoldable pub adopt_spec : History D → Spn → History D
  adopt_spec h spn = elim h.general_spec [ some spec ↦ h | none ↦ set_specs h spn ]

-- The histories by identifier of the frame and number of the parameter in graph.cpp.
unfoldable pub history_key : ℕ → ℕ → ℕ
history_key id number = bit_or id ((number << 32) % 2 ^ 64)

module _ {ℓ} {D : Type ℓ} (same_double : D → D → Bool) where
  -- Reading the member of a union that was not written is a fault.
  unfoldable pub equals : Value D → Value D → Result Bool
  equals (of_numeric x) (of_numeric y) = ok (same_double x y)
  equals (of_numeric x) (of_status y) = err fault
  equals (of_status x) (of_numeric y) = err fault
  equals (of_status x) (of_status y) = ok (x == y)

  -- Whether the last sample has this value.
  unfoldable pub is_unchanged : List (Sample D) → Value D → Result Bool
  is_unchanged [] v = ok false
  is_unchanged (s ∷ rest) v = equals (back s rest).value v

  -- The end of `addSample`: the sample is pushed unless its value is that of the last one.
  unfoldable pub store_sample : History D → TimeStamp → Value D → Result (History D)
  store_sample h time v = do
    unchanged ← is_unchanged h.samples v
    ok (
        if unchanged
        then h
        else record h { samples = h.samples ++ record { time_stamp = time; value = v } ∷ [] })

module _ {ℓ} {D : Type ℓ} (get_formatted_value : Numeric → D) where
  unfoldable pub value_of : Spn → Option (Value D)
  value_of (numeric n) = some (of_numeric (get_formatted_value n))
  value_of (status s) = some (of_status s.value)
  value_of (text t) = none

module _ {ℓ} {D : Type ℓ} (same_double : D → D → Bool) (get_formatted_value : Numeric → D) where
  -- `addSample`
  unfoldable pub add_sample : History D → TimeStamp → Spn → Result (History D)
  unfolding adopt_spec
  add_sample h time spn =
      if length h.samples == h.capacity
      then ok h
      else let h' = adopt_spec h spn in
        if not (is_same_spec h'.general_spec (get_spec spn))
        then ok h'
        else elim (value_of get_formatted_value spn) [
          | none ↦ ok h'
          | some v ↦ store_sample same_double h' time v
        ]

  unfoldable pub save_to_history :
      List (ℕ × History D) → ℕ → Spn → TimeStamp → Result (List (ℕ × History D))
  save_to_history histories id spn now =
      let key = history_key id (get_spn_number spn) in
      let history : History D = elim (Dict.find key histories) [
        | none ↦ new_history
        | some h ↦ h
      ] in
      do history' ← add_sample history now spn; ok (Dict.insert key history' histories)

module _ {ℓ} {D : Type ℓ} where
  -- `std::upper_bound` on samples in the order of their time stamps: how many are not later.
  unfoldable pub upper_bound : TimeStamp → List (Sample D) → ℕ
  upper_bound t [] = 0
  upper_bound t (s ∷ rest) =
      let n = upper_bound t rest in if earlier_than t s.time_stamp then 0 else suc n

  -- A place in the samples is the sample that stands there and those behind it.
  unfoldable pub place_at : ℕ → Sample D → List (Sample D) → Sample D × List (Sample D)
  place_at zero s rest = (s, rest)
  place_at (suc pos) s [] = (s, [])
  place_at (suc pos) s (t ∷ rest) = place_at pos t rest

  -- The inner loop of `getWindow`.
  unfoldable pub advance : TimeStamp → Sample D → List (Sample D) → Sample D × List (Sample D)
  advance current s [] = (s, [])
  advance current s (t ∷ rest) =
      let further = advance current t rest in
      if not_earlier current t.time_stamp then further else (s, t ∷ rest)

  -- The outer loop; `none` is fuel that ran out.
  unfoldable pub window_loop :
      ℕ → TimeStamp → ℕ → TimeStamp → Sample D → List (Sample D) → Option (List (Sample D))
  window_loop zero until period current s rest = none
  window_loop (suc fuel) until period current s rest =
      let next = plus_millis current period in
      let (s', rest') = advance next s rest in
      let behind = window_loop fuel until period next s' rest' in
      if not (not_later current until)
      then some []
      else elim behind [ none ↦ none | some window ↦ some (set_time_stamp s current ∷ window) ]

  -- The body of `getWindow` on the samples; a division by zero is a fault.
  unfoldable pub window_of :
      ℕ → List (Sample D) → TimeStamp → ℕ → ℕ → Result (Option (List (Sample D)))
  window_of fuel [] time millis count = ok (some [])
  window_of fuel (s ∷ []) time millis count = ok (some [])
  window_of fuel (s ∷ t ∷ rest) time millis count =
      if count == 0
      then err fault
      else let current = minus_millis time millis in
        let (s', rest') = place_at (upper_bound current (s ∷ t ∷ rest) - 1) s (t ∷ rest) in
        ok (window_loop fuel time (millis / count) current s' rest')

  abbrev pub get_window : ℕ → History D → TimeStamp → ℕ → ℕ → Result (Option (List (Sample D)))
  get_window fuel h time millis count = window_of fuel h.samples time millis count
