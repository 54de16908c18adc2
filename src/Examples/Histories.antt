-- ===== src/Examples/Histories.antt =====
-- Histories, with values that are whole numbers.
use j1939_framework.Base.{
  ℕ, ◌+◌, ◌*◌, ◌<◌, ◌≡◌, refl, arith, List, [], ◌∷◌, none, some, length, ◌==◌,
}
use j1939_framework.Base.Dict
use j1939_framework.Common.{ok}
use j1939_framework.Spn.{
  Spn, numeric, Numeric, Spec, spn_numeric, get_type, get_spec, get_spn_number,
}
use j1939_framework.TimeStamp.{TimeStamp, zero_time, earlier_than, minus_millis, IsValid}
use j1939_framework.History.{
  of_numeric, Sample, History, new_history, add_sample, get_window, save_to_history, adopt_spec,
  set_specs, is_same_spec, value_of, store_sample, is_unchanged, equals, history_key,
}
use j1939_framework.History.Chain.{IsHistory}
use j1939_framework.History.Samples.{add_all, IsUsage, last_time, add_all-IsHistory}
use j1939_framework.History.Moments.{moments}
use j1939_framework.History.Window.{IsSorted, resample, get_window_lem}
use j1939_framework.History.Size.{get_window_exceeds, get_window_never}
use j1939_framework.History.Store.{history_of, save_to_history_lem}

abbrev scaled : Numeric → ℕ
scaled n = n.value * 2 + 1

abbrev speed_spec : Spec
speed_spec = record { spec_id = 7; number = 84; name = "speed"; offset = 0 }

abbrev speed : ℕ → Spn
speed v = numeric (record { spec = speed_spec; byte_size = 2; value = v })

abbrev at_time : ℕ → ℕ → TimeStamp
at_time sec usec = record { seconds = sec; micro_sec = usec }

abbrev calls : List (TimeStamp × Spn)
calls = (at_time 1 0, speed 10) ∷ (at_time 2 500000, speed 10) ∷ (at_time 3 0, speed 12) ∷ []

calls-IsUsage : IsUsage (λ id. spn_numeric) zero_time calls
unfolding earlier_than get_type
calls-IsUsage = (refl, refl, (refl, refl, (refl, refl, tt)))

add_all-IsHistory_example :
    (h : History ℕ) × (add_all ◌==◌ scaled calls new_history ≡ ok h)
    × IsHistory ◌==◌ (λ id. spn_numeric) (last_time zero_time calls) h
add_all-IsHistory_example = add_all-IsHistory ◌==◌ scaled (λ id. spn_numeric) calls calls-IsUsage

abbrev first : Sample ℕ
first = record { time_stamp = at_time 1 0; value = of_numeric 21 }

abbrev second : Sample ℕ
second = record { time_stamp = at_time 3 0; value = of_numeric 25 }

abbrev speeds : History ℕ
speeds = record {
  general_spec = some speed_spec;
  numeric_spec = some 2;
  status_spec = none;
  samples = first ∷ second ∷ [];
  capacity = 50000;
}

abbrev moment : TimeStamp
moment = at_time 4 200000

moment-IsValid : IsValid moment
moment-IsValid = record { seconds_fit = omega arith; below_second = omega arith }

speeds-IsSorted : IsSorted first (second ∷ [])
unfolding earlier_than
speeds-IsSorted = (refl, tt)

get_window_lem_example :
    get_window 2002 speeds moment 2000 3
    ≡ ok
        (some (resample (moments moment 2000 3) 666 (minus_millis moment 2000) first (second ∷ [])))
get_window_lem_example =
    get_window_lem 2002 2000 3 speeds moment first second [] refl speeds-IsSorted moment-IsValid
      (omega arith) (omega arith) (omega arith) (omega arith)

get_window_exceeds_example :
    (window : List (Sample ℕ)) × (get_window 2002 speeds moment 2000 1001 ≡ ok (some window))
    × (length window ≡ 2001)
    × (1001 < length window)
get_window_exceeds_example =
    get_window_exceeds 2000 1001 speeds moment first second [] refl speeds-IsSorted moment-IsValid
      (omega arith) (omega arith) (omega arith) (omega arith)

get_window_never_example : get_window 1000000 speeds moment 20 21 ≡ ok none
get_window_never_example =
    get_window_never 1000000 20 21 speeds moment first second [] refl speeds-IsSorted moment-IsValid
      (omega arith) (omega arith)

abbrev grown : History ℕ
grown = record speeds {
  samples = first ∷ second ∷ record { time_stamp = moment; value = of_numeric 11 } ∷ [];
}

abbrev key : ℕ
key = 84 * 0x100000000 + 0x18FEF100

saved :
    save_to_history ◌==◌ scaled ((key, speeds) ∷ []) 0x18FEF100 (speed 5) moment
    ≡ ok ((key, grown) ∷ [])
unfolding save_to_history add_sample adopt_spec set_specs is_same_spec value_of store_sample
    is_unchanged equals history_key get_spn_number get_spec Dict.find Dict.insert
saved = refl

spn_number : get_spn_number (speed 5) < 0x100000000
unfolding get_spn_number get_spec
spn_number = omega arith

save_to_history_lem_example :
    (add_sample ◌==◌ scaled
        (history_of ((key, speeds) ∷ []) 0x18FEF100 (get_spn_number (speed 5)))
        moment
        (speed 5)
      ≡ ok (history_of ((key, grown) ∷ []) 0x18FEF100 (get_spn_number (speed 5))))
    × (history_of ((key, grown) ∷ []) 0x18FEF101 84 ≡ history_of ((key, speeds) ∷ []) 0x18FEF101 84)
save_to_history_lem_example =
    save_to_history_lem ◌==◌ scaled ((key, speeds) ∷ []) ((key, grown) ∷ []) 0x18FEF100 (speed 5)
      moment 0x18FEF101 84 (omega arith) spn_number (omega arith) (omega arith)
      (λ same. absurd (omega arith)) saved
