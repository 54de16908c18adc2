-- ===== src/Examples/Times.antt =====
-- Time stamps.
use j1939_framework.Base.{◌≡◌, refl, arith, true}
use j1939_framework.TimeStamp.{TimeStamp, IsValid, plus, earlier_than}
use j1939_framework.TimeStamp.Micros.{micros, plus_tie}

abbrev early : TimeStamp
early = record { seconds = 5; micro_sec = 700000 }

abbrev late : TimeStamp
late = record { seconds = 9; micro_sec = 300000 }

early-IsValid : IsValid early
early-IsValid = record { seconds_fit = omega arith; below_second = omega arith }

late-IsValid : IsValid late
late-IsValid = record { seconds_fit = omega arith; below_second = omega arith }

abbrev together : TimeStamp
together = record { seconds = 15; micro_sec = 0 }

together-IsValid : IsValid together
together-IsValid = record { seconds_fit = omega arith; below_second = omega arith }

plus_tie_example :
    (micros (plus early late) ≡ micros together) × (earlier_than (plus early late) together ≡ true)
plus_tie_example =
    plus_tie early late together early-IsValid late-IsValid together-IsValid refl refl
