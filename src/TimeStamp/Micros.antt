-- ===== src/TimeStamp/Micros.antt =====
-- Time stamps against the number of microseconds that they stand for.
use j1939_framework.Base.{ℕ, ◌+◌, ◌-◌, ◌*◌, ◌/◌, ◌%◌, ◌<◌, ◌≡◌, arith, true, ltb, leb, ◌≢◌}
use j1939_framework.TimeStamp.{
  TimeStamp, IsValid, minus, plus, minus_millis, plus_millis, of_millis, later_than, earlier_than,
  not_later, not_earlier,
}

abbrev pub micros : TimeStamp → ℕ
micros t = t.seconds * 1000000 + t.micro_sec

-- The difference of two valid time stamps is the valid time stamp of the microseconds between them, and
-- of none if the second is the later one: the borrowed second never leads below zero.
pub minus_lem :
    (a b : TimeStamp)
    → IsValid a
    → IsValid b
    → IsValid (minus a b) × (micros (minus a b) ≡ micros a - micros b)
unfolding minus
minus_lem a b v w = (
  ground (arith, v.seconds_fit, v.below_second, w.seconds_fit, w.below_second),
  ground (arith, v.seconds_fit, v.below_second, w.seconds_fit, w.below_second),
)

plus_lem :
    (a b : TimeStamp)
    → IsValid a
    → IsValid b
    → a.seconds + b.seconds < 0xFFFFFFFF
    → micros (plus a b) ≡ micros a + micros b
unfolding plus
plus_lem a b v w room = ground (arith, v.seconds_fit, v.below_second, w.seconds_fit, w.below_second)

plus-IsValid :
    (a b : TimeStamp)
    → IsValid a
    → IsValid b
    → a.seconds + b.seconds < 0xFFFFFFFF
    → a.micro_sec + b.micro_sec ≢ 1000000
    → IsValid (plus a b)
unfolding plus
plus-IsValid a b v w room no_tie =
    ground (arith, v.seconds_fit, v.below_second, w.seconds_fit, w.below_second)

-- Adding milliseconds to a valid time stamp and taking them away again gives the same moment, as long
-- as the seconds of the sum stay below the greatest u32 and the microseconds do not add up to
-- exactly one second.
minus_millis-plus_millis :
    (a : TimeStamp) (millis : ℕ)
    → IsValid a
    → a.seconds + millis / 1000 < 0xFFFFFFFF
    → a.micro_sec + millis % 1000 * 1000 ≢ 1000000
    → micros (minus_millis (plus_millis a millis) millis) ≡ micros a
unfolding minus_millis plus_millis
minus_millis-plus_millis a millis v room no_tie =
    let m = of_millis millis in
    let w : IsValid m = record { seconds_fit = omega arith; below_second = omega arith } in
    let sum = plus-IsValid a m v w room no_tie in
    omega (arith, (minus_lem (plus a m) m sum w).1, plus_lem a m v w room)

-- On valid time stamps the four comparisons are those of the microseconds.
order_lem :
    (a b : TimeStamp)
    → IsValid a
    → IsValid b
    → (earlier_than a b ≡ ltb (micros a) (micros b))
      × (later_than a b ≡ ltb (micros b) (micros a))
      × (not_later a b ≡ leb (micros a) (micros b))
      × (not_earlier a b ≡ leb (micros b) (micros a))
unfolding earlier_than later_than not_later not_earlier
order_lem a b v w = (
  ground (arith, v.below_second, w.below_second),
  ground (arith, v.below_second, w.below_second),
  ground (arith, v.below_second, w.below_second),
  ground (arith, v.below_second, w.below_second),
)

-- Where the microseconds of two valid time stamps add up to exactly one second, the sum keeps them:
-- it stands for the right moment, but counts as earlier than the valid time stamp of that moment.
pub plus_tie :
    (a b c : TimeStamp)
    → IsValid a
    → IsValid b
    → IsValid c
    → a.micro_sec + b.micro_sec ≡ 1000000
    → micros c ≡ micros a + micros b
    → (micros (plus a b) ≡ micros c) × (earlier_than (plus a b) c ≡ true)
unfolding plus earlier_than
plus_tie a b c v w u tie same = (
  ground (arith, v.seconds_fit, w.seconds_fit, u.seconds_fit, u.below_second),
  ground (arith, v.seconds_fit, w.seconds_fit, u.seconds_fit, u.below_second),
)
