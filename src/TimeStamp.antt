-- ===== src/TimeStamp.antt =====
-- Utils::TimeStamp (Common/Utils.cpp): a time in seconds and microseconds.
pub mod Micros
use j1939_framework.Base.{
  ℕ, ◌+◌, ◌-◌, ◌*◌, ◌/◌, ◌%◌, ◌<◌, Bool, true, false, not, ◌||◌, ◌&&◌, ◌==◌, if◌then◌else◌, ltb,
  leb, u32,
}

pub record TimeStamp : Type 0 where
  pub seconds : ℕ
  pub micro_sec : ℕ

abbrev pub zero_time : TimeStamp
zero_time = record { seconds = 0; micro_sec = 0 }

-- `operator-`: nothing is below zero.
unfoldable pub minus : TimeStamp → TimeStamp → TimeStamp
minus a b =
    let borrowed : TimeStamp = record {
      seconds = u32 (a.seconds + 0xFFFFFFFF);
      micro_sec = u32 (a.micro_sec + 1000000);
    } in
    let from : TimeStamp = if ltb a.micro_sec b.micro_sec then borrowed else a in
    if ltb a.micro_sec b.micro_sec && leb a.seconds b.seconds
    then zero_time
    else if ltb from.seconds b.seconds
    then zero_time
    else record {
      seconds = from.seconds - b.seconds;
      micro_sec = u32 (from.micro_sec + 0x100000000 - b.micro_sec);
    }

-- `operator+`
unfoldable pub plus : TimeStamp → TimeStamp → TimeStamp
plus a b =
    let seconds = u32 (a.seconds + b.seconds) in
    let micro_sec = u32 (a.micro_sec + b.micro_sec) in
    if ltb 1000000 micro_sec
    then record { seconds = u32 (seconds + 1); micro_sec = micro_sec - 1000000 }
    else record { seconds = seconds; micro_sec = micro_sec }

-- The operators on milliseconds.
abbrev pub of_millis : ℕ → TimeStamp
of_millis millis = record { seconds = millis / 1000; micro_sec = millis % 1000 * 1000 }

unfoldable pub minus_millis : TimeStamp → ℕ → TimeStamp
minus_millis a millis = minus a (of_millis millis)

unfoldable pub plus_millis : TimeStamp → ℕ → TimeStamp
plus_millis a millis = plus a (of_millis millis)

unfoldable pub later_than : TimeStamp → TimeStamp → Bool
later_than a b =
    if ltb b.seconds a.seconds
    then true
    else if a.seconds == b.seconds && ltb b.micro_sec a.micro_sec
    then true
    else false

unfoldable pub earlier_than : TimeStamp → TimeStamp → Bool
earlier_than a b =
    if ltb a.seconds b.seconds
    then true
    else if a.seconds == b.seconds && ltb a.micro_sec b.micro_sec
    then true
    else false

unfoldable pub not_later : TimeStamp → TimeStamp → Bool
unfolding later_than
not_later a b = not (later_than a b)

unfoldable pub not_earlier : TimeStamp → TimeStamp → Bool
unfolding earlier_than
not_earlier a b = not (earlier_than a b)

-- The members are u32, and less than a second stands in microseconds.
pub record IsValid (t : TimeStamp) : Type 0 where
  pub seconds_fit : t.seconds < 0x100000000
  pub below_second : t.micro_sec < 1000000
