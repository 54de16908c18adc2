-- ===== src/History/Moments.antt =====
-- The moments of a window, in microseconds.
use native.Mathlib.Nat.{suc-mul, lt-div-mul-add, div-mul-le_self, mul-le-mul_left}
use j1939_framework.Base.{ℕ, zero, suc, ◌+◌, ◌-◌, ◌*◌, ◌/◌, ◌≤◌, ◌<◌, ◌≡◌, arith, true, false, leb}
use j1939_framework.TimeStamp.{
  TimeStamp, minus_millis, of_millis, plus_millis, plus, earlier_than, later_than, not_later,
  IsValid,
}
use j1939_framework.TimeStamp.Micros.{micros, minus_lem}

-- A time stamp whose microseconds may make up a whole second, as a sum leaves them.
pub record IsLoose (t : TimeStamp) : Type 0 where
  pub seconds_fit : t.seconds < 0x100000000
  pub within_second : t.micro_sec ≤ 1000000

pub plus_millis-IsLoose :
    (t : TimeStamp) (millis : ℕ)
    → IsLoose t
    → t.seconds + millis / 1000 < 0xFFFFFFFF
    → IsLoose (plus_millis t millis)
      × (micros (plus_millis t millis) ≡ micros t + millis * 1000)
      × (earlier_than (plus_millis t millis) t ≡ false)
unfolding plus_millis plus earlier_than
plus_millis-IsLoose t millis v room = (
  ground (arith, v.seconds_fit, v.within_second),
  ground (arith, v.seconds_fit, v.within_second),
  ground (arith, v.seconds_fit, v.within_second),
)

pub not_later-IsLoose :
    (t until : TimeStamp)
    → IsLoose t
    → IsValid until
    → not_later t until ≡ leb (micros t) (micros until)
unfolding not_later later_than
not_later-IsLoose t until v w = ground (arith, v.within_second, w.below_second)

pub suc_pred : (n : ℕ) → suc n - 1 ≡ n
suc_pred n = omega arith

-- How many moments a window has.
unfoldable pub moments : TimeStamp → ℕ → ℕ → ℕ
moments until millis count =
    suc ((micros until - micros (minus_millis until millis)) / (millis / count * 1000))

pub minus_millis_lem :
    (until : TimeStamp) (millis : ℕ)
    → IsValid until
    → until.seconds + millis / 1000 < 0xFFFFFFFF
    → IsLoose (minus_millis until millis)
      × (micros (minus_millis until millis) ≡ micros until - millis * 1000)
unfolding minus_millis
minus_millis_lem until millis u room =
    let m = of_millis millis in
    let w : IsValid m = record { seconds_fit = omega arith; below_second = omega arith } in
    let (valid, apart) = minus_lem until m u w in
    (
      record { seconds_fit = valid.seconds_fit; within_second = omega (arith, valid.below_second) },
      omega (arith, apart),
    )

whole_part : (q n m : ℕ) → m < q * n + n → n ≤ m → 0 < q
whole_part zero n m h k = absurd (omega arith)
whole_part (suc q) n m h k = omega arith

pub part_positive : (millis count : ℕ) → 0 < count → count ≤ millis → 0 < millis / count
part_positive millis count c m = whole_part (millis / count) count millis (lt-div-mul-add c) m

-- The moments reach the end of the window and no further, and there are at most `millis + 1`.
pub moments_lem :
    (until : TimeStamp) (millis count : ℕ)
    → 0 < count
    → count ≤ millis
    → micros (minus_millis until millis) ≡ micros until - millis * 1000
    → (micros until
        < micros (minus_millis until millis) + moments until millis count * (millis / count * 1000))
      × (micros (minus_millis until millis) + moments until millis count * (millis / count * 1000)
          ≤ micros until + millis / count * 1000)
      × (moments until millis count ≤ suc millis)
unfolding moments
moments_lem until millis count c m e =
    let begin = micros (minus_millis until millis) in
    let step = millis / count * 1000 in
    let gap = micros until - begin in
    let positive = part_positive millis count c m in
    let over : gap < gap / step * step + step = lt-div-mul-add (omega arith) in
    let under = div-mul-le_self gap step in
    let long : 1000 ≤ step = omega arith in
    let few = mul-le-mul_left (gap / step) long in
    let split = suc-mul (gap / step) step in (omega arith, omega arith, omega arith)

pub leb_of_le : (m n : ℕ) → m ≤ n → leb m n ≡ true
leb_of_le m n h = ground arith
