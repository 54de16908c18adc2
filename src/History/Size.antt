-- ===== src/History/Size.antt =====
-- How many samples a window has, and the window that never ends (`getWindow`).
use native.Mathlib.Nat.{mul-div-mul_right, div-eq_of_lt, mul-div-le, le-div_iff_mul-le}
use j1939_framework.Base.{
  ℕ, zero, suc, ◌+◌, ◌-◌, ◌*◌, ◌/◌, ◌≤◌, ◌<◌, ◌≡◌, ◌∙◌, refl, ap, arith, List, ◌∷◌, none, some,
  length,
}
use j1939_framework.Common.{ok}
use j1939_framework.TimeStamp.{TimeStamp, minus_millis, plus_millis, IsValid}
use j1939_framework.TimeStamp.Micros.{micros}
use j1939_framework.History.{Sample, History, advance, window_loop, get_window}
use j1939_framework.History.Moments.{
  IsLoose, moments, plus_millis-IsLoose, not_later-IsLoose, minus_millis_lem, part_positive,
  leb_of_le,
}
use j1939_framework.History.Window.{IsSorted, resample, get_window_start, get_window_lem}

-- A window that does not begin before time zero has a moment more than the parts that fit.
moments_full :
    (until : TimeStamp) (millis count : ℕ)
    → 0 < count
    → count ≤ millis
    → micros (minus_millis until millis) ≡ micros until - millis * 1000
    → millis * 1000 ≤ micros until
    → moments until millis count ≡ suc (millis / (millis / count))
unfolding moments
moments_full until millis count c m e full =
    let gap : micros until - micros (minus_millis until millis) ≡ millis * 1000 = omega arith in
    rw gap (ap suc (mul-div-mul_right millis (millis / count) (omega arith)))

parts_fit : (millis count : ℕ) → 0 < count → count ≤ millis → count ≤ millis / (millis / count)
parts_fit millis count c m =
    (le-div_iff_mul-le (part_positive millis count c m)).1 (mul-div-le millis count)

module _ {ℓ} {D : Type ℓ} where
  length-resample :
      (n period : ℕ) (t : TimeStamp) (s : Sample D) (rest : List (Sample D))
      → length (resample n period t s rest) ≡ n
  unfolding resample
  length-resample zero period t s rest = refl
  length-resample (suc n) period t s rest =
      ap suc (length-resample n period (plus_millis t period) s rest)

  -- A window that does not begin before time zero, in `count` parts of at least a millisecond,
  -- over at least two samples in the order of their times. The end of the window is a valid time
  -- stamp, whose seconds with those of the window stay below the greatest u32. The loop ends
  -- within `millis + 2` rounds, and the window has one sample more than the periods that fit into
  -- it, which is more than the `count` samples that were asked for.
  pub get_window_exceeds :
      (millis count : ℕ) (h : History D) (until : TimeStamp) (s t : Sample D)
      (rest : List (Sample D))
      → h.samples ≡ s ∷ t ∷ rest
      → IsSorted s (t ∷ rest)
      → IsValid until
      → 0 < count
      → count ≤ millis
      → until.seconds + millis / 1000 < 0xFFFFFFFF
      → millis * 1000 ≤ micros until
      → (window : List (Sample D)) × (get_window (millis + 2) h until millis count
          ≡ ok (some window))
        × (length window ≡ suc (millis / (millis / count)))
        × (count < length window)
  get_window_exceeds millis count h until s t rest e o u c m room full =
      let (loose, apart) = minus_millis_lem until millis u room in
      let size =
        length-resample (moments until millis count) (millis / count) (minus_millis until millis) s
          (t ∷ rest)
        ∙ moments_full until millis count c m apart full in
      (
        resample (moments until millis count) (millis / count) (minus_millis until millis) s
            (t ∷ rest),
        get_window_lem (millis + 2) millis count h until s t rest e o u c m room (omega arith),
        size,
        omega (arith, size, parts_fit millis count c m),
      )

  stuck :
      (fuel : ℕ) (until t : TimeStamp) (s : Sample D) (rest : List (Sample D))
      → IsValid until
      → IsLoose t
      → until.seconds < 0xFFFFFFFF
      → micros t ≤ micros until
      → window_loop fuel until 0 t s rest ≡ none
  unfolding window_loop
  stuck zero until t s rest u v room near = refl
  stuck (suc fuel) until t s rest u v room near =
      let (loose, moved, forth) = plus_millis-IsLoose t 0 v (omega arith) in
      let next = plus_millis t 0 in
      let on = not_later-IsLoose t until v u ∙ leb_of_le (micros t) (micros until) near in
      rw on (
        rw
          (stuck fuel until next (advance next s rest).0 (advance next s rest).1 u loose room
            (omega arith))
          refl)

  -- A window of fewer milliseconds than the samples that are asked for, over at least two samples
  -- in the order of their times. The end of the window is a valid time stamp, whose seconds with
  -- those of the window stay below the greatest u32. The period is zero, and no number of rounds
  -- ends the loop.
  pub get_window_never :
      (fuel millis count : ℕ) (h : History D) (until : TimeStamp) (s t : Sample D)
      (rest : List (Sample D))
      → h.samples ≡ s ∷ t ∷ rest
      → IsSorted s (t ∷ rest)
      → IsValid until
      → millis < count
      → until.seconds + millis / 1000 < 0xFFFFFFFF
      → get_window fuel h until millis count ≡ ok none
  get_window_never fuel millis count h until s t rest e o u m room =
      let begin = minus_millis until millis in
      let (loose, apart) = minus_millis_lem until millis u room in
      let none_left = div-eq_of_lt m in
      get_window_start fuel millis count h until s t rest e o (omega arith)
      ∙ rw none_left (
          ap (λ w. ok w)
            (stuck fuel until begin (advance begin s (t ∷ rest)).0 (advance begin s (t ∷ rest)).1 u
              loose (omega arith) (omega arith)))
