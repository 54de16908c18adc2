-- ===== src/History/Window.antt =====
-- The window of a history (`getWindow`) against a look at the samples for each moment of it.
use native.Mathlib.Nat.{suc-mul, div-le_self}
use j1939_framework.Base.{
  ℕ, zero, suc, ◌+◌, ◌-◌, ◌*◌, ◌/◌, ◌≤◌, ◌<◌, ◌≡◌, ◌∙◌, inl, inr, refl, sym, ap, arith, true, false,
  List, [], ◌∷◌, Option, none, some, if◌then◌else◌, Bool-cases,
}
use j1939_framework.Common.{ok}
use j1939_framework.TimeStamp.{
  TimeStamp, minus_millis, plus_millis, earlier_than, not_later, not_earlier, IsValid,
}
use j1939_framework.TimeStamp.Micros.{micros}
use j1939_framework.History.{
  Sample, History, set_time_stamp, upper_bound, place_at, advance, window_loop, window_of,
  get_window,
}
use j1939_framework.History.Moments.{
  IsLoose, plus_millis-IsLoose, not_later-IsLoose, suc_pred, moments, minus_millis_lem, moments_lem,
  leb_of_le,
}

module _ {ℓ} {D : Type ℓ} where
  abbrev pub IsSorted : Sample D → List (Sample D) → Type 0
  IsSorted s [] = Unit {0}
  IsSorted s (t ∷ rest) = (earlier_than t.time_stamp s.time_stamp ≡ false) × IsSorted t rest

  -- The newest of the samples that are not later than a moment, or else the first sample.
  unfoldable pub newest : TimeStamp → List (Sample D) → Option (Sample D)
  newest t [] = none
  newest t (s ∷ rest) = elim (newest t rest) [
    | some r ↦ some r
    | none ↦ if earlier_than t s.time_stamp then none else some s
  ]

  unfoldable pub value_at : TimeStamp → Sample D → List (Sample D) → Sample D
  value_at t s rest = elim (newest t (s ∷ rest)) [ none ↦ s | some r ↦ r ]

  -- `n` moments, a period apart, with the sample of each.
  unfoldable pub resample : ℕ → ℕ → TimeStamp → Sample D → List (Sample D) → List (Sample D)
  resample zero period t s rest = []
  resample (suc n) period t s rest =
      set_time_stamp (value_at t s rest) t ∷ resample n period (plus_millis t period) s rest

  newest-none :
      (t : TimeStamp) (s : Sample D) (rest : List (Sample D))
      → earlier_than t s.time_stamp ≡ true
      → IsSorted s rest
      → newest t (s ∷ rest) ≡ none
  unfolding newest earlier_than
  newest-none t s [] e o = ground arith
  newest-none t s (r ∷ rest) e o = ground (arith, newest-none t r rest)

  advance-value_at :
      (t : TimeStamp) (s : Sample D) (rest : List (Sample D))
      → IsSorted s rest
      → (advance t s rest).0 ≡ value_at t s rest
  unfolding advance value_at newest not_earlier
  advance-value_at t s [] o = ground arith
  advance-value_at t s (r ∷ rest) o =
      ground (arith, advance-value_at t r rest o.1, newest-none t r rest)

  -- What has been passed at one moment is passed at a later one too.
  advance-advance :
      (a b : TimeStamp) (s : Sample D) (rest : List (Sample D))
      → earlier_than b a ≡ false
      → advance b (advance a s rest).0 (advance a s rest).1 ≡ advance b s rest
  unfolding advance not_earlier earlier_than
  advance-advance a b s [] e = refl
  advance-advance a b s (r ∷ rest) e = ground (arith, advance-advance a b r rest e)

  -- The search for the beginning of a window.
  place_at-upper_bound :
      (t : TimeStamp) (s : Sample D) (rest : List (Sample D))
      → place_at (upper_bound t rest) s rest ≡ advance t s rest
  unfolding place_at upper_bound advance not_earlier
  place_at-upper_bound t s [] = refl
  place_at-upper_bound t s (r ∷ rest) = ground (arith, place_at-upper_bound t r rest)

  advance_none :
      (t : TimeStamp) (s : Sample D) (rest : List (Sample D))
      → earlier_than t s.time_stamp ≡ true
      → IsSorted s rest
      → advance t s rest ≡ (s, rest)
  unfolding advance not_earlier earlier_than
  advance_none t s [] e o = refl
  advance_none t s (r ∷ rest) e o = ground arith

  start_lem :
      (t : TimeStamp) (s : Sample D) (rest : List (Sample D))
      → IsSorted s rest
      → place_at (upper_bound t (s ∷ rest) - 1) s rest ≡ advance t s rest
  unfolding upper_bound
  start_lem t s rest o = elim (Bool-cases (earlier_than t s.time_stamp)) [
    | inl before ↦ rw before (unfold place_at in sym (advance_none t s rest before o))
    | inr after ↦ rw after (rw (suc_pred (upper_bound t rest)) (place_at-upper_bound t s rest))
  ]

  -- The loop takes the moments up to the end, of which there are `n`.
  window_loop_lem :
      (fuel n period : ℕ) (until t : TimeStamp) (s : Sample D) (rest : List (Sample D))
      → n < fuel
      → IsSorted s rest
      → IsValid until
      → IsLoose t
      → until.seconds + period / 1000 < 0xFFFFFFFF
      → micros until < micros t + n * (period * 1000)
      → micros t + n * (period * 1000) ≤ micros until + period * 1000
      → window_loop fuel until period t (advance t s rest).0 (advance t s rest).1
        ≡ some (resample n period t s rest)
  unfolding window_loop resample
  window_loop_lem zero n period until t s rest f o u v room after before = absurd (omega arith)
  window_loop_lem (suc fuel) zero period until t s rest f o u v room after before =
      ground (arith, not_later-IsLoose t until v u)
  window_loop_lem (suc fuel) (suc n) period until t s rest f o u v room after before =
      let split = suc-mul n (period * 1000) in
      let (loose, moved, forth) = plus_millis-IsLoose t period v (omega arith) in
      let ahead =
        window_loop_lem fuel n period until (plus_millis t period) s rest (omega arith) o u loose
          room (omega arith) (omega arith) in
      let near : not_later t until ≡ true =
        not_later-IsLoose t until v u ∙ leb_of_le (micros t) (micros until) (omega arith) in
      rw near (
        rw (advance-advance t (plus_millis t period) s rest forth)
          (rw ahead (rw (advance-value_at t s rest o) refl)))

  pub get_window_start :
      (fuel millis count : ℕ) (h : History D) (until : TimeStamp) (s t : Sample D)
      (rest : List (Sample D))
      → h.samples ≡ s ∷ t ∷ rest
      → IsSorted s (t ∷ rest)
      → 0 < count
      → get_window fuel h until millis count
        ≡ ok (
            window_loop fuel until
              (millis / count)
              (minus_millis until millis)
              (advance (minus_millis until millis) s (t ∷ rest)).0
              (advance (minus_millis until millis) s (t ∷ rest)).1)
  unfolding window_of
  get_window_start fuel millis count h until s t rest e o c =
      rw e (rw (start_lem (minus_millis until millis) s (t ∷ rest) o) (ground arith))

  -- A window of `millis` milliseconds in `count` parts, each of at least a millisecond, over at
  -- least two samples in the order of their times. The end of the window is a valid time stamp,
  -- whose seconds with those of the window stay below the greatest u32. With fuel for at least
  -- `millis + 2` rounds the loop ends, with one sample for each moment: the beginning, a period
  -- later, and so on up to the end of the window. Each is the newest sample that is not later than
  -- its moment, or the first one, with the moment as its time.
  pub get_window_lem :
      (fuel millis count : ℕ) (h : History D) (until : TimeStamp) (s t : Sample D)
      (rest : List (Sample D))
      → h.samples ≡ s ∷ t ∷ rest
      → IsSorted s (t ∷ rest)
      → IsValid until
      → 0 < count
      → count ≤ millis
      → until.seconds + millis / 1000 < 0xFFFFFFFF
      → suc millis < fuel
      → get_window fuel h until millis count
        ≡ ok (
            some (
              resample
                (moments until millis count)
                (millis / count)
                (minus_millis until millis)
                s
                (t ∷ rest)))
  get_window_lem fuel millis count h until s t rest e o u c m room f =
      let begin = minus_millis until millis in
      let (loose, apart) = minus_millis_lem until millis u room in
      let (after, before, few) = moments_lem until millis count c m apart in
      let part = div-le_self millis count in
      get_window_start fuel millis count h until s t rest e o c
      ∙ ap (λ w. ok w)
          (window_loop_lem fuel (moments until millis count) (millis / count) until begin s
            (t ∷ rest) (omega arith) o u loose (omega arith) after before)
