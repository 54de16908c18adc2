-- ===== src/Can/Sender/Period.antt =====
-- The periods of the frames of a ring (`CanFrameRing::getCurrentPeriod`) over a turn of the ring.
use j1939_framework.Base.{
  ℕ, zero, suc, ◌+◌, ◌-◌, ◌*◌, ◌/◌, ◌≤◌, ◌<◌, ◌≡◌, ◌∙◌, refl, ap, arith, length,
}
use native.Mathlib.Nat.{div-mul-le_self, add-mul, mul_comm, mul-le-mul_left}
use j1939_framework.Can.Sender.{Ring, shift, period_at, get_current_period}

-- A ring after `k` shifts, and the sum of the periods at the `k` places it stood at.
unfoldable pub shifts : ℕ → Ring → Ring
shifts zero r = r
shifts (suc k) r = shifts k (shift r)

unfoldable pub periods : ℕ → Ring → ℕ
periods zero r = 0
periods (suc k) r = get_current_period r + periods k (shift r)

abbrev at : Ring → ℕ → Ring
at r pos = record r { current_pos = pos }

pub get_current_period_lem :
    (r : Ring)
    → 0 < length r.frames
    → get_current_period r ≡ period_at r.period (length r.frames) r.current_pos
unfolding get_current_period
get_current_period_lem r h = ground arith

shift_next : (r : Ring) → suc r.current_pos < length r.frames → shift r ≡ at r (suc r.current_pos)
unfolding shift
shift_next r h = ground arith

shift_last : (r : Ring) → suc r.current_pos ≡ length r.frames → shift r ≡ at r 0
unfolding shift
shift_last r h = ground arith

zero_add : (n : ℕ) → 0 + n ≡ n
zero_add n = omega arith

shifts_step : (n k : ℕ) (r : Ring) → n ≡ suc k → shifts n r ≡ shifts k (shift r)
unfolding shifts
shifts_step n k r e = rw e refl

periods_step :
    (n k : ℕ) (r : Ring) → n ≡ suc k → periods n r ≡ get_current_period r + periods k (shift r)
unfolding periods
periods_step n k r e = rw e refl

shifts-add : (a b : ℕ) (r : Ring) → shifts (a + b) r ≡ shifts b (shifts a r)
unfolding shifts
shifts-add zero b r = rw (zero_add b) refl
shifts-add (suc a) b r = shifts_step (suc a + b) (a + b) r (omega arith) ∙ shifts-add a b (shift r)

pub periods-add : (a b : ℕ) (r : Ring) → periods (a + b) r ≡ periods a r + periods b (shifts a r)
unfolding shifts periods
periods-add zero b r = rw (zero_add b) (omega arith)
periods-add (suc a) b r =
    periods_step (suc a + b) (a + b) r (omega arith)
    ∙ ap (λ n. get_current_period r + n) (periods-add a b (shift r))
    ∙ omega arith

period_early :
    (r : Ring)
    → suc r.current_pos < length r.frames
    → get_current_period r ≡ r.period / length r.frames
unfolding period_at
period_early r h = get_current_period_lem r (omega arith) ∙ ground arith

period_last :
    (r : Ring)
    → suc r.current_pos ≡ length r.frames
    → get_current_period r ≡ r.period - r.period / length r.frames * (length r.frames - 1)
unfolding period_at
period_last r h = get_current_period_lem r (omega arith) ∙ ground arith

-- Before the last frame every period is the same.
run_up :
    (k : ℕ) (r : Ring)
    → r.current_pos + k < length r.frames
    → (shifts k r ≡ at r (r.current_pos + k)) × (periods k r ≡ k * (r.period / length r.frames))
unfolding shifts periods
run_up zero r h = (ap (at r) (omega arith), omega arith)
run_up (suc k) r h =
    let next = shift_next r (omega arith) in
    let rest = run_up k (at r (suc r.current_pos)) (omega arith) in
    let here : get_current_period r ≡ r.period / length r.frames = period_early r (omega arith) in
    (rw next (rest.0 ∙ ap (at r) (omega arith)), rw next (omega (arith, here, rest.1)))

cut : (p n : ℕ) → p / n * (n - 1) ≤ p
cut p n =
    let less : n - 1 ≤ n = omega arith in
    omega (arith, div-mul-le_self p n, mul-le-mul_left (p / n) less)

whole : (q a b m p : ℕ) → a + b ≡ m → q * m ≤ p → a * q + (p - q * m + b * q) ≡ p
whole q a b m p e h = let split = add-mul a b q in omega (arith, ap (λ n. n * q) e, mul_comm q m)

-- From the last frame on round to the place of the ring.
wrap_round :
    (r : Ring)
    → r.current_pos < length r.frames
    → (shifts (1 + r.current_pos) (at r (length r.frames - 1)) ≡ r)
      × (periods (1 + r.current_pos) (at r (length r.frames - 1))
          ≡ r.period
            - r.period / length r.frames * (length r.frames - 1)
            + r.current_pos * (r.period / length r.frames))
wrap_round r h =
    let last = at r (length r.frames - 1) in
    let next = shift_last last (omega arith) in
    let rest = run_up r.current_pos (at r 0) (omega arith) in
    (
      shifts_step (1 + r.current_pos) r.current_pos last (omega arith)
          ∙ rw next (rest.0 ∙ ap (at r) (omega arith)),
      periods_step (1 + r.current_pos) r.current_pos last (omega arith)
          ∙ rw next (omega (arith, period_last last (omega arith), rest.1)),
    )

-- Over as many shifts as a ring has frames, from whichever of its frames it stands at, the ring comes
-- back to where it was, and the periods of the frames add up to the period of the ring, what the
-- division by the number of frames cuts off included.
pub turn :
    (r : Ring)
    → r.current_pos < length r.frames
    → (shifts (length r.frames) r ≡ r) × (periods (length r.frames) r ≡ r.period)
turn r h =
    let before = length r.frames - 1 - r.current_pos in
    let split : length r.frames ≡ before + (1 + r.current_pos) = omega arith in
    let up = run_up before r (omega arith) in
    let there : shifts before r ≡ at r (length r.frames - 1) = up.0 ∙ ap (at r) (omega arith) in
    let round = wrap_round r h in
    (
      ap (λ n. shifts n r) split ∙ shifts-add before (1 + r.current_pos) r ∙ rw there round.0,
      ap (λ n. periods n r) split
          ∙ periods-add before (1 + r.current_pos) r
          ∙ rw there (
              omega (
                arith,
                up.1,
                round.1,
                whole (r.period / length r.frames) before r.current_pos (length r.frames - 1)
                    r.period (omega arith) (cut r.period (length r.frames)),
              )),
    )
