-- ===== src/Can/Sender/Timing.antt =====
-- The times at which a ring sends (`CommonCanSender::run`, `Utils::addMillis`).
use j1939_framework.Base.{
  ℕ, zero, suc, ◌+◌, ◌*◌, ◌<◌, ◌≡◌, ◌∙◌, refl, sym, ap, arith, true, List, [], ◌∷◌, length, some,
}
use j1939_framework.Common.{Result, ok, err, ◌>>=◌}
use j1939_framework.Can.{CanFrame}
use j1939_framework.Can.Sender.{
  Timespec, Ring, shift, get_current_period, add_millis, elapsed_millis, is_due, next_timestamp,
  poll_ring, replace_at, refresh,
}
use j1939_framework.Can.Sender.Period.{periods, turn, get_current_period_lem}
use j1939_framework.Can.Sender.Refinement.{
  frame_at-some, length-replace_at, shift-Running, frames-shift,
}

unfoldable pub nanos : Timespec → ℕ
nanos t = t.sec * 1000000000 + t.nsec

-- A time that stands `millis` after another, to the nanosecond, whether or not its nanoseconds are
-- less than a second.
nanos-add_millis :
    (t : Timespec) (millis : ℕ) → nanos (add_millis t millis) ≡ nanos t + millis * 1000000
unfolding nanos add_millis
nanos-add_millis t millis = omega arith

-- A ring polled at each of these times.
unfoldable pub poll_times : List Timespec → Ring → Result Ring
poll_times [] r = ok r
poll_times (now ∷ nows) r = poll_ring now r >>= (λ (q, f). poll_times nows q)

-- At each of these times the ring is due, and late by less than the period of the frame after it.
abbrev pub IsOnTime : List Timespec → Ring → Type 0
IsOnTime [] r = Unit {0}
IsOnTime (now ∷ nows) r = (is_due now r ≡ true) × elim (poll_ring now r) [
  | err e ↦ Unit {0}
  | ok (q, f) ↦
      (elapsed_millis (add_millis r.tx_timestamp (get_current_period q)) now < get_current_period q)
      × IsOnTime nows q
]

-- Rings of one shape: as many frames, at the same place, with the same period.
record Alike (q r : Ring) : Type 0 where
  size : length q.frames ≡ length r.frames
  place : q.current_pos ≡ r.current_pos
  rate : q.period ≡ r.period

shift-Alike : (q r : Ring) → Alike q r → Alike (shift q) (shift r)
unfolding shift
shift-Alike q r a = let record { size = n; place = i; rate = p } = a in ground arith

get_current_period-Alike :
    (q r : Ring) → Alike q r → 0 < length r.frames → get_current_period q ≡ get_current_period r
get_current_period-Alike q r a h =
    get_current_period_lem q (omega (arith, a.size))
    ∙ rw a.size (rw a.place (rw a.rate (sym (get_current_period_lem r h))))

shift-positive : (r : Ring) → 0 < length r.frames → 0 < length (shift r).frames
unfolding shift
shift-positive r h = ground arith

periods-Alike : (k : ℕ) (q r : Ring) → Alike q r → 0 < length r.frames → periods k q ≡ periods k r
unfolding periods
periods-Alike zero q r a h = refl
periods-Alike (suc k) q r a h = omega (
  arith,
  get_current_period-Alike q r a h,
  periods-Alike k (shift q) (shift r) (shift-Alike q r a) (shift-positive r h),
)

tx_timestamp-shift : (r : Ring) → (shift r).tx_timestamp ≡ r.tx_timestamp
unfolding shift
tx_timestamp-shift r = ground arith

next_timestamp-punctual :
    (now start : Timespec) (r : Ring)
    → r.tx_timestamp ≡ start
    → elapsed_millis (add_millis start (get_current_period r)) now < get_current_period r
    → next_timestamp now r ≡ add_millis start (get_current_period r)
unfolding next_timestamp
next_timestamp-punctual now start r e h = ground arith

-- What a ring is that has been polled when it was due.
poll_ring-due :
    (now : Timespec) (r : Ring)
    → r.current_pos < length r.frames
    → is_due now r ≡ true
    → (q : Ring) × (f : CanFrame) × (poll_ring now r ≡ ok (q, some f))
      × Alike q (shift r)
      × ((late : elapsed_millis (add_millis r.tx_timestamp (get_current_period q)) now
            < get_current_period q)
          → q.tx_timestamp ≡ add_millis r.tx_timestamp (get_current_period q))
unfolding poll_ring get_current_period
poll_ring-due now r h due =
    let (f, at) = frame_at-some r.frames r.current_pos h in
    let f' = refresh r.callback f in
    let replaced : Ring = record r { frames = replace_at r.current_pos f' r.frames } in
    let same : Alike replaced r = record {
      size = length-replace_at r.current_pos f' r.frames;
      place = refl;
      rate = refl;
    } in
    let next = next_timestamp now (shift replaced) in
    let q = record (shift replaced) { tx_timestamp = next } in
    (
      q,
      f',
      ground (arith, at),
      (let record { size = n; place = i; rate = p } = shift-Alike replaced r same in
          record { size = n; place = i; rate = p }),
      (λ late.
          next_timestamp-punctual now r.tx_timestamp (shift replaced) (tx_timestamp-shift replaced)
            late),
    )

period-shift : (r : Ring) → (shift r).period ≡ r.period
unfolding shift
period-shift r = ground arith

-- A ring at one of its frames that is polled on time at each of some times sends at each of them, and
-- its time stamp moves on by the sum of the periods of the frames that follow.
stays_on_time :
    (nows : List Timespec) (r : Ring)
    → r.current_pos < length r.frames
    → IsOnTime nows r
    → (q : Ring) × (poll_times nows r ≡ ok q)
      × (nanos q.tx_timestamp ≡ nanos r.tx_timestamp + periods (length nows) (shift r) * 1000000)
unfolding poll_times periods
stays_on_time [] r h t = (r, refl, omega arith)
stays_on_time (now ∷ nows) r h t =
    let (q, f, polled, same, moved) = poll_ring-due now r h t.0 in
    let (late, later) = rw polled at t.1 in
    let there = shift-Running r h in
    let (last, rest, time) = stays_on_time nows q (omega (arith, same.place, same.size)) later in
    let alike = shift-Alike q (shift r) same in
    let period = get_current_period-Alike q (shift r) same (omega arith) in
    let periods' =
      periods-Alike (length nows) (shift q) (shift (shift r)) alike
        (shift-positive (shift r) (omega arith)) in
    let next = ap nanos (moved late) ∙ nanos-add_millis r.tx_timestamp (get_current_period q) in
    (last, rw polled rest, omega arith)

-- A ring at one of its frames that is polled as often as it has frames, each time when it is due
-- and late by less than the period of the frame that follows, does not drift: no poll faults, and
-- in the end its time stamp has moved on by exactly the period of the ring.
pub no_drift :
    (nows : List Timespec) (r : Ring)
    → r.current_pos < length r.frames
    → IsOnTime nows r
    → length nows ≡ length r.frames
    → (q : Ring) × (poll_times nows r ≡ ok q)
      × (nanos q.tx_timestamp ≡ nanos r.tx_timestamp + r.period * 1000000)
no_drift nows r h t e =
    let (q, polled, time) = stays_on_time nows r h t in
    let around = (turn (shift r) (shift-Running r h)).1 in
    let count : length nows ≡ length (shift r).frames = e ∙ sym (ap length (frames-shift r)) in
    let whole : periods (length nows) (shift r) ≡ r.period =
      ap (λ n. periods n (shift r)) count ∙ around ∙ period-shift r in
    (q, polled, omega arith)
