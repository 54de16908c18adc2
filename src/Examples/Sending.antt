-- ===== src/Examples/Sending.antt =====
-- A sender, a ring of two frames, and filters.
use j1939_framework.Base.{ℕ, ◌+◌, ◌*◌, ◌≡◌, refl, arith, true, false, List, [], ◌∷◌, none, some}
use j1939_framework.Common.{ok}
use j1939_framework.Can.{CanFrame}
use j1939_framework.Can.Filter.{Receiver}
use j1939_framework.Can.Sender.{
  Timespec, Ring, shift, get_current_period, period_at, add_millis, elapsed_millis, is_due,
  poll_ring, next_timestamp, refresh,
}
use j1939_framework.Can.Sender.Refinement.{
  Op, send, un_send, tick, apply_all, expect_all, Represents, sender_refines,
}
use j1939_framework.Can.Sender.Timing.{nanos, poll_times, IsOnTime, no_drift}

abbrev frame : ℕ → CanFrame
frame id = record { extended_format = true; id = id; bytes = 1 ∷ 2 ∷ [] }

abbrev time_at : ℕ → ℕ → Timespec
time_at s n = record { sec = s; nsec = n }

abbrev ops : List Op
ops =
    send (frame 10 ∷ frame 11 ∷ []) 5 none
    ∷ send (frame 20 ∷ []) 100 (some (λ id. id ∷ []))
    ∷ tick (time_at 10 0)
    ∷ un_send (20 ∷ [])
    ∷ tick (time_at 10 3000000)
    ∷ []

sender_refines_example :
    (rs : List Ring) × (apply_all ops [] ≡ ok rs) × Represents (expect_all ops (λ js. false)) rs
sender_refines_example = sender_refines ops

abbrev ring : Ring
ring = record {
  frames = frame 10 ∷ frame 11 ∷ [];
  tx_timestamp = time_at 10 0;
  period = 5;
  current_pos = 0;
  callback = none;
}

abbrev times : List Timespec
times = time_at 10 3000000 ∷ time_at 10 6000000 ∷ []

times-IsOnTime : IsOnTime times ring
unfolding poll_ring is_due elapsed_millis get_current_period period_at shift next_timestamp
    add_millis refresh
times-IsOnTime = (refl, (omega arith, (refl, (omega arith, tt))))

no_drift_example :
    (q : Ring) × (poll_times times ring ≡ ok q)
    × (nanos q.tx_timestamp ≡ nanos (time_at 10 0) + 5 * 1000000)
no_drift_example = no_drift times ring (omega arith) times-IsOnTime refl

abbrev receiver : Receiver
receiver = record {
  filters = record { id = 0x18EE0000; mask = 0x3FF0000; std_frame = false; ext_frame = true } ∷ [];
  interface = "can0";
}
