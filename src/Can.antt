-- ===== src/Can.antt =====
-- CAN: frames, filters of received frames, and the sender of periodic frames.
pub mod Filter
pub mod Sender
pub mod Sniffer
pub mod Helpers
pub mod Easy
use j1939_framework.Base.{ℕ, Bool, true, false, List, [], ltb, length, if◌then◌else◌}

-- CanFrame (CAN/include/CanFrame.h)
pub record CanFrame : Type 0 where
  pub extended_format : Bool
  pub id : ℕ
  pub bytes : List ℕ

abbrev pub max_can_data_size : ℕ
max_can_data_size = 8

unfoldable pub set_data : CanFrame → List ℕ → CanFrame × Bool
set_data f bytes =
    if ltb max_can_data_size (length bytes) then (f, false) else (record f { bytes = bytes }, true)

-- The constructor with data, which is not stored if there is too much of it.
unfoldable pub new_frame : Bool → ℕ → List ℕ → CanFrame
unfolding set_data
new_frame extended id bytes =
    (set_data (record { extended_format = extended; id = id; bytes = [] }) bytes).0

unfoldable pub clear : CanFrame → CanFrame
clear f = record f { id = 0; bytes = [] }
