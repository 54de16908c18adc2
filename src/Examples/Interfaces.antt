-- ===== src/Examples/Interfaces.antt =====
-- Two interfaces, of which one backend starts each, and a sniffer with a filter.
use j1939_framework.Base.{◌≡◌, refl, true, false, List, [], ◌∷◌, ◌++◌, some, ◌==◌}
use j1939_framework.Can.{CanFrame}
use j1939_framework.Can.Helpers.{socket_can, peak_can, System, create_can_helpers}
use j1939_framework.Can.Filter.{CanFilter, filter, passes, matches}
use j1939_framework.Can.Sniffer.{
  Port, received, Received, notify, notify_recv, hand_on, filter_of, is_set, kernel_filter,
}
use j1939_framework.Can.Sniffer.Delivery.{Delivered, notify_lem}
use j1939_framework.Can.Easy.{new_easy, initialize, finalize, get_sender}
use j1939_framework.Can.Easy.Interfaces.{
  or_else, chosen, helper_of, new_ports, get_sender-initialize, initialize-finalize,
}
use j1939_framework.TimeStamp.{zero_time}

abbrev system : System
system = record {
  socket_ifaces = "can0" ∷ "vcan0" ∷ [];
  peak_ifaces = "can0" ∷ [];
  starts = λ backend name bitrate. bitrate == 250;
}

fresh : new_easy.helpers ≡ []
unfolding new_easy
fresh = refl

get_sender-initialize_example :
    get_sender "vcan0" (initialize (λ h. 3) system 250 new_easy)
    ≡ or_else (chosen system 250 "vcan0") (get_sender "vcan0" new_easy)
get_sender-initialize_example = get_sender-initialize (λ h. 3) system 250 new_easy "vcan0" fresh

both_backends : chosen system 250 "can0" ≡ some (helper_of peak_can "can0" 250)
both_backends = refl

initialize-finalize_example :
    (initialize
      (λ h. 4)
      system
      250
      (finalize (initialize (λ h. 3) system 250 new_easy))).sniffer.ports
    ≡ new_easy.sniffer.ports
      ++ (new_ports (λ h. 3) (create_can_helpers system 250 [])
          ++ new_ports (λ h. 4) (create_can_helpers system 250 []))
initialize-finalize_example = initialize-finalize (λ h. 3) (λ h. 4) system 250 new_easy fresh

abbrev brake : CanFrame
brake = record { extended_format = true; id = 0x18F00100; bytes = 1 ∷ [] }

abbrev narrow : CanFilter
narrow = record { id = 0xF00100; mask = 0xFFFF00; std_frame = false; ext_frame = true }

abbrev ports : List Port
ports =
    record {
      fd = 3;
      is_open = true;
      backend = peak_can;
      receiver = record { filters = narrow ∷ []; interface = "can0" };
      kernel = [];
    }
    ∷ record {
      fd = 4;
      is_open = true;
      backend = socket_can;
      receiver = record { filters = []; interface = "vcan0" };
      kernel = [];
    }
    ∷ []

abbrev receives : Received
receives = λ fd. some (brake, zero_time)

notify_lem_example : Delivered receives (3 ∷ []) ports (notify receives (3 ∷ []) ports)
notify_lem_example = notify_lem receives (3 ∷ []) ports

delivered_once : notify receives (3 ∷ []) ports ≡ received brake zero_time "can0" ∷ []
unfolding notify notify_recv hand_on filter_of is_set filter passes matches
delivered_once = refl

-- The mask of a filter for standard frames keeps no flag that tells them from extended ones.
standard_unmarked :
    kernel_filter (record { id = 0x7FF; mask = 0x7FF; std_frame = true; ext_frame = false })
    ≡ record { can_id = 0x7FF; can_mask = 0x7FF }
unfolding kernel_filter
standard_unmarked = refl
