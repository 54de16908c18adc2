-- ===== src/Can/Easy.antt =====
-- CanEasy (CAN/CanEasy.cpp): the senders, the sniffer and the interfaces of the process.
pub mod Registry
pub mod Interfaces
use j1939_framework.Base.{
  ℕ, ◌+◌, Bool, true, false, List, [], ◌∷◌, ◌++◌, Option, none, some, String,
}
use j1939_framework.Can.Filter
use j1939_framework.Can.Filter.{Receiver}
use j1939_framework.Can.Sniffer
use j1939_framework.Can.Sniffer.{Port, Sniffer, new_sniffer, add_receiver}
use j1939_framework.Can.Helpers.{
  find, insert, insert_name, Helper, System, Helpers, create_can_helpers, deallocate_can_helpers,
  get_interfaces,
}

-- A sender is known by the helper that allocated it. The static members of CanEasy and ICanHelper.
pub record Easy : Type 0 where
  pub helpers : Helpers
  pub senders : List (String × Helper)
  pub sniffer : Sniffer
  pub initialized : List String

unfoldable pub new_easy : Easy
unfolding new_sniffer
new_easy = record { helpers = []; senders = []; sniffer = new_sniffer; initialized = [] }

-- `allocateCanReceiver` and `setInterface`; `fd_of` is the descriptor that the helper's receiver opens.
unfoldable pub new_port : (Helper → ℕ) → String → Helper → Port
unfolding Filter.set_interface
new_port fd_of name helper = record {
  fd = fd_of helper;
  is_open = true;
  backend = helper.backend;
  receiver = (Filter.set_interface (record { filters = []; interface = "" }) name).0;
  kernel = [];
}

unfoldable pub start_one : (Helper → ℕ) → Easy → String → Helper → Easy
unfolding insert insert_name new_port add_receiver
start_one fd_of easy name helper = record easy {
  senders = insert name helper easy.senders;
  sniffer = add_receiver (new_port fd_of name helper) easy.sniffer;
  initialized = insert_name name easy.initialized;
}

unfoldable pub start_all : (Helper → ℕ) → Helpers → Easy → Easy
unfolding start_one
start_all fd_of [] easy = easy
start_all fd_of ((name, helper) ∷ helpers) easy =
    start_all fd_of helpers (start_one fd_of easy name helper)

-- `initialize` for sending and receiving
unfoldable pub initialize : (Helper → ℕ) → System → ℕ → Easy → Easy
unfolding create_can_helpers start_all
initialize fd_of system bitrate easy =
    let helpers = create_can_helpers system bitrate easy.helpers in
    let sniffer = record easy.sniffer { has_recv = true; has_timeout = true } in
    start_all fd_of helpers (record easy { helpers = helpers; sniffer = sniffer })

unfoldable pub start_senders : Helpers → Easy → Easy
unfolding insert insert_name
start_senders [] easy = easy
start_senders ((name, helper) ∷ helpers) easy = start_senders helpers (record easy {
  senders = insert name helper easy.senders;
  initialized = insert_name name easy.initialized;
})

-- `initialize` for sending only
unfoldable pub initialize_senders : System → ℕ → Easy → Easy
unfolding create_can_helpers start_senders
initialize_senders system bitrate easy =
    let helpers = create_can_helpers system bitrate easy.helpers in
    start_senders helpers (record easy { helpers = helpers })

unfoldable pub get_can_ifaces : System → List String
unfolding get_interfaces
get_can_ifaces system = get_interfaces system

unfoldable pub get_sender : String → Easy → Option Helper
unfolding find
get_sender name easy = find name easy.senders

unfoldable pub finalize : Easy → Easy
unfolding deallocate_can_helpers
finalize easy = record easy { senders = []; helpers = deallocate_can_helpers easy.helpers }
