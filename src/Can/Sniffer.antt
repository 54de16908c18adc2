-- ===== src/Can/Sniffer.antt =====
-- CanSniffer (CAN/CanSniffer.cpp): it waits for its receivers and hands on what they receive.
pub mod Delivery
use j1939_framework.Base.{
  ◌-◌, bit_and, bit_or, ◌||◌, ℕ, zero, suc, ◌+◌, ◌*◌, ◌/◌, ◌%◌, ◌≡◌, ◌⊎◌, ◌↔◌, inl, inr, refl,
  arith, Bool, true, false, not, ◌&&◌, List, [], ◌∷◌, ◌++◌, Option, none, some, String, ◌==◌,
  ==_iff, if◌then◌else◌, Bool-cases, Option-cases,
}
use j1939_framework.Can.{CanFrame}
use j1939_framework.Can.Filter
use j1939_framework.Can.Filter.{CanFilter, Receiver, filter}
use j1939_framework.Can.Helpers.{Backend, socket_can, peak_can}
use j1939_framework.TimeStamp.{TimeStamp}

-- `can_filter` of the kernel.
pub record KernelFilter : Type 0 where
  pub can_id : ℕ
  pub can_mask : ℕ

-- A receiver of a backend, with its file descriptor, whether that is open, and the filters that the
-- kernel has for it.
pub record Port : Type 0 where
  pub fd : ℕ
  pub is_open : Bool
  pub backend : Backend
  pub receiver : Receiver
  pub kernel : List KernelFilter

-- A call of `mRcvCB` or of `mTimeoutCB`.
pub data Call : Type 0 where
  received : CanFrame → TimeStamp → String → Call
  timed_out : Call

-- What `select` gives: an error, `EINTR`, no descriptor in time, or the descriptors that are ready.
pub data Selected : Type 0 where
  failed interrupted nothing : Selected
  ready : List ℕ → Selected

-- What the receivers of the backends receive, by their descriptors.
abbrev pub Received : Type 0
Received = ℕ → Option (CanFrame × TimeStamp)

pub record Sniffer : Type 0 where
  pub ports : List Port
  pub has_recv : Bool
  pub has_timeout : Bool
  pub running : Bool

unfoldable pub new_sniffer : Sniffer
new_sniffer = record { ports = []; has_recv = false; has_timeout = false; running = true }

unfoldable pub add_receiver : Port → Sniffer → Sniffer
add_receiver port s = record s { ports = s.ports ++ (port ∷ []) }

-- The masks of linux/can.h for an extended identifier and for a standard one, and the flag of an
-- extended frame.
abbrev pub can_eff_mask : ℕ
can_eff_mask = 0x1FFFFFFF

abbrev pub can_sff_mask : ℕ
can_sff_mask = 0x7FF

abbrev pub can_eff_flag : ℕ
can_eff_flag = 0x80000000

-- The body of the loop of `SocketCanReceiver::setFilters`.
unfoldable pub kernel_filter : CanFilter → KernelFilter
kernel_filter f =
    let id = bit_and f.id can_eff_mask in
    let mask = bit_and f.mask can_eff_mask in
    if (f.std_frame && f.ext_frame) || (not f.std_frame && not f.ext_frame)
    then record { can_id = id; can_mask = bit_and mask (0xFFFFFFFF - can_eff_flag) }
    else if f.ext_frame
    then record { can_id = bit_or id can_eff_flag; can_mask = bit_or mask can_eff_flag }
    else record { can_id = id; can_mask = bit_and (bit_or mask can_eff_flag) can_sff_mask }

unfoldable pub kernel_filters : List CanFilter → List KernelFilter
unfolding kernel_filter
kernel_filters [] = []
kernel_filters (f ∷ filters) = kernel_filter f ∷ kernel_filters filters

-- Whether `setsockopt` takes filters for a descriptor.
abbrev pub SetSockOpt : Type 0
SetSockOpt = ℕ → List KernelFilter → Bool

-- `SocketCanReceiver::setFilters`
unfoldable pub set_socket_filters : SetSockOpt → List CanFilter → Port → Port × Bool
unfolding kernel_filters
set_socket_filters set_sock_opt [] p = (p, false)
set_socket_filters set_sock_opt (f ∷ filters) p =
    let kernel = kernel_filters (f ∷ filters) in
    if not p.is_open
    then (p, false)
    else if set_sock_opt p.fd kernel
    then (record p { kernel = kernel }, true)
    else (p, false)

-- The virtual `setFilters`
unfoldable pub set_filters_of : SetSockOpt → List CanFilter → Port → Port × Bool
unfolding set_socket_filters Filter.set_filters
set_filters_of set_sock_opt filters p = elim p.backend [
  | socket_can ↦ set_socket_filters set_sock_opt filters p
  | peak_can ↦
      let (receiver, done) = Filter.set_filters p.receiver filters in
      (record p { receiver = receiver }, done)
]

unfoldable pub set_port_filters : SetSockOpt → List CanFilter → List Port → List Port
unfolding set_filters_of
set_port_filters set_sock_opt filters [] = []
set_port_filters set_sock_opt filters (p ∷ ports) =
    (set_filters_of set_sock_opt filters p).0 ∷ set_port_filters set_sock_opt filters ports

unfoldable pub set_filters : SetSockOpt → List CanFilter → Sniffer → Sniffer
unfolding set_port_filters
set_filters set_sock_opt filters s = record s {
  ports = set_port_filters set_sock_opt filters s.ports;
}

unfoldable pub reset : Sniffer → Sniffer
reset s = record s { running = true }

unfoldable pub finish : Sniffer → Sniffer
finish s = record s { running = false }

-- `FD_ISSET`
unfoldable pub is_set : ℕ → List ℕ → Bool
is_set fd [] = false
is_set fd (d ∷ fds) = let rest = is_set fd fds in if d == fd then true else rest

-- The virtual `filter`; a SocketCAN receiver leaves it to the kernel.
unfoldable pub filter_of : Port → ℕ → Bool
filter_of p id = elim p.backend [ socket_can ↦ true | peak_can ↦ filter p.receiver id ]

-- `notify_recv`, for what the receiver received
unfoldable pub hand_on : Port → Option (CanFrame × TimeStamp) → List Call
unfolding filter_of
hand_on p none = []
hand_on p (some (frame, time)) =
    if filter_of p frame.id then received frame time p.receiver.interface ∷ [] else []

unfoldable pub notify_recv : Received → Port → List Call
unfolding hand_on
notify_recv recv p = hand_on p (recv p.fd)

unfoldable pub notify : Received → List ℕ → List Port → List Call
unfolding is_set notify_recv
notify recv fds [] = []
notify recv fds (p ∷ ports) =
    (if is_set p.fd fds then notify_recv recv p else []) ++ notify recv fds ports

-- `wait_fd` on the results of `select`, one for each call; without receivers it does not call it.
-- It returns the first result that is no interruption, and the results that are left.
unfoldable pub wait_fd : List Port → List Selected → Option (Selected × List Selected)
wait_fd [] results = some (failed, results)
wait_fd (p ∷ ports) [] = none
wait_fd (p ∷ ports) (failed ∷ results) = some (failed, results)
wait_fd (p ∷ ports) (interrupted ∷ results) = wait_fd (p ∷ ports) results
wait_fd (p ∷ ports) (nothing ∷ results) = some (nothing, results)
wait_fd (p ∷ ports) (ready fds ∷ results) = some (ready fds, results)

-- The seconds and microseconds that `sniff` waits for at most.
unfoldable pub tv_sec : ℕ → ℕ
tv_sec timeout = timeout / 1000

unfoldable pub tv_usec : ℕ → ℕ
tv_usec timeout = timeout % 1000 / 1000000

-- The calls of one round of `sniff`.
unfoldable pub after_wait : Received → Sniffer → Selected → List Call
unfolding notify
after_wait recv s failed = []
after_wait recv s interrupted = []
after_wait recv s nothing = timed_out ∷ []
after_wait recv s (ready fds) = notify recv fds s.ports

-- The results of `select` and of the receivers in a round, and `mRunning` behind it.
pub record Turn : Type 0 where
  pub results : List Selected
  pub received_by : Received
  pub goes_on : Bool

unfoldable pub turn_calls : Turn → Sniffer → List Call
unfolding wait_fd after_wait
turn_calls t s = elim (wait_fd s.ports t.results) [
  | none ↦ []
  | some (selected, rest) ↦ after_wait t.received_by s selected
]

unfoldable pub sniff_turns : List Turn → Sniffer → List Call
unfolding turn_calls
sniff_turns [] s = []
sniff_turns (t ∷ turns) s =
    let more = sniff_turns turns s in turn_calls t s ++ (if t.goes_on then more else [])

-- `sniff`; `none` is a failed assertion.
unfoldable pub sniff : List Turn → Sniffer → Option (List Call)
unfolding sniff_turns
sniff turns s = elim s.ports [
  | [] ↦ none
  | p ∷ ports ↦ if s.has_recv && s.has_timeout then some (sniff_turns turns s) else none
]
