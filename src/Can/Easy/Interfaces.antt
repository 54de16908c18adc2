-- ===== src/Can/Easy/Interfaces.antt =====
-- Which interfaces have a sender and a receiver.
use mathlib.Core.List.{append_assoc, append-nil}
use mathlib.Core.Path.{subst}
use text.Mathlib.Text.{◌==◌ as str_eq}
use text.Mathlib.TextEquality.{eq_iff}
use j1939_framework.Base.{
  ℕ, inl, inr, Bool-cases, ◌≡◌, ◌∙◌, refl, sym, ap, arith, Bool, true, false, ◌&&◌, ◌||◌, List, [],
  ◌∷◌, ◌++◌, Option, none, some, String, if◌then◌else◌,
}
use j1939_framework.Can.Sniffer.{Port, add_receiver}
use j1939_framework.Can.Helpers.{
  find, insert, Backend, socket_can, peak_can, Helper, System, Helpers, add_helper, add_helpers,
  create_can_helpers, deallocate_can_helpers,
}
use j1939_framework.Can.Easy.Registry.{IsMap, find-Above, create_can_helpers-IsMap}
use j1939_framework.Can.Easy.{
  Easy, new_port, start_one, start_all, initialize, get_sender, finalize,
}

find-insert :
    {V : Type 0} (j k : String) (v : V) (m : List (String × V))
    → find j (insert k v m) ≡ (if str_eq k j then some v else find j m)
unfolding find insert
find-insert j k v [] = refl
find-insert j k v ((i, w) ∷ m) =
    ground (arith, eq_iff k j, eq_iff i k, eq_iff i j, find-insert j k v m)

abbrev pub is_in : String → List String → Bool
is_in name [] = false
is_in name (k ∷ names) = str_eq k name || is_in name names

-- A backend lists an interface, and a helper starts there.
abbrev pub offered : System → ℕ → Backend → List String → String → Bool
offered system bitrate backend names name = is_in name names && system.starts backend name bitrate

abbrev pub helper_of : Backend → String → ℕ → Helper
helper_of backend name bitrate = record { backend = backend; interface = name; bitrate = bitrate }

-- The helper of an interface: that of the second backend, or else that of the first.
abbrev pub chosen : System → ℕ → String → Option Helper
chosen system bitrate name =
    if offered system bitrate peak_can system.peak_ifaces name
    then some (helper_of peak_can name bitrate)
    else if offered system bitrate socket_can system.socket_ifaces name
    then some (helper_of socket_can name bitrate)
    else none

abbrev pub or_else {ℓ} : {A : Type ℓ} → Option A → Option A → Option A
or_else (some a) o = some a
or_else none o = o

module _ (system : System) (bitrate : ℕ) where
  find-add_helper :
      (backend : Backend) (k name : String) (m : Helpers)
      → find name (add_helper system bitrate backend k m) ≡ (
          if str_eq k name && system.starts backend name bitrate
          then some (helper_of backend name bitrate)
          else find name m)
  unfolding add_helper
  find-add_helper backend k name m =
      ground (arith, eq_iff k name, find-insert name k (helper_of backend k bitrate) m)

  find-add_helpers :
      (backend : Backend) (name : String) (names : List String) (m : Helpers)
      → find name (add_helpers system bitrate backend names m) ≡ (
          if offered system bitrate backend names name
          then some (helper_of backend name bitrate)
          else find name m)
  unfolding add_helpers
  find-add_helpers backend name [] m = refl
  find-add_helpers backend name (k ∷ names) m = ground (
    arith,
    find-add_helpers backend name names (add_helper system bitrate backend k m),
    find-add_helper backend k name m,
  )

  find-created :
      (name : String)
      → find name (create_can_helpers system bitrate []) ≡ chosen system bitrate name
  unfolding create_can_helpers find
  find-created name =
      let sockets = add_helpers system bitrate socket_can system.socket_ifaces [] in
      ground (
        arith,
        find-add_helpers peak_can name system.peak_ifaces sockets,
        find-add_helpers socket_can name system.socket_ifaces [],
      )

abbrev pub new_ports : (Helper → ℕ) → Helpers → List Port
new_ports fd_of [] = []
new_ports fd_of ((name, helper) ∷ helpers) = new_port fd_of name helper ∷ new_ports fd_of helpers

start_all-senders :
    (fd_of : Helper → ℕ) (name : String) (helpers : Helpers) (easy : Easy)
    → IsMap helpers
    → find name (start_all fd_of helpers easy).senders
      ≡ or_else (find name helpers) (find name easy.senders)
unfolding start_all start_one find
start_all-senders fd_of name [] easy h = refl
start_all-senders fd_of name ((k, h) ∷ helpers) easy (above, sorted) =
    start_all-senders fd_of name helpers (start_one fd_of easy k h) sorted
    ∙ elim (Bool-cases (str_eq k name)) [
      | inl same ↦
          let missing : find name helpers ≡ none =
            subst (λ (x : String). find x helpers ≡ none) ((eq_iff k name).0 same)
              (find-Above k helpers above) in
          rw (same, missing) (find-insert name k h easy.senders ∙ rw same refl)
      | inr other ↦
          rw other
            (ap (or_else (find name helpers)) (find-insert name k h easy.senders ∙ rw other refl))
    ]

start_all-ports :
    (fd_of : Helper → ℕ) (helpers : Helpers) (easy : Easy)
    → (start_all fd_of helpers easy).sniffer.ports ≡ easy.sniffer.ports ++ new_ports fd_of helpers
unfolding start_all start_one add_receiver
start_all-ports fd_of [] easy = sym (append-nil easy.sniffer.ports)
start_all-ports fd_of ((k, h) ∷ helpers) easy =
    start_all-ports fd_of helpers (start_one fd_of easy k h)
    ∙ append_assoc easy.sniffer.ports (new_port fd_of k h ∷ []) (new_ports fd_of helpers)

start_all-helpers :
    (fd_of : Helper → ℕ) (helpers : Helpers) (easy : Easy)
    → (start_all fd_of helpers easy).helpers ≡ easy.helpers
unfolding start_all start_one
start_all-helpers fd_of [] easy = refl
start_all-helpers fd_of ((k, h) ∷ helpers) easy =
    start_all-helpers fd_of helpers (start_one fd_of easy k h)

-- In a process without helpers, `initialize` gives every interface that a backend lists and starts a
-- new sender, allocated by the helper of that interface, bitrate and backend, and in place of any that
-- was there: the PeakCAN helper if that backend lists and starts it, and else the SocketCAN helper. All
-- other interfaces keep the sender that they had, or have none.
pub get_sender-initialize :
    (fd_of : Helper → ℕ) (system : System) (bitrate : ℕ) (easy : Easy) (name : String)
    → easy.helpers ≡ []
    → get_sender name (initialize fd_of system bitrate easy)
      ≡ or_else (chosen system bitrate name) (get_sender name easy)
unfolding get_sender initialize
get_sender-initialize fd_of system bitrate easy name fresh =
    let create : Helpers → Helpers = λ h. create_can_helpers system bitrate h in
    let start : Helpers → Easy = λ new. start_all fd_of new (record easy {
      helpers = new;
      sniffer = record easy.sniffer { has_recv = true; has_timeout = true };
    }) in
    let made =
      start_all-senders fd_of name (create [])
        (record easy {
          helpers = create [];
          sniffer = record easy.sniffer { has_recv = true; has_timeout = true };
        })
        (create_can_helpers-IsMap system bitrate) in
    ap (λ (h : Helpers). find name (start (create h)).senders) fresh
    ∙ (made
        ∙ ap (λ (o : Option Helper). or_else o (find name easy.senders))
            (find-created system bitrate name))

-- Initializing, finalizing and initializing again gives every interface two receivers: `finalize` frees
-- the senders and the helpers but leaves the receivers of the sniffer.
pub initialize-finalize :
    (fd_of fd_of' : Helper → ℕ) (system : System) (bitrate : ℕ) (easy : Easy)
    → easy.helpers ≡ []
    → let helpers = create_can_helpers system bitrate [] in
      (initialize fd_of' system bitrate
        (finalize (initialize fd_of system bitrate easy))).sniffer.ports
      ≡ easy.sniffer.ports ++ (new_ports fd_of helpers ++ new_ports fd_of' helpers)
unfolding initialize finalize deallocate_can_helpers
initialize-finalize fd_of fd_of' system bitrate easy fresh =
    let new = create_can_helpers system bitrate easy.helpers in
    let same = ap (λ (h : Helpers). new_ports fd_of (create_can_helpers system bitrate h)) fresh in
    let first = start_all-ports fd_of new (record easy {
      helpers = new;
      sniffer = record easy.sniffer { has_recv = true; has_timeout = true };
    }) in
    let helpers = create_can_helpers system bitrate [] in
    start_all-ports fd_of' helpers _
    ∙ (ap (λ (ports : List Port). ports ++ new_ports fd_of' helpers)
          (first ∙ ap (λ (ports : List Port). easy.sniffer.ports ++ ports) same)
        ∙ append_assoc easy.sniffer.ports (new_ports fd_of helpers) (new_ports fd_of' helpers))
