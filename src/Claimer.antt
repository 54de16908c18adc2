-- ===== src/Claimer.antt =====
-- j1939AddressClaimer/AddressClaimer.cpp: the thread that claims a source address and defends it. The
-- thread stops only in `read`, so a state stands between two of its calls; `receive` is called by
-- other threads in between.
pub mod Outcomes
pub mod Invariant
pub mod Waiting
pub mod Settle
pub mod Contention
use j1939_framework.Base.{
  ℕ, zero, suc, ◌+◌, ◌-◌, ◌≤◌, ◌<◌, ◌≡◌, Bool, true, false, not, ◌&&◌, ◌||◌, List, [], ◌∷◌, ◌++◌,
  ◌==◌, Option, none, some, if◌then◌else◌, length, ltb,
}
use j1939_framework.Base.Dict
use j1939_framework.Common.{Result, ok, err, ◌>>=◌, fault, invalid_address, broadcast_address}
use j1939_framework.Header.{get_identifier, set_dst_addr}
use j1939_framework.Addressing.{EcuName, name_lt, address_claim_pgn}
use j1939_framework.Request.{request_pgn}
use j1939_framework.Frame.{Frame, address_claim, request, new_address_claim}

pub data ClaimResult : Type 0 where
  claim_address_obtained claim_retry claim_failed : ClaimResult

-- A call of one of the two methods that a subclass provides.
pub data Action : Type 0 where
  send_frame : Frame → Action
  on_src_addr_changed : ℕ → Action

-- Where the thread waits in `read`: in `tryObtainAddress` for `address`, with `left` addresses not
-- tried yet and `time_to_wait` milliseconds, or in the inner loop of `exec`.
pub data Place : Type 0 where
  trying : (left address time_to_wait : ℕ) → Place
  operating : Place

-- `actions` is what the thread has called so far, the last call first.
pub record Claimer : Type 0 where
  pub ecu_name : EcuName
  pub preferred : List ℕ
  pub current_src : ℕ
  pub frames : List (ℕ × Frame)
  pub place : Place
  pub actions : List Action

-- `setDstAddr` on a frame of the first format.
unfoldable pub claim_frame : EcuName → ℕ → Frame
claim_frame name src =
    let f = new_address_claim name in
    record f { header = record f.header { src_addr = src; dst_addr = broadcast_address } }

abbrev pub act : Claimer → Action → Claimer
act c a = record c { actions = a ∷ c.actions }

unfoldable pub flush : Claimer → Claimer
flush c = record c { frames = [] }

-- What `read` returns once it does: the first frame, in the order of the identifiers.
unfoldable pub read : Claimer → Claimer × Option Frame
read c = elim c.frames [ [] ↦ (c, none) | (k, f) ∷ rest ↦ (record c { frames = rest }, some f) ]

unfoldable pub receive : Claimer → Frame → Claimer
receive c f = record c { frames = Dict.insert (get_identifier f.header) f c.frames }

unfoldable pub to_be_handled : Frame → Result Bool
to_be_handled f =
    if f.header.pgn == request_pgn
    then elim f.payload [ request p ↦ ok (p == address_claim_pgn) | _ ↦ err fault ]
    else ok (f.header.pgn == address_claim_pgn)

abbrev pub claim_timeout : ℕ
claim_timeout = 250

-- The start of `tryObtainAddress`.
unfoldable pub start_try : Claimer → ℕ → ℕ → Claimer
start_try c left address =
    act (record c { place = trying left address claim_timeout })
      (send_frame (claim_frame c.ecu_name address))

-- The loop of `claimAddressStep`, with `left` rounds left; behind it no address was obtained.
unfoldable pub next_address : Claimer → ℕ → Claimer
next_address c zero =
    act (record c { place = operating }) (send_frame (claim_frame c.ecu_name invalid_address))
next_address c (suc left) = elim c.preferred [
  | [] ↦ act (record c { place = operating }) (send_frame (claim_frame c.ecu_name invalid_address))
  | a ∷ rest ↦ start_try (record c { preferred = rest ++ a ∷ [] }) left a
]

unfoldable pub claim_address_step : Claimer → Claimer
unfolding flush
claim_address_step c =
    let c' =
      act (record c { current_src = invalid_address }) (on_src_addr_changed invalid_address) in
    next_address (flush c') (length c.preferred)

-- The constructor, and `exec` up to its first wait.
unfoldable pub start : EcuName → List ℕ → Claimer
start name preferred = claim_address_step (record {
  ecu_name = name;
  preferred = preferred;
  current_src = invalid_address;
  frames = [];
  place = operating;
  actions = [];
})

-- What a round of the loop of `tryObtainAddress` comes to.
pub data Round : Type 0 where
  wait_again : ℕ → Round
  done : ClaimResult → Round

-- A round with the frame that `read` returned after `elapsed` milliseconds.
unfoldable pub try_round : EcuName → ℕ → ℕ → ℕ → Option Frame → Result Round
try_round name address time_to_wait elapsed none = ok (done claim_address_obtained)
try_round name address time_to_wait elapsed (some f) =
    if f.header.pgn == address_claim_pgn
    then elim f.payload [
      | address_claim other ↦
          if f.header.src_addr == address
          then if name_lt name other then ok (done claim_retry) else ok (done claim_failed)
          else ok (wait_again claim_timeout)
      | _ ↦ err fault
    ]
    else if ltb elapsed time_to_wait
    then ok (wait_again (time_to_wait - elapsed))
    else ok (done claim_address_obtained)

-- What follows a round: wait again, or the loops of `claimAddressStep` go on.
unfoldable pub after_round : Claimer → ℕ → ℕ → Round → Claimer
after_round c left address (wait_again t) = record c { place = trying left address t }
after_round c left address (done claim_retry) = start_try c left address
after_round c left address (done claim_failed) = next_address c left
after_round c left address (done claim_address_obtained) =
    act (record c { current_src = address; place = operating }) (on_src_addr_changed address)

-- `processAddressClaim`, with the name that the frame carries.
unfoldable pub process_address_claim : Claimer → Frame → EcuName → Claimer × Bool
process_address_claim c f other =
    if not (f.header.src_addr == invalid_address) && (f.header.src_addr == c.current_src)
    then if name_lt c.ecu_name other
      then (act c (send_frame (claim_frame c.ecu_name c.current_src)), true)
      else (c, false)
    else (c, true)

-- A round of the inner loop of `exec`; after a conflict the outer loop claims again.
unfoldable pub exec_round : Claimer → Option Frame → Result Claimer
unfolding process_address_claim
exec_round c none = ok c
exec_round c (some f) =
    if f.header.pgn == request_pgn
    then elim f.payload [
      | request p ↦
          if (p == address_claim_pgn)
            && (f.header.dst_addr == broadcast_address || f.header.dst_addr == c.current_src)
          then ok (act c (send_frame (claim_frame c.ecu_name c.current_src)))
          else ok c
      | _ ↦ err fault
    ]
    else if f.header.pgn == address_claim_pgn
    then elim f.payload [
      | address_claim other ↦
          let processed = process_address_claim c f other in
          if processed.1 then ok processed.0 else ok (claim_address_step processed.0)
      | _ ↦ err fault
    ]
    else ok c

-- `read` returns, `elapsed` milliseconds after it was called, and the thread runs up to its next
-- `read`.
unfoldable pub wake : Claimer → ℕ → Result Claimer
unfolding read
wake c elapsed =
    let (c', f) = read c in
    elim c.place [
      | trying left address t ↦ do
        round ← try_round c.ecu_name address t elapsed f
        ok (after_round c' left address round)
      | operating ↦ exec_round c' f
    ]

-- What can happen next.
pub data Step (c : Claimer) : Claimer → Type 0 where
  arrives : (f : Frame) → Step c (receive c f)
  wakes : (elapsed : ℕ) {d : Claimer} → wake c elapsed ≡ ok d → Step c d

pub data Reach (name : EcuName) (preferred : List ℕ) : Claimer → Type 0 where
  begin : Reach name preferred (start name preferred)
  next : {c d : Claimer} → Reach name preferred c → Step c d → Reach name preferred d
