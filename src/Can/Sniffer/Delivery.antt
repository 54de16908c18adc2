-- ===== src/Can/Sniffer/Delivery.antt =====
-- Which frames a round of the sniffer hands on, and how long it waits.
use mathlib.Core.Path.{subst}
use j1939_framework.Base.{
  ℕ, ◌+◌, ◌*◌, ◌%◌, ◌≡◌, ◌⊎◌, ◌↔◌, ◌∙◌, ◌-◌, inl, inr, refl, arith, true, List, [], ◌∷◌, ◌++◌, some,
  ◌==◌, Bool-cases, Option-cases, sym,
}
use j1939_framework.Can.{CanFrame}
use j1939_framework.Can.Filter.{filter, SomeAccepts, filter_lem}
use j1939_framework.TimeStamp.{TimeStamp}
use j1939_framework.Can.Helpers.{Backend, socket_can, peak_can}
use j1939_framework.Can.Sniffer.{
  filter_of, Port, Call, received, Received, is_set, hand_on, notify_recv, notify, tv_sec, tv_usec,
}

-- A value stands in a list.
abbrev pub Occurs : {A : Type 0} → A → List A → Type 0
Occurs a [] = ⊥
Occurs a (x ∷ xs) = (a ≡ x) ⊎ Occurs a xs

is_set_iff : (fd : ℕ) (fds : List ℕ) → (is_set fd fds ≡ true) ↔ Occurs fd fds
unfolding is_set
is_set_iff fd [] = (λ e. cc, λ h. absurd h)
is_set_iff fd (d ∷ fds) = (
  λ e. elim (Bool-cases (d == fd)) [
    | inl same ↦ inl (ground arith)
    | inr other ↦ inr ((is_set_iff fd fds).0 (ground arith))
  ],
  λ h. elim h [
    | inl same ↦ ground (arith, same)
    | inr later ↦ ground (arith, (is_set_iff fd fds).1 later)
  ],
)

-- The kernel has filtered the identifier already, no filter is set, or some filter accepts it.
abbrev pub Passes : Port → ℕ → Type 0
Passes p id =
    (p.backend ≡ socket_can) ⊎ ((p.receiver.filters ≡ []) ⊎ SomeAccepts p.receiver.filters id)

Backend-cases : (b : Backend) → (b ≡ socket_can) ⊎ (b ≡ peak_can)
Backend-cases socket_can = inl refl
Backend-cases peak_can = inr refl

filter_of_lem : (p : Port) (id : ℕ) → (filter_of p id ≡ true) ↔ Passes p id
unfolding filter_of
filter_of_lem p id = elim (Backend-cases p.backend) [
  | inl socket ↦ (λ e. inl socket, λ h. ground (arith, socket))
  | inr peak ↦
      let (to, from) = filter_lem p.receiver id in
      let same : filter_of p id ≡ filter p.receiver id = ground (arith, peak) in
      (
        λ e. inr (to (sym same ∙ e)),
        λ h. elim h [ inl socket ↦ absurd (cc (socket, peak)) | inr passes ↦ same ∙ from passes ],
      )
]

-- The frame that this receiver received passes its filters, and the call hands it on.
abbrev pub Offers : Received → Call → Port → Type 0
Offers recv call p =
    (frame : CanFrame) × (time : TimeStamp) × (recv p.fd ≡ some (frame, time))
    × Passes p frame.id
    × (call ≡ received frame time p.receiver.interface)

-- The calls of a round: for each receiver in turn, one call if it is ready and offers it, and else none.
pub data Delivered (recv : Received) (fds : List ℕ) : List Port → List Call → Type 0 where
  no_port : Delivered recv fds [] []
  offered :
      {p : Port} {ports : List Port} {call : Call} {calls : List Call}
      → Occurs p.fd fds
      → Offers recv call p
      → Delivered recv fds ports calls
      → Delivered recv fds (p ∷ ports) (call ∷ calls)
  silent :
      {p : Port} {ports : List Port} {calls : List Call}
      → ((call : Call) → Occurs p.fd fds → Offers recv call p → ⊥)
      → Delivered recv fds ports calls
      → Delivered recv fds (p ∷ ports) calls

-- What one receiver that is ready hands on.
hand_on-Offers :
    (recv : Received) (p : Port)
    → ((call : Call) × (notify_recv recv p ≡ call ∷ []) × Offers recv call p)
      ⊎ ((notify_recv recv p ≡ []) × ((call : Call) → Offers recv call p → ⊥))
unfolding notify_recv hand_on
hand_on-Offers recv p = elim (Option-cases (recv p.fd)) [
  | inl e ↦ inr (rw e refl, λ call (frame, time, got, passes, same). absurd (cc (e, got)))
  | inr ((frame, time), e) ↦ elim (Bool-cases (filter_of p frame.id)) [
    | inl pass ↦ inl (
      received frame time p.receiver.interface,
      (rw (e, pass) refl),
      (frame, time, e, (filter_of_lem p frame.id).0 pass, refl),
    )
    | inr fail ↦ inr (
      rw (e, fail) refl,
      λ call (f, u, got, passes, same).
          let same_frame : frame ≡ f = cc (e, got) in
          let pass : filter_of p frame.id ≡ true =
            (filter_of_lem p frame.id).1
              (subst (λ (x : CanFrame). Passes p x.id) (sym same_frame) passes) in
          absurd (cc (pass, fail)),
    )
  ]
]

-- A round hands on, in the order of the receivers and each once, exactly the frames of the ready
-- receivers that received one which passes: on SocketCAN every frame that the kernel lets through,
-- and else every frame without filters, or those with which a filter agrees on its mask.
pub notify_lem :
    (recv : Received) (fds : List ℕ) (ports : List Port)
    → Delivered recv fds ports (notify recv fds ports)
unfolding notify
notify_lem recv fds [] = no_port
notify_lem recv fds (p ∷ ports) =
    let rest = notify_lem recv fds ports in
    let Goal : List Call → Type 0 =
      λ calls. Delivered recv fds (p ∷ ports) (calls ++ notify recv fds ports) in
    elim (Bool-cases (is_set p.fd fds)) [
      | inl set ↦
          let member = (is_set_iff p.fd fds).0 set in
          rw set (elim (hand_on-Offers recv p) [
            | inl (call, e, offers) ↦ subst Goal (sym e) (offered member offers rest)
            | inr (e, none_offered) ↦
                subst Goal (sym e) (silent (λ call m o. none_offered call o) rest)
          ])
      | inr unset ↦
          rw unset (silent (λ call m o. absurd (cc ((is_set_iff p.fd fds).1 m, unset))) rest)
    ]

-- The sniffer waits for whole seconds only: the milliseconds of the timeout that are no whole second
-- are lost.
pub wait_time_lem :
    (timeout : ℕ) → tv_sec timeout * 1000000 + tv_usec timeout ≡ (timeout - timeout % 1000) * 1000
unfolding tv_sec tv_usec
wait_time_lem timeout = omega arith
