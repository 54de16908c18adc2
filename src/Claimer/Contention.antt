-- ===== src/Claimer/Contention.antt =====
-- Two units that claim one address.
use j1939_framework.Base.{ℕ, ◌≡◌, ◌≢◌, ◌⊎◌, inl, inr, arith, true, false, []}
use j1939_framework.Base.Dict
use j1939_framework.Common.{ok, invalid_address}
use j1939_framework.Addressing.{EcuName, name_lt, IsValid}
use j1939_framework.Addressing.Name.{name_lt_total}
use j1939_framework.Frame.{Frame}
use j1939_framework.Claimer.{
  Claimer, send_frame, operating, act, claim_frame, receive, claim_address_step, exec_round, wake,
}

-- A unit that operates under an address is left with it, and repeats its claim.
abbrev pub Keeps : Claimer → Frame → Type 0
Keeps c f =
    wake (receive c f) 0
    ≡ ok (act (record c { frames = [] }) (send_frame (claim_frame c.ecu_name c.current_src)))

-- It gives the address up, and claims again.
abbrev pub Yields : Claimer → Frame → Type 0
Yields c f = wake (receive c f) 0 ≡ ok (claim_address_step (record c { frames = [] }))

answer :
    (c : Claimer) (name : EcuName) (s : ℕ)
    → c.place ≡ operating
    → c.frames ≡ []
    → c.current_src ≡ s
    → s ≢ invalid_address
    → (name_lt c.ecu_name name ≡ true → Keeps c (claim_frame name s))
      × (name_lt c.ecu_name name ≡ false → Yields c (claim_frame name s))
unfolding wake receive Dict.insert exec_round claim_frame
answer c name s p f held valid = (ground arith, ground arith)

-- Two units with different valid names that operate under one valid address, and have no other frame
-- pending: when each receives the claim of the other, exactly one of them, the one with the smaller
-- name, keeps the address and repeats its claim, and the other claims again.
pub contention :
    (c d : Claimer) (s : ℕ)
    → IsValid c.ecu_name
    → IsValid d.ecu_name
    → c.ecu_name ≢ d.ecu_name
    → c.place ≡ operating
    → d.place ≡ operating
    → c.frames ≡ []
    → d.frames ≡ []
    → c.current_src ≡ s
    → d.current_src ≡ s
    → s ≢ invalid_address
    → ((name_lt c.ecu_name d.ecu_name ≡ true)
        × Keeps c (claim_frame d.ecu_name s)
        × Yields d (claim_frame c.ecu_name s))
      ⊎ ((name_lt d.ecu_name c.ecu_name ≡ true)
          × Yields c (claim_frame d.ecu_name s)
          × Keeps d (claim_frame c.ecu_name s))
contention c d s vc vd differ pc pd fc fd hc hd valid =
    let to_c = answer c d.ecu_name s pc fc hc valid in
    let to_d = answer d c.ecu_name s pd fd hd valid in
    elim (name_lt_total c.ecu_name d.ecu_name vc vd differ) [
      | inl (less, not_less) ↦ inl (less, to_c.0 less, to_d.1 not_less)
      | inr (not_less, less) ↦ inr (less, to_c.1 not_less, to_d.0 less)
    ]
