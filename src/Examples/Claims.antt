-- ===== src/Examples/Claims.antt =====
-- Units that claim addresses.
use j1939_framework.Base.{
  List, ℕ, ◌≡◌, ◌≢◌, ◌⊎◌, refl, ap, arith, true, false, [], ◌∷◌, Option, none, some, ◌==◌,
  if◌then◌else◌,
}
use j1939_framework.Common.{ok, invalid_address}
use j1939_framework.Addressing.{EcuName, IsValid, name_lt, get_value}
use j1939_framework.Claimer.{
  Claimer, on_src_addr_changed, trying, operating, claim_frame, claim_timeout, start, start_try,
  next_address, claim_address_step, flush, receive, read, wake, try_round, after_round, arrives,
  wakes, Reach, begin, next,
}
use j1939_framework.Claimer.Outcomes.{told, count, IsClaimed}
use j1939_framework.Claimer.Invariant.{Reach-current_src}
use j1939_framework.Claimer.Waiting.{Heard, hear, never_obtained}
use j1939_framework.Claimer.Settle.{Bus, OnlyOthers, drive, IsSettled, claim_address_step-IsSettled}
use j1939_framework.Claimer.Contention.{Keeps, Yields, contention}

abbrev strong : EcuName
strong = record {
  id_number = 5;
  manufacturer_code = 1;
  ecu_instance = 0;
  function_instance = 0;
  function = 10;
  vehicle_system = 2;
  vehicle_system_instance = 0;
  industry_group = 1;
  arbitrary_address_capable = false;
}

abbrev weak : EcuName
weak = record strong { id_number = 9 }

strong-IsValid : IsValid strong
strong-IsValid = record {
  id_fits = omega arith;
  manufacturer_fits = omega arith;
  ecu_fits = omega arith;
  function_instance_fits = omega arith;
  function_fits = omega arith;
  system_fits = omega arith;
  system_instance_fits = omega arith;
  group_fits = omega arith;
}

weak-IsValid : IsValid weak
weak-IsValid = record {
  id_fits = omega arith;
  manufacturer_fits = omega arith;
  ecu_fits = omega arith;
  function_instance_fits = omega arith;
  function_fits = omega arith;
  system_fits = omega arith;
  system_instance_fits = omega arith;
  group_fits = omega arith;
}

abbrev unit_at : EcuName → ℕ → Claimer
unit_at name src = record {
  ecu_name = name;
  preferred = 128 ∷ 129 ∷ [];
  current_src = src;
  frames = [];
  place = operating;
  actions = [];
}

strong-ne-weak : strong ≢ weak
strong-ne-weak = λ e. absurd (omega (arith, ap (λ (n : EcuName). n.id_number) e))

contention_example :
    ((name_lt strong weak ≡ true)
      × Keeps (unit_at strong 128) (claim_frame weak 128)
      × Yields (unit_at weak 128) (claim_frame strong 128))
    ⊎ ((name_lt weak strong ≡ true)
        × Yields (unit_at strong 128) (claim_frame weak 128)
        × Keeps (unit_at weak 128) (claim_frame strong 128))
contention_example =
    contention (unit_at strong 128) (unit_at weak 128) 128 strong-IsValid weak-IsValid
      strong-ne-weak refl refl refl refl refl refl (λ e. absurd (omega (arith, e)))

abbrev waiting : Claimer
waiting = record (unit_at weak invalid_address) { place = trying 1 128 250 }

abbrev claims_heard : List Heard
claims_heard =
    record { elapsed = 249; address = 130; name = strong }
    ∷ record { elapsed = 200; address = 131; name = weak }
    ∷ []

never_obtained_example :
    hear claims_heard waiting
    ≡ ok (record waiting { frames = []; place = trying 1 128 claim_timeout })
never_obtained_example =
    never_obtained waiting 1 128 250 claims_heard refl refl
      (λ e. absurd (omega (arith, e)), (λ e. absurd (omega (arith, e)), tt))

abbrev defended : ℕ → Option EcuName
defended a = if a == 128 then some strong else none

strong_first : name_lt weak strong ≡ false
unfolding name_lt get_value
strong_first = refl

defended-strong : (x : ℕ) (other : EcuName) → defended x ≡ some other → name_lt weak other ≡ false
defended-strong x other e = ground (arith, strong_first)

abbrev bus : Bus
bus = record {
  rival = defended;
  heard = λ a. if a == 128 then claims_heard else [];
  delay = λ a. 100;
}

bus-OnlyOthers : OnlyOthers bus
bus-OnlyOthers a = ground arith

claim_address_step-IsSettled_example :
    (d : Claimer) × (drive bus 2 (claim_address_step (unit_at weak 128)) ≡ ok d)
    × IsSettled defended weak (128 ∷ 129 ∷ []) (128 ∷ 129 ∷ []) d
claim_address_step-IsSettled_example =
    claim_address_step-IsSettled bus (unit_at weak 128) 128 (129 ∷ []) refl bus-OnlyOthers
      defended-strong

abbrev begun : Claimer
begun = start weak (128 ∷ 129 ∷ [])

abbrev moved : Claimer
moved = record begun {
  current_src = 128;
  place = operating;
  actions = on_src_addr_changed 128 ∷ begun.actions;
}

settles : wake begun 250 ≡ ok moved
unfolding wake read start claim_address_step flush next_address start_try try_round after_round
settles = refl

reached : Reach weak (128 ∷ 129 ∷ []) (receive moved (claim_frame strong 130))
reached = next (next begin (wakes 250 settles)) (arrives (claim_frame strong 130))

Reach-current_src_example :
    (told (receive moved (claim_frame strong 130)).actions
      ≡ (receive moved (claim_frame strong 130)).current_src)
    × (((receive moved (claim_frame strong 130)).current_src ≡ invalid_address)
        ⊎ IsClaimed weak
            (128 ∷ 129 ∷ [])
            (receive moved (claim_frame strong 130))
            (receive moved (claim_frame strong 130)).current_src)
    × ((a : ℕ)
        → count a (receive moved (claim_frame strong 130)).preferred ≡ count a (128 ∷ 129 ∷ []))
Reach-current_src_example =
    Reach-current_src weak (128 ∷ 129 ∷ []) (receive moved (claim_frame strong 130)) reached
