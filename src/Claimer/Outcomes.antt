-- ===== src/Claimer/Outcomes.antt =====
-- What a claimer has told and sent, and what its steps come to.
use j1939_framework.Base.{
  ℕ, zero, suc, ◌+◌, ◌<◌, ◌≡◌, ◌⊎◌, inl, inr, refl, arith, List, [], ◌∷◌, ◌++◌, ◌==◌, Option, none,
  some, if◌then◌else◌,
}
use j1939_framework.Common.{ok, invalid_address, Result-cases}
use j1939_framework.Addressing.{EcuName}
use j1939_framework.Frame.{Frame}
use j1939_framework.Claimer.{
  Claimer, Action, send_frame, on_src_addr_changed, Place, trying, operating, Round, act,
  claim_frame, read, start_try, next_address, claim_address_step, try_round, after_round,
  exec_round, wake,
}

-- How often an address stands in the queue.
unfoldable pub count : ℕ → List ℕ → ℕ
count a [] = 0
count a (b ∷ bs) = (if b == a then 1 else 0) + count a bs

pub count-rotate : (a b : ℕ) (bs : List ℕ) → count a (bs ++ b ∷ []) ≡ count a (b ∷ bs)
unfolding count
count-rotate a b [] = refl
count-rotate a b (c ∷ bs) = omega (arith, count-rotate a b bs)

pub count_self : (a : ℕ) (bs : List ℕ) → 0 < count a (a ∷ bs)
unfolding count
count_self a bs = ground arith

-- The address that the subclass has been told last.
unfoldable pub told : List Action → ℕ
told [] = invalid_address
told (send_frame f ∷ past) = told past
told (on_src_addr_changed a ∷ past) = a

-- The frame has been sent.
abbrev pub Sent : Frame → List Action → Type 0
Sent f [] = ⊥
Sent f (a ∷ past) = (a ≡ send_frame f) ⊎ Sent f past

-- An address that the claimer may use: one of the preferred ones, for which it has sent a claim.
abbrev pub IsClaimed : EcuName → List ℕ → Claimer → ℕ → Type 0
IsClaimed name preferred c a = (0 < count a preferred) × Sent (claim_frame name a) c.actions

abbrev pub PlaceFits : EcuName → List ℕ → Claimer → Place → Type 0
PlaceFits name preferred c (trying left address t) =
    (c.current_src ≡ invalid_address) × IsClaimed name preferred c address
PlaceFits name preferred c operating =
    (c.current_src ≡ invalid_address) ⊎ IsClaimed name preferred c c.current_src

pub record IsSound (name : EcuName) (preferred : List ℕ) (c : Claimer) : Type 0 where
  pub named : c.ecu_name ≡ name
  pub told_src : told c.actions ≡ c.current_src
  pub same : (a : ℕ) → count a c.preferred ≡ count a preferred
  pub fits : PlaceFits name preferred c c.place

pub next_address_empty :
    (c : Claimer) (left : ℕ) → c.preferred ≡ [] → next_address c left ≡ next_address c 0
unfolding next_address
next_address_empty c zero e = refl
next_address_empty c (suc left) e = ground arith

pub next_address_first :
    (c : Claimer) (left a : ℕ) (rest : List ℕ)
    → c.preferred ≡ a ∷ rest
    → next_address c (suc left) ≡ start_try (record c { preferred = rest ++ a ∷ [] }) left a
unfolding next_address
next_address_first c left a rest e = ground arith

-- What a round of `exec` may do: nothing, announce the address again, or start claiming.
pub exec_round_outcomes :
    (c d : Claimer) (f : Option Frame)
    → exec_round c f ≡ ok d
    → (d ≡ c)
      ⊎ ((d ≡ act c (send_frame (claim_frame c.ecu_name c.current_src)))
          ⊎ (d ≡ claim_address_step c))
unfolding exec_round
exec_round_outcomes c d none run = ground arith
exec_round_outcomes c d (some f) run = ground arith

pub read_frames : (c : Claimer) → (read c).0 ≡ record c { frames = (read c).0.frames }
unfolding read
read_frames c = ground arith

-- A return of `read` ends in a round of one of the two loops.
pub wake_outcomes :
    (c d : Claimer) (elapsed : ℕ)
    → wake c elapsed ≡ ok d
    → ((left : ℕ) × (address : ℕ) × (t : ℕ) × (round : Round) × (c.place ≡ trying left address t)
        × (d ≡ after_round (read c).0 left address round))
      ⊎ ((c.place ≡ operating) × (exec_round (read c).0 (read c).1 ≡ ok d))
unfolding wake
wake_outcomes c d elapsed run = go c.place refl
  where
    go :
        (p : Place)
        → c.place ≡ p
        → ((left : ℕ) × (address : ℕ) × (t : ℕ) × (round : Round) × (c.place
              ≡ trying left address t)
            × (d ≡ after_round (read c).0 left address round))
          ⊎ ((c.place ≡ operating) × (exec_round (read c).0 (read c).1 ≡ ok d))
    go operating e = inr (e, ground arith)
    go (trying left address t) e =
        elim (Result-cases (try_round c.ecu_name address t elapsed (read c).1)) [
          | inl (round, h) ↦ inl (left, address, t, round, e, ground arith)
          | inr (err', h) ↦ absurd (ground arith)
        ]
