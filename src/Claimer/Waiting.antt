-- ===== src/Claimer/Waiting.antt =====
-- A claimer that hears claims of other addresses while it waits for an answer to its own.
use j1939_framework.Base.{ℕ, ◌≡◌, ◌≢◌, ◌∙◌, refl, ap, arith, List, [], ◌∷◌, All}
use j1939_framework.Base.Dict
use j1939_framework.Common.{Result, ok, ◌>>=◌}
use j1939_framework.Addressing.{EcuName}
use j1939_framework.Claimer.{
  Claimer, trying, claim_frame, claim_timeout, receive, try_round, after_round, wake,
}

-- A claim that arrives: the milliseconds that the unit has waited then, the address and the name.
pub record Heard : Type 0 where
  pub elapsed : ℕ
  pub address : ℕ
  pub name : EcuName

-- One claim after another is received, and `read` returns it.
abbrev pub hear : List Heard → Claimer → Result Claimer
hear [] c = ok c
hear (h ∷ heard) c = wake (receive c (claim_frame h.name h.address)) h.elapsed >>= hear heard

-- The time to wait after that.
abbrev pub next_wait : ℕ → List Heard → ℕ
next_wait t [] = t
next_wait t (h ∷ heard) = claim_timeout

next_wait-again : (heard : List Heard) → next_wait claim_timeout heard ≡ claim_timeout
next_wait-again [] = refl
next_wait-again (h ∷ heard) = refl

wake-foreign :
    (c : Claimer) (left a t : ℕ) (h : Heard)
    → c.place ≡ trying left a t
    → c.frames ≡ []
    → h.address ≢ a
    → wake (receive c (claim_frame h.name h.address)) h.elapsed
      ≡ ok (record c { frames = []; place = trying left a claim_timeout })
unfolding wake receive Dict.insert try_round after_round claim_frame
wake-foreign c left a t h e f other = ground arith

-- However many claims of other addresses a unit hears that tries an address and has no other frame
-- pending, after whatever times, it still tries that address: it has not obtained it, has sent nothing
-- and told nothing, and waits as long again after each of them.
pub never_obtained :
    (c : Claimer) (left a t : ℕ) (heard : List Heard)
    → c.place ≡ trying left a t
    → c.frames ≡ []
    → All (λ h. h.address ≢ a) heard
    → hear heard c ≡ ok (record c { frames = []; place = trying left a (next_wait t heard) })
never_obtained c left a t [] e f others = ground (arith, e, f)
never_obtained c left a t (h ∷ heard) e f (other, others) =
    let c' : Claimer = record c { frames = []; place = trying left a claim_timeout } in
    rw (wake-foreign c left a t h e f other) (
      never_obtained c' left a claim_timeout heard refl refl others
      ∙ ap (λ (w : ℕ). ok (record c { frames = []; place = trying left a w }))
          (next_wait-again heard))
