-- ===== src/Claimer/Settle.antt =====
-- A claimer against a bus on which some of its preferred addresses are defended.
use j1939_framework.Base.{
  ℕ, zero, suc, ◌≡◌, ◌≢◌, All, ◌∙◌, refl, sym, ap, arith, inl, inr, Bool, true, false, List, [],
  ◌∷◌, ◌++◌, Option, none, some, length, Option-cases,
}
use mathlib.Core.List.{append-nil, append_assoc}
use mathlib.Core.Path.{subst}
use j1939_framework.Base.Dict
use j1939_framework.Common.{Result, ok, ◌>>=◌, invalid_address}
use j1939_framework.Addressing.{EcuName, name_lt}
use j1939_framework.Claimer.{
  Claimer, Place, Action, send_frame, on_src_addr_changed, trying, operating, act, claim_frame,
  claim_timeout, receive, flush, start_try, next_address, claim_address_step, try_round,
  after_round, wake,
}
use j1939_framework.Claimer.Waiting.{Heard, hear, next_wait, never_obtained}
use j1939_framework.Claimer.Outcomes.{next_address_first}

-- A bus on which the claimer tries addresses: the unit that defends an address, if there is one; the
-- claims of other addresses that arrive before its answer; and the milliseconds that the last `read`
-- takes.
pub record Bus : Type 0 where
  pub rival : ℕ → Option EcuName
  pub heard : ℕ → List Heard
  pub delay : ℕ → ℕ

-- The defender of the address answers, or where there is none the time runs out.
unfoldable pub answer : Bus → ℕ → Claimer → Result Claimer
answer bus a c = elim (bus.rival a) [
  | none ↦ wake c (bus.delay a)
  | some other ↦ wake (receive c (claim_frame other a)) (bus.delay a)
]

-- What happens while the claimer tries one address after another.
unfoldable pub drive : Bus → ℕ → Claimer → Result Claimer
unfolding answer
drive bus zero c = ok c
drive bus (suc n) c = elim c.place [
  | operating ↦ ok c
  | trying left a t ↦ hear (bus.heard a) c >>= answer bus a >>= drive bus n
]

-- The address that a claimer should get: the first that nobody defends.
unfoldable pub first_free : (ℕ → Option EcuName) → List ℕ → ℕ
first_free rival [] = invalid_address
first_free rival (a ∷ rest) = elim (rival a) [ none ↦ a | some other ↦ first_free rival rest ]

-- The claims that the claimer hears while it tries an address are of other addresses.
abbrev pub OnlyOthers : Bus → Type 0
OnlyOthers bus = (a : ℕ) → All (λ h. h.address ≢ a) (bus.heard a)

drive_operating : (bus : Bus) (n : ℕ) (c : Claimer) → c.place ≡ operating → drive bus n c ≡ ok c
unfolding drive
drive_operating bus zero c e = refl
drive_operating bus (suc n) c e = ground arith

wake_silent :
    (c : Claimer) (left a t elapsed : ℕ)
    → c.place ≡ trying left a t
    → c.frames ≡ []
    → wake c elapsed
      ≡ ok (act (record c { current_src = a; place = operating }) (on_src_addr_changed a))
unfolding wake try_round after_round
wake_silent c left a t elapsed e f = ground arith

wake_refused :
    (c : Claimer) (left a t elapsed : ℕ) (other : EcuName)
    → c.place ≡ trying left a t
    → c.frames ≡ []
    → name_lt c.ecu_name other ≡ false
    → wake (receive c (claim_frame other a)) elapsed
      ≡ ok (next_address (record c { frames = [] }) left)
unfolding wake receive try_round after_round Dict.insert claim_frame
wake_refused c left a t elapsed other e f lost = ground arith

-- The claimer after the claims of other addresses.
abbrev waited : Bus → Claimer → ℕ → ℕ → ℕ → Claimer
waited bus c left a t = record c { frames = []; place = trying left a (next_wait t (bus.heard a)) }

drive_trying :
    (bus : Bus) (n : ℕ) (c : Claimer) (left a t : ℕ)
    → OnlyOthers bus
    → c.place ≡ trying left a t
    → c.frames ≡ []
    → drive bus (suc n) c ≡ (answer bus a (waited bus c left a t) >>= drive bus n)
unfolding drive
drive_trying bus n c left a t others e f =
    ap
      (λ (p : Place). elim p as (λ q. Result Claimer) [
        | operating ↦ ok c
        | trying l b u ↦ hear (bus.heard b) c >>= answer bus b >>= drive bus n
      ])
      e
    ∙ ap (λ (r : Result Claimer). r >>= answer bus a >>= drive bus n)
        (never_obtained c left a t (bus.heard a) e f (others a))

drive_silent :
    (bus : Bus) (n : ℕ) (c : Claimer) (left a t : ℕ)
    → OnlyOthers bus
    → c.place ≡ trying left a t
    → c.frames ≡ []
    → bus.rival a ≡ none
    → drive bus (suc n) c
      ≡ ok (
          act
            (record c { frames = []; current_src = a; place = operating })
            (on_src_addr_changed a))
unfolding answer
drive_silent bus n c left a t others e f free =
    let d =
      act (record c { frames = []; current_src = a; place = operating }) (on_src_addr_changed a) in
    let final : answer bus a (waited bus c left a t) ≡ ok d =
      rw (free, answer) (wake_silent (waited bus c left a t) left a _ (bus.delay a) refl refl) in
    drive_trying bus n c left a t others e f
    ∙ (ap (λ (r : Result Claimer). r >>= drive bus n) final ∙ drive_operating bus n d refl)

drive_refused :
    (bus : Bus) (n : ℕ) (c : Claimer) (left a t : ℕ) (other : EcuName)
    → OnlyOthers bus
    → c.place ≡ trying left a t
    → c.frames ≡ []
    → bus.rival a ≡ some other
    → name_lt c.ecu_name other ≡ false
    → drive bus (suc n) c ≡ drive bus n (next_address (waited bus c left a t) left)
unfolding answer
drive_refused bus n c left a t other others e f defended lost =
    let final : answer bus a (waited bus c left a t)
        ≡ ok (next_address (waited bus c left a t) left) =
      rw (defended, answer)
        (wake_refused (waited bus c left a t) left a (next_wait t (bus.heard a)) (bus.delay a) other
          refl refl lost) in
    drive_trying bus n c left a t others e f ∙ ap (λ (r : Result Claimer). r >>= drive bus n) final

-- Every one of the addresses is defended.
unfoldable pub all_defended : (ℕ → Option EcuName) → List ℕ → Bool
all_defended rival [] = true
all_defended rival (a ∷ rest) = elim (rival a) [
  | none ↦ false
  | some other ↦ all_defended rival rest
]

abbrev pub last_action : List Action → Option Action
last_action [] = none
last_action (a ∷ past) = some a

-- What the claimer has come to, after trying the addresses `tried` with `kept` behind them in the
-- queue.
pub record IsSettled (rival : ℕ → Option EcuName) (name : EcuName) (tried queue : List ℕ)
    (d : Claimer) : Type 0 where
  pub rests : d.place ≡ operating
  pub holds : d.current_src ≡ first_free rival tried
  pub obtained :
      all_defended rival tried ≡ false
      → last_action d.actions ≡ some (on_src_addr_changed d.current_src)
  pub refused :
      all_defended rival tried ≡ true
      → last_action d.actions ≡ some (send_frame (claim_frame name invalid_address))
  pub restored : all_defended rival tried ≡ true → d.preferred ≡ queue

module _ (bus : Bus) (name : EcuName) (others : OnlyOthers bus)
    (stronger : (a : ℕ) (other : EcuName)
      → bus.rival a ≡ some other
      → name_lt name other ≡ false) where
  settle_silent :
      (c : Claimer) (a : ℕ) (rest queue : List ℕ)
      → bus.rival a ≡ none
      → IsSettled bus.rival name
          (a ∷ rest)
          queue
          (act (record c { current_src = a; place = operating }) (on_src_addr_changed a))
  unfolding first_free all_defended
  settle_silent c a rest queue free = ground (arith, free)

  settle_more :
      (a : ℕ) (rest queue : List ℕ) (d : Claimer) (other : EcuName)
      → bus.rival a ≡ some other
      → IsSettled bus.rival name rest queue d
      → IsSettled bus.rival name (a ∷ rest) queue d
  unfolding first_free all_defended
  settle_more a rest queue d other defended v =
      ground (arith, defended, v.rests, v.holds, v.obtained, v.refused, v.restored)

  settle_last :
      (c : Claimer) (a : ℕ) (tested : List ℕ) (other : EcuName)
      → c.ecu_name ≡ name
      → c.preferred ≡ tested
      → c.current_src ≡ invalid_address
      → bus.rival a ≡ some other
      → IsSettled bus.rival name (a ∷ []) tested (next_address c 0)
  unfolding first_free all_defended next_address
  settle_last c a tested other n q s defended = ground (arith, defended)

  pub settle_from :
      (untested tested : List ℕ) (c : Claimer) (a t : ℕ)
      → c.ecu_name ≡ name
      → c.place ≡ trying (length untested) a t
      → c.frames ≡ []
      → c.preferred ≡ untested ++ tested
      → c.current_src ≡ invalid_address
      → (d : Claimer) × (drive bus (suc (length untested)) c ≡ ok d)
        × IsSettled bus.rival name (a ∷ untested) (tested ++ untested) d
  unfolding start_try
  settle_from [] tested c a t n p f q s = elim (Option-cases (bus.rival a)) [
    | inl free ↦ (
      act (record c { frames = []; current_src = a; place = operating }) (on_src_addr_changed a),
      drive_silent bus 0 c 0 a t others p f free,
      settle_silent (record c { frames = [] }) a [] (tested ++ []) free,
    )
    | inr (other, defended) ↦
        let c' : Claimer = waited bus c 0 a t in
        let gone =
          drive_refused bus 0 c 0 a t other others p f defended
            (ap (λ (m : EcuName). name_lt m other) n ∙ stronger a other defended) in
        (
          next_address c' 0,
          gone ∙ unfold drive in refl,
          settle_last c' a (tested ++ []) other n (q ∙ sym (append-nil tested)) s defended,
        )
  ]
  settle_from (b ∷ l) tested c a t n p f q s = elim (Option-cases (bus.rival a)) [
    | inl free ↦ (
      act (record c { frames = []; current_src = a; place = operating }) (on_src_addr_changed a),
      drive_silent bus (suc (length l)) c (suc (length l)) a t others p f free,
      settle_silent (record c { frames = [] }) a (b ∷ l) (tested ++ b ∷ l) free,
    )
    | inr (other, defended) ↦
        let c' : Claimer = waited bus c (suc (length l)) a t in
        let c'' = start_try (record c' { preferred = (l ++ tested) ++ b ∷ [] }) (length l) b in
        let gone =
          drive_refused bus (suc (length l)) c (suc (length l)) a t other others p f defended
            (ap (λ (m : EcuName). name_lt m other) n ∙ stronger a other defended) in
        let turned = next_address_first c' (length l) b (l ++ tested) q in
        let (d, run, v) =
          settle_from l (tested ++ b ∷ []) c'' b claim_timeout n refl refl
            (append_assoc l tested (b ∷ [])) s in
        (
          d,
          gone ∙ ap (drive bus (suc (length l))) turned ∙ run,
          settle_more a (b ∷ l) (tested ++ b ∷ l) d other defended (
              subst (λ (queue : List ℕ). IsSettled bus.rival name (b ∷ l) queue d)
                (append_assoc tested (b ∷ []) l) v),
        )
  ]

-- Wherever a claimer with a preferred address starts to claim: while it tries an address, it hears any
-- claims of other addresses, after any times, and then the claim of the unit that defends the address,
-- whose name is not greater, or nothing more if nobody defends it. No other frame arrives. It comes to
-- rest after as many answers as it has preferred addresses, or before. It then holds the first of
-- them that nobody defends, and has told the subclass; or, if all are defended, the invalid address,
-- has sent that it cannot claim an address, and its queue is as it was.
pub claim_address_step-IsSettled :
    (bus : Bus) (c : Claimer) (a : ℕ) (rest : List ℕ)
    → c.preferred ≡ a ∷ rest
    → OnlyOthers bus
    → ((x : ℕ) (other : EcuName) → bus.rival x ≡ some other → name_lt c.ecu_name other ≡ false)
    → (d : Claimer) × (drive bus (length c.preferred) (claim_address_step c) ≡ ok d)
      × IsSettled bus.rival c.ecu_name c.preferred c.preferred d
unfolding claim_address_step flush start_try
claim_address_step-IsSettled bus c a rest q others stronger =
    let c' : Claimer = record c {
      current_src = invalid_address;
      frames = [];
      actions = on_src_addr_changed invalid_address ∷ c.actions;
    } in
    let c'' = start_try (record c' { preferred = rest ++ a ∷ [] }) (length rest) a in
    let (d, run, v) =
      settle_from bus c.ecu_name others stronger rest (a ∷ []) c'' a claim_timeout refl refl refl
        refl refl in
    let e : length c.preferred ≡ suc (length rest) = ap length q in
    (
      d,
      rw e
          (ap (drive bus (suc (length rest))) (next_address_first c' (length rest) a rest q) ∙ run),
      rw q v,
    )
