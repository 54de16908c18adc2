-- ===== src/Can/Filter.antt =====
-- CanFilter (CAN/include/CanFilter.h) and CommonCanReceiver (CAN/CommonCanReceiver.cpp).
use j1939_framework.Base.{
  ℕ, ◌≡◌, ◌≢◌, ◌⊎◌, ◌↔◌, inl, inr, refl, arith, bit_and, Bool, true, false, not, ◌&&◌, List, [],
  ◌∷◌, String, ltb, ◌==◌, ==_iff, if◌then◌else◌, Bool-cases,
}

pub record CanFilter : Type 0 where
  pub id : ℕ
  pub mask : ℕ
  pub std_frame : Bool
  pub ext_frame : Bool

-- `operator<`, by which `std::set` orders filters.
unfoldable pub filter_lt : CanFilter → CanFilter → Bool
filter_lt a b =
    if ltb a.id b.id
    then true
    else if ltb b.id a.id
    then false
    else if ltb a.mask b.mask
    then true
    else if ltb b.mask a.mask
    then false
    else if not a.std_frame && b.std_frame
    then true
    else if a.std_frame && not b.std_frame
    then false
    else if not a.ext_frame && b.ext_frame
    then true
    else false

pub record Receiver : Type 0 where
  pub filters : List CanFilter
  pub interface : String

unfoldable pub set_interface : Receiver → String → Receiver × Bool
set_interface r name = (record r { interface = name }, true)

unfoldable pub set_filters : Receiver → List CanFilter → Receiver × Bool
set_filters r filters = (record r { filters = filters }, true)

unfoldable pub matches : List CanFilter → ℕ → Bool
matches [] id = false
matches (f ∷ fs) id =
    let rest = matches fs id in if bit_and f.id f.mask == bit_and id f.mask then true else rest

-- `filter`: without filters every identifier passes.
unfoldable pub passes : List CanFilter → ℕ → Bool
unfolding matches
passes [] id = true
passes (f ∷ fs) id = matches (f ∷ fs) id

unfoldable pub filter : Receiver → ℕ → Bool
unfolding passes
filter r id = passes r.filters id

-- A filter that agrees with the identifier on its mask.
abbrev pub SomeAccepts : List CanFilter → ℕ → Type 0
SomeAccepts [] id = ⊥
SomeAccepts (f ∷ fs) id = (bit_and f.id f.mask ≡ bit_and id f.mask) ⊎ SomeAccepts fs id

matches_lem : (fs : List CanFilter) (id : ℕ) → (matches fs id ≡ true) ↔ SomeAccepts fs id
unfolding matches
matches_lem [] id = (λ e. cc, λ h. absurd h)
matches_lem (f ∷ fs) id = (
  λ e. elim (Bool-cases (bit_and f.id f.mask == bit_and id f.mask)) [
    | inl same ↦ inl ((==_iff _ _).0 same)
    | inr other ↦ inr ((matches_lem fs id).0 (ground arith))
  ],
  λ h. elim h [
    | inl same ↦ ground (arith, same)
    | inr later ↦ ground (arith, (matches_lem fs id).1 later)
  ],
)

-- An identifier passes exactly when no filter is set or some filter agrees with it on its mask; the
-- kind of frame that a filter asks for plays no part.
pub filter_lem :
    (r : Receiver) (id : ℕ) → (filter r id ≡ true) ↔ ((r.filters ≡ []) ⊎ SomeAccepts r.filters id)
unfolding filter
filter_lem r id = go r.filters
  where
    go : (fs : List CanFilter) → (passes fs id ≡ true) ↔ ((fs ≡ []) ⊎ SomeAccepts fs id)
    go [] = (λ e. inl refl, λ h. refl)
    go (f ∷ fs) = (
      λ e. inr ((matches_lem (f ∷ fs) id).0 e),
      λ h. elim h [
        | inl none_set ↦ absurd (ground arith)
        | inr some_set ↦ (matches_lem (f ∷ fs) id).1 some_set
      ],
    )

-- The order of filters is total: of two filters exactly one is smaller, or they are the same, so that a
-- set keeps every filter once.
filter_lt_total :
    (a b : CanFilter)
    → ((filter_lt a b ≡ true) × (filter_lt b a ≡ false) × (a ≢ b))
      ⊎ (((filter_lt a b ≡ false) × (filter_lt b a ≡ true) × (a ≢ b))
          ⊎ ((filter_lt a b ≡ false) × (filter_lt b a ≡ false) × (a ≡ b)))
unfolding filter_lt
filter_lt_total a b = ground arith

filter_lt_trans :
    (a b c : CanFilter) → filter_lt a b ≡ true → filter_lt b c ≡ true → filter_lt a c ≡ true
unfolding filter_lt
filter_lt_trans a b c h k = ground arith
