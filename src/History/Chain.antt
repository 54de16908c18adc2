-- ===== src/History/Chain.antt =====
-- Samples one after the other, and a sample pushed behind them (`addSample`).
use j1939_framework.Base.{
  ℕ, ◌≤◌, ◌≡◌, ◌∙◌, refl, sym, arith, Bool, false, List, [], ◌∷◌, ◌++◌, ◌==◌, none, some, length,
  All,
}
use j1939_framework.Common.{ok}
use j1939_framework.Spn.{SpnType, spn_numeric, spn_status}
use j1939_framework.TimeStamp.{TimeStamp, earlier_than}
use j1939_framework.History.{
  Value, of_numeric, of_status, Sample, History, max_number_of_samples, back, is_unchanged, equals,
}

module _ {ℓ} {D : Type ℓ} where
  unfoldable pub kind_of : Value D → SpnType
  kind_of (of_numeric x) = spn_numeric
  kind_of (of_status x) = spn_status

  pub back-All :
      (P : Sample D → Type 0) (s : Sample D) (rest : List (Sample D))
      → All P (s ∷ rest)
      → P (back s rest)
  back-All P s [] a = a.0
  back-All P s (t ∷ rest) a = back-All P t rest a.1

  pub All-append :
      (P : Sample D → Type 0) (xs : List (Sample D)) (s : Sample D)
      → All P xs
      → P s
      → All P (xs ++ s ∷ [])
  All-append P [] s a p = (p, tt)
  All-append P (x ∷ xs) s a p = (a.0, All-append P xs s a.1 p)

  -- The samples of the parameters of one kind, none before there is a specification.
  abbrev pub IsTagged : (ℕ → SpnType) → History D → Type 0
  IsTagged kind h = elim h.general_spec [
    | none ↦ length h.samples ≡ 0
    | some spec ↦ All (λ s. kind_of s.value ≡ kind spec.spec_id) h.samples
  ]

module _ {ℓ} {D : Type ℓ} (same_double : D → D → Bool) where
  unfoldable pub same_value : Value D → Value D → Bool
  same_value (of_numeric x) (of_numeric y) = same_double x y
  same_value (of_numeric x) (of_status y) = false
  same_value (of_status x) (of_numeric y) = false
  same_value (of_status x) (of_status y) = x == y

  -- No sample is earlier than the one before it, or has its value.
  abbrev pub IsChain : Sample D → List (Sample D) → Type 0
  IsChain s [] = Unit {0}
  IsChain s (t ∷ rest) =
      (earlier_than t.time_stamp s.time_stamp ≡ false)
      × (same_value s.value t.value ≡ false)
      × IsChain t rest

  -- The samples up to a moment.
  abbrev pub IsRecord : TimeStamp → List (Sample D) → Type 0
  IsRecord now [] = Unit {0}
  IsRecord now (s ∷ rest) = IsChain s rest × (earlier_than now (back s rest).time_stamp ≡ false)

  pub record IsHistory (kind : ℕ → SpnType) (now : TimeStamp) (h : History D) : Type 0 where
    pub room : h.capacity ≡ max_number_of_samples
    pub bounded : length h.samples ≤ max_number_of_samples
    pub tagged : IsTagged kind h
    pub ordered : IsRecord now h.samples

  pub not_earlier_trans :
      (a b c : TimeStamp)
      → earlier_than b a ≡ false
      → earlier_than c b ≡ false
      → earlier_than c a ≡ false
  unfolding earlier_than
  not_earlier_trans a b c e d = ground arith

  pub IsRecord-later :
      (now time : TimeStamp) (xs : List (Sample D))
      → earlier_than time now ≡ false
      → IsRecord now xs
      → IsRecord time xs
  IsRecord-later now time [] e r = tt
  IsRecord-later now time (s ∷ rest) e r =
      (r.0, not_earlier_trans (back s rest).time_stamp now time r.1 e)

  IsChain-append :
      (s t : Sample D) (rest : List (Sample D))
      → IsChain s rest
      → earlier_than t.time_stamp (back s rest).time_stamp ≡ false
      → same_value (back s rest).value t.value ≡ false
      → IsChain s (rest ++ t ∷ [])
  IsChain-append s t [] c e d = (e, d, tt)
  IsChain-append s t (r ∷ rest) c e d = (c.0, c.1, IsChain-append r t rest c.2 e d)

  back-append : (s t : Sample D) (rest : List (Sample D)) → back s (rest ++ t ∷ []) ≡ t
  back-append s t [] = refl
  back-append s t (r ∷ rest) = back-append r t rest

  -- Two values of one kind can be compared.
  equals_lem :
      (v w : Value D) → kind_of v ≡ kind_of w → equals same_double v w ≡ ok (same_value v w)
  unfolding equals kind_of same_value
  equals_lem (of_numeric x) (of_numeric y) e = refl
  equals_lem (of_numeric x) (of_status y) e = cc
  equals_lem (of_status x) (of_numeric y) e = cc
  equals_lem (of_status x) (of_status y) e = refl

  -- Whether a value is a change.
  abbrev pub IsChange : List (Sample D) → Value D → Type 0
  IsChange [] v = Unit {0}
  IsChange (s ∷ rest) v = same_value (back s rest).value v ≡ false

  pub is_unchanged_lem :
      (k : SpnType) (xs : List (Sample D)) (v : Value D)
      → All (λ s. kind_of s.value ≡ k) xs
      → kind_of v ≡ k
      → (b : Bool) × (is_unchanged same_double xs v ≡ ok b) × (b ≡ false → IsChange xs v)
  unfolding is_unchanged
  is_unchanged_lem k [] v a e = (false, refl, λ h. tt)
  is_unchanged_lem k (s ∷ rest) v a e = (
    same_value (back s rest).value v,
    equals_lem (back s rest).value v (back-All (λ s. kind_of s.value ≡ k) s rest a ∙ sym e),
    λ h. h,
  )

  pub IsRecord-append :
      (now : TimeStamp) (xs : List (Sample D)) (s : Sample D)
      → IsRecord now xs
      → earlier_than s.time_stamp now ≡ false
      → IsChange xs s.value
      → IsRecord s.time_stamp (xs ++ s ∷ [])
  unfolding earlier_than
  IsRecord-append now [] s r e c = (tt, ground arith)
  IsRecord-append now (x ∷ xs) s r e c = (
    IsChain-append x s xs r.0 (not_earlier_trans (back x xs).time_stamp now s.time_stamp r.1 e) c,
    rw (back-append x s xs) (ground arith),
  )
