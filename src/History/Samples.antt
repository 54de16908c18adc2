-- ===== src/History/Samples.antt =====
-- The samples of a history after any calls of `addSample`.
use j1939_framework.Base.{
  ℕ, ◌<◌, ◌≡◌, ◌∙◌, inl, inr, refl, sym, ap, arith, Bool, true, false, List, [], ◌∷◌, ◌++◌, ◌==◌,
  Option, none, some, length, length-append, Bool-cases, All,
}
use j1939_framework.Common.{Result, ok, ◌>>=◌}
use j1939_framework.Spn.{Spn, numeric, status, text, Numeric, Spec, SpnType, get_type, get_spec}
use j1939_framework.TimeStamp.{TimeStamp, zero_time, earlier_than}
use j1939_framework.History.{
  Value, Sample, History, new_history, adopt_spec, set_specs, is_same_spec, value_of, store_sample,
  add_sample,
}
use j1939_framework.History.Chain.{
  kind_of, All-append, IsHistory, IsRecord-later, IsChange, is_unchanged_lem, IsRecord-append,
}

-- No time is earlier than the one before it, and the type of each parameter is that of its
-- specification.
abbrev pub IsUsage : (ℕ → SpnType) → TimeStamp → List (TimeStamp × Spn) → Type 0
IsUsage kind now [] = Unit {0}
IsUsage kind now ((time, spn) ∷ calls) =
    (earlier_than time now ≡ false)
    × (get_type spn ≡ kind (get_spec spn).spec_id)
    × IsUsage kind time calls

-- The time of the last call.
abbrev pub last_time : TimeStamp → List (TimeStamp × Spn) → TimeStamp
last_time now [] = now
last_time now ((time, spn) ∷ calls) = last_time time calls

module _ {ℓ} {D : Type ℓ} (same_double : D → D → Bool) (get_formatted_value : Numeric → D) where
  -- Parameters as they are shown to a history, each with its time.
  unfoldable pub add_all : List (TimeStamp × Spn) → History D → Result (History D)
  add_all [] h = ok h
  add_all ((time, spn) ∷ calls) h =
      add_sample same_double get_formatted_value h time spn >>= add_all calls

module _ {ℓ} {D : Type ℓ} (same_double : D → D → Bool) (get_formatted_value : Numeric → D)
    (kind : ℕ → SpnType) where
  All-none : (P : Sample D → Type 0) (xs : List (Sample D)) → length xs ≡ 0 → All P xs
  All-none P [] e = tt
  All-none P (x ∷ xs) e = absurd (omega arith)

  set_specs-IsHistory :
      (now : TimeStamp) (h : History D) (spn : Spn)
      → IsHistory same_double kind now h
      → h.general_spec ≡ none
      → ((set_specs h spn).general_spec ≡ some (get_spec spn))
        × IsHistory same_double kind now (set_specs h spn)
        × ((set_specs h spn).samples ≡ h.samples)
        × ((set_specs h spn).capacity ≡ h.capacity)
  unfolding set_specs get_spec
  set_specs-IsHistory now h (numeric n) v e =
      let empty : length h.samples ≡ 0 = rw e at v.tagged in
      (
        refl,
        record {
          room = v.room;
          bounded = v.bounded;
          tagged = All-none (λ s. kind_of s.value ≡ kind n.spec.spec_id) h.samples empty;
          ordered = v.ordered;
        },
        refl,
        refl,
      )
  set_specs-IsHistory now h (status s) v e =
      let empty : length h.samples ≡ 0 = rw e at v.tagged in
      (
        refl,
        record {
          room = v.room;
          bounded = v.bounded;
          tagged = All-none (λ x. kind_of x.value ≡ kind s.spec.spec_id) h.samples empty;
          ordered = v.ordered;
        },
        refl,
        refl,
      )
  set_specs-IsHistory now h (text t) v e =
      let empty : length h.samples ≡ 0 = rw e at v.tagged in
      (
        refl,
        record {
          room = v.room;
          bounded = v.bounded;
          tagged = All-none (λ s. kind_of s.value ≡ kind t.spec.spec_id) h.samples empty;
          ordered = v.ordered;
        },
        refl,
        refl,
      )

  abbrev adopted : History D → Spn → Option Spec → History D
  adopted h spn none = set_specs h spn
  adopted h spn (some spec) = h

  adopt_spec-none :
      (h : History D) (spn : Spn) → h.general_spec ≡ none → adopt_spec h spn ≡ set_specs h spn
  unfolding adopt_spec
  adopt_spec-none h spn e = ap (λ (g : Option Spec). adopted h spn g) e

  adopt_spec-some :
      (h : History D) (spn : Spn) (spec : Spec) → h.general_spec ≡ some spec → adopt_spec h spn ≡ h
  unfolding adopt_spec
  adopt_spec-some h spn spec e = ap (λ (g : Option Spec). adopted h spn g) e

  -- A history that a parameter has been shown to: it has a specification, and else is as before.
  abbrev IsAdopted : TimeStamp → History D → History D → Type ℓ
  IsAdopted now h h' =
      (spec : Spec) × (h'.general_spec ≡ some spec)
      × IsHistory same_double kind now h'
      × (h'.samples ≡ h.samples)
      × (h'.capacity ≡ h.capacity)

  adopt_spec-IsHistory :
      (now : TimeStamp) (h : History D) (spn : Spn)
      → IsHistory same_double kind now h
      → IsAdopted now h (adopt_spec h spn)
  adopt_spec-IsHistory now h spn v =
      elim h.general_spec as (λ g. h.general_spec ≡ g → IsAdopted now h (adopt_spec h spn)) [
        | none ↦ λ e.
            let (general, valid, samples, capacity) = set_specs-IsHistory now h spn v e in
            rw (adopt_spec-none h spn e) (get_spec spn, general, valid, samples, capacity)
        | some spec ↦ λ e. rw (adopt_spec-some h spn spec e) (spec, e, v, refl, refl)
      ]
        refl

  value_of-kind_of :
      (spn : Spn) (v : Value D)
      → value_of get_formatted_value spn ≡ some v
      → kind_of v ≡ get_type spn
  unfolding value_of kind_of get_type
  value_of-kind_of (numeric n) v e = ground arith
  value_of-kind_of (status s) v e = ground arith
  value_of-kind_of (text t) v e = cc

  push-IsHistory :
      (now : TimeStamp) (h : History D) (spec : Spec) (s : Sample D)
      → IsHistory same_double kind now h
      → h.general_spec ≡ some spec
      → length h.samples < h.capacity
      → kind_of s.value ≡ kind spec.spec_id
      → earlier_than s.time_stamp now ≡ false
      → IsChange same_double h.samples s.value
      → IsHistory same_double kind s.time_stamp (record h { samples = h.samples ++ s ∷ [] })
  push-IsHistory now h spec s v g r k e c = record {
    room = v.room;
    bounded = omega (arith, v.room, length-append h.samples (s ∷ []));
    tagged =
        rw g
          (All-append (λ s. kind_of s.value ≡ kind spec.spec_id) h.samples s (rw g at v.tagged) k);
    ordered = IsRecord-append same_double now h.samples s v.ordered e c;
  }

  IsHistory-later :
      (now time : TimeStamp) (h : History D)
      → earlier_than time now ≡ false
      → IsHistory same_double kind now h
      → IsHistory same_double kind time h
  IsHistory-later now time h e v = record {
    room = v.room;
    bounded = v.bounded;
    tagged = v.tagged;
    ordered = IsRecord-later same_double now time h.samples e v.ordered;
  }

  store_sample-IsHistory :
      (now time : TimeStamp) (h : History D) (spec : Spec) (x : Value D)
      → IsHistory same_double kind now h
      → h.general_spec ≡ some spec
      → length h.samples < h.capacity
      → kind_of x ≡ kind spec.spec_id
      → earlier_than time now ≡ false
      → (h' : History D) × (store_sample same_double h time x ≡ ok h')
        × IsHistory same_double kind time h'
  unfolding store_sample
  store_sample-IsHistory now time h spec x v g room k e =
      let (same, found, change) =
        is_unchanged_lem same_double (kind spec.spec_id) h.samples x (rw g at v.tagged) k in
      elim (Bool-cases same) [
        | inl old ↦ (h, rw found (rw old refl), IsHistory-later now time h e v)
        | inr new ↦ (
          record h { samples = h.samples ++ record { time_stamp = time; value = x } ∷ [] },
          rw found (rw new refl),
          push-IsHistory now h spec (record { time_stamp = time; value = x }) v g room k e
              (change new),
        )
      ]

  is_same_spec_lem :
      (g : Option Spec) (s t : Spec) → g ≡ some s → is_same_spec g t ≡ true → s.spec_id ≡ t.spec_id
  unfolding is_same_spec
  is_same_spec_lem g s t e h = ground (arith, rw e at h)

  -- A parameter whose type is that of its specification is added without a fault.
  pub add_sample-IsHistory :
      (now time : TimeStamp) (h : History D) (spn : Spn)
      → IsHistory same_double kind now h
      → earlier_than time now ≡ false
      → get_type spn ≡ kind (get_spec spn).spec_id
      → (h' : History D) × (add_sample same_double get_formatted_value h time spn ≡ ok h')
        × IsHistory same_double kind time h'
  unfolding add_sample
  add_sample-IsHistory now time h spn v e k =
      let (spec, general, w, samples, capacity) = adopt_spec-IsHistory now h spn v in
      let kept = IsHistory-later now time (adopt_spec h spn) e w in
      elim (Bool-cases (length h.samples == h.capacity)) [
        | inl full ↦ (h, ground arith, IsHistory-later now time h e v)
        | inr room ↦
            elim (Bool-cases (is_same_spec (adopt_spec h spn).general_spec (get_spec spn))) [
              | inr other ↦ (adopt_spec h spn, ground arith, kept)
              | inl same ↦
                  elim (value_of get_formatted_value spn)
                      as (λ o.
                        value_of get_formatted_value spn ≡ o
                        → (h' : History D) × (add_sample same_double get_formatted_value h time spn
                            ≡ ok h')
                          × IsHistory same_double kind time h') [
                            | none ↦ λ none_e. (adopt_spec h spn, ground arith, kept)
                            | some x ↦ λ some_e.
                                let has_room : length (adopt_spec h spn).samples
                                    < (adopt_spec h spn).capacity =
                                  rw samples (rw capacity (ground (arith, v.room, v.bounded))) in
                                let tag =
                                  value_of-kind_of spn x some_e
                                  ∙ k
                                  ∙ ap kind (
                                      sym (
                                        is_same_spec_lem (adopt_spec h spn).general_spec spec
                                          (get_spec spn) general same)) in
                                let (h', stored, u) =
                                  store_sample-IsHistory now time (adopt_spec h spn) spec x w
                                    general has_room tag e in
                                (h', rw room (rw same (rw some_e stored)), u)
                          ]
                    refl
            ]
      ]

  add_all_lem :
      (calls : List (TimeStamp × Spn)) (now : TimeStamp) (h : History D)
      → IsHistory same_double kind now h
      → IsUsage kind now calls
      → (h' : History D) × (add_all same_double get_formatted_value calls h ≡ ok h')
        × IsHistory same_double kind (last_time now calls) h'
  unfolding add_all
  add_all_lem [] now h v u = (h, refl, v)
  add_all_lem ((time, spn) ∷ calls) now h v u =
      let (next, added, w) = add_sample-IsHistory now time h spn v u.0 u.1 in
      let (last, rest, x) = add_all_lem calls time next w u.2 in (last, rw added rest, x)

  -- Any calls of `addSample` on a new history, at times that do not go back and with parameters whose
  -- type is that of their specification, end without reading the wrong member of a union, in a
  -- history of at most 50000 samples, which all have the type of its specification; no sample is
  -- earlier than the one before it or has its value, and none is later than the last call.
  pub add_all-IsHistory :
      (calls : List (TimeStamp × Spn))
      → IsUsage kind zero_time calls
      → (h : History D) × (add_all same_double get_formatted_value calls new_history ≡ ok h)
        × IsHistory same_double kind (last_time zero_time calls) h
  add_all-IsHistory calls u =
      add_all_lem calls zero_time new_history
        (record { room = refl; bounded = omega arith; tagged = refl; ordered = tt }) u
