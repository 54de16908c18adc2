-- ===== src/Can/Easy/Registry.antt =====
-- The registry of helpers is a map: its interfaces are in order, each once.
use text.Mathlib.Text.{◌==◌ as str_eq}
use text.Mathlib.TextEquality.{eq_iff}
use mathlib.Core.Path.{subst}
use j1939_framework.Base.{
  ℕ, ◌≡◌, refl, sym, arith, inl, inr, true, false, List, [], ◌∷◌, none, String, Bool-cases,
}
use j1939_framework.Can.Helpers.{
  codes, codes_lt, text_lt, find, insert, Backend, socket_can, peak_can, System, Helpers,
  add_helper, add_helpers, create_can_helpers,
}

codes_lt_irrefl : (xs : List ℕ) → codes_lt xs xs ≡ false
unfolding codes_lt
codes_lt_irrefl [] = refl
codes_lt_irrefl (x ∷ xs) = ground (arith, codes_lt_irrefl xs)

codes_lt_trans :
    (xs ys zs : List ℕ) → codes_lt xs ys ≡ true → codes_lt ys zs ≡ true → codes_lt xs zs ≡ true
unfolding codes_lt
codes_lt_trans xs [] zs h k = absurd (cc h)
codes_lt_trans xs (y ∷ ys) [] h k = absurd (cc k)
codes_lt_trans [] (y ∷ ys) (z ∷ zs) h k = refl
codes_lt_trans (x ∷ xs) (y ∷ ys) (z ∷ zs) h k = ground (arith, codes_lt_trans xs ys zs)

text_lt_trans : (s t u : String) → text_lt s t ≡ true → text_lt t u ≡ true → text_lt s u ≡ true
unfolding text_lt
text_lt_trans s t u h k = codes_lt_trans (codes s) (codes t) (codes u) h k

text_lt_irrefl : (s : String) → text_lt s s ≡ false
unfolding text_lt
text_lt_irrefl s = codes_lt_irrefl (codes s)

-- A key that may stand behind another one.
abbrev IsAfter : String → String → Type 0
IsAfter i j = (text_lt i j ≡ false) × (str_eq i j ≡ false)

IsAfter-smaller : (i j k : String) → text_lt k j ≡ true → IsAfter i j → IsAfter i k
IsAfter-smaller i j k less (not_less, differs) = (
  elim (Bool-cases (text_lt i k)) [
    | inl h ↦ absurd (cc (text_lt_trans i k j h less, not_less))
    | inr h ↦ h
  ],
  elim (Bool-cases (str_eq i k)) [
    | inl h ↦
        absurd
          (cc (subst (λ (x : String). text_lt x j ≡ true) (sym ((eq_iff i k).0 h)) less, not_less))
    | inr h ↦ h
  ],
)

IsAfter-itself : (j k : String) → text_lt k j ≡ true → IsAfter j k
IsAfter-itself j k less = (
  elim (Bool-cases (text_lt j k)) [
    | inl h ↦ absurd (cc (text_lt_trans k j k less h, text_lt_irrefl k))
    | inr h ↦ h
  ],
  elim (Bool-cases (str_eq j k)) [
    | inl h ↦
        absurd (
          cc (subst (λ (x : String). text_lt k x ≡ true) ((eq_iff j k).0 h) less, text_lt_irrefl k))
    | inr h ↦ h
  ],
)

abbrev Above {ℓ} : {V : Type ℓ} → String → List (String × V) → Type 0
Above k [] = Unit
Above k ((j, w) ∷ m) = IsAfter j k × Above k m

abbrev pub IsMap {ℓ} : {V : Type ℓ} → List (String × V) → Type 0
IsMap [] = Unit
IsMap ((k, v) ∷ m) = Above k m × IsMap m

module _ {V : Type 0} where
  Above-smaller :
      (j k : String) (m : List (String × V)) → text_lt k j ≡ true → Above j m → Above k m
  Above-smaller j k [] less a = tt
  Above-smaller j k ((i, w) ∷ m) less (h, a) =
      (IsAfter-smaller i j k less h, Above-smaller j k m less a)

  insert-Above :
      (j k : String) (v : V) (m : List (String × V))
      → IsAfter k j
      → Above j m
      → Above j (insert k v m)
  unfolding insert
  insert-Above j k v [] h a = (h, tt)
  insert-Above j k v ((i, w) ∷ m) h (b, a) = elim (Bool-cases (str_eq i k)) [
    | inl same ↦ rw same (h, a)
    | inr other ↦ elim (Bool-cases (text_lt k i)) [
      | inl less ↦ rw (other, less) (h, (b, a))
      | inr more ↦ rw (other, more) (b, insert-Above j k v m h a)
    ]
  ]

  insert-IsMap : (k : String) (v : V) (m : List (String × V)) → IsMap m → IsMap (insert k v m)
  unfolding insert
  insert-IsMap k v [] h = (tt, tt)
  insert-IsMap k v ((j, w) ∷ m) (a, h) = elim (Bool-cases (str_eq j k)) [
    | inl same ↦ rw same (subst (λ (x : String). Above x m) ((eq_iff j k).0 same) a, h)
    | inr other ↦ elim (Bool-cases (text_lt k j)) [
      | inl less ↦ rw (other, less) ((IsAfter-itself j k less, Above-smaller j k m less a), (a, h))
      | inr more ↦
          rw (other, more)
            (
              insert-Above j k v m (more, ground (arith, other, eq_iff j k, eq_iff k j)) a,
              insert-IsMap k v m h,
            )
    ]
  ]

  pub find-Above : (k : String) (m : List (String × V)) → Above k m → find k m ≡ none
  unfolding find
  find-Above k [] a = refl
  find-Above k ((j, w) ∷ m) (h, a) = rw h.1 (find-Above k m a)

module _ (system : System) (bitrate : ℕ) where
  add_helpers-IsMap :
      (backend : Backend) (names : List String) (m : Helpers)
      → IsMap m
      → IsMap (add_helpers system bitrate backend names m)
  unfolding add_helpers add_helper
  add_helpers-IsMap backend [] m h = h
  add_helpers-IsMap backend (k ∷ names) m h =
      add_helpers-IsMap backend names (add_helper system bitrate backend k m)
        (elim (Bool-cases (system.starts backend k bitrate)) [
          | inl starts ↦ rw starts (insert-IsMap k _ m h)
          | inr fails ↦ rw fails h
        ])

  pub create_can_helpers-IsMap : IsMap (create_can_helpers system bitrate [])
  unfolding create_can_helpers
  create_can_helpers-IsMap =
      add_helpers-IsMap peak_can system.peak_ifaces _
        (add_helpers-IsMap socket_can system.socket_ifaces [] tt)
