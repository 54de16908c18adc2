-- ===== src/Trc/Digits.antt =====
-- The numbers of a trace file: what the writer shows is what the reader extracts.
use j1939_framework.Base.{
  ℕ, zero, suc, ◌+◌, ◌-◌, ◌*◌, ◌/◌, ◌%◌, ◌^◌, ◌≤◌, ◌<◌, ◌≡◌, ◌≢◌, ◌∙◌, inl, inr, refl, ap, arith,
  Bool, true, false, List, [], ◌∷◌, ◌++◌, ltb, length, replicate, All, All-append, Bool-cases,
  ltb→lt,
}
use mathlib.Core.Path.{subst}
use native.Mathlib.Nat.{pow-suc}
use j1939_framework.Trc.Stream.{digit_value, base_of, is_digit, number}
use j1939_framework.Trc.Writer.{digit_char, digits, show, pad}

abbrev pub IsDigit : Bool → ℕ → Type 0
IsDigit hex c = is_digit hex c ≡ true

digit_value-digit_char : (d : ℕ) → d < 16 → digit_value (digit_char d) ≡ d
unfolding digit_value digit_char
digit_value-digit_char d h = ground arith

digit_char-IsDigit : (hex : Bool) (d : ℕ) → d < base_of hex → IsDigit hex (digit_char d)
unfolding is_digit
digit_char-IsDigit true d h = ground (arith, digit_value-digit_char d (omega arith))
digit_char-IsDigit false d h = ground (arith, digit_value-digit_char d (omega arith))

number-append :
    (hex : Bool) (c : ℕ) (xs : List ℕ) (v : ℕ)
    → number hex v (xs ++ (c ∷ [])) ≡ number hex v xs * base_of hex + digit_value c
unfolding number
number-append hex c [] v = refl
number-append hex c (x ∷ xs) v = number-append hex c xs _

base_of-pos : (hex : Bool) → 0 < base_of hex ^ 0
base_of-pos true = omega arith
base_of-pos false = omega arith

split_base : (hex : Bool) (n : ℕ) → n / base_of hex * base_of hex + n % base_of hex ≡ n
split_base true n = omega arith
split_base false n = omega arith

mod_base : (hex : Bool) (n : ℕ) → n % base_of hex < base_of hex
mod_base true n = omega arith
mod_base false n = omega arith

div_base :
    (fuel : ℕ) (hex : Bool) (n : ℕ)
    → n < base_of hex ^ suc fuel
    → n / base_of hex < base_of hex ^ fuel
div_base fuel true n h = omega (arith, pow-suc 16 fuel)
div_base fuel false n h = omega (arith, pow-suc 10 fuel)

base_le : (hex : Bool) → base_of hex ≤ 16
base_le true = omega arith
base_le false = omega arith

abbrev pub Shows : Bool → ℕ → List ℕ → Type 0
Shows hex n text = (number hex 0 text ≡ n) × (All (IsDigit hex) text × (text ≢ []))

snoc_not_nil : (c : ℕ) (xs : List ℕ) → xs ++ (c ∷ []) ≢ []
snoc_not_nil c [] e = cc
snoc_not_nil c (x ∷ xs) e = cc

more_digits :
    (fuel : ℕ) (hex : Bool) (n : ℕ)
    → n < base_of hex ^ suc fuel
    → ltb n (base_of hex) ≡ false
    → 0 < fuel
more_digits zero true n h e = ground arith
more_digits zero false n h e = ground arith
more_digits (suc fuel) hex n h e = omega arith

Shows-last :
    (hex : Bool) (n d : ℕ) (text : List ℕ)
    → d < base_of hex
    → Shows hex n text
    → Shows hex (n * base_of hex + d) (text ++ (digit_char d ∷ []))
Shows-last hex n d text h (same, (all, not_nil)) = (
  omega (
    arith,
    number-append hex (digit_char d) text 0,
    ap (λ (t : ℕ). t * base_of hex) same,
    digit_value-digit_char d (omega (arith, base_le hex)),
  ),
  (All-append (IsDigit hex) text _ all (digit_char-IsDigit hex d h, tt), snoc_not_nil _ text),
)

Shows-digit : (hex : Bool) (n : ℕ) → n < base_of hex → Shows hex n (digit_char n ∷ [])
unfolding number
Shows-digit hex n h = (
  omega (arith, digit_value-digit_char n (omega (arith, base_le hex))),
  ((digit_char-IsDigit hex n h, tt), (λ e. cc)),
)

-- Enough digits show the number.
digits-Shows :
    (fuel : ℕ) (hex : Bool) (n : ℕ)
    → n < base_of hex ^ fuel
    → 0 < fuel
    → Shows hex n (digits fuel hex n)
unfolding digits
digits-Shows zero hex n h pos = absurd (omega arith)
digits-Shows (suc fuel) hex n h pos = elim (Bool-cases (ltb n (base_of hex))) [
  | inl small ↦ rw small (Shows-digit hex n (ltb→lt _ _ small))
  | inr large ↦
      let more =
        digits-Shows fuel hex (n / base_of hex) (div_base fuel hex n h)
          (more_digits fuel hex n h large) in
      rw large (
        subst
          (λ (k : ℕ).
            Shows hex k (digits fuel hex (n / base_of hex) ++ (digit_char (n % base_of hex) ∷ [])))
          (split_base hex n) (Shows-last hex _ (n % base_of hex) _ (mod_base hex n) more))
]

pub show-Shows : (hex : Bool) (n : ℕ) → n < 2 ^ 32 → Shows hex n (show hex n)
unfolding show
show-Shows true n h = digits-Shows 10 true n (omega arith) (omega arith)
show-Shows false n h = digits-Shows 10 false n (omega arith) (omega arith)

number-zeros :
    (hex : Bool) (k : ℕ) (text : List ℕ)
    → number hex 0 (replicate k b'0' ++ text) ≡ number hex 0 text
unfolding number digit_value
number-zeros hex zero text = refl
number-zeros true (suc k) text = number-zeros true k text
number-zeros false (suc k) text = number-zeros false k text

zeros-All : (hex : Bool) (k : ℕ) → All (IsDigit hex) (replicate k b'0')
unfolding is_digit digit_value
zeros-All hex zero = tt
zeros-All true (suc k) = (refl, zeros-All true k)
zeros-All false (suc k) = (refl, zeros-All false k)

append_not_nil : (xs ys : List ℕ) → ys ≢ [] → xs ++ ys ≢ []
append_not_nil [] ys h = h
append_not_nil (x ∷ xs) ys h = λ e. cc

-- Zeros in front do not change what a text shows.
pub pad-Shows :
    (hex : Bool) (width n : ℕ) (text : List ℕ)
    → Shows hex n text
    → Shows hex n (pad width b'0' text)
unfolding pad
pad-Shows hex width n text (value, (all, not_nil)) = (
  number-zeros hex (width - length text) text ∙ value,
  (
    All-append (IsDigit hex) (replicate (width - length text) b'0') text
        (zeros-All hex (width - length text)) all,
    append_not_nil (replicate (width - length text) b'0') text not_nil,
  ),
)
