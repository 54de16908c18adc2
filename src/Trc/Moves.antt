-- ===== src/Trc/Moves.antt =====
-- How far each field of a line moves the cursor.
use j1939_framework.Base.{
  ℕ, suc, ◌+◌, ◌≤◌, ◌≡◌, ◌⊎◌, inl, inr, refl, arith, Bool, true, false, not, ◌&&◌, ◌||◌, List, [],
  ◌∷◌, ◌==◌, length, Bool-cases, if◌then◌else◌,
}
use j1939_framework.Trc.Stream.{
  Stream, Doubles, is_empty, skip_spaces, span_digits, sign, hex_prefix, to_u32, convert_u32,
  extract_u32, span_float, float_text, extract_double,
}
use j1939_framework.Trc.Extract.{ahead}

-- The stream is in error, but not at its end.
abbrev pub bad : Stream → Bool
bad s = s.fail_bit && not s.eof_bit

-- The stream is in error, or no more than `k` characters are left.
abbrev pub Moves : ℕ → Stream → Type 0
Moves k s = (bad s ≡ true) ⊎ (length s.rest ≤ k)

length-skip_spaces : (text : List ℕ) → length (skip_spaces text) ≤ length text
unfolding skip_spaces
length-skip_spaces [] = omega arith
length-skip_spaces (c ∷ text) = ground (arith, length-skip_spaces text)

length-span_digits :
    (hex : Bool) (text : List ℕ)
    → length (span_digits hex text).0 + length (span_digits hex text).1 ≡ length text
unfolding span_digits
length-span_digits hex [] = refl
length-span_digits hex (c ∷ text) = ground (arith, length-span_digits hex text)

length-sign : (text : List ℕ) → length (sign text).1 ≤ length text
unfolding sign
length-sign [] = omega arith
length-sign (c ∷ text) = ground arith

length-hex_prefix : (hex : Bool) (text : List ℕ) → length (hex_prefix hex text) ≤ length text
unfolding hex_prefix
length-hex_prefix true [] = omega arith
length-hex_prefix true (c ∷ []) = omega arith
length-hex_prefix true (c ∷ x ∷ text) = ground arith
length-hex_prefix false text = omega arith

abbrev total : List ℕ × List ℕ → ℕ
total parts = length parts.0 + length parts.1

total-if :
    (b : Bool) (c : ℕ) (parts : List ℕ × List ℕ) (text : List ℕ)
    → total parts ≡ length text
    → total (if b then (c ∷ parts.0, parts.1) else ([], c ∷ text)) ≡ suc (length text)
total-if true c parts text h = omega (arith, h)
total-if false c parts text h = omega arith

total-span_float : (text : List ℕ) (m p e a : Bool) → total (span_float m p e a text) ≡ length text
unfolding span_float
total-span_float [] m p e a = refl
total-span_float (c ∷ text) m p e a = total-if _ c _ text (total-span_float text _ _ _ _)

total-float_text : (text : List ℕ) → total (float_text text) ≡ length text
unfolding float_text
total-float_text [] = refl
total-float_text (c ∷ text) = elim (Bool-cases (c == b'-' || c == b'+')) [
  | inl signed ↦ rw signed (omega (arith, total-span_float text false false false false))
  | inr plain ↦ rw plain (total-span_float (c ∷ text) false false false false)
]

number_Moves :
    (hex negative : Bool) (k : ℕ) (digits rest : List ℕ)
    → length digits + length rest ≤ suc k
    → Moves k (record {
      rest = rest;
      eof_bit = is_empty rest;
      fail_bit = not (to_u32 hex negative digits).1;
      hex = hex;
    })
unfolding to_u32 is_empty
number_Moves hex negative k [] [] h = inr (omega arith)
number_Moves hex negative k [] (c ∷ rest) h = inl refl
number_Moves hex negative k (d ∷ ds) rest h = inr (omega arith)

convert_u32-Moves :
    (hex : Bool) (k : ℕ) (rest text : List ℕ)
    → length text ≤ suc k
    → Moves k (convert_u32 (ahead hex rest) text).0
unfolding convert_u32
convert_u32-Moves hex k rest text h =
    number_Moves hex (sign text).0 k (span_digits hex (hex_prefix hex (sign text).1)).0
      (span_digits hex (hex_prefix hex (sign text).1)).1
      (omega (
        arith,
        length-span_digits hex (hex_prefix hex (sign text).1),
        length-sign text,
        length-hex_prefix hex (sign text).1,
      ))

pub extract_u32-Moves :
    (hex : Bool) (old c : ℕ) (rest : List ℕ)
    → Moves (length rest) (extract_u32 (ahead hex (c ∷ rest)) old).0
unfolding extract_u32
extract_u32-Moves hex old c rest = elim (Bool-cases (is_empty (skip_spaces (c ∷ rest)))) [
  | inl none_left ↦ rw none_left (inr (omega arith))
  | inr text_left ↦ rw text_left (
      convert_u32-Moves hex (length rest) (c ∷ rest) (skip_spaces (c ∷ rest))
        (length-skip_spaces (c ∷ rest)))
]

pub extract_double-Moves :
    {D : Type 0} (doubles : Doubles D) (hex : Bool) (old : D) (c : ℕ) (rest : List ℕ)
    → (doubles.read []).1 ≡ false
    → Moves (length rest) (extract_double doubles (ahead hex (c ∷ rest)) old).0
unfolding extract_double
extract_double-Moves doubles hex old c rest refuses =
    elim (Bool-cases (is_empty (skip_spaces (c ∷ rest)))) [
      | inl none_left ↦ rw none_left (inr (omega arith))
      | inr text_left ↦ rw text_left (
          text_Moves (float_text (skip_spaces (c ∷ rest))).0 (float_text (skip_spaces (c ∷ rest))).1
            (omega
              (arith, total-float_text (skip_spaces (c ∷ rest)), length-skip_spaces (c ∷ rest))))
    ]
  where
    text_Moves :
        (text left : List ℕ)
        → length text + length left ≤ suc (length rest)
        → Moves (length rest) (record {
          rest = left;
          eof_bit = is_empty left;
          fail_bit = not (doubles.read text).1;
          hex = hex;
        })
    text_Moves [] [] h = inr (omega arith)
    text_Moves [] (d ∷ left) h = inl (unfold is_empty in rw refuses refl)
    text_Moves (d ∷ text) left h = inr (omega arith)
