-- ===== src/Trc/Extract.antt =====
-- What `>>` takes of a line: a number or a time, up to a character that is no part of it.
use mathlib.Core.List.{append_assoc}
use j1939_framework.Base.{
  ℕ, ◌^◌, ◌<◌, ◌≡◌, ◌≢◌, refl, arith, Bool, true, false, ◌||◌, List, [], ◌∷◌, ◌++◌, ◌==◌, All,
}
use j1939_framework.Trc.Stream.{
  Stream, Doubles, is_empty, is_space, skip_spaces, digit_value, is_digit, span_digits, sign,
  hex_prefix, to_u32, convert_u32, extract_u32, span_float, float_text, extract_double, get,
  get_from, seek_back,
}
use j1939_framework.Trc.Digits.{IsDigit, Shows}

-- A stream that is good.
abbrev pub ahead : Bool → List ℕ → Stream
ahead hex rest = record { rest = rest; eof_bit = false; fail_bit = false; hex = hex }

pub get-ahead :
    (hex : Bool) (c d : ℕ) (rest : List ℕ) → get (ahead hex (c ∷ rest)) d ≡ (ahead hex rest, c)
unfolding get get_from
get-ahead hex c d rest = refl

pub seek_back-ahead :
    (hex : Bool) (c : ℕ) (rest : List ℕ) → seek_back c (ahead hex rest) ≡ ahead hex (c ∷ rest)
unfolding seek_back
seek_back-ahead hex c rest = refl

pub IsDigit-bounds : (hex : Bool) (c : ℕ) → IsDigit hex c → (47 < c) × (c < 103)
unfolding is_digit digit_value
IsDigit-bounds true c h = ground arith
IsDigit-bounds false c h = ground arith

pub not_sep :
    (hex : Bool) (c : ℕ) → IsDigit hex c → (c ≢ 59) × ((c == b'x') ≡ false) × ((c == b'X') ≡ false)
unfolding is_digit digit_value
not_sep true c h = ground arith
not_sep false c h = ground arith

low_no_digit : (hex : Bool) (c : ℕ) → c < 48 → is_digit hex c ≡ false
unfolding is_digit digit_value
low_no_digit true c h = ground arith
low_no_digit false c h = ground arith

span_digits_stop :
    (hex : Bool) (c : ℕ) (rest digits : List ℕ)
    → c < 48
    → All (IsDigit hex) digits
    → span_digits hex (digits ++ c ∷ rest) ≡ (digits, c ∷ rest)
unfolding span_digits
span_digits_stop hex c rest [] h all = rw (low_no_digit hex c h)
span_digits_stop hex c rest (d ∷ ds) h (is, all) = rw (is, span_digits_stop hex c rest ds h all)

hex_prefix_digits :
    (hex : Bool) (c : ℕ) (rest digits : List ℕ)
    → c < 48
    → All (IsDigit hex) digits
    → hex_prefix hex (digits ++ c ∷ rest) ≡ digits ++ c ∷ rest
unfolding hex_prefix
hex_prefix_digits false c rest digits h all = refl
hex_prefix_digits true c [] [] h all = refl
hex_prefix_digits true c (r ∷ rs) [] h all = ground arith
hex_prefix_digits true c rest (d ∷ []) h all = ground arith
hex_prefix_digits true c rest (d ∷ e ∷ ds) h (is, (is2, all)) = ground (arith, not_sep true e is2)

-- A shown number is extracted, whatever the variable held.
pub extract_u32-shown :
    (hex : Bool) (n c old : ℕ) (text rest : List ℕ)
    → n < 2 ^ 32
    → c < 48
    → Shows hex n text
    → extract_u32 (ahead hex (text ++ c ∷ rest)) old ≡ (ahead hex (c ∷ rest), n)
unfolding extract_u32 skip_spaces is_space convert_u32 sign to_u32 is_empty
extract_u32-shown hex n c old [] rest small low (value, (all, not_nil)) = absurd (not_nil refl)
extract_u32-shown hex n c old (d ∷ ds) rest small low (value, (all, not_nil)) = ground (
  arith,
  IsDigit-bounds hex d all.0,
  span_digits_stop hex c rest (d ∷ ds) low all,
  hex_prefix_digits hex c rest (d ∷ ds) low all,
  value,
)

-- Digits, a point, and one more digit.
abbrev pub IsDecimal : List ℕ → Type 0
IsDecimal text =
    (whole : List ℕ) × (tenth : ℕ) × (text ≡ whole ++ b'.' ∷ tenth ∷ [])
    × (whole ≢ [])
    × All (IsDigit false) whole
    × IsDigit false tenth

dec_tests :
    (c : ℕ)
    → IsDigit false c
    → ((c == b'.') ≡ false) × ((c == b'e') ≡ false) × ((c == b'E') ≡ false)
unfolding is_digit digit_value
dec_tests c h = ground arith

span_float_stop :
    (mantissa : Bool) (tenth : ℕ) (rest whole : List ℕ)
    → IsDigit false tenth
    → All (IsDigit false) whole
    → span_float mantissa false false false (whole ++ b'.' ∷ tenth ∷ b' ' ∷ rest)
      ≡ (whole ++ b'.' ∷ tenth ∷ [], b' ' ∷ rest)
unfolding span_float
span_float_stop mantissa tenth rest [] is all = rw is
span_float_stop mantissa tenth rest (d ∷ ds) is all =
    let (point, small, large) = dec_tests d all.0 in
    rw (all.0, point, small, large) (rw (span_float_stop (mantissa || true) tenth rest ds is all.1))

skip_spaces_digit : (c : ℕ) (rest : List ℕ) → 47 < c → skip_spaces (c ∷ rest) ≡ c ∷ rest
unfolding skip_spaces is_space
skip_spaces_digit c rest h = ground arith

float_text_stop :
    (tenth d : ℕ) (rest ds : List ℕ)
    → IsDigit false tenth
    → All (IsDigit false) (d ∷ ds)
    → float_text (d ∷ (ds ++ b'.' ∷ tenth ∷ b' ' ∷ rest))
      ≡ (d ∷ (ds ++ b'.' ∷ tenth ∷ []), b' ' ∷ rest)
unfolding float_text
float_text_stop tenth d rest ds is all =
    ground (arith, IsDigit-bounds false d all.0, span_float_stop false tenth rest (d ∷ ds) is all)

module _ {D : Type 0} (doubles : Doubles D) where
  -- A decimal text is extracted up to the blank behind it.
  pub extract_double-decimal :
      (hex : Bool) (old value : D) (text rest : List ℕ)
      → IsDecimal text
      → doubles.read text ≡ (value, true)
      → extract_double doubles (ahead hex (text ++ b' ' ∷ rest)) old
        ≡ (ahead hex (b' ' ∷ rest), value)
  unfolding extract_double is_empty
  extract_double-decimal hex old value text rest ([], tenth, shape, not_nil, all, is) reads =
      absurd (not_nil refl)
  extract_double-decimal hex old value text rest (d ∷ ds, tenth, shape, not_nil, all, is) reads =
      let found = rw shape at reads in
      let whole = append_assoc ds (b'.' ∷ tenth ∷ []) (b' ' ∷ rest) in
      rw
        (
          shape,
          whole,
          skip_spaces_digit d (ds ++ b'.' ∷ tenth ∷ b' ' ∷ rest) (IsDigit-bounds false d all.0).0,
          float_text_stop tenth d rest ds is all,
          found,
        )
        refl
