-- ===== src/Trc/Stream.antt =====
-- What CAN/TRCReader.cpp uses of `std::ifstream`: the characters ahead of the cursor, the state
-- bits, and the base that `std::dec` and `std::hex` set.
use j1939_framework.Base.{
  ℕ, ◌+◌, ◌-◌, ◌*◌, Bool, true, false, not, ◌&&◌, ◌||◌, List, [], ◌∷◌, ltb, leb, ◌==◌, u32,
  if◌then◌else◌,
}

pub record Stream : Type 0 where
  pub rest : List ℕ
  pub eof_bit : Bool
  pub fail_bit : Bool
  pub hex : Bool

-- What the reader uses of `double`: the number that a text denotes and whether it denotes one, the
-- text with some decimals, and arithmetic.
pub record Doubles (D : Type 0) : Type 0 where
  pub of_u32 : ℕ → D
  pub add : D → D → D
  pub mul : D → D → D
  pub div : D → D → D
  pub to_u64 : D → ℕ
  pub read : List ℕ → D × Bool
  pub show_fixed : ℕ → D → List ℕ

unfoldable pub is_empty : List ℕ → Bool
is_empty [] = true
is_empty (c ∷ cs) = false

-- `get(c)`, with the character that `c` holds afterwards
unfoldable pub get_from : List ℕ → Stream → ℕ → Stream × ℕ
get_from [] s c = (record s { eof_bit = true; fail_bit = true }, c)
get_from (d ∷ rest) s c = (record s { rest = rest }, d)

unfoldable pub get : Stream → ℕ → Stream × ℕ
unfolding get_from
get s c = if s.eof_bit || s.fail_bit then (record s { fail_bit = true }, c) else get_from s.rest s c

-- `ignore` up to and with the end of a line
unfoldable pub skip_line : List ℕ → Bool × List ℕ
skip_line [] = (true, [])
skip_line (c ∷ rest) = let later = skip_line rest in if c == b'\n' then (false, rest) else later

unfoldable pub ignore_line : Stream → Stream
unfolding skip_line
ignore_line s =
    let (ended, rest) = skip_line s.rest in
    if s.eof_bit || s.fail_bit
    then record s { fail_bit = true }
    else record s { rest = rest; eof_bit = ended }

-- `tellg`, one less, `seekg`: the character `c` was the last one that was got.
unfoldable pub seek_back : ℕ → Stream → Stream
seek_back c s =
    if s.fail_bit
    then record s { eof_bit = false }
    else record s { rest = c ∷ s.rest; eof_bit = false }

unfoldable pub clear_bits : Stream → Stream
clear_bits s = record s { eof_bit = false; fail_bit = false }

unfoldable pub set_hex : Bool → Stream → Stream
set_hex hex s = record s { hex = hex }

unfoldable pub is_space : ℕ → Bool
is_space c = c == b' ' || leb 9 c && leb c 13

unfoldable pub skip_spaces : List ℕ → List ℕ
unfolding is_space
skip_spaces [] = []
skip_spaces (c ∷ rest) = let later = skip_spaces rest in if is_space c then later else c ∷ rest

unfoldable pub digit_value : ℕ → ℕ
digit_value c =
    if leb b'0' c && leb c b'9'
    then c - b'0'
    else if leb b'A' c && leb c b'F'
    then c - b'A' + 10
    else if leb b'a' c && leb c b'f'
    then c - b'a' + 10
    else 16

abbrev pub base_of : Bool → ℕ
base_of true = 16
base_of false = 10

unfoldable pub is_digit : Bool → ℕ → Bool
unfolding digit_value
is_digit hex c = ltb (digit_value c) (base_of hex)

unfoldable pub span_digits : Bool → List ℕ → List ℕ × List ℕ
unfolding is_digit
span_digits hex [] = ([], [])
span_digits hex (c ∷ cs) =
    let (digits, rest) = span_digits hex cs in
    if is_digit hex c then (c ∷ digits, rest) else ([], c ∷ cs)

unfoldable pub number : Bool → ℕ → List ℕ → ℕ
unfolding digit_value
number hex value [] = value
number hex value (c ∷ cs) = number hex (value * base_of hex + digit_value c) cs

unfoldable pub sign : List ℕ → Bool × List ℕ
sign [] = (false, [])
sign (c ∷ cs) = if c == b'-' then (true, cs) else if c == b'+' then (false, cs) else (false, c ∷ cs)

-- `0x` in front of a number in base 16
unfoldable pub hex_prefix : Bool → List ℕ → List ℕ
hex_prefix true (c ∷ x ∷ cs) = if c == b'0' && (x == b'x' || x == b'X') then cs else c ∷ x ∷ cs
hex_prefix hex cs = cs

-- The value that `strtoul` gives, and whether there is one.
unfoldable pub to_u32 : Bool → Bool → List ℕ → ℕ × Bool
unfolding is_empty number
to_u32 hex negative digits =
    let value = number hex 0 digits in
    if is_empty digits
    then (0, false)
    else if ltb 0xFFFFFFFF value
    then (0xFFFFFFFF, false)
    else (if negative then u32 (0x100000000 - value) else value, true)

unfoldable pub convert_u32 : Stream → List ℕ → Stream × ℕ
unfolding sign hex_prefix span_digits to_u32 is_empty
convert_u32 s text =
    let (negative, unsigned) = sign text in
    let (digits, rest) = span_digits s.hex (hex_prefix s.hex unsigned) in
    let (value, found) = to_u32 s.hex negative digits in
    (record s { rest = rest; eof_bit = is_empty rest; fail_bit = not found }, value)

-- `>>` to a number of 32 bits that holds `old`
unfoldable pub extract_u32 : Stream → ℕ → Stream × ℕ
unfolding skip_spaces convert_u32 is_empty
extract_u32 s old =
    let text = skip_spaces s.rest in
    if s.eof_bit || s.fail_bit
    then (record s { fail_bit = true }, old)
    else if is_empty text
    then (record s { rest = []; eof_bit = true; fail_bit = true }, old)
    else convert_u32 s text

-- The characters that `num_get` takes for a `double`; the flags say whether a digit, a point, an
-- exponent were taken, and whether the exponent's letter was the last one.
unfoldable pub span_float : Bool → Bool → Bool → Bool → List ℕ → List ℕ × List ℕ
unfolding is_digit
span_float mantissa point exponent after [] = ([], [])
span_float mantissa point exponent after (c ∷ cs) =
    let is_point = c == b'.' && not point && not exponent in
    let is_exponent = (c == b'e' || c == b'E') && not exponent && mantissa in
    let is_sign = (c == b'+' || c == b'-') && after in
    let (text, rest) =
      span_float (mantissa || is_digit false c) (point || is_point) (exponent || is_exponent)
        is_exponent cs in
    if is_digit false c || is_point || is_exponent || is_sign
    then (c ∷ text, rest)
    else ([], c ∷ cs)

unfoldable pub float_text : List ℕ → List ℕ × List ℕ
unfolding span_float
float_text [] = ([], [])
float_text (c ∷ cs) =
    let (text, rest) = span_float false false false false cs in
    if c == b'-' || c == b'+' then (c ∷ text, rest) else span_float false false false false (c ∷ cs)

module _ {D : Type 0} (doubles : Doubles D) where
  unfoldable pub extract_double : Stream → D → Stream × D
  unfolding skip_spaces float_text is_empty
  extract_double s old =
      let input = skip_spaces s.rest in
      let (text, rest) = float_text input in
      let (value, found) = doubles.read text in
      if s.eof_bit || s.fail_bit
      then (record s { fail_bit = true }, old)
      else if is_empty input
      then (record s { rest = []; eof_bit = true; fail_bit = true }, old)
      else (record s { rest = rest; eof_bit = is_empty rest; fail_bit = not found }, value)
