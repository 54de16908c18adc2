-- ===== src/Examples/Traces.antt =====
-- A trace of two frames, with decimals of thousandths for `double`.
use j1939_framework.Base.{
  ℕ, ◌+◌, ◌*◌, ◌/◌, ◌%◌, ◌≡◌, refl, arith, Bool, true, false, List, [], ◌∷◌, ◌++◌, some, All,
  if◌then◌else◌,
}
use j1939_framework.Can.{CanFrame}
use j1939_framework.TimeStamp.{TimeStamp}
use j1939_framework.Trc.Stream.{Doubles, is_empty, span_digits, number, digit_value, is_digit}
use j1939_framework.Trc.Files.{Reader, read_next_line, load_file, seek_position}
use j1939_framework.Trc.Writer.{write_line, show, digits, digit_char, millis_of, header}
use j1939_framework.Trc.Extract.{IsDecimal}
use j1939_framework.Trc.Lines.{Writable}
use j1939_framework.Trc.Reading.{at, after_line, read_next_line-write_line}
use j1939_framework.Trc.Traces.{Entry, value_of, IsTraced}
use j1939_framework.Trc.Seeking.{trace, Holds, HasRead, load_file-trace, seek_position-trace}
use j1939_framework.Trc.Totals.{load_file-returns}
use j1939_framework.Trc.Refusals.{load_file-bare, seek_position-first}

point : List ℕ → ℕ
unfolding digit_value
point [] = 0
point (dot ∷ []) = 0
point (dot ∷ c ∷ rest) = digit_value c

read_thousandths : List ℕ → ℕ × Bool
unfolding span_digits number is_empty point
read_thousandths text =
    let (whole, rest) = span_digits false text in
    if is_empty whole then (0, false) else (number false 0 whole * 1000 + point rest * 100, true)

show_tenths : ℕ → ℕ → List ℕ
unfolding show
show_tenths decimals n = show false (n / 1000) ++ b'.' ∷ (b'0' + n % 1000 / 100) ∷ []

abbrev thousandths : Doubles ℕ
thousandths = record {
  of_u32 = λ n. n * 1000;
  add = λ a b. a + b;
  mul = λ a b. a * b / 1000;
  div = λ a b. a * 1000 / b;
  to_u64 = λ a. a / 1000;
  read = read_thousandths;
  show_fixed = show_tenths;
}

abbrev stamp : TimeStamp
stamp = record { seconds = 1; micro_sec = 250000 }

abbrev frame_a : CanFrame
frame_a = record { extended_format = true; id = 0x18FEF100; bytes = 1 ∷ 0xAB ∷ 255 ∷ [] }

abbrev frame_b : CanFrame
frame_b = record { extended_format = false; id = 0x123; bytes = 7 ∷ [] }

abbrev bare : CanFrame
bare = record { extended_format = true; id = 0x18EAFF00; bytes = [] }

refuses : (read_thousandths []).1 ≡ false
unfolding read_thousandths span_digits is_empty
refuses = refl

stamp_text :
    show_tenths 1 (millis_of thousandths stamp) ≡ b'1' ∷ b'2' ∷ b'5' ∷ b'0' ∷ b'.' ∷ b'0' ∷ []
unfolding show_tenths millis_of show digits digit_char
stamp_text = refl

stamp-IsDecimal : IsDecimal (show_tenths 1 (millis_of thousandths stamp))
unfolding is_digit digit_value
stamp-IsDecimal = (
  b'1' ∷ b'2' ∷ b'5' ∷ b'0' ∷ [],
  b'0',
  stamp_text,
  (λ e. cc),
  (refl, (refl, (refl, (refl, tt)))),
  refl,
)

stamp_reads :
    read_thousandths (show_tenths 1 (millis_of thousandths stamp))
    ≡ (value_of thousandths stamp, true)
unfolding show_tenths millis_of show digits digit_char read_thousandths span_digits number is_empty
    point digit_value is_digit
stamp_reads = refl

abbrev value : ℕ
value = value_of thousandths stamp

a-Writable : Writable thousandths frame_a stamp value
a-Writable = record {
  id_range = omega arith;
  size_range = omega arith;
  octets = omega arith;
  decimal = stamp-IsDecimal;
  reads = stamp_reads;
}

b-Writable : Writable thousandths frame_b stamp value
b-Writable = record {
  id_range = omega arith;
  size_range = omega arith;
  octets = omega arith;
  decimal = stamp-IsDecimal;
  reads = stamp_reads;
}

bare-Writable : Writable thousandths bare stamp value
bare-Writable = record {
  id_range = omega arith;
  size_range = omega arith;
  octets = tt;
  decimal = stamp-IsDecimal;
  reads = stamp_reads;
}

abbrev entries : List Entry
entries = (frame_a, stamp) ∷ (frame_b, stamp) ∷ []

traced : All (IsTraced thousandths) entries
traced = ((omega arith, a-Writable), ((omega arith, b-Writable), tt))

abbrev idle : Reader
idle = record {
  file = [];
  stream = record { rest = []; eof_bit = false; fail_bit = false; hex = false };
  is_loaded = false;
  current_pos = 0;
  total_frames = 0;
  last_time = 0;
  last_frame = bare;
}

read_next_line-write_line_example :
    read_next_line thousandths
      (at thousandths refuses idle false (write_line thousandths 3 frame_a stamp ++ header))
    ≡ some (
      after_line thousandths refuses idle header 3 value frame_a,
      record { error = false; empty = false },
    )
read_next_line-write_line_example =
    read_next_line-write_line thousandths refuses idle false 3 frame_a value stamp header
      (omega arith) (omega arith) (omega arith) a-Writable

load_file-trace_example :
    (r' : Reader) × (load_file thousandths (some (trace thousandths entries)) idle
      ≡ some (r', true))
    × Holds thousandths refuses entries r'
    × (r'.current_pos ≡ 0)
    × (r'.last_frame.bytes ≡ [])
    × (r'.last_time ≡ 0)
load_file-trace_example =
    load_file-trace thousandths refuses entries idle traced (omega arith) (omega arith)

abbrev held : Reader
held = record idle { file = trace thousandths entries; is_loaded = true; total_frames = 2 }

held-Holds : Holds thousandths refuses entries held
held-Holds = record { of_trace = refl; loaded = refl; total = refl }

seek_position-trace_example :
    (r' : Reader) × (seek_position thousandths 1 held ≡ some (r', true))
    × HasRead thousandths refuses 1 (frame_b, stamp) r'
seek_position-trace_example =
    seek_position-trace thousandths refuses entries held 1 (frame_b, stamp) traced (omega arith)
      held-Holds (λ e. absurd (omega (arith, e))) refl

load_file-returns_example :
    (r' : Reader) × (ok : Bool) × (load_file thousandths (some (b'x' ∷ [])) idle ≡ some (r', ok))
    × (r'.is_loaded ≡ ok)
    × (r'.current_pos ≡ 0)
    × ((ok ≡ false) → r'.total_frames ≡ 0)
load_file-returns_example = load_file-returns thousandths refuses (some (b'x' ∷ [])) idle

load_file-bare_example :
    (r' : Reader) × (load_file thousandths
        (some (trace thousandths (((frame_a, stamp) ∷ []) ++ (bare, stamp) ∷ [])))
        idle
      ≡ some (r', false))
    × (r'.is_loaded ≡ false)
    × (r'.total_frames ≡ 0)
load_file-bare_example =
    load_file-bare thousandths refuses ((frame_a, stamp) ∷ []) bare stamp [] idle
      ((omega arith, a-Writable), tt) refl bare-Writable (omega arith)

seek_position-first_example :
    (r' : Reader) × (load_file thousandths (some (trace thousandths entries)) idle
      ≡ some (r', true))
    × (seek_position thousandths 0 r' ≡ some (r', true))
    × (r'.last_frame.bytes ≡ [])
    × (r'.last_time ≡ 0)
seek_position-first_example =
    seek_position-first thousandths refuses entries idle traced (omega arith) (omega arith)
