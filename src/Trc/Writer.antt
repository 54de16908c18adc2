-- ===== src/Trc/Writer.antt =====
-- TRCWriter (CAN/TRCWriter.cpp): the text of a line, and the file that lines are added to.
use j1939_framework.Base.{
  ℕ, zero, suc, ◌+◌, ◌-◌, ◌*◌, ◌/◌, ◌%◌, Bool, true, false, List, [], ◌∷◌, ◌++◌, Option, none, some,
  ltb, u32, length, replicate, if◌then◌else◌,
}
use j1939_framework.Can.{CanFrame}
use j1939_framework.TimeStamp.{TimeStamp}
use j1939_framework.Trc.Stream.{Doubles, base_of}

-- A digit, with `std::uppercase`.
unfoldable pub digit_char : ℕ → ℕ
digit_char d = if ltb d 10 then b'0' + d else b'A' + (d - 10)

-- The digits of a number, in base 16 or 10; a number of 32 bits has no more than ten.
unfoldable pub digits : ℕ → Bool → ℕ → List ℕ
unfolding digit_char
digits zero hex n = []
digits (suc fuel) hex n =
    let more = digits fuel hex (n / base_of hex) in
    if ltb n (base_of hex) then digit_char n ∷ [] else more ++ (digit_char (n % base_of hex) ∷ [])

unfoldable pub show : Bool → ℕ → List ℕ
unfolding digits
show hex n = digits 10 hex n

-- `setw`, to the right
unfoldable pub pad : ℕ → ℕ → List ℕ → List ℕ
pad width fill text = replicate (width - length text) fill ++ text

unfoldable pub show_octets : List ℕ → List ℕ
unfolding pad show
show_octets [] = []
show_octets (octet ∷ rest) = pad 2 b'0' (show true octet) ++ b' ' ∷ show_octets rest

abbrev pub rx : List ℕ
rx = b'R' ∷ b'x' ∷ []

module _ {D : Type 0} (doubles : Doubles D) where
  -- The time stamp in milliseconds.
  unfoldable pub millis_of : TimeStamp → D
  millis_of t =
      doubles.add (doubles.of_u32 (u32 (t.seconds * 1000)))
        (doubles.div (doubles.of_u32 t.micro_sec) (doubles.of_u32 1000))

  unfoldable pub write_line : ℕ → CanFrame → TimeStamp → List ℕ
  unfolding pad show show_octets millis_of
  write_line counter frame t =
      pad 8 b' ' (show false counter ++ b')' ∷ [])
      ++ (pad 12 b' ' (doubles.show_fixed 1 (millis_of t))
          ++ (pad 4 b' ' rx
              ++ (pad 13 b' ' (pad 8 b'0' (show true frame.id))
                  ++ (pad 3 b' ' (show false (length frame.bytes))
                      ++ b' ' ∷ b' ' ∷ (show_octets frame.bytes ++ b'\n' ∷ [])))))

pub record Writer : Type 0 where
  pub is_open : Bool
  pub counter : ℕ
  pub file : List ℕ

-- ";$FILEVERSION=1.1\n;\n"
abbrev pub header : List ℕ
header =
    b';' ∷ b'$' ∷ b'F' ∷ b'I' ∷ b'L' ∷ b'E' ∷ b'V' ∷ b'E' ∷ b'R' ∷ b'S' ∷ b'I' ∷ b'O' ∷ b'N' ∷ b'='
    ∷ b'1' ∷ b'.' ∷ b'1' ∷ b'\n' ∷ b';' ∷ b'\n' ∷ []

unfoldable pub close : Writer → Writer
close w = record w { counter = 0; is_open = false }

-- `open`, which truncates; `opens` says whether the system opens the file.
unfoldable pub open_file : Bool → Writer → Writer × Bool
unfolding close
open_file opens w =
    if opens then (record (close w) { is_open = true; file = header }, true) else (close w, false)

module _ {D : Type 0} (doubles : Doubles D) where
  -- `none` is the exception that there is no file.
  unfoldable pub write : CanFrame → TimeStamp → Writer → Option Writer
  unfolding write_line
  write frame t w =
      let counter = u32 (w.counter + 1) in
      if w.is_open
      then some
          (record w { counter = counter; file = w.file ++ write_line doubles counter frame t })
      else none

  unfoldable pub write_all : List (CanFrame × TimeStamp) → Writer → Option Writer
  unfolding write
  write_all [] w = some w
  write_all ((frame, t) ∷ later) w = elim (write frame t w) [
    | none ↦ none
    | some w' ↦ write_all later w'
  ]
