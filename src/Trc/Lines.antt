-- ===== src/Trc/Lines.antt =====
-- A line that TRCWriter writes, read by TRCReader.
use mathlib.Core.List.{append_assoc}
use j1939_framework.Base.{
  ℕ, ◌+◌, ◌^◌, ◌≤◌, ◌<◌, ◌≡◌, refl, arith, Bool, true, false, List, [], ◌∷◌, ◌++◌, length, All,
  lt→ltb, IsByte,
}
use j1939_framework.Can.{CanFrame}
use j1939_framework.TimeStamp.{TimeStamp}
use j1939_framework.Trc.Stream.{Stream, Doubles, is_digit, digit_value, number}
use j1939_framework.Trc.Reader.{Fields, start_fields}
use j1939_framework.Trc.Digits.{Shows, show-Shows, pad-Shows}
use j1939_framework.Trc.Writer.{
  pad, show, digits, digit_char, show_octets, write_line, millis_of, rx,
}
use j1939_framework.Trc.Extract.{ahead, IsDecimal}
use j1939_framework.Trc.Tokens.{
  Runs, run_pad, run_blanks, run_position, run_time, at_time, run_type, run_id, run_length,
}
use j1939_framework.Trc.Octets.{run_octets, run_end, last_of}

size_shown : (n : ℕ) → n < 10 → pad 3 b' ' (show false n) ≡ b' ' ∷ b' ' ∷ (b'0' + n) ∷ []
unfolding pad show digits digit_char
size_shown n h = rw (lt→ltb n 10 h) refl

size-Shows : (n : ℕ) → n < 10 → Shows true n ((b'0' + n) ∷ [])
unfolding number is_digit digit_value
size-Shows n h = (ground arith, ((ground arith, tt), (λ e. cc)))

module _ {D : Type 0} (doubles : Doubles D) where
  -- The parts of a line behind the time, the type and the identifier.
  abbrev size_text : ℕ → List ℕ → List ℕ
  size_text n tail = pad 3 b' ' (show false n) ++ b' ' ∷ b' ' ∷ tail

  abbrev id_text : CanFrame → List ℕ → List ℕ
  id_text frame tail =
      pad 13 b' ' (pad 8 b'0' (show true frame.id)) ++ size_text (length frame.bytes) tail

  abbrev type_text : CanFrame → List ℕ → List ℕ
  type_text frame tail = pad 4 b' ' rx ++ id_text frame tail

  run_size :
      (n : ℕ) (tail : List ℕ) (p : Fields D) (result : Stream × Fields D)
      → n < 10
      → Runs doubles (ahead true tail) (record p { size = n; state = 5 }) result
      → Runs doubles
          (ahead true (b' ' ∷ b' ' ∷ (b'0' + n) ∷ b' ' ∷ b' ' ∷ tail))
          (record p { state = 4 })
          result
  run_size n tail p result small r = run_blanks doubles 2 true _ _ result (
      run_length doubles n ((b'0' + n) ∷ []) (b' ' ∷ tail) p result (omega arith)
        (size-Shows n small) (run_blanks doubles 2 true tail _ result r))

  run_id_text :
      (hex : Bool) (frame : CanFrame) (tail : List ℕ) (p : Fields D) (result : Stream × Fields D)
      → frame.id < 2 ^ 32
      → length frame.bytes < 10
      → Runs doubles
          (ahead true tail)
          (record p { id = frame.id; size = length frame.bytes; state = 5 })
          result
      → Runs doubles (ahead hex (id_text frame tail)) (record p { state = 3 }) result
  run_id_text hex frame tail p result id_small size r =
      run_pad doubles 13 hex (pad 8 b'0' (show true frame.id)) _ _ result (
        rw (size_shown (length frame.bytes) size) (
          run_id doubles hex frame.id (pad 8 b'0' (show true frame.id)) _ p result id_small
            (pad-Shows true 8 frame.id _ (show-Shows true frame.id id_small))
            (run_size (length frame.bytes) tail (record p { id = frame.id }) result size r)))

  -- The variables of `readNextLine` behind the length of a line.
  abbrev pub head_fields : ℕ → D → CanFrame → Fields D
  head_fields counter value frame = record (at_time doubles (start_fields doubles) value 5) {
    position = counter;
    type = rx;
    id = frame.id;
    size = length frame.bytes;
  }

  run_type_text :
      (frame : CanFrame) (tail text : List ℕ) (value : D) (p : Fields D)
      (result : Stream × Fields D)
      → frame.id < 2 ^ 32
      → length frame.bytes < 10
      → IsDecimal text
      → doubles.read text ≡ (value, true)
      → Runs doubles
          (ahead true tail)
          (record (at_time doubles p value 5) {
            type = p.type ++ rx;
            id = frame.id;
            size = length frame.bytes;
          })
          result
      → Runs doubles (ahead false (text ++ type_text frame tail)) (record p { state = 1 }) result
  unfolding pad
  run_type_text frame tail text value p result id_small size decimal reads r =
      run_time doubles false value text _ p result decimal reads (
        run_blanks doubles 2 false _ _ result (
          run_type doubles false _ (at_time doubles p value 2) result (
            run_id_text false frame tail
              (record (at_time doubles p value 2) { type = p.type ++ rx }) result id_small size r)))

  -- The head of a line, up to the octets.
  run_head :
      (hex : Bool) (counter : ℕ) (value : D) (text tail : List ℕ) (frame : CanFrame)
      (result : Stream × Fields D)
      → counter < 2 ^ 32
      → frame.id < 2 ^ 32
      → length frame.bytes < 10
      → IsDecimal text
      → doubles.read text ≡ (value, true)
      → Runs doubles (ahead true tail) (head_fields counter value frame) result
      → Runs doubles
          (ahead hex (
            pad 8 b' ' (show false counter ++ b')' ∷ [])
            ++ (pad 12 b' ' text ++ type_text frame tail)))
          (start_fields doubles)
          result
  unfolding start_fields
  run_head hex counter value text tail frame result small id_small size decimal reads r =
      run_pad doubles 8 hex (show false counter ++ b')' ∷ []) _ _ result (
        run_position doubles hex counter (show false counter) _ (start_fields doubles) result small
          (show-Shows false counter small)
          (run_pad doubles 12 false text _ _ result (
            run_type_text frame tail text value
              (record (start_fields doubles) { position = counter }) result id_small size decimal
              reads r)))

  line_parts :
      (counter : ℕ) (frame : CanFrame) (t : TimeStamp) (rest : List ℕ)
      → write_line doubles counter frame t ++ rest
        ≡ pad 8 b' ' (show false counter ++ b')' ∷ [])
          ++ (pad 12 b' ' (doubles.show_fixed 1 (millis_of doubles t))
              ++ type_text frame (show_octets frame.bytes ++ b'\n' ∷ rest))
  unfolding write_line
  line_parts counter frame t rest = simp append_assoc

  -- What the writer can be asked to write so that it reads back: the numbers are in range, and the
  -- time stamp has a text with a point that reads as a number again.
  pub record Writable (frame : CanFrame) (t : TimeStamp) (value : D) : Type 0 where
    pub id_range : frame.id < 2 ^ 32
    pub size_range : length frame.bytes ≤ 8
    pub octets : All IsByte frame.bytes
    pub decimal : IsDecimal (doubles.show_fixed 1 (millis_of doubles t))
    pub reads : doubles.read (doubles.show_fixed 1 (millis_of doubles t)) ≡ (value, true)

  abbrev pub end_fields : ℕ → D → CanFrame → ℕ → List ℕ → Fields D
  end_fields counter value frame n ns = record (head_fields counter value frame) {
    octet = last_of n ns;
    bytes = n ∷ ns;
    state = 6;
  }

  run_written :
      (hex : Bool) (counter : ℕ) (value : D) (frame : CanFrame) (t : TimeStamp) (rest : List ℕ)
      (result : Stream × Fields D)
      → counter < 2 ^ 32
      → Writable frame t value
      → Runs doubles
          (ahead true (show_octets frame.bytes ++ b'\n' ∷ rest))
          (head_fields counter value frame)
          result
      → Runs doubles
          (ahead hex (write_line doubles counter frame t ++ rest))
          (start_fields doubles)
          result
  run_written hex counter value frame t rest result small w r =
      rw (line_parts counter frame t rest) (
        run_head hex counter value (doubles.show_fixed 1 (millis_of doubles t))
          (show_octets frame.bytes ++ b'\n' ∷ rest) frame result small w.id_range
          (omega (arith, w.size_range)) w.decimal w.reads r)

  abbrev pub frame_of : Bool → ℕ → List ℕ → CanFrame
  frame_of extended id bytes = record { extended_format = extended; id = id; bytes = bytes }

  -- A line with octets is read to its end.
  pub run_line :
      (hex extended : Bool) (counter id n : ℕ) (ns : List ℕ) (value : D) (t : TimeStamp)
      (rest : List ℕ)
      → counter < 2 ^ 32
      → Writable (frame_of extended id (n ∷ ns)) t value
      → Runs doubles
          (ahead hex (write_line doubles counter (frame_of extended id (n ∷ ns)) t ++ rest))
          (start_fields doubles)
          (ahead true rest, end_fields counter value (frame_of extended id (n ∷ ns)) n ns)
  run_line hex extended counter id n ns value t rest small w =
      let frame = frame_of extended id (n ∷ ns) in
      run_written hex counter value frame t rest
        (ahead true rest, end_fields counter value frame n ns) small w
        (run_octets doubles n ns (b'\n' ∷ rest) (head_fields counter value frame) _ w.octets
          (unfold start_fields in omega arith)
          (unfold start_fields in run_end doubles true rest (end_fields counter value frame n ns)))

  -- A line with no octets ends in the state that wants one.
  pub run_bare_line :
      (hex extended : Bool) (counter id : ℕ) (value : D) (t : TimeStamp) (rest : List ℕ)
      → counter < 2 ^ 32
      → Writable (frame_of extended id []) t value
      → Runs doubles
          (ahead hex (write_line doubles counter (frame_of extended id []) t ++ rest))
          (start_fields doubles)
          (ahead true rest, head_fields counter value (frame_of extended id []))
  run_bare_line hex extended counter id value t rest small w =
      let frame = frame_of extended id [] in
      run_written hex counter value frame t rest _ small w
        (unfold show_octets in run_end doubles true rest (head_fields counter value frame))
