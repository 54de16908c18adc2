-- ===== src/Trc/Traces.antt =====
-- A whole trace file: what TRCWriter wrote, TRCReader loads, and finds each frame of.
use mathlib.Core.List.{append_assoc, append-nil}
use j1939_framework.Base.{
  ℕ, zero, suc, ◌+◌, ◌^◌, ◌≤◌, ◌<◌, ◌≡◌, ◌∙◌, refl, ap, sym, arith, Bool, true, false, List, [],
  ◌∷◌, ◌++◌, some, u32, length, All,
}
use j1939_framework.Can
use j1939_framework.Can.{CanFrame}
use j1939_framework.TimeStamp.{TimeStamp}
use j1939_framework.Trc.Stream.{Stream, Doubles, get, ignore_line, skip_line}
use j1939_framework.Trc.Reader.{Fields, round, read_loop, start_fields, is_blank}
use j1939_framework.Trc.Files.{
  Reader, forget_last, line_fuel, finish, finish_read, read_next_line, check_lines,
}
use j1939_framework.Trc.Writer.{write_line, Writer, write, write_all, header, millis_of}
use j1939_framework.Trc.Extract.{ahead}
use j1939_framework.Trc.Tokens.{Runs, run_round}
use j1939_framework.Trc.Lines.{Writable}
use j1939_framework.Trc.Reading.{at, read_as, fueled, after_line, read_next_line-write_line}

abbrev pub Entry : Type 0
Entry = CanFrame × TimeStamp

module _ {D : Type 0} (doubles : Doubles D) where
  -- The lines of a file behind `k` others.
  abbrev pub lines : ℕ → List Entry → List ℕ
  lines k [] = []
  lines k ((frame, t) ∷ later) = write_line doubles (suc k) frame t ++ lines (suc k) later

  -- The number that the text of a time stamp denotes.
  abbrev pub value_of : TimeStamp → D
  value_of t = (doubles.read (doubles.show_fixed 1 (millis_of doubles t))).0

  -- A frame with octets that can be written.
  abbrev pub IsTraced : Entry → Type 0
  IsTraced e = (0 < length e.0.bytes) × Writable doubles e.0 e.1 (value_of e.1)

  write-open :
      (frame : CanFrame) (t : TimeStamp) (w : Writer)
      → w.is_open ≡ true
      → w.counter + 1 < 2 ^ 32
      → write doubles frame t w
        ≡ some (record w {
          counter = suc w.counter;
          file = w.file ++ write_line doubles (suc w.counter) frame t;
        })
  unfolding write
  write-open frame t w opened room =
      let next : u32 (w.counter + 1) ≡ suc w.counter = omega arith in rw (opened, next) refl

  write_step :
      (frame : CanFrame) (t : TimeStamp) (later : List Entry) (w w' : Writer)
      → write doubles frame t w ≡ some w'
      → write_all doubles ((frame, t) ∷ later) w ≡ write_all doubles later w'
  unfolding write_all
  write_step frame t later w w' e = rw (e, write_all) refl

  -- The entries are written one line each, behind what the file holds.
  pub write_all-lines :
      (entries : List Entry) (w : Writer)
      → w.is_open ≡ true
      → w.counter + length entries < 2 ^ 32
      → write_all doubles entries w
        ≡ some (record w {
          counter = w.counter + length entries;
          file = w.file ++ lines w.counter entries;
        })
  unfolding write_all
  write_all-lines [] w opened room =
      let same_count : w.counter ≡ w.counter + 0 = omega arith in
      let same_file = sym (append-nil w.file) in
      λ i. some (record w { counter = same_count i; file = same_file i })
  write_all-lines ((frame, t) ∷ later) w opened room =
      let same_count : suc w.counter + length later ≡ w.counter + suc (length later) =
        omega arith in
      let line = write_line doubles (suc w.counter) frame t in
      let same_file = append_assoc w.file line (lines (suc w.counter) later) in
      let w' : Writer = record w { counter = suc w.counter; file = w.file ++ line } in
      write_step frame t later w w' (write-open frame t w opened (omega arith))
      ∙ (write_all-lines later w' opened (omega arith) ∙ λ i.
          some (record w { counter = same_count i; file = same_file i }))

  run_header :
      (hex : Bool) (text : List ℕ) (p : Fields D) (x : Stream × Fields D)
      → Runs doubles (ahead hex text) p x
      → Runs doubles (ahead hex (header ++ text)) p x
  unfolding round is_blank ignore_line skip_line
  run_header hex text p x r =
      run_round doubles hex b';' _ p p (ahead hex (b';' ∷ b'\n' ∷ text)) x refl
        (run_round doubles hex b';' _ p p (ahead hex text) x refl r)

  module _ (refuses : (doubles.read []).1 ≡ false) where
    -- The header changes nothing for the line behind it.
    pub read_header :
        (r : Reader) (hex : Bool) (text : List ℕ)
        → read_next_line doubles (at doubles refuses r hex (header ++ text))
          ≡ read_next_line doubles (at doubles refuses r hex text)
    unfolding finish forget_last
    read_header r hex text =
        let (s, p, e, ended) = fueled doubles refuses (ahead hex text) refl in
        read_as doubles refuses r hex (header ++ text) s p
          (run_header hex text (start_fields doubles) (s, p) (line_fuel (ahead hex text), e))
        ∙ sym (read_as doubles refuses r hex text s p (line_fuel (ahead hex text), e))

    read_nothing :
        (r : Reader) (hex : Bool)
        → read_next_line doubles (at doubles refuses r hex [])
          ≡ some (
            record (forget_last r) {
              stream = record { rest = []; eof_bit = true; fail_bit = true; hex = hex };
            },
            record { error = false; empty = true },
          )
    unfolding read_next_line read_loop get start_fields finish_read finish forget_last
    read_nothing r hex = refl

    -- What checking the lines leaves alone, and the position that it ends at.
    pub record Checked (r r' : Reader) (pos : ℕ) : Type 0 where
      pub same_file : r'.file ≡ r.file
      pub same_loaded : r'.is_loaded ≡ r.is_loaded
      pub at_pos : r'.current_pos ≡ pos
      pub no_frame : r'.last_frame.bytes ≡ []
      pub no_time : r'.last_time ≡ 0

    abbrev pub last_pos : ℕ → ℕ → List Entry → ℕ
    last_pos now k [] = now
    last_pos now k (e ∷ later) = last_pos k (suc k) later

    pub check_step :
        (fuel : ℕ) (r r' : Reader) (empty : Bool)
        → r.stream.eof_bit ≡ false
        → read_next_line doubles r ≡ some (r', record { error = false; empty = empty })
        → check_lines doubles (suc fuel) r ≡ check_lines doubles fuel r'
    unfolding check_lines
    check_step fuel r r' empty more e = simp (more, e, check_lines)

    check_end :
        (fuel : ℕ) (r : Reader)
        → r.stream.eof_bit ≡ true
        → check_lines doubles (suc fuel) r ≡ some (r, true)
    unfolding check_lines
    check_end fuel r e = rw e refl

    pub check_lines-lines :
        (entries : List Entry) (fuel k : ℕ) (r : Reader) (hex : Bool)
        → All IsTraced entries
        → k + length entries < 2 ^ 32
        → length entries + 2 ≤ fuel
        → (r' : Reader) × (check_lines doubles fuel (at doubles refuses r hex (lines k entries))
            ≡ some (r', true))
          × Checked r r' (last_pos r.current_pos k entries)
    check_lines-lines entries zero k r hex traced room enough = absurd (omega arith)
    check_lines-lines entries (suc zero) k r hex traced room enough = absurd (omega arith)
    check_lines-lines [] (suc (suc fuel)) k r hex traced room enough =
        let r' = record (forget_last r) {
          stream = record { rest = []; eof_bit = true; fail_bit = true; hex = hex };
        } in
        (
          r',
          check_step (suc fuel) (at doubles refuses r hex []) r' true refl (read_nothing r hex)
              ∙ check_end fuel r' refl,
          unfold forget_last in
              record {
                same_file = refl;
                same_loaded = refl;
                at_pos = refl;
                no_frame = unfold Can.clear in refl;
                no_time = refl;
              },
        )
    check_lines-lines ((frame, t) ∷ later) (suc (suc fuel)) k r hex ((octets, w), traced) room
          enough =
        let r1 = after_line doubles refuses r (lines (suc k) later) (suc k) (value_of t) frame in
        let (r', e, c) =
          check_lines-lines later (suc fuel) (suc k) r1 true traced (omega arith) (omega arith) in
        (
          r',
          check_step (suc fuel) (at doubles refuses r hex (lines k ((frame, t) ∷ later))) r1 false
                refl
                (read_next_line-write_line doubles refuses r hex (suc k) frame (value_of t) t
                  (lines (suc k) later) (omega arith) (omega arith) octets w)
              ∙ e,
          record {
            same_file = c.same_file;
            same_loaded = c.same_loaded;
            no_frame = c.no_frame;
            no_time = c.no_time;
            at_pos = c.at_pos ∙ ap (λ (n : ℕ). last_pos n (suc k) later) (omega arith);
          },
        )
