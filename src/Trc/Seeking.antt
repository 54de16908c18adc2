-- ===== src/Trc/Seeking.antt =====
-- TRCReader on a file that TRCWriter wrote: `loadFile` and `seekPosition`.
use mathlib.Core.Path.{subst}
use j1939_framework.Base.{
  ℕ, zero, suc, ◌+◌, ◌-◌, ◌^◌, ◌≤◌, ◌<◌, ◌≡◌, ◌≢◌, ◌∙◌, refl, ap, arith, Bool, true, false, List,
  [], ◌∷◌, ◌++◌, Option, some, ◌==◌, length, length-append, replicate, get_elem?, All,
}
use j1939_framework.Can.{CanFrame}
use j1939_framework.TimeStamp.{TimeStamp}
use j1939_framework.Trc.Stream.{Doubles}
use j1939_framework.Trc.Files.{
  Reader, read_next_line, check_lines, check_integrity, load_file, unload_file, rewind, seek_lines,
  seek_position,
}
use j1939_framework.Trc.Writer.{write_line, Writer, write_all, header, open_file, close, show, pad}
use j1939_framework.Trc.Extract.{ahead}
use j1939_framework.Trc.Reading.{at, after_line, read_next_line-write_line}
use j1939_framework.Trc.Traces.{
  Entry, lines, value_of, IsTraced, write_all-lines, read_header, last_pos, check_lines-lines,
}

module _ {D : Type 0} (doubles : Doubles D) where
  -- The file of a new trace with these entries.
  abbrev pub trace : List Entry → List ℕ
  trace entries = header ++ lines doubles 0 entries

  -- Entries written to a new file make its trace.
  pub write_all-open_file :
      (entries : List Entry) (w : Writer)
      → length entries < 2 ^ 32
      → write_all doubles entries (open_file true w).0
        ≡ some (record { is_open = true; counter = length entries; file = trace entries })
  unfolding open_file close
  write_all-open_file entries w room =
      let same : 0 + length entries ≡ length entries = omega arith in
      write_all-lines doubles entries (open_file true w).0 refl (omega arith) ∙ λ i.
      some (record { is_open = true; counter = same i; file = trace entries })

  length-pad : (width fill : ℕ) (text : List ℕ) → length text ≤ length (pad width fill text)
  unfolding pad
  length-pad width fill text =
      omega (arith, length-append (replicate (width - length text) fill) text)

  write_line-pos :
      (k : ℕ) (frame : CanFrame) (t : TimeStamp) → 0 < length (write_line doubles k frame t)
  unfolding write_line
  write_line-pos k frame t =
      let number = pad 8 b' ' (show false k ++ b')' ∷ []) in
      omega (
        arith,
        length-append (show false k) (b')' ∷ []),
        length-pad 8 b' ' (show false k ++ b')' ∷ []),
        length-append number _,
      )

  pub length-lines :
      (k : ℕ) (entries : List Entry) → length entries ≤ length (lines doubles k entries)
  length-lines k [] = omega arith
  length-lines k ((frame, t) ∷ later) = omega (
    arith,
    length-append (write_line doubles (suc k) frame t) (lines doubles (suc k) later),
    write_line-pos (suc k) frame t,
    length-lines (suc k) later,
  )

  module _ (refuses : (doubles.read []).1 ≡ false) where
    last_pos_lem :
        (entries : List Entry) (now k : ℕ)
        → 0 < length entries
        → suc (last_pos doubles refuses now k entries) ≡ k + length entries
    last_pos_lem [] now k h = absurd (omega arith)
    last_pos_lem (e ∷ []) now k h = omega arith
    last_pos_lem (e ∷ f ∷ later) now k h =
        omega (arith, last_pos_lem (f ∷ later) k (suc k) (omega arith))

    -- The reader holds the trace of these entries.
    pub record Holds (entries : List Entry) (r : Reader) : Type 0 where
      pub of_trace : r.file ≡ trace entries
      pub loaded : r.is_loaded ≡ true
      pub total : r.total_frames ≡ length entries

    pub check_header :
        (fuel : ℕ) (r : Reader) (hex : Bool) (text : List ℕ)
        → check_lines doubles fuel (at doubles refuses r hex (header ++ text))
          ≡ check_lines doubles fuel (at doubles refuses r hex text)
    unfolding check_lines
    check_header zero r hex text = refl
    check_header (suc fuel) r hex text =
        rw (read_header doubles refuses r hex text, check_lines) refl

    abbrev pub opened : List ℕ → Reader → Reader
    opened file r = record (unload_file r) {
      file = file;
      is_loaded = true;
      stream = ahead r.stream.hex file;
    }

    load_checked :
        (file : List ℕ) (r r' : Reader)
        → check_lines doubles (length file + 2) (opened file r) ≡ some (r', true)
        → load_file doubles (some file) r
          ≡ some (rewind (record r' { total_frames = r'.current_pos + 1 }), true)
    unfolding load_file check_integrity
    load_checked file r r' e = rw (e, load_file, check_integrity) refl

    -- A trace that the writer wrote loads, if it has at least one and fewer than 2^32 entries, each
    -- a frame of one to eight octets and an identifier of 32 bits with a time stamp whose text is a
    -- decimal that is read as a number. The reader then holds the file and the number of its
    -- entries, and stands at position 0, but with a frame of no octets and the time 0. The empty
    -- text is not read as a number.
    pub load_file-trace :
        (entries : List Entry) (r : Reader)
        → All (IsTraced doubles) entries
        → 0 < length entries
        → length entries < 2 ^ 32
        → (r' : Reader) × (load_file doubles (some (trace entries)) r ≡ some (r', true))
          × Holds entries r'
          × (r'.current_pos ≡ 0)
          × (r'.last_frame.bytes ≡ [])
          × (r'.last_time ≡ 0)
    unfolding rewind
    load_file-trace entries r traced some_entry room =
        let from = opened (trace entries) r in
        let fuel = length (trace entries) + 2 in
        let (r', e, c) =
          check_lines-lines doubles refuses entries fuel 0 from r.stream.hex traced (omega arith) (
            omega
              (arith, length-lines 0 entries, length-append header (lines doubles 0 entries))) in
        (
          rewind (record r' { total_frames = r'.current_pos + 1 }),
          load_checked (trace entries) r r'
              (check_header fuel from r.stream.hex (lines doubles 0 entries) ∙ e),
          record {
            of_trace = c.same_file;
            loaded = c.same_loaded;
            total = omega (arith, c.at_pos, last_pos_lem entries from.current_pos 0 some_entry);
          },
          refl,
          c.no_frame,
          c.no_time,
        )

    seek_step :
        (fuel pos : ℕ) (r r' : Reader) (empty : Bool)
        → r.stream.eof_bit ≡ false
        → read_next_line doubles r ≡ some (r', record { error = false; empty = empty })
        → seek_lines doubles (suc fuel) pos r
          ≡ (elim (r'.current_pos == pos) as (λ b. Option (Reader × Bool)) [
            | true ↦ some (r', true)
            | false ↦ seek_lines doubles fuel pos r'
          ])
    unfolding seek_lines
    seek_step fuel pos r r' empty more e = simp (more, e, seek_lines)

    seek_header :
        (fuel pos : ℕ) (r : Reader) (hex : Bool) (text : List ℕ)
        → seek_lines doubles fuel pos (at doubles refuses r hex (header ++ text))
          ≡ seek_lines doubles fuel pos (at doubles refuses r hex text)
    unfolding seek_lines
    seek_header zero pos r hex text = refl
    seek_header (suc fuel) pos r hex text =
        rw (read_header doubles refuses r hex text, seek_lines) refl

    -- The reader has just read this entry, at this position.
    pub record HasRead (pos : ℕ) (e : Entry) (r : Reader) : Type 0 where
      pub position : r.current_pos ≡ pos
      pub frame : r.last_frame ≡ record { extended_format = true; id = e.0.id; bytes = e.0.bytes }
      pub time :
          r.last_time ≡ doubles.to_u64 (doubles.mul (value_of doubles e.1) (doubles.of_u32 1000))

    seek_lines-lines :
        (entries : List Entry) (fuel k i : ℕ) (r : Reader) (hex : Bool) (e : Entry)
        → All (IsTraced doubles) entries
        → k + length entries < 2 ^ 32
        → length entries ≤ fuel
        → get_elem? entries i ≡ some e
        → (r' : Reader) × (seek_lines doubles fuel
              (k + i)
              (at doubles refuses r hex (lines doubles k entries))
            ≡ some (r', true))
          × HasRead (k + i) e r'
    seek_lines-lines [] fuel k i r hex e traced room enough found = absurd (cc found)
    seek_lines-lines (entry ∷ later) zero k i r hex e traced room enough found =
        absurd (omega arith)
    seek_lines-lines ((frame, t) ∷ later) (suc fuel) k zero r hex e ((octets, w), traced) room
          enough found =
        let r1 =
          after_line doubles refuses r (lines doubles (suc k) later) (suc k) (value_of doubles t)
            frame in
        let here : (r1.current_pos == k + 0) ≡ true = ground arith in
        (
          r1,
          seek_step fuel (k + 0) (at doubles refuses r hex (lines doubles k ((frame, t) ∷ later)))
                r1 false refl
                (read_next_line-write_line doubles refuses r hex (suc k) frame (value_of doubles t)
                  t (lines doubles (suc k) later) (omega arith) (omega arith) octets w)
              ∙ rw here refl,
          let same : (frame, t) ≡ e = cc found in
              subst (λ (x : Entry). HasRead (k + 0) x r1) same
                (record { position = omega arith; frame = refl; time = refl }),
        )
    seek_lines-lines ((frame, t) ∷ later) (suc fuel) k (suc i) r hex e ((octets, w), traced) room
          enough found =
        let r1 =
          after_line doubles refuses r (lines doubles (suc k) later) (suc k) (value_of doubles t)
            frame in
        let here : (r1.current_pos == k + suc i) ≡ false = ground arith in
        let same : suc k + i ≡ k + suc i = omega arith in
        let (r', e', has) = rw same at (
          seek_lines-lines later fuel (suc k) i r1 true e traced (omega arith) (omega arith)
            found) in
        (
          r',
          seek_step fuel (k + suc i)
                (at doubles refuses r hex (lines doubles k ((frame, t) ∷ later))) r1 false refl
                (read_next_line-write_line doubles refuses r hex (suc k) frame (value_of doubles t)
                  t (lines doubles (suc k) later) (omega arith) (omega arith) octets w)
              ∙ rw here e',
          has,
        )

    index_lt :
        (entries : List Entry) (i : ℕ) (e : Entry)
        → get_elem? entries i ≡ some e
        → i < length entries
    index_lt [] i e h = absurd (cc h)
    index_lt (x ∷ entries) zero e h = omega arith
    index_lt (x ∷ entries) (suc i) e h = omega (arith, index_lt entries i e h)

    seek_elsewhere :
        (pos : ℕ) (r : Reader)
        → r.is_loaded ≡ true
        → pos < r.total_frames
        → r.current_pos ≢ pos
        → seek_position doubles pos r ≡ seek_lines doubles (length r.file + 2) pos (rewind r)
    unfolding seek_position
    seek_elsewhere pos r loaded inside other = ground arith

    -- In a reader that holds such a trace of fewer than 2^32 entries, seeking the position of an
    -- entry, other than the one where the reader stands, succeeds: the reader then stands there and
    -- has the identifier and the octets of the entry in a frame of the extended format, and the
    -- time that its text denotes. The empty text is not read as a number.
    pub seek_position-trace :
        (entries : List Entry) (r : Reader) (pos : ℕ) (e : Entry)
        → All (IsTraced doubles) entries
        → length entries < 2 ^ 32
        → Holds entries r
        → r.current_pos ≢ pos
        → get_elem? entries pos ≡ some e
        → (r' : Reader) × (seek_position doubles pos r ≡ some (r', true)) × HasRead pos e r'
    unfolding rewind
    seek_position-trace entries r pos e traced room h other found =
        let from = record r { current_pos = 0 } in
        let inside = index_lt entries pos e found in
        let fuel = length r.file + 2 in
        let same : 0 + pos ≡ pos = omega arith in
        let long : length entries ≤ fuel = omega (
          arith,
          ap length h.of_trace,
          length-lines 0 entries,
          length-append header (lines doubles 0 entries),
        ) in
        let (r', e', has) = rw same at (
          seek_lines-lines entries fuel 0 pos from r.stream.hex e traced (omega arith) long
            found) in
        (
          r',
          seek_elsewhere pos r h.loaded (omega (arith, h.total)) other
              ∙ (ap
                    (λ (file : List ℕ).
                      seek_lines doubles fuel pos (at doubles refuses from r.stream.hex file))
                    h.of_trace
                  ∙ (seek_header fuel pos from r.stream.hex (lines doubles 0 entries) ∙ e')),
          has,
        )

    -- Seeking the position where the reader stands reads nothing.
    pub seek_position-here :
        (pos : ℕ) (r : Reader)
        → r.is_loaded ≡ true
        → pos < r.total_frames
        → r.current_pos ≡ pos
        → seek_position doubles pos r ≡ some (r, true)
    unfolding seek_position
    seek_position-here pos r loaded inside here = ground arith
