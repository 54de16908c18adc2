-- ===== src/Trc/Refusals.antt =====
-- What TRCReader does not read back of a file that TRCWriter wrote.
use j1939_framework.Base.{
  ℕ, zero, suc, ◌+◌, ◌^◌, ◌≤◌, ◌<◌, ◌≡◌, ◌∙◌, refl, arith, Bool, true, false, List, [], ◌∷◌, ◌++◌,
  some, length, length-append, All,
}
use j1939_framework.Can.{CanFrame}
use j1939_framework.TimeStamp.{TimeStamp}
use j1939_framework.Trc.Stream.{Doubles}
use j1939_framework.Trc.Files.{
  Reader, read_next_line, check_lines, check_integrity, load_file, unload_file, seek_position,
}
use j1939_framework.Trc.Writer.{write_line, header}
use j1939_framework.Trc.Reading.{
  at, after_line, read_next_line-write_line, read_next_line-write_bare,
}
use j1939_framework.Trc.Lines.{Writable}
use j1939_framework.Trc.Traces.{Entry, lines, value_of, IsTraced, check_step}
use j1939_framework.Trc.Seeking.{
  trace, length-lines, opened, check_header, load_file-trace, seek_position-here,
}

module _ {D : Type 0} (doubles : Doubles D) (refuses : (doubles.read []).1 ≡ false) where
  check_error :
      (fuel : ℕ) (r r' : Reader) (empty : Bool)
      → r.stream.eof_bit ≡ false
      → read_next_line doubles r ≡ some (r', record { error = true; empty = empty })
      → check_lines doubles (suc fuel) r ≡ some (r', false)
  unfolding check_lines
  check_error fuel r r' empty more e = simp (more, e, check_lines)

  check_lines-bare :
      (before : List Entry) (frame : CanFrame) (t : TimeStamp) (later : List Entry) (fuel k : ℕ)
      (r : Reader) (hex : Bool)
      → All (IsTraced doubles) before
      → frame.bytes ≡ []
      → Writable doubles frame t (value_of doubles t)
      → k + length before + 1 < 2 ^ 32
      → length before + 1 ≤ fuel
      → (r' : Reader) × (check_lines doubles fuel
            (at doubles refuses r hex (lines doubles k (before ++ (frame, t) ∷ later)))
          ≡ some (r', false))
  check_lines-bare before frame t later zero k r hex traced bare w room enough =
      absurd (omega arith)
  check_lines-bare [] frame t later (suc fuel) k r hex traced bare w room enough = (
    _,
    check_error fuel (at doubles refuses r hex (lines doubles k ((frame, t) ∷ later))) _ false refl
        (read_next_line-write_bare doubles refuses r hex (suc k) frame (value_of doubles t) t
          (lines doubles (suc k) later) (omega arith) bare w),
  )
  check_lines-bare ((f, s) ∷ before) frame t later (suc fuel) k r hex ((octets, v), traced) bare w
        room enough =
      let text = lines doubles (suc k) (before ++ (frame, t) ∷ later) in
      let r1 = after_line doubles refuses r text (suc k) (value_of doubles s) f in
      let (r', e) =
        check_lines-bare before frame t later fuel (suc k) r1 true traced bare w (omega arith)
          (omega arith) in
      (
        r',
        check_step doubles refuses fuel
              (at doubles refuses r hex (write_line doubles (suc k) f s ++ text)) r1 false refl
              (read_next_line-write_line doubles refuses r hex (suc k) f (value_of doubles s) s text
                (omega arith) (omega arith) octets v)
            ∙ e,
      )

  load_refused :
      (file : List ℕ) (r r' : Reader)
      → check_lines doubles (length file + 2) (opened doubles refuses file r) ≡ some (r', false)
      → load_file doubles (some file) r ≡ some (unload_file r', false)
  unfolding load_file check_integrity
  load_refused file r r' e = rw (e, load_file, check_integrity) refl

  -- A trace that the writer wrote is refused, and not loaded, if one of its frames, all with
  -- identifiers and time stamps as above, has no octets, and those before it, fewer than 2^32 - 1,
  -- have one to eight. The empty text is not read as a number.
  pub load_file-bare :
      (before : List Entry) (frame : CanFrame) (t : TimeStamp) (later : List Entry) (r : Reader)
      → All (IsTraced doubles) before
      → frame.bytes ≡ []
      → Writable doubles frame t (value_of doubles t)
      → length before + 1 < 2 ^ 32
      → (r' : Reader) × (load_file doubles (some (trace doubles (before ++ (frame, t) ∷ later))) r
          ≡ some (r', false))
        × (r'.is_loaded ≡ false)
        × (r'.total_frames ≡ 0)
  unfolding unload_file
  load_file-bare before frame t later r traced bare w room =
      let entries = before ++ (frame, t) ∷ later in
      let from = opened doubles refuses (trace doubles entries) r in
      let fuel = length (trace doubles entries) + 2 in
      let enough : length before + 1 ≤ fuel = omega (
        arith,
        length-lines doubles 0 entries,
        length-append header (lines doubles 0 entries),
        length-append before ((frame, t) ∷ later),
      ) in
      let (r', e) =
        check_lines-bare before frame t later fuel 0 from r.stream.hex traced bare w (omega arith)
          enough in
      (
        unload_file r',
        load_refused (trace doubles entries) r r'
            (check_header doubles refuses fuel from r.stream.hex (lines doubles 0 entries) ∙ e),
        refl,
        refl,
      )

  -- After a trace of at least one and fewer than 2^32 entries, all of one to eight octets, is
  -- loaded, seeking position 0 reports success but reads nothing: the reader is as before, and its
  -- frame has no octets and its time is 0, so it is not the first of the trace. The empty text is
  -- not read as a number.
  pub seek_position-first :
      (entries : List Entry) (r : Reader)
      → All (IsTraced doubles) entries
      → 0 < length entries
      → length entries < 2 ^ 32
      → (r' : Reader) × (load_file doubles (some (trace doubles entries)) r ≡ some (r', true))
        × (seek_position doubles 0 r' ≡ some (r', true))
        × (r'.last_frame.bytes ≡ [])
        × (r'.last_time ≡ 0)
  seek_position-first entries r traced some_entry room =
      let (r', e, holds, here, bytes, time) =
        load_file-trace doubles refuses entries r traced some_entry room in
      (
        r',
        e,
        seek_position-here doubles refuses 0 r' holds.loaded (omega (arith, holds.total)) here,
        bytes,
        time,
      )
