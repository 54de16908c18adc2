-- ===== src/Trc/Files.antt =====
-- TRCReader (CAN/TRCReader.cpp): its state, a line of the file, and the operations on the file.
use j1939_framework.Base.{
  ℕ, zero, suc, ◌+◌, Bool, true, false, not, ◌&&◌, ◌||◌, List, Option, none, some, leb, ◌==◌, u32,
  length, if◌then◌else◌,
}
use j1939_framework.Can
use j1939_framework.Can.{CanFrame, new_frame}
use j1939_framework.Trc.Stream.{Stream, Doubles}
use j1939_framework.Trc.Reader.{Fields, start_fields, read_loop, get_position, get_end}

-- `file` is the content of the file that is open, `is_loaded` says that `mFileName` is not empty.
pub record Reader : Type 0 where
  pub file : List ℕ
  pub stream : Stream
  pub is_loaded : Bool
  pub current_pos : ℕ
  pub total_frames : ℕ
  pub last_time : ℕ
  pub last_frame : CanFrame

-- the two results of `readNextLine`
pub record Flags : Type 0 where
  pub error : Bool
  pub empty : Bool

unfoldable pub forget_last : Reader → Reader
unfolding Can.clear
forget_last r = record r { last_time = 0; last_frame = Can.clear r.last_frame }

abbrev pub line_fuel : Stream → ℕ
line_fuel s = length s.rest + 2

unfoldable pub rewind : Reader → Reader
rewind r = record r {
  stream = record { rest = r.file; eof_bit = false; fail_bit = false; hex = r.stream.hex };
  current_pos = 0;
}

unfoldable pub unload_file : Reader → Reader
unload_file r = record r { is_loaded = false; current_pos = 0; total_frames = 0 }

module _ {D : Type 0} where
  -- what follows the loop of `readNextLine`
  unfoldable pub finish : Reader → Stream → Fields D → Reader × Flags
  unfolding new_frame Can.set_data
  finish r s p =
      let read = record r { stream = s } in
      if not (p.state == get_end) && not (p.state == get_position)
      then (read, record { error = true; empty = false })
      else if p.state == get_position
      then (read, record { error = false; empty = true })
      else if not (length p.bytes == p.size)
      then (read, record { error = true; empty = false })
      else (
        record read {
          current_pos = u32 (p.position + 0xFFFFFFFF);
          last_time = p.time;
          last_frame = new_frame true p.id p.bytes;
        },
        record { error = false; empty = false },
      )

  unfoldable pub finish_read : Reader → Option (Stream × Fields D) → Option (Reader × Flags)
  unfolding finish
  finish_read r none = none
  finish_read r (some (s, p)) = some (finish r s p)

module _ {D : Type 0} (doubles : Doubles D) where
  unfoldable pub read_next_line : Reader → Option (Reader × Flags)
  unfolding forget_last read_loop start_fields finish_read
  read_next_line r =
      finish_read (forget_last r)
        (read_loop doubles (line_fuel r.stream) r.stream (start_fields doubles))

  -- The loop of `checkIntegrity`.
  unfoldable pub check_lines : ℕ → Reader → Option (Reader × Bool)
  unfolding read_next_line
  check_lines zero r = none
  check_lines (suc fuel) r = elim r.stream.eof_bit [
    | true ↦ some (r, true)
    | false ↦ elim (read_next_line r) [
      | none ↦ none
      | some (r', flags) ↦ elim flags.error [
        | true ↦ some (r', false)
        | false ↦ check_lines fuel r'
      ]
    ]
  ]

  unfoldable pub check_integrity : Reader → Option (Reader × Bool)
  unfolding check_lines
  check_integrity r = elim (check_lines (length r.stream.rest + 2) r) [
    | none ↦ none
    | some (r', false) ↦ some (r', false)
    | some (r', true) ↦ some (record r' { total_frames = r'.current_pos + 1 }, true)
  ]

  -- `loadFile`; `none` is a file that does not open.
  unfoldable pub load_file : Option (List ℕ) → Reader → Option (Reader × Bool)
  unfolding unload_file check_integrity rewind
  load_file none r = some (unload_file r, false)
  load_file (some file) r =
      let opened = record (unload_file r) {
        file = file;
        is_loaded = true;
        stream = record { rest = file; eof_bit = false; fail_bit = false; hex = r.stream.hex };
      } in
      elim (check_integrity opened) [
        | none ↦ none
        | some (r', false) ↦ some (unload_file r', false)
        | some (r', true) ↦ some (rewind r', true)
      ]

  -- The loop of `seekPosition`.
  unfoldable pub seek_lines : ℕ → ℕ → Reader → Option (Reader × Bool)
  unfolding read_next_line
  seek_lines zero pos r = none
  seek_lines (suc fuel) pos r = elim r.stream.eof_bit [
    | true ↦ some (r, false)
    | false ↦ elim (read_next_line r) [
      | none ↦ none
      | some (r', flags) ↦ elim flags.error [
        | true ↦ some (r', false)
        | false ↦ elim (r'.current_pos == pos) [
          | true ↦ some (r', true)
          | false ↦ seek_lines fuel pos r'
        ]
      ]
    ]
  ]

  unfoldable pub seek_position : ℕ → Reader → Option (Reader × Bool)
  unfolding seek_lines rewind
  seek_position pos r =
      if not r.is_loaded || leb r.total_frames pos
      then some (r, false)
      else if r.current_pos == pos
      then some (r, true)
      else seek_lines (length r.file + 2) pos (rewind r)

  unfoldable pub read_next_can_frame : Reader → Option Reader
  unfolding read_next_line
  read_next_can_frame r = elim r.stream.eof_bit [
    | true ↦ some r
    | false ↦ elim (read_next_line r) [ none ↦ none | some (r', flags) ↦ some r' ]
  ]
