-- ===== src/Trc/Totals.antt =====
-- TRCReader on any file: its operations return, and where they refuse one that TRCWriter wrote.
use j1939_framework.Base.{
  ℕ, zero, suc, ◌+◌, ◌≤◌, ◌<◌, ◌≡◌, ◌∙◌, ◌⊎◌, inl, inr, refl, ap, sym, arith, Bool, true, false,
  not, ◌||◌, List, [], Option, some, none, leb, ◌==◌, length, Bool-cases,
}
use j1939_framework.Trc.Stream.{Stream, Doubles}
use j1939_framework.Trc.Reader.{Fields, read_loop, start_fields}
use j1939_framework.Trc.Files.{
  Reader, finish, finish_read, forget_last, line_fuel, Flags, read_next_line, check_lines,
  check_integrity, load_file, unload_file, rewind, seek_lines, seek_position,
}
use j1939_framework.Trc.Moves.{bad}
use j1939_framework.Trc.Extract.{ahead}
use j1939_framework.Trc.Reading.{MovesOn, read_next_line-returns}

abbrev IsSome {ℓ} : {A : Type ℓ} → Option A → Type ℓ
IsSome {A} o = (a : A) × (o ≡ some a)

-- The file and whether it is loaded are the same.
abbrev Keeps : Reader → Reader → Type 0
Keeps r r' = (r'.file ≡ r.file) × (r'.is_loaded ≡ r.is_loaded)

finish-Keeps :
    {D : Type 0} (r : Reader) (s : Stream) (p : Fields D) → Keeps r (finish (forget_last r) s p).0
unfolding finish forget_last
finish-Keeps r s p = (ground arith, ground arith)

finish_read-Keeps :
    {D : Type 0} (r r' : Reader) (flags : Flags) (loop : Option (Stream × Fields D))
    → finish_read (forget_last r) loop ≡ some (r', flags)
    → Keeps r r'
unfolding finish_read
finish_read-Keeps r r' flags none e = absurd (cc e)
finish_read-Keeps r r' flags (some (s, p)) e =
    let same : (finish (forget_last r) s p).0 ≡ r' = cc e in
    let (file, loaded) = finish-Keeps r s p in
    (ap Reader.file (sym same) ∙ file, ap Reader.is_loaded (sym same) ∙ loaded)

trans-Keeps : (a b c : Reader) → Keeps a b → Keeps b c → Keeps a c
trans-Keeps a b c k l = (l.0 ∙ k.0, l.1 ∙ k.1)

module _ {D : Type 0} (doubles : Doubles D) where
  read_next_line-Keeps :
      (r r' : Reader) (flags : Flags) → read_next_line doubles r ≡ some (r', flags) → Keeps r r'
  unfolding read_next_line
  read_next_line-Keeps r r' flags e =
      finish_read-Keeps r r' flags
        (read_loop doubles (line_fuel r.stream) r.stream (start_fields doubles)) e

module _ {D : Type 0} (doubles : Doubles D) (refuses : (doubles.read []).1 ≡ false) where
  -- What a loop over lines needs: the end of the file, or a good stream and fuel for its characters.
  abbrev Fueled : ℕ → Reader → Type 0
  Fueled fuel r =
      ((r.stream.eof_bit ≡ true) × (0 < fuel))
      ⊎ ((bad r.stream ≡ false) × (length r.stream.rest + 2 ≤ fuel))

  next_Fueled :
      (fuel : ℕ) (r r' : Reader) (flags : Flags)
      → flags.error ≡ false
      → length r.stream.rest + 2 ≤ suc fuel
      → MovesOn doubles refuses r r' flags
      → Fueled fuel r'
  next_Fueled fuel r r' flags fine enough (inl error) = absurd (cc (fine, error))
  next_Fueled fuel r r' flags fine enough (inr (inl ended)) = inl (ended, omega arith)
  next_Fueled fuel r r' flags fine enough (inr (inr (good, moved))) =
      inr (ground (arith, good), omega arith)

  check_lines-returns :
      (fuel : ℕ) (r : Reader)
      → Fueled fuel r
      → (r' : Reader) × (ok : Bool) × (check_lines doubles fuel r ≡ some (r', ok)) × Keeps r r'
  unfolding check_lines
  check_lines-returns zero r f = absurd (ground (arith, f))
  check_lines-returns (suc fuel) r (inl (ended, pos)) =
      (r, true, simp (ended, check_lines), (refl, refl))
  check_lines-returns (suc fuel) r (inr (good, enough)) = elim (Bool-cases r.stream.eof_bit) [
    | inl ended ↦ (r, true, simp (ended, check_lines), (refl, refl))
    | inr more ↦
        let (r', flags, e, moves) = read_next_line-returns doubles refuses r good in
        elim (Bool-cases flags.error) [
          | inl error ↦ (
            r',
            false,
            simp (more, e, error, check_lines),
            read_next_line-Keeps doubles r r' flags e,
          )
          | inr fine ↦
              let (r'', ok, later, kept) =
                check_lines-returns fuel r' (next_Fueled fuel r r' flags fine enough moves) in
              (
                r'',
                ok,
                simp (more, e, fine, later, check_lines),
                trans-Keeps r r' r'' (read_next_line-Keeps doubles r r' flags e) kept,
              )
        ]
  ]

  seek_lines-returns :
      (fuel pos : ℕ) (r : Reader) → Fueled fuel r → IsSome (seek_lines doubles fuel pos r)
  unfolding seek_lines
  seek_lines-returns zero pos r f = absurd (ground (arith, f))
  seek_lines-returns (suc fuel) pos r (inl (ended, enough)) = ((r, false), simp (ended, seek_lines))
  seek_lines-returns (suc fuel) pos r (inr (good, enough)) = elim (Bool-cases r.stream.eof_bit) [
    | inl ended ↦ ((r, false), simp (ended, seek_lines))
    | inr more ↦
        let (r', flags, e, moves) = read_next_line-returns doubles refuses r good in
        elim (Bool-cases flags.error) [
          | inl error ↦ ((r', false), simp (more, e, error, seek_lines))
          | inr fine ↦ elim (Bool-cases (r'.current_pos == pos)) [
            | inl here ↦ ((r', true), simp (more, e, fine, here, seek_lines))
            | inr other ↦
                let (result, later) =
                  seek_lines-returns fuel pos r' (next_Fueled fuel r r' flags fine enough moves) in
                (result, simp (more, e, fine, other, later, seek_lines))
          ]
        ]
  ]

  counted :
      (r r' : Reader) (ok : Bool)
      → check_lines doubles (length r.stream.rest + 2) r ≡ some (r', ok)
      → Keeps r r'
      → (r'' : Reader) × (check_integrity doubles r ≡ some (r'', ok)) × Keeps r r''
  unfolding check_integrity
  counted r r' false e kept = (r', rw (e, check_integrity) refl, kept)
  counted r r' true e kept =
      (record r' { total_frames = r'.current_pos + 1 }, rw (e, check_integrity) refl, kept)

  check_integrity-returns :
      (r : Reader)
      → bad r.stream ≡ false
      → (r' : Reader) × (ok : Bool) × (check_integrity doubles r ≡ some (r', ok)) × Keeps r r'
  check_integrity-returns r good =
      let (r', ok, e, kept) =
        check_lines-returns (length r.stream.rest + 2) r (inr (good, omega arith)) in
      let (r'', e', kept') = counted r r' ok e kept in (r'', ok, e', kept')

  abbrev LoadEnds : Option (Reader × Bool) → Type 0
  LoadEnds result =
      (r' : Reader) × (ok : Bool) × (result ≡ some (r', ok))
      × (r'.is_loaded ≡ ok)
      × (r'.current_pos ≡ 0)
      × ((ok ≡ false) → r'.total_frames ≡ 0)

  abbrev opened : List ℕ → Reader → Reader
  opened file r = record (unload_file r) {
    file = file;
    is_loaded = true;
    stream = ahead r.stream.hex file;
  }

  loaded :
      (file : List ℕ) (r r' : Reader) (ok : Bool)
      → check_integrity doubles (opened file r) ≡ some (r', ok)
      → Keeps (opened file r) r'
      → LoadEnds (load_file doubles (some file) r)
  unfolding load_file unload_file rewind
  loaded file r r' false e kept =
      (unload_file r', false, rw (e, load_file) refl, refl, refl, λ h. refl)
  loaded file r r' true e kept = (rewind r', true, rw (e, load_file) refl, kept.1, refl, λ h. cc)

  -- `loadFile` returns for every file, also one that does not open. The reader stands at position
  -- 0, the file is loaded exactly when the call reports success, and otherwise no frames are
  -- counted. The empty text is not read as a number.
  pub load_file-returns :
      (file : Option (List ℕ)) (r : Reader)
      → (r' : Reader) × (ok : Bool) × (load_file doubles file r ≡ some (r', ok))
        × (r'.is_loaded ≡ ok)
        × (r'.current_pos ≡ 0)
        × ((ok ≡ false) → r'.total_frames ≡ 0)
  unfolding load_file unload_file
  load_file-returns none r = (unload_file r, false, refl, refl, refl, λ h. refl)
  load_file-returns (some file) r =
      let (r', ok, e, kept) = check_integrity-returns (opened file r) refl in
      loaded file r r' ok e kept

  -- `seekPosition` returns for every position and every state of the reader.
  seek_position-returns : (pos : ℕ) (r : Reader) → IsSome (seek_position doubles pos r)
  unfolding seek_position rewind
  seek_position-returns pos r =
      let (result, e) =
        seek_lines-returns (length r.file + 2) pos (rewind r) (inr (refl, omega arith)) in
      elim (Bool-cases (not r.is_loaded || leb r.total_frames pos)) [
        | inl outside ↦ ((r, false), rw outside refl)
        | inr inside ↦ elim (Bool-cases (r.current_pos == pos)) [
          | inl here ↦ ((r, true), rw (inside, here) refl)
          | inr other ↦ (result, rw (inside, other) e)
        ]
      ]
