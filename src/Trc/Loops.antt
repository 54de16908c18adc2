-- ===== src/Trc/Loops.antt =====
-- The loops of TRCReader return: `readNextLine` with the fuel that it is given, and those over lines.
use j1939_framework.Base.{
  ℕ, zero, suc, ◌+◌, ◌≤◌, ◌≡◌, ◌⊎◌, inl, inr, refl, arith, Bool, true, false, List, [], ◌∷◌, Option,
  some, ltb, ◌==◌, length, Bool-cases,
}
use j1939_framework.Trc.Stream.{Stream, Doubles, get, get_from, seek_back, ignore_line}
use j1939_framework.Trc.Reader.{
  Fields, Round, again, leave, is_blank, settle, after_return, read_field, round, go_on, read_loop,
}
use j1939_framework.Trc.Extract.{ahead, seek_back-ahead}
use j1939_framework.Trc.Moves.{bad}
use j1939_framework.Trc.Termination.{
  slack, Progress, settle-Progress, settle-end, field-Moves, field_state, length-skip_line,
  no_field,
}

get_return :
    (hex : Bool) (rest : List ℕ)
    → let (s, c) = get (ahead hex rest) b'\r' in
      ((s.fail_bit ≡ false) × (length s.rest ≤ length rest)) ⊎ ((c == b'\n') ≡ false)
unfolding get get_from
get_return hex [] = inr refl
get_return hex (d ∷ rest) = inl (refl, omega arith)

module _ {D : Type 0} where
  settle_error : (k m : ℕ) (s : Stream) (p : Fields D) → p.state ≡ 7 → Progress k m (settle (s, p))
  unfolding settle
  settle_error k m s p e = elim (Bool-cases (bad s)) [
    | inl wrong ↦ rw wrong (inl refl)
    | inr fine ↦ let at_error : (p.state == 7) ≡ true = ground arith in rw (fine, at_error) (inl e)
  ]

  after_return-Progress :
      (k m c : ℕ) (s : Stream) (p : Fields D)
      → ((s.fail_bit ≡ false) × (length s.rest ≤ k)) ⊎ ((c == b'\n') ≡ false)
      → Progress k m (after_return (s, c) p)
  unfolding after_return
  after_return-Progress k m c s p (inl good) = elim (Bool-cases (c == b'\n')) [
    | inl e ↦ rw e (inr good)
    | inr e ↦ rw e (settle_error k m (seek_back c s) (record p { state = 7 }) refl)
  ]
  after_return-Progress k m c s p (inr e) =
      rw e (settle_error k m (seek_back c s) (record p { state = 7 }) refl)

  ignore_line-Progress :
      (hex : Bool) (rest : List ℕ) (p : Fields D)
      → p.state ≤ 7
      → Progress (length rest) (slack p.state) (again (ignore_line (ahead hex rest)) p)
  unfolding ignore_line
  ignore_line-Progress hex rest p state = (state, refl, omega (arith, length-skip_line rest))

module _ {D : Type 0} (doubles : Doubles D) (refuses : (doubles.read []).1 ≡ false) where
  read_field-Progress :
      (hex : Bool) (c : ℕ) (rest : List ℕ) (p : Fields D)
      → p.state ≤ 7
      → Progress
          (length rest)
          (slack p.state)
          (settle (read_field doubles (ahead hex (c ∷ rest)) c p))
  read_field-Progress hex c rest p state = elim (Bool-cases (ltb p.state 6)) [
    | inl e ↦
        let low : p.state ≤ 5 = ground arith in
        let two : slack p.state ≡ 2 = ground arith in
        rw two (
          settle-Progress (length rest) _ _ (field-Moves doubles hex c rest p refuses low)
            (field_state doubles _ c p low))
    | inr e ↦
        rw (no_field doubles (ahead hex (c ∷ rest)) c p (ground arith))
          (settle-end hex c rest p (ground arith))
  ]

  round-Progress :
      (hex : Bool) (c : ℕ) (rest : List ℕ) (p : Fields D)
      → p.state ≤ 7
      → Progress (length rest) (slack p.state) (round doubles (ahead hex rest) c p)
  unfolding round
  round-Progress hex c rest p state = elim (Bool-cases (is_blank c)) [
    | inl e ↦ rw e (state, refl, omega arith)
    | inr blank ↦ rw blank (elim (Bool-cases (c == b';')) [
      | inl e ↦ rw e (ignore_line-Progress hex rest p state)
      | inr comment ↦ rw comment (elim (Bool-cases (c == b'\n')) [
        | inl e ↦ rw e (inr (refl, omega arith))
        | inr newline ↦ rw newline (elim (Bool-cases (c == b'\r')) [
          | inl e ↦
              let same : c ≡ b'\r' = ground arith in
              rw same
                (after_return-Progress (length rest) (slack p.state) _ _ p (get_return hex rest))
          | inr return ↦
              rw (return, seek_back-ahead hex c rest) (read_field-Progress hex c rest p state)
        ])
      ])
    ])
  ]

  -- At the end the state is an error, or the file ends, or the cursor has moved.
  abbrev pub Ended : ℕ → Stream → Fields D → Type 0
  Ended k s p =
      (p.state ≡ 7) ⊎ ((s.eof_bit ≡ true) ⊎ ((s.fail_bit ≡ false) × (suc (length s.rest) ≤ k)))

  abbrev pub Returns : ℕ → Option (Stream × Fields D) → Type 0
  Returns k result = (s : Stream) × (p : Fields D) × (result ≡ some (s, p)) × Ended k s p

  go_on-Returns :
      (loop : Stream → Fields D → Option (Stream × Fields D)) (k j m : ℕ) (r : Round D)
      → ((s : Stream) (p : Fields D)
          → p.state ≤ 7
          → bad s ≡ false
          → length s.rest + slack p.state ≤ j + m
          → length s.rest ≤ k
          → Returns k (loop s p))
      → suc j ≤ k
      → m ≤ 2
      → Progress j m r
      → Returns k (go_on loop r)
  unfolding go_on
  go_on-Returns loop k j m (again s p) ih h small (state, good, used) =
      ih s p state good used (ground arith)
  go_on-Returns loop k j m (leave s p) ih h small (inl error) = (s, p, refl, inl error)
  go_on-Returns loop k j m (leave s p) ih h small (inr (good, moved)) =
      (s, p, refl, inr (inr (good, omega arith)))

  slack_le : (state : ℕ) → slack state ≤ 2
  slack_le state = ground arith

  step_Returns :
      (fuel k : ℕ) (rest : List ℕ) (eof fail hex : Bool) (p : Fields D)
      → let s : Stream = record { rest = rest; eof_bit = eof; fail_bit = fail; hex = hex } in
        ((s : Stream) (p : Fields D)
          → p.state ≤ 7
          → bad s ≡ false
          → length s.rest + slack p.state ≤ fuel
          → length s.rest ≤ k
          → Returns k (read_loop doubles fuel s p))
        → p.state ≤ 7
        → bad s ≡ false
        → length s.rest + slack p.state ≤ suc fuel
        → length s.rest ≤ k
        → Returns k (read_loop doubles (suc fuel) s p)
  unfolding read_loop get get_from
  step_Returns fuel k rest true fail hex p ih state good enough h = (_, p, refl, inr (inl refl))
  step_Returns fuel k rest false true hex p ih state good enough h = absurd (ground (arith, good))
  step_Returns fuel k [] false false hex p ih state good enough h = (_, p, refl, inr (inl refl))
  step_Returns fuel k (c ∷ rest) false false hex p ih state good enough h =
      go_on-Returns (read_loop doubles fuel) k (length rest) (slack p.state)
        (round doubles (ahead hex rest) c p)
        (λ s' p' state' good' used h'. ih s' p' state' good' (omega arith) h') (omega arith)
        (slack_le p.state) (round-Progress hex c rest p state)

  -- Fuel for every character that is left, and two rounds more, is enough.
  pub read_loop-Returns :
      (fuel k : ℕ) (s : Stream) (p : Fields D)
      → p.state ≤ 7
      → bad s ≡ false
      → length s.rest + slack p.state ≤ fuel
      → length s.rest ≤ k
      → Returns k (read_loop doubles fuel s p)
  read_loop-Returns zero k s p state good enough h = absurd (ground arith)
  read_loop-Returns (suc fuel) k s p state good enough h =
      step_Returns fuel k s.rest s.eof_bit s.fail_bit s.hex p
        (λ s' p'. read_loop-Returns fuel k s' p') state good enough h
