-- ===== src/Trc/Reading.antt =====
-- `readNextLine` of TRCReader: it returns, and it reads what TRCWriter wrote.
use j1939_framework.Base.{
  ℕ, zero, suc, ◌+◌, ◌-◌, ◌^◌, ◌≤◌, ◌<◌, ◌≡◌, ◌∙◌, ◌⊎◌, inl, inr, refl, ap, arith, Bool, true,
  false, List, [], ◌∷◌, ◌++◌, Option, some, ◌==◌, u32, length, Bool-cases,
}
use j1939_framework.Can
use j1939_framework.Can.{CanFrame, new_frame}
use j1939_framework.TimeStamp.{TimeStamp}
use j1939_framework.Trc.Stream.{Stream, Doubles, get}
use j1939_framework.Trc.Reader.{Fields, Round, again, leave, round, go_on, read_loop, start_fields}
use j1939_framework.Trc.Files.{
  Reader, Flags, forget_last, line_fuel, finish, finish_read, read_next_line,
}
use j1939_framework.Trc.Writer.{write_line}
use j1939_framework.Trc.Extract.{ahead}
use j1939_framework.Trc.Moves.{bad}
use j1939_framework.Trc.Loops.{Ended, Returns, read_loop-Returns}
use j1939_framework.Trc.Tokens.{Runs}
use j1939_framework.Trc.Lines.{end_fields, Writable, frame_of, run_line, run_bare_line}

new_frame_lem :
    (extended : Bool) (id : ℕ) (bytes : List ℕ)
    → length bytes ≤ 8
    → new_frame extended id bytes ≡ record { extended_format = extended; id = id; bytes = bytes }
unfolding new_frame Can.set_data
new_frame_lem extended id bytes h = ground arith

module _ {D : Type 0} where
  finish_error :
      (r : Reader) (s : Stream) (p : Fields D) → p.state ≡ 7 → (finish r s p).1.error ≡ true
  unfolding finish
  finish_error r s p e = ground arith

  finish-stream : (r : Reader) (s : Stream) (p : Fields D) → (finish r s p).0.stream ≡ s
  unfolding finish
  finish-stream r s p = ground arith

  finish_octets :
      (r : Reader) (s : Stream) (p : Fields D)
      → p.state ≡ 6
      → 0 < p.position
      → p.position < 2 ^ 32
      → length p.bytes ≡ p.size
      → length p.bytes ≤ 8
      → finish (forget_last r) s p ≡ (
        record r {
          stream = s;
          current_pos = p.position - 1;
          last_time = p.time;
          last_frame = record { extended_format = true; id = p.id; bytes = p.bytes };
        },
        record { error = false; empty = false },
      )
  unfolding finish forget_last
  finish_octets r s p state pos small size enough =
      let wrapped : u32 (p.position + 0xFFFFFFFF) ≡ p.position - 1 = omega arith in
      let at_end : (p.state == 6) ≡ true = ground arith in
      let not_start : (p.state == 0) ≡ false = ground arith in
      let whole : (length p.bytes == p.size) ≡ true = ground arith in
      rw (at_end, not_start, whole, wrapped, new_frame_lem true p.id p.bytes enough) refl

module _ {D : Type 0} (doubles : Doubles D) where
  same_go :
      (n m : ℕ) (r : Round D) (x y : Stream × Fields D)
      → ((s : Stream) (p : Fields D)
          → read_loop doubles n s p ≡ some x
          → read_loop doubles m s p ≡ some y
          → x ≡ y)
      → go_on (read_loop doubles n) r ≡ some x
      → go_on (read_loop doubles m) r ≡ some y
      → x ≡ y
  unfolding go_on
  same_go n m (again s p) x y ih e f = ih s p e f
  same_go n m (leave s p) x y ih e f = cc (e, f)

  loop_step :
      (n : ℕ) (s : Stream) (p : Fields D)
      → read_loop doubles (suc n) s p
        ≡ (elim (get s 0).0.fail_bit as (λ b. Option (Stream × Fields D)) [
          | true ↦ some ((get s 0).0, p)
          | false ↦ go_on (read_loop doubles n) (round doubles (get s 0).0 (get s 0).1 p)
        ])
  unfolding read_loop
  loop_step n s p = refl

  -- The fuel does not change what the loop returns.
  read_loop_same :
      (n m : ℕ) (s : Stream) (p : Fields D) (x y : Stream × Fields D)
      → read_loop doubles n s p ≡ some x
      → read_loop doubles m s p ≡ some y
      → x ≡ y
  read_loop_same zero m s p x y e f = absurd (unfold read_loop in cc e)
  read_loop_same (suc n) zero s p x y e f = absurd (unfold read_loop in cc f)
  read_loop_same (suc n) (suc m) s p x y e f =
      let e' = rw loop_step at e in
      let f' = rw loop_step at f in
      elim (Bool-cases (get s 0).0.fail_bit) [
        | inl failed ↦ cc (rw failed at e', rw failed at f')
        | inr got ↦
            same_go n m _ x y (λ s' p'. read_loop_same n m s' p' x y) (rw got at e') (rw got at f')
      ]

  module _ (refuses : (doubles.read []).1 ≡ false) where
    pub fueled :
        (s : Stream)
        → bad s ≡ false
        → Returns doubles refuses
            (length s.rest)
            (read_loop doubles (line_fuel s) s (start_fields doubles))
    unfolding start_fields
    fueled s good =
        read_loop-Returns doubles refuses (line_fuel s) (length s.rest) s (start_fields doubles)
          (omega arith) good (omega arith) (omega arith)

    -- What the loop returns with some fuel it returns with its own.
    own_fuel :
        (s : Stream) (x : Stream × Fields D)
        → bad s ≡ false
        → Runs doubles s (start_fields doubles) x
        → read_loop doubles (line_fuel s) s (start_fields doubles) ≡ some x
    own_fuel s x good (n, runs) =
        let (s', p', e, ended) = fueled s good in
        e ∙ ap some (read_loop_same (line_fuel s) n s (start_fields doubles) (s', p') x e runs)

    -- How a call that returns leaves the stream: unless it reports an error, the file has ended or the
    -- cursor has moved.
    abbrev pub MovesOn : Reader → Reader → Flags → Type 0
    MovesOn r r' flags =
        (flags.error ≡ true)
        ⊎ ((r'.stream.eof_bit ≡ true)
            ⊎ ((r'.stream.fail_bit ≡ false) × (suc (length r'.stream.rest) ≤ length r.stream.rest)))

    finish-MovesOn :
        (r r0 : Reader) (s : Stream) (p : Fields D)
        → Ended doubles refuses (length r.stream.rest) s p
        → MovesOn r (finish r0 s p).0 (finish r0 s p).1
    finish-MovesOn r r0 s p (inl error) = inl (finish_error r0 s p error)
    finish-MovesOn r r0 s p (inr on) = inr (rw (finish-stream r0 s p) on)

    -- `readNextLine` returns on every stream that is not in error short of its end; when it reports no
    -- error, the end of the file has been met or fewer characters are left.
    pub read_next_line-returns :
        (r : Reader)
        → bad r.stream ≡ false
        → (r' : Reader) × (flags : Flags) × (read_next_line doubles r ≡ some (r', flags))
          × MovesOn r r' flags
    unfolding read_next_line
    read_next_line-returns r good =
        let (s, p, e, ended) = fueled r.stream good in
        (
          (finish (forget_last r) s p).0,
          (finish (forget_last r) s p).1,
          (unfold finish_read in rw e refl),
          finish-MovesOn r (forget_last r) s p ended,
        )

    abbrev pub at : Reader → Bool → List ℕ → Reader
    at r hex text = record r { stream = ahead hex text }

    pub read_as :
        (r : Reader) (hex : Bool) (text : List ℕ) (s : Stream) (p : Fields D)
        → Runs doubles (ahead hex text) (start_fields doubles) (s, p)
        → read_next_line doubles (at r hex text) ≡ some (finish (forget_last (at r hex text)) s p)
    unfolding read_next_line finish_read
    read_as r hex text s p runs = rw (own_fuel (ahead hex text) (s, p) refl runs) refl

    -- What `readNextLine` leaves behind a line that was written.
    abbrev pub after_line : Reader → List ℕ → ℕ → D → CanFrame → Reader
    after_line r rest counter value frame = record r {
      stream = ahead true rest;
      current_pos = counter - 1;
      last_time = doubles.to_u64 (doubles.mul value (doubles.of_u32 1000));
      last_frame = frame_of doubles true frame.id frame.bytes;
    }

    line_octets :
        (r : Reader) (hex extended : Bool) (counter id : ℕ) (bytes : List ℕ) (value : D)
        (t : TimeStamp) (rest : List ℕ)
        → let frame = frame_of doubles extended id bytes in
          0 < counter
          → counter < 2 ^ 32
          → 0 < length bytes
          → Writable doubles frame t value
          → read_next_line doubles (at r hex (write_line doubles counter frame t ++ rest))
            ≡ some (after_line r rest counter value frame, record { error = false; empty = false })
    line_octets r hex extended counter id [] value t rest pos small some_octet w =
        absurd (omega arith)
    line_octets r hex extended counter id (n ∷ ns) value t rest pos small some_octet w =
        read_as r hex _ _ _ (run_line doubles hex extended counter id n ns value t rest small w)
        ∙ ap some (
            finish_octets
              (at r hex
                (write_line doubles counter (frame_of doubles extended id (n ∷ ns)) t ++ rest))
              (ahead true rest)
              (end_fields doubles counter value (frame_of doubles extended id (n ∷ ns)) n ns) refl
              pos small refl w.size_range)

    -- A line that the writer wrote for a frame of one to eight octets and an identifier of 32 bits,
    -- with a counter from 1 to 2^32 - 1 and a time stamp whose text is a decimal that is read as a
    -- number, is read back from a good stream, whatever follows it: `readNextLine` reports no
    -- error, and leaves the octets and the identifier in a frame of the extended format, the time
    -- of that number, the position before the counter, and the stream behind the line. The empty
    -- text is not read as a number.
    pub read_next_line-write_line :
        (r : Reader) (hex : Bool) (counter : ℕ) (frame : CanFrame) (value : D) (t : TimeStamp)
        (rest : List ℕ)
        → 0 < counter
        → counter < 2 ^ 32
        → 0 < length frame.bytes
        → Writable doubles frame t value
        → read_next_line doubles (at r hex (write_line doubles counter frame t ++ rest))
          ≡ some (after_line r rest counter value frame, record { error = false; empty = false })
    read_next_line-write_line r hex counter frame =
        line_octets r hex frame.extended_format counter frame.id frame.bytes

    bare_octets :
        (r : Reader) (hex extended : Bool) (counter id : ℕ) (bytes : List ℕ) (value : D)
        (t : TimeStamp) (rest : List ℕ)
        → let frame = frame_of doubles extended id bytes in
          counter < 2 ^ 32
          → bytes ≡ []
          → Writable doubles frame t value
          → read_next_line doubles (at r hex (write_line doubles counter frame t ++ rest))
            ≡ some (
              record (forget_last r) { stream = ahead true rest },
              record { error = true; empty = false },
            )
    unfolding finish forget_last start_fields
    bare_octets r hex extended counter id [] value t rest small none_left w =
        read_as r hex _ _ _ (run_bare_line doubles hex extended counter id value t rest small w)
    bare_octets r hex extended counter id (n ∷ ns) value t rest small none_left w =
        absurd (cc none_left)

    -- A line that the writer wrote for a frame with no octets is read as an error: the state machine
    -- still waits for the first one.
    pub read_next_line-write_bare :
        (r : Reader) (hex : Bool) (counter : ℕ) (frame : CanFrame) (value : D) (t : TimeStamp)
        (rest : List ℕ)
        → counter < 2 ^ 32
        → frame.bytes ≡ []
        → Writable doubles frame t value
        → read_next_line doubles (at r hex (write_line doubles counter frame t ++ rest))
          ≡ some (
            record (forget_last r) { stream = ahead true rest },
            record { error = true; empty = false },
          )
    read_next_line-write_bare r hex counter frame =
        bare_octets r hex frame.extended_format counter frame.id frame.bytes
