-- ===== src/Trc/Tokens.antt =====
-- How the loop of `readNextLine` goes over each field of a written line.
use mathlib.Core.List.{append_assoc}
use j1939_framework.Base.{
  ℕ, zero, suc, ◌+◌, ◌-◌, ◌^◌, ◌<◌, ◌≡◌, ◌≢◌, ◌∙◌, refl, ap, arith, Bool, true, false, List, [],
  ◌∷◌, ◌++◌, some, ◌==◌, length, replicate,
}
use j1939_framework.Trc.Stream.{Stream, Doubles, set_hex, get}
use j1939_framework.Trc.Reader.{
  Fields, again, is_blank, read_position, read_type, read_id, read_length, settle, read_time,
  read_field, round, go_on, read_loop,
}
use j1939_framework.Trc.Digits.{IsDigit, Shows}
use j1939_framework.Trc.Writer.{pad, rx}
use j1939_framework.Trc.Extract.{
  ahead, seek_back-ahead, IsDigit-bounds, not_sep, extract_u32-shown, IsDecimal,
  extract_double-decimal,
}

settle-ahead :
    {D : Type 0} (hex : Bool) (rest : List ℕ) (p : Fields D)
    → (p.state == 7) ≡ false
    → settle (ahead hex rest, p) ≡ again (ahead hex rest) (record p { state = p.state + 1 })
unfolding settle
settle-ahead hex rest p h = rw h

nil_not_decimal : IsDecimal [] → ⊥
nil_not_decimal ([], tenth, shape, not_nil, all, is) = not_nil refl
nil_not_decimal (d ∷ ds, tenth, shape, not_nil, all, is) = cc

first-IsDigit : (c : ℕ) (cs : List ℕ) → IsDecimal (c ∷ cs) → IsDigit false c
first-IsDigit c cs ([], tenth, shape, not_nil, all, is) = absurd (not_nil refl)
first-IsDigit c cs (d ∷ ds, tenth, shape, not_nil, all, is) = cc (shape, all.0)

module _ {D : Type 0} (doubles : Doubles D) where
  -- The loop ends with this result, given enough fuel.
  abbrev pub Runs : Stream → Fields D → Stream × Fields D → Type 0
  Runs s p result = (n : ℕ) × (read_loop doubles n s p ≡ some result)

  abbrev pub at_time : Fields D → D → ℕ → Fields D
  at_time p value state =
      let millis = doubles.mul value (doubles.of_u32 1000) in
      record p { time_aux = millis; time = doubles.to_u64 millis; state = state }

  pub run_round :
      (hex : Bool) (c : ℕ) (rest : List ℕ) (p p' : Fields D) (s' : Stream)
      (result : Stream × Fields D)
      → round doubles (ahead hex rest) c p ≡ again s' p'
      → Runs s' p' result
      → Runs (ahead hex (c ∷ rest)) p result
  unfolding read_loop go_on get
  run_round hex c rest p p' s' result e (n, h) = (suc n, rw e h)

  round-blank :
      (hex : Bool) (rest : List ℕ) (p : Fields D)
      → round doubles (ahead hex rest) b' ' p ≡ again (ahead hex rest) p
  unfolding round is_blank
  round-blank hex rest p = refl

  pub run_blanks :
      (n : ℕ) (hex : Bool) (rest : List ℕ) (p : Fields D) (result : Stream × Fields D)
      → Runs (ahead hex rest) p result
      → Runs (ahead hex (replicate n b' ' ++ rest)) p result
  run_blanks zero hex rest p result r = r
  run_blanks (suc n) hex rest p result r =
      run_round hex b' ' _ p p _ result (round-blank hex _ p) (run_blanks n hex rest p result r)

  pub run_pad :
      (width : ℕ) (hex : Bool) (text rest : List ℕ) (p : Fields D) (result : Stream × Fields D)
      → Runs (ahead hex (text ++ rest)) p result
      → Runs (ahead hex (pad width b' ' text ++ rest)) p result
  unfolding pad
  run_pad width hex text rest p result r =
      rw (append_assoc (replicate (width - length text) b' ') text rest)
        (run_blanks (width - length text) hex (text ++ rest) p result r)

  -- A character that starts a field.
  round-field :
      (hex : Bool) (c : ℕ) (rest : List ℕ) (p : Fields D)
      → 47 < c
      → c ≢ 59
      → round doubles (ahead hex rest) c p ≡ settle (read_field doubles (ahead hex (c ∷ rest)) c p)
  unfolding round is_blank
  round-field hex c rest p h k = ground (arith, seek_back-ahead hex c rest)

  pub run_field :
      (hex hex' : Bool) (c : ℕ) (rest rest' : List ℕ) (p p' : Fields D) (result : Stream × Fields D)
      → 47 < c
      → c ≢ 59
      → read_field doubles (ahead hex (c ∷ rest)) c p ≡ (ahead hex' rest', p')
      → (p'.state == 7) ≡ false
      → Runs (ahead hex' rest') (record p' { state = p'.state + 1 }) result
      → Runs (ahead hex (c ∷ rest)) p result
  run_field hex hex' c rest rest' p p' result h k e state r =
      run_round hex c rest p _ _ result
        (round-field hex c rest p h k ∙ (ap settle e ∙ settle-ahead hex' rest' p' state)) r

  read_field-position :
      (hex : Bool) (n d : ℕ) (text rest : List ℕ) (p : Fields D)
      → n < 2 ^ 32
      → Shows false n text
      → read_field doubles (ahead hex (text ++ b')' ∷ rest)) d (record p { state = 0 })
        ≡ (ahead false rest, record p { position = n; state = 0 })
  unfolding read_field read_position set_hex
  read_field-position hex n d text rest p small shows =
      rw (extract_u32-shown false n b')' p.position text rest small (omega arith) shows) refl

  pub run_position :
      (hex : Bool) (n : ℕ) (text rest : List ℕ) (p : Fields D) (result : Stream × Fields D)
      → n < 2 ^ 32
      → Shows false n text
      → Runs (ahead false rest) (record p { position = n; state = 1 }) result
      → Runs (ahead hex ((text ++ b')' ∷ []) ++ rest)) (record p { state = 0 }) result
  run_position hex n [] rest p result small shows r = absurd (shows.1.1 refl)
  run_position hex n (d ∷ ds) rest p result small shows r = rw (append_assoc ds (b')' ∷ []) rest) (
      run_field hex false d _ rest (record p { state = 0 }) (record p { position = n; state = 0 })
        result (IsDigit-bounds false d shows.1.0.0).0 (not_sep false d shows.1.0.0).0
        (read_field-position hex n d (d ∷ ds) rest p small shows) refl r)

  read_field-time :
      (hex : Bool) (d : ℕ) (value : D) (text rest : List ℕ) (p : Fields D)
      → IsDecimal text
      → doubles.read text ≡ (value, true)
      → read_field doubles (ahead hex (text ++ b' ' ∷ rest)) d (record p { state = 1 })
        ≡ (ahead false (b' ' ∷ rest), at_time p value 1)
  unfolding read_field read_time set_hex
  read_field-time hex d value text rest p decimal reads =
      rw (extract_double-decimal doubles false p.time_aux value text rest decimal reads) refl

  pub run_time :
      (hex : Bool) (value : D) (text rest : List ℕ) (p : Fields D) (result : Stream × Fields D)
      → IsDecimal text
      → doubles.read text ≡ (value, true)
      → Runs (ahead false (b' ' ∷ rest)) (at_time p value 2) result
      → Runs (ahead hex (text ++ b' ' ∷ rest)) (record p { state = 1 }) result
  run_time hex value [] rest p result decimal reads r = absurd (nil_not_decimal decimal)
  run_time hex value (d ∷ ds) rest p result decimal reads r =
      let is = first-IsDigit d ds decimal in
      run_field hex false d _ (b' ' ∷ rest) (record p { state = 1 }) (at_time p value 1) result
        (IsDigit-bounds false d is).0 (not_sep false d is).0
        (read_field-time hex d value (d ∷ ds) rest p decimal reads) refl r

  read_field-type :
      (hex : Bool) (rest : List ℕ) (p : Fields D)
      → read_field doubles (ahead hex (rx ++ rest)) b'R' (record p { state = 2 })
        ≡ (ahead hex rest, record p { type = p.type ++ rx; state = 2 })
  unfolding read_field read_type get
  read_field-type hex rest p = refl

  pub run_type :
      (hex : Bool) (rest : List ℕ) (p : Fields D) (result : Stream × Fields D)
      → Runs (ahead hex rest) (record p { type = p.type ++ rx; state = 3 }) result
      → Runs (ahead hex (rx ++ rest)) (record p { state = 2 }) result
  run_type hex rest p result r =
      run_field hex hex b'R' _ rest (record p { state = 2 })
        (record p { type = p.type ++ rx; state = 2 }) result (omega arith) (omega arith)
        (read_field-type hex rest p) refl r

  read_field-id :
      (hex : Bool) (n d : ℕ) (text rest : List ℕ) (p : Fields D)
      → n < 2 ^ 32
      → Shows true n text
      → read_field doubles (ahead hex (text ++ b' ' ∷ rest)) d (record p { state = 3 })
        ≡ (ahead true (b' ' ∷ rest), record p { id = n; state = 3 })
  unfolding read_field read_id set_hex
  read_field-id hex n d text rest p small shows =
      rw (extract_u32-shown true n b' ' p.id text rest small (omega arith) shows) refl

  pub run_id :
      (hex : Bool) (n : ℕ) (text rest : List ℕ) (p : Fields D) (result : Stream × Fields D)
      → n < 2 ^ 32
      → Shows true n text
      → Runs (ahead true (b' ' ∷ rest)) (record p { id = n; state = 4 }) result
      → Runs (ahead hex (text ++ b' ' ∷ rest)) (record p { state = 3 }) result
  run_id hex n [] rest p result small shows r = absurd (shows.1.1 refl)
  run_id hex n (d ∷ ds) rest p result small shows r =
      run_field hex true d _ (b' ' ∷ rest) (record p { state = 3 }) (record p { id = n; state = 3 })
        result (IsDigit-bounds true d shows.1.0.0).0 (not_sep true d shows.1.0.0).0
        (read_field-id hex n d (d ∷ ds) rest p small shows) refl r

  read_field-length :
      (n d : ℕ) (text rest : List ℕ) (p : Fields D)
      → n < 2 ^ 32
      → Shows true n text
      → read_field doubles (ahead true (text ++ b' ' ∷ rest)) d (record p { state = 4 })
        ≡ (ahead true (b' ' ∷ rest), record p { size = n; state = 4 })
  unfolding read_field read_length
  read_field-length n d text rest p small shows =
      rw (extract_u32-shown true n b' ' p.size text rest small (omega arith) shows) refl

  -- The length is read in base 16, which the identifier has set.
  pub run_length :
      (n : ℕ) (text rest : List ℕ) (p : Fields D) (result : Stream × Fields D)
      → n < 2 ^ 32
      → Shows true n text
      → Runs (ahead true (b' ' ∷ rest)) (record p { size = n; state = 5 }) result
      → Runs (ahead true (text ++ b' ' ∷ rest)) (record p { state = 4 }) result
  run_length n [] rest p result small shows r = absurd (shows.1.1 refl)
  run_length n (d ∷ ds) rest p result small shows r =
      run_field true true d _ (b' ' ∷ rest) (record p { state = 4 })
        (record p { size = n; state = 4 }) result (IsDigit-bounds true d shows.1.0.0).0
        (not_sep true d shows.1.0.0).0 (read_field-length n d (d ∷ ds) rest p small shows) refl r
