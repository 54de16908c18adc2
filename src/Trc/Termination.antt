-- ===== src/Trc/Termination.antt =====
-- The loop of `readNextLine` ends: each round moves the cursor or the state machine on.
use j1939_framework.Base.{
  ℕ, ◌+◌, ◌≤◌, ◌≡◌, ◌⊎◌, inl, inr, refl, arith, Bool, true, false, List, [], ◌∷◌, ◌==◌, length,
  Bool-cases, if◌then◌else◌,
}
use j1939_framework.Trc.Stream.{Stream, Doubles, get, get_from, set_hex, skip_line}
use j1939_framework.Trc.Reader.{
  Fields, Round, again, leave, read_position, read_type, read_id, read_length, store_octet,
  read_data, settle, read_time, read_field,
}
use j1939_framework.Trc.Extract.{ahead}
use j1939_framework.Trc.Moves.{bad, Moves, extract_u32-Moves, extract_double-Moves}

get_parts :
    (rest : List ℕ) (eof fail hex : Bool) (k c : ℕ)
    → let s : Stream = record { rest = rest; eof_bit = eof; fail_bit = fail; hex = hex } in
      Moves k s → Moves k (get s c).0
unfolding get get_from
get_parts rest true fail hex k c m = ground (arith, m)
get_parts rest false true hex k c m = inl refl
get_parts [] false false hex k c m = inr (omega arith)
get_parts (d ∷ rest) false false hex k c (inl e) = inl e
get_parts (d ∷ rest) false false hex k c (inr h) = inr (omega arith)

get-Moves : (k c : ℕ) (s : Stream) → Moves k s → Moves k (get s c).0
get-Moves k c s = get_parts s.rest s.eof_bit s.fail_bit s.hex k c

pub length-skip_line : (text : List ℕ) → length (skip_line text).1 ≤ length text
unfolding skip_line
length-skip_line [] = omega arith
length-skip_line (c ∷ text) = ground (arith, length-skip_line text)

-- The rounds that are left for a state: the end needs one more than an error.
abbrev pub slack : ℕ → ℕ
slack state = if state == 7 then 1 else 2

module _ {D : Type 0} where
  -- A round that goes on uses up some of the `k` characters or `m` rounds; one that leaves is in error
  -- or does not move back.
  abbrev pub Progress : ℕ → ℕ → Round D → Type 0
  Progress k m (again s p) =
      (p.state ≤ 7) × (bad s ≡ false) × (length s.rest + slack p.state ≤ k + m)
  Progress k m (leave s p) = (p.state ≡ 7) ⊎ ((s.fail_bit ≡ false) × (length s.rest ≤ k))

  good_Progress :
      (k : ℕ) (s : Stream) (p : Fields D)
      → bad s ≡ false
      → length s.rest ≤ k
      → (p.state ≤ 5) ⊎ (p.state ≡ 7)
      → Progress k 2
          (if p.state == 7 then leave s p else again s (record p { state = p.state + 1 }))
  good_Progress k s p e moved state = elim (Bool-cases (p.state == 7)) [
    | inl error ↦ rw error (inl (ground arith))
    | inr fine ↦ rw fine (ground arith, e, ground arith)
  ]

  pub settle-Progress :
      (k : ℕ) (s : Stream) (p : Fields D)
      → Moves k s
      → (p.state ≤ 5) ⊎ (p.state ≡ 7)
      → Progress k 2 (settle (s, p))
  unfolding settle
  settle-Progress k s p m state = elim (Bool-cases (bad s)) [
    | inl e ↦ rw e (inl refl)
    | inr e ↦ rw e (elim m [
      | inl wrong ↦ absurd (ground arith)
      | inr moved ↦ good_Progress k s p e moved state
    ])
  ]

  pub settle-end :
      (hex : Bool) (c : ℕ) (rest : List ℕ) (p : Fields D)
      → (p.state ≡ 6) ⊎ (p.state ≡ 7)
      → Progress (length rest) (slack p.state) (settle (ahead hex (c ∷ rest), p))
  unfolding settle
  settle-end hex c rest p state = ground arith

module _ {D : Type 0} (doubles : Doubles D) where
  position-Moves :
      (hex : Bool) (c : ℕ) (rest : List ℕ) (p : Fields D)
      → Moves (length rest) (read_position (ahead hex (c ∷ rest)) c p).0
  unfolding read_position set_hex
  position-Moves hex c rest p =
      get-Moves (length rest) c _ (extract_u32-Moves false p.position c rest)

  time-Moves :
      (hex : Bool) (c : ℕ) (rest : List ℕ) (p : Fields D)
      → (doubles.read []).1 ≡ false
      → Moves (length rest) (read_time doubles (ahead hex (c ∷ rest)) p).0
  unfolding read_time set_hex
  time-Moves hex c rest p refuses = extract_double-Moves doubles false p.time_aux c rest refuses

  type-Moves :
      (hex : Bool) (c : ℕ) (rest : List ℕ) (p : Fields D)
      → Moves (length rest) (read_type (ahead hex (c ∷ rest)) c p).0
  unfolding read_type get get_from
  type-Moves hex c rest p =
      get-Moves (length rest) (get (ahead hex (c ∷ rest)) c).1 (get (ahead hex (c ∷ rest)) c).0
        (inr (omega arith))

  id-Moves :
      (hex : Bool) (c : ℕ) (rest : List ℕ) (p : Fields D)
      → Moves (length rest) (read_id (ahead hex (c ∷ rest)) p).0
  unfolding read_id set_hex
  id-Moves hex c rest p = extract_u32-Moves true p.id c rest

  length-Moves :
      (hex : Bool) (c : ℕ) (rest : List ℕ) (p : Fields D)
      → Moves (length rest) (read_length (ahead hex (c ∷ rest)) p).0
  unfolding read_length
  length-Moves hex c rest p = extract_u32-Moves hex p.size c rest

  data-Moves :
      (hex : Bool) (c : ℕ) (rest : List ℕ) (p : Fields D)
      → Moves (length rest) (read_data (ahead hex (c ∷ rest)) p).0
  unfolding read_data set_hex
  data-Moves hex c rest p = extract_u32-Moves true p.octet c rest

  -- What the `switch` may do: it is enough to know it of each field.
  by_field {ℓ} :
      (P : Stream × Fields D → Type ℓ) (s : Stream) (c : ℕ) (p : Fields D)
      → p.state ≤ 5
      → P (read_position s c p)
      → P (read_time doubles s p)
      → P (read_type s c p)
      → P (read_id s p)
      → P (read_length s p)
      → P (read_data s p)
      → P (read_field doubles s c p)
  unfolding read_field
  by_field P s c p h position time type id size bytes = elim (Bool-cases (p.state == 0)) [
    | inl e ↦ rw e position
    | inr e0 ↦ rw e0 (elim (Bool-cases (p.state == 1)) [
      | inl e ↦ rw e time
      | inr e1 ↦ rw e1 (elim (Bool-cases (p.state == 2)) [
        | inl e ↦ rw e type
        | inr e2 ↦ rw e2 (elim (Bool-cases (p.state == 3)) [
          | inl e ↦ rw e id
          | inr e3 ↦ rw e3 (elim (Bool-cases (p.state == 4)) [
            | inl e ↦ rw e size
            | inr e4 ↦ let last : (p.state == 5) ≡ true = ground arith in rw (e4, last) bytes
          ])
        ])
      ])
    ])
  ]

  pub field-Moves :
      (hex : Bool) (c : ℕ) (rest : List ℕ) (p : Fields D)
      → (doubles.read []).1 ≡ false
      → p.state ≤ 5
      → Moves (length rest) (read_field doubles (ahead hex (c ∷ rest)) c p).0
  field-Moves hex c rest p refuses state =
      by_field (λ r. Moves (length rest) r.0) (ahead hex (c ∷ rest)) c p state
        (position-Moves hex c rest p) (time-Moves hex c rest p refuses) (type-Moves hex c rest p)
        (id-Moves hex c rest p) (length-Moves hex c rest p) (data-Moves hex c rest p)

  pub field_state :
      (s : Stream) (c : ℕ) (p : Fields D)
      → p.state ≤ 5
      → let after = (read_field doubles s c p).1 in (after.state ≤ 5) ⊎ (after.state ≡ 7)
  unfolding read_position read_time read_type read_id read_length read_data store_octet
  field_state s c p state =
      by_field (λ r. (r.1.state ≤ 5) ⊎ (r.1.state ≡ 7)) s c p state (ground arith) (inl state)
        (inl state) (inl state) (inl state) (ground arith)

  pub no_field :
      (s : Stream) (c : ℕ) (p : Fields D) → 6 ≤ p.state → read_field doubles s c p ≡ (s, p)
  unfolding read_field
  no_field s c p h = ground arith
