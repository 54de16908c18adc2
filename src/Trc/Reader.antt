-- ===== src/Trc/Reader.antt =====
-- TRCReader (CAN/TRCReader.cpp): the state machine that reads a line, and the file around it.
use j1939_framework.Base.{
  ℕ, zero, suc, ◌+◌, ◌-◌, Bool, true, false, not, ◌&&◌, ◌||◌, List, [], ◌∷◌, ◌++◌, Option, none,
  some, ltb, leb, ◌==◌, length, if◌then◌else◌,
}
use j1939_framework.Trc.Stream.{
  Stream, Doubles, get, ignore_line, seek_back, clear_bits, set_hex, extract_u32, extract_double,
}

-- PARSE_STATE_GET_...
abbrev pub get_position : ℕ
get_position = 0

abbrev pub get_time : ℕ
get_time = 1

abbrev pub get_type : ℕ
get_type = 2

abbrev pub get_id : ℕ
get_id = 3

abbrev pub get_length : ℕ
get_length = 4

abbrev pub get_data : ℕ
get_data = 5

abbrev pub get_end : ℕ
get_end = 6

abbrev pub get_error : ℕ
get_error = 7

-- The variables of `readNextLine`. Those that C++ leaves without a value start from 0.
pub record Fields (D : Type 0) : Type 0 where
  pub state : ℕ
  pub position : ℕ
  pub time_aux : D
  pub time : ℕ
  pub type : List ℕ
  pub id : ℕ
  pub size : ℕ
  pub octet : ℕ
  pub bytes : List ℕ

-- A round of the loop goes on, or leaves it.
pub data Round (D : Type 0) : Type 0 where
  again leave : Stream → Fields D → Round D

unfoldable pub is_blank : ℕ → Bool
is_blank c = c == b' ' || c == b'\t'

module _ {D : Type 0} where
  unfoldable pub read_position : Stream → ℕ → Fields D → Stream × Fields D
  unfolding set_hex extract_u32 get
  read_position s c p =
      let (s', position) = extract_u32 (set_hex false s) p.position in
      let (s'', c') = get s' c in
      (s'', record p { position = position; state = if c' == b')' then p.state else get_error })

  unfoldable pub read_type : Stream → ℕ → Fields D → Stream × Fields D
  unfolding get
  read_type s c p =
      let (s', first) = get s c in
      let (s'', second) = get s' first in (s'', record p { type = p.type ++ (first ∷ second ∷ []) })

  unfoldable pub read_id : Stream → Fields D → Stream × Fields D
  unfolding set_hex extract_u32
  read_id s p = let (s', id) = extract_u32 (set_hex true s) p.id in (s', record p { id = id })

  -- in the base that the last manipulator set
  unfoldable pub read_length : Stream → Fields D → Stream × Fields D
  unfolding extract_u32
  read_length s p = let (s', size) = extract_u32 s p.size in (s', record p { size = size })

  unfoldable pub store_octet : ℕ → Fields D → Fields D
  store_octet octet p =
      let bytes = p.bytes ++ (octet ∷ []) in
      if leb octet 0xFF
      then record p {
        octet = octet;
        bytes = bytes;
        state = if ltb (length bytes) p.size then p.state - 1 else p.state;
      }
      else record p { octet = octet; state = get_error }

  unfoldable pub read_data : Stream → Fields D → Stream × Fields D
  unfolding set_hex extract_u32 store_octet
  read_data s p =
      let (s', octet) = extract_u32 (set_hex true s) p.octet in (s', store_octet octet p)

  -- what follows the `switch`
  unfoldable pub settle : Stream × Fields D → Round D
  unfolding ignore_line clear_bits get
  settle (s, p) =
      if s.fail_bit && not s.eof_bit
      then leave (get (ignore_line (clear_bits s)) 0).0 (record p { state = get_error })
      else if p.state == get_error
      then leave s p
      else again s (record p { state = p.state + 1 })

  unfoldable pub after_return : Stream × ℕ → Fields D → Round D
  unfolding settle seek_back
  after_return (s, c) p =
      if c == b'\n' then leave s p else settle (seek_back c s, record p { state = get_error })

  unfoldable pub go_on :
      (Stream → Fields D → Option (Stream × Fields D)) → Round D → Option (Stream × Fields D)
  go_on loop (leave s p) = some (s, p)
  go_on loop (again s p) = loop s p

module _ {D : Type 0} (doubles : Doubles D) where
  unfoldable pub read_time : Stream → Fields D → Stream × Fields D
  unfolding set_hex extract_double
  read_time s p =
      let (s', time_aux) = extract_double doubles (set_hex false s) p.time_aux in
      let millis = doubles.mul time_aux (doubles.of_u32 1000) in
      (s', record p { time_aux = millis; time = doubles.to_u64 millis })

  -- the `switch`
  unfoldable pub read_field : Stream → ℕ → Fields D → Stream × Fields D
  unfolding read_position read_time read_type read_id read_length read_data
  read_field s c p =
      if p.state == get_position
      then read_position s c p
      else if p.state == get_time
      then read_time s p
      else if p.state == get_type
      then read_type s c p
      else if p.state == get_id
      then read_id s p
      else if p.state == get_length
      then read_length s p
      else if p.state == get_data
      then read_data s p
      else (s, p)

  -- a round of the loop, for a character that was got
  unfoldable pub round : Stream → ℕ → Fields D → Round D
  unfolding is_blank read_field settle after_return seek_back ignore_line get
  round s c p =
      if is_blank c
      then again s p
      else if c == b';'
      then again (ignore_line s) p
      else if c == b'\n'
      then leave s p
      else if c == b'\r'
      then after_return (get s c) p
      else settle (read_field (seek_back c s) c p)

  -- The loop of `readNextLine`; `none` is too little fuel.
  unfoldable pub read_loop : ℕ → Stream → Fields D → Option (Stream × Fields D)
  unfolding round go_on get
  read_loop zero s p = none
  read_loop (suc fuel) s p =
      let (s', c) = get s 0 in
      elim s'.fail_bit [ true ↦ some (s', p) | false ↦ go_on (read_loop fuel) (round s' c p) ]

  unfoldable pub start_fields : Fields D
  start_fields = record {
    state = get_position;
    position = 0;
    time_aux = doubles.of_u32 0;
    time = 0;
    type = [];
    id = 0;
    size = 0;
    octet = 0;
    bytes = [];
  }
