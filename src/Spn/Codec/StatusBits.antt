-- ===== src/Spn/Codec/StatusBits.antt =====
-- The bits of a status parameter inside one byte.
use j1939_framework.Base.{
  ℕ, ◌+◌, ◌*◌, ◌-◌, ◌/◌, ◌%◌, ◌^◌, ◌≤◌, ◌<◌, ◌≡◌, ◌∙◌, refl, arith, bit_and, bit_or, Bool, true,
  false, String, some, ◌&&◌, ◌||◌, List, ◌∷◌, ◌==◌, ==_iff, all_below, all_below_sound, leb,
  byte_at, bit_and_mask, bit_and-shl, bit_or-shl, bit_or_high, ltb,
}
use native.Mathlib.Nat.{
  one-le-pow, mul-add-div_right, mul-add-mod_self_right, mod-eq_of_lt, div-eq_of_lt,
}
use j1939_framework.Common.{ok}
use j1939_framework.Spn.{Spec, Status, construct_status}
use j1939_framework.Spn.Codec.{decode_status, encode_status, set_status, bad_format}

-- The facts about a place `o` and a width `s` inside a byte, each checked at every such pair.
clear_table :
    all_below 9 (λ o. all_below 9 (λ s.
      ltb 8 (o + s)
      || all_below 256 (λ b.
        bit_and b (255 - (2 ^ s - 1) * 2 ^ o) == b / 2 ^ o / 2 ^ s * 2 ^ s * 2 ^ o + b % 2 ^ o)))
    ≡ true
unfolding all_below
clear_table = refl

mask_table :
    all_below 9 (λ o. all_below 9 (λ s.
      ltb 8 (o + s)
      || (255 / 2 ^ (8 - s) == 2 ^ s - 1)
        && ((2 ^ s - 1) * 2 ^ o % 256 == (2 ^ s - 1) * 2 ^ o)
        && leb (2 ^ s * 2 ^ o) 256))
    ≡ true
unfolding all_below
mask_table = refl

or_right : (a b : Bool) → (a || b) ≡ true → a ≡ false → b ≡ true
or_right a b h e = ground arith

module _ (o s : ℕ) (inside : o + s ≤ 8) where
  clear_bits :
      (b : ℕ)
      → b < 256
      → bit_and b (255 - (2 ^ s - 1) * 2 ^ o) ≡ b / 2 ^ o / 2 ^ s * 2 ^ s * 2 ^ o + b % 2 ^ o
  clear_bits b h =
      let at_o = all_below_sound 9 _ o (omega arith) clear_table in
      let at_s = all_below_sound 9 _ s (omega arith) at_o in
      let kept = or_right (ltb 8 (o + s)) _ at_s (ground arith) in
      (==_iff _ _).0 (all_below_sound 256 _ b h kept)

  mask_facts :
      (255 / 2 ^ (8 - s) ≡ 2 ^ s - 1)
      × ((2 ^ s - 1) * 2 ^ o % 256 ≡ (2 ^ s - 1) * 2 ^ o)
      × (2 ^ s * 2 ^ o ≤ 256)
  mask_facts =
      let at_o = all_below_sound 9 _ o (omega arith) mask_table in
      let at_s = all_below_sound 9 _ s (omega arith) at_o in ground (arith, at_s)

  field_fits : (v : ℕ) → v < 2 ^ s → v * 2 ^ o < 256
  field_fits v h = grind (arith, mask_facts)

  -- The byte that `encode_status` stores.
  stored :
      (b v : ℕ)
      → b < 256
      → v < 2 ^ s
      → bit_or (b / 2 ^ o / 2 ^ s * 2 ^ s * 2 ^ o + b % 2 ^ o) (v * 2 ^ o)
        ≡ (b / 2 ^ o / 2 ^ s * 2 ^ s + v) * 2 ^ o + b % 2 ^ o
  stored b v hb hv = ground (
    arith,
    one-le-pow o 2,
    bit_or-shl o (b / 2 ^ o / 2 ^ s * 2 ^ s) v (b % 2 ^ o),
    bit_or_high s (b / 2 ^ o / 2 ^ s) v hv,
  )

-- A number put together from two parts at the bit `k`.
split_at : (k q r : ℕ) → r < 2 ^ k → ((q * 2 ^ k + r) / 2 ^ k ≡ q) × ((q * 2 ^ k + r) % 2 ^ k ≡ r)
split_at k q r h =
    let pos : 0 < 2 ^ k = one-le-pow k 2 (omega arith) in
    (
      mul-add-div_right pos q r ∙ rw (div-eq_of_lt h) (omega arith),
      mul-add-mod_self_right q (2 ^ k) r ∙ mod-eq_of_lt h,
    )

-- The bits lie inside one byte, and the value fits them.
pub record IsValid (t : Status) : Type 0 where
  pub has_bits : 0 < t.bit_size
  pub inside : t.bit_offset + t.bit_size ≤ 8
  pub value_fits : t.value < 2 ^ t.bit_size

format_fine : (t : Status) → IsValid t → bad_format t ≡ false
unfolding bad_format
format_fine t v = ground arith

decode_status_lem :
    (t : Status) (buf : List ℕ)
    → 0 < t.bit_size
    → t.bit_offset + t.bit_size ≤ 8
    → decode_status t buf
      ≡ ok (record t { value = byte_at buf 0 / 2 ^ t.bit_offset % 2 ^ t.bit_size })
unfolding decode_status
decode_status_lem t buf has inside =
    let facts = mask_facts t.bit_offset t.bit_size inside in
    ground (arith, facts.0, bit_and_mask t.bit_size (byte_at buf 0 / 2 ^ t.bit_offset))

encode_status_lem :
    (t : Status) (b : ℕ) (buf : List ℕ)
    → IsValid t
    → b < 256
    → encode_status t (b ∷ buf)
      ≡ ok (
          ((b / 2 ^ t.bit_offset / 2 ^ t.bit_size * 2 ^ t.bit_size + t.value) * 2 ^ t.bit_offset
            + b % 2 ^ t.bit_offset)
          ∷ buf)
unfolding encode_status
encode_status_lem t b buf v h =
    let o = t.bit_offset in
    let s = t.bit_size in
    let facts = mask_facts o s v.inside in
    let fits : t.value * 2 ^ o < 256 = field_fits o s v.inside t.value v.value_fits in
    ground (
      arith,
      facts,
      fits,
      v.inside,
      v.value_fits,
      clear_bits o s v.inside b h,
      bit_and-shl o (t.value * 2 ^ o) (2 ^ s - 1),
      split_at o t.value 0,
      bit_and_mask s t.value,
      mod-eq_of_lt {n = t.value} {m = 2 ^ s},
      stored o s v.inside b t.value h v.value_fits,
    )

-- Writing a valid status into the first byte of a buffer keeps all the other bits of that byte and the
-- bytes behind it, and any status of the same bits reads the value back.
pub decode_status-encode_status :
    (t old : Status) (b : ℕ) (buf : List ℕ)
    → IsValid t
    → b < 256
    → old.bit_offset ≡ t.bit_offset
    → old.bit_size ≡ t.bit_size
    → (c : ℕ) × (encode_status t (b ∷ buf) ≡ ok (c ∷ buf))
      × (decode_status old (c ∷ buf) ≡ ok (record old { value = t.value }))
      × (c % 2 ^ t.bit_offset ≡ b % 2 ^ t.bit_offset)
      × (c / 2 ^ t.bit_offset / 2 ^ t.bit_size ≡ b / 2 ^ t.bit_offset / 2 ^ t.bit_size)
decode_status-encode_status t old b buf v h same_offset same_size =
    let o = t.bit_offset in
    let s = t.bit_size in
    let high = b / 2 ^ o / 2 ^ s in
    let low : b % 2 ^ o < 2 ^ o = ground (arith, one-le-pow o 2) in
    let c : ℕ = (high * 2 ^ s + t.value) * 2 ^ o + b % 2 ^ o in
    let outer = split_at o (high * 2 ^ s + t.value) (b % 2 ^ o) low in
    let inner = split_at s high t.value v.value_fits in
    (
      c,
      encode_status_lem t b buf v h,
      ground (
        arith,
        outer,
        inner,
        v.has_bits,
        v.inside,
        same_offset,
        same_size,
        decode_status_lem old (c ∷ buf),
      ),
      outer.1,
      rw (outer.0) inner.0,
    )

-- A constructed status is valid, and so is what `setValue` and `decode` leave; so the refusal of
-- a value that is too big is never met.
pub construct_status-IsValid :
    (spec : Spec) (o s : ℕ) (ds : List (ℕ × String)) (t : Status)
    → construct_status spec o s ds ≡ some t
    → IsValid t
unfolding construct_status
construct_status-IsValid spec o s ds t e =
    let facts = mask_facts o s in ground (arith, facts, one-le-pow s 2)

pub set_status-IsValid : (t : Status) (x : ℕ) → IsValid t → IsValid (set_status t x).0
unfolding set_status
set_status-IsValid t x v = ground (arith, v.has_bits, v.inside, v.value_fits)

pub decode_status-IsValid :
    (t u : Status) (buf : List ℕ) → IsValid t → decode_status t buf ≡ ok u → IsValid u
decode_status-IsValid t u buf v e = ground (
  arith,
  one-le-pow t.bit_size 2,
  decode_status_lem t buf v.has_bits v.inside,
  v.has_bits,
  v.inside,
)
