-- ===== src/Diagnosis/Codes.antt =====
-- The four bytes of a trouble code, and the run of codes in a DM1 frame.
use j1939_framework.Base.{
  ℕ, ◌+◌, ◌*◌, ◌/◌, ◌%◌, ◌^◌, ◌<◌, ◌≡◌, ◌≢◌, refl, arith, List, [], ◌∷◌, ◌++◌, length, ltb,
  if◌then◌else◌, IsByte, bit_and_mask, bit_and-shl, bit_or_low, bit_or_high,
}
use mathlib.Core.List.{append_assoc}
use j1939_framework.Common.{ok, err, decode_exception, unknown_conversion}
use j1939_framework.Diagnosis.{
  Dtc, IsValid, decode_dtc, dtc_bytes, decode_dtcs, encode_dtcs, code_bytes,
}

dtc_bytes_lem :
    (d : Dtc)
    → IsValid d
    → dtc_bytes d ≡ d.spn % 256 ∷ d.spn / 256 % 256 ∷ (d.spn / 65536 * 32 + d.fmi) ∷ d.oc ∷ []
unfolding dtc_bytes
dtc_bytes_lem d v = ground (
  arith,
  v.spn_fits,
  v.fmi_fits,
  v.oc_fits,
  bit_and_mask 8 d.spn,
  bit_and_mask 8 (d.spn / 2 ^ 8),
  bit_and-shl 5 (d.spn / 2 ^ 11) 0x7FFFFFF,
  bit_and_mask 27 (d.spn / 2 ^ 11 / 2 ^ 5),
  bit_and_mask 5 d.fmi,
  bit_or_high 5 (d.spn / 65536) d.fmi,
  bit_and_mask 7 d.oc,
)

pub decode_dtc_lem :
    (a b c e : ℕ)
    → IsByte a
    → IsByte b
    → IsByte c
    → IsByte e
    → decode_dtc (a ∷ b ∷ c ∷ e ∷ []) ≡ (
        if ltb e 128
        then ok (record { spn = a + b * 256 + c / 32 * 65536; fmi = c % 32; oc = e })
        else err (decode_exception unknown_conversion))
unfolding decode_dtc
decode_dtc_lem a b c e ha hb hc he = ground (
  arith,
  bit_or_low 8 b a,
  bit_and-shl 5 c 7,
  bit_and_mask 3 (c / 2 ^ 5),
  bit_or_low 16 (c / 32) (b * 256 + a),
  bit_and_mask 5 c,
  bit_and-shl 7 e 1,
  bit_and_mask 1 (e / 2 ^ 7),
  bit_and_mask 7 e,
)

-- A trouble code whose fields fit comes back from its four bytes.
decode_dtc-dtc_bytes : (d : Dtc) → IsValid d → decode_dtc (dtc_bytes d) ≡ ok d
decode_dtc-dtc_bytes d v = rw (dtc_bytes_lem d v) (
    ground (
      arith,
      v.spn_fits,
      v.fmi_fits,
      v.oc_fits,
      decode_dtc_lem (d.spn % 256) (d.spn / 256 % 256) (d.spn / 65536 * 32 + d.fmi) d.oc,
    ))

-- Codes that a frame can hold: valid, and with a number.
abbrev pub AreFaults : List Dtc → Type 0
AreFaults [] = Unit {0}
AreFaults (d ∷ ds) = (IsValid d × (d.spn ≢ 0)) × AreFaults ds

decode_dtcs_step :
    (d : Dtc) (ds : List Dtc) (rest : List ℕ)
    → IsValid d
    → d.spn ≢ 0
    → decode_dtcs rest ≡ ok ds
    → decode_dtcs (dtc_bytes d ++ rest) ≡ ok (d ∷ ds)
unfolding dtc_bytes decode_dtcs
decode_dtcs_step d ds rest v ne e = ground (arith, ne, decode_dtc-dtc_bytes d v)

decode_dtcs-append :
    (ds : List Dtc) (rest : List ℕ)
    → AreFaults ds
    → decode_dtcs rest ≡ ok []
    → decode_dtcs (encode_dtcs ds ++ rest) ≡ ok ds
unfolding encode_dtcs
decode_dtcs-append [] rest h e = e
decode_dtcs-append (d ∷ ds) rest h e =
    rw (append_assoc (dtc_bytes d) (encode_dtcs ds) rest) (
      decode_dtcs_step d ds (encode_dtcs ds ++ rest) h.0.0 h.0.1 (decode_dtcs-append ds rest h.1 e))

short_ends : (xs : List ℕ) → length xs < 4 → decode_dtcs xs ≡ ok []
unfolding decode_dtcs
short_ends [] p = refl
short_ends (a ∷ []) p = refl
short_ends (a ∷ b ∷ []) p = refl
short_ends (a ∷ b ∷ c ∷ []) p = refl
short_ends (a ∷ b ∷ c ∷ d ∷ xs) p = absurd (omega arith)

-- Valid codes with a number other than 0 come back in their order, whatever fewer than four bytes fill the frame
-- up behind them; and a frame without a code, which carries a zero code in their place, gives none.
pub decode_dtcs-code_bytes :
    (ds : List Dtc) (fill : List ℕ)
    → AreFaults ds
    → length fill < 4
    → (ds ≡ [] → fill ≡ [])
    → decode_dtcs (code_bytes ds ++ fill) ≡ ok ds
unfolding code_bytes
decode_dtcs-code_bytes [] fill h short none_left =
    rw (none_left refl) (unfold decode_dtcs decode_dtc in refl)
decode_dtcs-code_bytes (d ∷ ds) fill h short none_left =
    decode_dtcs-append (d ∷ ds) fill h (short_ends fill short)
