-- ===== src/Spn/Codec/NumericBytes.antt =====
-- The bytes of a numeric parameter, the lowest first.
use j1939_framework.Base.{
  ℕ, zero, suc, ◌+◌, ◌*◌, ◌/◌, ◌%◌, ◌^◌, ◌≤◌, ◌<◌, ◌≡◌, ◌⊎◌, ◌↔◌, refl, arith, bit_and, bit_or,
  List, [], ◌∷◌, length, drop, overwrite, length-overwrite, bit_and_mask, bit_or_low, All, IsByte,
  u32,
}
use j1939_framework.Common.{ok, err, decode_exception, encode_exception, spn_size}
use j1939_framework.Spn.{Numeric}
use j1939_framework.Spn.Codec.{numeric_loop, numeric_bytes, decode_numeric, encode_numeric}

-- The value that a little-endian run of `k` bytes stands for.
abbrev pub low_value : ℕ → List ℕ → ℕ
low_value zero buf = 0
low_value (suc k) [] = 0
low_value (suc k) (b ∷ buf) = b + low_value k buf * 256

or_zero : (b : ℕ) → b < 256 → u32 (bit_or 0 (b * 2 ^ 0)) ≡ b
or_zero b h = ground (arith, bit_or_low 0 b 0)

or_next :
    (k b acc : ℕ)
    → b < 256
    → acc < 2 ^ k
    → k ≤ 24
    → 2 ^ k * 256 ≤ 2 ^ 32
    → u32 (bit_or acc (b * 2 ^ k)) ≡ acc + b * 2 ^ k
or_next k b acc hb ha hk fits = grind (arith, bit_or_low k b acc)

-- The decoding loop.
pub numeric_loop_lem :
    (k : ℕ) (buf : List ℕ)
    → k ≤ 4
    → k ≤ length buf
    → All IsByte buf
    → numeric_loop k 0 0 buf ≡ low_value k buf
unfolding numeric_loop
numeric_loop_lem zero buf small fits bytes = refl
numeric_loop_lem (suc k) [] small fits bytes = absurd (omega arith)
numeric_loop_lem (suc zero) (a ∷ buf) small fits bytes = ground (arith, or_zero a)
numeric_loop_lem (suc (suc k)) (a ∷ []) small fits bytes = absurd (omega arith)
numeric_loop_lem (suc (suc zero)) (a ∷ b ∷ buf) small fits bytes =
    ground (arith, or_zero a, or_next 8 b a)
numeric_loop_lem (suc (suc (suc k))) (a ∷ b ∷ []) small fits bytes = absurd (omega arith)
numeric_loop_lem (suc (suc (suc zero))) (a ∷ b ∷ c ∷ buf) small fits bytes =
    ground (arith, or_zero a, or_next 8 b a, or_next 16 c (a + b * 256))
numeric_loop_lem (suc (suc (suc (suc k)))) (a ∷ b ∷ c ∷ []) small fits bytes = absurd (omega arith)
numeric_loop_lem (suc (suc (suc (suc zero)))) (a ∷ b ∷ c ∷ d ∷ buf) small fits bytes = ground (
  arith,
  or_zero a,
  or_next 8 b a,
  or_next 16 c (a + b * 256),
  or_next 24 d (a + b * 256 + c * 65536),
)
numeric_loop_lem (suc (suc (suc (suc (suc k))))) (a ∷ b ∷ c ∷ d ∷ buf) small fits bytes =
    absurd (omega arith)

byte_lem : (v k : ℕ) → bit_and (v / 2 ^ k) 0xFF ≡ v / 2 ^ k % 256
byte_lem v k = bit_and_mask 8 (v / 2 ^ k)

-- The encoding loop.
pub numeric_bytes_lem :
    (k v : ℕ)
    → k ≤ 4
    → (length (numeric_bytes k 0 v) ≡ k)
      × All IsByte (numeric_bytes k 0 v)
      × (low_value k (numeric_bytes k 0 v) ≡ v % 2 ^ (k * 8))
unfolding numeric_bytes
numeric_bytes_lem zero v h = omega arith
numeric_bytes_lem (suc zero) v h = omega (arith, byte_lem v 0)
numeric_bytes_lem (suc (suc zero)) v h = omega (arith, byte_lem v 0, byte_lem v 8)
numeric_bytes_lem (suc (suc (suc zero))) v h =
    omega (arith, byte_lem v 0, byte_lem v 8, byte_lem v 16)
numeric_bytes_lem (suc (suc (suc (suc zero)))) v h =
    omega (arith, byte_lem v 0, byte_lem v 8, byte_lem v 16, byte_lem v 24)
numeric_bytes_lem (suc (suc (suc (suc (suc k))))) v h = absurd (omega arith)

low_value-overwrite :
    (k : ℕ) (xs buf : List ℕ)
    → length xs ≡ k
    → k ≤ length buf
    → low_value k (overwrite xs buf) ≡ low_value k xs
low_value-overwrite zero xs buf e h = refl
low_value-overwrite (suc k) [] buf e h = absurd (omega arith)
low_value-overwrite (suc k) (x ∷ xs) [] e h = absurd (omega arith)
low_value-overwrite (suc k) (x ∷ xs) (b ∷ buf) e h =
    omega (arith, low_value-overwrite k xs buf (omega arith) (omega arith))

All-overwrite : (xs buf : List ℕ) → All IsByte xs → All IsByte buf → All IsByte (overwrite xs buf)
All-overwrite [] buf h k = k
All-overwrite (x ∷ xs) [] h k = tt
All-overwrite (x ∷ xs) (b ∷ buf) h k = (h.0, All-overwrite xs buf h.1 k.1)

drop-overwrite : (k : ℕ) (xs buf : List ℕ) → length xs ≡ k → drop k (overwrite xs buf) ≡ drop k buf
drop-overwrite zero [] buf e = refl
drop-overwrite zero (x ∷ xs) buf e = absurd (omega arith)
drop-overwrite (suc k) [] buf e = absurd (omega arith)
drop-overwrite (suc k) (x ∷ xs) [] e = refl
drop-overwrite (suc k) (x ∷ xs) (b ∷ buf) e = drop-overwrite k xs buf (omega arith)

-- A parameter of at most four bytes that fits the rest of the frame, which holds bytes, is read back from what was
-- written, cut to its bytes, by any parameter of the same size; the bytes behind it are untouched,
-- and the buffer keeps its length.
pub decode_numeric-encode_numeric :
    (n old : Numeric) (buf : List ℕ)
    → n.byte_size ≤ 4
    → n.byte_size ≤ length buf
    → old.byte_size ≡ n.byte_size
    → All IsByte buf
    → (out : List ℕ) × (encode_numeric n buf ≡ ok out)
      × (decode_numeric old out ≡ ok (record old { value = n.value % 2 ^ (n.byte_size * 8) }))
      × (drop n.byte_size out ≡ drop n.byte_size buf)
      × (length out ≡ length buf)
unfolding encode_numeric decode_numeric
decode_numeric-encode_numeric n old buf small fits same bytes =
    let run = numeric_bytes n.byte_size 0 n.value in
    let facts = numeric_bytes_lem n.byte_size n.value small in
    (
      overwrite run buf,
      ground arith,
      ground (
        arith,
        length-overwrite run buf,
        low_value-overwrite n.byte_size run buf facts.0 fits,
        facts.2,
        numeric_loop_lem n.byte_size (overwrite run buf) small (rw (length-overwrite run buf) fits)
            (All-overwrite run buf facts.1 bytes),
      ),
      drop-overwrite n.byte_size run buf facts.0,
      length-overwrite run buf,
    )

-- A parameter is refused, by both directions, exactly when it is longer than four bytes or longer
-- than what is left of the frame.
encode_numeric_fails :
    (n : Numeric) (buf : List ℕ)
    → ((encode_numeric n buf ≡ err (encode_exception spn_size))
        ↔ ((length buf < n.byte_size) ⊎ (4 < n.byte_size)))
      × ((decode_numeric n buf ≡ err (decode_exception spn_size))
          ↔ ((length buf < n.byte_size) ⊎ (4 < n.byte_size)))
unfolding encode_numeric decode_numeric
encode_numeric_fails n buf =
    ((λ e. ground arith, λ c. ground arith), (λ e. ground arith, λ c. ground arith))
