-- ===== src/Spn/Codec/TextBytes.antt =====
-- A string parameter, which a '*' ends.
use j1939_framework.Base.{
  ℕ, suc, ◌/◌, ◌^◌, ◌≤◌, ◌<◌, ◌≡◌, ◌≢◌, ◌↔◌, refl, arith, ap, bit_and, true, List, [], ◌∷◌, ◌++◌,
  some, length, drop, overwrite, overwrite_at, bit_and_mask, bit_and-shl, All,
}
use j1939_framework.Common.{ok, err, encode_exception, no_room, str_terminator}
use j1939_framework.Spn.{Text}
use j1939_framework.Spn.Codec.{decode_text, encode_text, before_terminator, is_ascii, c_string}

-- A character that a string parameter can carry.
abbrev pub IsChar : ℕ → Type 0
IsChar c = (c < 128) × (c ≢ 0) × (c ≢ str_terminator)

ascii_char : (c : ℕ) → c < 128 → bit_and c 0x80 ≡ 0
ascii_char c h = ground (arith, bit_and-shl 7 c 1, bit_and_mask 1 (c / 2 ^ 7))

is_ascii_lem : (s : List ℕ) → All IsChar s → is_ascii s ≡ true
unfolding is_ascii
is_ascii_lem [] h = refl
is_ascii_lem (c ∷ s) h = ground (arith, ascii_char c, is_ascii_lem s h.1)

c_string_lem : (s : List ℕ) → All IsChar s → c_string s ≡ s
unfolding c_string
c_string_lem [] h = refl
c_string_lem (c ∷ s) h = ground (arith, c_string_lem s h.1)

-- What the encoder leaves in a buffer with room.
abbrev written : List ℕ → List ℕ → List ℕ
written s buf = overwrite_at (length s) (str_terminator ∷ []) (overwrite (s ++ 0 ∷ []) buf)

before_terminator-written :
    (s buf : List ℕ)
    → All IsChar s
    → length s < length buf
    → before_terminator (written s buf) ≡ some s
unfolding before_terminator
before_terminator-written [] [] h room = absurd (omega arith)
before_terminator-written [] (b ∷ buf) h room = refl
before_terminator-written (c ∷ s) [] h room = absurd (omega arith)
before_terminator-written (c ∷ s) (b ∷ buf) h room =
    ground (arith, before_terminator-written s buf h.1)

drop-written : (s buf : List ℕ) → drop (suc (length s)) (written s buf) ≡ drop (suc (length s)) buf
drop-written [] [] = refl
drop-written [] (b ∷ buf) = refl
drop-written (c ∷ s) [] = refl
drop-written (c ∷ s) (b ∷ buf) = drop-written s buf

length-written : (s buf : List ℕ) → length (written s buf) ≡ length buf
length-written [] [] = refl
length-written [] (b ∷ buf) = refl
length-written (c ∷ s) [] = refl
length-written (c ∷ s) (b ∷ buf) = ap suc (length-written s buf)

-- A string of ASCII characters without a 0 or a '*', for which the frame has room with its
-- terminator, is written and read back by any string parameter; the bytes behind the terminator are
-- untouched, and the buffer keeps its length.
pub decode_text-encode_text :
    (t old : Text) (buf : List ℕ)
    → All IsChar t.value
    → length t.value < length buf
    → (out : List ℕ) × (encode_text t buf ≡ ok out)
      × (decode_text old out ≡ ok (record old { value = t.value }))
      × (drop (suc (length t.value)) out ≡ drop (suc (length t.value)) buf)
      × (length out ≡ length buf)
unfolding encode_text decode_text
decode_text-encode_text t old buf chars room = (
  written t.value buf,
  ground (arith, c_string_lem t.value chars),
  ground (arith, before_terminator-written t.value buf chars room, is_ascii_lem t.value chars),
  drop-written t.value buf,
  length-written t.value buf,
)

-- The encoder refuses a string exactly when there is no room for it and its terminator.
encode_text_fails :
    (t : Text) (buf : List ℕ)
    → (encode_text t buf ≡ err (encode_exception no_room)) ↔ (length buf ≤ length t.value)
unfolding encode_text
encode_text_fails t buf = (λ e. ground arith, λ h. ground arith)

-- A string that holds a 0 is cut by the C copy: whatever stood in the buffer stays where its
-- characters behind the 0 should be. One such character is lost in every buffer with room.
nul_lost :
    (c b₀ b₁ b₂ : ℕ) (t : Text) (buf : List ℕ)
    → t.value ≡ 0 ∷ c ∷ []
    → encode_text t (b₀ ∷ b₁ ∷ b₂ ∷ buf) ≡ ok (0 ∷ b₁ ∷ str_terminator ∷ buf)
unfolding encode_text c_string
nul_lost c b₀ b₁ b₂ t buf e = ground arith
