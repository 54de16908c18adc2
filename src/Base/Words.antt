-- ===== src/Base/Words.antt =====
-- Fixed-width words: casts, shifts and the well-formedness of bytes.
use Prim.Native.Nat.{ℕ, ◌*◌, ◌/◌, ◌%◌, ◌^◌, ◌-◌, ◌<◌}

abbrev pub u8 : ℕ → ℕ
u8 n = n % 256

abbrev pub u16 : ℕ → ℕ
u16 n = n % 65536

abbrev pub u32 : ℕ → ℕ
u32 n = n % 4294967296

-- The C operators; a cast back to the operand's width is written where the source stores the value.
infixl 75 ◌<<◌ ◌>>◌
abbrev pub ◌<<◌ : ℕ → ℕ → ℕ
x << k = x * 2 ^ k

abbrev pub ◌>>◌ : ℕ → ℕ → ℕ
x >> k = x / 2 ^ k

abbrev pub low_mask : ℕ → ℕ
low_mask k = 2 ^ k - 1

abbrev pub IsByte : ℕ → Type 0
IsByte b = b < 256
