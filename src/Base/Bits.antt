-- ===== src/Base/Bits.antt =====
-- `|` of values whose bits do not meet is a sum, and `&` with a low mask is a remainder.
use Prim.Native.Nat.{
  ℕ, zero, suc, ◌+◌, ◌*◌, ◌/◌, ◌%◌, ◌^◌, ◌≤◌, ◌<◌, min, max, bit_and, bit_or, digits,
  bit_and-bitwise, bit_or-bitwise,
}
use mathlib.Core.Path.{◌≡◌, refl, sym, ap, ◌∙◌}
use mathlib.Core.Bool.{Bool, true, false}
use native.Mathlib.Omega.{arith}
use native.Mathlib.Nat.{pow-suc, one-le-pow, mul_comm, div-div-eq-div-mul}
use j1939_framework.Base.Tests.{if◌then◌else◌}
use j1939_framework.Base.Words.{◌<<◌, ◌>>◌, low_mask}

-- The digit recursion does not depend on its fuel, once that reaches the first operand.
module _ (base : ℕ → ℕ) (digit : ℕ → ℕ → ℕ) where
  abbrev run : ℕ → ℕ → ℕ → ℕ
  run = digits base digit

  run_stable : (k l a b : ℕ) → a ≤ k → a ≤ l → run k a b ≡ run l a b
  run_stable zero zero a b p q = refl
  run_stable (suc k) zero zero b p q = refl
  run_stable zero (suc l) zero b p q = refl
  run_stable (suc k) (suc l) zero b p q = refl
  run_stable (suc k) zero (suc a) b p q = absurd (omega arith)
  run_stable zero (suc l) (suc a) b p q = absurd (omega arith)
  run_stable (suc k) (suc l) (suc a) b p q =
      rw (run_stable k l (suc a / 2) (b / 2) (omega arith) (omega arith))

  run-suc :
      (a b : ℕ)
      → run (suc a) (suc a) b ≡ run (suc a / 2) (suc a / 2) (b / 2) * 2 + digit (suc a % 2) (b % 2)
  run-suc a b = rw (run_stable a (suc a / 2) (suc a / 2) (b / 2) (omega arith) (omega arith))

or_digit : (a b : ℕ) → bit_or a b ≡ bit_or (a / 2) (b / 2) * 2 + max (a % 2) (b % 2)
or_digit zero b = simp bit_or-bitwise (omega arith)
or_digit (suc a) b = simp bit_or-bitwise (run-suc (λ y. y) max a b)

and_digit : (a b : ℕ) → bit_and a b ≡ bit_and (a / 2) (b / 2) * 2 + min (a % 2) (b % 2)
and_digit zero b = simp bit_and-bitwise (omega arith)
and_digit (suc a) b = simp bit_and-bitwise (run-suc (λ y. 0) min a b)

-- Each of the three goes from the half of a number to the number, on fuel `n` above it.
or_comm_below : (n a b : ℕ) → a ≤ n → b ≤ n → bit_or a b ≡ bit_or b a
or_comm_below zero zero zero p q = refl
or_comm_below zero zero (suc b) p q = absurd (omega arith)
or_comm_below zero (suc a) b p q = absurd (omega arith)
or_comm_below (suc n) a b p q =
    omega (
      arith,
      or_digit a b,
      or_digit b a,
      or_comm_below n (a / 2) (b / 2) (omega arith) (omega arith),
    )

pub bit_or_comm : (a b : ℕ) → bit_or a b ≡ bit_or b a
bit_or_comm a b = or_comm_below (a + b) a b (omega arith) (omega arith)

zero_bit_or : (b : ℕ) → bit_or 0 b ≡ b
zero_bit_or b = simp bit_or-bitwise

pub bit_or-zero : (a : ℕ) → bit_or a 0 ≡ a
bit_or-zero a = bit_or_comm a 0 ∙ zero_bit_or a

and_zero_below : (n a : ℕ) → a ≤ n → bit_and a 0 ≡ 0
and_zero_below n zero p = refl
and_zero_below zero (suc a) p = absurd (omega arith)
and_zero_below (suc n) (suc a) p =
    omega (arith, and_digit (suc a) 0, and_zero_below n (suc a / 2) (omega arith))

double_shift : (q k : ℕ) → q * 2 ^ suc k ≡ 2 * (q * 2 ^ k)
double_shift q k = omega (arith, ap (λ (t : ℕ). q * t) (pow-suc 2 k))

-- `(q << k) | r` with `r` below `2 ^ k`.
pub bit_or_high : (k q r : ℕ) → r < 2 ^ k → bit_or (q << k) r ≡ q * 2 ^ k + r
bit_or_high zero q r fits = ground (arith, bit_or-zero q)
bit_or_high (suc k) q r fits = ground (
  arith,
  or_digit (q * 2 ^ suc k) r,
  double_shift q k,
  bit_or_high k q (r / 2) (omega (arith, pow-suc 2 k)),
)

-- `r | (q << k)`, the order in which the decoders write it.
pub bit_or_low : (k q r : ℕ) → r < 2 ^ k → bit_or r (q << k) ≡ q * 2 ^ k + r
bit_or_low k q r fits = bit_or_comm r (q << k) ∙ bit_or_high k q r fits

mask_below : (k q r : ℕ) → r < 2 ^ k → bit_and (q * 2 ^ k + r) (low_mask k) ≡ r
mask_below zero q r fits = ground (arith, and_zero_below (q * 2 ^ 0 + r) (q * 2 ^ 0 + r))
mask_below (suc k) q r fits = ground (
  arith,
  and_digit (q * 2 ^ suc k + r) (low_mask (suc k)),
  double_shift q k,
  pow-suc 2 k,
  one-le-pow k 2,
  mask_below k q (r / 2),
)

-- A mask of `k` low bits is the remainder by `2 ^ k`.
pub bit_and_mask : (k a : ℕ) → bit_and a (low_mask k) ≡ a % 2 ^ k
bit_and_mask k a = ground (arith, one-le-pow k 2, mask_below k (a / 2 ^ k) (a % 2 ^ k))

-- A shifted mask reads a field in the middle.
pub bit_and-shl : (k a m : ℕ) → bit_and a (m << k) ≡ bit_and (a >> k) m << k
bit_and-shl zero a m = rw (times_one m, over_one a) (omega arith)
  where
    times_one : (t : ℕ) → t * 2 ^ 0 ≡ t
    times_one t = omega arith

    over_one : (t : ℕ) → t / 2 ^ 0 ≡ t
    over_one t = omega arith
bit_and-shl (suc k) a m = ground (
  arith,
  and_digit a (m * 2 ^ suc k),
  double_shift m k,
  double_shift (bit_and (a / 2 / 2 ^ k) m) k,
  bit_and-shl k (a / 2) m,
  halves,
)
  where
    halves : a / 2 ^ suc k ≡ a / 2 / 2 ^ k
    halves = rw (pow-suc 2 k, mul_comm (2 ^ k) 2) (sym (div-div-eq-div-mul a 2 (2 ^ k)))

-- `|` of a multiple of `2 ^ k` and a number below it.
pub bit_or-add : (k a r : ℕ) → a % 2 ^ k ≡ 0 → r < 2 ^ k → bit_or a r ≡ a + r
bit_or-add k a r multiple fits = ground (arith, one-le-pow k 2, bit_or_high k (a / 2 ^ k) r fits)

-- `|` with a shifted value leaves the low bits alone.
pub bit_or-shl :
    (k h v low : ℕ) → low < 2 ^ k → bit_or (h * 2 ^ k + low) (v << k) ≡ bit_or h v * 2 ^ k + low
bit_or-shl zero h v low fits =
    let whole : h * 2 ^ 0 + low ≡ h = omega arith in
    let same : v * 2 ^ 0 ≡ v = omega arith in rw (whole, same) (omega arith)
bit_or-shl (suc k) h v low fits = ground (
  arith,
  or_digit (h * 2 ^ suc k + low) (v * 2 ^ suc k),
  double_shift h k,
  double_shift v k,
  double_shift (bit_or h v) k,
  pow-suc 2 k,
  bit_or-shl k h v (low / 2),
)

-- Checking every value below a small bound by evaluation.
unfoldable pub all_below : ℕ → (ℕ → Bool) → Bool
all_below zero test = true
all_below (suc top) test = let others = all_below top test in if test top then others else false

pub all_below_sound :
    (top : ℕ) (test : ℕ → Bool) (i : ℕ) → i < top → all_below top test ≡ true → test i ≡ true
unfolding all_below
all_below_sound zero test i inside passed = absurd (omega arith)
all_below_sound (suc top) test i inside passed = ground (arith, all_below_sound top test i)
