-- ===== src/Base/Lists.antt =====
-- Byte arrays and vectors as lists, measured and indexed by native numbers.
use Prim.Native.Nat.{ℕ, zero, suc, ◌+◌, ◌-◌, ◌≤◌, ◌<◌, min}
use j1939_framework.Base.Words.{IsByte}
use mathlib.Core.Path.{◌≡◌, refl, ap}
use mathlib.Core.List.{List, [], ◌∷◌, ◌++◌}
use mathlib.Core.Option.{Option, none, some}
use native.Mathlib.Omega.{arith}

module _ {ℓ} {A : Type ℓ} where
  abbrev pub length : List A → ℕ
  length [] = 0
  length (x ∷ xs) = suc (length xs)

  abbrev pub get_elem? : List A → ℕ → Option A
  get_elem? [] i = none
  get_elem? (x ∷ xs) zero = some x
  get_elem? (x ∷ xs) (suc i) = get_elem? xs i

  abbrev pub get_or : List A → ℕ → A → A
  get_or [] i d = d
  get_or (x ∷ xs) zero d = x
  get_or (x ∷ xs) (suc i) d = get_or xs i d

  abbrev pub take : ℕ → List A → List A
  take zero xs = []
  take (suc n) [] = []
  take (suc n) (x ∷ xs) = x ∷ take n xs

  abbrev pub drop : ℕ → List A → List A
  drop zero xs = xs
  drop (suc n) [] = []
  drop (suc n) (x ∷ xs) = drop n xs

  abbrev pub replicate : ℕ → A → List A
  replicate zero a = []
  replicate (suc n) a = a ∷ replicate n a

  -- `memcpy(buf, xs, |xs|)`: the front of `buf` is replaced; cells behind its end do not exist.
  abbrev pub overwrite : List A → List A → List A
  overwrite [] buf = buf
  overwrite (x ∷ xs) [] = []
  overwrite (x ∷ xs) (b ∷ buf) = x ∷ overwrite xs buf

  -- `memcpy(buf + i, xs, |xs|)`
  abbrev pub overwrite_at : ℕ → List A → List A → List A
  overwrite_at zero xs buf = overwrite xs buf
  overwrite_at (suc i) xs [] = []
  overwrite_at (suc i) xs (b ∷ buf) = b ∷ overwrite_at i xs buf

  abbrev pub All {κ} : (A → Type κ) → List A → Type κ
  All P [] = Unit {κ}
  All P (x ∷ xs) = P x × All P xs

module _ {ℓ} {A : Type ℓ} where
  pub length-append : (xs ys : List A) → length (xs ++ ys) ≡ length xs + length ys
  length-append [] ys = omega arith
  length-append (x ∷ xs) ys = omega (arith, length-append xs ys)

  pub length-take : (n : ℕ) (xs : List A) → length (take n xs) ≡ min n (length xs)
  length-take zero xs = omega arith
  length-take (suc n) [] = omega arith
  length-take (suc n) (x ∷ xs) = omega (arith, length-take n xs)

  pub length-drop : (n : ℕ) (xs : List A) → length (drop n xs) ≡ length xs - n
  length-drop zero xs = omega arith
  length-drop (suc n) [] = omega arith
  length-drop (suc n) (x ∷ xs) = omega (arith, length-drop n xs)

  pub length-replicate : (n : ℕ) (a : A) → length (replicate n a) ≡ n
  length-replicate zero a = refl
  length-replicate (suc n) a = ap suc (length-replicate n a)

  pub length-overwrite : (xs buf : List A) → length (overwrite xs buf) ≡ length buf
  length-overwrite [] buf = refl
  length-overwrite (x ∷ xs) [] = refl
  length-overwrite (x ∷ xs) (b ∷ buf) = ap suc (length-overwrite xs buf)

  -- Writing a whole buffer forgets what it held.
  pub overwrite_all : (xs buf : List A) → length xs ≡ length buf → overwrite xs buf ≡ xs
  overwrite_all [] [] h = refl
  overwrite_all [] (b ∷ buf) h = absurd (omega arith)
  overwrite_all (x ∷ xs) [] h = absurd (omega arith)
  overwrite_all (x ∷ xs) (b ∷ buf) h = ap (◌∷◌ x) (overwrite_all xs buf (omega arith))

  pub take-append-drop : (n : ℕ) (xs : List A) → take n xs ++ drop n xs ≡ xs
  take-append-drop zero xs = refl
  take-append-drop (suc n) [] = refl
  take-append-drop (suc n) (x ∷ xs) = ap (◌∷◌ x) (take-append-drop n xs)

  pub take-append : (xs ys : List A) → take (length xs) (xs ++ ys) ≡ xs
  take-append [] ys = refl
  take-append (x ∷ xs) ys = ap (◌∷◌ x) (take-append xs ys)

  pub take_all : (n : ℕ) (xs : List A) → length xs ≤ n → take n xs ≡ xs
  take_all zero [] h = refl
  take_all zero (x ∷ xs) h = absurd (omega arith)
  take_all (suc n) [] h = refl
  take_all (suc n) (x ∷ xs) h = ap (◌∷◌ x) (take_all n xs (omega arith))

  pub All-append {κ} : (P : A → Type κ) (xs ys : List A) → All P xs → All P ys → All P (xs ++ ys)
  All-append P [] ys h k = k
  All-append P (x ∷ xs) ys h k = (h.0, All-append P xs ys h.1 k)

-- A byte of a buffer. A read behind the end gives 0 here; the decoders test the length first.
abbrev pub byte_at : List ℕ → ℕ → ℕ
byte_at buf i = get_or buf i 0

pub byte_at-lt : (buf : List ℕ) (i : ℕ) → All IsByte buf → byte_at buf i < 256
byte_at-lt [] i h = omega arith
byte_at-lt (b ∷ buf) zero h = h.0
byte_at-lt (b ∷ buf) (suc i) h = byte_at-lt buf i h.1

-- A buffer of eight bytes is the list of its bytes.
pub eight_bytes :
    (buf : List ℕ)
    → length buf ≡ 8
    → buf
      ≡ byte_at buf 0
        ∷ byte_at buf 1
        ∷ byte_at buf 2
        ∷ byte_at buf 3
        ∷ byte_at buf 4
        ∷ byte_at buf 5
        ∷ byte_at buf 6
        ∷ byte_at buf 7
        ∷ []
eight_bytes (a ∷ b ∷ c ∷ d ∷ e ∷ f ∷ g ∷ h ∷ []) len = refl
eight_bytes _ len = absurd (omega arith)
