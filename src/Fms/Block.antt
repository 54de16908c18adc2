-- ===== src/Fms/Block.antt =====
-- A block of fifteen tell tales and its eight bytes.
use j1939_framework.Base.{
  ℕ, suc, ◌+◌, ◌*◌, ◌/◌, ◌^◌, ◌<◌, ◌≡◌, ◌⊎◌, inl, inr, refl, sym, arith, bit_and, bit_or, List, [],
  ◌∷◌, ◌==◌, Bool-cases, ==_iff, length, overwrite, overwrite_all, bit_and_mask, bit_or_low, u8,
}
use j1939_framework.Base.Dict
use j1939_framework.Common.{ok, ◌>>=◌}
use j1939_framework.Fms.{TellTale, Ttss, Fms1, tell_tale, decode_data, encode_data, decode_bytes}

abbrev entry : ℕ → (ℕ → ℕ) → ℕ → ℕ × TellTale
entry b st i = (15 * b + i, tell_tale (15 * b + i) (st i))

-- The tell tales of the block `b`, the one in the place `i` with the status `st i`.
abbrev pub rows : ℕ → (ℕ → ℕ) → Ttss
rows b st =
    entry b st 1
    ∷ entry b st 2
    ∷ entry b st 3
    ∷ entry b st 4
    ∷ entry b st 5
    ∷ entry b st 6
    ∷ entry b st 7
    ∷ entry b st 8
    ∷ entry b st 9
    ∷ entry b st 10
    ∷ entry b st 11
    ∷ entry b st 12
    ∷ entry b st 13
    ∷ entry b st 14
    ∷ entry b st 15
    ∷ []

-- Two statuses in a byte, each with the bit above it set.
abbrev pub pair_byte : ℕ → ℕ → ℕ
pair_byte low high = low + 8 + (high + 8) * 16

with_bit : (s : ℕ) → s < 8 → bit_or s 8 ≡ s + 8
with_bit s h = ground (arith, bit_or_low 3 1 s)

pair_lem :
    (low high : ℕ)
    → low < 8
    → high < 8
    → u8 (bit_or (bit_or low 8) (bit_or high 8 * 2 ^ 4)) ≡ pair_byte low high
pair_lem low high hl hh =
    ground (arith, with_bit low, with_bit high, bit_or_low 4 (high + 8) (low + 8))

abbrev pub plain_bytes : ℕ → (ℕ → ℕ) → List ℕ
plain_bytes b st =
    (b + (st 1 + 8) * 16)
    ∷ pair_byte (st 2) (st 3)
    ∷ pair_byte (st 4) (st 5)
    ∷ pair_byte (st 6) (st 7)
    ∷ pair_byte (st 8) (st 9)
    ∷ pair_byte (st 10) (st 11)
    ∷ pair_byte (st 12) (st 13)
    ∷ pair_byte (st 14) (st 15)
    ∷ []

head_lem :
    (b s : ℕ) → b < 8 → s < 8 → u8 (bit_or (bit_and b 15) (bit_or s 8 * 2 ^ 4)) ≡ b + (s + 8) * 16
head_lem b s hb hs = ground (arith, bit_and_mask 4 b, with_bit s, bit_or_low 4 (s + 8) b)

head_block : (b s : ℕ) → b < 8 → s < 8 → bit_and (b + (s + 8) * 16) 15 ≡ b
head_block b s hb hs = ground (arith, bit_and_mask 4 (b + (s + 8) * 16))

module _ (st : ℕ → ℕ) (small : (i : ℕ) → st i < 8) where
  pair_stored :
      (i j : ℕ) → u8 (bit_or (bit_or (st i) 8) (bit_or (st j) 8 * 2 ^ 4)) ≡ pair_byte (st i) (st j)
  pair_stored i j = pair_lem (st i) (st j) (small i) (small j)

  low_status : (i j : ℕ) → bit_and (pair_byte (st i) (st j)) 7 ≡ st i
  low_status i j = ground (arith, small i, small j, bit_and_mask 3 (pair_byte (st i) (st j)))

  high_status : (i j : ℕ) → bit_and (pair_byte (st i) (st j) / 2 ^ 4) 7 ≡ st j
  high_status i j =
      ground (arith, small i, small j, bit_and_mask 3 (pair_byte (st i) (st j) / 2 ^ 4))

  head_status : (b : ℕ) → b < 8 → bit_and ((b + (st 1 + 8) * 16) / 2 ^ 4) 7 ≡ st 1
  head_status b h = ground (arith, small 1, bit_and_mask 3 ((b + (st 1 + 8) * 16) / 2 ^ 4))

  -- What `encode_data` writes.
  pub encode_rows :
      (b : ℕ) (buf : List ℕ)
      → b < 4
      → encode_data (record { block_id = b; ttss = rows b st }) buf
        ≡ ok (overwrite (plain_bytes b st) buf)
  unfolding encode_data Dict.find
  encode_rows (suc (suc (suc (suc b)))) buf h = absurd (omega arith)
  encode_rows b buf h = simp (pair_stored, head_lem b (st 1) (omega arith) (small 1)) refl

  -- The statuses put one by one into the map of a block.
  fill_rows :
      (b : ℕ) (old : ℕ → ℕ) (m : Ttss)
      → b < 4
      → (m ≡ []) ⊎ (m ≡ rows b old)
      → decode_bytes 7 1 b
          (plain_bytes b st)
          (Dict.insert (u8 (15 * b + 1)) (tell_tale (u8 (15 * b + 1)) (st 1)) m)
        ≡ rows b st
  unfolding decode_bytes Dict.insert
  fill_rows (suc (suc (suc (suc b)))) old m h k = absurd (omega arith)
  fill_rows b old m h (inl e) = simp (e, low_status, high_status) refl
  fill_rows b old m h (inr e) = simp (e, low_status, high_status) refl

  decode_rows :
      (b : ℕ) (old : ℕ → ℕ) (f : Fms1)
      → b < 4
      → (f.block_id ≡ b → (f.ttss ≡ []) ⊎ (f.ttss ≡ rows b old))
      → decode_data f (plain_bytes b st) ≡ ok (record { block_id = b; ttss = rows b st })
  unfolding decode_data
  decode_rows b old f h known =
      rw (head_block b (st 1) (omega arith) (small 1), head_status b (omega arith))
        (elim (Bool-cases (f.block_id == b)) [
          | inl same ↦ ground (arith, same, fill_rows b old f.ttss h (known ((==_iff _ _).0 same)))
          | inr other ↦ ground (arith, other, fill_rows b old [] h (inl refl))
        ])

  -- A frame with the fifteen tell tales of one of the four blocks, each status below 8, is encoded
  -- into eight bytes from which any frame reads block and tell tales back, be it without tell tales,
  -- on another block, or with tell tales of this one.
  pub decode_data-encode_data_fms :
      (b : ℕ) (old : ℕ → ℕ) (f : Fms1) (buf : List ℕ)
      → b < 4
      → length buf ≡ 8
      → (f.block_id ≡ b → (f.ttss ≡ []) ⊎ (f.ttss ≡ rows b old))
      → (encode_data (record { block_id = b; ttss = rows b st }) buf >>= decode_data f)
        ≡ ok (record { block_id = b; ttss = rows b st })
  decode_data-encode_data_fms b old f buf h len known =
      rw (encode_rows b buf h, overwrite_all (plain_bytes b st) buf (sym len))
        (decode_rows b old f h known)
