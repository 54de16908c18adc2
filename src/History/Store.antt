-- ===== src/History/Store.antt =====
-- The histories of all parameters, by frame and parameter (`historyMap` and `saveToHistory` of graph.cpp).
use j1939_framework.Base.{
  ℕ, ◌+◌, ◌*◌, ◌%◌, ◌^◌, ◌<◌, ◌≡◌, ◌≢◌, ◌∙◌, refl, sym, ap, arith, Bool, false, List, ◌==◌, none,
  some, if◌then◌else◌, ◌<<◌, bit_or_low,
}
use j1939_framework.Base.Dict
use j1939_framework.Base.Dict.{find-insert}
use j1939_framework.Common.{Result, ok, err, ◌>>=◌}
use j1939_framework.Spn.{Spn, Numeric, get_spn_number}
use j1939_framework.TimeStamp.{TimeStamp}
use j1939_framework.History.{History, new_history, add_sample, history_key, save_to_history}

history_key_lem :
    (id number : ℕ)
    → id < 0x100000000
    → number < 0x100000000
    → history_key id number ≡ number * 0x100000000 + id
unfolding history_key
history_key_lem id number i n =
    let fits : (number << 32) % 2 ^ 64 ≡ number << 32 = omega arith in
    rw fits (bit_or_low 32 number id i)

-- What was known of a parameter.
abbrev pub history_of {ℓ} : {D : Type ℓ} → List (ℕ × History D) → ℕ → ℕ → History D
history_of histories id number = elim (Dict.find (history_key id number) histories) [
  | none ↦ new_history
  | some h ↦ h
]

-- A call that is followed by another step and returns has returned itself.
bind_ok {ℓ} :
    {A : Type ℓ} {B : Type ℓ} (r : Result A) (f : A → B) (b : B)
    → (r >>= (λ a. ok (f a))) ≡ ok b
    → (a : A) × (r ≡ ok a) × (f a ≡ b)
bind_ok (ok a) f b e = (a, refl, ground arith)
bind_ok (err x) f b e = cc

other_key :
    (id number j m : ℕ)
    → id < 0x100000000
    → number < 0x100000000
    → j < 0x100000000
    → m < 0x100000000
    → (j ≡ id → m ≢ number)
    → history_key id number == history_key j m ≡ false
other_key id number j m i n i' n' apart =
    rw (history_key_lem id number i n) (rw (history_key_lem j m i' n') (ground arith))

history_of-insert {ℓ} :
    {D : Type ℓ} (key id number : ℕ) (h : History D) (histories : List (ℕ × History D))
    → history_of (Dict.insert key h histories) id number
      ≡ (if key == history_key id number then h else history_of histories id number)
history_of-insert key id number h histories =
    ap (λ o. elim o [ none ↦ new_history | some g ↦ g ])
      (find-insert key (history_key id number) h histories)
    ∙ ground arith

module _ {ℓ} {D : Type ℓ} (same_double : D → D → Bool) (get_formatted_value : Numeric → D) where
  -- If a parameter is saved for a frame and nothing is thrown, its history for that frame is then
  -- the old one, or a new one, with the parameter added. The history of another parameter, or for
  -- another frame, is as it was. Identifiers and numbers are u32.
  pub save_to_history_lem :
      (histories histories' : List (ℕ × History D)) (id : ℕ) (spn : Spn) (now : TimeStamp) (j m : ℕ)
      → id < 0x100000000
      → get_spn_number spn < 0x100000000
      → j < 0x100000000
      → m < 0x100000000
      → (j ≡ id → m ≢ get_spn_number spn)
      → save_to_history same_double get_formatted_value histories id spn now ≡ ok histories'
      → (add_sample same_double get_formatted_value
            (history_of histories id (get_spn_number spn))
            now
            spn
          ≡ ok (history_of histories' id (get_spn_number spn)))
        × (history_of histories' j m ≡ history_of histories j m)
  unfolding save_to_history
  save_to_history_lem histories histories' id spn now j m i n j_fits m_fits apart saved =
      let number = get_spn_number spn in
      let key = history_key id number in
      let (h, added, whole) =
        bind_ok
          (add_sample same_double get_formatted_value (history_of histories id number) now spn)
          (λ h. Dict.insert key h histories) histories' saved in
      let there : history_of histories' id number ≡ h =
        ap (λ m. history_of m id number) (sym whole)
        ∙ history_of-insert key id number h histories
        ∙ ground arith in
      (
        added ∙ ap (λ x. ok x) (sym there),
        ap (λ hs. history_of hs j m) (sym whole)
            ∙ history_of-insert key j m h histories
            ∙ rw (other_key id number j m i n j_fits m_fits apart) refl,
      )
