-- ===== src/Generic/Compare.antt =====
-- GenericFrame::compare against what it means to say, and where it reads behind a text.
use j1939_framework.Base.{
  ℕ, suc, ◌+◌, ◌≤◌, ◌<◌, ◌⊎◌, Bool, true, ◌&&◌, List, [], ◌∷◌, ◌++◌, length, drop, leb,
  if◌then◌else◌,
}
use j1939_framework.Spn.{Spn, get_offset, get_byte_size}
use j1939_framework.Generic.{Spns, Generic, same_bytes}

-- One text holds the parameter whole, and the other lacks two of its bytes or more.
abbrev pub Overruns : List ℕ → List ℕ → Spn → Type 0
Overruns new old s =
    let end_ = get_offset s + get_byte_size s in
    ((end_ ≤ length new) × (suc (length old) < end_))
    ⊎ ((suc (length new) < end_) × (end_ ≤ length old))

abbrev pub SomeOverruns : List ℕ → List ℕ → Spns → Type 0
SomeOverruns new old [] = ⊥
SomeOverruns new old ((k, s) ∷ m) = Overruns new old s ⊎ SomeOverruns new old m

-- Two texts with their terminators agree on the parameter, and one of them holds it whole.
abbrev pub agrees : List ℕ → List ℕ → Spn → Bool
agrees new old s =
    let end_ = get_offset s + get_byte_size s in
    (if leb end_ (length new) then true else leb end_ (length old))
    && same_bytes (get_byte_size s) (drop (get_offset s) (new ++ 0 ∷ []))
        (drop (get_offset s) (old ++ 0 ∷ []))

-- The numbers of the parameters on which the texts do not agree.
abbrev pub changed : Spns → List ℕ → List ℕ → List ℕ
changed [] new old = []
changed ((k, s) ∷ m) new old = if agrees new old s then changed m new old else k ∷ changed m new old
