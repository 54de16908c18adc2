-- ===== src/Examples/Documents.antt =====
-- A small JSON library, and a status that is written and read with it.
use package.text.Mathlib.Text.{◌==◌ as str_eq}
use j1939_framework.Base.{
  ℕ, suc, inl, inr, ◌==◌, Bool-cases, ◌≡◌, ◌∙◌, refl, ap, arith, Bool, true, false, String, List,
  [], ◌∷◌, Option, none, some, if◌then◌else◌,
}
use j1939_framework.Base.Dict
use j1939_framework.Spn.{Spn, status}
use j1939_framework.Generic
use j1939_framework.Generic.{register_spn}
use j1939_framework.Database.{Json, asserted}
use j1939_framework.Database.Parser.{parse_spn}
use j1939_framework.Database.Writer.{Builder, write_spn}
use j1939_framework.Database.Descriptions.{Entries, list_from, top, ListLaw, find_before}
use j1939_framework.Database.Renewed.{renewed}
use j1939_framework.Database.RoundTrip.{last_of, object_from, is_some, Law, parse_spn-write_spn}

data Value : Type 0 where
  null decimal : Value
  u_int : ℕ → Value
  words : String → Value
  with_member : Value → String → Value → Value
  with_element : Value → ℕ → Value → Value

abbrev look_up : String → Value → Option Value
look_up key null = none
look_up key decimal = none
look_up key (u_int n) = none
look_up key (words s) = none
look_up key (with_member j k v) = if str_eq k key then some v else look_up key j
look_up key (with_element j i v) = look_up key j

abbrev or_null : Option Value → Value
or_null none = null
or_null (some v) = v

abbrev is_u_int : Value → Bool
is_u_int (u_int n) = true
is_u_int _ = false

abbrev as_u_int : Value → ℕ
as_u_int (u_int n) = n
as_u_int _ = 0

abbrev as_string : Value → Option String
as_string (words s) = some s
as_string _ = none

abbrev is_words : Value → Bool
is_words (words s) = true
is_words _ = false

abbrev is_decimal : Value → Bool
is_decimal decimal = true
is_decimal _ = false

abbrev element_at : ℕ → Value → Option Value
element_at i null = none
element_at i decimal = none
element_at i (u_int n) = none
element_at i (words s) = none
element_at i (with_member j k v) = element_at i j
element_at i (with_element j k v) = if k == i then some v else element_at i j

abbrev extent : Value → ℕ
extent (with_element j k v) = suc k
extent _ = 0

abbrev is_null : Value → Bool
is_null null = true
is_null _ = false

abbrev reading : Json Value
reading = record {
  is_array = λ j. false;
  is_u_int = is_u_int;
  is_string = is_words;
  is_double = is_decimal;
  is_null = is_null;
  size = extent;
  as_u_int = as_u_int;
  as_string = as_string;
  is_member = λ j key. some (is_some (look_up key j));
  member = λ j key. some (or_null (look_up key j));
  element = λ j i. some (or_null (element_at i j));
}

abbrev building : Builder Value
building = record {
  null = null;
  of_u_int = u_int;
  of_string = words;
  set_member = with_member;
  set_element = with_element;
  gain_of = λ i. decimal;
  shift_of = λ i. decimal;
  units_of = λ i. words "km/h";
}

looked_up :
    (fields : List (String × Value)) (key : String) (j : Value)
    → look_up key (object_from building j fields) ≡ last_of key fields (look_up key j)
looked_up [] key j = refl
looked_up ((k, v) ∷ fields) key j = looked_up fields key (with_member j k v)

extent_lem :
    (k : ℕ) (s : String) (m : Entries) (j : Value)
    → extent (list_from building j ((k, s) ∷ m)) ≡ top ((k, s) ∷ m)
extent_lem k s [] j = refl
extent_lem k s ((i, t) ∷ m) j = extent_lem i t m (with_element j k (words s))

unassigned :
    (m : Entries) (i : ℕ) (j : Value)
    → Dict.find i m ≡ none
    → element_at i (list_from building j m) ≡ element_at i j
unfolding Dict.find
unassigned [] i j e = refl
unassigned ((k, s) ∷ m) i j e = elim (Bool-cases (k == i)) [
  | inl same ↦ absurd (cc (rw same at e))
  | inr other ↦ unassigned m i (with_element j k (words s)) (rw other at e) ∙ rw other refl
]

tail-IsSorted : (k : ℕ) (m : Entries) → Dict.Rising k m → Dict.IsSorted m
tail-IsSorted k [] r = tt
tail-IsSorted k ((i, s) ∷ m) r = r.1

extents : (m : Entries) → Dict.IsSorted m → extent (list_from building null m) ≡ top m
extents [] sorted = refl
extents ((k, s) ∷ m) sorted = extent_lem k s m null

assigned :
    (m : Entries) (i : ℕ) (s : String) (j : Value)
    → Dict.IsSorted m
    → Dict.find i m ≡ some s
    → element_at i (list_from building j m) ≡ some (words s)
unfolding Dict.find
assigned [] i s j sorted e = absurd (cc e)
assigned ((k, t) ∷ m) i s j sorted e = elim (Bool-cases (k == i)) [
  | inl same ↦
      let at_end : t ≡ s = cc (rw same at e) in
      unassigned m i (with_element j k (words t)) (find_before i k m sorted (ground arith))
      ∙ (rw same (ap (λ (x : String). some (words x)) at_end))
  | inr other ↦
      assigned m i s (with_element j k (words t)) (tail-IsSorted k m sorted) (rw other at e)
]

lists : ListLaw reading building
lists = record {
  reaches = extents;
  assigned =
      λ m i s sorted e. ap (λ (o : Option Value). some (or_null o)) (assigned m i s null sorted e);
  between = λ m i sorted e h.
      (null, ap (λ (o : Option Value). some (or_null o)) (unassigned m i null e), refl);
  texts = λ s. (refl, refl);
}

law : Law reading building
law = record {
  has = λ fields key. ap (λ (o : Option Value). some (is_some o)) (looked_up fields key null);
  gets =
      λ fields key v e. ap (λ (o : Option Value). some (or_null o)) (looked_up fields key null ∙ e);
  numbers = λ n h. (refl, refl);
  texts = λ s. (refl, refl);
  displays = λ i. (refl, refl, refl);
  lists = lists;
}

abbrev lamp : Spn
lamp = status (record {
  spec = record { spec_id = 7; number = 987; name = "Lamp"; offset = 1 };
  bit_offset = 2;
  bit_size = 2;
  descriptions = (0, "off") ∷ (3, "absent") ∷ [];
  value = 1;
})

parse_spn-write_spn_example :
    parse_spn reading Generic.empty 0 (write_spn building lamp)
    ≡ asserted (register_spn Generic.empty (renewed 0 lamp))
parse_spn-write_spn_example =
    parse_spn-write_spn reading building law Generic.empty 0 lamp
      ((omega arith, omega arith), ((omega arith, omega arith), (omega arith, omega arith)))
