-- ===== src/Database/Descriptions.antt =====
-- The descriptions of a status, which are written as the elements of a list, are read from it again.
use mathlib.Core.Path.{subst}
use mathlib.Core.List.{append_assoc, append-nil}
use j1939_framework.Base.{
  ℕ, zero, suc, ◌+◌, ◌<◌, ◌≤◌, ◌%◌, ◌≡◌, ◌≢◌, ◌∙◌, refl, sym, ap, arith, inl, inr, true, false,
  String, List, [], ◌∷◌, ◌++◌, none, some, ◌==◌, Bool-cases,
}
use j1939_framework.Base.Dict
use j1939_framework.Database.{Json, returned, ◌>>=◌, answered}
use j1939_framework.Database.Parser.{describe, parse_descriptions}
use j1939_framework.Database.Writer.{Builder, write_descriptions}

abbrev pub Entries : Type 0
Entries = List (ℕ × String)

-- One more than the last place.
abbrev pub top : Entries → ℕ
top [] = 0
top ((k, s) ∷ []) = suc k
top ((k, s) ∷ e ∷ m) = top (e ∷ m)

-- The value after texts were assigned to elements, one after another.
abbrev pub list_from : {J : Type 0} → Builder J → J → Entries → J
list_from build j [] = j
list_from build j ((k, s) ∷ m) = list_from build (build.set_element j k (build.of_string s)) m

-- What the library documents of a list whose elements were assigned by their places, in rising order:
-- it reaches to the last one, and the places between are null.
pub record ListLaw {J : Type 0} (json : Json J) (build : Builder J) : Type 0 where
  pub reaches : (m : Entries) → Dict.IsSorted m → json.size (list_from build build.null m) ≡ top m
  pub assigned :
      (m : Entries) (i : ℕ) (s : String)
      → Dict.IsSorted m
      → Dict.find i m ≡ some s
      → json.element (list_from build build.null m) i ≡ some (build.of_string s)
  pub between :
      (m : Entries) (i : ℕ)
      → Dict.IsSorted m
      → Dict.find i m ≡ none
      → i < top m
      → (j : J) × (json.element (list_from build build.null m) i ≡ some j) × (json.is_null j ≡ true)
  pub texts :
      (s : String)
      → (json.is_null (build.of_string s) ≡ false) × (json.as_string (build.of_string s) ≡ some s)

abbrev Below : ℕ → Entries → Type 0
Below p [] = Unit
Below p ((k, s) ∷ m) = (k < p) × Below p m

abbrev From : ℕ → Entries → Type 0
From p [] = Unit
From p ((k, s) ∷ m) = (p ≤ k) × Dict.Rising k m

-- The entries that are left are those from here on.
abbrev LeftOf : Entries → ℕ → Entries → ℕ → Type 0
LeftOf all place [] left = left ≡ 0
LeftOf all place (e ∷ m) left = left + place ≡ top (e ∷ m)

Below-suc : (p : ℕ) (m : Entries) → Below p m → Below (suc p) m
Below-suc p [] b = tt
Below-suc p ((k, s) ∷ m) (h, b) = (omega arith, Below-suc p m b)

Below-snoc : (p : ℕ) (s : String) (m : Entries) → Below p m → Below (suc p) (m ++ (p, s) ∷ [])
Below-snoc p s [] b = (omega arith, tt)
Below-snoc p s ((k, t) ∷ m) (h, b) = (omega arith, Below-snoc p s m b)

insert-last : (p : ℕ) (s : String) (m : Entries) → Below p m → Dict.insert p s m ≡ m ++ (p, s) ∷ []
unfolding Dict.insert
insert-last p s [] b = refl
insert-last p s ((k, t) ∷ m) (h, b) = ground (arith, insert-last p s m b)

Rising-From : (k : ℕ) (m : Entries) → Dict.Rising k m → From (suc k) m
Rising-From k [] r = tt
Rising-From k ((j, s) ∷ m) (h, r) = (omega arith, r)

pub find_before : (i k : ℕ) (m : Entries) → Dict.Rising k m → i ≤ k → Dict.find i m ≡ none
unfolding Dict.find
find_before i k [] r h = refl
find_before i k ((j, s) ∷ m) (low, r) h = ground (arith, find_before i j m r (omega arith))

top_above : (k : ℕ) (s : String) (m : Entries) → Dict.Rising k m → k < top ((k, s) ∷ m)
top_above k s [] r = omega arith
top_above k s ((j, t) ∷ m) (low, r) = omega (arith, top_above j t m r)

top_rest : (k : ℕ) (s : String) (m : Entries) → top m ≤ top ((k, s) ∷ m)
top_rest k s [] = omega arith
top_rest k s (e ∷ m) = omega arith

LeftOf-next :
    (all : Entries) (place left k : ℕ) (s : String) (m : Entries)
    → k ≡ place
    → LeftOf all place ((k, s) ∷ m) (suc left)
    → LeftOf all (suc place) m left
LeftOf-next all place left k s [] e h = omega (arith, h)
LeftOf-next all place left k s (e' ∷ m) e h = omega (arith, h)

find_here : (i k : ℕ) (s : String) (m : Entries) → k ≡ i → Dict.find i ((k, s) ∷ m) ≡ some s
unfolding Dict.find
find_here i k s m e = ground arith

find_later : (i k : ℕ) (s : String) (m : Entries) → k ≢ i → Dict.find i ((k, s) ∷ m) ≡ Dict.find i m
unfolding Dict.find
find_later i k s m e = ground arith

write_descriptions_lem :
    {J : Type 0} (build : Builder J) (m : Entries) (j : J)
    → write_descriptions build m j ≡ list_from build j m
unfolding write_descriptions
write_descriptions_lem build [] j = refl
write_descriptions_lem build ((k, s) ∷ m) j =
    write_descriptions_lem build m (build.set_element j k (build.of_string s))

module _ {J : Type 0} (json : Json J) (build : Builder J) (law : ListLaw json build) where
  describe-text :
      (place : ℕ) (s : String) (found : Entries)
      → place < 256
      → Below place found
      → describe json (build.of_string s) place found ≡ returned (found ++ (place, s) ∷ [])
  unfolding describe ◌>>=◌ answered
  describe-text place s found small below =
      let cut : place % 256 ≡ place = omega arith in
      rw ((law.texts s).0, (law.texts s).1) (rw (cut, insert-last place s found below) refl)

  describe-null :
      (j : J) (place : ℕ) (found : Entries)
      → json.is_null j ≡ true
      → describe json j place found ≡ returned found
  unfolding describe
  describe-null j place found e = rw e refl

  parse_step :
      (j element : J) (left place : ℕ) (found found' : Entries)
      → json.element j place ≡ some element
      → describe json element place found ≡ returned found'
      → parse_descriptions json j (suc left) place found
        ≡ parse_descriptions json j left (suc place) found'
  unfolding parse_descriptions ◌>>=◌ answered
  parse_step j element left place found found' e d = rw e (rw d refl)

  parse-From :
      (all : Entries) (left place : ℕ) (es found : Entries)
      → Dict.IsSorted all
      → top all ≤ 256
      → From place es
      → Below place found
      → LeftOf all place es left
      → top es ≤ top all
      → ((i : ℕ) → place ≤ i → Dict.find i all ≡ Dict.find i es)
      → parse_descriptions json (list_from build build.null all) left place found
        ≡ returned (found ++ es)
  parse-From all zero place [] found sorted bound from below count inside same =
      unfold parse_descriptions in ap returned (sym (append-nil found))
  parse-From all zero place ((k, s) ∷ m) found sorted bound from below count inside same =
      absurd (omega (arith, count, top_above k s m from.1, from.0))
  parse-From all (suc left) place [] found sorted bound from below count inside same =
      absurd (omega (arith, count))
  parse-From all (suc left) place ((k, s) ∷ m) found sorted bound from below count inside same =
      let j = list_from build build.null all in
      elim (Bool-cases (k == place)) [
        | inl here ↦
            let e : k ≡ place = ground arith in
            let found' = found ++ (place, s) ∷ [] in
            let small : place < 256 = omega (arith, top_above k s m from.1) in
            parse_step j (build.of_string s) left place found found'
              (law.assigned all place s sorted (same place (omega arith) ∙ find_here place k s m e))
              (describe-text place s found small below)
            ∙ (parse-From all left (suc place) m found' sorted bound
                  (subst (λ (q : ℕ). From (suc q) m) e (Rising-From k m from.1))
                  (Below-snoc place s found below) (LeftOf-next all place left k s m e count)
                  (omega (arith, top_rest k s m))
                  (λ i h.
                    same i (omega arith) ∙ find_later i k s m (λ f. absurd (omega (arith, e, f))))
                ∙ ap returned (
                    append_assoc found ((place, s) ∷ []) m
                    ∙ ap (λ (q : ℕ). found ++ (q, s) ∷ m) (sym e)))
        | inr later ↦
            let other : k ≢ place = ground arith in
            let missing =
              same place (omega arith)
              ∙ (find_later place k s m other ∙ find_before place k m from.1 from.0) in
            let (n, e, is_null) =
              law.between all place sorted missing
                (omega (arith, top_above k s m from.1, from.0)) in
            parse_step j n left place found found e (describe-null n place found is_null)
            ∙ parse-From all left (suc place) ((k, s) ∷ m) found sorted bound
                (omega (arith, from.0), from.1) (Below-suc place found below) (omega (arith, count))
                inside (λ i h. same i (omega arith))
      ]

  start_From : (m : Entries) → Dict.IsSorted m → From 0 m
  start_From [] r = tt
  start_From ((k, s) ∷ m) r = (omega arith, r)

  start_LeftOf : (m : Entries) → LeftOf m 0 m (top m)
  start_LeftOf [] = refl
  start_LeftOf (e ∷ m) = omega arith

  -- Descriptions are read as they were written.
  pub parse_descriptions-write_descriptions :
      (m : Entries)
      → Dict.IsSorted m
      → top m ≤ 256
      → let j = write_descriptions build m build.null in
        parse_descriptions json j (json.size j) 0 [] ≡ returned m
  parse_descriptions-write_descriptions m sorted bound =
      rw (write_descriptions_lem build m build.null) (
        rw (law.reaches m sorted) (
          parse-From m (top m) 0 m [] sorted bound (start_From m sorted) tt (start_LeftOf m)
            (omega arith) (λ i h. refl)))
