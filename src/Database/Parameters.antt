-- ===== src/Database/Parameters.antt =====
-- The parameters that are read from a document (`parseSPNNumeric`, `parseSPNStatus`, `parseSPNString`).
use j1939_framework.Base.{
  ℕ, zero, suc, ◌+◌, Bool, true, false, String, List, [], ◌∷◌, Option, none, some, ◌==◌,
  if◌then◌else◌,
}
use j1939_framework.Generic.{Generic}
use j1939_framework.Database.{
  error_unexpected_tokens, Outcome, returned, ◌>>=◌, check, answered, Json,
}
use j1939_framework.Database.Parser.{
  has_members, describe, parse_descriptions, parse_spn_numeric, parse_spn_status, parse_spn_string,
  parse_by_type, parse_spn, parse_spns,
}
use j1939_framework.Database.Sound.{
  AllSound, AllSoundIn, Anything, Holds, bind-Holds, check-Holds, choose, out_of_range-is-error,
  build_numeric-AllSound, build_status-AllSound, build_string-AllSound,
}

-- The steps that only ask: an exception, or a refusal with an error code.
pub answered_then {ℓ κ} :
    {A : Type ℓ} {B : Type κ} (Q : B → Type 0) (o : Option A) (f : A → Outcome B)
    → ((a : A) → Holds Q (f a))
    → Holds Q (answered o >>= f)
unfolding answered ◌>>=◌
answered_then Q none f k = tt
answered_then Q (some a) f k = k a

pub tokens_then {κ} :
    {B : Type κ} (Q : B → Type 0) (c : Bool) (f : Unit {0} → Outcome B)
    → Holds Q (f tt)
    → Holds Q (check c error_unexpected_tokens >>= f)
unfolding check ◌>>=◌
tokens_then Q true f k = k
tokens_then Q false f k = λ e. cc

branch_then {ℓ κ} :
    {A : Type ℓ} {B : Type κ} (Q : B → Type 0) (b : Bool) (x y : Outcome A) (f : A → Outcome B)
    → Holds Q (x >>= f)
    → Holds Q (y >>= f)
    → Holds Q ((if b then x else y) >>= f)
branch_then Q true x y f h k = h
branch_then Q false x y f h k = k

pub answered_any {ℓ} : {A : Type ℓ} (o : Option A) → Holds Anything (answered o)
unfolding answered
answered_any none = tt
answered_any (some a) = tt

module _ {ℓ} {J : Type ℓ} (json : Json J) where
  pub members_then {κ} :
      {B : Type κ} (Q : B → Type 0) (j : J) (keys : List String) (f : Bool → Outcome B)
      → ((b : Bool) → Holds Q (f b))
      → Holds Q (has_members json j keys >>= f)
  unfolding has_members answered ◌>>=◌
  members_then Q j [] f k = k true
  members_then Q j (key ∷ keys) f k =
      elim (json.is_member j key)
        as (λ o. Holds Q (
          (answered o >>= (λ found. if found then has_members json j keys else returned false))
          >>= f)) [
            | none ↦ tt
            | some found ↦
                branch_then Q found (has_members json j keys) (returned false) f
                  (members_then Q j keys f k) (k false)
          ]

  parse_spn_numeric-AllSound :
      (g : Generic) (id : ℕ) (spn : J)
      → AllSound g.spns
      → Holds AllSoundIn (parse_spn_numeric json g id spn)
  unfolding parse_spn_numeric
  parse_spn_numeric-AllSound g id spn a =
      let Q : Generic → Type 0 = λ g'. AllSound g'.spns in
      members_then AllSoundIn _ _ _ (λ complete. tokens_then AllSoundIn _ _ (
        answered_then AllSoundIn _ _ (λ name. answered_then AllSoundIn _ _ (λ number.
          answered_then AllSoundIn _ _ (λ offset. answered_then AllSoundIn _ _ (λ gain.
            answered_then AllSoundIn _ _ (λ shift. answered_then AllSoundIn _ _ (λ byte_size.
              answered_then AllSoundIn _ _ (λ units. tokens_then AllSoundIn _ _ (
                answered_then AllSoundIn _ _
                  (λ label. build_numeric-AllSound g id _ _ _ label a)))))))))))

  describe-Holds :
      (description : J) (place : ℕ) (found : List (ℕ × String))
      → Holds Anything (describe json description place found)
  unfolding describe
  describe-Holds description place found =
      choose Anything (json.is_null description) _ _ tt (answered_then Anything _ _ (λ text. tt))

  pub descriptions-Holds :
      (j : J) (left place : ℕ) (found : List (ℕ × String))
      → Holds Anything (parse_descriptions json j left place found)
  unfolding parse_descriptions
  descriptions-Holds j zero place found = tt
  descriptions-Holds j (suc left) place found = answered_then Anything _ _ (λ description.
      bind-Holds Anything _ _ (describe-Holds description place found)
        (λ found' u. descriptions-Holds j left (suc place) found'))

  parse_spn_status-AllSound :
      (g : Generic) (id : ℕ) (spn : J)
      → AllSound g.spns
      → Holds AllSoundIn (parse_spn_status json g id spn)
  unfolding parse_spn_status
  parse_spn_status-AllSound g id spn a = members_then AllSoundIn _ _ _ (λ complete.
      tokens_then AllSoundIn _ _ (
        answered_then AllSoundIn _ _ (λ name. answered_then AllSoundIn _ _ (λ number.
          answered_then AllSoundIn _ _ (λ offset. answered_then AllSoundIn _ _ (λ bit_offset.
            answered_then AllSoundIn _ _ (λ bit_size. tokens_then AllSoundIn _ _ (
              bind-Holds AllSoundIn _ _ (check-Holds _ _ out_of_range-is-error) (λ u in_range.
                answered_then AllSoundIn _ _ (λ described.
                  bind-Holds AllSoundIn _ _
                    (choose Anything described _ _
                      (answered_then Anything _ _
                        (λ list. descriptions-Holds list (json.size list) 0 []))
                      tt)
                    (λ descriptions v.
                      answered_then AllSoundIn _ _ (λ label.
                        build_status-AllSound g id _ _ _ _ label descriptions a))))))))))))

  parse_spn_string-AllSound :
      (g : Generic) (id : ℕ) (spn : J)
      → AllSound g.spns
      → Holds AllSoundIn (parse_spn_string json g id spn)
  unfolding parse_spn_string
  parse_spn_string-AllSound g id spn a = answered_then AllSoundIn _ _ (λ name.
      answered_then AllSoundIn _ _ (λ number.
        answered_then AllSoundIn _ _
          (λ label. build_string-AllSound g id (json.as_u_int number) label a)))

  parse_by_type-AllSound :
      (kind : ℕ) (g : Generic) (id : ℕ) (spn : J)
      → AllSound g.spns
      → Holds AllSoundIn (parse_by_type json kind g id spn)
  unfolding parse_by_type
  parse_by_type-AllSound kind g id spn a =
      choose AllSoundIn (kind == 0) _ _ (parse_spn_numeric-AllSound g id spn a) (
        choose AllSoundIn (kind == 1) _ _ (parse_spn_status-AllSound g id spn a)
          (choose AllSoundIn (kind == 2) _ _ (parse_spn_string-AllSound g id spn a) (λ e. cc)))

  parse_spn-AllSound :
      (g : Generic) (id : ℕ) (spn : J)
      → AllSound g.spns
      → Holds AllSoundIn (parse_spn json g id spn)
  unfolding parse_spn
  parse_spn-AllSound g id spn a = members_then AllSoundIn _ _ _ (λ complete.
      tokens_then AllSoundIn _ _ (
        answered_then AllSoundIn _ _ (λ name. answered_then AllSoundIn _ _ (λ number.
          answered_then AllSoundIn _ _ (λ kind.
            tokens_then AllSoundIn _ _ (parse_by_type-AllSound (json.as_u_int kind) g id spn a))))))

  pub parse_spns-AllSound :
      (spns : J) (left place : ℕ) (g : Generic) (id : ℕ)
      → AllSound g.spns
      → Holds AllSoundIn (parse_spns json spns left place g id)
  unfolding parse_spns
  parse_spns-AllSound spns zero place g id a = a
  parse_spns-AllSound spns (suc left) place g id a = answered_then AllSoundIn _ _ (λ spn.
      bind-Holds AllSoundIn _ _ (parse_spn-AllSound g (id + place) spn a)
        (λ g' b. parse_spns-AllSound spns left (suc place) g' id b))
