-- ===== src/Database/Accepted.antt =====
-- The sizes that a file may give a parameter (`parseSPNNumeric`, `parseSPNStatus`).
use mathlib.Core.Path.{subst}
use j1939_framework.Base.{
  ℕ, ◌+◌, ◌≤◌, ◌<◌, ◌≡◌, ◌⊎◌, ◌==◌, Bool-cases, sym, inl, inr, refl, arith, true, String, List, [],
  Option, none, some, u32,
}
use j1939_framework.Generic.{Generic}
use j1939_framework.Database.{
  Outcome, returned, refused, thrown, aborted, ◌>>=◌, asserted, answered, Json, build_numeric,
  build_status, build_string, status_fits,
}
use j1939_framework.Database.Parser.{
  parse_spn_numeric, parse_spn_status, parse_spn_string, parse_by_type, parse_spn,
}
use j1939_framework.Database.Sound.{
  Anything, Holds, bind-Holds, check-Holds, choose, out_of_range-is-error,
}
use j1939_framework.Database.Parameters.{
  answered_then, tokens_then, members_then, descriptions-Holds,
}

answered-Holds {ℓ} :
    {A : Type ℓ} (P : A → Type 0) (o : Option A)
    → ((a : A) → o ≡ some a → P a)
    → Holds P (answered o)
unfolding answered
answered-Holds P none k = tt
answered-Holds P (some a) k = k a refl

asserted_then {ℓ κ} :
    {A : Type ℓ} {B : Type κ} (Q : B → Type 0) (o : Option A) (f : A → Outcome B)
    → ((a : A) → Holds Q (f a))
    → Holds Q (asserted o >>= f)
unfolding asserted ◌>>=◌
asserted_then Q none f k = tt
asserted_then Q (some a) f k = k a

asserted_any {ℓ} :
    {A : Type ℓ} (Q : A → Type 0) (o : Option A) → ((a : A) → Q a) → Holds Q (asserted o)
unfolding asserted
asserted_any Q none k = tt
asserted_any Q (some a) k = k a

weaken {ℓ} :
    {A : Type ℓ} {P Q : Type 0} (o : Outcome A) → Holds (λ a. P) o → (P → Q) → Holds (λ a. Q) o
weaken (returned a) h k = k h
weaken (refused e) h k = h
weaken thrown h k = tt
weaken aborted h k = tt

abbrev pub NumericFits : ℕ → Type 0
NumericFits byte_size = (0 < byte_size) × (byte_size ≤ 4)

build_numeric-NumericFits :
    (g : Generic) (id number byte_size : ℕ) (name : String) (offset : ℕ)
    → Holds (λ g'. NumericFits byte_size) (build_numeric g id number byte_size name offset)
unfolding build_numeric
build_numeric-NumericFits g id number byte_size name offset =
    let Q : Generic → Type 0 = λ g'. NumericFits byte_size in
    bind-Holds Q _ _ (check-Holds _ _ out_of_range-is-error) (λ u in_range.
      let fits : NumericFits byte_size = ground (arith, in_range) in
      asserted_then Q _ _ (λ spec. asserted_then Q _ _ (λ built. asserted_any Q _ (λ g'. fits))))

-- The sum of the two u32 wraps.
abbrev pub StatusFits : ℕ → ℕ → Type 0
StatusFits bit_offset bit_size = (0 < bit_size) × (u32 (bit_size + bit_offset) ≤ 8)

status_fits-StatusFits :
    (bit_offset bit_size : ℕ)
    → status_fits bit_offset bit_size ≡ true
    → StatusFits bit_offset bit_size
unfolding status_fits
status_fits-StatusFits bit_offset bit_size h = ground (arith, h)

build_status-StatusFits :
    (Q : Generic → Type 0) (g : Generic) (id number bit_offset bit_size : ℕ) (name : String)
    (offset : ℕ) (descriptions : List (ℕ × String))
    → ((g' : Generic) → Q g')
    → Holds Q (build_status g id number bit_offset bit_size name offset descriptions)
unfolding build_status
build_status-StatusFits Q g id number bit_offset bit_size name offset descriptions k =
    asserted_then Q _ _ (λ spec. asserted_then Q _ _ (λ built. asserted_any Q _ k))

module _ {ℓ} {J : Type ℓ} (json : Json J) where
  same_answer :
      (o : Option J) (a : J)
      → o ≡ some a
      → Holds (λ b. json.as_u_int b ≡ json.as_u_int a) (answered o)
  same_answer o a e = answered-Holds _ o (λ b f. cc (e, f))

  pub parse_spn_numeric-NumericFits :
      (g : Generic) (id : ℕ) (spn size : J)
      → json.member spn "byteSize" ≡ some size
      → Holds (λ g'. NumericFits (json.as_u_int size)) (parse_spn_numeric json g id spn)
  unfolding parse_spn_numeric
  parse_spn_numeric-NumericFits g id spn size e =
      let Q : Generic → Type 0 = λ g'. NumericFits (json.as_u_int size) in
      members_then json Q _ _ _ (λ complete. tokens_then Q _ _ (
        answered_then Q _ _ (λ name. answered_then Q _ _ (λ number. answered_then Q _ _ (λ offset.
          answered_then Q _ _ (λ gain. answered_then Q _ _ (λ shift.
            bind-Holds Q _ _ (same_answer _ size e) (λ byte_size same. answered_then Q _ _ (λ units.
              tokens_then Q _ _ (
                answered_then Q _ _ (λ label.
                  subst
                    (λ (n : ℕ).
                      Holds (λ g'. NumericFits n)
                        (build_numeric g id (json.as_u_int number) (json.as_u_int byte_size) label
                          (json.as_u_int offset)))
                    same (build_numeric-NumericFits g id _ _ label _))))))))))))

  pub parse_spn_status-StatusFits :
      (g : Generic) (id : ℕ) (spn bit_offset bit_size : J)
      → json.member spn "bitOffset" ≡ some bit_offset
      → json.member spn "bitSize" ≡ some bit_size
      → Holds
          (λ g'. StatusFits (json.as_u_int bit_offset) (json.as_u_int bit_size))
          (parse_spn_status json g id spn)
  unfolding parse_spn_status
  parse_spn_status-StatusFits g id spn bit_offset bit_size e f =
      let fits : Type 0 = StatusFits (json.as_u_int bit_offset) (json.as_u_int bit_size) in
      let Q : Generic → Type 0 = λ g'. fits in
      members_then json Q _ _ _ (λ complete. tokens_then Q _ _ (
        answered_then Q _ _ (λ name. answered_then Q _ _ (λ number. answered_then Q _ _ (λ offset.
          bind-Holds Q _ _ (same_answer _ bit_offset e) (λ o same_o.
            bind-Holds Q _ _ (same_answer _ bit_size f) (λ s same_s. tokens_then Q _ _ (
              bind-Holds Q _ _ (check-Holds _ _ out_of_range-is-error) (λ u in_range.
                let h : fits =
                  subst (λ (n : ℕ). StatusFits n (json.as_u_int bit_size)) same_o
                    (subst (λ (n : ℕ). StatusFits (json.as_u_int o) n) same_s
                      (status_fits-StatusFits _ _ in_range)) in
                answered_then Q _ _ (λ described.
                  bind-Holds Q _ _
                    (choose Anything described _ _
                      (answered_then Anything _ _
                        (λ list. descriptions-Holds json list (json.size list) 0 []))
                      tt)
                    (λ descriptions v. answered_then Q _ _ (λ label.
                      build_status-StatusFits Q g id _ _ _ label _ descriptions
                        (λ g'. h)))))))))))))

  parse_spn_string-Anything :
      (g : Generic) (id : ℕ) (spn : J) → Holds Anything (parse_spn_string json g id spn)
  unfolding parse_spn_string build_string
  parse_spn_string-Anything g id spn = answered_then Anything _ _ (λ name.
      answered_then Anything _ _ (λ number.
        answered_then Anything _ _
          (λ label. asserted_then Anything _ _ (λ spec. asserted_any Anything _ (λ g'. tt)))))

  -- What a file says of a parameter that is read from it: the number of its type is that of a numeric
  -- parameter of 1 to 4 bytes, of a status with a size above 0 whose sum with the offset, as u32, is at
  -- most 8, or of a string.
  abbrev pub Allowed : (kind size bit_offset bit_size : J) → Type 0
  Allowed kind size bit_offset bit_size =
      ((json.as_u_int kind ≡ 0) × NumericFits (json.as_u_int size))
      ⊎ (((json.as_u_int kind ≡ 1) × StatusFits (json.as_u_int bit_offset) (json.as_u_int bit_size))
          ⊎ (json.as_u_int kind ≡ 2))

  parse_by_type-Allowed :
      (g : Generic) (id : ℕ) (spn kind size bit_offset bit_size : J)
      → json.member spn "byteSize" ≡ some size
      → json.member spn "bitOffset" ≡ some bit_offset
      → json.member spn "bitSize" ≡ some bit_size
      → Holds
          (λ g'. Allowed kind size bit_offset bit_size)
          (parse_by_type json (json.as_u_int kind) g id spn)
  unfolding parse_by_type
  parse_by_type-Allowed g id spn kind size bit_offset bit_size e f h =
      let Q : Generic → Type 0 = λ g'. Allowed kind size bit_offset bit_size in
      elim (Bool-cases (json.as_u_int kind == 0)) [
        | inl is_numeric ↦ rw is_numeric (
            weaken (parse_spn_numeric json g id spn) (parse_spn_numeric-NumericFits g id spn size e)
              (λ fits. inl (ground (arith, is_numeric), fits)))
        | inr other ↦ elim (Bool-cases (json.as_u_int kind == 1)) [
          | inl is_status ↦
              rw (other, is_status)
                (weaken (parse_spn_status json g id spn)
                  (parse_spn_status-StatusFits g id spn bit_offset bit_size f h)
                  (λ fits. inr (inl (ground (arith, is_status), fits))))
          | inr third ↦ elim (Bool-cases (json.as_u_int kind == 2)) [
            | inl is_text ↦
                rw (other, third, is_text)
                  (weaken (parse_spn_string json g id spn) (parse_spn_string-Anything g id spn)
                    (λ any. inr (inr (ground (arith, is_text)))))
            | inr unknown ↦ rw (other, third, unknown) (λ e'. cc)
          ]
        ]
      ]

  parse_spn-Holds :
      (g : Generic) (id : ℕ) (spn kind size bit_offset bit_size : J)
      → json.member spn "type" ≡ some kind
      → json.member spn "byteSize" ≡ some size
      → json.member spn "bitOffset" ≡ some bit_offset
      → json.member spn "bitSize" ≡ some bit_size
      → Holds (λ g'. Allowed kind size bit_offset bit_size) (parse_spn json g id spn)
  unfolding parse_spn
  parse_spn-Holds g id spn kind size bit_offset bit_size e f h k =
      let Q : Generic → Type 0 = λ g'. Allowed kind size bit_offset bit_size in
      members_then json Q _ _ _ (λ complete. tokens_then Q _ _ (
        answered_then Q _ _ (λ name. answered_then Q _ _ (λ number.
          bind-Holds Q _ _ (same_answer _ kind e) (λ asked same. tokens_then Q _ _ (
            subst (λ (n : ℕ). Holds Q (parse_by_type json n g id spn)) (sym same)
              (parse_by_type-Allowed g id spn kind size bit_offset bit_size f h k)))))))

  -- Whatever the JSON library answers: if a parameter is read from an object, its type is known, and a
  -- numeric parameter has 1 to 4 bytes in the file, and a status a size above 0 whose sum with the
  -- offset, as u32, is at most 8.
  pub parse_spn-Allowed :
      (g g' : Generic) (id : ℕ) (spn kind size bit_offset bit_size : J)
      → json.member spn "type" ≡ some kind
      → json.member spn "byteSize" ≡ some size
      → json.member spn "bitOffset" ≡ some bit_offset
      → json.member spn "bitSize" ≡ some bit_size
      → parse_spn json g id spn ≡ returned g'
      → Allowed kind size bit_offset bit_size
  parse_spn-Allowed g g' id spn kind size bit_offset bit_size e f h k accepted =
      rw accepted at (parse_spn-Holds g id spn kind size bit_offset bit_size e f h k)
