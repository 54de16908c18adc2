-- ===== src/Trc/Octets.antt =====
-- How the loop of `readNextLine` goes over the octets of a written line, and ends.
use mathlib.Core.List.{append_assoc}
use j1939_framework.Base.{
  ℕ, ◌+◌, ◌<◌, ◌≡◌, ◌∙◌, refl, ap, arith, Bool, true, false, List, [], ◌∷◌, ◌++◌, ltb, ◌==◌, length,
  length-append, All, if◌then◌else◌, IsByte,
}
use j1939_framework.Trc.Stream.{Stream, Doubles, set_hex, get}
use j1939_framework.Trc.Reader.{
  Fields, store_octet, read_data, read_field, round, go_on, read_loop, is_blank,
}
use j1939_framework.Trc.Digits.{Shows, show-Shows, pad-Shows}
use j1939_framework.Trc.Writer.{pad, show, show_octets}
use j1939_framework.Trc.Extract.{ahead, IsDigit-bounds, not_sep, extract_u32-shown}
use j1939_framework.Trc.Tokens.{Runs, run_field, run_blanks}

no_error : (more : Bool) → ((if more then 4 else 5) == 7) ≡ false
no_error true = refl
no_error false = refl

next_state : (more : Bool) → (if more then 4 else 5) + 1 ≡ (if more then 5 else 6)
next_state true = refl
next_state false = refl

abbrev pub last_of : ℕ → List ℕ → ℕ
last_of n [] = n
last_of n (m ∷ ns) = last_of m ns

module _ {D : Type 0} (doubles : Doubles D) where
  read_field-data :
      (n d : ℕ) (text rest : List ℕ) (p : Fields D)
      → n < 256
      → Shows true n text
      → read_field doubles (ahead true (text ++ b' ' ∷ rest)) d (record p { state = 5 })
        ≡ (ahead true (b' ' ∷ rest), store_octet n (record p { state = 5 }))
  unfolding read_field read_data set_hex
  read_field-data n d text rest p small shows =
      rw (extract_u32-shown true n b' ' p.octet text rest (omega arith) (omega arith) shows) refl

  stored-octet :
      (n : ℕ) (more : Bool) (p : Fields D)
      → n < 256
      → ltb (length (p.bytes ++ (n ∷ []))) p.size ≡ more
      → store_octet n (record p { state = 5 })
        ≡ record p { octet = n; bytes = p.bytes ++ (n ∷ []); state = if more then 4 else 5 }
  unfolding store_octet
  stored-octet n more p small e = rw e (ground arith)

  -- The octets of a line go on as long as there are fewer than its length.
  run_octet :
      (n : ℕ) (more : Bool) (text rest : List ℕ) (p : Fields D) (result : Stream × Fields D)
      → n < 256
      → ltb (length (p.bytes ++ (n ∷ []))) p.size ≡ more
      → Shows true n text
      → Runs doubles
          (ahead true (b' ' ∷ rest))
          (record p { octet = n; bytes = p.bytes ++ (n ∷ []); state = if more then 5 else 6 })
          result
      → Runs doubles (ahead true (text ++ b' ' ∷ rest)) (record p { state = 5 }) result
  run_octet n more [] rest p result small e shows r = absurd (shows.1.1 refl)
  run_octet n more (d ∷ ds) rest p result small e shows r =
      run_field doubles true true d _ (b' ' ∷ rest) (record p { state = 5 }) _ result
        (IsDigit-bounds true d shows.1.0.0).0 (not_sep true d shows.1.0.0).0
        (read_field-data n d (d ∷ ds) rest p small shows
          ∙ ap (λ (q : Fields D). (ahead true (b' ' ∷ rest), q)) (stored-octet n more p small e))
        (no_error more) (rw (next_state more) r)

  octet-Shows : (n : ℕ) → n < 256 → Shows true n (pad 2 b'0' (show true n))
  octet-Shows n h = pad-Shows true 2 n (show true n) (show-Shows true n (omega arith))

  last_shown :
      (n : ℕ) (rest : List ℕ)
      → show_octets (n ∷ []) ++ rest ≡ pad 2 b'0' (show true n) ++ b' ' ∷ rest
  unfolding show_octets
  last_shown n rest = append_assoc (pad 2 b'0' (show true n)) (b' ' ∷ []) rest

  next_shown :
      (n : ℕ) (ns rest : List ℕ)
      → show_octets (n ∷ ns) ++ rest ≡ pad 2 b'0' (show true n) ++ b' ' ∷ (show_octets ns ++ rest)
  unfolding show_octets
  next_shown n ns rest = append_assoc (pad 2 b'0' (show true n)) (b' ' ∷ show_octets ns) rest

  -- All octets of a line are read, when its length says how many there are.
  pub run_octets :
      (n : ℕ) (ns rest : List ℕ) (p : Fields D) (result : Stream × Fields D)
      → All IsByte (n ∷ ns)
      → length p.bytes + length (n ∷ ns) ≡ p.size
      → Runs doubles
          (ahead true rest)
          (record p { octet = last_of n ns; bytes = p.bytes ++ (n ∷ ns); state = 6 })
          result
      → Runs doubles (ahead true (show_octets (n ∷ ns) ++ rest)) (record p { state = 5 }) result
  run_octets n [] rest p result bytes size r = rw (last_shown n rest) (
      run_octet n false (pad 2 b'0' (show true n)) rest p result bytes.0
        (ground (arith, size, length-append p.bytes (n ∷ []))) (octet-Shows n bytes.0)
        (run_blanks doubles 1 true rest _ result r))
  run_octets n (m ∷ ns) rest p result bytes size r = rw (next_shown n (m ∷ ns) rest) (
      run_octet n true (pad 2 b'0' (show true n)) (show_octets (m ∷ ns) ++ rest) p result bytes.0
        (ground (arith, size, length-append p.bytes (n ∷ []))) (octet-Shows n bytes.0)
        (run_blanks doubles 1 true _ _ result (
          run_octets m ns rest (record p { octet = n; bytes = p.bytes ++ (n ∷ []) }) result bytes.1
            (omega (arith, size, length-append p.bytes (n ∷ [])))
            (rw (append_assoc p.bytes (n ∷ []) (m ∷ ns)) r))))

  pub run_end :
      (hex : Bool) (rest : List ℕ) (p : Fields D)
      → Runs doubles (ahead hex (b'\n' ∷ rest)) p (ahead hex rest, p)
  unfolding read_loop round is_blank go_on get
  run_end hex rest p = (1, refl)
