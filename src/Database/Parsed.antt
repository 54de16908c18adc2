-- ===== src/Database/Parsed.antt =====
-- What a database holds after a file has been read (`parseJsonFile`), whatever the JSON library answers.
use j1939_framework.Base.{
  ℕ, zero, suc, ◌≡◌, ◌≢◌, inl, inr, refl, sym, arith, Bool, true, false, not, ◌&&◌, String, List,
  [], ◌∷◌, ◌++◌, Option, none, some, ◌==◌, if◌then◌else◌, All, Bool-cases, ◌>>◌, bit_and,
}
use j1939_framework.Common.{dst_addr_mask, dst_addr_offset}
use j1939_framework.Header
use j1939_framework.Frame.{Frame}
use j1939_framework.Diagnosis.{dm1_pgn}
use j1939_framework.Database.{
  ErrorCode, error_ok, error_file_not_found, error_json_syntax, error_unexpected_tokens,
  error_out_of_range, error_unknown_spn_type, error_forbidden_token, Outcome, returned, refused,
  thrown, aborted, ◌>>=◌, asserted, answered, Json,
}
use j1939_framework.Database.Parser.{
  unknown_frame, Database, parse_frame, parse_frames, parse_json_file,
}
use j1939_framework.Database.Sound.{IsSoundFrame, Anything, Holds, bind-Holds, check-Holds, choose}
use j1939_framework.Database.Parameters.{
  answered_then, tokens_then, answered_any, parse_spns-AllSound,
}

permitted : (pgn : ℕ) {stored : ℕ} → not (pgn == dm1_pgn) ≡ true → stored ≡ pgn → stored ≢ dm1_pgn
permitted pgn allowed same e = absurd (ground (arith, allowed, same, e))

forbidden-is-error : error_forbidden_token ≢ error_ok
forbidden-is-error e = cc

constructed-Holds :
    (pgn : ℕ) (name : String)
    → Holds (λ (h : Header.Header). h.pgn ≡ pgn) (asserted (Header.construct pgn name))
unfolding asserted Header.construct Header.pdu_format_group
constructed-Holds pgn name =
    elim (Header.pdu_format_group (Header.blank pgn name))
      as (λ g.
        Holds (λ (h : Header.Header). h.pgn ≡ pgn)
          (asserted (elim g [
            | Header.pdu_format_2 ↦ some (Header.blank pgn name)
            | Header.pdu_format_1 ↦
                if bit_and pgn dst_addr_mask >> dst_addr_offset == 0
                then some (Header.blank pgn name)
                else none
          ]))) [
            | Header.pdu_format_2 ↦ refl
            | Header.pdu_format_1 ↦
                elim (Bool-cases (bit_and pgn dst_addr_mask >> dst_addr_offset == 0)) [
                  | inl clear ↦ rw clear refl
                  | inr specific ↦ rw specific tt
                ]
          ]

unfoldable pub is_ok : ErrorCode → Bool
is_ok error_ok = true
is_ok e = false

is_ok-false : (e : ErrorCode) → e ≢ error_ok → is_ok e ≡ false
unfolding is_ok
is_ok-false error_ok n = absurd (n refl)
is_ok-false error_file_not_found n = refl
is_ok-false error_json_syntax n = refl
is_ok-false error_unexpected_tokens n = refl
is_ok-false error_out_of_range n = refl
is_ok-false error_unknown_spn_type n = refl
is_ok-false error_forbidden_token n = refl

abbrev IsRead : Database × Bool → Type 0
IsRead r = All IsSoundFrame r.0.frames × (r.1 ≡ is_ok r.0.error_code)

module _ {ℓ} {J : Type ℓ} (json : Json J) where
  abbrev IsSoundResult : Frame × ℕ → Type 0
  IsSoundResult r = IsSoundFrame r.0

  asked-Holds {κ} :
      {A : Type κ} (b : Bool) (o : Option A) (a : A)
      → Holds Anything (if b then answered o else returned a)
  asked-Holds b o a = choose Anything b _ _ (answered_any o) tt

  parse_frame-IsSound : (id : ℕ) (j : J) → Holds IsSoundResult (parse_frame json id j)
  unfolding parse_frame
  parse_frame-IsSound id j = answered_then IsSoundResult _ _ (λ has_pgn.
      tokens_then IsSoundResult _ _ (
        answered_then IsSoundResult _ _ (λ pgn. tokens_then IsSoundResult _ _ (
          bind-Holds IsSoundResult _ _ (check-Holds _ _ forbidden-is-error) (λ u allowed.
            bind-Holds IsSoundResult _ _ (constructed-Holds (json.as_u_int pgn) unknown_frame)
              (λ header same. answered_then IsSoundResult _ _ (λ named.
                bind-Holds IsSoundResult _ _ (asked-Holds named _ j) (λ name v.
                  bind-Holds IsSoundResult _ _
                    (asked-Holds (named && json.is_string name) (json.as_string name) unknown_frame)
                    (λ label w. answered_then IsSoundResult _ _ (λ sized.
                      bind-Holds IsSoundResult _ _ (asked-Holds sized _ j) (λ size x.
                        answered_then IsSoundResult _ _ (λ listed.
                          bind-Holds IsSoundResult _ _ (asked-Holds listed _ j) (λ list y.
                            tokens_then IsSoundResult _ _ (
                              bind-Holds IsSoundResult _ _
                                (parse_spns-AllSound json list _ 0 _ id tt)
                                (λ frame sound. (permitted _ allowed same, sound))))))))))))))))

  All-append :
      (fs : List Frame) (f : Frame)
      → All IsSoundFrame fs
      → IsSoundFrame f
      → All IsSoundFrame (fs ++ f ∷ [])
  All-append [] f a h = (h, tt)
  All-append (g ∷ fs) f a h = (a.0, All-append fs f a.1 h)

  -- What follows the outcome of one frame.
  next_frame :
      (document : J) (left place : ℕ) (db : Database) (o : Outcome (Frame × ℕ))
      → All IsSoundFrame db.frames
      → Holds IsSoundResult o
      → ((db' : Database)
          → All IsSoundFrame db'.frames
          → Holds IsRead (parse_frames json document left (suc place) db'))
      → Holds IsRead (elim o as (λ p. Outcome (Database × Bool)) [
        | returned (frame, specs) ↦
            parse_frames json document left
              (suc place)
              (record db { frames = db.frames ++ frame ∷ []; specs = specs })
        | refused e ↦ returned (record db { error_code = e }, false)
        | thrown ↦ thrown
        | aborted ↦ aborted
      ])
  next_frame document left place db (returned (frame, specs)) a h rest =
      rest (record db { frames = db.frames ++ frame ∷ []; specs = specs })
        (All-append db.frames frame a h)
  next_frame document left place db (refused e) a h rest = (a, sym (is_ok-false e h))
  next_frame document left place db thrown a h rest = tt
  next_frame document left place db aborted a h rest = tt

  parse_frames-IsRead :
      (document : J) (left place : ℕ) (db : Database)
      → All IsSoundFrame db.frames
      → Holds IsRead (parse_frames json document left place db)
  unfolding parse_frames
  parse_frames-IsRead document zero place db a = (a, unfold is_ok in refl)
  parse_frames-IsRead document (suc left) place db a =
      next_frame document left place db
        (answered (json.element document place) >>= parse_frame json db.specs) a
        (answered_then IsSoundResult _ _ (λ j. parse_frame-IsSound db.specs j))
        (λ db' b. parse_frames-IsRead document left (suc place) db' b)

  parse_json_file-IsRead :
      (db : Database) (file : Option (Option J))
      → All IsSoundFrame db.frames
      → Holds IsRead (parse_json_file json db file)
  unfolding parse_json_file is_ok
  parse_json_file-IsRead db none a = (a, refl)
  parse_json_file-IsRead db (some none) a = (a, refl)
  parse_json_file-IsRead db (some (some document)) a =
      choose IsRead (json.is_array document) _ _
        (parse_frames-IsRead document (json.size document) 0 db a) (a, refl)

  -- Whatever the JSON library answers about a file: when the reading of it returns, the frames of the
  -- database are all such as the code can use, if they were before. None has the PGN of the DM1
  -- frame, every number of a parameter fits its 19 bits, every numeric parameter has one to four
  -- bytes, and the bits of every status lie in its byte. It returns true exactly when the error code is
  -- that of no error.
  parse_json_file_lem :
      (db db' : Database) (file : Option (Option J)) (b : Bool)
      → All IsSoundFrame db.frames
      → parse_json_file json db file ≡ returned (db', b)
      → All IsSoundFrame db'.frames × (b ≡ is_ok db'.error_code)
  parse_json_file_lem db db' file b a e = rw e at (parse_json_file-IsRead db file a)
