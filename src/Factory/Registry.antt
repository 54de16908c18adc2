-- ===== src/Factory/Registry.antt =====
-- What the factory knows.
use j1939_framework.Base.{
  ℕ, ◌++◌, Option, none, Option-cases, inl, inr, refl, ap, ◌∙◌, ◌≡◌, sym, arith, true, false, List,
  [], ◌∷◌, ◌==◌, some, if◌then◌else◌,
}
use j1939_framework.Base.Dict
use j1939_framework.Common.{Result, ok, err}
use j1939_framework.Header.{Header, frame_pgn, decode_header, stored_fields}
use j1939_framework.Header.Identifier.{decode_header_accepts}
use j1939_framework.Frame.{Frame, decode, decode_data}
use j1939_framework.Factory.{
  Factory, get_frame, get_frame_by_pgn, register_frame, register_frames, unregister_frame,
  new_factory, predefined,
}

-- Each prototype stands under its own PGN.
abbrev pub IsKeyed : Factory → Type 0
IsKeyed [] = Unit {0}
IsKeyed ((k, f) ∷ fs) = (f.header.pgn ≡ k) × IsKeyed fs

insert-IsKeyed :
    (k : ℕ) (f : Frame) (fs : Factory)
    → f.header.pgn ≡ k
    → IsKeyed fs
    → IsKeyed (Dict.insert k f fs)
unfolding Dict.insert
insert-IsKeyed k f [] e h = (e, tt)
insert-IsKeyed k f ((j, g) ∷ fs) e h = ground (arith, insert-IsKeyed k f fs e)

erase-IsKeyed : (k : ℕ) (fs : Factory) → IsKeyed fs → IsKeyed (Dict.erase k fs)
unfolding Dict.erase
erase-IsKeyed k [] h = tt
erase-IsKeyed k ((j, g) ∷ fs) h = ground (arith, erase-IsKeyed k fs h.1)

pub register_frame-IsKeyed :
    (fs : Factory) (f : Frame) → IsKeyed fs → IsKeyed (register_frame fs f).0
unfolding register_frame
register_frame-IsKeyed fs f h = ground (arith, insert-IsKeyed f.header.pgn f fs)

register_frames-IsKeyed :
    (fs : Factory) (rest : List Frame) → IsKeyed fs → IsKeyed (register_frames fs rest)
unfolding register_frames
register_frames-IsKeyed fs [] h = h
register_frames-IsKeyed fs (f ∷ rest) h =
    register_frames-IsKeyed (register_frame fs f).0 rest (register_frame-IsKeyed fs f h)

pub unregister_frame-IsKeyed :
    (fs : Factory) (pgn : ℕ) → IsKeyed fs → IsKeyed (unregister_frame fs pgn)
unfolding unregister_frame
unregister_frame-IsKeyed fs pgn h = erase-IsKeyed pgn fs h

pub find-IsKeyed :
    (k : ℕ) (fs : Factory) (f : Frame) → IsKeyed fs → Dict.find k fs ≡ some f → f.header.pgn ≡ k
unfolding Dict.find
find-IsKeyed k [] f h e = cc
find-IsKeyed k ((j, g) ∷ fs) f h e = ground (arith, find-IsKeyed k fs f h.1)

-- The factory as it is constructed, and with any further frames, stays keyed.
new_factory-IsKeyed : (rest : List Frame) → IsKeyed (register_frames new_factory rest)
unfolding new_factory
new_factory-IsKeyed rest = register_frames-IsKeyed _ rest (register_frames-IsKeyed [] predefined tt)

-- The second registration of a PGN is refused and changes nothing; the first makes the frame known
-- under its PGN and changes nothing else.
get_frame_by_pgn-register_frame :
    (fs : Factory) (f : Frame) (pgn : ℕ)
    → ((register_frame fs f).1 ≡ (if Dict.has f.header.pgn fs then false else true))
      × (get_frame_by_pgn (register_frame fs f).0 pgn ≡ (
          if Dict.has f.header.pgn fs
          then get_frame_by_pgn fs pgn
          else if f.header.pgn == pgn
          then some f
          else get_frame_by_pgn fs pgn))
unfolding register_frame get_frame_by_pgn
get_frame_by_pgn-register_frame fs f pgn =
    (ground arith, ground (arith, Dict.find-insert f.header.pgn pgn f fs))

-- The first of the frames that has the PGN.
abbrev pub first_with : ℕ → List Frame → Option Frame
first_with pgn [] = none
first_with pgn (f ∷ frames) = if f.header.pgn == pgn then some f else first_with pgn frames

first_with-append :
    (pgn : ℕ) (xs ys : List Frame)
    → first_with pgn (xs ++ ys)
      ≡ elim (first_with pgn xs) [ some f ↦ some f | none ↦ first_with pgn ys ]
first_with-append pgn [] ys = refl
first_with-append pgn (f ∷ xs) ys = ground (arith, first_with-append pgn xs ys)

find_registered :
    (fs : Factory) (frames : List Frame) (pgn : ℕ)
    → Dict.find pgn (register_frames fs frames)
      ≡ elim (Dict.find pgn fs) [ some f ↦ some f | none ↦ first_with pgn frames ]
unfolding register_frames get_frame_by_pgn
find_registered fs [] pgn = elim (Option-cases (Dict.find pgn fs)) [
  | inl e ↦ rw e refl
  | inr (f, e) ↦ rw e refl
]
find_registered fs (f ∷ frames) pgn = ground (
  arith,
  find_registered (register_frame fs f).0 frames pgn,
  (get_frame_by_pgn-register_frame fs f pgn).1,
)

-- A keyed factory hands an identifier whose PGN it knows to a prototype whose header accepts it, so
-- that the mismatch of the PGN is never thrown: the result is the prototype with the decoded header
-- and payload, and the only exception is that of the payload.
get_frame_lem :
    (fs : Factory) (id : ℕ) (buf : List ℕ) (f : Frame)
    → IsKeyed fs
    → Dict.find (frame_pgn id) fs ≡ some f
    → (h : Header) × (decode_header f.header id ≡ ok h)
      × (get_frame fs id buf ≡ elim (decode_data f.payload buf) [
        | ok p ↦ ok (some (record { header = h; payload = p }))
        | err e ↦ err e
      ])
unfolding get_frame decode
get_frame_lem fs id buf f keyed found =
    let accepted = decode_header_accepts f.header id (sym (find-IsKeyed _ fs f keyed found)) in
    (stored_fields f.header id, accepted, ground (arith, accepted, found))

-- The factory that is constructed, with any further frames registered one after another, keeps for
-- every PGN the prototype that was registered first: a predefined one cannot be replaced, and of
-- several further frames with one PGN only the first counts. `getJ1939Frame` with an identifier
-- decodes a copy of that prototype, and returns no frame where there is none.
pub get_frame-register_frames :
    (frames : List Frame) (id : ℕ) (buf : List ℕ)
    → get_frame (register_frames new_factory frames) id buf
      ≡ elim (first_with (frame_pgn id) (predefined ++ frames)) [
        | none ↦ ok none
        | some f ↦ elim (decode f id buf) [ ok g ↦ ok (some g) | err e ↦ err e ]
      ]
unfolding get_frame new_factory Dict.find
get_frame-register_frames frames id buf =
    let pgn = frame_pgn id in
    ap
      (λ (o : Option Frame). elim o as (λ x. Result (Option Frame)) [
        | none ↦ ok none
        | some f ↦ elim (decode f id buf) [ ok g ↦ ok (some g) | err e ↦ err e ]
      ])
      (find_registered (register_frames [] predefined) frames pgn
        ∙ (ap
              (λ (o : Option Frame). elim o as (λ x. Option Frame) [
                | some f ↦ some f
                | none ↦ first_with pgn frames
              ])
              (find_registered [] predefined pgn)
            ∙ sym (first_with-append pgn predefined frames)))
