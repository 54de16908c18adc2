-- ===== src/Can/Sender/Rings.antt =====
-- The rings of a sender as a set of lists of identifiers.
use j1939_framework.Base.{
  ℕ, ◌<◌, ◌≡◌, ◌∙◌, inl, inr, refl, arith, true, false, ◌||◌, List, [], ◌∷◌, ◌++◌, Option,
  if◌then◌else◌, length, Bool-cases,
}
use j1939_framework.Can.{CanFrame}
use j1939_framework.Can.Sender.{
  Ring, new_ring, set_frames, ids_of, same_ids, erase_first, send_frames, is_sent,
}

-- Two rings of a sender never have the same identifiers, and the place of each is one of its frames.
abbrev pub IsDistinct : List Ring → Type 0
IsDistinct [] = Unit {0}
IsDistinct (r ∷ rs) = (is_sent rs (ids_of r.frames) ≡ false) × IsDistinct rs

abbrev pub AllRunning : List Ring → Type 0
AllRunning [] = Unit {0}
AllRunning (r ∷ rs) = (r.current_pos < length r.frames) × AllRunning rs

same_ids_eq : (is js : List ℕ) → same_ids is js ≡ true → is ≡ js
unfolding same_ids
same_ids_eq [] [] e = refl
same_ids_eq [] (j ∷ js) e = cc
same_ids_eq (i ∷ is) [] e = cc
same_ids_eq (i ∷ is) (j ∷ js) e = ground (arith, same_ids_eq is js)

same_ids_refl : (is : List ℕ) → same_ids is is ≡ true
unfolding same_ids
same_ids_refl [] = refl
same_ids_refl (i ∷ is) = ground (arith, same_ids_refl is)

same_ids_comm : (is js : List ℕ) → same_ids is js ≡ same_ids js is
unfolding same_ids
same_ids_comm [] [] = refl
same_ids_comm [] (j ∷ js) = refl
same_ids_comm (i ∷ is) [] = refl
same_ids_comm (i ∷ is) (j ∷ js) = ground (arith, same_ids_comm is js)

pub is_sent-append :
    (rs : List Ring) (r : Ring) (js : List ℕ)
    → is_sent (rs ++ r ∷ []) js ≡ (same_ids (ids_of r.frames) js || is_sent rs js)
unfolding is_sent
is_sent-append [] r js = ground arith
is_sent-append (q ∷ rs) r js = ground (arith, is_sent-append rs r js)

pub is_sent-erase_first :
    (ids : List ℕ) (rs : List Ring) (js : List ℕ)
    → IsDistinct rs
    → is_sent (erase_first ids rs) js ≡ (if same_ids ids js then false else is_sent rs js)
unfolding is_sent erase_first
is_sent-erase_first ids [] js d = ground arith
is_sent-erase_first ids (r ∷ rs) js d = ground (
  arith,
  is_sent-erase_first ids rs js d.1,
  same_ids_eq (ids_of r.frames) ids,
  same_ids_eq ids js,
  same_ids_eq (ids_of r.frames) js,
  same_ids_refl ids,
)

pub IsDistinct-erase_first :
    (ids : List ℕ) (rs : List Ring) → IsDistinct rs → IsDistinct (erase_first ids rs)
unfolding erase_first
IsDistinct-erase_first ids [] d = tt
IsDistinct-erase_first ids (r ∷ rs) d =
    ground (arith, IsDistinct-erase_first ids rs, is_sent-erase_first ids rs (ids_of r.frames))

IsDistinct-append :
    (rs : List Ring) (r : Ring)
    → IsDistinct rs
    → is_sent rs (ids_of r.frames) ≡ false
    → IsDistinct (rs ++ r ∷ [])
unfolding is_sent
IsDistinct-append [] r d n = (refl, tt)
IsDistinct-append (q ∷ rs) r d n = ground (
  arith,
  IsDistinct-append rs r d.1,
  is_sent-append rs r (ids_of q.frames),
  same_ids_comm (ids_of q.frames) (ids_of r.frames),
)

pub AllRunning-erase_first :
    (ids : List ℕ) (rs : List Ring) → AllRunning rs → AllRunning (erase_first ids rs)
unfolding erase_first
AllRunning-erase_first ids [] d = tt
AllRunning-erase_first ids (r ∷ rs) d = ground (arith, AllRunning-erase_first ids rs)

pub AllRunning-append :
    (rs : List Ring) (r : Ring)
    → AllRunning rs
    → r.current_pos < length r.frames
    → AllRunning (rs ++ r ∷ [])
AllRunning-append [] r a n = (n, tt)
AllRunning-append (q ∷ rs) r a n = (a.0, AllRunning-append rs r a.1 n)

pub send_frames-IsDistinct :
    (rs : List Ring) (fs : List CanFrame) (period : ℕ) (callback : Option (ℕ → List ℕ))
    → IsDistinct rs
    → IsDistinct (send_frames rs fs period callback).0
unfolding send_frames
send_frames-IsDistinct rs [] period callback d = d
send_frames-IsDistinct rs (f ∷ fs) period callback d =
    let ids = ids_of (f ∷ fs) in
    IsDistinct-append (erase_first ids rs) (set_frames (new_ring period callback) (f ∷ fs))
      (IsDistinct-erase_first ids rs d)
      (is_sent-erase_first ids rs ids d ∙ rw (same_ids_refl ids) refl)

pub send_frames-AllRunning :
    (rs : List Ring) (fs : List CanFrame) (period : ℕ) (callback : Option (ℕ → List ℕ))
    → AllRunning rs
    → AllRunning (send_frames rs fs period callback).0
unfolding send_frames
send_frames-AllRunning rs [] period callback a = a
send_frames-AllRunning rs (f ∷ fs) period callback a =
    let ids = ids_of (f ∷ fs) in
    AllRunning-append (erase_first ids rs) (set_frames (new_ring period callback) (f ∷ fs))
      (AllRunning-erase_first ids rs a) (unfold set_frames in omega arith)

pub is_sent-send_frames :
    (rs : List Ring) (f : CanFrame) (fs : List CanFrame) (period : ℕ)
    (callback : Option (ℕ → List ℕ)) (js : List ℕ)
    → IsDistinct rs
    → is_sent (send_frames rs (f ∷ fs) period callback).0 js
      ≡ (same_ids (ids_of (f ∷ fs)) js || is_sent rs js)
unfolding send_frames set_frames
is_sent-send_frames rs f fs period callback js d =
    let ids = ids_of (f ∷ fs) in
    is_sent-append (erase_first ids rs) (set_frames (new_ring period callback) (f ∷ fs)) js
    ∙ rw (is_sent-erase_first ids rs js d)
        (elim (Bool-cases (same_ids ids js)) [ inl e ↦ rw e refl | inr e ↦ rw e refl ])
