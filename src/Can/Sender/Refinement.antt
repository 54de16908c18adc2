-- ===== src/Can/Sender/Refinement.antt =====
-- A sender under any sequence of calls and rounds, against a set of lists of identifiers.
use j1939_framework.Base.{
  ℕ, zero, suc, ◌<◌, ◌≡◌, ◌∙◌, inl, inr, refl, ap, arith, Bool, false, ◌||◌, List, [], ◌∷◌, Option,
  none, some, if◌then◌else◌, length, Bool-cases,
}
use j1939_framework.Common.{Result, ok, err, ◌>>=◌}
use j1939_framework.Can
use j1939_framework.Can.{CanFrame}
use j1939_framework.Can.Sender.{
  Timespec, Ring, shift, frame_at, replace_at, ids_of, same_ids, send_frames, un_send_frames,
  is_sent, is_due, next_timestamp, refresh, poll_ring, poll,
}
use j1939_framework.Can.Sender.Rings.{
  IsDistinct, AllRunning, is_sent-erase_first, IsDistinct-erase_first, send_frames-IsDistinct,
  send_frames-AllRunning, is_sent-send_frames, AllRunning-erase_first,
}

-- What is done to a sender: a call, or a round of its thread at a time.
pub data Op : Type 0 where
  send : List CanFrame → ℕ → Option (ℕ → List ℕ) → Op
  un_send : List ℕ → Op
  tick : Timespec → Op

unfoldable pub apply : Op → List Ring → Result (List Ring)
apply (send fs period callback) rs = ok (send_frames rs fs period callback).0
apply (un_send ids) rs = ok (un_send_frames rs ids)
apply (tick now) rs = elim (poll now rs) [ ok (rs', sent) ↦ ok rs' | err e ↦ err e ]

unfoldable pub apply_all : List Op → List Ring → Result (List Ring)
apply_all [] rs = ok rs
apply_all (op ∷ ops) rs = apply op rs >>= apply_all ops

-- The same on the set of the lists of identifiers that are sent, given by its test.
unfoldable pub expect : Op → (List ℕ → Bool) → List ℕ → Bool
expect (send [] period callback) s js = s js
expect (send (f ∷ fs) period callback) s js = same_ids (ids_of (f ∷ fs)) js || s js
expect (un_send ids) s js = if same_ids ids js then false else s js
expect (tick now) s js = s js

unfoldable pub expect_all : List Op → (List ℕ → Bool) → List ℕ → Bool
expect_all [] s = s
expect_all (op ∷ ops) s = expect_all ops (expect op s)

pub frame_at-some :
    (fs : List CanFrame) (i : ℕ) → i < length fs → (f : CanFrame) × (frame_at fs i ≡ some f)
frame_at-some [] i h = absurd (omega arith)
frame_at-some (f ∷ fs) zero h = (f, refl)
frame_at-some (f ∷ fs) (suc i) h = frame_at-some fs i (omega arith)

ids_of-replace_at :
    (i : ℕ) (f g : CanFrame) (fs : List CanFrame)
    → frame_at fs i ≡ some f
    → g.id ≡ f.id
    → ids_of (replace_at i g fs) ≡ ids_of fs
ids_of-replace_at i f g [] e h = refl
ids_of-replace_at zero f g (x ∷ fs) e h = ground arith
ids_of-replace_at (suc i) f g (x ∷ fs) e h = ap (◌∷◌ x.id) (ids_of-replace_at i f g fs e h)

pub length-replace_at :
    (i : ℕ) (g : CanFrame) (fs : List CanFrame) → length (replace_at i g fs) ≡ length fs
length-replace_at i g [] = refl
length-replace_at zero g (x ∷ fs) = refl
length-replace_at (suc i) g (x ∷ fs) = ap suc (length-replace_at i g fs)

id-refresh : (callback : Option (ℕ → List ℕ)) (f : CanFrame) → (refresh callback f).id ≡ f.id
unfolding refresh Can.set_data
id-refresh none f = refl
id-refresh (some make) f = ground arith

pub shift-Running :
    (r : Ring) → r.current_pos < length r.frames → (shift r).current_pos < length (shift r).frames
unfolding shift
shift-Running r h = ground arith

pub frames-shift : (r : Ring) → (shift r).frames ≡ r.frames
unfolding shift
frames-shift r = ground arith

-- A ring whose place is one of its frames is polled without a fault, and stays such a ring.
poll_ring-Running :
    (now : Timespec) (r : Ring)
    → r.current_pos < length r.frames
    → (q : Ring) × (f : Option CanFrame) × (poll_ring now r ≡ ok (q, f))
      × (q.current_pos < length q.frames)
      × (ids_of q.frames ≡ ids_of r.frames)
unfolding poll_ring
poll_ring-Running now r h = elim (Bool-cases (is_due now r)) [
  | inr early ↦ (r, none, ground arith, h, refl)
  | inl due ↦
      let (f, at) = frame_at-some r.frames r.current_pos h in
      let f' = refresh r.callback f in
      let replaced : Ring = record r { frames = replace_at r.current_pos f' r.frames } in
      let len = length-replace_at r.current_pos f' r.frames in
      (
        record (shift replaced) { tx_timestamp = next_timestamp now (shift replaced) },
        some f',
        ground (arith, at),
        shift-Running replaced (omega (arith, len)),
        ap ids_of (frames-shift replaced)
            ∙ ids_of-replace_at r.current_pos f f' r.frames at (id-refresh r.callback f),
      )
]

-- What a list of rings has come to: no two rings of the same identifiers, every ring at one of its
-- frames, and the identifiers that are sent are those of the set `s`.
pub record Represents (s : List ℕ → Bool) (rs : List Ring) : Type 0 where
  pub distinct : IsDistinct rs
  pub running : AllRunning rs
  pub sends : (js : List ℕ) → is_sent rs js ≡ s js

poll-Represents :
    (now : Timespec) (rs : List Ring)
    → AllRunning rs
    → (qs : List Ring) × (sent : List CanFrame) × (poll now rs ≡ ok (qs, sent))
      × AllRunning qs
      × ((js : List ℕ) → is_sent qs js ≡ is_sent rs js)
      × (IsDistinct rs → IsDistinct qs)
unfolding poll is_sent
poll-Represents now [] a = ([], [], refl, tt, (λ js. refl), (λ d. d))
poll-Represents now (r ∷ rs) a =
    let (q, f, polled, at, same) = poll_ring-Running now r a.0 in
    let (qs, sent, rest, running, sends, keeps) = poll-Represents now rs a.1 in
    (
      q ∷ qs,
      elim f [ none ↦ sent | some g ↦ g ∷ sent ],
      ground (arith, polled, rest),
      (at, running),
      (λ js. rw same (ground (arith, sends js))),
      (λ d. (rw same (sends (ids_of r.frames)) ∙ d.0, keeps d.1)),
    )

apply-Represents :
    (op : Op) (rs : List Ring) (s : List ℕ → Bool)
    → Represents s rs
    → (qs : List Ring) × (apply op rs ≡ ok qs) × Represents (expect op s) qs
unfolding apply expect
apply-Represents (send [] period callback) rs s v = (rs, unfold send_frames in refl, v)
apply-Represents (send (f ∷ fs) period callback) rs s v = (
  (send_frames rs (f ∷ fs) period callback).0,
  refl,
  record {
    distinct = send_frames-IsDistinct rs (f ∷ fs) period callback v.distinct;
    running = send_frames-AllRunning rs (f ∷ fs) period callback v.running;
    sends = λ js.
        is_sent-send_frames rs f fs period callback js v.distinct
        ∙ ap (◌||◌ (same_ids (ids_of (f ∷ fs)) js)) (v.sends js);
  },
)
apply-Represents (un_send ids) rs s v = (
  un_send_frames rs ids,
  refl,
  unfold un_send_frames in
      record {
        distinct = IsDistinct-erase_first ids rs v.distinct;
        running = AllRunning-erase_first ids rs v.running;
        sends = λ js. is_sent-erase_first ids rs js v.distinct ∙ ground (arith, v.sends js);
      },
)
apply-Represents (tick now) rs s v =
    let (qs, sent, polled, running, sends, keeps) = poll-Represents now rs v.running in
    (
      qs,
      ground (arith, polled),
      record {
        distinct = keeps v.distinct;
        running = running;
        sends = λ js. sends js ∙ v.sends js;
      },
    )

apply_all-Represents :
    (ops : List Op) (rs : List Ring) (s : List ℕ → Bool)
    → Represents s rs
    → (qs : List Ring) × (apply_all ops rs ≡ ok qs) × Represents (expect_all ops s) qs
unfolding apply_all expect_all
apply_all-Represents [] rs s v = (rs, refl, v)
apply_all-Represents (op ∷ ops) rs s v =
    let (qs, applied, w) = apply-Represents op rs s v in
    let (ps, rest, x) = apply_all-Represents ops qs (expect op s) w in (ps, rw applied rest, x)

-- Any sequence of calls and rounds of a new sender runs without reading outside a ring. At its end no
-- two rings have the same identifiers, every ring stands at one of its frames, and `isSent` answers
-- as the set does to which each call adds its identifiers or from which it takes them, a round
-- changing nothing.
pub sender_refines :
    (ops : List Op)
    → (rs : List Ring) × (apply_all ops [] ≡ ok rs) × Represents (expect_all ops (λ js. false)) rs
sender_refines ops =
    apply_all-Represents ops [] (λ js. false)
      (record { distinct = tt; running = tt; sends = λ js. unfold is_sent in refl })
