-- ===== src/Can/Sender.antt =====
-- CommonCanSender (CAN/CommonCanSender.cpp): rings of frames, each sent with a period. The two
-- operations and the thread exclude one another by the mutex, so each is one step.
pub mod Rings
pub mod Period
pub mod Timing
pub mod Refinement
use j1939_framework.Base.{
  ℕ, zero, suc, ◌+◌, ◌-◌, ◌*◌, ◌/◌, ◌%◌, ◌≡◌, Bool, true, false, not, ◌&&◌, ◌||◌, List, [], ◌∷◌,
  ◌++◌, ◌==◌, Option, none, some, if◌then◌else◌, length, ltb, leb, u32,
}
use j1939_framework.Common.{Result, ok, err, ◌>>=◌, fault}
use j1939_framework.Can
use j1939_framework.Can.{CanFrame}

-- `timespec` of the monotonic clock.
pub record Timespec : Type 0 where
  pub sec : ℕ
  pub nsec : ℕ

-- `Utils::addMillis`
unfoldable pub add_millis : Timespec → ℕ → Timespec
add_millis t millis = record {
  sec = t.sec + millis / 1000;
  nsec = t.nsec + millis % 1000 * 1000000;
}

-- `abs(Utils::getElapsedMillis(start, end))`: the difference of the parts that stand for the end and
-- for the start, cut to 32 bits, read as signed, without its sign.
unfoldable pub elapsed_millis : Timespec → Timespec → ℕ
elapsed_millis start end =
    let plus = end.sec * 1000 + (end.nsec - start.nsec) / 1000000 in
    let minus = start.sec * 1000 + (start.nsec - end.nsec) / 1000000 in
    let word = u32 (plus + (minus / 0x100000000 + 1) * 0x100000000 - minus) in
    if ltb word 0x80000000 then word else 0x100000000 - word

-- CanFrameRing; the callback makes new data for an identifier.
pub record Ring : Type 0 where
  pub frames : List CanFrame
  pub tx_timestamp : Timespec
  pub period : ℕ
  pub current_pos : ℕ
  pub callback : Option (ℕ → List ℕ)

abbrev pub new_ring : ℕ → Option (ℕ → List ℕ) → Ring
new_ring period callback = record {
  frames = [];
  tx_timestamp = record { sec = 0; nsec = 0 };
  period = period;
  current_pos = 0;
  callback = callback;
}

unfoldable pub set_frames : Ring → List CanFrame → Ring
set_frames r fs = record r { frames = fs; current_pos = 0 }

unfoldable pub push_frame : Ring → CanFrame → Ring
push_frame r f = record r { frames = r.frames ++ f ∷ []; current_pos = 0 }

unfoldable pub shift : Ring → Ring
shift r =
    if r.current_pos == length r.frames
    then r
    else if suc r.current_pos == length r.frames
    then record r { current_pos = 0 }
    else record r { current_pos = suc r.current_pos }

-- The period over `n` frames, at one place of them.
unfoldable pub period_at : ℕ → ℕ → ℕ → ℕ
period_at period n pos = if suc pos == n then period - period / n * (n - 1) else period / n

unfoldable pub get_current_period : Ring → ℕ
unfolding period_at
get_current_period r = elim r.frames [
  | [] ↦ 0
  | f ∷ fs ↦ period_at r.period (length (f ∷ fs)) r.current_pos
]

abbrev pub frame_at : List CanFrame → ℕ → Option CanFrame
frame_at [] i = none
frame_at (f ∷ fs) zero = some f
frame_at (f ∷ fs) (suc i) = frame_at fs i

abbrev pub replace_at : ℕ → CanFrame → List CanFrame → List CanFrame
replace_at i g [] = []
replace_at zero g (f ∷ fs) = g ∷ fs
replace_at (suc i) g (f ∷ fs) = f ∷ replace_at i g fs

abbrev pub ids_of : List CanFrame → List ℕ
ids_of [] = []
ids_of (f ∷ fs) = f.id ∷ ids_of fs

-- The inner loop of the searches, on lists of one length.
unfoldable pub same_ids : List ℕ → List ℕ → Bool
same_ids [] [] = true
same_ids [] (j ∷ js) = false
same_ids (i ∷ is) [] = false
same_ids (i ∷ is) (j ∷ js) = let rest = same_ids is js in if i == j then rest else false

-- `mFrameRings` without the first ring of these identifiers.
unfoldable pub erase_first : List ℕ → List Ring → List Ring
erase_first ids [] = []
erase_first ids (r ∷ rs) =
    let rest = erase_first ids rs in if same_ids (ids_of r.frames) ids then rs else r ∷ rest

unfoldable pub send_frames : List Ring → List CanFrame → ℕ → Option (ℕ → List ℕ) → List Ring × Bool
unfolding set_frames
send_frames rs [] period callback = (rs, false)
send_frames rs (f ∷ fs) period callback =
    let ring = set_frames (new_ring period callback) (f ∷ fs) in
    (erase_first (ids_of (f ∷ fs)) rs ++ ring ∷ [], true)

unfoldable pub send_frame : List Ring → CanFrame → ℕ → Option (ℕ → List ℕ) → List Ring × Bool
send_frame rs f period callback = ((send_frames rs (f ∷ []) period callback).0, true)

unfoldable pub un_send_frames : List Ring → List ℕ → List Ring
un_send_frames rs ids = erase_first ids rs

unfoldable pub un_send_frame : List Ring → ℕ → List Ring
un_send_frame rs id = un_send_frames rs (id ∷ [])

unfoldable pub is_sent : List Ring → List ℕ → Bool
is_sent [] ids = false
is_sent (r ∷ rs) ids =
    let rest = is_sent rs ids in if same_ids (ids_of r.frames) ids then true else rest

-- Whether a ring is due.
unfoldable pub is_due : Timespec → Ring → Bool
is_due now r =
    (r.tx_timestamp.nsec == 0 && (r.tx_timestamp.sec == 0))
    || leb (get_current_period r) (elapsed_millis r.tx_timestamp now)

-- The time stamp after a frame has been sent: the one that is due, unless it is too far off.
unfoldable pub next_timestamp : Timespec → Ring → Timespec
next_timestamp now r =
    let current = add_millis r.tx_timestamp (get_current_period r) in
    if ltb (elapsed_millis current now) (get_current_period r) then current else now

-- The frame to send, with the data of the callback if that fits.
unfoldable pub refresh : Option (ℕ → List ℕ) → CanFrame → CanFrame
refresh none f = f
refresh (some make) f = (Can.set_data f (make f.id)).0

-- The body of the loop of `run` for one ring: the ring afterwards, and the frame that was sent.
unfoldable pub poll_ring : Timespec → Ring → Result (Ring × Option CanFrame)
unfolding refresh
poll_ring now r =
    if not (is_due now r) then ok (r, none) else elim (frame_at r.frames r.current_pos) [
      | none ↦ err fault
      | some f ↦
          let f' = refresh r.callback f in
          let r' = shift (record r { frames = replace_at r.current_pos f' r.frames }) in
          ok (record r' { tx_timestamp = next_timestamp now r' }, some f')
    ]

-- A round of the loop over all rings, with the frames in the order in which they were sent.
unfoldable pub poll : Timespec → List Ring → Result (List Ring × List CanFrame)
poll now [] = ok ([], [])
poll now (r ∷ rs) =
    let rest = poll now rs in
    do
      (r', f) ← poll_ring now r
      (rs', fs) ← rest
      ok (r' ∷ rs', elim f [ none ↦ fs | some g ↦ g ∷ fs ])
