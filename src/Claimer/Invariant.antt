-- ===== src/Claimer/Invariant.antt =====
-- What holds whenever the thread of the address claimer waits.
use j1939_framework.Base.{
  ℕ, zero, suc, ◌<◌, ◌≡◌, ◌∙◌, ◌⊎◌, inl, inr, refl, sym, ap, arith, List, [], ◌∷◌, ◌++◌, Option,
  length,
}
use mathlib.Core.Path.{subst}
use j1939_framework.Common.{ok, invalid_address}
use j1939_framework.Addressing.{EcuName}
use j1939_framework.Frame.{Frame}
use j1939_framework.Claimer.{
  Claimer, claim_address_obtained, claim_retry, claim_failed, send_frame, on_src_addr_changed,
  Place, trying, operating, Round, act, wait_again, done, claim_frame, flush, read, receive,
  start_try, next_address, claim_address_step, start, after_round, exec_round, wake, Step, arrives,
  wakes, Reach, begin, next,
}
use j1939_framework.Claimer.Outcomes.{
  count, count-rotate, count_self, told, Sent, IsClaimed, PlaceFits, IsSound, next_address_empty,
  next_address_first, exec_round_outcomes, read_frames, wake_outcomes,
}

module _ (name : EcuName) (preferred : List ℕ) where
  start_try-IsSound :
      (c : Claimer) (left address : ℕ)
      → c.ecu_name ≡ name
      → told c.actions ≡ invalid_address
      → c.current_src ≡ invalid_address
      → ((a : ℕ) → count a c.preferred ≡ count a preferred)
      → 0 < count address preferred
      → IsSound name preferred (start_try c left address)
  unfolding start_try told
  start_try-IsSound c left address n t s q p = record {
    named = n;
    told_src = t ∙ sym s;
    same = q;
    fits = (s, (p, inl (rw n refl)));
  }

  give_up :
      (c : Claimer)
      → c.ecu_name ≡ name
      → told c.actions ≡ invalid_address
      → c.current_src ≡ invalid_address
      → ((a : ℕ) → count a c.preferred ≡ count a preferred)
      → IsSound name preferred (next_address c 0)
  unfolding next_address told
  give_up c n t s q = record { named = n; told_src = t ∙ sym s; same = q; fits = inl s }

  next_address-IsSound :
      (c : Claimer) (left : ℕ)
      → c.ecu_name ≡ name
      → told c.actions ≡ invalid_address
      → c.current_src ≡ invalid_address
      → ((a : ℕ) → count a c.preferred ≡ count a preferred)
      → IsSound name preferred (next_address c left)
  next_address-IsSound c zero n t s q = give_up c n t s q
  next_address-IsSound c (suc left) n t s q = go c.preferred refl
    where
      go : (l : List ℕ) → c.preferred ≡ l → IsSound name preferred (next_address c (suc left))
      go [] e =
          subst (IsSound name preferred) (sym (next_address_empty c (suc left) e))
            (give_up c n t s q)
      go (b ∷ rest) e =
          let turned = λ (a : ℕ). count-rotate a b rest ∙ ap (count a) (sym e) ∙ q a in
          let known : 0 < count b preferred =
            omega (arith, q b, ap (count b) e, count_self b rest) in
          subst (IsSound name preferred) (sym (next_address_first c left b rest e))
            (start_try-IsSound (record c { preferred = rest ++ b ∷ [] }) left b n t s turned known)

  claim_address_step-IsSound :
      (c : Claimer)
      → c.ecu_name ≡ name
      → ((a : ℕ) → count a c.preferred ≡ count a preferred)
      → IsSound name preferred (claim_address_step c)
  unfolding claim_address_step flush told
  claim_address_step-IsSound c n q =
      next_address-IsSound
        (record c {
          current_src = invalid_address;
          frames = [];
          actions = on_src_addr_changed invalid_address ∷ c.actions;
        })
        (length c.preferred) n refl refl q

  after_round-IsSound :
      (c : Claimer) (left address t : ℕ) (r : Round)
      → IsSound name preferred c
      → c.place ≡ trying left address t
      → IsSound name preferred (after_round c left address r)
  unfolding after_round told
  after_round-IsSound c left address t r v e =
      let (src, (known, sent)) = subst (PlaceFits name preferred c) e v.fits in go r src known sent
    where
      go :
          (r : Round)
          → c.current_src ≡ invalid_address
          → 0 < count address preferred
          → Sent (claim_frame name address) c.actions
          → IsSound name preferred (after_round c left address r)
      go (wait_again t') src known sent = record {
        named = v.named;
        told_src = v.told_src;
        same = v.same;
        fits = (src, (known, sent));
      }
      go (done claim_retry) src known sent =
          start_try-IsSound c left address v.named (v.told_src ∙ src) src v.same known
      go (done claim_failed) src known sent =
          next_address-IsSound c left v.named (v.told_src ∙ src) src v.same
      go (done claim_address_obtained) src known sent = record {
        named = v.named;
        told_src = refl;
        same = v.same;
        fits = inr (known, inr sent);
      }

  announce-IsSound :
      (c : Claimer)
      → IsSound name preferred c
      → c.place ≡ operating
      → IsSound name preferred (act c (send_frame (claim_frame c.ecu_name c.current_src)))
  unfolding told
  announce-IsSound c v e = record {
    named = v.named;
    told_src = v.told_src;
    same = v.same;
    fits =
        subst (PlaceFits name preferred (act c (send_frame (claim_frame c.ecu_name c.current_src))))
          (sym e) (go (subst (PlaceFits name preferred c) e v.fits));
  }
    where
      go :
          (c.current_src ≡ invalid_address) ⊎ IsClaimed name preferred c c.current_src
          → (c.current_src ≡ invalid_address)
            ⊎ IsClaimed name preferred
                (act c (send_frame (claim_frame c.ecu_name c.current_src)))
                c.current_src
      go (inl s) = inl s
      go (inr (known, sent)) = inr (known, inr sent)

  exec_round-IsSound :
      (c d : Claimer) (f : Option Frame)
      → IsSound name preferred c
      → c.place ≡ operating
      → exec_round c f ≡ ok d
      → IsSound name preferred d
  exec_round-IsSound c d f v e run = elim (exec_round_outcomes c d f run) [
    | inl same ↦ subst (IsSound name preferred) (sym same) v
    | inr (inl told) ↦ subst (IsSound name preferred) (sym told) (announce-IsSound c v e)
    | inr (inr again) ↦
        subst (IsSound name preferred) (sym again) (claim_address_step-IsSound c v.named v.same)
  ]

  with_frames :
      (c : Claimer) (fs : List (ℕ × Frame))
      → IsSound name preferred c
      → IsSound name preferred (record c { frames = fs })
  with_frames c fs v = record {
    named = v.named;
    told_src = v.told_src;
    same = v.same;
    fits = v.fits;
  }

  receive-IsSound :
      (c : Claimer) (f : Frame) → IsSound name preferred c → IsSound name preferred (receive c f)
  unfolding receive
  receive-IsSound c f v = with_frames c _ v

  wake-IsSound :
      (c d : Claimer) (elapsed : ℕ)
      → IsSound name preferred c
      → wake c elapsed ≡ ok d
      → IsSound name preferred d
  wake-IsSound c d elapsed v run =
      let c' = (read c).0 in
      let w = subst (IsSound name preferred) (sym (read_frames c)) (with_frames c c'.frames v) in
      let kept : c'.place ≡ c.place = ap (λ (x : Claimer). x.place) (read_frames c) in
      elim (wake_outcomes c d elapsed run) [
        | inl (left, address, t, round, waiting, after) ↦
            subst (IsSound name preferred) (sym after)
              (after_round-IsSound c' left address t round w (kept ∙ waiting))
        | inr (idle, executed) ↦ exec_round-IsSound c' d (read c).1 w (kept ∙ idle) executed
      ]

  Step-IsSound : {c d : Claimer} → Step c d → IsSound name preferred c → IsSound name preferred d
  Step-IsSound {c} (arrives f) v = receive-IsSound c f v
  Step-IsSound {c} {d} (wakes elapsed run) v = wake-IsSound c d elapsed v run

  Reach-IsSound : {c : Claimer} → Reach name preferred c → IsSound name preferred c
  unfolding start
  Reach-IsSound begin = claim_address_step-IsSound _ refl (λ a. refl)
  Reach-IsSound (next r st) = Step-IsSound st (Reach-IsSound r)

-- However frames arrive and timers run, whenever the thread of a claimer waits, the address that the
-- subclass was told last is the one that the claimer holds; that is the invalid address or one of the
-- preferred ones, for which a claim with the claimer's name has been sent; and the queue holds the
-- preferred addresses, each as often as at the beginning.
pub Reach-current_src :
    (name : EcuName) (preferred : List ℕ) (c : Claimer)
    → Reach name preferred c
    → (told c.actions ≡ c.current_src)
      × ((c.current_src ≡ invalid_address) ⊎ IsClaimed name preferred c c.current_src)
      × ((a : ℕ) → count a c.preferred ≡ count a preferred)
Reach-current_src name preferred c r =
    let v = Reach-IsSound name preferred r in (v.told_src, go c.place v.fits, v.same)
  where
    go :
        (p : Place)
        → PlaceFits name preferred c p
        → (c.current_src ≡ invalid_address) ⊎ IsClaimed name preferred c c.current_src
    go (trying left address t) h = inl h.0
    go operating h = h
