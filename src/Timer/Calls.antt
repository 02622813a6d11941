-- ===== src/Timer/Calls.antt =====
-- Timer.cpp: which calls a timer makes.
use ice_adapter.Base.{
  ℕ, zero, suc, ℤ, ◌≡◌, refl, sym, ap, ◌∙◌, subst, true, false, List, [], ◌∷◌, ◌++◌, none, some,
  append-nil, append_assoc,
}
use ice_adapter.Timer.{
  Thread, ThreadLaws, Action, single_shots, Timer, started, stop, start, single_shot, on_message,
  fire, act_all, call_if_set, rearm,
}
use ice_adapter.Timer.Schedule.{posted, fire_armed, fire_idle, fire_lem, after}

module _ (T : Thread) (laws : ThreadLaws T) (C : Type 0) (actions : C → List (Action C)) where
  -- The thread delivers the timer's messages, one after the other.
  abbrev pub fires : ℕ → Timer T C actions → Timer T C actions
  fires zero t = t
  fires (suc n) t = fires n (fire T C actions t)

  abbrev pub times : ℕ → C → List C
  times zero c = []
  times (suc n) c = c ∷ times n c

  fires_idle : (n : ℕ) (t : Timer T C actions) → T.pending t.thread ≡ [] → fires n t ≡ t
  fires_idle zero t e = refl
  fires_idle (suc n) t e = ap (fires n) (fire_idle T laws C actions t e) ∙ fires_idle n t e

  abbrev IsUnset : Timer T C actions → Timer T C actions → Type 0
  IsUnset t u = (u.callback ≡ none) × (u.called ≡ t.called)

  -- A message for a timer that is not started does nothing.
  fire-IsUnset : (t : Timer T C actions) → t.callback ≡ none → IsUnset t (fire T C actions t)
  unfolding fire
  fire-IsUnset t e = by_pending (T.pending t.thread) refl
    where
      by_pending : (ds : List ℤ) → T.pending t.thread ≡ ds → IsUnset t (fire T C actions t)
      by_pending [] p = rw (p, fire) (e, refl)
      by_pending (d ∷ ds) p =
          let taken = record t { thread = T.take t.thread } in
          rw (p, fire) (subst (λ k. IsUnset t (call_if_set T C actions k taken)) (sym e) (e, refl))

  fires_unset : (n : ℕ) (t : Timer T C actions) → t.callback ≡ none → (fires n t).called ≡ t.called
  fires_unset zero t e = refl
  fires_unset (suc n) t e =
      let (unset, same) = fire-IsUnset t e in fires_unset n (fire T C actions t) unset ∙ same

  module _ (quiet : (c : C) → actions c ≡ []) where
    -- If no callback acts on the timer, a single shot calls its callback once, however many messages of
    -- the timer the thread could deliver, and the timer is not started any more.
    pub single_shot_once :
        (n : ℕ) (d : ℤ) (c : C) (t : Timer T C actions)
        → let u = fires (suc n) (single_shot T C actions d c t) in
          (u.called ≡ t.called ++ (c ∷ [])) × (started T C actions u ≡ false)
    unfolding single_shot started stop
    single_shot_once n d c t =
        let armed = single_shot T C actions d c t in
        let fired =
          fire_lem T laws C actions quiet c d armed refl (posted T laws C actions d t.thread) in
        let u = after T laws C actions true c (record armed { thread = T.take armed.thread }) in
        let idle = laws.pending-take d armed.thread (posted T laws C actions d t.thread) in
        rw (ap (fires n) fired ∙ fires_idle n u idle) (refl, refl)

    -- A periodic timer that is armed for its interval.
    abbrev IsPeriodic : ℤ → C → Timer T C actions → Type 0
    IsPeriodic i c t =
        (t.callback ≡ some c)
        × (t.is_single_shot ≡ false)
        × (t.interval ≡ i)
        × (T.pending t.thread ≡ i ∷ [])

    IsPeriodic-fire :
        (i : ℤ) (c : C) (t : Timer T C actions)
        → IsPeriodic i c t
        → ((fire T C actions t).called ≡ t.called ++ (c ∷ [])) × IsPeriodic i c (fire T C actions t)
    IsPeriodic-fire i c t h =
        let taken = record t { thread = T.take t.thread } in
        let fired : fire T C actions t ≡ after T laws C actions false c taken =
          fire_lem T laws C actions quiet c i t h.0 h.3
          ∙ ap (λ b. after T laws C actions b c taken) h.1 in
        let waits =
          laws.pending-post_delayed t.interval (T.take t.thread)
          ∙ ap (λ ds. ds ++ (t.interval ∷ [])) (laws.pending-take i t.thread h.3)
          ∙ ap (λ j. j ∷ []) h.2 in
        subst (λ u. (u.called ≡ t.called ++ (c ∷ [])) × IsPeriodic i c u) (sym fired)
          (refl, (h.0, h.1, h.2, waits))

    IsPeriodic-fires :
        (n : ℕ) (i : ℤ) (c : C) (t : Timer T C actions)
        → IsPeriodic i c t
        → ((fires n t).called ≡ t.called ++ times n c) × IsPeriodic i c (fires n t)
    IsPeriodic-fires zero i c t h = (sym (append-nil t.called), h)
    IsPeriodic-fires (suc n) i c t h =
        let (called, next) = IsPeriodic-fire i c t h in
        let (all, last) = IsPeriodic-fires n i c (fire T C actions t) next in
        (all ∙ ap (λ l. l ++ times n c) called ∙ append_assoc t.called (c ∷ []) (times n c), last)

    -- If no callback acts on the timer, a started timer calls its callback once for each message that the
    -- thread delivers. It stays started, and waits for one message of its interval.
    pub start_repeats :
        (n : ℕ) (i : ℤ) (c : C) (t : Timer T C actions)
        → let u = fires n (start T C actions i c t) in
          (u.called ≡ t.called ++ times n c)
          × (started T C actions u ≡ true)
          × (T.pending u.thread ≡ i ∷ [])
    unfolding start started stop
    start_repeats n i c t =
        let (called, last) =
          IsPeriodic-fires n i c (start T C actions i c t)
            (refl, refl, refl, posted T laws C actions i t.thread) in
        (called, rw (last.0, started) refl, last.3)

  -- A single shot whose callback arms the timer again, for `c'`: `OnMessage` then resets the new
  -- callback. The timer is not started although the message of the new delay is pending, and `c'` is
  -- never called.
  pub rearmed_lost :
      (n : ℕ) (d d' : ℤ) (c c' : C) (t : Timer T C actions)
      → actions c ≡ single_shots d' c' ∷ []
      → let u = fire T C actions (single_shot T C actions d c t) in
        (started T C actions u ≡ false)
        × (T.pending u.thread ≡ d' ∷ [])
        × ((fires n u).called ≡ t.called ++ (c ∷ []))
  unfolding single_shot started stop on_message
  rearmed_lost n d d' c c' t e =
      let armed = single_shot T C actions d c t in
      let called = record armed { thread = T.take armed.thread; called = t.called ++ (c ∷ []) } in
      let lost = rearm T C actions (act_all T C actions (single_shots d' c' ∷ []) called) in
      let fired : fire T C actions armed ≡ lost =
        fire_armed T laws C actions d armed (posted T laws C actions d t.thread)
        ∙ ap (λ done. rearm T C actions (act_all T C actions done called)) e in
      (
        ap (started T C actions) fired,
        ap (λ u. T.pending u.thread) fired ∙ posted T laws C actions d' called.thread,
        ap (λ u. (fires n u).called) fired ∙ fires_unset n lost refl,
      )
