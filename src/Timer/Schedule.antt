-- ===== src/Timer/Schedule.antt =====
-- Timer.cpp: when the callback of a timer is called.
use ice_adapter.Base.{
  ℤ, ◌≡◌, refl, sym, ap, subst, subst₂, ◌∙◌, inl, inr, Bool, true, false, List, [], ◌∷◌, ◌++◌,
  Option, none, some, Option-cases, if◌then◌else◌,
}
use ice_adapter.Timer.{
  Thread, ThreadLaws, Action, starts, single_shots, stops, Timer, stop, start, single_shot,
  on_message, fire, act, act_all, rearm, call_if_set, rearm, act_all,
}

module _ (T : Thread) (laws : ThreadLaws T) (C : Type 0) (actions : C → List (Action C)) where
  -- A timer that is started waits for one message, and one that is not waits for none. A periodic one
  -- waits for its interval.
  abbrev pub IsScheduled : Option C → Bool → ℤ → List ℤ → Type 0
  IsScheduled none single i ds = ds ≡ []
  IsScheduled (some c) true i ds = (d : ℤ) × (ds ≡ d ∷ [])
  IsScheduled (some c) false i ds = ds ≡ i ∷ []

  abbrev pub IsOrderly : Timer T C actions → Type 0
  IsOrderly t = IsScheduled t.callback t.is_single_shot t.interval (T.pending t.thread)

  -- What happens to a timer: the program acts on it, or the thread delivers a message.
  pub data Event : Type 0 where
    acts : Action C → Event
    fires : Event

  unfoldable pub run : List Event → Timer T C actions → Timer T C actions
  run [] t = t
  run (acts a ∷ es) t = run es (act T C actions a t)
  run (fires ∷ es) t = run es (fire T C actions t)

  pub posted : (d : ℤ) (s : T.State) → T.pending (T.post_delayed d (T.clear s)) ≡ d ∷ []
  posted d s =
      laws.pending-post_delayed d (T.clear s) ∙ ap (λ ds. ds ++ (d ∷ [])) (laws.pending-clear s)

  act-IsOrderly : (a : Action C) (t : Timer T C actions) → IsOrderly (act T C actions a t)
  unfolding start single_shot stop
  act-IsOrderly (starts i c) t = posted i t.thread
  act-IsOrderly (single_shots d c) t = (d, posted d t.thread)
  act-IsOrderly stops t = laws.pending-clear t.thread

  -- The delivery of the only message, when the callbacks leave the timer alone.
  pub fire_armed :
      (d : ℤ) (t : Timer T C actions)
      → T.pending t.thread ≡ d ∷ []
      → fire T C actions t ≡ on_message T C actions (record t { thread = T.take t.thread })
  unfolding fire
  fire_armed d t e = rw (e, fire) refl

  pub fire_idle : (t : Timer T C actions) → T.pending t.thread ≡ [] → fire T C actions t ≡ t
  unfolding fire
  fire_idle t e = rw (e, fire) refl

  -- What a delivered message does, by whether the timer is a single shot.
  abbrev pub after : Bool → C → Timer T C actions → Timer T C actions
  after true c t = record t { callback = none; called = t.called ++ (c ∷ []) }
  after false c t = record t {
    thread = T.post_delayed t.interval t.thread;
    called = t.called ++ (c ∷ []);
  }

  after_lem :
      (b : Bool) (c : C) (t : Timer T C actions)
      → (if b then record t { callback = none; called = t.called ++ (c ∷ []) } else record t {
        thread = T.post_delayed t.interval t.thread;
        called = t.called ++ (c ∷ []);
      })
        ≡ after b c t
  after_lem true c t = refl
  after_lem false c t = refl

  module _ (quiet : (c : C) → actions c ≡ []) where
    on_message_lem :
        (c : C) (t : Timer T C actions)
        → t.callback ≡ some c
        → on_message T C actions t ≡ after t.is_single_shot c t
    unfolding on_message
    on_message_lem c t e =
        ap (λ k. call_if_set T C actions k t) e
        ∙ ap
            (λ done.
              rearm T C actions
                (act_all T C actions done (record t { called = t.called ++ (c ∷ []) })))
            (quiet c)
        ∙ after_lem t.is_single_shot c t

    pub fire_lem :
        (c : C) (d : ℤ) (t : Timer T C actions)
        → t.callback ≡ some c
        → T.pending t.thread ≡ d ∷ []
        → fire T C actions t ≡ after t.is_single_shot c (record t { thread = T.take t.thread })
    fire_lem c d t e p =
        fire_armed d t p ∙ on_message_lem c (record t { thread = T.take t.thread }) e

    rescheduled :
        (single : Bool) (c : C) (d : ℤ) (t : Timer T C actions)
        → t.is_single_shot ≡ single
        → T.pending t.thread ≡ d ∷ []
        → t.callback ≡ some c
        → IsOrderly (after single c (record t { thread = T.take t.thread }))
    rescheduled true c d t s p e = laws.pending-take d t.thread p
    rescheduled false c d t s p e =
        subst₂
          (λ k b.
            IsScheduled k b t.interval (T.pending (T.post_delayed t.interval (T.take t.thread))))
          (sym e) (sym s)
          (laws.pending-post_delayed t.interval (T.take t.thread)
            ∙ ap (λ ds. ds ++ (t.interval ∷ [])) (laws.pending-take d t.thread p))

    pending_one :
        (c : C) (single : Bool) (i : ℤ) (ds : List ℤ)
        → IsScheduled (some c) single i ds
        → (d : ℤ) × (ds ≡ d ∷ [])
    pending_one c true i ds h = h
    pending_one c false i ds h = (i, h)

    fire-IsOrderly : (t : Timer T C actions) → IsOrderly t → IsOrderly (fire T C actions t)
    fire-IsOrderly t h = elim (Option-cases t.callback) [
      | inl e ↦
          let idle : T.pending t.thread ≡ [] =
            subst (λ k. IsScheduled k t.is_single_shot t.interval (T.pending t.thread)) e h in
          subst IsOrderly (sym (fire_idle t idle)) h
      | inr (c, e) ↦
          let (d, p) =
            pending_one c t.is_single_shot t.interval (T.pending t.thread)
              (subst (λ k. IsScheduled k t.is_single_shot t.interval (T.pending t.thread)) e h) in
          subst IsOrderly (sym (fire_lem c d t e p)) (rescheduled t.is_single_shot c d t refl p e)
    ]

    -- If no callback acts on the timer, then in any history a timer that is started waits for exactly one
    -- message, of its interval if it is periodic, and one that is not started waits for none.
    pub timer_scheduled :
        (es : List Event) (t : Timer T C actions) → IsOrderly t → IsOrderly (run es t)
    unfolding run
    timer_scheduled [] t h = h
    timer_scheduled (acts a ∷ es) t h = timer_scheduled es (act T C actions a t) (act-IsOrderly a t)
    timer_scheduled (fires ∷ es) t h = timer_scheduled es (fire T C actions t) (fire-IsOrderly t h)
