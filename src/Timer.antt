-- ===== src/Timer.antt =====
-- Timer.h and Timer.cpp: a callback that the thread's delayed messages call, once or periodically.
pub mod Schedule
pub mod Calls
pub mod Tests
use ice_adapter.Base.{
  ℕ, ℤ, pos, ◌≡◌, Bool, true, false, List, [], ◌∷◌, ◌++◌, Option, none, some, if◌then◌else◌,
}

-- `rtc::Thread`, as far as a timer uses it: `PostDelayed` with the timer as the handler, `Clear`, and
-- what the thread does before it calls `OnMessage`. `pending` is the list of the delays of the
-- timer's messages that the thread has not delivered.
pub record Thread : Type 1 where
  pub State : Type 0
  pub post_delayed : ℤ → State → State
  pub clear : State → State
  pub take : State → State
  pub pending : State → List ℤ

-- The documented behaviour: a message is posted behind the others, `Clear` removes every message of
-- the handler, and the only message is the one that is delivered.
pub record ThreadLaws (T : Thread) : Type 0 where
  pub pending-post_delayed :
      (d : ℤ) (s : T.State) → T.pending (T.post_delayed d s) ≡ T.pending s ++ (d ∷ [])
  pub pending-clear : (s : T.State) → T.pending (T.clear s) ≡ []
  pub pending-take : (d : ℤ) (s : T.State) → T.pending s ≡ d ∷ [] → T.pending (T.take s) ≡ []

-- What a callback may do to its own timer.
pub data Action (C : Type 0) : Type 0 where
  starts single_shots : ℤ → C → Action C
  stops : Action C

module _ (T : Thread) (C : Type 0) (actions : C → List (Action C)) where
  -- `C` names the callbacks; `called` is the trace of their calls.
  pub record Timer : Type 0 where
    pub interval : ℤ
    pub callback : Option C
    pub is_single_shot : Bool
    pub thread : T.State
    pub called : List C

  abbrev pub make : T.State → Timer
  make thread = record {
    interval = pos 0;
    callback = none;
    is_single_shot = false;
    thread = thread;
    called = [];
  }

  unfoldable pub started : Timer → Bool
  started t = elim t.callback [ none ↦ false | some c ↦ true ]

  unfoldable pub stop : Timer → Timer
  stop t = record t { callback = none; thread = T.clear t.thread }

  unfoldable pub start : ℤ → C → Timer → Timer
  unfolding stop
  start interval_ms callback t =
      let t1 = stop t in
      record t1 {
        interval = interval_ms;
        callback = some callback;
        is_single_shot = false;
        thread = T.post_delayed interval_ms t1.thread;
      }

  unfoldable pub single_shot : ℤ → C → Timer → Timer
  unfolding stop
  single_shot delay callback t =
      let t1 = stop t in
      record t1 {
        callback = some callback;
        is_single_shot = true;
        thread = T.post_delayed delay t1.thread;
      }

  abbrev pub act : Action C → Timer → Timer
  act (starts interval_ms callback) t = start interval_ms callback t
  act (single_shots delay callback) t = single_shot delay callback t
  act stops t = stop t

  abbrev pub act_all : List (Action C) → Timer → Timer
  act_all [] t = t
  act_all (a ∷ rest) t = act_all rest (act a t)

  -- `_callback()`
  abbrev pub call : C → Timer → Timer
  call c t = act_all (actions c) (record t { called = t.called ++ (c ∷ []) })

  -- What `OnMessage` does behind the call.
  abbrev pub rearm : Timer → Timer
  rearm t =
      if t.is_single_shot
      then record t { callback = none }
      else record t { thread = T.post_delayed t.interval t.thread }

  abbrev pub call_if_set : Option C → Timer → Timer
  call_if_set none t = t
  call_if_set (some c) t = rearm (call c t)

  unfoldable pub on_message : Timer → Timer
  unfolding start single_shot
  on_message t = call_if_set t.callback t

  -- The thread delivers a message of the timer, if one is pending.
  unfoldable pub fire : Timer → Timer
  unfolding on_message
  fire t = elim (T.pending t.thread) [
    | [] ↦ t
    | d ∷ ds ↦ on_message (record t { thread = T.take t.thread })
  ]
