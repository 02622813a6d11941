-- ===== src/Timer/Tests.antt =====
-- The theorems on the timer at a concrete thread.
use ice_adapter.Base.{
  ℕ, ℤ, pos, ◌≡◌, refl, ap, ◌==◌, if◌then◌else◌, true, false, List, [], ◌∷◌, ◌++◌,
}
use ice_adapter.Timer.{
  Thread, ThreadLaws, Action, starts, single_shots, make, started, start, single_shot, fire,
}
use ice_adapter.Timer.Schedule.{IsOrderly, acts, fires, run, timer_scheduled}
use ice_adapter.Timer.Calls as Calls
use ice_adapter.Timer.Calls.{single_shot_once, start_repeats, rearmed_lost}

-- A thread that delivers the messages in the order in which they are posted.
abbrev take_first : List ℤ → List ℤ
take_first [] = []
take_first (d ∷ ds) = ds

abbrev queue : Thread
queue = record {
  State = List ℤ;
  post_delayed = λ d s. s ++ (d ∷ []);
  clear = λ s. [];
  take = take_first;
  pending = λ s. s;
}

take_only : (d : ℤ) (s : List ℤ) → s ≡ d ∷ [] → take_first s ≡ []
take_only d s e = ap take_first e

abbrev queue_laws : ThreadLaws queue
queue_laws = record {
  pending-post_delayed = λ d s. refl;
  pending-clear = λ s. refl;
  pending-take = take_only;
}

-- Callbacks that leave the timer alone, and callbacks of which the first arms the timer again.
abbrev quiet_actions : ℕ → List (Action ℕ)
quiet_actions c = []

abbrev arming_actions : ℕ → List (Action ℕ)
arming_actions c = if c == 1 then single_shots (pos 30) 2 ∷ [] else []

timer_scheduled_example : IsOrderly queue queue_laws ℕ quiet_actions (
    run queue queue_laws ℕ quiet_actions
      (acts (starts (pos 500) 1) ∷ (fires ∷ (acts (single_shots (pos 9) 2) ∷ (fires ∷ []))))
      (make queue ℕ quiet_actions []))
timer_scheduled_example =
    timer_scheduled queue queue_laws ℕ quiet_actions (λ c. refl)
      (acts (starts (pos 500) 1) ∷ (fires ∷ (acts (single_shots (pos 9) 2) ∷ (fires ∷ []))))
      (make queue ℕ quiet_actions []) refl

single_shot_once_example :
    let u =
      Calls.fires queue queue_laws ℕ quiet_actions 3
        (single_shot queue ℕ quiet_actions (pos 9) 2 (make queue ℕ quiet_actions [])) in
    (u.called ≡ 2 ∷ []) × (started queue ℕ quiet_actions u ≡ false)
single_shot_once_example =
    single_shot_once queue queue_laws ℕ quiet_actions (λ c. refl) 2 (pos 9) 2
      (make queue ℕ quiet_actions [])

start_repeats_example :
    let u =
      Calls.fires queue queue_laws ℕ quiet_actions 3
        (start queue ℕ quiet_actions (pos 500) 1 (make queue ℕ quiet_actions [])) in
    (u.called ≡ 1 ∷ (1 ∷ (1 ∷ [])))
    × (started queue ℕ quiet_actions u ≡ true)
    × (u.thread ≡ pos 500 ∷ [])
start_repeats_example =
    start_repeats queue queue_laws ℕ quiet_actions (λ c. refl) 3 (pos 500) 1
      (make queue ℕ quiet_actions [])

rearmed_lost_example :
    let u =
      fire queue ℕ arming_actions
        (single_shot queue ℕ arming_actions (pos 9) 1 (make queue ℕ arming_actions [])) in
    (started queue ℕ arming_actions u ≡ false)
    × (u.thread ≡ pos 30 ∷ [])
    × ((Calls.fires queue queue_laws ℕ arming_actions 4 u).called ≡ 1 ∷ [])
rearmed_lost_example =
    rearmed_lost queue queue_laws ℕ arming_actions 4 (pos 9) (pos 30) 1 2
      (make queue ℕ arming_actions []) refl
