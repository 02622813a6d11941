-- ===== src/Adapter/TaskOrder.antt =====
-- IceAdapter.cpp `_tryExecuteGameTasks`: which tasks run, in which order, and what the game is told.
use ice_adapter.Base.{
  ◌≡◌, refl, ap, sym, inl, inr, ℤ, Bytes, Bool, true, false, List, [], ◌∷◌, ◌++◌, Option, none,
  some, if◌then◌else◌, arith, Bool-cases, Option-cases,
}
use ice_adapter.Json.{JsonLib}
use ice_adapter.GpgNet.Message.{GpgNetMessage, ◌>>?◌}
use ice_adapter.GpgNet.Server.{
  GpgNetServer, has_connected_client, send_message, send_host_game, send_join_game,
  send_connect_to_peer, send_disconnect_from_peer, host_game_message, join_game_message,
  connect_to_peer_message, disconnect_from_peer_message,
}
use ice_adapter.Relay.State.{PeerRelay, ok}
use ice_adapter.Adapter.State.{
  IceAdapter, IceAdapterGameTask, TaskKind, join_game, host_game, connect_to_peer,
  disconnect_from_peer, find,
}
use ice_adapter.Adapter.Tasks.{
  blocked, sent, in_lobby, relay_address, execute_task, execute_tasks, try_execute_game_tasks,
  run_kind, to_relay,
}

module _ (J : JsonLib) where
  -- A task waits for the state "Lobby", unless it tells the game to drop a peer.
  abbrev pub ready_kind : TaskKind → Bool → Bool
  ready_kind disconnect_from_peer lobby = true
  ready_kind _ lobby = lobby

  abbrev pub is_ready : IceAdapter J → IceAdapterGameTask → Bool
  is_ready a t = ready_kind t.task (in_lobby J a)

  -- The tasks in front of the first one that has to wait, and the rest.
  abbrev pub ready_front : IceAdapter J → List IceAdapterGameTask → List IceAdapterGameTask
  ready_front a [] = []
  ready_front a (t ∷ ts) = let front = ready_front a ts in if is_ready a t then t ∷ front else []

  abbrev pub waiting_rest : IceAdapter J → List IceAdapterGameTask → List IceAdapterGameTask
  waiting_rest a [] = []
  waiting_rest a (t ∷ ts) = let rest = waiting_rest a ts in if is_ready a t then rest else t ∷ ts

  abbrev pub for_relay : Option (PeerRelay J) → (Bytes → GpgNetMessage J) → List (GpgNetMessage J)
  for_relay none f = []
  for_relay (some r) f = f (relay_address J r) ∷ []

  -- What the game has to be told for a task: nothing, if the task needs a relay that is gone.
  abbrev pub message_of_kind :
      List (ℤ × PeerRelay J) → IceAdapterGameTask → TaskKind → List (GpgNetMessage J)
  message_of_kind relays t host_game = host_game_message J t.host_map ∷ []
  message_of_kind relays t join_game =
      for_relay (find t.remote_id relays)
        (λ address. join_game_message J address t.remote_login t.remote_id)
  message_of_kind relays t connect_to_peer =
      for_relay (find t.remote_id relays)
        (λ address. connect_to_peer_message J address t.remote_login t.remote_id)
  message_of_kind relays t disconnect_from_peer = disconnect_from_peer_message J t.remote_id ∷ []

  abbrev pub messages_of : List (ℤ × PeerRelay J) → List IceAdapterGameTask → List (GpgNetMessage J)
  messages_of relays [] = []
  messages_of relays (t ∷ ts) = message_of_kind relays t t.task ++ messages_of relays ts

  -- Messages handed to the server one after the other.
  abbrev pub send_all : List (GpgNetMessage J) → GpgNetServer → Option GpgNetServer
  send_all [] s = some s
  send_all (m ∷ ms) s = send_message J s m >>? λ s'. send_all ms s'

  send_all-append :
      (ms ns : List (GpgNetMessage J)) (s : GpgNetServer)
      → send_all (ms ++ ns) s ≡ (send_all ms s >>? λ s'. send_all ns s')
  send_all-append [] ns s = refl
  send_all-append (m ∷ ms) ns s = elim (Option-cases (send_message J s m)) [
    | inl e ↦ rw e
    | inr (s', e) ↦ rw e (send_all-append ms ns s')
  ]

  abbrev pub with_server : IceAdapter J → GpgNetServer → List IceAdapterGameTask → IceAdapter J
  with_server a s ts = record a { gpgnet_server = s; game_tasks = ts }

  bind_some : (o : Option GpgNetServer) → (o >>? λ s. some s) ≡ o
  bind_some none = refl
  bind_some (some s) = refl

  send_to_relay :
      (o : Option (PeerRelay J)) (f : Bytes → GpgNetMessage J) (s : GpgNetServer)
      → to_relay J o (λ address. send_message J s (f address)) s ≡ sent (send_all (for_relay o f) s)
  send_to_relay none f s = refl
  send_to_relay (some r) f s = ap sent (sym (bind_some (send_message J s (f (relay_address J r)))))

  -- A task that is ready sends its messages; one that is not is blocked.
  run_ready :
      (k : TaskKind) (t : IceAdapterGameTask) (a : IceAdapter J)
      → ready_kind k (in_lobby J a) ≡ true
      → run_kind J k t a ≡ sent (send_all (message_of_kind a.relays t k) a.gpgnet_server)
  unfolding send_host_game send_join_game send_connect_to_peer send_disconnect_from_peer
  run_ready host_game t a h = rw h (ap sent (sym (bind_some _)))
  run_ready join_game t a h = rw h (send_to_relay (find t.remote_id a.relays) _ a.gpgnet_server)
  run_ready connect_to_peer t a h =
      rw h (send_to_relay (find t.remote_id a.relays) _ a.gpgnet_server)
  run_ready disconnect_from_peer t a h = ap sent (sym (bind_some _))

  run_waiting :
      (k : TaskKind) (t : IceAdapterGameTask) (a : IceAdapter J)
      → ready_kind k (in_lobby J a) ≡ false
      → run_kind J k t a ≡ blocked
  run_waiting host_game t a h = rw h
  run_waiting join_game t a h = rw h
  run_waiting connect_to_peer t a h = rw h
  run_waiting disconnect_from_peer t a h = cc

  step_ready :
      (t : IceAdapterGameTask) (a : IceAdapter J)
      → is_ready a t ≡ true
      → execute_task J t a ≡ sent (send_all (message_of_kind a.relays t t.task) a.gpgnet_server)
  unfolding execute_task
  step_ready t a h = run_ready t.task t a h

  step_waiting :
      (t : IceAdapterGameTask) (a : IceAdapter J)
      → is_ready a t ≡ false
      → execute_task J t a ≡ blocked
  unfolding execute_task
  step_waiting t a h = run_waiting t.task t a h

  split_send :
      (ms ns : List (GpgNetMessage J)) (s : GpgNetServer) {s' : GpgNetServer}
      → send_all (ms ++ ns) s ≡ some s'
      → (mid : GpgNetServer) × (send_all ms s ≡ some mid) × (send_all ns mid ≡ some s')
  split_send ms ns s e = elim (Option-cases (send_all ms s)) [
    | inl f ↦ absurd (ground (arith, send_all-append ms ns s))
    | inr (mid, f) ↦ (mid, f, ground (arith, send_all-append ms ns s))
  ]

  execute_tasks_lem :
      (ts : List IceAdapterGameTask) (a : IceAdapter J) (s s' : GpgNetServer)
      → send_all (messages_of a.relays (ready_front a ts)) s ≡ some s'
      → execute_tasks J ts (with_server a s ts) ≡ (ok tt, with_server a s' (waiting_rest a ts))
  unfolding execute_tasks
  execute_tasks_lem [] a s s' h = ground arith
  execute_tasks_lem (t ∷ ts) a s s' h = elim (Bool-cases (is_ready a t)) [
    | inl yes_ready ↦
        let (mid, first, rest) =
          split_send (message_of_kind a.relays t t.task) (messages_of a.relays (ready_front a ts)) s
            (rw yes_ready at h) in
        rw (
          execute_tasks,
          step_ready t (with_server a s (t ∷ ts)) yes_ready,
          first,
          execute_tasks_lem ts a mid s' rest,
          yes_ready,
        )
    | inr not_ready ↦
        let same : s ≡ s' = ground (arith, rw not_ready at h) in
        rw (execute_tasks, step_waiting t (with_server a s (t ∷ ts)) not_ready, not_ready, same)
  ]

  -- With a game connected, the tasks in front of the first one that waits for the state "Lobby" are
  -- executed and removed, and the others stay queued. The server is handed the messages of the
  -- executed tasks, each once and in the order of the queue.
  pub try_execute_in_order :
      (a : IceAdapter J) (s' : GpgNetServer)
      → has_connected_client a.gpgnet_server ≡ true
      → send_all (messages_of a.relays (ready_front a a.game_tasks)) a.gpgnet_server ≡ some s'
      → try_execute_game_tasks J a ≡ (ok tt, with_server a s' (waiting_rest a a.game_tasks))
  unfolding try_execute_game_tasks
  try_execute_in_order a s' c h = rw c (execute_tasks_lem a.game_tasks a a.gpgnet_server s' h)
