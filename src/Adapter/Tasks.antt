-- ===== src/Adapter/Tasks.antt =====
-- IceAdapter.cpp: the queue of game tasks.
use ice_adapter.Base.{
  Bytes, Bool, not, List, [], ◌∷◌, ◌++◌, Option, none, some, codes, str_eq, if◌then◌else◌,
  to_string,
}
use ice_adapter.Json.{JsonLib}
use ice_adapter.GpgNet.Server.{
  GpgNetServer, has_connected_client, send_host_game, send_join_game, send_connect_to_peer,
  send_disconnect_from_peer,
}
use ice_adapter.Relay.State.{PeerRelay, ok, threw}
use ice_adapter.Adapter.State.{
  IceAdapter, IceAdapterGameTask, TaskKind, join_game, host_game, connect_to_peer,
  disconnect_from_peer, find, Exec,
}

-- What the `switch` makes of the front task: it returns from the function, or the task is over, with
-- the server that its message was handed to; a message may throw.
pub data TaskRun : Type 0 where
  blocked failed : TaskRun
  done : GpgNetServer → TaskRun

abbrev pub sent : Option GpgNetServer → TaskRun
sent none = failed
sent (some s) = done s

module _ (J : JsonLib) where
  abbrev pub in_lobby : IceAdapter J → Bool
  in_lobby a = str_eq a.gpgnet_game_state (codes "Lobby")

  abbrev pub relay_address : PeerRelay J → Bytes
  relay_address r = codes "127.0.0.1:" ++ to_string r.local_udp_socket_port

  -- A missing relay is only logged.
  abbrev pub to_relay :
      Option (PeerRelay J) → (Bytes → Option GpgNetServer) → GpgNetServer → TaskRun
  to_relay none send s = done s
  to_relay (some r) send s = sent (send (relay_address r))

  abbrev pub run_kind : TaskKind → IceAdapterGameTask → IceAdapter J → TaskRun
  run_kind host_game t a =
      if not (in_lobby a) then blocked else sent (send_host_game J a.gpgnet_server t.host_map)
  run_kind join_game t a =
      if not (in_lobby a)
      then blocked
      else to_relay (find t.remote_id a.relays)
          (λ address. send_join_game J a.gpgnet_server address t.remote_login t.remote_id)
          a.gpgnet_server
  run_kind connect_to_peer t a =
      if not (in_lobby a)
      then blocked
      else to_relay (find t.remote_id a.relays)
          (λ address. send_connect_to_peer J a.gpgnet_server address t.remote_login t.remote_id)
          a.gpgnet_server
  run_kind disconnect_from_peer t a = sent (send_disconnect_from_peer J a.gpgnet_server t.remote_id)

  unfoldable pub execute_task : IceAdapterGameTask → IceAdapter J → TaskRun
  execute_task t a = run_kind t.task t a

  -- The `while` loop, over the tasks that are queued; a task is popped once it is over.
  unfoldable pub execute_tasks : List IceAdapterGameTask → Exec J (Unit {0})
  execute_tasks [] a = (ok tt, a)
  execute_tasks (t ∷ ts) a = elim (execute_task t a) [
    | blocked ↦ (ok tt, a)
    | failed ↦ (threw, a)
    | done s ↦ execute_tasks ts (record a { gpgnet_server = s; game_tasks = ts })
  ]

  unfoldable pub try_execute_game_tasks : Exec J (Unit {0})
  try_execute_game_tasks a =
      if not (has_connected_client a.gpgnet_server)
      then (ok tt, a)
      else execute_tasks a.game_tasks a

  unfoldable pub queue_game_task : IceAdapterGameTask → Exec J (Unit {0})
  unfolding try_execute_game_tasks
  queue_game_task t a = try_execute_game_tasks (record a { game_tasks = a.game_tasks ++ (t ∷ []) })
