-- ===== src/Adapter/Delivered.antt =====
-- IceAdapter.cpp `_tryExecuteGameTasks` down to the bytes that the games receive.
use ice_adapter.Base.{
  ◌<◌, ◌≡◌, refl, inl, inr, ℤ, IsInt32, Bytes, true, List, [], ◌∷◌, Option, none, some, codes,
  arith, All, All-append, length, Bool-cases, length-append, length-to_string-le, to_string,
}
use ice_adapter.Json.{JsonLib, JsonLaws}
use ice_adapter.GpgNet.Message.{GpgNetMessage}
use ice_adapter.GpgNet.RoundTrip.{IsWireMessage}
use ice_adapter.GpgNet.Server.{GpgNetServer, has_connected_client}
use ice_adapter.GpgNet.Server.Sends.{send_message-Broadcast, Broadcast}
use ice_adapter.Relay.State.{PeerRelay, ok}
use ice_adapter.Adapter.State.{
  IceAdapter, IceAdapterGameTask, TaskKind, join_game, host_game, connect_to_peer,
  disconnect_from_peer, find,
}
use ice_adapter.Adapter.Tasks.{relay_address, try_execute_game_tasks}
use ice_adapter.Adapter.TaskOrder.{
  is_ready, ready_front, waiting_rest, for_relay, message_of_kind, messages_of, send_all,
  with_server, try_execute_in_order,
}

-- A task as the client queues it: its numbers are `int`s, and no text is 2 GiB long.
pub record IsSane (t : IceAdapterGameTask) : Type 0 where
  pub map_fits : length t.host_map < 2147483648
  pub login_fits : length t.remote_login < 2147483648
  pub id_fits : IsInt32 t.remote_id

module _ (J : JsonLib) (laws : JsonLaws J) where
  -- The port of a bound socket.
  abbrev pub HasPort : ℤ × PeerRelay J → Type 0
  HasPort e = e.1.local_udp_socket_port < 65536

  address_fits :
      (r : PeerRelay J) → r.local_udp_socket_port < 65536 → length (relay_address J r) < 2147483648
  address_fits r h = omega (
    arith,
    length-append (codes "127.0.0.1:") (to_string r.local_udp_socket_port),
    length-to_string-le r.local_udp_socket_port,
  )

  find-HasPort :
      (id : ℤ) (relays : List (ℤ × PeerRelay J)) (r : PeerRelay J)
      → All HasPort relays
      → find id relays ≡ some r
      → r.local_udp_socket_port < 65536
  unfolding find
  find-HasPort id [] r h e = cc
  find-HasPort id ((k, x) ∷ m) r h e = ground (arith, find-HasPort id m r h.1)

  peer_message :
      (address login : Bytes) (id : ℤ) (header : Bytes)
      → length header < 2147483648
      → length address < 2147483648
      → length login < 2147483648
      → IsInt32 id
      → IsWireMessage J laws (record {
        header = header;
        chunks = J.of_string address ∷ J.of_string login ∷ J.of_int id ∷ [];
      })
  peer_message address login id header hh ha hl hi = (
    hh,
    omega arith,
    (inr (address, ha, refl), (inr (login, hl, refl), (inl (id, hi, refl), tt))),
  )

  for_relay-wire :
      (o : Option (PeerRelay J)) (f : Bytes → GpgNetMessage J)
      → ((r : PeerRelay J) → o ≡ some r → IsWireMessage J laws (f (relay_address J r)))
      → All (IsWireMessage J laws) (for_relay J o f)
  for_relay-wire none f h = tt
  for_relay-wire (some r) f h = (h r refl, tt)

  task-wire :
      (k : TaskKind) (t : IceAdapterGameTask) (relays : List (ℤ × PeerRelay J))
      → IsSane t
      → All HasPort relays
      → All (IsWireMessage J laws) (message_of_kind J relays t k)
  task-wire host_game t relays s h =
      ((omega arith, omega arith, (inr (t.host_map, s.map_fits, refl), tt)), tt)
  task-wire join_game t relays s h = for_relay-wire (find t.remote_id relays) _ λ r e.
      peer_message (relay_address J r) t.remote_login t.remote_id (codes "JoinGame") (omega arith)
        (address_fits r (find-HasPort t.remote_id relays r h e)) s.login_fits s.id_fits
  task-wire connect_to_peer t relays s h = for_relay-wire (find t.remote_id relays) _ λ r e.
      peer_message (relay_address J r) t.remote_login t.remote_id (codes "ConnectToPeer")
        (omega arith) (address_fits r (find-HasPort t.remote_id relays r h e)) s.login_fits
        s.id_fits
  task-wire disconnect_from_peer t relays s h =
      ((omega arith, omega arith, (inl (t.remote_id, s.id_fits, refl), tt)), tt)

  tasks-wire :
      (a : IceAdapter J) (ts : List IceAdapterGameTask)
      → All IsSane ts
      → All HasPort a.relays
      → All (IsWireMessage J laws) (messages_of J a.relays (ready_front J a ts))
  tasks-wire a [] s h = tt
  tasks-wire a (t ∷ ts) s h = elim (Bool-cases (is_ready J a t)) [
    | inl e ↦ rw e (
        All-append (IsWireMessage J laws) (message_of_kind J a.relays t t.task) _
          (task-wire t.task t a.relays s.0 h) (tasks-wire a ts s.1 h))
    | inr e ↦ rw e tt
  ]

  -- Each message in turn goes to every connected game, in a form that `parse` reads back.
  abbrev pub Broadcasts : GpgNetServer → List (GpgNetMessage J) → GpgNetServer → Type 0
  Broadcasts s [] s' = s ≡ s'
  Broadcasts s (m ∷ ms) s' = (mid : GpgNetServer) × Broadcast J laws s mid m × Broadcasts mid ms s'

  send_all-Broadcasts :
      (ms : List (GpgNetMessage J)) (s : GpgNetServer)
      → All (IsWireMessage J laws) ms
      → (s' : GpgNetServer) × (send_all J ms s ≡ some s') × Broadcasts s ms s'
  send_all-Broadcasts [] s h = (s, refl, refl)
  send_all-Broadcasts (m ∷ ms) s h =
      let (mid, e, b) = send_message-Broadcast J laws s m h.0 in
      let (s', e', bs) = send_all-Broadcasts ms mid h.1 in (s', rw (e, e'), (mid, b, bs))

  -- With a game connected, and tasks whose fields fit the protocol, the function returns. It has
  -- executed and removed the tasks in front of the first one that waits for the state "Lobby", and
  -- sent exactly their messages, in order, to every connected game.
  pub try_execute_delivers :
      (a : IceAdapter J)
      → has_connected_client a.gpgnet_server ≡ true
      → All IsSane a.game_tasks
      → All HasPort a.relays
      → (s' : GpgNetServer) × (try_execute_game_tasks J a
          ≡ (ok tt, with_server J a s' (waiting_rest J a a.game_tasks)))
        × Broadcasts a.gpgnet_server (messages_of J a.relays (ready_front J a a.game_tasks)) s'
  try_execute_delivers a c s h =
      let (s', e, b) =
        send_all-Broadcasts (messages_of J a.relays (ready_front J a a.game_tasks)) a.gpgnet_server
          (tasks-wire a a.game_tasks s h) in
      (s', try_execute_in_order J a s' c e, b)
