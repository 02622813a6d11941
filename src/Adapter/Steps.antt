-- ===== src/Adapter/Steps.antt =====
-- IceAdapter.cpp: the adapter as a state machine that the client, the game and the relays drive.
use ice_adapter.Base.{
  ℕ, ◌≡◌, sym, ◌∙◌, ◌≢◌, ℤ, pos, subst, Bool-cases, inl, inr, arith, Bytes, Bool, true, false, List,
  [], ◌∷◌, Option, none, some, codes, if◌then◌else◌, str_eq, drop, length,
}
use ice_adapter.Json.{JsonLib}
use ice_adapter.GpgNet.Message.{GpgNetMessage}
use ice_adapter.GpgNet.Server.{
  GpgNetServer, on_new_client, on_message, on_client_disconnect, send_create_lobby,
}
use ice_adapter.Relay.State.{Webrtc, PeerRelay, ok, Call}
use ice_adapter.Relay.Identity.{SameIdentity, KeepsIdentity}
use ice_adapter.Relay.Events.{RelayEvent, on_event, on_event-KeepsIdentity}
use ice_adapter.Adapter.State.{
  IceAdapter, IceAdapterOptions, find, assign, Moment, Exec, make, pure, send_request,
}
use ice_adapter.Adapter.Game.{
  on_gpg_net_message, on_game_connected, on_game_disconnected, set_game_state, game_state_of,
  create_lobby_if_idle, init_mode, stored,
}
use ice_adapter.Adapter.Tasks.{try_execute_game_tasks}
use ice_adapter.Adapter.Methods.{on_relay_call}
use ice_adapter.Adapter.Status.{Listening}
use ice_adapter.Adapter.Handlers.{Reply, caught, callback_of}
use ice_adapter.Base.IntMap.Laws.{All-assign, All-find}
use ice_adapter.Adapter.Synced.{
  InSync, IsSynced, KeepsSync, KeepsSync-bind, try_execute-SameConfig, IsSynced-SameConfig,
  SameConfig,
}
use ice_adapter.Adapter.Reachable.{callback_of-keeps, RegisteredKeeps}

module _ (J : JsonLib) (W : Webrtc) where
  -- The callbacks of a relay, in the order in which it calls them.
  unfoldable pub on_relay_calls : ℤ → List (Call J) → IceAdapter J → IceAdapter J
  on_relay_calls id [] a = a
  on_relay_calls id (c ∷ cs) a = on_relay_calls id cs (on_relay_call J W id c a)

  -- A relay was `r` and is `s` now.
  abbrev pub with_relay : ℤ → PeerRelay J → PeerRelay J → IceAdapter J → IceAdapter J
  with_relay id r s a =
      on_relay_calls id (drop (length r.calls) s.calls) (record a { relays = assign id s a.relays })

  -- One thing that happens to the adapter: a request of the client whose handler does not answer
  -- with a caught exception, a message of the game, a game that connects or leaves, the deletion
  -- of its handler later, and an event of a relay, with the callbacks that it leads to.
  pub data Step (a : IceAdapter J) : IceAdapter J → Type 0 where
    requested :
        (l : Listening) (t : Moment) (method : Bytes) (params : J.Value)
        (m : J.Value → Exec J (Reply J.Value))
        → callback_of J W l t method ≡ some m
        → (m params a).0 ≢ ok caught
        → Step a (m params a).1
    game_says : (m : GpgNetMessage J) → Step a (on_gpg_net_message J m a).1
    game_connects :
        (handler : ℕ)
        → Step a (
            on_game_connected J
              (record a { gpgnet_server = on_new_client a.gpgnet_server handler }))
    game_leaves :
        (handler : ℕ)
        → Step a (record a { gpgnet_server = on_client_disconnect a.gpgnet_server handler })
    handler_deleted :
        (handler : ℕ)
        → Step a (
            on_game_disconnected J
              (record a { gpgnet_server = on_message a.gpgnet_server handler }))
    relay_moves :
        (now : ℕ) (id : ℤ) (e : RelayEvent) (r s : PeerRelay J)
        → find id a.relays ≡ some r
        → on_event J W now e r ≡ ok s
        → Step a (with_relay id r s a)

  pub data Reach (a : IceAdapter J) : IceAdapter J → Type 0 where
    here : Reach a a
    after : (b c : IceAdapter J) → Reach a b → Step b c → Reach a c

  executes-KeepsSync : KeepsSync J (try_execute_game_tasks J)
  executes-KeepsSync a h =
      IsSynced-SameConfig J a (try_execute_game_tasks J a).1 (try_execute-SameConfig J a) h

  create_lobby-KeepsSync : KeepsSync J (create_lobby_if_idle J)
  unfolding create_lobby_if_idle
  create_lobby-KeepsSync a h = elim (Bool-cases (str_eq a.gpgnet_game_state (codes "Idle"))) [
    | inl e ↦ rw e (
        was_stored (
          send_create_lobby J a.gpgnet_server (init_mode J a.lobby_init_mode) a.lobby_port
            a.options.local_player_login a.options.local_player_id (pos 1)))
    | inr e ↦ rw e h
  ]
    where
      was_stored : (o : Option GpgNetServer) → IsSynced J (stored J o a).1
      was_stored none = h
      was_stored (some s) = h

  set_game_state-KeepsSync : (o : Option Bytes) → KeepsSync J (set_game_state J o)
  unfolding set_game_state
  set_game_state-KeepsSync none a h = h
  set_game_state-KeepsSync (some state) a h =
      KeepsSync-bind J (create_lobby_if_idle J) (λ _. try_execute_game_tasks J)
        create_lobby-KeepsSync (λ _. executes-KeepsSync) (record a { gpgnet_game_state = state }) h

  game_state_of-KeepsSync :
      (header : Bytes) (vs : List J.Value)
      → KeepsSync J (game_state_of J (record { header = header; chunks = vs }))
  game_state_of-KeepsSync header [] a h = h
  game_state_of-KeepsSync header (v ∷ []) a h = set_game_state-KeepsSync (J.as_string v) a h
  game_state_of-KeepsSync header (v ∷ w ∷ vs) a h = h

  game_says-KeepsSync : (m : GpgNetMessage J) → KeepsSync J (on_gpg_net_message J m)
  unfolding on_gpg_net_message
  game_says-KeepsSync m =
      KeepsSync-bind J
        (if str_eq m.header (codes "GameState") then game_state_of J m else pure J tt) _
        (read_state (str_eq m.header (codes "GameState"))) (λ _ a h. h)
    where
      read_state : (b : Bool) → KeepsSync J (if b then game_state_of J m else pure J tt)
      read_state true a h = game_state_of-KeepsSync m.header m.chunks a h
      read_state false a h = h

  on_relay_call-SameConfig :
      (id : ℤ) (c : Call J) (a : IceAdapter J) → SameConfig J a (on_relay_call J W id c a)
  unfolding on_relay_call send_request
  on_relay_call-SameConfig id c a = ground arith

  on_relay_calls-keeps :
      (id : ℤ) (cs : List (Call J)) (a : IceAdapter J)
      → IsSynced J a
      → IsSynced J (on_relay_calls id cs a)
  unfolding on_relay_calls
  on_relay_calls-keeps id [] a h = h
  on_relay_calls-keeps id (c ∷ cs) a h =
      on_relay_calls-keeps id cs (on_relay_call J W id c a)
        (IsSynced-SameConfig J a (on_relay_call J W id c a) (on_relay_call-SameConfig id c a) h)

  Step-IsSynced : (a b : IceAdapter J) → Step a b → IsSynced J a → IsSynced J b
  unfolding on_game_connected on_game_disconnected
  Step-IsSynced a b (requested l t method params m e n) h =
      subst (RegisteredKeeps J W) e (callback_of-keeps J W l t method) params a h n
  Step-IsSynced a b (game_says m) h = game_says-KeepsSync m a h
  Step-IsSynced a b (game_connects handler) h = h
  Step-IsSynced a b (game_leaves handler) h = h
  Step-IsSynced a b (handler_deleted handler) h = tt
  Step-IsSynced a b (relay_moves now id e r s at_id ran) h =
      on_relay_calls-keeps id (drop (length r.calls) s.calls)
        (record a { relays = assign id s a.relays })
        (All-assign (InSync J a.ice_servers a.lobby_port) id s a.relays
          (same (on_event-KeepsIdentity J W now e r)) h)
    where
      same : KeepsIdentity J r (on_event J W now e r) → InSync J a.ice_servers a.lobby_port (id, s)
      same k =
          let now_same : SameIdentity J r s = subst (KeepsIdentity J r) ran k in
          let old = All-find (InSync J a.ice_servers a.lobby_port) id r a.relays h at_id in
          (sym now_same.0 ∙ old.0, sym now_same.1 ∙ old.1, sym now_same.2 ∙ old.2)

  Reach-IsSynced_from : (a b : IceAdapter J) → Reach a b → IsSynced J a → IsSynced J b
  Reach-IsSynced_from a b here h = h
  Reach-IsSynced_from a b (after b' c reach step) h =
      Step-IsSynced b' b step (Reach-IsSynced_from a b' reach h)

  -- In every state that the adapter reaches from its construction by requests of the client that are
  -- not answered with a caught exception, by what the game does, and by what happens to the relays:
  -- a relay that is registered under an id is the relay for that player's id, has the ICE servers
  -- that the adapter was given last, and forwards to the adapter's lobby port.
  pub reachable_relay_in_sync :
      (options : IceAdapterOptions) (free_port : ℕ) (a : IceAdapter J) (id : ℤ) (r : PeerRelay J)
      → Reach (make J options free_port) a
      → find id a.relays ≡ some r
      → (r.ice_server_list ≡ a.ice_servers)
        × (r.remote_player_id ≡ id)
        × (r.game_udp_port ≡ a.lobby_port)
  reachable_relay_in_sync options free_port a id r reach at_id =
      All-find (InSync J a.ice_servers a.lobby_port) id r a.relays
        (Reach-IsSynced_from (make J options free_port) a reach (unfold make in tt)) at_id
