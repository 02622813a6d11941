-- ===== src/Adapter/Invariant.antt =====
-- IceAdapter.cpp: the invariant of `Synced` over the methods, the handlers and the game's events.
use ice_adapter.Base.{
  ◌≡◌, refl, sym, ◌∙◌, inl, inr, ◌≢◌, ℤ, Bytes, Bool, false, List, [], ◌∷◌, Option, none, some, All,
  Bool-cases, pos,
}
use ice_adapter.Json.{JsonLib}
use ice_adapter.GpgNet.Message.{GpgNetMessage}
use ice_adapter.GpgNet.Server.{GpgNetServer, has_connected_client, send_message}
use ice_adapter.Relay.State.{IceServer, Webrtc, PeerRelay, Run, ok, exited, threw, null_pointer}
use ice_adapter.Relay.Close.{make, set_ice_servers}
use ice_adapter.Relay.Connection.{add_ice_message}
use ice_adapter.Relay.Identity.{
  KeepsIdentity, add_ice_message-KeepsIdentity, MadeFrom, make-MadeFrom,
}
use ice_adapter.Adapter.State.{
  IceAdapter, host_game, join_game, disconnect_from_peer, find, assign, erase, Moment, continue,
  modify,
}
use ice_adapter.Adapter.Tasks.{queue_game_task}
use ice_adapter.Adapter.Servers.{set_servers, set_all, collect, Collected}
use ice_adapter.Adapter.Methods.{
  create_peer_relay, relay_options, host, join, connect, disconnect, set_lobby_init_mode, ice_msg,
  send_to_gpg_net, task_of, sent_to_game,
}
use ice_adapter.Base.IntMap.Laws.{All-assign, All-erase, All-find}
use ice_adapter.Adapter.Synced.{InSync, IsSynced, KeepsSync, KeepsSync-bind, KeepsSync-queue}

module _ (J : JsonLib) (W : Webrtc) where
  -- A new relay takes the adapter's servers and port.
  create_peer_relay-KeepsSync :
      (t : Moment) (id : ℤ) (login : Bytes) (offer : Bool)
      → KeepsSync J (create_peer_relay J W t id login offer)
  unfolding create_peer_relay
  create_peer_relay-KeepsSync t id login offer a h = by_entry (find id a.relays) refl
    where
      made :
          (o : Run (PeerRelay J))
          → MadeFrom J W (relay_options J W a id login offer) t.port o
          → IsSynced J
              (continue J o (λ r. modify J (λ b. record b { relays = assign id r b.relays })) a).1
      made (ok r) m =
          All-assign (InSync J a.ice_servers a.lobby_port) id r a.relays (sym m.0, sym m.1, sym m.2)
            h
      made exited m = h
      made threw m = h
      made null_pointer m = h

      by_entry :
          (o : Option (PeerRelay J))
          → find id a.relays ≡ o
          → IsSynced J (create_peer_relay J W t id login offer a).1
      by_entry (some r) e = rw (e, create_peer_relay) h
      by_entry none e =
          rw (e, create_peer_relay)
            (made (make J W t.now t.port (relay_options J W a id login offer))
              (make-MadeFrom J W t.now t.port (relay_options J W a id login offer)))

  -- The remote side's messages change a relay only in its connection.
  pub ice_msg-KeepsSync : (t : Moment) (id : ℤ) (msg : J.Value) → KeepsSync J (ice_msg J W t id msg)
  unfolding ice_msg
  ice_msg-KeepsSync t id msg a h = by_entry (find id a.relays) refl
    where
      handled :
          (r : PeerRelay J) (o : Run (PeerRelay J))
          → find id a.relays ≡ some r
          → KeepsIdentity J r o
          → IsSynced J
              (continue J o (λ s. modify J (λ b. record b { relays = assign id s b.relays })) a).1
      handled r (ok s) e k =
          let old = All-find (InSync J a.ice_servers a.lobby_port) id r a.relays h e in
          All-assign (InSync J a.ice_servers a.lobby_port) id s a.relays
            (sym k.0 ∙ old.0, sym k.1 ∙ old.1, sym k.2 ∙ old.2) h
      handled r exited e k = h
      handled r threw e k = h
      handled r null_pointer e k = h

      by_entry :
          (o : Option (PeerRelay J)) → find id a.relays ≡ o → IsSynced J (ice_msg J W t id msg a).1
      by_entry none e = rw (e, ice_msg) h
      by_entry (some r) e =
          rw (e, ice_msg)
            (handled r (add_ice_message J W t.now msg r) e
              (add_ice_message-KeepsIdentity J W t.now msg r))

  pub disconnect-KeepsSync : (id : ℤ) → KeepsSync J (disconnect J W id)
  unfolding disconnect
  disconnect-KeepsSync id a h = by_entry (find id a.relays) refl
    where
      by_entry :
          (o : Option (PeerRelay J)) → find id a.relays ≡ o → IsSynced J (disconnect J W id a).1
      by_entry none e = rw (e, disconnect) h
      by_entry (some r) e =
          rw (e, disconnect)
            (KeepsSync-queue J (task_of J W disconnect_from_peer [] [] id)
              (record a { relays = erase id a.relays })
              (All-erase (InSync J a.ice_servers a.lobby_port) id a.relays h))

  pub host-KeepsSync : (map_name : Bytes) → KeepsSync J (host J W map_name)
  unfolding host
  host-KeepsSync map_name =
      KeepsSync-bind J (queue_game_task J (task_of J W host_game map_name [] (pos 0))) _
        (KeepsSync-queue J _) (λ _ a h. h)

  pub join-KeepsSync : (t : Moment) (login : Bytes) (id : ℤ) → KeepsSync J (join J W t login id)
  unfolding join
  join-KeepsSync t login id =
      KeepsSync-bind J (create_peer_relay J W t id login false) _
        (create_peer_relay-KeepsSync t id login false)
        (λ _.
          KeepsSync-bind J (queue_game_task J (task_of J W join_game [] login id)) _
            (KeepsSync-queue J _) (λ _ a h. h))

  pub connect-KeepsSync :
      (t : Moment) (login : Bytes) (id : ℤ) (offer : Bool)
      → KeepsSync J (connect J W t login id offer)
  unfolding connect
  connect-KeepsSync t login id offer =
      KeepsSync-bind J (create_peer_relay J W t id login offer) _
        (create_peer_relay-KeepsSync t id login offer) (λ _. KeepsSync-queue J _)

  pub send_to_gpg_net-KeepsSync : (m : GpgNetMessage J) → KeepsSync J (send_to_gpg_net J W m)
  unfolding send_to_gpg_net
  send_to_gpg_net-KeepsSync m a h = elim (Bool-cases (has_connected_client a.gpgnet_server)) [
    | inl e ↦ rw e (stored (send_message J a.gpgnet_server m))
    | inr e ↦ rw e h
  ]
    where
      stored : (o : Option GpgNetServer) → IsSynced J (sent_to_game J W o a).1
      stored none = h
      stored (some s) = h

  pub set_lobby_init_mode-KeepsSync : (mode : Bytes) → KeepsSync J (set_lobby_init_mode J W mode)
  unfolding set_lobby_init_mode
  set_lobby_init_mode-KeepsSync mode a h = h

  set_all-InSync :
      (servers old : List IceServer) (port : ℤ) (m : List (ℤ × PeerRelay J))
      → All (InSync J old port) m
      → All (InSync J servers port) (set_all J servers m)
  unfolding set_all set_ice_servers
  set_all-InSync servers old port [] h = tt
  set_all-InSync servers old port ((k, r) ∷ m) h =
      ((refl, h.0.1, h.0.2), set_all-InSync servers old port m h.1)

  -- If the relays are in step with the adapter and `setIceServers` does not throw, the relays are in
  -- step with the new list afterwards.
  pub set_servers-IsSynced :
      (v : J.Value) (a : IceAdapter J)
      → IsSynced J a
      → (set_servers J v a).0 ≢ threw
      → IsSynced J (set_servers J v a).1
  unfolding set_servers
  set_servers-IsSynced v a h returns = by_outcome (collect J (J.size v) 0 v) refl
    where
      by_outcome : (c : Collected) → collect J (J.size v) 0 v ≡ c → IsSynced J (set_servers J v a).1
      by_outcome c e = elim (Bool-cases c.failed) [
        | inl f ↦ absurd (returns (rw (set_servers, e, f)))
        | inr f ↦
            rw (set_servers, e, f) (set_all-InSync c.servers a.ice_servers a.lobby_port a.relays h)
      ]
