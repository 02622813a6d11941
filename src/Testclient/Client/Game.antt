-- ===== src/Testclient/Client/Game.antt =====
-- legacy_testclient/Testclient.cpp: the adapter's GPGNet messages, and the datagrams of the peers.
use ice_adapter.Base.{
  ℕ, ℤ, pos, Bytes, Bool, true, false, List, [], ◌∷◌, ◌++◌, Option, none, some, codes,
  if◌then◌else◌, ◌==◌, str_eq, get_int32, pattern_of, int32_of, drop, length,
}
use ice_adapter.Base.IntMap.{find, assign, erase}
use ice_adapter.GpgNet.Message.{GpgNetMessage, to_binary}
use ice_adapter.Json.{JsonLib}
use ice_adapter.Testclient.Client.{Testclient, update_status}
use ice_adapter.Testclient.Pingtracker.{
  Pingtracker, PingPacket, create, start, on_ping_packet, ping,
}
use ice_adapter.Testserver.{Exec, ◌>>=◌, lift, modify, done}
use ice_adapter.Testserver.Callbacks.{is_some}

-- `std::stoi` of the text behind the first colon; 0 without one. `stoi` is a parameter.
unfoldable pub after_colon : Bytes → Option Bytes
after_colon [] = none
after_colon (c ∷ cs) = let rest = after_colon cs in if c == 58 then some cs else rest

abbrev pub port_behind : (Bytes → Option ℤ) → Option Bytes → Option ℤ
port_behind stoi none = some (pos 0)
port_behind stoi (some s) = stoi s

abbrev pub extract_port : (Bytes → Option ℤ) → Bytes → Option ℤ
extract_port stoi address = port_behind stoi (after_colon address)

-- A datagram of the size of `PingPacket`, in the host's byte order.
unfoldable pub read_ping_packet : Bytes → Option PingPacket
unfolding get_int32 pattern_of
read_ping_packet b =
    if length b == 16
    then some (record {
      type = pattern_of (get_int32 b);
      sender_id = pattern_of (get_int32 (drop 4 b));
      answerer_id = pattern_of (get_int32 (drop 8 b));
      ping_id = pattern_of (get_int32 (drop 12 b));
    })
    else none

module _ (J : JsonLib) (F : Type 0) (average : F → ℕ → ℕ → F) (zero_ping : F)
    (stoi : Bytes → Option ℤ) where
  open J use {of_string, as_int, as_string}

  abbrev pub Client : Type 0
  Client = Testclient J F average

  abbrev pub lobby_message : GpgNetMessage J
  lobby_message = record { header = codes "GameState"; chunks = of_string (codes "Lobby") ∷ [] }

  abbrev pub started_if : Bool → Pingtracker F average → Pingtracker F average
  started_if true t = start F average t
  started_if false t = t

  -- A tracker for a peer, which pings at once if the peer is known to be connected.
  abbrev pub track : ℤ → Client → Client
  track peer c = record c {
    pingtrackers =
        assign peer
          (started_if (is_some (find peer c.peers_ready))
            (create F average zero_ping c.player_id peer))
          c.pingtrackers;
  }

  abbrev pub connect_to_peer : List J.Value → Exec Client (Unit {0})
  connect_to_peer (address ∷ (login ∷ (id ∷ []))) = lift (as_int id) >>= λ peer.
      lift (as_string address) >>= λ s. lift (extract_port stoi s) >>= λ port. modify (track peer)
  connect_to_peer _ = done

  abbrev pub forget : ℤ → Client → Client
  forget peer c = update_status J F average (record c {
    pingtrackers = erase peer c.pingtrackers;
    peers_ready = erase peer c.peers_ready;
    omitted_candidates = erase peer c.omitted_candidates;
    kept_candidates = erase peer c.kept_candidates;
  })

  abbrev pub disconnect_from_peer : List J.Value → Exec Client (Unit {0})
  disconnect_from_peer (id ∷ []) = lift (as_int id) >>= λ peer. modify (forget peer)
  disconnect_from_peer _ = done

  -- `onGPGNetMessageFromIceAdapter`
  unfoldable pub on_gpg_net_message : GpgNetMessage J → Exec Client (Unit {0})
  unfolding to_binary start after_colon
  on_gpg_net_message m =
      if str_eq m.header (codes "CreateLobby")
      then (lift (to_binary J lobby_message) >>= λ bytes.
          modify (λ c. record c { written = c.written ++ bytes }))
      else if str_eq m.header (codes "ConnectToPeer")
      then connect_to_peer m.chunks
      else if str_eq m.header (codes "JoinGame")
      then connect_to_peer m.chunks
      else if str_eq m.header (codes "DisconnectFromPeer")
      then disconnect_from_peer m.chunks
      else done

  -- The peer that a packet belongs to, as a key of the map.
  abbrev pub peer_of : PingPacket → ℤ
  peer_of p = int32_of (if p.type == ping then p.sender_id else p.answerer_id)

  abbrev pub hand_over : ℕ → PingPacket → Option (Pingtracker F average) → Client → Client
  hand_over now p none c = c
  hand_over now p (some t) c = record c {
    pingtrackers = assign (peer_of p) (on_ping_packet F average now p t) c.pingtrackers;
  }

  abbrev pub on_datagram : ℕ → Option PingPacket → Client → Client
  on_datagram now none c = c
  on_datagram now (some p) c = hand_over now p (find (peer_of p) c.pingtrackers) c

  -- The loop of `onLobbyReadyRead` over the datagrams that are pending.
  unfoldable pub on_lobby_ready_read : ℕ → List Bytes → Client → Client
  unfolding read_ping_packet on_ping_packet int32_of
  on_lobby_ready_read now [] c = c
  on_lobby_ready_read now (b ∷ bs) c =
      on_lobby_ready_read now bs (on_datagram now (read_ping_packet b) c)
