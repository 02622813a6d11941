-- ===== src/Testclient/Client/Lives.antt =====
-- legacy_testclient/Testclient.cpp: the client over its life.
use ice_adapter.Base.{
  ℕ, ◌≡◌, refl, sym, ◌∙◌, subst, ℤ, Bytes, Bool, true, List, [], ◌∷◌, Option, none, some, codes,
  str_eq,
}
use ice_adapter.Base.IntMap.{find}
use ice_adapter.Base.IntMap.Laws.{IsAscending, assign-IsAscending, erase-IsAscending}
use ice_adapter.GpgNet.Message.{GpgNetMessage, to_binary}
use ice_adapter.Json.{JsonLib}
use ice_adapter.Testclient.Client.{leave_clicked}
use ice_adapter.Testclient.Client.Game.{
  on_gpg_net_message, connect_to_peer, disconnect_from_peer, forget, track, started_if,
  on_lobby_ready_read, on_datagram, hand_over, peer_of, read_ping_packet, extract_port,
  lobby_message,
}
use ice_adapter.Testclient.Pingtracker.{Pingtracker, PingPacket, create, on_ping_packet}
use ice_adapter.Testserver.Callbacks.{is_some}
use ice_adapter.Testclient.Client.Pinging.{put_active, erase_active, packet_active, start_active}
use ice_adapter.Testclient.Client.Keeping.{
  Keeps, IsP, Client, read-Keeps, modify-Keeps, Keeps-if, done-Keeps, status-IsPinging,
  leave-IsPinging, callback-IsPinging, Method, callback,
}

module _ (J : JsonLib) (F : Type 0) (average : F → ℕ → ℕ → F) (zero_ping : F)
    (stoi : Bytes → Option ℤ) where
  open J use {Value}

  tracked_active :
      (b : Bool) (peer : ℤ) (c : Client J F average) (r : Option (Unit {0}))
      → find peer c.peers_ready ≡ r
      → find peer c.peers_ready ≡ some tt
      → (started_if J F average zero_ping stoi
          (is_some r)
          (create F average zero_ping c.player_id peer)).is_active
        ≡ true
  tracked_active b peer c none e f = cc
  tracked_active b peer c (some u) e f =
      start_active J F average (create F average zero_ping c.player_id peer)

  track-IsPinging :
      (peer : ℤ) (c : Client J F average)
      → IsP J F average c
      → IsP J F average (track J F average zero_ping stoi peer c)
  track-IsPinging peer c (ready, trackers, active) = (
    ready,
    assign-IsAscending peer _ c.pingtrackers trackers,
    put_active J F average peer _ c.peers_ready c.pingtrackers
        (tracked_active true peer c (find peer c.peers_ready) refl) active,
  )

  forget-IsPinging :
      (peer : ℤ) (c : Client J F average)
      → IsP J F average c
      → IsP J F average (forget J F average zero_ping stoi peer c)
  forget-IsPinging peer c (ready, trackers, active) = status-IsPinging J F average _ (
    erase-IsAscending peer c.peers_ready ready,
    erase-IsAscending peer c.pingtrackers trackers,
    erase_active J F average peer c.peers_ready c.pingtrackers ready trackers active,
  )

  connect-Keeps :
      (chunks : List Value) → Keeps J F average (connect_to_peer J F average zero_ping stoi chunks)
  connect-Keeps [] = done-Keeps J F average
  connect-Keeps (a ∷ []) = done-Keeps J F average
  connect-Keeps (a ∷ (l ∷ [])) = done-Keeps J F average
  connect-Keeps (a ∷ (l ∷ (id ∷ []))) = read-Keeps J F average (J.as_int id) _ (λ peer.
      read-Keeps J F average (J.as_string a) _ (λ s.
        read-Keeps J F average (extract_port stoi s) _
          (λ port. modify-Keeps J F average _ (λ c p. track-IsPinging peer c p))))
  connect-Keeps (a ∷ (l ∷ (id ∷ (x ∷ xs)))) = done-Keeps J F average

  disconnect-Keeps :
      (chunks : List Value)
      → Keeps J F average (disconnect_from_peer J F average zero_ping stoi chunks)
  disconnect-Keeps [] = done-Keeps J F average
  disconnect-Keeps (id ∷ []) =
      read-Keeps J F average (J.as_int id) _
        (λ peer. modify-Keeps J F average _ (λ c p. forget-IsPinging peer c p))
  disconnect-Keeps (id ∷ (x ∷ xs)) = done-Keeps J F average

  game_message-Keeps :
      (m : GpgNetMessage J) → Keeps J F average (on_gpg_net_message J F average zero_ping stoi m)
  unfolding on_gpg_net_message
  game_message-Keeps m =
      Keeps-if J F average (str_eq m.header (codes "CreateLobby")) _ _
        (read-Keeps J F average (to_binary J (lobby_message J F average zero_ping stoi)) _
          (λ bytes. modify-Keeps J F average _ (λ c p. p)))
        (Keeps-if J F average (str_eq m.header (codes "ConnectToPeer")) _ _ (connect-Keeps m.chunks)
          (Keeps-if J F average (str_eq m.header (codes "JoinGame")) _ _ (connect-Keeps m.chunks) (
            Keeps-if J F average (str_eq m.header (codes "DisconnectFromPeer")) _ _
              (disconnect-Keeps m.chunks) (done-Keeps J F average))))

  hand_over-IsPinging :
      (now : ℕ) (q : PingPacket) (r : Option (Pingtracker F average)) (c : Client J F average)
      → find (peer_of J F average zero_ping stoi q) c.pingtrackers ≡ r
      → IsP J F average c
      → IsP J F average (hand_over J F average zero_ping stoi now q r c)
  hand_over-IsPinging now q none c e p = p
  hand_over-IsPinging now q (some t) c e (ready, trackers, active) =
      let peer = peer_of J F average zero_ping stoi q in
      (
        ready,
        assign-IsAscending peer _ c.pingtrackers trackers,
        put_active J F average peer (on_ping_packet F average now q t) c.peers_ready c.pingtrackers
            (λ is_ready. packet_active J F average now q t ∙ active peer t is_ready e) active,
      )

  datagram-IsPinging :
      (now : ℕ) (o : Option PingPacket) (c : Client J F average)
      → IsP J F average c
      → IsP J F average (on_datagram J F average zero_ping stoi now o c)
  datagram-IsPinging now none c p = p
  datagram-IsPinging now (some q) c p =
      hand_over-IsPinging now q (find (peer_of J F average zero_ping stoi q) c.pingtrackers) c refl
        p

  lobby-IsPinging :
      (now : ℕ) (bs : List Bytes) (c : Client J F average)
      → IsP J F average c
      → IsP J F average (on_lobby_ready_read J F average zero_ping stoi now bs c)
  unfolding on_lobby_ready_read
  lobby-IsPinging now [] c p = p
  lobby-IsPinging now (b ∷ bs) c p =
      lobby-IsPinging now bs (on_datagram J F average zero_ping stoi now (read_ping_packet b) c)
        (datagram-IsPinging now (read_ping_packet b) c p)

  -- What happens to the client: a callback J F average is called, the adapter's message for the game comes, datagrams
  -- come, or the player leaves.
  pub data Event : Type 0 where
    calls : Method J F average → Value → Event
    game_message : GpgNetMessage J → Event
    datagrams : ℕ → List Bytes → Event
    leaves : Event

  unfoldable pub step : Event → Client J F average → Client J F average
  unfolding callback on_gpg_net_message on_lobby_ready_read leave_clicked
  step (calls m params) c = (callback J F average m params c).1
  step (game_message m) c = (on_gpg_net_message J F average zero_ping stoi m c).1
  step (datagrams now bs) c = on_lobby_ready_read J F average zero_ping stoi now bs c
  step leaves c = leave_clicked J F average c

  unfoldable pub run : List Event → Client J F average → Client J F average
  unfolding step
  run [] c = c
  run (e ∷ es) c = run es (step e c)

  step-IsPinging :
      (e : Event) (c : Client J F average) → IsP J F average c → IsP J F average (step e c)
  unfolding step Keeps
  step-IsPinging (calls m params) c p = callback-IsPinging J F average m params c p
  step-IsPinging (game_message m) c p = game_message-Keeps m c p
  step-IsPinging (datagrams now bs) c p = lobby-IsPinging now bs c p
  step-IsPinging leaves c p = leave-IsPinging J F average true c p

  run-IsPinging :
      (es : List Event) (c : Client J F average) → IsP J F average c → IsP J F average (run es c)
  unfolding run
  run-IsPinging [] c p = p
  run-IsPinging (e ∷ es) c p = run-IsPinging es (step e c) (step-IsPinging e c p)

  -- In any history of callbacks, messages for the game, datagrams and leavings of a client that starts
  -- without peers, in whatever order `onConnected` of the adapter and `ConnectToPeer` or `JoinGame` of the
  -- game's side come: the ping tracker of a peer that is connected, and that the client has a tracker
  -- for, is active.
  pub connected_peer_pinged :
      (es : List Event) (c : Client J F average) (peer : ℤ) (t : Pingtracker F average)
      → c.peers_ready ≡ []
      → c.pingtrackers ≡ []
      → find peer (run es c).peers_ready ≡ some tt
      → find peer (run es c).pingtrackers ≡ some t
      → t.is_active ≡ true
  unfolding find
  connected_peer_pinged es c peer t no_peers no_trackers =
      (run-IsPinging es c (
        subst IsAscending (sym no_peers) tt,
        subst IsAscending (sym no_trackers) tt,
        λ other u e f. absurd (
            let g = subst (λ m. find other m ≡ some tt) no_peers e in
            let h : none ≡ some tt = g in cc),
      )).2
        peer t
