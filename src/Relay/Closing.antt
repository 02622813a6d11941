-- ===== src/Relay/Closing.antt =====
-- PeerRelay.cpp: what `_close` and a reconnect do.
use ice_adapter.Base.{
  ℕ, ◌≡◌, refl, ap, sym, ◌∙◌, Bytes, Bool, true, false, List, [], ◌∷◌, ◌++◌, none, if◌then◌else◌,
  some, append_assoc, append-nil,
}
use ice_adapter.Json.{JsonLib}
use ice_adapter.Checker.{PeerConnectivityChecker, create}
use ice_adapter.Relay.State.{
  Webrtc, PeerRelay, Run, ok, ◌>>=◌, emit, Call, close_data_channel, close_peer_connection,
  create_peer_connection, create_data_channel, create_offer, IceServer,
}
use ice_adapter.Relay.Close.{
  set_ice_state, signal_all, close_channel, close_connection, close, reinit, offer,
}

module _ (J : JsonLib) where
  -- While the relay closes, the states that the connection reports are only noted.
  signal_all-closing :
      (now : ℕ) (states : List Bytes) (r : PeerRelay J)
      → (last : Bytes) × (signal_all J now states (record r { closing = true })
          ≡ ok (record r { closing = true; ice_state = last }))
  unfolding signal_all set_ice_state
  signal_all-closing now [] r = (r.ice_state, refl)
  signal_all-closing now (s ∷ ss) r = signal_all-closing now ss (record r { ice_state = s })

  -- The calls that closing makes: none of them reaches the adapter.
  abbrev pub closing_calls : Bool → Bool → List (Call J)
  closing_calls channel connection =
      (if channel then close_data_channel ∷ [] else [])
      ++ (if connection then close_peer_connection ∷ [] else [])

  abbrev pub closed_relay : Bytes → PeerRelay J → PeerRelay J
  closed_relay last r = record r {
    peer_connection = false;
    data_channel = false;
    closing = false;
    connection_checker = none;
    ice_state = last;
    calls = r.calls ++ closing_calls r.data_channel r.peer_connection;
  }

module _ (J : JsonLib) (W : Webrtc) where
  -- What `_close` does with the outcome of closing the connection.
  abbrev finish : Run (PeerRelay J) → Run (PeerRelay J)
  finish o = (o >>= λ r. ok (record r { peer_connection = false })) >>= λ r.
      ok (record r { closing = false })

  close_parts :
      (now : ℕ) (channel connection : Bool) (r : PeerRelay J)
      → let r' = record r { data_channel = channel; peer_connection = connection } in
        (last : Bytes) × (close J W now r' ≡ ok (closed_relay J last r'))
  unfolding close close_connection close_channel emit
  close_parts now true true r =
      let (last, e) = signal_all-closing J now W.close_signals (record r {
        data_channel = false;
        peer_connection = true;
        connection_checker = none;
        calls = (r.calls ++ (close_data_channel ∷ [])) ++ (close_peer_connection ∷ []);
      }) in
      (
        last,
        ap finish e
            ∙ ap (λ cs. ok (record (closed_relay J last r) { calls = cs }))
                (append_assoc r.calls (close_data_channel ∷ []) (close_peer_connection ∷ [])),
      )
  close_parts now true false r = (r.ice_state, refl)
  close_parts now false true r =
      let (last, e) = signal_all-closing J now W.close_signals (record r {
        data_channel = false;
        peer_connection = true;
        connection_checker = none;
        calls = r.calls ++ (close_peer_connection ∷ []);
      }) in
      (last, ap finish e)
  close_parts now false false r = (
    r.ice_state,
    ap (λ cs. ok (record (closed_relay J r.ice_state r) { calls = cs })) (sym (append-nil r.calls)),
  )

  -- `_close` returns, whatever the connection reports while it is closed. Afterwards the relay has no
  -- connection, channel or checker. Apart from these it has only a new ICE state, and it has called
  -- nothing but the closing of its channel and of its connection: no callback of the adapter.
  pub close_lem :
      (now : ℕ) (r : PeerRelay J) → (last : Bytes) × (close J W now r ≡ ok (closed_relay J last r))
  close_lem now r = close_parts now r.data_channel r.peer_connection r

  -- The calls of a reconnect after those of closing.
  abbrev pub offering_calls : Bool → List IceServer → List (Call J)
  offering_calls true servers =
      create_peer_connection servers ∷ (create_data_channel ∷ (create_offer ∷ []))
  offering_calls false servers = create_peer_connection servers ∷ []

  -- A checker that was just made: only the start of its check timer is set.
  abbrev pub new_checker : ℕ → PeerConnectivityChecker
  new_checker now = record {
    timer_start_time = some now;
    last_sent_ping_time = none;
    last_received_pong_time = none;
    last_received_data_time = none;
    pinging = false;
  }

  -- The relay that a reconnect leaves.
  abbrev pub reconnected : ℕ → Bytes → PeerRelay J → PeerRelay J
  reconnected now last r = record r {
    peer_connection = true;
    data_channel = r.is_offerer;
    closing = false;
    connection_checker = if r.is_offerer then some (new_checker now) else none;
    ice_state = last;
    calls =
        r.calls
        ++ (closing_calls J r.data_channel r.peer_connection
            ++ offering_calls r.is_offerer r.ice_server_list);
  }

  offer-reconnected :
      (now : ℕ) (last : Bytes) (offers : Bool) (r : PeerRelay J)
      → let r' = record r { is_offerer = offers } in
        let closed =
          record (emit J (create_peer_connection r.ice_server_list) (closed_relay J last r')) {
            peer_connection = true;
          } in
        offer J now closed ≡ reconnected now last r'
  unfolding offer emit create
  offer-reconnected now last true r =
      let closing = closing_calls J r.data_channel r.peer_connection in
      let r' = record r { is_offerer = true } in
      ap (λ cs. record (reconnected now last r') { calls = cs })
        (append_assoc ((r.calls ++ closing) ++ (create_peer_connection r.ice_server_list ∷ []))
            (create_data_channel ∷ []) (create_offer ∷ [])
          ∙ append_assoc (r.calls ++ closing) (create_peer_connection r.ice_server_list ∷ [])
              (create_data_channel ∷ (create_offer ∷ []))
          ∙ append_assoc r.calls closing (offering_calls true r.ice_server_list))
  offer-reconnected now last false r =
      let closing = closing_calls J r.data_channel r.peer_connection in
      let r' = record r { is_offerer = false } in
      ap (λ cs. record (reconnected now last r') { calls = cs })
        (append_assoc r.calls closing (offering_calls false r.ice_server_list))

  -- If WebRTC makes connections for the relay's servers, a reconnect returns, whatever the old
  -- connection reports while it is closed. Afterwards the relay has a connection. An offerer has a
  -- channel and a checker that starts now, without any ping, pong or data noted; another relay has
  -- neither. Apart from these the relay has only a new ICE state, and it has called, in this order, the
  -- closing of its old channel and connection, the making of the connection for its servers and, if it
  -- is an offerer, the making of the channel and of the offer.
  pub reinit_lem :
      (now : ℕ) (r : PeerRelay J)
      → W.creates_connection r.ice_server_list ≡ true
      → (last : Bytes) × (reinit J W now r ≡ ok (reconnected now last r))
  unfolding reinit
  reinit_lem now r h =
      let (last, e) = close_lem now r in
      (last, rw (e, h) (ap ok (offer-reconnected now last r.is_offerer r)))
