-- ===== src/Relay/Identity.antt =====
-- What the calls of PeerRelay.cpp leave alone: the ICE servers, the ids, the ports and the role.
use ice_adapter.Base.{
  ℕ, ◌≡◌, refl, ℤ, Bytes, Bool, true, false, not, ◌||◌, List, [], ◌∷◌, Option, none, some, codes,
  if◌then◌else◌, arith, str_eq,
}
use ice_adapter.Json.{JsonLib}
use ice_adapter.Relay.State.{
  RelayOptions, Webrtc, PeerRelay, Run, ok, exited, threw, null_pointer, ◌>>=◌, emit,
  create_peer_connection, close_peer_connection, Call,
}
use ice_adapter.Relay.Close.{
  make, initial, set_ice_state, signal_all, close, close_channel, close_connection, reinit,
  reinit_now, offer,
}
use ice_adapter.GpgNet.Message.{◌>>?◌}
use ice_adapter.Relay.Connection.{
  add_ice_message, add_description, add_candidate, add_candidate_json, or_throw, text_of,
}

module _ (J : JsonLib) where
  -- What a relay is told when it is made, and the port of its socket.
  abbrev pub SameIdentity : PeerRelay J → PeerRelay J → Type 0
  SameIdentity r s =
      (r.ice_server_list ≡ s.ice_server_list)
      × (r.remote_player_id ≡ s.remote_player_id)
      × (r.game_udp_port ≡ s.game_udp_port)
      × (r.local_udp_socket_port ≡ s.local_udp_socket_port)
      × (r.is_offerer ≡ s.is_offerer)

  -- A call of the relay that returns leaves these alone.
  abbrev pub KeepsIdentity : PeerRelay J → Run (PeerRelay J) → Type 0
  KeepsIdentity r (ok s) = SameIdentity r s
  KeepsIdentity r exited = Unit {0}
  KeepsIdentity r threw = Unit {0}
  KeepsIdentity r null_pointer = Unit {0}

  pub SameIdentity-refl : (r : PeerRelay J) → SameIdentity r r
  SameIdentity-refl r = (refl, refl, refl, refl, refl)

  SameIdentity-trans :
      (r s t : PeerRelay J) → SameIdentity r s → SameIdentity s t → SameIdentity r t
  SameIdentity-trans r s t h k = ground arith

  pub KeepsIdentity-bind :
      (r : PeerRelay J) (m : Run (PeerRelay J)) (f : PeerRelay J → Run (PeerRelay J))
      → KeepsIdentity r m
      → ((s : PeerRelay J) → KeepsIdentity s (f s))
      → KeepsIdentity r (m >>= f)
  KeepsIdentity-bind r (ok s) f h k = from (f s) (k s)
    where
      from : (o : Run (PeerRelay J)) → KeepsIdentity s o → KeepsIdentity r o
      from (ok t) i = SameIdentity-trans r s t h i
      from exited i = tt
      from threw i = tt
      from null_pointer i = tt
  KeepsIdentity-bind r exited f h k = tt
  KeepsIdentity-bind r threw f h k = tt
  KeepsIdentity-bind r null_pointer f h k = tt

  pub set_ice_state-KeepsIdentity :
      (now : ℕ) (state : Bytes) (r : PeerRelay J) → KeepsIdentity r (set_ice_state J now state r)
  unfolding set_ice_state
  set_ice_state-KeepsIdentity now state r = ground arith

  signal_all-KeepsIdentity :
      (now : ℕ) (states : List Bytes) (r : PeerRelay J)
      → KeepsIdentity r (signal_all J now states r)
  unfolding signal_all
  signal_all-KeepsIdentity now [] r = SameIdentity-refl r
  signal_all-KeepsIdentity now (s ∷ ss) r =
      KeepsIdentity-bind r (set_ice_state J now s r) _ (set_ice_state-KeepsIdentity now s r)
        (signal_all-KeepsIdentity now ss)

  -- A relay that is `SameIdentity` to the one that a call ran on may stand for it.
  from_same :
      (r s : PeerRelay J) (o : Run (PeerRelay J))
      → SameIdentity r s
      → KeepsIdentity s o
      → KeepsIdentity r o
  from_same r s (ok t) h k = SameIdentity-trans r s t h k
  from_same r s exited h k = tt
  from_same r s threw h k = tt
  from_same r s null_pointer h k = tt

  close_channel-SameIdentity : (r : PeerRelay J) → SameIdentity r (close_channel J r)
  unfolding close_channel
  close_channel-SameIdentity r = ground arith

  offer-SameIdentity : (now : ℕ) (r : PeerRelay J) → SameIdentity r (offer J now r)
  unfolding offer
  offer-SameIdentity now r = ground arith

  KeepsIdentity-if :
      (b : Bool) (r : PeerRelay J) (m n : Run (PeerRelay J))
      → KeepsIdentity r m
      → KeepsIdentity r n
      → KeepsIdentity r (if b then m else n)
  KeepsIdentity-if true r m n h k = h
  KeepsIdentity-if false r m n h k = k

  pub emit-SameIdentity : (c : Call J) (r : PeerRelay J) → SameIdentity r (emit J c r)
  unfolding emit
  emit-SameIdentity c r = SameIdentity-refl r

module _ (J : JsonLib) (W : Webrtc) where
  close_connection-KeepsIdentity :
      (now : ℕ) (r : PeerRelay J) → KeepsIdentity J r (close_connection J W now r)
  unfolding close_connection
  close_connection-KeepsIdentity now r =
      KeepsIdentity-if J r.peer_connection r _ _
        (KeepsIdentity-bind J r (signal_all J now W.close_signals (emit J close_peer_connection r))
          _
          (from_same J r (emit J close_peer_connection r) _
            (emit-SameIdentity J close_peer_connection r)
            (signal_all-KeepsIdentity J now W.close_signals (emit J close_peer_connection r)))
          (λ s. SameIdentity-refl J s))
        (SameIdentity-refl J r)

  pub close-KeepsIdentity : (now : ℕ) (r : PeerRelay J) → KeepsIdentity J r (close J W now r)
  unfolding close
  close-KeepsIdentity now r =
      KeepsIdentity-bind J r
        (close_connection J W now
          (close_channel J (record r { closing = true; connection_checker = none })))
        _
        (from_same J r (close_channel J (record r { closing = true; connection_checker = none })) _
          (close_channel-SameIdentity J (record r { closing = true; connection_checker = none }))
          (close_connection-KeepsIdentity now
            (close_channel J (record r { closing = true; connection_checker = none }))))
        (λ s. SameIdentity-refl J s)

  abbrev connected_to : PeerRelay J → PeerRelay J
  connected_to s = record (emit J (create_peer_connection s.ice_server_list) s) {
    peer_connection = true;
  }

  pub reinit-KeepsIdentity : (now : ℕ) (r : PeerRelay J) → KeepsIdentity J r (reinit J W now r)
  unfolding reinit
  reinit-KeepsIdentity now r =
      KeepsIdentity-bind J r (close J W now r) _ (close-KeepsIdentity now r) λ s.
        KeepsIdentity-if J (W.creates_connection s.ice_server_list) s _ _
          (SameIdentity-trans J s (connected_to s) (offer J now (connected_to s))
            (emit-SameIdentity J (create_peer_connection s.ice_server_list) s)
            (offer-SameIdentity J now (connected_to s)))
          tt

  pub reinit_now-KeepsIdentity :
      (now : ℕ) (r : PeerRelay J) → KeepsIdentity J r (reinit_now J W now r)
  unfolding reinit_now
  reinit_now-KeepsIdentity now r =
      KeepsIdentity-if J r.closing r _ _ (SameIdentity-refl J r) (reinit-KeepsIdentity now r)

  add_description-KeepsIdentity :
      (now : ℕ) (type sdp : Bytes) (r : PeerRelay J)
      → KeepsIdentity J r (add_description J W now type sdp r)
  unfolding add_description
  add_description-KeepsIdentity now type sdp r =
      KeepsIdentity-bind J r (if r.is_offerer then ok r else reinit_now J W now r) _
        (KeepsIdentity-if J r.is_offerer r _ _ (SameIdentity-refl J r)
          (reinit_now-KeepsIdentity now r))
        λ s.
          KeepsIdentity-if J (W.parses_sdp type sdp) s _ _
            (KeepsIdentity-if J s.peer_connection s _ _ (SameIdentity-refl J s) tt)
            (SameIdentity-refl J s)

  add_candidate-KeepsIdentity :
      (mid : Bytes) (index : ℤ) (line : Bytes) (r : PeerRelay J)
      → KeepsIdentity J r (add_candidate J W mid index line r)
  unfolding add_candidate
  add_candidate-KeepsIdentity mid index line r =
      KeepsIdentity-if J (not (W.parses_candidate mid index line)) r _ _ (SameIdentity-refl J r) (
        KeepsIdentity-if J (not r.peer_connection) r _ _ (SameIdentity-refl J r)
          (SameIdentity-refl J r))

  -- The value that a throwing conversion yields is used, or nothing happens.
  KeepsIdentity-or_throw :
      {A : Type 0} (r : PeerRelay J) (o : Option A) (f : A → Run (PeerRelay J))
      → ((x : A) → KeepsIdentity J r (f x))
      → KeepsIdentity J r (or_throw o >>= f)
  KeepsIdentity-or_throw r none f h = tt
  KeepsIdentity-or_throw r (some x) f h = h x

  add_candidate_json-KeepsIdentity :
      (msg : J.Value) (r : PeerRelay J) → KeepsIdentity J r (add_candidate_json J W msg r)
  unfolding add_candidate_json
  add_candidate_json-KeepsIdentity msg r =
      KeepsIdentity-or_throw r (J.member msg (codes "candidate")) _ λ candidate.
        KeepsIdentity-or_throw r (text_of J candidate (codes "sdpMid")) _ λ mid.
          KeepsIdentity-or_throw r (J.member candidate (codes "sdpMLineIndex") >>? J.as_int) _
            λ index.
              KeepsIdentity-or_throw r (text_of J candidate (codes "candidate")) _
                λ line. add_candidate-KeepsIdentity mid index line r

  -- `addIceMessage`, if it returns, leaves the relay's ICE servers, ids, ports and role alone.
  pub add_ice_message-KeepsIdentity :
      (now : ℕ) (msg : J.Value) (r : PeerRelay J)
      → KeepsIdentity J r (add_ice_message J W now msg r)
  unfolding add_ice_message
  add_ice_message-KeepsIdentity now msg r =
      KeepsIdentity-or_throw r (text_of J msg (codes "type")) _ λ type.
        KeepsIdentity-if J (str_eq type (codes "offer") || str_eq type (codes "answer")) r _
          (if str_eq type (codes "candidate") then add_candidate_json J W msg r else ok r)
          (KeepsIdentity-or_throw r (text_of J msg (codes "sdp")) _
            λ sdp. add_description-KeepsIdentity now type sdp r)
          (KeepsIdentity-if J (str_eq type (codes "candidate")) r (add_candidate_json J W msg r)
            (ok r) (add_candidate_json-KeepsIdentity msg r) (SameIdentity-refl J r))

  -- A relay that the constructor makes has the identity that its options give.
  abbrev pub MadeFrom : RelayOptions → ℕ → Run (PeerRelay J) → Type 0
  MadeFrom options port (ok r) =
      (options.ice_servers ≡ r.ice_server_list)
      × (options.remote_player_id ≡ r.remote_player_id)
      × (options.game_udp_port ≡ r.game_udp_port)
      × (port ≡ r.local_udp_socket_port)
      × (options.is_offerer ≡ r.is_offerer)
  MadeFrom options port _ = Unit {0}

  made :
      (r : PeerRelay J) (options : RelayOptions) (port : ℕ) (o : Run (PeerRelay J))
      → MadeFrom options port (ok r)
      → KeepsIdentity J r o
      → MadeFrom options port o
  made r options port (ok s) h k = ground arith
  made r options port exited h k = tt
  made r options port threw h k = tt
  made r options port null_pointer h k = tt

  pub make-MadeFrom :
      (now port : ℕ) (options : RelayOptions) → MadeFrom options port (make J W now port options)
  unfolding make
  make-MadeFrom now port options =
      made (initial J now port options) options port
        (if options.is_offerer
          then reinit_now J W now (initial J now port options)
          else ok (initial J now port options))
        (refl, refl, refl, refl, refl)
        (KeepsIdentity-if J options.is_offerer (initial J now port options) _ _
          (reinit_now-KeepsIdentity now (initial J now port options))
          (SameIdentity-refl J (initial J now port options)))
