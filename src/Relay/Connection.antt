-- ===== src/Relay/Connection.antt =====
-- PeerRelay.cpp `addIceMessage`, and the observers of PeerRelayObservers.cpp.
use ice_adapter.Base.{
  ℕ, ℤ, Bytes, true, not, ◌||◌, Option, none, some, codes, str_eq, if◌then◌else◌,
}
use ice_adapter.Json.{JsonLib}
use ice_adapter.GpgNet.Message.{◌>>?◌}
use ice_adapter.Relay.State.{
  Webrtc, PeerRelay, Run, ok, threw, null_pointer, ◌>>=◌, emit, ice_message, create_answer,
  set_local_description, set_remote_description, add_ice_candidate,
}
use ice_adapter.Relay.Close.{set_ice_state, reinit_now}

-- `asString` and `asInt` throw where there is no such value.
abbrev pub or_throw {ℓ} : {A : Type ℓ} → Option A → Run A
or_throw none = threw
or_throw (some a) = ok a

-- `webrtc::PeerConnectionInterface::IceConnectionState`.
pub data IceConnectionState : Type 0 where
  new checking connected completed failed disconnected closed max : IceConnectionState

pub data IceGatheringState : Type 0 where
  new gathering complete : IceGatheringState

pub data DataState : Type 0 where
  connecting open_state closing closed : DataState

module _ (J : JsonLib) where
  open J use {Value, null, of_int, of_string, set_member, member, as_string}

  -- `v["key"].asString()`
  unfoldable pub text_of : Value → Bytes → Option Bytes
  text_of v key = member v key >>? as_string

  -- `CreateOfferObserver::OnSuccess` and `CreateAnswerObserver::OnSuccess`, with the text of the
  -- description.
  unfoldable pub on_created : Bytes → PeerRelay J → Run (PeerRelay J)
  unfolding emit
  on_created sdp r =
      let r1 = record r { local_sdp = sdp } in
      if r.peer_connection then ok (emit J (set_local_description sdp) r1) else null_pointer

  -- `SetLocalDescriptionObserver::OnSuccess`; the adapter always sets the callback.
  unfoldable pub on_local_description : PeerRelay J → PeerRelay J
  unfolding emit
  on_local_description r =
      let type = if r.is_offerer then codes "offer" else codes "answer" in
      emit J
        (ice_message (
          set_member (set_member null (codes "type") (of_string type)) (codes "sdp")
            (of_string r.local_sdp)))
        r

  -- `SetRemoteDescriptionObserver::OnSuccess`.
  unfoldable pub on_remote_description : PeerRelay J → Run (PeerRelay J)
  unfolding emit
  on_remote_description r =
      if r.is_offerer
      then ok r
      else if r.peer_connection
      then ok (emit J create_answer r)
      else null_pointer

  -- `PeerConnectionObserver::OnIceConnectionChange`.
  unfoldable pub on_ice_connection_change : ℕ → IceConnectionState → PeerRelay J → Run (PeerRelay J)
  on_ice_connection_change now IceConnectionState.new r = set_ice_state J now (codes "new") r
  on_ice_connection_change now checking r = set_ice_state J now (codes "checking") r
  on_ice_connection_change now connected r = set_ice_state J now (codes "connected") r
  on_ice_connection_change now completed r = set_ice_state J now (codes "completed") r
  on_ice_connection_change now failed r = set_ice_state J now (codes "failed") r
  on_ice_connection_change now disconnected r = set_ice_state J now (codes "disconnected") r
  on_ice_connection_change now IceConnectionState.closed r = set_ice_state J now (codes "closed") r
  on_ice_connection_change now max r = ok r

  -- `PeerConnectionObserver::OnIceGatheringChange`.
  unfoldable pub on_ice_gathering_change : IceGatheringState → PeerRelay J → PeerRelay J
  on_ice_gathering_change IceGatheringState.new r = record r { ice_gathering_state = codes "new" }
  on_ice_gathering_change gathering r = record r { ice_gathering_state = codes "gathering" }
  on_ice_gathering_change complete r = record r { ice_gathering_state = codes "complete" }

  -- `PeerConnectionObserver::OnIceCandidate`.
  unfoldable pub on_ice_candidate : Bytes → Bytes → ℤ → PeerRelay J → PeerRelay J
  unfolding emit
  on_ice_candidate candidate sdp_mid sdp_mline_index r =
      let candidate_json =
        set_member
          (set_member (set_member null (codes "candidate") (of_string candidate)) (codes "sdpMid")
            (of_string sdp_mid))
          (codes "sdpMLineIndex") (of_int sdp_mline_index) in
      emit J
        (ice_message (
          set_member (set_member null (codes "type") (of_string (codes "candidate")))
            (codes "candidate") candidate_json))
        r

  -- `PeerConnectionObserver::OnDataChannel`, on the answering side.
  unfoldable pub on_data_channel : PeerRelay J → PeerRelay J
  on_data_channel r = record r { data_channel = true }

  unfoldable pub data_state_name : DataState → Bytes
  data_state_name open_state = codes "open"
  data_state_name connecting = codes "connecting"
  data_state_name closing = codes "closing"
  data_state_name DataState.closed = codes "closed"

  -- `DataChannelObserver::OnStateChange`.
  unfoldable pub on_state_change : DataState → PeerRelay J → PeerRelay J
  unfolding data_state_name
  on_state_change s r =
      if r.data_channel then record r { data_channel_state = data_state_name s } else r

module _ (J : JsonLib) (W : Webrtc) where
  open J use {Value, member, as_int}

  -- An SDP offer or answer of the remote side.
  unfoldable pub add_description : ℕ → Bytes → Bytes → PeerRelay J → Run (PeerRelay J)
  unfolding emit
  add_description now type sdp r = do
    r1 ← if r.is_offerer then ok r else reinit_now J W now r
    if W.parses_sdp type sdp
        then (if r1.peer_connection
            then ok (emit J (set_remote_description type sdp) r1)
            else null_pointer)
        else ok r1

  unfoldable pub add_candidate : Bytes → ℤ → Bytes → PeerRelay J → Run (PeerRelay J)
  unfolding emit
  add_candidate sdp_mid sdp_mline_index candidate r =
      if not (W.parses_candidate sdp_mid sdp_mline_index candidate)
      then ok r
      else if not r.peer_connection
      then ok r
      else ok (emit J (add_ice_candidate sdp_mid sdp_mline_index candidate) r)

  -- The branch of `addIceMessage` for a candidate. A failing `AddIceCandidate` is only logged.
  unfoldable pub add_candidate_json : Value → PeerRelay J → Run (PeerRelay J)
  unfolding add_candidate
  add_candidate_json ice_msg r = do
    candidate ← or_throw (member ice_msg (codes "candidate"))
    mid ← or_throw (text_of J candidate (codes "sdpMid"))
    index ← or_throw (member candidate (codes "sdpMLineIndex") >>? as_int)
    line ← or_throw (text_of J candidate (codes "candidate"))
    add_candidate mid index line r

  -- `addIceMessage`.
  unfoldable pub add_ice_message : ℕ → Value → PeerRelay J → Run (PeerRelay J)
  add_ice_message now ice_msg r = do
    type ← or_throw (text_of J ice_msg (codes "type"))
    if str_eq type (codes "offer") || str_eq type (codes "answer")
        then (do sdp ← or_throw (text_of J ice_msg (codes "sdp")); add_description now type sdp r)
        else if str_eq type (codes "candidate")
        then add_candidate_json ice_msg r
        else ok r
