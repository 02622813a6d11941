-- ===== src/Adapter/Status.antt =====
-- The status that the client polls: `PeerRelay::status` and `IceAdapter::status`.
use ice_adapter.Base.{ℤ, pos, Bytes, List, [], ◌∷◌, map, codes, if◌then◌else◌}
use ice_adapter.Json.{JsonLib}
use ice_adapter.GpgNet.Server.{has_connected_client}
use ice_adapter.Relay.State.{IceServer, PeerRelay}
use ice_adapter.Adapter.State.{IceAdapter}
use ice_adapter.Adapter.Game.{json_array}

-- What `status` reads from elsewhere: the version, and the ports that the two servers listen on.
pub record Listening : Type 0 where
  pub version : Bytes
  pub rpc_port : ℤ
  pub gpgnet_port : ℤ

module _ (J : JsonLib) where
  open J use {Value, null, of_int, of_bool, of_string, of_seconds, set_member}

  -- Assignments `v["key"] = x` one after the other.
  unfoldable pub set_members : List (Bytes × Value) → Value → Value
  set_members [] v = v
  set_members ((k, x) ∷ kvs) v = set_members kvs (set_member v k x)

  unfoldable pub relay_ice_status : PeerRelay J → Value
  unfolding set_members
  relay_ice_status r =
      set_members
        ((codes "offerer", of_bool r.is_offerer)
          ∷ (codes "state", of_string r.ice_state)
          ∷ (codes "gathering_state", of_string r.ice_gathering_state)
          ∷ (codes "datachannel_state", of_string r.data_channel_state)
          ∷ (codes "connected", of_bool r.is_connected)
          ∷ (codes "loc_cand_addr", of_string r.local_cand_address)
          ∷ (codes "rem_cand_addr", of_string r.remote_cand_address)
          ∷ (codes "loc_cand_type", of_string r.local_cand_type)
          ∷ (codes "rem_cand_type", of_string r.remote_cand_type)
          ∷ (
            codes "time_to_connected",
            of_seconds (if r.is_connected then r.connect_duration else 0),
          )
          ∷ [])
        null

  unfoldable pub relay_status : PeerRelay J → Value
  unfolding relay_ice_status
  relay_status r =
      set_members
        ((codes "remote_player_id", of_int r.remote_player_id)
          ∷ (codes "remote_player_login", of_string r.remote_player_login)
          ∷ (codes "local_game_udp_port", of_int (pos r.local_udp_socket_port))
          ∷ (codes "ice", relay_ice_status r)
          ∷ [])
        null

  -- An empty `url` and an empty list `urls` are left out.
  unfoldable pub ice_server_status : IceServer → Value
  unfolding set_members
  ice_server_status s =
      let with_url : Value = elim s.uri [
        | [] ↦ null
        | c ∷ cs ↦ set_member null (codes "url") (of_string (c ∷ cs))
      ] in
      let with_urls : Value = elim s.urls [
        | [] ↦ with_url
        | u ∷ us ↦ set_member with_url (codes "urls") (json_array J (map of_string (u ∷ us)))
      ] in
      set_members
        ((codes "credential", of_string s.password) ∷ (codes "username", of_string s.username) ∷ [])
        with_urls

  unfoldable pub options_status : Listening → IceAdapter J → Value
  unfolding set_members
  options_status l a =
      set_members
        ((codes "player_id", of_int a.options.local_player_id)
          ∷ (codes "player_login", of_string a.options.local_player_login)
          ∷ (codes "rpc_port", of_int l.rpc_port)
          ∷ (codes "gpgnet_port", of_int l.gpgnet_port)
          ∷ (codes "lobby_port", of_int a.options.game_udp_port)
          ∷ (codes "log_file", of_string a.options.log_directory)
          ∷ [])
        null

  unfoldable pub gpgnet_status : Listening → IceAdapter J → Value
  unfolding set_members
  gpgnet_status l a =
      set_members
        ((codes "local_port", of_int l.gpgnet_port)
          ∷ (codes "connected", of_bool (has_connected_client a.gpgnet_server))
          ∷ (codes "game_state", of_string a.gpgnet_game_state)
          ∷ (codes "task_string", of_string a.gametask_string)
          ∷ [])
        null

  unfoldable pub status : Listening → IceAdapter J → Value
  unfolding set_members ice_server_status options_status gpgnet_status relay_status
  status l a =
      set_members
        ((codes "version", of_string l.version)
          ∷ (codes "lobby_port", of_int a.lobby_port)
          ∷ (codes "init_mode", of_string a.lobby_init_mode)
          ∷ (codes "ice_servers", json_array J (map ice_server_status a.ice_servers))
          ∷ (codes "options", options_status l a)
          ∷ (codes "gpgnet", gpgnet_status l a)
          ∷ (codes "relays", json_array J (map (λ e. relay_status e.1) a.relays))
          ∷ [])
        null
