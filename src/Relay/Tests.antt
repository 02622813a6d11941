-- ===== src/Relay/Tests.antt =====
-- The theorems on the relays at concrete states.
use ice_adapter.Base.{◌≡◌, refl, pos, Bytes, true, false, [], ◌∷◌, codes}
use ice_adapter.Json.Sample.{Sample, sample_lib, text, nothing, entry}
use ice_adapter.Relay.State.{RelayOptions, Webrtc, PeerRelay, ok}
use ice_adapter.Relay.Close.{initial, close, reinit}
use ice_adapter.Relay.Events.{ice_connection_changed, on_event}
use ice_adapter.Relay.Safety.{IsUsable, on_event_safe}
use ice_adapter.Relay.Closing.{closed_relay, close_lem, reconnected, reinit_lem}
use ice_adapter.Relay.Connection.{failed}

abbrev pub sample_webrtc : Webrtc
sample_webrtc = record {
  creates_connection = λ servers. true;
  parses_sdp = λ type sdp. true;
  parses_candidate = λ mid index candidate. true;
  close_signals = codes "closed" ∷ [];
}

abbrev pub peer_options : RelayOptions
peer_options = record {
  remote_player_id = pos 7;
  remote_player_login = codes "Rhiza";
  is_offerer = false;
  game_udp_port = pos 6112;
  ice_servers = [];
}

-- The relay for player 7, on port 5000.
abbrev pub peer_relay : PeerRelay sample_lib
peer_relay = initial sample_lib 50 5000 peer_options

abbrev offer_message : Sample
offer_message =
    entry (entry nothing (codes "type") (text (codes "offer"))) (codes "sdp") (text (codes "v=0"))

-- The offering side of a relay with a connection, which is lost.
abbrev offering_relay : PeerRelay sample_lib
offering_relay = record peer_relay {
  is_offerer = true;
  peer_connection = true;
  data_channel = true;
}

on_event_safe_example :
    (s : PeerRelay sample_lib) × (on_event sample_lib sample_webrtc 90
        (ice_connection_changed failed)
        offering_relay
      ≡ ok s)
    × IsUsable sample_lib sample_webrtc s
on_event_safe_example =
    on_event_safe sample_lib sample_webrtc 90 (ice_connection_changed failed) offering_relay
      (refl, refl) refl

close_lem_example :
    (last : Bytes) × (close sample_lib sample_webrtc 90 offering_relay
      ≡ ok (closed_relay sample_lib last offering_relay))
close_lem_example = close_lem sample_lib sample_webrtc 90 offering_relay

reinit_lem_example :
    (last : Bytes) × (reinit sample_lib sample_webrtc 90 offering_relay
      ≡ ok (reconnected sample_lib sample_webrtc 90 last offering_relay))
reinit_lem_example = reinit_lem sample_lib sample_webrtc 90 offering_relay refl
