-- ===== src/GpgNet/Server/Sends.antt =====
-- What the `send…` methods of GPGNetServer.cpp put on the wire.
use ice_adapter.Base.{◌≡◌, refl, Bytes, ◌++◌, map, some}
use ice_adapter.Json.{JsonLib, JsonLaws}
use ice_adapter.GpgNet.Message.{GpgNetMessage, parse_one}
use ice_adapter.GpgNet.Reader.{ok}
use ice_adapter.GpgNet.RoundTrip.{IsWireMessage, message_trip}
use ice_adapter.GpgNet.Server.{GpgNetServer, send_message}

module _ (J : JsonLib) (laws : JsonLaws J) where
  -- Every connected game gets the same bytes, from which one round of `parse` recovers the message.
  abbrev pub Broadcast : GpgNetServer → GpgNetServer → GpgNetMessage J → Type 0
  Broadcast s s' m =
      (bytes : Bytes) × (s' ≡ record s { written = s.written ++ map (λ h. (h, bytes)) s.connected })
      × ((r : Bytes) → parse_one J (bytes ++ r) ≡ ok (m, r))

  -- A message that the protocol can carry is sent without an exception, once to each connected
  -- game, in a form that the receiver reads back as the same message.
  pub send_message-Broadcast :
      (s : GpgNetServer) (m : GpgNetMessage J)
      → IsWireMessage J laws m
      → (s' : GpgNetServer) × (send_message J s m ≡ some s') × Broadcast s s' m
  unfolding send_message
  send_message-Broadcast s m h =
      let (bytes, (e, trip)) = message_trip J laws m h in
      (
        record s { written = s.written ++ map (λ h. (h, bytes)) s.connected },
        rw e,
        (bytes, refl, trip),
      )
