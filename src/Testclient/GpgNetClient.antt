-- ===== src/Testclient/GpgNetClient.antt =====
-- legacy_testclient/GPGNetMessage.cpp and legacy_testclient/GPGNetClient.cpp: the game's side of the
-- GPGNet protocol, as the test client plays it.
pub mod Meets
use ice_adapter.Base.{Bytes, Bool, true, false, List, [], ◌∷◌, ◌++◌, Option, none, some, codes}
use ice_adapter.Json.{JsonLib}
use ice_adapter.GpgNet.Message.{GpgNetMessage, Parsed, Halt, waiting, rejected, threw, out_of_fuel}
use ice_adapter.GpgNet.Message as Message

module _ (J : JsonLib) where
  -- The client's copy of `toBinary` and `parse`. It is the adapter's, but that it casts where the adapter
  -- copies the bytes, and that its buffer is a vector.
  abbrev pub to_binary : GpgNetMessage J → Option Bytes
  to_binary m = Message.to_binary J m

  abbrev pub parse : Bytes → Parsed J
  parse b = Message.parse J b

  -- `message` is the buffer, `received` the trace of the calls of `onGPGNetMessage`, and `written` that
  -- of the bytes that are written. An exception that leaves a slot ends the program.
  pub record GpgNetClient : Type 0 where
    pub message : Bytes
    pub received : List (GpgNetMessage J)
    pub written : Bytes
    pub has_ended : Bool

  abbrev pub new_client : GpgNetClient
  new_client = record { message = []; received = []; written = []; has_ended = false }

  abbrev pub has_thrown : Halt J → Bool
  has_thrown threw = true
  has_thrown _ = false

  abbrev pub receive : Parsed J → GpgNetClient → GpgNetClient
  receive p c = record c {
    message = p.buffer;
    received = c.received ++ p.delivered;
    has_ended = has_thrown p.halt;
  }

  abbrev pub unless : Bool → Bytes → GpgNetClient → GpgNetClient
  unless true bytes c = c
  unless false bytes c = receive (parse (c.message ++ bytes)) c

  -- `onReadyRead`, with what `readAll` returns.
  unfoldable pub on_ready_read : Bytes → GpgNetClient → GpgNetClient
  on_ready_read bytes c = unless c.has_ended bytes c

  abbrev pub idle_message : GpgNetMessage J
  idle_message = record { header = codes "GameState"; chunks = J.of_string (codes "Idle") ∷ [] }

  abbrev pub write : Option Bytes → GpgNetClient → GpgNetClient
  write none c = record c { has_ended = true }
  write (some bytes) c = record c { written = c.written ++ bytes }

  -- `onConnected`
  unfoldable pub on_connected : GpgNetClient → GpgNetClient
  on_connected c = write (to_binary idle_message) c
