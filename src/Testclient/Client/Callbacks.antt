-- ===== src/Testclient/Client/Callbacks.antt =====
-- legacy_testclient/Testclient.cpp `connectRpcMethods`.
use ice_adapter.Base.{
  ℕ, ℤ, ℤ_eq, Bytes, Bool, true, false, List, Option, none, some, codes, if◌then◌else◌, ◌==◌,
  str_eq, ltb,
}
use ice_adapter.Base.IntMap.{find, assign}
use ice_adapter.Json.{JsonLib}
use ice_adapter.Testclient.Client.{
  Testclient, request_adapter, request_server, update_status, leave_clicked,
}
use ice_adapter.Testclient.Client.Candidates.{on_ice_message}
use ice_adapter.Testclient.Pingtracker.{Pingtracker, start}
use ice_adapter.Testserver.{◌>>=◌, lift, modify}
use ice_adapter.Testserver.Callbacks.{refuse}

module _ (J : JsonLib) (F : Type 0) (average : F → ℕ → ℕ → F) where
  open J use {Value, null, size, at, as_int, as_bool, as_string}

  -- What a callback leaves in `result` and `error`, which start as null, and the client.
  abbrev pub Callback : Type 0
  Callback = Value → Testclient J F average → (Value × Value) × Testclient J F average

  -- An exception leaves both as they are, and is caught.
  abbrev pub finish :
      {A : Type 0} → Option A × Testclient J F average → (Value × Value) × Testclient J F average
  finish (r, c) = ((null, null), c)

  abbrev pub leave_if : Bool → Testclient J F average → Testclient J F average
  leave_if true c = leave_clicked J F average c
  leave_if false c = c

  unfoldable pub on_host_left : Callback
  unfolding leave_clicked
  on_host_left params c =
      if ltb (size params) 1
      then (refuse J (codes "Need 1 parameter: playerId (int)"), c)
      else finish
          ((lift (as_int (at params 0)) >>= λ id. modify (λ c. leave_if (ℤ_eq c.game_id id) c)) c)

  -- `sendToIceAdapter` with two parameters at least.
  abbrev pub pass_on :
      Bool → Value → Bytes → Testclient J F average → (Value × Value) × Testclient J F average
  pass_on true params method c =
      if size (at params 1) == 2
      then finish (
          (lift (as_int (at (at params 1) 0)) >>= λ peer.
          on_ice_message J F average peer (at (at params 1) 1))
            c)
      else (refuse J (codes "Need 2 parameters: peer (int), msg (object)"), c)
  pass_on false params method c = ((null, null), request_adapter J F average method (at params 1) c)

  abbrev pub pass_named :
      Value → Option Bytes → Testclient J F average → (Value × Value) × Testclient J F average
  pass_named params none c = ((null, null), c)
  pass_named params (some method) c = pass_on (str_eq method (codes "iceMsg")) params method c

  unfoldable pub send_to_ice_adapter : Callback
  unfolding on_ice_message
  send_to_ice_adapter params c =
      if ltb (size params) 2
      then (refuse J (codes "Need 1 parameter: method (string), params (array)"), c)
      else pass_named params (as_string (at params 0)) c

  unfoldable pub on_ice_msg : Callback
  on_ice_msg params c = (
    (null, null),
    update_status J F average (request_server J F average (codes "sendIceMsg") params c),
  )

  -- The tracker of the peer, if there is one, is started.
  abbrev pub start_found :
      ℤ
      → Option (Pingtracker F average)
      → List (ℤ × Pingtracker F average)
      → List (ℤ × Pingtracker F average)
  start_found peer none m = m
  start_found peer (some t) m = assign peer (start F average t) m

  abbrev pub note_ready : ℤ → Bool → Testclient J F average → Testclient J F average
  note_ready peer false c = c
  note_ready peer true c = record c {
    peers_ready = assign peer tt c.peers_ready;
    pingtrackers = start_found peer (find peer c.pingtrackers) c.pingtrackers;
  }

  -- The third parameter is read though two are enough for the test.
  unfoldable pub on_connected : Callback
  unfolding start
  on_connected params c =
      if ltb (size params) 2
      then (refuse J (codes "Need 3 parameters."), c)
      else finish (
          (lift (as_int (at params 1)) >>= λ peer. lift (as_bool (at params 2)) >>= λ connected.
          modify (λ c. update_status J F average (note_ready peer connected c)))
            c)
