-- ===== src/Rpc/Server.antt =====
-- JsonRpcServer.h and JsonRpcServer.cpp: the clients that are connected, and `_sendMessage`.
use ice_adapter.Base.{
  ℕ, ℤ, pos, negsuc, Bytes, Bool, true, false, List, [], ◌∷◌, ◌++◌, Option, none, some, ◌==◌,
  if◌then◌else◌,
}
use ice_adapter.Base.IntMap as IntMap
use ice_adapter.GpgNet.Server.{insert, erase}
use ice_adapter.Rpc.Node.{Link}

-- A socket is known by its address. `written` is the trace of the calls of `Send`. `undefined` says
-- that the behaviour of the program is undefined, because an iterator or a reference is used that is
-- no longer valid.
pub record JsonRpcServer : Type 0 where
  pub connected_sockets : List ℕ
  pub current_msgs : List (ℤ × Bytes)
  pub written : List (ℕ × Bytes)
  pub undefined : Bool

-- What a `Send` to a socket returns, after the calls before it.
abbrev pub Net : Type 0
Net = List (ℕ × Bytes) → ℕ → ℤ

-- `!it->second->Send(…)`
abbrev pub is_zero : ℤ → Bool
is_zero (pos n) = n == 0
is_zero (negsuc n) = false

-- `if (socket) { if (it->second.get() != socket) continue; }`
abbrev pub is_meant : Option ℕ → ℕ → Bool
is_meant none h = true
is_meant (some s) h = h == s

abbrev pub is_none_left : List ℕ → Bool
is_none_left [] = true
is_none_left (h ∷ hs) = false

abbrev pub log_send : Bytes → ℕ → JsonRpcServer → JsonRpcServer
log_send message h s = record s { written = s.written ++ ((h, message) ∷ []) }

abbrev pub drop_client : ℕ → JsonRpcServer → JsonRpcServer
drop_client h s = record s {
  connected_sockets = erase h s.connected_sockets;
  current_msgs = IntMap.erase (pos h) s.current_msgs;
}

abbrev pub past_the_end : JsonRpcServer → JsonRpcServer
past_the_end s = record s { undefined = true }

module _ (net : Net) where
  -- The `for` loop, over the sockets from the iterator on. A socket whose `Send` returns 0 is erased;
  -- the iterator stands on the next socket then, and is incremented all the same.
  unfoldable pub visit : Bytes → Option ℕ → List ℕ → JsonRpcServer → JsonRpcServer
  visit message socket [] s = s
  visit message socket (h ∷ []) s = elim (is_meant socket h) [
    | false ↦ s
    | true ↦ elim (is_zero (net s.written h)) [
      | false ↦ log_send message h s
      | true ↦ past_the_end (drop_client h (log_send message h s))
    ]
  ]
  visit message socket (h ∷ (k ∷ hs)) s = elim (is_meant socket h) [
    | false ↦ visit message socket (k ∷ hs) s
    | true ↦ elim (is_zero (net s.written h)) [
      | false ↦ visit message socket (k ∷ hs) (log_send message h s)
      | true ↦ visit message socket hs (drop_client h (log_send message h s))
    ]
  ]

  -- `_sendMessage`
  unfoldable pub send_message : Bytes → Option ℕ → JsonRpcServer → Bool × JsonRpcServer
  unfolding visit
  send_message message socket s =
      if is_none_left s.connected_sockets
      then (false, s)
      else (true, visit message socket s.connected_sockets s)

  abbrev pub server_link : Link
  server_link = record { State = JsonRpcServer; send_message = send_message }

-- `_onNewClient`, for a socket that `Accept` returned.
unfoldable pub on_new_client : JsonRpcServer → ℕ → JsonRpcServer
unfolding insert
on_new_client s socket = record s { connected_sockets = insert socket s.connected_sockets }

-- `_onClientDisconnect`
unfoldable pub on_client_disconnect : JsonRpcServer → ℕ → JsonRpcServer
unfolding erase IntMap.erase
on_client_disconnect s socket = drop_client socket s
