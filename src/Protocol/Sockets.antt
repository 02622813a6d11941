-- ===== src/Protocol/Sockets.antt =====
-- legacy_testclient/JsonRpcQTcpServer.cpp and legacy_testclient/JsonRpcQTcpSocket.cpp: what is written
-- to which socket, and the callbacks of new sockets.
use ice_adapter.Base.{
  ℕ, Bytes, Bool, true, false, List, [], ◌∷◌, ◌++◌, Option, none, some, if◌then◌else◌, ◌==◌, map,
}
use ice_adapter.Json.{JsonLib}
use ice_adapter.Protocol.{RpcCallback, SendJson, set_rpc_callback}

abbrev pub contains : ℕ → List ℕ → Bool
contains k [] = false
contains k (j ∷ ks) = let rest = contains k ks in if j == k then true else rest

-- The sockets that a text is meant for: one that the server has, or all.
abbrev pub meant : Option ℕ → List ℕ → List ℕ
meant none ks = ks
meant (some k) ks = if contains k ks then k ∷ [] else ks

module _ (J : JsonLib) (S K : Type 0) where
  -- `JsonRpcQTcpServer::sendJson`
  unfoldable pub server_send_json : List ℕ → SendJson J S K
  server_send_json ks socket text sent = (true, sent ++ map (λ k. (k, text)) (meant socket ks))

  -- `JsonRpcQTcpSocket::send`. Whether `write` takes all bytes is up to Qt.
  abbrev pub write_all : (ℕ → Bytes → Bool) → ℕ → Bytes → List (ℕ × Bytes) → Bool × List (ℕ × Bytes)
  write_all takes socket text sent = (takes socket text, sent ++ ((socket, text) ∷ []))

  abbrev pub is_other : ℕ → Option ℕ → Bool
  is_other this none = false
  is_other this (some k) = if this == k then false else true

  -- `JsonRpcQTcpSocket::sendJson`
  unfoldable pub socket_send_json : (ℕ → Bytes → Bool) → ℕ → SendJson J S K
  socket_send_json takes this socket text sent =
      if is_other this socket then (false, sent) else write_all takes this text sent

  -- `JsonRpcQTcpServer`: the sockets with their callbacks, and the server's own.
  pub record Server : Type 0 where
    pub sockets : List (ℕ × List (Bytes × RpcCallback J S K))
    pub callbacks : List (Bytes × RpcCallback J S K)

  unfoldable pub copy_callbacks :
      List (Bytes × RpcCallback J S K)
      → List (Bytes × RpcCallback J S K)
      → List (Bytes × RpcCallback J S K)
  unfolding set_rpc_callback
  copy_callbacks [] m = m
  copy_callbacks ((method, c) ∷ cs) m = copy_callbacks cs (set_rpc_callback method c m)

  unfoldable pub on_new_connection : ℕ → Server → Server
  unfolding copy_callbacks
  on_new_connection k s = record s { sockets = (k, copy_callbacks s.callbacks []) ∷ s.sockets }

  abbrev pub with_callback :
      Bytes
      → RpcCallback J S K
      → ℕ × List (Bytes × RpcCallback J S K)
      → ℕ × List (Bytes × RpcCallback J S K)
  with_callback method c (k, m) = (k, set_rpc_callback method c m)

  unfoldable pub server_set_rpc_callback : Bytes → RpcCallback J S K → Server → Server
  unfolding set_rpc_callback
  server_set_rpc_callback method c s = record {
    sockets = map (with_callback method c) s.sockets;
    callbacks = set_rpc_callback method c s.callbacks;
  }
