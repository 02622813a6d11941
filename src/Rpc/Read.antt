-- ===== src/Rpc/Read.antt =====
-- JsonRpc.cpp `_read`, as JsonRpcServer.cpp calls it: bytes of a client become calls.
use ice_adapter.Base.{ℕ, pos, Bytes, true, false, List, [], ◌∷◌, ◌++◌, none, some, if◌then◌else◌}
use ice_adapter.Base.IntMap.{find, assign}
use ice_adapter.Json.{JsonLib}
use ice_adapter.Rpc.Framing.{read_messages}
use ice_adapter.Rpc.Node.{Service, Node}
use ice_adapter.Rpc.Dispatch.{process_json_message}
use ice_adapter.Rpc.Server.{JsonRpcServer, Net, server_link}
use ice_adapter.GpgNet.Members.{contains}

-- What the first loop appends: the fragments that `Recv` returns up to the first empty one, which
-- stands for a result that is not positive.
abbrev pub received : List Bytes → Bytes
received [] = []
received ([] ∷ fragments) = []
received ((x ∷ xs) ∷ fragments) = (x ∷ xs) ++ received fragments

abbrev pub buffer_of : ℕ → JsonRpcServer → Bytes
buffer_of socket s = elim (find (pos socket) s.current_msgs) [ none ↦ [] | some b ↦ b ]

abbrev pub set_buffer : ℕ → Bytes → JsonRpcServer → JsonRpcServer
set_buffer socket b s = record s { current_msgs = assign (pos socket) b s.current_msgs }

module _ (J : JsonLib) (net : Net) (S : Service J) (K : Type 0) where
  -- The messages that the second loop takes from the buffer. The program takes each one when the
  -- one before is processed, which does not look at the buffer.
  unfoldable pub process_all :
      ℕ → List J.Value → Node J (server_link net) S K → Node J (server_link net) S K
  process_all socket [] n = n
  process_all socket (v ∷ vs) n = elim n.has_ended [
    | true ↦ n
    | false ↦ process_all socket vs (process_json_message J (server_link net) S K v socket n)
  ]

  -- If a `Send` has failed meanwhile, the reference to the buffer is no longer valid.
  abbrev pub check_buffer : ℕ → Node J (server_link net) S K → Node J (server_link net) S K
  check_buffer socket n = elim (find (pos socket) n.link.current_msgs) [
    | none ↦ record n { link = record n.link { undefined = true } }
    | some b ↦ n
  ]

  -- `JsonRpc::_read`
  unfoldable pub read : ℕ → List Bytes → Node J (server_link net) S K → Node J (server_link net) S K
  unfolding read_messages process_all
  read socket fragments n =
      let p = read_messages J (buffer_of socket n.link ++ received fragments) in
      check_buffer socket
        (process_all socket p.messages (record n { link = set_buffer socket p.buffer n.link }))

  -- `_onRead`
  unfoldable pub on_read :
      ℕ → List Bytes → Node J (server_link net) S K → Node J (server_link net) S K
  unfolding read
  on_read socket fragments n =
      if contains socket n.link.connected_sockets then read socket fragments n else n
