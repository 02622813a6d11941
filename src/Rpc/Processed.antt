-- ===== src/Rpc/Processed.antt =====
-- JsonRpcServer.cpp `_onRead`: what a client writes becomes calls, one for each message.
use ice_adapter.Base.{
  ℕ, pos, ◌≡◌, ◌≢◌, refl, ap, sym, ◌∙◌, ◌⊎◌, inl, inr, map, Bytes, true, false, List, [], ◌∷◌, ◌++◌,
  none, some, All, concat, if◌then◌else◌, Bool,
}
use ice_adapter.Base.IntMap.{find, assign}
use ice_adapter.Base.IntMap.Laws.{IsAscending, assign-IsAscending, find-assign_self}
use ice_adapter.Json.{JsonLib, JsonLaws}
use ice_adapter.GpgNet.Members.{contains}
use ice_adapter.Rpc.Framing.{Messages, read_messages}
use ice_adapter.Rpc.Stream.{AreMessages, stream, stream_delivered}
use ice_adapter.Rpc.Node.{Service, Node}
use ice_adapter.Rpc.Dispatch.{process_json_message}
use ice_adapter.Rpc.Server.{JsonRpcServer, Net, server_link}
use ice_adapter.Rpc.Read.{received, buffer_of, set_buffer, process_all, check_buffer, read, on_read}
use ice_adapter.Rpc.Links.{process_json_message-Holds}
use ice_adapter.Rpc.Emptied.{IsEmptied, send_message-IsEmptied}

-- These bytes of the client have come in an earlier `_read` and wait in its buffer. A client from which
-- nothing has come has no buffer.
abbrev pub Waits : ℕ → Bytes → JsonRpcServer → Type 0
Waits socket b s =
    (find (pos socket) s.current_msgs ≡ some b)
    ⊎ ((find (pos socket) s.current_msgs ≡ none) × (b ≡ []))

buffer_of-Waits :
    (socket : ℕ) (b : Bytes) (s : JsonRpcServer) → Waits socket b s → buffer_of socket s ≡ b
buffer_of-Waits socket b s (inl e) = rw (e, buffer_of) refl
buffer_of-Waits socket b s (inr (e, empty)) = rw (e, buffer_of) (sym empty)

received_lem : (fs : List Bytes) → All (λ f. f ≢ []) fs → received fs ≡ concat fs
received_lem [] h = refl
received_lem ([] ∷ fs) h = absurd (h.0 refl)
received_lem ((x ∷ xs) ∷ fs) h = ap (λ b. (x ∷ xs) ++ b) (received_lem fs h.1)

module _ (J : JsonLib) (laws : JsonLaws J) (net : Net) (S : Service J) (K : Type 0) where
  abbrev ServerNode : Type 0
  ServerNode = Node J (server_link net) S K

  -- One message, unless the program has ended.
  abbrev pub turn : ℕ → J.Value → ServerNode → ServerNode
  turn socket v n =
      if n.has_ended then n else process_json_message J (server_link net) S K v socket n

  -- The values of the messages, one after the other.
  abbrev pub in_turn : ℕ → List (Bytes × J.Value) → ServerNode → ServerNode
  in_turn socket [] n = n
  in_turn socket (m ∷ ms) n = in_turn socket ms (turn socket m.1 n)

  turn_lem :
      (b : Bool) (socket : ℕ) (v : J.Value) (n : ServerNode)
      → n.has_ended ≡ b
      → turn socket v n ≡ (if b then n else process_json_message J (server_link net) S K v socket n)
  turn_lem b socket v n e =
      ap (λ c. if c then n else process_json_message J (server_link net) S K v socket n) e

  in_turn_ended :
      (socket : ℕ) (ms : List (Bytes × J.Value)) (n : ServerNode)
      → n.has_ended ≡ true
      → in_turn socket ms n ≡ n
  in_turn_ended socket [] n e = refl
  in_turn_ended socket (m ∷ ms) n e =
      ap (in_turn socket ms) (turn_lem true socket m.1 n e) ∙ in_turn_ended socket ms n e

  process_all_lem :
      (socket : ℕ) (ms : List (Bytes × J.Value)) (n : ServerNode)
      → process_all J net S K socket (map (λ m. m.1) ms) n ≡ in_turn socket ms n
  unfolding process_all
  process_all_lem socket [] n = refl
  process_all_lem socket (m ∷ ms) n = by_end n.has_ended refl (process_all_lem socket ms later)
    where
      later : ServerNode
      later = process_json_message J (server_link net) S K m.1 socket n

      by_end :
          (b : Bool)
          → n.has_ended ≡ b
          → process_all J net S K socket (map (λ m. m.1) ms) later ≡ in_turn socket ms later
          → (elim b [ true ↦ n | false ↦ process_all J net S K socket (map (λ m. m.1) ms) later ])
            ≡ in_turn socket ms (turn socket m.1 n)
      by_end true e rest = sym (in_turn_ended socket (m ∷ ms) n e)
      by_end false e rest = rest ∙ ap (in_turn socket ms) (sym (turn_lem false socket m.1 n e))

  turn-IsEmptied :
      (b : Bool) (socket : ℕ) (v : J.Value) (n : ServerNode)
      → IsEmptied socket n.link
      → IsEmptied socket
          (if b then n else process_json_message J (server_link net) S K v socket n).link
  turn-IsEmptied true socket v n h = h
  turn-IsEmptied false socket v n h =
      process_json_message-Holds J (server_link net) S K (IsEmptied socket)
        (λ text to l k. send_message-IsEmptied socket net text to l k) v socket n h

  in_turn-IsEmptied :
      (socket : ℕ) (ms : List (Bytes × J.Value)) (n : ServerNode)
      → IsEmptied socket n.link
      → IsEmptied socket (in_turn socket ms n).link
  in_turn-IsEmptied socket [] n h = h
  in_turn-IsEmptied socket (m ∷ ms) n h =
      in_turn-IsEmptied socket ms (turn socket m.1 n) (turn-IsEmptied n.has_ended socket m.1 n h)

  -- `_read`, from the messages that it takes from the buffer on.
  abbrev after_reading : ℕ → Messages J → ServerNode → ServerNode
  after_reading socket p n = check_buffer J net S K socket (
      process_all J net S K socket p.messages
        (record n { link = set_buffer socket p.buffer n.link }))

  -- The node before the first message: nothing is left in the client's buffer.
  abbrev pub emptied : ℕ → ServerNode → ServerNode
  emptied socket n = record n {
    link = record n.link { current_msgs = assign (pos socket) [] n.link.current_msgs };
  }

  on_read_lem :
      (ms : List (Bytes × J.Value)) (socket : ℕ) (fragments : List Bytes) (n : ServerNode)
      → AreMessages J laws ms
      → contains socket n.link.connected_sockets ≡ true
      → buffer_of socket n.link ++ received fragments ≡ stream J laws ms
      → on_read J net S K socket fragments n
        ≡ check_buffer J net S K socket (in_turn socket ms (emptied socket n))
  unfolding on_read read
  on_read_lem ms socket fragments n h here arrives = rw here (
      ap (λ b. after_reading socket (read_messages J b) n) arrives
      ∙ ap (λ p. after_reading socket p n) (stream_delivered J laws ms h)
      ∙ ap (check_buffer J net S K socket) (process_all_lem socket ms (emptied socket n)))

  -- A connected client writes JSON objects, each with a newline behind it; the reader accepts each
  -- object as its value, which is not null, and the loop that counts braces and quotes finds its end,
  -- which an escaped quote can prevent. The buffers are in the order of the clients' addresses, and the
  -- first bytes may wait in the client's buffer when the other ones come, in fragments of any size
  -- that are not empty. Then the messages are processed, each once and in order, each by the node that
  -- the ones before have left, up to one that ends the program. Nothing stays in the client's buffer;
  -- if a message has made the server drop the client, the behaviour is undefined.
  pub stream_processed :
      (ms : List (Bytes × J.Value)) (socket : ℕ) (earlier : Bytes) (fragments : List Bytes)
      (n : ServerNode)
      → AreMessages J laws ms
      → contains socket n.link.connected_sockets ≡ true
      → IsAscending n.link.current_msgs
      → Waits socket earlier n.link
      → All (λ f. f ≢ []) fragments
      → earlier ++ concat fragments ≡ stream J laws ms
      → let m = in_turn socket ms (emptied socket n) in
        let r = on_read J net S K socket fragments n in
        ((find (pos socket) m.link.current_msgs ≡ some []) × (r ≡ m))
        ⊎ ((find (pos socket) m.link.current_msgs ≡ none)
            × (r ≡ record m { link = record m.link { undefined = true } }))
  stream_processed ms socket earlier fragments n h here ordered waits full arrives =
      let start = emptied socket n in
      let m = in_turn socket ms start in
      let begins : IsEmptied socket start.link = (
        assign-IsAscending (pos socket) [] n.link.current_msgs ordered,
        inl (find-assign_self (pos socket) [] n.link.current_msgs),
      ) in
      let bytes =
        ap (λ b. b ++ received fragments) (buffer_of-Waits socket earlier n.link waits)
        ∙ ap (λ b. earlier ++ b) (received_lem fragments full)
        ∙ arrives in
      let done = on_read_lem ms socket fragments n h here bytes in
      elim (in_turn-IsEmptied socket ms start begins).1 [
        | inl e ↦ inl (e, done ∙ (rw (e, check_buffer) refl))
        | inr e ↦ inr (e, done ∙ (rw (e, check_buffer) refl))
      ]
