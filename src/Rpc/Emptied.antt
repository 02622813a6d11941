-- ===== src/Rpc/Emptied.antt =====
-- JsonRpcServer.cpp `_sendMessage`: the buffers of the clients.
use ice_adapter.Base.{
  ℕ, pos, ◌≡◌, refl, ◌⊎◌, inl, inr, Bytes, Bool, true, false, List, [], ◌∷◌, Option, none, some,
  Bool-cases, ℤ_eq, if◌then◌else◌,
}
use ice_adapter.Base.IntMap.{find}
use ice_adapter.Base.IntMap.Laws.{IsAscending, find-erase, erase-IsAscending}
use ice_adapter.Rpc.Server.{
  JsonRpcServer, Net, visit, send_message, is_meant, is_zero, is_none_left, drop_client, log_send,
}

-- The client has an empty buffer, or none any more.
abbrev pub IsEmptied : ℕ → JsonRpcServer → Type 0
IsEmptied socket s =
    IsAscending s.current_msgs
    × ((find (pos socket) s.current_msgs ≡ some []) ⊎ (find (pos socket) s.current_msgs ≡ none))

module _ (socket : ℕ) where
  erased :
      (b : Bool) (o : Option Bytes)
      → (o ≡ some []) ⊎ (o ≡ none)
      → ((if b then none else o) ≡ some []) ⊎ ((if b then none else o) ≡ none)
  erased true o h = inr refl
  erased false o h = h

  drop_client-IsEmptied :
      (h : ℕ) (s : JsonRpcServer) → IsEmptied socket s → IsEmptied socket (drop_client h s)
  drop_client-IsEmptied h s (ordered, empty) = (
    erase-IsAscending (pos h) s.current_msgs ordered,
    rw (find-erase (pos h) (pos socket) s.current_msgs ordered)
        (erased (ℤ_eq (pos h) (pos socket)) (find (pos socket) s.current_msgs) empty),
  )

  module _ (net : Net) where
    visit-IsEmptied :
        (message : Bytes) (to : Option ℕ) (hs : List ℕ) (s : JsonRpcServer)
        → IsEmptied socket s
        → IsEmptied socket (visit net message to hs s)
    unfolding visit
    visit-IsEmptied message to [] s e = e
    visit-IsEmptied message to (h ∷ []) s e = elim (Bool-cases (is_meant to h)) [
      | inl m ↦ elim (Bool-cases (is_zero (net s.written h))) [
        | inl z ↦ rw (m, z, visit) (drop_client-IsEmptied h (log_send message h s) e)
        | inr z ↦ rw (m, z, visit) e
      ]
      | inr m ↦ rw (m, visit) e
    ]
    visit-IsEmptied message to (h ∷ (k ∷ hs)) s e = elim (Bool-cases (is_meant to h)) [
      | inl m ↦ elim (Bool-cases (is_zero (net s.written h))) [
        | inl z ↦
            rw (m, z, visit)
              (visit-IsEmptied message to hs (drop_client h (log_send message h s))
                (drop_client-IsEmptied h (log_send message h s) e))
        | inr z ↦ rw (m, z, visit) (visit-IsEmptied message to (k ∷ hs) (log_send message h s) e)
      ]
      | inr m ↦ rw (m, visit) (visit-IsEmptied message to (k ∷ hs) s e)
    ]

    pub send_message-IsEmptied :
        (message : Bytes) (to : Option ℕ) (s : JsonRpcServer)
        → IsEmptied socket s
        → IsEmptied socket (send_message net message to s).1
    unfolding send_message
    send_message-IsEmptied message to s e = elim (Bool-cases (is_none_left s.connected_sockets)) [
      | inl b ↦ rw b e
      | inr b ↦ rw b (visit-IsEmptied message to s.connected_sockets s e)
    ]
