-- ===== src/GpgNet/Server/Refines.antt =====
-- GPGNetServer.cpp: the server as each game sees it.
use ice_adapter.Base.{
  ℕ, ◌≡◌, refl, ap, ◌∙◌, inl, inr, Bytes, Bool, true, false, List, [], ◌∷◌, ◌++◌, map, Option, none,
  some, Option-cases, ◌==◌, if◌then◌else◌, append-nil,
}
use ice_adapter.Json.{JsonLib}
use ice_adapter.GpgNet.Message.{GpgNetMessage, to_binary}
use ice_adapter.GpgNet.Server.{
  GpgNetServer, on_new_client, on_client_disconnect, on_message, send_message,
}
use ice_adapter.GpgNet.Members.{
  contains, IsSorted, insert-IsSorted, erase-IsSorted, contains-insert, contains-erase, received_by,
  received_by-append, received_by-broadcast,
}

module _ (J : JsonLib) where
  -- What happens to the server. `removes` is the message that `_onClientDisconnect` posts.
  pub data ServerEvent : Type 0 where
    connects disconnects removes : ℕ → ServerEvent
    broadcasts : GpgNetMessage J → ServerEvent

  -- A message whose `toBinary` throws leaves the server as it is.
  abbrev pub or_same : GpgNetServer → Option GpgNetServer → GpgNetServer
  or_same s none = s
  or_same s (some t) = t

  unfoldable pub serve : List ServerEvent → GpgNetServer → GpgNetServer
  serve [] s = s
  serve (connects h ∷ es) s = serve es (on_new_client s h)
  serve (disconnects h ∷ es) s = serve es (on_client_disconnect s h)
  serve (removes h ∷ es) s = serve es (on_message s h)
  serve (broadcasts m ∷ es) s = serve es (or_same s (send_message J s m))

  -- One game: whether it is connected, and the messages that it has got.
  pub record Seat : Type 0 where
    pub is_connected : Bool
    pub inbox : List Bytes

  abbrev pub deliver : Seat → Option Bytes → Seat
  deliver a none = a
  deliver a (some bytes) = record a {
    inbox = if a.is_connected then a.inbox ++ (bytes ∷ []) else a.inbox;
  }

  abbrev pub seat_step : ℕ → ServerEvent → Seat → Seat
  seat_step h (connects k) a = record a { is_connected = if h == k then true else a.is_connected }
  seat_step h (disconnects k) a = a
  seat_step h (removes k) a = record a { is_connected = if h == k then false else a.is_connected }
  seat_step h (broadcasts m) a = deliver a (to_binary J m)

  abbrev pub seat_run : ℕ → List ServerEvent → Seat → Seat
  seat_run h [] a = a
  seat_run h (e ∷ es) a = seat_run h es (seat_step h e a)

  abbrev pub seat_of : ℕ → GpgNetServer → Seat
  seat_of h s = record { is_connected = contains h s.connected; inbox = received_by h s.written }

  append-if :
      (b : Bool) (xs : List Bytes) (x : Bytes)
      → xs ++ (if b then x ∷ [] else []) ≡ (if b then xs ++ (x ∷ []) else xs)
  append-if true xs x = refl
  append-if false xs x = append-nil xs

  seat_of-broadcast :
      (h : ℕ) (bytes : Bytes) (s : GpgNetServer)
      → IsSorted s.connected
      → seat_of h (record s { written = s.written ++ map (λ k. (k, bytes)) s.connected })
        ≡ deliver (seat_of h s) (some bytes)
  seat_of-broadcast h bytes s o =
      ap (λ l. record { is_connected = contains h s.connected; inbox = l })
        (received_by-append h s.written (map (λ k. (k, bytes)) s.connected)
          ∙ ap (λ l. received_by h s.written ++ l) (received_by-broadcast h bytes s.connected o)
          ∙ append-if (contains h s.connected) (received_by h s.written) bytes)

  seat_of-send_message :
      (h : ℕ) (m : GpgNetMessage J) (s : GpgNetServer)
      → IsSorted s.connected
      → (seat_of h (or_same s (send_message J s m)) ≡ deliver (seat_of h s) (to_binary J m))
        × IsSorted (or_same s (send_message J s m)).connected
  unfolding send_message
  seat_of-send_message h m s o = elim (Option-cases (to_binary J m)) [
    | inl e ↦ rw e (refl, o)
    | inr (bytes, e) ↦ rw e (seat_of-broadcast h bytes s o, o)
  ]

  seat_of-step :
      (h : ℕ) (e : ServerEvent) (s : GpgNetServer)
      → IsSorted s.connected
      → (seat_of h (serve (e ∷ []) s) ≡ seat_step h e (seat_of h s))
        × IsSorted (serve (e ∷ []) s).connected
  unfolding serve on_new_client on_client_disconnect on_message
  seat_of-step h (connects k) s o = (
    ap (λ b. record { is_connected = b; inbox = received_by h s.written })
        (contains-insert h k s.connected),
    insert-IsSorted k s.connected o,
  )
  seat_of-step h (disconnects k) s o = (refl, o)
  seat_of-step h (removes k) s o = (
    ap (λ b. record { is_connected = b; inbox = received_by h s.written })
        (contains-erase h k s.connected o),
    erase-IsSorted k s.connected o,
  )
  seat_of-step h (broadcasts m) s o = seat_of-send_message h m s o

  serve-cons :
      (e : ServerEvent) (es : List ServerEvent) (s : GpgNetServer)
      → serve (e ∷ es) s ≡ serve es (serve (e ∷ []) s)
  unfolding serve
  serve-cons (connects k) es s = refl
  serve-cons (disconnects k) es s = refl
  serve-cons (removes k) es s = refl
  serve-cons (broadcasts m) es s = refl

  -- In any history of clients that connect and disconnect and of messages to all, from a server whose
  -- set of clients is sorted, each game sees what it would see alone: whether it is connected, and
  -- exactly the messages that were sent while it was, once each and in order. A disconnect takes
  -- effect only when the message that it posts is handled. The set stays sorted.
  pub serve_refines :
      (h : ℕ) (es : List ServerEvent) (s : GpgNetServer)
      → IsSorted s.connected
      → (seat_of h (serve es s) ≡ seat_run h es (seat_of h s)) × IsSorted (serve es s).connected
  unfolding serve
  serve_refines h [] s o = (refl, o)
  serve_refines h (e ∷ es) s o =
      let (step, sorted) = seat_of-step h e s o in
      let (run, stays) = serve_refines h es (serve (e ∷ []) s) sorted in
      rw (serve-cons e es s) (run ∙ ap (seat_run h es) step, stays)
