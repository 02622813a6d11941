-- ===== src/Rpc/Sends.antt =====
-- JsonRpcServer.cpp `_sendMessage`: which clients get a message, and what a failed `Send` does.
use ice_adapter.Base.{
  ℕ, ◌≡◌, refl, sym, ap, ◌∙◌, inl, inr, Bytes, Bool, true, false, not, List, [], ◌∷◌, ◌++◌, map,
  Option, none, some, append-nil, append_assoc, All, arith, Bool-cases, if◌then◌else◌,
}
use ice_adapter.GpgNet.Members.{contains, IsSorted, contains-Above, Above-IsSorted}
use ice_adapter.Rpc.Server.{
  JsonRpcServer, Net, is_zero, is_meant, is_none_left, log_send, drop_client, past_the_end, visit,
  send_message,
}

-- The sockets that a message is meant for, in the order of the map.
abbrev pub meant : Option ℕ → List ℕ → List ℕ
meant socket [] = []
meant socket (h ∷ hs) = let rest = meant socket hs in if is_meant socket h then h ∷ rest else rest

abbrev pub sends : Bytes → List ℕ → List (ℕ × Bytes)
sends message hs = map (λ h. (h, message)) hs

pub meant_all : (hs : List ℕ) → meant none hs ≡ hs
meant_all [] = refl
meant_all (h ∷ hs) = ap (λ l. h ∷ l) (meant_all hs)

meant_one_none : (h : ℕ) (hs : List ℕ) → contains h hs ≡ false → meant (some h) hs ≡ []
meant_one_none h [] n = refl
meant_one_none h (k ∷ ks) n = ground (arith, meant_one_none h ks)

-- A message for one client is meant for it once if it is connected, and for no other.
pub meant_one :
    (h : ℕ) (hs : List ℕ) → IsSorted hs → meant (some h) hs ≡ (if contains h hs then h ∷ [] else [])
meant_one h [] o = refl
meant_one h (k ∷ ks) o =
    ground
      (arith, meant_one h ks (Above-IsSorted k ks o), meant_one_none h ks, contains-Above k ks h o)

module _ (net : Net) where
  visit_meant :
      (message : Bytes) (socket : Option ℕ) (h : ℕ) (hs : List ℕ) (s : JsonRpcServer)
      → is_meant socket h ≡ true
      → is_zero (net s.written h) ≡ false
      → visit net message socket (h ∷ hs) s ≡ visit net message socket hs (log_send message h s)
  unfolding visit
  visit_meant message socket h [] s m z = rw (m, z, visit) refl
  visit_meant message socket h (k ∷ hs) s m z = rw (m, z, visit) refl

  visit_other :
      (message : Bytes) (socket : Option ℕ) (h : ℕ) (hs : List ℕ) (s : JsonRpcServer)
      → is_meant socket h ≡ false
      → visit net message socket (h ∷ hs) s ≡ visit net message socket hs s
  unfolding visit
  visit_other message socket h [] s m = rw (m, visit) refl
  visit_other message socket h (k ∷ hs) s m = rw (m, visit) refl

  -- The state after the message is sent to each of the sockets.
  abbrev pub sent_to : Bytes → List ℕ → JsonRpcServer → JsonRpcServer
  sent_to message hs s = record s { written = s.written ++ sends message hs }

  sent_to-cons :
      (message : Bytes) (h : ℕ) (hs : List ℕ) (s : JsonRpcServer)
      → sent_to message hs (log_send message h s) ≡ sent_to message (h ∷ hs) s
  sent_to-cons message h hs s =
      ap (λ w. record s { written = w })
        (append_assoc s.written ((h, message) ∷ []) (sends message hs))

  -- A socket whose `Send` never returns 0.
  abbrev pub NeverZero : ℕ → Type 0
  NeverZero h = (w : List (ℕ × Bytes)) → is_zero (net w h) ≡ false

  -- The loop over sockets of which none fails, with more sockets behind them.
  visit-All :
      (message : Bytes) (socket : Option ℕ) (hs ks : List ℕ) (s : JsonRpcServer)
      → All NeverZero hs
      → visit net message socket (hs ++ ks) s
        ≡ visit net message socket ks (sent_to message (meant socket hs) s)
  visit-All message socket [] ks s good =
      ap (λ w. visit net message socket ks (record s { written = w })) (sym (append-nil s.written))
  visit-All message socket (h ∷ hs) ks s good = elim (Bool-cases (is_meant socket h)) [
    | inl m ↦
        visit_meant message socket h (hs ++ ks) s m (good.0 s.written)
        ∙ visit-All message socket hs ks (log_send message h s) good.1
        ∙ ap (visit net message socket ks) (sent_to-cons message h (meant socket hs) s)
        ∙ (rw m refl)
    | inr m ↦
        visit_other message socket h (hs ++ ks) s m
        ∙ visit-All message socket hs ks s good.1
        ∙ (rw m refl)
  ]

  -- `_sendMessage`, over the sockets of a list.
  abbrev attempt : Bytes → Option ℕ → List ℕ → JsonRpcServer → Bool × JsonRpcServer
  attempt message socket hs s =
      if is_none_left hs then (false, s) else (true, visit net message socket hs s)

  send_message_any :
      (message : Bytes) (socket : Option ℕ) (hs : List ℕ) (s : JsonRpcServer)
      → All NeverZero hs
      → attempt message socket hs s ≡ (not (is_none_left hs), sent_to message (meant socket hs) s)
  unfolding visit
  send_message_any message socket [] s good =
      ap (λ w. (false, record s { written = w })) (sym (append-nil s.written))
  send_message_any message socket (h ∷ hs) s good =
      ap (λ t. (true, t))
        (ap (λ l. visit net message socket l s) (sym (append-nil (h ∷ hs)))
          ∙ visit-All message socket (h ∷ hs) [] s good)

  visit_end :
      (message : Bytes) (socket : Option ℕ) (s : JsonRpcServer) → visit net message socket [] s ≡ s
  unfolding visit
  visit_end message socket s = refl

  -- If no `Send` to a connected client returns 0, `_sendMessage` sends the message to exactly the
  -- clients that it is meant for, in the order of the map, and answers whether a client is connected.
  -- The clients and the buffers stay.
  pub send_message_delivers :
      (message : Bytes) (socket : Option ℕ) (s : JsonRpcServer)
      → All NeverZero s.connected_sockets
      → send_message net message socket s ≡ (
        not (is_none_left s.connected_sockets),
        sent_to message (meant socket s.connected_sockets) s,
      )
  unfolding send_message
  send_message_delivers message socket s good =
      send_message_any message socket s.connected_sockets s good

  -- A socket whose `Send` always returns 0.
  abbrev pub AlwaysZero : ℕ → Type 0
  AlwaysZero h = (w : List (ℕ × Bytes)) → is_zero (net w h) ≡ true

  visit_fails :
      (message : Bytes) (socket : Option ℕ) (h k : ℕ) (ks : List ℕ) (s : JsonRpcServer)
      → is_meant socket h ≡ true
      → AlwaysZero h
      → visit net message socket (h ∷ (k ∷ ks)) s
        ≡ visit net message socket ks (drop_client h (log_send message h s))
  unfolding visit
  visit_fails message socket h k ks s m zero = rw (m, zero s.written, visit) refl

  visit_fails_last :
      (message : Bytes) (socket : Option ℕ) (h : ℕ) (s : JsonRpcServer)
      → is_meant socket h ≡ true
      → AlwaysZero h
      → visit net message socket (h ∷ []) s ≡ past_the_end (drop_client h (log_send message h s))
  unfolding visit
  visit_fails_last message socket h s m zero = rw (m, zero s.written, visit) refl

  not_last : (hs : List ℕ) (h : ℕ) (ks : List ℕ) → is_none_left (hs ++ (h ∷ ks)) ≡ false
  not_last [] h ks = refl
  not_last (k ∷ hs) h ks = refl

  send_message_visits :
      (message : Bytes) (socket : Option ℕ) (hs : List ℕ) (h : ℕ) (ks : List ℕ) (s : JsonRpcServer)
      → s.connected_sockets ≡ hs ++ (h ∷ ks)
      → All NeverZero hs
      → (send_message net message socket s).1
        ≡ visit net message socket (h ∷ ks) (sent_to message (meant socket hs) s)
  unfolding send_message
  send_message_visits message socket hs h ks s e good =
      ap (λ l. (attempt message socket l s).1) e
      ∙ (rw (not_last hs h ks) (visit-All message socket hs (h ∷ ks) s good))

  -- The clients `hs`, `h`, `k` and `ks` are connected, in this order, and only the `Send` to `h` returns
  -- 0. A message to all then goes to `hs`, `h` and `ks`: the loop leaves out `k`, and drops `h`.
  pub failed_send_skips_next :
      (message : Bytes) (hs : List ℕ) (h k : ℕ) (ks : List ℕ) (s : JsonRpcServer)
      → s.connected_sockets ≡ hs ++ (h ∷ (k ∷ ks))
      → All NeverZero hs
      → AlwaysZero h
      → All NeverZero ks
      → (send_message net message none s).1
        ≡ sent_to message ks (drop_client h (sent_to message (h ∷ []) (sent_to message hs s)))
  failed_send_skips_next message hs h k ks s e good zero good' =
      let sent = sent_to message hs s in
      let dropped = drop_client h (log_send message h sent) in
      send_message_visits message none hs h (k ∷ ks) s e good
      ∙ ap (λ l. visit net message none (h ∷ (k ∷ ks)) (sent_to message l s)) (meant_all hs)
      ∙ visit_fails message none h k ks sent refl zero
      ∙ ap (λ l. visit net message none l dropped) (sym (append-nil ks))
      ∙ visit-All message none ks [] dropped good'
      ∙ visit_end message none (sent_to message (meant none ks) dropped)
      ∙ ap (λ l. sent_to message l dropped) (meant_all ks)

  -- The clients `hs` and then `h` are connected, and only the `Send` to `h` returns 0. A message to
  -- all, or to `h` alone, moves the iterator past the end: the behaviour is undefined.
  pub failed_send_undefined :
      (message : Bytes) (socket : Option ℕ) (hs : List ℕ) (h : ℕ) (s : JsonRpcServer)
      → s.connected_sockets ≡ hs ++ (h ∷ [])
      → is_meant socket h ≡ true
      → All NeverZero hs
      → AlwaysZero h
      → (send_message net message socket s).1.undefined ≡ true
  failed_send_undefined message socket hs h s e m good zero =
      ap (λ t. t.undefined)
        (send_message_visits message socket hs h [] s e good
          ∙ visit_fails_last message socket h (sent_to message (meant socket hs) s) m zero)
