-- ===== src/Testclient/Client/Keeping.antt =====
-- legacy_testclient/Testclient.cpp: what the callbacks leave of the peers that are pinged.
use ice_adapter.Base.{
  ℕ, refl, ℤ, ℤ_eq, Bytes, Bool, true, false, Option, none, some, codes, str_eq, if◌then◌else◌, ltb,
  ◌==◌,
}
use ice_adapter.Base.IntMap.{find}
use ice_adapter.Base.IntMap.Laws.{IsAscending, assign-IsAscending}
use ice_adapter.Json.{JsonLib}
use ice_adapter.Testclient.Client.{
  Testclient, IceCandidate, request_server, update_status, leave_clicked,
}
use ice_adapter.Testclient.Client.Callbacks.{
  on_host_left, leave_if, send_to_ice_adapter, pass_on, pass_named, on_ice_msg, on_connected,
  note_ready, start_found,
}
use ice_adapter.Testclient.Client.Candidates.{
  on_ice_message, on_candidate, by_type, sort_candidate, from_string, to_adapter,
}
use ice_adapter.Testclient.Pingtracker.{Pingtracker, start}
use ice_adapter.Testserver.{Exec, continue, ◌>>=◌, lift}
use ice_adapter.Testclient.Client.Pinging.{IsPinging, ready_active}
use ice_adapter.Testserver.{modify, done}

module _ (J : JsonLib) (F : Type 0) (average : F → ℕ → ℕ → F) where
  open J use {Value, null, at, size}

  abbrev pub Client : Type 0
  Client = Testclient J F average

  abbrev pub IsP : Client → Type 0
  IsP c = IsPinging J F average c

  pinging-if : (b : Bool) (c d : Client) → IsP c → IsP d → IsP (if b then c else d)
  pinging-if true c d h k = h
  pinging-if false c d h k = k

  answer-if :
      (b : Bool) (x y : (Value × Value) × Client) → IsP x.1 → IsP y.1 → IsP (if b then x else y).1
  answer-if true x y h k = h
  answer-if false x y h k = k

  -- The step keeps it, also where an exception ends it.
  unfoldable pub Keeps : {A : Type 0} → Exec Client A → Type 0
  Keeps m = (c : Client) → IsP c → IsP (m c).1

  continue-Keeps :
      {A B : Type 0} (r : Option A) (f : A → Exec Client B) (c : Client)
      → IsP c
      → ((x : A) → Keeps (f x))
      → IsP (continue r f c).1
  unfolding Keeps
  continue-Keeps none f c h k = h
  continue-Keeps (some x) f c h k = k x c h

  bind-Keeps :
      {A B : Type 0} (m : Exec Client A) (f : A → Exec Client B)
      → Keeps m
      → ((x : A) → Keeps (f x))
      → Keeps (m >>= f)
  unfolding Keeps
  bind-Keeps m f h k c p = continue-Keeps (m c).0 f (m c).1 (h c p) k

  lift-Keeps : {A : Type 0} (r : Option A) → Keeps (lift r)
  unfolding Keeps
  lift-Keeps r c p = p

  pub read-Keeps :
      {A B : Type 0} (r : Option A) (f : A → Exec Client B)
      → ((x : A) → Keeps (f x))
      → Keeps (lift r >>= f)
  read-Keeps r f k = bind-Keeps (lift r) f (lift-Keeps r) k

  pub modify-Keeps : (f : Client → Client) → ((c : Client) → IsP c → IsP (f c)) → Keeps (modify f)
  unfolding Keeps
  modify-Keeps f h c p = h c p

  pub Keeps-if :
      {A : Type 0} (b : Bool) (m n : Exec Client A) → Keeps m → Keeps n → Keeps (if b then m else n)
  Keeps-if true m n h k = h
  Keeps-if false m n h k = k

  pub done-Keeps : Keeps (done {S = Client})
  unfolding Keeps
  done-Keeps c p = p

  pub status-IsPinging : (c : Client) → IsP c → IsP (update_status J F average c)
  status-IsPinging c p = pinging-if c.ice_connected _ c p p

  pub leave-IsPinging : (b : Bool) (c : Client) → IsP c → IsP (leave_if J F average b c)
  unfolding leave_clicked find
  leave-IsPinging true c p = (tt, tt, λ peer t e f. cc)
  leave-IsPinging false c p = p

  sort-IsPinging :
      (b : Bool) (peer : ℤ) (msg : Value) (candidate : IceCandidate) (c : Client)
      → IsP c
      → IsP (sort_candidate J F average b peer msg candidate c)
  sort-IsPinging true peer msg candidate c p = p
  sort-IsPinging false peer msg candidate c p = p

  candidate-Keeps : (peer : ℤ) (msg : Value) → Keeps (on_candidate J F average peer msg)
  candidate-Keeps peer msg = read-Keeps (J.member msg (codes "candidate")) _ (λ v.
      read-Keeps (J.member v (codes "candidate")) _ (λ w. read-Keeps (J.as_string w) _ (λ s.
        read-Keeps (from_string s) _
          (λ candidate. modify-Keeps _ (λ c p. sort-IsPinging _ peer msg candidate c p)))))

  type-Keeps : (peer : ℤ) (msg : Value) (b : Bool) → Keeps (by_type J F average peer msg b)
  type-Keeps peer msg true = candidate-Keeps peer msg
  type-Keeps peer msg false = modify-Keeps (to_adapter J F average peer msg) (λ c p. p)

  ice_message-Keeps : (peer : ℤ) (msg : Value) → Keeps (on_ice_message J F average peer msg)
  unfolding on_ice_message
  ice_message-Keeps peer msg =
      Keeps-if (J.is_member msg (codes "type")) _ _
        (read-Keeps (J.member msg (codes "type")) _ (λ v.
          read-Keeps (J.as_string v) _ (λ s. type-Keeps peer msg (str_eq s (codes "candidate")))))
        (modify-Keeps (to_adapter J F average peer msg) (λ c p. p))

  pass_on-IsPinging :
      (b : Bool) (params : Value) (method : Bytes) (c : Client)
      → IsP c
      → IsP (pass_on J F average b params method c).1
  unfolding Keeps
  pass_on-IsPinging false params method c p = p
  pass_on-IsPinging true params method c p =
      answer-if (size (at params 1) == 2) _ _
        (read-Keeps (J.as_int (at (at params 1) 0)) _
          (λ peer. ice_message-Keeps peer (at (at params 1) 1)) c p)
        p

  pass_named-IsPinging :
      (params : Value) (method : Option Bytes) (c : Client)
      → IsP c
      → IsP (pass_named J F average params method c).1
  pass_named-IsPinging params none c p = p
  pass_named-IsPinging params (some method) c p =
      pass_on-IsPinging (str_eq method (codes "iceMsg")) params method c p

  ready-IsPinging :
      (peer : ℤ) (b : Bool) (c : Client) → IsP c → IsP (note_ready J F average peer b c)
  ready-IsPinging peer false c p = p
  ready-IsPinging peer true c (ready, trackers, active) = (
    assign-IsAscending peer tt c.peers_ready ready,
    found_ordered (find peer c.pingtrackers),
    ready_active J F average peer (find peer c.pingtrackers) c.peers_ready c.pingtrackers refl
        active,
  )
    where
      found_ordered :
          (r : Option (Pingtracker F average))
          → IsAscending (start_found J F average peer r c.pingtrackers)
      found_ordered none = trackers
      found_ordered (some t) = assign-IsAscending peer (start F average t) c.pingtrackers trackers

  -- The callbacks for the lobby server and for the adapter.
  pub data Method : Type 0 where
    host_left : Method
    to_ice_adapter : Method
    ice_msg : Method
    connected : Method

  unfoldable pub callback : Method → Value → Client → (Value × Value) × Client
  unfolding on_host_left send_to_ice_adapter on_ice_msg on_connected
  callback host_left = on_host_left J F average
  callback to_ice_adapter = send_to_ice_adapter J F average
  callback ice_msg = on_ice_msg J F average
  callback connected = on_connected J F average

  pub callback-IsPinging :
      (m : Method) (params : Value) (c : Client) → IsP c → IsP (callback m params c).1
  unfolding callback Keeps
  callback-IsPinging host_left params c p = answer-if (ltb (size params) 1) _ _ p (
      read-Keeps (J.as_int (at params 0)) _
        (λ id.
          modify-Keeps (λ d. leave_if J F average (ℤ_eq d.game_id id) d)
            (λ d q. leave-IsPinging (ℤ_eq d.game_id id) d q))
        c p)
  callback-IsPinging to_ice_adapter params c p =
      answer-if (ltb (size params) 2) _ _ p
        (pass_named-IsPinging params (J.as_string (at params 0)) c p)
  callback-IsPinging ice_msg params c p =
      status-IsPinging (request_server J F average (codes "sendIceMsg") params c) p
  callback-IsPinging connected params c p = answer-if (ltb (size params) 2) _ _ p (
      read-Keeps (J.as_int (at params 1)) _
        (λ peer. read-Keeps (J.as_bool (at params 2)) _ (λ b.
          modify-Keeps (λ d. update_status J F average (note_ready J F average peer b d))
            (λ d q.
              status-IsPinging (note_ready J F average peer b d) (ready-IsPinging peer b d q))))
        c p)
