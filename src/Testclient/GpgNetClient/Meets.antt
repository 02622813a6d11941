-- ===== src/Testclient/GpgNetClient/Meets.antt =====
-- The adapter's GPGNet server and the test client, connected by a byte stream.
use ice_adapter.Base.{
  ℕ, ◌≡◌, refl, sym, ap, ◌∙◌, subst, map, Bytes, true, false, List, [], ◌∷◌, ◌++◌, some, All,
  concat, append-nil, append_assoc, arith,
}
use ice_adapter.Json.{JsonLib, JsonLaws}
use ice_adapter.GpgNet.Message.{
  GpgNetMessage, Parsed, Halt, waiting, rejected, threw, out_of_fuel, stop,
}
use ice_adapter.GpgNet.Message as Message
use ice_adapter.GpgNet.Handler.{on_read}
use ice_adapter.GpgNet.RoundTrip.{IsWireMessage, message_trip}
use ice_adapter.GpgNet.Fragments.{NonEmpty}
use ice_adapter.GpgNet.Delivery.{to_binaries, fragments_deliver}
use ice_adapter.GpgNet.Server.{GpgNetServer}
use ice_adapter.GpgNet.Server.Refines.{broadcasts, serve, seat_of, seat_run, deliver, serve_refines}
use ice_adapter.GpgNet.Members.{contains, IsSorted, received_by}
use ice_adapter.Testclient.GpgNetClient.{
  GpgNetClient, new_client, has_thrown, receive, on_ready_read, unless,
}

module _ (J : JsonLib) (laws : JsonLaws J) where
  -- The fragments that arrive, one after the other.
  abbrev pub read_each : List Bytes → GpgNetClient J → GpgNetClient J
  read_each [] c = c
  read_each (f ∷ fs) c = read_each fs (on_ready_read J f c)

  read_each_ended : (fs : List Bytes) (c : GpgNetClient J) → c.has_ended ≡ true → read_each fs c ≡ c
  unfolding on_ready_read
  read_each_ended [] c e = refl
  read_each_ended (f ∷ fs) c e = ap (λ b. read_each fs (unless J b f c)) e ∙ read_each_ended fs c e

  -- The client reads as the adapter's handler of a connection does.
  abbrev Agrees : GpgNetClient J → GpgNetClient J → Parsed J → Type 0
  Agrees c d p = (d.received ≡ c.received ++ p.delivered) × (d.message ≡ p.buffer)

  Agrees-append :
      (p q : Parsed J) (c d : GpgNetClient J)
      → Agrees (receive J p c) d q
      → Agrees c d (record q { delivered = p.delivered ++ q.delivered })
  Agrees-append p q c d h = (h.0 ∙ append_assoc c.received p.delivered q.delivered, h.1)

  -- One fragment, and the ones behind it.
  merge :
      (h : Halt J) (p q : Parsed J) (c d : GpgNetClient J)
      → (h ≡ threw → d ≡ receive J p c)
      → (has_thrown J h ≡ false → Agrees (receive J p c) d q)
      → Agrees c d (elim h [ threw ↦ p | _ ↦ record q { delivered = p.delivered ++ q.delivered } ])
  merge threw p q c d ended more = subst (λ u. Agrees c u p) (sym (ended refl)) (refl, refl)
  merge waiting p q c d ended more = Agrees-append p q c d (more refl)
  merge rejected p q c d ended more = Agrees-append p q c d (more refl)
  merge out_of_fuel p q c d ended more = Agrees-append p q c d (more refl)

  read_each-Agrees :
      (fs : List Bytes) (c : GpgNetClient J)
      → All NonEmpty fs
      → c.has_ended ≡ false
      → Agrees c (read_each fs c) (on_read J c.message fs)
  unfolding on_read on_ready_read stop
  read_each-Agrees [] c n e = (sym (append-nil c.received), refl)
  read_each-Agrees ([] ∷ fs) c n e = absurd (omega (arith, n.0))
  read_each-Agrees ((x ∷ xs) ∷ fs) c n e =
      let p = Message.parse J (c.message ++ (x ∷ xs)) in
      let c1 = receive J p c in
      subst
        (λ b. Agrees c (read_each fs (unless J b (x ∷ xs) c)) (on_read J c.message ((x ∷ xs) ∷ fs)))
        (sym e)
        (merge p.halt p (on_read J p.buffer fs) c (read_each fs c1)
          (λ k. read_each_ended fs c1 (ap (has_thrown J) k)) (λ k. read_each-Agrees fs c1 n.1 k))

  concat-append_one : (xs : List Bytes) (x : Bytes) → concat (xs ++ (x ∷ [])) ≡ concat xs ++ x
  concat-append_one [] x = append-nil x
  concat-append_one (y ∷ xs) x =
      ap (λ l. y ++ l) (concat-append_one xs x) ∙ sym (append_assoc y (concat xs) x)

  -- Messages to all, as one connected game gets them.
  inbox_lem :
      (h : ℕ) (ms : List (GpgNetMessage J)) (box : List Bytes)
      → All (IsWireMessage J laws) ms
      → (bytes : Bytes) × (to_binaries J ms ≡ some bytes)
        × (concat
              (seat_run J h
                (map (λ m. broadcasts m) ms)
                (record { is_connected = true; inbox = box })).inbox
            ≡ concat box ++ bytes)
  inbox_lem h [] box w = ([], refl, sym (append-nil (concat box)))
  inbox_lem h (m ∷ ms) box (w, ws) =
      let (a, (ea, trip)) = message_trip J laws m w in
      let (b, eb, got) = inbox_lem h ms (box ++ (a ∷ [])) ws in
      (
        a ++ b,
        (rw (ea, eb) refl),
        ap
              (λ o.
                concat
                  (seat_run J h (map (λ k. broadcasts k) ms)
                    (deliver J (record { is_connected = true; inbox = box }) o)).inbox)
              ea
            ∙ got
            ∙ ap (λ l. l ++ b) (concat-append_one box a)
            ∙ append_assoc (concat box) a b,
      )

  -- A game that is connected, and has got nothing yet, gets messages of the adapter that the protocol can
  -- carry, and no others. Whatever non-empty fragments the bytes arrive in, the test client receives
  -- exactly these messages, in order, and its buffer is empty afterwards.
  pub server_reaches_client :
      (h : ℕ) (ms : List (GpgNetMessage J)) (s : GpgNetServer) (f : Bytes) (fs : List Bytes)
      → All (IsWireMessage J laws) ms
      → IsSorted s.connected
      → contains h s.connected ≡ true
      → received_by h s.written ≡ []
      → NonEmpty f
      → All NonEmpty fs
      → f ++ concat fs ≡ concat (received_by h (serve J (map (λ m. broadcasts m) ms) s).written)
      → ((read_each (f ∷ fs) (new_client J)).received ≡ ms)
        × ((read_each (f ∷ fs) (new_client J)).message ≡ [])
  server_reaches_client h ms s f fs w sorted here fresh n ns cut =
      let events = map (λ m. broadcasts m) ms in
      let (bytes, e, got) = inbox_lem h ms [] w in
      let alone : seat_of J h s ≡ record { is_connected = true; inbox = [] } =
        ap (λ b. record { is_connected = b; inbox = received_by h s.written }) here
        ∙ ap (λ l. record { is_connected = true; inbox = l }) fresh in
      let sent : concat (received_by h (serve J events s).written) ≡ bytes =
        ap (λ a. concat a.inbox)
          ((serve_refines J h events s sorted).0 ∙ ap (seat_run J h events) alone)
        ∙ got in
      let arrives = fragments_deliver J laws ms bytes f fs w e n ns (cut ∙ sent) in
      let same = read_each-Agrees (f ∷ fs) (new_client J) (n, ns) refl in
      (same.0 ∙ arrives.0, same.1 ∙ arrives.1)
